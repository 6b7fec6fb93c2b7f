-- ===== src/SplitWorker.antt =====
-- crates/cloud-agent/src/split_worker.rs and `plan_merge` of merge_worker.rs: how many holdings of each
-- denomination are split off the reserve, when, and what is merged. Counts are `u32`, times are
-- nanoseconds.
pub mod Gate
pub mod Fund
pub mod Decide
mod Plan
mod Budget
mod GateAnswers
mod Justified
mod Answers
pub mod Chunks
mod Outstanding
pub mod Attempts
mod HourlyBudget
mod Sample
mod Examples
use silvana_book_agent.Common.{
  ℕ, zero, suc, ◌+◌, ◌-◌, ◌*◌, ◌/◌, ◌^◌, min, max, Bool, true, false, ◌&&◌, ◌||◌, Option, none,
  some, List, [], ◌∷◌, ◌++◌, map, ltb, leb, nat_eq, if◌then◌else◌, length, filter, take,
}
use silvana_book_agent.Common.Decimal.{Decimal, lt}
use silvana_book_agent.Holdings.{CachedHolding, u32_max}

abbrev pub max_split_outputs_per_tx : ℕ
max_split_outputs_per_tx = 90

-- `u32::saturating_add` and `u32::saturating_mul`
abbrev pub sat_add : ℕ → ℕ → ℕ
sat_add a b = min (a + b) u32_max

abbrev pub sat_mul : ℕ → ℕ → ℕ
sat_mul a b = min (a * b) u32_max

-- `count_sum`
unfoldable pub count_sum_from : ℕ → List ℕ → ℕ
count_sum_from acc [] = acc
count_sum_from acc (c ∷ cs) = count_sum_from (sat_add acc c) cs

unfoldable pub count_sum : List ℕ → ℕ
unfolding count_sum_from
count_sum cs = count_sum_from 0 cs

module _ {ℓ} {D : Type ℓ} where
  abbrev pub counts : List (D × ℕ) → List ℕ
  counts [] = []
  counts ((_, c) ∷ rest) = c ∷ counts rest

  -- The loop of `cap_split_outputs`, with `used` outputs so far
  unfoldable pub cap_from : ℕ → ℕ → List (D × ℕ) → List (D × ℕ)
  cap_from most used [] = []
  cap_from most used ((denom, count) ∷ rest) =
      let taken = min count (most - used) in
      let skipped = cap_from most used rest in
      let others = cap_from most (sat_add used taken) rest in
      if leb most used then [] else if nat_eq taken 0 then skipped else (denom, taken) ∷ others

  unfoldable pub cap_split_outputs : List (D × ℕ) → ℕ → List (D × ℕ)
  unfolding cap_from
  cap_split_outputs splits most = cap_from most 0 splits

  -- `*have < count.checked_div(divisor).unwrap_or(*count).max(1)`, for some rung; a list that is longer
  -- than the other is cut.
  unfoldable pub is_triggered : List (D × ℕ) → List ℕ → ℕ → Bool
  is_triggered [] haves divisor = false
  is_triggered (_ ∷ _) [] divisor = false
  is_triggered ((_, count) ∷ rungs) (have ∷ haves) divisor =
      ltb have (max (if nat_eq divisor 0 then count else count / divisor) 1)
      || is_triggered rungs haves divisor

  unfoldable pub deficits : List (D × ℕ) → List ℕ → List (D × ℕ)
  deficits [] haves = []
  deficits (_ ∷ _) [] = []
  deficits ((denom, count) ∷ rungs) (have ∷ haves) =
      let others = deficits rungs haves in
      if ltb have count then (denom, count - have) ∷ others else others

  unfoldable pub plan_ladder_refill : List (D × ℕ) → List ℕ → ℕ → List (D × ℕ)
  unfolding is_triggered deficits
  plan_ladder_refill rungs haves low_water_divisor =
      let divisor = max low_water_divisor 1 in
      if is_triggered rungs haves divisor then deficits rungs haves else []

  unfoldable pub ladder_overfull : List (D × ℕ) → List ℕ → Bool
  unfolding count_sum
  ladder_overfull rungs haves =
      let target = count_sum (counts rungs) in
      ltb 0 target && leb (sat_mul target 2) (count_sum haves)

-- `plan_merge` of merge_worker.rs
module _ (d : Decimal) where
  open d use {Carrier}

  abbrev pub below_floor : Option Carrier → List (CachedHolding d) → List (CachedHolding d)
  below_floor none hs = hs
  below_floor (some floor) hs = filter (λ h. lt d h.amount floor) hs

  unfoldable pub plan_merge :
      List (CachedHolding d) → Option Carrier → ℕ → ℕ → List (CachedHolding d)
  plan_merge selectable floor threshold max_amulets =
      let dust = below_floor floor selectable in
      if leb (length dust) threshold then [] else take max_amulets dust
