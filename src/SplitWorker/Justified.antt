-- ===== src/SplitWorker/Justified.antt =====
-- What each answer of `ensure_denominations` of crates/cloud-agent/src/split_worker.rs rests on.
use silvana_book_agent.Common.{
  ℕ, ◌+◌, true, false, ◌*◌, ◌≤◌, ◌<◌, ◌≡◌, max, min, inl, inr, Option, none, some, List, [], ◌∷◌,
  arith, ltb, Bool-cases,
}
use silvana_book_agent.Common.Decimal.{Decimal}
use silvana_book_agent.Holdings.{CachedHolding, u32_max}
use silvana_book_agent.SplitWorker.{
  ladder_overfull, count_sum_from, sat_add, count_sum, counts, max_split_outputs_per_tx,
  plan_ladder_refill, deficits, is_triggered,
}
use silvana_book_agent.SplitWorker.Fund.{Quotients, fund_splits}
use silvana_book_agent.SplitWorker.Decide.{capped}
use silvana_book_agent.SplitWorker.Plan.{total, weight, cap_split_outputs-total, count_sum-total}
use silvana_book_agent.SplitWorker.Budget.{
  Payments, price, ArePrices, fund_splits-within, fund_splits-weight, AreWanted, AreTooDear,
}

module _ (d : Decimal) (q : Quotients d) where
  open d use {Carrier}

  capped-total :
      (splits : List (Carrier × ℕ))
      → (total (capped d q splits) ≡ min (total splits) max_split_outputs_per_tx)
        × ((w : Carrier → ℕ) → weight w (capped d q splits) ≤ weight w splits)
  unfolding capped
  capped-total splits =
      let (fits, part) = cap_split_outputs-total splits max_split_outputs_per_tx (omega arith) in
      elim (Bool-cases (ltb max_split_outputs_per_tx (count_sum (counts splits)))) [
        | inl over ↦ rw over (fits, part)
        | inr under ↦ rw under (ground (arith, count_sum-total splits), λ w. omega arith)
      ]

  deficits-ArePrices :
      (laws : Payments d q) (rungs : List (Carrier × ℕ)) (haves : List ℕ)
      → ArePrices d q laws rungs
      → ArePrices d q laws (deficits rungs haves)
  unfolding deficits
  deficits-ArePrices laws [] haves h = tt
  deficits-ArePrices laws (_ ∷ _) [] h = tt
  deficits-ArePrices laws ((denom, count) ∷ rungs) (have ∷ haves) h =
      elim (Bool-cases (ltb have count)) [
        | inl lacking ↦ rw lacking (h.0, deficits-ArePrices laws rungs haves h.1)
        | inr enough ↦ rw enough (deficits-ArePrices laws rungs haves h.1)
      ]

  pub refill-ArePrices :
      (laws : Payments d q) (rungs : List (Carrier × ℕ)) (haves : List ℕ) (divisor : ℕ)
      → ArePrices d q laws rungs
      → ArePrices d q laws (plan_ladder_refill rungs haves divisor)
  unfolding plan_ladder_refill
  refill-ArePrices laws rungs haves divisor h =
      elim (Bool-cases (is_triggered rungs haves (max divisor 1))) [
        | inl low ↦ rw low (deficits-ArePrices laws rungs haves h)
        | inr stocked ↦ rw stocked tt
      ]

  deficits-AreWanted :
      (laws : Payments d q) (rungs : List (Carrier × ℕ)) (haves : List ℕ)
      → AreWanted d q laws (deficits rungs haves)
  unfolding deficits
  deficits-AreWanted laws [] haves = tt
  deficits-AreWanted laws (_ ∷ _) [] = tt
  deficits-AreWanted laws ((denom, count) ∷ rungs) (have ∷ haves) =
      elim (Bool-cases (ltb have count)) [
        | inl lacking ↦ rw lacking (ground arith, deficits-AreWanted laws rungs haves)
        | inr enough ↦ rw enough (deficits-AreWanted laws rungs haves)
      ]

  pub refill-AreWanted :
      (laws : Payments d q) (rungs : List (Carrier × ℕ)) (haves : List ℕ) (divisor : ℕ)
      → AreWanted d q laws (plan_ladder_refill rungs haves divisor)
  unfolding plan_ladder_refill
  refill-AreWanted laws rungs haves divisor =
      elim (Bool-cases (is_triggered rungs haves (max divisor 1))) [
        | inl low ↦ rw low (deficits-AreWanted laws rungs haves)
        | inr stocked ↦ rw stocked tt
      ]

  -- The reserve, where there is one, is a price in the range in which prices are exact.
  abbrev pub IsPayable : Payments d q → Option (CachedHolding d) → Type 0
  IsPayable laws none = Unit
  IsPayable laws (some reserve) =
      laws.IsPrice reserve.amount × (price d reserve.amount ≤ laws.limit)

  -- What splits must satisfy where `wanted` is the refill, and the reserve holds `amount`
  abbrev pub AreAffordable :
      Payments d q → List (Carrier × ℕ) → Carrier → List (Carrier × ℕ) → Type 0
  AreAffordable laws wanted amount splits =
      (total splits ≤ max_split_outputs_per_tx)
      × (100 * weight (price d) splits ≤ 95 * price d amount)
      × ((w : Carrier → ℕ) → weight w splits ≤ weight w wanted)
      × (total splits ≡ 0 → AreTooDear d q laws (price d amount) wanted)

  pub funded-AreAffordable :
      (laws : Payments d q) (reserve : CachedHolding d) (wanted : List (Carrier × ℕ))
      → IsPayable laws (some reserve)
      → ArePrices d q laws wanted
      → AreWanted d q laws wanted
      → AreAffordable laws wanted reserve.amount
          (capped d q (fund_splits d q reserve.amount wanted))
  funded-AreAffordable laws reserve wanted (p, h) prices are_wanted =
      let amount = reserve.amount in
      let (few, part) = capped-total (fund_splits d q amount wanted) in
      let (within, dear) = fund_splits-within d q laws amount wanted p h prices in
      (
        omega (arith, few),
        omega (arith, part (price d), within),
        (λ w. omega (arith, part w, fund_splits-weight d q w amount wanted)),
        λ none. dear are_wanted (omega (arith, few)),
      )

-- What is held in all
abbrev pub total_have : List ℕ → ℕ
total_have [] = 0
total_have (have ∷ haves) = have + total_have haves

count_sum_from-total_have :
    (acc : ℕ) (haves : List ℕ)
    → acc ≤ u32_max
    → count_sum_from acc haves ≡ min (acc + total_have haves) u32_max
unfolding count_sum_from
count_sum_from-total_have acc [] h = ground arith
count_sum_from-total_have acc (have ∷ haves) h =
    ground (arith, count_sum_from-total_have (sat_add acc have) haves (ground arith))

-- The rungs want something, and what is held is twice that or more, or more than an `u32` can count.
abbrev pub IsOverfull {ℓ} : {D : Type ℓ} → List (D × ℕ) → List ℕ → Type 0
IsOverfull rungs haves = (0 < total rungs) × (min (2 * total rungs) u32_max ≤ total_have haves)

pub ladder_overfull-IsOverfull {ℓ} :
    {D : Type ℓ} (rungs : List (D × ℕ)) (haves : List ℕ)
    → (ladder_overfull rungs haves ≡ true → IsOverfull rungs haves)
      × (ladder_overfull rungs haves ≡ false → ¬ (IsOverfull rungs haves))
unfolding ladder_overfull count_sum
ladder_overfull-IsOverfull rungs haves =
    let want = count_sum-total rungs in
    let have = count_sum_from-total_have 0 haves (omega arith) in
    (λ e. ground (arith, want, have), λ e (some_want, much). ground (arith, want, have))
