-- ===== src/SplitWorker/Plan.antt =====
-- What the plans of crates/cloud-agent/src/split_worker.rs add up to, and what `plan_merge` leaves.
use silvana_book_agent.Common.{
  ℕ, ◌+◌, ◌-◌, ◌*◌, ◌/◌, ◌≤◌, ◌≡◌, refl, min, max, false, ◌⊎◌, inl, inr, List, [], ◌∷◌, arith, ltb,
  Bool-cases, length,
}
use silvana_book_agent.Holdings.{u32_max}
use silvana_book_agent.SplitWorker.{
  cap_from, cap_split_outputs, counts, count_sum, count_sum_from, sat_add, is_triggered, deficits,
  plan_ladder_refill,
}

mul_le : (a b c : ℕ) → a ≤ b → a * c ≤ b * c
mul_le a b c h = grind arith

module _ {ℓ} {D : Type ℓ} where
  -- The outputs of splits
  abbrev pub total : List (D × ℕ) → ℕ
  total [] = 0
  total ((_, c) ∷ rest) = c + total rest

  cap_from-total :
      (most used : ℕ) (splits : List (D × ℕ))
      → used ≤ most
      → most ≤ u32_max
      → total (cap_from most used splits) ≡ min (total splits) (most - used)
  unfolding cap_from
  cap_from-total most used [] h k = ground arith
  cap_from-total most used ((denom, count) ∷ rest) h k = ground (
    arith,
    cap_from-total most used rest h k,
    cap_from-total most (sat_add used (min count (most - used))) rest (ground arith) k,
  )

  -- The outputs weighed by their denomination: by its price, or by whether it is one denomination
  abbrev pub weight : (D → ℕ) → List (D × ℕ) → ℕ
  weight w [] = 0
  weight w ((denom, c) ∷ rest) = c * w denom + weight w rest

  cap_from-weight :
      (w : D → ℕ) (most used : ℕ) (splits : List (D × ℕ))
      → weight w (cap_from most used splits) ≤ weight w splits
  unfolding cap_from
  cap_from-weight w most used [] = ground arith
  cap_from-weight w most used ((denom, count) ∷ rest) =
      let taken = min count (most - used) in
      ground (
        arith,
        mul_le taken count (w denom) (ground arith),
        cap_from-weight w most used rest,
        cap_from-weight w most (sat_add used taken) rest,
      )

  -- Within the limit, `cap_split_outputs` keeps as many outputs as the limit allows, and of no weighing
  -- more than there was.
  pub cap_split_outputs-total :
      (splits : List (D × ℕ)) (most : ℕ)
      → most ≤ u32_max
      → (total (cap_split_outputs splits most) ≡ min (total splits) most)
        × ((w : D → ℕ) → weight w (cap_split_outputs splits most) ≤ weight w splits)
  unfolding cap_split_outputs
  cap_split_outputs-total splits most h = (
    ground (arith, cap_from-total most 0 splits (omega arith) h),
    λ w. cap_from-weight w most 0 splits,
  )

  count_sum_from-total :
      (acc : ℕ) (splits : List (D × ℕ))
      → acc ≤ u32_max
      → count_sum_from acc (counts splits) ≡ min (acc + total splits) u32_max
  unfolding count_sum_from
  count_sum_from-total acc [] h = ground arith
  count_sum_from-total acc ((denom, c) ∷ rest) h =
      ground (arith, count_sum_from-total (sat_add acc c) rest (ground arith))

  pub count_sum-total :
      (splits : List (D × ℕ)) → count_sum (counts splits) ≡ min (total splits) u32_max
  unfolding count_sum
  count_sum-total splits = ground (arith, count_sum_from-total 0 splits (omega arith))

  -- What the rungs have, and no more than they want, weighed
  abbrev pub have_weight : (D → ℕ) → List (D × ℕ) → List ℕ → ℕ
  have_weight w [] haves = 0
  have_weight w (_ ∷ _) [] = 0
  have_weight w ((denom, count) ∷ rungs) (have ∷ haves) =
      min have count * w denom + have_weight w rungs haves

  deficits-weight :
      (w : D → ℕ) (rungs : List (D × ℕ)) (haves : List ℕ)
      → length rungs ≡ length haves
      → weight w (deficits rungs haves) + have_weight w rungs haves ≡ weight w rungs
  unfolding deficits
  deficits-weight w [] haves h = refl
  deficits-weight w ((denom, count) ∷ rungs) [] h = absurd (omega arith)
  deficits-weight w ((denom, count) ∷ rungs) (have ∷ haves) h =
      let ih = deficits-weight w rungs haves (omega arith) in
      elim (Bool-cases (ltb have count)) [
        | inl lacking ↦
            let split : (count - have) * w denom + min have count * w denom ≡ count * w denom =
              grind arith in
            rw lacking (omega arith)
        | inr enough ↦
            let all : min have count ≡ count = ground arith in rw (enough, all) (omega arith)
      ]

  -- Every rung has a holding, and the share of its count that the divisor asks for.
  abbrev pub AreStocked : List (D × ℕ) → List ℕ → ℕ → Type 0
  AreStocked [] haves divisor = Unit
  AreStocked (_ ∷ _) [] divisor = Unit
  AreStocked ((_, count) ∷ rungs) (have ∷ haves) divisor =
      (1 ≤ have) × (count / divisor ≤ have) × AreStocked rungs haves divisor

  not_triggered :
      (rungs : List (D × ℕ)) (haves : List ℕ) (divisor : ℕ)
      → 1 ≤ divisor
      → is_triggered rungs haves divisor ≡ false
      → AreStocked rungs haves divisor
  unfolding is_triggered
  not_triggered [] haves divisor p h = tt
  not_triggered (_ ∷ _) [] divisor p h = tt
  not_triggered ((_, count) ∷ rungs) (have ∷ haves) divisor p h =
      ground (arith, not_triggered rungs haves divisor p)

  -- Either no refill is planned and every rung is stocked: it has a holding, and its count over
  -- the divisor. Or the refill makes the whole ladder full: by any weighing of the denominations,
  -- the planned splits and what the rungs have, each at most its count, make up what the ladder
  -- wants.
  pub plan_ladder_refill-weight :
      (rungs : List (D × ℕ)) (haves : List ℕ) (divisor : ℕ)
      → length rungs ≡ length haves
      → ((plan_ladder_refill rungs haves divisor ≡ []) × AreStocked rungs haves (max divisor 1))
        ⊎ ((w : D → ℕ)
            → weight w (plan_ladder_refill rungs haves divisor) + have_weight w rungs haves
              ≡ weight w rungs)
  unfolding plan_ladder_refill
  plan_ladder_refill-weight rungs haves divisor h =
      elim (Bool-cases (is_triggered rungs haves (max divisor 1))) [
        | inl low ↦ rw low (inr (λ w. deficits-weight w rungs haves h))
        | inr stocked ↦
            rw stocked (inl (refl, not_triggered rungs haves (max divisor 1) (omega arith) stocked))
      ]
