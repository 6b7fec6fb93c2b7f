-- ===== src/SplitWorker/Outstanding.antt =====
-- What `subtract_split_chunk` of crates/cloud-agent/src/split_worker.rs leaves of each denomination.
use silvana_book_agent.Common.{
  ℕ, zero, suc, ◌+◌, ◌-◌, ◌≤◌, ◌≡◌, ◌∙◌, sym, ap, min, false, inl, inr, List, [], ◌∷◌, ◌++◌, Eq,
  ◌==◌, arith, ltb, Bool-cases, if◌then◌else◌, length,
}
use silvana_book_agent.Common.Dict.{Dict, lookup, insert, lookup-insert, ==_refl}
use silvana_book_agent.Holdings.{u32_max}
use silvana_book_agent.SplitWorker.{sat_add, cap_split_outputs}
use silvana_book_agent.SplitWorker.Plan.{total, weight, cap_split_outputs-total}
use silvana_book_agent.SplitWorker.Chunks.{
  or_zero, spend, use_up, subtract_spent, subtract_split_chunk,
}

module _ {ℓ} {D : Type ℓ} ⦃e : Eq D⦄ where
  abbrev is_denom : D → D → ℕ
  is_denom x denom = if denom == x then 1 else 0

  -- The outputs of one denomination
  abbrev pub count_of : D → List (D × ℕ) → ℕ
  count_of x splits = weight (is_denom x) splits

  abbrev avail : D → Dict D ℕ → ℕ
  avail x spent = or_zero (lookup x spent)

  avail-insert :
      (x denom : D) (v : ℕ) (spent : Dict D ℕ)
      → avail x (insert denom v spent) ≡ (if denom == x then v else avail x spent)
  avail-insert x denom v spent = ground (arith, lookup-insert denom x v spent)

  avail-use_up :
      (x denom : D) (used : ℕ) (spent : Dict D ℕ)
      → avail x (use_up denom used spent)
        ≡ (if denom == x then avail x spent - used else avail x spent)
  unfolding use_up
  avail-use_up x denom used spent =
      ground (
        arith,
        e.decides denom x,
        lookup-insert denom x (or_zero (lookup denom spent) - used) spent,
      )

  avail-spend :
      (x : D) (chunk : List (D × ℕ)) (spent : Dict D ℕ)
      → avail x spent ≤ u32_max
      → avail x (spend chunk spent) ≡ min (avail x spent + count_of x chunk) u32_max
  unfolding spend
  avail-spend x [] spent h = ground arith
  avail-spend x ((denom, count) ∷ chunk) spent h =
      let next = insert denom (sat_add (avail denom spent) count) spent in
      let kept = avail-insert x denom (sat_add (avail denom spent) count) spent in
      elim (Bool-cases (denom == x)) [
        | inl same ↦
            let same_avail = ap (λ k. avail k spent) ((e.decides denom x).0 same) in
            let at_x : avail x next ≡ min (avail x spent + count) u32_max =
              (rw same at kept) ∙ ap (λ n. min (n + count) u32_max) same_avail in
            let ih = avail-spend x chunk next (omega (arith, at_x)) in
            rw same (omega (arith, ih, at_x))
        | inr other ↦
            let at_x : avail x next ≡ avail x spent = rw other at kept in
            let ih = avail-spend x chunk next (omega (arith, at_x, h)) in
            rw other (omega (arith, ih, at_x))
      ]

  count_of-subtract_spent :
      (x : D) (spent : Dict D ℕ) (remaining : List (D × ℕ))
      → count_of x (subtract_spent spent remaining) ≡ count_of x remaining - avail x spent
  unfolding subtract_spent
  count_of-subtract_spent x spent [] = ground arith
  count_of-subtract_spent x spent ((denom, count) ∷ remaining) =
      let used = min count (avail denom spent) in
      let ih = count_of-subtract_spent x (use_up denom used spent) remaining in
      let left = avail-use_up x denom used spent in
      elim (Bool-cases (denom == x)) [
        | inl same ↦
            let same_avail = ap (λ k. avail k spent) ((e.decides denom x).0 same) in
            let at_x : avail x (use_up denom used spent) ≡ avail x spent - used = rw same at left in
            elim (Bool-cases (ltb used count)) [
              | inl more ↦ rw (more, same) (omega (arith, ih, at_x, same_avail))
              | inr all ↦ rw (all, same) (ground (arith, ih, at_x, same_avail))
            ]
        | inr other ↦
            let at_x : avail x (use_up denom used spent) ≡ avail x spent = rw other at left in
            elim (Bool-cases (ltb used count)) [
              | inl more ↦ rw (more, other) (omega (arith, ih, at_x))
              | inr all ↦ rw (all, other) (omega (arith, ih, at_x))
            ]
      ]

  -- Of each denomination, what is left is what was wanted less the outputs of the chunk, which are counted
  -- up to the greatest 32-bit number, whether a denomination stands in one rung or in several.
  pub count_of-subtract_split_chunk :
      (x : D) (remaining chunk : List (D × ℕ))
      → count_of x (subtract_split_chunk remaining chunk)
        ≡ count_of x remaining - min (count_of x chunk) u32_max
  unfolding subtract_split_chunk
  count_of-subtract_split_chunk x remaining chunk = omega (
    arith,
    count_of-subtract_spent x (spend chunk []) remaining,
    avail-spend x chunk [] (omega arith),
  )

  count_of-total : (x : D) (splits : List (D × ℕ)) → count_of x splits ≤ total splits
  count_of-total x [] = omega arith
  count_of-total x ((denom, count) ∷ splits) = elim (Bool-cases (denom == x)) [
    | inl same ↦ rw same (omega (arith, count_of-total x splits))
    | inr other ↦ rw other (omega (arith, count_of-total x splits))
  ]

  chunk-left :
      (x : D) (remaining : List (D × ℕ)) (most : ℕ)
      → most ≤ u32_max
      → let chunk = cap_split_outputs remaining most in
        count_of x chunk + count_of x (subtract_split_chunk remaining chunk) ≡ count_of x remaining
  chunk-left x remaining most h =
      let chunk = cap_split_outputs remaining most in
      let (few, part) = cap_split_outputs-total remaining most h in
      omega (
        arith,
        few,
        part (is_denom x),
        count_of-total x chunk,
        count_of-subtract_split_chunk x remaining chunk,
      )

  without : D → List (D × ℕ) → List (D × ℕ)
  without x [] = []
  without x ((denom, count) ∷ splits) =
      let rest = without x splits in if denom == x then rest else (denom, count) ∷ rest

  total-without :
      (x : D) (splits : List (D × ℕ)) → total splits ≡ count_of x splits + total (without x splits)
  unfolding without
  total-without x [] = omega arith
  total-without x ((denom, count) ∷ splits) = elim (Bool-cases (denom == x)) [
    | inl same ↦ rw same (omega (arith, total-without x splits))
    | inr other ↦ rw other (omega (arith, total-without x splits))
  ]

  length-without : (x : D) (splits : List (D × ℕ)) → length (without x splits) ≤ length splits
  unfolding without
  length-without x [] = omega arith
  length-without x ((denom, count) ∷ splits) = ground (arith, length-without x splits)

  count_of-without :
      (y x : D) (splits : List (D × ℕ))
      → count_of y (without x splits) ≡ (if x == y then 0 else count_of y splits)
  unfolding without
  count_of-without y x [] = ground arith
  count_of-without y x ((denom, count) ∷ splits) =
      let ih = count_of-without y x splits in
      elim (Bool-cases (denom == x)) [
        | inl same ↦
            let alike : (denom == y) ≡ (x == y) = ap (λ k. k == y) ((e.decides denom x).0 same) in
            elim (Bool-cases (x == y)) [
              | inl hit ↦ rw (same, hit) (rw hit at ih)
              | inr miss ↦ rw (same, miss, alike, miss) (omega (arith, rw miss at ih))
            ]
        | inr other ↦ elim (Bool-cases (x == y)) [
          | inl hit ↦
              let alike : (denom == y) ≡ false =
                ap (λ k. denom == k) (sym ((e.decides x y).0 hit)) ∙ other in
              rw (other, hit, alike) (omega (arith, rw hit at ih))
          | inr miss ↦ rw (other, miss) (omega (arith, rw miss at ih))
        ]
      ]

  -- Splits with no less of each denomination are no less in all.
  pub total_le :
      (n : ℕ) (a b : List (D × ℕ))
      → length a ≤ n
      → ((x : D) → count_of x a ≤ count_of x b)
      → total a ≤ total b
  unfolding without
  total_le n [] b h le = omega arith
  total_le zero (_ ∷ _) b h le = absurd (omega arith)
  total_le (suc n) ((denom, count) ∷ a) b h le =
      let ih =
        total_le n (without denom a) (without denom b) (omega (arith, length-without denom a)) (λ x.
          let here = count_of-without x denom a in
          let there = count_of-without x denom b in
          elim (Bool-cases (denom == x)) [
            | inl same ↦ omega (arith, rw same at here, rw same at there)
            | inr other ↦
                let below = rw other at (le x) in
                omega (arith, rw other at here, rw other at there, below)
          ]) in
      let own : count_of denom ((denom, count) ∷ a) ≡ count + count_of denom a =
        rw (==_refl denom) (omega arith) in
      omega (arith, total-without denom a, total-without denom b, ih, le denom, own)

  count_of-append : (x : D) (a b : List (D × ℕ)) → count_of x (a ++ b) ≡ count_of x a + count_of x b
  count_of-append x [] b = omega arith
  count_of-append x ((denom, count) ∷ a) b = omega (arith, count_of-append x a b)

  total-append : (a b : List (D × ℕ)) → total (a ++ b) ≡ total a + total b
  total-append [] b = omega arith
  total-append ((denom, count) ∷ a) b = omega (arith, total-append a b)

  -- Within the limit, the chunk that `cap_split_outputs` takes and what `subtract_split_chunk`
  -- leaves of the request make it up: of each denomination, no output is lost and none is asked
  -- for twice. What is left has as many outputs fewer as the limit allows, so chunk after chunk
  -- the request comes to an end.
  pub subtract_split_chunk-cap_split_outputs :
      (remaining : List (D × ℕ)) (most : ℕ)
      → most ≤ u32_max
      → let chunk = cap_split_outputs remaining most in
        let left = subtract_split_chunk remaining chunk in
        ((x : D) → count_of x chunk + count_of x left ≡ count_of x remaining)
        × (total left ≡ total remaining - most)
  subtract_split_chunk-cap_split_outputs remaining most h =
      let chunk = cap_split_outputs remaining most in
      let left = subtract_split_chunk remaining chunk in
      let both = chunk ++ left in
      let below =
        total_le (length both) both remaining (omega arith)
          (λ x. omega (arith, count_of-append x chunk left, chunk-left x remaining most h)) in
      let above =
        total_le (length remaining) remaining both (omega arith)
          (λ x. omega (arith, count_of-append x chunk left, chunk-left x remaining most h)) in
      (
        λ x. chunk-left x remaining most h,
        omega (
          arith,
          below,
          above,
          total-append chunk left,
          (cap_split_outputs-total remaining most h).0,
        ),
      )
