-- ===== src/PaymentQueue/Cover.antt =====
-- What the selection of amulets guarantees to the transaction that spends them.
use silvana_book_agent.Common.{
  ℕ, zero, suc, ◌≤◌, ◌≡◌, refl, ap, ◌∙◌, inl, inr, ◌⊎◌, true, false, Option, none, some, List, [],
  ◌∷◌, ◌++◌, map, arith, leb, length, get_elem?, reverse, All, All-reverse, Bool-cases,
  Option-cases, length-append,
}
use mathlib.Core.List.{append_assoc}
use silvana_book_agent.Common.Decimal.{Decimal, Margins, le, sum_from, dec_sum}
use silvana_book_agent.PaymentQueue.Select.{
  CachedAmulet, max_amulet_inputs, enumerate, with_fee_margin, position_from, gather,
  select_amulet_indices, pick_all, select_amulets_for_allocation, selection_short, short_of,
}

-- The amounts at the indices, in their order.
pub amounts_at : {A : Type 0} → List A → List ℕ → List A
amounts_at xs [] = []
amounts_at xs (i ∷ is) = elim (get_elem? xs i) [
  | none ↦ amounts_at xs is
  | some a ↦ a ∷ amounts_at xs is
]

-- The pair is an element of the list with its index.
abbrev At : {A : Type 0} → List A → ℕ × A → Type 0
At xs p = get_elem? xs p.0 ≡ some p.1

get-middle :
    {A : Type 0} (before : List A) (x : A) (xs : List A)
    → get_elem? (before ++ x ∷ xs) (length before) ≡ some x
get-middle [] x xs = refl
get-middle (y ∷ before) x xs = get-middle before x xs

At-enumerate :
    {A : Type 0} (before xs : List A) (i : ℕ)
    → length before ≡ i
    → All (At (before ++ xs)) (enumerate i xs)
unfolding enumerate
At-enumerate before [] i e = tt
At-enumerate before (x ∷ xs) i e = (
  rw (← e) (get-middle before x xs),
  rw (append_assoc before (x ∷ []) xs) at
      (At-enumerate (before ++ x ∷ []) xs (suc i) (omega (arith, length-append before (x ∷ [])))),
)

amounts_at-snoc :
    {A : Type 0} (xs : List A) (is : List ℕ) (i : ℕ) {a : A}
    → get_elem? xs i ≡ some a
    → amounts_at xs (is ++ i ∷ []) ≡ amounts_at xs is ++ a ∷ []
unfolding amounts_at
amounts_at-snoc xs [] i h = ground arith
amounts_at-snoc xs (j ∷ is) i {a} h = ground (arith, amounts_at-snoc xs is i {a = a} h)

module _ (d : Decimal) where
  open d use {Carrier, units, nought, checked_add}

  -- A sum reaches the target, or is out of range.
  abbrev pub Reaches : Carrier → Option Carrier → Type 0
  Reaches target none = Unit
  Reaches target (some total) = le d target total ≡ true

  sum-snoc :
      (start : Carrier) (xs : List Carrier) (a : Carrier) {total : Carrier}
      → sum_from d start xs ≡ some total
      → sum_from d start (xs ++ a ∷ []) ≡ checked_add total a
  unfolding sum_from
  sum-snoc start [] a h = ground arith
  sum-snoc start (x ∷ xs) a {total} h = elim (Option-cases (checked_add start x)) [
    | inl over ↦ ground arith
    | inr (next, e) ↦ rw (e, sum_from) (sum-snoc next xs a {total = total} (rw (e, sum_from) at h))
  ]

  -- An answer of the loop: none, or at most 100 indices whose amounts reach the target.
  abbrev pub Covers : List Carrier → Carrier → List ℕ → Type 0
  Covers xs target is =
      (is ≡ []) ⊎ ((length is ≤ max_amulet_inputs) × Reaches target (dec_sum d (amounts_at xs is)))

  grown :
      (xs : List Carrier) (is : List ℕ) (i : ℕ) (a total : Carrier)
      → get_elem? xs i ≡ some a
      → dec_sum d (amounts_at xs is) ≡ some total
      → dec_sum d (amounts_at xs (is ++ i ∷ [])) ≡ checked_add total a
  unfolding dec_sum
  grown xs is i a total at h =
      rw (amounts_at-snoc xs is i at) (sum-snoc nought (amounts_at xs is) a h)

  room_left :
      (is : List ℕ) (i : ℕ)
      → leb max_amulet_inputs (length is) ≡ false
      → length (is ++ i ∷ []) ≤ max_amulet_inputs
  room_left is i h = ground (arith, length-append is (i ∷ []))

  gather-Covers :
      (xs : List Carrier) (target : Carrier) (rest : List (ℕ × Carrier)) (is : List ℕ)
      (total : Carrier)
      → All (At xs) rest
      → dec_sum d (amounts_at xs is) ≡ some total
      → Covers xs target (gather d target rest is total)
  unfolding gather
  gather-Covers xs target [] is total at h = inl refl
  gather-Covers xs target ((i, a) ∷ rest) is total at h =
      let sum' = grown xs is i a total at.0 h in
      elim (Bool-cases (leb max_amulet_inputs (length is))) [
        | inl full ↦ rw (full, gather) (inl refl)
        | inr room ↦ elim (Option-cases (checked_add total a)) [
          | inl over ↦ rw (room, over, gather) (inr (room_left is i room, rw (sum', over) tt))
          | inr (next, e) ↦ elim (Bool-cases (le d target next)) [
            | inl enough ↦
                rw (room, e, enough, gather) (inr (room_left is i room, rw (sum', e) enough))
            | inr more ↦
                rw (room, e, more, gather)
                  (gather-Covers xs target rest (is ++ i ∷ []) next at.1 (sum' ∙ e))
          ]
        ]
      ]

  -- The smallest one that suffices, if there is one.
  position-Covers :
      (before xs : List Carrier) (target : Carrier) (i : ℕ) {j : ℕ}
      → length before ≡ i
      → position_from d target i xs ≡ some j
      → (a : Carrier) × (get_elem? (before ++ xs) j ≡ some a) × (le d target a ≡ true)
  unfolding position_from
  position-Covers before [] target i e h = cc
  position-Covers before (x ∷ xs) target i {j} e h = elim (Bool-cases (le d target x)) [
    | inl enough ↦
        let same : i ≡ j = ground arith in (x, rw (← same, ← e) (get-middle before x xs), enough)
    | inr more ↦ rw (append_assoc before (x ∷ []) xs) at (
        position-Covers (before ++ x ∷ []) xs target (suc i) {j = j}
          (omega (arith, length-append before (x ∷ []))) (rw (more, position_from) at h))
  ]

  Covers-single :
      Margins d
      → (xs : List Carrier) (target : Carrier) (j : ℕ) (a : Carrier) → get_elem? xs j ≡ some a
      → le d target a ≡ true
      → Covers xs target (j ∷ [])
  unfolding dec_sum amounts_at
  Covers-single m xs target j a at enough =
      inr (omega arith, rw (at, amounts_at) (go (checked_add nought a) refl))
    where
      go : (o : Option Carrier) → checked_add nought a ≡ o → Reaches target (dec_sum d (a ∷ []))
      go none e = rw (e, sum_from) tt
      go (some c) e = rw (e, sum_from, m.add_nought a c e) enough

  -- The indices that are selected are none, or at most 100 whose amounts reach the target.
  pub select_amulet_indices-Covers :
      Margins d
      → (xs : List Carrier) (target : Carrier)
      → Covers xs target (select_amulet_indices d xs target)
  unfolding select_amulet_indices
  select_amulet_indices-Covers m xs target = elim (Bool-cases (le d target nought)) [
    | inl idle ↦ rw idle (inl refl)
    | inr wanted ↦ elim (Option-cases (position_from d target 0 xs)) [
      | inl several ↦
          rw (wanted, several)
            (gather-Covers xs target (reverse (enumerate 0 xs)) [] nought
              (All-reverse (At xs) (enumerate 0 xs) (At-enumerate [] xs 0 refl))
              (unfold dec_sum amounts_at sum_from in refl))
      | inr (j, e) ↦
          let (a, at, enough) = position-Covers [] xs target 0 {j = j} refl e in
          rw (wanted, e) (Covers-single m xs target j a at enough)
    ]
  ]

get_elem?-map :
    {A B : Type 0} (f : A → B) (xs : List A) (i : ℕ) {a : A}
    → get_elem? xs i ≡ some a
    → get_elem? (map f xs) i ≡ some (f a)
get_elem?-map f [] i h = cc
get_elem?-map f (x ∷ xs) zero h = ground arith
get_elem?-map f (x ∷ xs) (suc i) {a} h = get_elem?-map f xs i {a = a} h

get_elem?-map-none :
    {A B : Type 0} (f : A → B) (xs : List A) (i : ℕ)
    → get_elem? xs i ≡ none
    → get_elem? (map f xs) i ≡ none
get_elem?-map-none f [] i h = refl
get_elem?-map-none f (x ∷ xs) zero h = cc
get_elem?-map-none f (x ∷ xs) (suc i) h = get_elem?-map-none f xs i h

module _ (d : Decimal) where
  open d use {Carrier, nought}

  map-pick_all :
      (xs : List (CachedAmulet d)) (is : List ℕ)
      → map (λ a. a.amount) (pick_all d xs is) ≡ amounts_at (map (λ a. a.amount) xs) is
  unfolding pick_all amounts_at
  map-pick_all xs [] = refl
  map-pick_all xs (i ∷ is) = elim (Option-cases (get_elem? xs i)) [
    | inl past ↦
        rw (past, get_elem?-map-none (λ a. a.amount) xs i past, pick_all, amounts_at)
          (map-pick_all xs is)
    | inr (a, e) ↦
        rw (e, get_elem?-map (λ a. a.amount) xs i {a = a} e, pick_all, amounts_at)
          (ap (λ r. a.amount ∷ r) (map-pick_all xs is))
  ]

  length-pick_all :
      (xs : List (CachedAmulet d)) (is : List ℕ) → length (pick_all d xs is) ≤ length is
  unfolding pick_all
  length-pick_all xs [] = omega arith
  length-pick_all xs (i ∷ is) = ground (arith, length-pick_all xs is)

  enough-short :
      (m : Margins d) (selected : List (CachedAmulet d)) (need target : Carrier)
      → le d need target ≡ true
      → Reaches d target (dec_sum d (map (λ a. a.amount) selected))
      → selection_short d selected need ≡ false
  unfolding selection_short
  enough-short m selected need target covers = go (dec_sum d (map (λ a. a.amount) selected))
    where
      go : (o : Option Carrier) → Reaches d target o → short_of d need o ≡ false
      go none r = refl
      go (some total) r = ground arith

  -- None, or at most 100 that do not fall short.
  abbrev pub Serves : Carrier → List (CachedAmulet d) → Type 0
  Serves need selected =
      (selected ≡ [])
      ⊎ ((selection_short d selected need ≡ false) × (length selected ≤ max_amulet_inputs))

  picked-Serves :
      (m : Margins d) (selectable : List (CachedAmulet d)) (need target : Carrier)
      → le d need target ≡ true
      → (is : List ℕ) → Covers d (map (λ a. a.amount) selectable) target is
      → Serves need (pick_all d selectable is)
  picked-Serves m selectable need target above is (inl empty) =
      rw empty (inl (unfold pick_all in refl))
  picked-Serves m selectable need target above is (inr (few, reached)) = inr (
    enough-short m (pick_all d selectable is) need target above
        (rw (map-pick_all selectable is) reached),
    omega (arith, length-pick_all selectable is),
  )

  -- The check that the scheduler makes before it reserves never fires: the amulets that are
  -- selected for an allocation are none, or at most 100 that do not fall short of the amount.
  pub select_amulets_for_allocation-covers :
      Margins d
      → (selectable : List (CachedAmulet d)) (estimated_cc : Carrier)
      → Serves estimated_cc (select_amulets_for_allocation d selectable estimated_cc)
  unfolding select_amulets_for_allocation
  select_amulets_for_allocation-covers m selectable need = elim (Bool-cases (le d need nought)) [
    | inl idle ↦ rw (idle, select_amulets_for_allocation) (inl refl)
    | inr wanted ↦ elim (Option-cases (with_fee_margin d need)) [
      | inl over ↦ rw (wanted, over, select_amulets_for_allocation) (inl refl)
      | inr (target, e) ↦
          rw (wanted, e, select_amulets_for_allocation)
            (picked-Serves m selectable need target
              (m.mul_margin need target (ground arith) (unfold with_fee_margin in e))
              (select_amulet_indices d (map (λ a. a.amount) selectable) target)
              (select_amulet_indices-Covers d m (map (λ a. a.amount) selectable) target))
    ]
  ]
