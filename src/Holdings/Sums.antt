-- ===== src/Holdings/Sums.antt =====
-- The sums that `select_from` works with are exact while they stay in range.
use silvana_book_agent.Common.{
  ℕ, zero, suc, ◌≡◌, ◌⊎◌, ap, take, refl, inl, inr, Bool, true, Option, none, some, List, [], ◌∷◌,
  ◌++◌, arith, Bool-cases, find, reverse, All,
}
use silvana_book_agent.Common.Int.{ℤ, pos, ◌+ℤ◌, ◌≤ℤ◌, +ℤ_parts, -ℤ_parts, eq_of_parts}
use silvana_book_agent.Common.Decimal.{Decimal, Amounts, le}
use silvana_book_agent.Holdings.{CachedHolding}
use silvana_book_agent.Holdings.Pick.{greedy}

pub All-append_left {ℓ κ} :
    {A : Type ℓ} (P : A → Type κ) (xs ys : List A) → All P (xs ++ ys) → All P xs
All-append_left P [] ys a = tt
All-append_left P (x ∷ xs) ys a = (a.0, All-append_left P xs ys a.1)

pub All-append_right {ℓ κ} :
    {A : Type ℓ} (P : A → Type κ) (xs ys : List A) → All P (xs ++ ys) → All P ys
All-append_right P [] ys a = a
All-append_right P (x ∷ xs) ys a = All-append_right P xs ys a.1

pub find-holds {ℓ} :
    {A : Type ℓ} (p : A → Bool) (xs : List A) {h : A} → find p xs ≡ some h → p h ≡ true
find-holds p [] e = cc
find-holds p (x ∷ xs) {h} e = elim (Bool-cases (p x)) [
  | inl fit ↦ let same : x ≡ h = ground arith in ground arith
  | inr other ↦ find-holds p xs {h = h} (ground arith)
]

module _ (d : Decimal) where
  -- The sum of the holdings' amounts, as numbers.
  unfoldable pub worth : List (CachedHolding d) → ℤ
  worth [] = pos 0
  worth (h ∷ hs) = d.units h.amount +ℤ worth hs

module _ (d : Decimal) (m : Amounts d) where
  open d use {Carrier, units, nought, checked_add, checked_sub}

  abbrev Holding : Type 0
  Holding = CachedHolding d

  -- The holding's amount is one that the ledger has, and not negative.
  pub record IsFund (h : CachedHolding d) : Type 0 where
    pub amount : m.IsAmount h.amount
    pub positive : pos 0 ≤ℤ d.units h.amount

  pub worth-append : (xs ys : List Holding) → worth d (xs ++ ys) ≡ worth d xs +ℤ worth d ys
  unfolding worth
  worth-append [] ys =
      ground (arith, eq_of_parts (worth d ys) (pos 0 +ℤ worth d ys), +ℤ_parts (pos 0) (worth d ys))
  worth-append (x ∷ xs) ys =
      let rest : worth d (xs ++ ys) ≡ worth d xs +ℤ worth d ys = worth-append xs ys in
      rw (rest) (
        ground (
          arith,
          eq_of_parts (units x.amount +ℤ (worth d xs +ℤ worth d ys))
              ((units x.amount +ℤ worth d xs) +ℤ worth d ys),
          +ℤ_parts (worth d xs) (worth d ys),
          +ℤ_parts (units x.amount) (worth d xs +ℤ worth d ys),
          +ℤ_parts (units x.amount) (worth d xs),
          +ℤ_parts (units x.amount +ℤ worth d xs) (worth d ys),
        ))

  pub worth-positive : (xs : List Holding) → All IsFund xs → pos 0 ≤ℤ worth d xs
  unfolding worth
  worth-positive [] a = ground arith
  worth-positive (x ∷ xs) a =
      let p = worth-positive xs a.1 in
      let q = a.0.positive in omega (arith, +ℤ_parts (units x.amount) (worth d xs))

  pub worth-reverse : (xs : List Holding) → worth d (reverse xs) ≡ worth d xs
  unfolding worth
  worth-reverse [] = refl
  worth-reverse (x ∷ xs) =
      rw (worth-append (reverse xs) (x ∷ []), worth-reverse xs)
        (ground (
          arith,
          eq_of_parts (worth d xs +ℤ (units x.amount +ℤ pos 0)) (units x.amount +ℤ worth d xs),
          +ℤ_parts (units x.amount) (pos 0),
          +ℤ_parts (worth d xs) (units x.amount +ℤ pos 0),
          +ℤ_parts (units x.amount) (worth d xs),
        ))

  -- An answer of the greedy loop: it is one, its total is exact, and it reaches the target or has
  -- every holding that it may have.
  abbrev pub Adds : Carrier → ℕ → Carrier → List Holding → Option (List Holding × Carrier) → Type 0
  Adds target left total hs none = ⊥
  Adds target left total hs (some (picks, sum)) =
      (units sum ≡ units total +ℤ worth d picks)
      × m.IsAmount sum
      × (worth d picks ≤ℤ worth d hs)
      × ((le d target sum ≡ true) ⊎ (worth d picks ≡ worth d (take left hs)))

  pub adds-nothing : (total : Carrier) → units total ≡ units total +ℤ pos 0
  adds-nothing total =
      ground
        (arith, eq_of_parts (units total) (units total +ℤ pos 0), +ℤ_parts (units total) (pos 0))

  assoc_units : (a b c : ℤ) → (a +ℤ b) +ℤ c ≡ a +ℤ (b +ℤ c)
  assoc_units a b c = ground (
    arith,
    eq_of_parts ((a +ℤ b) +ℤ c) (a +ℤ (b +ℤ c)),
    +ℤ_parts a b,
    +ℤ_parts (a +ℤ b) c,
    +ℤ_parts b c,
    +ℤ_parts a (b +ℤ c),
  )

  Adds-pick :
      (target : Carrier) (left : ℕ) (total next : Carrier) (h : Holding) (hs : List Holding)
      (answer : Option (List Holding × Carrier))
      → units next ≡ units total +ℤ units h.amount
      → Adds target left next hs answer
      → Adds target
          (suc left)
          total
          (h ∷ hs)
          (elim answer [ none ↦ none | some (picks, sum) ↦ some (h ∷ picks, sum) ])
  unfolding worth
  Adds-pick target left total next h hs none nu a = a
  Adds-pick target left total next h hs (some (picks, sum)) nu (e, k, l, r) = (
    rw (e, nu) (assoc_units (units total) (units h.amount) (worth d picks)),
    k,
    omega
        (arith, +ℤ_parts (units h.amount) (worth d picks), +ℤ_parts (units h.amount) (worth d hs)),
    elim r [ inl enough ↦ inl enough | inr all ↦ inr (rw (all) refl) ],
  )

  pub greedy-Adds :
      (target : Carrier) (left : ℕ) (total : Carrier) (hs : List Holding)
      → All IsFund hs
      → m.IsAmount total
      → pos 0 ≤ℤ units total
      → units total +ℤ worth d hs ≤ℤ pos m.limit
      → Adds target left total hs (greedy d target left total hs)
  unfolding greedy worth
  greedy-Adds target zero total [] a t p l = (adds-nothing total, t, ground arith, inr refl)
  greedy-Adds target (suc left) total [] a t p l = (adds-nothing total, t, ground arith, inr refl)
  greedy-Adds target zero total (h ∷ hs) a t p l =
      (adds-nothing total, t, worth-positive (h ∷ hs) a, inr refl)
  greedy-Adds target (suc left) total (h ∷ hs) a t p l =
      let w = worth-positive hs a.1 in
      let q = a.0.positive in
      let (next, ne, nu, na) =
        m.add_total total h.amount t a.0.amount
          (omega (
            arith,
            +ℤ_parts (units total) (units h.amount),
            +ℤ_parts (units h.amount) (worth d hs),
            +ℤ_parts (units total) (units h.amount +ℤ worth d hs),
          ))
          (omega
            (arith, +ℤ_parts (units total) (units h.amount), -ℤ_parts (pos 0) (pos m.limit))) in
      elim (Bool-cases (le d target next)) [
        | inl enough ↦
            rw (ne, enough, greedy)
              (
                rw (nu) (ap (λ x. units total +ℤ x) (adds-nothing h.amount)),
                na,
                omega (
                  arith,
                  +ℤ_parts (units h.amount) (pos 0),
                  +ℤ_parts (units h.amount) (worth d hs),
                ),
                inl enough,
              )
        | inr more ↦
            rw (ne, more, greedy)
              (Adds-pick target left total next h hs (greedy d target left next hs) nu (
                greedy-Adds target left next hs a.1 na
                  (rw (nu) (omega (arith, +ℤ_parts (units total) (units h.amount))))
                  (rw (nu, assoc_units (units total) (units h.amount) (worth d hs)) l)))
      ]
