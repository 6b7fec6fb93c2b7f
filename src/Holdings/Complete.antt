-- ===== src/Holdings/Complete.antt =====
-- `select_from` finds a cover when there is one.
use silvana_book_agent.Common.{
  ℕ, zero, suc, ◌≤◌, ◌≡◌, ◌∙◌, ap, subst, refl, inl, inr, true, Option, none, some, List, [], ◌∷◌,
  ◌++◌, arith, Option-cases, find, reverse, take, length, length-append, All, All-append,
  All-reverse,
}
use silvana_book_agent.Common.Int.{pos, ltb_ℤ, ◌+ℤ◌, ◌≤ℤ◌, +ℤ_parts, eq_of_parts}
use silvana_book_agent.Common.Decimal.{Decimal, Amounts, lt}
use silvana_book_agent.Holdings.{CachedHolding}
use silvana_book_agent.Holdings.Pick.{covers, greedy, if_covered, select_from}
use silvana_book_agent.Holdings.Selectable.{AtLeast, IsSorted}
use silvana_book_agent.Holdings.Sums.{worth, IsFund, worth-reverse, Adds}
use silvana_book_agent.Holdings.Covering.{start-Adds}

-- Some elements of the second list, in its order.
pub data Sub {A : Type 0} : List A → List A → Type 0 where
  nothing : Sub [] []
  keep : (x : A) {xs ys : List A} → Sub xs ys → Sub (x ∷ xs) (x ∷ ys)
  leave : (y : A) {xs ys : List A} → Sub xs ys → Sub xs (y ∷ ys)

Sub-append : {A : Type 0} {xs ys vs ws : List A} → Sub xs ys → Sub vs ws → Sub (xs ++ vs) (ys ++ ws)
Sub-append nothing t = t
Sub-append (keep x s) t = keep x (Sub-append s t)
Sub-append (leave y s) t = leave y (Sub-append s t)

Sub-none : {A : Type 0} (x : A) → Sub [] (x ∷ [])
Sub-none x = leave x nothing

append_none : {A : Type 0} (xs : List A) → xs ++ [] ≡ xs
append_none [] = refl
append_none (x ∷ xs) = ap (λ ys. x ∷ ys) (append_none xs)

Sub-reverse : {A : Type 0} {xs ys : List A} → Sub xs ys → Sub (reverse xs) (reverse ys)
Sub-reverse nothing = nothing
Sub-reverse (keep x s) = Sub-append (Sub-reverse s) (keep x nothing)
Sub-reverse {xs} (leave y {ys = ws} s) =
    subst (λ zs. Sub zs (reverse ws ++ (y ∷ []))) (append_none (reverse xs))
      (Sub-append (Sub-reverse s) (Sub-none y))

length-reverse : {A : Type 0} (xs : List A) → length (reverse xs) ≡ length xs
length-reverse [] = refl
length-reverse (x ∷ xs) = ground (arith, length-append (reverse xs) (x ∷ []), length-reverse xs)

module _ (d : Decimal) where
  open d use {units}

  abbrev Holding : Type 0
  Holding = CachedHolding d

  -- Largest first.
  abbrev IsFalling : List Holding → Type 0
  IsFalling [] = Unit
  IsFalling (h ∷ hs) = All (λ x. units x.amount ≤ℤ units h.amount) hs × IsFalling hs

  Falling-append :
      (hs : List Holding) (h : Holding)
      → IsFalling hs
      → All (λ x. units h.amount ≤ℤ units x.amount) hs
      → IsFalling (hs ++ (h ∷ []))
  Falling-append [] h f a = (tt, tt)
  Falling-append (x ∷ xs) h f a =
      (All-append _ xs (h ∷ []) f.0 (a.0, tt), Falling-append xs h f.1 a.1)

  AtLeast-All :
      (h : Holding) (hs : List Holding)
      → AtLeast d h hs
      → All (λ x. units h.amount ≤ℤ units x.amount) hs
  AtLeast-All h [] a = tt
  AtLeast-All h (x ∷ xs) a = (a.0, AtLeast-All h xs a.1)

  reverse-IsFalling : (hs : List Holding) → IsSorted d hs → IsFalling (reverse hs)
  reverse-IsFalling [] s = tt
  reverse-IsFalling (h ∷ hs) s =
      Falling-append (reverse hs) h (reverse-IsFalling hs s.1)
        (All-reverse (λ x. units h.amount ≤ℤ units x.amount) hs (AtLeast-All h hs s.0))

module _ (d : Decimal) (m : Amounts d) where
  open d use {Carrier, units, nought}

  -- The first holdings of a falling list are worth no less with one more in front.
  take-worth :
      (k : ℕ) (h : CachedHolding d) (hs : List (CachedHolding d))
      → IsFalling d (h ∷ hs)
      → All (IsFund d m) (h ∷ hs)
      → worth d (take k hs) ≤ℤ worth d (take k (h ∷ hs))
  unfolding worth
  take-worth zero h hs f a = ground arith
  take-worth (suc zero) h [] f a =
      let p = a.0.positive in omega (arith, +ℤ_parts (units h.amount) (pos 0))
  take-worth (suc (suc k)) h [] f a =
      let p = a.0.positive in omega (arith, +ℤ_parts (units h.amount) (pos 0))
  take-worth (suc k) h (x ∷ xs) f a =
      let rest = take-worth k x xs f.1 a.1 in
      let top = f.0.0 in
      omega (
        arith,
        +ℤ_parts (units x.amount) (worth d (take k xs)),
        +ℤ_parts (units h.amount) (worth d (take k (x ∷ xs))),
      )

  -- No k of a falling list are worth more than its first k.
  Sub-worth :
      (k : ℕ) {xs hs : List (CachedHolding d)}
      → Sub xs hs
      → length xs ≤ k
      → IsFalling d hs
      → All (IsFund d m) hs
      → worth d xs ≤ℤ worth d (take k hs)
  unfolding worth
  Sub-worth zero nothing l f a = ground arith
  Sub-worth (suc k) nothing l f a = ground arith
  Sub-worth zero (keep x s) l f a = ground arith
  Sub-worth (suc k) (keep x {xs} {ys = hs} s) l f a =
      let rest = Sub-worth k s (ground arith) f.1 a.1 in
      omega (
        arith,
        +ℤ_parts (units x.amount) (worth d xs),
        +ℤ_parts (units x.amount) (worth d (take k hs)),
      )
  Sub-worth k (leave y {ys = hs} s) l f a =
      let rest = Sub-worth k s l f.1 a.1 in let more = take-worth k y hs f a in omega arith

  if_covered-none :
      (asc : List (CachedHolding d)) (target : Carrier) (max_inputs : ℕ)
      (answer : Option (List (CachedHolding d) × Carrier))
      → Adds d m target max_inputs nought (reverse asc) answer
      → if_covered d asc target answer ≡ none
      → ltb_ℤ (worth d (take max_inputs (reverse asc))) (units target) ≡ true
  unfolding if_covered
  if_covered-none asc target max_inputs none adds e = absurd adds
  if_covered-none asc target max_inputs (some (picks, total)) (te, _, _, all) e =
      let short : lt d total target ≡ true = ground arith in
      let sum : units total ≡ worth d picks =
        te
        ∙ rw (m.nought_units) (
            ground (
              arith,
              eq_of_parts (pos 0 +ℤ worth d picks) (worth d picks),
              +ℤ_parts (pos 0) (worth d picks),
            )) in
      elim all [
        | inl enough ↦ ground arith
        | inr every ↦
            subst (λ x. ltb_ℤ x (units target) ≡ true) every
              (subst (λ x. ltb_ℤ x (units target) ≡ true) sum short)
      ]

  -- A selection fails only if there is no cover. If the holdings are in order of amount, none is
  -- negative and together they stay in the range where sums are exact, and a selection finds
  -- nothing, then any of the holdings, `max_inputs` at most, are worth less than the target.
  pub select_from_complete :
      (asc : List (CachedHolding d)) (target : d.Carrier) (max_inputs : ℕ)
      (chosen : List (CachedHolding d))
      → IsSorted d asc
      → All (IsFund d m) asc
      → worth d asc ≤ℤ pos m.limit
      → select_from d asc target max_inputs ≡ none
      → Sub chosen asc
      → length chosen ≤ max_inputs
      → ltb_ℤ (worth d chosen) (d.units target) ≡ true
  unfolding select_from
  select_from_complete asc target max_inputs chosen so a l s sub few =
      elim (Option-cases (find (covers d target) asc)) [
        | inr (h, single) ↦ ground arith
        | inl none_fits ↦
            let short =
              if_covered-none asc target max_inputs
                (greedy d target max_inputs nought (reverse asc))
                (start-Adds d m asc target max_inputs a l) (rw (none_fits, select_from) at s) in
            let few' : length (reverse chosen) ≤ max_inputs = rw (length-reverse chosen) few in
            let most : worth d chosen ≤ℤ worth d (take max_inputs (reverse asc)) =
              rw (← worth-reverse d m chosen) (
                Sub-worth max_inputs (Sub-reverse sub) few' (reverse-IsFalling d asc so)
                  (All-reverse (IsFund d m) asc a)) in
            ground arith
      ]
