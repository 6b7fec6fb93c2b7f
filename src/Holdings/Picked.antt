-- ===== src/Holdings/Picked.antt =====
-- What `select_from` picks: entries of its list, each once, and no more of them than allowed.
use silvana_book_agent.Common.{
  ℕ, zero, suc, ◌≤◌, ◌≡◌, subst, sym, refl, inl, inr, Bool, true, false, Option, none, some, List,
  [], ◌∷◌, ◌++◌, arith, ◌==◌, if◌then◌else◌, Bool-cases, Option-cases, find, reverse, length,
  length-append, All, All-append, All-reverse,
}
use silvana_book_agent.Common.Text.{text_Eq, text_eq_iff}
use silvana_book_agent.Common.Decimal.{Decimal, lt}
use silvana_book_agent.Holdings.{CachedHolding}
use silvana_book_agent.Holdings.Pick.{
  covers, greedy, split_last, is_picked, residual_of, fits, replacement, tighten, if_covered,
  select_from,
}

module _ (d : Decimal) where
  open d use {Carrier, nought, checked_add}

  abbrev Holding : Type 0
  Holding = CachedHolding d

  -- No two holdings of the list have one id.
  abbrev pub Distinct : List Holding → Type 0
  Distinct [] = Unit
  Distinct (h ∷ hs) = (is_picked d h hs ≡ false) × Distinct hs

  -- One holding follows the others.
  is_picked-append :
      (h g : Holding) (hs : List Holding)
      → is_picked d h hs ≡ false
      → (g.contract_id == h.contract_id) ≡ false
      → is_picked d h (hs ++ (g ∷ [])) ≡ false
  is_picked-append h g [] a b = ground arith
  is_picked-append h g (x ∷ xs) a b = ground (arith, is_picked-append h g xs)

  pub Distinct-append :
      (h : Holding) (hs : List Holding)
      → Distinct hs
      → is_picked d h hs ≡ false
      → Distinct (hs ++ (h ∷ []))
  Distinct-append h [] a b = (refl, tt)
  Distinct-append h (x ∷ xs) a b = ground (
    arith,
    Distinct-append h xs a.1,
    is_picked-append x h xs a.0,
    text_eq_iff h.contract_id x.contract_id,
    text_eq_iff x.contract_id h.contract_id,
  )

  is_picked-reverse :
      (h : Holding) (hs : List Holding)
      → is_picked d h hs ≡ false
      → is_picked d h (reverse hs) ≡ false
  is_picked-reverse h [] a = refl
  is_picked-reverse h (x ∷ xs) a =
      ground (arith, is_picked-append h x (reverse xs), is_picked-reverse h xs)

  Distinct-reverse : (hs : List Holding) → Distinct hs → Distinct (reverse hs)
  Distinct-reverse [] a = tt
  Distinct-reverse (x ∷ xs) a =
      Distinct-append x (reverse xs) (Distinct-reverse xs a.1) (is_picked-reverse x xs a.0)

  -- What the picks of a selection keep of the list they are picked from.
  pub record IsPickedFrom {ℓ} (P : CachedHolding d → Type ℓ) (left : ℕ)
      (picks : List (CachedHolding d)) : Type ℓ where
    pub each : All P picks
    pub distinct : Distinct picks
    pub few : length picks ≤ left

  abbrev pub found_picks : Option (List Holding × Carrier) → List Holding
  found_picks none = []
  found_picks (some (picks, _)) = picks

  greedy-absent :
      (g : Holding) (target : Carrier) (left : ℕ) (total : Carrier) (hs : List Holding)
      → is_picked d g hs ≡ false
      → is_picked d g (found_picks (greedy d target left total hs)) ≡ false
  unfolding greedy
  greedy-absent g target left total [] a = refl
  greedy-absent g target zero total (h ∷ hs) a = refl
  greedy-absent g target (suc left) total (h ∷ hs) a =
      elim (Option-cases (checked_add total h.amount)) [
        | inl over ↦ ground arith
        | inr (next, e) ↦ ground (arith, e, greedy-absent g target left next hs)
      ]

  pub greedy-each {ℓ} :
      (P : CachedHolding d → Type ℓ) (target : Carrier) (left : ℕ) (total : Carrier)
      (hs : List Holding)
      → All P hs
      → All P (found_picks (greedy d target left total hs))
  unfolding greedy
  greedy-each P target left total [] a = tt
  greedy-each P target zero total (h ∷ hs) a = tt
  greedy-each P target (suc left) total (h ∷ hs) a =
      elim (Option-cases (checked_add total h.amount)) [
        | inl over ↦ ground arith
        | inr (next, e) ↦ ground (arith, e, greedy-each P target left next hs a.1)
      ]

  greedy-Distinct :
      (target : Carrier) (left : ℕ) (total : Carrier) (hs : List Holding)
      → Distinct hs
      → Distinct (found_picks (greedy d target left total hs))
  unfolding greedy
  greedy-Distinct target left total [] a = tt
  greedy-Distinct target zero total (h ∷ hs) a = tt
  greedy-Distinct target (suc left) total (h ∷ hs) a =
      elim (Option-cases (checked_add total h.amount)) [
        | inl over ↦ ground arith
        | inr (next, e) ↦ ground (
          arith,
          e,
          greedy-Distinct target left next hs a.1,
          greedy-absent h target left next hs a.0,
        )
      ]

  greedy-few :
      (target : Carrier) (left : ℕ) (total : Carrier) (hs : List Holding)
      → length (found_picks (greedy d target left total hs)) ≤ left
  unfolding greedy
  greedy-few target left total [] = ground arith
  greedy-few target zero total (h ∷ hs) = ground arith
  greedy-few target (suc left) total (h ∷ hs) = elim (Option-cases (checked_add total h.amount)) [
    | inl over ↦ ground arith
    | inr (next, e) ↦ ground (arith, e, greedy-few target left next hs)
  ]

  pub find-each {ℓ} :
      (P : CachedHolding d → Type ℓ) (p : CachedHolding d → Bool) (hs : List Holding) {h : Holding}
      → All P hs
      → find p hs ≡ some h
      → P h × (p h ≡ true)
  find-each P p [] a e = cc
  find-each P p (x ∷ xs) {h} a e = elim (Bool-cases (p x)) [
    | inl fit ↦ let same : x ≡ h = ground arith in (subst P same a.0, ground arith)
    | inr other ↦ find-each P p xs {h = h} a.1 (ground arith)
  ]

  abbrev pub rejoined : Option (List Holding × Holding) → List Holding
  rejoined none = []
  rejoined (some (rest, last)) = rest ++ (last ∷ [])

  -- `split_last` cuts the list before its last element.
  pub split_last-rejoined : (hs : List Holding) → rejoined (split_last d hs) ≡ hs
  unfolding split_last
  split_last-rejoined [] = refl
  split_last-rejoined (h ∷ hs) = elim (Option-cases (split_last d hs)) [
    | inl only ↦ ground (arith, only, split_last-rejoined hs)
    | inr (cut, e) ↦ ground (arith, e, split_last-rejoined hs)
  ]

  All-append_left {ℓ} :
      (P : CachedHolding d → Type ℓ) (xs ys : List Holding) → All P (xs ++ ys) → All P xs
  All-append_left P [] ys a = tt
  All-append_left P (x ∷ xs) ys a = (a.0, All-append_left P xs ys a.1)

  is_picked-left :
      (h : Holding) (xs ys : List Holding)
      → is_picked d h (xs ++ ys) ≡ false
      → is_picked d h xs ≡ false
  is_picked-left h [] ys a = refl
  is_picked-left h (x ∷ xs) ys a = ground (arith, is_picked-left h xs ys)

  Distinct-left : (xs ys : List Holding) → Distinct (xs ++ ys) → Distinct xs
  Distinct-left [] ys a = tt
  Distinct-left (x ∷ xs) ys a = (is_picked-left x xs ys a.0, Distinct-left xs ys a.1)

  -- The picks once the last of them gave way to a holding of the list that is not among the rest.
  replaced {ℓ} :
      (P : CachedHolding d → Type ℓ) (left : ℕ) (rest : List Holding) (last h : Holding)
      → IsPickedFrom P left (rest ++ (last ∷ []))
      → P h
      → is_picked d h rest ≡ false
      → IsPickedFrom P left (rest ++ (h ∷ []))
  replaced P left rest last h k p absent = record {
    each = All-append P rest (h ∷ []) (All-append_left P rest (last ∷ []) k.each) (p, tt);
    distinct = Distinct-append h rest (Distinct-left rest (last ∷ []) k.distinct) absent;
    few = rw (length-append rest (h ∷ [])) (rw (length-append rest (last ∷ [])) at k.few);
  }

  replacement-fits {ℓ} :
      (P : CachedHolding d → Type ℓ) (asc : List Holding) (target total : Carrier)
      (rest : List Holding) (last : Holding) {h : Holding}
      → All P asc
      → replacement d asc target total rest last ≡ some h
      → P h × (is_picked d h rest ≡ false)
  unfolding replacement
  replacement-fits P asc target total [] last a e = cc
  replacement-fits P asc target total (r ∷ rest) last {h} a e =
      elim (Option-cases (residual_of d target total last)) [
        | inl over ↦ ground arith
        | inr (residual, e') ↦
            let (p, f) = find-each P (fits d residual (r ∷ rest)) asc {h = h} a (ground arith) in
            (p, ground arith)
      ]

  tighten-picked {ℓ} :
      (P : CachedHolding d → Type ℓ) (asc : List Holding) (target total : Carrier) (left : ℕ)
      (picks : List Holding)
      → All P asc
      → IsPickedFrom P left picks
      → IsPickedFrom P left (tighten d asc target total picks)
  unfolding tighten
  tighten-picked P asc target total left picks a k = elim (Option-cases (split_last d picks)) [
    | inl empty ↦ rw (empty, tighten) k
    | inr ((rest, last), e) ↦
        let joined : rest ++ (last ∷ []) ≡ picks = rw (e) at (split_last-rejoined picks) in
        elim (Option-cases (replacement d asc target total rest last)) [
          | inl keep ↦ rw (e, keep, tighten) k
          | inr (h, swap) ↦
              let (p, absent) = replacement-fits P asc target total rest last {h = h} a swap in
              rw (e, swap, tighten)
                (replaced P left rest last h (subst (IsPickedFrom P left) (sym joined) k) p absent)
        ]
  ]

  -- What a selection picks, if it picks anything: each pick has every property that all the
  -- holdings of the list have, so each comes from the list; no id is picked twice, if none is in
  -- the list twice; and there are at most `max_inputs` picks, if one input is allowed at all.
  pub select_from-picked {ℓ} :
      (P : CachedHolding d → Type ℓ) (asc : List (CachedHolding d)) (target : d.Carrier)
      (max_inputs : ℕ) (picks : List (CachedHolding d))
      → All P asc
      → Distinct asc
      → 1 ≤ max_inputs
      → select_from d asc target max_inputs ≡ some picks
      → IsPickedFrom P max_inputs picks
  unfolding select_from if_covered
  select_from-picked P asc target max_inputs picks a u one s =
      elim (Option-cases (find (covers d target) asc)) [
        | inr (h, single) ↦
            let (p, _) = find-each P (covers d target) asc {h = h} a single in
            let same : h ∷ [] ≡ picks = ground arith in
            subst (IsPickedFrom P max_inputs) same
              (record { each = (p, tt); distinct = (refl, tt); few = one })
        | inl none_fits ↦ elim (Option-cases (greedy d target max_inputs nought (reverse asc))) [
          | inl over ↦
              let nothing : none ≡ some picks = rw (none_fits, over, select_from) at s in cc
          | inr ((found, total), e) ↦
              let k : IsPickedFrom P max_inputs found = record {
                each =
                    rw (e) at
                      (greedy-each P target max_inputs nought (reverse asc) (All-reverse P asc a));
                distinct = rw (e) at (
                    greedy-Distinct target max_inputs nought (reverse asc)
                      (Distinct-reverse asc u));
                few = rw (e) at (greedy-few target max_inputs nought (reverse asc));
              } in
              let enough : (if lt d total target
                    then none
                    else some (tighten d asc target total found))
                  ≡ some picks =
                rw (none_fits, e, select_from) at s in
              let same : tighten d asc target total found ≡ picks = ground arith in
              subst (IsPickedFrom P max_inputs) same
                (tighten-picked P asc target total max_inputs found a k)
        ]
      ]
