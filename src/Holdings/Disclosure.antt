-- ===== src/Holdings/Disclosure.antt =====
-- What a selection for disclosure promises to the settlement that uses it.
use silvana_book_agent.Common.{
  ℕ, zero, suc, ◌-◌, ◌≤◌, ◌≡◌, subst, ◌∙◌, refl, inl, inr, min, Bool, true, false, not, ◌&&◌, ◌||◌,
  Option, none, some, List, [], ◌∷◌, ◌++◌, arith, ◌==◌, Bool-cases, Option-cases, filter, is_some,
  length, length-append, take, All, All-append, All-filter, All-imp, nat_Eq,
}
use silvana_book_agent.Common.Text.{Text, text_Eq, text_eq_iff}
use silvana_book_agent.Common.Dict.{lookup, IsUnique}
use silvana_book_agent.Common.Decimal.{Decimal, le}
use silvana_book_agent.Holdings.{CachedHolding, HoldingsCache, dust_merge_max_inputs}
use silvana_book_agent.Holdings.Pools.{splitter_to_exclude, get_selectable}
use silvana_book_agent.Holdings.Pick.{is_picked, select_from}
use silvana_book_agent.Holdings.Picked.{Distinct, IsPickedFrom, select_from-picked}
use silvana_book_agent.Holdings.Selectable.{IsUsable, get_selectable-IsUsable}
use silvana_book_agent.Holdings.Ids.{filter-Distinct, blob_ready-Distinct}
use silvana_book_agent.Holdings.Refresh.{IsKeyed}
use silvana_book_agent.Holdings.Choose.{
  disclosure_target, is_dust, from_dust, sweep, choose, blob_ready, select_for_disclosure_with,
}

module _ (d : Decimal) where
  open d use {Carrier}

  abbrev Holding : Type 0
  Holding = CachedHolding d

  pub take-All {ℓ} :
      (P : CachedHolding d → Type ℓ) (n : ℕ) (hs : List Holding) → All P hs → All P (take n hs)
  take-All P zero hs a = tt
  take-All P (suc n) [] a = tt
  take-All P (suc n) (h ∷ hs) a = (a.0, take-All P n hs a.1)

  take-absent :
      (h : Holding) (n : ℕ) (hs : List Holding)
      → is_picked d h hs ≡ false
      → is_picked d h (take n hs) ≡ false
  take-absent h zero hs e = refl
  take-absent h (suc n) [] e = refl
  take-absent h (suc n) (x ∷ xs) e = ground (arith, take-absent h n xs)

  take-Distinct : (n : ℕ) (hs : List Holding) → Distinct d hs → Distinct d (take n hs)
  take-Distinct zero hs u = tt
  take-Distinct (suc n) [] u = tt
  take-Distinct (suc n) (h ∷ hs) u = (take-absent h n hs u.0, take-Distinct n hs u.1)

  length-take_le : (n : ℕ) (hs : List Holding) → length (take n hs) ≤ n
  length-take_le zero hs = ground arith
  length-take_le (suc n) [] = ground arith
  length-take_le (suc n) (h ∷ hs) = ground (arith, length-take_le n hs)

  apart :
      (x : Holding) (xs ys : List Holding)
      → is_picked d x xs ≡ false
      → All (λ y. (x.contract_id == y.contract_id) ≡ false) ys
      → is_picked d x (xs ++ ys) ≡ false
  apart x (z ∷ xs) ys e a = ground (arith, apart x xs ys (ground arith) a)
  apart x [] [] e a = refl
  apart x [] (y ∷ ys) e a = ground (
    arith,
    apart x [] ys refl a.1,
    text_eq_iff x.contract_id y.contract_id,
    text_eq_iff y.contract_id x.contract_id,
  )

  join-Distinct :
      (xs ys : List Holding)
      → Distinct d xs
      → Distinct d ys
      → All (λ y. is_picked d y xs ≡ false) ys
      → Distinct d (xs ++ ys)
  join-Distinct [] ys u v a = v
  join-Distinct (x ∷ xs) ys u v a = (
    apart x xs ys u.0 (All-imp (λ y e. ground arith) ys a),
    join-Distinct xs ys u.1 v (All-imp (λ y e. ground arith) ys a),
  )

  module _ {ℓ} (P : CachedHolding d → Type ℓ) where
    unpicked :
        (threshold : Carrier) (picks hs : List Holding)
        → All
            (λ y. is_picked d y picks ≡ false)
            (filter (λ h. is_dust d threshold h && not (is_picked d h picks)) hs)
    unpicked threshold picks [] = tt
    unpicked threshold picks (h ∷ hs) = ground (arith, unpicked threshold picks hs)

    swept :
        (dust_below : Option Carrier) (selectable : List Holding) (max_inputs : ℕ)
        (picks : List Holding)
        → All P selectable
        → Distinct d selectable
        → IsPickedFrom d P max_inputs picks
        → IsPickedFrom d P max_inputs (picks ++ sweep d dust_below selectable max_inputs picks)
    unfolding sweep
    swept none selectable max_inputs picks a u k = record {
      each = All-append P picks [] k.each tt;
      distinct = join-Distinct picks [] k.distinct tt tt;
      few = ground (arith, length-append picks [], k.few);
    }
    swept (some threshold) selectable max_inputs picks a u k =
        let fits : CachedHolding d → Bool =
          λ h. is_dust d threshold h && not (is_picked d h picks) in
        let n =
          min (dust_merge_max_inputs - length (filter (is_dust d threshold) picks))
            (max_inputs - length picks) in
        let few = k.few in
        record {
          each =
              All-append P picks (take n (filter fits selectable)) k.each
                (take-All P n (filter fits selectable) (All-filter P fits selectable a));
          distinct =
              join-Distinct picks (take n (filter fits selectable)) k.distinct
                (take-Distinct n (filter fits selectable) (filter-Distinct d fits selectable u))
                (take-All (λ y. is_picked d y picks ≡ false) n (filter fits selectable)
                  (unpicked threshold picks selectable));
          few =
              rw (length-append picks (take n (filter fits selectable)))
                (omega (arith, length-take_le n (filter fits selectable)));
        }

    from_dust-picked :
        (dust_below : Option Carrier) (selectable : List Holding) (target : Carrier)
        (max_inputs : ℕ) (picks : List Holding)
        → All P selectable
        → Distinct d selectable
        → 1 ≤ max_inputs
        → from_dust d dust_below selectable target max_inputs ≡ some picks
        → IsPickedFrom d P max_inputs picks
    unfolding from_dust
    from_dust-picked none selectable target max_inputs picks a u one e = cc
    from_dust-picked (some threshold) selectable target max_inputs picks a u one e =
        let k =
          select_from-picked d P (filter (is_dust d threshold) selectable) target
            (min dust_merge_max_inputs max_inputs) picks
            (All-filter P (is_dust d threshold) selectable a)
            (filter-Distinct d (is_dust d threshold) selectable u) (omega arith) e in
        let few = k.few in record { each = k.each; distinct = k.distinct; few = omega arith }

    pub choose-picked :
        (dust_below : Option Carrier) (selectable : List Holding) (target : Carrier)
        (max_inputs : ℕ) (picks : List Holding)
        → All P selectable
        → Distinct d selectable
        → 1 ≤ max_inputs
        → choose d dust_below selectable target max_inputs ≡ some picks
        → IsPickedFrom d P max_inputs picks
    unfolding choose
    choose-picked dust_below selectable target max_inputs picks a u one e =
        elim (Option-cases (from_dust d dust_below selectable target max_inputs)) [
          | inr (found, dust) ↦
              from_dust-picked dust_below selectable target max_inputs picks a u one
                (dust ∙ (rw (dust, choose) at e))
          | inl no_dust ↦ elim (Option-cases (select_from d selectable target max_inputs)) [
            | inl short ↦ let nothing : none ≡ some picks = rw (no_dust, short, choose) at e in cc
            | inr (found, sel) ↦
                let same : found ++ sweep d dust_below selectable max_inputs found ≡ picks =
                  ground arith in
                subst (IsPickedFrom d P max_inputs) same (
                  swept dust_below selectable max_inputs found a u
                    (select_from-picked d P selectable target max_inputs found a u one sel))
          ]
        ]

  -- The holding may be used, and what its disclosure needs is there.
  pub record IsDisclosable (c : HoldingsCache d) (now : ℕ) (instrument : Text)
      (left_out : Option Text) (h : CachedHolding d) : Type 0 where
    pub usable : IsUsable d c now instrument left_out h
    pub has_blob : is_some h.created_event_blob ≡ true

  blob_ready-IsDisclosable :
      (c : HoldingsCache d) (now : ℕ) (instrument : Text) (left_out : Option Text)
      (hs : List (CachedHolding d))
      → All (IsUsable d c now instrument left_out) hs
      → All
          (IsDisclosable c now instrument left_out)
          (filter (λ h. is_some h.created_event_blob) hs)
  blob_ready-IsDisclosable c now instrument left_out [] a = tt
  blob_ready-IsDisclosable c now instrument left_out (h ∷ hs) a =
      elim (Bool-cases (is_some h.created_event_blob)) [
        | inl there ↦ rw (there) (
          record { usable = a.0; has_blob = there },
          blob_ready-IsDisclosable c now instrument left_out hs a.1,
        )
        | inr pending ↦ rw (pending) (blob_ready-IsDisclosable c now instrument left_out hs a.1)
      ]

  -- A selection for disclosure, if there is one, has at most `max_inputs` holdings, none of them
  -- twice. Each is of the instrument, seen within the time to live, not consumed, under no live
  -- reservation, ready to be disclosed, and not the splitter reserve unless that is allowed. (In a
  -- cache where each holding stands under its own id, and none twice.)
  pub select_for_disclosure_with-picked :
      (instrument : Text) (amount : d.Carrier) (max_inputs : ℕ) (is_cc include_reserve : Bool)
      (now : ℕ) (c : HoldingsCache d) (picks : List (CachedHolding d))
      → IsKeyed d c.available
      → IsUnique c.available
      → select_for_disclosure_with d instrument amount max_inputs is_cc include_reserve now c
        ≡ some picks
      → IsPickedFrom d
          (IsDisclosable c now instrument
            (splitter_to_exclude d c now instrument (not include_reserve)))
          max_inputs
          picks
  unfolding select_for_disclosure_with blob_ready
  select_for_disclosure_with-picked instrument amount max_inputs is_cc include_reserve now c picks k
        u e =
      elim (Bool-cases (le d amount d.nought || (max_inputs == 0))) [
        | inl refused ↦ ground arith
        | inr asked ↦ elim (Option-cases (disclosure_target d amount is_cc)) [
          | inl over ↦ ground arith
          | inr (target, te) ↦
              choose-picked
                (IsDisclosable c now instrument
                  (splitter_to_exclude d c now instrument (not include_reserve)))
                (lookup instrument c.dust_below) (blob_ready d instrument include_reserve now c)
                target max_inputs picks
                (blob_ready-IsDisclosable c now instrument
                  (splitter_to_exclude d c now instrument (not include_reserve))
                  (get_selectable d instrument (not include_reserve) now c)
                  (get_selectable-IsUsable d instrument (not include_reserve) now c).1)
                (blob_ready-Distinct d instrument include_reserve now c k u) (ground arith)
                (ground arith)
        ]
      ]
