-- ===== src/Holdings/Funding.antt =====
-- A selection for disclosure funds its settlement, and can be reserved.
use silvana_book_agent.Common.{
  ℕ, ◌≡◌, subst, ◌∙◌, refl, inl, inr, min, Bool, true, false, not, ◌||◌, Option, none, some, List,
  [], ◌∷◌, ◌++◌, map, arith, ◌==◌, Bool-cases, Option-cases, filter, All, All-filter, nat_Eq,
}
use silvana_book_agent.Common.Text.{Text, text_Eq}
use silvana_book_agent.Common.Dict.{lookup, IsUnique}
use silvana_book_agent.Common.Int.{pos, ◌≤ℤ◌, +ℤ_parts}
use silvana_book_agent.Common.Decimal.{Decimal, Amounts, le}
use silvana_book_agent.Holdings.{CachedHolding, HoldingsCache, dust_merge_max_inputs}
use silvana_book_agent.Holdings.Pools.{splitter_to_exclude}
use silvana_book_agent.Holdings.Pick.{select_from}
use silvana_book_agent.Holdings.Sums.{worth, IsFund, worth-append, worth-positive}
use silvana_book_agent.Holdings.Covering.{select_from-covers}
use silvana_book_agent.Holdings.Refresh.{IsKeyed}
use silvana_book_agent.Holdings.Reserve.{any_blocked, reserve_with_kind, reserve_v2}
use silvana_book_agent.Holdings.Disclosure.{
  IsDisclosable, select_for_disclosure_with-picked, take-All,
}
use silvana_book_agent.Holdings.Choose.{
  disclosure_target, is_dust, from_dust, sweep, choose, blob_ready, select_for_disclosure_with,
}

module _ (d : Decimal) (m : Amounts d) where
  open d use {Carrier, units}

  abbrev Holding : Type 0
  Holding = CachedHolding d

  filter-worth :
      (p : CachedHolding d → Bool) (hs : List Holding)
      → All (IsFund d m) hs
      → worth d (filter p hs) ≤ℤ worth d hs
  unfolding worth
  filter-worth p [] a = ground arith
  filter-worth p (h ∷ hs) a =
      let q = a.0.positive in
      let rest = filter-worth p hs a.1 in
      elim (Bool-cases (p h)) [
        | inl kept ↦
            rw (kept, worth)
              (omega (
                arith,
                +ℤ_parts (units h.amount) (worth d (filter p hs)),
                +ℤ_parts (units h.amount) (worth d hs),
              ))
        | inr left ↦ rw (left) (omega (arith, +ℤ_parts (units h.amount) (worth d hs)))
      ]

  sweep-funds :
      (dust_below : Option Carrier) (selectable : List Holding) (max_inputs : ℕ)
      (picks : List Holding)
      → All (IsFund d m) selectable
      → All (IsFund d m) (sweep d dust_below selectable max_inputs picks)
  unfolding sweep
  sweep-funds none selectable max_inputs picks a = tt
  sweep-funds (some threshold) selectable max_inputs picks a =
      take-All d (IsFund d m) _ _ (All-filter (IsFund d m) _ selectable a)

  from_dust-covers :
      (dust_below : Option Carrier) (selectable : List Holding) (target : Carrier) (max_inputs : ℕ)
      (picks : List Holding)
      → All (IsFund d m) selectable
      → m.IsAmount target
      → pos 0 ≤ℤ units target
      → worth d selectable ≤ℤ pos m.limit
      → from_dust d dust_below selectable target max_inputs ≡ some picks
      → units target ≤ℤ worth d picks
  unfolding from_dust
  from_dust-covers none selectable target max_inputs picks a tm tp l e = cc
  from_dust-covers (some threshold) selectable target max_inputs picks a tm tp l e =
      let less = filter-worth (is_dust d threshold) selectable a in
      select_from-covers d m (filter (is_dust d threshold) selectable) target
        (min dust_merge_max_inputs max_inputs) picks
        (All-filter (IsFund d m) (is_dust d threshold) selectable a) tm tp (omega arith) e

  choose-covers :
      (dust_below : Option Carrier) (selectable : List Holding) (target : Carrier) (max_inputs : ℕ)
      (picks : List Holding)
      → All (IsFund d m) selectable
      → m.IsAmount target
      → pos 0 ≤ℤ units target
      → worth d selectable ≤ℤ pos m.limit
      → choose d dust_below selectable target max_inputs ≡ some picks
      → units target ≤ℤ worth d picks
  unfolding choose
  choose-covers dust_below selectable target max_inputs picks a tm tp l e =
      elim (Option-cases (from_dust d dust_below selectable target max_inputs)) [
        | inr (found, dust) ↦
            from_dust-covers dust_below selectable target max_inputs picks a tm tp l
              (dust ∙ (rw (dust, choose) at e))
        | inl no_dust ↦ elim (Option-cases (select_from d selectable target max_inputs)) [
          | inl short ↦ let nothing : none ≡ some picks = rw (no_dust, short, choose) at e in cc
          | inr (found, sel) ↦
              let more = sweep d dust_below selectable max_inputs found in
              let same : found ++ more ≡ picks = ground arith in
              let base = select_from-covers d m selectable target max_inputs found a tm tp l sel in
              let extra =
                worth-positive d m more (sweep-funds dust_below selectable max_inputs found a) in
              subst (λ xs. units target ≤ℤ worth d xs) same
                (rw (worth-append d m found more)
                  (omega (arith, +ℤ_parts (worth d found) (worth d more))))
        ]
      ]

  -- A selection for disclosure funds its settlement: if the target and the amounts of the holdings
  -- that may be disclosed are ones that the ledger has, none is negative, and together they stay
  -- in the range where sums are exact, then what is selected is worth at least the target, which
  -- for CC includes the fee margin.
  pub select_for_disclosure_with-covers :
      (instrument : Text) (amount target : d.Carrier) (max_inputs : ℕ)
      (is_cc include_reserve : Bool) (now : ℕ) (c : HoldingsCache d)
      (picks : List (CachedHolding d))
      → disclosure_target d amount is_cc ≡ some target
      → m.IsAmount target
      → pos 0 ≤ℤ d.units target
      → All (IsFund d m) (blob_ready d instrument include_reserve now c)
      → worth d (blob_ready d instrument include_reserve now c) ≤ℤ pos m.limit
      → select_for_disclosure_with d instrument amount max_inputs is_cc include_reserve now c
        ≡ some picks
      → d.units target ≤ℤ worth d picks
  unfolding select_for_disclosure_with
  select_for_disclosure_with-covers instrument amount target max_inputs is_cc include_reserve now c
        picks te tm tp a l e =
      elim (Bool-cases (le d amount d.nought || (max_inputs == 0))) [
        | inl refused ↦ ground arith
        | inr asked ↦
            choose-covers (lookup instrument c.dust_below)
              (blob_ready d instrument include_reserve now c) target max_inputs picks a tm tp l
              (ground arith)
      ]

module _ (d : Decimal) where
  usable-unblocked :
      (c : HoldingsCache d) (now : ℕ) (instrument : Text) (left_out : Option Text)
      (hs : List (CachedHolding d))
      → All (IsDisclosable d c now instrument left_out) hs
      → any_blocked d c now (map (λ h. h.contract_id) hs) ≡ false
  usable-unblocked c now instrument left_out [] a = refl
  usable-unblocked c now instrument left_out (h ∷ hs) a =
      let gone = a.0.usable.unconsumed in
      let held = a.0.usable.unreserved in
      ground (arith, usable-unblocked c now instrument left_out hs a.1)

  -- What was just selected can be reserved: for a quote, at the same time and with nothing between
  -- the two calls, the reservation of the holdings of a selection succeeds. (In a cache where each
  -- holding stands under its own id, and none twice.)
  pub reserve_v2-select_for_disclosure_with :
      (instrument : Text) (amount : d.Carrier) (max_inputs : ℕ) (is_cc include_reserve : Bool)
      (now : ℕ) (quote_id : Text) (expires_at : ℕ) (c : HoldingsCache d)
      (picks : List (CachedHolding d))
      → IsKeyed d c.available
      → IsUnique c.available
      → select_for_disclosure_with d instrument amount max_inputs is_cc include_reserve now c
        ≡ some picks
      → (reserve_v2 d (map (λ h. h.contract_id) picks) quote_id expires_at now c).0 ≡ true
  unfolding reserve_v2 reserve_with_kind
  reserve_v2-select_for_disclosure_with instrument amount max_inputs is_cc include_reserve now
        quote_id expires_at c picks k u e =
      let picked =
        select_for_disclosure_with-picked d instrument amount max_inputs is_cc include_reserve now c
          picks k u e in
      let clear =
        usable-unblocked c now instrument
          (splitter_to_exclude d c now instrument (not include_reserve)) picks picked.each in
      ground arith
