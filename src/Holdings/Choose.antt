-- ===== src/Holdings/Choose.antt =====
-- `select_for_disclosure`: the holdings that fund a settlement, dust first.
use silvana_book_agent.Common.{
  ℕ, ◌-◌, min, Bool, true, false, not, ◌&&◌, ◌||◌, Option, none, some, List, [], ◌++◌, ◌==◌,
  if◌then◌else◌, filter, is_some, length, take, nat_Eq,
}
use silvana_book_agent.Common.Text.{Text, text_Eq}
use silvana_book_agent.Common.Dict.{lookup}
use silvana_book_agent.Common.Decimal.{Decimal, le, lt}
use silvana_book_agent.Holdings.{CachedHolding, HoldingsCache, dust_merge_max_inputs}
use silvana_book_agent.Holdings.Pools.{get_selectable}
use silvana_book_agent.Holdings.Pick.{select_from, is_picked}

module _ (d : Decimal) where
  open d use {Carrier, nought, one, checked_add, checked_mul}

  -- What the inputs must cover: for CC, 1.02 times the amount and one more.
  unfoldable pub disclosure_target : Carrier → Bool → Option Carrier
  disclosure_target amount false = some amount
  disclosure_target amount true = elim (checked_mul amount (d.new 102 2)) [
    | none ↦ none
    | some scaled ↦ checked_add scaled one
  ]

  abbrev pub is_dust : Carrier → CachedHolding d → Bool
  is_dust threshold h = lt d h.amount threshold

  -- The holdings below the smallest rung, if there is a ladder, cover the target alone.
  unfoldable pub from_dust :
      Option Carrier → List (CachedHolding d) → Carrier → ℕ → Option (List (CachedHolding d))
  from_dust none selectable target max_inputs = none
  from_dust (some threshold) selectable target max_inputs =
      select_from d (filter (is_dust threshold) selectable) target
        (min dust_merge_max_inputs max_inputs)

  -- The dust that goes along with the picks of a rung.
  unfoldable pub sweep :
      Option Carrier → List (CachedHolding d) → ℕ → List (CachedHolding d) → List (CachedHolding d)
  sweep none selectable max_inputs picks = []
  sweep (some threshold) selectable max_inputs picks =
      let dust_in_picks = length (filter (is_dust threshold) picks) in
      take (min (dust_merge_max_inputs - dust_in_picks) (max_inputs - length picks))
        (filter (λ h. is_dust threshold h && not (is_picked d h picks)) selectable)

  unfoldable pub choose :
      Option Carrier → List (CachedHolding d) → Carrier → ℕ → Option (List (CachedHolding d))
  unfolding from_dust sweep
  choose dust_below selectable target max_inputs =
      elim (from_dust dust_below selectable target max_inputs) [
        | some picks ↦ some picks
        | none ↦ elim (select_from d selectable target max_inputs) [
          | none ↦ none
          | some picks ↦ some (picks ++ sweep dust_below selectable max_inputs picks)
        ]
      ]

  -- The selectable holdings that can be disclosed.
  unfoldable pub blob_ready : Text → Bool → ℕ → HoldingsCache d → List (CachedHolding d)
  blob_ready instrument include_reserve now c =
      filter (λ h. is_some h.created_event_blob)
        (get_selectable d instrument (not include_reserve) now c)

  unfoldable pub select_for_disclosure_with :
      Text → Carrier → ℕ → Bool → Bool → ℕ → HoldingsCache d → Option (List (CachedHolding d))
  unfolding disclosure_target choose blob_ready
  select_for_disclosure_with instrument amount max_inputs is_cc include_reserve now c =
      if le d amount nought || (max_inputs == 0)
      then none
      else elim (disclosure_target amount is_cc) [
        | none ↦ none
        | some target ↦
            choose (lookup instrument c.dust_below) (blob_ready instrument include_reserve now c)
              target max_inputs
      ]

  pub select_for_disclosure :
      Text → Carrier → ℕ → Bool → ℕ → HoldingsCache d → Option (List (CachedHolding d))
  unfolding select_for_disclosure_with
  select_for_disclosure instrument amount max_inputs is_cc now c =
      select_for_disclosure_with instrument amount max_inputs is_cc false now c
