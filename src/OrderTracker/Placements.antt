-- ===== src/OrderTracker/Placements.antt =====
-- Proposals for orders that are just being placed are held back.
use silvana_book_agent.Common.{
  ℕ, ◌+◌, ◌-◌, ◌<◌, ◌≡◌, ap, ◌∙◌, refl, inl, inr, min, true, none, some, List, [], ◌∷◌, arith, ltb,
  ◌==◌, if◌then◌else◌, nat_Eq, length, Option-cases,
}
use silvana_book_agent.Common.Text.{Text, text_Eq, text_eq_iff}
use silvana_book_agent.Common.Dict.{lookup, lookup-insert, lookup-remove}
use silvana_book_agent.Common.Decimal.{Decimal}
use silvana_book_agent.OrderTracker.{
  in_flight, OrderMatch, SettlementProposal, OrderTracker, Outside, usize_max, placing_count,
  begin_placement, drop_guard, placement_in_flight,
}
use silvana_book_agent.OrderTracker.Verify.{our_order_id, verify_settlement}

-- A placement in a market begins, or its guard is dropped.
pub data GuardStep : Type 0 where
  begins drops : Text → GuardStep

-- How many guards of the market are alive after the steps, from `n` before them.
unfoldable pub alive : Text → List GuardStep → ℕ → ℕ
alive market_id [] n = n
alive market_id (begins m ∷ steps) n = alive market_id steps (if m == market_id then n + 1 else n)
alive market_id (drops m ∷ steps) n = alive market_id steps (if m == market_id then n - 1 else n)

module _ (d : Decimal) where
  unfoldable pub guard_step : GuardStep → OrderTracker d → OrderTracker d
  guard_step (begins m) t = begin_placement d m t
  guard_step (drops m) t = drop_guard d m t

  unfoldable pub run : List GuardStep → OrderTracker d → OrderTracker d
  unfolding guard_step
  run [] t = t
  run (s ∷ steps) t = run steps (guard_step s t)

  abbrev pub count_of : Text → OrderTracker d → ℕ
  count_of market_id t = placing_count (lookup market_id t.placing)

  begin-count :
      (m market_id : Text) (t : OrderTracker d)
      → count_of market_id t < usize_max
      → count_of market_id (begin_placement d m t)
        ≡ (if m == market_id then count_of market_id t + 1 else count_of market_id t)
  unfolding begin_placement
  begin-count m market_id t l = ground (
    arith,
    text_eq_iff m market_id,
    lookup-insert m market_id (min (placing_count (lookup m t.placing) + 1) usize_max) t.placing,
  )

  drop-count :
      (m market_id : Text) (t : OrderTracker d)
      → count_of market_id (drop_guard d m t)
        ≡ (if m == market_id then count_of market_id t - 1 else count_of market_id t)
  unfolding drop_guard
  drop-count m market_id t = elim (Option-cases (lookup m t.placing)) [
    | inl absent ↦ ground (arith, absent, text_eq_iff m market_id)
    | inr (n, e) ↦ ground (
      arith,
      e,
      text_eq_iff m market_id,
      lookup-insert m market_id (n - 1) t.placing,
      lookup-remove m market_id t.placing,
    )
  ]

  run-count :
      (market_id : Text) (steps : List GuardStep) (t : OrderTracker d)
      → count_of market_id t + length steps < usize_max
      → count_of market_id (run steps t) ≡ alive market_id steps (count_of market_id t)
  unfolding run alive guard_step
  run-count market_id [] t l = refl
  run-count market_id (begins m ∷ steps) t l =
      let next = begin-count m market_id t (ground arith) in
      let rest = run-count market_id steps (begin_placement d m t) (ground arith) in
      rest ∙ ap (alive market_id steps) next
  run-count market_id (drops m ∷ steps) t l =
      let next = drop-count m market_id t in
      let rest = run-count market_id steps (drop_guard d m t) (ground arith) in
      rest ∙ ap (alive market_id steps) next

  drop-orders : (m : Text) (t : OrderTracker d) → (drop_guard d m t).orders ≡ t.orders
  unfolding drop_guard
  drop-orders m t = elim (Option-cases (lookup m t.placing)) [
    | inl absent ↦ ground (arith, absent)
    | inr (n, e) ↦ ground (arith, e)
  ]

  run-orders : (steps : List GuardStep) (t : OrderTracker d) → (run steps t).orders ≡ t.orders
  unfolding run guard_step begin_placement
  run-orders [] t = refl
  run-orders (begins m ∷ steps) t = run-orders steps (begin_placement d m t)
  run-orders (drops m ∷ steps) t = run-orders steps (drop_guard d m t) ∙ drop-orders m t

  -- While a placement is in flight, an untracked match is held. After any sequence of placements
  -- that begin and guards that are dropped, if a guard of the proposal's market is still alive,
  -- counted from those alive before, and our side's order is not tracked, then the answer to the
  -- proposal is that a placement is in flight. The count must stay in the range of a `usize`.
  pub verify_settlement-run :
      (o : Outside d) (steps : List GuardStep) (t : OrderTracker d) (proposal : SettlementProposal)
      (our_party : Text) (now : ℕ) (om : OrderMatch)
      → count_of proposal.market_id t + length steps < usize_max
      → 0 < alive proposal.market_id steps (count_of proposal.market_id t)
      → proposal.order_match ≡ some om
      → lookup (our_order_id d o om proposal our_party) t.orders ≡ none
      → verify_settlement d o proposal our_party now (run steps t)
        ≡ in_flight (our_order_id d o om proposal our_party)
  unfolding verify_settlement placement_in_flight
  verify_settlement-run o steps t proposal our_party now om l live oe untracked =
      let count = run-count proposal.market_id steps t l in
      let same : lookup (our_order_id d o om proposal our_party) (run steps t).orders ≡ none =
        ap (lookup (our_order_id d o om proposal our_party)) (run-orders steps t) ∙ untracked in
      let held : ltb 0 (count_of proposal.market_id (run steps t)) ≡ true =
        rw (count) (ground arith) in
      rw (oe, same, held, verify_settlement) refl
