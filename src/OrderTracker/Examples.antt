-- ===== src/OrderTracker/Examples.antt =====
-- The tracker on one order, with amounts in hundredths.
use mathlib.Core.List.{Memᴰ}
use silvana_book_agent.Common.{
  ℕ, ◌<◌, ◌≡◌, refl, Bool, true, false, Option, none, some, [], ◌∷◌, arith, nat_Eq,
}
use silvana_book_agent.Common.Text.{Text, codes, text_Eq}
use silvana_book_agent.Common.Dict.{lookup}
use silvana_book_agent.Common.Int.{pos_part, neg_part, sub_ℕ, negsuc, ℤ, pos, ◌+ℤ◌, ◌-ℤ◌}
use silvana_book_agent.Common.Decimal.Sample.{hundredths, hundredths_amounts, hundredths_saturates}
use silvana_book_agent.OrderTracker.{
  Order, FailedSubmit, TrackedOrder, SettlementOrderEntry, OrderTracker, Outside, OrderMatch,
  SettlementProposal, accepted, in_flight, new,
}
use silvana_book_agent.OrderTracker.Settle.{
  reserved_now, try_reserve_pending, mark_failed, mark_settled, add_pending, refusal,
  remaining_capacity, update_order,
}
use silvana_book_agent.OrderTracker.Verify.{
  decimal_or_nought, our_order_id, verify_settlement, verify_tracked_order, check_capacity,
}
use silvana_book_agent.OrderTracker.Saved.{export_state, import_state}
use silvana_book_agent.OrderTracker.Restart.{import_state-export_state}
use silvana_book_agent.OrderTracker.Submits.{
  adopt_failed_submit, prune_failed_submits, remove_first, is_of_order,
}
use silvana_book_agent.OrderTracker.Adoption.{
  IsOf, IsRecent, TakenOut, adopted_order, adopt_failed_submit-IsOf,
}
use silvana_book_agent.OrderTracker.Capacity.{IsBalanced, try_reserve_pending-IsBalanced}
use silvana_book_agent.OrderTracker.Outcome.{mark_failed-IsBalanced, mark_settled-IsBalanced}
use silvana_book_agent.OrderTracker.Admission.{IsSigned, HasRoom, verify_settlement-accepted}
use silvana_book_agent.OrderTracker.Placements.{begins, drops, run, verify_settlement-run, alive}

-- Every text reads as 2.00, every signature is valid, and bytes are saved as they are.
abbrev outside : Outside hundredths
outside = record {
  from_str = λ s. some (pos 200);
  to_string = λ x. [];
  verify_order_signature = some (λ bytes signature. true);
  encode_base64 = λ bytes. bytes;
  decode_base64 = λ s. some s;
}

abbrev the_order : ℕ → TrackedOrder hundredths
the_order pending = record {
  order_id = 7;
  market_id = codes "m";
  order_type = pos 1;
  price = pos 100;
  quantity = pos 1000;
  settled_quantity = pos 300;
  pending_quantity = pos pending;
  nonce = 50;
  signature = codes "sig";
  signed_data = codes "data";
  placed_by = codes "agent";
  is_active = true;
}

abbrev the_entry : Bool → SettlementOrderEntry hundredths
the_entry reserved = record { order_id = 7; quantity = pos 200; reserved = reserved }

abbrev p1 : Text
p1 = codes "p1"

abbrev tracker : Bool → ℕ → OrderTracker hundredths
tracker reserved pending = record (new hundredths 10) {
  orders = (7, the_order pending) ∷ [];
  settlement_orders = (p1, the_entry reserved) ∷ [];
}

abbrev the_match : OrderMatch
the_match = record { bid_order_id = 7; offer_order_id = 8 }

abbrev proposal : Text → SettlementProposal
proposal buyer = record {
  order_match = some the_match;
  buyer = buyer;
  market_id = codes "m";
  base_quantity = codes "2.00";
}

abbrev us : Text
us = codes "us"

the_order-IsBalanced : IsBalanced hundredths hundredths_amounts (the_order 400)
unfolding ◌+ℤ◌
the_order-IsBalanced = record {
  quantity_amount = tt;
  settled_amount = tt;
  pending_amount = tt;
  settled_positive = ground arith;
  pending_positive = ground arith;
  fits = ground arith;
  in_range = ground arith;
}

is_accepted :
    verify_settlement hundredths outside (proposal us) us 1000 (tracker false 400) ≡ accepted 7
unfolding verify_settlement verify_tracked_order our_order_id check_capacity remaining_capacity ◌-ℤ◌
is_accepted = refl

verify_settlement-accepted_example :
    (om : OrderMatch) × (tracked : TrackedOrder hundredths) × ((proposal us).order_match ≡ some om)
    × (7 ≡ our_order_id hundredths outside om (proposal us) us)
    × (lookup 7 (tracker false 400).orders ≡ some tracked)
    × IsSigned hundredths outside tracked.signed_data tracked.signature tracked.nonce
        (tracker false 400).start_time_ms
    × HasRoom hundredths outside tracked
        (decimal_or_nought hundredths outside (proposal us).base_quantity)
verify_settlement-accepted_example =
    verify_settlement-accepted hundredths outside (proposal us) us 1000 (tracker false 400) 7
      is_accepted

still_alive :
    0 < alive (codes "m") (begins (codes "m") ∷ begins (codes "n") ∷ drops (codes "n") ∷ []) 0
unfolding alive
still_alive = ground arith

not_ours :
    lookup
      (our_order_id hundredths outside the_match (proposal (codes "other")) us)
      (tracker false 400).orders
    ≡ none
unfolding our_order_id
not_ours = refl

verify_settlement-run_example :
    verify_settlement hundredths outside (proposal (codes "other")) us 1000 (
      run hundredths
        (begins (codes "m") ∷ begins (codes "n") ∷ drops (codes "n") ∷ [])
        (tracker false 400))
    ≡ in_flight (our_order_id hundredths outside the_match (proposal (codes "other")) us)
verify_settlement-run_example =
    verify_settlement-run hundredths outside
      (begins (codes "m") ∷ begins (codes "n") ∷ drops (codes "n") ∷ []) (tracker false 400)
      (proposal (codes "other")) us 1000 the_match (ground arith) still_alive refl not_ours

is_reserved : (try_reserve_pending hundredths p1 (tracker false 400)).0 ≡ reserved_now
unfolding try_reserve_pending refusal remaining_capacity update_order ◌-ℤ◌
is_reserved = refl

try_reserve_pending-IsBalanced_example :
    (lookup 7 (try_reserve_pending hundredths p1 (tracker false 400)).1.orders
      ≡ some (add_pending hundredths (pos 200) (the_order 400)))
    × (lookup p1 (try_reserve_pending hundredths p1 (tracker false 400)).1.settlement_orders
        ≡ some (the_entry true))
    × IsBalanced hundredths hundredths_amounts (add_pending hundredths (pos 200) (the_order 400))
    × ((add_pending hundredths (pos 200) (the_order 400)).pending_quantity ≡ pos 400 +ℤ pos 200)
try_reserve_pending-IsBalanced_example =
    try_reserve_pending-IsBalanced hundredths hundredths_amounts hundredths_saturates p1
      (the_entry false) (the_order 400) (tracker false 400) refl refl refl refl the_order-IsBalanced
      tt (ground arith) is_reserved

mark_failed-IsBalanced_example :
    (pending : ℤ) × (lookup p1 (mark_failed hundredths p1 (tracker true 400)).settlement_orders
      ≡ none)
    × (lookup 7 (mark_failed hundredths p1 (tracker true 400)).orders
        ≡ some (record (the_order 400) { pending_quantity = pending }))
    × (pending ≡ pos 400 -ℤ pos 200)
    × IsBalanced hundredths hundredths_amounts
        (record (the_order 400) { pending_quantity = pending })
mark_failed-IsBalanced_example =
    mark_failed-IsBalanced hundredths hundredths_amounts hundredths_saturates p1 (the_entry true)
      (the_order 400) (tracker true 400) refl refl refl the_order-IsBalanced tt (ground arith)
      (ground arith)

mark_settled-IsBalanced_example :
    (pending : ℤ) × (settled : ℤ) × (lookup p1
        (mark_settled hundredths p1 (tracker true 400)).settlement_orders
      ≡ none)
    × (lookup 7 (mark_settled hundredths p1 (tracker true 400)).orders
        ≡ some (record (the_order 400) { pending_quantity = pending; settled_quantity = settled }))
    × (pending ≡ pos 400 -ℤ pos 200)
    × (settled ≡ pos 300 +ℤ pos 200)
    × IsBalanced hundredths hundredths_amounts
        (record (the_order 400) { pending_quantity = pending; settled_quantity = settled })
mark_settled-IsBalanced_example =
    mark_settled-IsBalanced hundredths hundredths_amounts hundredths_saturates p1 (the_entry true)
      (the_order 400) (tracker true 400) refl refl refl the_order-IsBalanced tt (ground arith)
      (ground arith)

-- A number is written as its two parts, and bytes as they are.
abbrev written : ℤ → Text
written x = pos_part x ∷ neg_part x ∷ []

abbrev read : Text → Option ℤ
read (a ∷ b ∷ []) = some (sub_ℕ a b)
read _ = none

read-written : (x : ℤ) → read (written x) ≡ some x
read-written (pos n) = ground arith
read-written (negsuc n) = ground arith

abbrev exact_outside : Outside hundredths
exact_outside = record {
  from_str = read;
  to_string = written;
  verify_order_signature = none;
  encode_base64 = λ bytes. bytes;
  decode_base64 = λ s. some s;
}

import_state-export_state_example :
    let (_, orders, settlements) = export_state hundredths exact_outside (tracker true 400) in
    let t' = import_state hundredths exact_outside orders settlements (new hundredths 99) in
    (lookup 7 t'.orders ≡ lookup 7 (tracker true 400).orders)
    × (lookup p1 t'.settlement_orders ≡ lookup p1 (tracker true 400).settlement_orders)
import_state-export_state_example =
    import_state-export_state hundredths exact_outside
      (record { decimals = read-written; bytes = λ bs. refl }) (tracker true 400) 99 7 p1 (refl, tt)
      (refl, tt) (refl, tt)

abbrev lost : FailedSubmit
lost = record {
  market_id = codes "m";
  order_type = pos 1;
  price = codes "1";
  quantity = codes "2";
  nonce = 77;
  signature = codes "sig";
  signed_data = codes "data";
}

abbrev booked : Order
booked = record {
  order_id = 9;
  market_id = codes "m";
  order_type = pos 1;
  price = codes "1";
  quantity = codes "2";
  filled_quantity = codes "0";
  pending_quantity = codes "0";
  nonce = 77;
  signature = some (codes "sig");
  signed_data = codes "data";
}

abbrev with_lost : OrderTracker hundredths
with_lost = record (tracker false 400) { failed_submits = (5, lost) ∷ [] }

is_adopted : (adopt_failed_submit hundredths outside booked 1000 with_lost).0 ≡ true
unfolding adopt_failed_submit prune_failed_submits remove_first is_of_order
is_adopted = refl

adopt_failed_submit-IsOf_example :
    (s : FailedSubmit) × IsOf booked s
    × ((out : TakenOut
          (prune_failed_submits hundredths outside 1000 with_lost).failed_submits
          (adopt_failed_submit hundredths outside booked 1000 with_lost).1.failed_submits
          s)
        × Memᴰ (out.at_time, s) with_lost.failed_submits
        × IsRecent 1000 (out.at_time, s))
    × (lookup 9 with_lost.orders ≡ none)
    × (lookup 9 (adopt_failed_submit hundredths outside booked 1000 with_lost).1.orders
        ≡ some (adopted_order hundredths outside s 9))
adopt_failed_submit-IsOf_example =
    adopt_failed_submit-IsOf hundredths outside booked 1000 with_lost is_adopted
