-- ===== src/OrderTracker/Verify.antt =====
-- The checks that a settlement proposal must pass, and how orders come into the tracker.
use silvana_book_agent.Common.{
  ℕ, Bool, true, false, not, ◌||◌, Option, none, some, [], ◌∷◌, leb, ltb, ◌-◌, ◌==◌, if◌then◌else◌,
  nat_Eq, any,
}
use silvana_book_agent.Common.Text.{Text, text_Eq, codes}
use silvana_book_agent.Common.Int.{ℤ}
use silvana_book_agent.Common.Dict.{lookup, insert, contains}
use silvana_book_agent.Common.Decimal.{Decimal, le, lt}
use silvana_book_agent.OrderTracker.{
  TrackedOrder, Reason, VerifyResult, no_order_match, key_unavailable, invalid_signature,
  no_signature, not_our_signature, negative_quantity, overflow, old_nonce, invalid_requested,
  insufficient, accepted, rejected, need_server_lookup, in_flight, Order, OrderMatch,
  SettlementProposal, OrderTracker, Outside, Bytes, placement_in_flight, submit_failed_hold,
}
use silvana_book_agent.OrderTracker.Settle.{remaining_capacity}

-- `Option<String>::unwrap_or_default`
abbrev pub text_or_empty : Option Text → Text
text_or_empty none = []
text_or_empty (some s) = s

abbrev pub is_recent_failure : ℕ → Option ℕ → Bool
is_recent_failure now none = false
is_recent_failure now (some at_time) = ltb (now - at_time) submit_failed_hold

module _ (d : Decimal) (o : Outside d) where
  open d use {Carrier, nought}

  -- `Decimal::from_str(s).unwrap_or_default()`
  abbrev pub decimal_or_nought : Text → Carrier
  decimal_or_nought s = elim (o.from_str s) [ none ↦ nought | some x ↦ x ]

  unfoldable pub track_order :
      ℕ → Text → ℤ → Text → Text → ℕ → Text → Bytes → OrderTracker d → OrderTracker d
  track_order order_id market_id order_type price quantity nonce signature signed_data t =
      record t {
        orders =
            insert order_id
              (record {
                order_id = order_id;
                market_id = market_id;
                order_type = order_type;
                price = decimal_or_nought price;
                quantity = decimal_or_nought quantity;
                settled_quantity = nought;
                pending_quantity = nought;
                nonce = nonce;
                signature = signature;
                signed_data = signed_data;
                placed_by = codes "agent";
                is_active = true;
              })
              t.orders;
      }

  abbrev pub imported : Order → TrackedOrder d
  imported order = record {
    order_id = order.order_id;
    market_id = order.market_id;
    order_type = order.order_type;
    price = decimal_or_nought order.price;
    quantity = decimal_or_nought order.quantity;
    settled_quantity = decimal_or_nought order.filled_quantity;
    pending_quantity = decimal_or_nought order.pending_quantity;
    nonce = order.nonce;
    signature = text_or_empty order.signature;
    signed_data = order.signed_data;
    placed_by = codes "user";
    is_active = true;
  }

  unfoldable pub import_order_from_server : Order → OrderTracker d → OrderTracker d
  import_order_from_server order t =
      if contains order.order_id t.orders
      then t
      else record t { orders = insert order.order_id (imported order) t.orders }

  unfoldable pub check_capacity : TrackedOrder d → ℕ → Text → VerifyResult d
  check_capacity order order_id requested =
      let base_quantity = decimal_or_nought requested in
      if le d base_quantity nought
      then rejected (invalid_requested order_id requested)
      else elim (remaining_capacity d order) [
        | none ↦ rejected (overflow order_id)
        | some remaining ↦
            if lt d remaining base_quantity
            then rejected (insufficient order_id remaining base_quantity)
            else accepted order_id
      ]

  unfoldable pub verify_tracked_order :
      TrackedOrder d → SettlementProposal → ℕ → OrderTracker d → VerifyResult d
  unfolding check_capacity
  verify_tracked_order tracked proposal order_id t = elim o.verify_order_signature [
    | none ↦ rejected (key_unavailable order_id)
    | some verify ↦
        if not (verify tracked.signed_data tracked.signature)
        then rejected (invalid_signature order_id)
        else if leb tracked.nonce t.start_time_ms
        then rejected (old_nonce order_id tracked.nonce t.start_time_ms)
        else check_capacity tracked order_id proposal.base_quantity
  ]

  unfoldable pub submit_failed_recently : Text → ℕ → OrderTracker d → Bool
  submit_failed_recently market_id now t =
      is_recent_failure now (lookup market_id t.submit_failed_at)

  unfoldable pub our_order_id : OrderMatch → SettlementProposal → Text → ℕ
  our_order_id om proposal our_party =
      if proposal.buyer == our_party then om.bid_order_id else om.offer_order_id

  unfoldable pub verify_settlement : SettlementProposal → Text → ℕ → OrderTracker d → VerifyResult d
  unfolding verify_tracked_order submit_failed_recently our_order_id
  verify_settlement proposal our_party now t = elim proposal.order_match [
    | none ↦ rejected no_order_match
    | some om ↦
        let order_id = our_order_id om proposal our_party in
        elim (lookup order_id t.orders) [
          | some tracked ↦ verify_tracked_order tracked proposal order_id t
          | none ↦
              if placement_in_flight d proposal.market_id t
                || submit_failed_recently proposal.market_id now t
              then in_flight order_id
              else need_server_lookup order_id
        ]
  ]

  -- `Decimal::from_str(raw).is_ok_and(|v| v < Decimal::ZERO)`
  abbrev pub is_negative : Text → Bool
  is_negative raw = elim (o.from_str raw) [ none ↦ false | some v ↦ lt d v nought ]

  abbrev pub is_empty : Text → Bool
  is_empty [] = true
  is_empty (c ∷ cs) = false

  -- The tests that come before the import, with the key that reads signatures.
  unfoldable pub import_refusal : Order → ℕ → Option (Reason d)
  import_refusal order start_time_ms =
      if is_empty (text_or_empty order.signature)
      then some (no_signature order.order_id)
      else elim o.verify_order_signature [
        | none ↦ some (key_unavailable order.order_id)
        | some verify ↦
            if not (verify order.signed_data (text_or_empty order.signature))
            then some (not_our_signature order.order_id)
            else if leb order.nonce start_time_ms
            then some (old_nonce order.order_id order.nonce start_time_ms)
            else if any is_negative
                (order.quantity ∷ order.filled_quantity ∷ order.pending_quantity ∷ [])
            then some (negative_quantity order.order_id)
            else none
      ]

  unfoldable pub verify_and_import_order :
      Order → SettlementProposal → OrderTracker d → VerifyResult d × OrderTracker d
  unfolding import_refusal import_order_from_server check_capacity
  verify_and_import_order order proposal t = elim (import_refusal order t.start_time_ms) [
    | some reason ↦ (rejected reason, t)
    | none ↦
        let t' = import_order_from_server order t in
        (
          elim (lookup order.order_id t'.orders) [
            | some tracked ↦ check_capacity tracked order.order_id proposal.base_quantity
            | none ↦ accepted order.order_id
          ],
          t',
        )
  ]
