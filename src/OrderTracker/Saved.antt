-- ===== src/OrderTracker/Saved.antt =====
-- The tracker's state in the state file: crates/agent-logic/src/state.rs and the two functions that
-- convert.
use silvana_book_agent.Common.{ℕ, Bool, Option, none, some, List, [], ◌∷◌, map, nat_Eq}
use silvana_book_agent.Common.Text.{Text, text_Eq}
use silvana_book_agent.Common.Int.{ℤ}
use silvana_book_agent.Common.Dict.{Dict, insert, values}
use silvana_book_agent.Common.Decimal.{Decimal}
use silvana_book_agent.OrderTracker.{
  TrackedOrder, SettlementOrderEntry, OrderTracker, Outside, Bytes,
}
use silvana_book_agent.OrderTracker.Verify.{decimal_or_nought}

pub record SavedTrackedOrder : Type 0 where
  pub order_id : ℕ
  pub market_id : Text
  pub order_type : ℤ
  pub price : Text
  pub quantity : Text
  pub settled_quantity : Text
  pub pending_quantity : Text
  pub nonce : ℕ
  pub signature : Text
  pub signed_data : Text
  pub placed_by : Text
  pub is_active : Bool

pub record SavedSettlementOrder : Type 0 where
  pub proposal_id : Text
  pub order_id : ℕ
  pub quantity : Text
  pub reserved : Bool

abbrev pub bytes_or_empty : Option Bytes → Bytes
bytes_or_empty none = []
bytes_or_empty (some bs) = bs

module _ (d : Decimal) (o : Outside d) where
  abbrev pub save_order : TrackedOrder d → SavedTrackedOrder
  save_order order = record {
    order_id = order.order_id;
    market_id = order.market_id;
    order_type = order.order_type;
    price = o.to_string order.price;
    quantity = o.to_string order.quantity;
    settled_quantity = o.to_string order.settled_quantity;
    pending_quantity = o.to_string order.pending_quantity;
    nonce = order.nonce;
    signature = order.signature;
    signed_data = o.encode_base64 order.signed_data;
    placed_by = order.placed_by;
    is_active = order.is_active;
  }

  abbrev pub load_order : SavedTrackedOrder → TrackedOrder d
  load_order saved = record {
    order_id = saved.order_id;
    market_id = saved.market_id;
    order_type = saved.order_type;
    price = decimal_or_nought d o saved.price;
    quantity = decimal_or_nought d o saved.quantity;
    settled_quantity = decimal_or_nought d o saved.settled_quantity;
    pending_quantity = decimal_or_nought d o saved.pending_quantity;
    nonce = saved.nonce;
    signature = saved.signature;
    signed_data = bytes_or_empty (o.decode_base64 saved.signed_data);
    placed_by = saved.placed_by;
    is_active = saved.is_active;
  }

  abbrev pub save_settlement : Text × SettlementOrderEntry d → SavedSettlementOrder
  save_settlement (proposal_id, entry) = record {
    proposal_id = proposal_id;
    order_id = entry.order_id;
    quantity = o.to_string entry.quantity;
    reserved = entry.reserved;
  }

  abbrev pub load_settlement : SavedSettlementOrder → SettlementOrderEntry d
  load_settlement saved = record {
    order_id = saved.order_id;
    quantity = decimal_or_nought d o saved.quantity;
    reserved = saved.reserved;
  }

  unfoldable pub export_state :
      OrderTracker d → ℕ × List SavedTrackedOrder × List SavedSettlementOrder
  export_state t =
      (t.start_time_ms, map save_order (values t.orders), map save_settlement t.settlement_orders)

  unfoldable pub load_orders :
      List SavedTrackedOrder → Dict ℕ (TrackedOrder d) → Dict ℕ (TrackedOrder d)
  load_orders [] orders = orders
  load_orders (saved ∷ more) orders =
      load_orders more (insert saved.order_id (load_order saved) orders)

  unfoldable pub load_settlements :
      List SavedSettlementOrder
      → Dict Text (SettlementOrderEntry d)
      → Dict Text (SettlementOrderEntry d)
  load_settlements [] entries = entries
  load_settlements (saved ∷ more) entries =
      load_settlements more (insert saved.proposal_id (load_settlement saved) entries)

  unfoldable pub import_state :
      List SavedTrackedOrder → List SavedSettlementOrder → OrderTracker d → OrderTracker d
  unfolding load_orders load_settlements
  import_state orders settlements t = record t {
    orders = load_orders orders t.orders;
    settlement_orders = load_settlements settlements t.settlement_orders;
  }
