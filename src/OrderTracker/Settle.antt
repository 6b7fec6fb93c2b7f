-- ===== src/OrderTracker/Settle.antt =====
-- The accounting of quantities: adoption, reservation and the end of a settlement.
use silvana_book_agent.Common.{ℕ, true, false, not, Option, none, some, ◌==◌, if◌then◌else◌, nat_Eq}
use silvana_book_agent.Common.Text.{Text, text_Eq}
use silvana_book_agent.Common.Dict.{Dict, lookup, insert, remove, contains}
use silvana_book_agent.Common.Decimal.{Decimal, le, lt}
use silvana_book_agent.OrderTracker.{TrackedOrder, SettlementOrderEntry, OrderTracker}

-- The `Result<bool, String>` of `try_reserve_pending`, with the three errors as constructors.
pub data Reservation (d : Decimal) : Type 0 where
  reserved_now already_reserved not_adopted : Reservation d
  overflow_at : ℕ → Reservation d
  insufficient_at : ℕ → d.Carrier → d.Carrier → Reservation d

module _ (d : Decimal) where
  open d use {Carrier, nought, checked_sub, saturating_add, saturating_sub}

  unfoldable pub remaining_capacity : TrackedOrder d → Option Carrier
  remaining_capacity order = elim (checked_sub order.quantity order.settled_quantity) [
    | none ↦ none
    | some open_quantity ↦ checked_sub open_quantity order.pending_quantity
  ]

  unfoldable pub record_settlement_order : Text → ℕ → Carrier → OrderTracker d → OrderTracker d
  record_settlement_order proposal_id order_id quantity t =
      if contains proposal_id t.settlement_orders then t else record t {
        settlement_orders =
            insert proposal_id
              (record { order_id = order_id; quantity = quantity; reserved = false })
              t.settlement_orders;
      }

  -- `if let Some(order) = self.orders.get_mut(&order_id) { ... }`
  unfoldable pub update_order :
      ℕ → (TrackedOrder d → TrackedOrder d) → Dict ℕ (TrackedOrder d) → Dict ℕ (TrackedOrder d)
  update_order order_id f orders = elim (lookup order_id orders) [
    | none ↦ orders
    | some order ↦ insert order_id (f order) orders
  ]

  abbrev pub add_pending : Carrier → TrackedOrder d → TrackedOrder d
  add_pending q order = record order { pending_quantity = saturating_add order.pending_quantity q }

  -- `.max(Decimal::ZERO)`
  abbrev pub at_least_nought : Carrier → Carrier
  at_least_nought a = if le d a nought then nought else a

  abbrev pub release_pending : Carrier → TrackedOrder d → TrackedOrder d
  release_pending q order = record order {
    pending_quantity = at_least_nought (saturating_sub order.pending_quantity q);
  }

  abbrev pub settle_pending : Carrier → TrackedOrder d → TrackedOrder d
  settle_pending q order = record order {
    pending_quantity = at_least_nought (saturating_sub order.pending_quantity q);
    settled_quantity = saturating_add order.settled_quantity q;
  }

  -- What stops the reservation of the entry, if anything does.
  unfoldable pub refusal : SettlementOrderEntry d → Option (TrackedOrder d) → Option (Reservation d)
  unfolding remaining_capacity
  refusal entry none = none
  refusal entry (some order) =
      if entry.order_id == 0 then none else elim (remaining_capacity order) [
        | none ↦ some (overflow_at entry.order_id)
        | some remaining ↦
            if lt d remaining entry.quantity
            then some (insufficient_at entry.order_id remaining entry.quantity)
            else none
      ]

  unfoldable pub try_reserve_pending : Text → OrderTracker d → Reservation d × OrderTracker d
  unfolding update_order refusal
  try_reserve_pending proposal_id t = elim (lookup proposal_id t.settlement_orders) [
    | none ↦ (not_adopted, t)
    | some entry ↦
        if entry.reserved
        then (already_reserved, t)
        else elim (refusal entry (lookup entry.order_id t.orders)) [
          | some refused ↦ (refused, t)
          | none ↦ (
            reserved_now,
            record t {
              settlement_orders =
                  insert proposal_id (record entry { reserved = true }) t.settlement_orders;
              orders = update_order entry.order_id (add_pending entry.quantity) t.orders;
            },
          )
        ]
  ]

  -- The end of a settlement, with what it does to the order if the quantity was reserved.
  unfoldable pub finish :
      (Carrier → TrackedOrder d → TrackedOrder d) → Text → OrderTracker d → OrderTracker d
  unfolding update_order
  finish f proposal_id t = elim (lookup proposal_id t.settlement_orders) [
    | none ↦ t
    | some entry ↦
        let rest = remove proposal_id t.settlement_orders in
        if not entry.reserved then record t { settlement_orders = rest } else record t {
          settlement_orders = rest;
          orders = update_order entry.order_id (f entry.quantity) t.orders;
        }
  ]

  unfoldable pub mark_settled : Text → OrderTracker d → OrderTracker d
  unfolding finish
  mark_settled proposal_id t = finish settle_pending proposal_id t

  unfoldable pub mark_failed : Text → OrderTracker d → OrderTracker d
  unfolding finish
  mark_failed proposal_id t = finish release_pending proposal_id t
