-- ===== src/OrderTracker/Restart.antt =====
-- The tracker across a restart: what `import_state` makes of an `export_state`.
use silvana_book_agent.Common.{
  ℕ, ◌≡◌, ◌∙◌, refl, Option, none, some, [], ◌∷◌, map, arith, nat_Eq, nat_eq_iff,
}
use silvana_book_agent.Common.Text.{Text, text_Eq, text_eq_iff}
use silvana_book_agent.Common.Dict.{Dict, lookup, insert, values, IsUnique, lookup-insert}
use silvana_book_agent.Common.Decimal.{Decimal}
use silvana_book_agent.OrderTracker.{
  TrackedOrder, SettlementOrderEntry, OrderTracker, Outside, Bytes, new,
}
use silvana_book_agent.OrderTracker.Saved.{
  save_order, load_order, save_settlement, load_settlement, export_state, load_orders,
  load_settlements, import_state,
}

-- What the packages promise: a decimal number and bytes are read back as they were written.
pub record ReadsBack (d : Decimal) (o : Outside d) : Type 0 where
  pub decimals : (x : d.Carrier) → o.from_str (o.to_string x) ≡ some x
  pub bytes : (bs : Bytes) → o.decode_base64 (o.encode_base64 bs) ≡ some bs

module _ (d : Decimal) (o : Outside d) where
  -- Every order stands under its own id.
  abbrev pub IsKeyed : Dict ℕ (TrackedOrder d) → Type 0
  IsKeyed [] = Unit
  IsKeyed ((k, order) ∷ orders) = (order.order_id ≡ k) × IsKeyed orders

  or_order : Option (TrackedOrder d) → Option (TrackedOrder d) → Option (TrackedOrder d)
  or_order none later = later
  or_order (some order) later = some order

  load-save_order :
      ReadsBack d o → (order : TrackedOrder d) → load_order d o (save_order d o order) ≡ order
  load-save_order r order = ground (
    arith,
    r.decimals order.price,
    r.decimals order.quantity,
    r.decimals order.settled_quantity,
    r.decimals order.pending_quantity,
    r.bytes order.signed_data,
  )

  load-save_settlement :
      ReadsBack d o
      → (proposal_id : Text) (entry : SettlementOrderEntry d)
      → load_settlement d o (save_settlement d o (proposal_id, entry)) ≡ entry
  load-save_settlement r proposal_id entry = ground (arith, r.decimals entry.quantity)

  lookup-load_orders :
      ReadsBack d o
      → (id : ℕ) (orders pool : Dict ℕ (TrackedOrder d)) → IsKeyed orders
      → IsUnique orders
      → lookup id (load_orders d o (map (save_order d o) (values orders)) pool)
        ≡ or_order (lookup id orders) (lookup id pool)
  unfolding load_orders or_order
  lookup-load_orders r id [] pool k u = refl
  lookup-load_orders r id ((i, order) ∷ orders) pool k u =
      let back = load-save_order r order in
      let next =
        insert (save_order d o order).order_id (load_order d o (save_order d o order)) pool in
      ground (
        arith,
        lookup-load_orders r id orders next k.1 u.1,
        lookup-insert (save_order d o order).order_id id (load_order d o (save_order d o order))
            pool,
        nat_eq_iff i id,
      )

  or_entry :
      Option (SettlementOrderEntry d)
      → Option (SettlementOrderEntry d)
      → Option (SettlementOrderEntry d)
  or_entry none later = later
  or_entry (some entry) later = some entry

  lookup-load_settlements :
      ReadsBack d o
      → (id : Text) (entries pool : Dict Text (SettlementOrderEntry d)) → IsUnique entries
      → lookup id (load_settlements d o (map (save_settlement d o) entries) pool)
        ≡ or_entry (lookup id entries) (lookup id pool)
  unfolding load_settlements or_entry
  lookup-load_settlements r id [] pool u = refl
  lookup-load_settlements r id ((i, entry) ∷ entries) pool u =
      let back = load-save_settlement r i entry in
      let next = insert i (load_settlement d o (save_settlement d o (i, entry))) pool in
      ground (
        arith,
        lookup-load_settlements r id entries next u.1,
        lookup-insert i id (load_settlement d o (save_settlement d o (i, entry))) pool,
        text_eq_iff i id,
      )

  -- A restart forgets nothing of the orders and settlements: if decimals and bytes are read back
  -- as they were written, and each order stands under its own id, none twice, then a new tracker
  -- that imports the exported state has every order and every settlement as it was, the reserved
  -- ones included, and no others.
  pub import_state-export_state :
      ReadsBack d o
      → (t : OrderTracker d) (start_time_ms order_id : ℕ) (proposal_id : Text) → IsKeyed t.orders
      → IsUnique t.orders
      → IsUnique t.settlement_orders
      → let (_, orders, settlements) = export_state d o t in
        let t' = import_state d o orders settlements (new d start_time_ms) in
        (lookup order_id t'.orders ≡ lookup order_id t.orders)
        × (lookup proposal_id t'.settlement_orders ≡ lookup proposal_id t.settlement_orders)
  unfolding import_state export_state or_order or_entry
  import_state-export_state r t start_time_ms order_id proposal_id k u v = (
    lookup-load_orders r order_id t.orders [] k u ∙ ground arith,
    lookup-load_settlements r proposal_id t.settlement_orders [] v ∙ ground arith,
  )
