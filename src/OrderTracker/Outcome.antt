-- ===== src/OrderTracker/Outcome.antt =====
-- What the end of a settlement does to the order that it reserved.
use silvana_book_agent.Common.{
  ◌≡◌, sym, ap, ◌∙◌, subst, inl, inr, true, none, some, arith, nat_Eq, Bool-cases,
}
use silvana_book_agent.Common.Text.{Text, text_Eq}
use silvana_book_agent.Common.Int.{pos, ◌+ℤ◌, ◌-ℤ◌, ◌≤ℤ◌, +ℤ_parts, -ℤ_parts, eq_of_parts}
use silvana_book_agent.Common.Dict.{lookup, lookup-remove, ==_refl}
use silvana_book_agent.Common.Decimal.{Decimal, Amounts, Saturates, le}
use silvana_book_agent.OrderTracker.{TrackedOrder, SettlementOrderEntry, OrderTracker}
use silvana_book_agent.OrderTracker.Settle.{
  release_pending, settle_pending, finish, mark_failed, mark_settled,
}
use silvana_book_agent.OrderTracker.Capacity.{IsBalanced, lookup-update_order}

module _ (d : Decimal) (m : Amounts d) where
  open d use {Carrier, units, nought}

  -- What is released comes off what is pending, exactly.
  release-units :
      (s : Saturates d) (order : TrackedOrder d) (q : Carrier)
      → IsBalanced d m order
      → m.IsAmount q
      → pos 0 ≤ℤ units q
      → units q ≤ℤ units order.pending_quantity
      → (units (release_pending d q order).pending_quantity
          ≡ units order.pending_quantity -ℤ units q)
        × m.IsAmount (release_pending d q order).pending_quantity
  release-units s order q b qa qp l =
      let f = b.fits in
      let r = b.in_range in
      let sp = b.settled_positive in
      let (left, found, lu, la) =
        m.sub_total order.pending_quantity q b.pending_amount qa
          (omega (
            arith,
            -ℤ_parts (units order.pending_quantity) (units q),
            +ℤ_parts (units order.settled_quantity) (units order.pending_quantity),
          ))
          (omega (
            arith,
            -ℤ_parts (units order.pending_quantity) (units q),
            -ℤ_parts (pos 0) (pos m.limit),
          )) in
      let exact : d.saturating_sub order.pending_quantity q ≡ left =
        s.sub_in_range order.pending_quantity q left found in
      elim (Bool-cases (le d left nought)) [
        | inl none_left ↦
            let low : units left ≤ℤ units nought = ground arith in
            let zero_left : units order.pending_quantity -ℤ units q ≤ℤ pos 0 =
              subst (λ x. x ≤ℤ pos 0) lu (subst (λ x. units left ≤ℤ x) m.nought_units low) in
            (
              rw (exact, none_left, m.nought_units)
                  (eq_of_parts (pos 0) (units order.pending_quantity -ℤ units q)
                    (omega (arith, zero_left, -ℤ_parts (units order.pending_quantity) (units q)))),
              rw (exact, none_left) m.nought_amount,
            )
        | inr some_left ↦ (rw (exact, some_left) lu, rw (exact, some_left) la)
      ]

  -- What is settled grows by the quantity, exactly.
  settle-units :
      (s : Saturates d) (order : TrackedOrder d) (q : Carrier)
      → IsBalanced d m order
      → m.IsAmount q
      → pos 0 ≤ℤ units q
      → units q ≤ℤ units order.pending_quantity
      → (units (d.saturating_add order.settled_quantity q)
          ≡ units order.settled_quantity +ℤ units q)
        × m.IsAmount (d.saturating_add order.settled_quantity q)
  settle-units s order q b qa qp l =
      let f = b.fits in
      let r = b.in_range in
      let sp = b.settled_positive in
      let (sum, found, su, sa) =
        m.add_total order.settled_quantity q b.settled_amount qa
          (omega (
            arith,
            +ℤ_parts (units order.settled_quantity) (units q),
            +ℤ_parts (units order.settled_quantity) (units order.pending_quantity),
          ))
          (omega (
            arith,
            +ℤ_parts (units order.settled_quantity) (units q),
            -ℤ_parts (pos 0) (pos m.limit),
          )) in
      let exact : d.saturating_add order.settled_quantity q ≡ sum =
        s.add_in_range order.settled_quantity q sum found in
      (ap units exact ∙ su, subst m.IsAmount (sym exact) sa)

  release-IsBalanced :
      (s : Saturates d) (order : TrackedOrder d) (q : Carrier)
      → IsBalanced d m order
      → m.IsAmount q
      → pos 0 ≤ℤ units q
      → units q ≤ℤ units order.pending_quantity
      → IsBalanced d m (release_pending d q order)
  release-IsBalanced s order q b qa qp l =
      let f = b.fits in
      let (ru, ra) = release-units s order q b qa qp l in
      record {
        quantity_amount = b.quantity_amount;
        settled_amount = b.settled_amount;
        pending_amount = ra;
        settled_positive = b.settled_positive;
        pending_positive =
            subst (λ x. pos 0 ≤ℤ x) (sym ru)
              (omega (arith, -ℤ_parts (units order.pending_quantity) (units q)));
        fits =
            subst (λ x. units order.settled_quantity +ℤ x ≤ℤ units order.quantity) (sym ru)
              (omega (
                arith,
                -ℤ_parts (units order.pending_quantity) (units q),
                +ℤ_parts (units order.settled_quantity) (units order.pending_quantity),
                +ℤ_parts (units order.settled_quantity) (units order.pending_quantity -ℤ units q),
              ));
        in_range = b.in_range;
      }

  settle-IsBalanced :
      (s : Saturates d) (order : TrackedOrder d) (q : Carrier)
      → IsBalanced d m order
      → m.IsAmount q
      → pos 0 ≤ℤ units q
      → units q ≤ℤ units order.pending_quantity
      → IsBalanced d m (settle_pending d q order)
  settle-IsBalanced s order q b qa qp l =
      let f = b.fits in
      let sp = b.settled_positive in
      let (ru, ra) = release-units s order q b qa qp l in
      let (su, sa) = settle-units s order q b qa qp l in
      record {
        quantity_amount = b.quantity_amount;
        settled_amount = sa;
        pending_amount = ra;
        settled_positive =
            subst (λ x. pos 0 ≤ℤ x) (sym su)
              (omega (arith, +ℤ_parts (units order.settled_quantity) (units q)));
        pending_positive =
            subst (λ x. pos 0 ≤ℤ x) (sym ru)
              (omega (arith, -ℤ_parts (units order.pending_quantity) (units q)));
        fits =
            subst
              (λ x. x +ℤ units (release_pending d q order).pending_quantity ≤ℤ units order.quantity)
              (sym su)
              (subst (λ x. units order.settled_quantity +ℤ units q +ℤ x ≤ℤ units order.quantity)
                (sym ru)
                (omega (
                  arith,
                  -ℤ_parts (units order.pending_quantity) (units q),
                  +ℤ_parts (units order.settled_quantity) (units q),
                  +ℤ_parts (units order.settled_quantity) (units order.pending_quantity),
                  +ℤ_parts (units order.settled_quantity +ℤ units q)
                      (units order.pending_quantity -ℤ units q),
                )));
        in_range = b.in_range;
      }

  -- The settlement is gone, and its order is as `f` makes it.
  finish-lookup :
      (f : Carrier → TrackedOrder d → TrackedOrder d) (proposal_id : Text)
      (entry : SettlementOrderEntry d) (order : TrackedOrder d) (t : OrderTracker d)
      → lookup proposal_id t.settlement_orders ≡ some entry
      → entry.reserved ≡ true
      → lookup entry.order_id t.orders ≡ some order
      → (lookup entry.order_id (finish d f proposal_id t).orders ≡ some (f entry.quantity order))
        × (lookup proposal_id (finish d f proposal_id t).settlement_orders ≡ none)
  unfolding finish
  finish-lookup f proposal_id entry order t e held oe = (
    rw (e, held, finish)
        (lookup-update_order d entry.order_id (f entry.quantity) order t.orders oe),
    rw (e, held, finish)
        (ground
          (arith, lookup-remove proposal_id proposal_id t.settlement_orders, ==_refl proposal_id)),
  )

  -- A settlement that fails gives back what it reserved. If it is adopted and reserved, of a
  -- tracked and balanced order, for an amount that the ledger has, not negative and among what is
  -- pending, then after its failure it is no longer adopted, what is pending is less by exactly
  -- the quantity, the rest of the order is as it was, and the order is still balanced.
  pub mark_failed-IsBalanced :
      (s : Saturates d) (proposal_id : Text) (entry : SettlementOrderEntry d)
      (order : TrackedOrder d) (t : OrderTracker d)
      → lookup proposal_id t.settlement_orders ≡ some entry
      → entry.reserved ≡ true
      → lookup entry.order_id t.orders ≡ some order
      → IsBalanced d m order
      → m.IsAmount entry.quantity
      → pos 0 ≤ℤ d.units entry.quantity
      → d.units entry.quantity ≤ℤ d.units order.pending_quantity
      → (pending : d.Carrier) × (lookup proposal_id (mark_failed d proposal_id t).settlement_orders
          ≡ none)
        × (lookup entry.order_id (mark_failed d proposal_id t).orders
            ≡ some (record order { pending_quantity = pending }))
        × (d.units pending ≡ d.units order.pending_quantity -ℤ d.units entry.quantity)
        × IsBalanced d m (record order { pending_quantity = pending })
  unfolding mark_failed
  mark_failed-IsBalanced s proposal_id entry order t e held oe b qa qp l =
      let (found, gone) = finish-lookup (release_pending d) proposal_id entry order t e held oe in
      (
        (release_pending d entry.quantity order).pending_quantity,
        gone,
        found,
        (release-units s order entry.quantity b qa qp l).0,
        release-IsBalanced s order entry.quantity b qa qp l,
      )

  -- A settlement that completes moves what it reserved from pending to settled. If it is adopted
  -- and reserved, of a tracked and balanced order, for an amount that the ledger has, not negative
  -- and among what is pending, then after its completion it is no longer adopted, what is pending
  -- is less and what is settled is more by exactly the quantity, the rest of the order is as it
  -- was, and the order is still balanced.
  pub mark_settled-IsBalanced :
      (s : Saturates d) (proposal_id : Text) (entry : SettlementOrderEntry d)
      (order : TrackedOrder d) (t : OrderTracker d)
      → lookup proposal_id t.settlement_orders ≡ some entry
      → entry.reserved ≡ true
      → lookup entry.order_id t.orders ≡ some order
      → IsBalanced d m order
      → m.IsAmount entry.quantity
      → pos 0 ≤ℤ d.units entry.quantity
      → d.units entry.quantity ≤ℤ d.units order.pending_quantity
      → (pending : d.Carrier) × (settled : d.Carrier) × (lookup proposal_id
            (mark_settled d proposal_id t).settlement_orders
          ≡ none)
        × (lookup entry.order_id (mark_settled d proposal_id t).orders
            ≡ some (record order { pending_quantity = pending; settled_quantity = settled }))
        × (d.units pending ≡ d.units order.pending_quantity -ℤ d.units entry.quantity)
        × (d.units settled ≡ d.units order.settled_quantity +ℤ d.units entry.quantity)
        × IsBalanced d m (record order { pending_quantity = pending; settled_quantity = settled })
  unfolding mark_settled
  mark_settled-IsBalanced s proposal_id entry order t e held oe b qa qp l =
      let (found, gone) = finish-lookup (settle_pending d) proposal_id entry order t e held oe in
      (
        (settle_pending d entry.quantity order).pending_quantity,
        (settle_pending d entry.quantity order).settled_quantity,
        gone,
        found,
        (release-units s order entry.quantity b qa qp l).0,
        (settle-units s order entry.quantity b qa qp l).0,
        settle-IsBalanced s order entry.quantity b qa qp l,
      )
