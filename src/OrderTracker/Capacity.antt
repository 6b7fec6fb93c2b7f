-- ===== src/OrderTracker/Capacity.antt =====
-- Reservations and the ends of settlements keep the account of an order.
use silvana_book_agent.Common.{
  ℕ, ◌≡◌, ◌⊎◌, refl, sym, ap, ◌∙◌, subst, inl, inr, true, false, none, some, arith, ◌==◌, nat_Eq,
  Bool-cases, Option-cases,
}
use silvana_book_agent.Common.Text.{Text, text_Eq}
use silvana_book_agent.Common.Int.{pos, ◌+ℤ◌, ◌-ℤ◌, ◌≤ℤ◌, +ℤ_parts, -ℤ_parts}
use silvana_book_agent.Common.Dict.{Dict, lookup, lookup-insert, ==_refl}
use silvana_book_agent.Common.Decimal.{Decimal, Amounts, Saturates, lt}
use silvana_book_agent.OrderTracker.{TrackedOrder, SettlementOrderEntry, OrderTracker}
use silvana_book_agent.OrderTracker.Settle.{
  reserved_now, remaining_capacity, update_order, add_pending, refusal, try_reserve_pending,
}

module _ (d : Decimal) where
  open d use {Carrier, units}

  -- A reservation that is not made leaves the tracker as it was.
  pub try_reserve_pending-refused :
      (proposal_id : Text) (t : OrderTracker d)
      → ((try_reserve_pending d proposal_id t).0 ≡ reserved_now)
        ⊎ ((try_reserve_pending d proposal_id t).1 ≡ t)
  unfolding try_reserve_pending
  try_reserve_pending-refused proposal_id t =
      elim (Option-cases (lookup proposal_id t.settlement_orders)) [
        | inl absent ↦ inr (rw (absent, try_reserve_pending) refl)
        | inr (entry, e) ↦ elim (Bool-cases entry.reserved) [
          | inl held ↦ inr (rw (e, held, try_reserve_pending) refl)
          | inr unheld ↦ elim (Option-cases (refusal d entry (lookup entry.order_id t.orders))) [
            | inl clear ↦ inl (rw (e, unheld, clear, try_reserve_pending) refl)
            | inr (refused, r) ↦ inr (rw (e, unheld, r, try_reserve_pending) refl)
          ]
        ]
      ]

  pub lookup-update_order :
      (order_id : ℕ) (f : TrackedOrder d → TrackedOrder d) (order : TrackedOrder d)
      (orders : Dict ℕ (TrackedOrder d))
      → lookup order_id orders ≡ some order
      → lookup order_id (update_order d order_id f orders) ≡ some (f order)
  unfolding update_order
  lookup-update_order order_id f order orders e =
      ground (arith, e, lookup-insert order_id order_id (f order) orders, ==_refl order_id)

module _ (d : Decimal) (m : Amounts d) where
  open d use {Carrier, units, nought}

  -- The quantities of an order are amounts that the ledger has, none is negative, what is settled
  -- and what is pending fit in the order, and the order is in the range where sums are exact.
  pub record IsBalanced (order : TrackedOrder d) : Type 0 where
    pub quantity_amount : m.IsAmount order.quantity
    pub settled_amount : m.IsAmount order.settled_quantity
    pub pending_amount : m.IsAmount order.pending_quantity
    pub settled_positive : pos 0 ≤ℤ d.units order.settled_quantity
    pub pending_positive : pos 0 ≤ℤ d.units order.pending_quantity
    pub fits :
        d.units order.settled_quantity +ℤ d.units order.pending_quantity ≤ℤ d.units order.quantity
    pub in_range : d.units order.quantity ≤ℤ pos m.limit

  remaining_units :
      (order : TrackedOrder d) {remaining : Carrier}
      → IsBalanced order
      → remaining_capacity d order ≡ some remaining
      → units remaining
        ≡ units order.quantity -ℤ units order.settled_quantity -ℤ units order.pending_quantity
  unfolding remaining_capacity
  remaining_units order {remaining} b e =
      let f = b.fits in
      let r = b.in_range in
      let s = b.settled_positive in
      let p = b.pending_positive in
      let (left, found, lu, la) =
        m.sub_total order.quantity order.settled_quantity b.quantity_amount b.settled_amount
          (omega (
            arith,
            -ℤ_parts (units order.quantity) (units order.settled_quantity),
            +ℤ_parts (units order.settled_quantity) (units order.pending_quantity),
            -ℤ_parts (units order.quantity -ℤ units order.settled_quantity)
                (units order.pending_quantity),
          ))
          (omega (
            arith,
            -ℤ_parts (units order.quantity) (units order.settled_quantity),
            +ℤ_parts (units order.settled_quantity) (units order.pending_quantity),
            -ℤ_parts (units order.quantity -ℤ units order.settled_quantity)
                (units order.pending_quantity),
            -ℤ_parts (pos 0) (pos m.limit),
          )) in
      let (rest, found', ru, _) =
        m.sub_total left order.pending_quantity la b.pending_amount
          (rw (lu) (
            omega (
              arith,
              -ℤ_parts (units order.quantity) (units order.settled_quantity),
              +ℤ_parts (units order.settled_quantity) (units order.pending_quantity),
              -ℤ_parts (units order.quantity -ℤ units order.settled_quantity)
                  (units order.pending_quantity),
            )))
          (rw (lu) (
            omega (
              arith,
              -ℤ_parts (units order.quantity) (units order.settled_quantity),
              +ℤ_parts (units order.settled_quantity) (units order.pending_quantity),
              -ℤ_parts (units order.quantity -ℤ units order.settled_quantity)
                  (units order.pending_quantity),
              -ℤ_parts (pos 0) (pos m.limit),
            ))) in
      let same : rest ≡ remaining = ground arith in
      ap units (sym same) ∙ ru ∙ ap (λ x. x -ℤ units order.pending_quantity) lu

  -- Quantities that fit can be added to what is pending, exactly.
  add_pending-IsBalanced :
      (s : Saturates d) (order : TrackedOrder d) (q remaining : Carrier)
      → IsBalanced order
      → m.IsAmount q
      → pos 0 ≤ℤ units q
      → remaining_capacity d order ≡ some remaining
      → lt d remaining q ≡ false
      → IsBalanced (add_pending d q order)
        × (units (add_pending d q order).pending_quantity ≡ units order.pending_quantity +ℤ units q)
  add_pending-IsBalanced s order q remaining b qa qp re enough =
      let f = b.fits in
      let r = b.in_range in
      let sp = b.settled_positive in
      let pp = b.pending_positive in
      let ru = remaining_units order {remaining = remaining} b re in
      let room : units q
          ≤ℤ units order.quantity -ℤ units order.settled_quantity -ℤ units order.pending_quantity =
        rw (← ru) (ground arith) in
      let (sum, found, su, sa) =
        m.add_total order.pending_quantity q b.pending_amount qa
          (omega (
            arith,
            +ℤ_parts (units order.pending_quantity) (units q),
            -ℤ_parts (units order.quantity) (units order.settled_quantity),
            -ℤ_parts (units order.quantity -ℤ units order.settled_quantity)
                (units order.pending_quantity),
          ))
          (omega (
            arith,
            +ℤ_parts (units order.pending_quantity) (units q),
            -ℤ_parts (pos 0) (pos m.limit),
          )) in
      let exact : d.saturating_add order.pending_quantity q ≡ sum =
        s.add_in_range order.pending_quantity q sum found in
      let total : units (d.saturating_add order.pending_quantity q)
          ≡ units order.pending_quantity +ℤ units q =
        ap units exact ∙ su in
      (
        record {
          quantity_amount = b.quantity_amount;
          settled_amount = b.settled_amount;
          pending_amount = subst m.IsAmount (sym exact) sa;
          settled_positive = b.settled_positive;
          pending_positive =
              rw (total) (omega (arith, +ℤ_parts (units order.pending_quantity) (units q)));
          fits = rw (total) (
              omega (
                arith,
                +ℤ_parts (units order.pending_quantity) (units q),
                +ℤ_parts (units order.settled_quantity) (units order.pending_quantity +ℤ units q),
                -ℤ_parts (units order.quantity) (units order.settled_quantity),
                -ℤ_parts (units order.quantity -ℤ units order.settled_quantity)
                    (units order.pending_quantity),
              ));
          in_range = b.in_range;
        },
        total,
      )

  -- A reservation never oversells its order. If the settlement is adopted and not reserved, of an
  -- order with an id other than 0 that is tracked and balanced, for an amount that the ledger has
  -- and that is not negative, then a reservation that succeeds adds the quantity exactly to what
  -- is pending, what is settled and pending still fits in the order, and the settlement is marked
  -- reserved.
  pub try_reserve_pending-IsBalanced :
      (s : Saturates d) (proposal_id : Text) (entry : SettlementOrderEntry d)
      (order : TrackedOrder d) (t : OrderTracker d)
      → lookup proposal_id t.settlement_orders ≡ some entry
      → entry.reserved ≡ false
      → (entry.order_id == 0) ≡ false
      → lookup entry.order_id t.orders ≡ some order
      → IsBalanced order
      → m.IsAmount entry.quantity
      → pos 0 ≤ℤ d.units entry.quantity
      → (try_reserve_pending d proposal_id t).0 ≡ reserved_now
      → (lookup entry.order_id (try_reserve_pending d proposal_id t).1.orders
          ≡ some (add_pending d entry.quantity order))
        × (lookup proposal_id (try_reserve_pending d proposal_id t).1.settlement_orders
            ≡ some (record entry { reserved = true }))
        × IsBalanced (add_pending d entry.quantity order)
        × (d.units (add_pending d entry.quantity order).pending_quantity
            ≡ d.units order.pending_quantity +ℤ d.units entry.quantity)
  unfolding try_reserve_pending refusal
  try_reserve_pending-IsBalanced s proposal_id entry order t e free known oe b qa qp done =
      elim (Option-cases (remaining_capacity d order)) [
        | inl over ↦ ground (arith, e, oe, over)
        | inr (remaining, re) ↦ elim (Bool-cases (lt d remaining entry.quantity)) [
          | inl short ↦ ground (arith, e, oe, re, short)
          | inr enough ↦
              let clear : refusal d entry (lookup entry.order_id t.orders) ≡ none =
                rw (oe, refusal, known, re, enough) refl in
              let (b', total) =
                add_pending-IsBalanced s order entry.quantity remaining b qa qp re enough in
              (
                rw (e, free, clear, try_reserve_pending)
                    (lookup-update_order d entry.order_id (add_pending d entry.quantity) order
                      t.orders oe),
                rw (e, free, clear, try_reserve_pending)
                    (ground (
                      arith,
                      lookup-insert proposal_id proposal_id (record entry { reserved = true })
                          t.settlement_orders,
                      ==_refl proposal_id,
                    )),
                b',
                total,
              )
        ]
      ]
