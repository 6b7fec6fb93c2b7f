-- ===== src/OrderTracker/Admission.antt =====
-- A settlement that is accepted is one that the agent signed for and has room for.
use silvana_book_agent.Common.{
  ℕ, ◌<◌, ◌≡◌, ap, ◌∙◌, inl, inr, Bool, true, some, arith, leb, nat_Eq, Bool-cases, Option-cases,
}
use silvana_book_agent.Common.Text.{Text, text_Eq}
use silvana_book_agent.Common.Dict.{lookup}
use silvana_book_agent.Common.Decimal.{Decimal, le, lt}
use silvana_book_agent.OrderTracker.{
  TrackedOrder, accepted, OrderMatch, SettlementProposal, OrderTracker, Outside, Bytes,
}
use silvana_book_agent.OrderTracker.Settle.{remaining_capacity}
use silvana_book_agent.OrderTracker.Verify.{
  decimal_or_nought, check_capacity, verify_tracked_order, our_order_id, verify_settlement,
}

module _ (d : Decimal) (o : Outside d) where
  open d use {Carrier, nought}

  -- The quantity is positive and fits in what is left of the order.
  pub record HasRoom (order : TrackedOrder d) (quantity : d.Carrier) : Type 0 where
    pub positive : lt d d.nought quantity ≡ true
    pub remaining : d.Carrier
    pub is_remaining : remaining_capacity d order ≡ some remaining
    pub enough : le d quantity remaining ≡ true

  -- The agent's key signed the bytes, after the tracker started.
  pub record IsSigned (signed_data : Bytes) (signature : Text) (nonce start_time_ms : ℕ)
      : Type 0 where
    pub verify : Bytes → Text → Bool
    pub key : o.verify_order_signature ≡ some verify
    pub valid : verify signed_data signature ≡ true
    pub fresh : start_time_ms < nonce

  check_capacity-room :
      (order : TrackedOrder d) (order_id : ℕ) (requested : Text) {id : ℕ}
      → check_capacity d o order order_id requested ≡ accepted id
      → (id ≡ order_id) × HasRoom order (decimal_or_nought d o requested)
  unfolding check_capacity
  check_capacity-room order order_id requested {id} e =
      elim (Bool-cases (le d (decimal_or_nought d o requested) nought)) [
        | inl bad ↦ ground arith
        | inr good ↦ elim (Option-cases (remaining_capacity d order)) [
          | inl over ↦ ground arith
          | inr (remaining, re) ↦
              elim (Bool-cases (lt d remaining (decimal_or_nought d o requested))) [
                | inl short ↦ ground arith
                | inr enough ↦ (
                  ground arith,
                  record {
                    positive = ground arith;
                    remaining = remaining;
                    is_remaining = re;
                    enough = ground arith;
                  },
                )
              ]
        ]
      ]

  verify_tracked_order-IsSigned :
      (tracked : TrackedOrder d) (proposal : SettlementProposal) (order_id : ℕ) (t : OrderTracker d)
      {id : ℕ}
      → verify_tracked_order d o tracked proposal order_id t ≡ accepted id
      → (id ≡ order_id)
        × IsSigned tracked.signed_data tracked.signature tracked.nonce t.start_time_ms
        × HasRoom tracked (decimal_or_nought d o proposal.base_quantity)
  unfolding verify_tracked_order
  verify_tracked_order-IsSigned tracked proposal order_id t {id} e =
      elim (Option-cases o.verify_order_signature) [
        | inl no_key ↦ ground arith
        | inr (verify, k) ↦ elim (Bool-cases (verify tracked.signed_data tracked.signature)) [
          | inr bad ↦ ground (arith, k, bad)
          | inl good ↦ elim (Bool-cases (leb tracked.nonce t.start_time_ms)) [
            | inl old ↦ ground (arith, k, good, old)
            | inr fresh ↦
                let (same, room) =
                  check_capacity-room tracked order_id proposal.base_quantity {id = id}
                    (rw (k, good, fresh, verify_tracked_order) at e) in
                (
                  same,
                  record { verify = verify; key = k; valid = good; fresh = ground arith },
                  room,
                )
          ]
        ]
      ]

  -- Only a settlement of an order that the agent signed is accepted. If a proposal is accepted, it
  -- names our side's order, that order is tracked, its bytes carry a valid signature by the
  -- agent's key, it was signed after the tracker started, and the proposed quantity is positive
  -- and fits in what is left of the order.
  pub verify_settlement-accepted :
      (proposal : SettlementProposal) (our_party : Text) (now : ℕ) (t : OrderTracker d) (id : ℕ)
      → verify_settlement d o proposal our_party now t ≡ accepted id
      → (om : OrderMatch) × (tracked : TrackedOrder d) × (proposal.order_match ≡ some om)
        × (id ≡ our_order_id d o om proposal our_party)
        × (lookup id t.orders ≡ some tracked)
        × IsSigned tracked.signed_data tracked.signature tracked.nonce t.start_time_ms
        × HasRoom tracked (decimal_or_nought d o proposal.base_quantity)
  unfolding verify_settlement
  verify_settlement-accepted proposal our_party now t id e =
      elim (Option-cases proposal.order_match) [
        | inl unmatched ↦ ground arith
        | inr (om, oe) ↦
            let order_id = our_order_id d o om proposal our_party in
            elim (Option-cases (lookup order_id t.orders)) [
              | inl untracked ↦ ground (arith, oe, untracked)
              | inr (tracked, te) ↦
                  let (same, signed, room) =
                    verify_tracked_order-IsSigned tracked proposal order_id t {id = id}
                      (rw (oe, te, verify_settlement) at e) in
                  (om, tracked, oe, same, ap (λ i. lookup i t.orders) same ∙ te, signed, room)
            ]
      ]
