-- ===== src/OrderTracker/Adoption.antt =====
-- Orders that a failed submit booked after all.
use mathlib.Core.List.{Memᴰ}
use silvana_book_agent.Common.{
  ℕ, ◌-◌, ◌<◌, ◌≡◌, ap, refl, sym, subst, ◌++◌, Bool, inl, inr, true, Option, none, some, List, [],
  ◌∷◌, arith, ltb, nat_Eq, nat_eq_iff, filter, All, Bool-cases, Option-cases,
}
use silvana_book_agent.Common.Text.{Text, codes, text_Eq, text_eq_iff}
use silvana_book_agent.Common.Dict.{lookup, contains, lookup-insert, ==_refl}
use silvana_book_agent.Common.Decimal.{Decimal}
use silvana_book_agent.OrderTracker.{
  TrackedOrder, FailedSubmit, Order, OrderTracker, Outside, failed_submit_adopt,
}
use silvana_book_agent.OrderTracker.Verify.{track_order, decimal_or_nought}
use silvana_book_agent.OrderTracker.Submits.{
  is_signature, is_of_order, remove_first, prune_failed_submits, adopt_failed_submit,
}

-- The submit is the one that booked the order: its nonce, market, signature and signed bytes.
pub record IsOf (order : Order) (s : FailedSubmit) : Type 0 where
  pub nonce : s.nonce ≡ order.nonce
  pub market : s.market_id ≡ order.market_id
  pub signature : order.signature ≡ some s.signature
  pub signed_data : s.signed_data ≡ order.signed_data

is_of_order-IsOf : (order : Order) (s : FailedSubmit) → is_of_order order s ≡ true → IsOf order s
unfolding is_of_order
is_of_order-IsOf order s e = record {
  nonce = ground (arith, nat_eq_iff s.nonce order.nonce);
  market = ground (arith, text_eq_iff s.market_id order.market_id);
  signature = go order.signature (ground arith);
  signed_data = ground (arith, text_eq_iff s.signed_data order.signed_data);
}
  where
    go :
        (signature : Option Text)
        → is_signature signature s.signature ≡ true
        → signature ≡ some s.signature
    go none f = cc
    go (some x) f = ap some ((text_eq_iff x s.signature).0 f)

-- A kept submit that is taken out: what stood before it and behind it is what is left.
pub record TakenOut (submits others : List (ℕ × FailedSubmit)) (s : FailedSubmit) : Type 0 where
  pub at_time : ℕ
  pub front : List (ℕ × FailedSubmit)
  pub back : List (ℕ × FailedSubmit)
  pub was : submits ≡ front ++ ((at_time, s) ∷ back)
  pub left : others ≡ front ++ back

-- An answer of the search: nothing, or one of the submits, which is the order's, taken out.
abbrev Taken :
    Order → List (ℕ × FailedSubmit) → Option (FailedSubmit × List (ℕ × FailedSubmit)) → Type 0
Taken order submits none = Unit
Taken order submits (some (s, others)) = (is_of_order order s ≡ true) × TakenOut submits others s

Taken-later :
    (order : Order) (x : ℕ × FailedSubmit) (submits : List (ℕ × FailedSubmit))
    (answer : Option (FailedSubmit × List (ℕ × FailedSubmit)))
    → Taken order submits answer
    → Taken order
        (x ∷ submits)
        (elim answer [ none ↦ none | some (found, others) ↦ some (found, x ∷ others) ])
Taken-later order x submits none t = tt
Taken-later order x submits (some (s, others)) (e, out) = (
  e,
  record {
    at_time = out.at_time;
    front = x ∷ out.front;
    back = out.back;
    was = ap (λ xs. x ∷ xs) out.was;
    left = ap (λ xs. x ∷ xs) out.left;
  },
)

remove_first-Taken :
    (order : Order) (submits : List (ℕ × FailedSubmit))
    → Taken order submits (remove_first order submits)
unfolding remove_first
remove_first-Taken order [] = tt
remove_first-Taken order ((at_time, x) ∷ submits) = elim (Bool-cases (is_of_order order x)) [
  | inl here ↦
      rw (here, remove_first)
        (here, record { at_time = at_time; front = []; back = submits; was = refl; left = refl })
  | inr other ↦
      rw (other, remove_first)
        (Taken-later order (at_time, x) submits (remove_first order submits)
          (remove_first-Taken order submits))
]

-- Recent enough to be adopted.
abbrev pub IsRecent : ℕ → ℕ × FailedSubmit → Type 0
IsRecent now submit = now - submit.0 < failed_submit_adopt

filter-IsRecent :
    (now : ℕ) (submits : List (ℕ × FailedSubmit))
    → All (IsRecent now) (filter (λ s. ltb (now - s.0) failed_submit_adopt) submits)
filter-IsRecent now [] = tt
filter-IsRecent now (s ∷ submits) = ground (arith, filter-IsRecent now submits)

-- A submit that is kept after pruning is recent.
middle-IsRecent :
    (now : ℕ) (front back : List (ℕ × FailedSubmit)) (x : ℕ × FailedSubmit)
    → All (IsRecent now) (front ++ (x ∷ back))
    → IsRecent now x
middle-IsRecent now [] back x a = a.0
middle-IsRecent now (y ∷ front) back x a = middle-IsRecent now front back x a.1

Mem-middle :
    (front back : List (ℕ × FailedSubmit)) (x : ℕ × FailedSubmit) → Memᴰ x (front ++ (x ∷ back))
Mem-middle [] back x = Memᴰ.head refl
Mem-middle (y ∷ front) back x = Memᴰ.tail (Mem-middle front back x)

Mem-later :
    {x y : ℕ × FailedSubmit} {xs ys : List (ℕ × FailedSubmit)}
    → (Memᴰ x xs → Memᴰ x ys)
    → Memᴰ x (y ∷ xs)
    → Memᴰ x (y ∷ ys)
Mem-later f (Memᴰ.head e) = Memᴰ.head e
Mem-later f (Memᴰ.tail m) = Memᴰ.tail (f m)

-- What pruning keeps was there.
Mem-filter :
    (p : ℕ × FailedSubmit → Bool) (x : ℕ × FailedSubmit) (submits : List (ℕ × FailedSubmit))
    → Memᴰ x (filter p submits)
    → Memᴰ x submits
Mem-filter p x [] m = m
Mem-filter p x (y ∷ submits) m = elim (Bool-cases (p y)) [
  | inl kept ↦ Mem-later (Mem-filter p x submits) (rw kept at m)
  | inr dropped ↦ Memᴰ.tail (Mem-filter p x submits (rw dropped at m))
]

module _ (d : Decimal) (o : Outside d) where
  -- How the order of a submit is tracked.
  abbrev pub adopted_order : FailedSubmit → ℕ → TrackedOrder d
  adopted_order s order_id = record {
    order_id = order_id;
    market_id = s.market_id;
    order_type = s.order_type;
    price = decimal_or_nought d o s.price;
    quantity = decimal_or_nought d o s.quantity;
    settled_quantity = d.nought;
    pending_quantity = d.nought;
    nonce = s.nonce;
    signature = s.signature;
    signed_data = s.signed_data;
    placed_by = codes "agent";
    is_active = true;
  }

  -- Only an order that one of our failed submits booked is adopted. If an order is adopted, it was
  -- not tracked before; one of the failed submits of the tracker, which failed less than an hour
  -- ago, has the order's nonce, market, signature and signed bytes; of the submits that are kept,
  -- that one is taken out and no other; and the order is tracked with the nonce, market, signature
  -- and signed bytes of the submit, nothing settled and nothing pending.
  pub adopt_failed_submit-IsOf :
      (order : Order) (now : ℕ) (t : OrderTracker d)
      → (adopt_failed_submit d o order now t).0 ≡ true
      → (s : FailedSubmit) × IsOf order s
        × ((out : TakenOut
              (prune_failed_submits d o now t).failed_submits
              (adopt_failed_submit d o order now t).1.failed_submits
              s)
            × Memᴰ (out.at_time, s) t.failed_submits
            × IsRecent now (out.at_time, s))
        × (lookup order.order_id t.orders ≡ none)
        × (lookup order.order_id (adopt_failed_submit d o order now t).1.orders
            ≡ some (adopted_order s order.order_id))
  unfolding adopt_failed_submit prune_failed_submits track_order
  adopt_failed_submit-IsOf order now t h = elim (Bool-cases (contains order.order_id t.orders)) [
    | inl known ↦ ground arith
    | inr unknown ↦
        let kept = filter (λ s. ltb (now - s.0) failed_submit_adopt) t.failed_submits in
        let taken = remove_first-Taken order kept in
        elim (Option-cases (remove_first order kept)) [
          | inl absent ↦ ground arith
          | inr ((s, others), e) ↦
              let mine : Taken order kept (some (s, others)) = rw (e) at taken in
              let out = mine.1 in
              let x : ℕ × FailedSubmit = (out.at_time, s) in
              (
                s,
                is_of_order-IsOf order s mine.0,
                rw (unknown, e, adopt_failed_submit)
                    (
                      out,
                      Mem-filter (λ s. ltb (now - s.0) failed_submit_adopt) x t.failed_submits
                          (subst (Memᴰ x) (sym out.was) (Mem-middle out.front out.back x)),
                      middle-IsRecent now out.front out.back x (
                          subst (All (IsRecent now)) out.was
                            (filter-IsRecent now t.failed_submits)),
                    ),
                ground arith,
                rw (unknown, e, adopt_failed_submit)
                    (ground (
                      arith,
                      lookup-insert order.order_id order.order_id (adopted_order s order.order_id)
                          t.orders,
                      ==_refl order.order_id,
                    )),
              )
        ]
  ]
