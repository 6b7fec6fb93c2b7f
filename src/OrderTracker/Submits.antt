-- ===== src/OrderTracker/Submits.antt =====
-- Submits that failed, kept in case the server booked the order after all.
use silvana_book_agent.Common.{
  ℕ, ◌+◌, ◌-◌, Bool, true, false, ◌&&◌, Option, none, some, List, [], ◌∷◌, ◌++◌, leb, ltb, ◌==◌,
  if◌then◌else◌, nat_Eq, length, filter, drop,
}
use silvana_book_agent.Common.Text.{Text, text_Eq}
use silvana_book_agent.Common.Dict.{insert, retain, contains}
use silvana_book_agent.Common.Decimal.{Decimal}
use silvana_book_agent.OrderTracker.{
  FailedSubmit, Order, OrderTracker, Outside, submit_failed_hold, failed_submit_adopt,
  failed_submit_max,
}
use silvana_book_agent.OrderTracker.Verify.{track_order}

-- `order.signature.as_deref() == Some(s.signature.as_str())`
abbrev pub is_signature : Option Text → Text → Bool
is_signature none s = false
is_signature (some signature) s = signature == s

-- `while len() >= MAX { pop_front() }`
unfoldable pub drop_oldest : List (ℕ × FailedSubmit) → List (ℕ × FailedSubmit)
drop_oldest submits = drop (length submits + 1 - failed_submit_max) submits

unfoldable pub is_of_order : Order → FailedSubmit → Bool
is_of_order order s =
    s.nonce == order.nonce
    && s.market_id == order.market_id
    && is_signature order.signature s.signature
    && s.signed_data == order.signed_data

-- The first kept submit of the order, and the others.
unfoldable pub remove_first :
    Order → List (ℕ × FailedSubmit) → Option (FailedSubmit × List (ℕ × FailedSubmit))
unfolding is_of_order
remove_first order [] = none
remove_first order ((at_time, s) ∷ submits) =
    let rest = remove_first order submits in
    if is_of_order order s
    then some (s, submits)
    else elim rest [ none ↦ none | some (found, others) ↦ some (found, (at_time, s) ∷ others) ]

module _ (d : Decimal) (o : Outside d) where
  unfoldable pub prune_failed_submits : ℕ → OrderTracker d → OrderTracker d
  prune_failed_submits now t = record t {
    failed_submits = filter (λ s. ltb (now - s.0) failed_submit_adopt) t.failed_submits;
  }

  unfoldable pub note_submit_failed : FailedSubmit → ℕ → OrderTracker d → OrderTracker d
  unfolding prune_failed_submits drop_oldest
  note_submit_failed submit now t =
      let pruned = prune_failed_submits now t in
      record pruned {
        submit_failed_at =
            insert submit.market_id now
              (retain (λ at_time. ltb (now - at_time) submit_failed_hold) t.submit_failed_at);
        failed_submits = drop_oldest pruned.failed_submits ++ ((now, submit) ∷ []);
      }

  unfoldable pub adopt_failed_submit : Order → ℕ → OrderTracker d → Bool × OrderTracker d
  unfolding prune_failed_submits remove_first
  adopt_failed_submit order now t =
      let pruned = prune_failed_submits now t in
      if contains order.order_id pruned.orders
      then (false, pruned)
      else elim (remove_first order pruned.failed_submits) [
        | none ↦ (false, pruned)
        | some (s, others) ↦ (
          true,
          track_order d o order.order_id s.market_id s.order_type s.price s.quantity s.nonce
              s.signature s.signed_data (record pruned { failed_submits = others }),
        )
      ]

  abbrev pub one_if : Bool → ℕ
  one_if false = 0
  one_if true = 1

  unfoldable pub adopt_each : List Order → ℕ → OrderTracker d → ℕ × OrderTracker d
  unfolding adopt_failed_submit
  adopt_each [] now t = (0, t)
  adopt_each (order ∷ orders) now t =
      let (adopted, t') = adopt_failed_submit order now t in
      let (count, t'') = adopt_each orders now t' in (one_if adopted + count, t'')

  unfoldable pub adopt_listed : List Order → ℕ → OrderTracker d → ℕ × OrderTracker d
  unfolding adopt_each
  adopt_listed orders now t =
      if leb (length t.failed_submits) 0 then (0, t) else adopt_each orders now t
