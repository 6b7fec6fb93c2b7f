-- ===== src/TicketPool/Reconcile.antt =====
-- Reconciling the pool with the tickets that are on the ledger.
use silvana_book_agent.Common.{◌≡◌, refl, Option, none, some, List, [], ◌∷◌, arith, if◌then◌else◌}
use silvana_book_agent.Common.Text.{Text, text_eq_iff, text_Eq}
use silvana_book_agent.Common.Dict.{lookup, insert, retain_keys, lookup-insert, lookup-retain_keys}
use silvana_book_agent.TicketPool.{
  TicketPool, TicketEntry, TicketStatus, TicketAcsInfo, free, merged, merge_all, is_listed,
  reconcile_from_acs,
}

abbrev pub status_of : Option TicketEntry → Option TicketStatus
status_of none = none
status_of (some e) = some e.status

-- The status of a ticket, if the pool has it.
abbrev pub status_at : Text → TicketPool → Option TicketStatus
status_at tid pool = status_of (lookup tid pool)

-- A ticket that the pool has keeps its status, and any other is adopted as free.
abbrev pub kept_or_free : Option TicketStatus → TicketStatus
kept_or_free none = free
kept_or_free (some s) = s

status-merged :
    (t : TicketAcsInfo) (o : Option TicketEntry) → (merged t o).status ≡ kept_or_free (status_of o)
status-merged t none = refl
status-merged t (some e) = refl

status_at-merge_all :
    (ts : List TicketAcsInfo) (tid : Text) (pool : TicketPool)
    → status_at tid (merge_all ts pool)
      ≡ (if is_listed ts tid then some (kept_or_free (status_at tid pool)) else status_at tid pool)
unfolding merge_all
status_at-merge_all [] tid pool = refl
status_at-merge_all (t ∷ ts) tid pool = ground (
  arith,
  status_at-merge_all ts tid (insert t.ticket_id (merged t (lookup t.ticket_id pool)) pool),
  lookup-insert t.ticket_id tid (merged t (lookup t.ticket_id pool)) pool,
  status-merged t (lookup t.ticket_id pool),
  text_eq_iff t.ticket_id tid,
)

-- After reconciling, the pool has exactly the tickets on the ledger: one that the pool had keeps
-- its status, one that it did not have is free, and one that is not on the ledger is gone.
pub status_at-reconcile_from_acs :
    (on_ledger : List TicketAcsInfo) (tid : Text) (pool : TicketPool)
    → status_at tid (reconcile_from_acs on_ledger pool)
      ≡ (if is_listed on_ledger tid then some (kept_or_free (status_at tid pool)) else none)
unfolding reconcile_from_acs
status_at-reconcile_from_acs on_ledger tid pool = ground (
  arith,
  status_at-merge_all on_ledger tid (retain_keys (is_listed on_ledger) pool),
  lookup-retain_keys (is_listed on_ledger) tid pool,
)
