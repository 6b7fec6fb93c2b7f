-- ===== src/TicketPool/Invariant.antt =====
-- Each ticket is stored under its own id, and none twice, after any calls.
use silvana_book_agent.Common.{◌≡◌, refl, Bool, List, [], ◌∷◌, arith}
use silvana_book_agent.Common.Text.{Text, text_eq_iff, text_Eq}
use silvana_book_agent.Common.Dict.{
  lookup, insert, retain_keys, map_values, IsUnique, insert-IsUnique, map_values-IsUnique,
  retain_keys-IsUnique,
}
use silvana_book_agent.TicketPool.{
  TicketPool, TicketEntry, TicketAcsInfo, merged, merge_all, reconcile_from_acs, is_listed,
  unassign, on_archived, mark_spent, expire_assignments, unassign_entry, archive_entry, spend_entry,
  expire_entry, new,
}
use silvana_book_agent.TicketPool.Assign.{IsKeyed, assign-IsKeyed}
use silvana_book_agent.TicketPool.Lifecycle.{
  Call, assigns, unassigns, archives, spends, expires, reconciles, step, run,
}

pub record IsValid (pool : TicketPool) : Type 0 where
  pub unique : IsUnique pool
  pub keyed : IsKeyed pool

map_values-IsKeyed :
    (f : TicketEntry → TicketEntry) (pool : TicketPool)
    → ((e : TicketEntry) → (f e).ticket_id ≡ e.ticket_id)
    → IsKeyed pool
    → IsKeyed (map_values f pool)
map_values-IsKeyed f [] same h = tt
map_values-IsKeyed f ((k, e) ∷ pool) same h =
    ground (arith, same e, map_values-IsKeyed f pool same h.1)

map_values-IsValid :
    (f : TicketEntry → TicketEntry) (pool : TicketPool)
    → ((e : TicketEntry) → (f e).ticket_id ≡ e.ticket_id)
    → IsValid pool
    → IsValid (map_values f pool)
map_values-IsValid f pool same v = record {
  unique = map_values-IsUnique f pool v.unique;
  keyed = map_values-IsKeyed f pool same v.keyed;
}

insert-IsKeyed :
    (k : Text) (e : TicketEntry) (pool : TicketPool)
    → e.ticket_id ≡ k
    → IsKeyed pool
    → IsKeyed (insert k e pool)
insert-IsKeyed k e [] same h = (same, tt)
insert-IsKeyed k e ((j, d) ∷ pool) same h =
    ground (arith, text_eq_iff j k, insert-IsKeyed k e pool same h.1)

retain_keys-IsKeyed :
    (p : Text → Bool) (pool : TicketPool) → IsKeyed pool → IsKeyed (retain_keys p pool)
retain_keys-IsKeyed p [] h = tt
retain_keys-IsKeyed p ((k, e) ∷ pool) h = ground (arith, retain_keys-IsKeyed p pool h.1)

id-merged :
    (t : TicketAcsInfo) (pool : TicketPool)
    → IsKeyed pool
    → (merged t (lookup t.ticket_id pool)).ticket_id ≡ t.ticket_id
id-merged t [] h = refl
id-merged t ((k, e) ∷ pool) h = ground (arith, text_eq_iff k t.ticket_id, id-merged t pool h.1)

merge_all-IsValid :
    (ts : List TicketAcsInfo) (pool : TicketPool) → IsValid pool → IsValid (merge_all ts pool)
unfolding merge_all
merge_all-IsValid [] pool v = v
merge_all-IsValid (t ∷ ts) pool v =
    let e = merged t (lookup t.ticket_id pool) in
    merge_all-IsValid ts (insert t.ticket_id e pool) (record {
      unique = insert-IsUnique t.ticket_id e pool v.unique;
      keyed = insert-IsKeyed t.ticket_id e pool (id-merged t pool v.keyed) v.keyed;
    })

step-IsValid : (c : Call) (pool : TicketPool) → IsValid pool → IsValid (step c pool)
unfolding step unassign on_archived mark_spent expire_assignments reconcile_from_acs
step-IsValid (assigns q x) pool v =
    let kept = assign-IsKeyed q x pool v.unique v.keyed in
    record { unique = kept.0; keyed = kept.1 }
step-IsValid (unassigns q) pool v = map_values-IsValid (unassign_entry q) pool (λ e. ground arith) v
step-IsValid (archives cid) pool v =
    map_values-IsValid (archive_entry cid) pool (λ e. ground arith) v
step-IsValid (spends q) pool v = map_values-IsValid (spend_entry q) pool (λ e. ground arith) v
step-IsValid (expires now) pool v = map_values-IsValid (expire_entry now) pool (λ e. ground arith) v
step-IsValid (reconciles on_ledger) pool v =
    merge_all-IsValid on_ledger (retain_keys (is_listed on_ledger) pool) (record {
      unique = retain_keys-IsUnique (is_listed on_ledger) pool v.unique;
      keyed = retain_keys-IsKeyed (is_listed on_ledger) pool v.keyed;
    })

run-IsValid : (cs : List Call) (pool : TicketPool) → IsValid pool → IsValid (run cs pool)
unfolding run
run-IsValid [] pool v = v
run-IsValid (c ∷ cs) pool v = run-IsValid cs (step c pool) (step-IsValid c pool v)

-- After any calls on a new pool each ticket stands under its own id, and no id twice.
pub run-new-IsValid : (cs : List Call) → IsValid (run cs new)
run-new-IsValid cs = run-IsValid cs new (record { unique = tt; keyed = tt })
