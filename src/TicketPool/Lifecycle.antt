-- ===== src/TicketPool/Lifecycle.antt =====
-- What any sequence of calls can do to a ticket.
use silvana_book_agent.Common.{
  ℕ, ◌<◌, ◌≡◌, ◌≢◌, refl, true, Option, none, some, List, [], ◌∷◌, arith,
}
use silvana_book_agent.Common.Text.{Text, text_eq_iff, text_Eq}
use silvana_book_agent.Common.Dict.{lookup, lookup-map_values}
use silvana_book_agent.TicketPool.{
  TicketPool, TicketEntry, TicketAcsInfo, assigned, spent, assign, unassign, on_archived,
  mark_spent, expire_assignments, reconcile_from_acs, is_listed, unassign_entry, archive_entry,
  spend_entry, expire_entry,
}
use silvana_book_agent.TicketPool.Assign.{lookup-assign_busy}
use silvana_book_agent.TicketPool.Reconcile.{status_of, status_at, status_at-reconcile_from_acs}

pub data Call : Type 0 where
  assigns : Text → ℕ → Call
  unassigns archives spends : Text → Call
  expires : ℕ → Call
  reconciles : List TicketAcsInfo → Call

unfoldable pub step : Call → TicketPool → TicketPool
step (assigns q x) pool = (assign q x pool).1
step (unassigns q) pool = unassign q pool
step (archives cid) pool = on_archived cid pool
step (spends q) pool = mark_spent q pool
step (expires now) pool = expire_assignments now pool
step (reconciles on_ledger) pool = reconcile_from_acs on_ledger pool

unfoldable pub run : List Call → TicketPool → TicketPool
unfolding step
run [] pool = pool
run (c ∷ cs) pool = run cs (step c pool)

-- No reconciliation among the calls misses the ticket.
abbrev pub Lists : Text → Call → Type 0
Lists tid (reconciles on_ledger) = is_listed on_ledger tid ≡ true
Lists tid _ = Unit

abbrev pub AlwaysListed : Text → List Call → Type 0
AlwaysListed tid [] = Unit
AlwaysListed tid (c ∷ cs) = Lists tid c × AlwaysListed tid cs

assign-spent :
    (q : Text) (x : ℕ) (tid : Text) (o : Option TicketEntry) (pool : TicketPool)
    → lookup tid pool ≡ o
    → status_of o ≡ some spent
    → status_at tid (assign q x pool).1 ≡ some spent
assign-spent q x tid none pool h s = cc
assign-spent q x tid (some e) pool h s = ground (arith, lookup-assign_busy q x tid e pool h)

step-spent :
    (c : Call) (tid : Text) (pool : TicketPool)
    → Lists tid c
    → status_at tid pool ≡ some spent
    → status_at tid (step c pool) ≡ some spent
unfolding step unassign on_archived mark_spent expire_assignments
step-spent (assigns q x) tid pool l h = assign-spent q x tid (lookup tid pool) pool refl h
step-spent (unassigns q) tid pool l h =
    ground (arith, lookup-map_values (unassign_entry q) tid pool)
step-spent (archives cid) tid pool l h =
    ground (arith, lookup-map_values (archive_entry cid) tid pool)
step-spent (spends q) tid pool l h = ground (arith, lookup-map_values (spend_entry q) tid pool)
step-spent (expires now) tid pool l h =
    ground (arith, lookup-map_values (expire_entry now) tid pool)
step-spent (reconciles on_ledger) tid pool l h =
    ground (arith, status_at-reconcile_from_acs on_ledger tid pool)

-- A spent ticket is never free or assigned again, whatever calls follow, as long as each
-- reconciliation among them still finds it on the ledger.
pub run-spent :
    (cs : List Call) (tid : Text) (pool : TicketPool)
    → AlwaysListed tid cs
    → status_at tid pool ≡ some spent
    → status_at tid (run cs pool) ≡ some spent
unfolding run
run-spent [] tid pool l h = h
run-spent (c ∷ cs) tid pool l h = run-spent cs tid (step c pool) l.1 (step-spent c tid pool l.0 h)

-- The call neither ends the assignment of `q` until `x` of the ticket with contract `cid`, nor
-- drops the ticket.
abbrev pub Spares : Text → Text → Text → ℕ → Call → Type 0
Spares tid cid q x (assigns _ _) = Unit
Spares tid cid q x (unassigns q') = q ≢ q'
Spares tid cid q x (archives cid') = cid ≢ cid'
Spares tid cid q x (spends q') = q ≢ q'
Spares tid cid q x (expires now) = now < x
Spares tid cid q x (reconciles _) = ⊥

abbrev pub AllSpare : Text → Text → Text → ℕ → List Call → Type 0
AllSpare tid cid q x [] = Unit
AllSpare tid cid q x (c ∷ cs) = Spares tid cid q x c × AllSpare tid cid q x cs

step-assigned :
    (c : Call) (tid q : Text) (x : ℕ) (e : TicketEntry) (pool : TicketPool)
    → Spares tid e.contract_id q x c
    → lookup tid pool ≡ some e
    → e.status ≡ assigned q x
    → lookup tid (step c pool) ≡ some e
unfolding step unassign on_archived mark_spent expire_assignments
step-assigned (assigns q' x') tid q x e pool l h s =
    lookup-assign_busy q' x' tid e pool h (ground arith)
step-assigned (unassigns q') tid q x e pool l h s =
    ground (arith, lookup-map_values (unassign_entry q') tid pool, text_eq_iff q q')
step-assigned (archives cid) tid q x e pool l h s =
    ground (arith, lookup-map_values (archive_entry cid) tid pool, text_eq_iff e.contract_id cid)
step-assigned (spends q') tid q x e pool l h s =
    ground (arith, lookup-map_values (spend_entry q') tid pool, text_eq_iff q q')
step-assigned (expires now) tid q x e pool l h s =
    ground (arith, lookup-map_values (expire_entry now) tid pool)
step-assigned (reconciles on_ledger) tid q x e pool l h s = absurd l

-- A ticket that backs a live quote backs no other one: while no call gives it back, spends it,
-- archives its contract, expires assignments at or after its expiry, or reconciles, its entry
-- stays as it is, so it stays assigned to that quote until the same time.
pub run-assigned :
    (cs : List Call) (tid q : Text) (x : ℕ) (e : TicketEntry) (pool : TicketPool)
    → AllSpare tid e.contract_id q x cs
    → lookup tid pool ≡ some e
    → e.status ≡ assigned q x
    → lookup tid (run cs pool) ≡ some e
unfolding run
run-assigned [] tid q x e pool l h s = h
run-assigned (c ∷ cs) tid q x e pool l h s =
    run-assigned cs tid q x e (step c pool) l.1 (step-assigned c tid q x e pool l.0 h s) s
