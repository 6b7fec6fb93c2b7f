-- ===== src/TicketPool/Examples.antt =====
-- The ticket pool on concrete tickets.
use silvana_book_agent.Common.{◌≡◌, refl, none, some, List, [], ◌∷◌, arith, if◌then◌else◌}
use silvana_book_agent.Common.Text.{Text, codes, text_Eq}
use silvana_book_agent.Common.Dict.{lookup}
use silvana_book_agent.TicketPool.{
  TicketPool, TicketEntry, TicketStatus, TicketAcsInfo, free, assigned, spent, assign,
  reconcile_from_acs, is_listed, snapshot, new,
}
use silvana_book_agent.TicketPool.Assign.{GivenBy, assign-Given}
use silvana_book_agent.TicketPool.Reconcile.{status_at, kept_or_free, status_at-reconcile_from_acs}
use silvana_book_agent.TicketPool.Lifecycle.{
  assigns, unassigns, expires, reconciles, run, run-spent, run-assigned,
}
use silvana_book_agent.TicketPool.Persist.{Break, Brings, reload, restore-snapshot}

abbrev ticket : Text → TicketStatus → TicketEntry
ticket id status = record {
  ticket_id = id;
  contract_id = codes "c";
  template_id = some (codes "t");
  created_event_blob = some (codes "b");
  payload_json = some (codes "{}");
  status = status;
}

abbrev t1 : Text
t1 = codes "t1"

abbrev t2 : Text
t2 = codes "t2"

abbrev q1 : Text
q1 = codes "q1"

abbrev two_tickets : TicketPool
two_tickets = (t1, ticket t1 spent) ∷ (t2, ticket t2 free) ∷ []

abbrev one_assigned : TicketPool
one_assigned = (t1, ticket t1 (assigned q1 5000000000)) ∷ (t2, ticket t2 free) ∷ []

abbrev on_ledger : List TicketAcsInfo
on_ledger =
    record {
      ticket_id = t1;
      contract_id = codes "c";
      template_id = none;
      created_event_blob = none;
      payload_json = none;
    }
    ∷ []

assign-Given_example : GivenBy q1 9 two_tickets (assign q1 9 two_tickets)
assign-Given_example = assign-Given q1 9 two_tickets (refl, (refl, tt)) (refl, (refl, tt))

status_at-reconcile_from_acs_example :
    status_at t1 (reconcile_from_acs on_ledger two_tickets)
    ≡ (if is_listed on_ledger t1 then some (kept_or_free (status_at t1 two_tickets)) else none)
status_at-reconcile_from_acs_example = status_at-reconcile_from_acs on_ledger t1 two_tickets

run-spent_example :
    status_at t1 (run (reconciles on_ledger ∷ unassigns q1 ∷ assigns q1 7 ∷ []) two_tickets)
    ≡ some spent
run-spent_example =
    run-spent (reconciles on_ledger ∷ unassigns q1 ∷ assigns q1 7 ∷ []) t1 two_tickets
      (refl, (tt, (tt, tt))) refl

run-assigned_example :
    lookup t1 (run (assigns (codes "q2") 7 ∷ expires 4000000000 ∷ []) one_assigned)
    ≡ some (ticket t1 (assigned q1 5000000000))
run-assigned_example =
    run-assigned (assigns (codes "q2") 7 ∷ expires 4000000000 ∷ []) t1 q1 5000000000
      (ticket t1 (assigned q1 5000000000)) one_assigned (tt, (ground arith, tt)) refl refl

abbrev short_break : Break
short_break = record {
  saved_instant = 1000000000;
  saved_ms = 1700000000000;
  gap_ms = 2000;
  restart_instant = 500000000;
  max_ttl = 60000000000;
  latest = 1000000000000000000;
}

restore-snapshot_example :
    Brings short_break
      (lookup t1 one_assigned)
      (lookup t1 (reload short_break (snapshot 1000000000 1700000000000 one_assigned) new))
restore-snapshot_example =
    restore-snapshot short_break t1 one_assigned (refl, (refl, tt)) (refl, (refl, tt))
      (ground arith, ground arith)
