-- ===== src/TicketPool.antt =====
-- crates/cloud-agent/src/ticket_pool.rs: the pool of settlement tickets. The mutex is held for the
-- whole of each call, so a call is one step on the map. `Instant` is a number of nanoseconds on the
-- monotonic clock; the wall clock is in milliseconds, and both readings are arguments.
pub mod Assign
pub mod Reconcile
pub mod Persist
pub mod Lifecycle
pub mod Invariant
mod Examples
use silvana_book_agent.Common.{
  ℕ, suc, ◌+◌, ◌-◌, ◌*◌, ◌/◌, ◌^◌, min, Bool, true, false, ◌&&◌, Option, none, some, List, [], ◌∷◌,
  map, ltb, leb, ◌==◌, if◌then◌else◌, is_some, any, filter, length,
}
use silvana_book_agent.Common.Text.{Text, codes, text_Eq}
use silvana_book_agent.Common.Dict.{Dict, lookup, insert, retain_keys, map_values, values}

pub data TicketStatus : Type 0 where
  free : TicketStatus
  assigned : Text → ℕ → TicketStatus
  spent : TicketStatus

pub record TicketEntry : Type 0 where
  pub ticket_id : Text
  pub contract_id : Text
  pub template_id : Option Text
  pub created_event_blob : Option Text
  pub payload_json : Option Text
  pub status : TicketStatus

abbrev pub is_disclosable : TicketEntry → Bool
is_disclosable e = is_some e.template_id && is_some e.created_event_blob && is_some e.payload_json

pub record TicketAcsInfo : Type 0 where
  pub ticket_id : Text
  pub contract_id : Text
  pub template_id : Option Text
  pub created_event_blob : Option Text
  pub payload_json : Option Text

abbrev pub TicketPool : Type 0
TicketPool = Dict Text TicketEntry

abbrev pub new : TicketPool
new = []

abbrev pub is_free : TicketStatus → Bool
is_free free = true
is_free (assigned _ _) = false
is_free spent = false

abbrev pub is_assignable : TicketEntry → Bool
is_assignable e = is_free e.status && is_disclosable e

abbrev pub assign_entry : Text → ℕ → TicketEntry → TicketEntry
assign_entry quote_id expires_at e = record e { status = assigned quote_id expires_at }

-- The first assignable entry in the table's order.
unfoldable pub assign : Text → ℕ → TicketPool → Option (Text × TicketEntry) × TicketPool
assign quote_id expires_at [] = (none, [])
assign quote_id expires_at ((k, e) ∷ pool) =
    let (found, pool') = assign quote_id expires_at pool in
    if is_assignable e
    then (
      some (e.ticket_id, assign_entry quote_id expires_at e),
      (k, assign_entry quote_id expires_at e) ∷ pool,
    )
    else (found, (k, e) ∷ pool')

abbrev pub is_assigned_to : Text → TicketStatus → Bool
is_assigned_to quote_id free = false
is_assigned_to quote_id (assigned q _) = q == quote_id
is_assigned_to quote_id spent = false

abbrev pub unassign_entry : Text → TicketEntry → TicketEntry
unassign_entry quote_id e =
    if is_assigned_to quote_id e.status then record e { status = free } else e

unfoldable pub unassign : Text → TicketPool → TicketPool
unassign quote_id = map_values (unassign_entry quote_id)

abbrev pub archive_entry : Text → TicketEntry → TicketEntry
archive_entry contract_id e =
    if e.contract_id == contract_id then record e { status = spent } else e

unfoldable pub on_archived : Text → TicketPool → TicketPool
on_archived contract_id = map_values (archive_entry contract_id)

abbrev pub spend_entry : Text → TicketEntry → TicketEntry
spend_entry quote_id e = if is_assigned_to quote_id e.status then record e { status = spent } else e

unfoldable pub mark_spent : Text → TicketPool → TicketPool
mark_spent quote_id = map_values (spend_entry quote_id)

unfoldable pub free_count : TicketPool → ℕ
free_count pool = length (filter is_assignable (values pool))

-- `new` where it is present, else what was there.
abbrev pub backfill : Option Text → Option Text → Option Text
backfill none old = old
backfill (some v) old = some v

abbrev pub merge_entry : TicketAcsInfo → TicketEntry → TicketEntry
merge_entry t e = record e {
  contract_id = t.contract_id;
  template_id = backfill t.template_id e.template_id;
  created_event_blob = backfill t.created_event_blob e.created_event_blob;
  payload_json = backfill t.payload_json e.payload_json;
}

abbrev pub adopted : TicketAcsInfo → TicketEntry
adopted t = record {
  ticket_id = t.ticket_id;
  contract_id = t.contract_id;
  template_id = t.template_id;
  created_event_blob = t.created_event_blob;
  payload_json = t.payload_json;
  status = free;
}

abbrev pub merged : TicketAcsInfo → Option TicketEntry → TicketEntry
merged t none = adopted t
merged t (some e) = merge_entry t e

unfoldable pub merge_all : List TicketAcsInfo → TicketPool → TicketPool
merge_all [] pool = pool
merge_all (t ∷ ts) pool =
    merge_all ts (insert t.ticket_id (merged t (lookup t.ticket_id pool)) pool)

abbrev pub is_listed : List TicketAcsInfo → Text → Bool
is_listed on_ledger tid = any (λ t. t.ticket_id == tid) on_ledger

unfoldable pub reconcile_from_acs : List TicketAcsInfo → TicketPool → TicketPool
unfolding merge_all
reconcile_from_acs on_ledger pool = merge_all on_ledger (retain_keys (is_listed on_ledger) pool)

abbrev pub is_expired : ℕ → TicketStatus → Bool
is_expired now free = false
is_expired now (assigned _ expires_at) = leb expires_at now
is_expired now spent = false

abbrev pub expire_entry : ℕ → TicketEntry → TicketEntry
expire_entry now e = if is_expired now e.status then record e { status = free } else e

unfoldable pub expire_assignments : ℕ → TicketPool → TicketPool
expire_assignments now = map_values (expire_entry now)

-- `SavedTicket` of crates/agent-logic/src/state.rs
pub record SavedTicket : Type 0 where
  pub ticket_id : Text
  pub contract_id : Text
  pub status : Text
  pub quote_id : Option Text
  pub expires_at_ms : Option ℕ

abbrev pub u64_max : ℕ
u64_max = 2 ^ 64 - 1

abbrev pub nanos_per_milli : ℕ
nanos_per_milli = 1000000

-- The wall-clock expiry of an assignment, from the two clocks read together.
abbrev pub expiry_ms : ℕ → ℕ → ℕ → ℕ
expiry_ms now_instant now_ms expires_at =
    min (now_ms + min ((expires_at - now_instant) / nanos_per_milli) u64_max) u64_max

save_as : TicketEntry → Text → Option Text → Option ℕ → SavedTicket
save_as e status quote_id expires_at_ms = record {
  ticket_id = e.ticket_id;
  contract_id = e.contract_id;
  status = status;
  quote_id = quote_id;
  expires_at_ms = expires_at_ms;
}

save_status : ℕ → ℕ → TicketEntry → TicketStatus → SavedTicket
unfolding save_as
save_status now_instant now_ms e free = save_as e (codes "free") none none
save_status now_instant now_ms e (assigned q x) =
    save_as e (codes "assigned") (some q) (some (expiry_ms now_instant now_ms x))
save_status now_instant now_ms e spent = save_as e (codes "spent") none none

unfoldable pub save_entry : ℕ → ℕ → TicketEntry → SavedTicket
unfolding save_status
save_entry now_instant now_ms e = save_status now_instant now_ms e e.status

unfoldable pub snapshot : ℕ → ℕ → TicketPool → List SavedTicket
unfolding save_entry
snapshot now_instant now_ms pool = map (save_entry now_instant now_ms) (values pool)

-- `latest` is the largest `Instant`; beyond it `checked_add` gives up, and the time is `now`.
restored_expiry : ℕ → ℕ → ℕ → ℕ → ℕ → ℕ
restored_expiry latest max_ttl now_instant now_ms expires_at_ms =
    let at = now_instant + min ((expires_at_ms - now_ms) * nanos_per_milli) max_ttl in
    if leb at latest then at else now_instant

restored_assignment : ℕ → ℕ → ℕ → ℕ → Option Text → Option ℕ → TicketStatus
unfolding restored_expiry
restored_assignment latest max_ttl now_instant now_ms none _ = free
restored_assignment latest max_ttl now_instant now_ms (some q) none = free
restored_assignment latest max_ttl now_instant now_ms (some q) (some x) =
    if ltb now_ms x then assigned q (restored_expiry latest max_ttl now_instant now_ms x) else free

unfoldable pub restored_status : ℕ → ℕ → ℕ → ℕ → SavedTicket → TicketStatus
unfolding restored_assignment
restored_status latest max_ttl now_instant now_ms t =
    if t.status == codes "assigned"
    then restored_assignment latest max_ttl now_instant now_ms t.quote_id t.expires_at_ms
    else if t.status == codes "spent"
    then spent
    else free

abbrev pub blank_entry : SavedTicket → TicketStatus → TicketEntry
blank_entry t status = record {
  ticket_id = t.ticket_id;
  contract_id = t.contract_id;
  template_id = none;
  created_event_blob = none;
  payload_json = none;
  status = status;
}

unfoldable pub restore : ℕ → ℕ → ℕ → ℕ → List SavedTicket → TicketPool → TicketPool
unfolding restored_status
restore latest max_ttl now_instant now_ms [] pool = pool
restore latest max_ttl now_instant now_ms (t ∷ ts) pool =
    restore latest max_ttl now_instant now_ms ts (
      insert t.ticket_id (blank_entry t (restored_status latest max_ttl now_instant now_ms t)) pool)
