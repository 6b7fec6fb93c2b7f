-- ===== src/TicketPool/Persist.antt =====
-- The pool across a restart: what `restore` makes of a `snapshot`.
use silvana_book_agent.Common.{
  false, ℕ, ◌+◌, ◌-◌, ◌*◌, ◌/◌, ◌≤◌, ◌<◌, min, ◌≡◌, refl, inl, inr, ◌⊎◌, Option, none, some, List,
  [], ◌∷◌, map, arith, ltb, Bool-cases, tests,
}
use silvana_book_agent.Common.Text.{Text, text_eq_iff, text_Eq}
use silvana_book_agent.Common.Dict.{lookup, insert, IsUnique, values, lookup-insert}
use silvana_book_agent.TicketPool.{
  TicketPool, TicketEntry, TicketStatus, SavedTicket, free, assigned, spent, new, nanos_per_milli,
  u64_max, expiry_ms, save_status, save_entry, snapshot, restored_status, restored_assignment,
  restored_expiry, restore, blank_entry, is_disclosable,
}
use silvana_book_agent.TicketPool.Assign.{IsKeyed}

-- The clocks at the save (instant, wall), the length of the break in milliseconds, the instant of
-- the restart, the cap on a restored assignment and the largest instant.
pub record Break : Type 0 where
  pub saved_instant : ℕ
  pub saved_ms : ℕ
  pub gap_ms : ℕ
  pub restart_instant : ℕ
  pub max_ttl : ℕ
  pub latest : ℕ

abbrev pub reload : Break → List SavedTicket → TicketPool → TicketPool
reload b = restore b.latest b.max_ttl b.restart_instant (b.saved_ms + b.gap_ms)

abbrev pub reload_status : Break → SavedTicket → TicketStatus
reload_status b = restored_status b.latest b.max_ttl b.restart_instant (b.saved_ms + b.gap_ms)

abbrev pub save : Break → TicketEntry → SavedTicket
save b = save_entry b.saved_instant b.saved_ms

-- The entry that comes back for one that was saved.
abbrev pub reloaded : Break → TicketEntry → TicketEntry
reloaded b e = blank_entry (save b e) (reload_status b (save b e))

abbrev reloaded_or : Break → Option TicketEntry → Option TicketEntry → Option TicketEntry
reloaded_or b none old = old
reloaded_or b (some e) old = some (reloaded b e)

id-save : (b : Break) (e : TicketEntry) → (save b e).ticket_id ≡ e.ticket_id
unfolding save_entry
id-save b e =
    elim e.status as (λ s. (save_status b.saved_instant b.saved_ms e s).ticket_id ≡ e.ticket_id) [
      | free ↦ refl
      | assigned q x ↦ refl
      | spent ↦ refl
    ]

contract_id-save : (b : Break) (e : TicketEntry) → (save b e).contract_id ≡ e.contract_id
unfolding save_entry
contract_id-save b e =
    elim e.status
      as (λ s. (save_status b.saved_instant b.saved_ms e s).contract_id ≡ e.contract_id) [
        | free ↦ refl
        | assigned q x ↦ refl
        | spent ↦ refl
      ]

lookup-reload :
    (b : Break) (tid : Text) (pool acc : TicketPool)
    → IsUnique pool
    → IsKeyed pool
    → lookup tid (reload b (map (save b) (values pool)) acc)
      ≡ reloaded_or b (lookup tid pool) (lookup tid acc)
unfolding restore
lookup-reload b tid [] acc u h = refl
lookup-reload b tid ((k, e) ∷ pool) acc u h =
    let acc' = insert (save b e).ticket_id (reloaded b e) acc in
    ground (
      arith,
      lookup-reload b tid pool acc' u.1 h.1,
      lookup-insert (save b e).ticket_id tid (reloaded b e) acc,
      id-save b e,
      text_eq_iff k tid,
    )

-- How a restored status stands to the saved one.
pub data Carries (b : Break) : TicketStatus → TicketStatus → Type 0 where
  still_free : Carries b free free
  still_spent : Carries b spent spent
  run_out :
      {q : Text} {x : ℕ}
      → x < b.saved_instant + (b.gap_ms + 1) * nanos_per_milli
      → Carries b (assigned q x) free
  goes_on :
      {q : Text} {x x' : ℕ}
      → b.saved_instant + b.gap_ms * nanos_per_milli + x' ≤ b.restart_instant + x
      → x' ≤ b.restart_instant + b.max_ttl
      → (b.restart_instant + x < b.saved_instant + (b.gap_ms + 1) * nanos_per_milli + x')
        ⊎ (x' ≡ b.restart_instant + b.max_ttl)
      → Carries b (assigned q x) (assigned q x')

-- Neither clock leaves its range.
abbrev pub InRange : Break → TicketStatus → Type 0
InRange b free = Unit
InRange b (assigned q x) = (b.saved_ms + x ≤ u64_max) × (b.restart_instant + x ≤ b.latest)
InRange b spent = Unit

expiry_ms_lem :
    (b : Break) (q : Text) (x : ℕ)
    → InRange b (assigned q x)
    → expiry_ms b.saved_instant b.saved_ms x ≡ b.saved_ms + (x - b.saved_instant) / nanos_per_milli
expiry_ms_lem b q x h = omega arith

-- The instant to which the assignment is restored.
abbrev new_expiry : Break → ℕ → ℕ
new_expiry b x =
    restored_expiry b.latest b.max_ttl b.restart_instant (b.saved_ms + b.gap_ms)
      (expiry_ms b.saved_instant b.saved_ms x)

new_expiry_lem :
    (b : Break) (q : Text) (x : ℕ)
    → InRange b (assigned q x)
    → new_expiry b x
      ≡ b.restart_instant
        + min (((x - b.saved_instant) / nanos_per_milli - b.gap_ms) * nanos_per_milli) b.max_ttl
unfolding restored_expiry
new_expiry_lem b q x h = ground (arith, expiry_ms_lem b q x h)

Carries-assigned :
    (b : Break) (q : Text) (x : ℕ)
    → InRange b (assigned q x)
    → Carries b (assigned q x) (
        restored_assignment b.latest b.max_ttl b.restart_instant
          (b.saved_ms + b.gap_ms)
          (some q)
          (some (expiry_ms b.saved_instant b.saved_ms x)))
unfolding restored_assignment
Carries-assigned b q x h =
    elim (Bool-cases (ltb (b.saved_ms + b.gap_ms) (expiry_ms b.saved_instant b.saved_ms x))) [
      | inl later ↦ rw later (
          goes_on (omega (tests, later, expiry_ms_lem b q x h, new_expiry_lem b q x h))
            (omega (arith, new_expiry_lem b q x h))
            (ground (arith, expiry_ms_lem b q x h, new_expiry_lem b q x h)))
      | inr over ↦ rw over (run_out (ground (arith, expiry_ms_lem b q x h)))
    ]

Carries-save :
    (b : Break) (e : TicketEntry) (s : TicketStatus)
    → InRange b s
    → Carries b s (reload_status b (save_status b.saved_instant b.saved_ms e s))
unfolding restored_status save_status
Carries-save b e free h = still_free
Carries-save b e (assigned q x) h = Carries-assigned b q x h
Carries-save b e spent h = still_spent

-- How what comes back for a ticket stands to what was saved for it.
abbrev pub Brings : Break → Option TicketEntry → Option TicketEntry → Type 0
Brings b none back = back ≡ none
Brings b (some e) back =
    (e' : TicketEntry) × (back ≡ some e')
    × (e'.ticket_id ≡ e.ticket_id)
    × (e'.contract_id ≡ e.contract_id)
    × (is_disclosable e' ≡ false)
    × Carries b e.status e'.status

abbrev pub InRangeAt : Break → Option TicketEntry → Type 0
InRangeAt b none = Unit
InRangeAt b (some e) = InRange b e.status

Brings-reloaded :
    (b : Break) (o : Option TicketEntry) → InRangeAt b o → Brings b o (reloaded_or b o none)
unfolding save_entry
Brings-reloaded b none r = refl
Brings-reloaded b (some e) r =
    (reloaded b e, refl, id-save b e, contract_id-save b e, refl, Carries-save b e e.status r)

-- A restart with an empty pool brings back exactly the ids that were saved: each ticket with the
-- ticket id and contract id that it had, and without the data that it is disclosed by. A free or
-- spent one keeps its status. An assigned one comes back assigned to the same quote, at most as
-- long as was left when it was saved less the break and never longer than the cap, and short of
-- that by less than a millisecond; or it comes back free, and then less than a millisecond of it
-- was left. (In a pool where each ticket stands under its own id, and none twice, while the clocks
-- are in range.)
pub restore-snapshot :
    (b : Break) (tid : Text) (pool : TicketPool)
    → IsUnique pool
    → IsKeyed pool
    → InRangeAt b (lookup tid pool)
    → Brings b
        (lookup tid pool)
        (lookup tid (reload b (snapshot b.saved_instant b.saved_ms pool) new))
unfolding snapshot
restore-snapshot b tid pool u k r =
    rw (lookup-reload b tid pool new u k) (Brings-reloaded b (lookup tid pool) r)
