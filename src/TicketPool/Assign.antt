-- ===== src/TicketPool/Assign.antt =====
-- Taking a ticket for a quote, and giving it back.
use silvana_book_agent.Common.{
  ℕ, ◌+◌, ◌≡◌, refl, inl, inr, ◌↔◌, true, false, Option, none, some, [], ◌∷◌, arith, ◌==◌,
  if◌then◌else◌, Bool-cases,
}
use silvana_book_agent.Common.Text.{Text, text_eq_iff, text_Eq}
use silvana_book_agent.Common.Dict.{lookup, IsUnique, AllValues}
use silvana_book_agent.TicketPool.{
  TicketPool, TicketEntry, TicketStatus, free, assigned, spent, is_free, is_assignable,
  assign_entry, assign, is_assigned_to, unassign, free_count,
}

-- Each entry is stored under its own ticket id.
abbrev pub IsKeyed : TicketPool → Type 0
IsKeyed [] = Unit
IsKeyed ((k, e) ∷ pool) = (e.ticket_id ≡ k) × IsKeyed pool

abbrev pub assigned_count : Option (Text × TicketEntry) → ℕ
assigned_count none = 0
assigned_count (some _) = 1

-- `assign` finds no ticket exactly if `free_count` is 0, and a ticket that it gives out is one
-- fewer to count.
pub free_count-assign :
    (q : Text) (x : ℕ) (pool : TicketPool)
    → let (found, pool') = assign q x pool in
      ((found ≡ none) ↔ (free_count pool ≡ 0))
      × (free_count pool ≡ free_count pool' + assigned_count found)
unfolding assign free_count
free_count-assign q x [] = ground arith
free_count-assign q x ((k, e) ∷ pool) = ground (arith, free_count-assign q x pool)

assign-fresh :
    (q : Text) (x : ℕ) (k : Text) (pool : TicketPool)
    → lookup k pool ≡ none
    → lookup k (assign q x pool).1 ≡ none
unfolding assign
assign-fresh q x k [] h = refl
assign-fresh q x k ((j, e) ∷ pool) h = ground (arith, assign-fresh q x k pool)

-- An assignment keeps each ticket under its own id and no id twice.
pub assign-IsKeyed :
    (q : Text) (x : ℕ) (pool : TicketPool)
    → IsUnique pool
    → IsKeyed pool
    → IsUnique (assign q x pool).1 × IsKeyed (assign q x pool).1
unfolding assign
assign-IsKeyed q x [] u h = (tt, tt)
assign-IsKeyed q x ((k, e) ∷ pool) u h =
    ground (arith, assign-IsKeyed q x pool u.1 h.1, assign-fresh q x k pool u.0)

-- No entry is assigned to the quote.
abbrev pub HoldsNone : Text → TicketPool → Type 0
HoldsNone q pool = AllValues (λ e. is_assigned_to q e.status ≡ false) pool

unassign-HoldsNone : (q : Text) (pool : TicketPool) → HoldsNone q pool → unassign q pool ≡ pool
unfolding unassign
unassign-HoldsNone q [] h = refl
unassign-HoldsNone q ((k, e) ∷ pool) h = ground (arith, unassign-HoldsNone q pool h.1)

free_status : (s : TicketStatus) → is_free s ≡ true → s ≡ free
free_status free h = refl
free_status (assigned _ _) h = cc
free_status spent h = cc

-- Giving a ticket back undoes the assignment: for a quote that holds no ticket, `unassign` after
-- `assign` leaves the pool as it was before both.
pub unassign-assign :
    (q : Text) (x : ℕ) (pool : TicketPool)
    → HoldsNone q pool
    → unassign q (assign q x pool).1 ≡ pool
unfolding unassign assign
unassign-assign q x [] h = refl
unassign-assign q x ((k, e) ∷ pool) h = ground (
  arith,
  unassign-assign q x pool h.1,
  unassign-HoldsNone q pool h.1,
  free_status e.status,
  (text_eq_iff q q).1 refl,
)

-- A ticket that is not assignable is left as it is.
pub lookup-assign_busy :
    (q : Text) (x : ℕ) (j : Text) (e : TicketEntry) (pool : TicketPool)
    → lookup j pool ≡ some e
    → is_assignable e ≡ false
    → lookup j (assign q x pool).1 ≡ some e
unfolding assign
lookup-assign_busy q x j e [] h busy = cc
lookup-assign_busy q x j e ((k, d) ∷ pool) h busy = ground (arith, lookup-assign_busy q x j e pool)

-- What `assign` has done when it gave out `tid`.
pub record Given (q : Text) (x : ℕ) (pool pool' : TicketPool) (tid : Text) (e' : TicketEntry)
    : Type 0 where
  pub before : TicketEntry
  pub stood : lookup tid pool ≡ some before
  pub assignable : is_assignable before ≡ true
  pub after : e' ≡ assign_entry q x before
  pub rest : (j : Text) → lookup j pool' ≡ (if tid == j then some e' else lookup j pool)

abbrev pub GivenBy : Text → ℕ → TicketPool → Option (Text × TicketEntry) × TicketPool → Type 0
GivenBy q x pool (none, pool') = pool' ≡ pool
GivenBy q x pool (some (tid, e'), pool') = Given q x pool pool' tid e'

skip_given :
    (q : Text) (x : ℕ) (k : Text) (e : TicketEntry) (pool : TicketPool)
    (r : Option (Text × TicketEntry) × TicketPool)
    → lookup k pool ≡ none
    → GivenBy q x pool r
    → GivenBy q x ((k, e) ∷ pool) (r.0, (k, e) ∷ r.1)
skip_given q x k e pool (none, pool') fresh g = rw g
skip_given q x k e pool (some (tid, e'), pool') fresh g = record {
  before = g.before;
  stood = ground (arith, g.stood, text_eq_iff k tid);
  assignable = g.assignable;
  after = g.after;
  rest =
      λ j. ground (arith, g.rest j, g.stood, text_eq_iff k tid, text_eq_iff tid j, text_eq_iff k j);
}

take-Given :
    (q : Text) (x : ℕ) (k : Text) (e : TicketEntry) (pool : TicketPool)
    → e.ticket_id ≡ k
    → is_assignable e ≡ true
    → Given q x ((k, e) ∷ pool) ((k, assign_entry q x e) ∷ pool) e.ticket_id (assign_entry q x e)
take-Given q x k e pool keyed ready = record {
  before = e;
  stood = ground (arith, text_eq_iff k e.ticket_id);
  assignable = ready;
  after = refl;
  rest = λ j. ground (arith, text_eq_iff e.ticket_id j, text_eq_iff k j);
}

-- A ticket that `assign` gives out stood in the pool under its id, free and with all that a
-- disclosure needs; it is now assigned to the quote until the given time, in the pool as in the
-- result, and no other ticket has changed. If it gives out none the pool is as it was. (In a pool
-- where each ticket stands under its own id, and none twice.)
pub assign-Given :
    (q : Text) (x : ℕ) (pool : TicketPool)
    → IsUnique pool
    → IsKeyed pool
    → GivenBy q x pool (assign q x pool)
unfolding assign
assign-Given q x [] u h = refl
assign-Given q x ((k, e) ∷ pool) u h = elim (Bool-cases (is_assignable e)) [
  | inl ready ↦ rw ready (take-Given q x k e pool h.0 ready)
  | inr busy ↦
      rw busy (skip_given q x k e pool (assign q x pool) u.0 (assign-Given q x pool u.1 h.1))
]
