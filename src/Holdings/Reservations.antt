-- ===== src/Holdings/Reservations.antt =====
-- Reservations are all or nothing, and keep a holding from everybody else.
use silvana_book_agent.Common.{
  ℕ, ◌≡◌, refl, inl, inr, Bool, true, false, ◌&&◌, none, some, List, [], ◌∷◌, arith, ◌==◌,
  if◌then◌else◌, any, Bool-cases,
}
use silvana_book_agent.Common.Text.{Text, text_Eq, text_eq_iff}
use silvana_book_agent.Common.Dict.{
  Dict, lookup, insert, remove, lookup-insert, lookup-remove, ==_refl,
}
use silvana_book_agent.Common.Decimal.{Decimal}
use silvana_book_agent.Holdings.{ConsumedEntry, ReservedEntry, ReservationKind, HoldingsCache}
use silvana_book_agent.Holdings.Reserve.{
  hold_all, free_all, consume_all, is_blocked, any_blocked, reserve_with_kind,
}

-- The id is in the list.
abbrev pub is_in : Text → List Text → Bool
is_in cid cids = any (λ other. other == cid) cids

pub lookup-hold_all :
    (cids : List Text) (e : ReservedEntry) (cid : Text) (pool : Dict Text ReservedEntry)
    → lookup cid (hold_all cids e pool) ≡ (if is_in cid cids then some e else lookup cid pool)
unfolding hold_all
lookup-hold_all [] e cid pool = refl
lookup-hold_all (c ∷ cids) e cid pool =
    ground (arith, lookup-hold_all cids e cid (insert c e pool), lookup-insert c cid e pool)

pub lookup-free_all :
    (cids : List Text) (cid : Text) (pool : Dict Text ReservedEntry)
    → lookup cid (free_all cids pool) ≡ (if is_in cid cids then none else lookup cid pool)
unfolding free_all
lookup-free_all [] cid pool = refl
lookup-free_all (c ∷ cids) cid pool =
    ground (arith, lookup-free_all cids cid (remove c pool), lookup-remove c cid pool)

pub lookup-consume_all :
    (cids : List Text) (e : ConsumedEntry) (cid : Text) (pool : Dict Text ConsumedEntry)
    → lookup cid (consume_all cids e pool) ≡ (if is_in cid cids then some e else lookup cid pool)
unfolding consume_all
lookup-consume_all [] e cid pool = refl
lookup-consume_all (c ∷ cids) e cid pool =
    ground (arith, lookup-consume_all cids e cid (insert c e pool), lookup-insert c cid e pool)

module _ (d : Decimal) where
  pub blocked_in :
      (c : HoldingsCache d) (now : ℕ) (cid : Text) (cids : List Text)
      → is_in cid cids ≡ true
      → is_blocked d c now cid ≡ true
      → any_blocked d c now cids ≡ true
  blocked_in c now cid [] m b = cc
  blocked_in c now cid (x ∷ cids) m b = ground (arith, text_eq_iff x cid, blocked_in c now cid cids)

  some_blocked :
      (c : HoldingsCache d) (now : ℕ) (cids : List Text)
      → any_blocked d c now cids ≡ true
      → (cid : Text) × (is_in cid cids ≡ true) × (is_blocked d c now cid ≡ true)
  some_blocked c now [] b = cc
  some_blocked c now (x ∷ cids) b = elim (Bool-cases (is_blocked d c now x)) [
    | inl here ↦ (x, ground (arith, ==_refl x), here)
    | inr clear ↦
        let (cid, m, later) = some_blocked c now cids (ground arith) in (cid, ground arith, later)
  ]

  -- A reservation that succeeds covers every holding it was asked for, and leaves every other
  -- reservation as it was; none of the holdings was consumed or under a live reservation before.
  pub reserve_with_kind-all :
      (cids : List Text) (kind : ReservationKind) (now : ℕ) (c : HoldingsCache d) (cid : Text)
      → (reserve_with_kind d cids kind now c).0 ≡ true
      → (lookup cid (reserve_with_kind d cids kind now c).1.reserved ≡ (
          if is_in cid cids
          then some (record { kind = kind; reserved_at = now })
          else lookup cid c.reserved))
        × ((is_in cid cids && is_blocked d c now cid) ≡ false)
  unfolding reserve_with_kind
  reserve_with_kind-all cids kind now c cid h = elim (Bool-cases (any_blocked d c now cids)) [
    | inl b ↦ ground arith
    | inr b ↦ ground (
      arith,
      lookup-hold_all cids (record { kind = kind; reserved_at = now }) cid c.reserved,
      blocked_in c now cid cids,
    )
  ]

  -- A reservation that fails changes nothing, and it fails because one of the holdings is consumed
  -- or under a live reservation.
  pub reserve_with_kind-none :
      (cids : List Text) (kind : ReservationKind) (now : ℕ) (c : HoldingsCache d)
      → (reserve_with_kind d cids kind now c).0 ≡ false
      → ((reserve_with_kind d cids kind now c).1 ≡ c)
        × ((cid : Text) × (is_in cid cids ≡ true) × (is_blocked d c now cid ≡ true))
  unfolding reserve_with_kind
  reserve_with_kind-none cids kind now c h = elim (Bool-cases (any_blocked d c now cids)) [
    | inl b ↦ (rw (b), some_blocked c now cids b)
    | inr b ↦ ground arith
  ]
