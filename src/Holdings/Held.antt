-- ===== src/Holdings/Held.antt =====
-- Whose a holding is over a whole run of the cache: every call that changes the pools, in any order.
use silvana_book_agent.Common.{
  ℕ, ◌≡◌, inl, inr, true, false, not, some, List, [], ◌∷◌, arith, Bool-cases,
}
use silvana_book_agent.Common.Text.{Text, text_Eq}
use silvana_book_agent.Common.Dict.{
  lookup, insert, remove, IsUnique, lookup-retain, retain-IsUnique, insert-IsUnique,
  remove-IsUnique,
}
use silvana_book_agent.Common.Decimal.{Decimal}
use silvana_book_agent.Holdings.{
  CachedHolding, ReservedEntry, ReservationKind, v2_quote, HoldingsCache, is_expired,
}
use silvana_book_agent.Holdings.Pools.{refresh_from_acs_snapshot, add_created}
use silvana_book_agent.Holdings.Reserve.{
  hold_all, free_all, reserve_with_kind, restore_v2_reservation, mark_consumed,
  release_reservations, cleanup_expired_reservations,
}
use silvana_book_agent.Holdings.Reservations.{
  is_in, lookup-hold_all, lookup-free_all, blocked_in, reserve_with_kind-all,
  reserve_with_kind-none,
}

hold_all-IsUnique :
    (cids : List Text) (e : ReservedEntry) (pool : List (Text × ReservedEntry))
    → IsUnique pool
    → IsUnique (hold_all cids e pool)
unfolding hold_all
hold_all-IsUnique [] e pool u = u
hold_all-IsUnique (c ∷ cids) e pool u =
    hold_all-IsUnique cids e (insert c e pool) (insert-IsUnique c e pool u)

free_all-IsUnique :
    (cids : List Text) (pool : List (Text × ReservedEntry))
    → IsUnique pool
    → IsUnique (free_all cids pool)
unfolding free_all
free_all-IsUnique [] pool u = u
free_all-IsUnique (c ∷ cids) pool u =
    free_all-IsUnique cids (remove c pool) (remove-IsUnique c pool u)

module _ (d : Decimal) where
  -- A call, with the time at which it is made.
  pub data Call : Type 0 where
    reserves : List Text → ReservationKind → ℕ → Call
    restores : List Text → Text → ℕ → ℕ → Call
    consumes : List Text → Text → ℕ → Call
    releases : List Text → Call
    cleans : ℕ → Call
    refreshes : List (CachedHolding d) → ℕ → Call
    adds : List (CachedHolding d) → Call

  unfoldable pub step : Call → HoldingsCache d → HoldingsCache d
  step (reserves cids kind now) c = (reserve_with_kind d cids kind now c).1
  step (restores cids q x now) c = restore_v2_reservation d cids q x now c
  step (consumes cids reason now) c = mark_consumed d cids reason now c
  step (releases cids) c = release_reservations d cids c
  step (cleans now) c = cleanup_expired_reservations d now c
  step (refreshes hs start) c = refresh_from_acs_snapshot d hs start c
  step (adds hs) c = add_created d hs c

  unfoldable pub run : List Call → HoldingsCache d → HoldingsCache d
  unfolding step
  run [] c = c
  run (x ∷ xs) c = run xs (step x c)

  -- The call does not restore, consume or release the holding, and comes before the entry expires.
  abbrev pub Spares : Text → ReservedEntry → Call → Type 0
  Spares cid e (reserves _ _ now) = is_expired e now ≡ false
  Spares cid e (restores cids _ _ _) = is_in cid cids ≡ false
  Spares cid e (consumes cids _ _) = is_in cid cids ≡ false
  Spares cid e (releases cids) = is_in cid cids ≡ false
  Spares cid e (cleans now) = is_expired e now ≡ false
  Spares cid e (refreshes _ _) = Unit
  Spares cid e (adds _) = Unit

  abbrev pub AllSpare : Text → ReservedEntry → List Call → Type 0
  AllSpare cid e [] = Unit
  AllSpare cid e (x ∷ xs) = Spares cid e x × AllSpare cid e xs

  step-IsUnique :
      (x : Call) (c : HoldingsCache d) → IsUnique c.reserved → IsUnique (step x c).reserved
  unfolding step reserve_with_kind restore_v2_reservation mark_consumed release_reservations
      cleanup_expired_reservations refresh_from_acs_snapshot add_created
  step-IsUnique (reserves cids kind now) c u =
      ground
        (arith, hold_all-IsUnique cids (record { kind = kind; reserved_at = now }) c.reserved u)
  step-IsUnique (restores cids q x now) c u = hold_all-IsUnique cids _ c.reserved u
  step-IsUnique (consumes cids reason now) c u = free_all-IsUnique cids c.reserved u
  step-IsUnique (releases cids) c u = free_all-IsUnique cids c.reserved u
  step-IsUnique (cleans now) c u = retain-IsUnique (λ e. not (is_expired e now)) c.reserved u
  step-IsUnique (refreshes hs start) c u = u
  step-IsUnique (adds hs) c u = u

  -- No reservation that names the holding succeeds against a live one.
  pub reserve_with_kind-live :
      (cids : List Text) (kind : ReservationKind) (now : ℕ) (cid : Text) (e : ReservedEntry)
      (c : HoldingsCache d)
      → is_in cid cids ≡ true
      → lookup cid c.reserved ≡ some e
      → is_expired e now ≡ false
      → reserve_with_kind d cids kind now c ≡ (false, c)
  unfolding reserve_with_kind
  reserve_with_kind-live cids kind now cid e c m h l = ground (arith, blocked_in d c now cid cids)

  step-held :
      (x : Call) (cid : Text) (e : ReservedEntry) (c : HoldingsCache d)
      → Spares cid e x
      → IsUnique c.reserved
      → lookup cid c.reserved ≡ some e
      → lookup cid (step x c).reserved ≡ some e
  unfolding step restore_v2_reservation mark_consumed release_reservations
      cleanup_expired_reservations refresh_from_acs_snapshot add_created
  step-held (reserves cids kind now) cid e c s u h =
      elim (Bool-cases (reserve_with_kind d cids kind now c).0) [
        | inl done ↦ ground (arith, reserve_with_kind-all d cids kind now c cid done)
        | inr failed ↦ ground (arith, reserve_with_kind-none d cids kind now c failed)
      ]
  step-held (restores cids q x now) cid e c s u h = ground (
    arith,
    lookup-hold_all cids (record { kind = v2_quote q x; reserved_at = now }) cid c.reserved,
  )
  step-held (consumes cids reason now) cid e c s u h =
      ground (arith, lookup-free_all cids cid c.reserved)
  step-held (releases cids) cid e c s u h = ground (arith, lookup-free_all cids cid c.reserved)
  step-held (cleans now) cid e c s u h =
      ground (arith, lookup-retain (λ e'. not (is_expired e' now)) cid c.reserved u)
  step-held (refreshes hs start) cid e c s u h = h
  step-held (adds hs) cid e c s u h = h

  -- A reserved holding stays with whoever reserved it: while no call restores, consumes or
  -- releases it, and no reservation or cleanup comes after the entry expired, its entry stays as
  -- it is through any sequence of calls, snapshots and failed reservations included. (In a cache
  -- where no id is reserved twice.)
  pub run-held :
      (xs : List Call) (cid : Text) (e : ReservedEntry) (c : HoldingsCache d)
      → AllSpare cid e xs
      → IsUnique c.reserved
      → lookup cid c.reserved ≡ some e
      → lookup cid (run xs c).reserved ≡ some e
  unfolding run
  run-held [] cid e c s u h = h
  run-held (x ∷ xs) cid e c s u h =
      run-held xs cid e (step x c) s.1 (step-IsUnique x c u) (step-held x cid e c s.0 u h)
