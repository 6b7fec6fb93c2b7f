-- ===== src/Holdings/Reserve.antt =====
-- Reservations of the cache, and what ends them.
use silvana_book_agent.Common.{
  ℕ, Bool, true, false, not, ◌||◌, Option, none, some, List, [], ◌∷◌, if◌then◌else◌,
}
use silvana_book_agent.Common.Text.{Text, text_Eq}
use silvana_book_agent.Common.Dict.{Dict, lookup, insert, remove, retain, contains}
use silvana_book_agent.Common.Decimal.{Decimal}
use silvana_book_agent.Holdings.{
  ConsumedEntry, ReservedEntry, ReservationKind, v1_payment, v2_quote, split, HoldingsCache,
  is_expired,
}
use silvana_book_agent.Holdings.Pools.{is_live}

-- `for cid in contract_ids { reserved.insert(cid.clone(), entry) }`
unfoldable pub hold_all :
    List Text → ReservedEntry → Dict Text ReservedEntry → Dict Text ReservedEntry
hold_all [] e pool = pool
hold_all (cid ∷ cids) e pool = hold_all cids e (insert cid e pool)

unfoldable pub free_all : List Text → Dict Text ReservedEntry → Dict Text ReservedEntry
free_all [] pool = pool
free_all (cid ∷ cids) pool = free_all cids (remove cid pool)

unfoldable pub consume_all :
    List Text → ConsumedEntry → Dict Text ConsumedEntry → Dict Text ConsumedEntry
consume_all [] e pool = pool
consume_all (cid ∷ cids) e pool = consume_all cids e (insert cid e pool)

module _ (d : Decimal) where
  -- What stops a reservation of the holding.
  abbrev pub is_blocked : HoldingsCache d → ℕ → Text → Bool
  is_blocked c now cid = contains cid c.consumed || is_live now (lookup cid c.reserved)

  abbrev pub any_blocked : HoldingsCache d → ℕ → List Text → Bool
  any_blocked c now [] = false
  any_blocked c now (cid ∷ cids) = is_blocked c now cid || any_blocked c now cids

  unfoldable pub reserve_with_kind :
      List Text → ReservationKind → ℕ → HoldingsCache d → Bool × HoldingsCache d
  unfolding hold_all
  reserve_with_kind cids kind now c = if any_blocked c now cids then (false, c) else (
    true,
    record c { reserved = hold_all cids (record { kind = kind; reserved_at = now }) c.reserved },
  )

  unfoldable pub reserve_v2 : List Text → Text → ℕ → ℕ → HoldingsCache d → Bool × HoldingsCache d
  unfolding reserve_with_kind
  reserve_v2 cids quote_id expires_at now c =
      reserve_with_kind cids (v2_quote quote_id expires_at) now c

  unfoldable pub reserve_split : List Text → Text → ℕ → HoldingsCache d → Bool × HoldingsCache d
  unfolding reserve_with_kind
  reserve_split cids job_id now c = reserve_with_kind cids (split job_id) now c

  unfoldable pub restore_v2_reservation :
      List Text → Text → ℕ → ℕ → HoldingsCache d → HoldingsCache d
  unfolding hold_all
  restore_v2_reservation cids quote_id expires_at now c = record c {
    reserved =
        hold_all cids (record { kind = v2_quote quote_id expires_at; reserved_at = now })
          c.reserved;
  }

  quote_of_kind : ReservationKind → Option Text
  quote_of_kind (v1_payment _) = none
  quote_of_kind (v2_quote q _) = some q
  quote_of_kind (split _) = none

  quote_of : ℕ → Option ReservedEntry → Option Text
  unfolding quote_of_kind
  quote_of now none = none
  quote_of now (some e) = if not (is_expired e now) then quote_of_kind e.kind else none

  unfoldable pub v2_reservation_quote : Text → ℕ → HoldingsCache d → Option Text
  unfolding quote_of
  v2_reservation_quote cid now c = quote_of now (lookup cid c.reserved)

  unfoldable pub mark_consumed : List Text → Text → ℕ → HoldingsCache d → HoldingsCache d
  unfolding free_all consume_all
  mark_consumed cids reason now c = record c {
    reserved = free_all cids c.reserved;
    consumed = consume_all cids (record { reason = reason; consumed_at = now }) c.consumed;
  }

  unfoldable pub release_reservations : List Text → HoldingsCache d → HoldingsCache d
  unfolding free_all
  release_reservations cids c = record c { reserved = free_all cids c.reserved }

  unfoldable pub cleanup_expired_reservations : ℕ → HoldingsCache d → HoldingsCache d
  cleanup_expired_reservations now c = record c {
    reserved = retain (λ e. not (is_expired e now)) c.reserved;
  }
