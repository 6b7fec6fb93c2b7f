-- ===== src/Holdings.antt =====
-- crates/cloud-agent/src/holdings_cache.rs: the cache of holdings with its three pools. Each method
-- takes its locks in one order and holds them to its end, so a call is one step on the record;
-- `Instant` is a number of nanoseconds, read by the caller.
pub mod Pick
pub mod Covering
pub mod Sums
pub mod Complete
pub mod Disclosure
pub mod Funding
pub mod Ids
pub mod Rungs
pub mod Picked
pub mod Pools
pub mod Reserve
pub mod Reservations
pub mod Held
pub mod Selectable
pub mod Refresh
pub mod Ladder
pub mod Choose
mod Examples
use silvana_book_agent.Common.{
  ℕ, zero, suc, ◌+◌, ◌-◌, ◌*◌, ◌/◌, ◌^◌, min, Bool, true, false, not, ◌&&◌, ◌||◌, Option, none,
  some, List, [], ◌∷◌, ◌++◌, map, ltb, leb, ◌==◌, if◌then◌else◌, length, filter, any, find, is_some,
  reverse, take,
}
use silvana_book_agent.Common.Text.{Text, codes, text_Eq}
use silvana_book_agent.Common.Dict.{
  Dict, lookup, insert, remove, retain, retain_keys, contains, values,
}
use silvana_book_agent.Common.Decimal.{Decimal, le, lt, dec_sum}

abbrev pub nanos_per_sec : ℕ
nanos_per_sec = 1000000000

abbrev pub available_ttl_secs : ℕ
available_ttl_secs = 180

abbrev pub v1_reservation_ttl_secs : ℕ
v1_reservation_ttl_secs = 60

abbrev pub split_reservation_ttl_secs : ℕ
split_reservation_ttl_secs = 300

abbrev pub pending_split_ttl_secs : ℕ
pending_split_ttl_secs = 300

abbrev pub split_op_window_secs : ℕ
split_op_window_secs = 3600

abbrev pub dust_merge_max_inputs : ℕ
dust_merge_max_inputs = 5

abbrev pub u32_max : ℕ
u32_max = 2 ^ 32 - 1

-- `now.saturating_duration_since(then).as_secs()`
abbrev pub secs_since : ℕ → ℕ → ℕ
secs_since now start = (now - start) / nanos_per_sec

pub record CachedHolding (d : Decimal) : Type 0 where
  pub contract_id : Text
  pub template_id : Text
  pub instrument : Text
  pub amount : d.Carrier
  pub created_event_blob : Option Text
  pub synchronizer_id : Text
  pub discovered_at : ℕ

pub data ReservationKind : Type 0 where
  v1_payment : Text → ReservationKind
  v2_quote : Text → ℕ → ReservationKind
  split : Text → ReservationKind

pub record ConsumedEntry : Type 0 where
  pub reason : Text
  pub consumed_at : ℕ

pub record ReservedEntry : Type 0 where
  pub kind : ReservationKind
  pub reserved_at : ℕ

pub record PendingSplit (d : Decimal) : Type 0 where
  pub instrument : Text
  pub denom : d.Carrier
  pub count : ℕ
  pub recorded_at : ℕ

kind_expired : ReservationKind → ℕ → ℕ → Bool
kind_expired (v1_payment _) reserved_at now =
    ltb v1_reservation_ttl_secs (secs_since now reserved_at)
kind_expired (v2_quote _ expires_at) reserved_at now = leb expires_at now
kind_expired (split _) reserved_at now = ltb split_reservation_ttl_secs (secs_since now reserved_at)

-- `ReservedEntry::is_expired`
unfoldable pub is_expired : ReservedEntry → ℕ → Bool
unfolding kind_expired
is_expired e now = kind_expired e.kind e.reserved_at now

module _ (d : Decimal) where
  open d use {Carrier}

  -- `PendingSplit::is_expired`
  unfoldable pub is_split_expired : PendingSplit d → ℕ → Bool
  is_split_expired p now = ltb pending_split_ttl_secs (secs_since now p.recorded_at)

  -- `HoldingsCache`
  pub record HoldingsCache : Type 0 where
    pub available : Dict Text (CachedHolding d)
    pub consumed : Dict Text ConsumedEntry
    pub reserved : Dict Text ReservedEntry
    pub splitter_reserve_enabled : Bool
    pub dust_below : Dict Text Carrier
    pub pending_splits : List (PendingSplit d)
    pub split_op_times : Dict Text (List ℕ)
