-- ===== src/OrderTracker.antt =====
-- crates/agent-logic/src/order_tracker.rs: the orders that the agent signed, what of them is settled
-- or pending, and the placements that may not be tracked yet.
pub mod Verify
pub mod Settle
pub mod Submits
pub mod Saved
pub mod Capacity
pub mod Admission
pub mod Placements
pub mod Outcome
pub mod Restart
pub mod Adoption
mod Examples
use silvana_book_agent.Common.{
  ℕ, ◌+◌, ◌-◌, ◌*◌, ◌^◌, min, Bool, true, false, not, Option, none, some, List, [], ltb, leb, ◌==◌,
  if◌then◌else◌, nat_Eq,
}
use silvana_book_agent.Common.Text.{Text, text_Eq}
use silvana_book_agent.Common.Int.{ℤ}
use silvana_book_agent.Common.Dict.{Dict, lookup, insert, remove, retain, contains, map_values}
use silvana_book_agent.Common.Decimal.{Decimal}

abbrev pub nanos_per_sec : ℕ
nanos_per_sec = 1000000000

-- in nanoseconds, as every `Duration` here
abbrev pub submit_failed_hold : ℕ
submit_failed_hold = 60 * nanos_per_sec

abbrev pub failed_submit_adopt : ℕ
failed_submit_adopt = 3600 * nanos_per_sec

abbrev pub failed_submit_max : ℕ
failed_submit_max = 256

abbrev pub Bytes : Type 0
Bytes = List ℕ

-- `usize::MAX` on a 64-bit target
abbrev pub usize_max : ℕ
usize_max = 2 ^ 64 - 1

-- What the tracker calls outside: how the package reads a decimal, and whether the bytes carry a
-- signature by the agent's key, or nothing if the key cannot be read.
pub record Outside (d : Decimal) : Type 0 where
  pub from_str : Text → Option d.Carrier
  pub to_string : d.Carrier → Text
  pub verify_order_signature : Option (Bytes → Text → Bool)
  pub encode_base64 : Bytes → Text
  pub decode_base64 : Text → Option Bytes

pub record TrackedOrder (d : Decimal) : Type 0 where
  pub order_id : ℕ
  pub market_id : Text
  pub order_type : ℤ
  pub price : d.Carrier
  pub quantity : d.Carrier
  pub settled_quantity : d.Carrier
  pub pending_quantity : d.Carrier
  pub nonce : ℕ
  pub signature : Text
  pub signed_data : Bytes
  pub placed_by : Text
  pub is_active : Bool

-- Each `format!` of a reason is a constructor with the values that it prints.
pub data Reason (d : Decimal) : Type 0 where
  no_order_match : Reason d
  key_unavailable invalid_signature no_signature not_our_signature negative_quantity overflow :
      ℕ → Reason d
  old_nonce : ℕ → ℕ → ℕ → Reason d
  invalid_requested : ℕ → Text → Reason d
  insufficient : ℕ → d.Carrier → d.Carrier → Reason d

pub data VerifyResult (d : Decimal) : Type 0 where
  accepted : ℕ → VerifyResult d
  rejected : Reason d → VerifyResult d
  need_server_lookup : ℕ → VerifyResult d
  in_flight : ℕ → VerifyResult d

pub record FailedSubmit : Type 0 where
  pub market_id : Text
  pub order_type : ℤ
  pub price : Text
  pub quantity : Text
  pub nonce : ℕ
  pub signature : Text
  pub signed_data : Bytes

pub record SettlementOrderEntry (d : Decimal) : Type 0 where
  pub order_id : ℕ
  pub quantity : d.Carrier
  pub reserved : Bool

-- The fields of the server's `Order` that the tracker reads.
pub record Order : Type 0 where
  pub order_id : ℕ
  pub market_id : Text
  pub order_type : ℤ
  pub price : Text
  pub quantity : Text
  pub filled_quantity : Text
  pub pending_quantity : Text
  pub nonce : ℕ
  pub signature : Option Text
  pub signed_data : Bytes

pub record OrderMatch : Type 0 where
  pub bid_order_id : ℕ
  pub offer_order_id : ℕ

-- The fields of the server's `SettlementProposal` that the tracker reads.
pub record SettlementProposal : Type 0 where
  pub order_match : Option OrderMatch
  pub buyer : Text
  pub market_id : Text
  pub base_quantity : Text

-- `OrderTracker`, less the key, which only the calls outside use; the counts of placements, which the
-- guards share, are one of its fields.
pub record OrderTracker (d : Decimal) : Type 0 where
  pub start_time_ms : ℕ
  pub orders : Dict ℕ (TrackedOrder d)
  pub settlement_orders : Dict Text (SettlementOrderEntry d)
  pub placing : Dict Text ℕ
  pub submit_failed_at : Dict Text ℕ
  pub failed_submits : List (ℕ × FailedSubmit)

abbrev pub placing_count : Option ℕ → ℕ
placing_count none = 0
placing_count (some n) = n

module _ (d : Decimal) where
  abbrev pub new : ℕ → OrderTracker d
  new start_time_ms = record {
    start_time_ms = start_time_ms;
    orders = [];
    settlement_orders = [];
    placing = [];
    submit_failed_at = [];
    failed_submits = [];
  }

  -- The guard that the call returns is its market, until `drop_guard`.
  unfoldable pub begin_placement : Text → OrderTracker d → OrderTracker d
  begin_placement market_id t = record t {
    placing =
        insert market_id (min (placing_count (lookup market_id t.placing) + 1) usize_max) t.placing;
  }

  unfoldable pub drop_guard : Text → OrderTracker d → OrderTracker d
  drop_guard market_id t = elim (lookup market_id t.placing) [
    | none ↦ t
    | some count ↦
        if leb (count - 1) 0
        then record t { placing = remove market_id t.placing }
        else record t { placing = insert market_id (count - 1) t.placing }
  ]

  unfoldable pub placement_in_flight : Text → OrderTracker d → Bool
  placement_in_flight market_id t = ltb 0 (placing_count (lookup market_id t.placing))

  unfoldable pub cancel_order : ℕ → OrderTracker d → OrderTracker d
  cancel_order order_id t = elim (lookup order_id t.orders) [
    | none ↦ t
    | some order ↦ record t {
      orders = insert order_id (record order { is_active = false }) t.orders;
    }
  ]

  unfoldable pub cancel_all : OrderTracker d → OrderTracker d
  cancel_all t = record t {
    orders = map_values (λ order. record order { is_active = false }) t.orders;
  }

  pub has_settlement_order : Text → OrderTracker d → Bool
  has_settlement_order proposal_id t = contains proposal_id t.settlement_orders
