-- ===== src/PaymentQueue.antt =====
-- crates/cloud-agent/src/payment_queue.rs: limits, priorities, amulet selection and the timeout
-- streak. Text of log lines is left out; what a call returns and how it changes state is not.
pub mod Select
pub mod Cover
pub mod Order
pub mod Streak
pub mod Limits
mod Examples
use silvana_book_agent.Common.{
  ℕ, zero, suc, ◌+◌, ◌-◌, ◌%◌, ◌^◌, min, Bool, true, false, not, ◌&&◌, ◌||◌, Option, none, some,
  List, [], ◌∷◌, ◌++◌, map, ltb, leb, if◌then◌else◌, length,
}
use silvana_book_agent.Common.Text.{Text, codes, trim, parse_unsigned}
use Prim.Native.Nat.{compare, Ordering}
use Prim.Native.Nat.Ordering.{lt, eq, gt}

-- The fixed numbers of the module.
abbrev pub default_max_allocation_workers : ℕ
default_max_allocation_workers = 20

abbrev pub default_max_fee_workers : ℕ
default_max_fee_workers = 5

abbrev pub max_payment_workers : ℕ
max_payment_workers = 256

abbrev pub usize_max : ℕ
usize_max = 2 ^ 64 - 1

pub record PaymentLimits : Type 0 where
  pub allocation_workers : ℕ
  pub fee_workers : ℕ

-- Why the limits are refused: the lookup failed, or the named setting is no whole number, or it is
-- outside 1..=256.
pub data LimitError : Type 0 where
  lookup_failed not_a_number : Text → LimitError
  outside_range : Text → ℕ → LimitError

pub data Result (A : Type 0) : Type 0 where
  ok : A → Result A
  err : LimitError → Result A

infixl 5 ◌>>=◌
abbrev pub ◌>>=◌ : {A B : Type 0} → Result A → (A → Result B) → Result B
ok a >>= f = f a
err e >>= f = err e

check_workers : Text → Option ℕ → Result (Option ℕ)
check_workers name none = err (not_a_number name)
check_workers name (some n) =
    if leb 1 n && leb n max_payment_workers then ok (some n) else err (outside_range name n)

read_trimmed : Text → Text → Result (Option ℕ)
unfolding check_workers
read_trimmed name [] = ok none
read_trimmed name (c ∷ raw) = check_workers name (parse_unsigned usize_max (c ∷ raw))

read_found : Text → Option Text → Result (Option ℕ)
unfolding read_trimmed
read_found name none = ok none
read_found name (some raw) = read_trimmed name (trim raw)

-- The closure `read`; `get` is the lookup in the environment.
pub read_limit : (Text → Result (Option Text)) → Text → Result (Option ℕ)
unfolding read_found
read_limit get name = get name >>= λ found. read_found name found

-- `Option::or` and `Option::unwrap_or`
abbrev pub or_else : Option ℕ → Option ℕ → Option ℕ
or_else none o = o
or_else (some n) o = some n

abbrev pub unwrap_or : Option ℕ → ℕ → ℕ
unwrap_or none n = n
unwrap_or (some m) n = m

pub from_lookup : (Text → Result (Option Text)) → Result PaymentLimits
unfolding read_limit
from_lookup get = do
  both ← read_limit get (codes "MAX_PAYMENT_WORKERS")
  allocation ← read_limit get (codes "MAX_ALLOCATION_WORKERS")
  fee ← read_limit get (codes "MAX_FEE_WORKERS")
  ok (record {
    allocation_workers = unwrap_or (or_else both allocation) default_max_allocation_workers;
    fee_workers = unwrap_or (or_else both fee) default_max_fee_workers;
  })

pub data PaymentPriority : Type 0 where
  high normal : PaymentPriority

-- `*self as u8`
abbrev pub rank : PaymentPriority → ℕ
rank high = 0
rank normal = 1

-- `Ord for PaymentPriority`: the lower number is the greater.
pub cmp_priority : PaymentPriority → PaymentPriority → Ordering
cmp_priority a b = compare (rank b) (rank a)

abbrev pub then_with : Ordering → Ordering → Ordering
then_with lt o = lt
then_with eq o = o
then_with gt o = gt

-- What orders a queued payment; its request is carried by the type `R`.
pub record QueuedPayment (R : Type 0) : Type 0 where
  pub priority : PaymentPriority
  pub sequence : ℕ
  pub request : R

-- `Ord for QueuedPayment`
pub cmp_payment : {R : Type 0} → QueuedPayment R → QueuedPayment R → Ordering
unfolding cmp_priority
cmp_payment a b = then_with (cmp_priority a.priority b.priority) (compare b.sequence a.sequence)

-- `TimeoutStreak` and the shared channel that it governs; `A` is the type of channels.
abbrev pub u32_max : ℕ
u32_max = 2 ^ 32 - 1

abbrev pub channel_rebuild_after : ℕ
channel_rebuild_after = 3

pub record_outcome : Bool → ℕ → ℕ
record_outcome timed_out n = if timed_out then min (n + 1) u32_max else 0

-- The streak if it reached the limit, and the streak afterwards.
pub take_if_at_least : ℕ → ℕ → Option ℕ × ℕ
take_if_at_least limit n = if leb limit n then (some n, 0) else (none, n)

-- `timeouts` is the counter shared with the workers of the present channel; `abandoned` holds those
-- of earlier channels, to which only workers still write.
pub record SharedChannel (A : Type 0) : Type 0 where
  pub channel : Option A
  pub timeouts : ℕ
  pub abandoned : List ℕ

pub fresh_channel : {A : Type 0} → SharedChannel A
fresh_channel = record { channel = none; timeouts = 0; abandoned = [] }

taken_channel : {A : Type 0} → Option ℕ → SharedChannel A → SharedChannel A
taken_channel none s = s
taken_channel (some _) s = record s { channel = none }

connect : {A : Type 0} → Option A → Option A → SharedChannel A → Option A × SharedChannel A
connect (some ch) dialled s = (some ch, s)
connect none none s = (none, s)
connect none (some ch) s =
    (some ch, record { channel = some ch; timeouts = 0; abandoned = s.timeouts ∷ s.abandoned })

-- `SharedChannel::get`; `dialled` is what creating a channel gives, if it comes to that, `none`
-- standing for an error.
pub get_channel : {A : Type 0} → Option A → SharedChannel A → Option A × SharedChannel A
unfolding take_if_at_least taken_channel connect
get_channel dialled s =
    let (taken, left) = take_if_at_least channel_rebuild_after s.timeouts in
    let s' = taken_channel taken (record s { timeouts = left }) in connect s'.channel dialled s'
