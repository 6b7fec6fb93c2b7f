-- ===== src/PaymentQueue/Limits.antt =====
-- The sizes of the worker pools.
use silvana_book_agent.Common.{ℕ, ◌≤◌, ◌≡◌, Option, none, some, [], ◌∷◌, arith}
use silvana_book_agent.Common.Text.{Text, codes, trim, parse_unsigned}
use silvana_book_agent.PaymentQueue.{
  PaymentLimits, Result, ok, err, ◌>>=◌, read_limit, read_found, read_trimmed, check_workers,
  from_lookup, max_payment_workers, usize_max,
}

-- A setting that is absent, or a size that a pool may have.
abbrev pub IsSize : Option ℕ → Type 0
IsSize none = Unit
IsSize (some n) = (1 ≤ n) × (n ≤ max_payment_workers)

abbrev SizeRead : Result (Option ℕ) → Type 0
SizeRead (ok o) = IsSize o
SizeRead (err e) = Unit

check_workers-SizeRead : (name : Text) (o : Option ℕ) → SizeRead (check_workers name o)
unfolding check_workers
check_workers-SizeRead name none = tt
check_workers-SizeRead name (some n) = ground arith

read_found-SizeRead : (name : Text) (o : Option Text) → SizeRead (read_found name o)
unfolding read_found
read_found-SizeRead name none = tt
read_found-SizeRead name (some raw) = go (trim raw)
  where
    go : (s : Text) → SizeRead (read_trimmed name s)
    go [] = tt
    go (c ∷ s) = check_workers-SizeRead name (parse_unsigned usize_max (c ∷ s))

read_limit-SizeRead :
    (get : Text → Result (Option Text)) (name : Text) → SizeRead (read_limit get name)
unfolding read_limit
read_limit-SizeRead get name = go (get name)
  where
    go : (r : Result (Option Text)) → SizeRead (r >>= λ o. read_found name o)
    go (ok o) = read_found-SizeRead name o
    go (err e) = tt

-- Whatever the environment holds, limits that are accepted give each pool between 1 and 256
-- workers.
pub from_lookup-bounds :
    (get : Text → Result (Option Text)) (l : PaymentLimits)
    → from_lookup get ≡ ok l
    → (1 ≤ l.allocation_workers)
      × (l.allocation_workers ≤ max_payment_workers)
      × (1 ≤ l.fee_workers)
      × (l.fee_workers ≤ max_payment_workers)
unfolding from_lookup
from_lookup-bounds get l h = ground (
  arith,
  read_limit-SizeRead get (codes "MAX_PAYMENT_WORKERS"),
  read_limit-SizeRead get (codes "MAX_ALLOCATION_WORKERS"),
  read_limit-SizeRead get (codes "MAX_FEE_WORKERS"),
)
