-- ===== src/PaymentQueue/Order.antt =====
-- The order in which queued payments leave the heap.
use Prim.Native.Nat.{compare, Ordering}
use Prim.Native.Nat.Ordering.{lt, eq, gt}
use silvana_book_agent.Common.{◌<◌, ◌≡◌, refl, ◌↔◌, arith}
use silvana_book_agent.PaymentQueue.{
  PaymentPriority, high, normal, rank, then_with, QueuedPayment, cmp_payment,
}

-- `a` leaves the queue before `b`: an allocation before a fee, and the older of two of one kind.
pub data Before {R : Type 0} (a b : QueuedPayment R) : Type 0 where
  allocation_first : a.priority ≡ high → b.priority ≡ normal → Before a b
  older_first : a.priority ≡ b.priority → a.sequence < b.sequence → Before a b

before-rank :
    (p q : PaymentPriority) → (compare (rank q) (rank p) ≡ gt) ↔ ((p ≡ high) × (q ≡ normal))
before-rank high high = ground arith
before-rank high normal = ground arith
before-rank normal high = ground arith
before-rank normal normal = ground arith

same-rank : (p q : PaymentPriority) → (compare (rank q) (rank p) ≡ eq) ↔ (p ≡ q)
same-rank high high = ground arith
same-rank high normal = ground arith
same-rank normal high = ground arith
same-rank normal normal = ground arith

forth :
    {R : Type 0} (a b : QueuedPayment R)
    → ((compare (rank b.priority) (rank a.priority) ≡ gt)
        ↔ ((a.priority ≡ high) × (b.priority ≡ normal)))
    → ((compare (rank b.priority) (rank a.priority) ≡ eq) ↔ (a.priority ≡ b.priority))
    → cmp_payment a b ≡ gt
    → Before a b
unfolding cmp_payment
forth a b above level h = go (compare (rank b.priority) (rank a.priority)) refl h
  where
    go :
        (o : Ordering)
        → compare (rank b.priority) (rank a.priority) ≡ o
        → then_with o (compare b.sequence a.sequence) ≡ gt
        → Before a b
    go lt e g = cc
    go eq e g = older_first (level.0 e) (ground arith)
    go gt e g = let both = above.0 e in allocation_first both.0 both.1

back : {R : Type 0} (a b : QueuedPayment R) → Before a b → cmp_payment a b ≡ gt
unfolding cmp_payment
back a b (allocation_first p q) = rw (p, q)
back a b (older_first p older) =
    rw ((same-rank a.priority b.priority).1 p, cmp_payment) (ground arith)

-- The greater of two payments is the one that is to leave first: an allocation beats a fee
-- whatever their sequence numbers, and within a kind the lower number beats the higher.
pub cmp_payment-gt : {R : Type 0} (a b : QueuedPayment R) → (cmp_payment a b ≡ gt) ↔ Before a b
unfolding cmp_payment
cmp_payment-gt a b =
    (forth a b (before-rank a.priority b.priority) (same-rank a.priority b.priority), back a b)
