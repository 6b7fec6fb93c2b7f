-- ===== src/SplitWorker/Sample.antt =====
-- The laws of prices hold for the sample arithmetic, with prices that are multiples of 0.20, so that 95%
-- of one is exact.
use native.Mathlib.Nat.{div-div-eq-div-mul, mul-div-mul_right}
use silvana_book_agent.Common.{
  nat_Eq, ℕ, ◌+◌, ◌-◌, ◌*◌, ◌/◌, ◌≤◌, ◌<◌, ◌≡◌, refl, ap, ◌∙◌, min, false, inl, inr, Option, none,
  some, arith, leb, nat_eq, Bool-cases, if◌then◌else◌,
}
use silvana_book_agent.Common.Int.{int_laws, ℤ, pos, negsuc, pos_part, ◌-ℤ◌}
use silvana_book_agent.Common.Decimal.Sample.{hundredths, range, product, checked, checked_in}
use silvana_book_agent.Holdings.{u32_max}
use silvana_book_agent.SplitWorker.Fund.{Quotients, or_max, truncated}
use silvana_book_agent.SplitWorker.Budget.{Payments}

abbrev whole : ℤ → Option ℕ
whole (pos a) = if leb (a / 100) u32_max then some (a / 100) else none
whole (negsuc a) = none

abbrev ratio : ℤ → ℤ → Option ℤ
ratio (pos a) (pos b) = if nat_eq b 0 then none else some (pos (a * 100 / b))
ratio (pos a) (negsuc b) = none
ratio (negsuc a) b = none

abbrev cut : ℤ → ℤ
cut (pos a) = pos (a / 100 * 100)
cut (negsuc a) = negsuc a

abbrev pub quotients : Quotients hundredths
quotients = record {
  from_u32 = λ n. pos (n * 100);
  checked_div = ratio;
  trunc = cut;
  to_u32 = whole;
}

abbrev AtLeastZero : ℤ → Type 0
AtLeastZero a = a ≡ pos (pos_part a)

abbrev InTwenties : ℤ → Type 0
InTwenties a = a ≡ pos (20 * (pos_part a / 20))

pub zero_or_more : (a : ℤ) → InTwenties a → AtLeastZero a
zero_or_more (pos a) p = refl
zero_or_more (negsuc a) p = absurd (cc p)

twenties : (a : ℤ) → InTwenties a → pos_part a ≡ 20 * (pos_part a / 20)
twenties a p = ap pos_part p

pub product_count :
    (a : ℤ) (n : ℕ)
    → InTwenties a
    → (c : ℤ) × (product a (pos (n * 100)) ≡ some c) × (pos_part c ≡ n * pos_part a) × InTwenties c
product_count (pos a) n p =
    let exact : a * (n * 100) / 100 ≡ n * a = grind arith in
    let whole_a : a ≡ 20 * (a / 20) = twenties (pos a) p in
    let order : n * (20 * (a / 20)) ≡ 20 * (n * (a / 20)) = grind arith in
    let grouped : n * a ≡ 20 * (n * (a / 20)) = ap (λ m. n * m) whole_a ∙ order in
    let still : n * a ≡ 20 * (n * a / 20) = omega (arith, grouped) in
    (pos (n * a), rw exact refl, refl, ap pos still)
product_count (negsuc a) n p = absurd (cc p)

pub difference :
    (a b : ℤ)
    → AtLeastZero a
    → InTwenties b
    → pos_part b ≤ pos_part a
    → pos_part a ≤ range
    → (c : ℤ) × (checked (a -ℤ b) ≡ some c) × (pos_part c + pos_part b ≡ pos_part a) × AtLeastZero c
difference (pos a) (pos b) p q h k =
    let same : pos a -ℤ pos b ≡ pos (a - b) = grind int_laws in
    let within : checked (pos (a - b)) ≡ some (pos (a - b)) =
      checked_in (pos (a - b)) (omega arith) (grind int_laws) in
    (pos (a - b), rw same within, omega arith, refl)
difference (negsuc a) b p q h k = absurd (cc p)
difference (pos a) (negsuc b) p q h k = absurd (cc q)

whole-cut : (x : ℕ) → or_max hundredths quotients (whole (cut (pos x))) ≡ min (x / 100) u32_max
whole-cut x =
    let kept : x / 100 * 100 / 100 ≡ x / 100 = omega arith in
    elim (Bool-cases (leb (x / 100) u32_max)) [
      | inl small ↦ rw (kept, small) (ground arith)
      | inr big ↦ rw (kept, big) (ground arith)
    ]

pub cut_ratio :
    (a b : ℤ)
    → AtLeastZero a
    → InTwenties b
    → 0 < pos_part b
    → or_max hundredths quotients (truncated hundredths quotients (ratio a b))
      ≡ min (pos_part a / pos_part b) u32_max
cut_ratio (pos a) (pos b) p q h =
    let some_left : nat_eq b 0 ≡ false = ground arith in
    let exact : a * 100 / b / 100 ≡ a / b =
      div-div-eq-div-mul (a * 100) b 100 ∙ mul-div-mul_right {m = 100} a b (omega arith) in
    rw some_left (whole-cut (a * 100 / b) ∙ ap (λ n. min n u32_max) exact)
cut_ratio (negsuc a) b p q h = absurd (cc p)
cut_ratio (pos a) (negsuc b) p q h = absurd (cc q)

pub part_95 :
    (a : ℤ)
    → InTwenties a
    → (c : ℤ) × (product a (pos 95) ≡ some c) × (100 * pos_part c ≡ 95 * pos_part a) × AtLeastZero c
part_95 (pos a) p =
    let whole_a : a ≡ 20 * (a / 20) = twenties (pos a) p in
    (pos (a * 95 / 100), refl, omega (arith, whole_a), refl)
part_95 (negsuc a) p = absurd (cc p)

abbrev pub payments : Payments hundredths quotients
payments = record {
  IsPrice = InTwenties;
  IsBudget = AtLeastZero;
  limit = range;
  nought_units = refl;
  price_units = λ a p. zero_or_more a p;
  budget_units = λ a b. b;
  mul_count = λ a n p l h. product_count a n p;
  sub_price = λ a b p q h k. difference a b p q h k;
  quotient = λ a b p q h l k. cut_ratio a b p q h;
  ninety_five = λ a p h. part_95 a p;
}
