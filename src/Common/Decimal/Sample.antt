-- ===== src/Common/Decimal/Sample.antt =====
-- One decimal arithmetic, with two decimal places and a small range, for which the laws that the
-- models ask of the package hold.
use silvana_book_agent.Common.{
  ℕ, ◌*◌, ◌/◌, ◌^◌, ◌≡◌, ◌∙◌, subst, refl, Bool, true, ◌&&◌, Option, none, some, arith,
  if◌then◌else◌,
}
use silvana_book_agent.Common.Int.{ℤ, pos, negsuc, ◌+ℤ◌, ◌-ℤ◌, ◌≤ℤ◌, leb_ℤ, +ℤ_parts, eq_of_parts}
use silvana_book_agent.Common.Decimal.{Decimal, Amounts, Margins, Saturates, lt}

abbrev pub range : ℕ
range = 1000000000

abbrev pub lowest : ℤ
lowest = pos 0 -ℤ pos range

abbrev pub is_in_range : ℤ → Bool
is_in_range x = leb_ℤ x (pos range) && leb_ℤ lowest x

abbrev pub checked : ℤ → Option ℤ
checked x = if is_in_range x then some x else none

abbrev pub clamped : ℤ → ℤ
clamped x = if leb_ℤ x (pos range) then (if leb_ℤ lowest x then x else lowest) else pos range

-- Products of amounts that are not negative.
abbrev pub product : ℤ → ℤ → Option ℤ
product (pos a) (pos b) = some (pos (a * b / 100))
product (pos a) (negsuc b) = none
product (negsuc a) b = none

abbrev pub hundredths : Decimal
hundredths = record {
  Carrier = ℤ;
  units = λ x. x;
  nought = pos 0;
  one = pos 100;
  greatest = pos range;
  new = λ m s. pos (m * 100 / 10 ^ s);
  checked_add = λ a b. checked (a +ℤ b);
  checked_sub = λ a b. checked (a -ℤ b);
  checked_mul = product;
  saturating_add = λ a b. clamped (a +ℤ b);
  saturating_sub = λ a b. clamped (a -ℤ b);
}

pub checked_in : (x : ℤ) → x ≤ℤ pos range → lowest ≤ℤ x → checked x ≡ some x
checked_in x u l = ground arith

pub checked_out : (x : ℤ) {c : ℤ} → checked x ≡ some c → (c ≡ x) × (clamped x ≡ c)
checked_out x {c} e = ground arith

abbrev pub hundredths_amounts : Amounts hundredths
hundredths_amounts = record {
  IsAmount = λ a. Unit;
  limit = range;
  nought_units = refl;
  nought_amount = tt;
  add_total = λ a b p q u l. (a +ℤ b, checked_in (a +ℤ b) u l, refl, tt);
  add_within = λ a b c p q e u l. ((checked_out (a +ℤ b) {c = c} e).0, tt);
  sub_total = λ a b p q u l. (a -ℤ b, checked_in (a -ℤ b) u l, refl, tt);
}

abbrev pub hundredths_saturates : Saturates hundredths
hundredths_saturates = record {
  add_in_range = λ a b c e. (checked_out (a +ℤ b) {c = c} e).1;
  sub_in_range = λ a b c e. (checked_out (a -ℤ b) {c = c} e).1;
}

pub add_nought : (a c : ℤ) → checked (pos 0 +ℤ a) ≡ some c → c ≡ a
add_nought a c e =
    let same : c ≡ pos 0 +ℤ a = (checked_out (pos 0 +ℤ a) {c = c} e).0 in
    same ∙ ground (arith, eq_of_parts (pos 0 +ℤ a) a, +ℤ_parts (pos 0) a)

pub mul_margin :
    (a c : ℤ) → lt hundredths (pos 0) a ≡ true → product a (pos 102) ≡ some c → leb_ℤ a c ≡ true
mul_margin (pos a) c p e =
    let same : pos (a * 102 / 100) ≡ c = ground arith in
    subst (λ x. leb_ℤ (pos a) x ≡ true) same (ground arith)
mul_margin (negsuc a) c p e = cc

abbrev pub hundredths_margins : Margins hundredths
hundredths_margins = record { add_nought = add_nought; mul_margin = mul_margin }
