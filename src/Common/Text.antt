-- ===== src/Common/Text.antt =====
-- `str`: a text is the list of its code points.
use Prim.Native.Char.{code}
use Prim.Native.String.{String}
use silvana_book_agent.Common.{
  ℕ, ◌+◌, ◌-◌, ◌*◌, ◌≤◌, ◌≡◌, ◌↔◌, Bool, true, false, ◌&&◌, ◌||◌, Option, none, some, List, [], ◌∷◌,
  map, arith, ltb, leb, nat_eq, Eq, if◌then◌else◌,
}

abbrev pub Text : Type 0
Text = List ℕ

abbrev pub codes : String → Text
codes String.[] = []
codes (String.◌∷◌ c s) = code c ∷ codes s

abbrev pub text_eq : Text → Text → Bool
text_eq [] [] = true
text_eq [] (_ ∷ _) = false
text_eq (_ ∷ _) [] = false
text_eq (a ∷ s) (b ∷ t) = nat_eq a b && text_eq s t

pub text_eq_iff : (s t : Text) → (text_eq s t ≡ true) ↔ (s ≡ t)
text_eq_iff [] [] = ground arith
text_eq_iff [] (_ ∷ _) = ground arith
text_eq_iff (_ ∷ _) [] = ground arith
text_eq_iff (a ∷ s) (b ∷ t) = ground (arith, text_eq_iff s t)

instance abbrev pub text_Eq : Eq Text
text_Eq = record { same = text_eq; decides = text_eq_iff }

-- `str::starts_with`
abbrev pub starts_with : Text → Text → Bool
starts_with [] s = true
starts_with (_ ∷ _) [] = false
starts_with (p ∷ ps) (c ∷ s) = nat_eq p c && starts_with ps s

-- `str::contains`
abbrev pub contains_text : Text → Text → Bool
contains_text p [] = starts_with p []
contains_text p (c ∷ s) = starts_with p (c ∷ s) || contains_text p s

-- `char::is_whitespace`
abbrev pub is_whitespace : ℕ → Bool
is_whitespace c =
    (leb 9 c && leb c 13)
    || nat_eq c 32
    || nat_eq c 0x85
    || nat_eq c 0xa0
    || nat_eq c 0x1680
    || (leb 0x2000 c && leb c 0x200a)
    || nat_eq c 0x2028
    || nat_eq c 0x2029
    || nat_eq c 0x202f
    || nat_eq c 0x205f
    || nat_eq c 0x3000

pub trim_start : Text → Text
trim_start [] = []
trim_start (c ∷ s) = if is_whitespace c then trim_start s else c ∷ s

pub trim_end : Text → Text
trim_end [] = []
trim_end (c ∷ s) = elim (trim_end s) [
  | [] ↦ (if is_whitespace c then [] else c ∷ [])
  | d ∷ r ↦ c ∷ d ∷ r
]

-- `str::trim`
unfoldable pub trim : Text → Text
unfolding trim_start trim_end
trim s = trim_end (trim_start s)

-- `str::to_ascii_lowercase`
abbrev pub lower_code : ℕ → ℕ
lower_code c = if leb b'A' c && leb c b'Z' then c + 32 else c

abbrev pub to_ascii_lowercase : Text → Text
to_ascii_lowercase = map lower_code

-- The digits of an unsigned number, checked against the largest value of its type at each digit.
parse_digits : ℕ → ℕ → Text → Option ℕ
parse_digits largest acc [] = some acc
parse_digits largest acc (c ∷ s) =
    let rest = parse_digits largest (acc * 10 + (c - b'0')) s in
    if leb b'0' c && leb c b'9' && leb (acc * 10 + (c - b'0')) largest then rest else none

-- `str::parse` at an unsigned type: one `+` may stand before at least one digit.
unfoldable pub parse_unsigned : ℕ → Text → Option ℕ
unfolding parse_digits
parse_unsigned largest [] = none
parse_unsigned largest (c ∷ []) = if nat_eq c b'+' then none else parse_digits largest 0 (c ∷ [])
parse_unsigned largest (c ∷ d ∷ s) =
    if nat_eq c b'+' then parse_digits largest 0 (d ∷ s) else parse_digits largest 0 (c ∷ d ∷ s)

parse_digits-le :
    (largest acc : ℕ) (s : Text) {n : ℕ}
    → acc ≤ largest
    → parse_digits largest acc s ≡ some n
    → n ≤ largest
unfolding parse_digits
parse_digits-le largest acc [] h p = ground arith
parse_digits-le largest acc (c ∷ s) {n} h p =
    ground (arith, parse_digits-le largest (acc * 10 + (c - b'0')) s {n = n})

-- What is parsed fits the type.
pub parse_unsigned-le :
    (largest : ℕ) (s : Text) {n : ℕ} → parse_unsigned largest s ≡ some n → n ≤ largest
unfolding parse_unsigned
parse_unsigned-le largest [] h = cc
parse_unsigned-le largest (c ∷ []) {n} h =
    ground (arith, parse_digits-le largest 0 (c ∷ []) {n = n})
parse_unsigned-le largest (c ∷ d ∷ s) {n} h = ground (
  arith,
  parse_digits-le largest 0 (d ∷ s) {n = n},
  parse_digits-le largest 0 (c ∷ d ∷ s) {n = n},
)

-- `a < b` of strings, which compares their code points in order
abbrev pub text_lt : Text → Text → Bool
text_lt [] [] = false
text_lt [] (_ ∷ _) = true
text_lt (_ ∷ _) [] = false
text_lt (a ∷ s) (b ∷ t) = ltb a b || (nat_eq a b && text_lt s t)
