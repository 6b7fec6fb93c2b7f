-- ===== src/TxVerifier/Reader.antt =====
-- Readers of the encodings of crates/tx-verifier/src/hasher.rs: what a reader takes off the front of
-- a list of bytes, and when it takes back just what was written.
use mathlib.Core.List.{append_assoc}
use silvana_book_agent.Common.{
  ℕ, zero, suc, ◌+◌, ◌*◌, ◌/◌, ◌%◌, ◌^◌, ◌≤◌, ◌<◌, ◌≡◌, refl, Option, none, some, List, [], ◌∷◌,
  ◌++◌, length, length-append, arith, nat_eq, nat_eq_iff, Bool-cases, inl, inr, if◌then◌else◌,
}
use silvana_book_agent.TxVerifier.Acc.{
  Bytes, ◌>>=◌, i32_val, i64_val, len_val, bytes_val, strs_val, split_dots, prepend, Identifier,
  encode_parts, encode_identifier, encode_optional_identifier,
}

abbrev pub Reader {ℓ} : Type ℓ → Type ℓ
Reader A = Bytes → Option (A × Bytes)

-- On these bytes the reader answers `a`, and leaves whatever follows them.
abbrev pub Reads {ℓ} : {A : Type ℓ} → Reader A → Bytes → A → Type ℓ
Reads r bytes a = (rest : Bytes) → r (bytes ++ rest) ≡ some (a, rest)

module _ {ℓ κ} {A : Type ℓ} {B : Type κ} where
  abbrev pub and_then : Reader A → (A → Reader B) → Reader B
  and_then r k bytes = r bytes >>= λ (a, rest). k a rest

  abbrev pub answer : (A → B) → Reader A → Reader B
  answer f r bytes = r bytes >>= λ (a, rest). some (f a, rest)

  pub and_then-Reads :
      (r : Reader A) (k : A → Reader B) (front back : Bytes) (a : A) (b : B)
      → Reads r front a
      → Reads (k a) back b
      → Reads (and_then r k) (front ++ back) b
  and_then-Reads r k front back a b h h' rest =
      rw (append_assoc front back rest, h (back ++ rest)) (h' rest)

  pub answer-Reads :
      (f : A → B) (r : Reader A) (bytes : Bytes) (a : A)
      → Reads r bytes a
      → Reads (answer f r) bytes (f a)
  answer-Reads f r bytes a h rest = rw (h rest)

unfoldable pub read_byte : Reader ℕ
read_byte [] = none
read_byte (b ∷ bytes) = some (b, bytes)

-- Exactly `n` bytes
unfoldable pub read_raw : ℕ → Reader Bytes
read_raw zero bytes = some ([], bytes)
read_raw (suc n) [] = none
read_raw (suc n) (b ∷ bytes) = answer (λ bs. b ∷ bs) (read_raw n) bytes

unfoldable pub read_i32 : Reader ℕ
read_i32 (a ∷ b ∷ c ∷ d ∷ rest) = some (a * 2 ^ 24 + b * 2 ^ 16 + c * 2 ^ 8 + d, rest)
read_i32 _ = none

unfoldable pub read_i64 : Reader ℕ
read_i64 = and_then read_i32 (λ hi. answer (λ lo. hi * 2 ^ 32 + lo) read_i32)

unfoldable pub read_bytes : Reader Bytes
read_bytes = and_then read_i32 read_raw

-- `n` texts
pub read_strs : ℕ → Reader (List Bytes)
read_strs zero bytes = some ([], bytes)
read_strs (suc n) bytes = and_then read_bytes (λ s. answer (λ ss. s ∷ ss) (read_strs n)) bytes

pub read_set : Reader (List Bytes)
read_set = and_then read_i32 read_strs

-- The parts with dots between them
pub join_dots : List Bytes → Bytes
join_dots [] = []
join_dots (part ∷ []) = part
join_dots (part ∷ next ∷ parts) = part ++ (b'.' ∷ join_dots (next ∷ parts))

pub read_identifier : Reader Identifier
read_identifier = and_then read_bytes (λ p. and_then read_set (λ m.
    answer (λ e. record { package_id = p; module_name = join_dots m; entity_name = join_dots e })
      read_set))

-- After a byte that tells whether there is one
unfoldable pub read_optional {ℓ} : {A : Type ℓ} → Reader A → Reader (Option A)
read_optional r =
    and_then read_byte
      (λ flag bytes. if nat_eq flag 1 then answer some r bytes else some (none, bytes))

pub read_raw-Reads : (s : Bytes) → Reads (read_raw (length s)) s s
unfolding read_raw
read_raw-Reads [] rest = refl
read_raw-Reads (b ∷ s) rest = rw (read_raw-Reads s rest)

pub read_i32-Reads : (v : ℕ) → Reads read_i32 (i32_val v) (v % 2 ^ 32)
unfolding read_i32 i32_val
read_i32-Reads v rest = ground arith

pub len-Reads : (n : ℕ) → n < 2 ^ 32 → Reads read_i32 (len_val n) n
len-Reads n h rest = rw (read_i32-Reads (n % 2 ^ 32) rest) (ground arith)

pub read_i64-Reads : (v : ℕ) → Reads read_i64 (i64_val v) (v % 2 ^ 64)
unfolding read_i64 i64_val
read_i64-Reads v =
    and_then-Reads read_i32 (λ hi. answer (λ lo. hi * 2 ^ 32 + lo) read_i32) (i32_val (v / 2 ^ 32))
      (i32_val v) (v / 2 ^ 32 % 2 ^ 32) (v % 2 ^ 64) (read_i32-Reads (v / 2 ^ 32))
      (λ rest. rw (read_i32-Reads v rest) (ground arith))

pub bytes-Reads : (s : Bytes) → length s < 2 ^ 32 → Reads read_bytes (bytes_val s) s
unfolding read_bytes bytes_val
bytes-Reads s h =
    and_then-Reads read_i32 read_raw (len_val (length s)) s (length s) s (len-Reads (length s) h)
      (read_raw-Reads s)

-- Less than 4 GiB, so that every length in it is kept
abbrev pub IsShort : Bytes → Type 0
IsShort bytes = length bytes < 2 ^ 32

pub length-bytes_val : (s : Bytes) → length (bytes_val s) ≡ 4 + length s
unfolding bytes_val i32_val
length-bytes_val s = omega arith

pub length-strs_val-le : (ss : List Bytes) → length ss ≤ length (strs_val ss)
unfolding strs_val
length-strs_val-le [] = omega arith
length-strs_val-le (s ∷ ss) = omega (
  arith,
  length-append {0} (bytes_val s) (strs_val ss),
  length-bytes_val s,
  length-strs_val-le ss,
)

pub strs-Reads :
    (ss : List Bytes) → IsShort (strs_val ss) → Reads (read_strs (length ss)) (strs_val ss) ss
unfolding read_strs strs_val
strs-Reads [] h = λ rest. refl
strs-Reads (s ∷ ss) h =
    let split : length (bytes_val s ++ strs_val ss) ≡ length (bytes_val s) + length (strs_val ss) =
      length-append (bytes_val s) (strs_val ss) in
    and_then-Reads read_bytes (λ t. answer (λ ts. t ∷ ts) (read_strs (length ss))) (bytes_val s)
      (strs_val ss) s (s ∷ ss) (bytes-Reads s (omega (arith, length-bytes_val s)))
      (answer-Reads (λ ts. s ∷ ts) (read_strs (length ss)) (strs_val ss) ss
        (strs-Reads ss (omega arith)))

-- A list of texts behind its length
pub set-Reads :
    (ss : List Bytes)
    → IsShort (len_val (length ss) ++ strs_val ss)
    → Reads read_set (len_val (length ss) ++ strs_val ss) ss
unfolding read_set
set-Reads ss h =
    let split : length (len_val (length ss) ++ strs_val ss)
        ≡ length (len_val (length ss)) + length (strs_val ss) =
      length-append (len_val (length ss)) (strs_val ss) in
    and_then-Reads read_i32 read_strs (len_val (length ss)) (strs_val ss) (length ss) ss
      (len-Reads (length ss) (omega (arith, length-strs_val-le ss))) (strs-Reads ss (omega arith))

join_dots-prepend : (c : ℕ) (parts : List Bytes) → join_dots (prepend c parts) ≡ c ∷ join_dots parts
unfolding join_dots
join_dots-prepend c [] = refl
join_dots-prepend c (part ∷ []) = refl
join_dots-prepend c (part ∷ next ∷ parts) = refl

-- An empty first part leaves its dot.
join_dots-dot :
    (part : Bytes) (parts : List Bytes)
    → join_dots ([] ∷ part ∷ parts) ≡ b'.' ∷ join_dots (part ∷ parts)
unfolding join_dots
join_dots-dot part parts = refl

prepend-cons :
    (c : ℕ) (parts : List Bytes)
    → (part : Bytes) × (rest : List Bytes) × (prepend c parts ≡ part ∷ rest)
prepend-cons c [] = (c ∷ [], [], refl)
prepend-cons c (part ∷ parts) = (c ∷ part, parts, refl)

-- There is always a first part.
split_dots-cons :
    (s : Bytes) → (part : Bytes) × (parts : List Bytes) × (split_dots s ≡ part ∷ parts)
unfolding split_dots
split_dots-cons [] = ([], [], refl)
split_dots-cons (c ∷ s) = elim (Bool-cases (nat_eq c b'.')) [
  | inl dot ↦ ([], split_dots s, rw dot)
  | inr other ↦ rw other (prepend-cons c (split_dots s))
]

-- What is split at its dots is joined again.
pub join_dots-split_dots : (s : Bytes) → join_dots (split_dots s) ≡ s
unfolding split_dots
join_dots-split_dots [] = unfold join_dots in refl
join_dots-split_dots (c ∷ s) = elim (Bool-cases (nat_eq c b'.')) [
  | inl dot ↦
      let (part, parts, e) = split_dots-cons s in
      let ih : join_dots (part ∷ parts) ≡ s = rw (← e) (join_dots-split_dots s) in
      let is_dot : c ≡ b'.' = (nat_eq_iff c b'.').0 dot in
      rw (dot, e, join_dots-dot part parts, ih, is_dot) refl
  | inr other ↦ rw (other, join_dots-prepend c (split_dots s), join_dots-split_dots s) refl
]

pub parts-Reads :
    (name : Bytes)
    → IsShort (encode_parts name)
    → Reads read_set (encode_parts name) (split_dots name)
parts-Reads name h = set-Reads (split_dots name) h

pub identifier-Reads :
    (id : Identifier)
    → IsShort (encode_identifier id)
    → Reads read_identifier (encode_identifier id) id
unfolding read_identifier encode_identifier
identifier-Reads id h =
    let m = encode_parts id.module_name in
    let e = encode_parts id.entity_name in
    let l : length (bytes_val id.package_id ++ (m ++ e))
        ≡ length (bytes_val id.package_id) + length (m ++ e) =
      length-append (bytes_val id.package_id) (m ++ e) in
    let l' : length (m ++ e) ≡ length m + length e = length-append m e in
    and_then-Reads read_bytes _ (bytes_val id.package_id) (m ++ e) id.package_id id
      (bytes-Reads id.package_id (omega (arith, length-bytes_val id.package_id)))
      (and_then-Reads read_set _ m e (split_dots id.module_name) id
        (parts-Reads id.module_name (omega arith))
        (λ rest.
          rw
            (
              parts-Reads id.entity_name (omega arith) rest,
              join_dots-split_dots id.module_name,
              join_dots-split_dots id.entity_name,
            )
            refl))

pub optional_identifier-Reads :
    (id : Option Identifier)
    → IsShort (encode_optional_identifier id)
    → Reads (read_optional read_identifier) (encode_optional_identifier id) id
unfolding read_optional read_byte encode_optional_identifier
optional_identifier-Reads none h rest = refl
optional_identifier-Reads (some id) h rest = rw (identifier-Reads id (omega arith) rest)
