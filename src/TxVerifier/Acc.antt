-- ===== src/TxVerifier/Acc.antt =====
-- The hash accumulator of crates/tx-verifier/src/hasher.rs. Each function returns the bytes that its
-- method appends. A string is the list of its UTF-8 bytes, and a machine integer is its two's
-- complement bit pattern, so that `as i32` of an `u32` leaves it alone.
use Prim.Native.Nat.{ℕ, ◌/◌, ◌%◌, ◌^◌}
use silvana_book_agent.Common.{
  Bool, Option, none, some, List, [], ◌∷◌, ◌++◌, length, if◌then◌else◌, nat_eq,
}
use silvana_book_agent.Common.Text.{text_lt}

abbrev pub Bytes : Type 0
Bytes = List ℕ

-- The `?` of a function that returns a result. The text of an error goes to the log only.
infixl 5 ◌>>=◌
abbrev pub ◌>>=◌ {ℓ κ} : {A : Type ℓ} {B : Type κ} → Option A → (A → Option B) → Option B
none >>= f = none
some a >>= f = f a

-- `i32::to_be_bytes`
unfoldable pub i32_val : ℕ → Bytes
i32_val v = (v / 2 ^ 24 % 256) ∷ (v / 2 ^ 16 % 256) ∷ (v / 2 ^ 8 % 256) ∷ (v % 256) ∷ []

-- `i64::to_be_bytes`: the upper half, then the lower half
unfoldable pub i64_val : ℕ → Bytes
i64_val v = i32_val (v / 2 ^ 32) ++ i32_val v

abbrev pub bool_val : Bool → Bytes
bool_val v = (if v then 1 else 0) ∷ []

-- `len() as i32` wraps.
abbrev pub len_val : ℕ → Bytes
len_val n = i32_val (n % 2 ^ 32)

-- `str_val`, and `bytes_val` alike
unfoldable pub bytes_val : Bytes → Bytes
bytes_val s = len_val (length s) ++ s

unfoldable pub insert_string : Bytes → List Bytes → List Bytes
insert_string s [] = s ∷ []
insert_string s (t ∷ ts) = if text_lt t s then t ∷ insert_string s ts else s ∷ t ∷ ts

-- `sorted.sort()`: the bytes of strings are compared in order, and equal strings are the same.
unfoldable pub sort : List Bytes → List Bytes
sort [] = []
sort (s ∷ ss) = insert_string s (sort ss)

-- `str_val` of each in turn
unfoldable pub strs_val : List Bytes → Bytes
strs_val [] = []
strs_val (s ∷ ss) = bytes_val s ++ strs_val ss

unfoldable pub string_set : List Bytes → Bytes
string_set vals = let sorted = sort vals in len_val (length sorted) ++ strs_val sorted

-- `hex::decode` is a parameter: its answer on a string that is not hexadecimal is an error.
unfoldable pub hex_bytes : (Bytes → Option Bytes) → Bytes → Option Bytes
hex_bytes hex_decode s = hex_decode s >>= λ decoded. some (bytes_val decoded)

-- The first part of a text that is split, one byte longer.
abbrev pub prepend : ℕ → List Bytes → List Bytes
prepend c [] = (c ∷ []) ∷ []
prepend c (part ∷ parts) = (c ∷ part) ∷ parts

-- `split('.')`
unfoldable pub split_dots : Bytes → List Bytes
split_dots [] = [] ∷ []
split_dots (c ∷ s) =
    let parts = split_dots s in if nat_eq c b'.' then [] ∷ parts else prepend c parts

pub record Identifier : Type 0 where
  pub package_id : Bytes
  pub module_name : Bytes
  pub entity_name : Bytes

abbrev pub encode_parts : Bytes → Bytes
encode_parts name = let parts = split_dots name in len_val (length parts) ++ strs_val parts

unfoldable pub encode_identifier : Identifier → Bytes
encode_identifier id =
    bytes_val id.package_id ++ (encode_parts id.module_name ++ encode_parts id.entity_name)

unfoldable pub encode_optional_identifier : Option Identifier → Bytes
encode_optional_identifier (some id) = 0x01 ∷ encode_identifier id
encode_optional_identifier none = 0x00 ∷ []
