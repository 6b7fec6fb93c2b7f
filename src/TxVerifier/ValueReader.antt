-- ===== src/TxVerifier/ValueReader.antt =====
-- A reader for the encoding of values in crates/tx-verifier/src/hasher.rs, and what it gives back of a
-- value. `render` writes the bytes of a contract id as text: it is `hex::encode`.
use silvana_book_agent.Common.{
  ℕ, zero, suc, ◌%◌, ◌^◌, Option, none, some, [], if◌then◌else◌, nat_eq, not,
}
use silvana_book_agent.TxVerifier.Acc.{Bytes, Identifier}
use silvana_book_agent.TxVerifier.Reader.{
  Reader, and_then, answer, read_byte, read_i32, read_i64, read_bytes, read_identifier,
  read_optional,
}
use silvana_book_agent.TxVerifier.Value.{
  Value, set, unset, Sum, unit, bool, int64, numeric, timestamp, date, party, text, contract_id,
  optional, list, text_map, record_fields, variant, enum, gen_map, MaybeValue, missing, present,
  Values, no_values, value, TextEntries, no_texts, text_entry, Fields, no_fields, field, GenEntries,
  no_gens, gen_entry,
}

abbrev pub or_missing : Option Value → MaybeValue
or_missing none = missing
or_missing (some v) = present v

abbrev pub or_empty : Option Bytes → Bytes
or_empty none = []
or_empty (some s) = s

abbrev pub read_id : Reader (Option Identifier)
read_id = read_optional read_identifier

abbrev pub with_id {ℓ} : {A : Type ℓ} → Reader A → Reader (Option Identifier × A)
with_id r = and_then read_id (λ id. answer (λ a. (id, a)) r)

module _ (rv : Reader Value) where
  -- A value that stands where one may be missing
  abbrev pub read_present : Reader MaybeValue
  read_present = answer present rv

  abbrev pub with_key {ℓ} : {K : Type ℓ} → Reader K → Reader (K × MaybeValue)
  with_key r = and_then r (λ k. answer (λ v. (k, v)) read_present)

  unfoldable pub read_values : ℕ → Reader Values
  read_values zero bytes = some (no_values, bytes)
  read_values (suc n) bytes = and_then rv (λ v. answer (value v) (read_values n)) bytes

  unfoldable pub read_texts : ℕ → Reader TextEntries
  read_texts zero bytes = some (no_texts, bytes)
  read_texts (suc n) bytes =
      and_then (with_key read_bytes) (λ (k, v). answer (text_entry k v) (read_texts n)) bytes

  unfoldable pub read_fields : ℕ → Reader Fields
  read_fields zero bytes = some (no_fields, bytes)
  read_fields (suc n) bytes =
      and_then (with_key (answer or_empty (read_optional read_bytes)))
        (λ (l, v). answer (field l v) (read_fields n)) bytes

  unfoldable pub read_gens : ℕ → Reader GenEntries
  read_gens zero bytes = some (no_gens, bytes)
  read_gens (suc n) bytes =
      and_then (with_key read_present) (λ (k, v). answer (gen_entry k v) (read_gens n)) bytes

module _ (render : Bytes → Bytes) where
  -- What stands behind a tag
  unfoldable pub read_sum : Reader Value → ℕ → Reader Sum
  read_sum rv tag bytes =
      if nat_eq tag 0x00
      then some (unit, bytes)
      else if nat_eq tag 0x01
      then answer (λ b. bool (not (nat_eq b 0))) read_byte bytes
      else if nat_eq tag 0x02
      then answer int64 read_i64 bytes
      else if nat_eq tag 0x03
      then answer numeric read_bytes bytes
      else if nat_eq tag 0x04
      then answer timestamp read_i64 bytes
      else if nat_eq tag 0x05
      then answer date read_i32 bytes
      else if nat_eq tag 0x06
      then answer party read_bytes bytes
      else if nat_eq tag 0x07
      then answer text read_bytes bytes
      else if nat_eq tag 0x08
      then answer (λ s. contract_id (render s)) read_bytes bytes
      else if nat_eq tag 0x09
      then answer (λ o. optional (or_missing o)) (read_optional rv) bytes
      else if nat_eq tag 0x0a
      then answer list (and_then read_i32 (read_values rv)) bytes
      else if nat_eq tag 0x0b
      then answer text_map (and_then read_i32 (read_texts rv)) bytes
      else if nat_eq tag 0x0c
      then and_then (with_id read_i32) (λ (id, n). answer (record_fields id) (read_fields rv n))
          bytes
      else if nat_eq tag 0x0d
      then and_then (with_id read_bytes) (λ (id, c). answer (variant id c) (read_present rv)) bytes
      else if nat_eq tag 0x0e
      then and_then read_id (λ id. answer (enum id) read_bytes) bytes
      else if nat_eq tag 0x0f
      then answer gen_map (and_then read_i32 (read_gens rv)) bytes
      else none

  abbrev pub read_tagged : Reader Value → Reader Sum
  read_tagged rv = and_then read_byte (read_sum rv)

  -- Values nested at most so deep
  unfoldable pub read_value : ℕ → Reader Value
  read_value zero bytes = none
  read_value (suc d) bytes = answer set (read_tagged (read_value d)) bytes

-- What the encoding keeps of a value: an integer at its width, the bytes of a contract id.
module _ (hex_decode : Bytes → Option Bytes) (render : Bytes → Bytes) where
  abbrev pub kept_id : Bytes → Bytes
  kept_id s = elim (hex_decode s) [ none ↦ s | some bytes ↦ render bytes ]

  unfoldable mutual
    pub kept : Value → Value
    kept unset = unset
    kept (set s) = set (kept_sum s)

    pub kept_sum : Sum → Sum
    kept_sum unit = unit
    kept_sum (bool b) = bool b
    kept_sum (int64 v) = int64 (v % 2 ^ 64)
    kept_sum (numeric s) = numeric s
    kept_sum (timestamp v) = timestamp (v % 2 ^ 64)
    kept_sum (date v) = date (v % 2 ^ 32)
    kept_sum (party s) = party s
    kept_sum (text s) = text s
    kept_sum (contract_id s) = contract_id (kept_id s)
    kept_sum (optional v) = optional (kept_maybe v)
    kept_sum (list vs) = list (kept_values vs)
    kept_sum (text_map es) = text_map (kept_texts es)
    kept_sum (record_fields id fs) = record_fields id (kept_fields fs)
    kept_sum (variant id c v) = variant id c (kept_maybe v)
    kept_sum (enum id c) = enum id c
    kept_sum (gen_map es) = gen_map (kept_gens es)

    pub kept_maybe : MaybeValue → MaybeValue
    kept_maybe missing = missing
    kept_maybe (present v) = present (kept v)

    pub kept_values : Values → Values
    kept_values no_values = no_values
    kept_values (value v vs) = value (kept v) (kept_values vs)

    pub kept_texts : TextEntries → TextEntries
    kept_texts no_texts = no_texts
    kept_texts (text_entry k v es) = text_entry k (kept_maybe v) (kept_texts es)

    pub kept_fields : Fields → Fields
    kept_fields no_fields = no_fields
    kept_fields (field l v fs) = field l (kept_maybe v) (kept_fields fs)

    pub kept_gens : GenEntries → GenEntries
    kept_gens no_gens = no_gens
    kept_gens (gen_entry k v es) = gen_entry (kept_maybe k) (kept_maybe v) (kept_gens es)
