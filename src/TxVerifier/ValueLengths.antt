-- ===== src/TxVerifier/ValueLengths.antt =====
-- How a successful encoding of a value of crates/tx-verifier/src/hasher.rs is put together, and that it
-- has a byte at least for each member of a list.
use silvana_book_agent.Common.{
  ℕ, ◌+◌, ◌≤◌, ◌≡◌, refl, Option, none, some, [], ◌∷◌, ◌++◌, length, length-append, arith, ltb,
  Bool-cases, inl, inr,
}
use silvana_book_agent.TxVerifier.Acc.{
  Bytes, len_val, bytes_val, hex_bytes, encode_optional_identifier,
}
use silvana_book_agent.TxVerifier.Reader.{IsShort}
use silvana_book_agent.TxVerifier.Value.{
  Value, set, unset, Sum, unit, bool, int64, numeric, timestamp, date, party, text, contract_id,
  optional, list, text_map, record_fields, variant, enum, gen_map, MaybeValue, missing, present,
  Values, no_values, value, TextEntries, no_texts, text_entry, Fields, no_fields, field, GenEntries,
  no_gens, gen_entry, ◌then_bytes◌, ◌then_both◌, label_val, values_len, texts_len, fields_len,
  gens_len, encode_value_at, encode_sum, encode_present, encode_values, encode_texts, encode_fields,
  encode_gens, max_value_depth,
}

-- How a successful encoding behind other bytes came about
pub then_bytes_inv :
    (front : Bytes) (o : Option Bytes) {bytes : Bytes}
    → (front then_bytes o) ≡ some bytes
    → (back : Bytes) × (o ≡ some back) × (bytes ≡ front ++ back)
then_bytes_inv front none h = absurd (cc h)
then_bytes_inv front (some back) h = (back, refl, cc h)

pub then_both_inv :
    (one two : Option Bytes) {bytes : Bytes}
    → (one then_both two) ≡ some bytes
    → (front : Bytes) × (back : Bytes) × (one ≡ some front)
      × (two ≡ some back)
      × (bytes ≡ front ++ back)
then_both_inv none two h = absurd (cc h)
then_both_inv (some front) none h = absurd (cc h)
then_both_inv (some front) (some back) h = (front, back, refl, refl, cc h)

pub front-IsShort : (front back : Bytes) → IsShort (front ++ back) → IsShort front
front-IsShort front back h = omega (arith, length-append {0} front back)

pub back-IsShort : (front back : Bytes) → IsShort (front ++ back) → IsShort back
back-IsShort front back h = omega (arith, length-append {0} front back)

tag_pos :
    (tag : ℕ) (back : Bytes) {bytes : Bytes} → some (tag ∷ back) ≡ some bytes → 1 ≤ length bytes
tag_pos tag back h = ground arith

tag_pos' :
    (tag : ℕ) (front : Bytes) (o : Option Bytes) {bytes : Bytes}
    → ((tag ∷ front) then_bytes o) ≡ some bytes
    → 1 ≤ length bytes
tag_pos' tag front none h = absurd (cc h)
tag_pos' tag front (some back) h = tag_pos tag (front ++ back) h

module _ (hex_decode : Bytes → Option Bytes) where
  -- Each encoded value has its tag at least.
  sum-pos :
      (n : ℕ) (s : Sum) {bytes : Bytes} → encode_sum hex_decode n s ≡ some bytes → 1 ≤ length bytes
  unfolding encode_sum
  sum-pos n unit h = tag_pos _ _ h
  sum-pos n (bool b) h = tag_pos _ _ h
  sum-pos n (int64 v) h = tag_pos _ _ h
  sum-pos n (numeric t) h = tag_pos _ _ h
  sum-pos n (timestamp v) h = tag_pos _ _ h
  sum-pos n (date v) h = tag_pos _ _ h
  sum-pos n (party t) h = tag_pos _ _ h
  sum-pos n (text t) h = tag_pos _ _ h
  sum-pos n (optional missing) h = tag_pos _ _ h
  sum-pos n (enum id c) h = tag_pos _ _ h
  sum-pos n (contract_id t) h = tag_pos' _ [] (hex_bytes hex_decode t) h
  sum-pos n (optional (present v)) h = tag_pos' _ (0x01 ∷ []) (encode_value_at hex_decode n v) h
  sum-pos n (list vs) h = tag_pos' _ (len_val (values_len vs)) (encode_values hex_decode n vs) h
  sum-pos n (text_map es) h = tag_pos' _ (len_val (texts_len es)) (encode_texts hex_decode n es) h
  sum-pos n (record_fields id fs) h =
      tag_pos' _ (encode_optional_identifier id ++ len_val (fields_len fs))
        (encode_fields hex_decode n fs) h
  sum-pos n (variant id c v) h =
      tag_pos' _ (encode_optional_identifier id ++ bytes_val c) (encode_present hex_decode n v) h
  sum-pos n (gen_map es) h = tag_pos' _ (len_val (gens_len es)) (encode_gens hex_decode n es) h

  pub value-pos :
      (n : ℕ) (v : Value) {bytes : Bytes}
      → encode_value_at hex_decode n v ≡ some bytes
      → 1 ≤ length bytes
  unfolding encode_value_at
  value-pos n unset h = absurd (cc h)
  value-pos n (set s) h = elim (Bool-cases (ltb max_value_depth n)) [
    | inl deep ↦ absurd (cc (rw deep at h))
    | inr fits ↦ sum-pos (n + 1) s (rw fits at h)
  ]

  present-pos :
      (n : ℕ) (v : MaybeValue) {bytes : Bytes}
      → encode_present hex_decode n v ≡ some bytes
      → 1 ≤ length bytes
  unfolding encode_present
  present-pos n missing h = absurd (cc h)
  present-pos n (present v) h = value-pos n v h

  -- No list has more members than its encoding has bytes.
  pub values_len-le :
      (n : ℕ) (vs : Values) {bytes : Bytes}
      → encode_values hex_decode n vs ≡ some bytes
      → values_len vs ≤ length bytes
  unfolding encode_values
  values_len-le n no_values h = omega arith
  values_len-le n (value v vs) h =
      let (front, back, e, e', split) =
        then_both_inv (encode_value_at hex_decode n v) (encode_values hex_decode n vs) h in
      rw split (omega (arith, length-append {0} front back, value-pos n v e, values_len-le n vs e'))

  pub texts_len-le :
      (n : ℕ) (es : TextEntries) {bytes : Bytes}
      → encode_texts hex_decode n es ≡ some bytes
      → texts_len es ≤ length bytes
  unfolding encode_texts
  texts_len-le n no_texts h = omega arith
  texts_len-le n (text_entry k v es) h =
      let (front, back, e, e', split) =
        then_both_inv (bytes_val k then_bytes encode_present hex_decode n v)
          (encode_texts hex_decode n es) h in
      let (inner, e'', split') = then_bytes_inv (bytes_val k) (encode_present hex_decode n v) e in
      rw (split, split')
        (omega (
          arith,
          length-append {0} (bytes_val k ++ inner) back,
          length-append {0} (bytes_val k) inner,
          present-pos n v e'',
          texts_len-le n es e',
        ))

  pub fields_len-le :
      (n : ℕ) (fs : Fields) {bytes : Bytes}
      → encode_fields hex_decode n fs ≡ some bytes
      → fields_len fs ≤ length bytes
  unfolding encode_fields
  fields_len-le n no_fields h = omega arith
  fields_len-le n (field l v fs) h =
      let (front, back, e, e', split) =
        then_both_inv (label_val l then_bytes encode_present hex_decode n v)
          (encode_fields hex_decode n fs) h in
      let (inner, e'', split') = then_bytes_inv (label_val l) (encode_present hex_decode n v) e in
      rw (split, split')
        (omega (
          arith,
          length-append {0} (label_val l ++ inner) back,
          length-append {0} (label_val l) inner,
          present-pos n v e'',
          fields_len-le n fs e',
        ))

  pub gens_len-le :
      (n : ℕ) (es : GenEntries) {bytes : Bytes}
      → encode_gens hex_decode n es ≡ some bytes
      → gens_len es ≤ length bytes
  unfolding encode_gens
  gens_len-le n no_gens h = omega arith
  gens_len-le n (gen_entry k v es) h =
      let (front, back, e, e', split) =
        then_both_inv (encode_present hex_decode n k then_both encode_present hex_decode n v)
          (encode_gens hex_decode n es) h in
      let (one, two, e₁, e₂, split') =
        then_both_inv (encode_present hex_decode n k) (encode_present hex_decode n v) e in
      rw (split, split')
        (omega (
          arith,
          length-append {0} (one ++ two) back,
          length-append {0} one two,
          present-pos n k e₁,
          gens_len-le n es e',
        ))
