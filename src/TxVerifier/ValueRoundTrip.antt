-- ===== src/TxVerifier/ValueRoundTrip.antt =====
-- The encoding of values in crates/tx-verifier/src/hasher.rs is read back: nothing of a value is lost in
-- the bytes that are hashed.
use silvana_book_agent.Common.{
  ℕ, zero, suc, ◌+◌, ◌%◌, ◌^◌, ◌<◌, ◌≡◌, refl, subst, true, false, Option, some, [], ◌∷◌, ◌++◌,
  length, arith, ltb, Bool-cases, Option-cases, inl, inr,
}
use silvana_book_agent.TxVerifier.Acc.{
  Bytes, i32_val, i64_val, len_val, bytes_val, hex_bytes, encode_optional_identifier,
}
use silvana_book_agent.TxVerifier.Reader.{
  Reader, Reads, IsShort, and_then, answer, and_then-Reads, answer-Reads, read_byte, read_i32,
  read_i64, read_bytes, read_optional, len-Reads, read_i32-Reads, read_i64-Reads,
  optional_identifier-Reads,
}
use silvana_book_agent.TxVerifier.Value.{
  Value, set, unset, Sum, unit, bool, int64, numeric, timestamp, date, party, text, contract_id,
  optional, list, text_map, record_fields, variant, enum, gen_map, MaybeValue, missing, present,
  Values, no_values, value, TextEntries, no_texts, text_entry, Fields, no_fields, field, GenEntries,
  no_gens, gen_entry, ◌then_bytes◌, ◌then_both◌, label_val, values_len, texts_len, fields_len,
  gens_len, encode_value_at, encode_sum, encode_present, encode_values, encode_texts, encode_fields,
  encode_gens, max_value_depth, encode_value,
}
use silvana_book_agent.TxVerifier.ValueReader.{
  read_sum, read_tagged, read_value, read_values, read_texts, read_fields, read_gens, read_id, kept,
  kept_sum, kept_maybe, kept_values, kept_texts, kept_fields, kept_gens, kept_id, or_empty, with_id,
  with_key, read_present,
}
use silvana_book_agent.TxVerifier.ValueLengths.{
  front-IsShort, back-IsShort, values_len-le, texts_len-le, fields_len-le, gens_len-le,
}
use silvana_book_agent.TxVerifier.ValueParts.{
  whole-Reads, behind-Reads, both-Reads, then-Reads, counted-Reads, bytes_short, label-Reads,
}

module _ (hex_decode : Bytes → Option Bytes) (render : Bytes → Bytes) where
  contract-Reads :
      (rv : Reader Value) (s : Bytes) {bytes : Bytes}
      → ((0x08 ∷ []) then_bytes hex_bytes hex_decode s) ≡ some bytes
      → IsShort bytes
      → Reads (read_tagged render rv) bytes (contract_id (kept_id hex_decode render s))
  unfolding hex_bytes read_sum read_byte
  contract-Reads rv s {bytes} h short = elim (Option-cases (hex_decode s)) [
    | inl bad ↦ absurd (cc (rw bad at h))
    | inr (decoded, e) ↦
        whole-Reads (read_tagged render rv) (contract_id (kept_id hex_decode render s)) 0x08
          (bytes_val decoded) (rw e at h) short
          (λ sh.
            rw (e, kept_id)
              (answer-Reads (λ t. contract_id (render t)) read_bytes (bytes_val decoded) decoded
                (bytes_short decoded sh)))
  ]

  abbrev tagged : ℕ → Reader Sum
  tagged d = read_tagged render (read_value render d)

  mutual
    unfolding encode_value_at kept read_value read_sum read_byte read_optional read_values
        read_texts read_fields read_gens

    value-Reads :
        (d n : ℕ) (v : Value) {bytes : Bytes}
        → n + d ≡ 129
        → encode_value_at hex_decode n v ≡ some bytes
        → IsShort bytes
        → Reads (read_value render d) bytes (kept hex_decode render v)
    value-Reads d n unset e h short = absurd (cc h)
    value-Reads zero n (set s) e h short =
        let deep : ltb max_value_depth n ≡ true = ground arith in absurd (cc (rw deep at h))
    value-Reads (suc d) n (set s) {bytes} e h short = elim (Bool-cases (ltb max_value_depth n)) [
      | inl deep ↦ absurd (cc (rw deep at h))
      | inr fits ↦
          answer-Reads set (tagged d) bytes (kept_sum hex_decode render s)
            (sum-Reads d (n + 1) s (omega arith) (rw fits at h) short)
    ]

    sum-Reads :
        (d n : ℕ) (s : Sum) {bytes : Bytes}
        → n + d ≡ 129
        → encode_sum hex_decode n s ≡ some bytes
        → IsShort bytes
        → Reads (tagged d) bytes (kept_sum hex_decode render s)
    sum-Reads d n unit e h short = whole-Reads (tagged d) unit 0x00 [] h short (λ sh rest. refl)
    sum-Reads d n (bool true) e h short =
        whole-Reads (tagged d) (bool true) 0x01 (1 ∷ []) h short (λ sh rest. refl)
    sum-Reads d n (bool false) e h short =
        whole-Reads (tagged d) (bool false) 0x01 (0 ∷ []) h short (λ sh rest. refl)
    sum-Reads d n (int64 v) e h short =
        whole-Reads (tagged d) (int64 (v % 2 ^ 64)) 0x02 (i64_val v) h short
          (λ sh. answer-Reads int64 read_i64 (i64_val v) (v % 2 ^ 64) (read_i64-Reads v))
    sum-Reads d n (numeric s) e h short =
        whole-Reads (tagged d) (numeric s) 0x03 (bytes_val s) h short
          (λ sh. answer-Reads numeric read_bytes (bytes_val s) s (bytes_short s sh))
    sum-Reads d n (timestamp v) e h short =
        whole-Reads (tagged d) (timestamp (v % 2 ^ 64)) 0x04 (i64_val v) h short
          (λ sh. answer-Reads timestamp read_i64 (i64_val v) (v % 2 ^ 64) (read_i64-Reads v))
    sum-Reads d n (date v) e h short =
        whole-Reads (tagged d) (date (v % 2 ^ 32)) 0x05 (i32_val v) h short
          (λ sh. answer-Reads date read_i32 (i32_val v) (v % 2 ^ 32) (read_i32-Reads v))
    sum-Reads d n (party s) e h short =
        whole-Reads (tagged d) (party s) 0x06 (bytes_val s) h short
          (λ sh. answer-Reads party read_bytes (bytes_val s) s (bytes_short s sh))
    sum-Reads d n (text s) e h short =
        whole-Reads (tagged d) (text s) 0x07 (bytes_val s) h short
          (λ sh. answer-Reads text read_bytes (bytes_val s) s (bytes_short s sh))
    sum-Reads d n (contract_id s) e h short = contract-Reads (read_value render d) s h short
    sum-Reads d n (optional missing) e h short =
        whole-Reads (tagged d) (optional missing) 0x09 (0 ∷ []) h short (λ sh rest. refl)
    sum-Reads d n (optional (present v)) e h short =
        behind-Reads (tagged d) (optional (present (kept hex_decode render v))) 0x09 (0x01 ∷ [])
          (encode_value_at hex_decode n v) h short
          (λ back e' sh rest.
            rw (value-Reads d n v e e' (back-IsShort (0x01 ∷ []) back sh) rest) refl)
    sum-Reads d n (list vs) e h short =
        behind-Reads (tagged d) (list (kept_values hex_decode render vs)) 0x0a
          (len_val (values_len vs)) (encode_values hex_decode n vs) h short
          (λ back e' sh.
            answer-Reads list (and_then read_i32 (read_values (read_value render d)))
              (len_val (values_len vs) ++ back) (kept_values hex_decode render vs)
              (counted-Reads (read_values (read_value render d)) (values_len vs) back
                (kept_values hex_decode render vs) (values_len-le hex_decode n vs e') sh
                (values-Reads d n vs e e')))
    sum-Reads d n (text_map es) e h short =
        behind-Reads (tagged d) (text_map (kept_texts hex_decode render es)) 0x0b
          (len_val (texts_len es)) (encode_texts hex_decode n es) h short
          (λ back e' sh.
            answer-Reads text_map (and_then read_i32 (read_texts (read_value render d)))
              (len_val (texts_len es) ++ back) (kept_texts hex_decode render es)
              (counted-Reads (read_texts (read_value render d)) (texts_len es) back
                (kept_texts hex_decode render es) (texts_len-le hex_decode n es e') sh
                (texts-Reads d n es e e')))
    sum-Reads d n (record_fields id fs) e h short =
        behind-Reads (tagged d) (record_fields id (kept_fields hex_decode render fs)) 0x0c
          (encode_optional_identifier id ++ len_val (fields_len fs)) (encode_fields hex_decode n fs)
          h short
          (λ back e' sh.
            let front = encode_optional_identifier id in
            let k = fields_len fs in
            let sh' = front-IsShort (front ++ len_val k) back sh in
            let sh'' = back-IsShort (front ++ len_val k) back sh in
            and_then-Reads (with_id read_i32) _ (front ++ len_val k) back (id, k)
              (record_fields id (kept_fields hex_decode render fs))
              (and_then-Reads read_id _ front (len_val k) id (id, k)
                (optional_identifier-Reads id (front-IsShort front (len_val k) sh'))
                (answer-Reads (λ m. (id, m)) read_i32 (len_val k) k
                  (len-Reads k (omega (arith, fields_len-le hex_decode n fs e')))))
              (answer-Reads (record_fields id) (read_fields (read_value render d) k) back
                (kept_fields hex_decode render fs) (fields-Reads d n fs e e' sh'')))
    sum-Reads d n (variant id c v) e h short =
        behind-Reads (tagged d) (variant id c (kept_maybe hex_decode render v)) 0x0d
          (encode_optional_identifier id ++ bytes_val c) (encode_present hex_decode n v) h short
          (λ back e' sh.
            let front = encode_optional_identifier id in
            let sh' = front-IsShort (front ++ bytes_val c) back sh in
            and_then-Reads (with_id read_bytes) _ (front ++ bytes_val c) back (id, c)
              (variant id c (kept_maybe hex_decode render v))
              (and_then-Reads read_id _ front (bytes_val c) id (id, c)
                (optional_identifier-Reads id (front-IsShort front (bytes_val c) sh'))
                (answer-Reads (λ t. (id, t)) read_bytes (bytes_val c) c
                  (bytes_short c (back-IsShort front (bytes_val c) sh'))))
              (answer-Reads (variant id c) (read_present (read_value render d)) back
                (kept_maybe hex_decode render v)
                (present-Reads d n v e e' (back-IsShort (front ++ bytes_val c) back sh))))
    sum-Reads d n (enum id c) e h short =
        whole-Reads (tagged d) (enum id c) 0x0e (encode_optional_identifier id ++ bytes_val c) h
          short
          (λ sh.
            let front = encode_optional_identifier id in
            and_then-Reads read_id _ front (bytes_val c) id (enum id c)
              (optional_identifier-Reads id (front-IsShort front (bytes_val c) sh))
              (answer-Reads (enum id) read_bytes (bytes_val c) c
                (bytes_short c (back-IsShort front (bytes_val c) sh))))
    sum-Reads d n (gen_map es) e h short =
        behind-Reads (tagged d) (gen_map (kept_gens hex_decode render es)) 0x0f
          (len_val (gens_len es)) (encode_gens hex_decode n es) h short
          (λ back e' sh.
            answer-Reads gen_map (and_then read_i32 (read_gens (read_value render d)))
              (len_val (gens_len es) ++ back) (kept_gens hex_decode render es)
              (counted-Reads (read_gens (read_value render d)) (gens_len es) back
                (kept_gens hex_decode render es) (gens_len-le hex_decode n es e') sh
                (gens-Reads d n es e e')))

    -- A value that has to be there
    present-Reads :
        (d n : ℕ) (v : MaybeValue) {bytes : Bytes}
        → n + d ≡ 129
        → encode_present hex_decode n v ≡ some bytes
        → IsShort bytes
        → Reads (answer present (read_value render d)) bytes (kept_maybe hex_decode render v)
    present-Reads d n missing e h short = absurd (cc h)
    present-Reads d n (present v) {bytes} e h short =
        answer-Reads present (read_value render d) bytes (kept hex_decode render v)
          (value-Reads d n v e h short)

    values-Reads :
        (d n : ℕ) (vs : Values) {bytes : Bytes}
        → n + d ≡ 129
        → encode_values hex_decode n vs ≡ some bytes
        → IsShort bytes
        → Reads
            (read_values (read_value render d) (values_len vs))
            bytes
            (kept_values hex_decode render vs)
    values-Reads d n no_values {bytes} e h short =
        let e' : [] ≡ bytes = cc h in
        subst (λ (bs : Bytes). Reads (read_values (read_value render d) 0) bs no_values) e'
          (λ rest. refl)
    values-Reads d n (value v vs) e h short =
        let rv = read_value render d in
        let v' = kept hex_decode render v in
        let vs' = kept_values hex_decode render vs in
        both-Reads (read_values rv (suc (values_len vs))) (value v' vs')
          (encode_value_at hex_decode n v) (encode_values hex_decode n vs) h short
          (λ front back e₁ e₂ s₁ s₂.
            and_then-Reads rv (λ w. answer (value w) (read_values rv (values_len vs))) front back v'
              (value v' vs') (value-Reads d n v e e₁ s₁)
              (answer-Reads (value v') (read_values rv (values_len vs)) back vs'
                (values-Reads d n vs e e₂ s₂)))

    texts-Reads :
        (d n : ℕ) (es : TextEntries) {bytes : Bytes}
        → n + d ≡ 129
        → encode_texts hex_decode n es ≡ some bytes
        → IsShort bytes
        → Reads
            (read_texts (read_value render d) (texts_len es))
            bytes
            (kept_texts hex_decode render es)
    texts-Reads d n no_texts {bytes} e h short =
        let e' : [] ≡ bytes = cc h in
        subst (λ (bs : Bytes). Reads (read_texts (read_value render d) 0) bs no_texts) e'
          (λ rest. refl)
    texts-Reads d n (text_entry k v es) e h short =
        let rv = read_value render d in
        let v' = kept_maybe hex_decode render v in
        let es' = kept_texts hex_decode render es in
        both-Reads (read_texts rv (suc (texts_len es))) (text_entry k v' es')
          ((bytes_val k) then_bytes encode_present hex_decode n v) (encode_texts hex_decode n es) h
          short
          (λ front back e₁ e₂ s₁ s₂.
            and_then-Reads (with_key rv read_bytes) _ front back (k, v') (text_entry k v' es')
              (then-Reads (with_key rv read_bytes) (k, v') (bytes_val k)
                (encode_present hex_decode n v) e₁ s₁
                (λ inner e' t₁ t₂.
                  and_then-Reads read_bytes _ (bytes_val k) inner k (k, v') (bytes_short k t₁)
                    (answer-Reads (λ w. (k, w)) (read_present rv) inner v'
                      (present-Reads d n v e e' t₂))))
              (answer-Reads (text_entry k v') (read_texts rv (texts_len es)) back es'
                (texts-Reads d n es e e₂ s₂)))

    fields-Reads :
        (d n : ℕ) (es : Fields) {bytes : Bytes}
        → n + d ≡ 129
        → encode_fields hex_decode n es ≡ some bytes
        → IsShort bytes
        → Reads
            (read_fields (read_value render d) (fields_len es))
            bytes
            (kept_fields hex_decode render es)
    fields-Reads d n no_fields {bytes} e h short =
        let e' : [] ≡ bytes = cc h in
        subst (λ (bs : Bytes). Reads (read_fields (read_value render d) 0) bs no_fields) e'
          (λ rest. refl)
    fields-Reads d n (field k v es) e h short =
        let rv = read_value render d in
        let v' = kept_maybe hex_decode render v in
        let es' = kept_fields hex_decode render es in
        both-Reads (read_fields rv (suc (fields_len es))) (field k v' es')
          ((label_val k) then_bytes encode_present hex_decode n v) (encode_fields hex_decode n es) h
          short
          (λ front back e₁ e₂ s₁ s₂.
            and_then-Reads (with_key rv (answer or_empty (read_optional read_bytes))) _ front back
              (k, v') (field k v' es')
              (then-Reads (with_key rv (answer or_empty (read_optional read_bytes))) (k, v')
                (label_val k) (encode_present hex_decode n v) e₁ s₁
                (λ inner e' t₁ t₂.
                  and_then-Reads (answer or_empty (read_optional read_bytes)) _ (label_val k) inner
                    k (k, v') (label-Reads k t₁)
                    (answer-Reads (λ w. (k, w)) (read_present rv) inner v'
                      (present-Reads d n v e e' t₂))))
              (answer-Reads (field k v') (read_fields rv (fields_len es)) back es'
                (fields-Reads d n es e e₂ s₂)))

    gens-Reads :
        (d n : ℕ) (es : GenEntries) {bytes : Bytes}
        → n + d ≡ 129
        → encode_gens hex_decode n es ≡ some bytes
        → IsShort bytes
        → Reads
            (read_gens (read_value render d) (gens_len es))
            bytes
            (kept_gens hex_decode render es)
    gens-Reads d n no_gens {bytes} e h short =
        let e' : [] ≡ bytes = cc h in
        subst (λ (bs : Bytes). Reads (read_gens (read_value render d) 0) bs no_gens) e'
          (λ rest. refl)
    gens-Reads d n (gen_entry k v es) e h short =
        let rv = read_value render d in
        let k' = kept_maybe hex_decode render k in
        let v' = kept_maybe hex_decode render v in
        let es' = kept_gens hex_decode render es in
        both-Reads (read_gens rv (suc (gens_len es))) (gen_entry k' v' es')
          (encode_present hex_decode n k then_both encode_present hex_decode n v)
          (encode_gens hex_decode n es) h short
          (λ front back e₁ e₂ s₁ s₂.
            and_then-Reads (with_key rv (read_present rv)) _ front back (k', v')
              (gen_entry k' v' es')
              (both-Reads (with_key rv (read_present rv)) (k', v') (encode_present hex_decode n k)
                (encode_present hex_decode n v) e₁ s₁
                (λ one two f₁ f₂ t₁ t₂.
                  and_then-Reads (read_present rv) _ one two k' (k', v')
                    (present-Reads d n k e f₁ t₁)
                    (answer-Reads (λ w. (k', w)) (read_present rv) two v'
                      (present-Reads d n v e f₂ t₂))))
              (answer-Reads (gen_entry k' v') (read_gens rv (gens_len es)) back es'
                (gens-Reads d n es e e₂ s₂)))

  -- If a value is encoded, in less than 4 GiB, then reading the bytes, with whatever follows them,
  -- gives back the value as kept (integers at their width, contract ids in the form that `render`
  -- writes) and leaves what follows. Reading to the depth of 128 that the encoder allows is
  -- enough, whatever the depth of the value.
  pub read_value-encode_value :
      (v : Value) (bytes rest : Bytes)
      → encode_value hex_decode v ≡ some bytes
      → length bytes < 2 ^ 32
      → read_value render 128 (bytes ++ rest) ≡ some (kept hex_decode render v, rest)
  unfolding encode_value
  read_value-encode_value v bytes rest e short = value-Reads 128 1 v refl e short rest
