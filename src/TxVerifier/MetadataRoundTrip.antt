-- ===== src/TxVerifier/MetadataRoundTrip.antt =====
-- `hash_metadata` of crates/tx-verifier/src/hasher.rs: what its bytes keep of the metadata.
use mathlib.Core.List.{append_assoc}
use silvana_book_agent.Common.{
  ℕ, suc, ◌%◌, ◌^◌, ◌≤◌, ◌<◌, ◌≡◌, refl, sym, subst, Bool, Option, none, some, List, [], ◌∷◌, ◌++◌,
  length, length-append, arith,
}
use silvana_book_agent.TxVerifier.Acc.{
  Bytes, ◌>>=◌, i32_val, i64_val, len_val, bytes_val, sort, string_set,
}
use silvana_book_agent.TxVerifier.Reader.{
  Reads, IsShort, and_then, answer-Reads, read_raw, read_i32, read_i64, read_bytes, read_set,
  read_i32-Reads, read_i64-Reads, read_raw-Reads,
}
use silvana_book_agent.TxVerifier.ValueLengths.{front-IsShort, back-IsShort}
use silvana_book_agent.TxVerifier.ValueParts.{bytes_short, counted-Reads}
use silvana_book_agent.TxVerifier.CreateRoundTrip.{>>=-inv, step-Reads, string_set-Reads}
use silvana_book_agent.TxVerifier.Node.{encode_create_node}
use silvana_book_agent.TxVerifier.Metadata.{
  SubmitterInfo, InputContract, Metadata, metadata_encoding_v1, encode_time, encode_record_time,
  hash_input_contract, encode_input_contracts, encode_metadata,
}
use silvana_book_agent.TxVerifier.Walk.{hash_purpose}
use silvana_book_agent.TxVerifier.MetadataReader.{
  kept_time, MetadataBody, read_time, time-Reads, read_inputs, read_times, read_metadata,
}

-- What the bytes keep of the metadata but `max_record_time`
abbrev pub kept_metadata : Metadata → SubmitterInfo → List (ℕ × Bytes) → MetadataBody
kept_metadata m submitter hashes = record {
  act_as = sort submitter.act_as;
  command_id = submitter.command_id;
  transaction_uuid = m.transaction_uuid;
  mediator_group = m.mediator_group % 2 ^ 32;
  synchronizer_id = m.synchronizer_id;
  min_ledger_effective_time = kept_time m.min_ledger_effective_time;
  max_ledger_effective_time = kept_time m.max_ledger_effective_time;
  preparation_time = m.preparation_time % 2 ^ 64;
  inputs = hashes;
}

-- The same before the times were read
abbrev kept_head : Metadata → SubmitterInfo → MetadataBody
kept_head m submitter = record (kept_metadata m submitter []) {
  min_ledger_effective_time = none;
  max_ledger_effective_time = none;
  preparation_time = 0;
}

abbrev time_bytes : Metadata → Bytes → Bytes
time_bytes m inputs =
    encode_time m.min_ledger_effective_time
    ++ (encode_time m.max_ledger_effective_time
        ++ (i64_val m.preparation_time ++ (len_val (length m.input_contracts) ++ inputs)))

-- All but `max_record_time`
abbrev body_bytes : Metadata → SubmitterInfo → Bytes → Bytes
body_bytes m submitter inputs =
    hash_purpose
    ++ (metadata_encoding_v1
        ∷ (string_set submitter.act_as
            ++ (bytes_val submitter.command_id
                ++ (bytes_val m.transaction_uuid
                    ++ (i32_val m.mediator_group
                        ++ (bytes_val m.synchronizer_id ++ time_bytes m inputs))))))

module _ (hex_decode : Bytes → Option Bytes) (sha256 : Bytes → Bytes) where
  -- The times and hashes of input contracts
  pub input_hashes : List InputContract → Option (List (ℕ × Bytes))
  input_hashes [] = some []
  input_hashes (ic ∷ rest) = do
    h ← hash_input_contract hex_decode sha256 ic
    others ← input_hashes rest
    some ((ic.created_at % 2 ^ 64, h) ∷ others)

  input_hashes-cons :
      (ic : InputContract) (ics : List InputContract) {h : Bytes} {hashes : List (ℕ × Bytes)}
      → hash_input_contract hex_decode sha256 ic ≡ some h
      → input_hashes ics ≡ some hashes
      → input_hashes (ic ∷ ics) ≡ some ((ic.created_at % 2 ^ 64, h) ∷ hashes)
  unfolding input_hashes
  input_hashes-cons ic ics e e' = rw (e, e') refl

  pub input_hashes-nil : {hashes : List (ℕ × Bytes)} → input_hashes [] ≡ some hashes → hashes ≡ []
  unfolding input_hashes
  input_hashes-nil e = cc

  pub input_hashes-inv :
      (ic : InputContract) (ics : List InputContract) {hashes : List (ℕ × Bytes)}
      → input_hashes (ic ∷ ics) ≡ some hashes
      → (h : Bytes) × (others : List (ℕ × Bytes)) × (hash_input_contract hex_decode sha256 ic
          ≡ some h)
        × (input_hashes ics ≡ some others)
        × (hashes ≡ (ic.created_at % 2 ^ 64, h) ∷ others)
  unfolding input_hashes
  input_hashes-inv ic ics e =
      let (h, e₁, f₁) = >>=-inv (hash_input_contract hex_decode sha256 ic) _ e in
      let (others, e₂, f₂) = >>=-inv (input_hashes ics) _ f₁ in (h, others, e₁, e₂, cc)

module _ (hex_decode : Bytes → Option Bytes) (sha256 : Bytes → Bytes)
    (sha256_length : (bytes : Bytes) → length (sha256 bytes) ≡ 32) where
  input-length :
      (ic : InputContract) {h : Bytes}
      → hash_input_contract hex_decode sha256 ic ≡ some h
      → length h ≡ 32
  unfolding hash_input_contract
  input-length ic {h} e =
      let (c, e₁, f₁) = >>=-inv ic.contract _ e in
      let (bytes, e₂, f₂) = >>=-inv (encode_create_node hex_decode c none) _ f₁ in
      let whole : sha256 (0x01 ∷ bytes) ≡ h = cc f₂ in
      subst (λ b. length b ≡ 32) whole (sha256_length (0x01 ∷ bytes))

  raw-Reads : (h : Bytes) → length h ≡ 32 → Reads (read_raw 32) h h
  raw-Reads h e = subst (λ (n : ℕ). Reads (read_raw n) h h) e (read_raw-Reads h)

  inputs-Reads :
      (ics : List InputContract) {bytes : Bytes}
      → encode_input_contracts hex_decode sha256 ics ≡ some bytes
      → (hashes : List (ℕ × Bytes)) × (input_hashes hex_decode sha256 ics ≡ some hashes)
        × (length ics ≤ length bytes)
        × (IsShort bytes → Reads (read_inputs (length ics)) bytes hashes)
  unfolding encode_input_contracts read_inputs
  inputs-Reads [] {bytes} e =
      let whole : [] ≡ bytes = cc e in
      (
        [],
        unfold input_hashes in refl,
        omega arith,
        λ _. subst (λ (bs : Bytes). Reads (read_inputs 0) bs []) whole (λ rest. refl),
      )
  inputs-Reads (ic ∷ ics) {bytes} e =
      let (h, e₁, f₁) = >>=-inv (hash_input_contract hex_decode sha256 ic) _ e in
      let (others, e₂, f₂) = >>=-inv (encode_input_contracts hex_decode sha256 ics) _ f₁ in
      let at : Bytes = i64_val ic.created_at in
      let whole : at ++ (h ++ others) ≡ bytes = cc f₂ in
      let len = input-length ic e₁ in
      let t = ic.created_at % 2 ^ 64 in
      let (hashes, e₃, count, reads) = inputs-Reads ics e₂ in
      (
        (t, h) ∷ hashes,
        input_hashes-cons hex_decode sha256 ic ics e₁ e₃,
        subst (λ (bs : Bytes). suc (length ics) ≤ length bs) whole
            (omega (arith, length-append {0} at (h ++ others), length-append {0} h others, len)),
        λ short.
            subst (λ bs. Reads (read_inputs (suc (length ics))) bs ((t, h) ∷ hashes)) whole
              (step-Reads read_i64 _ at (h ++ others) t ((t, h) ∷ hashes)
                (subst IsShort (sym whole) short) (λ _. read_i64-Reads ic.created_at)
                (λ short.
                  step-Reads (read_raw 32) _ h others h ((t, h) ∷ hashes) short
                    (λ _. raw-Reads h len)
                    (λ short.
                      answer-Reads (λ rest. (t, h) ∷ rest) (read_inputs (length ics)) others hashes
                        (reads short)))),
      )

  -- The times and the inputs, behind the strings
  times-Reads :
      (m : Metadata) (submitter : SubmitterInfo) (inputs : Bytes) (hashes : List (ℕ × Bytes))
      → length m.input_contracts ≤ length inputs
      → (IsShort inputs → Reads (read_inputs (length m.input_contracts)) inputs hashes)
      → IsShort (time_bytes m inputs)
      → Reads
          (read_times (kept_head m submitter))
          (time_bytes m inputs)
          (kept_metadata m submitter hashes)
  unfolding read_times
  times-Reads m submitter inputs hashes count reads short =
      let n = length m.input_contracts in
      let view = kept_metadata m submitter hashes in
      step-Reads read_time _ (encode_time m.min_ledger_effective_time) _
        (kept_time m.min_ledger_effective_time) view short
        (λ _. time-Reads m.min_ledger_effective_time)
        (λ short.
          step-Reads read_time _ (encode_time m.max_ledger_effective_time) _
            (kept_time m.max_ledger_effective_time) view short
            (λ _. time-Reads m.max_ledger_effective_time)
            (λ short.
              step-Reads read_i64 _ (i64_val m.preparation_time) _ (m.preparation_time % 2 ^ 64)
                view short (λ _. read_i64-Reads m.preparation_time)
                (λ short.
                  answer-Reads (λ hs. kept_metadata m submitter hs) (and_then read_i32 read_inputs)
                    (len_val n ++ inputs) hashes
                    (counted-Reads read_inputs n inputs hashes count short reads))))

  body-Reads :
      (m : Metadata) (submitter : SubmitterInfo) {inputs : Bytes}
      → encode_input_contracts hex_decode sha256 m.input_contracts ≡ some inputs
      → IsShort (body_bytes m submitter inputs)
      → (hashes : List (ℕ × Bytes)) × (input_hashes hex_decode sha256 m.input_contracts
          ≡ some hashes)
        × Reads read_metadata (body_bytes m submitter inputs) (kept_metadata m submitter hashes)
  unfolding read_metadata read_raw
  body-Reads m submitter {inputs} e short =
      let (hashes, e', count, reads) = inputs-Reads m.input_contracts e in
      let view = kept_metadata m submitter hashes in
      let n = length m.input_contracts in
      (
        hashes,
        e',
        step-Reads read_set _ (string_set submitter.act_as) _ (sort submitter.act_as) view
            (back-IsShort (hash_purpose ++ (metadata_encoding_v1 ∷ [])) _ short)
            (string_set-Reads submitter.act_as)
            (λ short.
              step-Reads read_bytes _ (bytes_val submitter.command_id) _ submitter.command_id view
                short (bytes_short submitter.command_id)
                (λ short.
                  step-Reads read_bytes _ (bytes_val m.transaction_uuid) _ m.transaction_uuid view
                    short (bytes_short m.transaction_uuid)
                    (λ short.
                      step-Reads read_i32 _ (i32_val m.mediator_group) _ (m.mediator_group % 2 ^ 32)
                        view short (λ _. read_i32-Reads m.mediator_group)
                        (λ short.
                          step-Reads read_bytes _ (bytes_val m.synchronizer_id) _ m.synchronizer_id
                            view short (bytes_short m.synchronizer_id)
                            (times-Reads m submitter inputs hashes (omega (arith, count))
                              reads))))),
      )

  -- If the bytes of the metadata are less than 4 GiB, then reading them gives back the metadata as kept
  -- (parties sorted, integers at their width, the input contracts by time and hash), and leaves
  -- just the bytes of `max_record_time`.
  pub read_metadata-encode_metadata :
      (m : Metadata) (is_v3 : Bool) {bytes : Bytes}
      → encode_metadata hex_decode sha256 m is_v3 ≡ some bytes
      → length bytes < 2 ^ 32
      → (submitter : SubmitterInfo) × (hashes : List (ℕ × Bytes)) × (m.submitter_info
          ≡ some submitter)
        × (input_hashes hex_decode sha256 m.input_contracts ≡ some hashes)
        × (read_metadata bytes
            ≡ some (kept_metadata m submitter hashes, encode_record_time is_v3 m.max_record_time))
  unfolding encode_metadata
  read_metadata-encode_metadata m is_v3 {bytes} e short =
      let (submitter, e₁, f₁) = >>=-inv m.submitter_info _ e in
      let (inputs, e₂, f₂) =
        >>=-inv (encode_input_contracts hex_decode sha256 m.input_contracts) _ f₁ in
      let tail = encode_record_time is_v3 m.max_record_time in
      let body = body_bytes m submitter inputs in
      let whole : body ++ tail ≡ bytes = simp append_assoc (cc f₂) in
      let (hashes, e₃, reads) =
        body-Reads m submitter e₂ (front-IsShort body tail (subst IsShort (sym whole) short)) in
      let view = kept_metadata m submitter hashes in
      (
        submitter,
        hashes,
        e₁,
        e₃,
        subst (λ bs. read_metadata bs ≡ some (view, tail)) whole (reads tail),
      )
