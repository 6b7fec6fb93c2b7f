-- ===== src/TxVerifier/Metadata.antt =====
-- The metadata of a prepared transaction and its hash: `hash_metadata` of
-- crates/tx-verifier/src/hasher.rs.
use silvana_book_agent.Common.{
  ℕ, Bool, Option, none, some, List, [], ◌∷◌, ◌++◌, length, if◌then◌else◌,
}
use silvana_book_agent.TxVerifier.Acc.{
  Bytes, ◌>>=◌, i32_val, i64_val, len_val, bytes_val, string_set,
}
use silvana_book_agent.TxVerifier.Node.{Create, encode_create_node}
use silvana_book_agent.TxVerifier.Walk.{hash_purpose, node_encoding_v1}

pub record SubmitterInfo : Type 0 where
  pub act_as : List Bytes
  pub command_id : Bytes

pub record InputContract : Type 0 where
  pub created_at : ℕ
  pub contract : Option Create

pub record Metadata : Type 0 where
  pub submitter_info : Option SubmitterInfo
  pub transaction_uuid : Bytes
  pub mediator_group : ℕ
  pub synchronizer_id : Bytes
  pub min_ledger_effective_time : Option ℕ
  pub max_ledger_effective_time : Option ℕ
  pub preparation_time : ℕ
  pub input_contracts : List InputContract
  pub max_record_time : Option ℕ

abbrev pub metadata_encoding_v1 : ℕ
metadata_encoding_v1 = 0x01

-- `u64_val` behind a byte that tells whether there is one
unfoldable pub encode_time : Option ℕ → Bytes
encode_time (some v) = 0x01 ∷ i64_val v
encode_time none = 0x00 ∷ []

-- `max_record_time` is a part from version 3 on.
abbrev pub encode_record_time : Bool → Option ℕ → Bytes
encode_record_time is_v3 t = if is_v3 then encode_time t else []

module _ (hex_decode : Bytes → Option Bytes) (sha256 : Bytes → Bytes) where
  -- Disclosed contracts have no seed.
  unfoldable pub hash_input_contract : InputContract → Option Bytes
  hash_input_contract ic = do
    c ← ic.contract
    bytes ← encode_create_node hex_decode c none
    some (sha256 (node_encoding_v1 ∷ bytes))

  unfoldable pub encode_input_contracts : List InputContract → Option Bytes
  encode_input_contracts [] = some []
  encode_input_contracts (ic ∷ rest) = do
    h ← hash_input_contract ic
    others ← encode_input_contracts rest
    some (i64_val ic.created_at ++ (h ++ others))

  -- The bytes that are hashed
  unfoldable pub encode_metadata : Metadata → Bool → Option Bytes
  encode_metadata m is_v3 = do
    submitter ← m.submitter_info
    inputs ← encode_input_contracts m.input_contracts
    some (
        hash_purpose
        ++ (metadata_encoding_v1
            ∷ (string_set submitter.act_as
                ++ (bytes_val submitter.command_id
                    ++ (bytes_val m.transaction_uuid
                        ++ (i32_val m.mediator_group
                            ++ (bytes_val m.synchronizer_id
                                ++ (encode_time m.min_ledger_effective_time
                                    ++ (encode_time m.max_ledger_effective_time
                                        ++ (i64_val m.preparation_time
                                            ++ (len_val (length m.input_contracts)
                                                ++ (inputs
                                                    ++ encode_record_time is_v3
                                                        m.max_record_time))))))))))))

  unfoldable pub hash_metadata : Metadata → Bool → Option Bytes
  hash_metadata m is_v3 = do bytes ← encode_metadata m is_v3; some (sha256 bytes)
