-- ===== src/TxVerifier/Examples.antt =====
-- The theorems on the transaction hash at concrete inputs: two texts in a list, a created contract, a
-- transaction with one exercise and its child, and metadata that disclose a contract. The hash function of
-- the samples answers 32 zeros, and their contract ids are decoded to themselves.
use mathlib.Core.List.{Permᴰ}
use silvana_book_agent.Common.{
  ◌≡◌, ◌≢◌, ◌⊎◌, refl, true, Option, none, some, [], ◌∷◌, ◌++◌, length, arith,
}
use silvana_book_agent.Common.Text.{Text, codes}
use silvana_book_agent.TxVerifier.Acc.{
  Bytes, Identifier, hex_bytes, i32_val, i64_val, bytes_val, encode_identifier, split_dots,
  strs_val, string_set, sort, insert_string,
}
use silvana_book_agent.TxVerifier.Value.{
  Value, set, list, text, value, no_values, missing, present, encode_value, encode_value_at,
}
use silvana_book_agent.TxVerifier.Node.{
  Create, Exercise, create, exercise, encode_create_node, encode_exercise_node, encode_seed,
}
use silvana_book_agent.TxVerifier.Walk.{
  DamlTransaction, hash_transaction, done, out_of_fuel, is_seen, build_nodes_dict, encode_node_ids,
  hash_node_ids, hash_node, encode_node_type, build_seed_map, to_string,
}
use silvana_book_agent.TxVerifier.Metadata.{
  Metadata, encode_metadata, encode_input_contracts, hash_input_contract, encode_time,
  hash_metadata,
}
use silvana_book_agent.TxVerifier.Verify.{
  PreparedTransaction, compute_final_hash, zeros, passed, parse_hashing_version, InspectionResult,
  VerificationResult,
}
use silvana_book_agent.TxVerifier.ValueReader.{read_value, kept}
use silvana_book_agent.TxVerifier.ValueRoundTrip.{read_value-encode_value}
use silvana_book_agent.TxVerifier.CreateRoundTrip.{
  read_create, kept_create, read_create-encode_create_node,
}
use silvana_book_agent.TxVerifier.Visits.{IsDistinct}
use silvana_book_agent.TxVerifier.Merkle.{TxHashed}
use silvana_book_agent.TxVerifier.Coverage.{Reaches, hash_transaction_ends, hash_transaction_covers}
use silvana_book_agent.TxVerifier.Binding.{Collision, IsSmall, AreSmall, metadata_view}
use silvana_book_agent.TxVerifier.FinalHash.{tx_hash, compute_final_hash_binds}
use silvana_book_agent.TxVerifier.PartySets.{encode_exercise_node_perm}

abbrev identity : Bytes → Option Bytes
identity s = some s

abbrev same : Bytes → Bytes
same s = s

abbrev no_hash : Bytes → Bytes
no_hash s = zeros 32

abbrev pub template : Identifier
template = record { package_id = codes "p"; module_name = codes "A.B"; entity_name = codes "C" }

abbrev two_texts : Value
two_texts = set (list (value (set (text (codes "a"))) (value (set (text (codes "bc"))) no_values)))

abbrev pub holding : Create
holding = record {
  lf_version = codes "2.1";
  contract_id = codes "00";
  package_name = codes "n";
  template_id = some template;
  argument = present two_texts;
  signatories = codes "dso" ∷ codes "bob" ∷ [];
  stakeholders = codes "bob" ∷ [];
}

abbrev transfer : Exercise
transfer = record {
  lf_version = codes "2.1";
  contract_id = codes "00";
  package_name = codes "n";
  template_id = some template;
  signatories = codes "dso" ∷ codes "bob" ∷ [];
  stakeholders = codes "bob" ∷ [];
  acting_parties = codes "bob" ∷ codes "amy" ∷ [];
  interface_id = none;
  choice_id = codes "Transfer";
  chosen_value = present two_texts;
  consuming = true;
  exercise_result = missing;
  choice_observers = [];
  children = codes "1" ∷ [];
}

abbrev transfer_tx : DamlTransaction
transfer_tx = record {
  version = codes "2.1";
  roots = codes "0" ∷ [];
  nodes =
      record { node_id = codes "0"; versioned_node = some (some (exercise transfer)) }
      ∷ record { node_id = codes "1"; versioned_node = some (some (create holding)) }
      ∷ [];
  node_seeds = record { node_id = 0; seed = zeros 32 } ∷ [];
}

abbrev disclosing : Metadata
disclosing = record {
  submitter_info = some (record { act_as = codes "bob" ∷ []; command_id = codes "c" });
  transaction_uuid = codes "u";
  mediator_group = 0;
  synchronizer_id = codes "s";
  min_ledger_effective_time = none;
  max_ledger_effective_time = some 5;
  preparation_time = 7;
  input_contracts = record { created_at = 3; contract = some holding } ∷ [];
  max_record_time = none;
}

abbrev prepared : PreparedTransaction
prepared = record { transaction = some transfer_tx; metadata = some disclosing }

abbrev pub two_texts_bytes : Bytes
two_texts_bytes = 10 ∷ 0 ∷ 0 ∷ 0 ∷ 2 ∷ 7 ∷ 0 ∷ 0 ∷ 0 ∷ 1 ∷ 97 ∷ 7 ∷ 0 ∷ 0 ∷ 0 ∷ 2 ∷ 98 ∷ 99 ∷ []

abbrev holding_bytes : Bytes
holding_bytes =
    0 ∷ 0 ∷ 0 ∷ 3 ∷ 50 ∷ 46 ∷ 49 ∷ 0 ∷ 0 ∷ 0 ∷ 0 ∷ 0 ∷ 2 ∷ 48 ∷ 48 ∷ 0 ∷ 0 ∷ 0 ∷ 1 ∷ 110 ∷ 0 ∷ 0 ∷ 0
    ∷ 1 ∷ 112 ∷ 0 ∷ 0 ∷ 0 ∷ 2 ∷ 0 ∷ 0 ∷ 0 ∷ 1 ∷ 65 ∷ 0 ∷ 0 ∷ 0 ∷ 1 ∷ 66 ∷ 0 ∷ 0 ∷ 0 ∷ 1 ∷ 0 ∷ 0 ∷ 0
    ∷ 1 ∷ 67 ∷ 10 ∷ 0 ∷ 0 ∷ 0 ∷ 2 ∷ 7 ∷ 0 ∷ 0 ∷ 0 ∷ 1 ∷ 97 ∷ 7 ∷ 0 ∷ 0 ∷ 0 ∷ 2 ∷ 98 ∷ 99 ∷ 0 ∷ 0 ∷ 0
    ∷ 2 ∷ 0 ∷ 0 ∷ 0 ∷ 3 ∷ 98 ∷ 111 ∷ 98 ∷ 0 ∷ 0 ∷ 0 ∷ 3 ∷ 100 ∷ 115 ∷ 111 ∷ 0 ∷ 0 ∷ 0 ∷ 1 ∷ 0 ∷ 0
    ∷ 0 ∷ 3 ∷ 98 ∷ 111 ∷ 98 ∷ []

two_texts_encoded : encode_value identity two_texts ≡ some two_texts_bytes
unfolding encode_value encode_value_at i32_val bytes_val
two_texts_encoded = refl

holding_encoded : encode_create_node identity holding none ≡ some holding_bytes
unfolding encode_create_node hex_bytes encode_value encode_value_at i32_val bytes_val encode_seed
    encode_identifier split_dots strs_val string_set sort insert_string
holding_encoded = refl

read_value-encode_value_example :
    read_value same 128 (two_texts_bytes ++ codes "rest")
    ≡ some (kept identity same two_texts, codes "rest")
read_value-encode_value_example =
    read_value-encode_value identity same two_texts two_texts_bytes (codes "rest") two_texts_encoded
      (omega arith)

read_create-encode_create_node_example :
    read_create same (holding_bytes ++ []) ≡ some ((kept_create identity same holding, none), [])
read_create-encode_create_node_example =
    read_create-encode_create_node identity same holding none holding_bytes [] tt holding_encoded
      (omega arith)

hash_transaction_ends_example : hash_transaction identity no_hash transfer_tx ≢ out_of_fuel
hash_transaction_ends_example = hash_transaction_ends identity no_hash transfer_tx

transfer_tx_hashed :
    hash_transaction identity no_hash transfer_tx ≡ done (zeros 32, codes "1" ∷ codes "0" ∷ [])
unfolding hash_transaction encode_node_ids hash_node_ids build_nodes_dict hash_node encode_node_type
    build_seed_map to_string encode_exercise_node hex_bytes encode_value encode_value_at
    encode_create_node
transfer_tx_hashed = refl

hash_transaction_covers_example :
    TxHashed identity no_hash transfer_tx (zeros 32)
    × IsDistinct (codes "1" ∷ codes "0" ∷ [])
    × ((id : Bytes)
        → Reaches (build_nodes_dict [] transfer_tx.nodes) (codes "0" ∷ []) id
        → is_seen id (codes "1" ∷ codes "0" ∷ []) ≡ true)
hash_transaction_covers_example =
    hash_transaction_covers identity no_hash transfer_tx (zeros 32) (codes "1" ∷ codes "0" ∷ [])
      transfer_tx_hashed

prepared_hashed : compute_final_hash identity no_hash prepared (codes "V3") ≡ done (zeros 32)
unfolding compute_final_hash hash_transaction encode_node_ids hash_node_ids build_nodes_dict
    hash_node encode_node_type build_seed_map to_string encode_exercise_node hex_bytes encode_value
    encode_value_at encode_create_node hash_metadata encode_metadata encode_input_contracts
    hash_input_contract
prepared_hashed = refl

disclosing-IsSmall :
    IsSmall (encode_metadata identity no_hash disclosing (parse_hashing_version (codes "V3")))
unfolding encode_metadata encode_input_contracts hash_input_contract encode_create_node hex_bytes
    encode_value encode_value_at string_set i32_val strs_val sort insert_string bytes_val
    encode_time i64_val parse_hashing_version
disclosing-IsSmall = omega arith

inputs-AreSmall : AreSmall identity same disclosing.input_contracts
unfolding encode_create_node hex_bytes encode_value encode_value_at i32_val bytes_val encode_seed
    encode_identifier split_dots strs_val string_set sort insert_string
inputs-AreSmall = omega arith

no_hash-length : (bytes : Bytes) → length (no_hash bytes) ≡ 32
no_hash-length bytes = refl

compute_final_hash_binds_example :
    ((tx_hash (hash_transaction identity no_hash transfer_tx)
        ≡ tx_hash (hash_transaction identity no_hash transfer_tx))
      × (metadata_view identity same disclosing (parse_hashing_version (codes "V3"))
          ≡ metadata_view identity same disclosing (parse_hashing_version (codes "V3"))))
    ⊎ Collision no_hash
compute_final_hash_binds_example =
    compute_final_hash_binds identity same no_hash no_hash-length transfer_tx transfer_tx disclosing
      disclosing (codes "V3") (codes "V3") prepared_hashed prepared_hashed disclosing-IsSmall
      disclosing-IsSmall inputs-AreSmall inputs-AreSmall

encode_exercise_node_perm_example :
    encode_exercise_node identity
      (record transfer {
        signatories = codes "bob" ∷ codes "dso" ∷ [];
        stakeholders = codes "bob" ∷ [];
        acting_parties = codes "amy" ∷ codes "bob" ∷ [];
        choice_observers = [];
      })
      (zeros 32)
    ≡ encode_exercise_node identity transfer (zeros 32)
encode_exercise_node_perm_example =
    encode_exercise_node_perm identity transfer (zeros 32) (Permᴰ.swap refl refl)
      (Permᴰ.cons refl Permᴰ.nil) (Permᴰ.swap refl refl) Permᴰ.nil

abbrev one_hash : Bytes → Bytes
one_hash s = 1 ∷ zeros 31

abbrev inspected : InspectionResult
inspected = record { accepted = true; summary = codes "ok"; warnings = []; rejection_reason = none }

abbrev decoder : Bytes → Option PreparedTransaction
decoder bytes = some prepared

abbrev matched : VerificationResult
matched = passed inspected (1 ∷ zeros 31) (codes "\nHash verified — MATCH.") []
