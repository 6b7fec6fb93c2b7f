-- ===== src/TxVerifier/MetadataReader.antt =====
-- A reader of the bytes of `hash_metadata` of crates/tx-verifier/src/hasher.rs.
use silvana_book_agent.Common.{ℕ, zero, suc, ◌%◌, ◌^◌, refl, Option, none, some, List, [], ◌∷◌}
use silvana_book_agent.TxVerifier.Acc.{Bytes}
use silvana_book_agent.TxVerifier.Reader.{
  Reader, Reads, and_then, answer, read_byte, read_raw, read_i32, read_i64, read_bytes, read_set,
  read_optional, read_i64-Reads,
}
use silvana_book_agent.TxVerifier.Metadata.{encode_time}

abbrev pub kept_time : Option ℕ → Option ℕ
kept_time none = none
kept_time (some v) = some (v % 2 ^ 64)

-- What is read of the metadata: the parties as a set, the inputs by their times and hashes. The last
-- part, `max_record_time`, is left.
pub record MetadataBody : Type 0 where
  pub act_as : List Bytes
  pub command_id : Bytes
  pub transaction_uuid : Bytes
  pub mediator_group : ℕ
  pub synchronizer_id : Bytes
  pub min_ledger_effective_time : Option ℕ
  pub max_ledger_effective_time : Option ℕ
  pub preparation_time : ℕ
  pub inputs : List (ℕ × Bytes)

unfoldable pub read_time : Reader (Option ℕ)
read_time = read_optional read_i64

pub time-Reads : (t : Option ℕ) → Reads read_time (encode_time t) (kept_time t)
unfolding read_time read_optional read_byte encode_time
time-Reads none rest = refl
time-Reads (some v) rest = rw (read_i64-Reads v rest) refl

unfoldable pub read_inputs : ℕ → Reader (List (ℕ × Bytes))
read_inputs zero bytes = some ([], bytes)
read_inputs (suc n) bytes =
    and_then read_i64
      (λ t. and_then (read_raw 32) (λ h. answer (λ rest. (t, h) ∷ rest) (read_inputs n))) bytes

-- The times and the inputs, behind a head that was read
unfoldable pub read_times : MetadataBody → Reader MetadataBody
read_times head = and_then read_time (λ earliest. and_then read_time (λ latest.
    and_then read_i64 (λ prepared.
      answer
        (λ inputs. record head {
          min_ledger_effective_time = earliest;
          max_ledger_effective_time = latest;
          preparation_time = prepared;
          inputs = inputs;
        })
        (and_then read_i32 read_inputs))))

unfoldable pub read_metadata : Reader MetadataBody
read_metadata = and_then (read_raw 5) (λ _. and_then read_set (λ act_as.
    and_then read_bytes (λ command_id. and_then read_bytes (λ uuid. and_then read_i32 (λ group.
      and_then read_bytes (λ synchronizer. read_times (record {
        act_as = act_as;
        command_id = command_id;
        transaction_uuid = uuid;
        mediator_group = group;
        synchronizer_id = synchronizer;
        min_ledger_effective_time = none;
        max_ledger_effective_time = none;
        preparation_time = 0;
        inputs = [];
      })))))))
