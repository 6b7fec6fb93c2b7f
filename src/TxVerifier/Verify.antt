-- ===== src/TxVerifier/Verify.antt =====
-- The hash that is signed, and its comparison with the server's: `compute_final_hash` and `compute_hash`
-- of crates/tx-verifier/src/hasher.rs, and `verify_and_hash` of crates/tx-verifier/src/lib.rs behind the
-- inspection of the transaction, whose answer is an argument here.
use silvana_book_agent.Common.{
  ℕ, zero, suc, Bool, true, false, not, ◌||◌, Option, none, some, List, [], ◌∷◌, ◌++◌,
  if◌then◌else◌, ◌==◌,
}
use silvana_book_agent.Common.Text.{Text, codes, text_Eq}
use silvana_book_agent.TxVerifier.Acc.{Bytes, ◌>>=◌ as ◌and_then◌}
use silvana_book_agent.TxVerifier.Metadata.{Metadata, hash_metadata}
use silvana_book_agent.TxVerifier.Walk.{
  Outcome, done, failed, out_of_fuel, ◌>>=◌, require, hash_purpose, DamlTransaction,
  hash_transaction,
}

pub record PreparedTransaction : Type 0 where
  pub transaction : Option DamlTransaction
  pub metadata : Option Metadata

abbrev pub hashing_scheme_v2 : ℕ
hashing_scheme_v2 = 0x02

-- `matches!(s, "HASHING_SCHEME_VERSION_V3" | "V3" | "3")`
unfoldable pub parse_hashing_version : Bytes → Bool
parse_hashing_version s =
    s == codes "HASHING_SCHEME_VERSION_V3" || (s == codes "V3" || s == codes "3")

abbrev pub zeros : ℕ → Bytes
zeros zero = []
zeros (suc n) = 0 ∷ zeros n

-- `[0u8; 32]`
abbrev pub sentinel : Bytes
sentinel = zeros 32

-- `Err(e)` becomes the sentinel.
abbrev pub or_sentinel : Outcome Bytes → Bytes
or_sentinel (done hash) = hash
or_sentinel failed = sentinel
or_sentinel out_of_fuel = sentinel

module _ (hex_decode : Bytes → Option Bytes) (sha256 : Bytes → Bytes) where
  unfoldable pub compute_final_hash : PreparedTransaction → Bytes → Outcome Bytes
  compute_final_hash prepared version = do
    tx ← require prepared.transaction
    metadata ← require prepared.metadata
    (tx_hash, _) ← hash_transaction hex_decode sha256 tx
    meta_hash ← require (hash_metadata hex_decode sha256 metadata (parse_hashing_version version))
    done (sha256 (hash_purpose ++ (hashing_scheme_v2 ∷ (tx_hash ++ meta_hash))))

  -- `PreparedTransaction::decode` is protobuf's; a hash that cannot be computed is the sentinel.
  unfoldable pub compute_hash : (Bytes → Option PreparedTransaction) → Bytes → Bytes → Option Bytes
  compute_hash decode bytes version =
      decode bytes and_then λ prepared. some (or_sentinel (compute_final_hash prepared version))

pub record InspectionResult : Type 0 where
  pub accepted : Bool
  pub summary : Text
  pub warnings : List Text
  pub rejection_reason : Option Text

pub record VerificationResult : Type 0 where
  pub accepted : Bool
  pub computed_hash : Bytes
  pub summary : Text
  pub warnings : List Text
  pub rejection_reason : Option Text

abbrev pub passed : InspectionResult → Bytes → Text → List Text → VerificationResult
passed inspection hash verdict warnings = record {
  accepted = true;
  computed_hash = hash;
  summary = inspection.summary ++ verdict;
  warnings = warnings;
  rejection_reason = none;
}

-- `base64` decodes the server's hash and `hex` writes bytes; no answer is an error of the function.
module _ (base64 : Text → Option Bytes) (hex : Bytes → Text) (inspection : InspectionResult) where
  unfoldable pub compare_hashes : Bytes → Bytes → VerificationResult
  compare_hashes hash server =
      if hash == server
      then passed inspection hash (codes "\nHash verified — MATCH.") inspection.warnings
      else passed inspection sentinel (codes "\nHash MISMATCH (debug mode — using server hash).") (
          inspection.warnings
          ++ ((codes "Hash mismatch: server=" ++ (hex server ++ (codes ", computed=" ++ hex hash)))
              ∷ []))

  -- Where the hash was computed
  unfoldable pub check_hash : Bytes → Text → Option VerificationResult
  check_hash hash server_hash =
      if not (hash == sentinel)
      then (base64 server_hash and_then λ server. some (compare_hashes hash server))
      else some (
          passed inspection hash (codes "\nHash computation failed — using server hash.")
            inspection.warnings)

  -- `computed` is what `compute_hash` answers.
  unfoldable pub verify_and_hash : Option Bytes → Text → Option VerificationResult
  verify_and_hash computed server_hash =
      if not inspection.accepted
      then some (record {
        accepted = false;
        computed_hash = sentinel;
        summary = inspection.summary;
        warnings = inspection.warnings;
        rejection_reason = inspection.rejection_reason;
      })
      else computed and_then λ hash. check_hash hash server_hash
