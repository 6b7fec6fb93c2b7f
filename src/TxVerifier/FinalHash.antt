-- ===== src/TxVerifier/FinalHash.antt =====
-- The final hash of crates/tx-verifier/src/hasher.rs: `compute_final_hash`.
use silvana_book_agent.Common.{
  ◌≡◌, ◌⊎◌, inl, inr, refl, sym, ap, ◌∙◌, subst, Option, none, some, List, [], ◌∷◌, ◌++◌, length,
}
use silvana_book_agent.TxVerifier.Acc.{Bytes, bytes_val}
use silvana_book_agent.TxVerifier.Metadata.{Metadata, encode_metadata, hash_metadata}
use silvana_book_agent.TxVerifier.Walk.{
  Outcome, done, failed, out_of_fuel, ◌>>=◌, require, hash_purpose, DamlTransaction,
  encode_node_ids, hash_node, build_nodes_dict, build_seed_map, max_node_depth, hash_transaction,
}
use silvana_book_agent.TxVerifier.Binding.{
  Collision, IsSmall, AreSmall, same_or_Collision, append_inj, metadata_view, hash_metadata_binds,
}
use silvana_book_agent.TxVerifier.Verify.{compute_final_hash, parse_hashing_version}

Outcome-inv {ℓ κ} :
    {A : Type ℓ} {B : Type κ} (o : Outcome A) (f : A → Outcome B) {b : B}
    → (o >>= f) ≡ done b
    → (a : A) × (o ≡ done a) × (f a ≡ done b)
Outcome-inv (done a) f e = (a, refl, e)
Outcome-inv failed f e = absurd (cc e)
Outcome-inv out_of_fuel f e = absurd (cc e)

require-inv {ℓ} : {A : Type ℓ} (o : Option A) {a : A} → require o ≡ done a → o ≡ some a
require-inv none e = absurd (cc e)
require-inv (some a) e = cc

-- The hash that a walk answered, if it did
abbrev pub tx_hash : Outcome (Bytes × List Bytes) → Option Bytes
tx_hash (done (h, _)) = some h
tx_hash failed = none
tx_hash out_of_fuel = none

hash_transaction-length :
    (hex_decode : Bytes → Option Bytes) (sha256 : Bytes → Bytes)
    (sha256_length : (bytes : Bytes) → length (sha256 bytes) ≡ 32) (tx : DamlTransaction)
    {h : Bytes} {seen : List Bytes}
    → hash_transaction hex_decode sha256 tx ≡ done (h, seen)
    → length h ≡ 32
unfolding hash_transaction
hash_transaction-length hex_decode sha256 sha256_length tx {h} e =
    let nodes = build_nodes_dict [] tx.nodes in
    let hash =
      hash_node hex_decode sha256 nodes (build_seed_map [] tx.node_seeds) max_node_depth 1 in
    let ((bytes, _), _, f) = Outcome-inv (encode_node_ids nodes hash tx.roots [] 1) _ e in
    let whole : sha256 (hash_purpose ++ (bytes_val tx.version ++ bytes)) ≡ h = cc in
    subst (λ b. length b ≡ 32) whole (sha256_length _)

-- If two prepared transactions have one final hash, then their transactions have one hash and
-- their metadata agree in all that is hashed, or a collision of the hash function is at hand. Its
-- hashes have 32 bytes, and the encodings of the metadata and the input contracts take less than 4
-- GiB.
pub compute_final_hash_binds :
    (hex_decode : Bytes → Option Bytes) (render : Bytes → Bytes) (sha256 : Bytes → Bytes)
    (sha256_length : (bytes : Bytes) → length (sha256 bytes) ≡ 32) (tx tx' : DamlTransaction)
    (m n : Metadata) (v w : Bytes) {h : Bytes}
    → compute_final_hash hex_decode sha256 (record { transaction = some tx; metadata = some m }) v
      ≡ done h
    → compute_final_hash hex_decode sha256 (record { transaction = some tx'; metadata = some n }) w
      ≡ done h
    → IsSmall (encode_metadata hex_decode sha256 m (parse_hashing_version v))
    → IsSmall (encode_metadata hex_decode sha256 n (parse_hashing_version w))
    → AreSmall hex_decode render m.input_contracts
    → AreSmall hex_decode render n.input_contracts
    → ((tx_hash (hash_transaction hex_decode sha256 tx)
          ≡ tx_hash (hash_transaction hex_decode sha256 tx'))
        × (metadata_view hex_decode render m (parse_hashing_version v)
            ≡ metadata_view hex_decode render n (parse_hashing_version w)))
      ⊎ Collision sha256
unfolding compute_final_hash
compute_final_hash_binds hex_decode render sha256 sha256_length tx tx' m n v w e e' small small'
      smalls smalls' =
    let ((t, seen), e₁, f₁) = Outcome-inv (hash_transaction hex_decode sha256 tx) _ e in
    let (k, e₂, f₂) =
      Outcome-inv (require (hash_metadata hex_decode sha256 m (parse_hashing_version v))) _ f₁ in
    let ((t', seen'), e₃, f₃) = Outcome-inv (hash_transaction hex_decode sha256 tx') _ e' in
    let (k', e₄, f₄) =
      Outcome-inv (require (hash_metadata hex_decode sha256 n (parse_hashing_version w))) _ f₃ in
    let outer : sha256 (hash_purpose ++ (0x02 ∷ (t ++ k)))
        ≡ sha256 (hash_purpose ++ (0x02 ∷ (t' ++ k'))) =
      cc in
    elim (same_or_Collision sha256 _ _ outer) [
      | inr collision ↦ inr collision
      | inl eq ↦
          let inner : t ++ k ≡ t' ++ k' = cc in
          let len = hash_transaction-length hex_decode sha256 sha256_length tx e₁ in
          let len' = hash_transaction-length hex_decode sha256 sha256_length tx' e₃ in
          let (same_t, same_k) = append_inj t t' k k' (len ∙ sym len') inner in
          let meta : hash_metadata hex_decode sha256 n (parse_hashing_version w) ≡ some k =
            require-inv _ e₄ ∙ ap some (sym same_k) in
          elim (hash_metadata_binds hex_decode render sha256 sha256_length m n
            (parse_hashing_version v) (parse_hashing_version w) (require-inv _ e₂) meta small small'
            smalls smalls') [
              | inr collision ↦ inr collision
              | inl view ↦ inl (rw (e₁, e₃, same_t) refl, view)
            ]
    ]
