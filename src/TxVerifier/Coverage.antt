-- ===== src/TxVerifier/Coverage.antt =====
-- The walk over a transaction's nodes ends, and hashes no node twice: crates/tx-verifier/src/hasher.rs,
-- `encode_node_ids`.
use silvana_book_agent.Common.{
  ℕ, zero, suc, ◌+◌, ◌≤◌, ◌≡◌, ◌≢◌, refl, sym, ap, ◌∙◌, true, inl, inr, Option, some, List, [], ◌∷◌,
  ◌++◌, subst, arith, ◌==◌, Bool-cases,
}
use silvana_book_agent.Common.Dict.{Dict, lookup}
use silvana_book_agent.Common.Text.{text_Eq, text_eq_iff}
use silvana_book_agent.TxVerifier.Visits.{
  children_in, children_of, IsDistinct, AreSeen, Grows, Walked, Grows-refl, require-Walked,
  wrap-Walked, encode_node_ids-Walked,
}
use silvana_book_agent.TxVerifier.Merkle.{Yields, TxHashed, hash_transaction-Yields}
use silvana_book_agent.TxVerifier.Acc.{Bytes, bytes_val}
use silvana_book_agent.TxVerifier.Node.{
  NodeType, create, exercise, fetch, rollback, DamlNode, encode_create_node, encode_exercise_node,
  encode_fetch_node,
}
use silvana_book_agent.TxVerifier.Walk.{
  Outcome, done, out_of_fuel, encode_node_ids, encode_node_type, hash_node, hash_transaction,
  DamlTransaction, is_seen, max_node_depth, node_encoding_v1, build_nodes_dict, build_seed_map,
  hash_purpose,
}

module _ (hex_decode : Bytes → Option Bytes) (nodes : Dict Bytes DamlNode)
    (seeds : Dict Bytes Bytes) where
  encode_node_type-Walked :
      (children : List Bytes → List Bytes → Outcome (Bytes × List Bytes)) (id : Bytes)
      (node_type : NodeType) (seen : List Bytes)
      → ((ids before : List Bytes) → Walked nodes ids before (children ids before))
      → Walked nodes
          (children_in (some (some node_type)))
          seen
          (encode_node_type hex_decode seeds children id node_type seen)
  unfolding encode_node_type
  encode_node_type-Walked children id (create c) seen h =
      require-Walked nodes (encode_create_node hex_decode c (lookup id seeds)) _ [] seen
        (λ _ _. (Grows-refl nodes seen, tt))
  encode_node_type-Walked children id (exercise e) seen h =
      require-Walked nodes (lookup id seeds) _ e.children seen (λ seed _.
        require-Walked nodes (encode_exercise_node hex_decode e seed) _ e.children seen (λ bytes _.
          wrap-Walked nodes (children e.children seen) (λ inner. bytes ++ inner) e.children seen
            (h e.children seen)))
  encode_node_type-Walked children id (fetch f) seen h =
      require-Walked nodes (encode_fetch_node hex_decode f) _ [] seen
        (λ _ _. (Grows-refl nodes seen, tt))
  encode_node_type-Walked children id (rollback r) seen h =
      wrap-Walked nodes (children r.children seen) (λ inner. 0x03 ∷ inner) r.children seen
        (h r.children seen)

  module _ (sha256 : Bytes → Bytes) where
    -- With fuel for each level that the walk may still go down
    hash_node-Walked :
        (fuel depth : ℕ)
        → fuel + depth ≡ max_node_depth + 1
        → depth ≤ max_node_depth
        → (node : DamlNode) (seen : List Bytes)
        → Walked nodes
            (children_of node)
            seen
            (hash_node hex_decode sha256 nodes seeds fuel depth node seen)
    unfolding hash_node
    hash_node-Walked zero depth e h node seen = absurd (omega arith)
    hash_node-Walked (suc fuel) depth e h node seen =
        let inner : DamlNode → List Bytes → Outcome (Bytes × List Bytes) =
          hash_node hex_decode sha256 nodes seeds fuel (depth + 1) in
        let children : List Bytes → List Bytes → Outcome (Bytes × List Bytes) =
          λ ids before. encode_node_ids nodes inner ids before (depth + 1) in
        require-Walked nodes node.versioned_node _ (children_of node) seen (λ versioned e₁.
          require-Walked nodes versioned _ (children_of node) seen (λ node_type e₂.
            let whole : node.versioned_node ≡ some (some node_type) = e₁ ∙ ap some e₂ in
            wrap-Walked nodes
              (encode_node_type hex_decode seeds children node.node_id node_type seen)
              (λ bytes. sha256 (node_encoding_v1 ∷ bytes)) (children_of node) seen
              (subst
                (λ v.
                  Walked nodes (children_in v) seen
                    (encode_node_type hex_decode seeds children node.node_id node_type seen))
                (sym whole)
                (encode_node_type-Walked children node.node_id node_type seen (λ ids before.
                  encode_node_ids-Walked nodes inner ids before (depth + 1)
                    (λ fits. hash_node-Walked fuel (depth + 1) (omega arith) fits))))))

-- What a node of a transaction may be reached by
pub data Reaches (nodes : Dict Bytes DamlNode) (roots : List Bytes) : Bytes → Type 0 where
  root : (id : Bytes) → is_seen id roots ≡ true → Reaches nodes roots id
  child :
      (parent id : Bytes) (node : DamlNode)
      → Reaches nodes roots parent
      → lookup parent nodes ≡ some node
      → is_seen id (children_of node) ≡ true
      → Reaches nodes roots id

AreSeen-is_seen :
    (id : Bytes) (ids seen : List Bytes)
    → AreSeen ids seen
    → is_seen id ids ≡ true
    → is_seen id seen ≡ true
AreSeen-is_seen id [] seen h e = absurd (cc e)
AreSeen-is_seen id (x ∷ ids) seen h e = elim (Bool-cases (x == id)) [
  | inl same ↦ subst (λ i. is_seen i seen ≡ true) ((text_eq_iff x id).0 same) h.0
  | inr other ↦ AreSeen-is_seen id ids seen h.1 (rw other at e)
]

-- Where the walk began with nothing, what it reaches was seen.
all_seen :
    (nodes : Dict Bytes DamlNode) (roots seen : List Bytes)
    → Grows nodes [] seen
    → AreSeen roots seen
    → (id : Bytes) → Reaches nodes roots id
    → is_seen id seen ≡ true
all_seen nodes roots seen g h id (root _ e) = AreSeen-is_seen id roots seen h e
all_seen nodes roots seen g h id (child parent _ node r found e) =
    elim (g.covered parent (all_seen nodes roots seen g h parent r)) [
      | inl old ↦ absurd (cc old)
      | inr (other, found', inner) ↦
          let same : node ≡ other = cc in
          AreSeen-is_seen id (children_of node) seen
            (subst (λ (o : DamlNode). AreSeen (children_of o) seen) (sym same) inner) e
    ]

hash_transaction-Walked :
    (hex_decode : Bytes → Option Bytes) (sha256 : Bytes → Bytes) (tx : DamlTransaction)
    → Walked (build_nodes_dict [] tx.nodes) tx.roots [] (hash_transaction hex_decode sha256 tx)
unfolding hash_transaction
hash_transaction-Walked hex_decode sha256 tx =
    let nodes = build_nodes_dict [] tx.nodes in
    let seeds = build_seed_map [] tx.node_seeds in
    let hash : DamlNode → List Bytes → Outcome (Bytes × List Bytes) =
      hash_node hex_decode sha256 nodes seeds max_node_depth 1 in
    wrap-Walked nodes (encode_node_ids nodes hash tx.roots [] 1)
      (λ bytes. sha256 (hash_purpose ++ (bytes_val tx.version ++ bytes))) tx.roots []
      (encode_node_ids-Walked nodes hash tx.roots [] 1
        (λ _. hash_node-Walked hex_decode nodes seeds sha256 max_node_depth 1 refl (omega arith)))

-- Hashing a transaction always ends: it gives a hash or fails, and the 256 levels of fuel that it
-- is given never run out, whatever its nodes refer to.
pub hash_transaction_ends :
    (hex_decode : Bytes → Option Bytes) (sha256 : Bytes → Bytes) (tx : DamlTransaction)
    → hash_transaction hex_decode sha256 tx ≢ out_of_fuel
hash_transaction_ends hex_decode sha256 tx e =
    subst (Walked (build_nodes_dict [] tx.nodes) tx.roots []) e
      (hash_transaction-Walked hex_decode sha256 tx)

-- If a transaction is hashed, then the hash is made of the version and, for each root in its
-- order, the hash of its node, which is made of the node's own bytes and, for each child in its
-- order, the hash of the child's node in the same way. No node id was walked twice, and every id
-- that can be reached from the roots by way of children was walked.
pub hash_transaction_covers :
    (hex_decode : Bytes → Option Bytes) (sha256 : Bytes → Bytes) (tx : DamlTransaction) (h : Bytes)
    (seen : List Bytes)
    → hash_transaction hex_decode sha256 tx ≡ done (h, seen)
    → TxHashed hex_decode sha256 tx h
      × IsDistinct seen
      × ((id : Bytes) → Reaches (build_nodes_dict [] tx.nodes) tx.roots id → is_seen id seen ≡ true)
hash_transaction_covers hex_decode sha256 tx h seen e =
    let nodes = build_nodes_dict [] tx.nodes in
    let (grows, roots) =
      subst (Walked nodes tx.roots []) e (hash_transaction-Walked hex_decode sha256 tx) in
    let made : TxHashed hex_decode sha256 tx h =
      subst (Yields (TxHashed hex_decode sha256 tx)) e
        (hash_transaction-Yields hex_decode sha256 tx) in
    (made, grows.distinct tt, all_seen nodes tx.roots seen grows roots)
