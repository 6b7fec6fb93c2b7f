-- ===== src/TxVerifier/Merkle.antt =====
-- What the hashes of crates/tx-verifier/src/hasher.rs are made of: `hash_node` and `encode_node_ids`.
use silvana_book_agent.Common.{
  ℕ, zero, suc, ◌+◌, ◌≡◌, refl, ap, ◌∙◌, not, ◌&&◌, inl, inr, Option, none, some, List, [], ◌∷◌,
  ◌++◌, length, ltb, Bool-cases, subst,
}
use silvana_book_agent.Common.Dict.{Dict, lookup}
use silvana_book_agent.Common.Text.{text_Eq}
use silvana_book_agent.TxVerifier.Visits.{children_in}
use silvana_book_agent.TxVerifier.Acc.{Bytes, ◌>>=◌, len_val, bytes_val}
use silvana_book_agent.TxVerifier.Node.{
  NodeType, create, exercise, fetch, rollback, DamlNode, encode_create_node, encode_exercise_node,
  encode_fetch_node,
}
use silvana_book_agent.TxVerifier.Walk.{
  Outcome, done, failed, out_of_fuel, ◌>>=◌ as ◌then_do◌, require, hash_node_ids, encode_node_ids,
  encode_node_type, hash_node, hash_transaction, DamlTransaction, is_seen, is_empty, max_node_depth,
  node_encoding_v1, build_nodes_dict, build_seed_map, hash_purpose,
}

-- What holds of the bytes, if there are any
abbrev pub Yields : (Bytes → Type 0) → Outcome (Bytes × List Bytes) → Type 0
Yields P (done (bytes, _)) = P bytes
Yields P failed = Unit
Yields P out_of_fuel = Unit

require-Yields {ℓ} :
    {A : Type ℓ} (P : Bytes → Type 0) (o : Option A) (f : A → Outcome (Bytes × List Bytes))
    → ((a : A) → o ≡ some a → Yields P (f a))
    → Yields P (require o then_do f)
require-Yields P none f h = tt
require-Yields P (some a) f h = h a refl

both-Yields :
    (P Q : Bytes → Type 0) (o : Outcome (Bytes × List Bytes))
    (f : Bytes × List Bytes → Outcome (Bytes × List Bytes))
    → Yields P o
    → ((bytes : Bytes) (seen : List Bytes) → P bytes → Yields Q (f (bytes, seen)))
    → Yields Q (o then_do f)
both-Yields P Q (done (bytes, seen)) f p h = h bytes seen p
both-Yields P Q failed f p h = tt
both-Yields P Q out_of_fuel f p h = tt

module _ (hex_decode : Bytes → Option Bytes) (seeds : Dict Bytes Bytes) where
  -- The bytes of a node, from the hashes `inner` of its children one after the other
  abbrev pub node_body : NodeType → Bytes → Bytes → Option Bytes
  node_body (create c) id inner = encode_create_node hex_decode c (lookup id seeds)
  node_body (exercise e) id inner = lookup id seeds >>= λ seed.
      encode_exercise_node hex_decode e seed >>= λ bytes.
      some (bytes ++ (len_val (length e.children) ++ inner))
  node_body (fetch f) id inner = encode_fetch_node hex_decode f
  node_body (rollback r) id inner = some (0x03 ∷ (len_val (length r.children) ++ inner))

module _ (hex_decode : Bytes → Option Bytes) (sha256 : Bytes → Bytes) (nodes : Dict Bytes DamlNode)
    (seeds : Dict Bytes Bytes) where
  -- The hashes of the nodes of ids, one after the other: that of a node covers its own bytes and the
  -- hashes of its children, in their order, and so everything below it.
  pub data Hashed : List Bytes → Bytes → Type 0 where
    nothing : Hashed [] []
    next :
        (id : Bytes) (ids : List Bytes) (node : DamlNode) (node_type : NodeType)
        (inner body rest : Bytes)
        → lookup id nodes ≡ some node
        → node.versioned_node ≡ some (some node_type)
        → Hashed (children_in (some (some node_type))) inner
        → node_body hex_decode seeds node_type node.node_id inner ≡ some body
        → Hashed ids rest
        → Hashed (id ∷ ids) (sha256 (node_encoding_v1 ∷ body) ++ rest)

  -- The same of one node
  record NodeHash (node : DamlNode) (h : Bytes) : Type 0 where
    node_type : NodeType
    inner : Bytes
    body : Bytes
    is_versioned : node.versioned_node ≡ some (some node_type)
    below : Hashed (children_in (some (some node_type))) inner
    its_body : node_body hex_decode seeds node_type node.node_id inner ≡ some body
    its_hash : sha256 (node_encoding_v1 ∷ body) ≡ h

  -- The encoding of ids: their count, and their hashes
  abbrev pub IdsBytes : List Bytes → Bytes → Type 0
  IdsBytes ids bytes = (inner : Bytes) × Hashed ids inner × (len_val (length ids) ++ inner ≡ bytes)

  abbrev Body : NodeType → Bytes → Bytes → Type 0
  Body node_type id body =
      (inner : Bytes) × Hashed (children_in (some (some node_type))) inner
      × (node_body hex_decode seeds node_type id inner ≡ some body)

  encode_node_type-Yields :
      (children : List Bytes → List Bytes → Outcome (Bytes × List Bytes)) (id : Bytes)
      (node_type : NodeType) (seen : List Bytes)
      → ((ids before : List Bytes) → Yields (IdsBytes ids) (children ids before))
      → Yields (Body node_type id) (encode_node_type hex_decode seeds children id node_type seen)
  unfolding encode_node_type
  encode_node_type-Yields children id (create c) seen h =
      require-Yields _ (encode_create_node hex_decode c (lookup id seeds)) _
        (λ bytes e. ([], nothing, e))
  encode_node_type-Yields children id (exercise e) seen h =
      require-Yields _ (lookup id seeds) _ (λ seed e₁.
        require-Yields _ (encode_exercise_node hex_decode e seed) _ (λ bytes e₂.
          both-Yields (IdsBytes e.children) _ (children e.children seen) _ (h e.children seen)
            (λ inner after (hashes, below, same).
              (hashes, below, rw (e₁, e₂) (ap (λ b. some (bytes ++ b)) same)))))
  encode_node_type-Yields children id (fetch f) seen h =
      require-Yields _ (encode_fetch_node hex_decode f) _ (λ bytes e. ([], nothing, e))
  encode_node_type-Yields children id (rollback r) seen h =
      both-Yields (IdsBytes r.children) _ (children r.children seen) _ (h r.children seen)
        (λ inner after (hashes, below, same).
          (hashes, below, ap (λ (b : Bytes). some (0x03 ∷ b)) same))

  hash_node_ids-Yields :
      (hash : DamlNode → List Bytes → Outcome (Bytes × List Bytes)) (ids seen : List Bytes)
      → ((node : DamlNode) (before : List Bytes) → Yields (NodeHash node) (hash node before))
      → Yields (Hashed ids) (hash_node_ids nodes hash ids seen)
  unfolding hash_node_ids
  hash_node_ids-Yields hash [] seen h = nothing
  hash_node_ids-Yields hash (id ∷ ids) seen h = elim (Bool-cases (is_seen id seen)) [
    | inl again ↦ rw again tt
    | inr first ↦ rw first (
        require-Yields _ (lookup id nodes) _ (λ node found.
          both-Yields (NodeHash node) _ (hash node (id ∷ seen)) _ (h node (id ∷ seen))
            (λ h₁ after one.
              both-Yields (Hashed ids) _ (hash_node_ids nodes hash ids after) _
                (hash_node_ids-Yields hash ids after h)
                (λ rest after' others.
                  subst (λ (x : Bytes). Hashed (id ∷ ids) (x ++ rest)) one.its_hash
                    (next id ids node one.node_type one.inner one.body rest found one.is_versioned
                      one.below one.its_body others)))))
  ]

  encode_node_ids-Yields :
      (hash : DamlNode → List Bytes → Outcome (Bytes × List Bytes)) (ids seen : List Bytes)
      (depth : ℕ)
      → ((node : DamlNode) (before : List Bytes) → Yields (NodeHash node) (hash node before))
      → Yields (IdsBytes ids) (encode_node_ids nodes hash ids seen depth)
  unfolding encode_node_ids
  encode_node_ids-Yields hash ids seen depth h =
      elim (Bool-cases (ltb max_node_depth depth && not (is_empty ids))) [
        | inl deep ↦ rw deep tt
        | inr fits ↦ rw fits (
            both-Yields (Hashed ids) _ (hash_node_ids nodes hash ids seen) _
              (hash_node_ids-Yields hash ids seen h) (λ inner after hashed. (inner, hashed, refl)))
      ]

  hash_node-Yields :
      (fuel depth : ℕ) (node : DamlNode) (seen : List Bytes)
      → Yields (NodeHash node) (hash_node hex_decode sha256 nodes seeds fuel depth node seen)
  unfolding hash_node
  hash_node-Yields zero depth node seen = tt
  hash_node-Yields (suc fuel) depth node seen =
      let inner : DamlNode → List Bytes → Outcome (Bytes × List Bytes) =
        hash_node hex_decode sha256 nodes seeds fuel (depth + 1) in
      let children : List Bytes → List Bytes → Outcome (Bytes × List Bytes) =
        λ ids before. encode_node_ids nodes inner ids before (depth + 1) in
      require-Yields _ node.versioned_node _ (λ versioned e₁.
        require-Yields _ versioned _ (λ node_type e₂.
          both-Yields (Body node_type node.node_id) _
            (encode_node_type hex_decode seeds children node.node_id node_type seen) _
            (encode_node_type-Yields children node.node_id node_type seen (λ ids before.
              encode_node_ids-Yields inner ids before (depth + 1)
                (λ n b. hash_node-Yields fuel (depth + 1) n b)))
            (λ body after (hashes, below, same). record {
              node_type = node_type;
              inner = hashes;
              body = body;
              is_versioned = e₁ ∙ ap some e₂;
              below = below;
              its_body = same;
              its_hash = refl;
            })))

-- The hash of a transaction, from those of its roots
abbrev pub TxHashed : (Bytes → Option Bytes) → (Bytes → Bytes) → DamlTransaction → Bytes → Type 0
TxHashed hex_decode sha256 tx h =
    (inner : Bytes) × Hashed hex_decode sha256 (build_nodes_dict [] tx.nodes)
      (build_seed_map [] tx.node_seeds) tx.roots inner
    × (sha256 (hash_purpose ++ (bytes_val tx.version ++ (len_val (length tx.roots) ++ inner))) ≡ h)

pub hash_transaction-Yields :
    (hex_decode : Bytes → Option Bytes) (sha256 : Bytes → Bytes) (tx : DamlTransaction)
    → Yields (TxHashed hex_decode sha256 tx) (hash_transaction hex_decode sha256 tx)
unfolding hash_transaction
hash_transaction-Yields hex_decode sha256 tx =
    let nodes = build_nodes_dict [] tx.nodes in
    let seeds = build_seed_map [] tx.node_seeds in
    let hash : DamlNode → List Bytes → Outcome (Bytes × List Bytes) =
      hash_node hex_decode sha256 nodes seeds max_node_depth 1 in
    both-Yields (IdsBytes hex_decode sha256 nodes seeds tx.roots) _
      (encode_node_ids nodes hash tx.roots [] 1) _
      (encode_node_ids-Yields hex_decode sha256 nodes seeds hash tx.roots [] 1
        (λ n b. hash_node-Yields hex_decode sha256 nodes seeds max_node_depth 1 n b))
      (λ bytes after (inner, hashed, same).
        (inner, hashed, ap (λ b. sha256 (hash_purpose ++ (bytes_val tx.version ++ b))) same))
