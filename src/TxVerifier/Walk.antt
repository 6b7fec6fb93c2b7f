-- ===== src/TxVerifier/Walk.antt =====
-- The walk over a transaction's nodes: `hash_node`, `encode_node_ids` and `hash_transaction` of
-- crates/tx-verifier/src/hasher.rs. The fuel of `hash_node` stands for the levels that the walk may
-- still go down; `out_of_fuel` is no answer of the program, and is proved not to occur.
use silvana_book_agent.Common.{
  ℕ, zero, suc, ◌+◌, ◌-◌, ◌%◌, ◌/◌, ◌^◌, Bool, true, false, not, ◌&&◌, Option, none, some, List, [],
  ◌∷◌, ◌++◌, length, any, if◌then◌else◌, ltb, ◌==◌,
}
use silvana_book_agent.Common.Dict.{Dict, lookup, insert, contains}
use silvana_book_agent.Common.Text.{text_Eq}
use silvana_book_agent.TxVerifier.Acc.{Bytes, len_val, bytes_val}
use silvana_book_agent.TxVerifier.Node.{
  NodeType, create, exercise, fetch, rollback, DamlNode, encode_create_node, encode_exercise_node,
  encode_fetch_node,
}

pub data Outcome {ℓ} (A : Type ℓ) : Type ℓ where
  done : A → Outcome A
  failed : Outcome A
  out_of_fuel : Outcome A

infixl 5 ◌>>=◌
abbrev pub ◌>>=◌ {ℓ κ} : {A : Type ℓ} {B : Type κ} → Outcome A → (A → Outcome B) → Outcome B
done a >>= f = f a
failed >>= f = failed
out_of_fuel >>= f = out_of_fuel

abbrev pub require {ℓ} : {A : Type ℓ} → Option A → Outcome A
require none = failed
require (some a) = done a

abbrev pub hash_purpose : Bytes
hash_purpose = 0x00 ∷ 0x00 ∷ 0x00 ∷ 0x30 ∷ []

abbrev pub node_encoding_v1 : ℕ
node_encoding_v1 = 0x01

abbrev pub max_node_depth : ℕ
max_node_depth = 256

-- The digits of a number, with fuel for their count
pub digits : ℕ → ℕ → Bytes → Bytes
digits zero n acc = acc
digits (suc f) n acc =
    let rest = digits f (n / 10) ((b'0' + n % 10) ∷ acc) in
    if ltb n 10 then (b'0' + n) ∷ acc else rest

-- `i32::to_string` of a bit pattern. Ten digits are enough.
unfoldable pub to_string : ℕ → Bytes
unfolding digits
to_string v = if ltb v (2 ^ 31) then digits 10 v [] else b'-' ∷ digits 10 (2 ^ 32 - v) []

pub record NodeSeed : Type 0 where
  pub node_id : ℕ
  pub seed : Bytes

pub record DamlTransaction : Type 0 where
  pub version : Bytes
  pub roots : List Bytes
  pub nodes : List DamlNode
  pub node_seeds : List NodeSeed

-- `map.entry(id).or_insert(seed)` in turn: the first entry for an id wins.
unfoldable pub build_seed_map : Dict Bytes Bytes → List NodeSeed → Dict Bytes Bytes
build_seed_map map [] = map
build_seed_map map (ns ∷ rest) =
    let id = to_string ns.node_id in
    build_seed_map (if contains id map then map else insert id ns.seed map) rest

-- `dict.insert(id, node)` in turn: the last node of an id wins.
unfoldable pub build_nodes_dict : Dict Bytes DamlNode → List DamlNode → Dict Bytes DamlNode
build_nodes_dict dict [] = dict
build_nodes_dict dict (node ∷ rest) = build_nodes_dict (insert node.node_id node dict) rest

-- `seen.contains`
abbrev pub is_seen : Bytes → List Bytes → Bool
is_seen id seen = any (λ other. other == id) seen

abbrev pub is_empty : List Bytes → Bool
is_empty [] = true
is_empty (_ ∷ _) = false

-- The tables of one transaction do not change in a walk; the ids that were seen are threaded.
module _ (nodes : Dict Bytes DamlNode) where
  -- The loop over ids, at a depth where `hash` hashes one node
  unfoldable pub hash_node_ids :
      (DamlNode → List Bytes → Outcome (Bytes × List Bytes))
      → List Bytes
      → List Bytes
      → Outcome (Bytes × List Bytes)
  hash_node_ids hash [] seen = done ([], seen)
  hash_node_ids hash (id ∷ ids) seen = if is_seen id seen then failed else do
    node ← require (lookup id nodes)
    (h, seen) ← hash node (id ∷ seen)
    (hs, seen) ← hash_node_ids hash ids seen
    done (h ++ hs, seen)

  unfoldable pub encode_node_ids :
      (DamlNode → List Bytes → Outcome (Bytes × List Bytes))
      → List Bytes
      → List Bytes
      → ℕ
      → Outcome (Bytes × List Bytes)
  encode_node_ids hash ids seen depth =
      if ltb max_node_depth depth && not (is_empty ids)
      then failed
      else do (hs, seen) ← hash_node_ids hash ids seen; done (len_val (length ids) ++ hs, seen)

module _ (hex_decode : Bytes → Option Bytes) (seeds : Dict Bytes Bytes) where
  -- What `hash_node` writes behind the version byte; `children` encodes the ids of children.
  unfoldable pub encode_node_type :
      (List Bytes → List Bytes → Outcome (Bytes × List Bytes))
      → Bytes
      → NodeType
      → List Bytes
      → Outcome (Bytes × List Bytes)
  encode_node_type children node_id (create c) seen = do
    bytes ← require (encode_create_node hex_decode c (lookup node_id seeds))
    done (bytes, seen)
  encode_node_type children node_id (exercise e) seen = do
    seed ← require (lookup node_id seeds)
    bytes ← require (encode_exercise_node hex_decode e seed)
    (inner, seen) ← children e.children seen
    done (bytes ++ inner, seen)
  encode_node_type children node_id (fetch f) seen = do
    bytes ← require (encode_fetch_node hex_decode f)
    done (bytes, seen)
  encode_node_type children node_id (rollback r) seen = do
    (inner, seen) ← children r.children seen
    done (0x03 ∷ inner, seen)

module _ (hex_decode : Bytes → Option Bytes) (sha256 : Bytes → Bytes) (nodes : Dict Bytes DamlNode)
    (seeds : Dict Bytes Bytes) where
  unfoldable pub hash_node : ℕ → ℕ → DamlNode → List Bytes → Outcome (Bytes × List Bytes)
  hash_node zero depth node seen = out_of_fuel
  hash_node (suc fuel) depth node seen = do
    versioned ← require node.versioned_node
    node_type ← require versioned
    (bytes, seen) ←
        encode_node_type hex_decode seeds
          (λ ids seen. encode_node_ids nodes (hash_node fuel (depth + 1)) ids seen (depth + 1))
          node.node_id node_type seen
    done (sha256 (node_encoding_v1 ∷ bytes), seen)

-- The hash of the transaction, and the ids of the nodes that it covers
unfoldable pub hash_transaction :
    (Bytes → Option Bytes) → (Bytes → Bytes) → DamlTransaction → Outcome (Bytes × List Bytes)
hash_transaction hex_decode sha256 tx = do
  let nodes = build_nodes_dict [] tx.nodes
  let seeds = build_seed_map [] tx.node_seeds
  let hash = hash_node hex_decode sha256 nodes seeds max_node_depth 1
  (bytes, seen) ← encode_node_ids nodes hash tx.roots [] 1
  done (sha256 (hash_purpose ++ (bytes_val tx.version ++ bytes)), seen)
