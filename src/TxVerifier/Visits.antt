-- ===== src/TxVerifier/Visits.antt =====
-- What the walk of `encode_node_ids` in crates/tx-verifier/src/hasher.rs does to the ids that it has
-- seen.
use silvana_book_agent.Common.{
  ℕ, ◌≤◌, ◌≡◌, refl, true, false, ◌⊎◌, inl, inr, Option, none, some, List, [], ◌∷◌, ◌++◌, All,
  subst, arith, ltb, ◌==◌, Bool-cases,
}
use silvana_book_agent.Common.Dict.{Dict, lookup}
use silvana_book_agent.Common.Text.{text_Eq, text_eq_iff}
use silvana_book_agent.TxVerifier.Acc.{Bytes}
use silvana_book_agent.TxVerifier.Node.{NodeType, exercise, rollback, DamlNode}
use silvana_book_agent.TxVerifier.Walk.{
  Outcome, done, failed, out_of_fuel, ◌>>=◌, require, hash_node_ids, encode_node_ids, is_seen,
  max_node_depth,
}

-- The children of a node that has any
abbrev pub children_in : Option (Option NodeType) → List Bytes
children_in (some (some (exercise e))) = e.children
children_in (some (some (rollback r))) = r.children
children_in _ = []

abbrev pub children_of : DamlNode → List Bytes
children_of node = children_in node.versioned_node

-- No id stands in the list twice.
abbrev pub IsDistinct : List Bytes → Type 0
IsDistinct [] = Unit
IsDistinct (id ∷ ids) = (is_seen id ids ≡ false) × IsDistinct ids

abbrev pub AreSeen : List Bytes → List Bytes → Type 0
AreSeen ids seen = All (λ id. is_seen id seen ≡ true) ids

module _ (nodes : Dict Bytes DamlNode) where
  -- A node of the transaction whose children were seen
  abbrev pub IsCovered : List Bytes → Bytes → Type 0
  IsCovered seen id =
      (node : DamlNode) × (lookup id nodes ≡ some node) × AreSeen (children_of node) seen

  -- What a part of the walk does to the ids that were seen: they stay distinct, none is lost, and
  -- each that is new is covered.
  pub record Grows (before after : List Bytes) : Type 0 where
    pub distinct : IsDistinct before → IsDistinct after
    pub kept : (id : Bytes) → is_seen id before ≡ true → is_seen id after ≡ true
    pub covered :
        (id : Bytes) → is_seen id after ≡ true → (is_seen id before ≡ true) ⊎ IsCovered after id

  -- The walk ended, and if it did not fail then the ids `ids` were seen in the end.
  abbrev pub Walked : List Bytes → List Bytes → Outcome (Bytes × List Bytes) → Type 0
  Walked ids before (done (_, after)) = Grows before after × AreSeen ids after
  Walked ids before failed = Unit
  Walked ids before out_of_fuel = ⊥

  AreSeen-kept : {a b : List Bytes} → Grows a b → (ids : List Bytes) → AreSeen ids a → AreSeen ids b
  AreSeen-kept g [] h = tt
  AreSeen-kept g (id ∷ ids) h = (g.kept id h.0, AreSeen-kept g ids h.1)

  pub Grows-refl : (seen : List Bytes) → Grows seen seen
  Grows-refl seen = record { distinct = λ d. d; kept = λ id h. h; covered = λ id h. inl h }

  Grows-trans : {a b c : List Bytes} → Grows a b → Grows b c → Grows a c
  Grows-trans {a} {b} {c} g g' = record {
    distinct = λ d. g'.distinct (g.distinct d);
    kept = λ id h. g'.kept id (g.kept id h);
    covered = λ id h. elim (g'.covered id h) [
      | inl old ↦ elim (g.covered id old) [
        | inl older ↦ inl older
        | inr (node, found, seen) ↦ inr (node, found, AreSeen-kept g' (children_of node) seen)
      ]
      | inr new ↦ inr new
    ];
  }

  -- A node is marked before its children are walked, and is covered after.
  Grows-mark :
      (id : Bytes) (node : DamlNode) {seen after : List Bytes}
      → is_seen id seen ≡ false
      → lookup id nodes ≡ some node
      → Grows (id ∷ seen) after
      → AreSeen (children_of node) after
      → Grows seen after
  Grows-mark id node {seen} {after} fresh found g inner = record {
    distinct = λ d. g.distinct (fresh, d);
    kept = λ other h. g.kept other (rw (h) (ground arith));
    covered = λ other h. elim (g.covered other h) [
      | inr new ↦ inr new
      | inl old ↦ elim (Bool-cases (id == other)) [
        | inl same ↦ inr (
          node,
          subst (λ i. lookup i nodes ≡ some node) ((text_eq_iff id other).0 same) found,
          inner,
        )
        | inr different ↦ inl (ground arith)
      ]
    ];
  }

  -- What is required without fail changes nothing that was seen.
  pub require-Walked {ℓ} :
      {A : Type ℓ} (o : Option A) (f : A → Outcome (Bytes × List Bytes)) (ids seen : List Bytes)
      → ((a : A) → o ≡ some a → Walked ids seen (f a))
      → Walked ids seen (require o >>= f)
  require-Walked none f ids seen h = tt
  require-Walked (some a) f ids seen h = h a refl

  -- More bytes round those of a part
  pub wrap-Walked :
      (o : Outcome (Bytes × List Bytes)) (f : Bytes → Bytes) (ids seen : List Bytes)
      → Walked ids seen o
      → Walked ids seen (o >>= λ (bytes, after). done (f bytes, after))
  wrap-Walked (done (bytes, after)) f ids seen h = h
  wrap-Walked failed f ids seen h = tt
  wrap-Walked out_of_fuel f ids seen h = h

  -- One id of a list, then the others
  mark-Walked :
      (id : Bytes) (ids : List Bytes) (node : DamlNode) (seen : List Bytes)
      (first : Outcome (Bytes × List Bytes)) (others : List Bytes → Outcome (Bytes × List Bytes))
      → is_seen id seen ≡ false
      → lookup id nodes ≡ some node
      → Walked (children_of node) (id ∷ seen) first
      → ((after : List Bytes) → Walked ids after (others after))
      → Walked
          (id ∷ ids)
          seen
          (first >>= λ (h, after). others after >>= λ (hs, after'). done (h ++ hs, after'))
  mark-Walked id ids node seen failed others fresh found h k = tt
  mark-Walked id ids node seen out_of_fuel others fresh found h k = h
  mark-Walked id ids node seen (done (bytes, after)) others fresh found (g, inner) k =
      last (others after) (k after)
    where
      last :
          (o : Outcome (Bytes × List Bytes))
          → Walked ids after o
          → Walked (id ∷ ids) seen (o >>= λ (hs, after'). done (bytes ++ hs, after'))
      last failed w = tt
      last out_of_fuel w = w
      last (done (hs, after')) (g', w) = (
        Grows-trans (Grows-mark id node fresh found g inner) g',
        (g'.kept id (g.kept id (ground (arith, text_eq_iff id id))), w),
      )

  hash_node_ids-Walked :
      (hash : DamlNode → List Bytes → Outcome (Bytes × List Bytes)) (ids seen : List Bytes)
      → ((node : DamlNode) (before : List Bytes)
          → Walked (children_of node) before (hash node before))
      → Walked ids seen (hash_node_ids nodes hash ids seen)
  unfolding hash_node_ids
  hash_node_ids-Walked hash [] seen h = (Grows-refl seen, tt)
  hash_node_ids-Walked hash (id ∷ ids) seen h = elim (Bool-cases (is_seen id seen)) [
    | inl again ↦ rw again tt
    | inr first ↦ rw first (
        require-Walked (lookup id nodes) _ (id ∷ ids) seen (λ node found.
          mark-Walked id ids node seen (hash node (id ∷ seen)) (hash_node_ids nodes hash ids) first
            found (h node (id ∷ seen)) (λ after. hash_node_ids-Walked hash ids after h)))
  ]

  pub encode_node_ids-Walked :
      (hash : DamlNode → List Bytes → Outcome (Bytes × List Bytes)) (ids seen : List Bytes)
      (depth : ℕ)
      → (depth ≤ max_node_depth
          → (node : DamlNode) (before : List Bytes)
          → Walked (children_of node) before (hash node before))
      → Walked ids seen (encode_node_ids nodes hash ids seen depth)
  unfolding encode_node_ids hash_node_ids
  encode_node_ids-Walked hash [] seen depth h = elim (Bool-cases (ltb max_node_depth depth)) [
    | inl deep ↦ rw deep (Grows-refl seen, tt)
    | inr fits ↦ rw fits (Grows-refl seen, tt)
  ]
  encode_node_ids-Walked hash (id ∷ ids) seen depth h =
      elim (Bool-cases (ltb max_node_depth depth)) [
        | inl deep ↦ rw deep tt
        | inr fits ↦ rw fits (
            wrap-Walked (hash_node_ids nodes hash (id ∷ ids) seen) _ (id ∷ ids) seen
              (hash_node_ids-Walked hash (id ∷ ids) seen (h (ground arith))))
      ]
