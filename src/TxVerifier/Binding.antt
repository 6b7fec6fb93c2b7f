-- ===== src/TxVerifier/Binding.antt =====
-- What the final hash of crates/tx-verifier/src/hasher.rs binds: two prepared transactions with one hash
-- agree, unless a collision of SHA-256 is at hand.
use silvana_book_agent.Common.{
  ℕ, ◌%◌, ◌^◌, ◌<◌, ◌≡◌, ◌≢◌, ◌⊎◌, inl, inr, refl, sym, ap, ◌∙◌, subst, Bool, true, false, Option,
  none, some, List, [], ◌∷◌, ◌++◌, map, length, arith, All, Bool-cases,
}
use silvana_book_agent.Common.Text.{text_eq, text_eq_iff}
use silvana_book_agent.TxVerifier.Acc.{Bytes, ◌>>=◌}
use silvana_book_agent.TxVerifier.Node.{Create, encode_create_node}
use silvana_book_agent.TxVerifier.CreateRoundTrip.{
  >>=-inv, kept_create, read_create, read_create-encode_create_node,
}
use silvana_book_agent.TxVerifier.Metadata.{
  InputContract, Metadata, SubmitterInfo, encode_record_time, encode_time, hash_input_contract,
  encode_metadata, hash_metadata,
}
use silvana_book_agent.TxVerifier.MetadataReader.{
  MetadataBody, kept_time, read_metadata, read_time, time-Reads,
}
use silvana_book_agent.TxVerifier.MetadataRoundTrip.{
  kept_metadata, input_hashes, input_hashes-nil, input_hashes-inv, read_metadata-encode_metadata,
}

-- Two texts of bytes with one hash
abbrev pub Collision : (Bytes → Bytes) → Type 0
Collision sha256 = (a : Bytes) × (b : Bytes) × (a ≢ b) × (sha256 a ≡ sha256 b)

-- What is encoded takes less than 4 GiB.
abbrev pub IsSmall : Option Bytes → Type 0
IsSmall none = Unit
IsSmall (some bytes) = length bytes < 2 ^ 32

pub same_or_Collision :
    (sha256 : Bytes → Bytes) (a b : Bytes) → sha256 a ≡ sha256 b → (a ≡ b) ⊎ Collision sha256
same_or_Collision sha256 a b e = elim (Bool-cases (text_eq a b)) [
  | inl same ↦ inl ((text_eq_iff a b).0 same)
  | inr other ↦ inr (a, b, (λ p. cc ((text_eq_iff a b).1 p)), e)
]

pub append_inj : (a b c d : Bytes) → length a ≡ length b → a ++ c ≡ b ++ d → (a ≡ b) × (c ≡ d)
append_inj [] [] c d h e = (refl, e)
append_inj [] (y ∷ b) c d h e = absurd (omega arith)
append_inj (x ∷ a) [] c d h e = absurd (omega arith)
append_inj (x ∷ a) (y ∷ b) c d h e =
    let tails : a ++ c ≡ b ++ d = cc in
    let heads : x ≡ y = cc in
    let (same, rest) = append_inj a b c d (omega arith) tails in (cc, rest)

-- The record time as kept, where the version has one
abbrev pub kept_record_time : Bool → Option ℕ → Option (Option ℕ)
kept_record_time true t = some (kept_time t)
kept_record_time false t = none

time_ne_nil : (t : Option ℕ) → encode_time t ≢ []
unfolding encode_time
time_ne_nil none e = cc
time_ne_nil (some v) e = cc

record_time_agree :
    (v w : Bool) (t u : Option ℕ)
    → encode_record_time v t ≡ encode_record_time w u
    → kept_record_time v t ≡ kept_record_time w u
record_time_agree false false t u e = refl
record_time_agree true false t u e = absurd (time_ne_nil t e)
record_time_agree false true t u e = absurd (time_ne_nil u (sym e))
record_time_agree true true t u e =
    let one = time-Reads t [] in
    let two : read_time (encode_time t ++ []) ≡ some (kept_time u, []) =
      subst (λ b. read_time (b ++ []) ≡ some (kept_time u, [])) (sym e) (time-Reads u []) in
    cc

-- The metadata as it matters: parties as sets, integers at their width, contracts as kept, and the
-- record time only where the version hashes it
pub record MetadataView : Type 0 where
  pub head : Option MetadataBody
  pub contracts : List (ℕ × Option Create)
  pub record_time : Option (Option ℕ)

abbrev pub head_of : Metadata → Option SubmitterInfo → Option MetadataBody
head_of m none = none
head_of m (some s) = some (kept_metadata m s [])

module _ (hex_decode : Bytes → Option Bytes) (render : Bytes → Bytes) where
  abbrev pub kept_contract : Option Create → Option Create
  kept_contract none = none
  kept_contract (some c) = some (kept_create hex_decode render c)

  abbrev pub kept_input : InputContract → ℕ × Option Create
  kept_input ic = (ic.created_at % 2 ^ 64, kept_contract ic.contract)

  abbrev pub metadata_view : Metadata → Bool → MetadataView
  metadata_view m is_v3 = record {
    head = head_of m m.submitter_info;
    contracts = map kept_input m.input_contracts;
    record_time = kept_record_time is_v3 m.max_record_time;
  }

  -- Each input contract is encoded in less than 4 GiB.
  abbrev pub AreSmall : List InputContract → Type 0
  AreSmall = All (λ ic. IsSmall (ic.contract >>= λ c. encode_create_node hex_decode c none))

  module _ (sha256 : Bytes → Bytes) where
    input_agree :
        (x y : InputContract) {h : Bytes}
        → hash_input_contract hex_decode sha256 x ≡ some h
        → hash_input_contract hex_decode sha256 y ≡ some h
        → IsSmall (x.contract >>= λ c. encode_create_node hex_decode c none)
        → IsSmall (y.contract >>= λ c. encode_create_node hex_decode c none)
        → (kept_contract x.contract ≡ kept_contract y.contract) ⊎ Collision sha256
    unfolding hash_input_contract
    input_agree x y {h} e e' small small' =
        let (c, e₁, f₁) = >>=-inv x.contract _ e in
        let (bytes, e₂, f₂) = >>=-inv (encode_create_node hex_decode c none) _ f₁ in
        let (d, e₃, f₃) = >>=-inv y.contract _ e' in
        let (bytes', e₄, f₄) = >>=-inv (encode_create_node hex_decode d none) _ f₃ in
        let same : sha256 (0x01 ∷ bytes) ≡ sha256 (0x01 ∷ bytes') = cc in
        let small₁ : length bytes < 2 ^ 32 = rw (e₁, e₂) at small in
        let small₂ : length bytes' < 2 ^ 32 = rw (e₃, e₄) at small' in
        elim (same_or_Collision sha256 (0x01 ∷ bytes) (0x01 ∷ bytes') same) [
          | inr collision ↦ inr collision
          | inl eq ↦
              let tails : bytes ≡ bytes' = cc in
              let one =
                read_create-encode_create_node hex_decode render c none bytes [] tt e₂ small₁ in
              let two =
                read_create-encode_create_node hex_decode render d none bytes' [] tt e₄ small₂ in
              let two' : read_create render (bytes ++ [])
                  ≡ some ((kept_create hex_decode render d, none), []) =
                subst
                  (λ b.
                    read_create render (b ++ [])
                    ≡ some ((kept_create hex_decode render d, none), []))
                  (sym tails) two in
              let kept : kept_create hex_decode render c ≡ kept_create hex_decode render d = cc in
              inl (rw (e₁, e₃, kept) refl)
        ]

    inputs_agree :
        (xs ys : List InputContract) {hashes : List (ℕ × Bytes)}
        → input_hashes hex_decode sha256 xs ≡ some hashes
        → input_hashes hex_decode sha256 ys ≡ some hashes
        → AreSmall xs
        → AreSmall ys
        → (map kept_input xs ≡ map kept_input ys) ⊎ Collision sha256
    inputs_agree [] [] e e' small small' = inl refl
    inputs_agree [] (y ∷ ys) e e' small small' =
        let none_left = input_hashes-nil hex_decode sha256 e in
        let (h, others, _, _, f) = input_hashes-inv hex_decode sha256 y ys e' in
        absurd (cc (none_left, f))
    inputs_agree (x ∷ xs) [] e e' small small' =
        let none_left = input_hashes-nil hex_decode sha256 e' in
        let (h, others, _, _, f) = input_hashes-inv hex_decode sha256 x xs e in
        absurd (cc (none_left, f))
    inputs_agree (x ∷ xs) (y ∷ ys) e e' small small' =
        let (h, others, e₁, e₂, f) = input_hashes-inv hex_decode sha256 x xs e in
        let (h', others', e₃, e₄, f') = input_hashes-inv hex_decode sha256 y ys e' in
        let times : x.created_at % 2 ^ 64 ≡ y.created_at % 2 ^ 64 = cc in
        let same_h : h' ≡ h = cc in
        let same_rest : others' ≡ others = cc in
        elim (input_agree x y e₁ (e₃ ∙ ap some same_h) small.0 small'.0) [
          | inr collision ↦ inr collision
          | inl first ↦ elim (inputs_agree xs ys e₂ (e₄ ∙ ap some same_rest) small.1 small'.1) [
            | inr collision ↦ inr collision
            | inl rest ↦ inl (cc)
          ]
        ]

    -- If two metadata have one hash, and their encodings take less than 4 GiB, then they agree in all
    -- that the hash covers, the version included, or a collision of the hash function is at hand.
    pub hash_metadata_binds :
        (sha256_length : (bytes : Bytes) → length (sha256 bytes) ≡ 32) (m n : Metadata) (v w : Bool)
        {h : Bytes}
        → hash_metadata hex_decode sha256 m v ≡ some h
        → hash_metadata hex_decode sha256 n w ≡ some h
        → IsSmall (encode_metadata hex_decode sha256 m v)
        → IsSmall (encode_metadata hex_decode sha256 n w)
        → AreSmall m.input_contracts
        → AreSmall n.input_contracts
        → (metadata_view m v ≡ metadata_view n w) ⊎ Collision sha256
    unfolding hash_metadata
    hash_metadata_binds sha256_length m n v w e e' small small' smalls smalls' =
        let (bytes, e₁, f₁) = >>=-inv (encode_metadata hex_decode sha256 m v) _ e in
        let (bytes', e₂, f₂) = >>=-inv (encode_metadata hex_decode sha256 n w) _ e' in
        let same : sha256 bytes ≡ sha256 bytes' = cc in
        elim (same_or_Collision sha256 bytes bytes' same) [
          | inr collision ↦ inr collision
          | inl eq ↦
              let small₁ : length bytes < 2 ^ 32 = rw e₁ at small in
              let small₂ : length bytes' < 2 ^ 32 = rw e₂ at small' in
              let (s, hs, m₁, i₁, r₁) =
                read_metadata-encode_metadata hex_decode sha256 sha256_length m v e₁ small₁ in
              let (s', hs', m₂, i₂, r₂) =
                read_metadata-encode_metadata hex_decode sha256 sha256_length n w e₂ small₂ in
              let both : ◌≡◌ {A = Option (MetadataBody × Bytes)}
                  (some (kept_metadata m s hs, encode_record_time v m.max_record_time))
                  (some (kept_metadata n s' hs', encode_record_time w n.max_record_time)) =
                sym r₁ ∙ ap read_metadata eq ∙ r₂ in
              let body : kept_metadata m s hs ≡ kept_metadata n s' hs' = cc both in
              let times = record_time_agree v w m.max_record_time n.max_record_time (cc both) in
              let hashes : hs' ≡ hs = sym (ap (λ (b : MetadataBody). b.inputs) body) in
              let head : kept_metadata m s [] ≡ kept_metadata n s' [] =
                ap (λ (b : MetadataBody). record b { inputs = [] }) body in
              elim (inputs_agree m.input_contracts n.input_contracts i₁ (i₂ ∙ ap some hashes) smalls
                smalls') [
                  | inr collision ↦ inr collision
                  | inl contracts ↦ inl (rw (m₁, m₂, head, contracts, times) refl)
                ]
        ]
