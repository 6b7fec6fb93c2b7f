-- ===== src/TxVerifier/CreateRoundTrip.antt =====
-- `encode_create_node` of crates/tx-verifier/src/hasher.rs: what of a created contract the encoding
-- keeps, and what it does not tell apart.
use silvana_book_agent.Common.{
  ℕ, ◌^◌, ◌<◌, ◌≡◌, inl, inr, refl, sym, subst, Option, none, some, List, [], ◌∷◌, ◌++◌, length,
  Option-cases,
}
use silvana_book_agent.TxVerifier.Acc.{
  Bytes, ◌>>=◌, bytes_val, hex_bytes, sort, string_set, Identifier, encode_identifier,
}
use silvana_book_agent.TxVerifier.Reader.{
  Reader, Reads, IsShort, and_then, answer, and_then-Reads, answer-Reads, read_byte, read_raw,
  read_bytes, read_optional, read_identifier, read_set, set-Reads, identifier-Reads, read_raw-Reads,
}
use silvana_book_agent.TxVerifier.Value.{MaybeValue, missing, present}
use silvana_book_agent.TxVerifier.ValueReader.{read_value, kept, kept_id, kept_maybe}
use silvana_book_agent.TxVerifier.ValueLengths.{front-IsShort, back-IsShort}
use silvana_book_agent.TxVerifier.ValueParts.{bytes_short}
use silvana_book_agent.TxVerifier.ValueRoundTrip.{read_value-encode_value}
use silvana_book_agent.TxVerifier.Node.{Create, encode_seed, encode_required, encode_create_node}

pub >>=-inv {ℓ κ} :
    {A : Type ℓ} {B : Type κ} (o : Option A) (f : A → Option B) {b : B}
    → (o >>= f) ≡ some b
    → (a : A) × (o ≡ some a) × (f a ≡ some b)
>>=-inv none f h = absurd (cc h)
>>=-inv (some a) f h = (a, refl, h)

-- One part of a chain of readers, then the others
pub step-Reads {ℓ κ} :
    {A : Type ℓ} {B : Type κ} (r : Reader A) (k : A → Reader B) (front back : Bytes) (a : A) (b : B)
    → IsShort (front ++ back)
    → (IsShort front → Reads r front a)
    → (IsShort back → Reads (k a) back b)
    → Reads (and_then r k) (front ++ back) b
step-Reads r k front back a b short h h' =
    and_then-Reads r k front back a b (h (front-IsShort front back short))
      (h' (back-IsShort front back short))

pub string_set-Reads :
    (vals : List Bytes) → IsShort (string_set vals) → Reads read_set (string_set vals) (sort vals)
unfolding string_set
string_set-Reads vals h = set-Reads (sort vals) h

-- A seed of the 32 bytes that a hash has, or none
abbrev pub IsSeed : Option Bytes → Type 0
IsSeed none = Unit
IsSeed (some seed) = length seed ≡ 32

abbrev pub read_seed : Reader (Option Bytes)
read_seed = read_optional (read_raw 32)

pub seed-Reads : (seed : Option Bytes) → IsSeed seed → Reads read_seed (encode_seed seed) seed
unfolding read_optional read_byte encode_seed
seed-Reads none h rest = refl
seed-Reads (some seed) h rest =
    let whole : read_raw 32 (seed ++ rest) ≡ some (seed, rest) =
      subst (λ (n : ℕ). read_raw n (seed ++ rest) ≡ some (seed, rest)) h
        (read_raw-Reads seed rest) in
    rw whole refl

pub hex_bytes-Reads :
    (hex_decode : Bytes → Option Bytes) (render : Bytes → Bytes) (s : Bytes) {bytes : Bytes}
    → hex_bytes hex_decode s ≡ some bytes
    → IsShort bytes
    → Reads (answer render read_bytes) bytes (kept_id hex_decode render s)
unfolding hex_bytes
hex_bytes-Reads hex_decode render s {bytes} h short = elim (Option-cases (hex_decode s)) [
  | inl bad ↦ absurd (cc (rw bad at h))
  | inr (decoded, e) ↦
      let e' : bytes_val decoded ≡ bytes = cc (rw e at h) in
      rw (e, kept_id)
        (subst (λ bs. Reads (answer render read_bytes) bs (render decoded)) e'
          (answer-Reads render read_bytes (bytes_val decoded) decoded
            (bytes_short decoded (subst IsShort (sym e') short))))
]

-- The bytes of a node, from those of the parts that may fail
abbrev pub create_bytes : Create → Option Bytes → Bytes → Identifier → Bytes → Bytes
create_bytes c seed id template argument =
    bytes_val c.lf_version
    ++ (0x00
        ∷ (encode_seed seed
            ++ (id
                ++ (bytes_val c.package_name
                    ++ (encode_identifier template
                        ++ (argument
                            ++ (string_set c.signatories ++ string_set c.stakeholders)))))))

module _ (render : Bytes → Bytes) where
  pub read_create : Reader (Create × Option Bytes)
  read_create = and_then read_bytes (λ version. and_then read_byte (λ _. and_then read_seed (λ seed.
      and_then (answer render read_bytes) (λ id. and_then read_bytes (λ name.
        and_then read_identifier (λ template.
          and_then (answer present (read_value render 128)) (λ argument.
            and_then read_set (λ signatories.
              answer
                (λ stakeholders. (
                  record {
                    lf_version = version;
                    contract_id = id;
                    package_name = name;
                    template_id = some template;
                    argument = argument;
                    signatories = signatories;
                    stakeholders = stakeholders;
                  },
                  seed,
                ))
                read_set))))))))

module _ (hex_decode : Bytes → Option Bytes) (render : Bytes → Bytes) where
  -- What the encoding keeps of a created contract: the parties as sets.
  unfoldable pub kept_create : Create → Create
  kept_create c = record c {
    contract_id = kept_id hex_decode render c.contract_id;
    argument = kept_maybe hex_decode render c.argument;
    signatories = sort c.signatories;
    stakeholders = sort c.stakeholders;
  }

  required-Reads :
      (v : MaybeValue) {bytes : Bytes}
      → encode_required hex_decode v ≡ some bytes
      → IsShort bytes
      → Reads (answer present (read_value render 128)) bytes (kept_maybe hex_decode render v)
  unfolding kept_maybe
  required-Reads missing e h = absurd (cc e)
  required-Reads (present v) {bytes} e h =
      answer-Reads present (read_value render 128) bytes (kept hex_decode render v)
        (λ rest. read_value-encode_value hex_decode render v bytes rest e h)

  create_bytes-Reads :
      (c : Create) (seed : Option Bytes) (id : Bytes) (template : Identifier) (argument : Bytes)
      → IsSeed seed
      → hex_bytes hex_decode c.contract_id ≡ some id
      → c.template_id ≡ some template
      → encode_required hex_decode c.argument ≡ some argument
      → IsShort (create_bytes c seed id template argument)
      → Reads (read_create render) (create_bytes c seed id template argument) (kept_create c, seed)
  unfolding read_create read_byte kept_create
  create_bytes-Reads c seed id template argument is_seed e₁ e₂ e₃ short =
      step-Reads read_bytes _ (bytes_val c.lf_version) _ c.lf_version (kept_create c, seed) short
        (bytes_short c.lf_version)
        (λ short rest.
          step-Reads read_seed _ (encode_seed seed) _ seed (kept_create c, seed)
            (back-IsShort (0x00 ∷ []) _ short) (λ _. seed-Reads seed is_seed)
            (λ short.
              step-Reads (answer render read_bytes) _ id _ (kept_id hex_decode render c.contract_id)
                (kept_create c, seed) short (hex_bytes-Reads hex_decode render c.contract_id e₁)
                (λ short.
                  step-Reads read_bytes _ (bytes_val c.package_name) _ c.package_name
                    (kept_create c, seed) short (bytes_short c.package_name)
                    (λ short.
                      step-Reads read_identifier _ (encode_identifier template) _ template
                        (kept_create c, seed) short (identifier-Reads template)
                        (λ short.
                          step-Reads (answer present (read_value render 128)) _ argument _
                            (kept_maybe hex_decode render c.argument) (kept_create c, seed) short
                            (required-Reads c.argument e₃)
                            (λ short.
                              step-Reads read_set _ (string_set c.signatories)
                                (string_set c.stakeholders) (sort c.signatories)
                                (kept_create c, seed) short (string_set-Reads c.signatories)
                                (λ short rest.
                                  rw (string_set-Reads c.stakeholders short rest, ← e₂) refl))))))
            rest)

  -- If a create node is encoded with no seed or one of 32 bytes, in less than 4 GiB, then the
  -- bytes give back the node as kept (its parties sorted, its argument as values are kept) and the
  -- seed, with whatever follows them.
  pub read_create-encode_create_node :
      (c : Create) (seed : Option Bytes) (bytes rest : Bytes)
      → IsSeed seed
      → encode_create_node hex_decode c seed ≡ some bytes
      → length bytes < 2 ^ 32
      → read_create render (bytes ++ rest) ≡ some ((kept_create c, seed), rest)
  unfolding encode_create_node read_create read_byte kept_create
  read_create-encode_create_node c seed bytes rest is_seed e short =
      let (id, e₁, f₁) = >>=-inv (hex_bytes hex_decode c.contract_id) _ e in
      let (template, e₂, f₂) = >>=-inv c.template_id _ f₁ in
      let (argument, e₃, f₃) = >>=-inv (encode_required hex_decode c.argument) _ f₂ in
      let whole : create_bytes c seed id template argument ≡ bytes = cc f₃ in
      subst (λ bs. read_create render (bs ++ rest) ≡ some ((kept_create c, seed), rest)) whole
        (create_bytes-Reads c seed id template argument is_seed e₁ e₂ e₃
          (subst IsShort (sym whole) short) rest)
