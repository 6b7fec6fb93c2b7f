-- ===== src/TxVerifier/Value.antt =====
-- The values of Daml, and their encoding: `encode_value_at` of crates/tx-verifier/src/hasher.rs. A
-- protobuf message whose fields may be absent has a constructor for its absence.
use silvana_book_agent.Common.{
  ℕ, suc, ◌+◌, Bool, Option, none, some, [], ◌∷◌, ◌++◌, if◌then◌else◌, ltb,
}
use silvana_book_agent.TxVerifier.Acc.{
  Bytes, ◌>>=◌, i32_val, i64_val, bool_val, len_val, bytes_val, hex_bytes, Identifier,
  encode_optional_identifier,
}

mutual
  -- `sum` is an `Option`.
  pub data Value : Type 0 where
    unset : Value
    set : Sum → Value

  pub data Sum : Type 0 where
    unit : Sum
    bool : Bool → Sum
    int64 : ℕ → Sum
    numeric : Bytes → Sum
    timestamp : ℕ → Sum
    date : ℕ → Sum
    party : Bytes → Sum
    text : Bytes → Sum
    contract_id : Bytes → Sum
    optional : MaybeValue → Sum
    list : Values → Sum
    text_map : TextEntries → Sum
    record_fields : Option Identifier → Fields → Sum
    variant : Option Identifier → Bytes → MaybeValue → Sum
    enum : Option Identifier → Bytes → Sum
    gen_map : GenEntries → Sum

  pub data MaybeValue : Type 0 where
    missing : MaybeValue
    present : Value → MaybeValue

  pub data Values : Type 0 where
    no_values : Values
    value : Value → Values → Values

  pub data TextEntries : Type 0 where
    no_texts : TextEntries
    text_entry : Bytes → MaybeValue → TextEntries → TextEntries

  -- A label that is empty is none.
  pub data Fields : Type 0 where
    no_fields : Fields
    field : Bytes → MaybeValue → Fields → Fields

  pub data GenEntries : Type 0 where
    no_gens : GenEntries
    gen_entry : MaybeValue → MaybeValue → GenEntries → GenEntries

abbrev pub max_value_depth : ℕ
max_value_depth = 128

abbrev pub values_len : Values → ℕ
values_len no_values = 0
values_len (value v vs) = suc (values_len vs)

abbrev pub texts_len : TextEntries → ℕ
texts_len no_texts = 0
texts_len (text_entry k v es) = suc (texts_len es)

abbrev pub fields_len : Fields → ℕ
fields_len no_fields = 0
fields_len (field l v fs) = suc (fields_len fs)

abbrev pub gens_len : GenEntries → ℕ
gens_len no_gens = 0
gens_len (gen_entry k v es) = suc (gens_len es)

abbrev pub label_val : Bytes → Bytes
label_val [] = 0x00 ∷ []
label_val (c ∷ s) = 0x01 ∷ bytes_val (c ∷ s)

-- An encoding behind bytes that stand before it, and one behind another
infixr 6 ◌then_bytes◌ ◌then_both◌
abbrev pub ◌then_bytes◌ : Bytes → Option Bytes → Option Bytes
front then_bytes o = o >>= λ back. some (front ++ back)

abbrev pub ◌then_both◌ : Option Bytes → Option Bytes → Option Bytes
one then_both two = one >>= λ front. two >>= λ back. some (front ++ back)

module _ (hex_decode : Bytes → Option Bytes) where
  unfoldable mutual
    pub encode_value_at : ℕ → Value → Option Bytes
    encode_value_at depth unset = none
    encode_value_at depth (set s) =
        let bytes = encode_sum (depth + 1) s in if ltb max_value_depth depth then none else bytes

    -- The sixteen kinds; `next` is the depth of what stands inside.
    pub encode_sum : ℕ → Sum → Option Bytes
    encode_sum next unit = some (0x00 ∷ [])
    encode_sum next (bool b) = some (0x01 ∷ bool_val b)
    encode_sum next (int64 v) = some (0x02 ∷ i64_val v)
    encode_sum next (numeric s) = some (0x03 ∷ bytes_val s)
    encode_sum next (timestamp v) = some (0x04 ∷ i64_val v)
    encode_sum next (date v) = some (0x05 ∷ i32_val v)
    encode_sum next (party s) = some (0x06 ∷ bytes_val s)
    encode_sum next (text s) = some (0x07 ∷ bytes_val s)
    encode_sum next (contract_id s) = (0x08 ∷ []) then_bytes hex_bytes hex_decode s
    encode_sum next (optional missing) = some (0x09 ∷ 0x00 ∷ [])
    encode_sum next (optional (present v)) = (0x09 ∷ 0x01 ∷ []) then_bytes encode_value_at next v
    encode_sum next (list vs) = (0x0a ∷ len_val (values_len vs)) then_bytes encode_values next vs
    encode_sum next (text_map es) = (0x0b ∷ len_val (texts_len es)) then_bytes encode_texts next es
    encode_sum next (record_fields id fs) =
        (0x0c ∷ encode_optional_identifier id ++ len_val (fields_len fs))
        then_bytes encode_fields next fs
    encode_sum next (variant id c v) =
        (0x0d ∷ encode_optional_identifier id ++ bytes_val c) then_bytes encode_present next v
    encode_sum next (enum id c) = some (0x0e ∷ encode_optional_identifier id ++ bytes_val c)
    encode_sum next (gen_map es) = (0x0f ∷ len_val (gens_len es)) then_bytes encode_gens next es

    -- `as_ref().context("… missing value")?`
    pub encode_present : ℕ → MaybeValue → Option Bytes
    encode_present next missing = none
    encode_present next (present v) = encode_value_at next v

    pub encode_values : ℕ → Values → Option Bytes
    encode_values next no_values = some []
    encode_values next (value v vs) = encode_value_at next v then_both encode_values next vs

    pub encode_texts : ℕ → TextEntries → Option Bytes
    encode_texts next no_texts = some []
    encode_texts next (text_entry k v es) =
        (bytes_val k then_bytes encode_present next v) then_both encode_texts next es

    pub encode_fields : ℕ → Fields → Option Bytes
    encode_fields next no_fields = some []
    encode_fields next (field l v fs) =
        (label_val l then_bytes encode_present next v) then_both encode_fields next fs

    pub encode_gens : ℕ → GenEntries → Option Bytes
    encode_gens next no_gens = some []
    encode_gens next (gen_entry k v es) =
        (encode_present next k then_both encode_present next v) then_both encode_gens next es

  unfoldable pub encode_value : Value → Option Bytes
  encode_value = encode_value_at 1
