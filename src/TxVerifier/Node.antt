-- ===== src/TxVerifier/Node.antt =====
-- The nodes of a transaction and the encoding of each: `encode_create_node`, `encode_exercise_node`,
-- `encode_fetch_node` and `encode_rollback_node` of crates/tx-verifier/src/hasher.rs.
use silvana_book_agent.Common.{Bool, Option, none, some, List, [], ◌∷◌, ◌++◌}
use silvana_book_agent.TxVerifier.Acc.{
  Bytes, ◌>>=◌, bool_val, bytes_val, hex_bytes, string_set, Identifier, encode_identifier,
  encode_optional_identifier,
}
use silvana_book_agent.TxVerifier.Value.{MaybeValue, missing, present, encode_value, ◌then_bytes◌}

pub record Create : Type 0 where
  pub lf_version : Bytes
  pub contract_id : Bytes
  pub package_name : Bytes
  pub template_id : Option Identifier
  pub argument : MaybeValue
  pub signatories : List Bytes
  pub stakeholders : List Bytes

pub record Exercise : Type 0 where
  pub lf_version : Bytes
  pub contract_id : Bytes
  pub package_name : Bytes
  pub template_id : Option Identifier
  pub signatories : List Bytes
  pub stakeholders : List Bytes
  pub acting_parties : List Bytes
  pub interface_id : Option Identifier
  pub choice_id : Bytes
  pub chosen_value : MaybeValue
  pub consuming : Bool
  pub exercise_result : MaybeValue
  pub choice_observers : List Bytes
  pub children : List Bytes

pub record Fetch : Type 0 where
  pub lf_version : Bytes
  pub contract_id : Bytes
  pub package_name : Bytes
  pub template_id : Option Identifier
  pub signatories : List Bytes
  pub stakeholders : List Bytes
  pub interface_id : Option Identifier
  pub acting_parties : List Bytes

pub record Rollback : Type 0 where
  pub children : List Bytes

pub data NodeType : Type 0 where
  create : Create → NodeType
  exercise : Exercise → NodeType
  fetch : Fetch → NodeType
  rollback : Rollback → NodeType

-- `versioned_node` may be unset, and so may the `node_type` of its one version.
pub record DamlNode : Type 0 where
  pub node_id : Bytes
  pub versioned_node : Option (Option NodeType)

-- Raw bytes, without their length
unfoldable pub encode_seed : Option Bytes → Bytes
encode_seed (some seed) = 0x01 ∷ seed
encode_seed none = 0x00 ∷ []

module _ (hex_decode : Bytes → Option Bytes) where
  -- `as_ref().context("… missing …")?`, then `encode_value`
  abbrev pub encode_required : MaybeValue → Option Bytes
  encode_required missing = none
  encode_required (present v) = encode_value hex_decode v

  -- `exercise_result`
  abbrev pub encode_result : MaybeValue → Option Bytes
  encode_result missing = some (0x00 ∷ [])
  encode_result (present v) = (0x01 ∷ []) then_bytes encode_value hex_decode v

  -- Without the byte of the node encoding's version, since inputs are encoded so too
  unfoldable pub encode_create_node : Create → Option Bytes → Option Bytes
  encode_create_node c seed = do
    id ← hex_bytes hex_decode c.contract_id
    template ← c.template_id
    argument ← encode_required c.argument
    some (
        bytes_val c.lf_version
        ++ (0x00
            ∷ (encode_seed seed
                ++ (id
                    ++ (bytes_val c.package_name
                        ++ (encode_identifier template
                            ++ (argument
                                ++ (string_set c.signatories ++ string_set c.stakeholders))))))))

  -- All but the children
  unfoldable pub encode_exercise_node : Exercise → Bytes → Option Bytes
  encode_exercise_node e seed = do
    id ← hex_bytes hex_decode e.contract_id
    template ← e.template_id
    chosen ← encode_required e.chosen_value
    result ← encode_result e.exercise_result
    some (
        bytes_val e.lf_version
        ++ (0x01
            ∷ (seed
                ++ (id
                    ++ (bytes_val e.package_name
                        ++ (encode_identifier template
                            ++ (string_set e.signatories
                                ++ (string_set e.stakeholders
                                    ++ (string_set e.acting_parties
                                        ++ (encode_optional_identifier e.interface_id
                                            ++ (bytes_val e.choice_id
                                                ++ (chosen
                                                    ++ (bool_val e.consuming
                                                        ++ (result
                                                            ++ string_set
                                                            e.choice_observers))))))))))))))

  unfoldable pub encode_fetch_node : Fetch → Option Bytes
  encode_fetch_node f = do
    id ← hex_bytes hex_decode f.contract_id
    template ← f.template_id
    some (
        bytes_val f.lf_version
        ++ (0x02
            ∷ (id
                ++ (bytes_val f.package_name
                    ++ (encode_identifier template
                        ++ (string_set f.signatories
                            ++ (string_set f.stakeholders
                                ++ (encode_optional_identifier f.interface_id
                                    ++ string_set f.acting_parties))))))))
