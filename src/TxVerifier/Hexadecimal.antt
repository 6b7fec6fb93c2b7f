-- ===== src/TxVerifier/Hexadecimal.antt =====
-- Hexadecimal text, as the tests read and write it, and two created contracts that have the same bytes.
use silvana_book_agent.Common.{
  ℕ, ◌+◌, ◌-◌, ◌*◌, ◌/◌, ◌%◌, ◌<◌, ◌≡◌, ◌≢◌, refl, ap, ◌&&◌, Option, none, some, [], ◌∷◌, ◌++◌,
  length, leb, ltb, if◌then◌else◌, arith,
}
use silvana_book_agent.Common.Text.{codes}
use silvana_book_agent.TxVerifier.Acc.{
  Bytes, hex_bytes, i32_val, bytes_val, encode_identifier, split_dots, strs_val,
}
use silvana_book_agent.TxVerifier.Value.{encode_value, encode_value_at}
use silvana_book_agent.TxVerifier.Node.{encode_create_node, encode_required}
use silvana_book_agent.TxVerifier.Verify.{zeros}
use silvana_book_agent.TxVerifier.SeedLength.{spliced, forged, encode_create_node_ambiguous}
use silvana_book_agent.TxVerifier.Examples.{holding, template, two_texts_bytes}

abbrev nibble : ℕ → Option ℕ
nibble c =
    if leb 48 c && leb c 57
    then some (c - 48)
    else if leb 97 c && leb c 102
    then some (c - 87)
    else if leb 65 c && leb c 70
    then some (c - 55)
    else none

abbrev pair : Option ℕ → Option ℕ → Option Bytes → Option Bytes
pair (some a) (some b) (some rest) = some ((16 * a + b) ∷ rest)
pair (some a) (some b) none = none
pair (some a) none rest = none
pair none b rest = none

-- An odd count of digits, or another character, is an error.
abbrev from_hex : Bytes → Option Bytes
from_hex [] = some []
from_hex (a ∷ []) = none
from_hex (a ∷ b ∷ rest) = pair (nibble a) (nibble b) (from_hex rest)

abbrev digit : ℕ → ℕ
digit n = if ltb n 10 then 48 + n else 87 + n

abbrev to_hex : Bytes → Bytes
to_hex [] = []
to_hex (b ∷ bytes) = digit (b / 16) ∷ digit (b % 16) ∷ to_hex bytes

abbrev id_bytes : Bytes
id_bytes = 0 ∷ 0 ∷ 0 ∷ 1 ∷ 0 ∷ []

-- What `holding` has in its bytes behind the version, up to the argument's end
abbrev behind_version : Bytes
behind_version =
    id_bytes
    ++ (0 ∷ 0 ∷ 0 ∷ 1 ∷ 110 ∷ 0 ∷ 0 ∷ 0 ∷ 1 ∷ 112 ∷ 0 ∷ 0 ∷ 0 ∷ 2 ∷ 0 ∷ 0 ∷ 0 ∷ 1 ∷ 65 ∷ 0 ∷ 0 ∷ 0
        ∷ 1 ∷ 66 ∷ 0 ∷ 0 ∷ 0 ∷ 1 ∷ 0 ∷ 0 ∷ 0 ∷ 1 ∷ 67 ∷ two_texts_bytes)

holding_id : hex_bytes from_hex (codes "00") ≡ some id_bytes
unfolding hex_bytes i32_val bytes_val
holding_id = refl

other_id : hex_bytes from_hex (codes "11") ≡ some (0 ∷ 0 ∷ 0 ∷ 1 ∷ 17 ∷ [])
unfolding hex_bytes i32_val bytes_val
other_id = refl

argument_encoded : encode_required from_hex holding.argument ≡ some two_texts_bytes
unfolding encode_value encode_value_at i32_val bytes_val
argument_encoded = refl

digits_read :
    from_hex (to_hex behind_version) ≡ some (spliced holding id_bytes template two_texts_bytes)
unfolding i32_val bytes_val encode_identifier split_dots strs_val
digits_read = refl

abbrev first : Bytes → ℕ
first [] = 0
first (b ∷ _) = b

ids_differ : holding.contract_id ≢ codes "11"
ids_differ e = absurd (omega (arith, ap first e))

encode_create_node_ambiguous_example :
    let b = forged holding (codes "11") (codes "m") template (to_hex behind_version) in
    (holding ≢ b)
    × ((seed' bytes : Bytes) × (length (zeros 32) < length seed')
        × (encode_create_node from_hex holding (some seed') ≡ some bytes)
        × (encode_create_node from_hex b (some (zeros 32)) ≡ some bytes))
encode_create_node_ambiguous_example =
    encode_create_node_ambiguous from_hex holding template id_bytes two_texts_bytes (codes "11")
      (codes "m") template (0 ∷ 0 ∷ 0 ∷ 1 ∷ 17 ∷ []) (zeros 32) (to_hex behind_version) holding_id
      refl argument_encoded other_id ids_differ digits_read
