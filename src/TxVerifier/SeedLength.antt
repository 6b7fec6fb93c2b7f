-- ===== src/TxVerifier/SeedLength.antt =====
-- What `encode_create_node` of crates/tx-verifier/src/hasher.rs does with a seed of another length.
use mathlib.Core.List.{append_assoc}
use silvana_book_agent.Common.{
  ◌≡◌, ◌≢◌, ◌<◌, refl, ap, arith, ℕ, length-append, Option, some, ◌∷◌, ◌++◌, length,
}
use silvana_book_agent.TxVerifier.Acc.{
  Bytes, bytes_val, hex_bytes, len_val, Identifier, encode_identifier,
}
use silvana_book_agent.TxVerifier.Value.{set, contract_id, present, encode_value, encode_value_at}
use silvana_book_agent.TxVerifier.CreateRoundTrip.{create_bytes}
use silvana_book_agent.TxVerifier.Node.{Create, encode_seed, encode_required, encode_create_node}

longer :
    (a b c e : Bytes) (tag : ℕ) (rest : Bytes)
    → length a < length (a ++ (b ++ (c ++ (e ++ (tag ∷ rest)))))
longer a b c e tag rest = omega (
  arith,
  length-append a (b ++ (c ++ (e ++ (tag ∷ rest)))),
  length-append b (c ++ (e ++ (tag ∷ rest))),
  length-append c (e ++ (tag ∷ rest)),
  length-append e (tag ∷ rest),
)

-- What the bytes of a created contract have between its version and the argument's end
abbrev pub spliced : Create → Bytes → Identifier → Bytes → Bytes
spliced a id template argument =
    id ++ (bytes_val a.package_name ++ (encode_identifier template ++ argument))

-- The same contract but for its id, package, template and argument, which is a contract id
abbrev pub forged : Create → Bytes → Bytes → Identifier → Bytes → Create
forged a other_id other_name other_template digits = record a {
  contract_id = other_id;
  package_name = other_name;
  template_id = some other_template;
  argument = present (set (contract_id digits));
}

module _ (hex_decode : Bytes → Option Bytes) where
  hex_bytes-digits :
      (digits blob : Bytes)
      → hex_decode digits ≡ some blob
      → hex_bytes hex_decode digits ≡ some (bytes_val blob)
  unfolding hex_bytes
  hex_bytes-digits digits blob h = rw h refl

  -- The seed's length is not checked, and the seed stands in the bytes without it. So whatever
  -- created contract `a` can be encoded (its contract id to `id`, its argument to `argument`), and
  -- whatever package, template, seed and other contract id are chosen for a second one: if its
  -- argument is the contract id whose hexadecimal digits are those of a's own bytes behind its
  -- version, then it differs from `a`, and there is a seed for `a` with which both nodes have the
  -- same bytes, and hence the same hash. That seed is longer than the second one.
  pub encode_create_node_ambiguous :
      (a : Create) (template : Identifier) (id argument : Bytes) (other_id other_name : Bytes)
      (other_template : Identifier) (other seed digits : Bytes)
      → hex_bytes hex_decode a.contract_id ≡ some id
      → a.template_id ≡ some template
      → encode_required hex_decode a.argument ≡ some argument
      → hex_bytes hex_decode other_id ≡ some other
      → a.contract_id ≢ other_id
      → hex_decode digits ≡ some (spliced a id template argument)
      → let b = forged a other_id other_name other_template digits in
        (a ≢ b)
        × ((seed' bytes : Bytes) × (length seed < length seed')
            × (encode_create_node hex_decode a (some seed') ≡ some bytes)
            × (encode_create_node hex_decode b (some seed) ≡ some bytes))
  unfolding encode_create_node encode_value encode_value_at bytes_val encode_seed
  encode_create_node_ambiguous a template id argument other_id other_name other_template other seed
        digits e₁ e₂ e₃ e₄ differ hex =
      let blob = spliced a id template argument in
      let tail =
        other
        ++ (bytes_val other_name
            ++ (encode_identifier other_template ++ (0x08 ∷ len_val (length blob)))) in
      let b = forged a other_id other_name other_template digits in
      (
        λ same. differ (ap (λ (c : Create). c.contract_id) same),
        (
          seed ++ tail,
          create_bytes a (some (seed ++ tail)) id template argument,
          longer seed other (bytes_val other_name) (encode_identifier other_template) 0x08
              (len_val (length blob)),
          rw (e₁, e₂, e₃) refl,
          rw (e₄, hex_bytes-digits digits blob hex) (ap some (simp append_assoc)),
        ),
      )
