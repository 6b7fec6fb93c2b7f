-- ===== src/TxVerifier/PartySets.antt =====
-- Party sets: `string_set` of crates/tx-verifier/src/hasher.rs sorts the parties, so that their order does
-- not matter to the hash.
use mathlib.Core.List.{Permᴰ}
use silvana_book_agent.Common.{
  ◌≡◌, refl, ap, ◌∙◌, true, false, List, [], ◌∷◌, ◌++◌, length, arith, Option,
}
use silvana_book_agent.Common.Text.{text_lt}
use silvana_book_agent.TxVerifier.Node.{Exercise, encode_exercise_node}
use silvana_book_agent.TxVerifier.Acc.{Bytes, insert_string, sort, string_set, len_val, strs_val}

text_lt_asymm : (s t : Bytes) → text_lt s t ≡ true → text_lt t s ≡ false
text_lt_asymm [] [] h = refl
text_lt_asymm [] (_ ∷ _) h = refl
text_lt_asymm (_ ∷ _) [] h = cc
text_lt_asymm (a ∷ s) (b ∷ t) h = ground (arith, text_lt_asymm s t)

-- Neither comes first of one text only.
text_lt_connex : (s t : Bytes) → text_lt s t ≡ false → text_lt t s ≡ false → s ≡ t
text_lt_connex [] [] h k = refl
text_lt_connex [] (_ ∷ _) h k = cc
text_lt_connex (_ ∷ _) [] h k = cc
text_lt_connex (a ∷ s) (b ∷ t) h k = ground (arith, text_lt_connex s t)

-- What is not after `t` is before all that is after `t`.
text_lt_trans : (s t u : Bytes) → text_lt t s ≡ false → text_lt t u ≡ true → text_lt s u ≡ true
text_lt_trans s [] [] h k = cc
text_lt_trans [] [] (_ ∷ _) h k = refl
text_lt_trans (_ ∷ _) [] (_ ∷ _) h k = cc
text_lt_trans s (_ ∷ _) [] h k = cc
text_lt_trans [] (_ ∷ _) (_ ∷ _) h k = refl
text_lt_trans (a ∷ s) (b ∷ t) (c ∷ u) h k = ground (arith, text_lt_trans s t u)

insert_string_comm :
    (s t : Bytes) (ss : List Bytes)
    → insert_string s (insert_string t ss) ≡ insert_string t (insert_string s ss)
unfolding insert_string
insert_string_comm s t [] = ground (arith, text_lt_asymm s t, text_lt_connex s t)
insert_string_comm s t (x ∷ ss) = ground (
  arith,
  text_lt_asymm s t,
  text_lt_connex s t,
  text_lt_trans s x t,
  text_lt_trans t x s,
  insert_string_comm s t ss,
)

sort_perm : {xs ys : List Bytes} → Permᴰ xs ys → sort xs ≡ sort ys
unfolding sort
sort_perm Permᴰ.nil = refl
sort_perm (Permᴰ.cons {a = a} {l₂ = l₂} e p) =
    ap (insert_string a) (sort_perm p) ∙ ap (λ x. insert_string x (sort l₂)) e
sort_perm (Permᴰ.swap {a = a} {b = b} {a' = a'} {l = l} e e') =
    insert_string_comm a b (sort l)
    ∙ ap (λ x. insert_string x (insert_string a (sort l))) e'
    ∙ ap (λ x. insert_string a' (insert_string x (sort l))) e
sort_perm (Permᴰ.trans p q) = sort_perm p ∙ sort_perm q

-- Lists with the same parties, as often, in whatever order, are encoded alike.
pub string_set_perm : {xs ys : List Bytes} → Permᴰ xs ys → string_set xs ≡ string_set ys
unfolding string_set
string_set_perm p = ap (λ ss. len_val (length ss) ++ strs_val ss) (sort_perm p)

-- An exercise node with the same signatories, stakeholders, acting parties and choice observers,
-- as often and in whatever order, is encoded into the same bytes, or fails alike.
pub encode_exercise_node_perm :
    (hex_decode : Bytes → Option Bytes) (e : Exercise) (seed : Bytes)
    {signatories stakeholders acting observers : List Bytes}
    → Permᴰ signatories e.signatories
    → Permᴰ stakeholders e.stakeholders
    → Permᴰ acting e.acting_parties
    → Permᴰ observers e.choice_observers
    → encode_exercise_node hex_decode
        (record e {
          signatories = signatories;
          stakeholders = stakeholders;
          acting_parties = acting;
          choice_observers = observers;
        })
        seed
      ≡ encode_exercise_node hex_decode e seed
unfolding encode_exercise_node
encode_exercise_node_perm hex_decode e seed p q r s =
    simp (string_set_perm p, string_set_perm q, string_set_perm r, string_set_perm s)
