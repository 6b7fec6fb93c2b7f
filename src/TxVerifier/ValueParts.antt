-- ===== src/TxVerifier/ValueParts.antt =====
-- The readers of the parts of a value in crates/tx-verifier/src/hasher.rs: its tag, its counts and texts.
use silvana_book_agent.Common.{
  ℕ, ◌≤◌, ◌≡◌, refl, sym, ap, subst, Option, some, [], ◌∷◌, ◌++◌, length, arith,
}
use silvana_book_agent.TxVerifier.Acc.{Bytes, len_val, bytes_val}
use silvana_book_agent.TxVerifier.Reader.{
  Reader, Reads, IsShort, and_then, answer, and_then-Reads, read_byte, read_i32, read_bytes,
  read_optional, len-Reads, bytes-Reads, length-bytes_val,
}
use silvana_book_agent.TxVerifier.Value.{◌then_bytes◌, ◌then_both◌, label_val}
use silvana_book_agent.TxVerifier.ValueReader.{or_empty}
use silvana_book_agent.TxVerifier.ValueLengths.{
  then_bytes_inv, then_both_inv, front-IsShort, back-IsShort,
}

pub tail-IsShort : (tag : ℕ) (body : Bytes) → IsShort (tag ∷ body) → IsShort body
tail-IsShort tag body h = omega arith

module _ {ℓ} {A : Type ℓ} (r : Reader A) (a : A) where
  -- The bytes of a value that is encoded without fail
  pub whole-Reads :
      (tag : ℕ) (body : Bytes) {bytes : Bytes}
      → some (tag ∷ body) ≡ some bytes
      → IsShort bytes
      → (IsShort body → Reads r (tag ∷ body) a)
      → Reads r bytes a
  whole-Reads tag body {bytes} e short h =
      let e' : tag ∷ body ≡ bytes = cc e in
      subst (λ bs. Reads r bs a) e' (h (tail-IsShort tag body (subst IsShort (sym e') short)))

  -- The bytes of one whose encoding goes on behind `front`
  pub behind-Reads :
      (tag : ℕ) (front : Bytes) (o : Option Bytes) {bytes : Bytes}
      → ((tag ∷ front) then_bytes o) ≡ some bytes
      → IsShort bytes
      → ((back : Bytes)
          → o ≡ some back
          → IsShort (front ++ back)
          → Reads r (tag ∷ (front ++ back)) a)
      → Reads r bytes a
  behind-Reads tag front o e short h =
      let (back, e', split) = then_bytes_inv (tag ∷ front) o e in
      whole-Reads tag (front ++ back) (ap some (sym split)) short (h back e')

  pub both-Reads :
      (one two : Option Bytes) {bytes : Bytes}
      → (one then_both two) ≡ some bytes
      → IsShort bytes
      → ((front back : Bytes)
          → one ≡ some front
          → two ≡ some back
          → IsShort front
          → IsShort back
          → Reads r (front ++ back) a)
      → Reads r bytes a
  both-Reads one two {bytes} e short h =
      let (front, back, e', e'', split) = then_both_inv one two e in
      let short' : IsShort (front ++ back) = subst IsShort split short in
      subst (λ bs. Reads r bs a) (sym split)
        (h front back e' e'' (front-IsShort front back short') (back-IsShort front back short'))

  pub then-Reads :
      (front : Bytes) (o : Option Bytes) {bytes : Bytes}
      → (front then_bytes o) ≡ some bytes
      → IsShort bytes
      → ((back : Bytes) → o ≡ some back → IsShort front → IsShort back → Reads r (front ++ back) a)
      → Reads r bytes a
  then-Reads front o e short h = both-Reads (some front) o e short (λ f back e' e'' s s'.
      let same : front ≡ f = cc e' in
      subst (λ g. Reads r (g ++ back) a) same (h back e'' (subst IsShort (sym same) s) s'))

-- A list behind its length
pub counted-Reads {ℓ} :
    {A : Type ℓ} (r : ℕ → Reader A) (n : ℕ) (back : Bytes) (a : A)
    → n ≤ length back
    → IsShort (len_val n ++ back)
    → (IsShort back → Reads (r n) back a)
    → Reads (and_then read_i32 r) (len_val n ++ back) a
counted-Reads r n back a h short reads =
    let short' : IsShort back = back-IsShort (len_val n) back short in
    and_then-Reads read_i32 r (len_val n) back n a (len-Reads n (omega arith)) (reads short')

pub bytes_short : (s : Bytes) → IsShort (bytes_val s) → Reads read_bytes (bytes_val s) s
bytes_short s h = bytes-Reads s (omega (arith, length-bytes_val s))

pub label-Reads :
    (l : Bytes)
    → IsShort (label_val l)
    → Reads (answer or_empty (read_optional read_bytes)) (label_val l) l
unfolding read_optional read_byte
label-Reads [] h = λ rest. refl
label-Reads (c ∷ s) h =
    λ rest. rw (bytes-Reads (c ∷ s) (omega (arith, length-bytes_val (c ∷ s))) rest)
