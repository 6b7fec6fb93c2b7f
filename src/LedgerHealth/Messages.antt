-- ===== src/LedgerHealth/Messages.antt =====
-- Which submission errors count as an outage.
use silvana_book_agent.Common.{
  ◌≡◌, refl, Bool, true, false, List, [], ◌∷◌, ◌++◌, arith, any, ◌==◌, not, if◌then◌else◌,
}
use silvana_book_agent.Common.Text.{
  Text, to_ascii_lowercase, starts_with, contains_text, text_Eq, text_eq_iff,
}
use silvana_book_agent.LedgerHealth.{
  is_sequencer_unreachable, business_rejections, unreachable_phrases,
}

-- Some phrase of the list stands in the message, in any letter case.
abbrev pub mentions : List Text → Text → Bool
mentions phrases msg = any (λ phrase. contains_text phrase (to_ascii_lowercase msg)) phrases

starts_with-append : (p s : Text) → starts_with p (p ++ s) ≡ true
starts_with-append [] s = refl
starts_with-append (c ∷ p) s = ground (arith, starts_with-append p s)

contains-start : (p s : Text) → starts_with p s ≡ true → contains_text p s ≡ true
contains-start p [] h = h
contains-start p (c ∷ s) h = ground arith

contains-append : (before p after : Text) → contains_text p (before ++ (p ++ after)) ≡ true
contains-append [] p after = contains-start p (p ++ after) (starts_with-append p after)
contains-append (c ∷ before) p after = ground (arith, contains-append before p after)

any-listed :
    (p lowered : Text) (phrases : List Text)
    → any (λ q. q == p) phrases ≡ true
    → contains_text p lowered ≡ true
    → any (λ q. contains_text q lowered) phrases ≡ true
any-listed p lowered [] h c = cc
any-listed p lowered (q ∷ phrases) h c =
    ground (arith, text_eq_iff q p, any-listed p lowered phrases)

lower-append :
    (s t : Text) → to_ascii_lowercase (s ++ t) ≡ to_ascii_lowercase s ++ to_ascii_lowercase t
lower-append [] t = refl
lower-append (c ∷ s) t = rw (lower-append s t)

mentions-append :
    (before phrase after : Text) (phrases : List Text)
    → any (λ q. q == to_ascii_lowercase phrase) phrases ≡ true
    → mentions phrases (before ++ (phrase ++ after)) ≡ true
mentions-append before phrase after phrases listed =
    any-listed (to_ascii_lowercase phrase) (to_ascii_lowercase (before ++ (phrase ++ after)))
      phrases listed
      (simp lower-append (
        contains-append (to_ascii_lowercase before) (to_ascii_lowercase phrase)
          (to_ascii_lowercase after)))

-- A message in which one of the phrases of an unreachable ledger stands anywhere, in any letter
-- case, trips the breaker exactly if it mentions no business rejection.
pub is_sequencer_unreachable-append :
    (before phrase after : Text)
    → any (λ q. q == to_ascii_lowercase phrase) unreachable_phrases ≡ true
    → is_sequencer_unreachable (before ++ (phrase ++ after))
      ≡ not (mentions business_rejections (before ++ (phrase ++ after)))
unfolding is_sequencer_unreachable
is_sequencer_unreachable-append before phrase after h =
    let msg = before ++ (phrase ++ after) in
    go (mentions business_rejections msg)
      (mentions-append before phrase after unreachable_phrases h)
  where
    go : (b : Bool) {u : Bool} → u ≡ true → (if b then false else u) ≡ not b
    go true e = refl
    go false e = e

-- A message in which a business rejection stands anywhere, in any letter case, never trips the
-- breaker.
pub is_sequencer_unreachable-rejection :
    (before phrase after : Text)
    → any (λ q. q == to_ascii_lowercase phrase) business_rejections ≡ true
    → is_sequencer_unreachable (before ++ (phrase ++ after)) ≡ false
unfolding is_sequencer_unreachable
is_sequencer_unreachable-rejection before phrase after h =
    rw (mentions-append before phrase after business_rejections h)
