-- ===== src/LedgerHealth/Examples.antt =====
-- The breaker on concrete submissions.
use silvana_book_agent.Common.{
  ◌+◌, ◌*◌, ◌≤◌, ◌<◌, ◌≡◌, refl, true, some, List, [], ◌∷◌, arith, any, ◌==◌,
}
use silvana_book_agent.Common.Text.{codes, text_Eq, to_ascii_lowercase, trim, parse_unsigned}
use silvana_book_agent.LedgerHealth.{
  Config, Health, is_unhealthy, resume_at_ms, parse_cooldown_secs, ok, max_cooldown_secs,
  business_rejections, unreachable_phrases, parse_trimmed, in_range,
}
use silvana_book_agent.LedgerHealth.Breaker.{
  Event, failed, succeeded, after, is_dark, is_unhealthy-after, parse_cooldown_secs-bounds,
}

abbrev two_failures : Config
two_failures = record { threshold = 2; cooldown_secs = 60 }

abbrev history : List Event
history = failed 2000 2000 2000 ∷ failed 1000 1000 1000 ∷ succeeded 500 ∷ []

dark_now : is_dark two_failures history 3000 ≡ true
unfolding is_dark resume_at_ms
dark_now = refl

is_unhealthy-after_example :
    is_unhealthy (after two_failures history) 3000 ≡ is_dark two_failures history 3000
is_unhealthy-after_example = is_unhealthy-after two_failures history 3000 (ground arith)

abbrev streak_of_two : Health
streak_of_two = record {
  consecutive_failures = 2;
  unhealthy_until_ms = 62000;
  unhealthy_since_ms = 2000;
}

later : 70001 < resume_at_ms 70000 60
unfolding resume_at_ms
later = ground arith

ninety : parse_cooldown_secs (some (codes " 90")) ≡ ok 90
unfolding parse_cooldown_secs parse_trimmed in_range trim parse_unsigned
ninety = refl

parse_cooldown_secs-bounds_example :
    (90 ≤ max_cooldown_secs) × (resume_at_ms 5000 90 ≡ 5000 + 90 * 1000)
parse_cooldown_secs-bounds_example =
    parse_cooldown_secs-bounds (some (codes " 90")) 90 5000 ninety (ground arith)

listed_phrase :
    any (λ q. q == to_ascii_lowercase (codes "Transport Error")) unreachable_phrases ≡ true
listed_phrase = refl

listed_rejection :
    any (λ q. q == to_ascii_lowercase (codes "INACTIVE_CONTRACTS")) business_rejections ≡ true
listed_rejection = refl
