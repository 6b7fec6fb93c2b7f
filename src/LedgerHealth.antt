-- ===== src/LedgerHealth.antt =====
-- crates/agent-logic/src/ledger_health.rs: the circuit breaker that stops quoting while the ledger
-- cannot be reached. The three process-wide atomics are one record; each call is one step on it,
-- and every reading of the wall clock is an argument. The environment is read by the caller.
pub mod Breaker
pub mod Messages
mod Examples
use silvana_book_agent.Common.{
  ℕ, ◌+◌, ◌-◌, ◌*◌, ◌%◌, ◌^◌, min, max, Bool, true, false, not, ◌&&◌, ◌||◌, Option, none, some,
  List, [], ◌∷◌, ltb, leb, nat_eq, if◌then◌else◌, any,
}
use silvana_book_agent.Common.Text.{
  Text, codes, trim, parse_unsigned, to_ascii_lowercase, contains_text,
}

abbrev pub u64_max : ℕ
u64_max = 2 ^ 64 - 1

-- `u64::saturating_add` and `u64::saturating_mul`
abbrev pub saturating_add : ℕ → ℕ → ℕ
saturating_add a b = min (a + b) u64_max

abbrev pub saturating_mul : ℕ → ℕ → ℕ
saturating_mul a b = min (a * b) u64_max

pub record Config : Type 0 where
  pub threshold : ℕ
  pub cooldown_secs : ℕ

pub record Health : Type 0 where
  pub consecutive_failures : ℕ
  pub unhealthy_until_ms : ℕ
  pub unhealthy_since_ms : ℕ

abbrev pub healthy : Health
healthy = record { consecutive_failures = 0; unhealthy_until_ms = 0; unhealthy_since_ms = 0 }

abbrev pub default_cooldown_secs : ℕ
default_cooldown_secs = 60

abbrev pub max_cooldown_secs : ℕ
max_cooldown_secs = 86400

-- Why a setting is refused.
pub data SettingError : Type 0 where
  not_a_number : SettingError
  outside_range : ℕ → SettingError

pub data Parsed : Type 0 where
  ok : ℕ → Parsed
  err : SettingError → Parsed

in_range : Option ℕ → Parsed
in_range none = err not_a_number
in_range (some secs) = if ltb max_cooldown_secs secs then err (outside_range secs) else ok secs

parse_trimmed : Text → Parsed
unfolding in_range
parse_trimmed [] = ok default_cooldown_secs
parse_trimmed (c ∷ s) = in_range (parse_unsigned u64_max (c ∷ s))

pub parse_cooldown_secs : Option Text → Parsed
unfolding parse_trimmed
parse_cooldown_secs none = ok default_cooldown_secs
parse_cooldown_secs (some raw) = parse_trimmed (trim raw)

pub resume_at_ms : ℕ → ℕ → ℕ
resume_at_ms now cooldown_secs = saturating_add now (saturating_mul cooldown_secs 1000)

-- The clock is read up to three times; the result also says whether the opening was reported.
pub record_submit_failure : Config → Health → ℕ → ℕ → ℕ → Health × Bool
unfolding resume_at_ms
record_submit_failure c s t₁ t₂ t₃ =
    let failures = saturating_add s.consecutive_failures 1 in
    let counted = record s { consecutive_failures = (s.consecutive_failures + 1) % 2 ^ 64 } in
    let was_healthy = leb s.unhealthy_until_ms t₁ in
    let until = max s.unhealthy_until_ms (resume_at_ms t₂ c.cooldown_secs) in
    if ltb failures c.threshold
    then (counted, false)
    else if was_healthy
    then (record counted { unhealthy_until_ms = until; unhealthy_since_ms = t₃ }, true)
    else (record counted { unhealthy_until_ms = until }, false)

-- The result also says whether the recovery was logged.
pub record_submit_success : Config → Health → ℕ → Health × Bool
record_submit_success c s now =
    (healthy, ltb now s.unhealthy_until_ms || leb c.threshold s.consecutive_failures)

pub is_unhealthy : Health → ℕ → Bool
is_unhealthy s now = ltb now s.unhealthy_until_ms

-- The clock is read once, by `is_unhealthy`.
pub unhealthy_since : Health → ℕ → Option ℕ
unfolding is_unhealthy
unhealthy_since s now =
    if not (is_unhealthy s now)
    then none
    else if nat_eq s.unhealthy_since_ms 0
    then none
    else some s.unhealthy_since_ms

elapsed_since : ℕ → Option ℕ → ℕ
elapsed_since now none = 0
elapsed_since now (some since) = now - since

-- The clock is read a second time for the length.
pub unhealthy_duration_ms : Health → ℕ → ℕ → ℕ
unfolding unhealthy_since elapsed_since
unhealthy_duration_ms s t₁ t₂ = elapsed_since t₂ (unhealthy_since s t₁)

abbrev pub business_rejections : List Text
business_rejections =
    codes "inactive_contracts" ∷ codes "precondition_failed" ∷ codes "duplicate_command" ∷ []

abbrev pub unreachable_phrases : List Text
unreachable_phrases =
    codes "sequencer_request_failed"
    ∷ codes "failed to send command"
    ∷ codes "unavailable"
    ∷ codes "transport error"
    ∷ []

pub is_sequencer_unreachable : Text → Bool
is_sequencer_unreachable msg =
    let lowered = to_ascii_lowercase msg in
    if any (λ phrase. contains_text phrase lowered) business_rejections
    then false
    else any (λ phrase. contains_text phrase lowered) unreachable_phrases
