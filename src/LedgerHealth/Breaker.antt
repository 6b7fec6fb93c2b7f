-- ===== src/LedgerHealth/Breaker.antt =====
-- The breaker against its history of submissions, and the settings it reads.
use silvana_book_agent.Common.{
  ℕ, suc, ◌+◌, ◌*◌, ◌^◌, ◌≤◌, ◌<◌, ◌≡◌, refl, Bool, true, false, ◌&&◌, ◌||◌, Option, none, some,
  List, [], ◌∷◌, arith, ltb, leb, length,
}
use silvana_book_agent.Common.Text.{Text, trim}
use silvana_book_agent.LedgerHealth.{
  Config, Health, healthy, record_submit_failure, record_submit_success, is_unhealthy, resume_at_ms,
  unhealthy_since, parse_cooldown_secs, parse_trimmed, ok, max_cooldown_secs, u64_max,
}

-- One submission, with the times at which its record read the clock.
pub data Event : Type 0 where
  failed : ℕ → ℕ → ℕ → Event
  succeeded : ℕ → Event

step : Config → Event → Health → Health
step c (failed t₁ t₂ t₃) s = (record_submit_failure c s t₁ t₂ t₃).0
step c (succeeded now) s = (record_submit_success c s now).0

-- A history is listed newest first.
pub after : Config → List Event → Health
unfolding step
after c [] = healthy
after c (e ∷ older) = step c e (after c older)

-- Failures since the last success.
abbrev pub streak : List Event → ℕ
streak [] = 0
streak (failed _ _ _ ∷ older) = suc (streak older)
streak (succeeded _ ∷ older) = 0

-- Whether some failure since the last success came at a full streak and is still within its cooldown.
unfoldable pub is_dark : Config → List Event → ℕ → Bool
is_dark c [] now = false
is_dark c (succeeded _ ∷ older) now = false
is_dark c (failed t₁ t₂ t₃ ∷ older) now =
    (leb c.threshold (streak (failed t₁ t₂ t₃ ∷ older))
      && ltb now (resume_at_ms t₂ c.cooldown_secs))
    || is_dark c older now

streak-le : (h : List Event) → streak h ≤ length h
streak-le [] = omega arith
streak-le (failed _ _ _ ∷ older) = omega (arith, streak-le older)
streak-le (succeeded _ ∷ older) = omega arith

failures-after :
    (c : Config) (h : List Event) → length h < 2 ^ 64 → (after c h).consecutive_failures ≡ streak h
unfolding after record_submit_failure record_submit_success
failures-after c [] l = refl
failures-after c (failed t₁ t₂ t₃ ∷ older) l =
    ground (arith, failures-after c older, streak-le older)
failures-after c (succeeded now ∷ older) l = refl

-- For every history of fewer than 2^64 submissions the breaker is open at a moment exactly if one
-- of the failures since the last success came when the failures since that success had reached the
-- threshold, and its own cooldown is not over.
pub is_unhealthy-after :
    (c : Config) (h : List Event) (now : ℕ)
    → length h < 2 ^ 64
    → is_unhealthy (after c h) now ≡ is_dark c h now
unfolding is_unhealthy after is_dark record_submit_failure record_submit_success
is_unhealthy-after c [] now l = ground arith
is_unhealthy-after c (succeeded t ∷ older) now l = ground arith
is_unhealthy-after c (failed t₁ t₂ t₃ ∷ older) now l =
    ground (arith, is_unhealthy-after c older now, failures-after c older, streak-le older)

-- Once the breaker has been open it opens again at the first failure of a probe: after a full
-- streak, a failure recorded after the cooldown makes the breaker unhealthy from that time on
-- until the new cooldown ends, gives the start of the new outage, and is reported.
pub probe_failure_reopens :
    (c : Config) (s : Health) (t₁ t₂ t₃ now : ℕ)
    → c.threshold ≤ s.consecutive_failures
    → s.consecutive_failures < u64_max
    → s.unhealthy_until_ms ≤ t₁
    → 0 < t₃
    → now < resume_at_ms t₂ c.cooldown_secs
    → let (s', reported) = record_submit_failure c s t₁ t₂ t₃ in
      (reported ≡ true) × (is_unhealthy s' now ≡ true) × (unhealthy_since s' now ≡ some t₃)
unfolding record_submit_failure is_unhealthy unhealthy_since
probe_failure_reopens c s t₁ t₂ t₃ now full small closed pos early = ground arith

-- A setting for the cooldown that is accepted gives at most 86400 seconds, and with it the
-- deadline of a time below 2^63 milliseconds is exact: it does not saturate.
pub parse_cooldown_secs-bounds :
    (raw : Option Text) (secs now : ℕ)
    → parse_cooldown_secs raw ≡ ok secs
    → now < 2 ^ 63
    → (secs ≤ max_cooldown_secs) × (resume_at_ms now secs ≡ now + secs * 1000)
unfolding parse_cooldown_secs resume_at_ms
parse_cooldown_secs-bounds none secs now h small = ground arith
parse_cooldown_secs-bounds (some raw) secs now h small = go (trim raw) h
  where
    go :
        (s : Text)
        → parse_trimmed s ≡ ok secs
        → (secs ≤ max_cooldown_secs) × (resume_at_ms now secs ≡ now + secs * 1000)
    go [] p = ground arith
    go (c ∷ s) p = ground arith
