-- ===== src/PaymentQueue/Streak.antt =====
-- When the shared channel is rebuilt.
use silvana_book_agent.Common.{
  ℕ, suc, ◌≤◌, ◌<◌, ◌^◌, ◌≡◌, refl, Bool, true, false, Option, none, some, List, [], ◌∷◌, arith,
  leb, if◌then◌else◌, length,
}
use silvana_book_agent.PaymentQueue.{record_outcome, get_channel, channel_rebuild_after}

-- Whether each worker that ended since the counter was made had timed out, newest first.
pub replay : List Bool → ℕ
replay [] = 0
replay (timed_out ∷ older) = record_outcome timed_out (replay older)

-- The timeouts since the last worker that did not time out.
abbrev pub run_of_timeouts : List Bool → ℕ
run_of_timeouts [] = 0
run_of_timeouts (true ∷ older) = suc (run_of_timeouts older)
run_of_timeouts (false ∷ older) = 0

run-le : (os : List Bool) → run_of_timeouts os ≤ length os
run-le [] = omega arith
run-le (true ∷ older) = omega (arith, run-le older)
run-le (false ∷ older) = omega arith

replay-run : (os : List Bool) → length os < 2 ^ 32 → replay os ≡ run_of_timeouts os
unfolding replay record_outcome
replay-run [] h = refl
replay-run (true ∷ older) h = ground (arith, replay-run older, run-le older)
replay-run (false ∷ older) h = refl

-- The counter that a rebuilt channel leaves to the workers of the one before.
abbrev pub retired {ℓ} : {A : Type ℓ} → Option A → List ℕ → List ℕ
retired none earlier = earlier
retired (some _) earlier = 0 ∷ earlier

-- A channel is handed out again unless the last three workers on it, or more, all timed out. In
-- that case a new one is dialled; what comes back is the new channel, with a counter at zero that
-- no earlier worker writes, or the dialling error, with no channel kept. (For fewer than 2^32
-- workers since the channel was made.)
pub get_channel-replay :
    {A : Type 0} (ch : A) (dialled : Option A) (os : List Bool) (earlier : List ℕ)
    → length os < 2 ^ 32
    → get_channel dialled (record { channel = some ch; timeouts = replay os; abandoned = earlier })
      ≡ (if leb channel_rebuild_after (run_of_timeouts os)
          then (
            dialled,
            record { channel = dialled; timeouts = 0; abandoned = retired dialled earlier },
          )
          else (
            some ch,
            record { channel = some ch; timeouts = run_of_timeouts os; abandoned = earlier },
          ))
unfolding get_channel
get_channel-replay ch none os earlier h = ground (arith, replay-run os h)
get_channel-replay ch (some new_ch) os earlier h = ground (arith, replay-run os h)
