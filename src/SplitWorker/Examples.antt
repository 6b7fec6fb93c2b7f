-- ===== src/SplitWorker/Examples.antt =====
-- The theorems on splits at concrete inputs.
use silvana_book_agent.Common.{
  true, nat_Eq, ℕ, ◌+◌, ◌-◌, ◌*◌, ◌≤◌, ◌≡◌, refl, false, ◌⊎◌, none, some, List, [], ◌∷◌, arith,
}
use silvana_book_agent.Common.Int.{ℤ, pos, ◌-ℤ◌}
use silvana_book_agent.Common.Text.{Text, codes}
use silvana_book_agent.Common.Decimal.Sample.{hundredths}
use silvana_book_agent.Holdings.{CachedHolding, u32_max, nanos_per_sec}
use silvana_book_agent.Holdings.Pools.{new}
use silvana_book_agent.SplitWorker.Fund.{Quotients, or_max, truncated, fund_splits}
use silvana_book_agent.SplitWorker.Decide.{
  Call, Settings, Decision, covered, split, ensure_denominations,
}
use silvana_book_agent.SplitWorker.{cap_split_outputs, plan_ladder_refill}
use silvana_book_agent.SplitWorker.Plan.{
  total, weight, have_weight, AreStocked, plan_ladder_refill-weight,
}
use silvana_book_agent.SplitWorker.Sample.{quotients, payments}
use silvana_book_agent.SplitWorker.Chunks.{subtract_split_chunk}
use silvana_book_agent.SplitWorker.Outstanding.{count_of, subtract_split_chunk-cap_split_outputs}
use silvana_book_agent.SplitWorker.Attempts.{start, attempt}
use silvana_book_agent.SplitWorker.HourlyBudget.{ops_of_hour, ops_of_hour-bounded}
use silvana_book_agent.SplitWorker.Answers.{IsJustified, ensure_denominations-IsJustified}

abbrev asset : Text
asset = codes "CC"

-- Five holdings of 1.00 and ten of 0.20 are wanted, and those of 1.00 are used up.
abbrev ladder : List (ℤ × ℕ)
ladder = (pos 100, 5) ∷ (pos 20, 10) ∷ []

abbrev counted : List ℕ
counted = 0 ∷ 10 ∷ []

abbrev settings : Settings
settings = record {
  split_low_water_divisor = 4;
  split_min_interval = 600 * nanos_per_sec;
  split_max_ops_per_hour = 3;
}

abbrev two_hours : ℕ
two_hours = 7200 * nanos_per_sec

abbrev call : Call
call = record {
  key = asset;
  job_id = codes "split-1";
  asked_at = two_hours;
  reserved_at = two_hours + 1;
  recorded_at = two_hours + 2;
}

abbrev reserve : CachedHolding hundredths
reserve = record {
  contract_id = codes "r";
  template_id = codes "t";
  instrument = asset;
  amount = pos 300;
  created_event_blob = none;
  synchronizer_id = codes "s";
  discovered_at = 0;
}

refill_test :
    (ensure_denominations hundredths quotients call
      (new hundredths true)
      ladder
      counted
      settings
      (0 ∷ [])
      (some reserve)).0
    ≡ split ((pos 100, 2) ∷ [])
unfolding ensure_denominations plan_ladder_refill silvana_book_agent.SplitWorker.ladder_overfull
    silvana_book_agent.SplitWorker.Gate.split_gate silvana_book_agent.SplitWorker.Gate.ops_in_window
    silvana_book_agent.SplitWorker.Gate.latest silvana_book_agent.SplitWorker.Decide.capped
    fund_splits silvana_book_agent.SplitWorker.Fund.fund_from
    silvana_book_agent.SplitWorker.Fund.affordable ◌-ℤ◌
    silvana_book_agent.Holdings.Reserve.reserve_split
refill_test = refl

ensure_denominations-IsJustified_example :
    IsJustified hundredths quotients payments ladder counted settings
      (0 ∷ [])
      call
      (new hundredths true)
      (some reserve)
      (ensure_denominations hundredths quotients call
        (new hundredths true)
        ladder
        counted
        settings
        (0 ∷ [])
        (some reserve))
ensure_denominations-IsJustified_example =
    ensure_denominations-IsJustified hundredths quotients payments ladder counted settings (0 ∷ [])
      call (new hundredths true) (some reserve) refl (refl, omega arith) (refl, (refl, tt))

plan_ladder_refill-weight_example :
    ((plan_ladder_refill ladder counted 4 ≡ []) × AreStocked ladder counted 4)
    ⊎ ((w : ℤ → ℕ)
        → weight w (plan_ladder_refill ladder counted 4) + have_weight w ladder counted
          ≡ weight w ladder)
plan_ladder_refill-weight_example = plan_ladder_refill-weight ladder counted 4 refl

ops_of_hour-bounded_example : ops_of_hour two_hours (two_hours ∷ []) ≤ 1
unfolding silvana_book_agent.SplitWorker.Gate.split_gate
    silvana_book_agent.SplitWorker.Gate.ops_in_window silvana_book_agent.SplitWorker.Gate.latest
    silvana_book_agent.Holdings.Ladder.split_ops silvana_book_agent.Holdings.Ladder.times_of
ops_of_hour-bounded_example =
    ops_of_hour-bounded hundredths asset 600 1 two_hours _ (two_hours ∷ [])
      (attempt 7200 two_hours (start false) (omega arith) (omega arith) refl) two_hours

-- The denomination 5 stands in two rungs.
abbrev request : List (ℕ × ℕ)
request = (5, 3) ∷ (7, 2) ∷ (5, 4) ∷ []

chunk_test : subtract_split_chunk request (cap_split_outputs request 6) ≡ (5, 3) ∷ []
unfolding subtract_split_chunk cap_split_outputs
chunk_test = refl

subtract_split_chunk-cap_split_outputs_example :
    let chunk = cap_split_outputs request 6 in
    let left = subtract_split_chunk request chunk in
    ((x : ℕ) → count_of x chunk + count_of x left ≡ count_of x request)
    × (total left ≡ total request - 6)
subtract_split_chunk-cap_split_outputs_example =
    subtract_split_chunk-cap_split_outputs request 6 (omega arith)
