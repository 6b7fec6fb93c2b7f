-- ===== src/SplitWorker/Gate.antt =====
-- `split_gate` of crates/cloud-agent/src/split_worker.rs: the hourly budget and the cooldown.
use silvana_book_agent.Common.{
  ℕ, suc, ◌-◌, ◌*◌, ◌/◌, Option, none, some, List, [], ◌∷◌, max, ltb, leb, if◌then◌else◌,
}
use silvana_book_agent.Holdings.{nanos_per_sec}

abbrev pub split_budget_window : ℕ
split_budget_window = 3600 * nanos_per_sec

pub data SplitGate : Type 0 where
  allow : SplitGate
  cooldown : ℕ → SplitGate
  budget_exhausted : ℕ → SplitGate

-- `now.saturating_duration_since(t) < SPLIT_BUDGET_WINDOW`, counted
unfoldable pub ops_in_window : ℕ → List ℕ → ℕ
ops_in_window now [] = 0
ops_in_window now (t ∷ ts) =
    let others = ops_in_window now ts in
    if ltb (now - t) split_budget_window then suc others else others

abbrev pub newer : ℕ → Option ℕ → ℕ
newer t none = t
newer t (some u) = max t u

-- `iter().max()`
unfoldable pub latest : List ℕ → Option ℕ
latest [] = none
latest (t ∷ ts) = some (newer t (latest ts))

abbrev pub after_last : ℕ → ℕ → Option ℕ → SplitGate
after_last now min_interval none = allow
after_last now min_interval (some last) =
    if ltb (now - last) min_interval then cooldown ((now - last) / nanos_per_sec) else allow

unfoldable pub split_gate : List ℕ → ℕ → ℕ → ℕ → SplitGate
split_gate op_times now min_interval max_ops_per_window =
    let ops = ops_in_window now op_times in
    if leb max_ops_per_window ops
    then budget_exhausted ops
    else after_last now min_interval (latest op_times)
