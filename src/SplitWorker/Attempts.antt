-- ===== src/SplitWorker/Attempts.antt =====
-- The split operations of one instrument: the gate of crates/cloud-agent/src/split_worker.rs and the
-- record of holdings_cache.rs, one attempt after the other. The history has the time of every operation.
use silvana_book_agent.Common.{ℕ, ◌≤◌, ◌≡◌, ◌≢◌, Bool, List, [], ◌∷◌}
use silvana_book_agent.Common.Text.{Text}
use silvana_book_agent.Common.Decimal.{Decimal}
use silvana_book_agent.Holdings.{HoldingsCache}
use silvana_book_agent.Holdings.Pools.{new}
use silvana_book_agent.Holdings.Ladder.{split_ops, record_split_op}
use silvana_book_agent.SplitWorker.Gate.{allow, split_gate}

module _ (d : Decimal) (instrument : Text) (min_interval max_ops : ℕ) where
  -- The time of the last operation, the cache, and the history, the newest operation first. An attempt
  -- asks the gate at one time and records itself at a later one. Operations of other instruments come in
  -- between, and whatever keeps the recorded times.
  pub data Attempts : ℕ → HoldingsCache d → List ℕ → Type 0 where
    start : (b : Bool) → Attempts 0 (new d b) []
    attempt :
        {last : ℕ} {c : HoldingsCache d} {history : List ℕ} (asked at_time : ℕ)
        → Attempts last c history
        → last ≤ asked
        → asked ≤ at_time
        → split_gate (split_ops d instrument asked c) asked min_interval max_ops ≡ allow
        → Attempts at_time (record_split_op d instrument at_time c) (at_time ∷ history)
    other_instrument :
        {last : ℕ} {c : HoldingsCache d} {history : List ℕ} (other : Text) (at_time : ℕ)
        → Attempts last c history
        → other ≢ instrument
        → Attempts last (record_split_op d other at_time c) history
    elsewhere :
        {last : ℕ} {c : HoldingsCache d} {history : List ℕ} (c' : HoldingsCache d)
        → Attempts last c history
        → c'.split_op_times ≡ c.split_op_times
        → Attempts last c' history
