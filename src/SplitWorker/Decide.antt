-- ===== src/SplitWorker/Decide.antt =====
-- `ensure_denominations` of crates/cloud-agent/src/split_worker.rs up to the submission: from what the
-- cache counts and holds to the splits that are submitted. It asks the cache at different moments, so
-- what the earlier answers were is an argument; the reservation of the reserve and the record of the
-- operation, which change the cache, are its own methods.
use silvana_book_agent.Common.{
  ℕ, Bool, true, false, Option, none, some, List, [], ◌∷◌, ltb, if◌then◌else◌,
}
use silvana_book_agent.Common.Text.{Text}
use silvana_book_agent.Common.Decimal.{Decimal}
use silvana_book_agent.Holdings.{CachedHolding, HoldingsCache}
use silvana_book_agent.Holdings.Reserve.{reserve_split}
use silvana_book_agent.Holdings.Ladder.{record_split_op}
use silvana_book_agent.SplitWorker.{
  count_sum, counts, cap_split_outputs, max_split_outputs_per_tx, plan_ladder_refill,
  ladder_overfull,
}
use silvana_book_agent.SplitWorker.Gate.{SplitGate, allow, cooldown, budget_exhausted, split_gate}
use silvana_book_agent.SplitWorker.Fund.{Quotients, fund_splits}

-- The settings of `RfqV2Config` that are read, with the interval in nanoseconds
pub record Settings : Type 0 where
  pub split_low_water_divisor : ℕ
  pub split_min_interval : ℕ
  pub split_max_ops_per_hour : ℕ

-- One call: the key of its instrument, the id of its job, and the times of the gate, of the
-- reservation and of the record
pub record Call : Type 0 where
  pub key : Text
  pub job_id : Text
  pub asked_at : ℕ
  pub reserved_at : ℕ
  pub recorded_at : ℕ

module _ (d : Decimal) (q : Quotients d) where
  open d use {Carrier}

  -- Each early return, and the splits to submit
  pub data Decision : Type 0 where
    covered : Decision
    refused_overfull : Decision
    gated : SplitGate → Decision
    no_reserve : Decision
    too_small : Decision
    reserve_busy : Decision
    split : List (Carrier × ℕ) → Decision

  -- At most `MAX_SPLIT_OUTPUTS_PER_TX` outputs
  unfoldable pub capped : List (Carrier × ℕ) → List (Carrier × ℕ)
  capped splits =
      if ltb max_split_outputs_per_tx (count_sum (counts splits))
      then cap_split_outputs splits max_split_outputs_per_tx
      else splits

  module _ (call : Call) (c : HoldingsCache d) where
    -- What follows the answer of `reserve_split`
    abbrev pub after_reserve :
        List (Carrier × ℕ) → Bool × HoldingsCache d → Decision × HoldingsCache d
    after_reserve splits (false, c') = (reserve_busy, c')
    after_reserve splits (true, c') = (split splits, record_split_op d call.key call.recorded_at c')

    abbrev pub unless_empty : CachedHolding d → List (Carrier × ℕ) → Decision × HoldingsCache d
    unless_empty reserve [] = (too_small, c)
    unless_empty reserve (s ∷ splits) =
        after_reserve (s ∷ splits)
          (reserve_split d (reserve.contract_id ∷ []) call.job_id call.reserved_at c)

    abbrev pub off_reserve :
        List (Carrier × ℕ) → Option (CachedHolding d) → Decision × HoldingsCache d
    off_reserve deficits none = (no_reserve, c)
    off_reserve deficits (some reserve) =
        unless_empty reserve (capped (fund_splits d q reserve.amount deficits))

    abbrev pub through_gate :
        List (Carrier × ℕ) → Option (CachedHolding d) → SplitGate → Decision × HoldingsCache d
    through_gate deficits reserve allow = off_reserve deficits reserve
    through_gate deficits reserve (cooldown secs) = (gated (cooldown secs), c)
    through_gate deficits reserve (budget_exhausted ops) = (gated (budget_exhausted ops), c)

    -- `haves` are the answers of `count_in_band`, `op_times` that of `split_ops`, and `reserve` is that
    -- of `splitter_reserve`.
    abbrev pub with_deficits :
        List (Carrier × ℕ)
        → List ℕ
        → Settings
        → List ℕ
        → Option (CachedHolding d)
        → List (Carrier × ℕ)
        → Decision × HoldingsCache d
    with_deficits rungs haves v2 op_times reserve [] = (covered, c)
    with_deficits rungs haves v2 op_times reserve (x ∷ xs) =
        if ladder_overfull rungs haves
        then (refused_overfull, c)
        else through_gate (x ∷ xs) reserve
            (split_gate op_times call.asked_at v2.split_min_interval v2.split_max_ops_per_hour)

    unfoldable pub ensure_denominations :
        List (Carrier × ℕ)
        → List ℕ
        → Settings
        → List ℕ
        → Option (CachedHolding d)
        → Decision × HoldingsCache d
    ensure_denominations rungs haves v2 op_times reserve =
        with_deficits rungs haves v2 op_times reserve
          (plan_ladder_refill rungs haves v2.split_low_water_divisor)
