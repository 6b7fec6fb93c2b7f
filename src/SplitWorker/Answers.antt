-- ===== src/SplitWorker/Answers.antt =====
-- Every answer of `ensure_denominations` of crates/cloud-agent/src/split_worker.rs.
use silvana_book_agent.Common.{
  ℕ, ◌==◌, if◌then◌else◌, ◌+◌, ◌*◌, ◌≤◌, ◌<◌, ◌≡◌, refl, sym, max, true, false, ◌⊎◌, inl, inr,
  Option, none, some, List, [], ◌∷◌, arith, Bool-cases, length, ap,
}
use silvana_book_agent.Common.Text.{Text, text_Eq}
use silvana_book_agent.Common.Dict.{lookup, lookup-insert}
use silvana_book_agent.Common.Decimal.{Decimal}
use silvana_book_agent.Holdings.{CachedHolding, HoldingsCache, split as split_job}
use silvana_book_agent.Holdings.Reserve.{
  is_blocked, any_blocked, reserve_split, reserve_with_kind, hold_all,
}
use silvana_book_agent.Holdings.Ladder.{record_split_op}
use silvana_book_agent.SplitWorker.{max_split_outputs_per_tx, plan_ladder_refill, ladder_overfull}
use silvana_book_agent.SplitWorker.Gate.{SplitGate, allow, cooldown, budget_exhausted}
use silvana_book_agent.SplitWorker.Fund.{Quotients}
use silvana_book_agent.SplitWorker.Decide.{
  Settings, Call, Decision, covered, refused_overfull, gated, no_reserve, too_small, reserve_busy,
  split, after_reserve, unless_empty, through_gate, with_deficits, ensure_denominations,
}
use silvana_book_agent.SplitWorker.Plan.{
  total, weight, have_weight, AreStocked, plan_ladder_refill-weight,
}
use silvana_book_agent.SplitWorker.Budget.{Payments, price, ArePrices, AreWanted, AreTooDear}
use silvana_book_agent.SplitWorker.GateAnswers.{IsGate, split_gate-IsGate}
use silvana_book_agent.SplitWorker.Justified.{
  AreAffordable, IsPayable, funded-AreAffordable, refill-ArePrices, refill-AreWanted, IsOverfull,
  ladder_overfull-IsOverfull,
}

module _ (d : Decimal) (q : Quotients d) (laws : Payments d q) (rungs : List (d.Carrier × ℕ))
    (haves : List ℕ) (v2 : Settings) (op_times : List ℕ) (call : Call) (c : HoldingsCache d) where
  open d use {Carrier}

  abbrev wanted_splits : List (Carrier × ℕ)
  wanted_splits = plan_ladder_refill rungs haves v2.split_low_water_divisor

  -- The ladder has what it wants: a holding in each rung, and its count over the divisor, or all of it.
  abbrev pub IsCovered : Type 0
  IsCovered =
      AreStocked rungs haves (max v2.split_low_water_divisor 1)
      ⊎ ((w : Carrier → ℕ) → have_weight w rungs haves ≡ weight w rungs)

  abbrev pub Gated : SplitGate → Type 0
  Gated g = IsGate op_times call.asked_at v2.split_min_interval v2.split_max_ops_per_hour g

  -- No more is planned than the rungs lack, by any weighing of the denominations.
  abbrev pub IsLacking : List (Carrier × ℕ) → Type 0
  IsLacking splits =
      (w : Carrier → ℕ) → weight w splits + have_weight w rungs haves ≤ weight w rungs

  -- The reserve is held for the job, and every other holding is as it was.
  abbrev pub IsHeld : CachedHolding d → HoldingsCache d → Type 0
  IsHeld reserve c' =
      (cid : Text)
      → lookup cid c'.reserved ≡ (
          if reserve.contract_id == cid
          then some (record { kind = split_job call.job_id; reserved_at = call.reserved_at })
          else lookup cid c.reserved)

  -- What an answer rests on, and what becomes of the cache
  abbrev pub IsJustified : Option (CachedHolding d) → Decision d q × HoldingsCache d → Type 0
  IsJustified reserve (covered, c') = IsCovered × (c' ≡ c)
  IsJustified reserve (refused_overfull, c') = IsOverfull rungs haves × (c' ≡ c)
  IsJustified reserve (gated g, c') =
      ¬ (IsOverfull rungs haves) × Gated g × ¬ (g ≡ allow) × (c' ≡ c)
  IsJustified reserve (no_reserve, c') = (reserve ≡ none) × Gated allow × (c' ≡ c)
  IsJustified none (too_small, c') = ⊥
  IsJustified (some reserve) (too_small, c') =
      (0 < length wanted_splits)
      × AreTooDear d q laws (price d reserve.amount) wanted_splits
      × (c' ≡ c)
  IsJustified none (reserve_busy, c') = ⊥
  IsJustified (some reserve) (reserve_busy, c') =
      (is_blocked d c call.reserved_at reserve.contract_id ≡ true) × (c' ≡ c)
  IsJustified none (split splits, c') = ⊥
  IsJustified (some reserve) (split splits, c') =
      (0 < length splits)
      × (total splits ≤ max_split_outputs_per_tx)
      × (100 * weight (price d) splits ≤ 95 * price d reserve.amount)
      × IsLacking splits
      × ¬ (IsOverfull rungs haves)
      × Gated allow
      × (is_blocked d c call.reserved_at reserve.contract_id ≡ false)
      × IsHeld reserve c'

  -- What the earlier steps leave to the last ones
  record Ready (wanted : List (Carrier × ℕ)) : Type 0 where
    is_plan : wanted_splits ≡ wanted
    some_wanted : 0 < length wanted
    full : (w : Carrier → ℕ) → weight w wanted + have_weight w rungs haves ≡ weight w rungs
    room : ¬ (IsOverfull rungs haves)
    are_prices : ArePrices d q laws wanted
    are_wanted : AreWanted d q laws wanted

  reserved-IsJustified :
      (reserve : CachedHolding d) (wanted splits : List (Carrier × ℕ))
      → Ready wanted
      → AreAffordable d q laws wanted reserve.amount splits
      → Gated allow
      → 0 < length splits
      → IsJustified (some reserve) (
          after_reserve d q call c splits
            (reserve_split d (reserve.contract_id ∷ []) call.job_id call.reserved_at c))
  unfolding reserve_split reserve_with_kind hold_all record_split_op
  reserved-IsJustified reserve wanted splits r (few, cheap, part, _) open_gate p =
      elim (Bool-cases (any_blocked d c call.reserved_at (reserve.contract_id ∷ []))) [
        | inl busy ↦ rw busy (ground (arith, busy), refl)
        | inr at_rest ↦ rw at_rest (
          p,
          few,
          cheap,
          (λ w. omega (arith, part w, r.full w)),
          r.room,
          open_gate,
          ground (arith, at_rest),
          λ cid.
              lookup-insert reserve.contract_id cid
                (record { kind = split_job call.job_id; reserved_at = call.reserved_at })
                c.reserved,
        )
      ]

  funded-IsJustified :
      (reserve : CachedHolding d) (wanted splits : List (Carrier × ℕ))
      → Ready wanted
      → AreAffordable d q laws wanted reserve.amount splits
      → Gated allow
      → IsJustified (some reserve) (unless_empty d q call c reserve splits)
  funded-IsJustified reserve wanted [] r (_, _, _, dear) open_gate =
      (rw r.is_plan r.some_wanted, rw r.is_plan (dear refl), refl)
  funded-IsJustified reserve wanted (s ∷ splits) r fits open_gate =
      reserved-IsJustified reserve wanted (s ∷ splits) r fits open_gate (omega arith)

  through-IsJustified :
      (reserve : Option (CachedHolding d)) (wanted : List (Carrier × ℕ)) (g : SplitGate)
      → IsPayable d q laws reserve
      → Ready wanted
      → Gated g
      → IsJustified reserve (through_gate d q call c wanted reserve g)
  through-IsJustified none wanted allow p r g = (refl, g, refl)
  through-IsJustified (some reserve) wanted allow p r g =
      funded-IsJustified reserve wanted _ r
        (funded-AreAffordable d q laws reserve wanted p r.are_prices r.are_wanted) g
  through-IsJustified reserve wanted (cooldown secs) p r g = (r.room, g, (λ k. absurd (cc k)), refl)
  through-IsJustified reserve wanted (budget_exhausted ops) p r g =
      (r.room, g, (λ k. absurd (cc k)), refl)

  wanted-weight :
      (wanted : List (Carrier × ℕ))
      → length rungs ≡ length haves
      → wanted_splits ≡ wanted
      → 0 < length wanted
      → (w : Carrier → ℕ) → weight w wanted + have_weight w rungs haves ≡ weight w rungs
  wanted-weight wanted h e p =
      elim (plan_ladder_refill-weight rungs haves v2.split_low_water_divisor h) [
        | inl (none_wanted, _) ↦ absurd (omega (arith, ap length none_wanted, ap length e))
        | inr full ↦ λ w. rw (sym e) (full w)
      ]

  deficits-IsJustified :
      (reserve : Option (CachedHolding d)) (wanted : List (Carrier × ℕ))
      → length rungs ≡ length haves
      → IsPayable d q laws reserve
      → ArePrices d q laws wanted
      → AreWanted d q laws wanted
      → wanted_splits ≡ wanted
      → IsJustified reserve (with_deficits d q call c rungs haves v2 op_times reserve wanted)
  deficits-IsJustified reserve [] h p prices are_wanted e =
      elim (plan_ladder_refill-weight rungs haves v2.split_low_water_divisor h) [
        | inl (_, stocked) ↦ (inl stocked, refl)
        | inr full ↦ (inr (λ w. let all = rw e at (full w) in omega (arith, all)), refl)
      ]
  deficits-IsJustified reserve (x ∷ xs) h p prices are_wanted e =
      let overfull = ladder_overfull-IsOverfull rungs haves in
      elim (Bool-cases (ladder_overfull rungs haves)) [
        | inl over ↦ rw over (overfull.0 over, refl)
        | inr room ↦ rw room (
            through-IsJustified reserve (x ∷ xs) _ p
              (record {
                is_plan = e;
                some_wanted = omega arith;
                full = wanted-weight (x ∷ xs) h e (omega arith);
                room = overfull.1 room;
                are_prices = prices;
                are_wanted = are_wanted;
              })
              (split_gate-IsGate op_times call.asked_at v2.split_min_interval
                v2.split_max_ops_per_hour))
      ]

  -- Where there is a count for each rung and the denominations and the reserve are prices in the
  -- range in which prices are exact, each answer of `ensure_denominations` is right. "Covered":
  -- each rung has a holding and its count over the divisor, or the ladder is full. "Overfull": the
  -- rungs want something, and twice that or more is held, or as many as an `u32` can count.
  -- "Gated": the interval since the latest operation has not passed, and the answer has its
  -- seconds; or the hour has as many operations as allowed or more, and the answer has their
  -- count. "No reserve": there is none. "Too small": something is wanted, and each denomination of
  -- it costs more than 95% of the reserve, or is zero. "Busy": the reserve is consumed or under a
  -- live reservation. These leave the cache as it was. And splits to submit are one or more and
  -- make at most 90 outputs, cost at most 95% of the reserve, and by no weighing of the
  -- denominations are more than the rungs lack; the ladder is not overfull, fewer operations than
  -- allowed stand in the hour, the interval has passed since each; and the reserve, which was
  -- neither consumed nor reserved, is now held for the job, and no other reservation has changed.
  pub ensure_denominations-IsJustified :
      (reserve : Option (CachedHolding d))
      → length rungs ≡ length haves
      → IsPayable d q laws reserve
      → ArePrices d q laws rungs
      → IsJustified reserve (ensure_denominations d q call c rungs haves v2 op_times reserve)
  unfolding ensure_denominations
  ensure_denominations-IsJustified reserve h p prices =
      deficits-IsJustified reserve _ h p (refill-ArePrices d q laws rungs haves _ prices)
        (refill-AreWanted d q laws rungs haves _) refl
