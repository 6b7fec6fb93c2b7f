-- ===== src/SplitWorker/HourlyBudget.antt =====
-- The gate of crates/cloud-agent/src/split_worker.rs keeps the split operations within the hourly budget.
use silvana_book_agent.Common.{
  ℕ, suc, ◌-◌, ◌≤◌, ◌≡◌, ◌≢◌, ◌∙◌, refl, true, ◌&&◌, ◌==◌, inl, inr, List, [], ◌∷◌, ◌++◌, arith,
  ltb, leb, Bool-cases, filter, if◌then◌else◌,
}
use silvana_book_agent.Common.Text.{Text, text_Eq, text_eq_iff}
use silvana_book_agent.Common.Dict.{lookup, lookup-insert}
use silvana_book_agent.Common.Decimal.{Decimal}
use silvana_book_agent.Holdings.{HoldingsCache}
use silvana_book_agent.Holdings.Ladder.{split_ops, record_split_op, times_of, is_in_window}
use silvana_book_agent.SplitWorker.Gate.{ops_in_window, split_budget_window}
use silvana_book_agent.SplitWorker.GateAnswers.{split_gate_allow, AreBefore, AreBefore-later}
use silvana_book_agent.SplitWorker.Attempts.{Attempts, start, attempt, other_instrument, elsewhere}

-- The operations of the hour up to `t`
unfoldable pub ops_of_hour : ℕ → List ℕ → ℕ
ops_of_hour t [] = 0
ops_of_hour t (op ∷ ops) =
    let others = ops_of_hour t ops in
    if leb op t && ltb (t - op) split_budget_window then suc others else others

ops_in_window-append :
    (now at_time : ℕ) (ops : List ℕ)
    → ops_in_window now (ops ++ (at_time ∷ [])) ≡ ops_in_window now (at_time ∷ ops)
unfolding ops_in_window
ops_in_window-append now at_time [] = refl
ops_in_window-append now at_time (op ∷ ops) = ground (arith, ops_in_window-append now at_time ops)

-- What was cut at an earlier time counts no more.
ops_in_window-filter :
    (earlier now : ℕ) (ops : List ℕ)
    → earlier ≤ now
    → ops_in_window now (filter (is_in_window earlier) ops) ≡ ops_in_window now ops
unfolding ops_in_window
ops_in_window-filter earlier now [] h = refl
ops_in_window-filter earlier now (op ∷ ops) h =
    ground (arith, ops_in_window-filter earlier now ops h)

ops_of_hour-later :
    (last asked t : ℕ) (ops : List ℕ)
    → AreBefore last ops
    → last ≤ asked
    → asked ≤ t
    → ops_of_hour t ops ≤ ops_in_window asked ops
unfolding ops_of_hour ops_in_window
ops_of_hour-later last asked t [] b h k = omega arith
ops_of_hour-later last asked t (op ∷ ops) b h k =
    ground (arith, b.0, ops_of_hour-later last asked t ops b.1 h k)

module _ (d : Decimal) (instrument : Text) (min_interval max_ops : ℕ) where
  abbrev times : HoldingsCache d → List ℕ
  times c = times_of (lookup instrument c.split_op_times)

  times-record_split_op :
      (other : Text) (at_time : ℕ) (c : HoldingsCache d)
      → times (record_split_op d other at_time c) ≡ (
          if other == instrument
          then filter (is_in_window at_time) (times c) ++ (at_time ∷ [])
          else times c)
  unfolding times_of record_split_op
  times-record_split_op other at_time c = ground (
    arith,
    text_eq_iff other instrument,
    lookup-insert other instrument
        (filter (is_in_window at_time) (times_of (lookup other c.split_op_times)) ++ (at_time ∷ []))
        c.split_op_times,
  )

  times-attempt :
      (at_time now : ℕ) (c : HoldingsCache d)
      → at_time ≤ now
      → ops_in_window now (times (record_split_op d instrument at_time c))
        ≡ ops_in_window now (at_time ∷ times c)
  unfolding ops_in_window
  times-attempt at_time now c h =
      let itself : (instrument == instrument) ≡ true =
        ground (arith, text_eq_iff instrument instrument) in
      let recorded : times (record_split_op d instrument at_time c)
          ≡ filter (is_in_window at_time) (times c) ++ (at_time ∷ []) =
        rw itself at (times-record_split_op instrument at_time c) in
      rw recorded (
        ground (
          arith,
          ops_in_window-append now at_time (filter (is_in_window at_time) (times c)),
          ops_in_window-filter at_time now (times c) h,
        ))

  times-other :
      (other : Text) (at_time : ℕ) (c : HoldingsCache d)
      → other ≢ instrument
      → times (record_split_op d other at_time c) ≡ times c
  times-other other at_time c different =
      ground (arith, text_eq_iff other instrument, times-record_split_op other at_time c, different)

  -- From the last operation on, what the cache keeps counts as the whole history does.
  abbrev AreKept : ℕ → HoldingsCache d → List ℕ → Type 0
  AreKept last c history =
      AreBefore last history
      × ((now : ℕ) → last ≤ now → ops_in_window now (times c) ≡ ops_in_window now history)

  Attempts-AreKept :
      (last : ℕ) (c : HoldingsCache d) (history : List ℕ)
      → Attempts d instrument min_interval max_ops last c history
      → AreKept last c history
  unfolding ops_in_window times_of
  Attempts-AreKept last c history (start b) = (tt, λ now h. refl)
  Attempts-AreKept last c history
        (attempt {last = before} {c = c'} {history = ops} asked at_time a h k gate) =
      let (early, kept) = Attempts-AreKept before c' ops a in
      (
        (omega arith, AreBefore-later before at_time ops (omega arith) early),
        λ now l. ground (arith, times-attempt at_time now c' l, kept now (omega arith)),
      )
  Attempts-AreKept last c history (other_instrument {c = c'} other at_time a different) =
      let (early, kept) = Attempts-AreKept last c' history a in
      (early, λ now l. rw (times-other other at_time c' different) (kept now l))
  Attempts-AreKept last c history (elsewhere {c = c'} c'' a same) =
      let (early, kept) = Attempts-AreKept last c' history a in
      (early, λ now l. rw same (kept now l))

  -- Where the attempts come one after the other, whatever operations on other instruments and
  -- other steps that keep the recorded times come between them, no hour has more split operations
  -- of the instrument than the settings allow.
  pub ops_of_hour-bounded :
      (last : ℕ) (c : HoldingsCache d) (history : List ℕ)
      → Attempts d instrument min_interval max_ops last c history
      → (t : ℕ) → ops_of_hour t history ≤ max_ops
  unfolding ops_of_hour split_ops times_of
  ops_of_hour-bounded last c history (start b) t = omega arith
  ops_of_hour-bounded last c history
        (attempt {last = before} {c = c'} {history = ops} asked at_time a h k gate) t =
      let ih = ops_of_hour-bounded before c' ops a t in
      let (early, kept) = Attempts-AreKept before c' ops a in
      elim (Bool-cases (leb at_time t)) [
        | inl reached ↦
            let (spent, _) = split_gate_allow (split_ops d instrument asked c') asked _ _ gate in
            let counted : ops_in_window asked (split_ops d instrument asked c')
                ≡ ops_in_window asked ops =
              ops_in_window-filter asked asked (times c') (omega arith) ∙ kept asked h in
            let few = ops_of_hour-later before asked t ops early h (ground arith) in
            ground (arith, spent, counted, few)
        | inr sooner ↦ ground (arith, ih)
      ]
  ops_of_hour-bounded last c history (other_instrument other at_time a different) t =
      ops_of_hour-bounded last _ history a t
  ops_of_hour-bounded last c history (elsewhere c' a same) t =
      ops_of_hour-bounded last _ history a t
