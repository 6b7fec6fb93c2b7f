-- ===== src/SplitWorker/GateAnswers.antt =====
-- What each answer of `split_gate` of crates/cloud-agent/src/split_worker.rs means.
use mathlib.Core.List.{Memᴰ}
use silvana_book_agent.Common.{
  ℕ, ◌-◌, ◌/◌, ◌≤◌, ◌<◌, ◌≡◌, refl, sym, max, inl, inr, Option, none, some, List, [], ◌∷◌, arith,
  ltb, leb, Bool-cases, subst,
}
use silvana_book_agent.Holdings.{nanos_per_sec}
use silvana_book_agent.SplitWorker.Gate.{
  SplitGate, allow, cooldown, budget_exhausted, split_gate, ops_in_window, latest, newer,
  after_last,
}

-- The time since each operation is the interval or more.
abbrev pub AreSpaced : ℕ → ℕ → List ℕ → Type 0
AreSpaced now interval [] = Unit
AreSpaced now interval (t ∷ ts) = (interval ≤ now - t) × AreSpaced now interval ts

abbrev SinceLatest : ℕ → ℕ → Option ℕ → Type 0
SinceLatest now interval none = Unit
SinceLatest now interval (some t) = interval ≤ now - t

since_newer :
    (now interval t : ℕ) (o : Option ℕ)
    → interval ≤ now - newer t o
    → (interval ≤ now - t) × SinceLatest now interval o
since_newer now interval t none h = (h, tt)
since_newer now interval t (some u) h = (omega arith, omega arith)

latest_spaced :
    (now interval : ℕ) (ts : List ℕ)
    → SinceLatest now interval (latest ts)
    → AreSpaced now interval ts
unfolding latest
latest_spaced now interval [] h = tt
latest_spaced now interval (t ∷ ts) h =
    let (first, others) = since_newer now interval t (latest ts) h in
    (first, latest_spaced now interval ts others)

after_last_allow :
    (now interval : ℕ) (last : Option ℕ)
    → after_last now interval last ≡ allow
    → SinceLatest now interval last
after_last_allow now interval none h = tt
after_last_allow now interval (some t) h = elim (Bool-cases (ltb (now - t) interval)) [
  | inl soon ↦ absurd (cc (rw soon at h))
  | inr late ↦ ground arith
]

-- The gate opens only where fewer than the allowed operations stand in the window, and where the
-- interval has passed since each.
pub split_gate_allow :
    (op_times : List ℕ) (now interval most : ℕ)
    → split_gate op_times now interval most ≡ allow
    → (ops_in_window now op_times < most) × AreSpaced now interval op_times
unfolding split_gate
split_gate_allow op_times now interval most h =
    elim (Bool-cases (leb most (ops_in_window now op_times))) [
      | inl spent ↦ absurd (cc (rw spent at h))
      | inr open_window ↦ (
        ground arith,
        latest_spaced now interval op_times
            (after_last_allow now interval (latest op_times) (rw open_window at h)),
      )
    ]

-- No operation is later.
abbrev pub AreBefore : ℕ → List ℕ → Type 0
AreBefore last [] = Unit
AreBefore last (op ∷ ops) = (op ≤ last) × AreBefore last ops

pub AreBefore-later :
    (last now : ℕ) (ops : List ℕ) → last ≤ now → AreBefore last ops → AreBefore now ops
AreBefore-later last now [] h b = tt
AreBefore-later last now (op ∷ ops) h b = (omega (arith, b.0), AreBefore-later last now ops h b.1)

-- The latest operation, where there is one
abbrev IsLatest : List ℕ → Option ℕ → Type 0
IsLatest ops none = ops ≡ []
IsLatest ops (some last) = Memᴰ last ops × AreBefore last ops

newer-IsLatest :
    (t : ℕ) (ops : List ℕ) (o : Option ℕ) → IsLatest ops o → IsLatest (t ∷ ops) (some (newer t o))
newer-IsLatest t ops none h = (Memᴰ.head refl, (omega arith, rw h tt))
newer-IsLatest t ops (some u) (m, b) = elim (Bool-cases (leb u t)) [
  | inl older ↦
      let same : max t u ≡ t = ground arith in
      subst (λ (m : ℕ). IsLatest (t ∷ ops) (some m)) (sym same)
        (Memᴰ.head refl, (omega arith, AreBefore-later u t ops (ground arith) b))
  | inr younger ↦
      let same : max t u ≡ u = ground arith in
      subst (λ (m : ℕ). IsLatest (t ∷ ops) (some m)) (sym same) (Memᴰ.tail m, (ground arith, b))
]

latest-IsLatest : (ops : List ℕ) → IsLatest ops (latest ops)
unfolding latest
latest-IsLatest [] = refl
latest-IsLatest (t ∷ ops) = newer-IsLatest t ops (latest ops) (latest-IsLatest ops)

-- Each answer: open where fewer than the allowed operations stand in the window and the interval has
-- passed since each; shut for the interval that has not passed since the latest, whose seconds are
-- told; or shut for as many operations in the window as are told, which are not fewer than allowed.
abbrev pub IsGate : List ℕ → ℕ → ℕ → ℕ → SplitGate → Type 0
IsGate ops now interval most allow = (ops_in_window now ops < most) × AreSpaced now interval ops
IsGate ops now interval most (cooldown secs) =
    (ops_in_window now ops < most)
    × ((last : ℕ) × Memᴰ last ops
        × AreBefore last ops
        × (now - last < interval)
        × (secs ≡ (now - last) / nanos_per_sec))
IsGate ops now interval most (budget_exhausted count) =
    (count ≡ ops_in_window now ops) × (most ≤ count)

after_last-IsGate :
    (ops : List ℕ) (now interval most : ℕ) (o : Option ℕ)
    → ops_in_window now ops < most
    → IsLatest ops o
    → (SinceLatest now interval o → AreSpaced now interval ops)
    → IsGate ops now interval most (after_last now interval o)
after_last-IsGate ops now interval most none few l spaced = (few, spaced tt)
after_last-IsGate ops now interval most (some last) few (m, b) spaced =
    elim (Bool-cases (ltb (now - last) interval)) [
      | inl soon ↦ rw soon (few, (last, m, b, ground arith, refl))
      | inr late ↦ rw late (few, spaced (ground arith))
    ]

pub split_gate-IsGate :
    (ops : List ℕ) (now interval most : ℕ)
    → IsGate ops now interval most (split_gate ops now interval most)
unfolding split_gate
split_gate-IsGate ops now interval most = elim (Bool-cases (leb most (ops_in_window now ops))) [
  | inl spent ↦ rw spent (refl, ground arith)
  | inr open_window ↦ rw open_window (
      after_last-IsGate ops now interval most (latest ops) (ground arith) (latest-IsLatest ops)
        (latest_spaced now interval ops))
]
