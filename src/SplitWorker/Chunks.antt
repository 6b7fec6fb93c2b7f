-- ===== src/SplitWorker/Chunks.antt =====
-- `subtract_split_chunk` of crates/cloud-agent/src/split_worker.rs: what is left of a request after the
-- chunk that one transaction makes. Denominations are compared as numbers.
use silvana_book_agent.Common.{
  ℕ, ◌-◌, min, Option, none, some, List, [], ◌∷◌, Eq, ltb, if◌then◌else◌,
}
use silvana_book_agent.Common.Dict.{Dict, lookup, insert, contains}
use silvana_book_agent.SplitWorker.{sat_add}

abbrev pub or_zero : Option ℕ → ℕ
or_zero none = 0
or_zero (some n) = n

module _ {ℓ} {D : Type ℓ} ⦃e : Eq D⦄ where
  -- The loop over the chunk
  unfoldable pub spend : List (D × ℕ) → Dict D ℕ → Dict D ℕ
  spend [] spent = spent
  spend ((denom, count) ∷ chunk) spent =
      spend chunk (insert denom (sat_add (or_zero (lookup denom spent)) count) spent)

  -- `*avail = avail.saturating_sub(take)`, where the denomination has an entry
  unfoldable pub use_up : D → ℕ → Dict D ℕ → Dict D ℕ
  use_up denom used spent =
      if contains denom spent
      then insert denom (or_zero (lookup denom spent) - used) spent
      else spent

  -- The closure of `filter_map`, with what is still spent
  unfoldable pub subtract_spent : Dict D ℕ → List (D × ℕ) → List (D × ℕ)
  unfolding use_up
  subtract_spent spent [] = []
  subtract_spent spent ((denom, count) ∷ remaining) =
      let used = min count (or_zero (lookup denom spent)) in
      let rest = subtract_spent (use_up denom used spent) remaining in
      if ltb used count then (denom, count - used) ∷ rest else rest

  unfoldable pub subtract_split_chunk : List (D × ℕ) → List (D × ℕ) → List (D × ℕ)
  unfolding spend subtract_spent
  subtract_split_chunk remaining chunk = subtract_spent (spend chunk []) remaining
