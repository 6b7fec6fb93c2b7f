-- ===== src/SplitWorker/Fund.antt =====
-- `fund_splits` of crates/cloud-agent/src/split_worker.rs: what the reserve can pay for.
use silvana_book_agent.Common.{
  ℕ, min, ◌||◌, Option, none, some, List, [], ◌∷◌, nat_eq, if◌then◌else◌,
}
use silvana_book_agent.Common.Decimal.{Decimal, le, lt}
use silvana_book_agent.Holdings.{u32_max}

-- The operations of the package that only this function takes. The last is
-- `a.checked_div(b).and_then(|q| q.trunc().to_u32())`.
pub record Quotients (d : Decimal) : Type 0 where
  pub from_u32 : ℕ → d.Carrier
  pub checked_div : d.Carrier → d.Carrier → Option d.Carrier
  pub trunc : d.Carrier → d.Carrier
  pub to_u32 : d.Carrier → Option ℕ

module _ (d : Decimal) (q : Quotients d) where
  open d use {Carrier, nought, new, checked_sub, checked_mul}
  open q use {from_u32, checked_div, trunc, to_u32}

  -- `unwrap_or(u32::MAX)`
  abbrev pub or_max : Option ℕ → ℕ
  or_max none = u32_max
  or_max (some n) = n

  abbrev pub truncated : Option Carrier → Option ℕ
  truncated none = none
  truncated (some x) = to_u32 (trunc x)

  unfoldable pub affordable : Carrier → Carrier → ℕ
  affordable budget denom = or_max (truncated (checked_div budget denom))

  abbrev pub minus : Carrier → Option Carrier → Option Carrier
  minus budget none = none
  minus budget (some cost) = checked_sub budget cost

  -- The loop over the deficits, on the budget that is left
  unfoldable pub fund_from : Carrier → List (Carrier × ℕ) → List (Carrier × ℕ)
  fund_from budget [] = []
  fund_from budget ((denom, deficit) ∷ rest) =
      let count = min deficit (affordable budget denom) in
      let skipped = fund_from budget rest in
      let paid : List (Carrier × ℕ) = elim (minus budget (checked_mul denom (from_u32 count))) [
        | none ↦ []
        | some left ↦ (denom, count) ∷ fund_from left rest
      ] in
      if le d denom nought || lt d budget denom
      then skipped
      else if nat_eq count 0
      then skipped
      else paid

  -- `unwrap_or(reserve_amount)`
  abbrev pub or_reserve : Carrier → Option Carrier → Carrier
  or_reserve reserve none = reserve
  or_reserve reserve (some budget) = budget

  -- 95% of the reserve is the budget.
  unfoldable pub fund_splits : Carrier → List (Carrier × ℕ) → List (Carrier × ℕ)
  fund_splits reserve deficits =
      fund_from (or_reserve reserve (checked_mul reserve (new 95 2))) deficits
