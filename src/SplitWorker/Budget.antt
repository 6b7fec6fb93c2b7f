-- ===== src/SplitWorker/Budget.antt =====
-- `fund_splits` of crates/cloud-agent/src/split_worker.rs never spends more than 95% of the reserve.
use silvana_book_agent.Common.{
  ℕ, ◌+◌, ◌*◌, ◌/◌, ◌≤◌, ◌<◌, ◌≡◌, min, true, ◌||◌, inl, inr, ◌⊎◌, false, some, List, [], ◌∷◌,
  arith, nat_eq, Bool-cases, Option-cases,
}
use silvana_book_agent.Common.Int.{pos, pos_part}
use silvana_book_agent.Common.Decimal.{Decimal, le, lt}
use silvana_book_agent.Holdings.{u32_max}
use silvana_book_agent.SplitWorker.Plan.{total, weight}
use silvana_book_agent.SplitWorker.Fund.{
  Quotients, affordable, or_max, truncated, fund_from, fund_splits, minus,
}

abbrev pub price : (d : Decimal) → d.Carrier → ℕ
price d a = pos_part (d.units a)

-- What the package promises of prices, which have at most twelve decimal places, and of budgets, which
-- are 95% of a price less other prices and so have at most fourteen; both are zero or more. Up to
-- `limit`, such as 10^12, their digits fit in the 96 bits of a value: a price times a count, 95% of a
-- price and a difference are exact, and a quotient, which is rounded far behind its point, has the
-- integer part of the true one. It is none only where it does not fit.
pub record Payments (d : Decimal) (q : Quotients d) : Type 1 where
  pub IsPrice : d.Carrier → Type 0
  pub IsBudget : d.Carrier → Type 0
  pub limit : ℕ
  pub nought_units : d.units d.nought ≡ pos 0
  pub price_units : (a : d.Carrier) → IsPrice a → d.units a ≡ pos (price d a)
  pub budget_units : (a : d.Carrier) → IsBudget a → d.units a ≡ pos (price d a)
  pub mul_count :
      (a : d.Carrier) (n : ℕ)
      → IsPrice a
      → n ≤ u32_max
      → n * price d a ≤ limit
      → (c : d.Carrier) × (d.checked_mul a (q.from_u32 n) ≡ some c)
        × (price d c ≡ n * price d a)
        × IsPrice c
  pub sub_price :
      (a b : d.Carrier)
      → IsBudget a
      → IsPrice b
      → price d b ≤ price d a
      → price d a ≤ limit
      → (c : d.Carrier) × (d.checked_sub a b ≡ some c)
        × (price d c + price d b ≡ price d a)
        × IsBudget c
  pub quotient :
      (a b : d.Carrier)
      → IsBudget a
      → IsPrice b
      → 0 < price d b
      → price d b ≤ price d a
      → price d a ≤ limit
      → or_max d q (truncated d q (q.checked_div a b)) ≡ min (price d a / price d b) u32_max
  pub ninety_five :
      (a : d.Carrier)
      → IsPrice a
      → price d a ≤ limit
      → (c : d.Carrier) × (d.checked_mul a (d.new 95 2) ≡ some c)
        × (100 * price d c ≡ 95 * price d a)
        × IsBudget c

pub times_le : (a b c : ℕ) → a ≤ b → a * c ≤ b * c
times_le a b c h = grind arith

module _ (d : Decimal) (q : Quotients d) (laws : Payments d q) where
  open d use {Carrier}
  open laws use {
    IsPrice, limit, mul_count, sub_price, quotient, ninety_five, nought_units, price_units,
    IsBudget, budget_units,
  }

  -- Each denomination of the splits is a price.
  abbrev pub ArePrices : List (Carrier × ℕ) → Type 0
  ArePrices [] = Unit
  ArePrices ((denom, _) ∷ rest) = IsPrice denom × ArePrices rest

  price_pos : (a : Carrier) → IsPrice a → le d a d.nought ≡ false → 0 < price d a
  price_pos a p h = ground (arith, price_units a p, nought_units)

  budget_covers :
      (budget denom : Carrier)
      → IsBudget budget
      → IsPrice denom
      → lt d budget denom ≡ false
      → price d denom ≤ price d budget
  budget_covers budget denom b p h = ground (arith, price_units denom p, budget_units budget b)

  -- As many of a denomination as can be paid for
  affordable-price :
      (budget denom : Carrier)
      → IsBudget budget
      → IsPrice denom
      → 0 < price d denom
      → price d denom ≤ price d budget
      → price d budget ≤ limit
      → (affordable d q budget denom ≤ u32_max)
        × (affordable d q budget denom * price d denom ≤ price d budget)
        × (1 ≤ affordable d q budget denom)
  unfolding affordable
  affordable-price budget denom b p pos_price le_budget h =
      let e = quotient budget denom b p pos_price le_budget h in
      let whole =
        times_le (affordable d q budget denom) (price d budget / price d denom) (price d denom)
          (omega (arith, e)) in
      let under : price d budget / price d denom * price d denom ≤ price d budget = grind arith in
      let one : 1 ≤ price d budget / price d denom = grind arith in
      (omega (arith, e), omega (arith, whole, under), omega (arith, e, one))

  -- A count that is paid for costs no more than the budget.
  paid_within :
      (budget denom : Carrier) (deficit : ℕ) (rest : List (Carrier × ℕ))
      → IsBudget budget
      → price d budget ≤ limit
      → IsPrice denom
      → 0 < price d denom
      → price d denom ≤ price d budget
      → let count = min deficit (affordable d q budget denom) in
        (left : Carrier) × (minus d q budget (d.checked_mul denom (q.from_u32 count)) ≡ some left)
        × (price d left + count * price d denom ≡ price d budget)
        × IsBudget left
  paid_within budget denom deficit rest b h p pos_price le_budget =
      let count = min deficit (affordable d q budget denom) in
      let (fits, cheap, _) = affordable-price budget denom b p pos_price le_budget h in
      let most = times_le count (affordable d q budget denom) (price d denom) (omega arith) in
      let (c, e, same, pc) =
        mul_count denom count p (omega (arith, fits)) (omega (arith, most, cheap)) in
      let (left, e', rest_price, bl) = sub_price budget c b pc (omega (arith, most, cheap)) h in
      (left, rw e e', omega arith, bl)

  fund_from-within :
      (budget : Carrier) (deficits : List (Carrier × ℕ))
      → IsBudget budget
      → price d budget ≤ limit
      → ArePrices deficits
      → weight (price d) (fund_from d q budget deficits) ≤ price d budget
  unfolding fund_from
  fund_from-within budget [] b h prices = omega arith
  fund_from-within budget ((denom, deficit) ∷ rest) b h prices =
      let count = min deficit (affordable d q budget denom) in
      let skip = fund_from-within budget rest b h prices.1 in
      elim (Bool-cases (le d denom d.nought || lt d budget denom)) [
        | inl out ↦ rw out skip
        | inr fits ↦ elim (Bool-cases (nat_eq count 0)) [
          | inl zero ↦ rw (fits, zero) skip
          | inr some_left ↦
              let (left, e, paid, bl) =
                paid_within budget denom deficit rest b h prices.0
                  (price_pos denom prices.0 (ground arith))
                  (budget_covers budget denom b prices.0 (ground arith)) in
              rw (fits, some_left, e)
                (omega (arith, paid, fund_from-within left rest bl (omega arith) prices.1))
        ]
      ]

  -- Each of the denominations that is wanted costs more than the budget, or nothing.
  abbrev pub AreTooDear : ℕ → List (Carrier × ℕ) → Type 0
  AreTooDear budget [] = Unit
  AreTooDear budget ((denom, _) ∷ rest) =
      ((95 * budget < 100 * price d denom) ⊎ (price d denom ≡ 0)) × AreTooDear budget rest

  -- Each is wanted.
  abbrev pub AreWanted : List (Carrier × ℕ) → Type 0
  AreWanted [] = Unit
  AreWanted ((_, count) ∷ rest) = (1 ≤ count) × AreWanted rest

  too_dear :
      (reserve : ℕ) (budget denom : Carrier)
      → 100 * price d budget ≡ 95 * reserve
      → IsBudget budget
      → IsPrice denom
      → (le d denom d.nought || lt d budget denom) ≡ true
      → (95 * reserve < 100 * price d denom) ⊎ (price d denom ≡ 0)
  too_dear reserve budget denom part b p out = elim (Bool-cases (le d denom d.nought)) [
    | inl free ↦ inr (ground (arith, price_units denom p, nought_units))
    | inr positive ↦
        let dear : price d budget < price d denom =
          ground (arith, price_units denom p, budget_units budget b) in
        inl (omega arith)
  ]

  -- If nothing is funded of what is wanted, then no denomination can be paid for.
  pub fund_from-nothing :
      (reserve : ℕ) (budget : Carrier) (deficits : List (Carrier × ℕ))
      → 100 * price d budget ≡ 95 * reserve
      → IsBudget budget
      → price d budget ≤ limit
      → ArePrices deficits
      → AreWanted deficits
      → total (fund_from d q budget deficits) ≡ 0
      → AreTooDear reserve deficits
  unfolding fund_from
  fund_from-nothing reserve budget [] part b h prices wanted e = tt
  fund_from-nothing reserve budget ((denom, deficit) ∷ rest) part b h prices wanted e =
      let count = min deficit (affordable d q budget denom) in
      elim (Bool-cases (le d denom d.nought || lt d budget denom)) [
        | inl out ↦ (
          too_dear reserve budget denom part b prices.0 out,
          fund_from-nothing reserve budget rest part b h prices.1 wanted.1 (rw out at e),
        )
        | inr fits ↦
            let pos_price = price_pos denom prices.0 (ground arith) in
            let le_budget = budget_covers budget denom b prices.0 (ground arith) in
            let (_, _, one) = affordable-price budget denom b prices.0 pos_price le_budget h in
            let some_left : nat_eq count 0 ≡ false = ground (arith, one, wanted.0) in
            let (left, e', _, _) =
              paid_within budget denom deficit rest b h prices.0 pos_price le_budget in
            absurd (omega (arith, rw (fits, some_left, e') at e, one, wanted.0))
      ]

  -- Where the reserve and the denominations are prices, and the reserve is within the range in which they
  -- are exact, the splits cost at most 95% of the reserve; and if there are none, then each denomination
  -- that is wanted costs more than that, or nothing.
  pub fund_splits-within :
      (reserve : Carrier) (deficits : List (Carrier × ℕ))
      → IsPrice reserve
      → price d reserve ≤ limit
      → ArePrices deficits
      → (100 * weight (price d) (fund_splits d q reserve deficits) ≤ 95 * price d reserve)
        × (AreWanted deficits
            → total (fund_splits d q reserve deficits) ≡ 0
            → AreTooDear (price d reserve) deficits)
  unfolding fund_splits
  fund_splits-within reserve deficits p h prices =
      let (budget, e, part, b) = ninety_five reserve p h in
      rw e (
        omega (arith, fund_from-within budget deficits b (omega arith) prices),
        λ wanted none.
            fund_from-nothing (price d reserve) budget deficits part b (omega arith) prices wanted
              none,
      )

module _ (d : Decimal) (q : Quotients d) (w : d.Carrier → ℕ) where
  open d use {Carrier, nought, checked_mul}
  open q use {from_u32}

  fund_from-weight :
      (budget : Carrier) (deficits : List (Carrier × ℕ))
      → weight w (fund_from d q budget deficits) ≤ weight w deficits
  unfolding fund_from
  fund_from-weight budget [] = omega arith
  fund_from-weight budget ((denom, deficit) ∷ rest) =
      let count = min deficit (affordable d q budget denom) in
      let skip = fund_from-weight budget rest in
      elim (Bool-cases (le d denom nought || lt d budget denom)) [
        | inl out ↦ rw out (omega (arith, skip))
        | inr fits ↦ elim (Bool-cases (nat_eq count 0)) [
          | inl zero ↦ rw (fits, zero) (omega (arith, skip))
          | inr some_left ↦
              elim (Option-cases (minus d q budget (checked_mul denom (from_u32 count)))) [
                | inl e ↦ rw (fits, some_left, e) (omega arith)
                | inr (left, e) ↦
                    let part = times_le count deficit (w denom) (omega arith) in
                    rw (fits, some_left, e) (omega (arith, part, fund_from-weight left rest))
              ]
        ]
      ]

  -- By any weighing of the denominations, what is funded is part of the deficits.
  pub fund_splits-weight :
      (reserve : Carrier) (deficits : List (Carrier × ℕ))
      → weight w (fund_splits d q reserve deficits) ≤ weight w deficits
  unfolding fund_splits
  fund_splits-weight reserve deficits = fund_from-weight _ deficits
