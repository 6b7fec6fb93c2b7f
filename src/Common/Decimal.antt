-- ===== src/Common/Decimal.antt =====
-- `rust_decimal::Decimal`, which the repository takes from a package: a parameter of the models
-- that use it. Comparisons are by the number that a value stands for, as the package documents.
pub mod Sample
use silvana_book_agent.Common.{ℕ, ◌≡◌, Bool, true, Option, none, some, List, [], ◌∷◌}
use silvana_book_agent.Common.Int.{ℤ, pos, ◌+ℤ◌, ◌-ℤ◌, ◌≤ℤ◌, leb_ℤ, ltb_ℤ}

pub record Decimal : Type 1 where
  pub Carrier : Type 0
  -- the number, in units of 10^-28, the finest step that the package has
  pub units : Carrier → ℤ
  -- `ZERO`, `ONE`, `MAX`, and `new(m, s)`, which is m · 10^-s
  pub nought : Carrier
  pub one : Carrier
  pub greatest : Carrier
  pub new : ℕ → ℕ → Carrier
  pub checked_add : Carrier → Carrier → Option Carrier
  pub checked_sub : Carrier → Carrier → Option Carrier
  pub checked_mul : Carrier → Carrier → Option Carrier
  pub saturating_add : Carrier → Carrier → Carrier
  pub saturating_sub : Carrier → Carrier → Carrier

module _ (d : Decimal) where
  open d use {Carrier, units, nought, checked_add}

  -- `a <= b` and `a < b`
  abbrev pub le : Carrier → Carrier → Bool
  le a b = leb_ℤ (units a) (units b)

  abbrev pub lt : Carrier → Carrier → Bool
  lt a b = ltb_ℤ (units a) (units b)

  -- `dec_sum` of crates/agent-logic/src/num.rs, from a total so far
  unfoldable pub sum_from : Carrier → List Carrier → Option Carrier
  sum_from total [] = some total
  sum_from total (a ∷ xs) = elim (checked_add total a) [
    | none ↦ none
    | some next ↦ sum_from next xs
  ]

  unfoldable pub dec_sum : List Carrier → Option Carrier
  unfolding sum_from
  dec_sum xs = sum_from nought xs

  -- The sum of the numbers themselves.
  unfoldable pub exact_sum : List Carrier → ℤ
  exact_sum [] = pos 0
  exact_sum (a ∷ xs) = units a +ℤ exact_sum xs

-- What the package promises of amounts: values of at most ten decimal places, the finest that the
-- ledger has. A sum or difference of two amounts of size at most `limit` is exact, and one that
-- comes out within `limit` was exact, since rounding starts only far above it.
pub record Amounts (d : Decimal) : Type 1 where
  pub IsAmount : d.Carrier → Type 0
  pub limit : ℕ
  pub nought_units : d.units d.nought ≡ pos 0
  pub nought_amount : IsAmount d.nought
  pub add_total :
      (a b : d.Carrier)
      → IsAmount a
      → IsAmount b
      → d.units a +ℤ d.units b ≤ℤ pos limit
      → pos 0 -ℤ pos limit ≤ℤ d.units a +ℤ d.units b
      → (c : d.Carrier) × (d.checked_add a b ≡ some c)
        × (d.units c ≡ d.units a +ℤ d.units b)
        × IsAmount c
  pub add_within :
      (a b c : d.Carrier)
      → IsAmount a
      → IsAmount b
      → d.checked_add a b ≡ some c
      → d.units c ≤ℤ pos limit
      → pos 0 -ℤ pos limit ≤ℤ d.units c
      → (d.units c ≡ d.units a +ℤ d.units b) × IsAmount c
  pub sub_total :
      (a b : d.Carrier)
      → IsAmount a
      → IsAmount b
      → d.units a -ℤ d.units b ≤ℤ pos limit
      → pos 0 -ℤ pos limit ≤ℤ d.units a -ℤ d.units b
      → (c : d.Carrier) × (d.checked_sub a b ≡ some c)
        × (d.units c ≡ d.units a -ℤ d.units b)
        × IsAmount c

-- What the package promises of a fee margin: adding a value to zero gives the same number, and 1.02
-- times a positive value is at least that value.
pub record Margins (d : Decimal) : Type 0 where
  pub add_nought : (a c : d.Carrier) → d.checked_add d.nought a ≡ some c → d.units c ≡ d.units a
  pub mul_margin :
      (a c : d.Carrier)
      → lt d d.nought a ≡ true
      → d.checked_mul a (d.new 102 2) ≡ some c
      → le d a c ≡ true

-- What the package promises of the saturating operations: in range, they are the checked ones.
pub record Saturates (d : Decimal) : Type 0 where
  pub add_in_range : (a b c : d.Carrier) → d.checked_add a b ≡ some c → d.saturating_add a b ≡ c
  pub sub_in_range : (a b c : d.Carrier) → d.checked_sub a b ≡ some c → d.saturating_sub a b ≡ c
