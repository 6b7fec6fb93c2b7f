-- ===== src/PaymentQueue/Select.antt =====
-- The selection of amulets for an allocation, in crates/cloud-agent/src/payment_queue.rs.
use silvana_book_agent.Common.{
  ℕ, suc, Bool, true, false, Option, none, some, List, [], ◌∷◌, ◌++◌, map, leb, if◌then◌else◌,
  length, get_elem?, reverse,
}
use silvana_book_agent.Common.Text.{Text}
use silvana_book_agent.Common.Decimal.{Decimal, le, lt, dec_sum}

pub record CachedAmulet (d : Decimal) : Type 0 where
  pub contract_id : Text
  pub amount : d.Carrier
  pub discovered_at : ℕ

abbrev pub max_amulet_inputs : ℕ
max_amulet_inputs = 100

-- `iter().enumerate()`, from a first index
unfoldable pub enumerate {ℓ} : {A : Type ℓ} → ℕ → List A → List (ℕ × A)
enumerate i [] = []
enumerate i (a ∷ xs) = (i, a) ∷ enumerate (suc i) xs

module _ (d : Decimal) where
  open d use {Carrier, nought, one, new, checked_add, checked_mul}

  -- `with_fee_margin`: 1.02 times the amount, if that is in range
  unfoldable pub with_fee_margin : Carrier → Option Carrier
  with_fee_margin amount = checked_mul amount (new 102 2)

  -- `iter().position(|amt| *amt >= target)`, from a first index
  unfoldable pub position_from : Carrier → ℕ → List Carrier → Option ℕ
  position_from target i [] = none
  position_from target i (a ∷ xs) =
      if le d target a then some i else position_from target (suc i) xs

  -- The loop over the indexed amounts, largest first; `[]` where it ends without reaching the
  -- target.
  unfoldable pub gather : Carrier → List (ℕ × Carrier) → List ℕ → Carrier → List ℕ
  gather target [] selected total = []
  gather target ((i, amount) ∷ rest) selected total =
      elim (leb max_amulet_inputs (length selected)) [
        | true ↦ []
        | false ↦ elim (checked_add total amount) [
          | none ↦ selected ++ i ∷ []
          | some next ↦ elim (le d target next) [
            | true ↦ selected ++ i ∷ []
            | false ↦ gather target rest (selected ++ i ∷ []) next
          ]
        ]
      ]

  unfoldable pub select_amulet_indices : List Carrier → Carrier → List ℕ
  unfolding enumerate position_from gather
  select_amulet_indices ascending target =
      if le d target nought then [] else elim (position_from target 0 ascending) [
        | some i ↦ i ∷ []
        | none ↦ gather target (reverse (enumerate 0 ascending)) [] nought
      ]

  -- `filter_map(|i| selectable.get(i))`
  unfoldable pub pick_all : List (CachedAmulet d) → List ℕ → List (CachedAmulet d)
  pick_all selectable [] = []
  pick_all selectable (i ∷ is) = elim (get_elem? selectable i) [
    | none ↦ pick_all selectable is
    | some a ↦ a ∷ pick_all selectable is
  ]

  unfoldable pub select_amulets_for_allocation :
      List (CachedAmulet d) → Carrier → List (CachedAmulet d)
  unfolding with_fee_margin select_amulet_indices pick_all
  select_amulets_for_allocation selectable estimated_cc =
      if le d estimated_cc nought then [] else elim (with_fee_margin estimated_cc) [
        | none ↦ []
        | some target ↦
            pick_all selectable (select_amulet_indices (map (λ a. a.amount) selectable) target)
      ]

  unfoldable pub short_of : Carrier → Option Carrier → Bool
  short_of need none = false
  short_of need (some total) = lt d total need

  -- Whether the amulets sum below the need; a sum out of range covers it.
  unfoldable pub selection_short : List (CachedAmulet d) → Carrier → Bool
  unfolding short_of dec_sum
  selection_short selected need = short_of need (dec_sum d (map (λ a. a.amount) selected))
