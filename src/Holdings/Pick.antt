-- ===== src/Holdings/Pick.antt =====
-- `select_from`: which holdings of a list, smallest first, cover a target.
use silvana_book_agent.Common.{
  ℕ, zero, suc, Bool, not, ◌&&◌, Option, none, some, List, [], ◌∷◌, ◌++◌, ◌==◌, if◌then◌else◌, any,
  find, reverse,
}
use silvana_book_agent.Common.Text.{text_Eq}
use silvana_book_agent.Common.Decimal.{Decimal, le, lt}
use silvana_book_agent.Holdings.{CachedHolding}

module _ (d : Decimal) where
  open d use {Carrier, nought, checked_add, checked_sub}

  abbrev Holding : Type 0
  Holding = CachedHolding d

  abbrev pub covers : Carrier → CachedHolding d → Bool
  covers target h = le d target h.amount

  -- The greedy loop, with `left` inputs still allowed: the picks it adds, in order, and the total.
  unfoldable pub greedy : Carrier → ℕ → Carrier → List Holding → Option (List Holding × Carrier)
  greedy target left total [] = some ([], total)
  greedy target zero total (h ∷ hs) = some ([], total)
  greedy target (suc left) total (h ∷ hs) = elim (checked_add total h.amount) [
    | none ↦ none
    | some next ↦
        let rest = greedy target left next hs in
        if le d target next
        then some (h ∷ [], next)
        else elim rest [ none ↦ none | some (picks, sum) ↦ some (h ∷ picks, sum) ]
  ]

  -- `split_last`, the part before the last first.
  unfoldable pub split_last : List Holding → Option (List Holding × Holding)
  split_last [] = none
  split_last (h ∷ hs) = elim (split_last hs) [
    | none ↦ some ([], h)
    | some (rest, last) ↦ some (h ∷ rest, last)
  ]

  abbrev pub is_picked : Holding → List Holding → Bool
  is_picked h picks = any (λ p. p.contract_id == h.contract_id) picks

  unfoldable pub residual_of : Carrier → Carrier → Holding → Option Carrier
  residual_of target total last = elim (checked_sub total last.amount) [
    | none ↦ none
    | some others ↦ checked_sub target others
  ]

  abbrev pub fits : Carrier → List Holding → Holding → Bool
  fits residual rest h = le d residual h.amount && not (is_picked h rest)

  unfoldable pub replacement :
      List Holding → Carrier → Carrier → List Holding → Holding → Option Holding
  unfolding residual_of
  replacement asc target total [] last = none
  replacement asc target total (r ∷ rest) last = elim (residual_of target total last) [
    | none ↦ none
    | some residual ↦ find (fits residual (r ∷ rest)) asc
  ]

  -- The tighten-last pass.
  unfoldable pub tighten : List Holding → Carrier → Carrier → List Holding → List Holding
  unfolding split_last replacement
  tighten asc target total picks = elim (split_last picks) [
    | none ↦ picks
    | some (rest, last) ↦ elim (replacement asc target total rest last) [
      | none ↦ picks
      | some h ↦ rest ++ (h ∷ [])
    ]
  ]

  unfoldable pub if_covered :
      List Holding → Carrier → Option (List Holding × Carrier) → Option (List Holding)
  unfolding tighten
  if_covered asc target none = none
  if_covered asc target (some (picks, total)) =
      if lt d total target then none else some (tighten asc target total picks)

  unfoldable pub select_from : List Holding → Carrier → ℕ → Option (List Holding)
  unfolding greedy if_covered
  select_from asc target max_inputs = elim (find (covers target) asc) [
    | none ↦ if_covered asc target (greedy target max_inputs nought (reverse asc))
    | some h ↦ some (h ∷ [])
  ]
