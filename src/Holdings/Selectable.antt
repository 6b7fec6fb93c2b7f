-- ===== src/Holdings/Selectable.antt =====
-- Which holdings a selection may use.
use silvana_book_agent.Common.{
  ℕ, ◌≤◌, ◌≡◌, inl, inr, Bool, true, false, Option, none, List, [], ◌∷◌, arith, ◌==◌, Bool-cases,
  filter, All,
}
use silvana_book_agent.Common.Text.{Text, text_Eq}
use silvana_book_agent.Common.Dict.{lookup, values}
use silvana_book_agent.Common.Decimal.{Decimal}
use silvana_book_agent.Common.Int.{◌≤ℤ◌}
use silvana_book_agent.Holdings.{CachedHolding, HoldingsCache, secs_since, available_ttl_secs}
use silvana_book_agent.Holdings.Pools.{
  is_live, is_cid, is_selectable, insert_sorted, sort_by_amount, splitter_to_exclude,
  get_selectable,
}

module _ (d : Decimal) where
  -- The holding is of the instrument, seen within the time to live, not consumed, under no live
  -- reservation, and not the splitter reserve that was to be left out.
  pub record IsUsable (c : HoldingsCache d) (now : ℕ) (instrument : Text) (left_out : Option Text)
      (h : CachedHolding d) : Type 0 where
    pub of_instrument : (h.instrument == instrument) ≡ true
    pub fresh : secs_since now h.discovered_at ≤ available_ttl_secs
    pub unconsumed : lookup h.contract_id c.consumed ≡ none
    pub unreserved : is_live now (lookup h.contract_id c.reserved) ≡ false
    pub not_left_out : is_cid h.contract_id left_out ≡ false

  -- In order of amount.
  abbrev pub AtLeast : CachedHolding d → List (CachedHolding d) → Type 0
  AtLeast h [] = Unit
  AtLeast h (x ∷ xs) = (d.units h.amount ≤ℤ d.units x.amount) × AtLeast h xs

  abbrev pub IsSorted : List (CachedHolding d) → Type 0
  IsSorted [] = Unit
  IsSorted (h ∷ hs) = AtLeast h hs × IsSorted hs

  insert_sorted-All {ℓ} :
      (P : CachedHolding d → Type ℓ) (h : CachedHolding d) (hs : List (CachedHolding d))
      → P h
      → All P hs
      → All P (insert_sorted d h hs)
  unfolding insert_sorted
  insert_sorted-All P h [] p a = (p, tt)
  insert_sorted-All P h (x ∷ xs) p a = ground (arith, insert_sorted-All P h xs p a.1)

  pub sort_by_amount-All {ℓ} :
      (P : CachedHolding d → Type ℓ) (hs : List (CachedHolding d))
      → All P hs
      → All P (sort_by_amount d hs)
  unfolding sort_by_amount
  sort_by_amount-All P [] a = tt
  sort_by_amount-All P (h ∷ hs) a =
      insert_sorted-All P h (sort_by_amount d hs) a.0 (sort_by_amount-All P hs a.1)

  AtLeast-trans :
      (g h : CachedHolding d) (hs : List (CachedHolding d))
      → d.units g.amount ≤ℤ d.units h.amount
      → AtLeast h hs
      → AtLeast g hs
  AtLeast-trans g h [] l a = tt
  AtLeast-trans g h (x ∷ xs) l a = ground (arith, AtLeast-trans g h xs l a.1)

  insert_sorted-AtLeast :
      (g h : CachedHolding d) (hs : List (CachedHolding d))
      → d.units g.amount ≤ℤ d.units h.amount
      → AtLeast g hs
      → AtLeast g (insert_sorted d h hs)
  unfolding insert_sorted
  insert_sorted-AtLeast g h [] l a = (l, tt)
  insert_sorted-AtLeast g h (x ∷ xs) l a = ground (arith, insert_sorted-AtLeast g h xs l a.1)

  insert_sorted-IsSorted :
      (h : CachedHolding d) (hs : List (CachedHolding d))
      → IsSorted hs
      → IsSorted (insert_sorted d h hs)
  unfolding insert_sorted
  insert_sorted-IsSorted h [] s = (tt, tt)
  insert_sorted-IsSorted h (x ∷ xs) s =
      ground
        (arith, AtLeast-trans h x xs, insert_sorted-AtLeast x h xs, insert_sorted-IsSorted h xs s.1)

  pub sort_by_amount-IsSorted : (hs : List (CachedHolding d)) → IsSorted (sort_by_amount d hs)
  unfolding sort_by_amount
  sort_by_amount-IsSorted [] = tt
  sort_by_amount-IsSorted (h ∷ hs) =
      insert_sorted-IsSorted h (sort_by_amount d hs) (sort_by_amount-IsSorted hs)

  is_selectable-IsUsable :
      (c : HoldingsCache d) (now : ℕ) (instrument : Text) (left_out : Option Text)
      (h : CachedHolding d)
      → is_selectable d c now instrument left_out h ≡ true
      → IsUsable c now instrument left_out h
  is_selectable-IsUsable c now instrument left_out h s = record {
    of_instrument = ground arith;
    fresh = ground arith;
    unconsumed = ground arith;
    unreserved = ground arith;
    not_left_out = ground arith;
  }

  filter-IsUsable :
      (c : HoldingsCache d) (now : ℕ) (instrument : Text) (left_out : Option Text)
      (hs : List (CachedHolding d))
      → All
          (IsUsable c now instrument left_out)
          (filter (is_selectable d c now instrument left_out) hs)
  filter-IsUsable c now instrument left_out [] = tt
  filter-IsUsable c now instrument left_out (h ∷ hs) =
      elim (Bool-cases (is_selectable d c now instrument left_out h)) [
        | inl e ↦ rw (e) (
          is_selectable-IsUsable c now instrument left_out h e,
          filter-IsUsable c now instrument left_out hs,
        )
        | inr e ↦ rw (e) (filter-IsUsable c now instrument left_out hs)
      ]

  -- The selectable holdings are in order of amount, smallest first, and each of them is of the
  -- instrument, seen within the time to live, not consumed, under no live reservation, and not the
  -- splitter reserve that is left out.
  pub get_selectable-IsUsable :
      (instrument : Text) (exclude : Bool) (now : ℕ) (c : HoldingsCache d)
      → IsSorted (get_selectable d instrument exclude now c)
        × All
            (IsUsable c now instrument (splitter_to_exclude d c now instrument exclude))
            (get_selectable d instrument exclude now c)
  unfolding get_selectable
  get_selectable-IsUsable instrument exclude now c = (
    sort_by_amount-IsSorted (
        filter (is_selectable d c now instrument (splitter_to_exclude d c now instrument exclude))
          (values c.available)),
    sort_by_amount-All _ _ (
        filter-IsUsable c now instrument (splitter_to_exclude d c now instrument exclude)
          (values c.available)),
  )
