-- ===== src/Holdings/Ids.antt =====
-- The holdings that may be disclosed have different ids.
use silvana_book_agent.Common.{
  ℕ, ◌≡◌, subst, sym, refl, Bool, false, none, List, [], ◌∷◌, arith, ◌==◌, filter, is_some, nat_Eq,
}
use silvana_book_agent.Common.Text.{Text, text_Eq, text_eq_iff}
use silvana_book_agent.Common.Dict.{Dict, lookup, values, IsUnique}
use silvana_book_agent.Common.Decimal.{Decimal}
use silvana_book_agent.Holdings.{CachedHolding, HoldingsCache}
use silvana_book_agent.Holdings.Pools.{insert_sorted, sort_by_amount, get_selectable}
use silvana_book_agent.Holdings.Pick.{is_picked}
use silvana_book_agent.Holdings.Picked.{Distinct}
use silvana_book_agent.Holdings.Refresh.{IsKeyed}
use silvana_book_agent.Holdings.Choose.{blob_ready}

module _ (d : Decimal) where
  open d use {Carrier}

  abbrev Holding : Type 0
  Holding = CachedHolding d

  lookup-absent :
      (h : Holding) (pool : Dict Text Holding)
      → IsKeyed d pool
      → lookup h.contract_id pool ≡ none
      → is_picked d h (values pool) ≡ false
  lookup-absent h [] k e = refl
  lookup-absent h ((i, g) ∷ pool) k e =
      let same : g.contract_id ≡ i = k.0 in ground (arith, lookup-absent h pool k.1)

  values-Distinct :
      (pool : Dict Text Holding) → IsKeyed d pool → IsUnique pool → Distinct d (values pool)
  values-Distinct [] k u = tt
  values-Distinct ((i, h) ∷ pool) k u = (
    lookup-absent h pool k.1 (subst (λ x. lookup x pool ≡ none) (sym k.0) u.0),
    values-Distinct pool k.1 u.1,
  )

  filter-absent :
      (p : Holding → Bool) (h : Holding) (hs : List Holding)
      → is_picked d h hs ≡ false
      → is_picked d h (filter p hs) ≡ false
  filter-absent p h [] e = refl
  filter-absent p h (x ∷ xs) e = ground (arith, filter-absent p h xs)

  pub filter-Distinct :
      (p : Holding → Bool) (hs : List Holding) → Distinct d hs → Distinct d (filter p hs)
  filter-Distinct p [] u = tt
  filter-Distinct p (x ∷ xs) u = ground (arith, filter-absent p x xs u.0, filter-Distinct p xs u.1)

  insert-absent :
      (g h : Holding) (hs : List Holding)
      → is_picked d g hs ≡ false
      → (h.contract_id == g.contract_id) ≡ false
      → is_picked d g (insert_sorted d h hs) ≡ false
  unfolding insert_sorted
  insert-absent g h [] e n = ground arith
  insert-absent g h (x ∷ xs) e n = ground (arith, insert-absent g h xs)

  insert-Distinct :
      (h : Holding) (hs : List Holding)
      → is_picked d h hs ≡ false
      → Distinct d hs
      → Distinct d (insert_sorted d h hs)
  unfolding insert_sorted
  insert-Distinct h [] e u = (refl, tt)
  insert-Distinct h (x ∷ xs) e u = ground (
    arith,
    insert-Distinct h xs,
    insert-absent x h xs,
    text_eq_iff h.contract_id x.contract_id,
    text_eq_iff x.contract_id h.contract_id,
  )

  sort-absent :
      (h : Holding) (hs : List Holding)
      → is_picked d h hs ≡ false
      → is_picked d h (sort_by_amount d hs) ≡ false
  unfolding sort_by_amount
  sort-absent h [] e = refl
  sort-absent h (x ∷ xs) e =
      ground (arith, insert-absent h x (sort_by_amount d xs), sort-absent h xs)

  sort-Distinct : (hs : List Holding) → Distinct d hs → Distinct d (sort_by_amount d hs)
  unfolding sort_by_amount
  sort-Distinct [] u = tt
  sort-Distinct (h ∷ hs) u =
      insert-Distinct h (sort_by_amount d hs) (sort-absent h hs u.0) (sort-Distinct hs u.1)

  -- The holdings that may be disclosed are distinct.
  pub blob_ready-Distinct :
      (instrument : Text) (include_reserve : Bool) (now : ℕ) (c : HoldingsCache d)
      → IsKeyed d c.available
      → IsUnique c.available
      → Distinct d (blob_ready d instrument include_reserve now c)
  unfolding blob_ready get_selectable
  blob_ready-Distinct instrument include_reserve now c k u =
      filter-Distinct (λ h. is_some h.created_event_blob) _
        (sort-Distinct _ (filter-Distinct _ (values c.available) (values-Distinct c.available k u)))
