-- ===== src/Holdings/Refresh.antt =====
-- What a snapshot of the ledger does to the pools.
use silvana_book_agent.Common.{
  ℕ, ◌≤◌, ◌<◌, ◌≡◌, refl, inl, inr, true, Option, none, some, List, [], ◌∷◌, arith, ◌==◌,
  if◌then◌else◌, Bool-cases, is_some, ◌∙◌,
}
use silvana_book_agent.Common.Text.{Text, text_Eq, text_eq_iff}
use silvana_book_agent.Common.Dict.{
  Dict, lookup, insert, contains, values, retain, IsUnique, kept, lookup-insert, lookup-retain,
  lookup-retain_keys, insert-IsUnique, ==_refl,
}
use silvana_book_agent.Common.Decimal.{Decimal}
use silvana_book_agent.Holdings.{CachedHolding, HoldingsCache, secs_since, available_ttl_secs}
use silvana_book_agent.Holdings.Pools.{
  insert_all, is_recent, refresh_from_acs_snapshot, is_selectable,
}
use silvana_book_agent.Holdings.Reserve.{mark_consumed}
use silvana_book_agent.Holdings.Reservations.{lookup-free_all}

module _ (d : Decimal) where
  -- The last holding of the list with the id.
  abbrev pub last_with : Text → List (CachedHolding d) → Option (CachedHolding d)
  last_with cid [] = none
  last_with cid (h ∷ hs) = elim (last_with cid hs) [
    | none ↦ if h.contract_id == cid then some h else none
    | some g ↦ some g
  ]

  abbrev pub or_else :
      Option (CachedHolding d) → Option (CachedHolding d) → Option (CachedHolding d)
  or_else none o = o
  or_else (some h) o = some h

  -- Every holding stands under its own id.
  abbrev pub IsKeyed : Dict Text (CachedHolding d) → Type 0
  IsKeyed [] = Unit
  IsKeyed ((k, h) ∷ pool) = (h.contract_id ≡ k) × IsKeyed pool

  lookup-insert_all :
      (cid : Text) (hs : List (CachedHolding d)) (pool : Dict Text (CachedHolding d))
      → lookup cid (insert_all d hs pool) ≡ or_else (last_with cid hs) (lookup cid pool)
  unfolding insert_all
  lookup-insert_all cid [] pool = refl
  lookup-insert_all cid (h ∷ hs) pool = ground (
    arith,
    lookup-insert_all cid hs (insert h.contract_id h pool),
    lookup-insert h.contract_id cid h pool,
  )

  insert-IsKeyed :
      (h : CachedHolding d) (pool : Dict Text (CachedHolding d))
      → IsKeyed pool
      → IsKeyed (insert h.contract_id h pool)
  insert-IsKeyed h [] k = (refl, tt)
  insert-IsKeyed h ((i, g) ∷ pool) k = ground (arith, insert-IsKeyed h pool k.1)

  insert_all-good :
      (hs : List (CachedHolding d)) (pool : Dict Text (CachedHolding d))
      → IsKeyed pool
      → IsUnique pool
      → IsKeyed (insert_all d hs pool) × IsUnique (insert_all d hs pool)
  unfolding insert_all
  insert_all-good [] pool k u = (k, u)
  insert_all-good (h ∷ hs) pool k u =
      insert_all-good hs (insert h.contract_id h pool) (insert-IsKeyed h pool k)
        (insert-IsUnique h.contract_id h pool u)

  last_with-values :
      (cid : Text) (pool : Dict Text (CachedHolding d))
      → IsKeyed pool
      → IsUnique pool
      → last_with cid (values pool) ≡ lookup cid pool
  last_with-values cid [] k u = refl
  last_with-values cid ((i, h) ∷ pool) k u = elim (Bool-cases (i == cid)) [
    | inl same ↦
        let eq : i ≡ cid = (text_eq_iff i cid).0 same in
        ground (arith, last_with-values cid pool k.1 u.1)
    | inr other ↦ ground (arith, last_with-values cid pool k.1 u.1)
  ]

  last_with-snapshot :
      (cid : Text) (hs : List (CachedHolding d))
      → last_with cid (values (insert_all d hs [])) ≡ last_with cid hs
  last_with-snapshot cid hs =
      let (k, u) = insert_all-good hs [] tt tt in
      ground (arith, last_with-values cid (insert_all d hs []) k u, lookup-insert_all cid hs [])

  -- What a snapshot does to each id. A holding that it lists is available as it was listed last,
  -- and a mark of consumption on it stays. One that it does not list stays available only if it
  -- was discovered after the snapshot began, and loses its mark of consumption. Reservations stay.
  -- (In a cache where no id is available twice.)
  pub refresh_from_acs_snapshot-lookup :
      (hs : List (CachedHolding d)) (start : ℕ) (c : HoldingsCache d) (cid : Text)
      → IsUnique c.available
      → (lookup cid (refresh_from_acs_snapshot d hs start c).available
          ≡ or_else (last_with cid hs) (kept (is_recent d start) (lookup cid c.available)))
        × (lookup cid (refresh_from_acs_snapshot d hs start c).consumed
            ≡ (if is_some (last_with cid hs) then lookup cid c.consumed else none))
        × ((refresh_from_acs_snapshot d hs start c).reserved ≡ c.reserved)
  unfolding refresh_from_acs_snapshot
  refresh_from_acs_snapshot-lookup hs start c cid u = (
    lookup-insert_all cid (values (insert_all d hs [])) (retain (is_recent d start) c.available)
        ∙ ground
            (arith, last_with-snapshot cid hs, lookup-retain (is_recent d start) cid c.available u),
    ground (
      arith,
      lookup-retain_keys (λ k. contains k (insert_all d hs [])) cid c.consumed,
      lookup-insert_all cid hs [],
    ),
    refl,
  )

  -- A spent holding comes back. If a holding was discovered after the snapshot began, was marked
  -- consumed before the snapshot was merged, and is not in the snapshot, then after the merge it
  -- passes the test of a selection that still finds it fresh and does not leave it out as the
  -- splitter reserve, although nothing unspent it. (In a cache where no id is available twice.)
  pub refresh_from_acs_snapshot-revives :
      (hs : List (CachedHolding d)) (start now : ℕ) (reason : Text) (spent_at : ℕ)
      (c : HoldingsCache d) (h : CachedHolding d)
      → IsUnique c.available
      → lookup h.contract_id c.available ≡ some h
      → start < h.discovered_at
      → last_with h.contract_id hs ≡ none
      → secs_since now h.discovered_at ≤ available_ttl_secs
      → let c' =
          refresh_from_acs_snapshot d hs start
            (mark_consumed d (h.contract_id ∷ []) reason spent_at c) in
        (lookup h.contract_id c'.available ≡ some h)
        × (is_selectable d c' now h.instrument none h ≡ true)
  unfolding mark_consumed
  refresh_from_acs_snapshot-revives hs start now reason spent_at c h u found late unlisted fresh =
      let c1 = mark_consumed d (h.contract_id ∷ []) reason spent_at c in
      let (a, k, r) = refresh_from_acs_snapshot-lookup hs start c1 h.contract_id u in
      (
        ground arith,
        ground (
          arith,
          ==_refl h.instrument,
          ==_refl h.contract_id,
          lookup-free_all (h.contract_id ∷ []) h.contract_id c.reserved,
        ),
      )
