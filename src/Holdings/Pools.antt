-- ===== src/Holdings/Pools.antt =====
-- The pools of the cache: snapshots of the ledger, and which holdings may be used.
use silvana_book_agent.Common.{
  ℕ, Bool, true, false, not, ◌&&◌, ◌||◌, Option, none, some, List, [], ◌∷◌, map, ltb, leb, ◌==◌,
  if◌then◌else◌, length, filter, is_some, take,
}
use silvana_book_agent.Common.Text.{Text, text_Eq, text_lt}
use silvana_book_agent.Common.Dict.{Dict, lookup, insert, retain, retain_keys, contains, values}
use silvana_book_agent.Common.Decimal.{Decimal, le, lt, dec_sum}
use silvana_book_agent.Holdings.{
  CachedHolding, ReservedEntry, ReservationKind, v1_payment, v2_quote, split, HoldingsCache,
  is_expired, available_ttl_secs, secs_since,
}

-- A reservation that still holds.
abbrev pub is_live : ℕ → Option ReservedEntry → Bool
is_live now none = false
is_live now (some e) = not (is_expired e now)

abbrev pub is_cid : Text → Option Text → Bool
is_cid cid none = false
is_cid cid (some other) = cid == other

abbrev pub is_v2 : ReservationKind → Bool
is_v2 (v1_payment _) = false
is_v2 (v2_quote _ _) = true
is_v2 (split _) = false

abbrev pub is_committed : ℕ → Option ReservedEntry → Bool
is_committed now none = false
is_committed now (some e) = not (is_expired e now) && is_v2 e.kind

module _ (d : Decimal) where
  open d use {Carrier, greatest}

  abbrev pub new : Bool → HoldingsCache d
  new splitter_reserve_enabled = record {
    available = [];
    consumed = [];
    reserved = [];
    splitter_reserve_enabled = splitter_reserve_enabled;
    dust_below = [];
    pending_splits = [];
    split_op_times = [];
  }

  -- `for h in holdings { available.insert(h.contract_id.clone(), h); }`
  unfoldable pub insert_all :
      List (CachedHolding d) → Dict Text (CachedHolding d) → Dict Text (CachedHolding d)
  insert_all [] pool = pool
  insert_all (h ∷ hs) pool = insert_all hs (insert h.contract_id h pool)

  abbrev pub is_recent : ℕ → CachedHolding d → Bool
  is_recent snapshot_start h = ltb snapshot_start h.discovered_at

  unfoldable pub refresh_from_acs_snapshot :
      List (CachedHolding d) → ℕ → HoldingsCache d → HoldingsCache d
  unfolding insert_all
  refresh_from_acs_snapshot holdings snapshot_start c =
      let snapshot = insert_all holdings [] in
      record c {
        consumed = retain_keys (λ cid. contains cid snapshot) c.consumed;
        available = insert_all (values snapshot) (retain (is_recent snapshot_start) c.available);
      }

  unfoldable pub add_created : List (CachedHolding d) → HoldingsCache d → HoldingsCache d
  unfolding insert_all
  add_created holdings c = record c { available = insert_all holdings c.available }

  abbrev pub is_fresh : ℕ → CachedHolding d → Bool
  is_fresh now h = leb (secs_since now h.discovered_at) available_ttl_secs

  -- `max_by`: the first is the greater by amount, then by contract id.
  abbrev pub is_greater : CachedHolding d → CachedHolding d → Bool
  is_greater a b =
      lt d b.amount a.amount || (le d a.amount b.amount && text_lt b.contract_id a.contract_id)

  abbrev pub better : Option (CachedHolding d) → CachedHolding d → CachedHolding d
  better none h = h
  better (some best) h = if is_greater best h then best else h

  pub largest_from : Option (CachedHolding d) → List (CachedHolding d) → Option (CachedHolding d)
  largest_from best [] = best
  largest_from best (h ∷ hs) = largest_from (some (better best h)) hs

  abbrev pub is_reserve_candidate : HoldingsCache d → ℕ → Text → CachedHolding d → Bool
  is_reserve_candidate c now instrument h =
      h.instrument == instrument && not (contains h.contract_id c.consumed) && is_fresh now h

  pub cid_of : Option (CachedHolding d) → Option Text
  cid_of none = none
  cid_of (some h) = some h.contract_id

  unfoldable pub splitter_reserve_cid : HoldingsCache d → ℕ → Text → Option Text
  unfolding largest_from cid_of
  splitter_reserve_cid c now instrument =
      cid_of
        (largest_from none (filter (is_reserve_candidate c now instrument) (values c.available)))

  get_cid : Option Text → HoldingsCache d → Option (CachedHolding d)
  get_cid none c = none
  get_cid (some cid) c = lookup cid c.available

  pub splitter_reserve : Text → ℕ → HoldingsCache d → Option (CachedHolding d)
  unfolding get_cid splitter_reserve_cid
  splitter_reserve instrument now c =
      if c.splitter_reserve_enabled then get_cid (splitter_reserve_cid c now instrument) c else none

  -- `get`
  pub get : Text → HoldingsCache d → Option (CachedHolding d)
  get cid c = lookup cid c.available

  -- The test that each use of holdings makes, with the splitter reserve to leave out.
  abbrev pub is_selectable : HoldingsCache d → ℕ → Text → Option Text → CachedHolding d → Bool
  is_selectable c now instrument splitter_cid h =
      h.instrument == instrument
      && is_fresh now h
      && not (contains h.contract_id c.consumed)
      && not (is_live now (lookup h.contract_id c.reserved))
      && not (is_cid h.contract_id splitter_cid)

  -- `sort_by` on the amount, which is stable: equal amounts keep their order.
  unfoldable pub insert_sorted : CachedHolding d → List (CachedHolding d) → List (CachedHolding d)
  insert_sorted h [] = h ∷ []
  insert_sorted h (x ∷ xs) = if le d h.amount x.amount then h ∷ x ∷ xs else x ∷ insert_sorted h xs

  unfoldable pub sort_by_amount : List (CachedHolding d) → List (CachedHolding d)
  unfolding insert_sorted
  sort_by_amount [] = []
  sort_by_amount (h ∷ hs) = insert_sorted h (sort_by_amount hs)

  unfoldable pub splitter_to_exclude : HoldingsCache d → ℕ → Text → Bool → Option Text
  splitter_to_exclude c now instrument exclude =
      if exclude && c.splitter_reserve_enabled then splitter_reserve_cid c now instrument else none

  unfoldable pub get_selectable : Text → Bool → ℕ → HoldingsCache d → List (CachedHolding d)
  unfolding sort_by_amount splitter_to_exclude
  get_selectable instrument exclude_splitter_reserve now c =
      let splitter_cid = splitter_to_exclude c now instrument exclude_splitter_reserve in
      sort_by_amount (filter (is_selectable c now instrument splitter_cid) (values c.available))

  -- `Decimal::MAX` where the sum is out of range.
  pub or_greatest : Option Carrier → Carrier
  or_greatest none = greatest
  or_greatest (some total) = total

  abbrev pub counts_as_available : HoldingsCache d → ℕ → Text → CachedHolding d → Bool
  counts_as_available c now instrument h =
      h.instrument == instrument
      && not (contains h.contract_id c.consumed)
      && not (is_committed now (lookup h.contract_id c.reserved))

  pub total_available_amount : Text → ℕ → HoldingsCache d → Carrier
  unfolding or_greatest
  total_available_amount instrument now c = or_greatest (
      dec_sum d
        (map (λ h. h.amount) (filter (counts_as_available c now instrument) (values c.available))))

  abbrev pub splitter_unless : HoldingsCache d → ℕ → Text → Bool → Option Text
  splitter_unless c now instrument include = splitter_to_exclude c now instrument (not include)

  -- Largest first, by `sort_unstable_by`; equal amounts have no fixed order.
  pub insert_falling : CachedHolding d → List (CachedHolding d) → List (CachedHolding d)
  insert_falling h [] = h ∷ []
  insert_falling h (x ∷ xs) = if le d x.amount h.amount then h ∷ x ∷ xs else x ∷ insert_falling h xs

  pub sort_falling : List (CachedHolding d) → List (CachedHolding d)
  unfolding insert_falling
  sort_falling [] = []
  sort_falling (h ∷ hs) = insert_falling h (sort_falling hs)

  pub selectable_blob_ready_total : Text → ℕ → Bool → ℕ → HoldingsCache d → Carrier
  unfolding or_greatest sort_falling
  selectable_blob_ready_total instrument max_inputs include_reserve now c =
      let splitter_cid = splitter_unless c now instrument include_reserve in
      let ready =
        filter (λ h. is_some h.created_event_blob)
          (filter (is_selectable c now instrument splitter_cid) (values c.available)) in
      or_greatest (dec_sum d (take max_inputs (map (λ h. h.amount) (sort_falling ready))))

  pub blob_pending_cids : Text → Bool → ℕ → HoldingsCache d → List Text
  unfolding sort_falling
  blob_pending_cids instrument include_reserve now c =
      let splitter_cid = splitter_unless c now instrument include_reserve in
      let pending =
        filter (λ h. not (is_some h.created_event_blob))
          (filter (is_selectable c now instrument splitter_cid) (values c.available)) in
      map (λ h. h.contract_id) (take 100 (sort_falling pending))

  pub stats : Text → ℕ → HoldingsCache d → ℕ × ℕ × ℕ × ℕ
  stats instrument now c = (
    length (filter (λ h. h.instrument == instrument) (values c.available)),
    length (values c.consumed),
    length (values c.reserved),
    length (filter (is_selectable c now instrument none) (values c.available)),
  )
