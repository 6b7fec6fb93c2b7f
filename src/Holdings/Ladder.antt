-- ===== src/Holdings/Ladder.antt =====
-- What the cache keeps for the ladder of denominations.
use silvana_book_agent.Common.{
  ℕ, ◌+◌, min, Bool, true, not, ◌&&◌, Option, none, some, List, [], ◌∷◌, ◌++◌, map, ltb, leb, ◌==◌,
  filter, length,
}
use silvana_book_agent.Common.Text.{Text, text_Eq}
use silvana_book_agent.Common.Dict.{Dict, lookup, insert, contains, values}
use silvana_book_agent.Common.Decimal.{Decimal, le, lt}
use silvana_book_agent.Holdings.{
  CachedHolding, PendingSplit, HoldingsCache, is_split_expired, split_op_window_secs, secs_since,
  u32_max,
}
use silvana_book_agent.Holdings.Pools.{splitter_to_exclude, is_cid}

-- `u32::saturating_add`
abbrev pub saturating_add : ℕ → ℕ → ℕ
saturating_add a b = min (a + b) u32_max

-- `fold(0u32, |acc, n| acc.saturating_add(n))`
unfoldable pub saturating_sum : ℕ → List ℕ → ℕ
saturating_sum acc [] = acc
saturating_sum acc (n ∷ ns) = saturating_sum (saturating_add acc n) ns

unfoldable pub times_of : Option (List ℕ) → List ℕ
times_of none = []
times_of (some ops) = ops

abbrev pub is_in_window : ℕ → ℕ → Bool
is_in_window now t = ltb (secs_since now t) split_op_window_secs

module _ (d : Decimal) where
  open d use {Carrier}

  pub set_dust_thresholds : Dict Text Carrier → HoldingsCache d → HoldingsCache d
  set_dust_thresholds thresholds c = record c { dust_below = thresholds }

  pub dust_threshold : Text → HoldingsCache d → Option Carrier
  dust_threshold instrument c = lookup instrument c.dust_below

  abbrev pub is_in_band : Carrier → Carrier → Carrier → Bool
  is_in_band lo hi amount = le d lo amount && lt d amount hi

  abbrev pub counts_in_band :
      HoldingsCache d → Text → Option Text → Carrier → Carrier → CachedHolding d → Bool
  counts_in_band c instrument splitter_cid lo hi h =
      h.instrument == instrument
      && not (contains h.contract_id c.consumed)
      && not (is_cid h.contract_id splitter_cid)
      && is_in_band lo hi h.amount

  abbrev pub counts_as_pending : ℕ → Text → Carrier → Carrier → PendingSplit d → Bool
  counts_as_pending now instrument lo hi p =
      p.instrument == instrument && not (is_split_expired d p now) && is_in_band lo hi p.denom

  unfoldable pub existing_in_band : Text → Carrier → Carrier → ℕ → HoldingsCache d → ℕ
  existing_in_band instrument lo hi now c =
      let splitter_cid = splitter_to_exclude d c now instrument true in
      min (length (filter (counts_in_band c instrument splitter_cid lo hi) (values c.available)))
        u32_max

  unfoldable pub pending_in_band : Text → Carrier → Carrier → ℕ → List (PendingSplit d) → ℕ
  unfolding saturating_sum
  pending_in_band instrument lo hi now pending =
      saturating_sum 0
        (map (λ p. p.count) (filter (counts_as_pending now instrument lo hi) pending))

  unfoldable pub count_in_band : Text → Carrier → Carrier → ℕ → HoldingsCache d → ℕ
  unfolding existing_in_band pending_in_band
  count_in_band instrument lo hi now c =
      saturating_add (existing_in_band instrument lo hi now c)
        (pending_in_band instrument lo hi now c.pending_splits)

  abbrev pub to_pending : Text → ℕ → Carrier × ℕ → PendingSplit d
  to_pending instrument now (denom, count) = record {
    instrument = instrument;
    denom = denom;
    count = count;
    recorded_at = now;
  }

  unfoldable pub record_pending_split :
      Text → List (Carrier × ℕ) → ℕ → HoldingsCache d → HoldingsCache d
  record_pending_split instrument splits now c = record c {
    pending_splits =
        filter (λ p. not (is_split_expired d p now)) c.pending_splits
        ++ map (to_pending instrument now) splits;
  }

  unfoldable pub clear_pending_splits_before : ℕ → HoldingsCache d → HoldingsCache d
  clear_pending_splits_before snapshot_start c = record c {
    pending_splits = filter (λ p. leb snapshot_start p.recorded_at) c.pending_splits;
  }

  unfoldable pub record_split_op : Text → ℕ → HoldingsCache d → HoldingsCache d
  unfolding times_of
  record_split_op instrument now c = record c {
    split_op_times =
        insert instrument
          (filter (is_in_window now) (times_of (lookup instrument c.split_op_times)) ++ (now ∷ []))
          c.split_op_times;
  }

  unfoldable pub split_ops : Text → ℕ → HoldingsCache d → List ℕ
  unfolding times_of
  split_ops instrument now c =
      filter (is_in_window now) (times_of (lookup instrument c.split_op_times))
