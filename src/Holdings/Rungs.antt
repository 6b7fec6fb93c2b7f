-- ===== src/Holdings/Rungs.antt =====
-- What the ladder's counts say after a split was recorded.
use silvana_book_agent.Common.{
  ℕ, ◌+◌, ◌≤◌, ◌≡◌, ◌∙◌, ap, refl, min, Bool, not, List, [], ◌∷◌, ◌++◌, map, arith, ◌==◌,
  if◌then◌else◌, filter,
}
use silvana_book_agent.Common.Text.{Text, text_Eq, text_eq_iff}
use silvana_book_agent.Common.Dict.{lookup, lookup-insert, ==_refl}
use silvana_book_agent.Common.Decimal.{Decimal}
use silvana_book_agent.Holdings.{PendingSplit, HoldingsCache, is_split_expired, u32_max}
use silvana_book_agent.Holdings.Pools.{splitter_to_exclude, splitter_reserve_cid}
use silvana_book_agent.Holdings.Ladder.{
  saturating_add, saturating_sum, times_of, is_in_window, is_in_band, counts_as_pending,
  count_in_band, existing_in_band, pending_in_band, to_pending, record_pending_split,
  record_split_op, split_ops,
}

unfoldable pub sum : List ℕ → ℕ
sum [] = 0
sum (n ∷ ns) = n + sum ns

sum-append : (xs ys : List ℕ) → sum (xs ++ ys) ≡ sum xs + sum ys
unfolding sum
sum-append [] ys = ground arith
sum-append (x ∷ xs) ys = ground (arith, sum-append xs ys)

-- A saturating sum is the sum, cut off at the greatest number.
saturating_sum-sum :
    (acc : ℕ) (ns : List ℕ) → acc ≤ u32_max → saturating_sum acc ns ≡ min (acc + sum ns) u32_max
unfolding saturating_sum sum
saturating_sum-sum acc [] l = ground arith
saturating_sum-sum acc (n ∷ ns) l = ground (arith, saturating_sum-sum (saturating_add acc n) ns)

filter-window :
    (now : ℕ) (ts : List ℕ)
    → filter (is_in_window now) (filter (is_in_window now) ts ++ (now ∷ []))
      ≡ filter (is_in_window now) ts ++ (now ∷ [])
filter-window now [] = ground arith
filter-window now (t ∷ ts) = ground (arith, filter-window now ts)

module _ (d : Decimal) where
  open d use {Carrier}

  abbrev counts : (PendingSplit d → Bool) → List (PendingSplit d) → ℕ
  counts p ps = sum (map (λ q. q.count) (filter p ps))

  counts-append :
      (p : PendingSplit d → Bool) (xs ys : List (PendingSplit d))
      → counts p (xs ++ ys) ≡ counts p xs + counts p ys
  unfolding sum
  counts-append p [] ys = ground arith
  counts-append p (x ∷ xs) ys = ground (arith, counts-append p xs ys)

  -- Expired entries do not count, whether or not they were dropped.
  counts-unexpired :
      (instrument : Text) (lo hi : Carrier) (now : ℕ) (ps : List (PendingSplit d))
      → counts
          (counts_as_pending d now instrument lo hi)
          (filter (λ p. not (is_split_expired d p now)) ps)
        ≡ counts (counts_as_pending d now instrument lo hi) ps
  unfolding sum
  counts-unexpired instrument lo hi now [] = refl
  counts-unexpired instrument lo hi now (p ∷ ps) =
      ground (arith, counts-unexpired instrument lo hi now ps)

  -- The rungs among the splits whose denomination is in the band.
  unfoldable pub rungs_in_band : Carrier → Carrier → List (Carrier × ℕ) → ℕ
  rungs_in_band lo hi [] = 0
  rungs_in_band lo hi ((denom, count) ∷ splits) =
      (if is_in_band d lo hi denom then count else 0) + rungs_in_band lo hi splits

  counts-new :
      (instrument : Text) (lo hi : Carrier) (now : ℕ) (splits : List (Carrier × ℕ))
      → counts (counts_as_pending d now instrument lo hi) (map (to_pending d instrument now) splits)
        ≡ rungs_in_band lo hi splits
  unfolding sum rungs_in_band is_split_expired
  counts-new instrument lo hi now [] = refl
  counts-new instrument lo hi now ((denom, count) ∷ splits) =
      ground (arith, counts-new instrument lo hi now splits, ==_refl instrument)

  pending_in_band-new :
      (instrument : Text) (lo hi : Carrier) (splits : List (Carrier × ℕ)) (now : ℕ)
      (c : HoldingsCache d)
      → pending_in_band d instrument lo hi now
          (record_pending_split d instrument splits now c).pending_splits
        ≡ min
            (pending_in_band d instrument lo hi now c.pending_splits + rungs_in_band lo hi splits)
            u32_max
  unfolding pending_in_band record_pending_split
  pending_in_band-new instrument lo hi splits now c =
      let p : PendingSplit d → Bool = counts_as_pending d now instrument lo hi in
      let kept : List (PendingSplit d) =
        filter (λ q. not (is_split_expired d q now)) c.pending_splits in
      let added : List (PendingSplit d) = map (to_pending d instrument now) splits in
      let after =
        saturating_sum-sum 0 (map (λ q. q.count) (filter p (kept ++ added))) (ground arith) in
      let before =
        saturating_sum-sum 0 (map (λ q. q.count) (filter p c.pending_splits)) (ground arith) in
      let grown : counts p (kept ++ added)
          ≡ counts p c.pending_splits + rungs_in_band lo hi splits =
        counts-append p kept added
        ∙ ap (λ n. n + counts p added) (counts-unexpired instrument lo hi now c.pending_splits)
        ∙ ap (λ n. counts p c.pending_splits + n) (counts-new instrument lo hi now splits) in
      rw (after, before, grown) (omega arith)

  existing_in_band-same :
      (instrument : Text) (lo hi : Carrier) (splits : List (Carrier × ℕ)) (now : ℕ)
      (c : HoldingsCache d)
      → existing_in_band d instrument lo hi now (record_pending_split d instrument splits now c)
        ≡ existing_in_band d instrument lo hi now c
  unfolding existing_in_band record_pending_split splitter_to_exclude splitter_reserve_cid
  existing_in_band-same instrument lo hi splits now c = refl

  -- A split that was just recorded counts at once: the count of a band grows by the rungs of the
  -- split that lie in the band, up to the greatest 32-bit number.
  pub count_in_band-record_pending_split :
      (instrument : Text) (lo hi : d.Carrier) (splits : List (d.Carrier × ℕ)) (now : ℕ)
      (c : HoldingsCache d)
      → count_in_band d instrument lo hi now (record_pending_split d instrument splits now c)
        ≡ min (count_in_band d instrument lo hi now c + rungs_in_band lo hi splits) u32_max
  unfolding count_in_band
  count_in_band-record_pending_split instrument lo hi splits now c = ground (
    arith,
    existing_in_band-same instrument lo hi splits now c,
    pending_in_band-new instrument lo hi splits now c,
  )

  -- A recorded split operation is in the budget window of its instrument, after the earlier ones
  -- that are still in it, and the windows of the other instruments are as they were.
  pub split_ops-record_split_op :
      (instrument other : Text) (now : ℕ) (c : HoldingsCache d)
      → split_ops d other now (record_split_op d instrument now c) ≡ (
          if instrument == other
          then split_ops d other now c ++ (now ∷ [])
          else split_ops d other now c)
  unfolding split_ops record_split_op times_of
  split_ops-record_split_op instrument other now c = ground (
    arith,
    lookup-insert instrument other
        (filter (is_in_window now) (times_of (lookup instrument c.split_op_times)) ++ (now ∷ []))
        c.split_op_times,
    filter-window now (times_of (lookup instrument c.split_op_times)),
    text_eq_iff instrument other,
  )
