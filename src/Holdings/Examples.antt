-- ===== src/Holdings/Examples.antt =====
-- The cache on concrete holdings, with amounts in hundredths.
use silvana_book_agent.Common.{
  ℕ, ◌≡◌, subst, sym, refl, true, false, ◌&&◌, not, none, some, List, [], ◌∷◌, All, arith, is_some,
  if◌then◌else◌,
}
use silvana_book_agent.Common.Text.{Text, codes, text_Eq}
use silvana_book_agent.Common.Dict.{lookup, kept}
use silvana_book_agent.Common.Int.{ℤ, pos, ◌+ℤ◌, ◌-ℤ◌, ◌≤ℤ◌, ltb_ℤ}
use silvana_book_agent.Common.Decimal.Sample.{hundredths, hundredths_amounts}
use silvana_book_agent.Holdings.{
  CachedHolding, HoldingsCache, ReservedEntry, ReservationKind, v2_quote, split, is_expired,
  kind_expired,
}
use silvana_book_agent.Holdings.Pools.{
  new, is_recent, is_selectable, refresh_from_acs_snapshot, splitter_to_exclude, get_selectable,
  sort_by_amount, insert_sorted,
}
use silvana_book_agent.Holdings.Reserve.{is_blocked, reserve_with_kind, reserve_v2, mark_consumed}
use silvana_book_agent.Holdings.Reservations.{is_in, reserve_with_kind-all, reserve_with_kind-none}
use silvana_book_agent.Holdings.Held.{Call, refreshes, cleans, reserves, run, run-held}
use silvana_book_agent.Holdings.Selectable.{IsSorted, IsUsable, get_selectable-IsUsable}
use silvana_book_agent.Holdings.Refresh.{
  last_with, or_else, refresh_from_acs_snapshot-lookup, refresh_from_acs_snapshot-revives,
}
use silvana_book_agent.Holdings.Pick.{
  select_from, greedy, split_last, replacement, residual_of, tighten, if_covered,
}
use silvana_book_agent.Holdings.Picked.{IsPickedFrom}
use silvana_book_agent.Holdings.Sums.{worth, IsFund}
use silvana_book_agent.Holdings.Covering.{select_from-covers}
use silvana_book_agent.Holdings.Complete.{nothing, keep, leave, select_from_complete}
use silvana_book_agent.Holdings.Choose.{
  select_for_disclosure_with, blob_ready, choose, from_dust, sweep, disclosure_target,
}
use silvana_book_agent.Holdings.Disclosure.{IsDisclosable, select_for_disclosure_with-picked}
use silvana_book_agent.Holdings.Funding.{
  select_for_disclosure_with-covers, reserve_v2-select_for_disclosure_with,
}

abbrev cc : Text
cc = codes "cc"

abbrev cid_a : Text
cid_a = codes "a"

abbrev cid_b : Text
cid_b = codes "b"

abbrev holding : Text → ℕ → CachedHolding hundredths
holding cid n = record {
  contract_id = cid;
  template_id = codes "t";
  instrument = cc;
  amount = pos n;
  created_event_blob = some (codes "blob");
  synchronizer_id = codes "s";
  discovered_at = 100;
}

abbrev a : CachedHolding hundredths
a = holding cid_a 300

abbrev b : CachedHolding hundredths
b = holding cid_b 500

abbrev two : HoldingsCache hundredths
two = record (new hundredths false) { available = (cid_b, b) ∷ (cid_a, a) ∷ [] }

abbrev quote : ReservationKind
quote = v2_quote (codes "q") 9000

abbrev held_entry : ReservedEntry
held_entry = record { kind = quote; reserved_at = 150 }

abbrev one_held : HoldingsCache hundredths
one_held = record two { reserved = (cid_a, held_entry) ∷ [] }

succeeds : (reserve_with_kind hundredths (cid_a ∷ []) quote 200 two).0 ≡ true
unfolding reserve_with_kind
succeeds = refl

reserve_with_kind-all_example :
    (lookup cid_a (reserve_with_kind hundredths (cid_a ∷ []) quote 200 two).1.reserved ≡ (
      if is_in cid_a (cid_a ∷ [])
      then some (record { kind = quote; reserved_at = 200 })
      else lookup cid_a two.reserved))
    × ((is_in cid_a (cid_a ∷ []) && is_blocked hundredths two 200 cid_a) ≡ false)
reserve_with_kind-all_example =
    reserve_with_kind-all hundredths (cid_a ∷ []) quote 200 two cid_a succeeds

fails : (reserve_with_kind hundredths (cid_b ∷ cid_a ∷ []) quote 200 one_held).0 ≡ false
unfolding reserve_with_kind is_expired kind_expired
fails = refl

reserve_with_kind-none_example :
    ((reserve_with_kind hundredths (cid_b ∷ cid_a ∷ []) quote 200 one_held).1 ≡ one_held)
    × ((cid : Text) × (is_in cid (cid_b ∷ cid_a ∷ []) ≡ true)
        × (is_blocked hundredths one_held 200 cid ≡ true))
reserve_with_kind-none_example =
    reserve_with_kind-none hundredths (cid_b ∷ cid_a ∷ []) quote 200 one_held fails

abbrev calls : List (Call hundredths)
calls = refreshes [] 50 ∷ reserves (cid_a ∷ []) (split (codes "job")) 300 ∷ cleans 400 ∷ []

unexpired : (is_expired held_entry 300 ≡ false) × (is_expired held_entry 400 ≡ false)
unfolding is_expired kind_expired
unexpired = (refl, refl)

run-held_example : lookup cid_a (run hundredths calls one_held).reserved ≡ some held_entry
run-held_example =
    run-held hundredths calls cid_a held_entry one_held (tt, (unexpired.0, (unexpired.1, tt)))
      (refl, tt) refl

get_selectable-IsUsable_example :
    IsSorted hundredths (get_selectable hundredths cc true 200 two)
    × All
        (IsUsable hundredths two 200 cc (splitter_to_exclude hundredths two 200 cc true))
        (get_selectable hundredths cc true 200 two)
get_selectable-IsUsable_example = get_selectable-IsUsable hundredths cc true 200 two

refresh_from_acs_snapshot-lookup_example :
    (lookup cid_a (refresh_from_acs_snapshot hundredths (b ∷ []) 150 two).available
      ≡ or_else hundredths
          (last_with hundredths cid_a (b ∷ []))
          (kept (is_recent hundredths 150) (lookup cid_a two.available)))
    × (lookup cid_a (refresh_from_acs_snapshot hundredths (b ∷ []) 150 two).consumed ≡ (
        if is_some (last_with hundredths cid_a (b ∷ [])) then lookup cid_a two.consumed else none))
    × ((refresh_from_acs_snapshot hundredths (b ∷ []) 150 two).reserved ≡ two.reserved)
refresh_from_acs_snapshot-lookup_example =
    refresh_from_acs_snapshot-lookup hundredths (b ∷ []) 150 two cid_a (refl, (refl, tt))

refresh_from_acs_snapshot-revives_example :
    let c' =
      refresh_from_acs_snapshot hundredths
        (b ∷ [])
        50
        (mark_consumed hundredths (cid_a ∷ []) (codes "settled") 120 two) in
    (lookup cid_a c'.available ≡ some a) × (is_selectable hundredths c' 200 cc none a ≡ true)
refresh_from_acs_snapshot-revives_example =
    refresh_from_acs_snapshot-revives hundredths (b ∷ []) 50 200 (codes "settled") 120 two a
      (refl, (refl, tt)) refl (ground arith) refl (ground arith)

abbrev in_order : List (CachedHolding hundredths)
in_order = a ∷ b ∷ []

picks_both : select_from hundredths in_order (pos 700) 2 ≡ some (b ∷ a ∷ [])
unfolding select_from if_covered greedy tighten split_last replacement residual_of ◌+ℤ◌ ◌-ℤ◌
picks_both = refl

funds : All (IsFund hundredths hundredths_amounts) in_order
funds = (
  record { amount = tt; positive = ground arith },
  (record { amount = tt; positive = ground arith }, tt),
)

in_limit : worth hundredths in_order ≤ℤ pos 1000000000
unfolding worth ◌+ℤ◌
in_limit = ground arith

select_from-covers_example : pos 700 ≤ℤ worth hundredths (b ∷ a ∷ [])
select_from-covers_example =
    select_from-covers hundredths hundredths_amounts in_order (pos 700) 2 (b ∷ a ∷ []) funds tt
      (ground arith) in_limit picks_both

no_cover : select_from hundredths in_order (pos 700) 1 ≡ none
unfolding select_from if_covered greedy tighten split_last replacement residual_of ◌+ℤ◌ ◌-ℤ◌
no_cover = refl

select_from_complete_example : ltb_ℤ (worth hundredths (b ∷ [])) (pos 700) ≡ true
select_from_complete_example =
    select_from_complete hundredths hundredths_amounts in_order (pos 700) 1 (b ∷ [])
      ((ground arith, tt), (tt, tt)) funds in_limit no_cover (leave a (keep b nothing))
      (ground arith)

chosen : select_for_disclosure_with hundredths cc (pos 250) 3 true false 200 two ≡ some (b ∷ [])
unfolding select_for_disclosure_with blob_ready choose from_dust sweep disclosure_target
    get_selectable sort_by_amount insert_sorted splitter_to_exclude select_from ◌+ℤ◌ ◌-ℤ◌
chosen = refl

select_for_disclosure_with-picked_example :
    IsPickedFrom hundredths
      (IsDisclosable hundredths two 200 cc (splitter_to_exclude hundredths two 200 cc (not false)))
      3
      (b ∷ [])
select_for_disclosure_with-picked_example =
    select_for_disclosure_with-picked hundredths cc (pos 250) 3 true false 200 two (b ∷ [])
      (refl, (refl, tt)) (refl, (refl, tt)) chosen

reserve_v2-select_for_disclosure_with_example :
    (reserve_v2 hundredths (cid_b ∷ []) (codes "q2") 900 200 two).0 ≡ true
reserve_v2-select_for_disclosure_with_example =
    reserve_v2-select_for_disclosure_with hundredths cc (pos 250) 3 true false 200 (codes "q2") 900
      two (b ∷ []) (refl, (refl, tt)) (refl, (refl, tt)) chosen

the_target : disclosure_target hundredths (pos 250) true ≡ some (pos 355)
unfolding disclosure_target ◌+ℤ◌ ◌-ℤ◌
the_target = refl

the_ready : blob_ready hundredths cc false 200 two ≡ in_order
unfolding blob_ready get_selectable sort_by_amount insert_sorted splitter_to_exclude
the_ready = refl

select_for_disclosure_with-covers_example : pos 355 ≤ℤ worth hundredths (b ∷ [])
select_for_disclosure_with-covers_example =
    select_for_disclosure_with-covers hundredths hundredths_amounts cc (pos 250) (pos 355) 3 true
      false 200 two (b ∷ []) the_target tt (ground arith)
      (subst (All (IsFund hundredths hundredths_amounts)) (sym the_ready) funds)
      (subst (λ hs. worth hundredths hs ≤ℤ pos 1000000000) (sym the_ready) in_limit) chosen

abbrev rungs : List (ℤ × ℕ)
rungs = (pos 300, 4) ∷ (pos 900, 2) ∷ []
