-- ===== src/PaymentQueue/Examples.antt =====
-- The payment queue on concrete payments.
use Prim.Native.Nat.Ordering.{gt}
use silvana_book_agent.Common.{
  ℕ, ◌≡◌, ◌↔◌, refl, true, Option, none, some, [], ◌∷◌, arith, leb, ◌==◌, if◌then◌else◌,
}
use silvana_book_agent.Common.Text.{Text, codes, text_Eq, trim, parse_unsigned}
use silvana_book_agent.Common.Int.{pos}
use silvana_book_agent.Common.Decimal.Sample.{hundredths, hundredths_margins}
use silvana_book_agent.PaymentQueue.{
  Result, ok, read_limit, read_found, read_trimmed, check_workers, from_lookup, high, normal,
  QueuedPayment, cmp_payment, get_channel, channel_rebuild_after,
}
use silvana_book_agent.PaymentQueue.Select.{CachedAmulet, select_amulets_for_allocation}
use silvana_book_agent.PaymentQueue.Cover.{Serves, select_amulets_for_allocation-covers}
use silvana_book_agent.PaymentQueue.Order.{Before, cmp_payment-gt}
use silvana_book_agent.PaymentQueue.Streak.{replay, run_of_timeouts, retired, get_channel-replay}

abbrev amulet : ℕ → CachedAmulet hundredths
amulet n = record { contract_id = codes "a"; amount = pos n; discovered_at = 0 }

select_amulets_for_allocation-covers_example :
    Serves hundredths
      (pos 200)
      (select_amulets_for_allocation hundredths (amulet 100 ∷ amulet 300 ∷ []) (pos 200))
select_amulets_for_allocation-covers_example =
    select_amulets_for_allocation-covers hundredths hundredths_margins
      (amulet 100 ∷ amulet 300 ∷ []) (pos 200)

abbrev allocation : QueuedPayment ℕ
allocation = record { priority = high; sequence = 7; request = 0 }

abbrev fee : QueuedPayment ℕ
fee = record { priority = normal; sequence = 3; request = 0 }

cmp_payment-gt_example : (cmp_payment allocation fee ≡ gt) ↔ Before allocation fee
cmp_payment-gt_example = cmp_payment-gt allocation fee

abbrev setting : Text → Result (Option Text)
setting name = if name == codes "MAX_PAYMENT_WORKERS" then ok (some (codes " 12 ")) else ok none

accepted_setting : from_lookup setting ≡ ok (record { allocation_workers = 12; fee_workers = 12 })
unfolding from_lookup read_limit read_found read_trimmed check_workers trim parse_unsigned
accepted_setting = refl

abbrev old_channel : Option ℕ
old_channel = some 5

abbrev new_channel : Option ℕ
new_channel = some 8

get_channel-replay_example :
    get_channel new_channel (record {
      channel = old_channel;
      timeouts = replay (true ∷ true ∷ true ∷ []);
      abandoned = [];
    })
    ≡ (if leb channel_rebuild_after (run_of_timeouts (true ∷ true ∷ true ∷ []))
        then (
          new_channel,
          record { channel = new_channel; timeouts = 0; abandoned = retired new_channel [] },
        )
        else (
          old_channel,
          record {
            channel = old_channel;
            timeouts = run_of_timeouts (true ∷ true ∷ true ∷ []);
            abandoned = [];
          },
        ))
get_channel-replay_example =
    get_channel-replay 5 new_channel (true ∷ true ∷ true ∷ []) [] (ground arith)
