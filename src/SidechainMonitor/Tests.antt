-- ===== src/SidechainMonitor/Tests.antt =====
-- The theorems on the sidechain monitor at concrete inputs: a sidechain with one transaction in its
-- bundle and one output that pays a pending fast withdrawal, and a server that accepts.
use mathlib.Core.List.{Memᴰ}
use drivechain_litwindow.Prelude.{
  ap, ℕ, suc, ◌*◌, ◌<◌, ◌≡◌, refl, true, none, some, [], ◌∷◌, codes, same, arith,
}
use drivechain_litwindow.Prelude.Maps.{lookup, has, values}
use drivechain_litwindow.SidechainMonitor.Json.{
  Json, Fields, text, number, array, object, nil, item, end, field, get_field, unmarshal_map,
  unmarshal_maps, as_text, as_number, as_array, as_object, float_to_int64,
}
use drivechain_litwindow.Int64.{i64_mul, i64_div, i64_leb}
use drivechain_litwindow.SidechainMonitor.{
  DetectedWithdrawal, PendingFastWithdrawal, Sidechain, name_of, Network, Monitor,
  cleanup_old_withdrawals, store_withdrawal, event_of, hour, remove_pending,
}
use drivechain_litwindow.SidechainMonitor.Payments.{
  find_in_utxos, complete_withdrawal, check_fast_withdrawal_payments, validate_withdrawal_hash,
  all_hash_chars, is_hash_char, validate_server_response,
}
use drivechain_litwindow.SidechainMonitor.Poll.{monitor, polls, parse_withdrawal_bundle}
use drivechain_litwindow.SidechainMonitor.Steps.{IsWellFormed, Reach-IsWellFormed}
use drivechain_litwindow.SidechainMonitor.Runs.{monitor-Reach}
use drivechain_litwindow.SidechainMonitor.Account.{InItems, IsAccounted}
use drivechain_litwindow.SidechainMonitor.Account.Sending.{RangesOver, AreSmall}
use drivechain_litwindow.SidechainMonitor.Account.Polls.{polls-IsAccounted}
use drivechain_litwindow.SidechainMonitor.Account.Detection.{parse_withdrawal_bundle-detects}
use drivechain_litwindow.SidechainMonitor.Broadcasts.{count_events, broadcast_once, broadcast_again}
use drivechain_litwindow.SidechainMonitor.Cleanup.{IsRecentSince, polls_forget}
use drivechain_litwindow.SidechainMonitor.Completion.{
  Outcome, payment_of, complete_withdrawal-Outcome,
}

-- 100000.0
abbrev amount_bits : ℕ
amount_bits = 0x40F86A0000000000

abbrev bundle : Json
bundle = object (
    field (codes "transactions")
      (array (
        item
          (object (
            field (codes "txid") (text (codes "tx1")) (
              field (codes "amount") (number amount_bits)
                (field (codes "destination") (text (codes "dest")) end))))
          nil))
      end)

abbrev utxos : Json
utxos = array (
    item
      (object (
        field (codes "address") (text (codes "server")) (
          field (codes "amount") (number amount_bits)
            (field (codes "txid") (text (codes "0123456789abcdef")) end))))
      nil)

abbrev net : Network
net = record {
  has_client = λ n sc. true;
  pending_withdrawal_bundle = λ n sc. some (some bundle);
  list_utxos = λ n sc. some (some utxos);
  valid_url = λ url. true;
  post = λ n p. some (record {
    status_code = 200;
    body = some (object (field (codes "status") (text (codes "success")) end));
  });
  now = λ n. n * hour;
  ranged = λ n ps. ps;
  has_notification_engine = true;
}

abbrev wanted : PendingFastWithdrawal
wanted = record {
  hash = codes "hash-0123456789abcdef";
  sidechain = codes "thunder";
  server_address = codes "server";
  expected_amount = 105_000;
  server_url = codes "https://server";
  created_at = 0;
}

abbrev waiting : Monitor
waiting = record {
  detected = [];
  pending = (wanted.hash, wanted) ∷ [];
  broadcasts = [];
  payments = [];
  calls = 0;
}

waiting-IsWellFormed : IsWellFormed waiting
waiting-IsWellFormed = record {
  detected_once = tt;
  pending_once = (refl, tt);
  detected_keyed = tt;
  pending_keyed = (refl, tt);
}

-- one turn finds the payment, reports it and forgets the withdrawal; the bundle is detected
one_turn :
    (lookup wanted.hash (monitor net Sidechain.thunder waiting).0.pending ≡ none)
    × (count_events (codes "tx1") (monitor net Sidechain.thunder waiting).0.broadcasts ≡ 1)
unfolding monitor name_of get_field unmarshal_map unmarshal_maps as_text as_number as_array
    as_object float_to_int64 i64_mul i64_div i64_leb count_events store_withdrawal remove_pending
    check_fast_withdrawal_payments same find_in_utxos validate_withdrawal_hash all_hash_chars
    is_hash_char validate_server_response
one_turn = (refl, refl)

Reach-IsWellFormed_example : IsWellFormed (monitor net Sidechain.thunder waiting).0
Reach-IsWellFormed_example =
    Reach-IsWellFormed {net = net} (monitor-Reach Sidechain.thunder waiting) waiting-IsWellFormed

-- The network ranges over the entries alone, and 95 times the amount is small.
net-RangesOver : RangesOver net
net-RangesOver n ps p m = m

waiting-AreSmall : AreSmall (values waiting.pending)
waiting-AreSmall p (Memᴰ.head e) =
    let here : p.expected_amount ≡ 105_000 =
      ap (λ (q : PendingFastWithdrawal). q.expected_amount) e in
    rw here (omega arith)
waiting-AreSmall p (Memᴰ.tail m) = elim m [ ]

polls-IsAccounted_example :
    IsAccounted net Sidechain.thunder waiting (polls net Sidechain.thunder 1 0 waiting)
polls-IsAccounted_example =
    polls-IsAccounted net Sidechain.thunder waiting net-RangesOver waiting-AreSmall 1 0

abbrev listed : Fields
listed = field (codes "txid") (text (codes "tx1")) (
    field (codes "amount") (number amount_bits)
      (field (codes "destination") (text (codes "dest")) end))

abbrev bundle_fields : Fields
bundle_fields = field (codes "transactions") (array (item (object listed) nil)) end

parse_withdrawal_bundle-detects_example :
    (has
        (codes "tx1")
        (parse_withdrawal_bundle net (some bundle) (codes "thunder") waiting).0.detected
      ≡ true)
    × ((parse_withdrawal_bundle net (some bundle) (codes "thunder") waiting).1 ≡ none)
parse_withdrawal_bundle-detects_example =
    parse_withdrawal_bundle-detects net (codes "thunder") (some bundle) bundle_fields
      (item (object listed) nil) listed (codes "tx1") (codes "dest") amount_bits waiting
      (unfold unmarshal_map in refl) (unfold get_field same in refl) (InItems.first nil)
      (unfold get_field same in refl) (unfold get_field same in refl)
      (unfold get_field same in refl)

polls_forget_example :
    (n : ℕ) × (n < 60)
    × IsRecentSince net
        (polls net Sidechain.thunder n 7 waiting)
        (polls net Sidechain.thunder (suc n) 7 waiting)
polls_forget_example = polls_forget net Sidechain.thunder 7 waiting

complete_withdrawal-Outcome_example :
    Outcome net
      (payment_of wanted (codes "0123456789abcdef"))
      waiting
      (complete_withdrawal net wanted (codes "0123456789abcdef") waiting)
complete_withdrawal-Outcome_example =
    complete_withdrawal-Outcome net wanted (codes "0123456789abcdef") waiting

found : find_in_utxos (codes "server") 105_000 (some (some utxos)) ≡ codes "0123456789abcdef"
unfolding find_in_utxos get_field unmarshal_maps as_text as_number float_to_int64 i64_mul i64_div
    i64_leb same
found = refl

abbrev known : DetectedWithdrawal
known = record {
  txid = codes "tx1";
  sidechain = codes "thunder";
  amount = 100_000;
  destination = codes "dest";
  detected_at = 0;
  block_hash = none;
}

abbrev knowing : Monitor
knowing = record {
  detected = (known.txid, known) ∷ [];
  pending = [];
  broadcasts = event_of 0 known ∷ [];
  payments = [];
  calls = 2;
}

knowing-IsWellFormed : IsWellFormed knowing
knowing-IsWellFormed = record {
  detected_once = (refl, tt);
  pending_once = tt;
  detected_keyed = (refl, tt);
  pending_keyed = tt;
}

is_known : lookup known.txid knowing.detected ≡ some known
unfolding same
is_known = refl

abbrev standing : Network
standing = record net { now = λ n. hour }

broadcast_once_example :
    (lookup known.txid (monitor standing Sidechain.thunder knowing).0.detected ≡ some known)
    × (count_events known.txid (monitor standing Sidechain.thunder knowing).0.broadcasts
        ≡ count_events known.txid knowing.broadcasts)
broadcast_once_example =
    broadcast_once {net = standing} known.txid known (monitor-Reach Sidechain.thunder knowing)
      is_known (λ n lt. omega arith)

broadcast_again_example :
    count_events known.txid
      (store_withdrawal net known (cleanup_old_withdrawals net knowing)).broadcasts
    ≡ suc (count_events known.txid knowing.broadcasts)
broadcast_again_example =
    broadcast_again net known known knowing refl knowing-IsWellFormed is_known (omega arith) refl
