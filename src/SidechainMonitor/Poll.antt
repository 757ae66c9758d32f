-- ===== src/SidechainMonitor/Poll.antt =====
-- The loops of litwindow/server/engines/sidechain_monitor_engine.go: the monitor of each
-- sidechain, and the rounds of polling.
use drivechain_litwindow.Prelude.{
  ℕ, zero, suc, ◌+◌, ◌%◌, Option, none, some, Bytes, ◌==◌, if◌then◌else◌,
}
use drivechain_litwindow.SidechainMonitor.Json.{
  Json, Items, nil, item, Fields, RawMessage, get_field, unmarshal_map, as_text, as_number,
  as_array, as_object, float_to_int64,
}
use drivechain_litwindow.Prelude.{codes}
use drivechain_litwindow.SidechainMonitor.{
  DetectedWithdrawal, Sidechain, name_of, Network, Monitor, asked, cleanup_old_withdrawals,
  store_withdrawal, get_poll_interval,
}
use drivechain_litwindow.SidechainMonitor.Payments.{check_fast_withdrawal_payments}

pub data MonitorError : Type 0 where
  get_client : MonitorError
  get_bundle : MonitorError
  parse_bundle : MonitorError

-- the three fields of a transaction in a bundle
pub record BundleTransaction : Type 0 where
  pub txid : Bytes
  pub amount : ℕ
  pub destination : Bytes

unfoldable pub with_destination : Bytes → ℕ → Option Bytes → Option BundleTransaction
with_destination txid amount none = none
with_destination txid amount (some dest) =
    some (record { txid = txid; amount = float_to_int64 amount; destination = dest })

unfoldable pub with_amount : Bytes → Option ℕ → Fields → Option BundleTransaction
unfolding with_destination
with_amount txid none tx = none
with_amount txid (some amount) tx =
    with_destination txid amount (as_text (get_field (codes "destination") tx))

unfoldable pub with_txid : Option Bytes → Fields → Option BundleTransaction
unfolding with_amount
with_txid none tx = none
with_txid (some txid) tx = with_amount txid (as_number (get_field (codes "amount") tx)) tx

unfoldable pub of_object : Option Fields → Option BundleTransaction
unfolding with_txid
of_object none = none
of_object (some tx) = with_txid (as_text (get_field (codes "txid") tx)) tx

-- the nested type assertions of the loop
unfoldable pub bundle_transaction : Json → Option BundleTransaction
unfolding of_object
bundle_transaction tx = of_object (as_object tx)

unfoldable pub detected_now : Bytes → ℕ → BundleTransaction → DetectedWithdrawal
detected_now name now tx = record {
  txid = tx.txid;
  sidechain = name;
  amount = tx.amount;
  destination = tx.destination;
  detected_at = now;
  block_hash = none;
}

module _ (net : Network) where
  unfoldable pub store_transaction : Bytes → Option BundleTransaction → Monitor → Monitor
  unfolding detected_now asked
  store_transaction name none s = s
  store_transaction name (some tx) s =
      store_withdrawal net (detected_now name (net.now s.calls) tx) (asked s)

  unfoldable pub store_transactions : Bytes → Items → Monitor → Monitor
  unfolding store_transaction bundle_transaction
  store_transactions name nil s = s
  store_transactions name (item tx rest) s =
      store_transactions name rest (store_transaction name (bundle_transaction tx) s)

  unfoldable pub store_listed : Bytes → Option Items → Monitor → Monitor
  unfolding store_transactions
  store_listed name none s = s
  store_listed name (some items) s = store_transactions name items s

  unfoldable pub store_bundle : Bytes → Option Fields → Monitor → Monitor × Option MonitorError
  unfolding store_listed
  store_bundle name none s = (s, some parse_bundle)
  store_bundle name (some bundle) s =
      (store_listed name (as_array (get_field (codes "transactions") bundle)) s, none)

  unfoldable pub parse_withdrawal_bundle :
      RawMessage → Bytes → Monitor → Monitor × Option MonitorError
  unfolding store_bundle
  parse_withdrawal_bundle raw name s = store_bundle name (unmarshal_map raw) s

  -- a failed check of the payments is logged only
  unfoldable pub check_after : Bytes → Monitor × Option MonitorError → Monitor × Option MonitorError
  check_after name (s, some e) = (s, some e)
  check_after name (s, none) = ((check_fast_withdrawal_payments net name s).0, none)

  unfoldable pub parse_and_check :
      Bytes → Option RawMessage → Monitor → Monitor × Option MonitorError
  unfolding parse_withdrawal_bundle check_after
  parse_and_check name none s = (s, some get_bundle)
  parse_and_check name (some raw) s = check_after name (parse_withdrawal_bundle raw name s)

  -- The six methods, `monitorThunder` to `monitorCoinshift`, do the same steps.
  unfoldable pub monitor : Sidechain → Monitor → Monitor × Option MonitorError
  unfolding parse_and_check asked
  monitor sc s =
      if net.has_client s.calls sc
      then parse_and_check (name_of sc) (net.pending_withdrawal_bundle (s.calls + 1) sc)
          (asked (asked s))
      else (asked s, some get_client)

  unfoldable pub cleanup_at : ℕ → Monitor → Monitor
  cleanup_at poll_count s = if poll_count % 60 == 0 then cleanup_old_withdrawals net s else s

  -- one turn of the loop of `Run`: the state, and the seconds to wait
  unfoldable pub poll : Sidechain → ℕ → Monitor → Monitor × ℕ
  unfolding cleanup_at monitor
  poll sc poll_count s =
      let after = cleanup_at (poll_count + 1) ((monitor sc s).0) in (after, get_poll_interval after)

  -- the turns of one sidechain's loop, from a count of polls
  unfoldable pub polls : Sidechain → ℕ → ℕ → Monitor → Monitor
  unfolding poll
  polls sc zero poll_count s = s
  polls sc (suc n) poll_count s = polls sc n (poll_count + 1) ((poll sc poll_count s).0)
