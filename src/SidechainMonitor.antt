-- ===== src/SidechainMonitor.antt =====
-- The monitor of the sidechains, litwindow/server/engines/sidechain_monitor_engine.go: its state,
-- what it asks of others, and the methods that take its lock.
pub mod Json
pub mod Payments
pub mod Poll
pub mod Steps
pub mod Runs
pub mod Broadcasts
pub mod Outputs
pub mod Cleanup
pub mod Completion
pub mod Account
mod Tests
use drivechain_litwindow.Prelude.{
  ℕ, ◌+◌, ◌*◌, Bool, true, false, not, Option, none, some, List, [], ◌∷◌, Bytes, codes, same,
  length, ltb, ◌==◌, if◌then◌else◌,
}
use drivechain_litwindow.Prelude.Maps.{Entries, lookup, has, insert, keep_entries, erase, values}
use drivechain_litwindow.SidechainMonitor.Json.{RawMessage}

-- times are in nanoseconds since the epoch
pub record DetectedWithdrawal : Type 0 where
  pub txid : Bytes
  pub sidechain : Bytes
  pub amount : ℕ
  pub destination : Bytes
  pub detected_at : ℕ
  pub block_hash : Option Bytes

pub record PendingFastWithdrawal : Type 0 where
  pub hash : Bytes
  pub sidechain : Bytes
  pub server_address : Bytes
  pub expected_amount : ℕ
  pub server_url : Bytes
  pub created_at : ℕ

-- the event TYPE_DETECTED
pub record SidechainWithdrawalEvent : Type 0 where
  pub timestamp : ℕ
  pub txid : Bytes
  pub sidechain : Bytes
  pub amount : ℕ
  pub destination : Bytes
  pub detected_at : ℕ
  pub block_hash : Option Bytes

-- a POST of a hash and a transaction to a server, and its answer
pub record Payment : Type 0 where
  pub url : Bytes
  pub hash : Bytes
  pub txid : Bytes

pub record Response : Type 0 where
  pub status_code : ℕ
  pub body : RawMessage

-- the services that the engine holds
pub data Sidechain : Type 0 where
  thunder bitnames bitassets truthcoin photon coinshift : Sidechain

unfoldable pub name_of : Sidechain → Bytes
name_of thunder = codes "thunder"
name_of bitnames = codes "bitnames"
name_of bitassets = codes "bitassets"
name_of truthcoin = codes "truthcoin"
name_of photon = codes "photon"
name_of coinshift = codes "coinshift"

-- What the engine asks of others. An answer may differ from one call to the next, so each is a
-- function of the number of calls made before: whether a client is there, the pending bundle, the
-- unspent outputs, the answer of a server, the time, and the order in which Go ranges over a map.
pub record Network : Type 0 where
  pub has_client : ℕ → Sidechain → Bool
  pub pending_withdrawal_bundle : ℕ → Sidechain → Option RawMessage
  pub list_utxos : ℕ → Sidechain → Option RawMessage
  pub valid_url : Bytes → Bool
  pub post : ℕ → Payment → Option Response
  pub now : ℕ → ℕ
  pub ranged : ℕ → List PendingFastWithdrawal → List PendingFastWithdrawal
  pub has_notification_engine : Bool

-- The engine, with the events that it has broadcast and the payments that it has reported, the
-- last one first, and the number of calls made.
pub record Monitor : Type 0 where
  pub detected : Entries DetectedWithdrawal
  pub pending : Entries PendingFastWithdrawal
  pub broadcasts : List SidechainWithdrawalEvent
  pub payments : List Payment
  pub calls : ℕ

-- a call that has been made
unfoldable pub asked : Monitor → Monitor
asked s = record s { calls = s.calls + 1 }

unfoldable pub new_sidechain_monitor_engine : Monitor
new_sidechain_monitor_engine = record {
  detected = [];
  pending = [];
  broadcasts = [];
  payments = [];
  calls = 0;
}

unfoldable pub get_detected_withdrawals : Monitor → List DetectedWithdrawal
get_detected_withdrawals s = values s.detected

unfoldable pub get_withdrawal_by_txid : Monitor → Bytes → Option DetectedWithdrawal
get_withdrawal_by_txid s txid = lookup txid s.detected

unfoldable pub register_pending_fast_withdrawal : PendingFastWithdrawal → Monitor → Monitor
register_pending_fast_withdrawal w s = record s { pending = insert w.hash w s.pending }

unfoldable pub get_pending_fast_withdrawals : Monitor → List PendingFastWithdrawal
get_pending_fast_withdrawals s = values s.pending

-- `getPollInterval`, in seconds
unfoldable pub interval_for : ℕ → ℕ
interval_for count = if count == 0 then 30 else if ltb count 3 then 5 else 2

unfoldable pub get_poll_interval : Monitor → ℕ
unfolding interval_for
get_poll_interval s = interval_for (length s.detected + length s.pending)

abbrev pub hour : ℕ
hour = 3600 * 1_000_000_000

-- DetectedAt.Before(now - hour)
unfoldable pub is_old : ℕ → DetectedWithdrawal → Bool
is_old now w = ltb (w.detected_at + hour) now

unfoldable pub event_of : ℕ → DetectedWithdrawal → SidechainWithdrawalEvent
event_of now w = record {
  timestamp = now;
  txid = w.txid;
  sidechain = w.sidechain;
  amount = w.amount;
  destination = w.destination;
  detected_at = w.detected_at;
  block_hash = w.block_hash;
}

-- what `completeWithdrawal` does to the map once the server has answered
unfoldable pub remove_pending : Bytes → Monitor → Monitor
remove_pending hash s = record s { pending = erase hash s.pending }

module _ (net : Network) where
  unfoldable pub cleanup_old_withdrawals : Monitor → Monitor
  unfolding is_old asked
  cleanup_old_withdrawals s = record (asked s) {
    detected = keep_entries (λ txid w. not (is_old (net.now s.calls) w)) s.detected;
  }

  -- The error that the method returns is always nil.
  unfoldable pub broadcast : DetectedWithdrawal → Monitor → Monitor
  unfolding event_of asked
  broadcast w s =
      if net.has_notification_engine
      then record (asked s) { broadcasts = event_of (net.now s.calls) w ∷ s.broadcasts }
      else s

  unfoldable pub store_withdrawal : DetectedWithdrawal → Monitor → Monitor
  unfolding broadcast
  store_withdrawal w s =
      if has w.txid s.detected
      then s
      else broadcast w (record s { detected = insert w.txid w s.detected })
