-- ===== src/Deniability/Requests/Tests.antt =====
-- The theorems on the requests at a plan of two hops, whose tip is output 1 of its transaction, and a
-- request for output 0 of the same transaction.
use drivechain_litwindow.Prelude.{ℕ, ◌+◌, ◌≡◌, refl, false, none, some, [], ◌∷◌, Bytes, ok, same}
use drivechain_litwindow.Prelude.Int.{pos}
use drivechain_litwindow.Database.{Driver, World, IsReliable}
use drivechain_litwindow.Deniability.{ExecutedDenial}
use drivechain_litwindow.Deniability.Sizes.{parse_target_utxo_sizes}
use drivechain_litwindow.Deniability.Store.{
  DenialRow, Tables, Selected, denial_of, latest_of, select_denials, scan_denial,
}
use drivechain_litwindow.Deniability.Store.Operations.{row_by_tip}
use drivechain_litwindow.Deniability.Engine.{enforcer}
use drivechain_litwindow.Deniability.Requests.{
  Wallets, CreateDenialRequest, utxo_exists, create_denial,
}
use drivechain_litwindow.Deniability.Requests.Created.{IsInOrder, Reached, create_denial-Reached}
use drivechain_litwindow.Deniability.Requests.Extended.{
  AllExtended, found_rows, create_denial-extends,
}

abbrev steady : Driver
steady = record { fails = λ n. false; clock = λ n. 1000 + n }

steady-IsReliable : IsReliable steady
steady-IsReliable n = refl

abbrev plan : DenialRow
plan = record {
  id = 1;
  wallet_id = none;
  initial_txid = 0xA0 ∷ [];
  initial_vout = pos 0;
  delay_duration = pos 30;
  num_hops = pos 3;
  target_utxo_sizes = none;
  created_at = 20;
  updated_at = 20;
  cancelled_at = none;
  cancelled_reason = none;
  paused_at = none;
}

abbrev hop : ℕ → Bytes → ExecutedDenial
hop id txid = record {
  id = id;
  denial_id = 1;
  from_txid = 0xA0 ∷ [];
  from_vout = pos 0;
  to_txid = txid;
  to_vout = pos 1;
  created_at = 40 + id;
}

abbrev world : World Tables
world = record {
  tables = record {
    denials = plan ∷ [];
    executed_denials = hop 1 (0xA1 ∷ []) ∷ hop 2 (0xA2 ∷ []) ∷ [];
    next_denial = 2;
    next_executed = 3;
  };
  last_rowid = 2;
  calls = 0;
}

abbrev request : CreateDenialRequest
request = record {
  txid = 0xA2 ∷ [];
  vout = 0;
  delay_seconds = pos 60;
  num_hops = pos 4;
  target_utxo_sizes = pos 5000 ∷ [];
}

abbrev wallets : Wallets
wallets = record {
  active_wallet = some (record { id = 0x01 ∷ []; wallet_type = enforcer });
  enforcer_outputs = some (record { txid = 0xA2 ∷ []; vout = 0 } ∷ []);
  core_wallet_name = λ id. none;
  core_outputs = λ name. none;
}

request-IsInOrder : IsInOrder wallets request
unfolding utxo_exists same
request-IsInOrder = (refl, refl, (_, refl, refl, refl))

create_denial-Reached_example :
    Reached world (IsInOrder wallets request) (create_denial steady wallets request world)
create_denial-Reached_example = create_denial-Reached steady wallets request world

abbrev selected : Selected
selected = record { plan = plan; latest = some (hop 2 (0xA2 ∷ [])) }

found : found_rows request world.tables ≡ some selected
unfolding row_by_tip select_denials latest_of same
found = refl

scanned : scan_denial selected ≡ ok (denial_of selected [])
unfolding scan_denial parse_target_utxo_sizes
scanned = refl

create_denial-extends_example :
    let x = create_denial steady wallets request world in
    (x.0 ≡ ok tt)
    × (x.1.tables.executed_denials ≡ world.tables.executed_denials)
    × AllExtended 1 request world.tables.denials x.1.tables.denials
create_denial-extends_example =
    create_denial-extends steady steady-IsReliable request world wallets request-IsInOrder found
      scanned
