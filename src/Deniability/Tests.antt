-- ===== src/Deniability/Tests.antt =====
-- Examples for the plans of deniability and the engine that executes them.
use mathlib.Core.List.{Memᴰ}
use drivechain_litwindow.Prelude.{
  ℕ, ◌+◌, ◌≤◌, ◌≡◌, refl, true, false, none, some, Option, List, [], ◌∷◌, Bytes, ok, arith,
  get_elem?, ltb, same, ap, All,
}
use drivechain_litwindow.Prelude.Int.{pos, negsuc, ◌+ℤ◌}
use drivechain_litwindow.Int64.{i64_sub}
use drivechain_litwindow.Database.{Driver, World, IsReliable, update, for_each, ◌>>=◌}
use drivechain_litwindow.Deniability.{Denial, ExecutedDenial, next_execution}
use drivechain_litwindow.Deniability.Sizes.{encode_target_sizes, parse_target_utxo_sizes}
use drivechain_litwindow.Deniability.Sizes.RoundTrip.{parse-encode_target_sizes}
use drivechain_litwindow.Deniability.Store.{DenialRow, Tables, Selected, latest_of, select_denials}
use drivechain_litwindow.Deniability.Store.Operations.{row_by_tip, cancel}
use drivechain_litwindow.Deniability.Store.Tip.{AreNumbered}
use drivechain_litwindow.Deniability.Engine.{
  Output, wallet_of, Wallets, enforcer, fee, choose_denial_strategy,
}
use drivechain_litwindow.Deniability.Engine.Amounts.{choose_denial_strategy-bounded}
use drivechain_litwindow.Deniability.Engine.Round.{cancel_if_utxo_is_gone, process_utxo, is_gone}
use drivechain_litwindow.Deniability.Engine.Cancelled.{
  IsTip, IsMissing, cancel_if_utxo_is_gone-keeps,
}
use drivechain_litwindow.Deniability.Engine.Hops.{AddsHops, process_utxo-hops}

abbrev steady : Driver
steady = record { fails = λ n. false; clock = λ n. 1000 + n }

steady-IsReliable : IsReliable steady
steady-IsReliable n = refl

abbrev executed : ℕ → Bytes → ℕ → ExecutedDenial
executed id to_txid created_at = record {
  id = id;
  denial_id = 1;
  from_txid = 0xA0 ∷ [];
  from_vout = pos 0;
  to_txid = to_txid;
  to_vout = pos 1;
  created_at = created_at;
}

abbrev hops : List ExecutedDenial
hops = executed 2 (0xA2 ∷ []) 70 ∷ executed 1 (0xA1 ∷ []) 50 ∷ []

abbrev plan : Denial
plan = record {
  id = 1;
  wallet_id = none;
  tip_txid = 0xA2 ∷ [];
  tip_vout = pos 1;
  delay_duration = pos 30;
  num_hops = pos 3;
  target_utxo_sizes = pos 0 ∷ pos 0 ∷ pos 5000 ∷ [];
  created_at = 20;
  updated_at = 20;
  cancelled_at = none;
  cancel_reason = none;
  paused_at = none;
  next_execution = some (pos 100);
  executed_denials = hops;
}

due_at_100 : next_execution plan hops ≡ some (pos 100)
unfolding next_execution ◌+ℤ◌ same
due_at_100 = refl

parse-encode_target_sizes_example :
    (parse_target_utxo_sizes (encode_target_sizes (pos 1250 ∷ negsuc 6 ∷ []))
      ≡ ok (pos 1250 ∷ negsuc 6 ∷ []))
    × (encode_target_sizes (pos 1250 ∷ negsuc 6 ∷ []) ≡ none → pos 1250 ∷ negsuc 6 ∷ [] ≡ [])
    × (pos 1250 ∷ negsuc 6 ∷ [] ≡ [] → encode_target_sizes (pos 1250 ∷ negsuc 6 ∷ []) ≡ none)
parse-encode_target_sizes_example =
    parse-encode_target_sizes (pos 1250 ∷ negsuc 6 ∷ []) (omega arith, (omega arith, tt))

abbrev row : DenialRow
row = record {
  id = 1;
  wallet_id = none;
  initial_txid = 0xA0 ∷ [];
  initial_vout = pos 0;
  delay_duration = pos 30;
  num_hops = pos 3;
  target_utxo_sizes = none;
  created_at = 20;
  updated_at = 20;
  cancelled_at = none;
  cancelled_reason = none;
  paused_at = none;
}

-- The plan has done two hops: its tip is output 1 of the second.
abbrev tables : Tables
tables = record {
  denials = row ∷ [];
  executed_denials = executed 1 (0xA1 ∷ []) 50 ∷ executed 2 (0xA2 ∷ []) 70 ∷ [];
  next_denial = 2;
  next_executed = 3;
}

abbrev world : World Tables
world = record { tables = tables; last_rowid = 2; calls = 0 }

tables-AreNumbered : AreNumbered tables
tables-AreNumbered = (omega arith, (omega arith, tt))

abbrev selected : Selected
selected = record { plan = row; latest = some (executed 2 (0xA2 ∷ []) 70) }

selected_is_row : select_denials tables ≡ selected ∷ []
unfolding select_denials latest_of
selected_is_row = refl

selected-member : Memᴰ selected (select_denials tables)
selected-member = rw selected_is_row (Memᴰ.head refl)

found_by_tip : row_by_tip (0xA2 ∷ []) (some (pos 1)) tables ≡ some selected
unfolding row_by_tip select_denials same latest_of
found_by_tip = refl

abbrev coin : Output
coin = record { txid = 0xA2 ∷ []; vout = 1; address = 0x01 ∷ []; value_sats = 90000 }

-- An enforcer's wallet that has one output, which is not the tip of the plan.
abbrev wallets : Wallets
wallets = record {
  has_engine = false;
  backend_type = λ id. none;
  active_wallet = none;
  new_address = λ t id. some (0x02 ∷ []);
  send = λ t id u dest. some (0xA3 ∷ []);
  list_utxos = λ t id n.
      some (record { txid = 0xA3 ∷ []; vout = 4; address = 0x02 ∷ []; value_sats = 5000 } ∷ []);
  random = 40;
}

abbrev paid : List (Bytes × ℕ)
paid = (0x02 ∷ [], 5000) ∷ []

splits_by_size : choose_denial_strategy wallets plan coin enforcer [] ≡ ok paid
unfolding choose_denial_strategy i64_sub
splits_by_size = refl

choose_denial_strategy-bounded_example :
    (address : Bytes) × (amount : ℕ) × (paid ≡ (address, amount) ∷ []) × (amount + fee ≤ 90000)
choose_denial_strategy-bounded_example =
    choose_denial_strategy-bounded wallets plan coin enforcer [] (omega arith) (omega arith)
      (omega arith) splits_by_size

abbrev listed : List (Bytes × Option (List Output))
listed =
    ([], some (record { txid = 0xA3 ∷ []; vout = 4; address = 0x02 ∷ []; value_sats = 5000 } ∷ []))
    ∷ []

plan_is_gone : is_gone listed plan ≡ true
unfolding same
plan_is_gone = refl

-- beside the plan, whose tip is listed, one of another id whose tip is not
abbrev listed_tip : List (Bytes × Option (List Output))
listed_tip =
    ([], some (record { txid = 0xA2 ∷ []; vout = 1; address = 0x02 ∷ []; value_sats = 5000 } ∷ []))
    ∷ []

abbrev listed_tip_outputs : Option (List Output)
listed_tip_outputs =
    some (record { txid = 0xA2 ∷ []; vout = 1; address = 0x02 ∷ []; value_sats = 5000 } ∷ [])

abbrev other_plan : Denial
other_plan = record plan { id = 2; tip_txid = 0xB2 ∷ [] }

other_is_gone : is_gone listed_tip other_plan ≡ true
unfolding same
other_is_gone = refl

plan_is_there : IsMissing listed_tip plan → ⊥
plan_is_there m = of_list m.outputs m.were_fetched m.is_none_of_them
  where
    of_list :
        (us : List Output)
        → Memᴰ (wallet_of plan, some us) listed_tip
        → All (λ (u : Output). IsTip plan u → ⊥) us
        → ⊥
    of_list [] (Memᴰ.head e) h = cc e
    of_list [] (Memᴰ.tail e) h = elim e [ ]
    of_list (u ∷ us) (Memᴰ.head e) h =
        let f : some (u ∷ us) ≡ listed_tip_outputs = ap (λ p. p.1) e in absurd (h.0 (cc f, cc f))
    of_list (u ∷ us) (Memᴰ.tail e) h = elim e [ ]

cancel_if_utxo_is_gone-keeps_example :
    get_elem?
      (cancel_if_utxo_is_gone steady wallets listed_tip
        (plan ∷ other_plan ∷ [])
        world).1.tables.denials
      0
    ≡ some row
cancel_if_utxo_is_gone-keeps_example =
    cancel_if_utxo_is_gone-keeps steady wallets listed_tip (plan ∷ other_plan ∷ []) 0 world
      ((λ m. absurd (plan_is_there m)), ((λ m e. absurd (omega (arith, e))), tt)) refl

cancel_returns : (cancel_if_utxo_is_gone steady wallets listed (plan ∷ []) world).0 ≡ ok tt
unfolding cancel_if_utxo_is_gone cancel update for_each ◌>>=◌ same
cancel_returns = refl

process_utxo-hops_example :
    AddsHops plan coin tables.executed_denials
      (process_utxo steady wallets plan coin world).1.tables
    × (ltb 90000 fee ≡ true
        → (process_utxo steady wallets plan coin world).1.tables.executed_denials
          ≡ tables.executed_denials)
process_utxo-hops_example = process_utxo-hops steady wallets plan coin world
