-- ===== src/Cheques/Tests.antt =====
-- Examples for the cheques.
use drivechain_litwindow.Prelude.{
  ℕ, length, List, true, arith, ◌+◌, ◌≡◌, refl, false, none, some, [], ◌∷◌, same, ok, err,
}
use drivechain_litwindow.Database.{Driver, World, IsReliable, query, ◌>>=◌}
use drivechain_litwindow.Cheques.{ChequeRow, Tables, create_failed, scan_cheque, is_funded}
use drivechain_litwindow.Cheques.Operations.{create_cheque, get_next_index}
use drivechain_litwindow.Cheques.Index.{create_cheque-taken}
use drivechain_litwindow.Cheques.Sweep.{Unspent, Btcd}
use drivechain_litwindow.Cheques.Requests.{
  Services, CheckChequeFundingResponse, cannot_delete_funded, get_cheque_request,
  get_cheque_private_key, check_cheque_funding, delete_cheque_request, sweep_cheque,
}
use drivechain_litwindow.Cheques.Deletion.{
  stored, holds_money, DeletionOutcome, delete_cheque_request-Outcome,
}
use drivechain_litwindow.Cheques.Funding.{check-delete_cheque_request, vanished-deletable}
use drivechain_litwindow.Cheques.Missing.{is_missing, requests_never_missing}
use drivechain_litwindow.Cheques.Broadcast.{Answer, Broadcast, IsRefused, sweep_cheque-Answer}

abbrev steady : Driver
steady = record { fails = λ n. false; clock = λ n. 1000 + n }

steady-IsReliable : IsReliable steady
steady-IsReliable n = refl

-- The first cheque of wallet 1.
abbrev cheque : ChequeRow
cheque = record {
  id = 1;
  wallet_id = 0x01 ∷ [];
  derivation_index = 0;
  expected_amount_sats = 5000;
  address = 0xAA ∷ [];
  funded_txid = none;
  actual_amount_sats = none;
  created_at = 10;
  funded_at = some 30;
  swept_txid = none;
  swept_at = none;
}

abbrev world : World Tables
world = record {
  tables = record { cheques = cheque ∷ []; next_cheque = 2 };
  last_rowid = 1;
  calls = 0;
}

next_is_1 : (get_next_index steady (0x01 ∷ []) world).0 ≡ ok 1
unfolding get_next_index query ◌>>=◌ same
next_is_1 = refl

not_of_wallet_2 : same (0x01 ∷ []) (0x02 ∷ []) ≡ false
unfolding same
not_of_wallet_2 = refl

create_cheque-taken_example :
    ((get_next_index steady (0x02 ∷ []) world).0 ≡ ok 0)
    × ((create_cheque steady
          (0x02 ∷ [])
          0
          700
          (0xBB ∷ [])
          (get_next_index steady (0x02 ∷ []) world).1).0
        ≡ err create_failed)
    × ((create_cheque steady
          (0x02 ∷ [])
          0
          700
          (0xBB ∷ [])
          (get_next_index steady (0x02 ∷ []) world).1).1.tables
        ≡ world.tables)
create_cheque-taken_example =
    create_cheque-taken steady (0x02 ∷ []) 700 (0xBB ∷ []) world steady-IsReliable refl refl
      (not_of_wallet_2, tt) refl

-- an output of 6000 at the address of the cheque
abbrev output : Unspent
output = record { txid = 0x0F ∷ []; vout = 1; amount = 6000; confirmations = 0 }

-- services that list these outputs
abbrev listing : List Unspent → Services
listing us = record {
  has_wallet = λ wallet_id. true;
  is_unlocked = true;
  derive_address = λ wallet_id index. some (index ∷ []);
  derive_private_key = λ wallet_id index. some (index ∷ []);
  has_watch_wallet = true;
  has_bitcoind = true;
  unspent = λ address. some us;
  address_of_key = λ key. some key;
  sats_of_sum = λ ns. total ns;
  send_raw_transaction = λ hex. some (0x77 ∷ []);
}
  where
    total : List ℕ → ℕ
    total [] = 0
    total (n ∷ ns) = n + total ns

abbrev with_cheque : ChequeRow → World Tables
with_cheque r = record {
  tables = record { cheques = r ∷ []; next_cheque = 2 };
  last_rowid = 1;
  calls = 0;
}

abbrev funded_cheque : ChequeRow
funded_cheque = record cheque { actual_amount_sats = some 5000 }

delete_cheque_request-Outcome_example :
    DeletionOutcome
      (0x01 ∷ [])
      1
      world.tables
      (delete_cheque_request steady (listing []) (0x01 ∷ []) 1 world)
delete_cheque_request-Outcome_example =
    delete_cheque_request-Outcome steady (listing []) (0x01 ∷ []) 1 world

requests_never_missing_example :
    (is_missing (get_cheque_request steady (listing []) (0x02 ∷ []) 9 world).0 ≡ false)
    × (is_missing (get_cheque_private_key steady (listing []) (0x02 ∷ []) 9 world).0 ≡ false)
    × (is_missing (check_cheque_funding steady (listing []) (0x02 ∷ []) 9 world).0 ≡ false)
    × (is_missing (delete_cheque_request steady (listing []) (0x02 ∷ []) 9 world).0 ≡ false)
requests_never_missing_example = requests_never_missing steady (listing []) (0x02 ∷ []) 9 world

stored_in :
    (r : ChequeRow)
    → r.wallet_id ≡ 0x01 ∷ []
    → r.id ≡ 1
    → stored (0x01 ∷ []) 1 (with_cheque r).tables ≡ some r
stored_in r wallet number = rw (wallet, number) (unfold same in refl)

check-delete_cheque_request_example :
    let x =
      check_cheque_funding steady (listing (output ∷ [])) (0x01 ∷ []) 1 (with_cheque cheque) in
    ((c : CheckChequeFundingResponse) × (x.0 ≡ ok c) × (c.funded ≡ true))
    × ((delete_cheque_request steady (listing []) (0x01 ∷ []) 1 x.1).0 ≡ err cannot_delete_funded)
check-delete_cheque_request_example =
    check-delete_cheque_request steady steady-IsReliable (0x01 ∷ []) 1 (listing (output ∷ []))
      (listing []) (with_cheque cheque) (refl, refl, refl) refl (stored_in cheque refl refl) refl
      refl

is_money : holds_money funded_cheque ≡ true
unfolding is_funded scan_cheque
is_money = refl

vanished-deletable_example :
    let x =
      check_cheque_funding steady
        (listing (output ∷ []))
        (0x01 ∷ [])
        1
        (check_cheque_funding steady (listing []) (0x01 ∷ []) 1 (with_cheque funded_cheque)).1 in
    ((c : CheckChequeFundingResponse) × (x.0 ≡ ok c) × (c.funded ≡ true))
    × ((delete_cheque_request steady (listing []) (0x01 ∷ []) 1 x.1).0 ≡ ok tt)
vanished-deletable_example =
    vanished-deletable steady steady-IsReliable (0x01 ∷ []) 1 (listing []) (listing (output ∷ []))
      (listing []) (with_cheque funded_cheque) (refl, refl, refl) (refl, refl, refl) refl
      (stored_in funded_cheque refl refl) is_money refl refl (omega arith)

-- calls of btcd that copy what they are given
abbrev copying : Btcd
copying = record {
  to_sats = λ amount. amount;
  decode_address = λ address. some address;
  pay_to_addr_script = λ address. some address;
  new_hash_from_str = λ txid. some txid;
  decode_wif = λ wif. some wif;
  witness_signature = λ tx index amount script key. some (script ∷ key ∷ []);
  serialize = λ tx. some (length tx.inputs ∷ []);
}

sweep_cheque-Answer_example :
    Answer world.tables
      (Broadcast (listing (output ∷ [])) copying (0xAA ∷ []) 3)
      (IsRefused (listing (output ∷ [])) copying (0x01 ∷ []) (0xAA ∷ []) (0xCC ∷ []) 3)
      (sweep_cheque steady
        (listing (output ∷ []))
        copying
        (0x01 ∷ [])
        (0xAA ∷ [])
        (0xCC ∷ [])
        3
        world)
sweep_cheque-Answer_example =
    sweep_cheque-Answer steady (listing (output ∷ [])) copying (0x01 ∷ []) (0xAA ∷ []) (0xCC ∷ []) 3
      world
