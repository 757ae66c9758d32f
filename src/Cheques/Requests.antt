-- ===== src/Cheques/Requests.antt =====
-- The requests on cheques of litwindow/server/api/wallet/wallet.go, from CreateCheque to
-- chequeToPb. What the wallet engine, the node and btcd answer during a request is a parameter.
use drivechain_litwindow.Prelude.{
  ℕ, Bool, true, false, not, ◌&&◌, ltb, ◌==◌, Option, none, some, List, [], ◌∷◌, map, Bytes, codes,
  if◌then◌else◌, Result, ok, err,
}
use drivechain_litwindow.Database.{
  Driver, World, Action, pure, raise, attempted, logged, ◌>>=◌, ◌>>◌,
}
use drivechain_litwindow.Cheques.{Cheque, Tables, ChequeError, is_no_rows, is_funded}
use drivechain_litwindow.Cheques.Operations.{
  create_cheque, get_cheque_by_id, get_by_address, list_cheques, update_funding, update_swept,
  get_next_index, delete_cheque,
}
use drivechain_litwindow.Cheques.Sweep.{Unspent, SweepError, Btcd, build_sweep_tx, sign_sweep_tx}

-- An error of connect, by its code and what it wraps.
pub data RequestError : Type 0 where
  get_wallet_type wallet_is_locked : RequestError
  cheque_not_found no_funds_found : RequestError
  cannot_delete_funded bitcoind_not_available invalid_wif : RequestError
  internal : ChequeError → RequestError
  derive_address_failed derive_key_failed create_address_failed : RequestError
  ensure_watch_wallet_failed query_utxos_failed : RequestError
  sweep_failed : SweepError → RequestError
  serialize_failed broadcast_failed : RequestError

-- What is answered during a request.
pub record Services : Type 0 where
  pub has_wallet : Bytes → Bool  -- GetWalletBackendType
  pub is_unlocked : Bool
  pub derive_address : Bytes → ℕ → Option Bytes
  pub derive_private_key : Bytes → ℕ → Option Bytes
  pub has_watch_wallet : Bool  -- ensureWatchWallet
  pub has_bitcoind : Bool
  pub unspent : Bytes → Option (List Unspent)  -- ListUnspent of the watch wallet
  pub address_of_key : Bytes → Option Bytes
  pub sats_of_sum : List ℕ → ℕ  -- the float64 amounts added up, as uint64 of 1e8 of them
  pub send_raw_transaction : Bytes → Option Bytes

pub record CreateChequeResponse : Type 0 where
  pub id : ℕ
  pub address : Bytes
  pub derivation_index : ℕ

-- the cheque's fields, and those that are computed
pub record PbCheque : Type 0 where
  pub cheque : Cheque
  pub funded : Bool
  pub private_key_wif : Option Bytes

pub record CheckChequeFundingResponse : Type 0 where
  pub funded : Bool
  pub actual_amount_sats : ℕ
  pub funded_txids : List Bytes
  pub min_confirmations : ℕ
  pub funded_at : Option ℕ

pub record SweepChequeResponse : Type 0 where
  pub txid : Bytes
  pub amount_sats : ℕ

unfoldable pub guarded : Bool → RequestError → Action RequestError Tables (Unit {0})
guarded true e = pure tt
guarded false e = raise e

unfoldable pub answered : {A : Type 0} → RequestError → Option A → Action RequestError Tables A
answered e none = raise e
answered e (some a) = pure a

abbrev pub with_error :
    {A : Type 0}
    → (ChequeError → RequestError)
    → Result ChequeError A × World Tables
    → Result RequestError A × World Tables
with_error f (ok a, w) = (ok a, w)
with_error f (err e, w) = (err (f e), w)

unfoldable pub internally :
    {A : Type 0} → Action ChequeError Tables A → Action RequestError Tables A
internally m w = with_error internal (m w)

abbrev pub get_error : ChequeError → RequestError
get_error e = if is_no_rows e then cheque_not_found else internal e

abbrev pub is_unswept : Cheque → Bool
is_unswept c = elim c.row.swept_txid [ none ↦ true | some t ↦ false ]

abbrev pub min_confirmations_from : ℕ → List Unspent → ℕ
min_confirmations_from least [] = least
min_confirmations_from least (u ∷ us) =
    min_confirmations_from (if ltb u.confirmations least then u.confirmations else least) us

abbrev pub txids : List Unspent → List Bytes
txids us = map (λ (u : Unspent). u.txid) us

abbrev pub amounts : List Unspent → List ℕ
amounts us = map (λ (u : Unspent). u.amount) us

abbrev pub not_funded : CheckChequeFundingResponse
not_funded = record {
  funded = false;
  actual_amount_sats = 0;
  funded_txids = [];
  min_confirmations = 0;
  funded_at = none;
}

unfoldable pub of_sweep : {A : Type 0} → Result SweepError A → Action RequestError Tables A
of_sweep (ok a) = pure a
of_sweep (err e) = raise (sweep_failed e)

abbrev pub is_some_unspent : List Unspent → Bool
is_some_unspent [] = false
is_some_unspent (u ∷ us) = true

abbrev pub fee_rate : ℕ → ℕ
fee_rate rate = if rate == 0 then 2 else rate

module _ (d : Driver) (s : Services) where
  unfoldable pub create_cheque_request : Bytes → ℕ → Action RequestError Tables CreateChequeResponse
  unfolding guarded answered internally create_cheque get_next_index
  create_cheque_request wallet_id expected = do
    guarded (s.has_wallet wallet_id) get_wallet_type
    guarded s.is_unlocked wallet_is_locked
    index ← internally (get_next_index d wallet_id)
    address ← answered derive_address_failed (s.derive_address wallet_id index)
    id ← internally (create_cheque d wallet_id index expected address)
    pure (record { id = id; address = address; derivation_index = index })

  -- `cheques.Get` and what the handlers make of its error
  unfoldable pub find_cheque : Bytes → ℕ → Action RequestError Tables Cheque
  unfolding get_cheque_by_id
  find_cheque wallet_id id w = with_error get_error (get_cheque_by_id d wallet_id id w)

  unfoldable pub cheque_to_pb : Cheque → PbCheque
  unfolding is_funded
  cheque_to_pb c = record {
    cheque = c;
    funded = is_funded c;
    private_key_wif =
        if is_funded c && s.is_unlocked
        then s.derive_private_key c.row.wallet_id c.row.derivation_index
        else none;
  }

  unfoldable pub get_cheque_request : Bytes → ℕ → Action RequestError Tables PbCheque
  unfolding guarded find_cheque cheque_to_pb
  get_cheque_request wallet_id id = do
    guarded (s.has_wallet wallet_id) get_wallet_type
    c ← find_cheque wallet_id id
    pure (cheque_to_pb c)

  unfoldable pub get_cheque_private_key : Bytes → ℕ → Action RequestError Tables Bytes
  unfolding guarded find_cheque answered
  get_cheque_private_key wallet_id id = do
    guarded (s.has_wallet wallet_id) get_wallet_type
    guarded s.is_unlocked wallet_is_locked
    c ← find_cheque wallet_id id
    answered derive_key_failed (s.derive_private_key wallet_id c.row.derivation_index)

  unfoldable pub list_cheques_request : Bytes → Action RequestError Tables (List PbCheque)
  unfolding guarded internally list_cheques cheque_to_pb
  list_cheques_request wallet_id = do
    guarded (s.has_wallet wallet_id) get_wallet_type
    cs ← internally (list_cheques d wallet_id)
    pure (map cheque_to_pb cs)

  -- what follows the query for outputs
  unfoldable pub checked :
      Bytes → ℕ → Cheque → List Unspent → Action RequestError Tables CheckChequeFundingResponse
  unfolding internally update_funding update_swept get_cheque_by_id is_funded
  checked wallet_id id c [] = do
    _ ←
        if is_funded c && is_unswept c
        then internally (logged (update_swept d wallet_id id (codes "swept_externally")))
        else pure tt
    pure not_funded
  checked wallet_id id c (u ∷ us) = do
    _ ←
        internally
          (update_funding d wallet_id id (txids (u ∷ us)) (s.sats_of_sum (amounts (u ∷ us))))
    again ← internally (get_cheque_by_id d wallet_id id)
    pure (record {
      funded = is_funded again;
      actual_amount_sats = s.sats_of_sum (amounts (u ∷ us));
      funded_txids = txids (u ∷ us);
      min_confirmations = min_confirmations_from 4_294_967_295 (u ∷ us);
      funded_at = again.row.funded_at;
    })

  unfoldable pub check_cheque_funding :
      Bytes → ℕ → Action RequestError Tables CheckChequeFundingResponse
  unfolding guarded answered find_cheque checked
  check_cheque_funding wallet_id id = do
    guarded (s.has_wallet wallet_id) get_wallet_type
    c ← find_cheque wallet_id id
    guarded s.has_watch_wallet ensure_watch_wallet_failed
    guarded s.has_bitcoind bitcoind_not_available
    us ← answered query_utxos_failed (s.unspent c.row.address)
    checked wallet_id id c us

  -- the cheque of the address, if the wallet has it and it is not swept yet
  unfoldable pub mark_swept :
      Bytes → Bytes → Result ChequeError Cheque → Action RequestError Tables (Unit {0})
  unfolding internally update_swept
  mark_swept wallet_id txid (ok c) =
      if is_unswept c then internally (logged (update_swept d wallet_id c.row.id txid)) else pure tt
  mark_swept wallet_id txid (err e) = pure tt

  unfoldable pub sweep_cheque :
      Btcd → Bytes → Bytes → Bytes → ℕ → Action RequestError Tables SweepChequeResponse
  unfolding guarded answered of_sweep build_sweep_tx sign_sweep_tx get_by_address mark_swept
  sweep_cheque b wallet_id wif destination rate = do
    guarded (s.has_wallet wallet_id) get_wallet_type
    key ← answered invalid_wif (b.decode_wif wif)
    address ← answered create_address_failed (s.address_of_key key)
    guarded s.has_bitcoind bitcoind_not_available
    us ← answered query_utxos_failed (s.unspent address)
    guarded (is_some_unspent us) no_funds_found
    unsigned ← of_sweep (build_sweep_tx b destination us (fee_rate rate))
    signed ← of_sweep (sign_sweep_tx b unsigned wif address us)
    hex ← answered serialize_failed (b.serialize signed)
    txid ← answered broadcast_failed (s.send_raw_transaction hex)
    found ← internally (attempted (get_by_address d wallet_id address))
    mark_swept wallet_id txid found
    pure (record { txid = txid; amount_sats = s.sats_of_sum (amounts us) })

  unfoldable pub delete_cheque_request : Bytes → ℕ → Action RequestError Tables (Unit {0})
  unfolding guarded find_cheque internally delete_cheque is_funded
  delete_cheque_request wallet_id id = do
    guarded (s.has_wallet wallet_id) get_wallet_type
    c ← find_cheque wallet_id id
    guarded (not (is_funded c && is_unswept c)) cannot_delete_funded
    internally (delete_cheque d wallet_id id)
