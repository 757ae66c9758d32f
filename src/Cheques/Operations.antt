-- ===== src/Cheques/Operations.antt =====
-- The functions of litwindow/server/models/cheques/cheques.go that call the database.
use drivechain_litwindow.Prelude.{
  ℕ, not, Option, none, some, List, map, Bytes, length, same, ◌==◌, if◌then◌else◌, keep, sort_desc,
  Result, ok, err,
}
use drivechain_litwindow.Database.{
  Driver, Action, pure, raise, try_insert, update, query, attempted, ◌>>=◌,
}
use drivechain_litwindow.Deniability.Sizes.{join_comma}
use drivechain_litwindow.Cheques.{
  ChequeRow, Cheque, Tables, ChequeError, no_rows, call_failed, empty_wallet_id, empty_address,
  create_failed, update_funding_failed, update_swept_failed, max_index_failed, delete_failed,
  list_failed, create_recovered_failed, get_cheque, get_by_address_failed, check_existing,
  is_no_rows, scan_cheque, is_cheque, has_address, first_row, insert_cheque, update_rows,
  funded_row, max_index, index_after, is_empty,
}

-- a row that was found, or the error of none
unfoldable pub found_or : ChequeError → Option ChequeRow → Action ChequeError Tables Cheque
unfolding scan_cheque
found_or e none = raise e
found_or e (some r) = pure (scan_cheque r)

unfoldable pub some_affected : ℕ → Action ChequeError Tables (Unit {0})
some_affected rows = if rows == 0 then raise no_rows else pure tt

module _ (d : Driver) where
  unfoldable pub create_cheque : Bytes → ℕ → ℕ → Bytes → Action ChequeError Tables ℕ
  unfolding insert_cheque
  create_cheque wallet_id index expected address =
      if is_empty wallet_id
      then raise empty_wallet_id
      else if is_empty address
      then raise empty_address
      else try_insert d create_failed
          (λ now. insert_cheque wallet_id index expected address none none none now)

  unfoldable pub get_cheque_by_id : Bytes → ℕ → Action ChequeError Tables Cheque
  unfolding found_or
  get_cheque_by_id wallet_id id = do
    row ←
        query d (get_cheque call_failed) (λ t. first_row (keep (is_cheque wallet_id id) t.cheques))
    found_or (get_cheque no_rows) row

  unfoldable pub get_by_address : Bytes → Bytes → Action ChequeError Tables Cheque
  unfolding found_or
  get_by_address wallet_id address = do
    row ←
        query d (get_by_address_failed call_failed)
          (λ t. first_row (keep (has_address wallet_id address) t.cheques))
    found_or (get_by_address_failed no_rows) row

  unfoldable pub list_cheques : Bytes → Action ChequeError Tables (List Cheque)
  unfolding scan_cheque
  list_cheques wallet_id = query d list_failed (λ t. map scan_cheque (
      sort_desc (λ (r : ChequeRow). r.created_at)
        (keep (λ (r : ChequeRow). same r.wallet_id wallet_id) t.cheques)))

  unfoldable pub update_funding : Bytes → ℕ → List Bytes → ℕ → Action ChequeError Tables (Unit {0})
  unfolding some_affected
  update_funding wallet_id id txids amount = do
    rows ←
        update d update_funding_failed
          (λ now. update_rows (is_cheque wallet_id id) (funded_row txids amount now))
    some_affected rows

  unfoldable pub update_swept : Bytes → ℕ → Bytes → Action ChequeError Tables (Unit {0})
  unfolding some_affected
  update_swept wallet_id id txid = do
    rows ← update d update_swept_failed (λ now.
        update_rows (is_cheque wallet_id id)
          (λ r. record r { swept_txid = some txid; swept_at = some now }))
    some_affected rows

  unfoldable pub get_next_index : Bytes → Action ChequeError Tables ℕ
  unfolding max_index index_after
  get_next_index wallet_id = do
    found ← query d max_index_failed (λ t. max_index wallet_id t.cheques)
    pure (index_after found)

  unfoldable pub delete_cheque : Bytes → ℕ → Action ChequeError Tables (Unit {0})
  unfolding some_affected
  delete_cheque wallet_id id = do
    rows ← update d delete_failed (λ now t. (
      record t { cheques = keep (λ (r : ChequeRow). not (is_cheque wallet_id id r)) t.cheques },
      length (keep (is_cheque wallet_id id) t.cheques),
    ))
    some_affected rows

  unfoldable pub insert_recovered :
      Bytes → ℕ → Bytes → List Bytes → ℕ → Action ChequeError Tables (Unit {0})
  unfolding insert_cheque
  insert_recovered wallet_id index address txids amount = do
    _ ← try_insert d create_recovered_failed (λ now.
        insert_cheque wallet_id index amount address (some (join_comma txids)) (some amount)
          (some now) now)
    pure tt

  -- what follows the search for the cheque: `existing` is nil after any error
  unfoldable pub recover :
      Bytes
      → ℕ
      → Bytes
      → List Bytes
      → ℕ
      → Result ChequeError Cheque
      → Action ChequeError Tables (Unit {0})
  unfolding insert_recovered update_funding
  recover wallet_id index address txids amount (ok c) =
      update_funding wallet_id c.row.id txids amount
  recover wallet_id index address txids amount (err e) =
      if is_no_rows e
      then insert_recovered wallet_id index address txids amount
      else raise (check_existing e)

  unfoldable pub create_or_update_from_recovery :
      Bytes → ℕ → Bytes → List Bytes → ℕ → Action ChequeError Tables (Unit {0})
  unfolding get_by_address recover
  create_or_update_from_recovery wallet_id index address txids amount = do
    found ← attempted (get_by_address wallet_id address)
    recover wallet_id index address txids amount found
