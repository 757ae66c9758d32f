-- ===== src/SidechainMonitor/Payments.antt =====
-- Payments to fast withdrawal servers: the part of
-- litwindow/server/engines/sidechain_monitor_engine.go from `checkFastWithdrawalPayments` down.
use drivechain_litwindow.Prelude.{
  ℕ, Bool, true, false, not, ◌&&◌, ◌||◌, Option, none, some, List, [], ◌∷◌, ◌++◌, Bytes, codes,
  same, length, leb, ltb, ◌==◌, if◌then◌else◌, keep,
}
use drivechain_litwindow.Prelude.Maps.{values}
use drivechain_litwindow.Int64.{i64_mul, i64_div, i64_leb}
use drivechain_litwindow.SidechainMonitor.Json.{
  RawMessage, Fields, get_field, unmarshal_map, unmarshal_maps, as_text, as_number, float_to_int64,
}
use drivechain_litwindow.SidechainMonitor.{
  PendingFastWithdrawal, Payment, Response, Sidechain, Network, Monitor, asked, remove_pending,
}

pub data HashError : Type 0 where
  invalid_length : ℕ → HashError
  invalid_characters : HashError

pub data ResponseError : Type 0 where
  http_status : ℕ → ResponseError
  missing_status : ResponseError
  server_error : Bytes → ResponseError

pub data CompleteError : Type 0 where
  invalid_hash : HashError → CompleteError
  invalid_txid : HashError → CompleteError
  create_request : CompleteError
  request_failed : CompleteError
  decode_response : CompleteError
  invalid_response : ResponseError → CompleteError

pub data CheckError : Type 0 where
  unsupported_sidechain : Bytes → CheckError
  no_client : Bytes → CheckError

-- [a-zA-Z0-9\-_]
unfoldable pub is_hash_char : ℕ → Bool
is_hash_char c =
    (leb b'a' c && leb c b'z')
    || (leb b'A' c && leb c b'Z')
    || (leb b'0' c && leb c b'9')
    || (c == b'-')
    || (c == b'_')

unfoldable pub all_hash_chars : Bytes → Bool
all_hash_chars [] = true
all_hash_chars (c ∷ s) = is_hash_char c && all_hash_chars s

unfoldable pub validate_withdrawal_hash : Bytes → Option HashError
validate_withdrawal_hash hash =
    if ltb (length hash) 16 || ltb 128 (length hash)
    then some (invalid_length (length hash))
    else if all_hash_chars hash
    then none
    else some invalid_characters

-- the text of the field `error`, or the text that stands for none
unfoldable pub error_text : Option Bytes → Bytes
error_text none = codes "unknown error"
error_text (some []) = codes "unknown error"
error_text (some (c ∷ s)) = c ∷ s

unfoldable pub check_status : Fields → Option Bytes → Option ResponseError
unfolding error_text
check_status body none = some missing_status
check_status body (some status) =
    if same status (codes "success")
    then none
    else some (server_error (error_text (as_text (get_field (codes "error") body))))

unfoldable pub validate_server_response : ℕ → Fields → Option ResponseError
unfolding check_status
validate_server_response status_code body =
    if not (status_code == 200)
    then some (http_status status_code)
    else check_status body (as_text (get_field (codes "status") body))

-- expectedAmount*95/100
unfoldable pub least_amount : ℕ → ℕ
least_amount expected = i64_div (i64_mul expected 95) 100

unfoldable pub has_amount : ℕ → Option ℕ → Bool
unfolding least_amount
has_amount expected none = false
has_amount expected (some bits) = i64_leb (least_amount expected) (float_to_int64 bits)

unfoldable pub has_address : Bytes → Option Bytes → Bool
has_address address none = false
has_address address (some a) = same a address

-- the txid of an output that pays the amount to the address
unfoldable pub paid_by : Bytes → ℕ → Fields → Option Bytes
unfolding has_address has_amount
paid_by address expected utxo =
    if has_address address (as_text (get_field (codes "address") utxo))
      && has_amount expected (as_number (get_field (codes "amount") utxo))
    then as_text (get_field (codes "txid") utxo)
    else none

-- the loop of `findTransactionToAddressViaUTXOs`: it returns at the first such output
unfoldable pub txid_or : Option Bytes → Bytes → Bytes
txid_or none rest = rest
txid_or (some txid) rest = txid

unfoldable pub first_paid : Bytes → ℕ → List Fields → Bytes
unfolding paid_by txid_or
first_paid address expected [] = []
first_paid address expected (utxo ∷ utxos) =
    txid_or (paid_by address expected utxo) (first_paid address expected utxos)

unfoldable pub find_in_parsed : Bytes → ℕ → Option (List Fields) → Bytes
unfolding first_paid
find_in_parsed address expected none = []
find_in_parsed address expected (some utxos) = first_paid address expected utxos

unfoldable pub find_in_utxos : Bytes → ℕ → Option RawMessage → Bytes
unfolding find_in_parsed
find_in_utxos address expected none = []
find_in_utxos address expected (some raw) = find_in_parsed address expected (unmarshal_maps raw)

-- the service that the switch takes for a name
unfoldable pub client_named : Bytes → Option Sidechain
client_named name =
    if same name (codes "thunder")
    then some Sidechain.thunder
    else if same name (codes "bitnames")
    then some Sidechain.bitnames
    else if same name (codes "bitassets")
    then some Sidechain.bitassets
    else if same name (codes "truthcoin")
    then some Sidechain.truthcoin
    else if same name (codes "photon")
    then some Sidechain.photon
    else if same name (codes "coinshift")
    then some Sidechain.coinshift
    else none

-- the end of `completeWithdrawal`, by what the validation of the answer says
unfoldable pub accepted : Bytes → Option ResponseError → Monitor → Monitor × Option CompleteError
accepted hash (some e) s = (s, some (invalid_response e))
accepted hash none s = (remove_pending hash s, none)

unfoldable pub answered : Bytes → Option Fields → ℕ → Monitor → Monitor × Option CompleteError
unfolding accepted
answered hash none status_code s = (s, some decode_response)
answered hash (some body) status_code s =
    accepted hash (validate_server_response status_code body) s

unfoldable pub sent : Bytes → Option Response → Monitor → Monitor × Option CompleteError
unfolding answered
sent hash none s = (s, some request_failed)
sent hash (some r) s = answered hash (unmarshal_map r.body) r.status_code s

module _ (net : Network) where
  -- the request to a server, made with the number of calls so far
  unfoldable pub post_payment : Payment → Monitor → Monitor
  unfolding asked
  post_payment p s = record (asked s) { payments = p ∷ s.payments }

  unfoldable pub send_payment : Payment → Monitor → Monitor × Option CompleteError
  unfolding sent post_payment
  send_payment payment s =
      if net.valid_url payment.url
      then sent payment.hash (net.post s.calls payment) (post_payment payment s)
      else (s, some create_request)

  -- the payment is sent if the two validations find no error
  unfoldable pub complete_validated :
      Option HashError → Option HashError → Payment → Monitor → Monitor × Option CompleteError
  unfolding send_payment
  complete_validated (some e) _ payment s = (s, some (invalid_hash e))
  complete_validated none (some e) payment s = (s, some (invalid_txid e))
  complete_validated none none payment s = send_payment payment s

  unfoldable pub complete_withdrawal :
      PendingFastWithdrawal → Bytes → Monitor → Monitor × Option CompleteError
  unfolding complete_validated
  complete_withdrawal p txid s =
      complete_validated (validate_withdrawal_hash p.hash) (validate_withdrawal_hash txid)
        (record { url = p.server_url ++ codes "/paid"; hash = p.hash; txid = txid }) s

  unfoldable pub complete_if_found : PendingFastWithdrawal → Bytes → Monitor → Monitor
  unfolding complete_withdrawal
  complete_if_found p [] s = s
  complete_if_found p (c ∷ txid) s = (complete_withdrawal p (c ∷ txid) s).0

  unfoldable pub find_transaction_to_address : Sidechain → Bytes → ℕ → Monitor → Bytes
  find_transaction_to_address sc address expected s =
      find_in_utxos address expected (net.list_utxos s.calls sc)

  -- one turn of the loop over the pending withdrawals: an error is logged, and the loop goes on
  unfoldable pub check_payment : Sidechain → PendingFastWithdrawal → Monitor → Monitor
  unfolding complete_if_found find_transaction_to_address asked
  check_payment sc p s =
      complete_if_found p (find_transaction_to_address sc p.server_address p.expected_amount s)
        (asked s)

  unfoldable pub check_payments : Sidechain → List PendingFastWithdrawal → Monitor → Monitor
  unfolding check_payment
  check_payments sc [] s = s
  check_payments sc (p ∷ ps) s = check_payments sc ps (check_payment sc p s)

  unfoldable pub check_with_client :
      Bytes → Option Sidechain → List PendingFastWithdrawal → Monitor → Monitor × Option CheckError
  unfolding check_payments asked
  check_with_client name none ps s = (s, some (unsupported_sidechain name))
  check_with_client name (some sc) ps s =
      if net.has_client s.calls sc
      then (check_payments sc ps (asked s), none)
      else (asked s, some (no_client name))

  unfoldable pub is_pending_of : Bytes → PendingFastWithdrawal → Bool
  is_pending_of name p = same p.sidechain name

  -- the pending withdrawals of a sidechain, in the order in which Go ranges over the map
  unfoldable pub pending_for : Bytes → Monitor → List PendingFastWithdrawal
  unfolding is_pending_of
  pending_for name s = keep (is_pending_of name) (net.ranged s.calls (values s.pending))

  unfoldable pub check_some :
      Bytes → List PendingFastWithdrawal → Monitor → Monitor × Option CheckError
  unfolding check_with_client client_named
  check_some name [] s = (s, none)
  check_some name (p ∷ ps) s = check_with_client name (client_named name) (p ∷ ps) s

  unfoldable pub check_fast_withdrawal_payments : Bytes → Monitor → Monitor × Option CheckError
  unfolding check_some pending_for asked
  check_fast_withdrawal_payments name s = check_some name (pending_for name s) (asked s)
