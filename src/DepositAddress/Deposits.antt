-- ===== src/DepositAddress/Deposits.antt =====
-- `CreateSidechainDeposit` of litwindow/server/api/wallet/wallet.go.
use drivechain_litwindow.Prelude.{
  ℕ, ◌-◌, ◌%◌, ◌^◌, ◌≤◌, ◌≡◌, refl, sym, ◌∙◌, ap, zero, suc, ◌≢◌, ◌⊎◌, Bool, Option, none, some,
  ◌∷◌, ◌++◌, Bytes, same, Result, ok, err, if◌then◌else◌, arith, Bool-cases, inl, inr,
}
use drivechain_litwindow.Prelude.Int.{ℤ, pos, negsuc}
use drivechain_litwindow.Deniability.Engine.{
  WalletType, enforcer, bitcoin_core, watch_only, other_wallet,
}
use drivechain_litwindow.DepositAddress.{DepositError, DepositAddress, decode_deposit_address}
use drivechain_litwindow.DepositAddress.RoundTrip.{HasNoUnderscore, slot_text, decode-with_checksum}
use drivechain_litwindow.DepositAddress.Sound.{IsInRange, decode-IsSound}

-- the amounts are the bits of float64 numbers of coins
pub record DepositRequest : Type 0 where
  pub wallet_id : Bytes
  pub slot : ℤ
  pub destination : Bytes
  pub amount : ℕ
  pub fee : ℕ

pub record DepositTransaction : Type 0 where
  pub sidechain_id : ℕ
  pub address : Bytes
  pub value_sats : ℕ
  pub fee_sats : ℕ

pub data CreateDepositError : Type 0 where
  get_wallet_type : CreateDepositError
  not_an_enforcer_wallet : CreateDepositError
  wallet_not_connected : CreateDepositError
  invalid_deposit_address : DepositError → CreateDepositError
  no_slot : CreateDepositError
  invalid_amount : CreateDepositError
  invalid_fee : CreateDepositError
  wallet_unavailable : CreateDepositError
  create_failed : CreateDepositError

-- What the request asks of others: the type of a wallet, btcutil.NewAmount, and the enforcer.
pub record Wallets : Type 0 where
  pub wallet_type : Bytes → Option WalletType
  pub is_connected : Bool
  pub is_available : Bool
  pub new_amount : ℕ → Option ℤ
  pub create_deposit_transaction : DepositTransaction → Option Bytes

-- uint32(slot)
unfoldable pub to_uint32 : ℤ → ℕ
to_uint32 (pos n) = n % 2 ^ 32
to_uint32 (negsuc n) = 2 ^ 32 - 1 - n % 2 ^ 32

unfoldable pub not_negative : CreateDepositError → Option ℤ → Result CreateDepositError ℕ
not_negative e none = err e
not_negative e (some (negsuc n)) = err e
not_negative e (some (pos n)) = ok n

-- the slot of the address, or the one of the request if it is not 0
unfoldable pub slot_of : Option ℤ → ℤ → Option ℤ
slot_of (some slot) requested = some slot
slot_of none (pos zero) = none
slot_of none (pos (suc n)) = some (pos (suc n))
slot_of none (negsuc n) = some (negsuc n)

unfoldable pub with_fee :
    ℤ → Bytes → ℕ → Result CreateDepositError ℕ → Result CreateDepositError DepositTransaction
unfolding to_uint32
with_fee slot address amount (err e) = err e
with_fee slot address amount (ok fee) = ok (record {
  sidechain_id = to_uint32 slot;
  address = address;
  value_sats = amount;
  fee_sats = fee;
})

unfoldable pub with_amount :
    ℤ
    → Bytes
    → Result CreateDepositError ℕ
    → Result CreateDepositError ℕ
    → Result CreateDepositError DepositTransaction
unfolding with_fee
with_amount slot address (err e) fee = err e
with_amount slot address (ok amount) fee = with_fee slot address amount fee

unfoldable pub with_slot :
    Option ℤ
    → Bytes
    → Result CreateDepositError ℕ
    → Result CreateDepositError ℕ
    → Result CreateDepositError DepositTransaction
unfolding with_amount
with_slot none address amount fee = err no_slot
with_slot (some slot) address amount fee = with_amount slot address amount fee

unfoldable pub of_address :
    Result DepositError DepositAddress
    → ℤ
    → Result CreateDepositError ℕ
    → Result CreateDepositError ℕ
    → Result CreateDepositError DepositTransaction
unfolding with_slot slot_of
of_address (err e) requested amount fee = err (invalid_deposit_address e)
of_address (ok d) requested amount fee = with_slot (slot_of d.slot requested) d.address amount fee

unfoldable pub check_wallet_type : Option WalletType → Option CreateDepositError
check_wallet_type none = some get_wallet_type
check_wallet_type (some enforcer) = none
check_wallet_type (some bitcoin_core) = some not_an_enforcer_wallet
check_wallet_type (some watch_only) = some not_an_enforcer_wallet
check_wallet_type (some (other_wallet name)) = some not_an_enforcer_wallet

unfoldable pub txid_of : Option Bytes → Result CreateDepositError Bytes
txid_of none = err create_failed
txid_of (some txid) = ok txid

module _ (sha256 : Bytes → Bytes) (w : Wallets) where
  -- the transaction that a request asks for, or why there is none
  unfoldable pub deposit_transaction : DepositRequest → Result CreateDepositError DepositTransaction
  unfolding of_address not_negative
  deposit_transaction r =
      of_address (decode_deposit_address sha256 r.destination) r.slot
        (not_negative invalid_amount (w.new_amount r.amount))
        (not_negative invalid_fee (w.new_amount r.fee))

  unfoldable pub send_deposit :
      Result CreateDepositError DepositTransaction → Result CreateDepositError Bytes
  unfolding txid_of
  send_deposit (err e) = err e
  send_deposit (ok tx) =
      if w.is_available then txid_of (w.create_deposit_transaction tx) else err wallet_unavailable

  unfoldable pub checked_deposit :
      Option CreateDepositError → DepositRequest → Result CreateDepositError Bytes
  unfolding send_deposit deposit_transaction
  checked_deposit (some e) r = err e
  checked_deposit none r =
      if w.is_connected then send_deposit (deposit_transaction r) else err wallet_not_connected

  unfoldable pub create_sidechain_deposit : DepositRequest → Result CreateDepositError Bytes
  unfolding checked_deposit check_wallet_type
  create_sidechain_deposit r = checked_deposit (check_wallet_type (w.wallet_type r.wallet_id)) r

-- The request with the checksum of its destination.
abbrev pub with_checksum_text : DepositRequest → ℕ → Bytes → Bytes → DepositRequest
with_checksum_text r slot address checksum = record r {
  destination = slot_text slot ++ b'_' ∷ (address ++ b'_' ∷ checksum);
}

checked_deposit-eq :
    (sha256 : Bytes → Bytes) (w : Wallets) (o : Option CreateDepositError) (r s : DepositRequest)
    → deposit_transaction sha256 w r ≡ deposit_transaction sha256 w s
    → checked_deposit sha256 w o r ≡ checked_deposit sha256 w o s
unfolding checked_deposit
checked_deposit-eq sha256 w (some e) r s h = refl
checked_deposit-eq sha256 w none r s h = elim (Bool-cases (w.is_connected)) [
  | inl there ↦ rw there (ap (send_deposit sha256 w) h)
  | inr absent ↦ rw absent refl
]

-- The transaction to a slot and an address, by what the conversions of the amount and of the fee give:
-- each must be there and not be negative, and the amount is looked at first.
unfoldable pub transaction_to :
    ℕ → Bytes → Option ℤ → Option ℤ → Result CreateDepositError DepositTransaction
transaction_to slot address (some (pos amount)) (some (pos fee)) =
    ok (record { sidechain_id = slot; address = address; value_sats = amount; fee_sats = fee })
transaction_to slot address (some (pos amount)) (some (negsuc n)) = err invalid_fee
transaction_to slot address (some (pos amount)) none = err invalid_fee
transaction_to slot address (some (negsuc n)) fee = err invalid_amount
transaction_to slot address none fee = err invalid_amount

with_amount-transaction_to :
    (slot : ℕ) (address : Bytes) (a f : Option ℤ)
    → slot ≤ 255
    → with_amount (pos slot) address (not_negative invalid_amount a) (not_negative invalid_fee f)
      ≡ transaction_to slot address a f
unfolding with_amount with_fee not_negative to_uint32 transaction_to
with_amount-transaction_to slot address (some (pos a)) (some (pos f)) h =
    let small : slot % 2 ^ 32 ≡ slot = omega arith in rw small refl
with_amount-transaction_to slot address (some (pos a)) (some (negsuc n)) h = refl
with_amount-transaction_to slot address (some (pos a)) none h = refl
with_amount-transaction_to slot address (some (negsuc n)) f h = refl
with_amount-transaction_to slot address none f h = refl

deposit_transaction-checksum :
    (sha256 : Bytes → Bytes) (w : Wallets) (r : DepositRequest) (slot : ℕ)
    (address checksum : Bytes)
    → slot ≤ 255
    → HasNoUnderscore address
    → HasNoUnderscore checksum
    → deposit_transaction sha256 w (with_checksum_text r slot address checksum)
      ≡ transaction_to slot address (w.new_amount r.amount) (w.new_amount r.fee)
unfolding deposit_transaction
deposit_transaction-checksum sha256 w r slot address checksum h p q =
    rw (decode-with_checksum sha256 slot address h p checksum q)
      (with_amount-transaction_to slot address (w.new_amount r.amount) (w.new_amount r.fee) h)

-- A deposit to s<slot>_<address>_<checksum> goes to the slot and the address whatever the checksum says: for any checksum, right or wrong, the transaction that the enforcer is asked for has just this slot and this address, with the amount and the fee of the request, and with any two checksums the same request has the same result.
pub create_sidechain_deposit-checksum :
    (sha256 : Bytes → Bytes) (w : Wallets) (r : DepositRequest) (slot : ℕ)
    (address right wrong : Bytes)
    → slot ≤ 255
    → HasNoUnderscore address
    → HasNoUnderscore right
    → HasNoUnderscore wrong
    → (deposit_transaction sha256 w (with_checksum_text r slot address wrong)
        ≡ transaction_to slot address (w.new_amount r.amount) (w.new_amount r.fee))
      × (create_sidechain_deposit sha256 w (with_checksum_text r slot address right)
          ≡ create_sidechain_deposit sha256 w (with_checksum_text r slot address wrong))
unfolding create_sidechain_deposit
create_sidechain_deposit-checksum sha256 w r slot address right wrong h p q s = (
  deposit_transaction-checksum sha256 w r slot address wrong h p s,
  checked_deposit-eq sha256 w (check_wallet_type (w.wallet_type r.wallet_id))
      (with_checksum_text r slot address right) (with_checksum_text r slot address wrong)
      (deposit_transaction-checksum sha256 w r slot address right h p q
        ∙ sym (deposit_transaction-checksum sha256 w r slot address wrong h p s)),
)

-- What the enforcer is asked for agrees with the destination: the address is the decoded one, and the slot is the decoded one, between 0 and 255, or, for an address alone, the slot of the request modulo 2 ^ 32, which is not 0.
abbrev pub Agrees : DepositRequest → DepositAddress → DepositTransaction → Type 0
Agrees r d tx =
    (tx.address ≡ d.address)
    × (((n : ℕ) × (d.slot ≡ some (pos n)) × (tx.sidechain_id ≡ n) × (n ≤ 255))
        ⊎ ((d.slot ≡ none) × (r.slot ≢ pos 0) × (tx.sidechain_id ≡ to_uint32 r.slot)))

with_slot-Agrees :
    (r : DepositRequest) (d : DepositAddress) (o : Option ℤ)
    (amount fee : Result CreateDepositError ℕ) {tx : DepositTransaction}
    → with_slot o d.address amount fee ≡ ok tx
    → (z : ℤ) × (o ≡ some z) × (tx.address ≡ d.address) × (tx.sidechain_id ≡ to_uint32 z)
unfolding with_slot
with_slot-Agrees r d none amount fee h = cc
with_slot-Agrees r d (some z) (err e) fee h = cc
with_slot-Agrees r d (some z) (ok a) (err e) h = cc
with_slot-Agrees r d (some z) (ok a) (ok f) {tx} h = (z, refl, ground arith, ground arith)

requested-slot :
    (requested z : ℤ) → slot_of none requested ≡ some z → (requested ≢ pos 0) × (z ≡ requested)
unfolding slot_of
requested-slot (pos zero) z h = cc
requested-slot (pos (suc n)) z h = (λ e. cc, cc)
requested-slot (negsuc n) z h = (λ e. cc, cc)

Agrees-of :
    (r : DepositRequest) (d : DepositAddress) (z : ℤ) (tx : DepositTransaction)
    → IsInRange d.slot
    → slot_of d.slot r.slot ≡ some z
    → tx.address ≡ d.address
    → tx.sidechain_id ≡ to_uint32 z
    → Agrees r d tx
unfolding slot_of to_uint32
Agrees-of r d z tx (inl none_there) e a i =
    let (nonzero, same) = requested-slot r.slot z (rw none_there at e) in
    (a, inr (none_there, nonzero, rw same at i))
Agrees-of r d z tx (inr there) e a i =
    let (n, s, small) = there in
    let f : slot_of (some (pos n)) r.slot ≡ some z = rw s at e in
    let g : pos n ≡ z = cc f in
    let k : tx.sidechain_id ≡ to_uint32 (pos n) = rw (← g) at i in
    (a, inl (n, s, omega (arith, k), small))

of_address-Agrees :
    (sha256 : Bytes → Bytes) (r : DepositRequest) (o : Result DepositError DepositAddress)
    (amount fee : Result CreateDepositError ℕ) {tx : DepositTransaction}
    → decode_deposit_address sha256 r.destination ≡ o
    → of_address o r.slot amount fee ≡ ok tx
    → (d : DepositAddress) × (decode_deposit_address sha256 r.destination ≡ ok d) × Agrees r d tx
unfolding of_address
of_address-Agrees sha256 r (err e) amount fee k h = cc
of_address-Agrees sha256 r (ok d) amount fee {tx} k h =
    let (z, e, a, i) = with_slot-Agrees r d (slot_of d.slot r.slot) amount fee {tx = tx} h in
    (d, k, Agrees-of r d z tx (decode-IsSound sha256 r.destination d k).in_range e a i)

-- A deposit that is asked of the enforcer agrees with the destination: it goes to the decoded address, and to the decoded slot, which lies between 0 and 255, or for an address alone to the slot of the request modulo 2 ^ 32, which is not 0.
pub deposit_transaction-Agrees :
    (sha256 : Bytes → Bytes) (w : Wallets) (r : DepositRequest) {tx : DepositTransaction}
    → deposit_transaction sha256 w r ≡ ok tx
    → (d : DepositAddress) × (decode_deposit_address sha256 r.destination ≡ ok d) × Agrees r d tx
unfolding deposit_transaction
deposit_transaction-Agrees sha256 w r {tx} h =
    of_address-Agrees sha256 r (decode_deposit_address sha256 r.destination)
      (not_negative invalid_amount (w.new_amount r.amount))
      (not_negative invalid_fee (w.new_amount r.fee)) {tx = tx} refl h
