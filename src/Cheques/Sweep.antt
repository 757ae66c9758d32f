-- ===== src/Cheques/Sweep.antt =====
-- `buildSweepTx` and `signSweepTx` of litwindow/server/api/wallet/wallet.go: the transaction that moves
-- all outputs of a cheque's address on.
use drivechain_litwindow.Prelude.{
  ℕ, zero, suc, ◌+◌, ◌*◌, ◌-◌, ◌%◌, ◌^◌, Option, none, some, List, [], ◌∷◌, Bytes, length, leb,
  if◌then◌else◌, Result, ok, err,
}

-- an output that the node lists; the amount is the float64 of the answer, by its bits
pub record Unspent : Type 0 where
  pub txid : Bytes
  pub vout : ℕ
  pub amount : ℕ
  pub confirmations : ℕ

pub record TxIn : Type 0 where
  pub hash : Bytes
  pub vout : ℕ
  pub witness : List Bytes

pub record TxOut : Type 0 where
  pub value : ℕ  -- the bits of an int64
  pub pk_script : Bytes

pub record SweepTx : Type 0 where
  pub inputs : List TxIn
  pub outputs : List TxOut

pub data SweepError : Type 0 where
  insufficient_funds : (total fee : ℕ) → SweepError
  destination_address parse_txid output_script : SweepError
  decode_wif_failed source_address source_script : SweepError
  witness_signature_failed : ℕ → SweepError

-- The calls of btcd, and uint64(amount * 1e8).
pub record Btcd : Type 0 where
  pub to_sats : ℕ → ℕ
  pub decode_address : Bytes → Option Bytes
  pub pay_to_addr_script : Bytes → Option Bytes
  pub new_hash_from_str : Bytes → Option Bytes
  pub decode_wif : Bytes → Option Bytes
  -- the transaction, the index of the input, the amount, the script, and the key
  pub witness_signature : SweepTx → ℕ → ℕ → Bytes → Bytes → Option (List Bytes)
  pub serialize : SweepTx → Option Bytes

-- the number, or an error of one
unfoldable pub required : {A : Type 0} → SweepError → Option A → Result SweepError A
required e none = err e
required e (some a) = ok a

abbrev pub and_then :
    {A B : Type 0} → Result SweepError A → (A → Result SweepError B) → Result SweepError B
and_then (ok a) f = f a
and_then (err e) f = err e

module _ (b : Btcd) where
  unfoldable pub total_sats : ℕ → List Unspent → ℕ
  total_sats total [] = total
  total_sats total (u ∷ us) = total_sats ((total + b.to_sats u.amount) % 2 ^ 64) us

  unfoldable pub inputs_of : List Unspent → Result SweepError (List TxIn)
  unfolding required
  inputs_of [] = ok []
  inputs_of (u ∷ us) = and_then (required parse_txid (b.new_hash_from_str u.txid)) (λ h.
      and_then (inputs_of us)
        (λ rest. ok (record { hash = h; vout = u.vout; witness = [] } ∷ rest)))

  abbrev pub sweep_fee : List Unspent → ℕ → ℕ
  sweep_fee us rate = (length us * 68 + 31 + 11) * rate % 2 ^ 64

  -- what follows the test of the fee
  unfoldable pub pay_on : Bytes → List Unspent → ℕ → Result SweepError SweepTx
  unfolding required inputs_of
  pay_on destination us output_sats =
      and_then (required destination_address (b.decode_address destination)) (λ addr.
        and_then (inputs_of us) (λ ins.
          and_then (required output_script (b.pay_to_addr_script addr)) (λ script. ok (record {
            inputs = ins;
            outputs = record { value = output_sats; pk_script = script } ∷ [];
          }))))

  unfoldable pub build_sweep_tx : Bytes → List Unspent → ℕ → Result SweepError SweepTx
  unfolding pay_on total_sats
  build_sweep_tx destination us rate =
      let total = total_sats 0 us in
      let fee = sweep_fee us rate in
      if leb total fee
      then err (insufficient_funds total fee)
      else pay_on destination us (total - fee)

  -- tx.TxIn[i].Witness = witness
  unfoldable pub set_witness : ℕ → List Bytes → List TxIn → List TxIn
  set_witness i w [] = []
  set_witness zero w (x ∷ xs) = record x { witness = w } ∷ xs
  set_witness (suc i) w (x ∷ xs) = x ∷ set_witness i w xs

  -- the loop over the outputs from index i on
  unfoldable pub sign_from : ℕ → Bytes → Bytes → List Unspent → SweepTx → Result SweepError SweepTx
  unfolding required set_witness
  sign_from i script key [] tx = ok tx
  sign_from i script key (u ∷ us) tx =
      and_then
        (required (witness_signature_failed i)
          (b.witness_signature tx i (b.to_sats u.amount) script key))
        (λ w. sign_from (suc i) script key us (record tx { inputs = set_witness i w tx.inputs }))

  unfoldable pub sign_sweep_tx : SweepTx → Bytes → Bytes → List Unspent → Result SweepError SweepTx
  unfolding sign_from required
  sign_sweep_tx tx wif source us = and_then (required decode_wif_failed (b.decode_wif wif)) (λ key.
      and_then (required source_address (b.decode_address source)) (λ addr.
        and_then (required source_script (b.pay_to_addr_script addr))
          (λ script. sign_from 0 script key us tx)))
