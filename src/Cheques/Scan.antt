-- ===== src/Cheques/Scan.antt =====
-- `ScanForFunds` and the loop of `recoverChequesOnUnlock` of
-- litwindow/server/engines/cheque_engine.go. The derivation of an address from a seed is a parameter,
-- as it is done by btcd.
pub mod Found
mod Tests
use mathlib.Core.List.{Memᴰ}
use drivechain_litwindow.Prelude.{
  ℕ, zero, suc, ◌+◌, ◌%◌, ◌^◌, ◌≡◌, ◌≤◌, ◌<◌, refl, ap, sym, ◌∙◌, ◌⊎◌, inl, inr, arith, Option,
  none, some, List, [], ◌∷◌, ◌++◌, map, Bytes, length, Option-cases, Bool-cases, ltb,
}
use drivechain_litwindow.Cheques.Sweep.{Unspent}

pub record ChequeRecovery : Type 0 where
  pub index : ℕ
  pub address : Bytes
  pub amount : ℕ
  pub txid : Bytes

pub record Node : Type 0 where
  pub wallet_seed : Bytes → Option Bytes
  -- the key, its public key, and the address: none if one of the three fails
  pub address_at : Bytes → ℕ → Option Bytes
  pub unspent : Bytes → Option (List Unspent)
  pub sats_of_sum : List ℕ → ℕ

abbrev pub last_txid : Bytes → List Unspent → Bytes
last_txid txid [] = txid
last_txid txid (u ∷ us) = last_txid u.txid us

-- an index whose address is derived and has outputs
unfoldable pub recovery_of : Node → ℕ → Bytes → List Unspent → Option ChequeRecovery
recovery_of n i address [] = none
recovery_of n i address (u ∷ us) = some (record {
  index = i;
  address = address;
  amount = n.sats_of_sum (map (λ (x : Unspent). x.amount) (u ∷ us));
  txid = last_txid [] (u ∷ us);
})

unfoldable pub recovery_listed : Node → ℕ → Bytes → Option (List Unspent) → Option ChequeRecovery
unfolding recovery_of
recovery_listed n i address none = none
recovery_listed n i address (some us) = recovery_of n i address us

unfoldable pub recovery_derived : Node → ℕ → Option Bytes → Option ChequeRecovery
unfolding recovery_listed
recovery_derived n i none = none
recovery_derived n i (some address) = recovery_listed n i address (n.unspent address)

-- the body of the loop; every failure is skipped
unfoldable pub recovery_at : Node → Bytes → ℕ → Option ChequeRecovery
unfolding recovery_derived
recovery_at n seed i = recovery_derived n i (n.address_at seed i)

abbrev pub appended : Option ChequeRecovery → List ChequeRecovery → List ChequeRecovery
appended none rs = rs
appended (some r) rs = r ∷ rs

-- the loop from index i on, with the rounds left
unfoldable pub scan_from : Node → Bytes → ℕ → ℕ → List ChequeRecovery
unfolding recovery_at
scan_from n seed zero i = []
scan_from n seed (suc rounds) i = appended (recovery_at n seed i) (scan_from n seed rounds (i + 1))

abbrev pub scanned : Node → ℕ → Option Bytes → Option (List ChequeRecovery)
unfolding scan_from
scanned n count none = none
scanned n count (some seed) = some (scan_from n seed (count % 2 ^ 32) 0)

-- none if the wallet has no seed
unfoldable pub scan_for_funds : Node → Bytes → ℕ → Option (List ChequeRecovery)
scan_for_funds n wallet_id count = scanned n count (n.wallet_seed wallet_id)

abbrev pub count_of : Option (List ChequeRecovery) → ℕ
count_of none = 0
count_of (some rs) = length rs

-- the number that is logged, of all wallets
unfoldable pub recover_cheques : Node → List Bytes → ℕ
unfolding scan_for_funds
recover_cheques n [] = 0
recover_cheques n (id ∷ ids) = count_of (scan_for_funds n id 20) + recover_cheques n ids
