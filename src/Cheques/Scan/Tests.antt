-- ===== src/Cheques/Scan/Tests.antt =====
-- A scan of three addresses, one of which has an output.
use mathlib.Core.List.{Memᴰ}
use drivechain_litwindow.Prelude.{
  ℕ, ◌≡◌, ◌<◌, refl, arith, none, some, List, [], ◌∷◌, Bytes, same, if◌then◌else◌,
}
use drivechain_litwindow.Cheques.Sweep.{Unspent}
use drivechain_litwindow.Cheques.Scan.{
  ChequeRecovery, Node, recovery_of, recovery_listed, recovery_derived, recovery_at, scan_from,
  scanned, scan_for_funds,
}
use drivechain_litwindow.Cheques.Scan.Found.{IsRecovery, scan_for_funds-Finds}

abbrev output : Unspent
output = record { txid = 0x0F ∷ []; vout = 1; amount = 6000; confirmations = 0 }

-- a node on which only the address of index 1 has an output
abbrev node : Node
node = record {
  wallet_seed = λ wallet_id. some (0x05 ∷ []);
  address_at = λ seed index. some (index ∷ []);
  unspent = λ address. if same address (1 ∷ []) then some (output ∷ []) else none;
  sats_of_sum = λ ns. 6000;
}

abbrev recovery : ChequeRecovery
recovery = record { index = 1; address = 1 ∷ []; amount = 6000; txid = 0x0F ∷ [] }

one_found : scan_for_funds node (0x01 ∷ []) 3 ≡ some (recovery ∷ [])
unfolding scan_for_funds scanned scan_from recovery_at recovery_derived recovery_listed recovery_of
    same
one_found = refl

scan_for_funds-Finds_example :
    (seed : Bytes) × (node.wallet_seed (0x01 ∷ []) ≡ some seed)
    × ((r : ChequeRecovery) → Memᴰ r (recovery ∷ []) → (r.index < 3) × IsRecovery node seed r)
    × ((i : ℕ) (address : Bytes) (u : Unspent) (us : List Unspent)
        → i < 3
        → node.address_at seed i ≡ some address
        → node.unspent address ≡ some (u ∷ us)
        → (r : ChequeRecovery) × Memᴰ r (recovery ∷ []) × (r.index ≡ i))
scan_for_funds-Finds_example = scan_for_funds-Finds node (0x01 ∷ []) 3 (omega arith) one_found
