-- ===== src/CoinSelection.antt =====
-- litwindow/server/engines/coin_selection.go. An amount is an int64, as its bits; a map of outpoints
-- is a test of outpoints, false on a missing key.
pub mod Amounts
pub mod Balance
pub mod Members
pub mod Tests
use drivechain_litwindow.Prelude.{
  ℕ, suc, ◌+◌, ◌*◌, Bool, true, false, not, ◌&&◌, ◌||◌, List, [], ◌∷◌, ◌++◌, Bytes, length,
  if◌then◌else◌, Result, ok, err, ◌≡◌, keep, ltb,
}
use mathlib.Core.List.{Permᴰ}
use drivechain_litwindow.Int64.{i64_add, i64_sub, i64_mul, i64_leb, i64_ltb}

-- `walletpb.UnspentOutput`, as far as the selection reads it
pub record Utxo : Type 0 where
  pub output : Bytes
  pub value_sats : ℕ  -- uint64

-- `walletpb.CoinSelectionStrategy`, and the values with no name
pub data Strategy : Type 0 where
  unspecified largest_first smallest_first random : Strategy
  other : ℕ → Strategy

pub record CoinSelectionResult : Type 0 where
  pub selected_utxos : List Utxo
  pub total_input_sats : ℕ
  pub fee_sats : ℕ
  pub change_sats : ℕ

-- The two texts of the error, with their numbers.
pub data Message : Type 0 where
  are_frozen : ℕ → Message
  need_have : ℕ → ℕ → Message

pub record InsufficientFundsError : Type 0 where
  pub needed : ℕ
  pub available : ℕ
  pub frozen_amount : ℕ
  pub message : Message

abbrev pub input_vbytes : ℕ
input_vbytes = 68

abbrev pub output_vbytes : ℕ
output_vbytes = 31

abbrev pub overhead_vbytes : ℕ
overhead_vbytes = 10

-- `sort.Slice` and `rand.Shuffle`: neither fixes the order of its result (the sort is not stable).
pub record Reordering : Type 0 where
  pub sort_slice : (Utxo → Utxo → Bool) → List Utxo → List Utxo
  pub shuffle : List Utxo → List Utxo

pub record IsReordering (r : Reordering) : Type 0 where
  pub sorts : (less : Utxo → Utxo → Bool) (xs : List Utxo) → Permᴰ (r.sort_slice less xs) xs
  pub shuffles : (xs : List Utxo) → Permᴰ (r.shuffle xs) xs

unfoldable pub sort_by_strategy : Reordering → Strategy → List Utxo → List Utxo
sort_by_strategy r unspecified xs = r.sort_slice (λ a b. ltb b.value_sats a.value_sats) xs
sort_by_strategy r largest_first xs = r.sort_slice (λ a b. ltb b.value_sats a.value_sats) xs
sort_by_strategy r smallest_first xs = r.sort_slice (λ a b. ltb a.value_sats b.value_sats) xs
sort_by_strategy r random xs = r.shuffle xs
sort_by_strategy r (other n) xs = xs

-- no number of outputs is the destination and the change
unfoldable pub outputs_of : ℕ → ℕ
outputs_of num_outputs = if i64_ltb 0 num_outputs then num_outputs else 2

unfoldable pub vsize : ℕ → ℕ → ℕ
vsize input_count outputs =
    i64_add (i64_add overhead_vbytes (i64_mul input_count input_vbytes))
      (i64_mul outputs output_vbytes)

-- `EstimateFee`, and the closure of `SelectCoins`, which the caller's number of outputs has reached
unfoldable pub estimate_fee : ℕ → ℕ → ℕ → ℕ
unfolding vsize outputs_of
estimate_fee input_count num_outputs rate =
    i64_mul (vsize input_count (outputs_of num_outputs)) rate

-- the sum of an `int64` loop
unfoldable pub sum_from : ℕ → List Utxo → ℕ
sum_from acc [] = acc
sum_from acc (u ∷ us) = sum_from (i64_add acc u.value_sats) us

module _ (frozen required : Bytes → Bool) where
  -- the pools, by one pass over all outputs
  abbrev pub required_pool : List Utxo → List Utxo
  required_pool us = keep (λ (u : Utxo). required u.output) us

  abbrev pub available_pool : List Utxo → List Utxo
  available_pool us = keep (λ (u : Utxo). not (required u.output) && not (frozen u.output)) us

  abbrev pub frozen_pool : List Utxo → List Utxo
  frozen_pool us = keep (λ (u : Utxo). frozen u.output) us

module _ (target rate num_outputs : ℕ) where
  unfoldable pub result_for : List Utxo → ℕ → CoinSelectionResult
  unfolding estimate_fee
  result_for selected amount =
      let fee = estimate_fee (length selected) num_outputs rate in
      record {
        selected_utxos = selected;
        total_input_sats = amount;
        fee_sats = fee;
        change_sats = i64_sub (i64_sub amount target) fee;
      }

  -- what is needed with as many inputs
  unfoldable pub needed_for : ℕ → ℕ
  unfolding estimate_fee
  needed_for count = i64_add target (estimate_fee count num_outputs rate)

  -- the loop over the available outputs; without enough, the amount and what was needed last
  unfoldable pub add_utxos : List Utxo → ℕ → ℕ → List Utxo → Result (ℕ × ℕ) CoinSelectionResult
  unfolding result_for needed_for
  add_utxos selected amount needed [] = err (amount, needed)
  add_utxos selected amount needed (u ∷ us) =
      let next = selected ++ u ∷ [] in
      let sum = i64_add amount u.value_sats in
      let later = add_utxos next sum (needed_for (length next)) us in
      if i64_leb (needed_for (length next)) sum then ok (result_for next sum) else later

  -- the required outputs, and the loop if they do not suffice
  unfoldable pub pick : List Utxo → List Utxo → Result (ℕ × ℕ) CoinSelectionResult
  unfolding add_utxos sum_from result_for needed_for
  pick required ordered =
      let amount = sum_from 0 required in
      let needed = needed_for (length required) in
      if i64_leb needed amount
      then ok (result_for required amount)
      else add_utxos required amount needed ordered

unfoldable pub message_for : ℕ → ℕ → ℕ → Message
message_for available needed total_frozen =
    if i64_ltb 0 total_frozen && i64_leb needed (i64_add available total_frozen)
    then are_frozen total_frozen
    else need_have needed available

unfoldable pub explain :
    ℕ → Result (ℕ × ℕ) CoinSelectionResult → Result InsufficientFundsError CoinSelectionResult
unfolding message_for
explain total_frozen (ok result) = ok result
explain total_frozen (err (available, needed)) = err (record {
  needed = needed;
  available = available;
  frozen_amount = total_frozen;
  message = message_for available needed total_frozen;
})

unfoldable pub select_coins :
    Reordering
    → List Utxo
    → (Bytes → Bool)
    → ℕ
    → ℕ
    → ℕ
    → Strategy
    → (Bytes → Bool)
    → Result InsufficientFundsError CoinSelectionResult
unfolding pick explain sum_from sort_by_strategy
select_coins r all frozen target rate num_outputs strategy required =
    explain (sum_from 0 (frozen_pool frozen required all)) (
      pick target rate num_outputs (required_pool frozen required all)
        (sort_by_strategy r strategy (available_pool frozen required all)))
