-- ===== src/CoinSelection/Tests.antt =====
-- Examples for the selection of coins.
use mathlib.Core.List.{Memᴰ}
use mathlib.Core.List.Permᴰ
use drivechain_litwindow.Prelude.{
  ℕ, ◌≡◌, refl, ◌⊎◌, Bool, true, false, List, [], ◌∷◌, Bytes, ok, arith, same,
}
use drivechain_litwindow.Int64.{i64_add, i64_sub, i64_mul, i64_leb, i64_ltb}
use drivechain_litwindow.CoinSelection.{
  Utxo, largest_first, CoinSelectionResult, Reordering, IsReordering, outputs_of, select_coins,
}
use drivechain_litwindow.CoinSelection.Amounts.{value_of, IsSane}
use drivechain_litwindow.CoinSelection.Balance.{spendable, Verdict, select_coins-Verdict}
use drivechain_litwindow.CoinSelection.Members.{select_coins-members}

-- A sort and a shuffle that leave the order as it is.
abbrev lazy : Reordering
lazy = record { sort_slice = λ less xs. xs; shuffle = λ xs. xs }

lazy-IsReordering : IsReordering lazy
lazy-IsReordering = record { sorts = λ less xs. Permᴰ.refl xs; shuffles = λ xs. Permᴰ.refl xs }

abbrev coin : ℕ → ℕ → Utxo
coin n value = record { output = n ∷ []; value_sats = value }

abbrev coins : List Utxo
coins = coin 1 5000 ∷ coin 2 70000 ∷ coin 3 20000 ∷ coin 4 9000 ∷ []

abbrev is_coin : ℕ → Bytes → Bool
is_coin n output = same output (n ∷ [])

coins-IsSane : IsSane 20000 (outputs_of 2) 10 4 (value_of coins)
unfolding outputs_of i64_ltb
coins-IsSane = record { size_fits = omega arith; cost_fits = omega arith; value_fits = omega arith }

-- Coin 2 is frozen, and coin 4 is required.
abbrev chosen : CoinSelectionResult
chosen = record {
  selected_utxos = coin 4 9000 ∷ coin 1 5000 ∷ coin 3 20000 ∷ [];
  total_input_sats = 34000;
  fee_sats = 2760;
  change_sats = 11240;
}

select_coins_test :
    select_coins lazy coins (is_coin 2) 20000 10 2 largest_first (is_coin 4) ≡ ok chosen
unfolding select_coins i64_add i64_sub i64_mul i64_leb i64_ltb same
select_coins_test = refl

select_coins-Verdict_example :
    Verdict 20000
      (outputs_of 2)
      10
      (spendable (is_coin 2) (is_coin 4) coins)
      (select_coins lazy coins (is_coin 2) 20000 10 2 largest_first (is_coin 4))
select_coins-Verdict_example =
    select_coins-Verdict lazy coins (is_coin 2) 20000 10 2 largest_first (is_coin 4)
      lazy-IsReordering coins-IsSane

select_coins-members_example :
    (Memᴰ (coin 4 9000) chosen.selected_utxos
      → Memᴰ (coin 4 9000) coins × ((is_coin 4 (4 ∷ []) ≡ true) ⊎ (is_coin 2 (4 ∷ []) ≡ false)))
    × (Memᴰ (coin 4 9000) coins
        → is_coin 4 (4 ∷ []) ≡ true
        → Memᴰ (coin 4 9000) chosen.selected_utxos)
select_coins-members_example =
    select_coins-members lazy coins (is_coin 2) 20000 10 2 largest_first (is_coin 4) (coin 4 9000)
      lazy-IsReordering select_coins_test
