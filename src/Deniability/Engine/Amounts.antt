-- ===== src/Deniability/Engine/Amounts.antt =====
-- How much a hop sends.
use drivechain_litwindow.Prelude.{
  ℕ, zero, suc, ◌+◌, ◌-◌, ◌*◌, ◌/◌, ◌%◌, ◌^◌, ◌≤◌, ◌<◌, ◌≡◌, List, [], ◌∷◌, Bytes, arith, Option,
  none, some, Result, ok, err, get_or, length,
}
use drivechain_litwindow.Prelude.Int.{pos}
use drivechain_litwindow.Int64.{i64_sub, i64_mul}
use drivechain_litwindow.Deniability.{Denial}
use drivechain_litwindow.Deniability.Engine.{
  Output, WalletType, EngineError, Wallets, fee, split_amount, target_amount, pay_to, address_for,
  simple_split, target_amount_split, target_of, split_by, choose_denial_strategy,
}

mul_le : (a m n : ℕ) → m ≤ n → a * m ≤ a * n
mul_le zero m n h = omega arith
mul_le (suc a) m n h = omega (arith, mul_le a m n h)

share : (a m : ℕ) → m ≤ 100 → (a * m) % 2 ^ 64 / 100 ≤ a
share a m h = omega (arith, mul_le a m 100 h)

split_amount-bounded :
    (value random : ℕ)
    → fee ≤ value
    → value < 2 ^ 64
    → random < 80
    → split_amount value random + fee ≤ value
unfolding split_amount i64_sub i64_mul
split_amount-bounded value random h k r =
    let available : (value + (2 ^ 64 - 10000 % 2 ^ 64)) % 2 ^ 64 ≡ value - 10000 =
      omega (arith, h, k) in
    rw available (omega (arith, h, share (value - 10000) (10 + random) (omega (arith, r))))

target_amount-bounded :
    (value target : ℕ) → fee ≤ value → value < 2 ^ 64 → target_amount value target + fee ≤ value
unfolding target_amount i64_sub
target_amount-bounded value target h k = ground arith

pay_to-amount :
    (a : Result EngineError Bytes) (amount : ℕ) {dest : List (Bytes × ℕ)}
    → pay_to a amount ≡ ok dest
    → (address : Bytes) × (dest ≡ (address, amount) ∷ [])
pay_to-amount (ok a) amount h = (a, cc)
pay_to-amount (err e) amount h = absurd (cc h)

split_by-bounded :
    (ws : Wallets) (u : Output) (t : WalletType) (id : Bytes) (target : Option ℕ)
    {dest : List (Bytes × ℕ)}
    → fee ≤ u.value_sats
    → u.value_sats < 2 ^ 64
    → ws.random < 80
    → split_by ws u t id target ≡ ok dest
    → (address : Bytes) × (amount : ℕ) × (dest ≡ (address, amount) ∷ [])
      × (amount + fee ≤ u.value_sats)
unfolding split_by simple_split target_amount_split
split_by-bounded ws u t id none h k r p =
    let amount = split_amount u.value_sats ws.random in
    let (a, e) = pay_to-amount (address_for ws t id) amount p in
    (a, amount, e, split_amount-bounded u.value_sats ws.random h k r)
split_by-bounded ws u t id (some n) h k r p =
    let amount = target_amount u.value_sats n in
    let (a, e) = pay_to-amount (address_for ws t id) amount p in
    (a, amount, e, target_amount-bounded u.value_sats n h k)

-- The hop of an output that is worth the fee pays one address, an amount that leaves the fee, whatever size the plan asks for, if the value is a uint64 and the random number is below 80.
pub choose_denial_strategy-bounded :
    (ws : Wallets) (denial : Denial) (u : Output) (t : WalletType) (id : Bytes)
    {dest : List (Bytes × ℕ)}
    → fee ≤ u.value_sats
    → u.value_sats < 2 ^ 64
    → ws.random < 80
    → choose_denial_strategy ws denial u t id ≡ ok dest
    → (address : Bytes) × (amount : ℕ) × (dest ≡ (address, amount) ∷ [])
      × (amount + fee ≤ u.value_sats)
unfolding choose_denial_strategy
choose_denial_strategy-bounded ws denial u t id =
    split_by-bounded ws u t id
      (target_of (get_or denial.target_utxo_sizes (length denial.executed_denials) (pos 0)))
