-- ===== src/CoinSelection/Balance.antt =====
-- What `SelectCoins` pays, and when it has not enough.
use drivechain_litwindow.Prelude.{
  ℕ, ◌+◌, ◌≤◌, ◌<◌, ◌≡◌, refl, sym, ◌∙◌, inl, inr, Bool, false, not, ◌||◌, List, [], ◌∷◌, ◌++◌,
  Bytes, length, Result, ok, err, keep, ltb, arith, Bool-cases, length-append,
}
use mathlib.Core.List.{Permᴰ}
use mathlib.Core.List.Permᴰ
use drivechain_litwindow.Int64.{i64_add, i64_leb, IsNat63, i64_add_lem, i64_leb_lem}
use drivechain_litwindow.CoinSelection.{
  Utxo, Strategy, CoinSelectionResult, InsufficientFundsError, Reordering, IsReordering,
  sort_by_strategy, outputs_of, sum_from, required_pool, available_pool, frozen_pool, needed_for,
  add_utxos, pick, explain, select_coins, unspecified, largest_first, smallest_first, random, other,
}
use drivechain_litwindow.CoinSelection.Amounts.{
  value_of, cost, value_of-append, value_of-perm, length-perm, sum_from_lem, cost_mono, IsSane,
  Pays, needed_lem, result_lem,
}

module _ (target rate num_outputs outputs : ℕ) (e : outputs_of num_outputs ≡ outputs) where
  -- What a selection from `count` outputs worth `value` comes to.
  abbrev Outcome : ℕ → ℕ → Result (ℕ × ℕ) CoinSelectionResult → Type 0
  Outcome count value (ok r) = Pays target outputs rate r
  Outcome count value (err (available, needed)) =
      (available ≡ value) × (needed ≡ target + cost outputs rate count) × (available < needed)

  add_utxos-Outcome :
      (count value : ℕ) (selected us : List Utxo) (needed : ℕ)
      → IsSane target outputs rate count value
      → count ≡ length selected + length us
      → value ≡ value_of selected + value_of us
      → needed ≡ target + cost outputs rate (length selected)
      → value_of selected < needed
      → Outcome count value
          (add_utxos target rate num_outputs selected (value_of selected) needed us)
  unfolding add_utxos
  add_utxos-Outcome count value selected [] needed s c v need short =
      let same_count : count ≡ length selected = omega (arith, c) in
      (omega (arith, v), rw same_count need, short)
  add_utxos-Outcome count value selected (u ∷ us) needed s c v need short =
      let next = selected ++ u ∷ [] in
      let size : length next ≡ length selected + 1 = length-append selected (u ∷ []) in
      let sum : value_of next ≡ value_of selected + u.value_sats =
        omega (arith, value_of-append selected (u ∷ [])) in
      let added : i64_add (value_of selected) u.value_sats ≡ value_of next =
        i64_add_lem (value_of selected) u.value_sats (omega (arith, s.value_fits, v)) ∙ sym sum in
      let (fee, need', fits) =
        needed_lem target rate num_outputs outputs e (length next) s (omega (arith, c, size)) in
      let small : IsNat63 (value_of next) = omega (arith, s.value_fits, v, sum) in
      rw added
        (elim (Bool-cases
          (i64_leb (needed_for target rate num_outputs (length next)) (value_of next))) [
            | inl enough ↦ rw enough (
                result_lem target rate num_outputs outputs e next s (omega (arith, c, size)) small
                  enough)
            | inr more ↦ rw more (
                add_utxos-Outcome count value next us
                  (needed_for target rate num_outputs (length next)) s (omega (arith, c, size))
                  (omega (arith, v, sum)) need'
                  (ground (
                    arith,
                    need',
                    i64_leb_lem (target + cost outputs rate (length next)) (value_of next) fits
                        small,
                    (let t : i64_leb (target + cost outputs rate (length next)) (value_of next)
                            ≡ false =
                          rw need' at more in
                        t),
                  )))
          ])

  pick-Outcome :
      (required ordered : List Utxo)
      → IsSane target outputs rate
          (length required + length ordered)
          (value_of required + value_of ordered)
      → Outcome
          (length required + length ordered)
          (value_of required + value_of ordered)
          (pick target rate num_outputs required ordered)
  unfolding pick
  pick-Outcome required ordered s =
      let count = length required + length ordered in
      let value = value_of required + value_of ordered in
      let small : IsNat63 (value_of required) = omega (arith, s.value_fits) in
      let (fee, need, fits) =
        needed_lem target rate num_outputs outputs e (length required) s (omega arith) in
      let all : sum_from 0 required ≡ value_of required =
        sum_from_lem required 0 (omega (arith, small)) ∙ omega arith in
      rw all
        (elim (Bool-cases
          (i64_leb (needed_for target rate num_outputs (length required)) (value_of required))) [
            | inl enough ↦
                rw enough (
                  result_lem target rate num_outputs outputs e required s (omega arith) small
                    enough)
            | inr more ↦ rw more (
                add_utxos-Outcome count value required ordered
                  (needed_for target rate num_outputs (length required)) s refl refl need
                  (ground (
                    arith,
                    need,
                    i64_leb_lem (target + cost outputs rate (length required)) (value_of required)
                        fits small,
                    (let t : i64_leb (target + cost outputs rate (length required))
                              (value_of required)
                            ≡ false =
                          rw need at more in
                        t),
                  )))
          ])

-- The outputs that a selection may spend.
abbrev pub spendable : (Bytes → Bool) → (Bytes → Bool) → List Utxo → List Utxo
spendable frozen required us = keep (λ (u : Utxo). required u.output || not (frozen u.output)) us

module _ (frozen required : Bytes → Bool) where
  pools_lem :
      (us : List Utxo)
      → (length (required_pool frozen required us) + length (available_pool frozen required us)
          ≡ length (spendable frozen required us))
        × (value_of (required_pool frozen required us)
              + value_of (available_pool frozen required us)
            ≡ value_of (spendable frozen required us))
        × (length (spendable frozen required us) ≤ length us)
        × (value_of (spendable frozen required us) ≤ value_of us)
  pools_lem [] = (omega arith, omega arith, omega arith, omega arith)
  pools_lem (u ∷ us) = ground (arith, pools_lem us)

pub sort_by_strategy-perm :
    (r : Reordering)
    → IsReordering r
    → (strategy : Strategy) (us : List Utxo) → Permᴰ (sort_by_strategy r strategy us) us
unfolding sort_by_strategy
sort_by_strategy-perm r h unspecified us = h.sorts (λ a b. ltb b.value_sats a.value_sats) us
sort_by_strategy-perm r h largest_first us = h.sorts (λ a b. ltb b.value_sats a.value_sats) us
sort_by_strategy-perm r h smallest_first us = h.sorts (λ a b. ltb a.value_sats b.value_sats) us
sort_by_strategy-perm r h random us = h.shuffles us
sort_by_strategy-perm r h (other n) us = Permᴰ.refl us

IsSane-mono :
    (target outputs rate : ℕ) {count value : ℕ} (n v : ℕ)
    → IsSane target outputs rate count value
    → n ≤ count
    → v ≤ value
    → IsSane target outputs rate n v
IsSane-mono target outputs rate {count} n v s h k = record {
  size_fits = omega (arith, s.size_fits);
  cost_fits = omega (arith, s.cost_fits, cost_mono outputs rate n count h);
  value_fits = omega (arith, s.value_fits);
}

-- What `SelectCoins` comes to, its result or its error.
abbrev pub Verdict :
    ℕ → ℕ → ℕ → List Utxo → Result InsufficientFundsError CoinSelectionResult → Type 0
Verdict target outputs rate pool (ok r) = Pays target outputs rate r
Verdict target outputs rate pool (err e) =
    (e.available ≡ value_of pool)
    × (e.needed ≡ target + cost outputs rate (length pool))
    × (e.available < e.needed)

explained :
    (target rate num_outputs total_frozen : ℕ) (pool : List Utxo)
    (x : Result (ℕ × ℕ) CoinSelectionResult)
    → Outcome target rate num_outputs (outputs_of num_outputs) refl (length pool) (value_of pool) x
    → Verdict target (outputs_of num_outputs) rate pool (explain total_frozen x)
unfolding explain
explained target rate num_outputs total_frozen pool (ok r) h = h
explained target rate num_outputs total_frozen pool (err e) h = h

-- If no amount wraps around and the sort and the shuffle only reorder, the selected outputs pay the target, the fee for exactly their number, and the change; and where `SelectCoins` reports insufficient funds, all outputs that are required or not frozen together are worth less than the target and the fee for spending them all, and these are the two amounts of the error.
pub select_coins-Verdict :
    (r : Reordering) (all : List Utxo) (frozen : Bytes → Bool) (target rate num_outputs : ℕ)
    (strategy : Strategy) (required : Bytes → Bool)
    → IsReordering r
    → IsSane target (outputs_of num_outputs) rate (length all) (value_of all)
    → Verdict target
        (outputs_of num_outputs)
        rate
        (spendable frozen required all)
        (select_coins r all frozen target rate num_outputs strategy required)
unfolding select_coins
select_coins-Verdict r all frozen target rate num_outputs strategy required reorders s =
    let must = required_pool frozen required all in
    let may = available_pool frozen required all in
    let pool = spendable frozen required all in
    let ordered = sort_by_strategy r strategy may in
    let p = sort_by_strategy-perm r reorders strategy may in
    let (count, value, fewer, less) = pools_lem frozen required all in
    let count' : length must + length ordered ≡ length pool = omega (arith, length-perm p, count) in
    let value' : value_of must + value_of ordered ≡ value_of pool =
      omega (arith, value_of-perm p, value) in
    let s' =
      IsSane-mono target (outputs_of num_outputs) rate (length must + length ordered)
        (value_of must + value_of ordered) s (omega (arith, count')) (omega (arith, value')) in
    explained target rate num_outputs (sum_from 0 (frozen_pool frozen required all)) pool
      (pick target rate num_outputs must ordered)
      (rw (sym count', sym value')
        (pick-Outcome target rate num_outputs (outputs_of num_outputs) refl must ordered s'))
