-- ===== src/CoinSelection/Amounts.antt =====
-- The amounts of a selection, computed without a wrap-around.
use drivechain_litwindow.Prelude.{
  ℕ, zero, suc, ◌+◌, ◌-◌, ◌*◌, ◌≤◌, ◌≡◌, refl, ap, ◌∙◌, true, List, [], ◌∷◌, ◌++◌, length, arith,
}
use mathlib.Core.List.{Permᴰ}
use drivechain_litwindow.Int64.{
  i64_leb, IsNat63, i64_add_lem, i64_sub_lem, i64_mul_lem, i64_leb_lem,
}
use drivechain_litwindow.CoinSelection.{
  Utxo, CoinSelectionResult, outputs_of, vsize, estimate_fee, sum_from, result_for, needed_for,
}

-- The value of outputs, without a wrap-around.
abbrev pub value_of : List Utxo → ℕ
value_of [] = 0
value_of (u ∷ us) = u.value_sats + value_of us

-- The fee for so many inputs and outputs, without a wrap-around.
abbrev pub cost : ℕ → ℕ → ℕ → ℕ
cost outputs rate inputs = (10 + 68 * inputs + 31 * outputs) * rate

pub value_of-append : (xs ys : List Utxo) → value_of (xs ++ ys) ≡ value_of xs + value_of ys
value_of-append [] ys = omega arith
value_of-append (x ∷ xs) ys = omega (arith, value_of-append xs ys)

pub value_of-perm : {xs ys : List Utxo} → Permᴰ xs ys → value_of xs ≡ value_of ys
value_of-perm Permᴰ.nil = refl
value_of-perm (Permᴰ.cons e p) = omega (arith, ap (λ (u : Utxo). u.value_sats) e, value_of-perm p)
value_of-perm (Permᴰ.swap e f) =
    omega (arith, ap (λ (u : Utxo). u.value_sats) e, ap (λ (u : Utxo). u.value_sats) f)
value_of-perm (Permᴰ.trans p q) = value_of-perm p ∙ value_of-perm q

pub length-perm : {xs ys : List Utxo} → Permᴰ xs ys → length xs ≡ length ys
length-perm Permᴰ.nil = refl
length-perm (Permᴰ.cons e p) = ap suc (length-perm p)
length-perm (Permᴰ.swap e f) = refl
length-perm (Permᴰ.trans p q) = length-perm p ∙ length-perm q

pub sum_from_lem :
    (us : List Utxo) (acc : ℕ) → IsNat63 (acc + value_of us) → sum_from acc us ≡ acc + value_of us
unfolding sum_from
sum_from_lem [] acc h = omega arith
sum_from_lem (u ∷ us) acc h =
    rw (i64_add_lem acc u.value_sats (omega arith))
      (sum_from_lem us (acc + u.value_sats) (omega arith) ∙ omega arith)

mul_mono : (a b r : ℕ) → a ≤ b → a * r ≤ b * r
mul_mono a b zero h = omega arith
mul_mono a b (suc r) h = omega (arith, mul_mono a b r h)

module _ (outputs rate : ℕ) where
  pub cost_mono : (n m : ℕ) → n ≤ m → cost outputs rate n ≤ cost outputs rate m
  cost_mono n m h =
      mul_mono (10 + 68 * n + 31 * outputs) (10 + 68 * m + 31 * outputs) rate (omega arith)

  estimate_fee_lem :
      (num_outputs n : ℕ)
      → outputs_of num_outputs ≡ outputs
      → IsNat63 (10 + 68 * n + 31 * outputs)
      → IsNat63 (cost outputs rate n)
      → estimate_fee n num_outputs rate ≡ cost outputs rate n
  unfolding estimate_fee vsize
  estimate_fee_lem num_outputs n e h k =
      rw
        (
          e,
          i64_mul_lem n 68 (omega arith),
          i64_mul_lem outputs 31 (omega arith),
          i64_add_lem 10 (n * 68) (omega arith),
          i64_add_lem (10 + n * 68) (outputs * 31) (omega arith),
        )
        (let same_size : 10 + n * 68 + outputs * 31 ≡ 10 + 68 * n + 31 * outputs = omega arith in
          rw same_size (i64_mul_lem (10 + 68 * n + 31 * outputs) rate k))

-- No amount of a selection from `count` outputs worth `value` wraps around.
pub record IsSane (target outputs rate count value : ℕ) : Type 0 where
  pub size_fits : IsNat63 (10 + 68 * count + 31 * outputs)
  pub cost_fits : IsNat63 (target + cost outputs rate count)
  pub value_fits : IsNat63 value

-- A selection that pays the target and the fee of its own size, and gives the rest back.
pub record Pays (target outputs rate : ℕ) (r : CoinSelectionResult) : Type 0 where
  pub total : r.total_input_sats ≡ value_of r.selected_utxos
  pub fee : r.fee_sats ≡ cost outputs rate (length r.selected_utxos)
  pub balance : r.total_input_sats ≡ target + r.fee_sats + r.change_sats

module _ (target rate num_outputs outputs : ℕ) (e : outputs_of num_outputs ≡ outputs) where
  pub needed_lem :
      {count value : ℕ} (n : ℕ)
      → IsSane target outputs rate count value
      → n ≤ count
      → (estimate_fee n num_outputs rate ≡ cost outputs rate n)
        × (needed_for target rate num_outputs n ≡ target + cost outputs rate n)
        × IsNat63 (target + cost outputs rate n)
  unfolding needed_for
  needed_lem {count} n s h =
      let small = cost_mono outputs rate n count h in
      let fee =
        estimate_fee_lem outputs rate num_outputs n e (omega (arith, s.size_fits))
          (omega (arith, s.cost_fits, small)) in
      (
        fee,
        rw fee (i64_add_lem target (cost outputs rate n) (omega (arith, s.cost_fits, small))),
        omega (arith, s.cost_fits, small),
      )

  pub result_lem :
      {count value : ℕ} (us : List Utxo)
      → IsSane target outputs rate count value
      → length us ≤ count
      → IsNat63 (value_of us)
      → i64_leb (needed_for target rate num_outputs (length us)) (value_of us) ≡ true
      → Pays target outputs rate (result_for target rate num_outputs us (value_of us))
  unfolding result_for
  result_lem us s h k test =
      let (fee, need, fits) = needed_lem (length us) s h in
      let enough : target + cost outputs rate (length us) ≤ value_of us = ground (
        arith,
        i64_leb_lem (target + cost outputs rate (length us)) (value_of us) fits k,
        (let t : i64_leb (target + cost outputs rate (length us)) (value_of us) ≡ true =
              rw need at test in
            t),
      ) in
      record {
        total = refl;
        fee = fee;
        balance =
            rw
              (
                fee,
                i64_sub_lem (value_of us) target k (omega (arith, enough)),
                i64_sub_lem (value_of us - target) (cost outputs rate (length us))
                    (omega (arith, k)) (omega (arith, enough)),
              )
              (omega (arith, enough));
      }
