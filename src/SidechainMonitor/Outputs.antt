-- ===== src/SidechainMonitor/Outputs.antt =====
-- Which output counts as the payment of a fast withdrawal.
use drivechain_litwindow.Prelude.{
  ℕ, ◌+◌, ◌*◌, ◌<◌, ◌≡◌, ◌≢◌, refl, true, Option, none, some, List, [], ◌∷◌, Bytes, codes,
  eq_of_same, arith, Bool-cases, Option-cases, inl, inr,
}
use mathlib.Core.List.{Memᴰ}
use drivechain_litwindow.Int64.{IsNat63, i64_mul, i64_leb, i64_mul_lem, i64_div_lem}
use drivechain_litwindow.SidechainMonitor.Json.{
  Json, text, number, RawMessage, Fields, get_field, as_text, as_number, float_to_int64,
  float_to_int64-lt, unmarshal_maps,
}
use drivechain_litwindow.SidechainMonitor.Payments.{
  least_amount, has_amount, has_address, paid_by, first_paid, txid_or, find_in_parsed,
  find_in_utxos,
}

-- An output pays an amount to an address in a transaction: its amount, rounded down to a whole number, is 95 hundredths of the amount at least, less one satoshi.
pub record Pays (address : Bytes) (expected : ℕ) (txid : Bytes) (utxo : Fields) : Type 0 where
  pub to_address : get_field (codes "address") utxo ≡ some (text address)
  pub bits : ℕ
  pub is_amount : get_field (codes "amount") utxo ≡ some (number bits)
  pub is_positive : IsNat63 (float_to_int64 bits)
  pub enough : 95 * expected < 100 * (float_to_int64 bits + 1)
  pub in_transaction : get_field (codes "txid") utxo ≡ some (text txid)

pub as_text-some : (o : Option Json) (s : Bytes) → as_text o ≡ some s → o ≡ some (text s)
unfolding as_text
as_text-some o s h = ground arith

pub as_number-some : (o : Option Json) (n : ℕ) → as_number o ≡ some n → o ≡ some (number n)
unfolding as_number
as_number-some o s h = ground arith

has_address-eq :
    (address : Bytes) (o : Option Bytes) → has_address address o ≡ true → o ≡ some address
unfolding has_address
has_address-eq address none h = cc
has_address-eq address (some a) h = cc (eq_of_same a address h)

-- whether an amount is enough, for an amount that is not out of range
has_amount_lem :
    (expected : ℕ) (o : Option ℕ)
    → IsNat63 (expected * 95)
    → has_amount expected o ≡ true
    → (bits : ℕ) × (o ≡ some bits)
      × IsNat63 (float_to_int64 bits)
      × (95 * expected < 100 * (float_to_int64 bits + 1))
unfolding has_amount least_amount i64_leb
has_amount_lem expected none small h = cc
has_amount_lem expected (some bits) small h = (
  bits,
  refl,
  ground (
    arith,
    i64_mul_lem expected 95,
    i64_div_lem (i64_mul expected 95) 100,
    float_to_int64-lt bits,
  ),
  ground (
    arith,
    i64_mul_lem expected 95,
    i64_div_lem (i64_mul expected 95) 100,
    float_to_int64-lt bits,
  ),
)

paid_by-Pays :
    (address : Bytes) (expected : ℕ) (utxo : Fields) (txid : Bytes)
    → IsNat63 (expected * 95)
    → paid_by address expected utxo ≡ some txid
    → Pays address expected txid utxo
unfolding paid_by
paid_by-Pays address expected utxo txid small h =
    elim (Bool-cases (has_address address (as_text (get_field (codes "address") utxo)))) [
      | inr e ↦ absurd (ground (arith))
      | inl to ↦
          elim (Bool-cases (has_amount expected (as_number (get_field (codes "amount") utxo)))) [
            | inr e ↦ absurd (ground (arith))
            | inl much ↦
                let (bits, e, small', enough) =
                  has_amount_lem expected (as_number (get_field (codes "amount") utxo)) small
                    much in
                record {
                  to_address = as_text-some _ address (has_address-eq address _ to);
                  bits = bits;
                  is_amount = as_number-some _ bits e;
                  is_positive = small';
                  enough = enough;
                  in_transaction = as_text-some _ txid (ground arith);
                }
          ]
    ]

first_paid-Pays :
    (address : Bytes) (expected : ℕ) (utxos : List Fields)
    → IsNat63 (expected * 95)
    → first_paid address expected utxos ≢ []
    → (utxo : Fields) × Memᴰ utxo utxos
      × Pays address expected (first_paid address expected utxos) utxo
unfolding first_paid txid_or
first_paid-Pays address expected [] small h = absurd (h refl)
first_paid-Pays address expected (u ∷ us) small h =
    elim (Option-cases (paid_by address expected u)) [
      | inr paid ↦
          (u, Memᴰ.head refl, rw (paid.1) (paid_by-Pays address expected u paid.0 small paid.1))
      | inl other ↦
          let (v, m, pays) = first_paid-Pays address expected us small (rw other at h) in
          (v, Memᴰ.tail m, rw other pays)
    ]

-- A transaction that is taken for the payment of a fast withdrawal has an output among the unspent outputs that the sidechain answered, to the server's address, with 95 hundredths of the amount at least, less one satoshi. The amount is one that 95 times an int64 holds.
pub find_in_utxos-Pays :
    (address : Bytes) (expected : ℕ) (raw : RawMessage)
    → IsNat63 (expected * 95)
    → find_in_utxos address expected (some raw) ≢ []
    → (utxos : List Fields) × (unmarshal_maps raw ≡ some utxos)
      × ((utxo : Fields) × Memᴰ utxo utxos
          × Pays address expected (find_in_utxos address expected (some raw)) utxo)
unfolding find_in_utxos find_in_parsed
find_in_utxos-Pays address expected raw small h = elim (Option-cases (unmarshal_maps raw)) [
  | inl bad ↦ absurd (rw bad at h refl)
  | inr good ↦ (
    good.0,
    good.1,
    rw (good.1) (first_paid-Pays address expected good.0 small (rw (good.1) at h)),
  )
]
