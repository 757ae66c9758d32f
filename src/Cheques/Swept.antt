-- ===== src/Cheques/Swept.antt =====
-- What the transaction that sweeps a cheque spends and pays.
use drivechain_litwindow.Prelude.{
  ℕ, zero, suc, ◌+◌, ◌-◌, ◌≡◌, ◌<◌, refl, inl, inr, arith, Option, none, some, List, [], ◌∷◌, Bytes,
  leb, Bool-cases, Result, ok, err,
}
use drivechain_litwindow.Cheques.Sweep.{
  Unspent, TxIn, TxOut, SweepTx, SweepError, Btcd, required, and_then, total_sats, inputs_of,
  sweep_fee, pay_on, build_sweep_tx, parse_txid, witness_signature_failed, decode_wif_failed,
  source_address, source_script, destination_address, output_script, set_witness, sign_from,
  sign_sweep_tx,
}

-- The inputs spend the outputs, one each and in their order.
abbrev pub Spends : Btcd → List TxIn → List Unspent → Type 0
Spends b [] [] = Unit
Spends b [] (u ∷ us) = ⊥
Spends b (i ∷ is) [] = ⊥
Spends b (i ∷ is) (u ∷ us) =
    (b.new_hash_from_str u.txid ≡ some i.hash) × (i.vout ≡ u.vout) × Spends b is us

-- The only output holds what the inputs hold less the fee, which is more than nothing.
abbrev pub Pays : Btcd → SweepTx → List Unspent → ℕ → Type 0
Pays b tx us rate =
    Spends b tx.inputs us
    × ((o : TxOut) × (tx.outputs ≡ o ∷ [])
        × (0 < o.value)
        × (o.value + sweep_fee b us rate ≡ total_sats b 0 us))

abbrev pub OnOk : {A : Type 0} → (A → Type 0) → Result SweepError A → Type 0
OnOk P (ok a) = P a
OnOk P (err e) = Unit

OnOk-and_then :
    {A B : Type 0} (P : A → Type 0) (Q : B → Type 0) (x : Result SweepError A)
    (f : A → Result SweepError B)
    → OnOk P x
    → ((a : A) → P a → OnOk Q (f a))
    → OnOk Q (and_then x f)
OnOk-and_then P Q (ok a) f h g = g a h
OnOk-and_then P Q (err e) f h g = tt

-- a call of btcd first: it answers, or there is nothing to show
OnOk-required :
    {A B : Type 0} (Q : B → Type 0) (e : SweepError) (o : Option A) (f : A → Result SweepError B)
    → ((a : A) → o ≡ some a → OnOk Q (f a))
    → OnOk Q (and_then (required e o) f)
unfolding required
OnOk-required Q e none f h = tt
OnOk-required Q e (some a) f h = h a refl

module _ (b : Btcd) where
  inputs_of-Spends :
      (us : List Unspent) → OnOk (λ (is : List TxIn). Spends b is us) (inputs_of b us)
  unfolding inputs_of
  inputs_of-Spends [] = tt
  inputs_of-Spends (u ∷ us) =
      let Q : List TxIn → Type 0 = λ is. Spends b is (u ∷ us) in
      OnOk-required Q parse_txid (b.new_hash_from_str u.txid) _ (λ h e.
        OnOk-and_then (λ (is : List TxIn). Spends b is us) Q (inputs_of b us) _
          (inputs_of-Spends us) (λ is spent. (e, refl, spent)))

  set_witness-Spends :
      (n : ℕ) (w : List Bytes) (is : List TxIn) (us : List Unspent)
      → Spends b is us
      → Spends b (set_witness b n w is) us
  unfolding set_witness
  set_witness-Spends n w [] us h = h
  set_witness-Spends zero w (i ∷ is) [] h = absurd h
  set_witness-Spends (suc n) w (i ∷ is) [] h = absurd h
  set_witness-Spends zero w (i ∷ is) (u ∷ us) h = h
  set_witness-Spends (suc n) w (i ∷ is) (u ∷ us) (e, v, h) = (e, v, set_witness-Spends n w is us h)

  sign_from-Pays :
      (n : ℕ) (script key : Bytes) (us all : List Unspent) (rate : ℕ) (tx : SweepTx)
      → Pays b tx all rate
      → OnOk (λ (t : SweepTx). Pays b t all rate) (sign_from b n script key us tx)
  unfolding sign_from
  sign_from-Pays n script key [] all rate tx h = h
  sign_from-Pays n script key (u ∷ us) all rate tx (spent, paid) =
      OnOk-required (λ (t : SweepTx). Pays b t all rate) (witness_signature_failed n)
        (b.witness_signature tx n (b.to_sats u.amount) script key) _
        (λ w e.
          sign_from-Pays (suc n) script key us all rate
            (record tx { inputs = set_witness b n w tx.inputs })
            (set_witness-Spends n w tx.inputs all spent, paid))

  pub sign_sweep_tx-Pays :
      (tx : SweepTx) (wif source : Bytes) (us : List Unspent) (rate : ℕ)
      → Pays b tx us rate
      → OnOk (λ (t : SweepTx). Pays b t us rate) (sign_sweep_tx b tx wif source us)
  unfolding sign_sweep_tx
  sign_sweep_tx-Pays tx wif source us rate h =
      let Q : SweepTx → Type 0 = λ t. Pays b t us rate in
      OnOk-required Q decode_wif_failed (b.decode_wif wif) _ (λ key k.
        OnOk-required Q source_address (b.decode_address source) _ (λ addr a.
          OnOk-required Q source_script (b.pay_to_addr_script addr) _
            (λ script c. sign_from-Pays 0 script key us us rate tx h)))

  pub build_sweep_tx-Pays :
      (destination : Bytes) (us : List Unspent) (rate : ℕ)
      → OnOk (λ (t : SweepTx). Pays b t us rate) (build_sweep_tx b destination us rate)
  unfolding build_sweep_tx pay_on
  build_sweep_tx-Pays destination us rate =
      let Q : SweepTx → Type 0 = λ t. Pays b t us rate in
      let total = total_sats b 0 us in
      let fee = sweep_fee b us rate in
      elim (Bool-cases (leb total fee)) [
        | inl short ↦ rw short tt
        | inr enough ↦ rw enough (
            OnOk-required Q destination_address (b.decode_address destination) _ (λ addr a.
              OnOk-and_then (λ (is : List TxIn). Spends b is us) Q (inputs_of b us) _
                (inputs_of-Spends us)
                (λ is spent.
                  OnOk-required Q output_script (b.pay_to_addr_script addr) _ (λ script c. (
                    spent,
                    (
                      record { value = total - fee; pk_script = script },
                      refl,
                      ground arith,
                      ground arith,
                    ),
                  )))))
      ]
