-- ===== src/Cheques/Index.antt =====
-- The next index of a wallet, and the index that all wallets share.
use drivechain_litwindow.Prelude.{
  ℕ, ◌-◌, ◌^◌, ◌≤◌, ◌<◌, ◌≡◌, refl, inl, inr, true, false, Option, none, some, List, [], ◌∷◌, Bytes,
  same, ltb, ◌==◌, if◌then◌else◌, some_item, arith, All, All_mono, Bool-cases, Option-cases, Result,
  ok, err,
}
use drivechain_litwindow.Database.{
  Driver, World, IsReliable, query, try_insert, insert_result, called, pure, ◌>>=◌,
}
use drivechain_litwindow.Cheques.{
  ChequeRow, Tables, ChequeError, create_failed, max_index, greater, index_after, is_taken,
  insert_cheque, is_empty,
}
use drivechain_litwindow.Cheques.Operations.{create_cheque, get_next_index}

bound :
    (i n : ℕ) (o : Option ℕ)
    → ((m : ℕ) → greater i o ≡ some m → m ≤ n)
    → (i ≤ n) × ((m : ℕ) → o ≡ some m → m ≤ n)
bound i n none h = (h i refl, λ m e. absurd (cc e))
bound i n (some k) h =
    let top = h (if ltb k i then i else k) refl in (ground (arith, top), λ m e. ground (arith, top))

covers :
    (wallet_id : Bytes) (rs : List ChequeRow) (n : ℕ)
    → ((m : ℕ) → max_index wallet_id rs ≡ some m → m ≤ n)
    → All (λ (r : ChequeRow). same r.wallet_id wallet_id ≡ true → r.derivation_index ≤ n) rs
unfolding max_index
covers wallet_id [] n h = tt
covers wallet_id (r ∷ rs) n h = elim (Bool-cases (same r.wallet_id wallet_id)) [
  | inl own ↦
      let (first, later) =
        bound r.derivation_index n (max_index wallet_id rs) (λ m e. h m (rw own e)) in
      (λ o. first, covers wallet_id rs n later)
  | inr other ↦ (λ o. absurd (cc (o, other)), covers wallet_id rs n (λ m e. h m (rw other e)))
]

none_owned :
    (wallet_id : Bytes) (rs : List ChequeRow)
    → max_index wallet_id rs ≡ none
    → All (λ (r : ChequeRow). same r.wallet_id wallet_id ≡ false) rs
unfolding max_index
none_owned wallet_id [] h = tt
none_owned wallet_id (r ∷ rs) h = elim (Bool-cases (same r.wallet_id wallet_id)) [
  | inl own ↦ absurd (never r.derivation_index (max_index wallet_id rs) (rw own at h))
  | inr other ↦ (other, none_owned wallet_id rs (rw other at h))
]
  where
    never : (i : ℕ) (o : Option ℕ) → greater i o ≡ none → ⊥
    never i none e = cc
    never i (some k) e = cc

-- Every index is below the last uint32 number.
abbrev pub AreSmall : List ChequeRow → Type 0
AreSmall rs = All (λ (r : ChequeRow). r.derivation_index < 2 ^ 32 - 1) rs

small_max :
    (wallet_id : Bytes) (rs : List ChequeRow) {n : ℕ}
    → AreSmall rs
    → max_index wallet_id rs ≡ some n
    → n < 2 ^ 32 - 1
unfolding max_index
small_max wallet_id [] s h = absurd (cc h)
small_max wallet_id (r ∷ rs) {n} (p, s) h = elim (Bool-cases (same r.wallet_id wallet_id)) [
  | inl own ↦ of_greater (max_index wallet_id rs) (λ m e. small_max wallet_id rs s e) (rw own at h)
  | inr other ↦ small_max wallet_id rs s (rw other at h)
]
  where
    of_greater :
        (o : Option ℕ)
        → ((m : ℕ) → o ≡ some m → m < 2 ^ 32 - 1)
        → greater r.derivation_index o ≡ some n
        → n < 2 ^ 32 - 1
    of_greater none k e = ground (arith, p)
    of_greater (some m) k e = let f : m < 2 ^ 32 - 1 = k m refl in ground (arith, p, f)

-- If `GetNextIndex` returns an index, every index of the wallet's cheques is below it, as long as no cheque has the last uint32 number as its index.
pub get_next_index-fresh :
    (d : Driver) (wallet_id : Bytes) (w : World Tables) {n : ℕ}
    → AreSmall w.tables.cheques
    → (get_next_index d wallet_id w).0 ≡ ok n
    → All
        (λ (r : ChequeRow). same r.wallet_id wallet_id ≡ true → r.derivation_index < n)
        w.tables.cheques
unfolding get_next_index query ◌>>=◌ pure index_after
get_next_index-fresh d wallet_id w {n} small h =
    let rs = w.tables.cheques in
    elim (Bool-cases (d.fails w.calls)) [
      | inl bad ↦ absurd (failed (rw bad at h))
      | inr good ↦ elim (Option-cases (max_index wallet_id rs)) [
        | inl no_cheque ↦
            All_mono (λ (r : ChequeRow). same r.wallet_id wallet_id ≡ false)
              (λ (r : ChequeRow). same r.wallet_id wallet_id ≡ true → r.derivation_index < n)
              (λ r other own. absurd (cc (other, own))) rs (none_owned wallet_id rs no_cheque)
        | inr (k, greatest) ↦
            let next = found (rw (good, greatest) at h) in
            let small_k = small_max wallet_id rs small greatest in
            All_mono (λ (r : ChequeRow). same r.wallet_id wallet_id ≡ true → r.derivation_index ≤ k)
              (λ (r : ChequeRow). same r.wallet_id wallet_id ≡ true → r.derivation_index < n)
              (λ r below own. omega (arith, below own, small_k, next)) rs
              (covers wallet_id rs k
                (λ m e. let same_k : m ≡ k = cc (e, greatest) in omega (arith, same_k)))
      ]
    ]
  where
    failed : {e : ChequeError} → (let x : Result ChequeError ℕ = err e in x) ≡ ok n → ⊥
    failed e = cc

    found : {k : ℕ} → (let x : Result ChequeError ℕ = ok k in x) ≡ ok n → k ≡ n
    found e = cc

no_index :
    (wallet_id : Bytes) (rs : List ChequeRow)
    → All (λ (r : ChequeRow). same r.wallet_id wallet_id ≡ false) rs
    → max_index wallet_id rs ≡ none
unfolding max_index
no_index wallet_id [] h = refl
no_index wallet_id (r ∷ rs) (p, h) = rw (p, no_index wallet_id rs h) refl

taken :
    (index : ℕ) (address : Bytes) (rs : List ChequeRow)
    → some_item (λ (r : ChequeRow). r.derivation_index == index) rs ≡ true
    → is_taken index address rs ≡ true
taken index address [] h = cc
taken index address (r ∷ rs) h = ground (arith, taken index address rs)

refused_insert :
    (d : Driver) (wallet_id : Bytes) (index expected : ℕ) (address : Bytes) (w : World Tables)
    → is_taken index address w.tables.cheques ≡ true
    → let x =
        try_insert d create_failed
          (λ now. insert_cheque wallet_id index expected address none none none now)
          w in
      (x.0 ≡ err create_failed) × (x.1.tables ≡ w.tables)
unfolding try_insert insert_cheque
refused_insert d wallet_id index expected address w h =
    let refused : insert_cheque wallet_id index expected address none none none (d.clock w.calls)
          w.tables
        ≡ none =
      rw h refl in
    rw refused (unfold insert_result in (refl, refl))

-- If no statement fails, a wallet with a name and without a cheque cannot create one for an address while any other wallet has a cheque with index 0: its next index is 0, the insert is refused, and nothing is stored.
pub create_cheque-taken :
    (d : Driver) (wallet_id : Bytes) (expected : ℕ) (address : Bytes) (w : World Tables)
    → IsReliable d
    → is_empty wallet_id ≡ false
    → is_empty address ≡ false
    → All (λ (r : ChequeRow). same r.wallet_id wallet_id ≡ false) w.tables.cheques
    → some_item (λ (r : ChequeRow). r.derivation_index == 0) w.tables.cheques ≡ true
    → ((get_next_index d wallet_id w).0 ≡ ok 0)
      × ((create_cheque d wallet_id 0 expected address (get_next_index d wallet_id w).1).0
          ≡ err create_failed)
      × ((create_cheque d wallet_id 0 expected address (get_next_index d wallet_id w).1).1.tables
          ≡ w.tables)
unfolding get_next_index create_cheque query ◌>>=◌ pure index_after
create_cheque-taken d wallet_id expected address w reliable named addressed own other =
    let refused =
      refused_insert d wallet_id 0 expected address (called w)
        (taken 0 address w.tables.cheques other) in
    rw (reliable w.calls, no_index wallet_id w.tables.cheques own, named, addressed)
      (refl, refused.0, refused.1)
