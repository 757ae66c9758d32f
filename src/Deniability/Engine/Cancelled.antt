-- ===== src/Deniability/Engine/Cancelled.antt =====
-- Which plans a round cancels.
use mathlib.Core.List.{Memᴰ}
use drivechain_litwindow.Prelude.{
  ℕ, zero, suc, ◌≡◌, ◌≢◌, refl, ap, inl, inr, ◌⊎◌, true, Option, some, List, [], ◌∷◌, map, Bytes,
  none, false, sym, same, same_refl, eq_of_same, some_item, not, Bool, get_elem?, arith, All,
  Bool-cases, Result, ok, err,
}
use drivechain_litwindow.Database.{Driver, World, pure}
use drivechain_litwindow.Database.Loops.{for_each-keeps, for_each-establishes}
use drivechain_litwindow.Deniability.{Denial, is_none, to_int32}
use drivechain_litwindow.Deniability.Store.{DenialRow, Tables, StoreError, cancel_failed, not_found}
use drivechain_litwindow.Deniability.Store.Tip.{same_ℤ_refl}
use drivechain_litwindow.Deniability.Store.Operations.{cancel}
use drivechain_litwindow.Deniability.Store.Lifecycle.{updated, failed, failed_state, cancelled_row}
use drivechain_litwindow.Deniability.Engine.{Output, Wallets, is_tip, wallet_of}
use drivechain_litwindow.Deniability.Engine.Round.{
  lookup, is_gone, cancel_one, cancel_if_utxo_is_gone, stored, moved, wrap,
}

-- After `Cancel` the tables are as before, or the plan's rows are cancelled.
cancel_rows :
    (d : Driver) (id : ℕ) (reason : Bytes) (w : World Tables)
    → (((cancel d id reason w).0 ≡ err cancel_failed)
        × ((cancel d id reason w).1.tables ≡ w.tables))
      ⊎ ((cancel d id reason w).1.tables.denials
          ≡ map (cancelled_row id (d.clock w.calls) reason) w.tables.denials)
unfolding cancel
cancel_rows d id reason w = elim (Bool-cases (d.fails w.calls)) [
  | inl bad ↦
      inl (failed d cancel_failed not_found _ w bad, failed_state d cancel_failed not_found _ w bad)
  | inr good ↦ inr (ap (λ (t : Tables). t.denials) (updated d cancel_failed not_found _ w good))
]

wrap-ok : (x : Result StoreError (Unit {0}) × World Tables) → (wrap x).0 ≡ ok tt → x.0 ≡ ok tt
wrap-ok (ok tt, w) h = refl
wrap-ok (err e, w) h = absurd (cc h)

pub wrap_state : (x : Result StoreError (Unit {0}) × World Tables) → (wrap x).1 ≡ x.1
wrap_state (ok a, w) = refl
wrap_state (err e, w) = refl

-- The row in a place of the table, and a test on all rows with an id.
abbrev RowAt : ℕ → DenialRow → Tables → Type 0
RowAt k r t = get_elem? t.denials k ≡ some r

abbrev pub AreCancelled : ℕ → Tables → Type 0
AreCancelled id t = All (λ (r : DenialRow). r.id ≡ id → is_none r.cancelled_at ≡ false) t.denials

map_other :
    (id now k : ℕ) (reason : Bytes) (rs : List DenialRow) {r : DenialRow}
    → get_elem? rs k ≡ some r
    → id ≢ r.id
    → get_elem? (map (cancelled_row id now reason) rs) k ≡ some r
map_other id now k reason [] h other = cc
map_other id now zero reason (x ∷ rs) h other = ground arith
map_other id now (suc k) reason (x ∷ rs) h other = map_other id now k reason rs h other

cancelled_now :
    (id now : ℕ) (reason : Bytes) (rs : List DenialRow)
    → All
        (λ (r : DenialRow). r.id ≡ id → is_none r.cancelled_at ≡ false)
        (map (cancelled_row id now reason) rs)
cancelled_now id now reason [] = tt
cancelled_now id now reason (r ∷ rs) = (λ h. ground arith, cancelled_now id now reason rs)

still_cancelled :
    (id other now : ℕ) (reason : Bytes) (rs : List DenialRow)
    → All (λ (r : DenialRow). r.id ≡ id → is_none r.cancelled_at ≡ false) rs
    → All
        (λ (r : DenialRow). r.id ≡ id → is_none r.cancelled_at ≡ false)
        (map (cancelled_row other now reason) rs)
still_cancelled id other now reason [] h = tt
still_cancelled id other now reason (r ∷ rs) (p, h) =
    (λ e. ground (arith, p), still_cancelled id other now reason rs h)

-- An output is the tip of a plan.
abbrev pub IsTip : Denial → Output → Type 0
IsTip denial u = (u.txid ≡ denial.tip_txid) × (to_int32 u.vout ≡ denial.tip_vout)

-- The outputs of the plan's wallet were fetched, and the tip is none of them.
pub record IsMissing (fetched : List (Bytes × Option (List Output))) (denial : Denial)
    : Type 0 where
  pub outputs : List Output
  pub were_fetched : Memᴰ (wallet_of denial, some outputs) fetched
  pub is_none_of_them : All (λ (u : Output). IsTip denial u → ⊥) outputs

lookup-Memᴰ :
    (id : Bytes) (fetched : List (Bytes × Option (List Output))) (o : Option (List Output))
    → lookup id fetched ≡ some o
    → Memᴰ (id, o) fetched
lookup-Memᴰ id [] o h = absurd (cc h)
lookup-Memᴰ id (p ∷ ps) o h = elim (Bool-cases (same p.0 id)) [
  | inl here ↦
      let found : some p.1 ≡ some o = rw here at h in
      let key : id ≡ p.0 = sym (eq_of_same p.0 id here) in
      let value : o ≡ p.1 = cc found in Memᴰ.head (rw (key, value) refl)
  | inr elsewhere ↦ Memᴰ.tail (lookup-Memᴰ id ps o (rw elsewhere at h))
]

none_is_tip :
    (denial : Denial) (us : List Output)
    → some_item (is_tip denial) us ≡ false
    → All (λ (u : Output). IsTip denial u → ⊥) us
none_is_tip denial [] h = tt
none_is_tip denial (u ∷ us) h = elim (Bool-cases (is_tip denial u)) [
  | inl tip ↦ absurd (cc (rw tip at h))
  | inr other ↦ (
    λ (e, f).
        let tip : is_tip denial u ≡ true =
          rw (e, f, same_refl denial.tip_txid, same_ℤ_refl denial.tip_vout) refl in
        cc (tip, other),
    none_is_tip denial us (rw other at h),
  )
]

is_gone-IsMissing :
    (fetched : List (Bytes × Option (List Output))) (denial : Denial)
    → is_gone fetched denial ≡ true
    → IsMissing fetched denial
is_gone-IsMissing fetched denial h = of_lookup (lookup (wallet_of denial) fetched) refl h
  where
    of_lookup :
        (o : Option (Option (List Output)))
        → lookup (wallet_of denial) fetched ≡ o
        → (let known : Option (List Output) = elim o [ none ↦ none | some r ↦ r ] in
            let b : Bool = elim known [
              | none ↦ false
              | some us ↦ not (some_item (is_tip denial) us)
            ] in
            b)
          ≡ true
        → IsMissing fetched denial
    of_lookup none found gone = absurd (cc gone)
    of_lookup (some none) found gone = absurd (cc gone)
    of_lookup (some (some us)) found gone = record {
      outputs = us;
      were_fetched = lookup-Memᴰ (wallet_of denial) fetched (some us) found;
      is_none_of_them = none_is_tip denial us (ground arith);
    }

module _ (d : Driver) (ws : Wallets) (fetched : List (Bytes × Option (List Output))) where
  cancel_one-keeps :
      (k : ℕ) (r : DenialRow) (denial : Denial)
      → (is_gone fetched denial ≡ true → denial.id ≢ r.id)
      → (w : World Tables) → RowAt k r w.tables
      → RowAt k r (cancel_one d ws fetched denial w).1.tables
  unfolding cancel_one stored
  cancel_one-keeps k r denial other w h = elim (Bool-cases (is_gone fetched denial)) [
    | inr there ↦ rw there (unfold pure in h)
    | inl gone ↦ rw gone (
        rw (wrap_state (cancel d denial.id moved w)) (elim (cancel_rows d denial.id moved w) [
          | inl same ↦ rw same.1 h
          | inr rows ↦
              rw rows
                (map_other denial.id (d.clock w.calls) k moved w.tables.denials h (other gone))
        ]))
  ]

  all_keep :
      (k : ℕ) (r : DenialRow) (denials : List Denial)
      → All (λ (x : Denial). is_gone fetched x ≡ true → x.id ≢ r.id) denials
      → All
          (λ (x : Denial).
            (w : World Tables)
            → RowAt k r w.tables
            → RowAt k r (cancel_one d ws fetched x w).1.tables)
          denials
  all_keep k r [] h = tt
  all_keep k r (x ∷ xs) (p, h) = (cancel_one-keeps k r x p, all_keep k r xs h)

  cancel_one-makes :
      (denial : Denial)
      → is_gone fetched denial ≡ true
      → (w : World Tables) → (cancel_one d ws fetched denial w).0 ≡ ok tt
      → AreCancelled denial.id (cancel_one d ws fetched denial w).1.tables
  unfolding cancel_one stored
  cancel_one-makes denial gone w h =
      let done : (cancel d denial.id moved w).0 ≡ ok tt =
        wrap-ok (cancel d denial.id moved w) (rw gone at h) in
      rw gone (
        rw (wrap_state (cancel d denial.id moved w)) (elim (cancel_rows d denial.id moved w) [
          | inl same ↦ absurd (cc (same.0, done))
          | inr rows ↦ rw rows (cancelled_now denial.id (d.clock w.calls) moved w.tables.denials)
        ]))

  cancel_one-still :
      (id : ℕ) (denial : Denial) (w : World Tables)
      → AreCancelled id w.tables
      → AreCancelled id (cancel_one d ws fetched denial w).1.tables
  unfolding cancel_one stored
  cancel_one-still id denial w h = elim (Bool-cases (is_gone fetched denial)) [
    | inr there ↦ rw there (unfold pure in h)
    | inl gone ↦ rw gone (
        rw (wrap_state (cancel d denial.id moved w)) (elim (cancel_rows d denial.id moved w) [
          | inl same ↦ rw same.1 h
          | inr rows ↦
              rw rows (still_cancelled id denial.id (d.clock w.calls) moved w.tables.denials h)
        ]))
  ]

  -- the hypothesis on the plans that are missing, on those that the code takes for gone
  all_gone :
      (r : DenialRow) (denials : List Denial)
      → All (λ (x : Denial). IsMissing fetched x → x.id ≢ r.id) denials
      → All (λ (x : Denial). is_gone fetched x ≡ true → x.id ≢ r.id) denials
  all_gone r [] h = tt
  all_gone r (x ∷ xs) (p, h) = (λ gone. p (is_gone-IsMissing fetched x gone), all_gone r xs h)

  -- Whichever statements fail, `cancelIfUTXOIsGone` leaves the row of a plan as it is, unless a plan of its list with that id is missing: the outputs of its wallet were fetched, and none of them is the one in the transaction and at the number of the plan's tip.
  pub cancel_if_utxo_is_gone-keeps :
      (denials : List Denial) (k : ℕ) (w : World Tables) {r : DenialRow}
      → All (λ (x : Denial). IsMissing fetched x → x.id ≢ r.id) denials
      → get_elem? w.tables.denials k ≡ some r
      → get_elem? (cancel_if_utxo_is_gone d ws fetched denials w).1.tables.denials k ≡ some r
  unfolding cancel_if_utxo_is_gone
  cancel_if_utxo_is_gone-keeps denials k w {r} others h =
      for_each-keeps (RowAt k r) (cancel_one d ws fetched) denials
        (all_keep k r denials (all_gone r denials others)) w h

  -- If `cancelIfUTXOIsGone` returns no error, every plan of its list whose tip is missing from the outputs that its wallet has listed is cancelled.
  pub cancel_if_utxo_is_gone-cancels :
      (denials : List Denial) (denial : Denial) (w : World Tables)
      → Memᴰ denial denials
      → is_gone fetched denial ≡ true
      → (cancel_if_utxo_is_gone d ws fetched denials w).0 ≡ ok tt
      → AreCancelled denial.id (cancel_if_utxo_is_gone d ws fetched denials w).1.tables
  unfolding cancel_if_utxo_is_gone
  cancel_if_utxo_is_gone-cancels denials denial w m gone h =
      for_each-establishes (AreCancelled denial.id) (cancel_one d ws fetched) denials denial w m
        (cancel_one-makes denial gone) (cancel_one-still denial.id) h
