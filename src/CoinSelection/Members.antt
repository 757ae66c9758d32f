-- ===== src/CoinSelection/Members.antt =====
-- Which outputs `SelectCoins` selects.
use mathlib.Core.List.{Permᴰ, Memᴰ, append_assoc, append-nil}
use mathlib.Core.Path.{subst}
use drivechain_litwindow.Prelude.{
  ℕ, zero, suc, ◌≡◌, ap, sym, ◌∙◌, inl, inr, ◌⊎◌, Bool, true, false, not, ◌&&◌, List, [], ◌∷◌, ◌++◌,
  Bytes, length, take, Result, ok, err, keep, Bool-cases, mem-keep, arith,
}
use drivechain_litwindow.Int64.{i64_leb, i64_add}
use drivechain_litwindow.CoinSelection.{
  Utxo, Strategy, CoinSelectionResult, Reordering, IsReordering, sort_by_strategy, sum_from,
  required_pool, available_pool, frozen_pool, result_for, needed_for, add_utxos, pick, explain,
  select_coins,
}
use drivechain_litwindow.CoinSelection.Balance.{sort_by_strategy-perm}

module _ {A : Type 0} where
  mem-perm : {xs ys : List A} {a : A} → Permᴰ xs ys → Memᴰ a xs → Memᴰ a ys
  mem-perm Permᴰ.nil m = m
  mem-perm (Permᴰ.cons e p) (Memᴰ.head f) = Memᴰ.head (f ∙ e)
  mem-perm (Permᴰ.cons e p) (Memᴰ.tail m) = Memᴰ.tail (mem-perm p m)
  mem-perm (Permᴰ.swap e f) (Memᴰ.head g) = Memᴰ.tail (Memᴰ.head (g ∙ e))
  mem-perm (Permᴰ.swap e f) (Memᴰ.tail (Memᴰ.head g)) = Memᴰ.head (g ∙ f)
  mem-perm (Permᴰ.swap e f) (Memᴰ.tail (Memᴰ.tail m)) = Memᴰ.tail (Memᴰ.tail m)
  mem-perm (Permᴰ.trans p q) m = mem-perm q (mem-perm p m)

  mem-append_left : {a : A} (xs ys : List A) → Memᴰ a xs → Memᴰ a (xs ++ ys)
  mem-append_left [] ys m = elim m [ ]
  mem-append_left (x ∷ xs) ys (Memᴰ.head e) = Memᴰ.head e
  mem-append_left (x ∷ xs) ys (Memᴰ.tail m) = Memᴰ.tail (mem-append_left xs ys m)

  mem-append : {a : A} (xs ys : List A) → Memᴰ a (xs ++ ys) → Memᴰ a xs ⊎ Memᴰ a ys
  mem-append [] ys m = inr m
  mem-append (x ∷ xs) ys (Memᴰ.head e) = inl (Memᴰ.head e)
  mem-append (x ∷ xs) ys (Memᴰ.tail m) = elim (mem-append xs ys m) [
    | inl n ↦ inl (Memᴰ.tail n)
    | inr n ↦ inr n
  ]

  mem-take : {a : A} (k : ℕ) (xs : List A) → Memᴰ a (take k xs) → Memᴰ a xs
  mem-take zero xs m = elim m [ ]
  mem-take (suc k) [] m = elim m [ ]
  mem-take (suc k) (x ∷ xs) (Memᴰ.head e) = Memᴰ.head e
  mem-take (suc k) (x ∷ xs) (Memᴰ.tail m) = Memᴰ.tail (mem-take k xs m)

  mem-keep_intro :
      {a : A} (p : A → Bool) (xs : List A) → p a ≡ true → Memᴰ a xs → Memᴰ a (keep p xs)
  mem-keep_intro p [] good m = elim m [ ]
  mem-keep_intro p (x ∷ xs) good (Memᴰ.head e) = rw (ap p (sym e) ∙ good) (Memᴰ.head e)
  mem-keep_intro p (x ∷ xs) good (Memᴰ.tail m) = elim (Bool-cases (p x)) [
    | inl in_it ↦ rw in_it (Memᴰ.tail (mem-keep_intro p xs good m))
    | inr out ↦ rw out (mem-keep_intro p xs good m)
  ]

ok_injective :
    {a b : CoinSelectionResult}
    → (let r : Result (ℕ × ℕ) CoinSelectionResult = ok a in r) ≡ ok b
    → a ≡ b
ok_injective e = cc

module _ (target rate num_outputs : ℕ) where
  add_utxos-prefix :
      (selected us : List Utxo) (amount needed : ℕ) {res : CoinSelectionResult}
      → add_utxos target rate num_outputs selected amount needed us ≡ ok res
      → (k : ℕ) × (res.selected_utxos ≡ selected ++ take k us)
  unfolding add_utxos result_for
  add_utxos-prefix selected [] amount needed h = cc
  add_utxos-prefix selected (u ∷ us) amount needed {res} h =
      let next = selected ++ u ∷ [] in
      let sum = i64_add amount u.value_sats in
      let need = needed_for target rate num_outputs (length next) in
      elim (Bool-cases (i64_leb need sum)) [
        | inl enough ↦ (
          1,
          ap (λ (r : CoinSelectionResult). r.selected_utxos) (sym (ok_injective (rw enough at h))),
        )
        | inr more ↦
            let (k, e) = add_utxos-prefix next us sum need (rw more at h) in
            (suc k, e ∙ append_assoc selected (u ∷ []) (take k us))
      ]

  pick-prefix :
      (required ordered : List Utxo) {res : CoinSelectionResult}
      → pick target rate num_outputs required ordered ≡ ok res
      → (k : ℕ) × (res.selected_utxos ≡ required ++ take k ordered)
  unfolding pick result_for
  pick-prefix required ordered {res} h =
      let amount = sum_from 0 required in
      let need = needed_for target rate num_outputs (length required) in
      elim (Bool-cases (i64_leb need amount)) [
        | inl enough ↦ (
          0,
          ap (λ (r : CoinSelectionResult). r.selected_utxos) (sym (ok_injective (rw enough at h)))
              ∙ sym (append-nil required),
        )
        | inr more ↦ add_utxos-prefix required ordered amount need (rw more at h)
      ]

explain-ok :
    (total_frozen : ℕ) (x : Result (ℕ × ℕ) CoinSelectionResult) {res : CoinSelectionResult}
    → explain total_frozen x ≡ ok res
    → x ≡ ok res
unfolding explain
explain-ok total_frozen (ok r) h = cc
explain-ok total_frozen (err e) h = cc

left_alone : (r f : Bool) → (not r && not f) ≡ true → f ≡ false
left_alone r f h = ground arith

-- If the sort and the shuffle only reorder, every selected output is one of those given and is required or not frozen, and every required output of those given is selected, frozen or not.
pub select_coins-members :
    (r : Reordering) (all : List Utxo) (frozen : Bytes → Bool) (target rate num_outputs : ℕ)
    (strategy : Strategy) (required : Bytes → Bool) (u : Utxo) {res : CoinSelectionResult}
    → IsReordering r
    → select_coins r all frozen target rate num_outputs strategy required ≡ ok res
    → (Memᴰ u res.selected_utxos
        → Memᴰ u all × ((required u.output ≡ true) ⊎ (frozen u.output ≡ false)))
      × (Memᴰ u all → required u.output ≡ true → Memᴰ u res.selected_utxos)
unfolding select_coins
select_coins-members r all frozen target rate num_outputs strategy required u {res} reorders h =
    let must = required_pool frozen required all in
    let may = available_pool frozen required all in
    let ordered = sort_by_strategy r strategy may in
    let total = sum_from 0 (frozen_pool frozen required all) in
    let (k, e) =
      pick-prefix target rate num_outputs must ordered
        (explain-ok total (pick target rate num_outputs must ordered) h) in
    (
      λ m. elim (mem-append must (take k ordered) (subst (λ (l : List Utxo). Memᴰ u l) e m)) [
        | inl n ↦
            let (given, good) = mem-keep (λ (x : Utxo). required x.output) u all n in
            (given, inl good)
        | inr n ↦
            let (given, good) =
              mem-keep (λ (x : Utxo). not (required x.output) && not (frozen x.output)) u all
                (mem-perm (sort_by_strategy-perm r reorders strategy may) (mem-take k ordered n)) in
            (given, inr (left_alone (required u.output) (frozen u.output) good))
      ],
      λ m good.
          subst (λ (l : List Utxo). Memᴰ u l) (sym e)
            (mem-append_left must (take k ordered)
              (mem-keep_intro (λ (x : Utxo). required x.output) all good m)),
    )
