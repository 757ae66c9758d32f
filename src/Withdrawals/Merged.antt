-- ===== src/Withdrawals/Merged.antt =====
-- How often a bundle is listed, and with which status.
use mathlib.Core.List.{Permᴰ}
use drivechain_litwindow.Prelude.{
  ℕ, suc, ◌+◌, ◌≤◌, ◌≡◌, ◌≢◌, refl, sym, ap, ◌∙◌, inl, inr, false, Option, none, some, List, [],
  ◌∷◌, ◌++◌, Bytes, same, same_refl, eq_of_same, if◌then◌else◌, arith, Bool-cases,
}
use drivechain_litwindow.Withdrawals.{
  WithdrawalBundle, BundleEvent, PegBlock, bundle_of, bundles_of_events, bundles_of_block,
  process_peg_data_blocks, put, map_of, settle, merge_one, merge_all, merge_bundles,
}

-- How many bundles with an id there are.
abbrev pub count_id : Bytes → List WithdrawalBundle → ℕ
count_id id [] = 0
count_id id (b ∷ bs) = let later = count_id id bs in if same b.m6_id id then suc later else later

-- How many events with an id the peg data has, in blocks with a height.
abbrev pub count_events : Bytes → List (Option BundleEvent) → ℕ
count_events id [] = 0
count_events id (none ∷ es) = count_events id es
count_events id (some e ∷ es) =
    let later = count_events id es in if same e.m6_id id then suc later else later

abbrev pub count_blocks : Bytes → List PegBlock → ℕ
count_blocks id [] = 0
count_blocks id (b ∷ bs) =
    (elim b.height [
      | none ↦ 0
      | some h ↦ elim b.block_info [ none ↦ 0 | some es ↦ count_events id es ]
    ])
    + count_blocks id bs

count_id-append :
    (id : Bytes) (xs ys : List WithdrawalBundle)
    → count_id id (xs ++ ys) ≡ count_id id xs + count_id id ys
count_id-append id [] ys = omega arith
count_id-append id (x ∷ xs) ys = ground (arith, count_id-append id xs ys)

count_id-events :
    (id : Bytes) (sidechain_id height : ℕ) (es : List (Option BundleEvent))
    → count_id id (bundles_of_events sidechain_id height es) ≡ count_events id es
unfolding bundles_of_events bundle_of
count_id-events id sidechain_id height [] = refl
count_id-events id sidechain_id height (none ∷ es) = count_id-events id sidechain_id height es
count_id-events id sidechain_id height (some e ∷ es) =
    rw (count_id-events id sidechain_id height es) refl

count_id-block :
    (id : Bytes) (sidechain_id : ℕ) (info : Option (List (Option BundleEvent))) (height : Option ℕ)
    → count_id id (bundles_of_block sidechain_id info height)
      ≡ (elim height [ none ↦ 0 | some h ↦ elim info [ none ↦ 0 | some es ↦ count_events id es ] ])
unfolding bundles_of_block
count_id-block id sidechain_id (some es) (some height) = count_id-events id sidechain_id height es
count_id-block id sidechain_id none none = refl
count_id-block id sidechain_id none (some height) = refl
count_id-block id sidechain_id (some es) none = refl

count_id-blocks :
    (id : Bytes) (sidechain_id : ℕ) (bs : List PegBlock)
    → count_id id (process_peg_data_blocks sidechain_id bs) ≡ count_blocks id bs
unfolding process_peg_data_blocks
count_id-blocks id sidechain_id [] = refl
count_id-blocks id sidechain_id (b ∷ bs) =
    count_id-append id (bundles_of_block sidechain_id b.block_info b.height)
      (process_peg_data_blocks sidechain_id bs)
    ∙ rw (count_id-block id sidechain_id b.block_info b.height, count_id-blocks id sidechain_id bs)
        refl

swapped :
    (id : Bytes) (a b : WithdrawalBundle) (l : List WithdrawalBundle)
    → count_id id (a ∷ b ∷ l) ≡ count_id id (b ∷ a ∷ l)
swapped id a b l = ground arith

count_id-perm :
    {xs ys : List WithdrawalBundle} (id : Bytes) → Permᴰ xs ys → count_id id xs ≡ count_id id ys
count_id-perm id Permᴰ.nil = refl
count_id-perm id (Permᴰ.cons {a} {b} {l₁} {l₂} e p) =
    ap (λ (x : WithdrawalBundle). count_id id (x ∷ l₁)) e
    ∙ ap (λ (n : ℕ). if same b.m6_id id then suc n else n) (count_id-perm id p)
count_id-perm id (Permᴰ.swap {a} {b} {a'} {b'} {l} e f) =
    swapped id a b l
    ∙ ap (λ (x : WithdrawalBundle). count_id id (x ∷ a ∷ l)) f
    ∙ ap (λ (x : WithdrawalBundle). count_id id (a' ∷ x ∷ l)) e
count_id-perm id (Permᴰ.trans p q) = count_id-perm id p ∙ count_id-perm id q

put-other :
    (id : Bytes) (b : WithdrawalBundle) (m : List WithdrawalBundle)
    → same b.m6_id id ≡ false
    → count_id id (put b m) ≡ count_id id m
unfolding put
put-other id b [] h = rw h refl
put-other id b (c ∷ cs) h = elim (Bool-cases (same c.m6_id b.m6_id)) [
  | inl here ↦
      let e = eq_of_same c.m6_id b.m6_id here in
      let other : same c.m6_id id ≡ false = rw e h in rw (here, h, other) refl
  | inr later ↦ rw (later, put-other id b cs h) refl
]

put-own :
    (b : WithdrawalBundle) (m : List WithdrawalBundle)
    → count_id b.m6_id m ≤ 1
    → count_id b.m6_id (put b m) ≤ 1
unfolding put
put-own b [] h = rw (same_refl b.m6_id) (omega arith)
put-own b (c ∷ cs) h = elim (Bool-cases (same c.m6_id b.m6_id)) [
  | inl here ↦ rw (here, same_refl b.m6_id) (rw here at h)
  | inr later ↦ rw later (rw later (put-own b cs (rw later at h)))
]

put-once :
    (id : Bytes) (b : WithdrawalBundle) (m : List WithdrawalBundle)
    → count_id id m ≤ 1
    → count_id id (put b m) ≤ 1
put-once id b m h = elim (Bool-cases (same b.m6_id id)) [
  | inl own ↦ let e = eq_of_same b.m6_id id own in rw (sym e) (put-own b m (rw (sym e) at h))
  | inr other ↦ rw (put-other id b m other) h
]

settled_id : (b c : WithdrawalBundle) → (settle b c).m6_id ≡ c.m6_id
settled_id b c = ground arith

merge_one-other :
    (id : Bytes) (b : WithdrawalBundle) (m : List WithdrawalBundle)
    → same b.m6_id id ≡ false
    → count_id id (merge_one b m) ≡ count_id id m
unfolding merge_one
merge_one-other id b [] h = rw h refl
merge_one-other id b (c ∷ cs) h = elim (Bool-cases (same c.m6_id b.m6_id)) [
  | inl here ↦
      let e = eq_of_same c.m6_id b.m6_id here in
      let other : same c.m6_id id ≡ false = rw e h in rw (here, settled_id b c, other) refl
  | inr later ↦ rw (later, merge_one-other id b cs h) refl
]

merge_one-own :
    (b : WithdrawalBundle) (m : List WithdrawalBundle)
    → count_id b.m6_id m ≤ 1
    → count_id b.m6_id (merge_one b m) ≤ 1
unfolding merge_one
merge_one-own b [] h = rw (same_refl b.m6_id) (omega arith)
merge_one-own b (c ∷ cs) h = elim (Bool-cases (same c.m6_id b.m6_id)) [
  | inl here ↦ rw here (rw (settled_id b c, here) (rw here at h))
  | inr later ↦ rw later (rw later (merge_one-own b cs (rw later at h)))
]

merge_one-once :
    (id : Bytes) (b : WithdrawalBundle) (m : List WithdrawalBundle)
    → count_id id m ≤ 1
    → count_id id (merge_one b m) ≤ 1
merge_one-once id b m h = elim (Bool-cases (same b.m6_id id)) [
  | inl own ↦ let e = eq_of_same b.m6_id id own in rw (sym e) (merge_one-own b m (rw (sym e) at h))
  | inr other ↦ rw (merge_one-other id b m other) h
]

map_of-once :
    (id : Bytes) (bs m : List WithdrawalBundle) → count_id id m ≤ 1 → count_id id (map_of m bs) ≤ 1
unfolding map_of
map_of-once id [] m h = h
map_of-once id (b ∷ bs) m h = map_of-once id bs (put b m) (put-once id b m h)

merge_all-once :
    (id : Bytes) (bs m : List WithdrawalBundle)
    → count_id id m ≤ 1
    → count_id id (merge_all m bs) ≤ 1
unfolding merge_all
merge_all-once id [] m h = h
merge_all-once id (b ∷ bs) m h = merge_all-once id bs (merge_one b m) (merge_one-once id b m h)

-- Merged with an empty cache, the peg data lists a bundle as often as it has events of that bundle; merged with bundles that the cache has, it lists a bundle at most once, whatever order the list of the map has.
pub merge_bundles-count :
    (order : List WithdrawalBundle → List WithdrawalBundle) (id : Bytes) (sidechain_id : ℕ)
    (existing : List WithdrawalBundle) (blocks : List PegBlock)
    → ((xs : List WithdrawalBundle) → Permᴰ (order xs) xs)
    → let listed = merge_bundles order existing (process_peg_data_blocks sidechain_id blocks) in
      (existing ≡ [] → count_id id listed ≡ count_blocks id blocks)
      × (existing ≢ [] → count_id id listed ≤ 1)
unfolding merge_bundles
merge_bundles-count order id sidechain_id [] blocks reorders =
    (λ e. count_id-blocks id sidechain_id blocks, λ h. absurd (h refl))
merge_bundles-count order id sidechain_id (b ∷ bs) blocks reorders =
    let new = process_peg_data_blocks sidechain_id blocks in
    let merged = merge_all (map_of [] (b ∷ bs)) new in
    (
      λ e. absurd (cc e),
      λ h.
          rw (count_id-perm id (reorders merged))
            (merge_all-once id new (map_of [] (b ∷ bs)) (map_of-once id (b ∷ bs) [] (omega arith))),
    )
