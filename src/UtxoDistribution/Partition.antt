-- ===== src/UtxoDistribution/Partition.antt =====
-- Every output of the wallet stands in one bucket.
use drivechain_litwindow.Prelude.{
  ℕ, zero, suc, ◌+◌, ◌-◌, ◌^◌, ◌≤◌, ◌<◌, ◌≡◌, refl, ◌∙◌, true, List, [], ◌∷◌, ◌++◌, Bytes, length,
  length-append, same, ltb, if◌then◌else◌, All, arith, Bool-cases, inl, inr, some_item,
  Option-cases, get_elem?,
}
use drivechain_litwindow.Prelude.Int.{ℤ, pos, negsuc}
use drivechain_litwindow.UtxoDistribution.{
  UnspentOutput, BucketRange, BucketData, UtxoBucket, Floats, ranges_from, select_boundaries,
  is_above_zero, select_from, relevant, generate_dynamic_buckets, min_from, max_from, is_within,
  add_output, add_outputs, empty_data, buckets_of, bucket_count, distribution_by,
  get_utxo_distribution,
}

-- how often an outpoint stands in a list
abbrev pub occurrences : Bytes → List Bytes → ℕ
occurrences o [] = 0
occurrences o (x ∷ xs) = if same x o then suc (occurrences o xs) else occurrences o xs

abbrev pub outputs : List UnspentOutput → List Bytes
outputs [] = []
outputs (u ∷ us) = u.output ∷ outputs us

-- how often it stands in all buckets
abbrev pub in_data : Bytes → List BucketData → ℕ
in_data o [] = 0
in_data o (d ∷ ds) = occurrences o d.outpoints + in_data o ds

abbrev pub in_buckets : Bytes → List UtxoBucket → ℕ
in_buckets o [] = 0
in_buckets o (b ∷ bs) = occurrences o b.contents.outpoints + in_buckets o bs

occurrences-append :
    (o : Bytes) (xs ys : List Bytes)
    → occurrences o (xs ++ ys) ≡ occurrences o xs + occurrences o ys
occurrences-append o [] ys = omega arith
occurrences-append o (x ∷ xs) ys = ground (arith, occurrences-append o xs ys)

-- Every value between the ends lies in a range, whatever the boundaries are.
ranges_cover :
    (f : Floats) (u : UnspentOutput) (prev max_val : ℕ) (bs : List ℕ)
    → prev ≤ u.value_sats
    → u.value_sats ≤ max_val
    → some_item (is_within u) (ranges_from f prev max_val bs) ≡ true
unfolding ranges_from
ranges_cover f u prev max_val [] h l = ground arith
ranges_cover f u prev max_val (b ∷ bs) h l = ground (arith, ranges_cover f u b max_val bs)

length-add_output :
    (u : UnspentOutput) (rs : List BucketRange) (ds : List BucketData)
    → length ds ≡ length rs
    → length (add_output u rs ds) ≡ length rs
unfolding add_output
length-add_output u [] ds h = h
length-add_output u (r ∷ rs) [] h = absurd (omega arith)
length-add_output u (r ∷ rs) (d ∷ ds) h = ground (arith, length-add_output u rs ds)

in_data-add_output :
    (o : Bytes) (u : UnspentOutput) (rs : List BucketRange) (ds : List BucketData)
    → length ds ≡ length rs
    → some_item (is_within u) rs ≡ true
    → in_data o (add_output u rs ds) ≡ in_data o ds + occurrences o (u.output ∷ [])
unfolding add_output
in_data-add_output o u [] ds h k = cc
in_data-add_output o u (r ∷ rs) [] h k = absurd (omega arith)
in_data-add_output o u (r ∷ rs) (d ∷ ds) h k =
    ground (arith, in_data-add_output o u rs ds, occurrences-append o d.outpoints (u.output ∷ []))

-- Every bucket's count is the number of its outpoints, up to a bound.
abbrev Counted : ℕ → List BucketData → Type 0
Counted n [] = Unit
Counted n (d ∷ ds) = (d.count ≡ length d.outpoints) × (d.count ≤ n) × Counted n ds

Counted-mono : (n : ℕ) (ds : List BucketData) → Counted n ds → Counted (n + 1) ds
Counted-mono n [] h = tt
Counted-mono n (d ∷ ds) (e, b, h) = (e, omega arith, Counted-mono n ds h)

add_output-Counted :
    (u : UnspentOutput) (n : ℕ) (rs : List BucketRange) (ds : List BucketData)
    → n + 1 < 2 ^ 31
    → Counted n ds
    → Counted (n + 1) (add_output u rs ds)
unfolding add_output
add_output-Counted u n [] ds small h = Counted-mono n ds h
add_output-Counted u n (r ∷ rs) [] small h = tt
add_output-Counted u n (r ∷ rs) (d ∷ ds) small (e, b, h) = elim (Bool-cases (is_within u r)) [
  | inl inside ↦ rw inside (
    omega (arith, length-append {0} d.outpoints (u.output ∷ [])),
    omega arith,
    Counted-mono n ds h,
  )
  | inr outside ↦ rw outside (e, omega arith, add_output-Counted u n rs ds small h)
]

-- A bucket that is left out has nothing.
in_buckets-buckets_of :
    (o : Bytes) (n : ℕ) (rs : List BucketRange) (ds : List BucketData)
    → length ds ≡ length rs
    → n < 2 ^ 31
    → Counted n ds
    → in_buckets o (buckets_of rs ds) ≡ in_data o ds
unfolding buckets_of
in_buckets-buckets_of o n [] [] h small c = refl
in_buckets-buckets_of o n [] (d ∷ ds) h small c = absurd (omega arith)
in_buckets-buckets_of o n (r ∷ rs) [] h small c = absurd (omega arith)
in_buckets-buckets_of o n (r ∷ rs) (d ∷ ds) h small (e, b, c) =
    elim (Bool-cases (is_above_zero d.count)) [
      | inl some' ↦ rw some' (omega (arith, in_buckets-buckets_of o n rs ds (omega arith) small c))
      | inr none' ↦ rw none' (
          omega (
            arith,
            in_buckets-buckets_of o n rs ds (omega arith) small c,
            no_occurrences o d.outpoints (ground arith),
          ))
    ]
  where
    no_occurrences : (p : Bytes) (xs : List Bytes) → length xs ≡ 0 → occurrences p xs ≡ 0
    no_occurrences p [] q = refl
    no_occurrences p (x ∷ xs) q = absurd (omega arith)

abbrev AllCovered : List BucketRange → List UnspentOutput → Type 0
AllCovered rs us = All (λ (u : UnspentOutput). some_item (is_within u) rs ≡ true) us

in_data-add_outputs :
    (o : Bytes) (n : ℕ) (rs : List BucketRange) (us : List UnspentOutput) (ds : List BucketData)
    → length ds ≡ length rs
    → AllCovered rs us
    → n + length us < 2 ^ 31
    → Counted n ds
    → (in_data o (add_outputs rs us ds) ≡ in_data o ds + occurrences o (outputs us))
      × (length (add_outputs rs us ds) ≡ length rs)
      × Counted (n + length us) (add_outputs rs us ds)
unfolding add_outputs
in_data-add_outputs o n rs [] ds h covered small c =
    let e : n + 0 ≡ n = omega arith in (omega arith, h, rw e c)
in_data-add_outputs o n rs (u ∷ us) ds h (k, covered) small c =
    let e : n + suc (length us) ≡ n + 1 + length us = omega arith in
    let (sum, size, counted) =
      in_data-add_outputs o (n + 1) rs us (add_output u rs ds) (length-add_output u rs ds h) covered
        (omega arith) (add_output-Counted u n rs ds (omega arith) c) in
    (ground (arith, in_data-add_output o u rs ds), size, rw e counted)

abbrev Between : ℕ → ℕ → UnspentOutput → Type 0
Between lo hi u = (lo ≤ u.value_sats) × (u.value_sats ≤ hi)

min_from-le : (least : ℕ) (us : List UnspentOutput) → min_from least us ≤ least
unfolding min_from
min_from-le least [] = omega arith
min_from-le least (u ∷ us) =
    ground (arith, min_from-le (if ltb u.value_sats least then u.value_sats else least) us)

le-max_from : (most : ℕ) (us : List UnspentOutput) → most ≤ max_from most us
unfolding max_from
le-max_from most [] = omega arith
le-max_from most (u ∷ us) =
    ground (arith, le-max_from (if ltb most u.value_sats then u.value_sats else most) us)

all-Between :
    (least most : ℕ) (us : List UnspentOutput)
    → All (Between (min_from least us) (max_from most us)) us
unfolding min_from max_from
all-Between least most [] = tt
all-Between least most (u ∷ us) =
    let least' : ℕ = if ltb u.value_sats least then u.value_sats else least in
    let most' : ℕ = if ltb most u.value_sats then u.value_sats else most in
    (
      (ground (arith, min_from-le least' us), ground (arith, le-max_from most' us)),
      all-Between least' most' us,
    )

all_covered :
    (f : Floats) (lo hi : ℕ) (bs : List ℕ) (us : List UnspentOutput)
    → All (Between lo hi) us
    → AllCovered (ranges_from f lo hi bs) us
all_covered f lo hi bs [] h = tt
all_covered f lo hi bs (u ∷ us) ((a, b), h) =
    (ranges_cover f u lo hi bs a b, all_covered f lo hi bs us h)

empty_data-Counted :
    (o : Bytes) (rs : List BucketRange)
    → Counted 0 (empty_data rs)
      × (length (empty_data rs) ≡ length rs)
      × (in_data o (empty_data rs) ≡ 0)
unfolding empty_data
empty_data-Counted o [] = (tt, refl, refl)
empty_data-Counted o (r ∷ rs) =
    let (c, l, i) = empty_data-Counted o rs in ((refl, omega arith, c), omega arith, omega arith)

length-select_from :
    (f : Floats) (rounds i buckets : ℕ) (bs : List ℕ)
    → length (select_from f rounds i buckets bs) ≤ rounds
unfolding select_from
length-select_from f zero i buckets bs = omega arith
length-select_from f (suc rounds) i buckets bs =
    elim (Option-cases (get_elem? bs (f.index i (length bs) buckets))) [
      | inl out ↦ rw out (omega (arith, length-select_from f rounds (i + 1) buckets bs))
      | inr found ↦ rw (found.1) (omega (arith, length-select_from f rounds (i + 1) buckets bs))
    ]

length-select_boundaries :
    (f : Floats) (buckets : ℕ) (bs : List ℕ) → length (select_boundaries f buckets bs) ≤ buckets - 1
unfolding select_boundaries
length-select_boundaries f buckets bs =
    ground (arith, length-select_from f (buckets - 1) 0 buckets bs)

length-ranges_from :
    (f : Floats) (prev hi : ℕ) (bs : List ℕ) → length (ranges_from f prev hi bs) ≡ length bs + 1
unfolding ranges_from
length-ranges_from f prev hi [] = omega arith
length-ranges_from f prev hi (b ∷ bs) = omega (arith, length-ranges_from f b hi bs)

length-buckets_of :
    (rs : List BucketRange) (ds : List BucketData) → length (buckets_of rs ds) ≤ length rs
unfolding buckets_of
length-buckets_of [] ds = omega arith
length-buckets_of (r ∷ rs) [] = omega arith
length-buckets_of (r ∷ rs) (d ∷ ds) = ground (arith, length-buckets_of rs ds)

bucket_count-pos : (m : ℤ) → 0 < bucket_count m
unfolding bucket_count
bucket_count-pos (pos zero) = omega arith
bucket_count-pos (pos (suc n)) = omega arith
bucket_count-pos (negsuc n) = omega arith

-- However floating point selects the boundaries, the buckets of the distribution are a partition of the wallet's outputs: an output stands in them as often as the wallet lists it, so none is lost and none is counted twice, and there are no more buckets than were asked for, or than six if none were. The wallet has fewer than 2 ^ 31 outputs.
pub get_utxo_distribution-partition :
    (f : Floats) (max_buckets : ℤ) (us : List UnspentOutput) (o : Bytes)
    → length us < 2 ^ 31
    → (in_buckets o (get_utxo_distribution f max_buckets us) ≡ occurrences o (outputs us))
      × (length (get_utxo_distribution f max_buckets us) ≤ bucket_count max_buckets)
unfolding get_utxo_distribution generate_dynamic_buckets distribution_by
get_utxo_distribution-partition f max_buckets [] o small = (refl, omega arith)
get_utxo_distribution-partition f max_buckets (u ∷ us) o small =
    let lo : ℕ = min_from u.value_sats (u ∷ us) in
    let hi : ℕ = max_from u.value_sats (u ∷ us) in
    let bs : List ℕ = select_boundaries f (bucket_count max_buckets) (relevant lo hi) in
    let rs : List BucketRange = ranges_from f lo hi bs in
    let (c, l, i) = empty_data-Counted o rs in
    let (sum, size, counted) =
      in_data-add_outputs o 0 rs (u ∷ us) (empty_data rs) l
        (all_covered f lo hi bs (u ∷ us) (all-Between u.value_sats u.value_sats (u ∷ us)))
        (omega arith) c in
    (
      in_buckets-buckets_of o (0 + length (u ∷ us)) rs (add_outputs rs (u ∷ us) (empty_data rs))
            size (omega arith) counted
          ∙ omega arith,
      omega (
        arith,
        length-buckets_of rs (add_outputs rs (u ∷ us) (empty_data rs)),
        length-ranges_from f lo hi bs,
        length-select_boundaries f (bucket_count max_buckets) (relevant lo hi),
        bucket_count-pos max_buckets,
      ),
    )
