-- ===== src/UtxoDistribution.antt =====
-- `GetUTXODistribution` and `generateDynamicBuckets` of litwindow/server/api/wallet/wallet.go: the
-- outputs of a wallet by the ranges of their values. The floating-point index by which boundaries are
-- selected, and the label of a range, are parameters.
pub mod Partition
mod Tests
use drivechain_litwindow.Prelude.{
  ℕ, zero, suc, ◌+◌, ◌-◌, ◌%◌, ◌^◌, Bool, true, false, ◌&&◌, Option, none, some, List, [], ◌∷◌,
  ◌++◌, Bytes, length, get_elem?, ltb, leb, if◌then◌else◌, keep,
}
use drivechain_litwindow.Prelude.Int.{ℤ, pos, negsuc}
use drivechain_litwindow.Int64.{i64_add}

pub record UnspentOutput : Type 0 where
  pub output : Bytes
  pub value_sats : ℕ

pub record BucketRange : Type 0 where
  pub min_sats : ℕ
  pub max_sats : ℕ
  pub label : Bytes

pub record BucketData : Type 0 where
  pub value_sats : ℕ
  pub count : ℕ
  pub outpoints : List Bytes

pub record UtxoBucket : Type 0 where
  pub label : Bytes
  pub contents : BucketData

-- What floating point decides: int(float64(i) * step) for i, the number of boundaries and the number
-- of buckets, and the label of a range.
pub record Floats : Type 0 where
  pub index : ℕ → ℕ → ℕ → ℕ
  pub label_of : ℕ → ℕ → Bytes

abbrev pub boundaries : List ℕ
boundaries =
    546 ∷ 1_000 ∷ 5_000 ∷ 10_000 ∷ 50_000 ∷ 100_000 ∷ 500_000 ∷ 1_000_000 ∷ 5_000_000 ∷ 10_000_000
    ∷ 50_000_000 ∷ 100_000_000 ∷ 500_000_000 ∷ 1_000_000_000 ∷ 5_000_000_000 ∷ 10_000_000_000 ∷ []

unfoldable pub relevant : ℕ → ℕ → List ℕ
relevant min_val max_val = keep (λ (b : ℕ). ltb min_val b && ltb b max_val) boundaries

abbrev pub selected_at : Option ℕ → List ℕ → List ℕ
selected_at none rest = rest
selected_at (some b) rest = b ∷ rest

-- the loop for i, i + 1, …, with the rounds left
unfoldable pub select_from : Floats → ℕ → ℕ → ℕ → List ℕ → List ℕ
select_from f zero i buckets bs = []
select_from f (suc rounds) i buckets bs =
    selected_at (get_elem? bs (f.index i (length bs) buckets))
      (select_from f rounds (i + 1) buckets bs)

unfoldable pub select_boundaries : Floats → ℕ → List ℕ → List ℕ
unfolding select_from
select_boundaries f buckets bs =
    if ltb (buckets - 1) (length bs) then select_from f (buckets - 1) 0 buckets bs else bs

unfoldable pub ranges_from : Floats → ℕ → ℕ → List ℕ → List BucketRange
ranges_from f prev max_val [] =
    record { min_sats = prev; max_sats = max_val; label = f.label_of prev max_val } ∷ []
ranges_from f prev max_val (b ∷ bs) =
    record { min_sats = prev; max_sats = b - 1; label = f.label_of prev (b - 1) }
    ∷ ranges_from f b max_val bs

unfoldable pub generate_dynamic_buckets : Floats → ℕ → ℕ → ℕ → List BucketRange
unfolding ranges_from relevant select_boundaries
generate_dynamic_buckets f min_val max_val buckets =
    ranges_from f min_val max_val (select_boundaries f buckets (relevant min_val max_val))

unfoldable pub min_from : ℕ → List UnspentOutput → ℕ
min_from least [] = least
min_from least (u ∷ us) = min_from (if ltb u.value_sats least then u.value_sats else least) us

unfoldable pub max_from : ℕ → List UnspentOutput → ℕ
max_from most [] = most
max_from most (u ∷ us) = max_from (if ltb most u.value_sats then u.value_sats else most) us

abbrev pub is_within : UnspentOutput → BucketRange → Bool
is_within u r = leb r.min_sats u.value_sats && leb u.value_sats r.max_sats

-- count is an int32: its bits, which wrap around
abbrev pub with_output : UnspentOutput → BucketData → BucketData
with_output u d = record {
  value_sats = i64_add d.value_sats u.value_sats;
  count = (d.count + 1) % 2 ^ 32;
  outpoints = d.outpoints ++ u.output ∷ [];
}

-- the first range that holds the value takes the output
unfoldable pub add_output : UnspentOutput → List BucketRange → List BucketData → List BucketData
add_output u (r ∷ rs) (d ∷ ds) =
    if is_within u r then with_output u d ∷ ds else d ∷ add_output u rs ds
add_output u [] ds = ds
add_output u (r ∷ rs) [] = []

unfoldable pub add_outputs :
    List BucketRange → List UnspentOutput → List BucketData → List BucketData
unfolding add_output
add_outputs rs [] ds = ds
add_outputs rs (u ∷ us) ds = add_outputs rs us (add_output u rs ds)

unfoldable pub empty_data : List BucketRange → List BucketData
empty_data [] = []
empty_data (r ∷ rs) = record { value_sats = 0; count = 0; outpoints = [] } ∷ empty_data rs

-- an int32 above zero
abbrev pub is_above_zero : ℕ → Bool
is_above_zero count = ltb 0 count && ltb count (2 ^ 31)

-- the buckets that are not empty
unfoldable pub buckets_of : List BucketRange → List BucketData → List UtxoBucket
buckets_of (r ∷ rs) (d ∷ ds) =
    let rest = buckets_of rs ds in
    if is_above_zero d.count then record { label = r.label; contents = d } ∷ rest else rest
buckets_of [] ds = []
buckets_of (r ∷ rs) [] = []

unfoldable pub bucket_count : ℤ → ℕ
bucket_count (pos zero) = 6
bucket_count (pos (suc n)) = suc n
bucket_count (negsuc n) = 6

unfoldable pub distribution_by : List BucketRange → List UnspentOutput → List UtxoBucket
unfolding add_outputs empty_data buckets_of
distribution_by ranges us = buckets_of ranges (add_outputs ranges us (empty_data ranges))

-- the response, of the outputs that the wallet lists
unfoldable pub get_utxo_distribution : Floats → ℤ → List UnspentOutput → List UtxoBucket
unfolding distribution_by generate_dynamic_buckets min_from max_from bucket_count
get_utxo_distribution f max_buckets [] = []
get_utxo_distribution f max_buckets (u ∷ us) =
    distribution_by
      (generate_dynamic_buckets f (min_from u.value_sats (u ∷ us)) (max_from u.value_sats (u ∷ us))
        (bucket_count max_buckets))
      (u ∷ us)
