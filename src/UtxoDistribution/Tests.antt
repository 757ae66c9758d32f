-- ===== src/UtxoDistribution/Tests.antt =====
-- The theorem on the distribution at a concrete wallet of three outputs.
use drivechain_litwindow.Prelude.{
  ◌*◌, ◌/◌, ◌-◌, ◌≤◌, ◌≡◌, refl, List, [], ◌∷◌, codes, length, arith,
}
use drivechain_litwindow.Prelude.Int.{pos}
use drivechain_litwindow.UtxoDistribution.{
  UnspentOutput, Floats, get_utxo_distribution, bucket_count,
}
use drivechain_litwindow.UtxoDistribution.Partition.{
  occurrences, outputs, in_buckets, get_utxo_distribution-partition,
}

-- the exact quotient in place of the floating-point one
abbrev exact : Floats
exact = record {
  index = λ i bounds buckets. i * bounds / (buckets - 1);
  label_of = λ lo hi. lo ∷ hi ∷ [];
}

abbrev wallet : List UnspentOutput
wallet =
    record { output = codes "a"; value_sats = 600 }
    ∷ record { output = codes "b"; value_sats = 70_000 }
    ∷ record { output = codes "c"; value_sats = 650 }
    ∷ []

two_buckets : length (get_utxo_distribution exact (pos 2) wallet) ≡ 2
unfolding get_utxo_distribution
two_buckets = refl

get_utxo_distribution-partition_example :
    (in_buckets (codes "c") (get_utxo_distribution exact (pos 2) wallet)
      ≡ occurrences (codes "c") (outputs wallet))
    × (length (get_utxo_distribution exact (pos 2) wallet) ≤ bucket_count (pos 2))
get_utxo_distribution-partition_example =
    get_utxo_distribution-partition exact (pos 2) wallet (codes "c") (omega arith)
