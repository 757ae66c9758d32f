-- ===== src/Withdrawals/Tests.antt =====
-- Examples for the listing of withdrawal bundles.
use mathlib.Core.List.Permᴰ
use drivechain_litwindow.Prelude.{◌≤◌, ◌≡◌, ◌≢◌, refl, none, some, List, [], ◌∷◌, Bytes, same}
use drivechain_litwindow.Withdrawals.{
  WithdrawalBundle, PegBlock, pending, submitted_event, succeeded_event, process_peg_data_blocks,
  merge_bundles,
}
use drivechain_litwindow.Withdrawals.Merged.{count_id, count_blocks, merge_bundles-count}

abbrev bundle_id : Bytes
bundle_id = 0xB1 ∷ []

-- A bundle is submitted in block 100, and succeeds in block 130.
abbrev blocks : List PegBlock
blocks =
    record {
      block_info = some (some (record { m6_id = bundle_id; kind = submitted_event }) ∷ []);
      height = some 100;
    }
    ∷ record { block_info = none; height = some 101 }
    ∷ record {
      block_info =
          some
            (none ∷ some (record { m6_id = bundle_id; kind = succeeded_event (some 7) none }) ∷ []);
      height = some 130;
    }
    ∷ []

abbrev no_bundles : List WithdrawalBundle
no_bundles = []

merge_bundles-count_example :
    let listed = merge_bundles (λ xs. xs) no_bundles (process_peg_data_blocks 9 blocks) in
    (no_bundles ≡ [] → count_id bundle_id listed ≡ count_blocks bundle_id blocks)
    × (no_bundles ≢ [] → count_id bundle_id listed ≤ 1)
merge_bundles-count_example =
    merge_bundles-count (λ xs. xs) bundle_id 9 no_bundles blocks (λ xs. Permᴰ.refl xs)

-- Without a cache it is listed twice.
two_events : count_blocks bundle_id blocks ≡ 2
unfolding same
two_events = refl

abbrev pending_bundle : WithdrawalBundle
pending_bundle = record {
  m6_id = bundle_id;
  sidechain_id = 9;
  block_height = 100;
  status = pending;
  max_age = 26300;
  sequence_number = 0;
  transaction_hex = [];
  age = 0;
  blocks_left = 0;
}
