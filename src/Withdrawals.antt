-- ===== src/Withdrawals.antt =====
-- litwindow/server/api/drivechain/drivechain.go: the withdrawal bundles that `ListWithdrawals` reads
-- from the peg data of the validator and keeps in a cache. Heights and ages are uint32 numbers. A Go
-- map has no order: what makes a list of it is a parameter.
pub mod Merged
pub mod Ages
pub mod Tests
use drivechain_litwindow.Prelude.{
  ℕ, suc, ◌+◌, ◌-◌, ◌%◌, ◌^◌, Bool, true, false, Option, none, some, List, [], ◌∷◌, ◌++◌, map,
  Bytes, same, ltb, if◌then◌else◌, some_item,
}

pub data Status : Type 0 where
  pending succeeded failed : Status

-- `pb.WithdrawalBundle`
pub record WithdrawalBundle : Type 0 where
  pub m6_id : Bytes
  pub sidechain_id : ℕ
  pub block_height : ℕ
  pub status : Status
  pub max_age : ℕ
  pub sequence_number : ℕ
  pub transaction_hex : Bytes
  pub age : ℕ
  pub blocks_left : ℕ

-- `validatorpb.WithdrawalBundleEvent`: the kind of event, and the fields of a success that may be missing
pub data EventKind : Type 0 where
  submitted_event failed_event other_event : EventKind
  succeeded_event : Option ℕ → Option Bytes → EventKind

pub record BundleEvent : Type 0 where
  pub m6_id : Bytes
  pub kind : EventKind

-- A block of the peg data: its height and its events, if the validator sent them. An event of
-- another kind than a withdrawal bundle's is none.
pub record PegBlock : Type 0 where
  pub block_info : Option (List (Option BundleEvent))
  pub height : Option ℕ

abbrev pub withdrawal_verification_period : ℕ
withdrawal_verification_period = 26300

abbrev or_zero : Option ℕ → ℕ
or_zero none = 0
or_zero (some n) = n

abbrev or_empty : Option Bytes → Bytes
or_empty none = []
or_empty (some b) = b

abbrev pub status_of : EventKind → Status
status_of submitted_event = pending
status_of failed_event = failed
status_of other_event = pending
status_of (succeeded_event sequence transaction) = succeeded

unfoldable pub bundle_of : ℕ → ℕ → BundleEvent → WithdrawalBundle
bundle_of sidechain_id height e = record {
  m6_id = e.m6_id;
  sidechain_id = sidechain_id;
  block_height = height;
  status = status_of e.kind;
  max_age = withdrawal_verification_period;
  sequence_number = elim e.kind [ succeeded_event sequence transaction ↦ or_zero sequence | _ ↦ 0 ];
  transaction_hex = elim e.kind [
    | succeeded_event sequence transaction ↦ or_empty transaction
    | _ ↦ []
  ];
  age = 0;
  blocks_left = 0;
}

unfoldable pub bundles_of_events : ℕ → ℕ → List (Option BundleEvent) → List WithdrawalBundle
unfolding bundle_of
bundles_of_events sidechain_id height [] = []
bundles_of_events sidechain_id height (none ∷ es) = bundles_of_events sidechain_id height es
bundles_of_events sidechain_id height (some e ∷ es) =
    bundle_of sidechain_id height e ∷ bundles_of_events sidechain_id height es

unfoldable pub bundles_of_block :
    ℕ → Option (List (Option BundleEvent)) → Option ℕ → List WithdrawalBundle
unfolding bundles_of_events
bundles_of_block sidechain_id (some es) (some height) = bundles_of_events sidechain_id height es
bundles_of_block sidechain_id _ _ = []

unfoldable pub process_peg_data_blocks : ℕ → List PegBlock → List WithdrawalBundle
unfolding bundles_of_block
process_peg_data_blocks sidechain_id [] = []
process_peg_data_blocks sidechain_id (b ∷ bs) =
    bundles_of_block sidechain_id b.block_info b.height ++ process_peg_data_blocks sidechain_id bs

-- an entry of the map: the last bundle with an id
unfoldable pub put : WithdrawalBundle → List WithdrawalBundle → List WithdrawalBundle
put b [] = b ∷ []
put b (c ∷ cs) = let later = put b cs in if same c.m6_id b.m6_id then b ∷ cs else c ∷ later

unfoldable pub map_of : List WithdrawalBundle → List WithdrawalBundle → List WithdrawalBundle
unfolding put
map_of m [] = m
map_of m (b ∷ bs) = map_of (put b m) bs

abbrev pub is_settled : Status → Bool
is_settled pending = false
is_settled succeeded = true
is_settled failed = true

-- a new event for a bundle that the map has: only a success or a failure changes it
abbrev pub settle : WithdrawalBundle → WithdrawalBundle → WithdrawalBundle
settle b c =
    if is_settled b.status
    then record c {
      status = b.status;
      sequence_number = b.sequence_number;
      transaction_hex = b.transaction_hex;
    }
    else c

unfoldable pub merge_one : WithdrawalBundle → List WithdrawalBundle → List WithdrawalBundle
merge_one b [] = b ∷ []
merge_one b (c ∷ cs) =
    let later = merge_one b cs in if same c.m6_id b.m6_id then settle b c ∷ cs else c ∷ later

unfoldable pub merge_all : List WithdrawalBundle → List WithdrawalBundle → List WithdrawalBundle
unfolding merge_one
merge_all m [] = m
merge_all m (b ∷ bs) = merge_all (merge_one b m) bs

unfoldable pub merge_bundles :
    (List WithdrawalBundle → List WithdrawalBundle)
    → List WithdrawalBundle
    → List WithdrawalBundle
    → List WithdrawalBundle
unfolding map_of merge_all
merge_bundles order [] new = new
merge_bundles order (b ∷ bs) new = order (merge_all (map_of [] (b ∷ bs)) new)

-- a subtraction of uint32 numbers
abbrev pub u32_sub : ℕ → ℕ → ℕ
u32_sub a b = (a + (2 ^ 32 - b % 2 ^ 32)) % 2 ^ 32

abbrev pub aged : ℕ → WithdrawalBundle → WithdrawalBundle
aged current_height b =
    let age = u32_sub current_height b.block_height in
    record b {
      age = age;
      blocks_left =
          if ltb age withdrawal_verification_period
          then withdrawal_verification_period - age
          else 0;
    }

unfoldable pub update_age : ℕ → WithdrawalBundle → WithdrawalBundle
update_age current_height b = if is_settled b.status then b else aged current_height b

unfoldable pub update_bundle_ages : List WithdrawalBundle → ℕ → List WithdrawalBundle
unfolding update_age
update_bundle_ages bs current_height = map (update_age current_height) bs
