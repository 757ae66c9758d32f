-- ===== src/M4/Tests/Blocks.antt =====
-- Examples for the theorems on the tables of M4.
use drivechain_litwindow.Prelude.{
  ℕ, ◌+◌, ◌≡◌, refl, true, false, not, some, none, [], ◌∷◌, ◌++◌, map, Bytes, get_elem?, arith, err,
  is_ok, if◌then◌else◌, ltb, ◌==◌, keep,
}
use drivechain_litwindow.Database.{
  exec_insert, Driver, World, IsReliable, transaction, ◌>>=◌, insert, exec,
}
use drivechain_litwindow.M4.Message.{M3Message, M4Message, M4Vote, alarm}
use drivechain_litwindow.M4.Parser.Ballot.{commitment}
use drivechain_litwindow.M4.Parser.Proposal.{proposal}
use drivechain_litwindow.M4.Scdb.{Bundle, Tables, pending}
use drivechain_litwindow.M4.Scdb.Statements.{upvote_bundle, is_pending}
use drivechain_litwindow.M4.Scdb.Engine.{
  Block, process_block, persist_m4_message, persist_m3_message, update_bundle_states,
  delete_old_votes, insert_withdrawal_bundle,
}
use drivechain_litwindow.M4.Scdb.Evolution.{TablesEvolve}
use drivechain_litwindow.M4.Scdb.Evolution.Rows.{
  IsWellFormed, process_block-Evolves, process_block-IsWellFormed,
}
use drivechain_litwindow.M4.Scdb.Decision.{decide, update_bundle_states-decides}
use drivechain_litwindow.M4.Scdb.Lifetime.{HasCoinbase, process_blocks, decided_in_time}
use drivechain_litwindow.M4.Scdb.Upvotes.{total_score, pending_count, upvote_counts_once}
use drivechain_litwindow.M4.Scdb.Replay.{vote_rows, stored_id, persist_m4_votes}

-- A driver on which every call succeeds, and one on which the calls from the third on fail.
abbrev steady : Driver
steady = record { fails = λ n. false; clock = λ n. 1000 + n }

abbrev breaking : Driver
breaking = record { fails = λ n. ltb 1 n; clock = λ n. 1000 + n }

steady-IsReliable : IsReliable steady
steady-IsReliable n = refl

abbrev bundle : ℕ → ℕ → Bytes → ℕ → Bundle
bundle id slot hash left = record {
  id = id;
  sidechain_slot = slot;
  bundle_hash = hash;
  work_score = 1;
  blocks_left = left;
  max_age = 26300;
  first_seen_height = 100;
  last_updated_height = 100;
  status = pending;
  created_at = 0;
  updated_at = 0;
}

abbrev tables : Tables
tables = record {
  m3_messages = [];
  m4_messages = [];
  m4_votes = [];
  bundles = bundle 1 0 (0xAB ∷ []) 2 ∷ bundle 2 1 (0xCD ∷ []) 26300 ∷ [];
  preferences = [];
  sidechains = [];
  next_m3 = 1;
  next_m4 = 1;
  next_vote = 1;
  next_bundle = 3;
}

abbrev world : World Tables
world = record { tables = tables; last_rowid = 2; calls = 0 }

tables-IsWellFormed : IsWellFormed tables
tables-IsWellFormed = record {
  ordered = (omega arith, (omega arith, tt));
  distinct = ground arith;
  numbered = ((omega arith, omega arith), ((omega arith, omega arith), tt));
}

abbrev hash : Bytes
hash =
    1 ∷ 2 ∷ 3 ∷ 4 ∷ 5 ∷ 6 ∷ 7 ∷ 8 ∷ 9 ∷ 10 ∷ 11 ∷ 12 ∷ 13 ∷ 14 ∷ 15 ∷ 16 ∷ 17 ∷ 18 ∷ 19 ∷ 20 ∷ 21
    ∷ 22 ∷ 23 ∷ 24 ∷ 25 ∷ 26 ∷ 27 ∷ 28 ∷ 29 ∷ 30 ∷ 31 ∷ 32 ∷ []

-- The coinbase proposes a bundle, upvotes the first of sidechain 0 and sounds an alarm on sidechain 1.
abbrev block : Block
block = record {
  transactions =
      record { tx_out = proposal hash 5 ∷ commitment (0x01 ∷ 0x00 ∷ 0xFE ∷ []) ∷ [] } ∷ [];
  block_hash = 0x77 ∷ [];
  timestamp = 5;
}

process_block-Evolves_example :
    TablesEvolve tables (process_block breaking 101 block world).1.tables
process_block-Evolves_example = process_block-Evolves breaking 101 block world

process_block-IsWellFormed_example : IsWellFormed (process_block breaking 101 block world).1.tables
process_block-IsWellFormed_example =
    process_block-IsWellFormed breaking 101 block world tables-IsWellFormed

update_bundle_states-decides_example :
    (is_ok (update_bundle_states steady world).0 ≡ true)
    × ((update_bundle_states steady world).1.tables.bundles ≡ map (decide 1000) tables.bundles)
update_bundle_states-decides_example = update_bundle_states-decides steady world steady-IsReliable

block-HasCoinbase : HasCoinbase block
block-HasCoinbase = λ e. cc

-- The first bundle has two blocks left: it is decided after two blocks.
decided_in_time_example :
    (c : Bundle) × (get_elem?
        (process_blocks steady ((101, block) ∷ (102, block) ∷ []) world).tables.bundles
        0
      ≡ some c)
    × (is_pending c.status ≡ false)
decided_in_time_example =
    decided_in_time steady ((101, block) ∷ (102, block) ∷ []) world 0 steady-IsReliable
      (block-HasCoinbase, (block-HasCoinbase, tt)) refl (λ h. (omega arith, omega arith))

upvote_counts_once_example :
    total_score (upvote_bundle 101 0 0 1000 tables).bundles
    ≡ total_score tables.bundles + (if ltb 0 (pending_count 0 tables.bundles) then 1 else 0)
upvote_counts_once_example = upvote_counts_once 101 0 0 1000 tables tables-IsWellFormed

-- The message of the block, already stored under its height and hash with id 1.
abbrev vote : ℕ → M4Vote
vote id = record {
  id = id;
  m4_message_id = 1;
  sidechain_slot = 0;
  vote_type = alarm;
  bundle_hash = none;
  bundle_index = none;
}

abbrev message : M4Message
message = record {
  id = 1;
  block_height = 101;
  block_hash = 0x77 ∷ [];
  block_time = 5;
  raw_bytes = 0x01 ∷ 0xFE ∷ [];
  version = 1;
  votes = vote 0 ∷ [];
  created_at = 0;
}

-- The connection has last inserted the row 9 of another table.
abbrev stored : World Tables
stored = record {
  tables = record tables {
    m4_messages = record message { votes = [] } ∷ [];
    m4_votes = vote 1 ∷ [];
    next_m4 = 2;
    next_vote = 2;
  };
  last_rowid = 9;
  calls = 0;
}

persist_m4_votes_example :
    (is_ok (persist_m4_message steady message stored).0 ≡ true)
    × ((persist_m4_message steady message stored).1.tables.m4_votes
        ≡ keep (λ (v : M4Vote). not (v.m4_message_id == stored_id message stored)) (vote 1 ∷ [])
          ++ vote_rows 2 (stored_id message stored) (vote 0 ∷ []))
persist_m4_votes_example = persist_m4_votes steady message stored steady-IsReliable

persist_m4_fails : (persist_m4_message breaking message stored).0 ≡ err delete_old_votes
unfolding persist_m4_message transaction ◌>>=◌ insert exec
persist_m4_fails = refl

abbrev proposed : M3Message
proposed = record {
  id = 0;
  block_height = 101;
  block_hash = 0x77 ∷ [];
  block_time = 5;
  sidechain_slot = 5;
  bundle_hash = 0xEE ∷ [];
  created_at = 0;
}

persist_m3_fails : (persist_m3_message breaking proposed stored).0 ≡ err insert_withdrawal_bundle
unfolding persist_m3_message transaction ◌>>=◌ exec_insert
persist_m3_fails = refl
