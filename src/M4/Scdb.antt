-- ===== src/M4/Scdb.antt =====
-- The tables of litwindow/server/database/migrations/019_m4_scdb.sql, and the SQL statements that
-- litwindow/server/engines/m4_engine.go runs on them, each as a function of the tables.
-- Rows stand in the order of their ids. Foreign keys are not enforced (SQLite's default).
pub mod Statements
pub mod Engine
pub mod Queries
pub mod Evolution
pub mod Decision
pub mod Lifetime
pub mod Upvotes
pub mod Replay
use drivechain_litwindow.Prelude.{ℕ, Option, List, Bytes}
use drivechain_litwindow.M4.Message.{M4Vote, M4Message, M3Message, VotePreference}

-- `BundleStatus`
pub data BundleStatus : Type 0 where
  pending approved failed expired : BundleStatus

-- `WithdrawalBundle`, a row of `withdrawal_bundles`
pub record Bundle : Type 0 where
  pub id : ℕ
  pub sidechain_slot : ℕ
  pub bundle_hash : Bytes
  pub work_score : ℕ
  pub blocks_left : ℕ
  pub max_age : ℕ
  pub first_seen_height : ℕ
  pub last_updated_height : ℕ
  pub status : BundleStatus
  pub created_at : ℕ
  pub updated_at : ℕ

-- A row of `sidechains`
pub record Sidechain : Type 0 where
  pub slot : ℕ
  pub name : Bytes
  pub description : Bytes
  pub version : Bytes
  pub activated_height : Option ℕ
  pub created_at : ℕ

-- The five tables that the engine reads and writes, and the next id of each of the four that
-- number their rows. The votes of a message are rows of `m4_votes`, so its row has none.
pub record Tables : Type 0 where
  pub m3_messages : List M3Message
  pub m4_messages : List M4Message
  pub m4_votes : List M4Vote
  pub bundles : List Bundle
  pub preferences : List VotePreference
  pub sidechains : List Sidechain
  pub next_m3 : ℕ
  pub next_m4 : ℕ
  pub next_vote : ℕ
  pub next_bundle : ℕ
