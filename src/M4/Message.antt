-- ===== src/M4/Message.antt =====
-- litwindow/server/models/m4/m4.go: the messages, the votes and the constants of LIP 005.
-- A time is the number of its nanoseconds; a hash and any other text are bytes.
use drivechain_litwindow.Prelude.{ℕ, Option, List, Bytes}

-- `VoteType` is a string: the three that the package names, and any other.
pub data VoteType : Type 0 where
  abstain alarm upvote : VoteType
  other : Bytes → VoteType

pub record M4Vote : Type 0 where
  pub id : ℕ
  pub m4_message_id : ℕ
  pub sidechain_slot : ℕ  -- uint8
  pub vote_type : VoteType
  pub bundle_hash : Option Bytes
  pub bundle_index : Option ℕ  -- *uint16

pub record M4Message : Type 0 where
  pub id : ℕ
  pub block_height : ℕ  -- uint32
  pub block_hash : Bytes
  pub block_time : ℕ
  pub raw_bytes : Bytes
  pub version : ℕ  -- uint8
  pub votes : List M4Vote
  pub created_at : ℕ

pub record M3Message : Type 0 where
  pub id : ℕ
  pub block_height : ℕ  -- uint32
  pub block_hash : Bytes
  pub block_time : ℕ
  pub sidechain_slot : ℕ  -- uint8
  pub bundle_hash : Bytes
  pub created_at : ℕ

pub record VotePreference : Type 0 where
  pub sidechain_slot : ℕ  -- uint8
  pub vote_type : VoteType
  pub bundle_hash : Option Bytes
  pub updated_at : ℕ

abbrev pub m3_commitment_header : ℕ
m3_commitment_header = 0xD45AA943

abbrev pub m4_commitment_header : ℕ
m4_commitment_header = 0xD77D1776

abbrev pub min_work_score : ℕ
min_work_score = 13150

abbrev pub withdrawal_max_age : ℕ
withdrawal_max_age = 26300

abbrev pub vote_abstain : ℕ
vote_abstain = 0xFFFF

abbrev pub vote_alarm : ℕ
vote_alarm = 0xFFFE

-- `txscript.OP_RETURN`
abbrev pub op_return : ℕ
op_return = 0x6a
