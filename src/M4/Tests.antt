-- ===== src/M4/Tests.antt =====
-- Examples for the theorems on the scripts and the generated bytes of M4.
pub mod Blocks
use drivechain_litwindow.Prelude.{
  ℕ, ◌-◌, ◌%◌, ◌≡◌, ◌≤◌, ◌<◌, ◌↔◌, refl, true, some, none, List, [], ◌∷◌, ◌++◌, map, reverse, Bytes,
  length, get_elem?, get_or, drop, arith, ok, is_ok, All,
}
use drivechain_litwindow.M4.Message.{
  M3Message, M4Message, M4Vote, VotePreference, abstain, alarm, upvote, op_return,
}
use drivechain_litwindow.M4.Parser.{
  parse_m4_bytes, parse_m3_bytes, is_m4_commitment, is_m3_commitment, parse_version01,
  parse_version02, vote_of_byte, encode_vote_preferences, hex, m3_message, uint16_le,
}
use drivechain_litwindow.M4.Parser.Accepts.{IsSupported, parse_m4-accepts, parse_m3-accepts}
use drivechain_litwindow.M4.Parser.Votes.{
  IsByte, byte_of_vote, bytes_of_votes, word_of, version01-lossless, version01-positions,
  version02-lossless, version02-positions,
}
use drivechain_litwindow.M4.Parser.Ballot.{
  commitment, cast_type, parse-encode_positions, parse-encode_ok,
}
use drivechain_litwindow.M4.Parser.Proposal.{proposal, unhex, parse_m3-proposal, parse_m3-lossless}
use drivechain_litwindow.M4.Scdb.{Bundle, pending, approved}
use drivechain_litwindow.M4.Generate.{m4_body, word_for}
use drivechain_litwindow.M4.Generate.Positions.{voting_slots, generated_ok, generated_positions}

abbrev script_of_words : Bytes
script_of_words = commitment (0x02 ∷ 0x03 ∷ 0x00 ∷ 0xFE ∷ 0xFF ∷ [])

words_are_accepted : is_ok (parse_m4_bytes script_of_words) ≡ true
unfolding parse_m4_bytes parse_version02
words_are_accepted = refl

abbrev vector : Bytes
vector = 0x05 ∷ 0xFF ∷ 0xFE ∷ 0x00 ∷ []

version01-positions_example : get_elem? (parse_version01 vector) 2 ≡ some (vote_of_byte 2 0xFE)
version01-positions_example = version01-positions vector 2 refl

abbrev votes_of_vector : List M4Vote
votes_of_vector =
    record {
      id = 0;
      m4_message_id = 0;
      sidechain_slot = 0;
      vote_type = upvote;
      bundle_hash = none;
      bundle_index = some 0xFF05;
    }
    ∷ record {
      id = 0;
      m4_message_id = 0;
      sidechain_slot = 1;
      vote_type = upvote;
      bundle_hash = none;
      bundle_index = some 0x00FE;
    }
    ∷ []

vector_parses : parse_version02 vector ≡ ok votes_of_vector
unfolding parse_version02
vector_parses = refl

abbrev vector_bytes : All IsByte vector
vector_bytes = (omega arith, (omega arith, (omega arith, (omega arith, tt))))

abbrev second_vote : M4Vote
second_vote = record {
  id = 0;
  m4_message_id = 0;
  sidechain_slot = 1;
  vote_type = upvote;
  bundle_hash = none;
  bundle_index = some 0x00FE;
}

-- A preference for sidechain 9 alone.
abbrev alarm_for_nine : List VotePreference
alarm_for_nine =
    record { sidechain_slot = 9; vote_type = alarm; bundle_hash = none; updated_at = 0 } ∷ []

parse-encode_ok_example :
    is_ok (parse_m4_bytes (commitment (encode_vote_preferences alarm_for_nine))) ≡ true
parse-encode_ok_example = parse-encode_ok alarm_for_nine

abbrev alarm_for_zero : M4Message
alarm_for_zero = record {
  id = 0;
  block_height = 0;
  block_hash = [];
  block_time = 0;
  raw_bytes = 0x01 ∷ 0xFE ∷ [];
  version = 1;
  votes =
      record {
        id = 0;
        m4_message_id = 0;
        sidechain_slot = 0;
        vote_type = alarm;
        bundle_hash = none;
        bundle_index = none;
      }
      ∷ [];
  created_at = 0;
}

alarm_is_read :
    parse_m4_bytes (commitment (encode_vote_preferences alarm_for_nine)) ≡ ok alarm_for_zero
unfolding parse_m4_bytes encode_vote_preferences parse_version01
alarm_is_read = refl

parse-encode_positions_example :
    (v : M4Vote) × (get_elem? alarm_for_zero.votes 0 ≡ some v)
    × (v.vote_type ≡ cast_type alarm)
    × (v.sidechain_slot ≡ 0 % 256)
parse-encode_positions_example = parse-encode_positions alarm_for_nine 0 alarm_is_read refl

abbrev hash : Bytes
hash =
    1 ∷ 2 ∷ 3 ∷ 4 ∷ 5 ∷ 6 ∷ 7 ∷ 8 ∷ 9 ∷ 10 ∷ 11 ∷ 12 ∷ 13 ∷ 14 ∷ 15 ∷ 16 ∷ 17 ∷ 18 ∷ 19 ∷ 20 ∷ 21
    ∷ 22 ∷ 23 ∷ 24 ∷ 25 ∷ 26 ∷ 27 ∷ 28 ∷ 29 ∷ 30 ∷ 31 ∷ 32 ∷ []

abbrev bundle : ℕ → ℕ → Bytes → Bundle
bundle id slot hash = record {
  id = id;
  sidechain_slot = slot;
  bundle_hash = hash;
  work_score = 1;
  blocks_left = 2;
  max_age = 26300;
  first_seen_height = 100;
  last_updated_height = 100;
  status = pending;
  created_at = 0;
  updated_at = 0;
}

-- Sidechain 9 has a pending bundle, and no sidechain below has one.
abbrev only_nine : List Bundle
only_nine = bundle 1 9 (0xAB ∷ []) ∷ []

abbrev generated_message : M4Message
generated_message = record {
  id = 0;
  block_height = 0;
  block_hash = [];
  block_time = 0;
  raw_bytes = 0x02 ∷ 0xFE ∷ 0xFF ∷ [];
  version = 2;
  votes =
      record {
        id = 0;
        m4_message_id = 0;
        sidechain_slot = 0;
        vote_type = alarm;
        bundle_hash = none;
        bundle_index = none;
      }
      ∷ [];
  created_at = 0;
}

generated_is_read :
    parse_m4_bytes (commitment (m4_body alarm_for_nine only_nine)) ≡ ok generated_message
unfolding m4_body parse_m4_bytes parse_version02 word_for
generated_is_read = refl

generated_positions_example :
    (v : M4Vote) × (get_elem? generated_message.votes 0 ≡ some v)
    × (v.sidechain_slot ≡ 0 % 256)
    × (word_of 0xFFFF 0xFFFE v ≡ word_for alarm_for_nine only_nine 9)
generated_positions_example = generated_positions alarm_for_nine only_nine 0 generated_is_read refl

-- `proposal hash 5` has bytes only, and parses.
proposal_is_read : parse_m3_bytes (proposal hash 5) ≡ ok (m3_message (proposal hash 5))
unfolding parse_m3_bytes m3_message
proposal_is_read = refl

proposal_bytes : All IsByte (proposal hash 5)
proposal_bytes = ground arith
