-- ===== src/M4/Parser.antt =====
-- litwindow/server/models/m4/parser.go: the bytes of the M3 and M4 messages in a coinbase's
-- OP_RETURN outputs. A loop that appends to a slice is a recursion that returns the list.
pub mod Accepts
pub mod Votes
pub mod Proposal
pub mod Ballot
use drivechain_litwindow.Prelude.{
  ℕ, zero, suc, ◌+◌, ◌*◌, ◌/◌, ◌%◌, Bool, true, false, not, Option, none, some, List, [], ◌∷◌, ◌++◌,
  map, reverse, Bytes, length, get_or, take, drop, ltb, ◌==◌, if◌then◌else◌, Result, ok, err,
}
use drivechain_litwindow.M4.Message.{
  VoteType, abstain, alarm, upvote, other, M4Vote, M4Message, M3Message, VotePreference,
  m3_commitment_header, m4_commitment_header, vote_abstain, vote_alarm, op_return,
}

pub data ParseError : Type 0 where
  too_short : ℕ → ParseError
  invalid_length : ℕ → ParseError
  not_op_return : ℕ → ParseError
  invalid_header : ℕ → ParseError
  odd_vector : ℕ → ParseError
  unsupported_version : ℕ → ParseError

-- `binary.LittleEndian.Uint32` and `Uint16`
abbrev pub uint32_le : Bytes → ℕ
uint32_le b = get_or b 0 0 + 256 * get_or b 1 0 + 65536 * get_or b 2 0 + 16777216 * get_or b 3 0

abbrev pub uint16_le : ℕ → ℕ → ℕ
uint16_le lo hi = lo + 256 * hi

abbrev new_vote : ℕ → M4Vote
new_vote slot = record {
  id = 0;
  m4_message_id = 0;
  sidechain_slot = slot % 256;
  vote_type = other [];
  bundle_hash = none;
  bundle_index = none;
}

-- one round of the loop of `parseVersion01`
unfoldable pub vote_of_byte : ℕ → ℕ → M4Vote
vote_of_byte slot b =
    if b == 0xFF
    then record (new_vote slot) { vote_type = abstain }
    else if b == 0xFE
    then record (new_vote slot) { vote_type = alarm }
    else record (new_vote slot) { vote_type = upvote; bundle_index = some b }

unfoldable pub version01_from : ℕ → Bytes → List M4Vote
version01_from slot [] = []
version01_from slot (b ∷ vector) = vote_of_byte slot b ∷ version01_from (slot + 1) vector

unfoldable pub parse_version01 : Bytes → List M4Vote
unfolding version01_from vote_of_byte
parse_version01 vector = version01_from 0 vector

-- one round of the loop of `parseVersion02`, at the offset `i`
unfoldable pub vote_of_word : ℕ → ℕ → M4Vote
vote_of_word i value =
    if value == vote_abstain
    then record (new_vote (i / 2)) { vote_type = abstain }
    else if value == vote_alarm
    then record (new_vote (i / 2)) { vote_type = alarm }
    else record (new_vote (i / 2)) { vote_type = upvote; bundle_index = some value }

unfoldable pub version02_from : ℕ → Bytes → List M4Vote
version02_from i (lo ∷ hi ∷ vector) =
    vote_of_word i (uint16_le lo hi) ∷ version02_from (i + 2) vector
version02_from i _ = []

unfoldable pub parse_version02 : Bytes → Result ParseError (List M4Vote)
unfolding version02_from vote_of_word
parse_version02 vector =
    if not (length vector % 2 == 0)
    then err (odd_vector (length vector))
    else ok (version02_from 0 vector)

abbrev new_message : ℕ → Bytes → M4Message
new_message version raw = record {
  id = 0;
  block_height = 0;
  block_hash = [];
  block_time = 0;
  raw_bytes = raw;
  version = version;
  votes = [];
  created_at = 0;
}

abbrev with_votes : M4Message → Result ParseError (List M4Vote) → Result ParseError M4Message
with_votes msg (ok vs) = ok (record msg { votes = vs })
with_votes msg (err e) = err e

-- the `switch` on the version; version 3 is left without votes
unfoldable pub parse_version : ℕ → Bytes → Bytes → Result ParseError M4Message
parse_version version raw vector =
    let msg = new_message version raw in
    if version == 0x00
    then ok msg
    else if version == 0x01
    then ok (record msg { votes = parse_version01 vector })
    else if version == 0x02
    then with_votes msg (parse_version02 vector)
    else if version == 0x03
    then ok msg
    else err (unsupported_version version)

unfoldable pub parse_m4_bytes : Bytes → Result ParseError M4Message
unfolding parse_version
parse_m4_bytes script =
    let header = uint32_le (take 4 (drop 1 script)) in
    if ltb (length script) 6
    then err (too_short (length script))
    else if not (get_or script 0 0 == op_return)
    then err (not_op_return (get_or script 0 0))
    else if not (header == m4_commitment_header)
    then err (invalid_header header)
    else parse_version (get_or script 5 0) (drop 5 script) (drop 6 script)

unfoldable pub is_m4_commitment : Bytes → Bool
is_m4_commitment script =
    if ltb (length script) 6
    then false
    else if not (get_or script 0 0 == op_return)
    then false
    else uint32_le (take 4 (drop 1 script)) == m4_commitment_header

-- `%x` of a slice: two lower-case digits for each byte
abbrev pub hex_digit : ℕ → ℕ
hex_digit d = if ltb d 10 then b'0' + d else 87 + d

unfoldable pub hex : Bytes → Bytes
hex [] = []
hex (b ∷ bs) = hex_digit (b / 16) ∷ hex_digit (b % 16) ∷ hex bs

-- The message of an accepted script. The swaps of `i` and `31 - i` for `i < 16` reverse 32 bytes.
unfoldable pub m3_message : Bytes → M3Message
m3_message script = record {
  id = 0;
  block_height = 0;
  block_hash = [];
  block_time = 0;
  sidechain_slot = get_or script 37 0;
  bundle_hash = hex (reverse (take 32 (drop 5 script)));
  created_at = 0;
}

unfoldable pub parse_m3_bytes : Bytes → Result ParseError M3Message
parse_m3_bytes script =
    let header = uint32_le (take 4 (drop 1 script)) in
    if not (length script == 38)
    then err (invalid_length (length script))
    else if not (get_or script 0 0 == op_return)
    then err (not_op_return (get_or script 0 0))
    else if not (header == m3_commitment_header)
    then err (invalid_header header)
    else ok (m3_message script)

unfoldable pub is_m3_commitment : Bytes → Bool
is_m3_commitment script =
    if not (length script == 38)
    then false
    else if not (get_or script 0 0 == op_return)
    then false
    else uint32_le (take 4 (drop 1 script)) == m3_commitment_header

-- one round of the loop of `EncodeVotePreferences`; a type with no case leaves the byte 0
unfoldable pub preference_byte : VoteType → ℕ
preference_byte abstain = 0xFF
preference_byte alarm = 0xFE
preference_byte upvote = 0xFF
preference_byte (other t) = 0x00

unfoldable pub encode_vote_preferences : List VotePreference → Bytes
unfolding preference_byte
encode_vote_preferences prefs =
    0x01 ∷ map (λ (p : VotePreference). preference_byte p.vote_type) prefs
