-- ===== src/M4/Parser/Ballot.antt =====
-- What the parser makes of the vector that `EncodeVotePreferences` writes.
use drivechain_litwindow.Prelude.{
  ℕ, zero, suc, ◌%◌, ◌≡◌, true, some, Bytes, List, [], ◌∷◌, map, get_elem?, arith, ok, is_ok,
}
use drivechain_litwindow.M4.Message.{
  M4Message, M4Vote, VoteType, VotePreference, abstain, alarm, upvote, other, op_return,
}
use drivechain_litwindow.M4.Parser.{
  parse_m4_bytes, parse_version01, vote_of_byte, encode_vote_preferences, preference_byte,
}
use drivechain_litwindow.M4.Parser.Votes.{version01-positions}

-- The OP_RETURN output that commits to a body of version and vector.
abbrev pub commitment : Bytes → Bytes
commitment body = op_return ∷ 0x76 ∷ 0x17 ∷ 0x7D ∷ 0xD7 ∷ body

preference_bytes : List VotePreference → Bytes
preference_bytes = map (λ (p : VotePreference). preference_byte p.vote_type)

get_elem?-map :
    (prefs : List VotePreference) (i : ℕ) {p : VotePreference}
    → get_elem? prefs i ≡ some p
    → get_elem? (preference_bytes prefs) i ≡ some (preference_byte p.vote_type)
unfolding preference_bytes
get_elem?-map [] i h = cc
get_elem?-map (q ∷ prefs) zero h = ground arith
get_elem?-map (q ∷ prefs) (suc i) h = get_elem?-map prefs i h

-- The type that a preference is cast as.
abbrev pub cast_type : VoteType → VoteType
cast_type abstain = abstain
cast_type alarm = alarm
cast_type upvote = abstain
cast_type (other t) = upvote

cast-vote_of_byte :
    (i : ℕ) (t : VoteType)
    → ((vote_of_byte i (preference_byte t)).vote_type ≡ cast_type t)
      × ((vote_of_byte i (preference_byte t)).sidechain_slot ≡ i % 256)
unfolding vote_of_byte preference_byte
cast-vote_of_byte i t = ground arith

parse-encode_lem :
    (prefs : List VotePreference) {m : M4Message}
    → parse_m4_bytes (commitment (encode_vote_preferences prefs)) ≡ ok m
    → m.votes ≡ parse_version01 (preference_bytes prefs)
unfolding parse_m4_bytes encode_vote_preferences preference_bytes
parse-encode_lem prefs h = ground arith

-- Read back, the preference at position `i` is a vote for sidechain `i` modulo 256, whatever slot the preference names: an abstention and an alarm keep their type, an upvote has become an abstention.
pub parse-encode_positions :
    (prefs : List VotePreference) (i : ℕ) {p : VotePreference} {m : M4Message}
    → parse_m4_bytes (commitment (encode_vote_preferences prefs)) ≡ ok m
    → get_elem? prefs i ≡ some p
    → (v : M4Vote) × (get_elem? m.votes i ≡ some v)
      × (v.vote_type ≡ cast_type p.vote_type)
      × (v.sidechain_slot ≡ i % 256)
parse-encode_positions prefs i {p} {m} parsed h = (
  vote_of_byte i (preference_byte p.vote_type),
  rw (parse-encode_lem prefs parsed)
      (version01-positions (preference_bytes prefs) i (get_elem?-map prefs i h)),
  (cast-vote_of_byte i p.vote_type).0,
  (cast-vote_of_byte i p.vote_type).1,
)

-- The parser accepts every vector that `EncodeVotePreferences` writes.
pub parse-encode_ok :
    (prefs : List VotePreference)
    → is_ok (parse_m4_bytes (commitment (encode_vote_preferences prefs))) ≡ true
unfolding parse_m4_bytes encode_vote_preferences
parse-encode_ok prefs = ground arith
