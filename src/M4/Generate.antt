-- ===== src/M4/Generate.antt =====
-- litwindow/server/api/m4/m4.go: the requests that set a preference and that generate the M4 bytes
-- to vote by. The text that explains the bytes to the user is not modelled.
pub mod Positions
use drivechain_litwindow.Prelude.{
  ℕ, zero, suc, ◌+◌, ◌*◌, ◌/◌, ◌%◌, Bool, true, false, not, ◌&&◌, Option, none, some, List, [], ◌∷◌,
  ◌++◌, Bytes, length, if◌then◌else◌, ◌==◌, keep, same, Result, ok, err,
}
use drivechain_litwindow.Database.{Driver, World, Action, pure, raise, continue, ◌>>=◌, ◌>>◌}
use drivechain_litwindow.M4.Message.{
  VoteType, abstain, alarm, upvote, other, VotePreference, vote_abstain, vote_alarm,
}
use drivechain_litwindow.M4.Scdb.{Bundle, Tables}
use drivechain_litwindow.M4.Scdb.Statements.{is_votable, is_pending}
use drivechain_litwindow.M4.Scdb.Queries.{
  QueryError, set_vote_preference, get_withdrawal_bundles, get_vote_preferences,
}

-- `bundlesBySidechain`: the pending bundles of a sidechain, in the order of the query
abbrev pub bundles_of : ℕ → List Bundle → List Bundle
bundles_of slot bs = keep (is_votable slot) bs

-- `prefMap`: a later preference for the same sidechain replaces an earlier one
unfoldable pub preference_of :
    ℕ → List VotePreference → Option VotePreference → Option VotePreference
preference_of slot [] found = found
preference_of slot (p ∷ ps) found =
    preference_of slot ps (if p.sidechain_slot == slot then some p else found)

-- the search for the bundle by its hash; the index is a uint16
unfoldable pub index_by_hash : Bytes → ℕ → List Bundle → ℕ
index_by_hash hash i [] = vote_abstain
index_by_hash hash i (b ∷ bs) =
    let later = index_by_hash hash (i + 1) bs in
    if same b.bundle_hash hash then i % 65536 else later

unfoldable pub upvote_index : Option Bytes → List Bundle → ℕ
unfolding index_by_hash
upvote_index none bs = vote_abstain
upvote_index (some hash) bs = index_by_hash hash 0 bs

-- the `switch` over the preference; a vote type with no case leaves both bytes 0
unfoldable pub word_by_type : VoteType → Option Bytes → List Bundle → ℕ
unfolding upvote_index
word_by_type abstain hash bs = vote_abstain
word_by_type alarm hash bs = vote_alarm
word_by_type upvote hash bs = upvote_index hash bs
word_by_type (other t) hash bs = 0

unfoldable pub vote_word : Option VotePreference → List Bundle → ℕ
unfolding word_by_type
vote_word none bs = vote_abstain
vote_word (some p) bs = word_by_type p.vote_type p.bundle_hash bs

abbrev pub is_empty {ℓ} : {A : Type ℓ} → List A → Bool
is_empty [] = true
is_empty (a ∷ rest) = false

module _ (prefs : List VotePreference) (bs : List Bundle) where
  unfoldable pub word_for : ℕ → ℕ
  unfolding preference_of vote_word
  word_for slot = vote_word (preference_of slot prefs none) (bundles_of slot bs)

  -- the loop over the slots, with the rounds left: a sidechain with no pending bundle is skipped
  unfoldable pub slot_bytes : ℕ → ℕ → Bytes
  slot_bytes zero slot = []
  slot_bytes (suc rounds) slot =
      let later = slot_bytes rounds (slot + 1) in
      if is_empty (bundles_of slot bs)
      then later
      else (word_for slot % 256) ∷ (word_for slot / 256) ∷ later

  unfoldable pub m4_body : Bytes
  unfolding slot_bytes
  m4_body = 0x02 ∷ slot_bytes 256 0

-- what follows the test that a sidechain has a pending bundle
unfoldable pub ballot_of : Driver → List Bundle → Bool → Action QueryError Tables (Option Bytes)
ballot_of d bs true = pure none
ballot_of d bs false = do prefs ← get_vote_preferences d; pure (some (m4_body prefs bs))

-- `GenerateM4Bytes`: nothing to vote on, or the bytes before they are written in hexadecimal
unfoldable pub generate_m4_bytes : Driver → Action QueryError Tables (Option Bytes)
unfolding ballot_of
generate_m4_bytes d = do
  bs ← get_withdrawal_bundles d none
  ballot_of d bs (is_empty (keep (λ (b : Bundle). is_pending b.status) bs))

pub data RequestError : Type 0 where
  invalid_vote_type : RequestError
  engine_failed : QueryError → RequestError

abbrev wrap :
    Result QueryError (Unit {0}) × World Tables → Result RequestError (Unit {0}) × World Tables
wrap (ok a, w) = (ok a, w)
wrap (err e, w) = (err (engine_failed e), w)

-- `SetVotePreference`: the slot of the request is cut to a uint8
unfoldable pub set_preference_request :
    Driver → ℕ → VoteType → Option Bytes → Action RequestError Tables (Unit {0})
set_preference_request d slot (other t) hash w = (err invalid_vote_type, w)
set_preference_request d slot vote_type hash w =
    wrap (set_vote_preference d (slot % 256) vote_type hash w)
