-- ===== src/M4/Scdb/Queries.antt =====
-- The reads of litwindow/server/engines/m4_engine.go, and the user's vote preferences.
use drivechain_litwindow.Prelude.{
  ℕ, ◌≡◌, refl, inl, inr, Bool, true, not, ◌&&◌, Option, none, some, List, [], ◌∷◌, Bytes, take,
  ltb, arith, Bool-cases, if◌then◌else◌, ◌==◌, keep, sort_by, sort_desc,
}
use drivechain_litwindow.Prelude.Int.{ℤ, pos, negsuc}
use drivechain_litwindow.Database.{Driver, World, Action, ◌>>=◌, pure, raise, exec, query}
use drivechain_litwindow.M4.Message.{VoteType, M4Vote, M4Message, VotePreference}
use drivechain_litwindow.M4.Scdb.{Bundle, Sidechain, Tables}

pub data QueryError : Type 0 where
  query_messages get_votes list_sidechains_failed : QueryError
  get_preferences set_preference get_bundles : QueryError

-- SELECT … FROM m4_votes WHERE m4_message_id = ? ORDER BY sidechain_slot
unfoldable pub votes_of_message : ℕ → Tables → List M4Vote
votes_of_message msg_id t =
    sort_by (λ (v : M4Vote). v.sidechain_slot)
      (keep (λ (v : M4Vote). v.m4_message_id == msg_id) t.m4_votes)

-- LIMIT ?: a negative limit is none
unfoldable pub limit_rows {ℓ} : {A : Type ℓ} → ℤ → List A → List A
limit_rows (pos n) rows = take n rows
limit_rows (negsuc n) rows = rows

unfoldable pub latest_messages : ℤ → Tables → List M4Message
unfolding limit_rows
latest_messages limit t =
    limit_rows limit (sort_desc (λ (m : M4Message). m.block_height) t.m4_messages)

module _ (d : Driver) where
  unfoldable pub get_votes_for_message : ℕ → Action QueryError Tables (List M4Vote)
  unfolding votes_of_message
  get_votes_for_message msg_id = query d get_votes (votes_of_message msg_id)

  -- The loop over the rows: one query of votes for each message, made while the rows are open. The
  -- rows hold one of the pool's connections; when the pool has no other, the query waits until the
  -- request's context ends and then fails. litwindow/server/database/db.go sets the pool to one.
  unfoldable pub load_votes : ℕ → List M4Message → Action QueryError Tables (List M4Message)
  unfolding get_votes_for_message
  load_votes connections [] = pure []
  load_votes connections (m ∷ rows) = do
    votes ← if ltb 1 connections then get_votes_for_message m.id else raise get_votes
    rest ← load_votes connections rows
    pure (record m { votes = votes } ∷ rest)

  unfoldable pub get_m4_history : ℕ → ℤ → Action QueryError Tables (List M4Message)
  unfolding load_votes latest_messages
  get_m4_history connections limit = do
    rows ← query d query_messages (latest_messages limit)
    load_votes connections rows

  unfoldable pub list_sidechains : Action QueryError Tables (List Sidechain)
  list_sidechains =
      query d list_sidechains_failed (λ t. sort_by (λ (s : Sidechain). s.slot) t.sidechains)

  unfoldable pub get_vote_preferences : Action QueryError Tables (List VotePreference)
  get_vote_preferences =
      query d get_preferences
        (λ t. sort_by (λ (p : VotePreference). p.sidechain_slot) t.preferences)

-- INSERT INTO m4_vote_preferences … ON CONFLICT(sidechain_slot) DO UPDATE SET …
unfoldable pub upsert_preference : VotePreference → List VotePreference → List VotePreference
upsert_preference p [] = p ∷ []
upsert_preference p (q ∷ rest) =
    let later = upsert_preference p rest in
    if q.sidechain_slot == p.sidechain_slot then p ∷ rest else q ∷ later

-- `SetVotePreference`; `time.Now()` is read as the statement is made.
unfoldable pub set_vote_preference :
    Driver → ℕ → VoteType → Option Bytes → Action QueryError Tables (Unit {0})
unfolding upsert_preference
set_vote_preference d slot vote_type bundle_hash = exec d set_preference (λ now t. record t {
  preferences =
      upsert_preference
        (record {
          sidechain_slot = slot;
          vote_type = vote_type;
          bundle_hash = bundle_hash;
          updated_at = now;
        })
        t.preferences;
})

abbrev for_slot : Option ℕ → Bundle → Bool
for_slot none b = true
for_slot (some slot) b = b.sidechain_slot == slot

-- SELECT … FROM withdrawal_bundles WHERE 1=1 [AND sidechain_slot = ?] ORDER BY sidechain_slot, first_seen_height
unfoldable pub selected_bundles : Option ℕ → Tables → List Bundle
selected_bundles slot t =
    sort_by (λ (b : Bundle). b.sidechain_slot)
      (sort_by (λ (b : Bundle). b.first_seen_height) (keep (for_slot slot) t.bundles))

unfoldable pub get_withdrawal_bundles : Driver → Option ℕ → Action QueryError Tables (List Bundle)
unfolding selected_bundles
get_withdrawal_bundles d slot = query d get_bundles (selected_bundles slot)

-- The preference for a sidechain.
abbrev pub preference_for : ℕ → List VotePreference → Option VotePreference
preference_for slot [] = none
preference_for slot (p ∷ rest) =
    let later = preference_for slot rest in if p.sidechain_slot == slot then some p else later

preference_for-upsert :
    (p : VotePreference) (slot : ℕ) (ps : List VotePreference)
    → preference_for slot (upsert_preference p ps)
      ≡ (if p.sidechain_slot == slot then some p else preference_for slot ps)
unfolding upsert_preference
preference_for-upsert p slot [] = refl
preference_for-upsert p slot (q ∷ ps) = ground (arith, preference_for-upsert p slot ps)

-- A preference that is set without an error is the preference for its sidechain, and those for all other sidechains stay; with an error all stay.
pub set_preference-lookup :
    (d : Driver) (slot : ℕ) (vote_type : VoteType) (hash : Option Bytes) (w : World Tables)
    (other : ℕ)
    → preference_for other (set_vote_preference d slot vote_type hash w).1.tables.preferences ≡ (
        if not (d.fails w.calls) && slot == other
        then some (record {
          sidechain_slot = slot;
          vote_type = vote_type;
          bundle_hash = hash;
          updated_at = d.clock w.calls;
        })
        else preference_for other w.tables.preferences)
unfolding set_vote_preference exec
set_preference-lookup d slot vote_type hash w other =
    let p : VotePreference = record {
      sidechain_slot = slot;
      vote_type = vote_type;
      bundle_hash = hash;
      updated_at = d.clock w.calls;
    } in
    elim (Bool-cases (d.fails w.calls)) [
      | inl bad ↦ rw bad
      | inr good ↦ rw good (preference_for-upsert p other w.tables.preferences)
    ]
