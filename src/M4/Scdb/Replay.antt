-- ===== src/M4/Scdb/Replay.antt =====
-- What `persistM4Message` and `persistM3Message` leave in the tables.
use drivechain_litwindow.Prelude.{
  ℕ, suc, ◌≡◌, refl, ap, sym, ◌∙◌, inl, inr, true, not, none, List, [], ◌∷◌, ◌++◌, Bool-cases,
  if◌then◌else◌, ◌==◌, keep, some_item, Result, err, is_ok,
}
use mathlib.Core.List.{append_assoc, append-nil}
use drivechain_litwindow.Database.{
  Driver, World, Action, IsReliable, called, ◌>>=◌, ◌>>◌, exec, insert, for_each,
  transaction_atomic,
}
use drivechain_litwindow.Database.Succeeds.{
  Succeeds, Succeeds-pure, Succeeds-bind, Succeeds-for_each, bind_after, Succeeds-exec, exec_tables,
  Succeeds-insert, Succeeds-transaction, transaction_tables, insert_after,
}
use drivechain_litwindow.M4.Message.{M4Vote, M4Message, M3Message}
use drivechain_litwindow.M4.Scdb.{Tables}
use drivechain_litwindow.M4.Scdb.Statements.{
  upsert_m4_message, delete_votes, insert_vote, is_m4_row,
}
use drivechain_litwindow.M4.Scdb.Engine.{
  EngineError, transaction_failed, insert_m4, delete_old_votes, persist_m4_message,
  persist_m3_message, insert_one, index_of,
}

-- If `persistM4Message` returns an error, the tables are as they were: neither the message nor one of its votes is stored alone.
pub persist_m4_atomic :
    (d : Driver) (msg : M4Message) (w : World Tables) {e : EngineError}
    → (persist_m4_message d msg w).0 ≡ err e
    → (persist_m4_message d msg w).1.tables ≡ w.tables
unfolding persist_m4_message
persist_m4_atomic d msg w {e} h = transaction_atomic d transaction_failed _ w {y = e} h

-- If `persistM3Message` returns an error, the tables are as they were: the message and its bundle are stored together or not at all.
pub persist_m3_atomic :
    (d : Driver) (msg : M3Message) (w : World Tables) {e : EngineError}
    → (persist_m3_message d msg w).0 ≡ err e
    → (persist_m3_message d msg w).1.tables ≡ w.tables
unfolding persist_m3_message
persist_m3_atomic d msg w {e} h = transaction_atomic d transaction_failed _ w {y = e} h

-- The rows of a message's votes, numbered from `next`.
abbrev pub vote_rows : ℕ → ℕ → List M4Vote → List M4Vote
vote_rows next msg_id [] = []
vote_rows next msg_id (v ∷ vs) =
    record {
      id = next;
      m4_message_id = msg_id;
      sidechain_slot = v.sidechain_slot;
      vote_type = v.vote_type;
      bundle_hash = none;
      bundle_index = index_of v;
    }
    ∷ vote_rows (suc next) msg_id vs

module _ (d : Driver) (reliable : IsReliable d) where
  insert_one-Succeeds : (msg_id : ℕ) (v : M4Vote) → Succeeds (insert_one d msg_id v)
  unfolding insert_one
  insert_one-Succeeds msg_id v =
      Succeeds-bind _ _ (Succeeds-insert d reliable _ _) (λ _. Succeeds-pure tt)

  insert_one-rows :
      (msg_id : ℕ) (v : M4Vote) (w : World Tables)
      → ((insert_one d msg_id v w).1.tables.m4_votes
          ≡ w.tables.m4_votes ++ vote_rows w.tables.next_vote msg_id (v ∷ []))
        × ((insert_one d msg_id v w).1.tables.next_vote ≡ suc w.tables.next_vote)
  unfolding insert_one insert insert_vote ◌>>=◌
  insert_one-rows msg_id v w = rw (reliable w.calls) (refl, refl)

  votes_inserted :
      (msg_id : ℕ) (vs : List M4Vote) (w : World Tables)
      → (for_each (insert_one d msg_id) vs w).1.tables.m4_votes
        ≡ w.tables.m4_votes ++ vote_rows w.tables.next_vote msg_id vs
  unfolding for_each
  votes_inserted msg_id [] w = unfold ◌>>=◌ in sym (append-nil w.tables.m4_votes)
  votes_inserted msg_id (v ∷ vs) w =
      let first = insert_one-rows msg_id v w in
      let u = (insert_one d msg_id v w).1 in
      ap (λ (x : Result EngineError (Unit {0}) × World Tables). x.1.tables.m4_votes)
        (bind_after (insert_one d msg_id v) (for_each (insert_one d msg_id) vs) w
          (insert_one-Succeeds msg_id v))
      ∙ votes_inserted msg_id vs u
      ∙ rw (first.0, first.1)
          (append_assoc w.tables.m4_votes (vote_rows w.tables.next_vote msg_id (v ∷ []))
            (vote_rows (suc w.tables.next_vote) msg_id vs))

  body : M4Message → Action EngineError Tables (Unit {0})
  body msg = insert d insert_m4 (upsert_m4_message msg) >>= λ id.
      exec d delete_old_votes (delete_votes id) >> for_each (insert_one d id) msg.votes

  body-Succeeds : (msg : M4Message) → Succeeds (body msg)
  unfolding body
  body-Succeeds msg = Succeeds-bind _ _ (Succeeds-insert d reliable _ _) (λ id.
      Succeeds-bind _ _ (Succeeds-exec d reliable _ _)
        (λ _. Succeeds-for_each _ msg.votes (insert_one-Succeeds id)))

  pub persist_m4-Succeeds : (msg : M4Message) → Succeeds (persist_m4_message d msg)
  unfolding persist_m4_message body
  persist_m4-Succeeds msg = Succeeds-transaction d reliable _ _ (body-Succeeds msg)

  replaced :
      (id : ℕ) (vs : List M4Vote) (w : World Tables)
      → ((exec d delete_old_votes (delete_votes id) >> for_each (insert_one d id) vs)
          w).1.tables.m4_votes
        ≡ keep (λ (v : M4Vote). not (v.m4_message_id == id)) w.tables.m4_votes
          ++ vote_rows w.tables.next_vote id vs
  unfolding delete_votes
  replaced id vs w =
      let gone = delete_votes id in
      ap (λ (x : Result EngineError (Unit {0}) × World Tables). x.1.tables.m4_votes)
        (bind_after (exec d delete_old_votes gone) (for_each (insert_one d id) vs) w
          (Succeeds-exec d reliable delete_old_votes gone))
      ∙ votes_inserted id vs (exec d delete_old_votes gone w).1
      ∙ rw (exec_tables d reliable delete_old_votes gone w) refl

-- The id under which the engine stores the votes of a message.
abbrev pub stored_id : M4Message → World Tables → ℕ
stored_id msg w =
    if some_item (is_m4_row msg.block_height msg.block_hash) w.tables.m4_messages
    then w.last_rowid
    else w.tables.next_m4

upsert_lem :
    (msg : M4Message) (now last_rowid : ℕ) (t : Tables)
    → ((upsert_m4_message msg now last_rowid t).0.m4_votes ≡ t.m4_votes)
      × ((upsert_m4_message msg now last_rowid t).0.next_vote ≡ t.next_vote)
      × ((upsert_m4_message msg now last_rowid t).1 ≡ (
          if some_item (is_m4_row msg.block_height msg.block_hash) t.m4_messages
          then last_rowid
          else t.next_m4))
unfolding upsert_m4_message
upsert_lem msg now last_rowid t =
    elim (Bool-cases (some_item (is_m4_row msg.block_height msg.block_hash) t.m4_messages)) [
      | inl old ↦ rw old (refl, refl, refl)
      | inr new ↦ rw new (refl, refl, refl)
    ]

-- If no statement fails, `persistM4Message` succeeds, drops the votes of one message id and adds a row for each vote of the message under that id. The id is the new row's if the message is new; if the block's message is stored already, it is the row id of whatever the connection inserted last.
pub persist_m4_votes :
    (d : Driver) (msg : M4Message) (w : World Tables)
    → IsReliable d
    → (is_ok (persist_m4_message d msg w).0 ≡ true)
      × ((persist_m4_message d msg w).1.tables.m4_votes
          ≡ keep (λ (v : M4Vote). not (v.m4_message_id == stored_id msg w)) w.tables.m4_votes
            ++ vote_rows w.tables.next_vote (stored_id msg w) msg.votes)
unfolding persist_m4_message body
persist_m4_votes d msg w reliable =
    let now = d.clock (suc w.calls) in
    let upserted = upsert_m4_message msg now w.last_rowid w.tables in
    let facts = upsert_lem msg now w.last_rowid w.tables in
    let v : World Tables = record (called (called w)) {
      tables = upserted.0;
      last_rowid = upserted.1;
    } in
    (
      (persist_m4-Succeeds d reliable msg).at w,
      ap (λ (t : Tables). t.m4_votes)
            (transaction_tables d reliable transaction_failed (body d reliable msg) w
              (body-Succeeds d reliable msg))
          ∙ ap (λ (x : Result EngineError (Unit {0}) × World Tables). x.1.tables.m4_votes)
              (insert_after d reliable insert_m4 (upsert_m4_message msg) _ (called w))
          ∙ replaced d reliable upserted.1 msg.votes v
          ∙ rw (facts.0, facts.1, facts.2) refl,
    )
