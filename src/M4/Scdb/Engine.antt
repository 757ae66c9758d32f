-- ===== src/M4/Scdb/Engine.antt =====
-- litwindow/server/engines/m4_engine.go: the calls of the M4 engine, in the order of the source.
use drivechain_litwindow.Prelude.{
  ℕ, Option, none, some, List, [], ◌∷◌, Bytes, if◌then◌else◌, Result, ok, err,
}
use drivechain_litwindow.Database.{
  Driver, Action, pure, raise, exec, exec_insert, insert, transaction, for_each, logged, ◌>>=◌,
  ◌>>◌,
}
use drivechain_litwindow.M4.Message.{
  VoteType, abstain, alarm, upvote, other, M4Vote, M4Message, M3Message,
}
use drivechain_litwindow.M4.Parser.{
  is_m4_commitment, parse_m4_bytes, is_m3_commitment, parse_m3_bytes,
}
use drivechain_litwindow.M4.Scdb.{Tables}
use drivechain_litwindow.M4.Scdb.Statements.{
  insert_m3_message, inserted_m3, insert_bundle, inserted_bundle, upsert_m4_message, delete_votes,
  insert_vote, upvote_bundle, alarm_bundles, touch_bundles, age_bundles, approve_bundles,
  fail_bundles, expire_bundles,
}

-- The errors of the engine, by the text that wraps them.
pub data EngineError : Type 0 where
  no_transactions transaction_failed : EngineError
  insert_m4 delete_old_votes insert_vote_failed : EngineError
  insert_m3 insert_withdrawal_bundle : EngineError
  upvote_failed alarm_failed abstain_failed : EngineError
  decrement_failed mark_approved mark_failed mark_expired : EngineError
  no_commitment parse_failed : EngineError

-- `wire.MsgTx` and `wire.MsgBlock`, as far as the engine reads them: the scripts of the outputs, the
-- hash and the time of the block.
pub record Transaction : Type 0 where
  pub tx_out : List Bytes

pub record Block : Type 0 where
  pub transactions : List Transaction
  pub block_hash : Bytes
  pub timestamp : ℕ

-- `extractM4FromCoinbase`: the first output with the header decides
unfoldable pub m4_of_scripts : List Bytes → Result EngineError M4Message
m4_of_scripts [] = err no_commitment
m4_of_scripts (script ∷ scripts) =
    if is_m4_commitment script
    then elim (parse_m4_bytes script) [ ok msg ↦ ok msg | err e ↦ err parse_failed ]
    else m4_of_scripts scripts

-- `extractM3FromCoinbase`: every output with the header that parses
unfoldable pub m3_of_scripts : List Bytes → List M3Message
m3_of_scripts [] = []
m3_of_scripts (script ∷ scripts) =
    let later = m3_of_scripts scripts in
    if is_m3_commitment script
    then elim (parse_m3_bytes script) [ ok msg ↦ msg ∷ later | err e ↦ later ]
    else later

abbrev pub index_of : M4Vote → Option ℕ
index_of v = elim v.vote_type [ upvote ↦ v.bundle_index | _ ↦ none ]

module _ (d : Driver) where
  unfoldable pub insert_one : ℕ → M4Vote → Action EngineError Tables (Unit {0})
  insert_one msg_id v = do
    _ ← insert d insert_vote_failed (insert_vote msg_id v.sidechain_slot v.vote_type (index_of v))
    pure tt

  unfoldable pub persist_m4_message : M4Message → Action EngineError Tables (Unit {0})
  unfolding insert_one
  persist_m4_message msg = transaction d transaction_failed (do
    msg_id ← insert d insert_m4 (upsert_m4_message msg)
    exec d delete_old_votes (delete_votes msg_id)
    for_each (insert_one msg_id) msg.votes)

  unfoldable pub persist_m3_message : M3Message → Action EngineError Tables (Unit {0})
  persist_m3_message msg = transaction d transaction_failed (do
    exec_insert d insert_m3 (insert_m3_message msg) (inserted_m3 msg)
    exec_insert d insert_withdrawal_bundle (insert_bundle msg) (inserted_bundle msg))

  unfoldable pub upvote_at : ℕ → ℕ → Option ℕ → Action EngineError Tables (Unit {0})
  upvote_at height slot none = pure tt
  upvote_at height slot (some i) = exec d upvote_failed (upvote_bundle height slot i)

  unfoldable pub apply_by_type : ℕ → ℕ → Option ℕ → VoteType → Action EngineError Tables (Unit {0})
  unfolding upvote_at
  apply_by_type height slot index upvote = upvote_at height slot index
  apply_by_type height slot index alarm = exec d alarm_failed (alarm_bundles height slot)
  apply_by_type height slot index abstain = exec d abstain_failed (touch_bundles height slot)
  apply_by_type height slot index (other t) = pure tt

  unfoldable pub apply_vote : ℕ → M4Vote → Action EngineError Tables (Unit {0})
  unfolding apply_by_type
  apply_vote height v = apply_by_type height v.sidechain_slot v.bundle_index v.vote_type

  unfoldable pub apply_m4_votes : ℕ → M4Message → Action EngineError Tables (Unit {0})
  unfolding apply_vote
  apply_m4_votes height msg = for_each (apply_vote height) msg.votes

  unfoldable pub update_bundle_states : Action EngineError Tables (Unit {0})
  update_bundle_states = do
    exec d decrement_failed age_bundles
    exec d mark_approved approve_bundles
    exec d mark_failed fail_bundles
    exec d mark_expired expire_bundles

  -- the part of `ProcessBlock` for the M3 messages: an error is logged, and the next one follows
  unfoldable pub process_m3 : ℕ → Block → List M3Message → Action EngineError Tables (Unit {0})
  process_m3 height block msgs =
      for_each
        (λ (m : M3Message). logged (
          persist_m3_message (record m {
            block_height = height;
            block_hash = block.block_hash;
            block_time = block.timestamp;
          })))
        msgs

  -- the part for the M4 message: only its storing may fail the block
  unfoldable pub process_m4 :
      ℕ → Block → Result EngineError M4Message → Action EngineError Tables (Unit {0})
  process_m4 height block (err e) = pure tt
  process_m4 height block (ok m) =
      let msg : M4Message = record m {
        block_height = height;
        block_hash = block.block_hash;
        block_time = block.timestamp;
      } in
      do persist_m4_message msg; logged (apply_m4_votes height msg)

  unfoldable pub process_coinbase : ℕ → Block → List Bytes → Action EngineError Tables (Unit {0})
  unfolding process_m3 process_m4
  process_coinbase height block scripts = do
    process_m3 height block (m3_of_scripts scripts)
    process_m4 height block (m4_of_scripts scripts)
    logged update_bundle_states

  unfoldable pub process_transactions :
      ℕ → Block → List Transaction → Action EngineError Tables (Unit {0})
  unfolding process_coinbase
  process_transactions height block [] = raise no_transactions
  process_transactions height block (coinbase ∷ txs) = process_coinbase height block coinbase.tx_out

  unfoldable pub process_block : ℕ → Block → Action EngineError Tables (Unit {0})
  unfolding process_transactions
  process_block height block = process_transactions height block block.transactions
