-- ===== src/M4/Scdb/Evolution/Processing.antt =====
-- `ProcessBlock` step by step: a relation between the tables that every statement respects holds
-- between the tables before and after each call, whatever the driver does.
use drivechain_litwindow.Prelude.{
  some_item, ℕ, ◌≡◌, refl, Option, none, some, List, [], ◌∷◌, map, get_elem?, arith, Result, ok,
  err, Bool-cases, inl, inr,
}
use drivechain_litwindow.Database.{Driver, Action, ◌>>=◌, pure, exec, exec_insert, for_each, logged}
use drivechain_litwindow.Database.Moves.{
  Moves, Moves-pure, Moves-raise, Moves-bind, Moves-for_each, Moves-logged, Moves-exec,
  Moves-exec_insert, Moves-insert, Moves-transaction,
}
use drivechain_litwindow.M4.Message.{
  VoteType, abstain, alarm, upvote, other, M4Vote, M4Message, M3Message,
}
use drivechain_litwindow.M4.Scdb.{Bundle, Tables}
use drivechain_litwindow.M4.Scdb.Statements.{
  insert_m3_message, insert_bundle, upsert_m4_message, delete_votes, insert_vote, upvote_bundle,
  alarm_bundles, touch_bundles, age_bundles, approve_bundles, fail_bundles, expire_bundles, votable,
  is_m4_row,
}
use drivechain_litwindow.M4.Scdb.Engine.{
  EngineError, transaction_failed, no_transactions, Block, Transaction, persist_m4_message,
  persist_m3_message, apply_by_type, apply_m4_votes, update_bundle_states, process_m3, process_m4,
  process_transactions, process_block, insert_one, m4_of_scripts, m3_of_scripts,
}
use drivechain_litwindow.M4.Scdb.Evolution.{
  BundleStep, raise_picked-step, lower_score-step, touch-step, age-step, approve-step, fail-step,
  expire-step,
}
use drivechain_litwindow.Database.{insert, transaction}

-- What a relation needs: it is respected by an update of the rows of bundles, by the insertion of
-- a bundle, and by a statement that touches no bundle.
pub record IsRespected (R : Tables → Tables → Type 0) : Type 0 where
  pub reflexive : (t : Tables) → R t t
  pub transitive : (t u v : Tables) → R t u → R u v → R t v
  pub on_rows :
      (t : Tables) (f : Bundle → Bundle)
      → ((b : Bundle) → BundleStep b (f b))
      → R t (record t { bundles = map f t.bundles })
  pub on_insert : (msg : M3Message) (n : ℕ) (t : Tables) → R t (insert_bundle msg n t)
  pub elsewhere : (t u : Tables) → u.bundles ≡ t.bundles → u.next_bundle ≡ t.next_bundle → R t u

insert_m3-bundles :
    (msg : M3Message) (n : ℕ) (t : Tables)
    → ((insert_m3_message msg n t).bundles ≡ t.bundles)
      × ((insert_m3_message msg n t).next_bundle ≡ t.next_bundle)
unfolding insert_m3_message
insert_m3-bundles msg n t = ground arith

upsert-bundles :
    (msg : M4Message) (n r : ℕ) (t : Tables)
    → ((upsert_m4_message msg n r t).0.bundles ≡ t.bundles)
      × ((upsert_m4_message msg n r t).0.next_bundle ≡ t.next_bundle)
unfolding upsert_m4_message
upsert-bundles msg n r t =
    elim (Bool-cases (some_item (is_m4_row msg.block_height msg.block_hash) t.m4_messages)) [
      | inl old ↦ rw old (refl, refl)
      | inr new ↦ rw new (refl, refl)
    ]

module _ (R : Tables → Tables → Type 0) (h : IsRespected R) (d : Driver) where
  abbrev Keeps : {A : Type 0} → Action EngineError Tables A → Type 0
  Keeps m = Moves R m

  bind-R :
      {A B : Type 0} (m : Action EngineError Tables A) (f : A → Action EngineError Tables B)
      → Keeps m
      → ((a : A) → Keeps (f a))
      → Keeps (m >>= f)
  bind-R = Moves-bind R h.reflexive h.transitive

  each-R :
      {A : Type 0} (f : A → Action EngineError Tables (Unit {0})) (xs : List A)
      → ((a : A) → Keeps (f a))
      → Keeps (for_each f xs)
  each-R = Moves-for_each R h.reflexive h.transitive

  pure-R : {A : Type 0} (a : A) → Keeps (pure a)
  pure-R = Moves-pure R h.reflexive h.transitive

  logged-R : (m : Action EngineError Tables (Unit {0})) → Keeps m → Keeps (logged m)
  logged-R = Moves-logged R h.reflexive h.transitive

  exec-R :
      (e : EngineError) (f : ℕ → Tables → Tables)
      → ((n : ℕ) (t : Tables) → R t (f n t))
      → Keeps (exec d e f)
  exec-R = Moves-exec R h.reflexive h.transitive d

  exec_insert-R :
      (e : EngineError) (f : ℕ → Tables → Tables) (rowid : Tables → ℕ → ℕ)
      → ((n : ℕ) (t : Tables) → R t (f n t))
      → Keeps (exec_insert d e f rowid)
  exec_insert-R = Moves-exec_insert R h.reflexive h.transitive d

  insert-R :
      (e : EngineError) (f : ℕ → ℕ → Tables → Tables × ℕ)
      → ((n r : ℕ) (t : Tables) → R t (f n r t).0)
      → Keeps (insert d e f)
  insert-R = Moves-insert R h.reflexive h.transitive d

  transaction-R :
      {A : Type 0} (e : EngineError) (m : Action EngineError Tables A)
      → Keeps m
      → Keeps (transaction d e m)
  transaction-R = Moves-transaction R h.reflexive h.transitive d

  persist_m3-R : (msg : M3Message) → Keeps (persist_m3_message d msg)
  unfolding persist_m3_message
  persist_m3-R msg = transaction-R transaction_failed _ (
      bind-R _ _
        (exec_insert-R _ _ _
          (λ n t. let same = insert_m3-bundles msg n t in h.elsewhere t _ same.0 same.1))
        (λ _. exec_insert-R _ _ _ (h.on_insert msg)))

  insert_one-R : (msg_id : ℕ) (v : M4Vote) → Keeps (insert_one d msg_id v)
  unfolding insert_one insert_vote
  insert_one-R msg_id v =
      bind-R _ _ (insert-R _ _ (λ n r t. h.elsewhere t _ refl refl)) (λ _. pure-R tt)

  persist_m4-R : (msg : M4Message) → Keeps (persist_m4_message d msg)
  unfolding persist_m4_message delete_votes
  persist_m4-R msg = transaction-R transaction_failed _ (
      bind-R _ _
        (insert-R _ _
          (λ n r t. let same = upsert-bundles msg n r t in h.elsewhere t _ same.0 same.1))
        (λ id.
          bind-R _ _ (exec-R _ _ (λ n t. h.elsewhere t _ refl refl))
            (λ _. each-R _ msg.votes (insert_one-R id))))

  apply_by_type-R :
      (height slot : ℕ) (index : Option ℕ) (t : VoteType)
      → Keeps (apply_by_type d height slot index t)
  unfolding apply_by_type upvote_bundle alarm_bundles touch_bundles
  apply_by_type-R height slot none upvote = pure-R tt
  apply_by_type-R height slot (some i) upvote = exec-R _ _ (λ n t.
      h.on_rows t _ (raise_picked-step (get_elem? (votable slot t.bundles) i) height slot n))
  apply_by_type-R height slot index alarm =
      exec-R _ _ (λ n t. h.on_rows t _ (lower_score-step height slot n))
  apply_by_type-R height slot index abstain =
      exec-R _ _ (λ n t. h.on_rows t _ (touch-step height slot))
  apply_by_type-R height slot index (other s) = pure-R tt

  pub apply_m4_votes-R : (height : ℕ) (msg : M4Message) → Keeps (apply_m4_votes d height msg)
  unfolding apply_m4_votes
  apply_m4_votes-R height msg =
      each-R _ msg.votes (λ v. apply_by_type-R height v.sidechain_slot v.bundle_index v.vote_type)

  pub update_bundle_states-R : Keeps (update_bundle_states d)
  unfolding update_bundle_states age_bundles approve_bundles fail_bundles expire_bundles
  update_bundle_states-R = bind-R _ _ (exec-R _ _ (λ n t. h.on_rows t _ (age-step n))) (λ _.
      bind-R _ _ (exec-R _ _ (λ n t. h.on_rows t _ approve-step)) (λ _.
        bind-R _ _ (exec-R _ _ (λ n t. h.on_rows t _ fail-step))
          (λ _. exec-R _ _ (λ n t. h.on_rows t _ expire-step))))

  pub process_m3-R :
      (height : ℕ) (block : Block) (msgs : List M3Message) → Keeps (process_m3 d height block msgs)
  unfolding process_m3
  process_m3-R height block msgs = each-R _ msgs (λ m. logged-R _ (persist_m3-R _))

  pub process_m4-R :
      (height : ℕ) (block : Block) (m : Result EngineError M4Message)
      → Keeps (process_m4 d height block m)
  unfolding process_m4
  process_m4-R height block (err e) = pure-R tt
  process_m4-R height block (ok m) =
      bind-R _ _ (persist_m4-R _) (λ _. logged-R _ (apply_m4_votes-R height _))

  process_transactions-R :
      (height : ℕ) (block : Block) (txs : List Transaction)
      → Keeps (process_transactions d height block txs)
  unfolding process_transactions
  process_transactions-R height block [] = Moves-raise R h.reflexive h.transitive no_transactions
  process_transactions-R height block (coinbase ∷ txs) =
      bind-R _ _ (process_m3-R height block (m3_of_scripts coinbase.tx_out)) (λ _.
        bind-R _ _ (process_m4-R height block (m4_of_scripts coinbase.tx_out))
          (λ _. logged-R _ update_bundle_states-R))

  -- every relation that the statements respect holds across `ProcessBlock`
  pub process_block-R : (height : ℕ) (block : Block) → Keeps (process_block d height block)
  unfolding process_block
  process_block-R height block = process_transactions-R height block block.transactions
