-- ===== src/M4/Scdb/Lifetime.antt =====
-- How long a bundle stays pending.
use drivechain_litwindow.Prelude.{
  ℕ, zero, suc, ◌≤◌, ◌<◌, ◌≡◌, ◌≢◌, refl, ap, ◌∙◌, true, false, some, List, [], ◌∷◌, map, Bytes,
  length, get_elem?, arith, Result, ok, err, Bool-cases, inl, inr, All,
}
use drivechain_litwindow.Database.{Driver, World, IsReliable, ◌>>◌, logged}
use drivechain_litwindow.Database.Succeeds.{
  Succeeds, Succeeds-pure, Succeeds-bind, Succeeds-for_each, Succeeds-logged, bind_after,
}
use drivechain_litwindow.M4.Message.{M4Message, M3Message}
use drivechain_litwindow.M4.Scdb.{Bundle, Tables}
use drivechain_litwindow.M4.Scdb.Statements.{is_pending}
use drivechain_litwindow.M4.Scdb.Engine.{
  EngineError, Block, Transaction, update_bundle_states, process_m3, process_m4, process_coinbase,
  process_transactions, process_block, m4_of_scripts, m3_of_scripts,
}
use drivechain_litwindow.M4.Scdb.Evolution.{
  BundleStep, Evolves, TablesEvolve, TablesEvolve-trans, BundleStep-trans,
}
use drivechain_litwindow.M4.Scdb.Evolution.Processing.{process_m3-R, process_m4-R}
use drivechain_litwindow.M4.Scdb.Evolution.Rows.{TablesEvolve-IsRespected}
use drivechain_litwindow.Database.Moves.{Moves}
use drivechain_litwindow.M4.Scdb.Replay.{persist_m4-Succeeds}
use drivechain_litwindow.M4.Scdb.Decision.{decide, update_bundle_states-decides}
use mathlib.Core.Path.{subst}

get_elem?-map {ℓ} :
    {A : Type ℓ} (f : A → A) (xs : List A) (k : ℕ) {a : A}
    → get_elem? xs k ≡ some a
    → get_elem? (map f xs) k ≡ some (f a)
get_elem?-map f [] k h = cc
get_elem?-map f (x ∷ xs) zero h = ground arith
get_elem?-map f (x ∷ xs) (suc k) h = get_elem?-map f xs k h

pub Evolves-at :
    (bs cs : List Bundle) (k : ℕ) {b : Bundle}
    → Evolves bs cs
    → get_elem? bs k ≡ some b
    → (c : Bundle) × (get_elem? cs k ≡ some c) × BundleStep b c
Evolves-at [] cs k e h = cc
Evolves-at (b ∷ bs) [] k e h = absurd e
Evolves-at (b ∷ bs) (c ∷ cs) zero {b = b'} (s, e) h =
    let at : b ≡ b' = cc h in (c, refl, subst (λ x. BundleStep x c) at s)
Evolves-at (b ∷ bs) (c ∷ cs) (suc k) (s, e) h = Evolves-at bs cs k e h

module _ (d : Driver) (reliable : IsReliable d) where
  process_m3-Succeeds :
      (height : ℕ) (block : Block) (msgs : List M3Message)
      → Succeeds (process_m3 d height block msgs)
  unfolding process_m3
  process_m3-Succeeds height block msgs = Succeeds-for_each _ msgs (λ m. Succeeds-logged _)

  process_m4-Succeeds :
      (height : ℕ) (block : Block) (m : Result EngineError M4Message)
      → Succeeds (process_m4 d height block m)
  unfolding process_m4
  process_m4-Succeeds height block (err e) = Succeeds-pure tt
  process_m4-Succeeds height block (ok m) =
      Succeeds-bind _ _ (persist_m4-Succeeds d reliable _) (λ _. Succeeds-logged _)

  -- after the messages of the block its bundles are decided
  process_coinbase-ends :
      (height : ℕ) (block : Block) (scripts : List Bytes) (w : World Tables)
      → (v : World Tables) × TablesEvolve w.tables v.tables
        × (process_coinbase d height block scripts w ≡ logged (update_bundle_states d) v)
  unfolding process_coinbase
  process_coinbase-ends height block scripts w =
      let m3 = process_m3 d height block (m3_of_scripts scripts) in
      let m4 = process_m4 d height block (m4_of_scripts scripts) in
      let u = (m3 w).1 in
      let keep3 : Moves TablesEvolve m3 =
        process_m3-R TablesEvolve TablesEvolve-IsRespected d height block (m3_of_scripts scripts) in
      let keep4 : Moves TablesEvolve m4 =
        process_m4-R TablesEvolve TablesEvolve-IsRespected d height block (m4_of_scripts scripts) in
      (
        (m4 u).1,
        TablesEvolve-trans w.tables u.tables (m4 u).1.tables (keep3.at w) (keep4.at u),
        bind_after m3 (m4 >> logged (update_bundle_states d)) w
              (process_m3-Succeeds height block (m3_of_scripts scripts))
            ∙ bind_after m4 (logged (update_bundle_states d)) u
                (process_m4-Succeeds height block (m4_of_scripts scripts)),
      )

-- The block has a coinbase.
abbrev pub HasCoinbase : Block → Type 0
HasCoinbase block = block.transactions ≢ []

decide-step : (now : ℕ) (b : Bundle) → BundleStep b (decide now b)
decide-step now b = ground arith

-- How a decided bundle that is still pending has aged.
abbrev pub Aged : Bundle → Bundle → Type 0
Aged b c = is_pending c.status ≡ true → (0 < c.blocks_left) × (c.blocks_left < b.blocks_left)

decide-Aged : (now : ℕ) (a b : Bundle) → BundleStep a b → Aged a (decide now b)
decide-Aged now a b s = ground (arith, s.ages)

logged_update :
    (d : Driver) (v : World Tables)
    → IsReliable d
    → ((logged (update_bundle_states d) v).0 ≡ ok tt)
      × ((logged (update_bundle_states d) v).1.tables.bundles
          ≡ map (decide (d.clock v.calls)) v.tables.bundles)
unfolding logged
logged_update d v reliable = (refl, (update_bundle_states-decides d v reliable).1)

process_block-ends :
    (d : Driver) (height : ℕ) (block : Block) (w : World Tables)
    → IsReliable d
    → HasCoinbase block
    → (v : World Tables) × TablesEvolve w.tables v.tables
      × (process_block d height block w ≡ logged (update_bundle_states d) v)
unfolding process_block process_transactions
process_block-ends d height block w reliable full = coinbase_of block.transactions full
  where
    coinbase_of :
        (txs : List Transaction)
        → txs ≢ []
        → (v : World Tables) × TablesEvolve w.tables v.tables
          × (process_transactions d height block txs w ≡ logged (update_bundle_states d) v)
    coinbase_of [] h = absurd (h refl)
    coinbase_of (coinbase ∷ txs) h = process_coinbase-ends d reliable height block coinbase.tx_out w

-- If no statement fails, a block with a coinbase is processed without an error, and every bundle there is evolves: if it is still pending then, it has lost at least one block and has one left.
pub process_block-ages :
    (d : Driver) (height : ℕ) (block : Block) (w : World Tables) (k : ℕ) {b : Bundle}
    → IsReliable d
    → HasCoinbase block
    → get_elem? w.tables.bundles k ≡ some b
    → ((process_block d height block w).0 ≡ ok tt)
      × ((c : Bundle) × (get_elem? (process_block d height block w).1.tables.bundles k ≡ some c)
          × BundleStep b c
          × Aged b c)
process_block-ages d height block w k {b} reliable full h =
    let (v, evolves, ends) = process_block-ends d height block w reliable full in
    let (a, found, step) = Evolves-at w.tables.bundles v.tables.bundles k evolves h in
    let (done, decided) = logged_update d v reliable in
    let now = d.clock v.calls in
    (
      ap (λ (x : Result EngineError (Unit {0}) × World Tables). x.0) ends ∙ done,
      (
        decide now a,
        rw ends (rw decided (get_elem?-map (decide now) v.tables.bundles k found)),
        BundleStep-trans b a (decide now a) step (decide-step now a),
        decide-Aged now b a step,
      ),
    )

-- Blocks processed one after another, each with its height.
abbrev pub process_blocks : Driver → List (ℕ × Block) → World Tables → World Tables
process_blocks d [] w = w
process_blocks d ((height, block) ∷ blocks) w =
    process_blocks d blocks (process_block d height block w).1

-- A bundle that is pending has a block left, and no more than `n`.
abbrev pub IsDue : ℕ → Bundle → Type 0
IsDue n b = is_pending b.status ≡ true → (0 < b.blocks_left) × (b.blocks_left ≤ n)

-- If no statement fails, a bundle that has a block left, or is not pending at all, is not pending once at least as many blocks with a coinbase have been processed as it had blocks left.
pub decided_in_time :
    (d : Driver) (blocks : List (ℕ × Block)) (w : World Tables) (k : ℕ) {b : Bundle}
    → IsReliable d
    → All (λ (hb : ℕ × Block). HasCoinbase hb.1) blocks
    → get_elem? w.tables.bundles k ≡ some b
    → IsDue (length blocks) b
    → (c : Bundle) × (get_elem? (process_blocks d blocks w).tables.bundles k ≡ some c)
      × (is_pending c.status ≡ false)
decided_in_time d [] w k {b} reliable full h due = (
  b,
  h,
  elim (Bool-cases (is_pending b.status)) [
    | inl still ↦ absurd (omega (arith, due still))
    | inr done ↦ done
  ],
)
decided_in_time d ((height, block) ∷ blocks) w k {b} reliable (f, full) h due =
    let (fine, (c, found, step, aged)) = process_block-ages d height block w k reliable f h in
    decided_in_time d blocks (process_block d height block w).1 k reliable full found (λ still.
      elim (Bool-cases (is_pending b.status)) [
        | inl was ↦ omega (arith, aged still, due was)
        | inr done ↦ absurd (cc (step.settled done, still, done))
      ])
