-- ===== src/M4/Scdb/Evolution.antt =====
-- What no call of the engine does to a withdrawal bundle, whatever the block and the driver.
pub mod Processing
pub mod Rows
use drivechain_litwindow.Prelude.{
  some_item, ℕ, zero, suc, ◌+◌, ◌-◌, ◌≤◌, ◌≡◌, refl, Bool, true, false, Option, none, some, List,
  [], ◌∷◌, ◌++◌, map, Bytes, length, get_elem?, arith, Result, ok, err, same, Bool-cases, inl, inr,
  if◌then◌else◌, ◌==◌,
}
use drivechain_litwindow.Database.{Driver, World, Action, ◌>>=◌, pure, exec, for_each, logged}
use drivechain_litwindow.Database.Moves.{
  Moves, Moves-pure, Moves-raise, Moves-bind, Moves-for_each, Moves-logged, Moves-exec,
  Moves-insert, Moves-transaction,
}
use drivechain_litwindow.M4.Message.{
  VoteType, abstain, alarm, upvote, other, M4Vote, M4Message, M3Message,
}
use drivechain_litwindow.M4.Parser.{is_m4_commitment}
use drivechain_litwindow.M4.Scdb.{BundleStatus, pending, approved, failed, expired, Bundle, Tables}
use drivechain_litwindow.M4.Scdb.Statements.{
  insert_m3_message, insert_bundle, upsert_m4_message, delete_votes, insert_vote, upvote_bundle,
  alarm_bundles, touch_bundles, age_bundles, approve_bundles, fail_bundles, expire_bundles,
  raise_picked, lower_score, touch, age, approve, fail, expire, is_pending, votable, new_bundle,
  is_bundle, is_m4_row,
}
use drivechain_litwindow.M4.Scdb.Engine.{
  EngineError, transaction_failed, no_transactions, Block, Transaction, persist_m4_message,
  persist_m3_message, apply_vote, apply_by_type, upvote_at, apply_m4_votes, update_bundle_states,
  process_m3, process_m4, process_coinbase, process_transactions, process_block, insert_one,
  m4_of_scripts, m3_of_scripts,
}

-- How the row of a bundle may change.
pub record BundleStep (b c : Bundle) : Type 0 where
  pub same_id : c.id ≡ b.id
  pub same_slot : c.sidechain_slot ≡ b.sidechain_slot
  pub same_hash : c.bundle_hash ≡ b.bundle_hash
  pub same_first_seen : c.first_seen_height ≡ b.first_seen_height
  pub ages : c.blocks_left ≤ b.blocks_left
  pub settled : is_pending b.status ≡ false → c ≡ b

-- Every bundle keeps its place, and new ones stand behind the old.
abbrev pub Evolves : List Bundle → List Bundle → Type 0
Evolves [] cs = Unit
Evolves (b ∷ bs) [] = ⊥
Evolves (b ∷ bs) (c ∷ cs) = BundleStep b c × Evolves bs cs

pub BundleStep-refl : (b : Bundle) → BundleStep b b
BundleStep-refl b = ground arith

pub BundleStep-trans : (a b c : Bundle) → BundleStep a b → BundleStep b c → BundleStep a c
BundleStep-trans a b c h k = record {
  same_id = cc (h.same_id, k.same_id);
  same_slot = cc (h.same_slot, k.same_slot);
  same_hash = cc (h.same_hash, k.same_hash);
  same_first_seen = cc (h.same_first_seen, k.same_first_seen);
  ages = omega (arith, h.ages, k.ages);
  settled = λ p.
      let e = h.settled p in let q : is_pending b.status ≡ false = rw e p in cc (e, k.settled q);
}

pub Evolves-refl : (bs : List Bundle) → Evolves bs bs
Evolves-refl [] = tt
Evolves-refl (b ∷ bs) = (BundleStep-refl b, Evolves-refl bs)

pub Evolves-trans : (xs bs cs : List Bundle) → Evolves xs bs → Evolves bs cs → Evolves xs cs
Evolves-trans [] bs cs h k = tt
Evolves-trans (a ∷ xs) [] cs h k = absurd h
Evolves-trans (a ∷ xs) (b ∷ bs) [] h k = absurd k
Evolves-trans (a ∷ xs) (b ∷ bs) (c ∷ cs) (s, h) (r, k) =
    (BundleStep-trans a b c s r, Evolves-trans xs bs cs h k)

pub Evolves-append : (bs cs : List Bundle) → Evolves bs (bs ++ cs)
Evolves-append [] cs = tt
Evolves-append (b ∷ bs) cs = (BundleStep-refl b, Evolves-append bs cs)

pub Evolves-map :
    (f : Bundle → Bundle) (bs : List Bundle)
    → ((b : Bundle) → BundleStep b (f b))
    → Evolves bs (map f bs)
Evolves-map f [] h = tt
Evolves-map f (b ∷ bs) h = (h b, Evolves-map f bs h)

pub raise_picked-step :
    (row : Option Bundle) (height slot now : ℕ) (b : Bundle)
    → BundleStep b (raise_picked row height slot now b)
raise_picked-step none height slot now b = BundleStep-refl b
raise_picked-step (some row) height slot now b = ground arith

pub lower_score-step :
    (height slot now : ℕ) (b : Bundle) → BundleStep b (lower_score height slot now b)
lower_score-step height slot now b = ground arith

pub touch-step : (height slot : ℕ) (b : Bundle) → BundleStep b (touch height slot b)
touch-step height slot b = ground arith

pub age-step : (now : ℕ) (b : Bundle) → BundleStep b (age now b)
age-step now b = ground arith

pub approve-step : (b : Bundle) → BundleStep b (approve b)
approve-step b = ground arith

pub fail-step : (b : Bundle) → BundleStep b (fail b)
fail-step b = ground arith

pub expire-step : (b : Bundle) → BundleStep b (expire b)
expire-step b = ground arith

abbrev pub TablesEvolve : Tables → Tables → Type 0
TablesEvolve t u = Evolves t.bundles u.bundles

pub TablesEvolve-refl : (t : Tables) → TablesEvolve t t
TablesEvolve-refl t = Evolves-refl t.bundles

pub TablesEvolve-trans : (t u v : Tables) → TablesEvolve t u → TablesEvolve u v → TablesEvolve t v
TablesEvolve-trans t u v = Evolves-trans t.bundles u.bundles v.bundles
