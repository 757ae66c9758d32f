-- ===== src/M4/Scdb/Decision.antt =====
-- The four statements of `updateBundleStates` against one pass that decides each bundle.
use drivechain_litwindow.Prelude.{
  ℕ, suc, ◌-◌, ◌≡◌, refl, true, List, [], ◌∷◌, map, arith, is_ok, if◌then◌else◌, ◌==◌, leb, ltb,
}
use drivechain_litwindow.Database.{Driver, World, IsReliable, ◌>>=◌, exec}
use drivechain_litwindow.Database.Succeeds.{Succeeds, Succeeds-bind, Succeeds-exec}
use drivechain_litwindow.M4.Message.{min_work_score}
use drivechain_litwindow.M4.Scdb.{BundleStatus, pending, approved, failed, Bundle, Tables}
use drivechain_litwindow.M4.Scdb.Statements.{
  age_bundles, approve_bundles, fail_bundles, expire_bundles, age, approve, fail, expire,
  is_pending,
}
use drivechain_litwindow.M4.Scdb.Engine.{update_bundle_states}

-- The verdict on a pending bundle with this score, when this many blocks are left.
abbrev pub verdict : ℕ → ℕ → BundleStatus
verdict score left =
    if leb min_work_score score then approved else if left == 0 then failed else pending

-- One block later: what is not pending stays; the rest has one block less and its verdict.
abbrev pub decide : ℕ → Bundle → Bundle
decide now b =
    if is_pending b.status
    then record b {
      blocks_left = b.blocks_left - 1;
      status = verdict b.work_score (b.blocks_left - 1);
      updated_at = if ltb 0 b.blocks_left then now else b.updated_at;
    }
    else b

decide_lem : (now : ℕ) (b : Bundle) → expire (fail (approve (age now b))) ≡ decide now b
decide_lem now b = ground arith

decide_all :
    (now : ℕ) (bs : List Bundle)
    → map expire (map fail (map approve (map (age now) bs))) ≡ map (decide now) bs
decide_all now [] = refl
decide_all now (b ∷ bs) = cc (decide_lem now b, decide_all now bs)

module _ (d : Driver) (reliable : IsReliable d) where
  pub update_bundle_states-Succeeds : Succeeds (update_bundle_states d)
  unfolding update_bundle_states
  update_bundle_states-Succeeds = Succeeds-bind _ _ (Succeeds-exec d reliable _ _) (λ _.
      Succeeds-bind _ _ (Succeeds-exec d reliable _ _)
        (λ _. Succeeds-bind _ _ (Succeeds-exec d reliable _ _) (λ _. Succeeds-exec d reliable _ _)))

-- If no statement fails, `updateBundleStates` decides every bundle in one pass: a pending one loses a block and is approved from 13150 votes on, fails with no block left, or stays pending. None ever becomes expired.
pub update_bundle_states-decides :
    (d : Driver) (w : World Tables)
    → IsReliable d
    → (is_ok (update_bundle_states d w).0 ≡ true)
      × ((update_bundle_states d w).1.tables.bundles
          ≡ map (decide (d.clock w.calls)) w.tables.bundles)
unfolding update_bundle_states exec ◌>>=◌ age_bundles approve_bundles fail_bundles expire_bundles
update_bundle_states-decides d w reliable = (
  (update_bundle_states-Succeeds d reliable).at w,
  rw
      (
        reliable w.calls,
        reliable (suc w.calls),
        reliable (suc (suc w.calls)),
        reliable (suc (suc (suc w.calls))),
      )
      (decide_all (d.clock w.calls) w.tables.bundles),
)
