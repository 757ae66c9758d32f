-- ===== src/M4/Scdb/Evolution/Rows.antt =====
-- The bundles evolve, and their table stays well formed, across every block.
use drivechain_litwindow.Prelude.{
  some_item, ℕ, suc, ◌≤◌, ◌<◌, ◌≡◌, refl, false, List, [], ◌∷◌, ◌++◌, map, arith, Bool-cases, inl,
  inr, same_comm, All,
}
use drivechain_litwindow.Database.{Driver, World}
use drivechain_litwindow.M4.Message.{M3Message, withdrawal_max_age}
use drivechain_litwindow.M4.Scdb.{Bundle, Tables}
use drivechain_litwindow.M4.Scdb.Statements.{insert_bundle, new_bundle, is_bundle}
use drivechain_litwindow.M4.Scdb.Engine.{Block, process_block}
use drivechain_litwindow.M4.Scdb.Evolution.{
  BundleStep, Evolves, Evolves-refl, Evolves-append, Evolves-map, TablesEvolve, TablesEvolve-refl,
  TablesEvolve-trans,
}
use drivechain_litwindow.M4.Scdb.Evolution.Processing.{IsRespected, process_block-R}

insert_bundle-evolves :
    (msg : M3Message) (n : ℕ) (t : Tables) → TablesEvolve t (insert_bundle msg n t)
unfolding insert_bundle
insert_bundle-evolves msg n t =
    elim (Bool-cases (some_item (is_bundle msg.sidechain_slot msg.bundle_hash) t.bundles)) [
      | inl old ↦ rw old (Evolves-refl t.bundles)
      | inr new ↦ rw new (Evolves-append t.bundles (new_bundle msg t.next_bundle n ∷ []))
    ]

pub TablesEvolve-IsRespected : IsRespected TablesEvolve
TablesEvolve-IsRespected = record {
  reflexive = TablesEvolve-refl;
  transitive = TablesEvolve-trans;
  on_rows = λ t f step. Evolves-map f t.bundles step;
  on_insert = insert_bundle-evolves;
  elsewhere = λ t u same next. rw same (Evolves-refl t.bundles);
}

-- Whatever the block and whichever statements fail, `ProcessBlock` removes no bundle and moves none; the slot, the hash and the first height of a bundle stay, its blocks left never grow, and the row of a bundle that is no longer pending stays as it is.
pub process_block-Evolves :
    (d : Driver) (height : ℕ) (block : Block) (w : World Tables)
    → Evolves w.tables.bundles (process_block d height block w).1.tables.bundles
process_block-Evolves d height block w =
    (process_block-R TablesEvolve TablesEvolve-IsRespected d height block).at w

-- Ids grow along the table.
abbrev pub FromId : ℕ → List Bundle → Type 0
FromId n [] = Unit
FromId n (b ∷ bs) = (n ≤ b.id) × FromId (suc b.id) bs

abbrev pub IsOther : Bundle → Bundle → Type 0
IsOther b c = is_bundle b.sidechain_slot b.bundle_hash c ≡ false

-- No two bundles have the slot and the hash in common.
abbrev pub AreDistinct : List Bundle → Type 0
AreDistinct [] = Unit
AreDistinct (b ∷ bs) = All (IsOther b) bs × AreDistinct bs

abbrev pub IsNumbered : ℕ → Bundle → Type 0
IsNumbered next b = (b.id < next) × (b.blocks_left ≤ withdrawal_max_age)

-- The table of bundles: ids grow and stay below the next one, no bundle is listed twice, and none has more blocks left than its age allows.
pub record IsWellFormed (t : Tables) : Type 0 where
  pub ordered : FromId 0 t.bundles
  pub distinct : AreDistinct t.bundles
  pub numbered : All (IsNumbered t.next_bundle) t.bundles

module _ (f : Bundle → Bundle) (step : (b : Bundle) → BundleStep b (f b)) where
  FromId-map : (bs : List Bundle) (n : ℕ) → FromId n bs → FromId n (map f bs)
  FromId-map [] n h = tt
  FromId-map (b ∷ bs) n (p, h) = rw (step b).same_id (p, FromId-map bs (suc b.id) h)

  IsOther-map :
      (b : Bundle) (bs : List Bundle) → All (IsOther b) bs → All (IsOther (f b)) (map f bs)
  IsOther-map b [] h = tt
  IsOther-map b (c ∷ bs) (p, h) = (
    rw ((step b).same_slot, (step b).same_hash, (step c).same_slot, (step c).same_hash) p,
    IsOther-map b bs h,
  )

  AreDistinct-map : (bs : List Bundle) → AreDistinct bs → AreDistinct (map f bs)
  AreDistinct-map [] h = tt
  AreDistinct-map (b ∷ bs) (p, h) = (IsOther-map b bs p, AreDistinct-map bs h)

  IsNumbered-map :
      (next : ℕ) (bs : List Bundle) → All (IsNumbered next) bs → All (IsNumbered next) (map f bs)
  IsNumbered-map next [] h = tt
  IsNumbered-map next (b ∷ bs) (p, h) =
      (omega (arith, p, (step b).same_id, (step b).ages), IsNumbered-map next bs h)

module _ (next : ℕ) (c : Bundle) (at_next : c.id ≡ next) where
  FromId-append :
      (bs : List Bundle) (n : ℕ)
      → FromId n bs
      → n ≤ next
      → All (IsNumbered next) bs
      → FromId n (bs ++ c ∷ [])
  FromId-append [] n h below numbered = (rw at_next below, tt)
  FromId-append (b ∷ bs) n (p, h) below (q, numbered) =
      (p, FromId-append bs (suc b.id) h q.0 numbered)

  IsNumbered-append :
      (bs : List Bundle)
      → All (IsNumbered next) bs
      → c.blocks_left ≤ withdrawal_max_age
      → All (IsNumbered (suc next)) (bs ++ c ∷ [])
  IsNumbered-append [] h young = ((omega (arith, at_next), young), tt)
  IsNumbered-append (b ∷ bs) (p, h) young = (omega (arith, p), IsNumbered-append bs h young)

module _ (msg : M3Message) (id now : ℕ) where
  others :
      (bs : List Bundle)
      → some_item (is_bundle msg.sidechain_slot msg.bundle_hash) bs ≡ false
      → All (λ b. IsOther b (new_bundle msg id now)) bs
  others [] h = tt
  others (b ∷ bs) h =
      (ground (arith, same_comm msg.bundle_hash b.bundle_hash), others bs (ground arith))

IsOther-append :
    (b c : Bundle) (bs : List Bundle)
    → All (IsOther b) bs
    → IsOther b c
    → All (IsOther b) (bs ++ c ∷ [])
IsOther-append b c [] h o = (o, tt)
IsOther-append b c (a ∷ bs) (p, h) o = (p, IsOther-append b c bs h o)

AreDistinct-append :
    (bs : List Bundle) (c : Bundle)
    → AreDistinct bs
    → All (λ b. IsOther b c) bs
    → AreDistinct (bs ++ c ∷ [])
AreDistinct-append [] c h o = (tt, tt)
AreDistinct-append (b ∷ bs) c (p, h) (q, o) =
    (IsOther-append b c bs p q, AreDistinct-append bs c h o)

insert_bundle-IsWellFormed :
    (msg : M3Message) (now : ℕ) (t : Tables)
    → IsWellFormed t
    → IsWellFormed (insert_bundle msg now t)
unfolding insert_bundle
insert_bundle-IsWellFormed msg now t h =
    let new = new_bundle msg t.next_bundle now in
    elim (Bool-cases (some_item (is_bundle msg.sidechain_slot msg.bundle_hash) t.bundles)) [
      | inl old ↦ rw old h
      | inr fresh ↦ rw fresh (record {
        ordered =
            FromId-append t.next_bundle new refl t.bundles 0 h.ordered (omega arith) h.numbered;
        distinct =
            AreDistinct-append t.bundles new h.distinct
              (others msg t.next_bundle now t.bundles fresh);
        numbered = IsNumbered-append t.next_bundle new refl t.bundles h.numbered (omega arith);
      })
    ]

abbrev PreservesForm : Tables → Tables → Type 0
PreservesForm t u = IsWellFormed t → IsWellFormed u

PreservesForm-IsRespected : IsRespected PreservesForm
PreservesForm-IsRespected = record {
  reflexive = λ t h. h;
  transitive = λ t u v f g h. g (f h);
  on_rows = λ t f step h. record {
    ordered = FromId-map f step t.bundles 0 h.ordered;
    distinct = AreDistinct-map f step t.bundles h.distinct;
    numbered = IsNumbered-map f step t.next_bundle t.bundles h.numbered;
  };
  on_insert = insert_bundle-IsWellFormed;
  elsewhere = λ t u same next h. record {
    ordered = rw same h.ordered;
    distinct = rw same h.distinct;
    numbered = rw (same, next) h.numbered;
  };
}

-- Whatever the block and whichever statements fail, the table of bundles stays well formed: the ids grow along it and are below the next one, no two bundles have the same sidechain and hash, and no bundle has more than 26300 blocks left.
pub process_block-IsWellFormed :
    (d : Driver) (height : ℕ) (block : Block) (w : World Tables)
    → IsWellFormed w.tables
    → IsWellFormed (process_block d height block w).1.tables
process_block-IsWellFormed d height block w =
    (process_block-R PreservesForm PreservesForm-IsRespected d height block).at w
