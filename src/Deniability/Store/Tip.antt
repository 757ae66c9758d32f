-- ===== src/Deniability/Store/Tip.antt =====
-- The tip of a plan, and how a plan is found by it.
use mathlib.Core.List.{Memᴰ}
use drivechain_litwindow.Prelude.{
  ℕ, suc, ◌<◌, ◌≡◌, refl, sym, ap, ◌∙◌, inl, inr, ◌⊎◌, ◌≢◌, same_refl, mem-keep, All_mono,
  All-append, Bool, true, false, ◌&&◌, ◌||◌, Option, none, some, List, [], ◌∷◌, ◌++◌, Bytes, same,
  ◌==◌, if◌then◌else◌, keep, arith, All, Bool-cases, eq_of_same,
}
use drivechain_litwindow.Prelude.Int.{ℤ}
use drivechain_litwindow.Database.{Driver, World, exec_insert}
use drivechain_litwindow.Deniability.{ExecutedDenial}
use drivechain_litwindow.Deniability.Store.{
  DenialRow, Tables, Selected, latest_of, select_denials, selected_of, tip_txid, tip_vout,
  matches_vout, same_ℤ, first_row,
}
use drivechain_litwindow.Deniability.Store.Operations.{
  insert_executed, record_execution, row_by_tip,
}

-- Every recorded execution has an id below the next.
abbrev pub AreNumbered : Tables → Type 0
AreNumbered t = All (λ (e : ExecutedDenial). e.id < t.next_executed) t.executed_denials

latest_of-append :
    (id : ℕ) (es : List ExecutedDenial) (new : ExecutedDenial)
    → All (λ (e : ExecutedDenial). e.id < new.id) es
    → latest_of id (es ++ new ∷ []) ≡ (if new.denial_id == id then some new else latest_of id es)
unfolding latest_of
latest_of-append id [] new h = refl
latest_of-append id (e ∷ es) new (b, h) = rw (latest_of-append id es new h) (ground arith)

-- If the insert does not fail and the executions have ids below the next one, recording a hop of a plan makes the recorded output the tip of that plan, and leaves all other plans as they are selected.
pub record_execution-tip :
    (d : Driver) (denial_id : ℕ) (from_txid : Bytes) (from_vout : ℤ) (to_txid : Bytes) (to_vout : ℤ)
    (w : World Tables) (p : DenialRow)
    → d.fails w.calls ≡ false
    → AreNumbered w.tables
    → let t = (record_execution d denial_id from_txid from_vout to_txid to_vout w).1.tables in
      (t.denials ≡ w.tables.denials)
      × AreNumbered t
      × (p.id ≡ denial_id
          → (tip_txid (selected_of t p) ≡ to_txid) × (tip_vout (selected_of t p) ≡ to_vout))
      × (p.id ≢ denial_id → selected_of t p ≡ selected_of w.tables p)
unfolding record_execution exec_insert insert_executed
record_execution-tip d denial_id from_txid from_vout to_txid to_vout w p good numbered =
    let next = w.tables.next_executed in
    let new : ExecutedDenial = record {
      id = next;
      denial_id = denial_id;
      from_txid = from_txid;
      from_vout = from_vout;
      to_txid = to_txid;
      to_vout = to_vout;
      created_at = d.clock w.calls;
    } in
    let latest = latest_of-append p.id w.tables.executed_denials new numbered in
    rw good (
      refl,
      All-append (λ (e : ExecutedDenial). e.id < suc next) w.tables.executed_denials (new ∷ [])
          (All_mono (λ (e : ExecutedDenial). e.id < next) (λ (e : ExecutedDenial). e.id < suc next)
            (λ e b. omega (arith, b)) w.tables.executed_denials numbered)
          (omega arith, tt),
      λ same_id. rw latest (ground (arith, same_id)),
      λ other. rw latest (ground (arith, other)),
    )

module _ (p : Selected → Bool) where
  first_row-keep :
      (ss : List Selected) {s : Selected}
      → first_row (keep p ss) ≡ some s
      → Memᴰ s ss × (p s ≡ true)
  first_row-keep ss {s} h = mem-keep p s ss (of_first (keep p ss) h)
    where
      of_first : (xs : List Selected) → first_row xs ≡ some s → Memᴰ s xs
      of_first [] e = cc
      of_first (x ∷ xs) e = let at : s ≡ x = cc in Memᴰ.head at

  keep-found :
      (ss : List Selected) {s : Selected}
      → Memᴰ s ss
      → p s ≡ true
      → (r : Selected) × (first_row (keep p ss) ≡ some r)
  keep-found [] m good = elim m [ ]
  keep-found (x ∷ xs) {s} (Memᴰ.head e) good = (x, rw (ap p (sym e) ∙ good) refl)
  keep-found (x ∷ xs) (Memᴰ.tail m) good = elim (Bool-cases (p x)) [
    | inl here ↦ (x, rw here refl)
    | inr not_here ↦ rw not_here (keep-found xs m good)
  ]

eq_of_same_ℤ : (a b : ℤ) → same_ℤ a b ≡ true → a ≡ b
eq_of_same_ℤ a b h = ground arith

pub same_ℤ_refl : (a : ℤ) → same_ℤ a a ≡ true
same_ℤ_refl a = ground arith

and_left : (a b : Bool) → (a && b) ≡ true → (a ≡ true) × (b ≡ true)
and_left a b h = ground arith

or_cases : (a b : Bool) → (a || b) ≡ true → (a ≡ true) ⊎ (b ≡ true)
or_cases a b h = ground arith

vout_sound :
    (latest : Option ExecutedDenial) (initial v : ℤ)
    → (elim latest [ none ↦ false | some e ↦ same_ℤ e.to_vout v ]) ≡ true
    → (elim latest [ none ↦ initial | some e ↦ e.to_vout ]) ≡ v
vout_sound none initial v h = cc
vout_sound (some e) initial v h = eq_of_same_ℤ e.to_vout v h

matches_sound :
    (txid : Bytes) (v : ℤ) (s : Selected)
    → (same (tip_txid s) txid && matches_vout (some v) s) ≡ true
    → (tip_txid s ≡ txid) × ((tip_vout s ≡ v) ⊎ (s.plan.initial_vout ≡ v))
matches_sound txid v s h =
    let (text, out) = and_left (same (tip_txid s) txid) (matches_vout (some v) s) h in
    (
      eq_of_same (tip_txid s) txid text,
      elim (or_cases (elim s.latest [ none ↦ false | some e ↦ same_ℤ e.to_vout v ])
          (same_ℤ s.plan.initial_vout v) out) [
            | inl at_tip ↦ inl (vout_sound s.latest s.plan.initial_vout v at_tip)
            | inr at_start ↦ inr (eq_of_same_ℤ s.plan.initial_vout v at_start)
          ],
    )

or_true : (a : Bool) → (a || true) ≡ true
or_true a = ground arith

matches_initial :
    (txid : Bytes) (v : ℤ) (s : Selected)
    → tip_txid s ≡ txid
    → s.plan.initial_vout ≡ v
    → (same (tip_txid s) txid && matches_vout (some v) s) ≡ true
matches_initial txid v s h k =
    rw (h, k, same_refl txid, same_ℤ_refl v)
      (or_true (elim s.latest [ none ↦ false | some e ↦ same_ℤ e.to_vout v ]))

-- A plan that `GetByTip` finds for a transaction and an output number has its tip in that transaction, at that number, or it started from an output of that number.
pub row_by_tip-found :
    (txid : Bytes) (v : ℤ) (t : Tables) {s : Selected}
    → row_by_tip txid (some v) t ≡ some s
    → Memᴰ s (select_denials t)
      × (tip_txid s ≡ txid)
      × ((tip_vout s ≡ v) ⊎ (s.plan.initial_vout ≡ v))
unfolding row_by_tip
row_by_tip-found txid v t {s} h =
    let test = λ (x : Selected). same (tip_txid x) txid && matches_vout (some v) x in
    let (m, good) = first_row-keep test (select_denials t) h in
    let (in_tip, at_vout) = matches_sound txid v s good in (m, in_tip, at_vout)

-- `GetByTip` finds a plan for the transaction of any plan's tip together with the output number that the plan started from, whatever the output number of the tip is.
pub row_by_tip-initial :
    (t : Tables) (s : Selected)
    → Memᴰ s (select_denials t)
    → (r : Selected) × (row_by_tip (tip_txid s) (some s.plan.initial_vout) t ≡ some r)
unfolding row_by_tip
row_by_tip-initial t s m =
    let test = λ (x : Selected).
      same (tip_txid x) (tip_txid s) && matches_vout (some s.plan.initial_vout) x in
    keep-found test (select_denials t) m
      (matches_initial (tip_txid s) s.plan.initial_vout s refl refl)
