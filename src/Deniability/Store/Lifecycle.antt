-- ===== src/Deniability/Store/Lifecycle.antt =====
-- Cancelling, pausing and resuming a plan.
use drivechain_litwindow.Prelude.{
  ℕ, ◌≡◌, refl, ap, ◌∙◌, inl, inr, Bool, true, false, not, ◌&&◌, Option, none, some, List, [], ◌∷◌,
  map, Bytes, ◌==◌, if◌then◌else◌, arith, All, Bool-cases, ok, err,
}
use drivechain_litwindow.Prelude.Int.{ℤ}
use drivechain_litwindow.Database.{Driver, World, IsReliable, update, called, ◌>>=◌, raise, pure}
use drivechain_litwindow.Deniability.{ExecutedDenial, is_none, next_execution, last_execution}
use drivechain_litwindow.Deniability.Store.{
  DenialRow, Tables, StoreError, not_pausable, not_paused, not_found, pause_failed, cancel_failed,
  resume_failed, denial_of, update_rows, has_id, is_pausable, is_resumable,
}
use drivechain_litwindow.Deniability.Store.Operations.{pause, resume, cancel, some_affected}

-- The plan of a row, with whatever executions it has, is never due.
abbrev pub IsIdle : DenialRow → Type 0
IsIdle r =
    (latest : Option ExecutedDenial) (sizes : List ℤ) (es : List ExecutedDenial)
    → next_execution (denial_of (record { plan = r; latest = latest }) sizes) es ≡ none

abbrev is_idle : DenialRow → Bool
is_idle r = not (is_none r.cancelled_at && is_none r.paused_at)

is_idle-IsIdle : (r : DenialRow) → is_idle r ≡ true → IsIdle r
unfolding next_execution last_execution
is_idle-IsIdle r h latest sizes es = ground arith

module _ (id now : ℕ) where
  abbrev paused_row : DenialRow → DenialRow
  paused_row r = if is_pausable id r then record r { paused_at = some now } else r

  abbrev resumed_row : DenialRow → DenialRow
  resumed_row r = if is_resumable id r then record r { paused_at = none } else r

  paused_row-IsIdle : (r : DenialRow) → (paused_row r).id ≡ id → IsIdle (paused_row r)
  paused_row-IsIdle r h = is_idle-IsIdle (paused_row r) (ground arith)

  all_paused :
      (rs : List DenialRow) → All (λ (r : DenialRow). r.id ≡ id → IsIdle r) (map paused_row rs)
  all_paused [] = tt
  all_paused (r ∷ rs) = (paused_row-IsIdle r, all_paused rs)

  abbrev pub cancelled_row : Bytes → DenialRow → DenialRow
  cancelled_row reason r =
      if has_id id r
      then record r { cancelled_at = some now; cancelled_reason = some reason }
      else r

  all_cancelled :
      (reason : Bytes) (rs : List DenialRow)
      → All (λ (r : DenialRow). r.id ≡ id → IsIdle r) (map (cancelled_row reason) rs)
  all_cancelled reason [] = tt
  all_cancelled reason (r ∷ rs) =
      (λ h. is_idle-IsIdle (cancelled_row reason r) (ground arith), all_cancelled reason rs)

  back :
      (later : ℕ) (r : DenialRow)
      → (r.id ≡ id → is_pausable id r ≡ true)
      → resumed_row (paused_row r) ≡ r
  back later r h = ground arith

some_affected_state : (e : StoreError) (n : ℕ) (w : World Tables) → (some_affected e n w).1 ≡ w
unfolding some_affected
some_affected_state e n w = elim (Bool-cases (n == 0)) [
  | inl no_row ↦ rw no_row (unfold raise in refl)
  | inr rows ↦ rw rows (unfold pure in refl)
]

-- An update and the test of the rows it affected leave the updated tables.
pub updated :
    (d : Driver) (e none_affected : StoreError) (f : ℕ → Tables → Tables × ℕ) (w : World Tables)
    → d.fails w.calls ≡ false
    → ((update d e f >>= some_affected none_affected) w).1.tables ≡ (f (d.clock w.calls) w.tables).0
unfolding update ◌>>=◌
updated d e none_affected f w good = rw good (
    ap (λ (v : World Tables). v.tables)
      (some_affected_state none_affected (f (d.clock w.calls) w.tables).1
        (record (called w) { tables = (f (d.clock w.calls) w.tables).0 })))

pub failed :
    (d : Driver) (e none_affected : StoreError) (f : ℕ → Tables → Tables × ℕ) (w : World Tables)
    → d.fails w.calls ≡ true
    → ((update d e f >>= some_affected none_affected) w).0 ≡ err e
unfolding update ◌>>=◌
failed d e none_affected f w bad = rw bad refl

pub failed_state :
    (d : Driver) (e none_affected : StoreError) (f : ℕ → Tables → Tables × ℕ) (w : World Tables)
    → d.fails w.calls ≡ true
    → ((update d e f >>= some_affected none_affected) w).1.tables ≡ w.tables
unfolding update ◌>>=◌
failed_state d e none_affected f w bad = rw bad refl

-- Once a plan is paused or cancelled without an error, it is never due.
pub pause-cancel-IsIdle :
    (d : Driver) (id : ℕ) (reason : Bytes) (w : World Tables)
    → ((pause d id w).0 ≡ ok tt
        → All (λ (r : DenialRow). r.id ≡ id → IsIdle r) (pause d id w).1.tables.denials)
      × ((cancel d id reason w).0 ≡ ok tt
          → All (λ (r : DenialRow). r.id ≡ id → IsIdle r) (cancel d id reason w).1.tables.denials)
unfolding pause cancel
pause-cancel-IsIdle d id reason w =
    let now = d.clock w.calls in
    elim (Bool-cases (d.fails w.calls)) [
      | inl bad ↦ (
        λ h. absurd (cc (h, failed d pause_failed not_pausable _ w bad)),
        λ h. absurd (cc (h, failed d cancel_failed not_found _ w bad)),
      )
      | inr good ↦ (
        λ h. rw (updated d pause_failed not_pausable _ w good) (all_paused id now w.tables.denials),
        λ h.
            rw (updated d cancel_failed not_found _ w good)
              (all_cancelled id now reason w.tables.denials),
      )
    ]

resume_paused :
    (id now : ℕ) (rs : List DenialRow)
    → All (λ (r : DenialRow). r.id ≡ id → is_pausable id r ≡ true) rs
    → map (resumed_row id now) (map (paused_row id now) rs) ≡ rs
resume_paused id now [] h = refl
resume_paused id now (r ∷ rs) (p, h) = cc (back id now now r p, resume_paused id now rs h)

-- If no statement fails, pausing a plan that is neither paused nor cancelled and resuming it leaves all plans as they were.
pub pause-resume :
    (d : Driver) (id : ℕ) (w : World Tables)
    → IsReliable d
    → All (λ (r : DenialRow). r.id ≡ id → is_pausable id r ≡ true) w.tables.denials
    → (resume d id (pause d id w).1).1.tables ≡ w.tables
unfolding pause resume
pause-resume d id w reliable h =
    let v = (pause d id w).1 in
    let paused =
      updated d pause_failed not_pausable
        (λ now. update_rows (is_pausable id) (λ r. record r { paused_at = some now })) w
        (reliable w.calls) in
    updated d resume_failed not_paused _ v (reliable v.calls)
    ∙ rw paused (
        ap (λ rs. record w.tables { denials = rs })
          (resume_paused id (d.clock w.calls) w.tables.denials h))
