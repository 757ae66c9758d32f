-- ===== src/Database.antt =====
-- The calls that litwindow/server makes to its SQLite database, through `database/sql` on one
-- connection (litwindow/server/database/db.go sets `SetMaxOpenConns(1)`). SQLite is not part of the
-- repository: a driver says which calls fail and what time each call reads, and every theorem
-- holds for every driver unless it names one. `CURRENT_TIMESTAMP` and `time.Now()` are both the time
-- that the call reads. A statement's effect on the tables is written out
-- beside the statement that it translates.
pub mod Loops
pub mod Moves
pub mod Succeeds
use drivechain_litwindow.Prelude.{
  ℕ, suc, Option, none, some, ◌+◌, Bool, true, false, List, [], ◌∷◌, if◌then◌else◌, Result, ok, err,
  ◌≡◌, refl, Bool-cases, inl, inr, ◌≡◌, refl, Bool-cases, inl, inr,
}

pub record Driver : Type 0 where
  -- whether the call with this number fails
  pub fails : ℕ → Bool
  -- the time that the call with this number reads
  pub clock : ℕ → ℕ

-- The tables, the row id of the connection's latest insert, and the number of calls made.
pub record World (T : Type 0) : Type 0 where
  pub tables : T
  pub last_rowid : ℕ
  pub calls : ℕ

abbrev pub Action : Type 0 → Type 0 → Type 0 → Type 0
Action E T A = World T → Result E A × World T

abbrev pub called : {T : Type 0} → World T → World T
called w = record w { calls = suc w.calls }

module _ {E T A : Type 0} where
  unfoldable pub pure : A → Action E T A
  pure a w = (ok a, w)

  unfoldable pub raise : E → Action E T A
  raise e w = (err e, w)

module _ {E T A B : Type 0} where
  abbrev pub continue : Result E A × World T → (A → Action E T B) → Result E B × World T
  continue (ok a, w) f = f a w
  continue (err e, w) f = (err e, w)

  infixl 5 ◌>>=◌ ◌>>◌
  unfoldable pub ◌>>=◌ : Action E T A → (A → Action E T B) → Action E T B
  unfolding pure raise
  ◌>>=◌ m f w = continue (m w) f

  abbrev pub ◌>>◌ : Action E T A → Action E T B → Action E T B
  m >> n = m >>= λ _. n

module _ (d : Driver) where
  -- `Exec`: the statement at the time of the call, or the error `e`
  unfoldable pub exec : {E T : Type 0} → E → (ℕ → T → T) → Action E T (Unit {0})
  exec e f w =
      if d.fails w.calls
      then (err e, called w)
      else (ok tt, record (called w) { tables = f (d.clock w.calls) w.tables })

  -- `Exec` of an insert whose row id nothing asks for: the connection keeps it all the same, as the
  -- statement says from the tables and the row id before it
  unfoldable pub exec_insert :
      {E T : Type 0} → E → (ℕ → T → T) → (T → ℕ → ℕ) → Action E T (Unit {0})
  exec_insert e f rowid w = if d.fails w.calls then (err e, called w) else (
    ok tt,
    record (called w) {
      tables = f (d.clock w.calls) w.tables;
      last_rowid = rowid w.tables w.last_rowid;
    },
  )

  -- `Exec` of an insert, and `LastInsertId`: the statement says which row it inserted, and if it
  -- inserted none the connection's latest row id stays.
  unfoldable pub insert : {E T : Type 0} → E → (ℕ → ℕ → T → T × ℕ) → Action E T ℕ
  insert e f w =
      let (t, rowid) = f (d.clock w.calls) w.last_rowid w.tables in
      if d.fails w.calls
      then (err e, called w)
      else (ok rowid, record (called w) { tables = t; last_rowid = rowid })

  -- what an insert leaves that a constraint may refuse
  unfoldable pub insert_result :
      {E T : Type 0} → E → World T → Option (T × ℕ) → Result E ℕ × World T
  insert_result e w none = (err e, called w)
  insert_result e w (some row) =
      if d.fails w.calls
      then (err e, called w)
      else (ok row.1, record (called w) { tables = row.0; last_rowid = row.1 })

  unfoldable pub try_insert : {E T : Type 0} → E → (ℕ → T → Option (T × ℕ)) → Action E T ℕ
  unfolding insert_result
  try_insert e f w = insert_result e w (f (d.clock w.calls) w.tables)

  -- `Exec` of an update, and `RowsAffected`
  unfoldable pub update : {E T : Type 0} → E → (ℕ → T → T × ℕ) → Action E T ℕ
  update e f w =
      let (t, rows) = f (d.clock w.calls) w.tables in
      if d.fails w.calls then (err e, called w) else (ok rows, record (called w) { tables = t })

  -- `Query`
  unfoldable pub query : {E T A : Type 0} → E → (T → A) → Action E T A
  query e f w = if d.fails w.calls then (err e, called w) else (ok (f w.tables), called w)

  -- `Commit`, or the deferred `Rollback` to the tables `t`
  unfoldable pub finish : {E T A : Type 0} → E → T → Result E A × World T → Result E A × World T
  finish e t (err x, w) = (err x, record w { tables = t })
  finish e t (ok a, w) =
      if d.fails w.calls then (err e, record (called w) { tables = t }) else (ok a, called w)

  -- `BeginTx`, the body, and `Commit` or the deferred `Rollback`
  unfoldable pub transaction : {E T A : Type 0} → E → Action E T A → Action E T A
  unfolding finish
  transaction e body w =
      if d.fails w.calls then (err e, called w) else finish e w.tables (body (called w))

module _ {E T : Type 0} where
  -- a loop whose body may return an error, which ends it
  unfoldable pub for_each :
      {A : Type 0} → (A → Action E T (Unit {0})) → List A → Action E T (Unit {0})
  unfolding pure ◌>>=◌
  for_each f [] = pure tt
  for_each f (a ∷ rest) = f a >>= λ _. for_each f rest

  abbrev forget : Result E (Unit {0}) × World T → Result E (Unit {0}) × World T
  forget (r, w) = (ok tt, w)

  -- a call whose error the caller looks at
  unfoldable pub attempted : {A : Type 0} → Action E T A → Action E T (Result E A)
  attempted m w = (ok (m w).0, (m w).1)

  -- a call whose error is only logged
  unfoldable pub logged : Action E T (Unit {0}) → Action E T (Unit {0})
  logged m w = forget (m w)

-- A transaction that returns an error has left the tables as they were.
finish_atomic :
    {E T A : Type 0} (d : Driver) (e : E) (t : T) (x : Result E A × World T) {y : E}
    → (finish d e t x).0 ≡ err y
    → (finish d e t x).1.tables ≡ t
unfolding finish
finish_atomic d e t (err z, w) h = refl
finish_atomic d e t (ok a, w) h = elim (Bool-cases (d.fails w.calls)) [
  | inl bad ↦ rw bad
  | inr good ↦ absurd (cc (h, good))
]

pub transaction_atomic :
    {E T A : Type 0} (d : Driver) (e : E) (m : Action E T A) (w : World T) {y : E}
    → (transaction d e m w).0 ≡ err y
    → (transaction d e m w).1.tables ≡ w.tables
unfolding transaction
transaction_atomic d e m w {y} h = elim (Bool-cases (d.fails w.calls)) [
  | inl bad ↦ rw bad
  | inr good ↦ rw good (finish_atomic d e w.tables (m (called w)) {y = y} (rw good at h))
]

-- A driver on which no call fails.
abbrev pub IsReliable : Driver → Type 0
IsReliable d = (n : ℕ) → d.fails n ≡ false
