-- ===== src/Database/Moves.antt =====
-- A reflexive and transitive relation between the tables before and after an action, whatever
-- the driver does: one rule for each way to build an action.
use drivechain_litwindow.Prelude.{ℕ, List, [], ◌∷◌, Result, ok, err, Bool-cases, inl, inr}
use drivechain_litwindow.Database.{
  Driver, World, Action, called, pure, raise, continue, ◌>>=◌, exec, exec_insert, insert, query,
  finish, transaction, for_each, logged,
}

pub record Moves {T E A : Type 0} (R : T → T → Type 0) (m : Action E T A) : Type 0 where
  pub at : (w : World T) → R w.tables (m w).1.tables

module _ {T E : Type 0} (R : T → T → Type 0) (R_refl : (t : T) → R t t)
    (R_trans : (t u v : T) → R t u → R u v → R t v) where
  pub Moves-pure : {A : Type 0} (a : A) → Moves R (pure {E = E} a)
  unfolding pure
  Moves-pure a = record { at = λ w. R_refl w.tables }

  pub Moves-raise : {A : Type 0} (e : E) → Moves R (raise {A = A} e)
  unfolding raise
  Moves-raise e = record { at = λ w. R_refl w.tables }

  continue-R :
      {A B : Type 0} (t : T) (x : Result E A × World T) (f : A → Action E T B)
      → R t x.1.tables
      → ((a : A) → Moves R (f a))
      → R t (continue x f).1.tables
  continue-R t (ok a, w) f h g = R_trans t w.tables _ h ((g a).at w)
  continue-R t (err e, w) f h g = h

  pub Moves-bind :
      {A B : Type 0} (m : Action E T A) (f : A → Action E T B)
      → Moves R m
      → ((a : A) → Moves R (f a))
      → Moves R (m >>= f)
  unfolding ◌>>=◌
  Moves-bind m f hm hf = record { at = λ w. continue-R w.tables (m w) f (hm.at w) hf }

  pub Moves-for_each :
      {A : Type 0} (f : A → Action E T (Unit {0})) (xs : List A)
      → ((a : A) → Moves R (f a))
      → Moves R (for_each f xs)
  unfolding for_each
  Moves-for_each f [] h = Moves-pure tt
  Moves-for_each f (a ∷ xs) h =
      Moves-bind (f a) (λ _. for_each f xs) (h a) (λ _. Moves-for_each f xs h)

  pub Moves-logged : (m : Action E T (Unit {0})) → Moves R m → Moves R (logged m)
  unfolding logged
  Moves-logged m h = record { at = λ w. h.at w }

  module _ (d : Driver) where
    pub Moves-exec :
        (e : E) (f : ℕ → T → T) → ((n : ℕ) (t : T) → R t (f n t)) → Moves R (exec d e f)
    unfolding exec
    Moves-exec e f h = record {
      at = λ w. elim (Bool-cases (d.fails w.calls)) [
        | inl bad ↦ rw bad (R_refl w.tables)
        | inr good ↦ rw good (h (d.clock w.calls) w.tables)
      ];
    }

    pub Moves-exec_insert :
        (e : E) (f : ℕ → T → T) (rowid : T → ℕ → ℕ)
        → ((n : ℕ) (t : T) → R t (f n t))
        → Moves R (exec_insert d e f rowid)
    unfolding exec_insert
    Moves-exec_insert e f rowid h = record {
      at = λ w. elim (Bool-cases (d.fails w.calls)) [
        | inl bad ↦ rw bad (R_refl w.tables)
        | inr good ↦ rw good (h (d.clock w.calls) w.tables)
      ];
    }

    pub Moves-insert :
        (e : E) (f : ℕ → ℕ → T → T × ℕ)
        → ((n r : ℕ) (t : T) → R t (f n r t).0)
        → Moves R (insert d e f)
    unfolding insert
    Moves-insert e f h = record {
      at = λ w. elim (Bool-cases (d.fails w.calls)) [
        | inl bad ↦ rw bad (R_refl w.tables)
        | inr good ↦ rw good (h (d.clock w.calls) w.last_rowid w.tables)
      ];
    }

    pub Moves-query : {A : Type 0} (e : E) (f : T → A) → Moves R (query d e f)
    unfolding query
    Moves-query e f = record {
      at = λ w. elim (Bool-cases (d.fails w.calls)) [
        | inl bad ↦ rw bad (R_refl w.tables)
        | inr good ↦ rw good (R_refl w.tables)
      ];
    }

    finish-R :
        {A : Type 0} (e : E) (t : T) (x : Result E A × World T)
        → R t x.1.tables
        → R t (finish d e t x).1.tables
    unfolding finish
    finish-R e t (err y, w) h = R_refl t
    finish-R e t (ok a, w) h = elim (Bool-cases (d.fails w.calls)) [
      | inl bad ↦ rw bad (R_refl t)
      | inr good ↦ rw good h
    ]

    pub Moves-transaction :
        {A : Type 0} (e : E) (m : Action E T A) → Moves R m → Moves R (transaction d e m)
    unfolding transaction
    Moves-transaction e m h = record {
      at = λ w. elim (Bool-cases (d.fails w.calls)) [
        | inl bad ↦ rw bad (R_refl w.tables)
        | inr good ↦ rw good (finish-R e w.tables (m (called w)) (h.at (called w)))
      ];
    }
