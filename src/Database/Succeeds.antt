-- ===== src/Database/Succeeds.antt =====
-- Actions that return no error on a reliable driver, one rule for each way to build an action.
use drivechain_litwindow.Prelude.{ℕ, ◌≡◌, refl, true, List, [], ◌∷◌, Result, ok, err, is_ok}
use drivechain_litwindow.Database.{
  Driver, World, Action, IsReliable, called, pure, continue, ◌>>=◌, exec, insert, finish,
  transaction, for_each, logged,
}

pub record Succeeds {E T A : Type 0} (m : Action E T A) : Type 0 where
  pub at : (w : World T) → is_ok (m w).0 ≡ true

module _ {E T : Type 0} where
  pub Succeeds-pure : {A : Type 0} (a : A) → Succeeds (pure {E = E} {T = T} a)
  unfolding pure
  Succeeds-pure a = record { at = λ w. refl }

  continue-ok :
      {A B : Type 0} (x : Result E A × World T) (f : A → Action E T B)
      → is_ok x.0 ≡ true
      → ((a : A) → Succeeds (f a))
      → is_ok (continue x f).0 ≡ true
  continue-ok (ok a, w) f h g = (g a).at w
  continue-ok (err e, w) f h g = cc

  pub Succeeds-bind :
      {A B : Type 0} (m : Action E T A) (f : A → Action E T B)
      → Succeeds m
      → ((a : A) → Succeeds (f a))
      → Succeeds (m >>= f)
  unfolding ◌>>=◌
  Succeeds-bind m f hm hf = record { at = λ w. continue-ok (m w) f (hm.at w) hf }

  pub Succeeds-for_each :
      {A : Type 0} (f : A → Action E T (Unit {0})) (xs : List A)
      → ((a : A) → Succeeds (f a))
      → Succeeds (for_each f xs)
  unfolding for_each
  Succeeds-for_each f [] h = Succeeds-pure tt
  Succeeds-for_each f (a ∷ xs) h =
      Succeeds-bind (f a) (λ _. for_each f xs) (h a) (λ _. Succeeds-for_each f xs h)

  pub Succeeds-logged : (m : Action E T (Unit {0})) → Succeeds (logged m)
  unfolding logged
  Succeeds-logged m = record { at = λ w. refl }

  continue_after :
      {B : Type 0} (x : Result E (Unit {0}) × World T) (n : Action E T B)
      → is_ok x.0 ≡ true
      → continue x (λ _. n) ≡ n x.1
  continue_after (ok tt, w) n h = refl
  continue_after (err e, w) n h = cc

  -- after an action that succeeds the next one runs from where it ended
  pub bind_after :
      {B : Type 0} (m : Action E T (Unit {0})) (n : Action E T B) (w : World T)
      → Succeeds m
      → (m >>= λ _. n) w ≡ n (m w).1
  unfolding ◌>>=◌
  bind_after m n w h = continue_after (m w) n (h.at w)

  module _ (d : Driver) (reliable : IsReliable d) where
    pub Succeeds-exec : (e : E) (f : ℕ → T → T) → Succeeds (exec d e f)
    unfolding exec
    Succeeds-exec e f = record { at = λ w. rw (reliable w.calls) refl }

    pub exec_tables :
        (e : E) (f : ℕ → T → T) (w : World T)
        → (exec d e f w).1.tables ≡ f (d.clock w.calls) w.tables
    unfolding exec
    exec_tables e f w = rw (reliable w.calls) refl

    pub Succeeds-insert : (e : E) (f : ℕ → ℕ → T → T × ℕ) → Succeeds (insert d e f)
    unfolding insert
    Succeeds-insert e f = record { at = λ w. rw (reliable w.calls) refl }

    finish-ok :
        {A : Type 0} (e : E) (t : T) (x : Result E A × World T)
        → is_ok x.0 ≡ true
        → is_ok (finish d e t x).0 ≡ true
    unfolding finish
    finish-ok e t (ok a, w) h = rw (reliable w.calls) refl
    finish-ok e t (err y, w) h = cc

    pub Succeeds-transaction :
        {A : Type 0} (e : E) (m : Action E T A) → Succeeds m → Succeeds (transaction d e m)
    unfolding transaction
    Succeeds-transaction e m h = record {
      at = λ w. rw (reliable w.calls) (finish-ok e w.tables (m (called w)) (h.at (called w)));
    }

module _ {E T A : Type 0} (d : Driver) (reliable : IsReliable d) where
  finish_tables :
      (e : E) (t : T) (x : Result E A × World T)
      → is_ok x.0 ≡ true
      → (finish d e t x).1.tables ≡ x.1.tables
  unfolding finish
  finish_tables e t (ok a, w) h = rw (reliable w.calls) refl
  finish_tables e t (err y, w) h = cc

  -- a transaction whose body succeeds commits what the body has done
  pub transaction_tables :
      (e : E) (m : Action E T A) (w : World T)
      → Succeeds m
      → (transaction d e m w).1.tables ≡ (m (called w)).1.tables
  unfolding transaction
  transaction_tables e m w h =
      rw (reliable w.calls) (finish_tables e w.tables (m (called w)) (h.at (called w)))

module _ {E T B : Type 0} (d : Driver) (reliable : IsReliable d) where
  -- after an insert that succeeds the next action has its row id
  pub insert_after :
      (e : E) (f : ℕ → ℕ → T → T × ℕ) (g : ℕ → Action E T B) (w : World T)
      → (insert d e f >>= g) w ≡ (
          let (t, r) = f (d.clock w.calls) w.last_rowid w.tables in
          g r (record (called w) { tables = t; last_rowid = r }))
  unfolding insert ◌>>=◌
  insert_after e f g w = rw (reliable w.calls) refl
