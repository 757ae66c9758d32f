-- ===== src/Cheques/Missing.antt =====
-- The error that the requests return for a cheque which the wallet does not have.
use drivechain_litwindow.Prelude.{
  ℕ, ◌≡◌, refl, inl, inr, Bool, true, false, not, ◌&&◌, Option, none, some, List, [], ◌∷◌, Bytes,
  Bool-cases, Option-cases, Result, ok, err,
}
use drivechain_litwindow.Database.{Driver, World, Action, query, raise, pure, continue, ◌>>=◌}
use drivechain_litwindow.Cheques.{Cheque, Tables, ChequeError, is_funded}
use drivechain_litwindow.Cheques.Operations.{get_cheque_by_id, found_or}
use drivechain_litwindow.Cheques.Sweep.{Unspent}
use drivechain_litwindow.Cheques.Deletion.{stored}
use drivechain_litwindow.Cheques.Requests.{
  RequestError, get_wallet_type, wallet_is_locked, cheque_not_found, cannot_delete_funded,
  bitcoind_not_available, derive_key_failed, ensure_watch_wallet_failed, query_utxos_failed,
  Services, guarded, answered, internally, with_error, internal, find_cheque, is_unswept, checked,
  get_cheque_request, get_cheque_private_key, check_cheque_funding, delete_cheque_request,
}

-- the code NotFound for the cheque
abbrev is_missing_error : RequestError → Bool
is_missing_error cheque_not_found = true
is_missing_error _ = false

abbrev pub is_missing : {A : Type 0} → Result RequestError A → Bool
is_missing (ok a) = false
is_missing (err e) = is_missing_error e

record Avoids {A : Type 0} (m : Action RequestError Tables A) : Type 0 where
  at : (w : World Tables) → is_missing (m w).0 ≡ false

Avoids-pure : {A : Type 0} (a : A) → Avoids (pure a)
unfolding pure
Avoids-pure a = record { at = λ w. refl }

continue-Avoids :
    {A B : Type 0} (x : Result RequestError A × World Tables) (f : A → Action RequestError Tables B)
    → is_missing x.0 ≡ false
    → ((a : A) → Avoids (f a))
    → is_missing (continue x f).0 ≡ false
continue-Avoids (ok a, w) f h g = (g a).at w
continue-Avoids (err e, w) f h g = h

Avoids-bind :
    {A B : Type 0} (m : Action RequestError Tables A) (f : A → Action RequestError Tables B)
    → Avoids m
    → ((a : A) → Avoids (f a))
    → Avoids (m >>= f)
unfolding ◌>>=◌
Avoids-bind m f hm hf = record { at = λ w. continue-Avoids (m w) f (hm.at w) hf }

Avoids-guarded : (b : Bool) (e : RequestError) → is_missing_error e ≡ false → Avoids (guarded b e)
unfolding guarded raise
Avoids-guarded true e h = Avoids-pure tt
Avoids-guarded false e h = record { at = λ w. h }

Avoids-answered :
    {A : Type 0} (e : RequestError) (o : Option A)
    → is_missing_error e ≡ false
    → Avoids (answered e o)
unfolding answered raise
Avoids-answered e none h = record { at = λ w. h }
Avoids-answered e (some a) h = Avoids-pure a

with_error-Avoids :
    {A : Type 0} (x : Result ChequeError A × World Tables)
    → is_missing (with_error internal x).0 ≡ false
with_error-Avoids (ok a, w) = refl
with_error-Avoids (err e, w) = refl

Avoids-internally : {A : Type 0} (m : Action ChequeError Tables A) → Avoids (internally m)
unfolding internally
Avoids-internally m = record { at = λ w. with_error-Avoids (m w) }

module _ (d : Driver) (s : Services) (wallet_id : Bytes) (id : ℕ) where
  Avoids-find_cheque : Avoids (find_cheque d s wallet_id id)
  unfolding find_cheque get_cheque_by_id found_or query raise pure ◌>>=◌
  Avoids-find_cheque = record {
    at = λ w. elim (Bool-cases (d.fails w.calls)) [
      | inl bad ↦ rw bad refl
      | inr good ↦ elim (Option-cases (stored wallet_id id w.tables)) [
        | inl missing ↦ rw (good, missing) refl
        | inr (r, found) ↦ rw (good, found) refl
      ]
    ];
  }

  Avoids-checked : (c : Cheque) (us : List Unspent) → Avoids (checked d s wallet_id id c us)
  unfolding checked
  Avoids-checked c [] =
      Avoids-bind _ _
        (elim (Bool-cases (is_funded c && is_unswept c)) [
          | inl money ↦ rw money (Avoids-internally _)
          | inr free ↦ rw free (Avoids-pure tt)
        ])
        (λ _. Avoids-pure _)
  Avoids-checked c (u ∷ us) =
      Avoids-bind _ _ (Avoids-internally _)
        (λ _. Avoids-bind _ _ (Avoids-internally _) (λ again. Avoids-pure _))

  -- Whichever calls fail and whatever the services answer, none of the requests for one cheque ever returns the code NotFound that the handlers have for a cheque which the wallet does not have.
  pub requests_never_missing :
      (w : World Tables)
      → (is_missing (get_cheque_request d s wallet_id id w).0 ≡ false)
        × (is_missing (get_cheque_private_key d s wallet_id id w).0 ≡ false)
        × (is_missing (check_cheque_funding d s wallet_id id w).0 ≡ false)
        × (is_missing (delete_cheque_request d s wallet_id id w).0 ≡ false)
  unfolding get_cheque_request get_cheque_private_key check_cheque_funding delete_cheque_request
  requests_never_missing w = (
    (Avoids-bind _ _ known (λ _. Avoids-bind _ _ Avoids-find_cheque (λ c. Avoids-pure _))).at w,
    (Avoids-bind _ _ known (λ _.
          Avoids-bind _ _ (Avoids-guarded s.is_unlocked wallet_is_locked refl) (λ _.
            Avoids-bind _ _ Avoids-find_cheque (λ c.
              Avoids-answered derive_key_failed
                (s.derive_private_key wallet_id c.row.derivation_index) refl)))).at
        w,
    (Avoids-bind _ _ known (λ _. Avoids-bind _ _ Avoids-find_cheque (λ c.
          Avoids-bind _ _ (Avoids-guarded s.has_watch_wallet ensure_watch_wallet_failed refl) (λ _.
            Avoids-bind _ _ (Avoids-guarded s.has_bitcoind bitcoind_not_available refl) (λ _.
              Avoids-bind _ _ (Avoids-answered query_utxos_failed (s.unspent c.row.address) refl)
                (λ us. Avoids-checked c us)))))).at
        w,
    (Avoids-bind _ _ known (λ _. Avoids-bind _ _ Avoids-find_cheque (λ c.
          Avoids-bind _ _
            (Avoids-guarded (not (is_funded c && is_unswept c)) cannot_delete_funded refl)
            (λ _. Avoids-internally _)))).at
        w,
  )
    where
      known : Avoids (guarded (s.has_wallet wallet_id) get_wallet_type)
      known = Avoids-guarded (s.has_wallet wallet_id) get_wallet_type refl
