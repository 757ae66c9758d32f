-- ===== src/Deniability/Requests/Created.antt =====
-- When `CreateDenial` reaches the store, and what it does to a plan that it finds.
use drivechain_litwindow.Prelude.{
  ℕ, ◌≡◌, refl, ap, ◌∙◌, Bool, true, false, Option, none, some, List, Bytes, Result, ok, err,
}
use drivechain_litwindow.Database.{Driver, World, Action, pure, raise, continue, ◌>>=◌}
use drivechain_litwindow.Deniability.{Denial, to_int32}
use drivechain_litwindow.Deniability.Engine.{
  WalletType, enforcer, bitcoin_core, watch_only, other_wallet,
}
use drivechain_litwindow.Deniability.Store.{Tables, StoreError}
use drivechain_litwindow.Deniability.Store.Operations.{update_denial}
use drivechain_litwindow.Deniability.Requests.{
  nanoseconds, RequestError, delay_not_positive, num_hops_not_positive, not_supported,
  utxo_not_found, of_store, Outpoint, listed_in, listed_in_core, enforcer_failed, bitcoind_failed,
  ActiveWallet, Wallets, CreateDenialRequest, is_positive, utxo_exists, with_store_error, stored,
  guarded, answered, active_of, is_supported, extend_or_create, place, create_denial,
}

-- The request is in order: positive numbers, and an output that the active wallet lists.
abbrev pub IsInOrder : Wallets → CreateDenialRequest → Type 0
IsInOrder s r =
    (is_positive r.delay_seconds ≡ true)
    × (is_positive r.num_hops ≡ true)
    × ((a : ActiveWallet) × (s.active_wallet ≡ some a)
        × (is_supported a.wallet_type ≡ true)
        × (utxo_exists s a.id a.wallet_type r.txid r.vout ≡ ok true))

abbrev is_of_store : RequestError → Bool
is_of_store (of_store e) = true
is_of_store _ = false

abbrev Either : Bool → Type 0 → Type 0 → Type 0
Either true A B = A
Either false A B = B

-- `P` holds of a request that came to the store; one that did not left the world `v` as it was.
abbrev pub Reached : World Tables → Type 0 → Result RequestError (Unit {0}) × World Tables → Type 0
Reached v P (ok _, w) = P
Reached v P (err e, w) = Either (is_of_store e) P (w ≡ v)

abbrev IsLocal : {A : Type 0} → Result RequestError A → Type 0
IsLocal (ok a) = Unit
IsLocal (err e) = is_of_store e ≡ false

module _ (P : Type 0) (w : World Tables) where
  Reached-guarded :
      (b : Bool) (e : RequestError) (f : Unit {0} → Action RequestError Tables (Unit {0}))
      → is_of_store e ≡ false
      → (b ≡ true → Reached w P (f tt w))
      → Reached w P ((guarded b e >>= f) w)
  unfolding guarded pure raise ◌>>=◌
  Reached-guarded true e f own h = h refl
  Reached-guarded false e f own h = rw own refl

  Reached-answered :
      {A : Type 0} (x : Result RequestError A) (f : A → Action RequestError Tables (Unit {0}))
      → IsLocal x
      → ((a : A) → x ≡ ok a → Reached w P (f a w))
      → Reached w P ((answered x >>= f) w)
  unfolding answered pure raise ◌>>=◌
  Reached-answered (ok a) f own h = h a refl
  Reached-answered (err e) f own h = rw own refl

  -- what is done in the store ends in the store
  Reached-stored :
      {A : Type 0} (m : Action StoreError Tables A) (f : A → Action RequestError Tables (Unit {0}))
      (v : World Tables)
      → P
      → ((a : A) (u : World Tables) → Reached w P (f a u))
      → Reached w P ((stored m >>= f) v)
  unfolding stored ◌>>=◌
  Reached-stored {A} m f v p h = of_result (m v).0 (m v).1
    where
      of_result :
          (x : Result StoreError A) (u : World Tables)
          → Reached w P (continue (with_store_error (x, u)) f)
      of_result (ok a) u = h a u
      of_result (err e) u = p

active_of-IsLocal : (o : Option ActiveWallet) → IsLocal (active_of o)
active_of-IsLocal none = refl
active_of-IsLocal (some a) = tt

listed_in-IsLocal :
    (e : RequestError) (txid : Bytes) (vout : ℕ) (o : Option (List Outpoint))
    → is_of_store e ≡ false
    → IsLocal (listed_in e txid vout o)
listed_in-IsLocal e txid vout none h = h
listed_in-IsLocal e txid vout (some os) h = tt

listed_in_core-IsLocal :
    (s : Wallets) (txid : Bytes) (vout : ℕ) (o : Option Bytes)
    → IsLocal (listed_in_core s txid vout o)
listed_in_core-IsLocal s txid vout none = refl
listed_in_core-IsLocal s txid vout (some name) =
    listed_in-IsLocal bitcoind_failed txid vout (s.core_outputs name) refl

utxo_exists-IsLocal :
    (s : Wallets) (id : Bytes) (t : WalletType) (txid : Bytes) (vout : ℕ)
    → IsLocal (utxo_exists s id t txid vout)
unfolding utxo_exists
utxo_exists-IsLocal s id enforcer txid vout =
    listed_in-IsLocal enforcer_failed txid vout s.enforcer_outputs refl
utxo_exists-IsLocal s id bitcoin_core txid vout =
    listed_in_core-IsLocal s txid vout (s.core_wallet_name id)
utxo_exists-IsLocal s id watch_only txid vout = refl
utxo_exists-IsLocal s id (other_wallet name) txid vout = refl

active_of-some : (o : Option ActiveWallet) {a : ActiveWallet} → active_of o ≡ ok a → o ≡ some a
active_of-some none h = absurd (cc h)
active_of-some (some a) h = cc

module _ (d : Driver) (P : Type 0) (w : World Tables) (p : P) where
  Reached-last :
      (m : Action StoreError Tables (Unit {0})) (v : World Tables) → Reached w P (stored m v)
  unfolding stored
  Reached-last m v = of_result (m v).0 (m v).1
    where
      of_result :
          (x : Result StoreError (Unit {0})) (u : World Tables)
          → Reached w P (with_store_error (x, u))
      of_result (ok a) u = p
      of_result (err e) u = p

  Reached-extend :
      (id : Bytes) (r : CreateDenialRequest) (found : Option Denial) (v : World Tables)
      → Reached w P (extend_or_create d id r found v)
  unfolding extend_or_create pure
  Reached-extend id r none v = Reached-stored P w _ (λ _. pure tt) v p (λ _ u. p)
  Reached-extend id r (some denial) v =
      Reached-last
        (update_denial d denial.id (nanoseconds r.delay_seconds) r.num_hops r.txid
          (to_int32 r.vout))
        v

  Reached-place : (id : Bytes) (r : CreateDenialRequest) → Reached w P (place d id r w)
  unfolding place
  Reached-place id r = Reached-stored P w _ (extend_or_create d id r) w p (Reached-extend id r)

-- Whichever calls fail and whatever the wallets answer: CreateDenial comes to the store only for a positive delay, a positive number of hops, and an output that the active wallet lists, which is not a watch-only one; any other request returns its own error and leaves the database as it was, without a call.
pub create_denial-Reached :
    (d : Driver) (s : Wallets) (r : CreateDenialRequest) (w : World Tables)
    → Reached w (IsInOrder s r) (create_denial d s r w)
unfolding create_denial
create_denial-Reached d s r w =
    let P = IsInOrder s r in
    Reached-guarded P w (is_positive r.delay_seconds) delay_not_positive _ refl (λ delay.
      Reached-guarded P w (is_positive r.num_hops) num_hops_not_positive _ refl (λ hops.
        Reached-answered P w (active_of s.active_wallet) _ (active_of-IsLocal s.active_wallet)
          (λ a active.
            Reached-guarded P w (is_supported a.wallet_type) not_supported _ refl (λ supported.
              Reached-answered P w (utxo_exists s a.id a.wallet_type r.txid r.vout) _
                (utxo_exists-IsLocal s a.id a.wallet_type r.txid r.vout)
                (λ exists listed. Reached-guarded P w exists utxo_not_found _ refl (λ there.
                  Reached-place d P w
                    (
                      delay,
                      hops,
                      (a, active_of-some s.active_wallet active, supported, listed ∙ ap ok there),
                    )
                    a.id r))))))
