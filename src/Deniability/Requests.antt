-- ===== src/Deniability/Requests.antt =====
-- CreateDenial, CancelDenial, PauseDenial and ResumeDenial of
-- litwindow/server/api/bitwindowd/bitwindowd.go. The wallets and nodes are parameters.
pub mod Created
pub mod Extended
mod Tests
use drivechain_litwindow.Prelude.{
  ℕ, Bool, true, false, ◌&&◌, ◌*◌, Option, none, some, List, [], ◌∷◌, Bytes, codes, same, ◌==◌,
  some_item, if◌then◌else◌, Result, ok, err,
}
use drivechain_litwindow.Prelude.Int.{ℤ, pos, ltb_ℤ, ◌*ℤ◌}
use drivechain_litwindow.Database.{Driver, World, Action, pure, raise, ◌>>=◌, ◌>>◌}
use drivechain_litwindow.Deniability.{Denial, to_int32}
use drivechain_litwindow.Deniability.Engine.{
  WalletType, enforcer, bitcoin_core, watch_only, other_wallet,
}
use drivechain_litwindow.Deniability.Store.{Tables, StoreError}
use drivechain_litwindow.Deniability.Store.Operations.{
  get_by_tip, update_denial, create, cancel, pause, resume,
}

pub data RequestError : Type 0 where
  delay_not_positive num_hops_not_positive : RequestError
  no_active_wallet not_supported unknown_wallet_type : RequestError
  enforcer_failed bitcoind_failed wallet_name_failed utxo_not_found : RequestError
  of_store : StoreError → RequestError

pub record ActiveWallet : Type 0 where
  pub id : Bytes
  pub wallet_type : WalletType

pub record Outpoint : Type 0 where
  pub txid : Bytes
  pub vout : ℕ

-- What the wallets and nodes answer.
pub record Wallets : Type 0 where
  pub active_wallet : Option ActiveWallet
  pub enforcer_outputs : Option (List Outpoint)
  pub core_wallet_name : Bytes → Option Bytes
  pub core_outputs : Bytes → Option (List Outpoint)

pub record CreateDenialRequest : Type 0 where
  pub txid : Bytes
  pub vout : ℕ  -- uint32
  pub delay_seconds : ℤ  -- int32
  pub num_hops : ℤ
  pub target_utxo_sizes : List ℤ

abbrev pub is_positive : ℤ → Bool
is_positive a = ltb_ℤ (pos 0) a

abbrev pub lists : Bytes → ℕ → List Outpoint → Bool
lists txid vout os = some_item (λ (o : Outpoint). same o.txid txid && o.vout == vout) os

-- `checkEnforcerUTXO` and `checkBitcoinCoreUTXO`
abbrev pub listed_in : RequestError → Bytes → ℕ → Option (List Outpoint) → Result RequestError Bool
listed_in e txid vout none = err e
listed_in e txid vout (some os) = ok (lists txid vout os)

abbrev pub listed_in_core : Wallets → Bytes → ℕ → Option Bytes → Result RequestError Bool
listed_in_core s txid vout none = err wallet_name_failed
listed_in_core s txid vout (some name) = listed_in bitcoind_failed txid vout (s.core_outputs name)

unfoldable pub utxo_exists : Wallets → Bytes → WalletType → Bytes → ℕ → Result RequestError Bool
utxo_exists s id enforcer txid vout = listed_in enforcer_failed txid vout s.enforcer_outputs
utxo_exists s id bitcoin_core txid vout = listed_in_core s txid vout (s.core_wallet_name id)
utxo_exists s id watch_only txid vout = err not_supported
utxo_exists s id (other_wallet name) txid vout = err unknown_wallet_type

abbrev pub with_store_error :
    {A : Type 0} → Result StoreError A × World Tables → Result RequestError A × World Tables
with_store_error (ok a, w) = (ok a, w)
with_store_error (err e, w) = (err (of_store e), w)

unfoldable pub stored : {A : Type 0} → Action StoreError Tables A → Action RequestError Tables A
stored m w = with_store_error (m w)

unfoldable pub guarded : Bool → RequestError → Action RequestError Tables (Unit {0})
guarded true e = pure tt
guarded false e = raise e

unfoldable pub answered : {A : Type 0} → Result RequestError A → Action RequestError Tables A
answered (ok a) = pure a
answered (err e) = raise e

abbrev pub active_of : Option ActiveWallet → Result RequestError ActiveWallet
active_of none = err no_active_wallet
active_of (some a) = ok a

abbrev pub is_supported : WalletType → Bool
is_supported watch_only = false
is_supported _ = true

-- time.Duration(seconds) * time.Second, which an int64 holds for every int32
unfoldable pub nanoseconds : ℤ → ℤ
unfolding ◌*ℤ◌
nanoseconds seconds = seconds *ℤ pos 1_000_000_000

module _ (d : Driver) where
  -- a plan with this tip is extended, otherwise one is made
  unfoldable pub extend_or_create :
      Bytes → CreateDenialRequest → Option Denial → Action RequestError Tables (Unit {0})
  unfolding stored update_denial create
  extend_or_create wallet_id r (some denial) =
      stored (
        update_denial d denial.id (nanoseconds r.delay_seconds) r.num_hops r.txid (to_int32 r.vout))
  extend_or_create wallet_id r none = do
    _ ← stored (
        create d wallet_id r.txid (to_int32 r.vout) (nanoseconds r.delay_seconds) r.num_hops
          r.target_utxo_sizes)
    pure tt

  -- what follows the answers of the wallets
  unfoldable pub place : Bytes → CreateDenialRequest → Action RequestError Tables (Unit {0})
  unfolding stored get_by_tip extend_or_create
  place wallet_id r = do
    found ← stored (get_by_tip d r.txid (some (to_int32 r.vout)))
    extend_or_create wallet_id r found

  unfoldable pub create_denial :
      Wallets → CreateDenialRequest → Action RequestError Tables (Unit {0})
  unfolding guarded answered utxo_exists place
  create_denial s r = do
    guarded (is_positive r.delay_seconds) delay_not_positive
    guarded (is_positive r.num_hops) num_hops_not_positive
    active ← answered (active_of s.active_wallet)
    guarded (is_supported active.wallet_type) not_supported
    exists ← answered (utxo_exists s active.id active.wallet_type r.txid r.vout)
    guarded exists utxo_not_found
    place active.id r

  unfoldable pub cancel_denial : ℕ → Action RequestError Tables (Unit {0})
  unfolding stored cancel
  cancel_denial id = stored (cancel d id (codes "cancelled by user"))

  unfoldable pub pause_denial : ℕ → Action RequestError Tables (Unit {0})
  unfolding stored pause
  pause_denial id = stored (pause d id)

  unfoldable pub resume_denial : ℕ → Action RequestError Tables (Unit {0})
  unfolding stored resume
  resume_denial id = stored (resume d id)
