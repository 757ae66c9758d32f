-- ===== src/Deniability/Engine/Round.antt =====
-- litwindow/server/engines/deniability_engine.go: `checkDenials` and the calls it makes.
use drivechain_litwindow.Prelude.{
  ℕ, Bool, true, false, not, Option, none, some, List, [], ◌∷◌, ◌++◌, Bytes, codes, same, ltb,
  if◌then◌else◌, keep, some_item, Result, ok, err,
}
use drivechain_litwindow.Prelude.Int.{pos, ltb_ℤ}
use drivechain_litwindow.Database.{
  Driver, World, Action, pure, raise, for_each, logged, ◌>>=◌, ◌>>◌,
}
use drivechain_litwindow.Deniability.{Denial, to_int32}
use drivechain_litwindow.Deniability.Store.{Tables, StoreError}
use drivechain_litwindow.Deniability.Store.Operations.{cancel, list_denials, record_execution}
use drivechain_litwindow.Deniability.Engine.{
  Output, EngineError, store_failed, no_matching_utxo, Wallets, fee, is_tip, wallet_of, route,
  choose_denial_strategy, list_utxos_for_wallet, send_from, wait_for_utxos,
}

abbrev pub wrap :
    {A : Type 0} → Result StoreError A × World Tables → Result EngineError A × World Tables
wrap (ok a, w) = (ok a, w)
wrap (err e, w) = (err (store_failed e), w)

-- a call of the store, whose error is wrapped
unfoldable pub stored : {A : Type 0} → Action StoreError Tables A → Action EngineError Tables A
stored m w = wrap (m w)

unfoldable pub lifted : {A : Type 0} → Result EngineError A → Action EngineError Tables A
lifted (ok a) w = (ok a, w)
lifted (err e) w = (err e, w)

abbrev pub too_small : Bytes
too_small = codes "utxo is too small to split"

abbrev pub moved : Bytes
moved = codes "cancelled due to UTXO being moved"

-- 5 minutes, one attempt a second
abbrev pub ticks : ℕ
ticks = 300

-- the outputs of a wallet, as far as the round has fetched them: a wallet that failed is not asked again
abbrev pub lookup : Bytes → List (Bytes × Option (List Output)) → Option (Option (List Output))
lookup id [] = none
lookup id (p ∷ ps) = let later = lookup id ps in if same p.0 id then some p.1 else later

abbrev pub outputs_for : Denial → List (Bytes × Option (List Output)) → Option (List Output)
outputs_for denial fetched = elim (lookup (wallet_of denial) fetched) [ none ↦ none | some r ↦ r ]

-- whether the tip of a plan is missing from the outputs of its wallet
abbrev pub is_gone : List (Bytes × Option (List Output)) → Denial → Bool
is_gone fetched denial = elim (outputs_for denial fetched) [
  | none ↦ false
  | some us ↦ not (some_item (is_tip denial) us)
]

abbrev pub all_outputs : List (Bytes × Option (List Output)) → List Output
all_outputs [] = []
all_outputs (p ∷ ps) = (elim p.1 [ none ↦ [] | some us ↦ us ]) ++ all_outputs ps

-- whether a plan is due: it has a next execution, and that is not after now
abbrev pub is_due : ℕ → Denial → Bool
is_due now denial = elim denial.next_execution [ none ↦ false | some t ↦ not (ltb_ℤ (pos now) t) ]

module _ (d : Driver) (ws : Wallets) where
  unfoldable pub record_one :
      Denial → Output → Bytes → Output → Action EngineError Tables (Unit {0})
  unfolding stored
  record_one denial u txid new =
      stored (record_execution d denial.id u.txid (to_int32 u.vout) txid (pos new.vout))

  -- the hop of an output that is large enough
  unfoldable pub split_utxo : Output → Denial → Action EngineError Tables (Unit {0})
  unfolding lifted record_one
  split_utxo u denial = do
    wallet ← lifted (route ws denial)
    dest ← lifted (choose_denial_strategy ws denial u wallet.0 wallet.1)
    txid ← lifted (send_from ws wallet.0 wallet.1 u dest)
    found ← lifted (wait_for_utxos ws wallet.1 txid dest ticks 1)
    for_each (record_one denial u txid) found

  unfoldable pub process_utxo : Denial → Output → Action EngineError Tables (Unit {0})
  unfolding split_utxo
  process_utxo denial u =
      if ltb u.value_sats fee then stored (cancel d denial.id too_small) else split_utxo u denial

  unfoldable pub process_tips : Denial → List Output → Action EngineError Tables (Unit {0})
  unfolding process_utxo
  process_tips denial [] = raise no_matching_utxo
  process_tips denial (u ∷ us) = for_each (process_utxo denial) (u ∷ us)

  unfoldable pub execute_denial : List Output → Denial → Action EngineError Tables (Unit {0})
  unfolding process_tips
  execute_denial us denial = process_tips denial (keep (is_tip denial) us)

  unfoldable pub fetch :
      List Denial → List (Bytes × Option (List Output)) → List (Bytes × Option (List Output))
  unfolding list_utxos_for_wallet
  fetch [] fetched = fetched
  fetch (denial ∷ rest) fetched =
      let id = wallet_of denial in
      let known = fetch rest fetched in
      let asked = fetch rest ((id, list_utxos_for_wallet ws id 0) ∷ fetched) in
      elim (lookup id fetched) [ some r ↦ known | none ↦ asked ]

  unfoldable pub cancel_one :
      List (Bytes × Option (List Output)) → Denial → Action EngineError Tables (Unit {0})
  unfolding stored
  cancel_one fetched denial =
      if is_gone fetched denial then stored (cancel d denial.id moved) else pure tt

  unfoldable pub cancel_if_utxo_is_gone :
      List (Bytes × Option (List Output)) → List Denial → Action EngineError Tables (Unit {0})
  unfolding cancel_one
  cancel_if_utxo_is_gone fetched denials = for_each (cancel_one fetched) denials

  unfoldable pub cleanup_all : List Denial → Action EngineError Tables (List Output × List Denial)
  unfolding cancel_if_utxo_is_gone fetch stored
  cleanup_all [] = pure ([], [])
  cleanup_all (denial ∷ rest) = do
    cancel_if_utxo_is_gone (fetch (denial ∷ rest) []) (denial ∷ rest)
    good ← stored (list_denials d true)
    pure (all_outputs (fetch (denial ∷ rest) []), good)

  unfoldable pub cleanup_denials : Action EngineError Tables (List Output × List Denial)
  unfolding cleanup_all
  cleanup_denials = do denials ← stored (list_denials d true); cleanup_all denials

  -- the loop over the plans: an error is logged, and the next plan follows
  unfoldable pub execute_due : ℕ → List Output → List Denial → Action EngineError Tables (Unit {0})
  unfolding execute_denial
  execute_due now us denials =
      for_each
        (λ (denial : Denial).
          if is_due now denial then logged (execute_denial us denial) else pure tt)
        denials

  -- `time.Now()` is read after the cleanup
  unfoldable pub check_denials : Action EngineError Tables (Unit {0})
  unfolding cleanup_denials execute_due
  check_denials w =
      (cleanup_denials >>= λ (c : List Output × List Denial).
      λ v. execute_due (d.clock v.calls) c.0 c.1 v)
        w
