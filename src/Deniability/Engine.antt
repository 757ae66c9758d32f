-- ===== src/Deniability/Engine.antt =====
-- litwindow/server/engines/deniability_engine.go: one round of the engine that executes the plans.
-- The wallets and the nodes behind them are services: what they answer is a parameter. The tasks of
-- one plan's round, which run in parallel, run in the order of the outputs here; the logs are left out.
pub mod Round
pub mod Amounts
pub mod Cancelled
pub mod Hops
use drivechain_litwindow.Prelude.{
  ℕ, zero, suc, ◌+◌, ◌-◌, ◌*◌, ◌/◌, ◌%◌, ◌^◌, Bool, true, false, not, ◌&&◌, ◌||◌, Option, none,
  some, List, [], ◌∷◌, ◌++◌, Bytes, codes, length, get_or, same, ltb, ◌==◌, if◌then◌else◌, keep,
  some_item, Result, ok, err,
}
use drivechain_litwindow.Prelude.Int.{ℤ, pos, negsuc, ltb_ℤ}
use drivechain_litwindow.Int64.{i64_sub, i64_mul}
use drivechain_litwindow.Database.{
  Driver, World, Action, pure, raise, for_each, logged, ◌>>=◌, ◌>>◌,
}
use drivechain_litwindow.Deniability.{Denial, to_int32}
use drivechain_litwindow.Deniability.Store.{Tables, StoreError, same_ℤ}
use drivechain_litwindow.Deniability.Store.Operations.{cancel, list_denials, record_execution}

pub data WalletType : Type 0 where
  enforcer bitcoin_core watch_only : WalletType
  other_wallet : Bytes → WalletType

-- `pb.ListUnspentOutputsResponse_Output`
pub record Output : Type 0 where
  pub txid : Bytes
  pub vout : ℕ  -- uint32
  pub address : Bytes
  pub value_sats : ℕ  -- uint64

pub data EngineError : Type 0 where
  store_failed : StoreError → EngineError
  no_matching_utxo wallet_type_failed no_address watch_only_wallet unknown_wallet : EngineError
  send_failed wait_timeout : EngineError

-- The answers of the wallet engine and of the wallets: no answer is an error.
pub record Wallets : Type 0 where
  pub has_engine : Bool
  pub backend_type : Bytes → Option WalletType
  pub active_wallet : Option (WalletType × Bytes)
  pub new_address : WalletType → Bytes → Option Bytes
  -- the transaction sent from a wallet, which spends the output if the wallet is the enforcer's
  pub send : WalletType → Bytes → Output → List (Bytes × ℕ) → Option Bytes
  -- the outputs of the enforcer's wallet, or of a wallet of the node, at the n-th attempt
  pub list_utxos : WalletType → Bytes → ℕ → Option (List Output)
  -- `rand.Intn(80)`
  pub random : ℕ

abbrev pub fee : ℕ
fee = 10000

abbrev pub is_tip : Denial → Output → Bool
is_tip denial u = same u.txid denial.tip_txid && same_ℤ (to_int32 u.vout) denial.tip_vout

abbrev pub wallet_of : Denial → Bytes
wallet_of denial = elim denial.wallet_id [ none ↦ [] | some id ↦ id ]

-- the new address of a wallet, which both splits ask for first
unfoldable pub address_for : Wallets → WalletType → Bytes → Result EngineError Bytes
address_for ws enforcer id = elim (ws.new_address enforcer id) [
  | none ↦ err no_address
  | some a ↦ ok a
]
address_for ws bitcoin_core id = elim (ws.new_address bitcoin_core id) [
  | none ↦ err no_address
  | some a ↦ ok a
]
address_for ws watch_only id = err watch_only_wallet
address_for ws (other_wallet t) id = err unknown_wallet

abbrev pub pay_to : Result EngineError Bytes → ℕ → Result EngineError (List (Bytes × ℕ))
pay_to (err e) amount = err e
pay_to (ok a) amount = ok ((a, amount) ∷ [])

unfoldable pub split_amount : ℕ → ℕ → ℕ
split_amount value random = i64_mul (i64_sub value fee) (10 + random) / 100

unfoldable pub target_amount : ℕ → ℕ → ℕ
target_amount value target = if ltb (i64_sub value fee) target then i64_sub value fee else target

unfoldable pub simple_split :
    Wallets → Output → WalletType → Bytes → Result EngineError (List (Bytes × ℕ))
unfolding address_for split_amount
simple_split ws u t id = pay_to (address_for ws t id) (split_amount u.value_sats ws.random)

unfoldable pub target_amount_split :
    Wallets → Output → WalletType → Bytes → ℕ → Result EngineError (List (Bytes × ℕ))
unfolding address_for target_amount
target_amount_split ws u t id target =
    pay_to (address_for ws t id) (target_amount u.value_sats target)

-- the target of a size that is positive
abbrev pub target_of : ℤ → Option ℕ
target_of (pos zero) = none
target_of (pos (suc n)) = some (suc n)
target_of (negsuc n) = none

-- a split by the size for the hop, or at random without one
unfoldable pub split_by :
    Wallets → Output → WalletType → Bytes → Option ℕ → Result EngineError (List (Bytes × ℕ))
unfolding simple_split target_amount_split
split_by ws u t id none = simple_split ws u t id
split_by ws u t id (some target) = target_amount_split ws u t id target

unfoldable pub choose_denial_strategy :
    Wallets → Denial → Output → WalletType → Bytes → Result EngineError (List (Bytes × ℕ))
unfolding split_by
choose_denial_strategy ws denial u t id =
    split_by ws u t id
      (target_of (get_or denial.target_utxo_sizes (length denial.executed_denials) (pos 0)))

-- the wallet that a plan sends from
unfoldable pub route : Wallets → Denial → Result EngineError (WalletType × Bytes)
route ws denial =
    let id = wallet_of denial in
    elim id [
      | [] ↦
          if ws.has_engine
          then elim ws.active_wallet [ none ↦ ok (enforcer, []) | some a ↦ ok a ]
          else ok (enforcer, [])
      | c ∷ cs ↦
          if ws.has_engine
          then elim (ws.backend_type (c ∷ cs)) [
            | none ↦ err wallet_type_failed
            | some t ↦ ok (t, c ∷ cs)
          ]
          else ok (enforcer, c ∷ cs)
    ]

unfoldable pub send_from :
    Wallets → WalletType → Bytes → Output → List (Bytes × ℕ) → Result EngineError Bytes
send_from ws enforcer id u dest = elim (ws.send enforcer id u dest) [
  | none ↦ err send_failed
  | some x ↦ ok x
]
send_from ws bitcoin_core id u dest = elim (ws.send bitcoin_core id u dest) [
  | none ↦ err send_failed
  | some x ↦ ok x
]
send_from ws watch_only id u dest = err watch_only_wallet
send_from ws (other_wallet t) id u dest = err unknown_wallet

unfoldable pub list_by_type : Wallets → Bytes → ℕ → WalletType → Option (List Output)
list_by_type ws id n enforcer = ws.list_utxos enforcer [] n
list_by_type ws id n bitcoin_core = ws.list_utxos bitcoin_core id n
list_by_type ws id n watch_only = none
list_by_type ws id n (other_wallet t) = none

-- a plan without a wallet's id is the enforcer's
unfoldable pub list_utxos_for_wallet : Wallets → Bytes → ℕ → Option (List Output)
unfolding list_by_type
list_utxos_for_wallet ws [] n = ws.list_utxos enforcer [] n
list_utxos_for_wallet ws (c ∷ cs) n =
    if ws.has_engine
    then elim (ws.backend_type (c ∷ cs)) [ none ↦ none | some t ↦ list_by_type ws (c ∷ cs) n t ]
    else ws.list_utxos enforcer [] n

-- the outputs of the transaction that pay a destination
abbrev pub found_in : Bytes → List (Bytes × ℕ) → List Output → List Output
found_in txid dest us =
    keep
      (λ (u : Output). same u.txid txid && some_item (λ (p : Bytes × ℕ). same p.0 u.address) dest)
      us

-- the wait, with the ticks left before the timeout: an error of the wallet is tried again
unfoldable pub wait_for_utxos :
    Wallets → Bytes → Bytes → List (Bytes × ℕ) → ℕ → ℕ → Result EngineError (List Output)
unfolding list_utxos_for_wallet
wait_for_utxos ws id txid dest zero attempts = err wait_timeout
wait_for_utxos ws id txid dest (suc ticks) attempts =
    let again = wait_for_utxos ws id txid dest ticks (suc attempts) in
    elim (list_utxos_for_wallet ws id attempts) [
      | none ↦ again
      | some us ↦ elim (found_in txid dest us) [ [] ↦ again | f ∷ fs ↦ ok (f ∷ fs) ]
    ]
