-- ===== src/Deniability.antt =====
-- litwindow/server/models/deniability/deniability.go: the plans that move an output on by several
-- hops, and when the next hop is due. A time or a delay is a number of nanoseconds, the delay with
-- its sign; an int32 or int64 is an integer.
pub mod Sizes
pub mod Store
pub mod Schedule
pub mod Tests
pub mod Engine
pub mod Requests
use drivechain_litwindow.Prelude.{
  ℕ, suc, ◌+◌, ◌-◌, ◌%◌, ◌^◌, Bool, true, false, not, ◌&&◌, Option, none, some, List, [], ◌∷◌, ◌++◌,
  map, Bytes, length, same, ltb, leb, ◌==◌, if◌then◌else◌, some_item,
}
use drivechain_litwindow.Prelude.Int.{ℤ, pos, negsuc, ◌+ℤ◌, ltb_ℤ}

pub record ExecutedDenial : Type 0 where
  pub id : ℕ
  pub denial_id : ℕ
  pub from_txid : Bytes
  pub from_vout : ℤ
  pub to_txid : Bytes
  pub to_vout : ℤ
  pub created_at : ℕ

pub record Denial : Type 0 where
  pub id : ℕ
  pub wallet_id : Option Bytes
  pub tip_txid : Bytes
  pub tip_vout : ℤ
  pub delay_duration : ℤ
  pub num_hops : ℤ
  pub target_utxo_sizes : List ℤ
  pub created_at : ℕ
  pub updated_at : ℕ
  pub cancelled_at : Option ℕ
  pub cancel_reason : Option Bytes
  pub paused_at : Option ℕ
  pub next_execution : Option ℤ
  pub executed_denials : List ExecutedDenial

-- `int32` of a length
abbrev pub to_int32 : ℕ → ℤ
to_int32 n =
    if ltb (n % 2 ^ 32) (2 ^ 31) then pos (n % 2 ^ 32) else negsuc (2 ^ 32 - 1 - n % 2 ^ 32)

-- `lo.UniqBy` on the transaction: the first execution of each is kept
unfoldable pub uniq_by_txid : List Bytes → List ExecutedDenial → List ExecutedDenial
uniq_by_txid seen [] = []
uniq_by_txid seen (e ∷ es) =
    let skipped = uniq_by_txid seen es in
    let taken = uniq_by_txid (e.to_txid ∷ seen) es in
    if some_item (same e.to_txid) seen then skipped else e ∷ taken

-- `lo.MaxBy` on the time: a later execution replaces the one found before
unfoldable pub max_by_time : ExecutedDenial → List ExecutedDenial → ExecutedDenial
max_by_time best [] = best
max_by_time best (e ∷ es) = max_by_time (if ltb best.created_at e.created_at then e else best) es

-- the time of the latest execution, of a list that may be empty
unfoldable pub latest_time : ℕ → List ExecutedDenial → ℕ
unfolding max_by_time
latest_time created_at [] = created_at
latest_time created_at (e ∷ es) = (max_by_time e es).created_at

abbrev pub is_none {ℓ} : {A : Type ℓ} → Option A → Bool
is_none none = true
is_none (some a) = false

-- `lastExecution`: none if the plan is cancelled or paused or has done all its hops
unfoldable pub last_execution : Denial → List ExecutedDenial → Option ℕ
unfolding uniq_by_txid latest_time
last_execution denial executions =
    if not (is_none denial.cancelled_at)
    then none
    else if not (is_none denial.paused_at)
    then none
    else if not (ltb_ℤ (to_int32 (length (uniq_by_txid [] executions))) denial.num_hops)
    then none
    else some (latest_time denial.created_at executions)

abbrev pub add_delay : ℤ → Option ℕ → Option ℤ
add_delay delay none = none
add_delay delay (some t) = some (pos t +ℤ delay)

unfoldable pub next_execution : Denial → List ExecutedDenial → Option ℤ
unfolding last_execution
next_execution denial executions =
    add_delay denial.delay_duration (last_execution denial executions)
