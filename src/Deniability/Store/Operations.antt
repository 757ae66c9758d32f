-- ===== src/Deniability/Store/Operations.antt =====
-- The functions of litwindow/server/models/deniability/deniability.go, in the order of the source.
use drivechain_litwindow.Prelude.{
  ℕ, suc, Bool, not, ◌&&◌, ◌||◌, Option, none, some, List, [], ◌∷◌, ◌++◌, Bytes, same, ◌==◌,
  if◌then◌else◌, keep, sort_by, sort_desc,
}
use drivechain_litwindow.Prelude.Int.{ℤ, ◌+ℤ◌}
use drivechain_litwindow.Database.{
  Driver, Action, pure, raise, exec, exec_insert, insert, update, query, ◌>>=◌,
}
use drivechain_litwindow.Deniability.{Denial, ExecutedDenial, is_none, next_execution}
use drivechain_litwindow.Deniability.Sizes.{encode_target_sizes}
use drivechain_litwindow.Deniability.Store.{
  DenialRow, Tables, StoreError, insert_denial, record_failed, query_denials, get_executed,
  cancel_failed, pause_failed, resume_failed, update_failed, get_by_tip_failed, get_failed,
  not_found, not_pausable, not_paused, Selected, select_denials, tip_txid, lift, scan_denial,
  scan_all, update_rows, has_id, is_pausable, is_resumable, matches_vout, first_row,
}

-- INSERT INTO denials … RETURNING id
unfoldable pub insert_row : Bytes → Bytes → ℤ → ℤ → ℤ → List ℤ → ℕ → ℕ → Tables → Tables × ℕ
insert_row wallet_id txid vout delay num_hops sizes now last_rowid t = (
  record t {
    denials =
        t.denials
        ++ record {
          id = t.next_denial;
          wallet_id = some wallet_id;
          initial_txid = txid;
          initial_vout = vout;
          delay_duration = delay;
          num_hops = num_hops;
          target_utxo_sizes = encode_target_sizes sizes;
          created_at = now;
          updated_at = now;
          cancelled_at = none;
          cancelled_reason = none;
          paused_at = none;
        }
          ∷ [];
    next_denial = suc t.next_denial;
  },
  t.next_denial,
)

-- INSERT INTO executed_denials
unfoldable pub insert_executed : ℕ → Bytes → ℤ → Bytes → ℤ → ℕ → Tables → Tables
insert_executed denial_id from_txid from_vout to_txid to_vout now t = record t {
  executed_denials =
      t.executed_denials
      ++ record {
        id = t.next_executed;
        denial_id = denial_id;
        from_txid = from_txid;
        from_vout = from_vout;
        to_txid = to_txid;
        to_vout = to_vout;
        created_at = now;
      }
        ∷ [];
  next_executed = suc t.next_executed;
}

-- SELECT … FROM executed_denials WHERE denial_id = ? ORDER BY created_at DESC
unfoldable pub executions_of : ℕ → Tables → List ExecutedDenial
executions_of id t =
    sort_desc (λ (e : ExecutedDenial). e.created_at)
      (keep (λ (e : ExecutedDenial). e.denial_id == id) t.executed_denials)

-- the rows of `List`, the oldest update first
unfoldable pub listed : Bool → Tables → List Selected
listed exclude_cancelled t =
    sort_by (λ (s : Selected). s.plan.updated_at)
      (keep (λ (s : Selected). not exclude_cancelled || is_none s.plan.cancelled_at)
        (select_denials t))

-- the row of `GetByTip`: the first that matches
unfoldable pub row_by_tip : Bytes → Option ℤ → Tables → Option Selected
row_by_tip txid vout t =
    first_row
      (keep (λ (s : Selected). same (tip_txid s) txid && matches_vout vout s) (select_denials t))

unfoldable pub row_by_id : ℕ → Tables → Option Selected
row_by_id id t = first_row (keep (λ (s : Selected). s.plan.id == id) (select_denials t))

-- the UPDATE of `Update`
abbrev pub updated_row : ℤ → ℤ → Bytes → ℤ → ℕ → DenialRow → DenialRow
updated_row delay num_hops txid vout now r = record r {
  delay_duration = delay;
  num_hops = r.num_hops +ℤ num_hops;
  initial_txid = txid;
  initial_vout = vout;
  cancelled_at = none;
  cancelled_reason = none;
  updated_at = now;
}

-- no row affected is an error
unfoldable pub some_affected : StoreError → ℕ → Action StoreError Tables (Unit {0})
some_affected e rows = if rows == 0 then raise e else pure tt

module _ (d : Driver) where
  unfoldable pub list_executions : ℕ → Action StoreError Tables (List ExecutedDenial)
  list_executions id = query d get_executed (executions_of id)

  unfoldable pub add_execution_data : Denial → Action StoreError Tables Denial
  unfolding list_executions
  add_execution_data denial = do
    executions ← list_executions denial.id
    pure (record denial {
      executed_denials = executions;
      next_execution = next_execution denial executions;
    })

  unfoldable pub add_all : List Denial → Action StoreError Tables (List Denial)
  unfolding add_execution_data
  add_all [] = pure []
  add_all (denial ∷ rest) = do
    first ← add_execution_data denial
    others ← add_all rest
    pure (first ∷ others)

  unfoldable pub list_denials : Bool → Action StoreError Tables (List Denial)
  unfolding listed add_all
  list_denials exclude_cancelled = do
    rows ← query d query_denials (listed exclude_cancelled)
    denials ← lift (scan_all rows)
    add_all denials

  -- what follows the query for one row: no row is no error
  unfoldable pub of_row : Option Selected → Action StoreError Tables (Option Denial)
  unfolding add_execution_data
  of_row none = pure none
  of_row (some s) = do
    denial ← lift (scan_denial s)
    full ← add_execution_data denial
    pure (some full)

  -- `Get` gives the zero `Denial` where this gives none
  unfoldable pub get_denial : ℕ → Action StoreError Tables (Option Denial)
  unfolding row_by_id of_row
  get_denial id = do row ← query d get_failed (row_by_id id); of_row row

  unfoldable pub get_by_tip : Bytes → Option ℤ → Action StoreError Tables (Option Denial)
  unfolding row_by_tip of_row
  get_by_tip txid vout = do row ← query d get_by_tip_failed (row_by_tip txid vout); of_row row

  unfoldable pub create :
      Bytes → Bytes → ℤ → ℤ → ℤ → List ℤ → Action StoreError Tables (Option Denial)
  unfolding insert_row get_denial
  create wallet_id txid vout delay num_hops sizes = do
    id ← insert d insert_denial (insert_row wallet_id txid vout delay num_hops sizes)
    get_denial id

  unfoldable pub record_execution : ℕ → Bytes → ℤ → Bytes → ℤ → Action StoreError Tables (Unit {0})
  unfolding insert_executed
  record_execution denial_id from_txid from_vout to_txid to_vout =
      exec_insert d record_failed (insert_executed denial_id from_txid from_vout to_txid to_vout)
        (λ t last_rowid. t.next_executed)

  unfoldable pub cancel : ℕ → Bytes → Action StoreError Tables (Unit {0})
  unfolding some_affected
  cancel id reason = do
    rows ← update d cancel_failed (λ now.
        update_rows (has_id id)
          (λ r. record r { cancelled_at = some now; cancelled_reason = some reason }))
    some_affected not_found rows

  unfoldable pub pause : ℕ → Action StoreError Tables (Unit {0})
  unfolding some_affected
  pause id = do
    rows ←
        update d pause_failed
          (λ now. update_rows (is_pausable id) (λ r. record r { paused_at = some now }))
    some_affected not_pausable rows

  unfoldable pub resume : ℕ → Action StoreError Tables (Unit {0})
  unfolding some_affected
  resume id = do
    rows ←
        update d resume_failed
          (λ now. update_rows (is_resumable id) (λ r. record r { paused_at = none }))
    some_affected not_paused rows

  unfoldable pub update_denial : ℕ → ℤ → ℤ → Bytes → ℤ → Action StoreError Tables (Unit {0})
  update_denial id delay num_hops txid vout =
      exec d update_failed
        (λ now t. (update_rows (has_id id) (updated_row delay num_hops txid vout now) t).0)
