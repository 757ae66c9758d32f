-- ===== src/Deniability/Store.antt =====
-- The tables `denials` and `executed_denials`, and the functions of
-- litwindow/server/models/deniability/deniability.go on them. Every row that a query returns scans,
-- unless its target sizes do not parse.
pub mod Operations
pub mod Tip
pub mod Lifecycle
use drivechain_litwindow.Prelude.{
  ℕ, Bool, true, false, not, ◌&&◌, ◌||◌, Option, none, some, List, [], ◌∷◌, map, Bytes, length, ltb,
  ◌==◌, if◌then◌else◌, keep, Result, ok, err,
}
use drivechain_litwindow.Prelude.Int.{ℤ, pos, negsuc}
use drivechain_litwindow.Database.{Action}
use drivechain_litwindow.Deniability.{Denial, ExecutedDenial, is_none}
use drivechain_litwindow.Deniability.Sizes.{SizeError, parse_target_utxo_sizes}

-- A row of `denials`
pub record DenialRow : Type 0 where
  pub id : ℕ
  pub wallet_id : Option Bytes
  pub initial_txid : Bytes
  pub initial_vout : ℤ
  pub delay_duration : ℤ
  pub num_hops : ℤ
  pub target_utxo_sizes : Option Bytes
  pub created_at : ℕ
  pub updated_at : ℕ
  pub cancelled_at : Option ℕ
  pub cancelled_reason : Option Bytes
  pub paused_at : Option ℕ

pub record Tables : Type 0 where
  pub denials : List DenialRow
  pub executed_denials : List ExecutedDenial
  pub next_denial : ℕ
  pub next_executed : ℕ

pub data StoreError : Type 0 where
  insert_denial record_failed query_denials get_executed : StoreError
  cancel_failed pause_failed resume_failed update_failed get_by_tip_failed get_failed : StoreError
  not_found not_pausable not_paused : StoreError
  parse_sizes : SizeError → StoreError

-- A row that `selectDenialQuery` selects: the plan, and the execution with the greatest id that it
-- is joined with.
pub record Selected : Type 0 where
  pub plan : DenialRow
  pub latest : Option ExecutedDenial

abbrev pub newer : ExecutedDenial → Option ExecutedDenial → Option ExecutedDenial
newer e none = some e
newer e (some f) = if ltb f.id e.id then some e else some f

-- SELECT * FROM executed_denials ed WHERE ed.id = (SELECT MAX(id) … WHERE denial_id = ed.denial_id)
unfoldable pub latest_of : ℕ → List ExecutedDenial → Option ExecutedDenial
latest_of id [] = none
latest_of id (e ∷ es) =
    let later = latest_of id es in if e.denial_id == id then newer e later else later

abbrev pub selected_of : Tables → DenialRow → Selected
selected_of t p = record { plan = p; latest = latest_of p.id t.executed_denials }

unfoldable pub select_denials : Tables → List Selected
select_denials t = map (selected_of t) t.denials

-- COALESCE(e.to_txid, d.initial_txid) and COALESCE(e.to_vout, d.initial_vout)
abbrev pub tip_txid : Selected → Bytes
tip_txid s = elim s.latest [ none ↦ s.plan.initial_txid | some e ↦ e.to_txid ]

abbrev pub tip_vout : Selected → ℤ
tip_vout s = elim s.latest [ none ↦ s.plan.initial_vout | some e ↦ e.to_vout ]

abbrev pub denial_of : Selected → List ℤ → Denial
denial_of s sizes = record {
  id = s.plan.id;
  wallet_id = s.plan.wallet_id;
  tip_txid = tip_txid s;
  tip_vout = tip_vout s;
  delay_duration = s.plan.delay_duration;
  num_hops = s.plan.num_hops;
  target_utxo_sizes = sizes;
  created_at = s.plan.created_at;
  updated_at = s.plan.updated_at;
  cancelled_at = s.plan.cancelled_at;
  cancel_reason = s.plan.cancelled_reason;
  paused_at = s.plan.paused_at;
  next_execution = none;
  executed_denials = [];
}

abbrev pub with_sizes : Selected → Result SizeError (List ℤ) → Result StoreError Denial
with_sizes s (ok sizes) = ok (denial_of s sizes)
with_sizes s (err e) = err (parse_sizes e)

-- `Scan`, and `parseTargetUTXOSizes`
unfoldable pub scan_denial : Selected → Result StoreError Denial
scan_denial s = with_sizes s (parse_target_utxo_sizes s.plan.target_utxo_sizes)

unfoldable pub lift : {A : Type 0} → Result StoreError A → Action StoreError Tables A
lift (ok a) w = (ok a, w)
lift (err e) w = (err e, w)

abbrev pub cons_result :
    Result StoreError Denial → Result StoreError (List Denial) → Result StoreError (List Denial)
cons_result (err e) rest = err e
cons_result (ok d) (ok ds) = ok (d ∷ ds)
cons_result (ok d) (err e) = err e

-- the loop over the rows
unfoldable pub scan_all : List Selected → Result StoreError (List Denial)
unfolding scan_denial
scan_all [] = ok []
scan_all (s ∷ ss) = cons_result (scan_denial s) (scan_all ss)

-- UPDATE … WHERE …: the rows that the test admits, and how many
abbrev pub update_rows : (DenialRow → Bool) → (DenialRow → DenialRow) → Tables → Tables × ℕ
update_rows p f t = (
  record t { denials = map (λ (r : DenialRow). if p r then f r else r) t.denials },
  length (keep p t.denials),
)

abbrev pub has_id : ℕ → DenialRow → Bool
has_id id r = r.id == id

abbrev pub is_pausable : ℕ → DenialRow → Bool
is_pausable id r = r.id == id && (is_none r.paused_at && is_none r.cancelled_at)

abbrev pub is_resumable : ℕ → DenialRow → Bool
is_resumable id r = r.id == id && not (is_none r.paused_at)

abbrev pub same_ℤ : ℤ → ℤ → Bool
same_ℤ (pos a) (pos b) = a == b
same_ℤ (negsuc a) (negsuc b) = a == b
same_ℤ _ _ = false

-- e.to_vout = ? OR d.initial_vout = ?, where a column without a row equals nothing
abbrev pub matches_vout : Option ℤ → Selected → Bool
matches_vout none s = true
matches_vout (some v) s =
    (elim s.latest [ none ↦ false | some e ↦ same_ℤ e.to_vout v ]) || same_ℤ s.plan.initial_vout v

abbrev pub first_row : List Selected → Option Selected
first_row [] = none
first_row (s ∷ ss) = some s
