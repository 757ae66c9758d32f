-- ===== src/Deniability/Engine/Hops.antt =====
-- What a hop records.
use drivechain_litwindow.Prelude.{
  ℕ, ◌≡◌, refl, ap, sym, ◌∙◌, inl, inr, true, List, [], ◌∷◌, ◌++◌, Bytes, All, All-append,
  Bool-cases, Result, ok, err, ltb,
}
use mathlib.Core.List.{append_assoc, append-nil}
use drivechain_litwindow.Prelude.Int.{pos}
use drivechain_litwindow.Database.{Driver, World, Action, ◌>>=◌, exec_insert}
use drivechain_litwindow.Database.Loops.{for_each-keeps}
use drivechain_litwindow.Deniability.{Denial, ExecutedDenial, to_int32}
use drivechain_litwindow.Deniability.Store.{Tables, cancel_failed, not_found}
use drivechain_litwindow.Deniability.Store.Operations.{cancel, record_execution, insert_executed}
use drivechain_litwindow.Deniability.Store.Lifecycle.{updated, failed_state}
use drivechain_litwindow.Deniability.Engine.{
  Output, EngineError, Wallets, route, fee, choose_denial_strategy, send_from, wait_for_utxos,
}
use drivechain_litwindow.Deniability.Engine.Cancelled.{wrap_state}
use drivechain_litwindow.Deniability.Engine.Round.{
  stored, wrap, lifted, record_one, split_utxo, process_utxo, too_small, ticks,
}

-- A hop of a plan from an output.
abbrev pub IsHop : Denial → Output → ExecutedDenial → Type 0
IsHop denial u e =
    (e.denial_id ≡ denial.id) × (e.from_txid ≡ u.txid) × (e.from_vout ≡ to_int32 u.vout)

-- The table has the rows `before`, and behind them only hops of the plan from the output.
abbrev pub AddsHops : Denial → Output → List ExecutedDenial → Tables → Type 0
AddsHops denial u before t =
    (new : List ExecutedDenial) × (t.executed_denials ≡ before ++ new) × All (IsHop denial u) new

cancel_keeps :
    (d : Driver) (id : ℕ) (reason : Bytes) (w : World Tables)
    → (cancel d id reason w).1.tables.executed_denials ≡ w.tables.executed_denials
unfolding cancel
cancel_keeps d id reason w = elim (Bool-cases (d.fails w.calls)) [
  | inl bad ↦
      ap (λ (t : Tables). t.executed_denials) (failed_state d cancel_failed not_found _ w bad)
  | inr good ↦ ap (λ (t : Tables). t.executed_denials) (updated d cancel_failed not_found _ w good)
]

module _ (d : Driver) (ws : Wallets) (denial : Denial) (u : Output)
    (before : List ExecutedDenial) where
  record_one-hops :
      (txid : Bytes) (new : Output) (w : World Tables)
      → AddsHops denial u before w.tables
      → AddsHops denial u before (record_one d ws denial u txid new w).1.tables
  unfolding record_one stored record_execution exec_insert insert_executed
  record_one-hops txid new w (rows, e, hops) = elim (Bool-cases (d.fails w.calls)) [
    | inl bad ↦ rw bad (rows, e, hops)
    | inr good ↦
        let row : ExecutedDenial = record {
          id = w.tables.next_executed;
          denial_id = denial.id;
          from_txid = u.txid;
          from_vout = to_int32 u.vout;
          to_txid = txid;
          to_vout = pos new.vout;
          created_at = d.clock w.calls;
        } in
        rw good (
          rows ++ row ∷ [],
          ap (λ (l : List ExecutedDenial). l ++ row ∷ []) e ∙ append_assoc before rows (row ∷ []),
          All-append (IsHop denial u) rows (row ∷ []) hops ((refl, refl, refl), tt),
        )
  ]

  all_hops :
      (txid : Bytes) (found : List Output)
      → All
          (λ (new : Output).
            (w : World Tables)
            → AddsHops denial u before w.tables
            → AddsHops denial u before (record_one d ws denial u txid new w).1.tables)
          found
  all_hops txid [] = tt
  all_hops txid (f ∷ fs) = (record_one-hops txid f, all_hops txid fs)

  lifted-keeps :
      {A : Type 0} (r : Result EngineError A) (f : A → Action EngineError Tables (Unit {0}))
      (w : World Tables)
      → ((a : A) → AddsHops denial u before (f a w).1.tables)
      → AddsHops denial u before w.tables
      → AddsHops denial u before ((lifted r >>= f) w).1.tables
  unfolding lifted ◌>>=◌
  lifted-keeps (ok a) f w h k = h a
  lifted-keeps (err e) f w h k = k

  split_utxo-hops :
      (w : World Tables)
      → AddsHops denial u before w.tables
      → AddsHops denial u before (split_utxo d ws u denial w).1.tables
  unfolding split_utxo
  split_utxo-hops w h =
      lifted-keeps (route ws denial) _ w
        (λ wallet.
          lifted-keeps (choose_denial_strategy ws denial u wallet.0 wallet.1) _ w
            (λ dest.
              lifted-keeps (send_from ws wallet.0 wallet.1 u dest) _ w
                (λ txid.
                  lifted-keeps (wait_for_utxos ws wallet.1 txid dest ticks 1) _ w
                    (λ found.
                      for_each-keeps (AddsHops denial u before) (record_one d ws denial u txid)
                        found (all_hops txid found) w h)
                    h)
                h)
            h)
        h

-- Whatever the wallets answer and whichever statements fail, processing an output for a plan keeps all recorded executions and adds only hops of that plan from that output, and none if the output is worth less than the fee.
pub process_utxo-hops :
    (d : Driver) (ws : Wallets) (denial : Denial) (u : Output) (w : World Tables)
    → AddsHops denial u w.tables.executed_denials (process_utxo d ws denial u w).1.tables
      × (ltb u.value_sats fee ≡ true
          → (process_utxo d ws denial u w).1.tables.executed_denials ≡ w.tables.executed_denials)
unfolding process_utxo stored
process_utxo-hops d ws denial u w =
    let same_rows : (wrap (cancel d denial.id too_small w)).1.tables.executed_denials
        ≡ w.tables.executed_denials =
      ap (λ (v : World Tables). v.tables.executed_denials)
        (wrap_state (cancel d denial.id too_small w))
      ∙ cancel_keeps d denial.id too_small w in
    elim (Bool-cases (ltb u.value_sats fee)) [
      | inl small ↦ (
        rw small ([], same_rows ∙ sym (append-nil w.tables.executed_denials), tt),
        λ h. rw small same_rows,
      )
      | inr large ↦ (
        rw large (
            split_utxo-hops d ws denial u w.tables.executed_denials w
              ([], sym (append-nil w.tables.executed_denials), tt)),
        λ h. absurd (cc (h, large)),
      )
    ]
