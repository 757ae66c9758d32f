-- ===== src/Deniability/Requests/Extended.antt =====
-- What `CreateDenial` stores where it finds no plan, and where it finds one.
use drivechain_litwindow.Prelude.{
  ℕ, ◌≡◌, refl, sym, ap, inl, inr, arith, ◌≢◌, none, Option, some, List, [], ◌∷◌, Bytes, Bool-cases,
  Result, ok, err, map, if◌then◌else◌,
}
use drivechain_litwindow.Prelude.Int.{ℤ, pos, ◌+ℤ◌, ◌*ℤ◌}
use drivechain_litwindow.Database.{Driver, World, IsReliable, query, exec, pure, called, ◌>>=◌}
use drivechain_litwindow.Deniability.{Denial, to_int32}
use drivechain_litwindow.Deniability.Sizes.{SizeError, parse_target_utxo_sizes}
use drivechain_litwindow.Deniability.Store.{
  DenialRow, Tables, Selected, with_sizes, denial_of, scan_denial, lift, has_id, update_rows,
}
use drivechain_litwindow.Deniability.Store.Operations.{
  get_by_tip, row_by_tip, of_row, add_execution_data, list_executions, update_denial, updated_row,
}
use drivechain_litwindow.Deniability.Requests.{
  Wallets, CreateDenialRequest, stored, guarded, answered, extend_or_create, place, create_denial,
  nanoseconds,
}
use drivechain_litwindow.Deniability.Requests.Created.{IsInOrder}

create_denial-place :
    (d : Driver) (s : Wallets) (r : CreateDenialRequest) (w : World Tables) (order : IsInOrder s r)
    → create_denial d s r w ≡ place d order.2.0.id r w
unfolding create_denial guarded answered pure ◌>>=◌
create_denial-place d s r w (delay, hops, (a, active, supported, listed)) =
    rw (delay, hops, active, supported, listed) refl

abbrev pub found_rows : CreateDenialRequest → Tables → Option Selected
found_rows r t = row_by_tip r.txid (some (to_int32 r.vout)) t

scanned_id : (s : Selected) {plan : Denial} → scan_denial s ≡ ok plan → plan.id ≡ s.plan.id
unfolding scan_denial
scanned_id s {plan} h = of_sizes (parse_target_utxo_sizes s.plan.target_utxo_sizes) h
  where
    of_sizes : (x : Result SizeError (List ℤ)) → with_sizes s x ≡ ok plan → plan.id ≡ s.plan.id
    of_sizes (ok sizes) e =
        let same_plan : denial_of s sizes ≡ plan = cc in ap (λ (p : Denial). p.id) (sym same_plan)
    of_sizes (err x) e = absurd (cc e)

-- what a request does not set: the id, the wallet, the target sizes, and the time of a pause
abbrev pub unset : DenialRow → ℕ × Option Bytes × Option Bytes × Option ℕ
unset p = (p.id, p.wallet_id, p.target_utxo_sizes, p.paused_at)

-- A plan's row before and after a request: the plan that was found has the delay of the request, its
-- hops beside its own, the output of the request as its start, and is not cancelled; any other plan
-- is as it was.
abbrev pub IsExtended : ℕ → CreateDenialRequest → DenialRow → DenialRow → Type 0
IsExtended id r p q =
    (unset q ≡ unset p)
    × (p.id ≡ id
        → (q.num_hops ≡ p.num_hops +ℤ r.num_hops)
          × (q.delay_duration ≡ r.delay_seconds *ℤ pos 1_000_000_000)
          × (q.initial_txid ≡ r.txid)
          × (q.initial_vout ≡ to_int32 r.vout)
          × (q.cancelled_at ≡ none)
          × (q.cancelled_reason ≡ none))
    × (p.id ≢ id → q ≡ p)

abbrev pub AllExtended : ℕ → CreateDenialRequest → List DenialRow → List DenialRow → Type 0
AllExtended id r [] [] = Unit
AllExtended id r [] (q ∷ qs) = ⊥
AllExtended id r (p ∷ ps) [] = ⊥
AllExtended id r (p ∷ ps) (q ∷ qs) = IsExtended id r p q × AllExtended id r ps qs

updated-AllExtended :
    (id now : ℕ) (r : CreateDenialRequest) (ps : List DenialRow)
    → AllExtended id r ps (
        map
          (λ (p : DenialRow).
            if has_id id p
            then updated_row (nanoseconds r.delay_seconds) r.num_hops r.txid (to_int32 r.vout) now p
            else p)
          ps)
unfolding nanoseconds ◌*ℤ◌
updated-AllExtended id now r [] = tt
updated-AllExtended id now r (p ∷ ps) = elim (Bool-cases (has_id id p)) [
  | inl here ↦ rw here (
    (refl, λ e. (refl, refl, refl, refl, refl, refl), λ other. absurd (ground (arith, other))),
    updated-AllExtended id now r ps,
  )
  | inr elsewhere ↦
      rw elsewhere
        ((refl, λ e. absurd (ground (arith, e)), λ other. refl), updated-AllExtended id now r ps)
]

module _ (d : Driver) (reliable : IsReliable d) (r : CreateDenialRequest) (w : World Tables) where
  place-found :
      (id : Bytes) {s : Selected} {plan : Denial}
      → found_rows r w.tables ≡ some s
      → scan_denial s ≡ ok plan
      → ((place d id r w).0 ≡ ok tt)
        × ((now : ℕ) × ((place d id r w).1.tables
              ≡ (update_rows
                  (has_id s.plan.id)
                  (updated_row
                    (nanoseconds r.delay_seconds)
                    r.num_hops
                    r.txid
                    (to_int32 r.vout)
                    now)
                  w.tables).0))
  unfolding place get_by_tip of_row add_execution_data list_executions extend_or_create
      update_denial stored lift query exec pure ◌>>=◌
  place-found id {s} {plan} found scanned =
      rw
        (
          reliable w.calls,
          found,
          scanned,
          reliable (called w).calls,
          reliable (called (called w)).calls,
          scanned_id s scanned,
        )
        (refl, (_, refl))

  -- If no call fails: a request that is in order for an output for which a plan is found is answered as successful by extending that plan: it takes the delay of the request, its hops beside its own, and the output as its start, and is not cancelled any more. All other plans stay as they are, no plan is added and no hop is recorded, so the plan goes on from its latest hop, even where that is another output than the one asked for; it keeps its target sizes and its wallet, and stays paused if it was.
  pub create_denial-extends :
      (ws : Wallets) {s : Selected} {plan : Denial}
      → IsInOrder ws r
      → found_rows r w.tables ≡ some s
      → scan_denial s ≡ ok plan
      → let x = create_denial d ws r w in
        (x.0 ≡ ok tt)
        × (x.1.tables.executed_denials ≡ w.tables.executed_denials)
        × AllExtended s.plan.id r w.tables.denials x.1.tables.denials
  create_denial-extends ws {s} {plan} order found scanned =
      let (done, (now, updated)) = place-found order.2.0.id found scanned in
      let t' : AllExtended s.plan.id r w.tables.denials
          (place d order.2.0.id r w).1.tables.denials =
        rw updated (updated-AllExtended s.plan.id now r w.tables.denials) in
      rw (create_denial-place d ws r w order)
        (done, ap (λ (t : Tables). t.executed_denials) updated, t')
