-- ===== src/Cheques/Funding.antt =====
-- What a check of a cheque's funding stores, and which deletions it prevents.
use drivechain_litwindow.Prelude.{
  ℕ, ◌≡◌, refl, ap, ◌∙◌, inl, inr, ◌≤◌, arith, Bool, true, false, ◌&&◌, leb, none, some, List, [],
  ◌∷◌, Bytes, map, keep, codes, Bool-cases, ok, err, if◌then◌else◌,
}
use drivechain_litwindow.Database.{
  Driver, World, IsReliable, query, update, raise, pure, called, logged, ◌>>=◌,
}
use drivechain_litwindow.Cheques.{
  ChequeRow, Tables, is_cheque, first_row, scan_cheque, is_funded, funded_row,
}
use drivechain_litwindow.Cheques.Operations.{
  get_cheque_by_id, found_or, delete_cheque, some_affected, update_funding, update_swept,
}
use drivechain_litwindow.Cheques.Sweep.{Unspent}
use drivechain_litwindow.Cheques.Requests.{
  cannot_delete_funded, Services, CheckChequeFundingResponse, guarded, answered, internally,
  find_cheque, checked, check_cheque_funding, delete_cheque_request, txids, amounts, not_funded,
}
use drivechain_litwindow.Cheques.Deletion.{some_found, stored, holds_money}

abbrev changed : Bytes → ℕ → (ChequeRow → ChequeRow) → List ChequeRow → List ChequeRow
changed wallet_id id f rs = map (λ (r : ChequeRow). if is_cheque wallet_id id r then f r else r) rs

stored-changed :
    (wallet_id : Bytes) (id : ℕ) (f : ChequeRow → ChequeRow) (rs : List ChequeRow) {r : ChequeRow}
    → ((x : ChequeRow) → is_cheque wallet_id id (f x) ≡ is_cheque wallet_id id x)
    → first_row (keep (is_cheque wallet_id id) rs) ≡ some r
    → first_row (keep (is_cheque wallet_id id) (changed wallet_id id f rs)) ≡ some (f r)
stored-changed wallet_id id f [] same_key h = absurd (cc h)
stored-changed wallet_id id f (x ∷ rs) same_key h = elim (Bool-cases (is_cheque wallet_id id x)) [
  | inl own ↦ rw (own, same_key x, own) (cc (rw own at h))
  | inr other ↦ rw (other, other) (stored-changed wallet_id id f rs same_key (rw other at h))
]

-- the node and the wallets answer
abbrev pub Answers : Services → Bytes → Type 0
Answers s wallet_id =
    (s.has_wallet wallet_id ≡ true) × (s.has_watch_wallet ≡ true) × (s.has_bitcoind ≡ true)

and_true : (b : Bool) → (b && true) ≡ b
and_true true = refl
and_true false = refl

module _ (d : Driver) (reliable : IsReliable d) (wallet_id : Bytes) (id : ℕ) where
  -- the row after a check that found outputs
  check_found :
      (s : Services) (w : World Tables) {r : ChequeRow} {u : Unspent} {us : List Unspent}
      → Answers s wallet_id
      → stored wallet_id id w.tables ≡ some r
      → s.unspent r.address ≡ some (u ∷ us)
      → let x = check_cheque_funding d s wallet_id id w in
        let sats = s.sats_of_sum (amounts (u ∷ us)) in
        ((c : CheckChequeFundingResponse) × (x.0 ≡ ok c)
          × (c.funded ≡ leb r.expected_amount_sats sats))
        × ((t : ℕ) × (stored wallet_id id x.1.tables ≡ some (funded_row (txids (u ∷ us)) sats t r)))
  unfolding check_cheque_funding guarded find_cheque get_cheque_by_id found_or answered checked
      internally update_funding some_affected query update raise pure ◌>>=◌
  check_found s w {r} {u} {us} (known, watched, running) found listed =
      let sats = s.sats_of_sum (amounts (u ∷ us)) in
      let t = d.clock (called w).calls in
      let f : ChequeRow → ChequeRow = funded_row (txids (u ∷ us)) sats t in
      let again = stored-changed wallet_id id f w.tables.cheques (λ x. refl) found in
      rw
        (
          known,
          reliable w.calls,
          found,
          watched,
          running,
          listed,
          reliable (called w).calls,
          some_found (keep (is_cheque wallet_id id) w.tables.cheques) found,
          reliable (called (called w)).calls,
          again,
        )
        ((_, refl, unfold is_funded scan_cheque in refl), (t, again))

  -- the row after a check that found none
  check_vanished :
      (s : Services) (w : World Tables) {r : ChequeRow}
      → Answers s wallet_id
      → stored wallet_id id w.tables ≡ some r
      → holds_money r ≡ true
      → s.unspent r.address ≡ some []
      → let x = check_cheque_funding d s wallet_id id w in
        (x.0 ≡ ok not_funded)
        × ((t : ℕ) × (stored wallet_id id x.1.tables
              ≡ some
                  (record r { swept_txid = some (codes "swept_externally"); swept_at = some t })))
  unfolding check_cheque_funding guarded find_cheque get_cheque_by_id found_or answered checked
      internally update_swept some_affected query update raise pure logged ◌>>=◌
  check_vanished s w {r} (known, watched, running) found money listed =
      let t = d.clock (called w).calls in
      let f : ChequeRow → ChequeRow =
        λ x. record x { swept_txid = some (codes "swept_externally"); swept_at = some t } in
      let again = stored-changed wallet_id id f w.tables.cheques (λ x. refl) found in
      rw
        (
          known,
          reliable w.calls,
          found,
          watched,
          running,
          listed,
          money,
          reliable (called w).calls,
          some_found (keep (is_cheque wallet_id id) w.tables.cheques) found,
        )
        (refl, (t, again))

  delete_stored :
      (s : Services) (w : World Tables) {r : ChequeRow}
      → s.has_wallet wallet_id ≡ true
      → stored wallet_id id w.tables ≡ some r
      → (delete_cheque_request d s wallet_id id w).0
        ≡ (if holds_money r then err cannot_delete_funded else ok tt)
  unfolding delete_cheque_request guarded find_cheque get_cheque_by_id found_or internally
      delete_cheque some_affected query update raise pure ◌>>=◌
  delete_stored s w {r} known found = elim (Bool-cases (holds_money r)) [
    | inl money ↦ rw (known, reliable w.calls, found, money) refl
    | inr free ↦
        rw
          (
            known,
            reliable w.calls,
            found,
            free,
            reliable (called w).calls,
            some_found (keep (is_cheque wallet_id id) w.tables.cheques) found,
          )
          refl
  ]

  -- If no call fails and the services answer: when a check finds outputs at the address of a cheque that is not swept, it reports the cheque as funded exactly if they hold what the cheque asks for or more, and a request to delete the cheque, whatever is answered then, is refused in just that case; with less at the address the deletion succeeds.
  pub check-delete_cheque_request :
      (s s' : Services) (w : World Tables) {r : ChequeRow} {u : Unspent} {us : List Unspent}
      → Answers s wallet_id
      → s'.has_wallet wallet_id ≡ true
      → stored wallet_id id w.tables ≡ some r
      → r.swept_txid ≡ none
      → s.unspent r.address ≡ some (u ∷ us)
      → let x = check_cheque_funding d s wallet_id id w in
        let enough = leb r.expected_amount_sats (s.sats_of_sum (amounts (u ∷ us))) in
        ((c : CheckChequeFundingResponse) × (x.0 ≡ ok c) × (c.funded ≡ enough))
        × ((delete_cheque_request d s' wallet_id id x.1).0
            ≡ (if enough then err cannot_delete_funded else ok tt))
  check-delete_cheque_request s s' w {r} {u} {us} answers known found unswept listed =
      let sats = s.sats_of_sum (amounts (u ∷ us)) in
      let x = check_cheque_funding d s wallet_id id w in
      let (reported, (t, again)) = check_found s w {u = u} {us = us} answers found listed in
      let money : holds_money (funded_row (txids (u ∷ us)) sats t r)
          ≡ leb r.expected_amount_sats sats =
        unfold is_funded scan_cheque in rw unswept (and_true (leb r.expected_amount_sats sats)) in
      (
        reported,
        delete_stored s' x.1 known again
            ∙ ap (λ (m : Bool). if m then err cannot_delete_funded else ok tt) money,
      )

  -- If no call fails and the services answer: when one check finds no output at the address of a funded cheque, as after its unconfirmed funding has left the node's pool, and the next check finds outputs again that hold what the cheque asks for, it reports the cheque as funded, and yet a request to delete it succeeds.
  pub vanished-deletable :
      (s s' s'' : Services) (w : World Tables) {r : ChequeRow} {u : Unspent} {us : List Unspent}
      → Answers s wallet_id
      → Answers s' wallet_id
      → s''.has_wallet wallet_id ≡ true
      → stored wallet_id id w.tables ≡ some r
      → holds_money r ≡ true
      → s.unspent r.address ≡ some []
      → s'.unspent r.address ≡ some (u ∷ us)
      → r.expected_amount_sats ≤ s'.sats_of_sum (amounts (u ∷ us))
      → let x =
          check_cheque_funding d s' wallet_id id (check_cheque_funding d s wallet_id id w).1 in
        ((c : CheckChequeFundingResponse) × (x.0 ≡ ok c) × (c.funded ≡ true))
        × ((delete_cheque_request d s'' wallet_id id x.1).0 ≡ ok tt)
  vanished-deletable s s' s'' w {r} {u} {us} answers answers' known found money gone listed enough =
      let sats = s'.sats_of_sum (amounts (u ∷ us)) in
      let v = check_cheque_funding d s wallet_id id w in
      let x = check_cheque_funding d s' wallet_id id v.1 in
      let (_, (t, marked)) = check_vanished s w answers found money gone in
      let ((c, reported, funded), (t', again)) =
        check_found s' v.1 {u = u} {us = us} answers' marked listed in
      let paid : leb r.expected_amount_sats sats ≡ true = ground arith in
      let marked_row : ChequeRow = record r {
        swept_txid = some (codes "swept_externally");
        swept_at = some t;
      } in
      let free : holds_money (funded_row (txids (u ∷ us)) sats t' marked_row) ≡ false =
        unfold is_funded scan_cheque in rw paid refl in
      (
        (c, reported, funded ∙ paid),
        delete_stored s'' x.1 known again
            ∙ ap (λ (m : Bool). if m then err cannot_delete_funded else ok tt) free,
      )
