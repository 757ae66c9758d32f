-- ===== src/Cheques/Deletion.antt =====
-- What a request to delete a cheque does, and what it does after a check of the funding.
use drivechain_litwindow.Prelude.{
  ℕ, ◌≡◌, refl, inl, inr, arith, Bool, false, not, ◌&&◌, ◌==◌, Option, some, List, [], ◌∷◌, Bytes,
  length, keep, Bool-cases, Option-cases, Result, ok, err,
}
use drivechain_litwindow.Database.{Driver, World, query, update, raise, pure, called, ◌>>=◌}
use drivechain_litwindow.Cheques.{ChequeRow, Tables, is_cheque, first_row, scan_cheque, is_funded}
use drivechain_litwindow.Cheques.Operations.{
  get_cheque_by_id, found_or, delete_cheque, some_affected,
}
use drivechain_litwindow.Cheques.Requests.{
  RequestError, Services, guarded, internally, find_cheque, is_unswept, delete_cheque_request,
}

pub some_found :
    (rs : List ChequeRow) {r : ChequeRow} → first_row rs ≡ some r → (length rs == 0) ≡ false
some_found [] h = absurd (cc h)
some_found (r ∷ rs) h = ground arith

-- the cheque of the tables, if there is one
abbrev pub stored : Bytes → ℕ → Tables → Option ChequeRow
stored wallet_id id t = first_row (keep (is_cheque wallet_id id) t.cheques)

-- `cheque.IsFunded() && cheque.SweptTxid == nil`
abbrev pub holds_money : ChequeRow → Bool
holds_money r = is_funded (scan_cheque r) && is_unswept (scan_cheque r)

abbrev pub without : Bytes → ℕ → Tables → Tables
without wallet_id id t = record t {
  cheques = keep (λ (r : ChequeRow). not (is_cheque wallet_id id r)) t.cheques;
}

-- What a deletion leaves: without the cheque, which was there and not funded or swept, or unchanged
-- with an error.
abbrev pub DeletionOutcome :
    Bytes → ℕ → Tables → Result RequestError (Unit {0}) × World Tables → Type 0
DeletionOutcome wallet_id id t (ok _, w) =
    ((r : ChequeRow) × (stored wallet_id id t ≡ some r) × (holds_money r ≡ false))
    × (w.tables ≡ without wallet_id id t)
DeletionOutcome wallet_id id t (err e, w) = w.tables ≡ t

-- Whichever calls fail and whatever the services answer: if DeleteCheque succeeds, the wallet had the cheque, which was not funded in full or was swept, and exactly this cheque is removed; if it returns an error, nothing is changed.
pub delete_cheque_request-Outcome :
    (d : Driver) (s : Services) (wallet_id : Bytes) (id : ℕ) (w : World Tables)
    → DeletionOutcome wallet_id id w.tables (delete_cheque_request d s wallet_id id w)
unfolding delete_cheque_request guarded find_cheque get_cheque_by_id found_or internally
    delete_cheque some_affected query update raise pure ◌>>=◌
delete_cheque_request-Outcome d s wallet_id id w = elim (Bool-cases (s.has_wallet wallet_id)) [
  | inr unknown ↦ rw unknown refl
  | inl known ↦ elim (Bool-cases (d.fails w.calls)) [
    | inl bad ↦ rw (known, bad) refl
    | inr good ↦ elim (Option-cases (stored wallet_id id w.tables)) [
      | inl missing ↦ rw (known, good, missing) refl
      | inr (r, found) ↦ elim (Bool-cases (holds_money r)) [
        | inl money ↦ rw (known, good, found, money) refl
        | inr free ↦ elim (Bool-cases (d.fails (called w).calls)) [
          | inl bad ↦ rw (known, good, found, free, bad) refl
          | inr fine ↦
              rw
                (
                  known,
                  good,
                  found,
                  free,
                  fine,
                  some_found (keep (is_cheque wallet_id id) w.tables.cheques) found,
                )
                ((r, found, free), refl)
        ]
      ]
    ]
  ]
]
