-- ===== src/Cheques/Recovery.antt =====
-- What a recovery scan does with the cheques it finds, and what a funded cheque reads as.
use drivechain_litwindow.Prelude.{
  ℕ, ◌≡◌, ◌≢◌, refl, ap, ◌∙◌, inl, inr, Bool, false, some, List, [], ◌∷◌, Bytes, leb, keep, All,
  Bool-cases, is_ok,
}
use drivechain_litwindow.Database.{Driver, World, query, raise, attempted, ◌>>=◌}
use drivechain_litwindow.Deniability.Sizes.{join_comma, split_comma}
use drivechain_litwindow.Deniability.Sizes.Parts.{HasNoComma, split_comma-join_comma}
use drivechain_litwindow.Cheques.{
  ChequeRow, Tables, has_address, scan_cheque, txids_of, funded_row, is_funded,
}
use drivechain_litwindow.Cheques.Operations.{
  get_by_address, found_or, recover, create_or_update_from_recovery,
}

none_kept :
    (p : ChequeRow → Bool) (rs : List ChequeRow)
    → All (λ (r : ChequeRow). p r ≡ false) rs
    → keep p rs ≡ []
none_kept p [] h = refl
none_kept p (r ∷ rs) (q, h) = rw q (none_kept p rs h)

-- Whichever calls fail, a recovery scan never creates a cheque: for an address that the wallet has no cheque for, it returns an error and stores nothing.
pub recovery_creates_nothing :
    (d : Driver) (wallet_id : Bytes) (index : ℕ) (address : Bytes) (txids : List Bytes) (amount : ℕ)
    (w : World Tables)
    → All (λ (r : ChequeRow). has_address wallet_id address r ≡ false) w.tables.cheques
    → (is_ok (create_or_update_from_recovery d wallet_id index address txids amount w).0 ≡ false)
      × ((create_or_update_from_recovery d wallet_id index address txids amount w).1.tables
          ≡ w.tables)
unfolding create_or_update_from_recovery recover get_by_address found_or query attempted raise ◌>>=◌
recovery_creates_nothing d wallet_id index address txids amount w h =
    elim (Bool-cases (d.fails w.calls)) [
      | inl bad ↦ rw bad (refl, refl)
      | inr good ↦
          rw (good, none_kept (has_address wallet_id address) w.tables.cheques h) (refl, refl)
    ]

txids_of-some : (s : Bytes) → s ≢ [] → txids_of (some s) ≡ (split_comma s).0 ∷ (split_comma s).1
txids_of-some [] h = absurd (h refl)
txids_of-some (c ∷ cs) h = refl

join_comma-some : (c : ℕ) (cs : Bytes) (ts : List Bytes) → join_comma ((c ∷ cs) ∷ ts) ≢ []
unfolding join_comma
join_comma-some c cs [] = λ e. cc
join_comma-some c cs (u ∷ ts) = λ e. cc

-- A cheque that is funded by transactions, the first of which is not the empty text and none of which has a comma, reads as funded by just these, keeps the time at which it was funded first, and is funded if the amount is what it asks for or more.
pub funded_row-reads :
    (r : ChequeRow) (c : ℕ) (cs : Bytes) (ts : List Bytes) (amount now : ℕ)
    → All HasNoComma ((c ∷ cs) ∷ ts)
    → let funded = funded_row ((c ∷ cs) ∷ ts) amount now r in
      ((scan_cheque funded).funded_txids ≡ (c ∷ cs) ∷ ts)
      × (is_funded (scan_cheque funded) ≡ leb r.expected_amount_sats amount)
      × ((t : ℕ) → r.funded_at ≡ some t → funded.funded_at ≡ some t)
unfolding scan_cheque is_funded
funded_row-reads r c cs ts amount now h = (
  txids_of-some (join_comma ((c ∷ cs) ∷ ts)) (join_comma-some c cs ts)
      ∙ ap (λ (x : Bytes × List Bytes). x.0 ∷ x.1) (split_comma-join_comma (c ∷ cs) ts h),
  refl,
  λ t e. rw e refl,
)
