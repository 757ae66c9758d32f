-- ===== src/SidechainMonitor/Completion.antt =====
-- How the completion of a fast withdrawal ends.
use drivechain_litwindow.Prelude.{
  ◌≡◌, refl, Option, none, some, ◌∷◌, ◌++◌, Bytes, codes, Bool-cases, ◌⊎◌, inl, inr,
}
use drivechain_litwindow.Prelude.Maps.{erase}
use drivechain_litwindow.SidechainMonitor.Json.{Fields, unmarshal_map}
use drivechain_litwindow.SidechainMonitor.{
  PendingFastWithdrawal, Payment, Response, Network, Monitor, asked, remove_pending,
}
use drivechain_litwindow.SidechainMonitor.Payments.{
  HashError, ResponseError, CompleteError, validate_withdrawal_hash, validate_server_response,
  accepted, answered, sent, post_payment, send_payment, complete_validated, complete_withdrawal,
}
use drivechain_litwindow.SidechainMonitor.Steps.{IsAccepted}

-- The payment that is reported for a pending withdrawal.
abbrev pub payment_of : PendingFastWithdrawal → Bytes → Payment
payment_of p txid = record { url = p.server_url ++ codes "/paid"; hash = p.hash; txid = txid }

-- How a completion ends: the server accepts the payment that is reported to it, and the withdrawal is no longer pending; or there is an error, and what is pending stays.
abbrev pub Outcome : Network → Payment → Monitor → Monitor × Option CompleteError → Type 0
Outcome net q s r =
    ((r.1 ≡ none)
      × IsAccepted net s.calls q
      × (r.0.payments ≡ q ∷ s.payments)
      × (r.0.pending ≡ erase q.hash s.pending))
    ⊎ ((e : CompleteError) × (r.1 ≡ some e) × (r.0.pending ≡ s.pending))

accepted-Outcome :
    (net : Network) (q : Payment) (s : Monitor) (o : Option ResponseError)
    → (o ≡ none → IsAccepted net s.calls q)
    → Outcome net q s (accepted q.hash o (post_payment net q s))
unfolding accepted post_payment remove_pending asked
accepted-Outcome net q s none a = inl (refl, a refl, refl, refl)
accepted-Outcome net q s (some e) a = inr (_, refl, refl)

answered-Outcome :
    (net : Network) (q : Payment) (s : Monitor) (r : Response) (o : Option Fields)
    → net.post s.calls q ≡ some r
    → unmarshal_map r.body ≡ o
    → Outcome net q s (answered q.hash o r.status_code (post_payment net q s))
unfolding answered post_payment asked
answered-Outcome net q s r none e d = inr (_, refl, refl)
answered-Outcome net q s r (some body) e d =
    accepted-Outcome net q s (validate_server_response r.status_code body)
      (λ v. record { response = r; body = body; was_answered = e; was_decoded = d; was_valid = v })

sent-Outcome :
    (net : Network) (q : Payment) (s : Monitor) (o : Option Response)
    → net.post s.calls q ≡ o
    → Outcome net q s (sent q.hash o (post_payment net q s))
unfolding sent post_payment asked
sent-Outcome net q s none e = inr (_, refl, refl)
sent-Outcome net q s (some r) e = answered-Outcome net q s r (unmarshal_map r.body) e refl

send_payment-Outcome :
    (net : Network) (q : Payment) (s : Monitor) → Outcome net q s (send_payment net q s)
unfolding send_payment
send_payment-Outcome net q s = elim (Bool-cases (net.valid_url q.url)) [
  | inl fine ↦ rw fine (sent-Outcome net q s (net.post s.calls q) refl)
  | inr bad ↦ rw bad (inr (_, refl, refl))
]

validated-Outcome :
    (net : Network) (o u : Option HashError) (q : Payment) (s : Monitor)
    → Outcome net q s (complete_validated net o u q s)
unfolding complete_validated
validated-Outcome net (some e) u q s = inr (_, refl, refl)
validated-Outcome net none (some e) q s = inr (_, refl, refl)
validated-Outcome net none none q s = send_payment-Outcome net q s

-- The completion of a fast withdrawal ends in one of two ways: with no error, when the server has accepted the payment that was reported to it, and exactly the withdrawals of its hash are no longer pending; or with an error, and what was pending still is, to be tried again.
pub complete_withdrawal-Outcome :
    (net : Network) (p : PendingFastWithdrawal) (txid : Bytes) (s : Monitor)
    → Outcome net (payment_of p txid) s (complete_withdrawal net p txid s)
unfolding complete_withdrawal
complete_withdrawal-Outcome net p txid s =
    validated-Outcome net (validate_withdrawal_hash p.hash) (validate_withdrawal_hash txid)
      (payment_of p txid) s
