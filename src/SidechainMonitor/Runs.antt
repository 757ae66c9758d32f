-- ===== src/SidechainMonitor/Runs.antt =====
-- A turn of a loop is a run of steps, so what holds of every reachable state holds after any number
-- of polls.
use drivechain_litwindow.Prelude.{
  ℕ, zero, suc, ◌+◌, ◌%◌, ◌≡◌, refl, Option, none, some, List, [], ◌∷◌, Bytes, codes, Bool-cases,
  inl, inr, ◌==◌,
}
use drivechain_litwindow.SidechainMonitor.Json.{
  RawMessage, Fields, Items, nil, item, unmarshal_map, get_field, as_array,
}
use drivechain_litwindow.SidechainMonitor.{
  PendingFastWithdrawal, Payment, Response, Sidechain, name_of, Network, Monitor, asked,
}
use drivechain_litwindow.SidechainMonitor.Payments.{
  HashError, ResponseError, accepted, send_payment, complete_validated, post_payment,
  validate_server_response, answered, sent, complete_withdrawal, complete_if_found, check_payment,
  check_payments, check_with_client, check_some, check_fast_withdrawal_payments,
  find_transaction_to_address, pending_for, client_named,
}
use drivechain_litwindow.SidechainMonitor.Poll.{
  BundleTransaction, detected_now, store_transaction, store_transactions, store_listed,
  parse_withdrawal_bundle, store_bundle, check_after, parse_and_check, monitor, cleanup_at, poll,
  polls, bundle_transaction, MonitorError,
}
use drivechain_litwindow.SidechainMonitor.Steps.{
  IsAccepted, asks, stores, cleans, pays, removes, Reach, here, next, trans,
}

module _ {net : Network} where
  accepted-Reach :
      (p : Payment) (o : Option ResponseError) (s : Monitor)
      → (o ≡ none → (n : ℕ) × IsAccepted net n p)
      → Reach net s (accepted p.hash o s).0
  unfolding accepted
  accepted-Reach p (some e) s a = here
  accepted-Reach p none s a = let (n, valid) = a refl in next here (removes p n s valid)

  answered-Reach :
      (p : Payment) (n : ℕ) (r : Response) (o : Option Fields) (s : Monitor)
      → net.post n p ≡ some r
      → unmarshal_map r.body ≡ o
      → Reach net s (answered p.hash o r.status_code s).0
  unfolding answered
  answered-Reach p n r none s e d = here
  answered-Reach p n r (some body) s e d =
      accepted-Reach p (validate_server_response r.status_code body) s (λ v.
        (n, record { response = r; body = body; was_answered = e; was_decoded = d; was_valid = v }))

  sent-Reach :
      (p : Payment) (n : ℕ) (o : Option Response) (s : Monitor)
      → net.post n p ≡ o
      → Reach net s (sent p.hash o s).0
  unfolding sent
  sent-Reach p n none s e = here
  sent-Reach p n (some r) s e = answered-Reach p n r (unmarshal_map r.body) s e refl

  send_payment-Reach : (q : Payment) (s : Monitor) → Reach net s (send_payment net q s).0
  unfolding send_payment
  send_payment-Reach q s = elim (Bool-cases (net.valid_url q.url)) [
    | inl fine ↦ rw fine (
        trans (next here (pays q s))
          (sent-Reach q s.calls (net.post s.calls q) (post_payment net q s) refl))
    | inr bad ↦ rw bad here
  ]

  complete_validated-Reach :
      (o u : Option HashError) (q : Payment) (s : Monitor)
      → Reach net s (complete_validated net o u q s).0
  unfolding complete_validated
  complete_validated-Reach (some e) u q s = here
  complete_validated-Reach none (some e) q s = here
  complete_validated-Reach none none q s = send_payment-Reach q s

  complete_if_found-Reach :
      (p : PendingFastWithdrawal) (txid : Bytes) (s : Monitor)
      → Reach net s (complete_if_found net p txid s)
  unfolding complete_if_found complete_withdrawal
  complete_if_found-Reach p [] s = here
  complete_if_found-Reach p (c ∷ txid) s = complete_validated-Reach _ _ _ s

  check_payments-Reach :
      (sc : Sidechain) (ps : List PendingFastWithdrawal) (s : Monitor)
      → Reach net s (check_payments net sc ps s)
  unfolding check_payments
  check_payments-Reach sc [] s = here
  check_payments-Reach sc (p ∷ ps) s =
      trans
        (trans (next here (asks s)) (
          complete_if_found-Reach p
            (find_transaction_to_address net sc p.server_address p.expected_amount s) (asked s)))
        (check_payments-Reach sc ps (check_payment net sc p s))

  check_with_client-Reach :
      (name : Bytes) (o : Option Sidechain) (ps : List PendingFastWithdrawal) (s : Monitor)
      → Reach net s (check_with_client net name o ps s).0
  unfolding check_with_client
  check_with_client-Reach name none ps s = here
  check_with_client-Reach name (some sc) ps s = elim (Bool-cases (net.has_client s.calls sc)) [
    | inl there ↦ rw there (trans (next here (asks s)) (check_payments-Reach sc ps (asked s)))
    | inr absent ↦ rw absent (next here (asks s))
  ]

  check_some-Reach :
      (name : Bytes) (ps : List PendingFastWithdrawal) (s : Monitor)
      → Reach net s (check_some net name ps s).0
  unfolding check_some
  check_some-Reach name [] s = here
  check_some-Reach name (p ∷ ps) s = check_with_client-Reach name (client_named name) (p ∷ ps) s

  store_transactions-Reach :
      (name : Bytes) (txs : Items) (s : Monitor) → Reach net s (store_transactions net name txs s)
  unfolding store_transactions
  store_transactions-Reach name nil s = here
  store_transactions-Reach name (item tx rest) s =
      trans (one (bundle_transaction tx))
        (store_transactions-Reach name rest (store_transaction net name (bundle_transaction tx) s))
    where
      one : (o : Option BundleTransaction) → Reach net s (store_transaction net name o s)
      one none = here
      one (some t) =
          next (next here (asks s)) (stores (detected_now name (net.now s.calls) t) (asked s))

  store_listed-Reach :
      (name : Bytes) (o : Option Items) (s : Monitor) → Reach net s (store_listed net name o s)
  unfolding store_listed
  store_listed-Reach name none s = here
  store_listed-Reach name (some txs) s = store_transactions-Reach name txs s

  store_bundle-Reach :
      (name : Bytes) (o : Option Fields) (s : Monitor) → Reach net s (store_bundle net name o s).0
  unfolding store_bundle
  store_bundle-Reach name none s = here
  store_bundle-Reach name (some bundle) s =
      store_listed-Reach name (as_array (get_field (codes "transactions") bundle)) s

  check_after-Reach :
      (name : Bytes) (s t : Monitor) (e : Option MonitorError)
      → Reach net s t
      → Reach net s (check_after net name (t, e)).0
  unfolding check_after check_fast_withdrawal_payments
  check_after-Reach name s t (some e) r = r
  check_after-Reach name s t none r =
      trans (next r (asks t)) (check_some-Reach name (pending_for net name t) (asked t))

  parse_and_check-Reach :
      (name : Bytes) (o : Option RawMessage) (s : Monitor)
      → Reach net s (parse_and_check net name o s).0
  unfolding parse_and_check parse_withdrawal_bundle
  parse_and_check-Reach name none s = here
  parse_and_check-Reach name (some raw) s =
      let parsed = parse_withdrawal_bundle net raw name s in
      check_after-Reach name s parsed.0 parsed.1 (store_bundle-Reach name (unmarshal_map raw) s)

  pub monitor-Reach : (sc : Sidechain) (s : Monitor) → Reach net s (monitor net sc s).0
  unfolding monitor
  monitor-Reach sc s = elim (Bool-cases (net.has_client s.calls sc)) [
    | inl there ↦ rw there (
        trans (next (next here (asks s)) (asks (asked s))) (
          parse_and_check-Reach (name_of sc) (net.pending_withdrawal_bundle (s.calls + 1) sc)
            (asked (asked s))))
    | inr absent ↦ rw absent (next here (asks s))
  ]

  cleanup_at-Reach : (n : ℕ) (s : Monitor) → Reach net s (cleanup_at net n s)
  unfolding cleanup_at
  cleanup_at-Reach n s = elim (Bool-cases (n % 60 == 0)) [
    | inl now ↦ rw now (next here (cleans s))
    | inr later ↦ rw later here
  ]

  pub poll-Reach : (sc : Sidechain) (n : ℕ) (s : Monitor) → Reach net s (poll net sc n s).0
  unfolding poll
  poll-Reach sc n s = trans (monitor-Reach sc s) (cleanup_at-Reach (n + 1) (monitor net sc s).0)

  -- Any number of turns of a sidechain's loop, from any count of polls, is a run of the steps.
  pub polls-Reach :
      (sc : Sidechain) (n count : ℕ) (s : Monitor) → Reach net s (polls net sc n count s)
  unfolding polls
  polls-Reach sc zero count s = here
  polls-Reach sc (suc n) count s =
      trans (poll-Reach sc count s) (polls-Reach sc n (count + 1) (poll net sc count s).0)
