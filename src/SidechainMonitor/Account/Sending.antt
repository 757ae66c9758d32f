-- ===== src/SidechainMonitor/Account/Sending.antt =====
-- The payments that one check of a sidechain reports.
use mathlib.Core.List.{Memᴰ}
use drivechain_litwindow.Prelude.{
  ℕ, ◌*◌, ◌≡◌, ◌≢◌, refl, Bool, true, false, Option, none, some, List, [], ◌∷◌, ◌++◌, Bytes, codes,
  eq_of_same, mem-keep, All, if◌then◌else◌,
}
use drivechain_litwindow.Prelude.Maps.{values}
use drivechain_litwindow.Int64.{IsNat63}
use drivechain_litwindow.SidechainMonitor.Json.{Fields, RawMessage, unmarshal_map}
use drivechain_litwindow.SidechainMonitor.{
  PendingFastWithdrawal, Payment, Response, Sidechain, name_of, Network, Monitor, asked,
}
use drivechain_litwindow.SidechainMonitor.Payments.{
  HashError, ResponseError, CompleteError, CheckError, no_client, accepted, send_payment,
  complete_validated, post_payment, validate_server_response, answered, sent, complete_withdrawal,
  complete_if_found, check_payment, check_payments, check_with_client, check_some,
  find_transaction_to_address, find_in_utxos, is_pending_of, pending_for, client_named,
}
use drivechain_litwindow.SidechainMonitor.Outputs.{find_in_utxos-Pays}
use drivechain_litwindow.SidechainMonitor.Account.{
  IsReport, IsSettled, IsAccounted, IsAccounted-asked, IsAccounted-post, IsAccounted-remove,
}
use drivechain_litwindow.SidechainMonitor.Account.Answers.{validated_lem, client_named-name_of}

-- What others do: Go ranges over the entries of a map alone, and 95 times an amount is an int64.
abbrev pub RangesOver : Network → Type 0
RangesOver net =
    (n : ℕ) (ps : List PendingFastWithdrawal) (p : PendingFastWithdrawal)
    → Memᴰ p (net.ranged n ps)
    → Memᴰ p ps

abbrev pub AreSmall : List PendingFastWithdrawal → Type 0
AreSmall ps = (p : PendingFastWithdrawal) → Memᴰ p ps → IsNat63 (p.expected_amount * 95)

module _ (net : Network) (sc : Sidechain) (b : Monitor) (over : RangesOver net)
    (small : AreSmall (values b.pending)) where
  abbrev pub Kept : Monitor → Type 0
  Kept t = IsAccounted net sc b t

  -- a pending withdrawal of this sidechain
  abbrev pub IsOwn : PendingFastWithdrawal → Type 0
  IsOwn p = Memᴰ p (values b.pending) × (p.sidechain ≡ name_of sc)

  accepted-Kept :
      (q : Payment) (o : Option ResponseError) (t : Monitor)
      → (o ≡ none → IsSettled net q.hash t.payments)
      → Kept t
      → Kept (accepted q.hash o t).0
  unfolding accepted
  accepted-Kept q (some e) t s h = h
  accepted-Kept q none t s h = IsAccounted-remove q.hash (s refl) h

  answered-Kept :
      (q : Payment) (n : ℕ) (r : Response) (o : Option Fields) (t : Monitor)
      → net.post n q ≡ some r
      → unmarshal_map r.body ≡ o
      → Memᴰ q t.payments
      → Kept t
      → Kept (answered q.hash o r.status_code t).0
  unfolding answered
  answered-Kept q n r none t e d m h = h
  answered-Kept q n r (some body) t e d m h =
      accepted-Kept q (validate_server_response r.status_code body) t
        (λ v.
          let (status, success) = validated_lem r.status_code body v in
          record {
            payment = q;
            of_hash = refl;
            was_sent = m;
            call = n;
            response = r;
            body = body;
            answered = e;
            status = status;
            decoded = d;
            success = success;
          })
        h

  sent-Kept :
      (q : Payment) (n : ℕ) (o : Option Response) (t : Monitor)
      → net.post n q ≡ o
      → Memᴰ q t.payments
      → Kept t
      → Kept (sent q.hash o t).0
  unfolding sent
  sent-Kept q n none t e m h = h
  sent-Kept q n (some r) t e m h = answered-Kept q n r (unmarshal_map r.body) t e refl m h

  send_payment-Kept :
      (q : Payment) (t : Monitor)
      → IsReport net sc (values b.pending) q
      → Kept t
      → Kept (send_payment net q t).0
  unfolding send_payment
  send_payment-Kept q t r h = of_url (net.valid_url q.url)
    where
      of_url :
          (c : Bool)
          → Kept
              (if c
                then sent q.hash (net.post t.calls q) (post_payment net q t)
                else (t, some CompleteError.create_request)).0
      of_url false = h
      of_url true =
          sent-Kept q t.calls (net.post t.calls q) (post_payment net q t) refl
            (unfold post_payment in Memᴰ.head refl) (IsAccounted-post q r h)

  complete_validated-Kept :
      (o u : Option HashError) (q : Payment) (t : Monitor)
      → IsReport net sc (values b.pending) q
      → Kept t
      → Kept (complete_validated net o u q t).0
  unfolding complete_validated
  complete_validated-Kept (some e) u q t r h = h
  complete_validated-Kept none (some e) q t r h = h
  complete_validated-Kept none none q t r h = send_payment-Kept q t r h

  complete_if_found-Kept :
      (p : PendingFastWithdrawal) (txid : Bytes) (t : Monitor)
      → (txid ≢ []
          → IsReport net sc
              (values b.pending)
              (record { url = p.server_url ++ codes "/paid"; hash = p.hash; txid = txid }))
      → Kept t
      → Kept (complete_if_found net p txid t)
  unfolding complete_if_found complete_withdrawal
  complete_if_found-Kept p [] t r h = h
  complete_if_found-Kept p (c ∷ txid) t r h = complete_validated-Kept _ _ _ t (r (λ e. cc e)) h

  found-IsReport :
      (p : PendingFastWithdrawal) (n : ℕ) (o : Option RawMessage)
      → IsOwn p
      → net.list_utxos n sc ≡ o
      → find_in_utxos p.server_address p.expected_amount o ≢ []
      → IsReport net sc (values b.pending) (record {
        url = p.server_url ++ codes "/paid";
        hash = p.hash;
        txid = find_in_utxos p.server_address p.expected_amount o;
      })
  found-IsReport p n none own e found = absurd (found (unfold find_in_utxos in refl))
  found-IsReport p n (some raw) (m, of) e found =
      let (utxos, decoded, (utxo, listed, pays)) =
        find_in_utxos-Pays p.server_address p.expected_amount raw (small p m) found in
      record {
        withdrawal = p;
        was_pending = m;
        of_sidechain = of;
        to_server = refl;
        of_hash = refl;
        call = n;
        raw = raw;
        outputs = utxos;
        output = utxo;
        answered = e;
        decoded = decoded;
        listed = listed;
        pays = pays;
      }

  check_payments-Kept :
      (ps : List PendingFastWithdrawal) (t : Monitor)
      → All IsOwn ps
      → Kept t
      → Kept (check_payments net sc ps t)
  unfolding check_payments
  check_payments-Kept [] t own h = h
  check_payments-Kept (p ∷ ps) t (own, rest) h =
      check_payments-Kept ps (check_payment net sc p t) rest (
        unfold check_payment find_transaction_to_address in
        complete_if_found-Kept p
          (find_in_utxos p.server_address p.expected_amount (net.list_utxos t.calls sc)) (asked t)
          (found-IsReport p t.calls (net.list_utxos t.calls sc) own refl) (IsAccounted-asked h))

  -- the pending withdrawals that the check is about are those of this sidechain
  pub pending_for-IsOwn :
      (t : Monitor)
      → Kept t
      → (ps : List PendingFastWithdrawal)
      → ((p : PendingFastWithdrawal) → Memᴰ p ps → Memᴰ p (pending_for net (name_of sc) t))
      → All IsOwn ps
  pending_for-IsOwn t h [] sub = tt
  pending_for-IsOwn t h (p ∷ ps) sub =
      (of_mem (sub p (Memᴰ.head refl)), pending_for-IsOwn t h ps (λ q m. sub q (Memᴰ.tail m)))
    where
      of_mem : Memᴰ p (pending_for net (name_of sc) t) → IsOwn p
      of_mem m =
          let (there, named) =
            mem-keep (is_pending_of net (name_of sc)) p (net.ranged t.calls (values t.pending))
              (unfold pending_for in m) in
          (
            h.kept p (over t.calls (values t.pending) p there),
            eq_of_same p.sidechain (name_of sc) (unfold is_pending_of in named),
          )

  check_with_client-Kept :
      (o : Option Sidechain) (ps : List PendingFastWithdrawal) (t : Monitor)
      → o ≡ some sc
      → All IsOwn ps
      → Kept t
      → Kept (check_with_client net (name_of sc) o ps t).0
  unfolding check_with_client
  check_with_client-Kept none ps t e own h = absurd (cc e)
  check_with_client-Kept (some sc') ps t e own h =
      let same_sc : sc' ≡ sc = cc e in rw same_sc (of_client (net.has_client t.calls sc))
    where
      of_client :
          (c : Bool)
          → Kept
              (let x : Monitor × Option CheckError =
                  if c
                  then (check_payments net sc ps (asked t), none)
                  else (asked t, some (no_client (name_of sc))) in
                x).0
      of_client true = check_payments-Kept ps (asked t) own (IsAccounted-asked h)
      of_client false = IsAccounted-asked h

  pub check_some-Kept :
      (ps : List PendingFastWithdrawal) (t : Monitor)
      → All IsOwn ps
      → Kept t
      → Kept (check_some net (name_of sc) ps t).0
  unfolding check_some
  check_some-Kept [] t own h = h
  check_some-Kept (p ∷ ps) t own h =
      check_with_client-Kept (client_named (name_of sc)) (p ∷ ps) t (client_named-name_of sc) own h
