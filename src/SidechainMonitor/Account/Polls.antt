-- ===== src/SidechainMonitor/Account/Polls.antt =====
-- The turns of a sidechain's loop, along the methods that they call.
use drivechain_litwindow.Prelude.{
  ℕ, zero, suc, ◌+◌, ◌%◌, ◌≡◌, refl, Bool, true, false, Option, none, some, codes, ◌==◌,
  if◌then◌else◌,
}
use drivechain_litwindow.Prelude.Maps.{values}
use drivechain_litwindow.SidechainMonitor.Json.{
  Json, array, Items, nil, item, Fields, RawMessage, get_field, as_array, unmarshal_map,
}
use drivechain_litwindow.SidechainMonitor.{Sidechain, name_of, Network, Monitor, asked}
use drivechain_litwindow.SidechainMonitor.Payments.{check_fast_withdrawal_payments, pending_for}
use drivechain_litwindow.SidechainMonitor.Poll.{
  BundleTransaction, detected_now, store_transaction, store_transactions, store_listed,
  parse_withdrawal_bundle, store_bundle, check_after, parse_and_check, monitor, cleanup_at, poll,
  polls, get_client, bundle_transaction, MonitorError,
}
use drivechain_litwindow.SidechainMonitor.Account.{
  InItems, IsListed, IsAccounted, IsAccounted-start, IsAccounted-asked, IsAccounted-cleanup,
  IsAccounted-store, IsAccounted-if,
}
use drivechain_litwindow.SidechainMonitor.Account.Answers.{bundle_transaction_lem, as_array-some}
use drivechain_litwindow.SidechainMonitor.Account.Sending.{
  RangesOver, AreSmall, check_some-Kept, pending_for-IsOwn,
}

module _ (net : Network) (sc : Sidechain) (b : Monitor) (over : RangesOver net)
    (small : AreSmall (values b.pending)) where
  abbrev Kept : Monitor → Type 0
  Kept t = IsAccounted net sc b t

  -- what the answer of a bundle's call lists
  store_transaction-Kept :
      (o : Option BundleTransaction) (t : Monitor)
      → ((x : BundleTransaction) (n : ℕ)
          → o ≡ some x
          → IsListed net sc (detected_now (name_of sc) (net.now n) x))
      → Kept t
      → Kept (store_transaction net (name_of sc) o t)
  unfolding store_transaction
  store_transaction-Kept none t l h = h
  store_transaction-Kept (some x) t l h =
      IsAccounted-store (detected_now (name_of sc) (net.now t.calls) x) (l x t.calls refl)
        (IsAccounted-asked h)

  transaction-IsListed :
      (n m : ℕ) (raw : RawMessage) (bundle : Fields) (all : Items) (tx : Json)
      (x : BundleTransaction)
      → net.pending_withdrawal_bundle n sc ≡ some raw
      → unmarshal_map raw ≡ some bundle
      → get_field (codes "transactions") bundle ≡ some (array all)
      → InItems tx all
      → bundle_transaction tx ≡ some x
      → IsListed net sc (detected_now (name_of sc) (net.now m) x)
  unfolding detected_now
  transaction-IsListed n m raw bundle all tx x e d l i h =
      let (fs, is_object, id, (bits, number', amount), dest) =
        bundle_transaction_lem tx {t = x} h in
      record {
        bundle_call = n;
        clock_call = m;
        raw = raw;
        bundle = bundle;
        transactions = all;
        transaction = fs;
        bits = bits;
        answered = e;
        decoded = d;
        lists = l;
        member = rw (← is_object) i;
        txid = id;
        number_of = number';
        amount = amount;
        destination = dest;
        sidechain = refl;
        time = refl;
      }

  store_transactions-Kept :
      (n : ℕ) (raw : RawMessage) (bundle : Fields) (all txs : Items) (t : Monitor)
      → net.pending_withdrawal_bundle n sc ≡ some raw
      → unmarshal_map raw ≡ some bundle
      → get_field (codes "transactions") bundle ≡ some (array all)
      → ((tx : Json) → InItems tx txs → InItems tx all)
      → Kept t
      → Kept (store_transactions net (name_of sc) txs t)
  unfolding store_transactions
  store_transactions-Kept n raw bundle all nil t e d l sub h = h
  store_transactions-Kept n raw bundle all (item tx rest) t e d l sub h =
      store_transactions-Kept n raw bundle all rest
        (store_transaction net (name_of sc) (bundle_transaction tx) t) e d l
        (λ u i. sub u (InItems.later tx rest i))
        (store_transaction-Kept (bundle_transaction tx) t
          (λ x m q.
            transaction-IsListed n m raw bundle all tx x e d l (sub tx (InItems.first rest)) q)
          h)

  store_listed-Kept :
      (n : ℕ) (raw : RawMessage) (bundle : Fields) (o : Option Items) (t : Monitor)
      → net.pending_withdrawal_bundle n sc ≡ some raw
      → unmarshal_map raw ≡ some bundle
      → as_array (get_field (codes "transactions") bundle) ≡ o
      → Kept t
      → Kept (store_listed net (name_of sc) o t)
  unfolding store_listed
  store_listed-Kept n raw bundle none t e d l h = h
  store_listed-Kept n raw bundle (some txs) t e d l h =
      store_transactions-Kept n raw bundle txs txs t e d
        (as_array-some (get_field (codes "transactions") bundle) txs l) (λ u i. i) h

  store_bundle-Kept :
      (n : ℕ) (raw : RawMessage) (o : Option Fields) (t : Monitor)
      → net.pending_withdrawal_bundle n sc ≡ some raw
      → unmarshal_map raw ≡ o
      → Kept t
      → Kept (store_bundle net (name_of sc) o t).0
  unfolding store_bundle
  store_bundle-Kept n raw none t e d h = h
  store_bundle-Kept n raw (some bundle) t e d h =
      store_listed-Kept n raw bundle (as_array (get_field (codes "transactions") bundle)) t e d refl
        h

  check_after-Kept :
      (t : Monitor) (e : Option MonitorError)
      → Kept t
      → Kept (check_after net (name_of sc) (t, e)).0
  unfolding check_after check_fast_withdrawal_payments
  check_after-Kept t (some e) h = h
  check_after-Kept t none h =
      check_some-Kept net sc b over small (pending_for net (name_of sc) t) (asked t)
        (pending_for-IsOwn net sc b over small t h (pending_for net (name_of sc) t) (λ q m. m))
        (IsAccounted-asked h)

  parse_and_check-Kept :
      (n : ℕ) (o : Option RawMessage) (t : Monitor)
      → net.pending_withdrawal_bundle n sc ≡ o
      → Kept t
      → Kept (parse_and_check net (name_of sc) o t).0
  unfolding parse_and_check parse_withdrawal_bundle
  parse_and_check-Kept n none t e h = h
  parse_and_check-Kept n (some raw) t e h =
      check_after-Kept (store_bundle net (name_of sc) (unmarshal_map raw) t).0
        (store_bundle net (name_of sc) (unmarshal_map raw) t).1
        (store_bundle-Kept n raw (unmarshal_map raw) t e refl h)

  monitor-Kept : (t : Monitor) → Kept t → Kept (monitor net sc t).0
  unfolding monitor
  monitor-Kept t h = of_client (net.has_client t.calls sc)
    where
      of_client :
          (c : Bool)
          → Kept
              (let x : Monitor × Option MonitorError =
                  if c
                  then parse_and_check net
                      (name_of sc)
                      (net.pending_withdrawal_bundle (t.calls + 1) sc)
                      (asked (asked t))
                  else (asked t, some get_client) in
                x).0
      of_client true =
          parse_and_check-Kept (t.calls + 1) (net.pending_withdrawal_bundle (t.calls + 1) sc)
            (asked (asked t)) refl (IsAccounted-asked (IsAccounted-asked h))
      of_client false = IsAccounted-asked h

  poll-Kept : (count : ℕ) (t : Monitor) → Kept t → Kept (poll net sc count t).0
  unfolding poll cleanup_at
  poll-Kept count t h =
      IsAccounted-if ((count + 1) % 60 == 0) (IsAccounted-cleanup (monitor-Kept t h))
        (monitor-Kept t h)

  polls-Kept : (n count : ℕ) (t : Monitor) → Kept t → Kept (polls net sc n count t)
  unfolding polls
  polls-Kept zero count t h = h
  polls-Kept (suc n) count t h =
      polls-Kept n (count + 1) (poll net sc count t).0 (poll-Kept count t h)

  -- Whatever others answer, any number of turns of a sidechain's loop leaves a monitor that is accounted for: every withdrawal that it has detected since is listed, with this transaction, amount and destination, in a bundle that the sidechain answered, and bears its name and a time of the clock; every event since tells of such a withdrawal; every payment since reports a withdrawal of this sidechain that was pending, to its server, with a transaction that has an output which pays it; nothing is added to what is pending, and what is gone from it was settled. The order in which Go ranges over the map adds nothing to it, and 95 times a pending amount is an int64.
  pub polls-IsAccounted : (n count : ℕ) → IsAccounted net sc b (polls net sc n count b)
  polls-IsAccounted n count = polls-Kept n count b IsAccounted-start
