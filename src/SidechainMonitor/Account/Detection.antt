-- ===== src/SidechainMonitor/Account/Detection.antt =====
-- That every withdrawal which a bundle lists is detected.
use drivechain_litwindow.Prelude.{
  ℕ, ◌≡◌, refl, inl, inr, arith, Bool, true, false, Option, none, some, Bytes, codes, same,
  same_refl, if◌then◌else◌, Bool-cases,
}
use drivechain_litwindow.Prelude.Maps.{has, insert, has-insert}
use drivechain_litwindow.SidechainMonitor.Json.{
  Json, text, number, array, object, Items, nil, item, Fields, RawMessage, get_field, as_text,
  as_number, as_array, as_object, unmarshal_map, float_to_int64,
}
use drivechain_litwindow.SidechainMonitor.{
  DetectedWithdrawal, Network, Monitor, asked, broadcast, store_withdrawal,
}
use drivechain_litwindow.SidechainMonitor.Poll.{
  BundleTransaction, detected_now, store_transaction, store_transactions, store_listed,
  parse_withdrawal_bundle, store_bundle, bundle_transaction, of_object, with_txid, with_amount,
  with_destination,
}
use drivechain_litwindow.SidechainMonitor.Account.{InItems}

abbrev Knows : Bytes → Monitor → Type 0
Knows txid s = has txid s.detected ≡ true

broadcast-detected :
    (net : Network) (w : DetectedWithdrawal) (s : Monitor)
    → (broadcast net w s).detected ≡ s.detected
unfolding broadcast asked
broadcast-detected net w s = ground arith

store_withdrawal-Knows :
    (net : Network) (w : DetectedWithdrawal) (s : Monitor) → Knows w.txid (store_withdrawal net w s)
unfolding store_withdrawal
store_withdrawal-Knows net w s = elim (Bool-cases (has w.txid s.detected)) [
  | inl old ↦ rw old old
  | inr new ↦
      rw
        (
          new,
          broadcast-detected net w (record s { detected = insert w.txid w s.detected }),
          has-insert w.txid w.txid w s.detected,
          same_refl w.txid,
        )
        refl
]

store_withdrawal-still :
    (net : Network) (txid : Bytes) (w : DetectedWithdrawal) (s : Monitor)
    → Knows txid s
    → Knows txid (store_withdrawal net w s)
unfolding store_withdrawal
store_withdrawal-still net txid w s h = elim (Bool-cases (has w.txid s.detected)) [
  | inl old ↦ rw old h
  | inr new ↦
      rw
        (
          new,
          broadcast-detected net w (record s { detected = insert w.txid w s.detected }),
          has-insert w.txid txid w s.detected,
          h,
        )
        (if_same (same w.txid txid))
]
  where
    if_same : (c : Bool) → (if c then true else true) ≡ true
    if_same true = refl
    if_same false = refl

module _ (net : Network) (name : Bytes) where
  store_transaction-still :
      (txid : Bytes) (o : Option BundleTransaction) (s : Monitor)
      → Knows txid s
      → Knows txid (store_transaction net name o s)
  unfolding store_transaction asked
  store_transaction-still txid none s h = h
  store_transaction-still txid (some x) s h = store_withdrawal-still net txid _ (asked s) h

  store_transactions-still :
      (txid : Bytes) (txs : Items) (s : Monitor)
      → Knows txid s
      → Knows txid (store_transactions net name txs s)
  unfolding store_transactions
  store_transactions-still txid nil s h = h
  store_transactions-still txid (item tx rest) s h =
      store_transactions-still txid rest (store_transaction net name (bundle_transaction tx) s)
        (store_transaction-still txid (bundle_transaction tx) s h)

  store_transactions-Knows :
      (txs : Items) (tx : Json) (x : BundleTransaction) (s : Monitor)
      → InItems tx txs
      → bundle_transaction tx ≡ some x
      → Knows x.txid (store_transactions net name txs s)
  unfolding store_transactions
  store_transactions-Knows nil tx' x s i h = elim i [ ]
  store_transactions-Knows (item tx rest) tx' x s (InItems.first rest') h =
      store_transactions-still x.txid rest (store_transaction net name (bundle_transaction tx) s)
        (rw h (unfold store_transaction detected_now in store_withdrawal-Knows net _ (asked s)))
  store_transactions-Knows (item tx rest) tx' x s (InItems.later u rest' i) h =
      store_transactions-Knows rest tx' x (store_transaction net name (bundle_transaction tx) s) i h

  -- Every transaction that a bundle lists with a text for its id and its destination and a number for its amount is among the detected withdrawals once the bundle is parsed, and the parsing returns no error, whatever else the bundle lists before or behind it.
  pub parse_withdrawal_bundle-detects :
      (raw : RawMessage) (bundle : Fields) (txs : Items) (tx : Fields) (txid dest : Bytes)
      (bits : ℕ) (s : Monitor)
      → unmarshal_map raw ≡ some bundle
      → get_field (codes "transactions") bundle ≡ some (array txs)
      → InItems (object tx) txs
      → get_field (codes "txid") tx ≡ some (text txid)
      → get_field (codes "amount") tx ≡ some (number bits)
      → get_field (codes "destination") tx ≡ some (text dest)
      → (has txid (parse_withdrawal_bundle net raw name s).0.detected ≡ true)
        × ((parse_withdrawal_bundle net raw name s).1 ≡ none)
  unfolding parse_withdrawal_bundle store_bundle store_listed
  parse_withdrawal_bundle-detects raw bundle txs tx txid dest bits s d l i t n a =
      let x : BundleTransaction = record {
        txid = txid;
        amount = float_to_int64 bits;
        destination = dest;
      } in
      let listed : as_array (get_field (codes "transactions") bundle) ≡ some txs =
        rw l (unfold as_array in refl) in
      let read : bundle_transaction (object tx) ≡ some x =
        unfold bundle_transaction of_object with_txid with_amount with_destination as_object as_text
          as_number in
        rw (t, n, a) refl in
      rw (d, listed) (store_transactions-Knows txs (object tx) x s i read, refl)
