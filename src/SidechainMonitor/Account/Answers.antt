-- ===== src/SidechainMonitor/Account/Answers.antt =====
-- What the readings of the answers say.
use drivechain_litwindow.Prelude.{
  ℕ, ◌≡◌, refl, sym, ap, inl, inr, arith, Option, none, some, Bytes, codes, same, eq_of_same, ◌==◌,
  Bool-cases,
}
use drivechain_litwindow.SidechainMonitor.Json.{
  Json, text, number, array, object, Items, Fields, get_field, as_text, as_number, as_array,
  as_object, float_to_int64,
}
use drivechain_litwindow.SidechainMonitor.{
  Sidechain, thunder, bitnames, bitassets, truthcoin, photon, coinshift, name_of,
}
use drivechain_litwindow.SidechainMonitor.Payments.{
  validate_server_response, check_status, client_named,
}
use drivechain_litwindow.SidechainMonitor.Poll.{
  BundleTransaction, bundle_transaction, of_object, with_txid, with_amount, with_destination,
}
use drivechain_litwindow.SidechainMonitor.Outputs.{as_text-some, as_number-some}

-- The answer of a server that is validated without an error
pub validated_lem :
    (status_code : ℕ) (body : Fields)
    → validate_server_response status_code body ≡ none
    → (status_code ≡ 200) × (get_field (codes "status") body ≡ some (text (codes "success")))
unfolding validate_server_response check_status
validated_lem status_code body h = elim (Bool-cases (status_code == 200)) [
  | inr bad ↦ absurd (cc (rw bad at h))
  | inl good ↦ (
    ground arith,
    as_text-some (get_field (codes "status") body) (codes "success")
        (of_status (as_text (get_field (codes "status") body)) (rw good at h)),
  )
]
  where
    of_status : (o : Option Bytes) → check_status body o ≡ none → o ≡ some (codes "success")
    of_status none e = absurd (cc e)
    of_status (some t) e = elim (Bool-cases (same t (codes "success"))) [
      | inl same_text ↦ ap some (eq_of_same t (codes "success") same_text)
      | inr other ↦ absurd (cc (rw other at e))
    ]

with_destination_lem :
    (txid : Bytes) (bits : ℕ) (o : Option Bytes) {t : BundleTransaction}
    → with_destination txid bits o ≡ some t
    → (t.txid ≡ txid) × (t.amount ≡ float_to_int64 bits) × (o ≡ some t.destination)
unfolding with_destination
with_destination_lem txid bits none h = absurd (cc h)
with_destination_lem txid bits (some dest) {t} h = (ground arith, ground arith, ground arith)

with_amount_lem :
    (txid : Bytes) (o : Option ℕ) (fs : Fields) {t : BundleTransaction}
    → with_amount txid o fs ≡ some t
    → (t.txid ≡ txid)
      × ((bits : ℕ) × (o ≡ some bits) × (t.amount ≡ float_to_int64 bits))
      × (as_text (get_field (codes "destination") fs) ≡ some t.destination)
unfolding with_amount
with_amount_lem txid none fs h = absurd (cc h)
with_amount_lem txid (some bits) fs h =
    let (id, amount, dest) =
      with_destination_lem txid bits (as_text (get_field (codes "destination") fs)) h in
    (id, (bits, refl, amount), dest)

with_txid_lem :
    (o : Option Bytes) (fs : Fields) {t : BundleTransaction}
    → with_txid o fs ≡ some t
    → (o ≡ some t.txid)
      × ((bits : ℕ) × (as_number (get_field (codes "amount") fs) ≡ some bits)
          × (t.amount ≡ float_to_int64 bits))
      × (as_text (get_field (codes "destination") fs) ≡ some t.destination)
unfolding with_txid
with_txid_lem none fs h = absurd (cc h)
with_txid_lem (some txid) fs h =
    let (id, amount, dest) =
      with_amount_lem txid (as_number (get_field (codes "amount") fs)) fs h in
    (ap some (sym id), amount, dest)

-- The text, the number and the text that a transaction of a bundle has
pub bundle_transaction_lem :
    (tx : Json) {t : BundleTransaction}
    → bundle_transaction tx ≡ some t
    → (fs : Fields) × (tx ≡ object fs)
      × (get_field (codes "txid") fs ≡ some (text t.txid))
      × ((bits : ℕ) × (get_field (codes "amount") fs ≡ some (number bits))
          × (t.amount ≡ float_to_int64 bits))
      × (get_field (codes "destination") fs ≡ some (text t.destination))
unfolding bundle_transaction of_object as_object
bundle_transaction_lem (object fs) {t} h =
    let (id, (bits, n, amount), dest) =
      with_txid_lem (as_text (get_field (codes "txid") fs)) fs h in
    (fs, refl, as_text-some _ _ id, (bits, as_number-some _ _ n, amount), as_text-some _ _ dest)
bundle_transaction_lem tx {t} h = absurd (cc h)

pub client_named-name_of : (sc : Sidechain) → client_named (name_of sc) ≡ some sc
unfolding client_named name_of same
client_named-name_of thunder = refl
client_named-name_of bitnames = refl
client_named-name_of bitassets = refl
client_named-name_of truthcoin = refl
client_named-name_of photon = refl
client_named-name_of coinshift = refl

pub as_array-some : (o : Option Json) (txs : Items) → as_array o ≡ some txs → o ≡ some (array txs)
unfolding as_array
as_array-some o txs h = ground arith
