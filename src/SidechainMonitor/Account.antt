-- ===== src/SidechainMonitor/Account.antt =====
-- What accounts for the state of the monitor, in the terms of what others have answered.
pub mod Answers
pub mod Sending
pub mod Polls
pub mod Detection
use mathlib.Core.List.{Memᴰ}
use drivechain_litwindow.Prelude.{
  ℕ, ◌+◌, ◌*◌, ◌≡◌, refl, sym, ap, ◌∙◌, ◌⊎◌, inl, inr, arith, Bool, true, false, Option, none, some,
  List, [], ◌∷◌, ◌++◌, Bytes, codes, same, eq_of_same, if◌then◌else◌, Bool-cases,
}
use drivechain_litwindow.Prelude.Maps.{
  Entries, lookup, has, insert, keep_entries, erase, values, lookup-erase,
}
use drivechain_litwindow.SidechainMonitor.Json.{
  Json, text, number, array, object, Items, nil, item, Fields, RawMessage, get_field, unmarshal_map,
  unmarshal_maps, float_to_int64,
}
use drivechain_litwindow.SidechainMonitor.{
  DetectedWithdrawal, PendingFastWithdrawal, SidechainWithdrawalEvent, Payment, Response, Sidechain,
  name_of, Network, Monitor, asked, remove_pending, cleanup_old_withdrawals, event_of, broadcast,
  store_withdrawal,
}
use drivechain_litwindow.SidechainMonitor.Payments.{post_payment}
use drivechain_litwindow.SidechainMonitor.Outputs.{Pays}

-- An element of a JSON array
pub data InItems (v : Json) : Items → Type 0 where
  first : (rest : Items) → InItems v (item v rest)
  later : (u : Json) (rest : Items) → InItems v rest → InItems v (item u rest)

-- The sidechain answered with a pending bundle that lists the withdrawal.
pub record IsListed (net : Network) (sc : Sidechain) (w : DetectedWithdrawal) : Type 0 where
  pub bundle_call : ℕ
  pub clock_call : ℕ
  pub raw : RawMessage
  pub bundle : Fields
  pub transactions : Items
  pub transaction : Fields
  pub bits : ℕ
  pub answered : net.pending_withdrawal_bundle bundle_call sc ≡ some raw
  pub decoded : unmarshal_map raw ≡ some bundle
  pub lists : get_field (codes "transactions") bundle ≡ some (array transactions)
  pub member : InItems (object transaction) transactions
  pub txid : get_field (codes "txid") transaction ≡ some (text w.txid)
  pub number_of : get_field (codes "amount") transaction ≡ some (number bits)
  pub amount : w.amount ≡ float_to_int64 bits
  pub destination : get_field (codes "destination") transaction ≡ some (text w.destination)
  pub sidechain : w.sidechain ≡ name_of sc
  pub time : w.detected_at ≡ net.now clock_call

-- A payment reports a pending withdrawal of the sidechain, and a transaction with an unspent output
-- of the sidechain that pays it.
pub record IsReport (net : Network) (sc : Sidechain) (pending : List PendingFastWithdrawal)
    (q : Payment) : Type 0 where
  pub withdrawal : PendingFastWithdrawal
  pub was_pending : Memᴰ withdrawal pending
  pub of_sidechain : withdrawal.sidechain ≡ name_of sc
  pub to_server : q.url ≡ withdrawal.server_url ++ codes "/paid"
  pub of_hash : q.hash ≡ withdrawal.hash
  pub call : ℕ
  pub raw : RawMessage
  pub outputs : List Fields
  pub output : Fields
  pub answered : net.list_utxos call sc ≡ some raw
  pub decoded : unmarshal_maps raw ≡ some outputs
  pub listed : Memᴰ output outputs
  pub pays : Pays withdrawal.server_address withdrawal.expected_amount q.txid output

-- A payment with the hash was sent, and the server answered it with status 200 and "success".
pub record IsSettled (net : Network) (hash : Bytes) (sent : List Payment) : Type 0 where
  pub payment : Payment
  pub of_hash : payment.hash ≡ hash
  pub was_sent : Memᴰ payment sent
  pub call : ℕ
  pub response : Response
  pub body : Fields
  pub answered : net.post call payment ≡ some response
  pub status : response.status_code ≡ 200
  pub decoded : unmarshal_map response.body ≡ some body
  pub success : get_field (codes "status") body ≡ some (text (codes "success"))

-- An event tells of a listed withdrawal.
pub record Tells (net : Network) (sc : Sidechain) (e : SidechainWithdrawalEvent) : Type 0 where
  pub withdrawal : DetectedWithdrawal
  pub listed : IsListed net sc withdrawal
  pub txid : e.txid ≡ withdrawal.txid
  pub sidechain : e.sidechain ≡ withdrawal.sidechain
  pub amount : e.amount ≡ withdrawal.amount
  pub destination : e.destination ≡ withdrawal.destination

-- What one sidechain's loop has added to a monitor since it was `b`.
pub record IsAccounted (net : Network) (sc : Sidechain) (b t : Monitor) : Type 0 where
  pub detected :
      (w : DetectedWithdrawal)
      → Memᴰ w (values t.detected)
      → Memᴰ w (values b.detected) ⊎ IsListed net sc w
  pub told :
      (e : SidechainWithdrawalEvent) → Memᴰ e t.broadcasts → Memᴰ e b.broadcasts ⊎ Tells net sc e
  pub paid :
      (q : Payment) → Memᴰ q t.payments → Memᴰ q b.payments ⊎ IsReport net sc (values b.pending) q
  pub kept : (p : PendingFastWithdrawal) → Memᴰ p (values t.pending) → Memᴰ p (values b.pending)
  pub removed :
      (p : PendingFastWithdrawal) (hash : Bytes)
      → lookup hash b.pending ≡ some p
      → (lookup hash t.pending ≡ some p) ⊎ IsSettled net hash t.payments

mem-values-keep_entries :
    {V : Type 0} (p : Bytes → V → Bool) (m : Entries V) (v : V)
    → Memᴰ v (values (keep_entries p m))
    → Memᴰ v (values m)
mem-values-keep_entries p [] v h = h
mem-values-keep_entries {V} p ((k, u) ∷ m) v h = elim (Bool-cases (p k u)) [
  | inr bad ↦ Memᴰ.tail (mem-values-keep_entries p m v (rw bad at h))
  | inl good ↦ of_kept (mem-values-keep_entries p m v) (rw good at h)
]
  where
    of_kept :
        (Memᴰ v (values (keep_entries p m)) → Memᴰ v (values m))
        → Memᴰ v (u ∷ values (keep_entries p m))
        → Memᴰ v (u ∷ values m)
    of_kept rest (Memᴰ.head e) = Memᴰ.head e
    of_kept rest (Memᴰ.tail n) = Memᴰ.tail (rest n)

mem-values-insert :
    {V : Type 0} (k : Bytes) (v : V) (m : Entries V) (u : V)
    → Memᴰ u (values (insert k v m))
    → (u ≡ v) ⊎ Memᴰ u (values m)
mem-values-insert k v [] u (Memᴰ.head e) = inl e
mem-values-insert k v [] u (Memᴰ.tail n) = inr n
mem-values-insert k v ((j, w) ∷ m) u h = elim (Bool-cases (same j k)) [
  | inl here ↦ of_here (rw here at h)
  | inr elsewhere ↦ of_later (mem-values-insert k v m u) (rw elsewhere at h)
]
  where
    of_here : Memᴰ u (v ∷ values m) → (u ≡ v) ⊎ Memᴰ u (w ∷ values m)
    of_here (Memᴰ.head e) = inl e
    of_here (Memᴰ.tail n) = inr (Memᴰ.tail n)

    of_later :
        (Memᴰ u (values (insert k v m)) → (u ≡ v) ⊎ Memᴰ u (values m))
        → Memᴰ u (w ∷ values (insert k v m))
        → (u ≡ v) ⊎ Memᴰ u (w ∷ values m)
    of_later rest (Memᴰ.head e) = inr (Memᴰ.head e)
    of_later rest (Memᴰ.tail n) = elim (rest n) [ inl e ↦ inl e | inr i ↦ inr (Memᴰ.tail i) ]

IsSettled-more :
    {net : Network} {hash : Bytes} {sent : List Payment} (q : Payment)
    → IsSettled net hash sent
    → IsSettled net hash (q ∷ sent)
IsSettled-more q s = record {
  payment = s.payment;
  of_hash = s.of_hash;
  was_sent = Memᴰ.tail s.was_sent;
  call = s.call;
  response = s.response;
  body = s.body;
  answered = s.answered;
  status = s.status;
  decoded = s.decoded;
  success = s.success;
}

module _ {net : Network} {sc : Sidechain} {b : Monitor} where
  pub IsAccounted-start : IsAccounted net sc b b
  IsAccounted-start = record {
    detected = λ w m. inl m;
    told = λ e m. inl m;
    paid = λ q m. inl m;
    kept = λ p m. m;
    removed = λ p hash h. inl h;
  }

  pub IsAccounted-asked : {t : Monitor} → IsAccounted net sc b t → IsAccounted net sc b (asked t)
  unfolding asked
  IsAccounted-asked h = record {
    detected = h.detected;
    told = h.told;
    paid = h.paid;
    kept = h.kept;
    removed = h.removed;
  }

  pub IsAccounted-cleanup :
      {t : Monitor} → IsAccounted net sc b t → IsAccounted net sc b (cleanup_old_withdrawals net t)
  unfolding cleanup_old_withdrawals asked
  IsAccounted-cleanup {t} h = record {
    detected = λ w m. h.detected w (mem-values-keep_entries _ t.detected w m);
    told = h.told;
    paid = h.paid;
    kept = h.kept;
    removed = h.removed;
  }

  pub IsAccounted-if :
      (c : Bool) {t u : Monitor}
      → IsAccounted net sc b t
      → IsAccounted net sc b u
      → IsAccounted net sc b (if c then t else u)
  IsAccounted-if true h k = h
  IsAccounted-if false h k = k

  told-IsAccounted :
      (w : DetectedWithdrawal) (now : ℕ) {t : Monitor}
      → IsListed net sc w
      → IsAccounted net sc b t
      → IsAccounted net sc b (record (asked t) { broadcasts = event_of now w ∷ t.broadcasts })
  unfolding asked event_of
  told-IsAccounted w now {t} l h = record {
    detected = h.detected;
    told = λ e m. of_event e m;
    paid = h.paid;
    kept = h.kept;
    removed = h.removed;
  }
    where
      of_event :
          (e : SidechainWithdrawalEvent)
          → Memᴰ e (event_of now w ∷ t.broadcasts)
          → Memᴰ e b.broadcasts ⊎ Tells net sc e
      of_event e (Memᴰ.tail m) = h.told e m
      of_event e (Memᴰ.head q) = inr (record {
        withdrawal = w;
        listed = l;
        txid = ap (λ (x : SidechainWithdrawalEvent). x.txid) q;
        sidechain = ap (λ (x : SidechainWithdrawalEvent). x.sidechain) q;
        amount = ap (λ (x : SidechainWithdrawalEvent). x.amount) q;
        destination = ap (λ (x : SidechainWithdrawalEvent). x.destination) q;
      })

  broadcast-IsAccounted :
      (w : DetectedWithdrawal) {t : Monitor}
      → IsListed net sc w
      → IsAccounted net sc b t
      → IsAccounted net sc b (broadcast net w t)
  unfolding broadcast
  broadcast-IsAccounted w {t} l h =
      IsAccounted-if net.has_notification_engine (told-IsAccounted w (net.now t.calls) l h) h

  pub IsAccounted-store :
      (w : DetectedWithdrawal) {t : Monitor}
      → IsListed net sc w
      → IsAccounted net sc b t
      → IsAccounted net sc b (store_withdrawal net w t)
  unfolding store_withdrawal
  IsAccounted-store w {t} l h = IsAccounted-if (has w.txid t.detected) h (
      broadcast-IsAccounted w l (record {
        detected = λ u m. elim (mem-values-insert w.txid w t.detected u m) [
          | inl e ↦ inr (rw e l)
          | inr before ↦ h.detected u before
        ];
        told = h.told;
        paid = h.paid;
        kept = h.kept;
        removed = h.removed;
      }))

  pub IsAccounted-post :
      (q : Payment) {t : Monitor}
      → IsReport net sc (values b.pending) q
      → IsAccounted net sc b t
      → IsAccounted net sc b (post_payment net q t)
  unfolding post_payment asked
  IsAccounted-post q {t} r h = record {
    detected = h.detected;
    told = h.told;
    paid = of_payment;
    kept = h.kept;
    removed = λ p hash e. elim (h.removed p hash e) [
      | inl there ↦ inl there
      | inr settled ↦ inr (IsSettled-more q settled)
    ];
  }
    where
      of_payment :
          (x : Payment)
          → Memᴰ x (q ∷ t.payments)
          → Memᴰ x b.payments ⊎ IsReport net sc (values b.pending) x
      of_payment x (Memᴰ.head e) = inr (rw e r)
      of_payment x (Memᴰ.tail m) = h.paid x m

  pub IsAccounted-remove :
      (hash : Bytes) {t : Monitor}
      → IsSettled net hash t.payments
      → IsAccounted net sc b t
      → IsAccounted net sc b (remove_pending hash t)
  unfolding remove_pending
  IsAccounted-remove hash {t} s h = record {
    detected = h.detected;
    told = h.told;
    paid = h.paid;
    kept = λ p m. h.kept p (mem-values-keep_entries _ t.pending p m);
    removed = λ p k e. elim (Bool-cases (same hash k)) [
      | inl this ↦ let same_hash : hash ≡ k = eq_of_same hash k this in inr (rw (← same_hash) s)
      | inr other ↦ elim (h.removed p k e) [
        | inl there ↦ inl (rw (lookup-erase hash k t.pending, other) there)
        | inr settled ↦ inr settled
      ]
    ];
  }
