-- ===== src/SidechainMonitor/Broadcasts.antt =====
-- How often a detected withdrawal is broadcast to the user.
use drivechain_litwindow.Prelude.{
  ℕ, suc, ◌+◌, ◌≤◌, ◌<◌, ◌≡◌, ◌∙◌, refl, Bool, true, false, not, some, List, [], ◌∷◌, Bytes, same,
  same_refl, eq_of_same, arith, if◌then◌else◌, Bool-cases, ltb, inl, inr,
}
use drivechain_litwindow.Prelude.Maps.{
  Entries, lookup, has, insert, keep_entries, lookup-insert, Distinct, has-keep_entries,
}
use drivechain_litwindow.SidechainMonitor.{
  DetectedWithdrawal, SidechainWithdrawalEvent, Network, Monitor, asked,
  register_pending_fast_withdrawal, is_old, hour, event_of, remove_pending, cleanup_old_withdrawals,
  broadcast, store_withdrawal,
}
use drivechain_litwindow.SidechainMonitor.Payments.{post_payment}
use drivechain_litwindow.SidechainMonitor.Steps.{
  Step-calls, Step, asks, registers, stores, cleans, pays, removes, Reach, here, next, IsWellFormed,
}

-- the number of events of a transaction
unfoldable pub count_events : Bytes → List SidechainWithdrawalEvent → ℕ
count_events txid [] = 0
count_events txid (e ∷ es) =
    if same e.txid txid then suc (count_events txid es) else count_events txid es

lookup-keep_entries :
    (p : Bytes → DetectedWithdrawal → Bool) (k : Bytes) (m : Entries DetectedWithdrawal)
    (w : DetectedWithdrawal)
    → lookup k m ≡ some w
    → p k w ≡ true
    → lookup k (keep_entries p m) ≡ some w
lookup-keep_entries p k [] w h q = cc
lookup-keep_entries p k ((j, v) ∷ m) w h q =
    ground (arith, lookup-keep_entries p k m w, eq_of_same j k)

has_of_lookup :
    (k : Bytes) (m : Entries DetectedWithdrawal) (w : DetectedWithdrawal)
    → lookup k m ≡ some w
    → has k m ≡ true
has_of_lookup k [] w h = cc
has_of_lookup k ((j, v) ∷ m) w h = ground (arith, has_of_lookup k m w)

has-same :
    (k : Bytes) (m : Entries DetectedWithdrawal) (j : Bytes)
    → has j m ≡ false
    → has k m ≡ true
    → same j k ≡ false
has-same k m j h q = ground (arith, eq_of_same j k)

-- What the state says of a transaction that has been detected: its record and its events.
record Stays (txid : Bytes) (w : DetectedWithdrawal) (s t : Monitor) : Type 0 where
  found : lookup txid t.detected ≡ some w
  told : count_events txid t.broadcasts ≡ count_events txid s.broadcasts
  later : s.calls ≤ t.calls

-- The clock of the calls that have been made shows no time more than an hour after the detection.
abbrev pub WithinAnHour : Network → DetectedWithdrawal → Monitor → Type 0
WithinAnHour net w t = (n : ℕ) → n < t.calls → net.now n ≤ w.detected_at + hour

store-Stays :
    (net : Network) (txid : Bytes) (w v : DetectedWithdrawal) (s : Monitor)
    → lookup txid s.detected ≡ some w
    → has v.txid s.detected ≡ false
    → Stays txid w s (broadcast net v (record s { detected = insert v.txid v s.detected }))
unfolding broadcast asked event_of count_events
store-Stays net txid w v s h new =
    let other : same v.txid txid ≡ false =
      has-same txid s.detected v.txid new (has_of_lookup txid s.detected w h) in
    ground (arith, lookup-insert v.txid txid v s.detected)

Step-Stays :
    {net : Network} {s t : Monitor} (txid : Bytes) (w : DetectedWithdrawal)
    → Step net s t
    → lookup txid s.detected ≡ some w
    → WithinAnHour net w t
    → Stays txid w s t
unfolding asked register_pending_fast_withdrawal store_withdrawal cleanup_old_withdrawals
    post_payment remove_pending is_old
Step-Stays txid w (asks s) h c = ground arith
Step-Stays txid w (registers p s) h c = ground arith
Step-Stays {net} txid w (stores v s) h c = elim (Bool-cases (has v.txid s.detected)) [
  | inl old ↦ rw old (record { found = h; told = refl; later = omega arith })
  | inr new ↦ rw new (store-Stays net txid w v s h new)
]
Step-Stays {net} txid w (cleans s) h c = record {
  found = lookup-keep_entries _ txid s.detected w h (ground (arith, c s.calls));
  told = refl;
  later = omega arith;
}
Step-Stays txid w (pays p s) h c = ground arith
Step-Stays txid w (removes p n s a) h c = ground arith

Reach-Stays :
    {net : Network} {s t : Monitor} (txid : Bytes) (w : DetectedWithdrawal)
    → Reach net s t
    → lookup txid s.detected ≡ some w
    → WithinAnHour net w t
    → Stays txid w s t
Reach-Stays txid w here h c = record { found = h; told = refl; later = omega arith }
Reach-Stays txid w (next r st) h c =
    let before = Reach-Stays txid w r h (λ n lt. c n (omega (arith, Step-calls st))) in
    let after = Step-Stays txid w st before.found c in
    record {
      found = after.found;
      told = after.told ∙ before.told;
      later = omega (arith, before.later, after.later);
    }

-- While no more than an hour has passed since a withdrawal was detected, its record stays as it is and no second event is broadcast for its transaction, whatever the loops and requests do and in whatever order.
pub broadcast_once :
    {net : Network} {s t : Monitor} (txid : Bytes) (w : DetectedWithdrawal)
    → Reach net s t
    → lookup txid s.detected ≡ some w
    → WithinAnHour net w t
    → (lookup txid t.detected ≡ some w)
      × (count_events txid t.broadcasts ≡ count_events txid s.broadcasts)
broadcast_once txid w r h c = let stays = Reach-Stays txid w r h c in (stays.found, stays.told)

has-keep_entries-false :
    (p : Bytes → DetectedWithdrawal → Bool) (k : Bytes) (m : Entries DetectedWithdrawal)
    (w : DetectedWithdrawal)
    → Distinct m
    → lookup k m ≡ some w
    → p k w ≡ false
    → has k (keep_entries p m) ≡ false
has-keep_entries-false p k [] w d h q = refl
has-keep_entries-false p k ((j, v) ∷ m) w d h q =
    ground (arith, has-keep_entries-false p k m w, eq_of_same j k, has-keep_entries p k m)

-- An event is broadcast again for a withdrawal that the sidechain still lists: once the clock is more than an hour past its detection, a cleanup forgets it, and when it is seen next it is broadcast as a new one.
pub broadcast_again :
    (net : Network) (w v : DetectedWithdrawal) (s : Monitor)
    → net.has_notification_engine ≡ true
    → IsWellFormed s
    → lookup w.txid s.detected ≡ some w
    → w.detected_at + hour < net.now s.calls
    → v.txid ≡ w.txid
    → count_events w.txid (store_withdrawal net v (cleanup_old_withdrawals net s)).broadcasts
      ≡ suc (count_events w.txid s.broadcasts)
unfolding store_withdrawal cleanup_old_withdrawals broadcast asked event_of count_events is_old
broadcast_again net w v s on wf h old e = ground (
  arith,
  has-keep_entries-false (λ txid u. not (ltb (u.detected_at + hour) (net.now s.calls))) w.txid
      s.detected w wf.detected_once,
  same_refl w.txid,
)
