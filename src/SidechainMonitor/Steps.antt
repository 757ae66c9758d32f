-- ===== src/SidechainMonitor/Steps.antt =====
-- The critical sections of the monitor as a step relation: the six loops and the requests take the
-- lock one after another, in any order. A step is a section of the code on any of its arguments.
use drivechain_litwindow.Prelude.{ℕ, ◌≤◌, ◌≡◌, refl, none, some, arith, Bool-cases, inl, inr}
use drivechain_litwindow.Prelude.Maps.{
  has, Distinct, AllEntries, insert-Distinct, keep_entries-Distinct, insert-AllEntries,
  keep_entries-AllEntries,
}
use drivechain_litwindow.SidechainMonitor.Json.{Fields, unmarshal_map}
use drivechain_litwindow.SidechainMonitor.{
  DetectedWithdrawal, PendingFastWithdrawal, Payment, Response, Network, Monitor, asked,
  register_pending_fast_withdrawal, remove_pending, cleanup_old_withdrawals, broadcast,
  store_withdrawal,
}
use drivechain_litwindow.SidechainMonitor.Payments.{post_payment, validate_server_response}

-- The server accepted a payment at the call of a number: status 200, and a body that says so.
pub record IsAccepted (net : Network) (n : ℕ) (p : Payment) : Type 0 where
  pub response : Response
  pub body : Fields
  pub was_answered : net.post n p ≡ some response
  pub was_decoded : unmarshal_map response.body ≡ some body
  pub was_valid : validate_server_response response.status_code body ≡ none

pub data Step (net : Network) : Monitor → Monitor → Type 0 where
  asks : (s : Monitor) → Step net s (asked s)
  registers :
      (p : PendingFastWithdrawal) (s : Monitor) → Step net s (register_pending_fast_withdrawal p s)
  stores : (w : DetectedWithdrawal) (s : Monitor) → Step net s (store_withdrawal net w s)
  cleans : (s : Monitor) → Step net s (cleanup_old_withdrawals net s)
  pays : (p : Payment) (s : Monitor) → Step net s (post_payment net p s)
  removes :
      (p : Payment) (n : ℕ) (s : Monitor)
      → IsAccepted net n p
      → Step net s (remove_pending p.hash s)

pub data Reach (net : Network) (s : Monitor) : Monitor → Type 0 where
  here : Reach net s s
  next : {t u : Monitor} → Reach net s t → Step net t u → Reach net s u

pub trans : {net : Network} {s t u : Monitor} → Reach net s t → Reach net t u → Reach net s u
trans r here = r
trans r (next q st) = next (trans r q) st

-- Calls are only made.
pub Step-calls : {net : Network} {s t : Monitor} → Step net s t → s.calls ≤ t.calls
unfolding asked register_pending_fast_withdrawal store_withdrawal cleanup_old_withdrawals
    post_payment remove_pending broadcast
Step-calls (asks s) = omega arith
Step-calls (registers p s) = omega arith
Step-calls (stores v s) = ground arith
Step-calls (cleans s) = omega arith
Step-calls (pays p s) = omega arith
Step-calls (removes p n s a) = omega arith

pub Reach-calls : {net : Network} {s t : Monitor} → Reach net s t → s.calls ≤ t.calls
Reach-calls here = omega arith
Reach-calls (next r st) = omega (arith, Reach-calls r, Step-calls st)

-- Both maps are maps, and every entry stands under its own transaction or hash.
pub record IsWellFormed (s : Monitor) : Type 0 where
  pub detected_once : Distinct s.detected
  pub pending_once : Distinct s.pending
  pub detected_keyed : AllEntries (λ txid w. w.txid ≡ txid) s.detected
  pub pending_keyed : AllEntries (λ hash p. p.hash ≡ hash) s.pending

broadcast-IsWellFormed :
    (net : Network) (w : DetectedWithdrawal) (s : Monitor)
    → IsWellFormed s
    → IsWellFormed (broadcast net w s)
unfolding broadcast asked
broadcast-IsWellFormed net w s h = ground arith

Step-IsWellFormed : {net : Network} {s t : Monitor} → Step net s t → IsWellFormed s → IsWellFormed t
unfolding asked register_pending_fast_withdrawal store_withdrawal cleanup_old_withdrawals
    post_payment remove_pending
Step-IsWellFormed (asks s) h = ground arith
Step-IsWellFormed (registers p s) h = record {
  detected_once = h.detected_once;
  pending_once = insert-Distinct p.hash p s.pending h.pending_once;
  detected_keyed = h.detected_keyed;
  pending_keyed = insert-AllEntries _ p.hash p s.pending refl h.pending_keyed;
}
Step-IsWellFormed {net} (stores w s) h = elim (Bool-cases (has w.txid s.detected)) [
  | inl old ↦ rw old h
  | inr new ↦ rw new (
      broadcast-IsWellFormed net w _ (record {
        detected_once = insert-Distinct w.txid w s.detected h.detected_once;
        pending_once = h.pending_once;
        detected_keyed = insert-AllEntries _ w.txid w s.detected refl h.detected_keyed;
        pending_keyed = h.pending_keyed;
      }))
]
Step-IsWellFormed (cleans s) h = record {
  detected_once = keep_entries-Distinct _ s.detected h.detected_once;
  pending_once = h.pending_once;
  detected_keyed = keep_entries-AllEntries _ _ s.detected h.detected_keyed;
  pending_keyed = h.pending_keyed;
}
Step-IsWellFormed (pays p s) h = ground arith
Step-IsWellFormed (removes p n s a) h = record {
  detected_once = h.detected_once;
  pending_once = keep_entries-Distinct _ s.pending h.pending_once;
  detected_keyed = h.detected_keyed;
  pending_keyed = keep_entries-AllEntries _ _ s.pending h.pending_keyed;
}

-- However the loops and the requests interleave, no transaction and no hash stands twice in the monitor's maps, and every entry stands under its own transaction or hash.
pub Reach-IsWellFormed :
    {net : Network} {s t : Monitor} → Reach net s t → IsWellFormed s → IsWellFormed t
Reach-IsWellFormed here h = h
Reach-IsWellFormed (next r st) h = Step-IsWellFormed st (Reach-IsWellFormed r h)
