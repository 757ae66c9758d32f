-- ===== src/SidechainMonitor/Cleanup.antt =====
-- How long the monitor remembers a withdrawal.
use drivechain_litwindow.Prelude.{ℕ, zero, suc, ◌+◌, ◌-◌, ◌%◌, ◌≤◌, ◌<◌, ◌≡◌, true, arith, ◌==◌}
use drivechain_litwindow.Prelude.Maps.{AllEntries, keep_entries-true}
use drivechain_litwindow.SidechainMonitor.{
  Sidechain, Network, Monitor, is_old, hour, asked, cleanup_old_withdrawals,
}
use drivechain_litwindow.SidechainMonitor.Poll.{monitor, cleanup_at, poll, polls}
use drivechain_litwindow.SidechainMonitor.Steps.{Reach-calls}
use drivechain_litwindow.SidechainMonitor.Runs.{monitor-Reach}

-- After a turn that began at a state, no withdrawal is kept that had been known for more than an hour at a time that the clock showed in that turn.
abbrev pub IsRecentSince : Network → Monitor → Monitor → Type 0
IsRecentSince net s t =
    (k : ℕ) × (s.calls ≤ k)
    × (k < t.calls)
    × AllEntries (λ txid w. net.now k ≤ w.detected_at + hour) t.detected

cleanup-IsRecentSince :
    (net : Network) (s t : Monitor)
    → s.calls ≤ t.calls
    → IsRecentSince net s (cleanup_old_withdrawals net t)
unfolding cleanup_old_withdrawals is_old asked
cleanup-IsRecentSince net s t h =
    (t.calls, h, omega arith, keep_entries-true _ _ (λ txid w h. ground arith) t.detected)

poll-IsRecentSince :
    (net : Network) (sc : Sidechain) (count : ℕ) (s : Monitor)
    → ((count + 1) % 60 == 0) ≡ true
    → IsRecentSince net s (poll net sc count s).0
unfolding poll cleanup_at
poll-IsRecentSince net sc count s h = rw h (
    cleanup-IsRecentSince net s (monitor net sc s).0
      (Reach-calls {net = net} {t = (monitor net sc s).0} (monitor-Reach sc s)))

polls-suc :
    (net : Network) (sc : Sidechain) (n count : ℕ) (s : Monitor)
    → polls net sc (suc n) count s ≡ (poll net sc (count + n) (polls net sc n count s)).0
unfolding polls
polls-suc net sc zero count s = let e : count + 0 ≡ count = omega arith in rw e
polls-suc net sc (suc n) count s =
    let e : count + suc n ≡ count + 1 + n = omega arith in
    rw e (polls-suc net sc n (count + 1) (poll net sc count s).0)

-- Within any 60 turns of a sidechain's loop comes one after which no withdrawal is kept that had been known for more than an hour at a time that the clock showed in that turn.
pub polls_forget :
    (net : Network) (sc : Sidechain) (count : ℕ) (s : Monitor)
    → (n : ℕ) × (n < 60) × IsRecentSince net (polls net sc n count s) (polls net sc (suc n) count s)
polls_forget net sc count s =
    let n : ℕ = 59 - count % 60 in
    (
      n,
      omega arith,
      rw (polls-suc net sc n count s)
          (poll-IsRecentSince net sc (count + n) (polls net sc n count s) (ground arith)),
    )
