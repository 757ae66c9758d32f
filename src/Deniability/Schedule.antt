-- ===== src/Deniability/Schedule.antt =====
-- When the next hop of a plan is due.
use mathlib.Core.List.{Memᴰ}
use drivechain_litwindow.Prelude.{
  ℕ, ◌≤◌, ◌≡◌, refl, ◌↔◌, ◌⊎◌, inl, inr, true, false, none, some, List, [], ◌∷◌, length, ltb,
  if◌then◌else◌, arith, All, Bool-cases,
}
use drivechain_litwindow.Prelude.Int.{ℤ, pos, ◌+ℤ◌, ltb_ℤ}
use drivechain_litwindow.Deniability.{
  Denial, ExecutedDenial, is_none, to_int32, uniq_by_txid, max_by_time, latest_time, last_execution,
  next_execution,
}

-- A plan that is neither cancelled nor paused, and has done fewer hops than it is to do: a hop is a
-- transaction, however many outputs were recorded for it.
pub record IsActive (denial : Denial) (executions : List ExecutedDenial) : Type 0 where
  pub not_cancelled : denial.cancelled_at ≡ none
  pub not_paused : denial.paused_at ≡ none
  pub unfinished : ltb_ℤ (to_int32 (length (uniq_by_txid [] executions))) denial.num_hops ≡ true

-- The time from which the delay runs: that of the latest execution, or of the plan without one.
pub record IsLatest (denial : Denial) (executions : List ExecutedDenial) (t : ℕ) : Type 0 where
  pub none_later : All (λ (e : ExecutedDenial). e.created_at ≤ t) executions
  pub is_one :
      ((executions ≡ []) × (t ≡ denial.created_at))
      ⊎ ((e : ExecutedDenial) × Memᴰ e executions × (e.created_at ≡ t))

max_by_time-max :
    (best : ExecutedDenial) (es : List ExecutedDenial)
    → (best.created_at ≤ (max_by_time best es).created_at)
      × All (λ (e : ExecutedDenial). e.created_at ≤ (max_by_time best es).created_at) es
unfolding max_by_time
max_by_time-max best [] = (omega arith, tt)
max_by_time-max best (e ∷ es) =
    let next = if ltb best.created_at e.created_at then e else best in
    let (above, all) = max_by_time-max next es in
    (ground (arith, above), (ground (arith, above), all))

max_by_time-member :
    (best : ExecutedDenial) (es : List ExecutedDenial) → Memᴰ (max_by_time best es) (best ∷ es)
unfolding max_by_time
max_by_time-member best [] = Memᴰ.head refl
max_by_time-member best (e ∷ es) = elim (Bool-cases (ltb best.created_at e.created_at)) [
  | inl later ↦ rw later (Memᴰ.tail (max_by_time-member e es))
  | inr other ↦ rw other (skip (max_by_time-member best es))
]
  where
    skip : {x : ExecutedDenial} → Memᴰ x (best ∷ es) → Memᴰ x (best ∷ e ∷ es)
    skip (Memᴰ.head p) = Memᴰ.head p
    skip (Memᴰ.tail m) = Memᴰ.tail (Memᴰ.tail m)

latest_time-IsLatest :
    (denial : Denial) (es : List ExecutedDenial)
    → IsLatest denial es (latest_time denial.created_at es)
unfolding latest_time
latest_time-IsLatest denial [] = record { none_later = tt; is_one = inl (refl, refl) }
latest_time-IsLatest denial (e ∷ es) = record {
  none_later = max_by_time-max e es;
  is_one = inr (max_by_time e es, max_by_time-member e es, refl);
}

-- A plan has a next execution exactly if it is not cancelled, not paused, and has fewer executed transactions than hops.
pub next_execution-IsActive :
    (denial : Denial) (executions : List ExecutedDenial)
    → (is_none (next_execution denial executions) ≡ false) ↔ IsActive denial executions
unfolding next_execution last_execution
next_execution-IsActive denial executions = (
  λ h. record {
    not_cancelled = ground arith;
    not_paused = ground arith;
    unfinished = ground arith;
  },
  λ h. ground (arith, h.not_cancelled, h.not_paused, h.unfinished),
)

-- The next execution of a plan comes its delay after its latest execution, or after the plan was made if it has none.
pub next_execution-IsLatest :
    (denial : Denial) (executions : List ExecutedDenial) {t : ℤ}
    → next_execution denial executions ≡ some t
    → (last : ℕ) × IsLatest denial executions last × (t ≡ pos last +ℤ denial.delay_duration)
unfolding next_execution last_execution
next_execution-IsLatest denial executions {t} h =
    (latest_time denial.created_at executions, latest_time-IsLatest denial executions, ground arith)
