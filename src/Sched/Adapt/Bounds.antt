-- ===== src/Sched/Adapt/Bounds.antt =====
-- What the adaptive priorities keep: bounds, the time slice of the priority, the exact average.
use cgos.Base.{
  ℕ, zero, suc, ◌+◌, ◌*◌, ◌/◌, ◌%◌, ◌^◌, ◌<◌, ◌≤◌, ◌≡◌, ◌≢◌, inl, inr, ap, ◌∙◌, true, ◌||◌, List,
  [], ◌∷◌, ◌==◌, set, length, length-set, arith, Bool-cases,
}
use cgos.Sched.Thread.{Thread, priority_levels, cpu_history_samples, calculate_time_slice}
use cgos.Sched.State.{Sched, points_to}
use cgos.Sched.Adapt.{sum_history, update_cpu_usage, change_of, apply_change, adjust_priority}

abbrev pub sum : List ℕ → ℕ
sum [] = 0
sum (x ∷ xs) = x + sum xs

abbrev pub AllLe : ℕ → List ℕ → Type 0
AllLe n [] = Unit
AllLe n (x ∷ xs) = (x ≤ n) × AllLe n xs

sum-le : (n : ℕ) (xs : List ℕ) → AllLe n xs → sum xs ≤ n * length xs
sum-le n [] h = omega arith
sum-le n (x ∷ xs) h = let ih = sum-le n xs h.1 in omega arith

set-AllLe : (n : ℕ) (xs : List ℕ) (i v : ℕ) → AllLe n xs → v ≤ n → AllLe n (set xs i v)
set-AllLe n [] i v h hv = tt
set-AllLe n (x ∷ xs) zero v h hv = (hv, h.1)
set-AllLe n (x ∷ xs) (suc i) v h hv = (h.0, set-AllLe n xs i v h.1 hv)

sum_history-eq : (acc : ℕ) (xs : List ℕ) → acc + sum xs < 2 ^ 16 → sum_history acc xs ≡ acc + sum xs
unfolding sum_history
sum_history-eq acc [] h = omega arith
sum_history-eq acc (x ∷ xs) h =
    let e : (acc + x) % 2 ^ 16 ≡ acc + x = omega arith in
    rw e (sum_history-eq (acc + x) xs (omega arith) ∙ omega arith)

-- What holds of a thread's usage history between two samples.
pub record IsSampled (t : Thread) : Type 0 where
  pub samples : length t.cpu_usage_history ≡ cpu_history_samples
  pub bounded : AllLe 255 t.cpu_usage_history
  pub index : t.history_index < cpu_history_samples

-- A sample (a byte) is recorded at the index, which goes round; the average is that of the eight
-- samples exactly, rounded down, and no greater than a bound on all of them.
pub update_cpu_usage-IsSampled :
    (t : Thread) (usage n : ℕ)
    → IsSampled t
    → usage ≤ 255
    → AllLe n (set t.cpu_usage_history t.history_index usage)
    → let t' : Thread = update_cpu_usage t usage in
      IsSampled t'
      × (t'.avg_cpu_usage
          ≡ sum (set t.cpu_usage_history t.history_index usage) / cpu_history_samples)
      × (t'.avg_cpu_usage ≤ n)
unfolding update_cpu_usage
update_cpu_usage-IsSampled t usage n v hu hn =
    let xs : List ℕ = set t.cpu_usage_history t.history_index usage in
    let len : length xs ≡ cpu_history_samples =
      length-set t.cpu_usage_history t.history_index usage ∙ v.samples in
    let bytes : AllLe 255 xs =
      set-AllLe 255 t.cpu_usage_history t.history_index usage v.bounded hu in
    let small = sum-le 255 xs bytes in
    let le_n = sum-le n xs hn in
    let len8 : n * length xs ≡ n * 8 = ap (λ (k : ℕ). n * k) len in
    let exact = sum_history-eq 0 xs (omega arith) in
    (record { samples = len; bounded = bytes; index = omega arith }, omega arith, omega arith)

-- What holds of a thread's priority and time slice.
pub record IsPlaced (t : Thread) : Type 0 where
  pub above : t.base_priority ≤ t.priority
  pub below : t.priority < priority_levels
  pub slice : t.time_slice_length ≡ calculate_time_slice t.priority

pub record IsAdjusted (old new : Thread) : Type 0 where
  pub placed : IsPlaced new
  pub up : new.priority ≤ old.priority + 1
  pub down : old.priority ≤ new.priority + 1
  pub same_base : new.base_priority ≡ old.base_priority
  pub same_state : new.state ≡ old.state
  pub same_next : new.next ≡ old.next
  pub same_prev : new.prev ≡ old.prev

change-IsAdjusted : (t : Thread) → IsPlaced t → IsAdjusted t (apply_change (change_of t) t)
unfolding change_of apply_change calculate_time_slice
change-IsAdjusted t v = ground arith

same-IsAdjusted : (t : Thread) → IsPlaced t → IsAdjusted t t
same-IsAdjusted t v = ground arith

module _ (s : Sched) (t : ℕ) where
  abbrev adjusted : Thread
  adjusted = (adjust_priority s t).threads t

  -- adjust_priority keeps the priority between the base priority and PRIORITY_LEVELS and the slice
  -- length that of the priority, moves the priority by one at most, and leaves the thread's state
  -- and links alone.
  pub adjust_priority-IsAdjusted :
      IsPlaced (s.threads t) → IsAdjusted (s.threads t) ((adjust_priority s t).threads t)
  unfolding adjust_priority
  adjust_priority-IsAdjusted v =
      elim (Bool-cases (points_to s.idle_thread t || ((s.threads t).base_priority == 0))) [
        | inl e ↦ rw e (same-IsAdjusted (s.threads t) v)
        | inr e ↦
            let same : (t == t) ≡ true = ground arith in
            rw (e, same) (change-IsAdjusted (s.threads t) v)
      ]

  -- The other threads and the queues are left alone.
  pub adjust_priority-others :
      (x : ℕ)
      → x ≢ t
      → ((adjust_priority s t).threads x ≡ s.threads x)
        × ((adjust_priority s t).ready_queue_heads ≡ s.ready_queue_heads)
        × ((adjust_priority s t).ready_queue_tails ≡ s.ready_queue_tails)
        × ((adjust_priority s t).stats.threads_ready ≡ s.stats.threads_ready)
  unfolding adjust_priority
  adjust_priority-others x ne = (ground arith, ground arith, ground arith, ground arith)
