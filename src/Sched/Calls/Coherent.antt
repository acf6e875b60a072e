-- ===== src/Sched/Calls/Coherent.antt =====
-- The scheduler's calls keep the queues, and run a thread of the highest priority that is ready.
use cgos.Base.{
  ℕ, ◌<◌, ◌≡◌, refl, sym, ap, subst, ◌∙◌, Bool, true, false, Option, none, some, List, [], ◌∷◌,
  arith, ◌==◌, if◌then◌else◌, Bool-cases, inl, inr, ℕ_discrete,
}
use cgos.Sched.Thread.{ThreadState, running, priority_levels}
use cgos.Sched.State.{Sched, update, points_to}
use cgos.Sched.Ready.{take_head, pick_next_thread}
use cgos.Sched.Ready.Linked.{occurs, Distinct}
use cgos.Sched.Ready.Spec.{IsQueued, IsQueued-frame, one_queue}
use cgos.Sched.Ready.Dequeue.{
  Picked, idle, first, pick_next_thread-Picked, after-fields as take-fields,
}
use cgos.Sched.Calls.{switch_to, switch_picked, schedule}

-- Every thread has a valid priority.
abbrev pub ArePlaced : Sched → Type 0
ArePlaced s = (x : ℕ) → (s.threads x).priority < priority_levels

-- The thread is in no ready queue.
abbrev pub IsAway : (ℕ → List ℕ) → ℕ → Type 0
IsAway q x = (p : ℕ) → p < priority_levels → occurs x (q p) ≡ false

-- The queues hold their lists, the current thread `c` is in none of them, and no thread of a
-- higher priority waits.
pub record IsRunning (s : Sched) (q : ℕ → List ℕ) (c : ℕ) : Type 0 where
  pub queued : IsQueued s q
  pub placed : ArePlaced s
  pub current : s.current_thread ≡ some c
  pub away : IsAway q c
  pub best : (k : ℕ) → k < (s.threads c).priority → k < priority_levels → q k ≡ []

-- A call that did not fault, after which the thread `c` runs and the queues hold the lists `q`.
pub record Runs (q : ℕ → List ℕ) (c : ℕ) (o : Option Sched) : Type 0 where
  pub state : Sched
  pub returned : o ≡ some state
  pub runs : IsRunning state q c

-- The choice of the next thread, if the queues hold the lists `q`: the idle thread where all are
-- empty, else the first thread of the highest priority that has one, which leaves its queue.
pub data Chooses (q : ℕ → List ℕ) (i : ℕ) (o : Option Sched) : Type 0 where
  idled : ((p : ℕ) → p < priority_levels → q p ≡ []) → Runs q i o → Chooses q i o
  chosen :
      (p x : ℕ) (xs : List ℕ)
      → p < priority_levels
      → ((k : ℕ) → k < p → q k ≡ [])
      → q p ≡ x ∷ xs
      → Runs (update q p xs) x o
      → Chooses q i o

module _ (s : Sched) (x now : ℕ) where
  switch-fields :
      (y : ℕ)
      → (((switch_to s x now).threads y).next ≡ (s.threads y).next)
        × (((switch_to s x now).threads y).prev ≡ (s.threads y).prev)
        × (((switch_to s x now).threads y).priority ≡ (s.threads y).priority)
        × (((switch_to s x now).threads y).state ≡ (
            if points_to s.current_thread x
            then (s.threads y).state
            else if x == y
            then running
            else (s.threads y).state))
  unfolding switch_to
  switch-fields y = elim (Bool-cases (points_to s.current_thread x)) [
    | inl e ↦ rw e (refl, refl, refl, refl)
    | inr e ↦ rw e (ground arith, ground arith, ground arith, ground arith)
  ]

  switch-same :
      ((switch_to s x now).ready_queue_heads ≡ s.ready_queue_heads)
      × ((switch_to s x now).ready_queue_tails ≡ s.ready_queue_tails)
      × ((switch_to s x now).stats.threads_ready ≡ s.stats.threads_ready)
  unfolding switch_to
  switch-same = elim (Bool-cases (points_to s.current_thread x)) [
    | inl e ↦ rw e (refl, refl, refl)
    | inr e ↦ rw e (refl, refl, refl)
  ]

  switch-current : (switch_to s x now).current_thread ≡ some x
  unfolding switch_to
  switch-current = go s.current_thread refl
    where
      go : (o : Option ℕ) → s.current_thread ≡ o → (switch_to s x now).current_thread ≡ some x
      go none e = ground arith
      go (some c) e = ground arith

  switch-IsRunning :
      (q : ℕ → List ℕ)
      → IsQueued s q
      → ArePlaced s
      → IsAway q x
      → ((k : ℕ) → k < (s.threads x).priority → k < priority_levels → q k ≡ [])
      → IsRunning (switch_to s x now) q x
  switch-IsRunning q iq placed away best = record {
    queued =
        IsQueued-frame s (switch_to s x now) q switch-same.0 switch-same.1 switch-same.2
          (λ p y lt o.
            let f = switch-fields y in
            let ne : (x == y) ≡ false = other p y lt o in
            (
              f.0,
              f.1,
              f.2,
              f.3 ∙ rw ne (same_if (points_to s.current_thread x) (s.threads y).state),
            ))
          iq;
    placed = λ y. rw ((switch-fields y).2) (placed y);
    current = switch-current;
    away = away;
    best = λ k lt. best k (rw ((switch-fields x).2) at lt);
  }
    where
      same_if : (b : Bool) (st : ThreadState) → (if b then st else st) ≡ st
      same_if true st = refl
      same_if false st = refl

      other : (p y : ℕ) → p < priority_levels → occurs y (q p) ≡ true → (x == y) ≡ false
      other p y lt o = elim (ℕ_discrete x y) [
        | yes e ↦ absurd (
            let a = away p lt in
            let o' : occurs x (q p) ≡ true = subst (λ k. occurs k (q p) ≡ true) (sym e) o in cc)
        | no ne ↦ ground arith
      ]

-- The threads that the queue's first thread leaves behind.
module _ (s : Sched) (q : ℕ → List ℕ) (p x : ℕ) (xs : List ℕ) (iq : IsQueued s q)
    (lt : p < priority_levels) (here : q p ≡ x ∷ xs) where
  in_own : occurs x (q p) ≡ true
  in_own = rw here (ground arith)

  taken-IsAway : IsAway (update q p xs) x
  taken-IsAway k ltk = elim (ℕ_discrete p k) [
    | yes e ↦
        let same : (p == k) ≡ true = ground arith in
        let d : Distinct (x ∷ xs) = subst (λ l. Distinct l) here (iq.distinct p lt) in rw same d.0
    | no ne ↦
        let other : (p == k) ≡ false = ground arith in
        rw other (one_queue s q iq p k x lt ltk ne in_own)
  ]

  taken_placed : ArePlaced s → ArePlaced (take_head s p x)
  unfolding take_head
  taken_placed placed y = rw ((take-fields s.threads x (s.threads x).next y).0) (placed y)

  taken_priority : ((take_head s p x).threads x).priority ≡ p
  unfolding take_head
  taken_priority = (take-fields s.threads x (s.threads x).next x).0 ∙ iq.level p x lt in_own

  taken_best :
      ((k : ℕ) → k < p → q k ≡ [])
      → (k : ℕ) → k < ((take_head s p x).threads x).priority
      → k < priority_levels
      → update q p xs k ≡ []
  taken_best below k ltk lv =
      let ltp : k < p = rw taken_priority at ltk in
      let other : (p == k) ≡ false = ground arith in rw other (below k ltp)

picked :
    (s : Sched) (now : ℕ) {r : Option ℕ × Sched}
    → pick_next_thread s ≡ r
    → schedule s now ≡ switch_picked r now
unfolding schedule
picked s now e = ap (λ r. switch_picked r now) e

switched : (s : Sched) (x now : ℕ) → switch_picked (some x, s) now ≡ some (switch_to s x now)
unfolding switch_picked
switched s x now = refl

-- From queues that are in order, and with an idle thread, the scheduler goes on to run the first
-- thread of the highest priority that has one, or else the idle thread.
pub schedule-Chooses :
    (s : Sched) (q : ℕ → List ℕ) (now i : ℕ)
    → IsQueued s q
    → ArePlaced s
    → s.idle_thread ≡ some i
    → Chooses q i (schedule s now)
schedule-Chooses s q now i iq placed idles = go (pick_next_thread-Picked s q iq)
  where
    go : Picked s q (pick_next_thread s) → Chooses q i (schedule s now)
    go (idle empty e) = idled empty record {
      state = switch_to s i now;
      returned = picked s now (e ∙ ap (λ o. (o, s)) idles) ∙ switched s i now;
      runs = switch-IsRunning s i now q iq placed (λ p lt. rw (empty p lt)) (λ k lt lv. empty k lv);
    }
    go (first p x xs lt below here e iq') = chosen p x xs lt below here record {
      state = switch_to (take_head s p x) x now;
      returned = picked s now e ∙ switched (take_head s p x) x now;
      runs =
          switch-IsRunning (take_head s p x) x now (update q p xs) iq'
            (taken_placed s q p x xs iq lt here placed) (taken-IsAway s q p x xs iq lt here)
            (taken_best s q p x xs iq lt here below);
    }
