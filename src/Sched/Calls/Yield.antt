-- ===== src/Sched/Calls/Yield.antt =====
-- scheduler_yield and scheduler_block: the current thread goes back to its queue, or leaves it.
use cgos.Base.{
  ℕ, suc, ◌<◌, ◌≡◌, ◌≢◌, refl, ap, subst, ◌∙◌, true, false, not, ◌&&◌, ◌||◌, some, List, [], ◌∷◌,
  ◌++◌, arith, ◌==◌, if◌then◌else◌, ltb, Bool-cases, inl, inr, ℕ_discrete,
}
use cgos.Sched.Thread.{Thread, ThreadState, terminated, priority_levels}
use cgos.Sched.State.{Sched, update, points_to}
use cgos.Sched.Adapt.{adjust_priority, update_cpu_usage, change_of, apply_change}
use cgos.Sched.Adapt.Bounds.{adjust_priority-others}
use cgos.Sched.Ready.{enqueue_ready}
use cgos.Sched.Ready.Linked.{occurs}
use cgos.Sched.Ready.Spec.{IsQueued, IsQueued-frame}
use cgos.Sched.Ready.Enqueue.{enqueue_ready-IsQueued, after-fields as enqueue-fields}
use cgos.Sched.Calls.{
  schedule, scheduler_yield, yield_current, account_yield, requeue, with_usage, slice_usage,
  mark_blocked, scheduler_block, is_state,
}
use cgos.Sched.Calls.Coherent.{ArePlaced, IsAway, Chooses, schedule-Chooses}

-- The current thread's usage and priority change, and its queue links and state do not.
change-lt :
    (t : Thread)
    → t.priority < priority_levels
    → (apply_change (change_of t) t).priority < priority_levels
unfolding change_of apply_change
change-lt t lt = ground arith

adjust-lt :
    (s : Sched) (t x : ℕ)
    → ArePlaced s
    → ((adjust_priority s t).threads x).priority < priority_levels
unfolding adjust_priority
adjust-lt s t x placed =
    elim (Bool-cases (points_to s.idle_thread t || ((s.threads t).base_priority == 0))) [
      | inl e ↦ rw e (placed x)
      | inr e ↦ elim (ℕ_discrete t x) [
        | yes same ↦
            let b : (t == x) ≡ true = ground arith in rw (e, b) (change-lt (s.threads t) (placed t))
        | no ne ↦ let b : (t == x) ≡ false = ground arith in rw (e, b) (placed x)
      ]
    ]

adjust-idle : (s : Sched) (t : ℕ) → (adjust_priority s t).idle_thread ≡ s.idle_thread
unfolding adjust_priority
adjust-idle s t = ground arith

-- What accounting for the current thread leaves alone.
record IsAccounted (s s' : Sched) (t : ℕ) : Type 0 where
  others : (x : ℕ) → x ≢ t → s'.threads x ≡ s.threads x
  heads : s'.ready_queue_heads ≡ s.ready_queue_heads
  tails : s'.ready_queue_tails ≡ s.ready_queue_tails
  number : s'.stats.threads_ready ≡ s.stats.threads_ready
  idles : s'.idle_thread ≡ s.idle_thread
  placed : ArePlaced s'

usage-others : (s : Sched) (t u x : ℕ) → x ≢ t → (with_usage s t u).threads x ≡ s.threads x
unfolding with_usage
usage-others s t u x ne = ground arith

usage-placed : (s : Sched) (t u : ℕ) → ArePlaced s → ArePlaced (with_usage s t u)
unfolding with_usage update_cpu_usage
usage-placed s t u placed x = elim (ℕ_discrete t x) [
  | yes e ↦ let b : (t == x) ≡ true = ground arith in rw b (placed t)
  | no ne ↦ let b : (t == x) ≡ false = ground arith in rw b (placed x)
]

usage-same :
    (s : Sched) (t u : ℕ)
    → ((with_usage s t u).ready_queue_heads ≡ s.ready_queue_heads)
      × ((with_usage s t u).ready_queue_tails ≡ s.ready_queue_tails)
      × ((with_usage s t u).stats.threads_ready ≡ s.stats.threads_ready)
      × ((with_usage s t u).idle_thread ≡ s.idle_thread)
unfolding with_usage
usage-same s t u = (refl, refl, refl, refl)

account-IsAccounted : (s : Sched) (t : ℕ) → ArePlaced s → IsAccounted s (account_yield s t) t
unfolding account_yield
account-IsAccounted s t placed =
    let u : ℕ = slice_usage (s.threads t) in
    let s₁ : Sched = with_usage s t u in
    let same = usage-same s t u in
    elim (Bool-cases (not (points_to s.idle_thread t) && ltb 0 (s.threads t).time_slice_length)) [
      | inl c ↦ rw c (record {
        others = λ x ne. (adjust_priority-others s₁ t x ne).0 ∙ usage-others s t u x ne;
        heads = (adjust_priority-others s₁ t (suc t) (omega arith)).1 ∙ same.0;
        tails = (adjust_priority-others s₁ t (suc t) (omega arith)).2 ∙ same.1;
        number = (adjust_priority-others s₁ t (suc t) (omega arith)).3 ∙ same.2;
        idles = adjust-idle s₁ t ∙ same.3;
        placed = λ x. adjust-lt s₁ t x (usage-placed s t u placed);
      })
      | inr c ↦ rw c (record {
        others = λ x ne. refl;
        heads = refl;
        tails = refl;
        number = refl;
        idles = refl;
        placed = placed;
      })
    ]

pub enqueue-placed : (s : Sched) (t : ℕ) → ArePlaced s → ArePlaced (enqueue_ready s t)
unfolding enqueue_ready
enqueue-placed s t placed x =
    rw ((enqueue-fields s.threads t (s.ready_queue_tails (s.threads t).priority) x).0) (placed x)

enqueue-idle : (s : Sched) (t : ℕ) → (enqueue_ready s t).idle_thread ≡ s.idle_thread
unfolding enqueue_ready
enqueue-idle s t = refl

account-state : (s : Sched) (t : ℕ) → ((account_yield s t).threads t).state ≡ (s.threads t).state
unfolding account_yield adjust_priority with_usage update_cpu_usage apply_change change_of
account-state s t = ground arith

-- The lists once the thread has gone back to the queue of its priority, if it has not terminated.
abbrev pub with_thread : (ℕ → List ℕ) → ThreadState → ℕ → ℕ → ℕ → List ℕ
with_thread q state priority t =
    if is_state state terminated then q else update q priority (q priority ++ t ∷ [])

-- A state in which the queues are in order and hold these lists.
record IsReady (s : Sched) (queues : ℕ → List ℕ) (i : ℕ) : Type 0 where
  queued : IsQueued s queues
  placed : ArePlaced s
  idles : s.idle_thread ≡ some i

requeue-IsReady :
    (s : Sched) (q : ℕ → List ℕ) (t i : ℕ)
    → IsQueued s q
    → ArePlaced s
    → IsAway q t
    → s.idle_thread ≡ some i
    → IsReady (requeue s t) (with_thread q (s.threads t).state (s.threads t).priority t) i
unfolding requeue
requeue-IsReady s q t i iq placed away idles =
    elim (Bool-cases (is_state (s.threads t).state terminated)) [
      | inl e ↦ rw e (record { queued = iq; placed = placed; idles = idles })
      | inr e ↦ rw e (record {
        queued = enqueue_ready-IsQueued s q t iq (placed t) (away _ (placed t));
        placed = enqueue-placed s t placed;
        idles = enqueue-idle s t ∙ idles;
      })
    ]

away-ne :
    (q : ℕ → List ℕ) (t p x : ℕ) → IsAway q t → p < priority_levels → occurs x (q p) ≡ true → x ≢ t
away-ne q t p x away lt o e =
    let a = away p lt in
    let o' : occurs t (q p) ≡ true = subst (λ k. occurs k (q p) ≡ true) e o in cc

same_blocks :
    {a b : Thread}
    → a ≡ b
    → (a.next ≡ b.next) × (a.prev ≡ b.prev) × (a.priority ≡ b.priority) × (a.state ≡ b.state)
same_blocks e =
    (ap (λ t. t.next) e, ap (λ t. t.prev) e, ap (λ t. t.priority) e, ap (λ t. t.state) e)

accounted-IsQueued :
    (s s' : Sched) (q : ℕ → List ℕ) (t : ℕ)
    → IsAccounted s s' t
    → IsAway q t
    → IsQueued s q
    → IsQueued s' q
accounted-IsQueued s s' q t a away iq =
    IsQueued-frame s s' q a.heads a.tails a.number
      (λ p x lt o. same_blocks (a.others x (away-ne q t p x away lt o))) iq

pub yield_is :
    (s : Sched) (t now : ℕ)
    → s.scheduler_running ≡ true
    → s.current_thread ≡ some t
    → scheduler_yield s now ≡ yield_current s t now
unfolding scheduler_yield
yield_is s t now run cur = simp (cur, run, scheduler_yield)

-- Where the scheduler runs, the ready queues are in order, all priorities are valid and there is an
-- idle thread: a current thread that yields (and is in no queue) goes back to the end of the queue of
-- the priority that the accounting for its time slice gives it, unless it has terminated, and no other
-- thread enters or leaves a queue; then the first thread of the highest priority that has one leaves
-- its queue and runs, or the idle thread runs where all queues are empty. The call does not fault.
pub scheduler_yield-Chooses :
    (s : Sched) (q : ℕ → List ℕ) (t now i : ℕ)
    → s.scheduler_running ≡ true
    → s.current_thread ≡ some t
    → s.idle_thread ≡ some i
    → IsQueued s q
    → ArePlaced s
    → IsAway q t
    → let accounted : Thread = (account_yield (record s { need_reschedule = false }) t).threads t in
      Chooses (with_thread q (s.threads t).state accounted.priority t) i (scheduler_yield s now)
unfolding yield_current
scheduler_yield-Chooses s q t now i run cur idles iq placed away =
    let s₀ : Sched = record s { need_reschedule = false } in
    let iq₀ = IsQueued-frame s s₀ q refl refl refl (λ p x lt o. (refl, refl, refl, refl)) iq in
    let a = account-IsAccounted s₀ t placed in
    let iq₁ = accounted-IsQueued s₀ (account_yield s₀ t) q t a away iq₀ in
    let r = requeue-IsReady (account_yield s₀ t) q t i iq₁ a.placed away (a.idles ∙ idles) in
    let priority : ℕ = ((account_yield s₀ t).threads t).priority in
    let chosen =
      schedule-Chooses (requeue (account_yield s₀ t) t) _ now i r.queued r.placed r.idles in
    rw (yield_is s t now run cur) (
      subst
        (λ st.
          Chooses (with_thread q st priority t) i (schedule (requeue (account_yield s₀ t) t) now))
        (account-state s₀ t) chosen)

blocked-others : (s : Sched) (t x : ℕ) → x ≢ t → (mark_blocked s t).threads x ≡ s.threads x
unfolding mark_blocked
blocked-others s t x ne = ground arith

blocked-placed : (s : Sched) (t : ℕ) → ArePlaced s → ArePlaced (mark_blocked s t)
unfolding mark_blocked
blocked-placed s t placed x = elim (ℕ_discrete t x) [
  | yes e ↦ let b : (t == x) ≡ true = ground arith in rw b (placed t)
  | no ne ↦ let b : (t == x) ≡ false = ground arith in rw b (placed x)
]

block_is :
    (s : Sched) (t now : ℕ)
    → s.current_thread ≡ some t
    → scheduler_block s t now ≡ schedule (mark_blocked s t) now
unfolding scheduler_block
block_is s t now cur =
    let b : points_to s.current_thread t ≡ true = ap (λ o. points_to o t) cur ∙ ground arith in rw b

-- A current thread that blocks (and is in no queue) gives way to the same choice, and goes to no
-- queue.
pub scheduler_block-Chooses :
    (s : Sched) (q : ℕ → List ℕ) (t now i : ℕ)
    → s.current_thread ≡ some t
    → s.idle_thread ≡ some i
    → IsQueued s q
    → ArePlaced s
    → IsAway q t
    → Chooses q i (scheduler_block s t now)
unfolding mark_blocked
scheduler_block-Chooses s q t now i cur idles iq placed away =
    let iq' =
      IsQueued-frame s (mark_blocked s t) q refl refl refl
        (λ p x lt o. same_blocks (blocked-others s t x (away-ne q t p x away lt o))) iq in
    rw (block_is s t now cur)
      (schedule-Chooses (mark_blocked s t) q now i iq' (blocked-placed s t placed) idles)
