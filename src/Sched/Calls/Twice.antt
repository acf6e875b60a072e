-- ===== src/Sched/Calls/Twice.antt =====
-- A thread that is put into its ready queue while it is there breaks the queue, and the timer tick
-- and the yield that follows it do so.
use cgos.Base.{
  ℕ, ◌-◌, ◌<◌, ◌≤◌, ◌≡◌, ◌≢◌, refl, sym, subst, ◌∙◌, true, false, not, ◌&&◌, Option, none, some,
  List, [], ◌∷◌, arith, ◌==◌, ltb, if◌then◌else◌, Bool-cases, inl, inr,
}
use cgos.Sched.Thread.{Thread, ready, priority_levels, max_threads}
use cgos.Sched.State.{Sched, update, points_to, set_state}
use cgos.Sched.Adapt.{adjust_priority, update_cpu_usage}
use cgos.Sched.Ready.{link_last, enqueue_ready}
use cgos.Sched.Ready.Linked.{Linked}
use cgos.Sched.Ready.Spec.{IsQueued}
use cgos.Sched.Sleep.{wake_expired_sleepers}
use cgos.Sched.Sleep.Wake.{wake_loop-empty}
use cgos.Sched.Calls.{
  scheduler_tick, tick_current, expire_slice, count_tick, account_yield, requeue, with_usage,
  slice_usage,
}

-- The last thread of a queue has no `next`.
last_next :
    (th : ℕ → Thread) (back head : Option ℕ) (t x : ℕ) (xs : List ℕ)
    → Linked th back head (some t) (x ∷ xs)
    → (th t).next ≡ none
last_next th back head t x [] l =
    let e : some t ≡ some x = l.2.1 in
    let e' : x ≡ t = cc in subst (λ k. (th k).next ≡ none) e' l.2.0
last_next th back head t x (y ∷ ys) l = last_next th (some x) (th x).next t y ys l.2

-- No queues are held by a state where a tail has a `next`.
pub broken :
    (s : Sched) (q : ℕ → List ℕ) (p t n : ℕ)
    → p < priority_levels
    → s.ready_queue_tails p ≡ some t
    → (s.threads t).next ≡ some n
    → ¬ IsQueued s q
broken s q p t n lt tail nxt iq = go (q p) refl
  where
    go : (l : List ℕ) → q p ≡ l → ⊥
    go [] e =
        let l : Linked s.threads none (s.ready_queue_heads p) (some t) [] =
          subst (λ o. Linked s.threads none (s.ready_queue_heads p) o []) tail
            (subst (λ xs. Linked s.threads none (s.ready_queue_heads p) (s.ready_queue_tails p) xs)
              e (iq.linked p lt)) in
        let e' : some t ≡ none = l.1 in cc
    go (x ∷ xs) e =
        let l : Linked s.threads none (s.ready_queue_heads p) (some t) (x ∷ xs) =
          subst (λ o. Linked s.threads none (s.ready_queue_heads p) o (x ∷ xs)) tail
            (subst (λ xs. Linked s.threads none (s.ready_queue_heads p) (s.ready_queue_tails p) xs)
              e (iq.linked p lt)) in
        let e' = last_next s.threads none (s.ready_queue_heads p) t x xs l in cc

-- Once in the queue, a thread is its tail; the second time it is linked behind itself.
pub self_linked :
    (s : Sched) (t : ℕ)
    → s.ready_queue_tails (s.threads t).priority ≡ some t
    → ((enqueue_ready s t).threads t).next ≡ some t
unfolding enqueue_ready
self_linked s t e = simp e (ground arith)

pub tail-enqueue :
    (s : Sched) (t p : ℕ)
    → (s.threads t).priority ≡ p
    → (enqueue_ready s t).ready_queue_tails p ≡ some t
unfolding enqueue_ready
tail-enqueue s t p e = ground arith

pub enqueue-fields :
    (s : Sched) (t : ℕ)
    → (((enqueue_ready s t).threads t).priority ≡ (s.threads t).priority)
      × (((enqueue_ready s t).threads t).state ≡ ready)
      × (((enqueue_ready s t).threads t).base_priority ≡ (s.threads t).base_priority)
unfolding enqueue_ready
enqueue-fields s t = go (s.ready_queue_tails (s.threads t).priority)
  where
    go :
        (tail : Option ℕ)
        → ((set_state (link_last s.threads t tail) t ready t).priority ≡ (s.threads t).priority)
          × ((set_state (link_last s.threads t tail) t ready t).state ≡ ready)
          × ((set_state (link_last s.threads t tail) t ready t).base_priority
              ≡ (s.threads t).base_priority)
    go none = (ground arith, ground arith, ground arith)
    go (some l) = (ground arith, ground arith, ground arith)

twice-broken :
    (s : Sched) (q : ℕ → List ℕ) (t : ℕ)
    → (s.threads t).priority < priority_levels
    → s.ready_queue_tails (s.threads t).priority ≡ some t
    → ¬ IsQueued (enqueue_ready s t) q
twice-broken s q t lt tail =
    broken (enqueue_ready s t) q (s.threads t).priority t t lt
      (tail-enqueue s t (s.threads t).priority refl) (self_linked s t tail)

-- enqueue_ready has no guard against a thread that is queued already: after two calls in a row for
-- a thread no lists of threads are held by the ready queues any more.
pub enqueue_ready-twice :
    (s : Sched) (q : ℕ → List ℕ) (t : ℕ)
    → (s.threads t).priority < priority_levels
    → ¬ IsQueued (enqueue_ready (enqueue_ready s t) t) q
enqueue_ready-twice s q t lt =
    let f = enqueue-fields s t in
    twice-broken (enqueue_ready s t) q t (rw (f.0) lt) (tail-enqueue s t _ (sym f.0))

pub realtime-adjust :
    (s : Sched) (t : ℕ) → (s.threads t).base_priority ≡ 0 → adjust_priority s t ≡ s
unfolding adjust_priority
realtime-adjust s t e = elim (Bool-cases (points_to s.idle_thread t)) [
  | inl i ↦ ground arith
  | inr i ↦ ground arith
]

pub usage-fields :
    (s : Sched) (t u : ℕ)
    → (((with_usage s t u).threads t).priority ≡ (s.threads t).priority)
      × (((with_usage s t u).threads t).base_priority ≡ (s.threads t).base_priority)
      × (((with_usage s t u).threads t).state ≡ (s.threads t).state)
      × ((with_usage s t u).ready_queue_tails ≡ s.ready_queue_tails)
unfolding with_usage update_cpu_usage
usage-fields s t u = (ground arith, ground arith, ground arith, refl)

pub account-fields :
    (s : Sched) (t : ℕ)
    → (s.threads t).base_priority ≡ 0
    → (((account_yield s t).threads t).priority ≡ (s.threads t).priority)
      × (((account_yield s t).threads t).state ≡ (s.threads t).state)
      × ((account_yield s t).ready_queue_tails ≡ s.ready_queue_tails)
unfolding account_yield
account-fields s t e =
    let f = usage-fields s t (slice_usage (s.threads t)) in
    let same = realtime-adjust (with_usage s t (slice_usage (s.threads t))) t (f.1 ∙ e) in
    elim (Bool-cases (not (points_to s.idle_thread t) && ltb 0 (s.threads t).time_slice_length)) [
      | inl c ↦ rw (c, same) (f.0, f.2, f.3)
      | inr c ↦ rw c (refl, refl, refl)
    ]

pub requeue-ready :
    (s : Sched) (t : ℕ) → (s.threads t).state ≡ ready → requeue s t ≡ enqueue_ready s t
unfolding requeue
requeue-ready s t e = ground arith

expire-fields :
    (s : Sched) (t : ℕ)
    → (s.threads t).base_priority ≡ 0
    → (((expire_slice s t).threads t).priority ≡ (s.threads t).priority)
      × (((expire_slice s t).threads t).base_priority ≡ 0)
      × (((expire_slice s t).threads t).state ≡ ready)
      × ((expire_slice s t).ready_queue_tails (s.threads t).priority ≡ some t)
unfolding expire_slice
expire-fields s t rt =
    let u : ℕ = if ltb 100 (slice_usage (s.threads t)) then 100 else slice_usage (s.threads t) in
    let f = usage-fields s t u in
    let same = realtime-adjust (with_usage s t u) t (f.1 ∙ rt) in
    let g = enqueue-fields (with_usage s t u) t in
    rw same
      (g.0 ∙ f.0, g.2 ∙ f.1 ∙ rt, g.1, tail-enqueue (with_usage s t u) t (s.threads t).priority f.0)

pub counted : Sched → ℕ → Sched
counted s t = record s { threads = update s.threads t (count_tick (s.threads t)) }

pub counted-fields :
    (s : Sched) (t : ℕ)
    → (((counted s t).threads t).priority ≡ (s.threads t).priority)
      × (((counted s t).threads t).base_priority ≡ (s.threads t).base_priority)
      × (((counted s t).threads t).time_slice ≡ (s.threads t).time_slice - 1)
unfolding counted count_tick
counted-fields s t = (ground arith, ground arith, ground arith)

pub counted_next :
    (s : Sched) (t x : ℕ) → x ≢ t → ((counted s t).threads x).next ≡ (s.threads x).next
unfolding counted
counted_next s t x ne = ground arith

pub counted_queues :
    (s : Sched) (t : ℕ)
    → ((counted s t).ready_queue_heads ≡ s.ready_queue_heads)
      × ((counted s t).ready_queue_tails ≡ s.ready_queue_tails)
      × ((counted s t).scheduler_running ≡ s.scheduler_running)
      × ((counted s t).current_thread ≡ s.current_thread)
unfolding counted
counted_queues s t = (refl, refl, refl, refl)

pub tick_is :
    (s : Sched) (t now : ℕ)
    → s.scheduler_running ≡ true
    → s.current_thread ≡ some t
    → scheduler_tick s now ≡ tick_current s t now
unfolding scheduler_tick
tick_is s t now run cur = simp (cur, run, scheduler_tick)

pub tick-expires :
    (s : Sched) (t now : ℕ)
    → points_to s.idle_thread t ≡ false
    → s.sleep_queue ≡ none
    → (s.threads t).time_slice ≤ 1
    → tick_current s t now ≡ expire_slice (counted s t) t
unfolding tick_current wake_expired_sleepers counted
tick-expires s t now idle quiet slice =
    let asleep = wake_loop-empty max_threads s now quiet in
    let done : ((((counted s t).threads t).time_slice == 0) ≡ true) =
      ground (arith, counted-fields s t) in
    rw (idle, asleep, done)
