-- ===== src/Sched/Calls/Expired.antt =====
-- The timer tick that ends the slice of the running realtime thread, and the yield that follows it.
use cgos.Base.{
  ℕ, ◌≤◌, ◌≡◌, ◌≢◌, ◌⊎◌, refl, sym, ap, subst, ◌∙◌, true, false, none, some, List, ◌∷◌, arith, ltb,
  if◌then◌else◌, inl, inr,
}
use cgos.Sched.Thread.{ready}
use cgos.Sched.State.{Sched, points_to}
use cgos.Sched.Ready.{enqueue_ready}
use cgos.Sched.Ready.Linked.{Linked, occurs}
use cgos.Sched.Ready.Spec.{IsQueued}
use cgos.Sched.Calls.{scheduler_tick, scheduler_yield, expire_slice, with_usage, slice_usage}
use cgos.Sched.Calls.Coherent.{IsAway}
use cgos.Sched.Calls.Yield.{yield_is}
use cgos.Sched.Calls.Twice.{
  counted, counted-fields, counted_next, counted_queues, tick_is, tick-expires, usage-fields,
  realtime-adjust, enqueue-fields,
}
use cgos.Sched.Calls.Broken.{
  IsBehind, tail_of, behind_first, enqueue-IsBehind, usage_next, yield-breaks,
}

-- What the end of the slice of a realtime thread is.
module _ (s : Sched) (t : ℕ) (base : (s.threads t).base_priority ≡ 0) where
  abbrev used : ℕ
  used = if ltb 100 (slice_usage (s.threads t)) then 100 else slice_usage (s.threads t)

  expire_is :
      expire_slice s t ≡ record (enqueue_ready (with_usage s t used) t) { need_reschedule = true }
  unfolding expire_slice
  expire_is =
      ap (λ (r : Sched). record (enqueue_ready r t) { need_reschedule = true })
        (realtime-adjust (with_usage s t used) t ((usage-fields s t used).1 ∙ base))

  expire_keeps :
      ((expire_slice s t).scheduler_running ≡ s.scheduler_running)
      × ((expire_slice s t).current_thread ≡ s.current_thread)
      × (((expire_slice s t).threads t).state ≡ ready)
  unfolding enqueue_ready with_usage
  expire_keeps = rw expire_is (refl, refl, (enqueue-fields (with_usage s t used) t).1)

  expire-IsBehind :
      (x l : ℕ)
      → x ≢ t
      → s.ready_queue_heads 0 ≡ some x
      → s.ready_queue_tails 0 ≡ some l
      → (some l ≡ some x) ⊎ ((n : ℕ) × ((s.threads x).next ≡ some n))
      → (s.threads t).priority ≡ 0
      → IsBehind (expire_slice s t) t x
  unfolding with_usage
  expire-IsBehind x l ne head tail next level =
      let w : Sched = with_usage s t used in
      let f = usage-fields s t used in
      let next' : (some l ≡ some x) ⊎ ((n : ℕ) × ((w.threads x).next ≡ some n)) = elim next [
        | inl e ↦ inl e
        | inr (n, e) ↦ inr (n, usage_next s t x used ne ∙ e)
      ] in
      let b = enqueue-IsBehind w t x ne l head tail next' (f.0 ∙ level) (f.1 ∙ base) in
      rw expire_is
        (record { head = b.head; tail = b.tail; next = b.next; level = b.level; base = b.base })

-- Where the time slice of the running realtime thread, which is not the idle thread and in no queue,
-- ends at a tick, the ready queues are in order, no thread sleeps, and another thread waits in the
-- queue of priority 0, the tick puts the thread into its queue while it runs on, and
-- scheduler_yield puts it there a second time: the call returns a state in which no lists of threads
-- are held by the ready queues any more. A realtime thread has base priority and priority 0.
pub tick-yield_breaks :
    (s : Sched) (q : ℕ → List ℕ) (t x : ℕ) (xs : List ℕ) (now later : ℕ)
    → s.scheduler_running ≡ true
    → s.current_thread ≡ some t
    → points_to s.idle_thread t ≡ false
    → s.sleep_queue ≡ none
    → (s.threads t).time_slice ≤ 1
    → (s.threads t).base_priority ≡ 0
    → (s.threads t).priority ≡ 0
    → IsQueued s q
    → IsAway q t
    → q 0 ≡ x ∷ xs
    → (s' : Sched) × ((scheduler_yield (scheduler_tick s now) later ≡ some s')
        × ((q' : ℕ → List ℕ) → ¬ IsQueued s' q'))
tick-yield_breaks s q t x xs now later run cur idle quiet slice base level iq away waits =
    let c = counted s t in
    let g = counted_queues s t in
    let f = counted-fields s t in
    let ne : x ≢ t = (λ e.
      let o : occurs t (x ∷ xs) ≡ false = rw waits at (away 0 (omega arith)) in
      ground (arith, o)) in
    let own : Linked s.threads none (s.ready_queue_heads 0) (s.ready_queue_tails 0) (x ∷ xs) =
      subst (λ l. Linked s.threads none (s.ready_queue_heads 0) (s.ready_queue_tails 0) l) waits
        (iq.linked 0 (omega arith)) in
    let (l, last) =
      tail_of s.threads (s.ready_queue_tails 0) none (s.ready_queue_heads 0) x xs own in
    let next =
      behind_first s.threads (s.ready_queue_tails 0) none (s.ready_queue_heads 0) x xs own in
    let next' : (some l ≡ some x) ⊎ ((n : ℕ) × ((c.threads x).next ≡ some n)) = elim next [
      | inl e ↦ inl (sym last ∙ e)
      | inr (n, e) ↦ inr (n, counted_next s t x ne ∙ e)
    ] in
    let b =
      expire-IsBehind c t (f.1 ∙ base) x l ne (ap (λ h. h 0) g.0 ∙ own.0) (ap (λ h. h 0) g.1 ∙ last)
        next' (f.0 ∙ level) in
    let k = expire_keeps c t (f.1 ∙ base) in
    rw
      (
        tick_is s t now run cur,
        tick-expires s t now idle quiet slice,
        yield_is (expire_slice c t) t later (k.0 ∙ g.2 ∙ run) (k.1 ∙ g.3 ∙ cur),
      )
      (yield-breaks (expire_slice c t) t x later ne b k.2)
