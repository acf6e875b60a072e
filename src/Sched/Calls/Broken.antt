-- ===== src/Sched/Calls/Broken.antt =====
-- A realtime thread that is queued already yields: it is put into its queue a second time.
use cgos.Base.{
  ℕ, ◌≡◌, ◌≢◌, ◌⊎◌, refl, ap, ◌∙◌, true, false, not, ◌&&◌, Option, none, some, List, [], ◌∷◌, arith,
  ◌==◌, ltb, if◌then◌else◌, Bool-cases, inl, inr,
}
use cgos.Sched.Thread.{Thread, ready}
use cgos.Sched.State.{Sched, points_to, set_next, set_prev, set_next_of, set_prev_of, set_state}
use cgos.Sched.Ready.{link_last, enqueue_ready, unlink, take_head, pick_next_thread, dequeue_ready}
use cgos.Sched.Ready.Linked.{Linked}
use cgos.Sched.Ready.Spec.{IsQueued}
use cgos.Sched.Ready.Dequeue.{pick_from-full}
use cgos.Sched.Calls.{
  schedule, switch_picked, switch_to, yield_current, account_yield, with_usage, slice_usage,
}
use cgos.Sched.Calls.Twice.{
  broken, self_linked, tail-enqueue, account-fields, requeue-ready, usage-fields, realtime-adjust,
  enqueue-fields,
}

module _ (th : ℕ → Thread) (tail : Option ℕ) where
  pub tail_of :
      (back head : Option ℕ) (x : ℕ) (xs : List ℕ)
      → Linked th back head tail (x ∷ xs)
      → (l : ℕ) × (tail ≡ some l)
  tail_of back head x [] l = (x, l.2.1)
  tail_of back head x (y ∷ ys) l = tail_of (some x) (th x).next y ys l.2

  -- The first thread is the last one, or has a thread behind it.
  pub behind_first :
      (back head : Option ℕ) (x : ℕ) (xs : List ℕ)
      → Linked th back head tail (x ∷ xs)
      → (tail ≡ some x) ⊎ ((n : ℕ) × ((th x).next ≡ some n))
  behind_first back head x [] l = inl l.2.1
  behind_first back head x (y ∷ ys) l = inr (y, l.2.0)

-- Queue 0 begins with `x`, behind which there is a thread, and ends with the realtime thread `t`.
pub record IsBehind (s : Sched) (t x : ℕ) : Type 0 where
  pub head : s.ready_queue_heads 0 ≡ some x
  pub tail : s.ready_queue_tails 0 ≡ some t
  pub next : (n : ℕ) × ((s.threads x).next ≡ some n)
  pub level : (s.threads t).priority ≡ 0
  pub base : (s.threads t).base_priority ≡ 0

link_next :
    (th : ℕ → Thread) (t x l : ℕ)
    → (t == x) ≡ false
    → (set_state (link_last th t (some l)) t ready x).next
      ≡ (if l == x then some t else (th x).next)
unfolding link_last set_next set_prev set_next_of set_state
link_next th t x l other = ground arith

module _ (s : Sched) (t x : ℕ) (ne : x ≢ t) where
  other : (t == x) ≡ false
  other = ground arith

  enqueue_next :
      (l : ℕ)
      → s.ready_queue_tails (s.threads t).priority ≡ some l
      → ((enqueue_ready s t).threads x).next ≡ (if l == x then some t else (s.threads x).next)
  unfolding enqueue_ready
  enqueue_next l e =
      ap (λ o. (set_state (link_last s.threads t o) t ready x).next) e
      ∙ link_next s.threads t x l other

  enqueue_head :
      (l : ℕ)
      → s.ready_queue_tails (s.threads t).priority ≡ some l
      → (enqueue_ready s t).ready_queue_heads ≡ s.ready_queue_heads
  unfolding enqueue_ready
  enqueue_head l e = rw e refl

  pub enqueue-IsBehind :
      (l : ℕ)
      → s.ready_queue_heads 0 ≡ some x
      → s.ready_queue_tails 0 ≡ some l
      → (some l ≡ some x) ⊎ ((n : ℕ) × ((s.threads x).next ≡ some n))
      → (s.threads t).priority ≡ 0
      → (s.threads t).base_priority ≡ 0
      → IsBehind (enqueue_ready s t) t x
  enqueue-IsBehind l head last next level base =
      let at_level : s.ready_queue_tails (s.threads t).priority ≡ some l =
        ap s.ready_queue_tails level ∙ last in
      let f = enqueue-fields s t in
      record {
        head = ap (λ g. g 0) (enqueue_head l at_level) ∙ head;
        tail = tail-enqueue s t 0 level;
        next = linked l at_level next;
        level = f.0 ∙ level;
        base = f.2 ∙ base;
      }
    where
      linked :
          (l : ℕ)
          → s.ready_queue_tails (s.threads t).priority ≡ some l
          → (some l ≡ some x) ⊎ ((n : ℕ) × ((s.threads x).next ≡ some n))
          → (n : ℕ) × (((enqueue_ready s t).threads x).next ≡ some n)
      linked l e (inl same) =
          let same' : l ≡ x = cc in
          let b : (l == x) ≡ true = ground arith in
          (t, enqueue_next l e ∙ ap (λ c. if c then some t else (s.threads x).next) b)
      linked l e (inr (n, has)) = elim (Bool-cases (l == x)) [
        | inl b ↦ (t, enqueue_next l e ∙ ap (λ c. if c then some t else (s.threads x).next) b)
        | inr b ↦ (n, enqueue_next l e ∙ ap (λ c. if c then some t else (s.threads x).next) b ∙ has)
      ]

pub usage_next :
    (s : Sched) (t x u : ℕ) → x ≢ t → ((with_usage s t u).threads x).next ≡ (s.threads x).next
unfolding with_usage
usage_next s t x u ne = ground arith

usage-IsBehind : (s : Sched) (t x u : ℕ) → x ≢ t → IsBehind s t x → IsBehind (with_usage s t u) t x
unfolding with_usage
usage-IsBehind s t x u ne b =
    let f = usage-fields s t u in
    let (n, e) = b.next in
    record {
      head = b.head;
      tail = b.tail;
      next = (n, usage_next s t x u ne ∙ e);
      level = f.0 ∙ b.level;
      base = f.1 ∙ b.base;
    }

account-IsBehind : (s : Sched) (t x : ℕ) → x ≢ t → IsBehind s t x → IsBehind (account_yield s t) t x
unfolding account_yield
account-IsBehind s t x ne b =
    let u : ℕ = slice_usage (s.threads t) in
    let same = realtime-adjust (with_usage s t u) t ((usage-fields s t u).1 ∙ b.base) in
    elim (Bool-cases (not (points_to s.idle_thread t) && ltb 0 (s.threads t).time_slice_length)) [
      | inl c ↦ rw (c, same) (usage-IsBehind s t x u ne b)
      | inr c ↦ rw c b
    ]

-- What dequeue_ready takes from such a queue leaves the tail and its link.
module _ (s : Sched) (t x : ℕ) (ne : x ≢ t) (b : IsBehind s t x)
    (loop : (s.threads t).next ≡ some t) where
  take-fields :
      ((take_head s 0 x).ready_queue_tails 0 ≡ some t)
      × (((take_head s 0 x).threads t).next ≡ some t)
  unfolding take_head unlink set_next set_prev set_prev_of
  take-fields =
      let differ : (x == t) ≡ false = ground arith in let (n, e) = b.next in rw e (b.tail, kept n)
    where
      kept : (n : ℕ) → (unlink (set_prev_of s.threads (some n) none) x t).next ≡ some t
      kept n = ground (arith, loop)

  switch-fields :
      (r : Sched) (now : ℕ)
      → ((switch_to r x now).ready_queue_tails ≡ r.ready_queue_tails)
        × (((switch_to r x now).threads t).next ≡ (r.threads t).next)
  unfolding switch_to
  switch-fields r now = elim (Bool-cases (points_to r.current_thread x)) [
    | inl e ↦ rw e (refl, refl)
    | inr e ↦ let differ : (x == t) ≡ false = ground arith in rw (e, differ) (refl, refl)
  ]

  schedule-breaks :
      (now : ℕ) → (s' : Sched) × ((schedule s now ≡ some s') × ((q : ℕ → List ℕ) → ¬ IsQueued s' q))
  unfolding schedule pick_next_thread dequeue_ready switch_picked
  schedule-breaks now =
      let r = take_head s 0 x in
      let f = take-fields in
      let g = switch-fields r now in
      (
        switch_to r x now,
        (
          ap (λ p. switch_picked p now) (pick_from-full s 6 0 b.head ∙ taken),
          λ q.
              broken (switch_to r x now) q 0 t t (omega arith) (ap (λ h. h 0) g.0 ∙ f.0)
                (g.1 ∙ f.1),
        ),
      )
    where
      taken : dequeue_ready s 0 ≡ (some x, take_head s 0 x)
      taken = rw (b.head, dequeue_ready)

-- A realtime thread that is READY and the last of queue 0, behind another one, yields.
pub yield-breaks :
    (s : Sched) (t x now : ℕ)
    → x ≢ t
    → IsBehind s t x
    → (s.threads t).state ≡ ready
    → (s' : Sched) × ((yield_current s t now ≡ some s') × ((q : ℕ → List ℕ) → ¬ IsQueued s' q))
unfolding yield_current
yield-breaks s t x now ne b is_ready =
    let s₀ : Sched = record s { need_reschedule = false } in
    let b₀ : IsBehind s₀ t x = record {
      head = b.head;
      tail = b.tail;
      next = b.next;
      level = b.level;
      base = b.base;
    } in
    let c : Sched = account_yield s₀ t in
    let f = account-fields s₀ t b.base in
    let b₁ = account-IsBehind s₀ t x ne b₀ in
    let again = requeue-ready c t (f.1 ∙ is_ready) in
    let last : c.ready_queue_tails (c.threads t).priority ≡ some t =
      ap c.ready_queue_tails b₁.level ∙ b₁.tail in
    let b₂ = enqueue-IsBehind c t x ne t b₁.head b₁.tail (inr b₁.next) b₁.level b₁.base in
    rw again (schedule-breaks (enqueue_ready c t) t x ne b₂ (self_linked c t last) now)
