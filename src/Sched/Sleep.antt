-- ===== src/Sched/Sleep.antt =====
-- The sleep queue of src/sched/scheduler.c: a singly linked list by wake time.
pub mod Chain
pub mod Spec
pub mod Wake
use cgos.Base.{ℕ, zero, suc, Bool, true, false, Option, none, some, ltb, leb}
use cgos.Sched.Thread.{Thread, sleeping, max_threads}
use cgos.Sched.State.{Sched, Stats, inc32, dec32, set_next, set_state}
use cgos.Sched.Ready.{enqueue_ready}

-- `while (prev->next && prev->next->wake_time <= wake) prev = prev->next;`, with fuel for the number
-- of threads that it passes.
unfoldable pub find_prev : ℕ → (ℕ → Thread) → ℕ → ℕ → ℕ
find_prev zero th prev wake = prev
find_prev (suc f) th prev wake = elim (th prev).next [
  | none ↦ prev
  | some next ↦ elim (leb (th next).wake_time wake) [
    | true ↦ find_prev f th next wake
    | false ↦ prev
  ]
]

-- `thread->next = prev->next; prev->next = thread;`
unfoldable pub link_after : (ℕ → Thread) → ℕ → ℕ → ℕ → Thread
unfolding set_next
link_after th prev thread = set_next (set_next th thread (th prev).next) prev (some thread)

-- The queue's new head and the writes to the blocks.
unfoldable pub insert_sleeper : (ℕ → Thread) → Option ℕ → ℕ → Option ℕ × (ℕ → Thread)
unfolding set_next
insert_sleeper th none thread = (some thread, set_next th thread none)
insert_sleeper th (some first) thread = elim (ltb (th thread).wake_time (th first).wake_time) [
  | true ↦ (some thread, set_next th thread (some first))
  | false ↦
      (some first, link_after th (find_prev max_threads th first (th thread).wake_time) thread)
]

unfoldable pub enqueue_sleep : Sched → ℕ → Sched
unfolding set_state set_next
enqueue_sleep s thread =
    let th : ℕ → Thread = set_next (set_state s.threads thread sleeping) thread none in
    let (head, th') = insert_sleeper th s.sleep_queue thread in
    record s {
      threads = th';
      sleep_queue = head;
      stats = record (s.stats) { threads_sleeping = inc32 s.stats.threads_sleeping };
    }

-- The body of the loop of `wake_expired_sleepers`, for the queue's first thread.
unfoldable pub pop_sleeper : Sched → ℕ → Sched
unfolding set_next
pop_sleeper s thread = record s {
  threads = set_next s.threads thread none;
  sleep_queue = (s.threads thread).next;
  stats = record (s.stats) { threads_sleeping = dec32 s.stats.threads_sleeping };
}

unfoldable pub wake_loop : ℕ → Sched → ℕ → Sched
wake_loop zero s now = s
wake_loop (suc f) s now = elim s.sleep_queue [
  | none ↦ s
  | some thread ↦ elim (leb (s.threads thread).wake_time now) [
    | true ↦ wake_loop f (enqueue_ready (pop_sleeper s thread) thread) now
    | false ↦ s
  ]
]

-- `now` is `timer_get_ticks()`.
unfoldable pub wake_expired_sleepers : Sched → ℕ → Sched
unfolding wake_loop
wake_expired_sleepers s now = wake_loop max_threads s now
