-- ===== src/Sched/Ready.antt =====
-- The ready queues of src/sched/scheduler.c: doubly linked lists, one for each priority.
pub mod Linked
pub mod Erase
pub mod Spec
pub mod Enqueue
pub mod Dequeue
pub mod Remove
use cgos.Base.{ℕ, zero, suc, ◌+◌, ◌-◌, Option, none, some}
use cgos.Sched.Thread.{Thread, ThreadState, ready, priority_levels}
use cgos.Sched.State.{
  Sched, Stats, inc32, dec32, update, set_next, set_prev, set_state, set_next_of, set_prev_of,
  if_null,
}

-- The writes of `enqueue_ready` to the control blocks, in its order.
unfoldable pub link_last : (ℕ → Thread) → ℕ → Option ℕ → ℕ → Thread
unfolding set_next set_prev set_next_of
link_last th thread tail =
    set_next_of (set_prev (set_next th thread none) thread tail) tail (some thread)

unfoldable pub enqueue_ready : Sched → ℕ → Sched
unfolding link_last set_state
enqueue_ready s thread =
    let p : ℕ = (s.threads thread).priority in
    let tail : Option ℕ = s.ready_queue_tails p in
    record s {
      threads = set_state (link_last s.threads thread tail) thread ready;
      ready_queue_heads =
          if_null tail (update s.ready_queue_heads p (some thread)) s.ready_queue_heads;
      ready_queue_tails = update s.ready_queue_tails p (some thread);
      stats = record (s.stats) { threads_ready = inc32 s.stats.threads_ready };
    }

-- `thread->next = NULL; thread->prev = NULL;`
unfoldable pub unlink : (ℕ → Thread) → ℕ → ℕ → Thread
unfolding set_next set_prev
unlink th thread = set_prev (set_next th thread none) thread none

unfoldable pub take_head : Sched → ℕ → ℕ → Sched
unfolding unlink set_prev_of
take_head s priority thread =
    let next : Option ℕ = (s.threads thread).next in
    record s {
      threads = unlink (set_prev_of s.threads next none) thread;
      ready_queue_heads = update s.ready_queue_heads priority next;
      ready_queue_tails =
          if_null next (update s.ready_queue_tails priority none) s.ready_queue_tails;
      stats = record (s.stats) { threads_ready = dec32 s.stats.threads_ready };
    }

unfoldable pub dequeue_ready : Sched → ℕ → Option ℕ × Sched
dequeue_ready s priority = elim (s.ready_queue_heads priority) [
  | none ↦ (none, s)
  | some thread ↦ (some thread, take_head s priority thread)
]

unfoldable pub remove_from_ready : Sched → ℕ → Sched
unfolding unlink set_next_of set_prev_of
remove_from_ready s thread =
    let p : ℕ = (s.threads thread).priority in
    let prev : Option ℕ = (s.threads thread).prev in
    let next : Option ℕ = (s.threads thread).next in
    record s {
      threads = unlink (set_prev_of (set_next_of s.threads prev next) next prev) thread;
      ready_queue_heads = if_null prev (update s.ready_queue_heads p next) s.ready_queue_heads;
      ready_queue_tails = if_null next (update s.ready_queue_tails p prev) s.ready_queue_tails;
      stats = record (s.stats) { threads_ready = dec32 s.stats.threads_ready };
    }

-- The scan of `pick_next_thread` from priority `p`, with `n` levels to go.
unfoldable pub pick_from : Sched → ℕ → ℕ → Option ℕ × Sched
pick_from s zero p = (s.idle_thread, s)
pick_from s (suc n) p = elim (s.ready_queue_heads p) [
  | none ↦ pick_from s n (p + 1)
  | some head ↦ dequeue_ready s p
]

unfoldable pub pick_next_thread : Sched → Option ℕ × Sched
unfolding pick_from
pick_next_thread s = pick_from s priority_levels 0
