-- ===== src/Sched/Calls.antt =====
-- The scheduler's calls, src/sched/scheduler.c. Interrupts are off in each of them, so a call is one
-- step. `now` is `timer_get_ticks()`. The assembly `context_switch` saves and loads registers alone;
-- what a call does when its thread runs again is to return.
pub mod Coherent
pub mod Yield
pub mod Twice
pub mod Broken
pub mod Expired
use cgos.Base.{
  ℕ, zero, suc, ◌+◌, ◌-◌, ◌*◌, ◌/◌, ◌%◌, ◌^◌, ◌<◌, Bool, true, false, not, ◌&&◌, ◌||◌, Option, none,
  some, ltb, ◌==◌, if◌then◌else◌,
}
use cgos.Sched.Thread.{Thread, ThreadState, created, ready, running, blocked, sleeping, terminated}
use cgos.Sched.State.{Sched, Stats, inc32, dec32, inc64, update, points_to, set_state, set_next}
use cgos.Sched.Ready.{enqueue_ready, remove_from_ready, pick_next_thread}
use cgos.Sched.Sleep.{enqueue_sleep, wake_expired_sleepers}
use cgos.Sched.Adapt.{update_cpu_usage, adjust_priority}

unfoldable pub is_state : ThreadState → ThreadState → Bool
is_state created created = true
is_state ready ready = true
is_state running running = true
is_state blocked blocked = true
is_state sleeping sleeping = true
is_state terminated terminated = true
is_state _ _ = false

-- A new time slice for the thread that the processor switches to.
unfoldable pub fresh_slice : Thread → ℕ → Thread
fresh_slice t now = record t {
  state = running;
  time_slice = t.time_slice_length;
  slice_start_ticks = now;
  ticks_used_this_slice = 0;
}

unfoldable pub switch_to : Sched → ℕ → ℕ → Sched
unfolding fresh_slice
switch_to s next now =
    let t : Thread = s.threads next in
    if points_to s.current_thread next then s else record s {
      current_thread = some next;
      threads = update s.threads next (fresh_slice t now);
      kernel_stack = (t.kernel_stack_base + t.kernel_stack_size) % 2 ^ 64;
      stats = record (s.stats) { total_switches = inc32 s.stats.total_switches };
    }

-- `none` is the fault of a null pointer: nothing is ready and there is no idle thread. A null
-- `next` does nothing only where no thread is current.
unfoldable pub switch_picked : Option ℕ × Sched → ℕ → Option Sched
switch_picked (none, s) now = elim s.current_thread [ none ↦ some s | some c ↦ none ]
switch_picked (some next, s) now = some (switch_to s next now)

unfoldable pub schedule : Sched → ℕ → Option Sched
schedule s now = switch_picked (pick_next_thread s) now

-- The thread pointer of a call is not null.
unfoldable pub scheduler_add : Sched → ℕ → Sched
scheduler_add s thread = enqueue_ready s thread

unfoldable pub scheduler_remove : Sched → ℕ → Sched
unfolding is_state
scheduler_remove s thread =
    if is_state (s.threads thread).state ready then remove_from_ready s thread else s

-- `usage`, a uint8_t: the share of the slice that was used, in percent. The length of a slice is not
-- 0: both places that set it start from TIME_SLICE_BASE_MS.
unfoldable pub slice_usage : Thread → ℕ
slice_usage t = t.ticks_used_this_slice * 100 % 2 ^ 64 / t.time_slice_length % 256

unfoldable pub with_usage : Sched → ℕ → ℕ → Sched
with_usage s thread usage = record s {
  threads = update s.threads thread (update_cpu_usage (s.threads thread) usage);
}

unfoldable pub count_tick : Thread → Thread
count_tick t = record t {
  total_ticks = inc64 t.total_ticks;
  ticks_used_this_slice = inc64 t.ticks_used_this_slice;
  time_slice = t.time_slice - 1;
}

-- The end of a slice: the thread is put into the ready queue, and a reschedule is asked for.
unfoldable pub expire_slice : Sched → ℕ → Sched
expire_slice s thread =
    let usage : ℕ = slice_usage (s.threads thread) in
    let s' = adjust_priority (with_usage s thread (if ltb 100 usage then 100 else usage)) thread in
    record (enqueue_ready s' thread) { need_reschedule = true }

unfoldable pub tick_current : Sched → ℕ → ℕ → Sched
tick_current s thread now =
    let idle : Bool = points_to s.idle_thread thread in
    let s₁ : Sched =
      if idle
      then record s { stats = record (s.stats) { idle_ticks = inc64 s.stats.idle_ticks } }
      else s in
    let s₂ : Sched = wake_expired_sleepers s₁ now in
    let s₃ : Sched = record s₂ {
      threads = update s₂.threads thread (count_tick (s₂.threads thread));
    } in
    if ((s₃.threads thread).time_slice == 0) && not idle then expire_slice s₃ thread else s₃

unfoldable pub scheduler_tick : Sched → ℕ → Sched
scheduler_tick s now = elim s.current_thread [
  | none ↦ s
  | some thread ↦ if s.scheduler_running then tick_current s thread now else s
]

-- What yield does before the current thread goes back to its queue.
unfoldable pub account_yield : Sched → ℕ → Sched
account_yield s thread =
    let t : Thread = s.threads thread in
    if not (points_to s.idle_thread thread) && ltb 0 t.time_slice_length
    then adjust_priority (with_usage s thread (slice_usage t)) thread
    else s

unfoldable pub requeue : Sched → ℕ → Sched
unfolding is_state
requeue s thread =
    if is_state (s.threads thread).state terminated then s else enqueue_ready s thread

unfoldable pub yield_current : Sched → ℕ → ℕ → Option Sched
yield_current s thread now =
    schedule (requeue (account_yield (record s { need_reschedule = false }) thread) thread) now

unfoldable pub scheduler_yield : Sched → ℕ → Option Sched
scheduler_yield s now = elim s.current_thread [
  | none ↦ some s
  | some thread ↦ if s.scheduler_running then yield_current s thread now else some s
]

unfoldable pub mark_blocked : Sched → ℕ → Sched
unfolding set_state
mark_blocked s thread = record s {
  threads = set_state s.threads thread blocked;
  stats = record (s.stats) { threads_blocked = inc32 s.stats.threads_blocked };
}

unfoldable pub scheduler_block : Sched → ℕ → ℕ → Option Sched
scheduler_block s thread now =
    let s' : Sched = mark_blocked s thread in
    if points_to s.current_thread thread then schedule s' now else some s'

unfoldable pub scheduler_unblock : Sched → ℕ → Sched
unfolding is_state
scheduler_unblock s thread =
    if is_state (s.threads thread).state blocked
    then enqueue_ready
        (record s { stats = record (s.stats) { threads_blocked = dec32 s.stats.threads_blocked } })
        thread
    else s

unfoldable pub scheduler_sleep : Sched → ℕ → ℕ → ℕ → Option Sched
scheduler_sleep s thread wake_time now =
    let s' : Sched =
      enqueue_sleep
        (record s {
          threads = update s.threads thread (record (s.threads thread) { wake_time = wake_time });
        })
        thread in
    if points_to s.current_thread thread then schedule s' now else some s'

-- The first thread is taken as it is: it gets no new time slice.
unfoldable pub start_first : Option ℕ × Sched → ℕ → Option Sched
start_first (none, s) now = none
start_first (some first, s) now = some (record s {
  threads =
      update s.threads first
        (record (s.threads first) { state = running; slice_start_ticks = now });
  current_thread = some first;
  kernel_stack =
      ((s.threads first).kernel_stack_base + (s.threads first).kernel_stack_size) % 2 ^ 64;
})

unfoldable pub scheduler_start : Sched → ℕ → Option Sched
scheduler_start s now = start_first (pick_next_thread (record s { scheduler_running = true })) now

unfoldable pub scheduler_is_running : Sched → Bool
scheduler_is_running s = s.scheduler_running

unfoldable pub scheduler_get_stats : Sched → Stats
scheduler_get_stats s = s.stats

unfoldable pub thread_current : Sched → Option ℕ
thread_current s = s.current_thread
