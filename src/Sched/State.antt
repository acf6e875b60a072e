-- ===== src/Sched/State.antt =====
-- The statics of src/sched/scheduler.c.
use cgos.Base.{ℕ, ◌+◌, ◌-◌, ◌%◌, ◌^◌, Bool, false, Option, none, some, ◌==◌, if◌then◌else◌}
use cgos.Sched.Thread.{Thread, ThreadState}

-- uint32_t and uint64_t counters
abbrev pub inc32 : ℕ → ℕ
inc32 n = (n + 1) % 2 ^ 32

abbrev pub dec32 : ℕ → ℕ
dec32 n = (n + 2 ^ 32 - 1) % 2 ^ 32

abbrev pub inc64 : ℕ → ℕ
inc64 n = (n + 1) % 2 ^ 64

-- `scheduler_stats_t`
pub record Stats : Type 0 where
  pub total_switches : ℕ
  pub threads_ready : ℕ
  pub threads_sleeping : ℕ
  pub threads_blocked : ℕ
  pub priority_boosts : ℕ
  pub priority_demotions : ℕ
  pub idle_ticks : ℕ

-- `threads` is the memory of the thread control blocks, by thread number; the arrays of queue ends
-- are functions of the priority. `kernel_stack` is what `gdt_set_kernel_stack` stored last.
pub record Sched : Type 0 where
  pub threads : ℕ → Thread
  pub ready_queue_heads : ℕ → Option ℕ
  pub ready_queue_tails : ℕ → Option ℕ
  pub sleep_queue : Option ℕ
  pub idle_thread : Option ℕ
  pub current_thread : Option ℕ
  pub stats : Stats
  pub scheduler_running : Bool
  pub need_reschedule : Bool
  pub kernel_stack : ℕ

abbrev pub update {ℓ} : {A : Type ℓ} → (ℕ → A) → ℕ → A → ℕ → A
update f i v j = if i == j then v else f j

-- Whether the pointer points to thread `x`.
abbrev pub points_to : Option ℕ → ℕ → Bool
points_to none x = false
points_to (some y) x = y == x

-- Writes through a `thread_t *`.
unfoldable pub set_next : (ℕ → Thread) → ℕ → Option ℕ → ℕ → Thread
set_next th x p = update th x (record (th x) { next = p })

unfoldable pub set_prev : (ℕ → Thread) → ℕ → Option ℕ → ℕ → Thread
set_prev th x p = update th x (record (th x) { prev = p })

unfoldable pub set_state : (ℕ → Thread) → ℕ → ThreadState → ℕ → Thread
set_state th x st = update th x (record (th x) { state = st })

-- `if (p) p->next = v`
unfoldable pub set_next_of : (ℕ → Thread) → Option ℕ → Option ℕ → ℕ → Thread
set_next_of th none v = th
set_next_of th (some x) v = set_next th x v

unfoldable pub set_prev_of : (ℕ → Thread) → Option ℕ → Option ℕ → ℕ → Thread
set_prev_of th none v = th
set_prev_of th (some x) v = set_prev th x v

-- `p ? a : b`
abbrev pub if_null {ℓ} : {A : Type ℓ} → Option ℕ → A → A → A
if_null none a b = a
if_null (some x) a b = b
