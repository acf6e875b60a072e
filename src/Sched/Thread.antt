-- ===== src/Sched/Thread.antt =====
-- src/sched/thread.h and thread.c: the thread control block and the scheduling parameters.
use cgos.Base.{ℕ, ◌+◌, ◌-◌, ◌*◌, Option, List}

-- `thread_state_t`
pub data ThreadState : Type 0 where
  created ready running blocked sleeping terminated : ThreadState

-- PRIORITY_REALTIME, PRIORITY_NORMAL, PRIORITY_LOW, PRIORITY_IDLE, PRIORITY_LEVELS
abbrev pub priority_realtime : ℕ
priority_realtime = 0

abbrev pub priority_normal : ℕ
priority_normal = 3

abbrev pub priority_low : ℕ
priority_low = 5

abbrev pub priority_idle : ℕ
priority_idle = 6

abbrev pub priority_levels : ℕ
priority_levels = 7

abbrev pub time_slice_base_ms : ℕ
time_slice_base_ms = 10

abbrev pub cpu_history_samples : ℕ
cpu_history_samples = 8

abbrev pub priority_boost_threshold : ℕ
priority_boost_threshold = 30

abbrev pub priority_demote_threshold : ℕ
priority_demote_threshold = 80

abbrev pub max_threads : ℕ
max_threads = 256

-- `thread_t`, without its name, entry point, exit code and saved stack pointer, which the
-- scheduler only logs or hands to the assembly. A pointer is the number of a thread, or none.
pub record Thread : Type 0 where
  pub tid : ℕ
  pub state : ThreadState
  pub kernel_stack_base : ℕ
  pub kernel_stack_size : ℕ
  pub priority : ℕ
  pub base_priority : ℕ
  pub time_slice : ℕ
  pub time_slice_length : ℕ
  pub total_ticks : ℕ
  pub cpu_usage_history : List ℕ
  pub history_index : ℕ
  pub avg_cpu_usage : ℕ
  pub slice_start_ticks : ℕ
  pub ticks_used_this_slice : ℕ
  pub wake_time : ℕ
  pub next : Option ℕ
  pub prev : Option ℕ

-- It runs at priorities below PRIORITY_LEVELS, so the difference does not wrap.
unfoldable pub calculate_time_slice : ℕ → ℕ
calculate_time_slice priority = time_slice_base_ms + (priority_levels - priority) * 3
