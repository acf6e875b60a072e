-- ===== src/Sched/Tests.antt =====
-- Concrete runs of the scheduler: thread 0 is the idle thread, threads 1 and 2 have priority 3.
use cgos.Base.{
  ℕ, zero, suc, ◌+◌, ◌-◌, ◌==◌, ◌*◌, ◌<◌, ◌≡◌, refl, true, false, List, [], ◌∷◌, none, some, arith,
  leb, if◌then◌else◌, replicate,
}
use cgos.Sched.Thread.{Thread, running, sleeping, priority_levels}
use cgos.Sched.State.{Sched, Stats, update}
use cgos.Sched.Ready.{enqueue_ready, remove_from_ready, pick_next_thread}
use cgos.Sched.Ready.Linked.{occurs}
use cgos.Sched.Ready.Spec.{IsQueued, total}
use cgos.Sched.Ready.Enqueue.{enqueue_ready-IsQueued}
use cgos.Sched.Ready.Dequeue.{Picked, pick_next_thread-Picked}
use cgos.Sched.Ready.Remove.{remove_from_ready-IsQueued}
use cgos.Sched.Sleep.{enqueue_sleep, wake_expired_sleepers}
use cgos.Sched.Sleep.Chain.{insert}
use cgos.Sched.Sleep.Spec.{IsAsleep, enqueue_sleep-IsAsleep}
use cgos.Sched.Sleep.Wake.{IsWoken, expired, wake_expired_sleepers-IsWoken}
use cgos.Sched.Calls.{scheduler_yield, scheduler_tick, account_yield}
use cgos.Sched.Calls.Coherent.{Chooses}
use cgos.Sched.Calls.Yield.{with_thread, enqueue-placed, scheduler_yield-Chooses}
use cgos.Sched.Calls.Expired.{tick-yield_breaks}

abbrev thread : ℕ → ℕ → Thread
thread tid priority = record {
  tid = tid;
  state = running;
  kernel_stack_base = 4096;
  kernel_stack_size = 8192;
  priority = priority;
  base_priority = priority;
  time_slice = 1;
  time_slice_length = 10 + (7 - priority) * 3;
  total_ticks = 0;
  cpu_usage_history = replicate 8 50;
  history_index = 0;
  avg_cpu_usage = 90;
  slice_start_ticks = 0;
  ticks_used_this_slice = 5;
  wake_time = 40;
  next = none;
  prev = none;
}

-- Thread 1 runs, and nothing waits.
abbrev base : Sched
base = record {
  threads = λ x. if x == 0 then thread 0 6 else thread x 3;
  ready_queue_heads = λ p. none;
  ready_queue_tails = λ p. none;
  sleep_queue = none;
  idle_thread = some 0;
  current_thread = some 1;
  stats = record {
    total_switches = 0;
    threads_ready = 0;
    threads_sleeping = 0;
    threads_blocked = 0;
    priority_boosts = 0;
    priority_demotions = 0;
    idle_ticks = 0;
  };
  scheduler_running = true;
  need_reschedule = false;
  kernel_stack = 0;
}

abbrev empty : ℕ → List ℕ
empty p = []

empty-IsQueued : IsQueued base empty
unfolding total
empty-IsQueued = record {
  linked = λ p lt. (refl, refl);
  distinct = λ p lt. tt;
  level = λ p x lt o. absurd (ground arith);
  waiting = λ p x lt o. absurd (ground arith);
  counted = refl;
}

base-placed : (x : ℕ) → (base.threads x).priority < priority_levels
base-placed zero = omega arith
base-placed (suc x) = ground arith

-- Thread 2 waits at priority 3.
abbrev two_waits : ℕ → List ℕ
two_waits = update empty 3 (2 ∷ [])

enqueue_ready-IsQueued_example : IsQueued (enqueue_ready base 2) two_waits
enqueue_ready-IsQueued_example =
    enqueue_ready-IsQueued base empty 2 empty-IsQueued (omega arith) refl

waiting-IsQueued : IsQueued (enqueue_ready base 2) two_waits
waiting-IsQueued = enqueue_ready-IsQueued base empty 2 empty-IsQueued (omega arith) refl

pick_next_thread-Picked_example :
    Picked (enqueue_ready base 2) two_waits (pick_next_thread (enqueue_ready base 2))
pick_next_thread-Picked_example =
    pick_next_thread-Picked (enqueue_ready base 2) two_waits waiting-IsQueued

-- Thread 2 sleeps until tick 40.
abbrev dozing : Sched
dozing = record base {
  threads = λ x. if x == 2 then record (thread 2 3) { state = sleeping } else thread x 3;
  sleep_queue = some 2;
  stats = record (base.stats) { threads_sleeping = 1 };
}

dozing-IsQueued : IsQueued dozing empty
unfolding total
dozing-IsQueued = record {
  linked = λ p lt. (refl, refl);
  distinct = λ p lt. tt;
  level = λ p x lt o. absurd (ground arith);
  waiting = λ p x lt o. absurd (ground arith);
  counted = refl;
}

dozing-IsAsleep : IsAsleep dozing (2 ∷ [])
dozing-IsAsleep = record {
  chain = (refl, refl);
  distinct = (refl, tt);
  timed = tt;
  asleep = λ x o. ground arith;
  placed = λ x o. ground arith;
  counted = refl;
}

enqueue_sleep-IsAsleep_example :
    IsAsleep (enqueue_sleep dozing 1) (insert (λ x. (dozing.threads x).wake_time) 1 (2 ∷ []))
enqueue_sleep-IsAsleep_example =
    enqueue_sleep-IsAsleep dozing 1 (2 ∷ []) dozing-IsAsleep (omega arith) refl (omega arith)

wake_expired_sleepers-IsWoken_example :
    let wake = λ (y : ℕ). (dozing.threads y).wake_time in
    let prio = λ (y : ℕ). (dozing.threads y).priority in
    IsWoken empty wake prio 41 (2 ∷ []) (wake_expired_sleepers dozing 41)
    × (occurs 2 (expired wake 41 (2 ∷ [])) ≡ leb (wake 2) 41)
wake_expired_sleepers-IsWoken_example =
    wake_expired_sleepers-IsWoken dozing empty (2 ∷ []) 41 2 dozing-IsQueued dozing-IsAsleep
      (omega arith) refl

waiting-placed : (x : ℕ) → ((enqueue_ready base 2).threads x).priority < priority_levels
waiting-placed x = enqueue-placed base 2 base-placed x

one-IsAway : (p : ℕ) → p < priority_levels → occurs 1 (two_waits p) ≡ false
one-IsAway p lt = ground arith

scheduler_yield-Chooses_example :
    let s : Sched = enqueue_ready base 2 in
    Chooses
      (with_thread two_waits
        (s.threads 1).state
        ((account_yield (record s { need_reschedule = false }) 1).threads 1).priority
        1)
      0
      (scheduler_yield s 50)
unfolding enqueue_ready
scheduler_yield-Chooses_example =
    scheduler_yield-Chooses (enqueue_ready base 2) two_waits 1 50 0 refl refl refl waiting-IsQueued
      waiting-placed one-IsAway

remove_from_ready-IsQueued_example :
    IsQueued (remove_from_ready (enqueue_ready base 2) 2) (update two_waits 3 [])
unfolding enqueue_ready cgos.Sched.State.set_next cgos.Sched.State.set_prev
    cgos.Sched.State.set_state cgos.Sched.Ready.link_last cgos.Sched.State.set_next_of
remove_from_ready-IsQueued_example =
    remove_from_ready-IsQueued (enqueue_ready base 2) two_waits 2 waiting-IsQueued (omega arith)
      refl

-- Threads 1 and 2 are realtime threads.
abbrev urgent : Sched
urgent = record base { threads = λ x. thread x 0 }

urgent-IsQueued : IsQueued urgent empty
unfolding total
urgent-IsQueued = record {
  linked = λ p lt. (refl, refl);
  distinct = λ p lt. tt;
  level = λ p x lt o. absurd (ground arith);
  waiting = λ p x lt o. absurd (ground arith);
  counted = refl;
}

urgent_waits-IsQueued : IsQueued (enqueue_ready urgent 2) (update empty 0 (2 ∷ []))
urgent_waits-IsQueued = enqueue_ready-IsQueued urgent empty 2 urgent-IsQueued (omega arith) refl

tick-yield_breaks_example :
    (s' : Sched) × ((scheduler_yield (scheduler_tick (enqueue_ready urgent 2) 50) 51 ≡ some s')
      × ((q : ℕ → List ℕ) → ¬ IsQueued s' q))
unfolding enqueue_ready cgos.Sched.State.set_next cgos.Sched.State.set_prev
    cgos.Sched.State.set_state cgos.Sched.Ready.link_last cgos.Sched.State.set_next_of
tick-yield_breaks_example =
    tick-yield_breaks (enqueue_ready urgent 2) (update empty 0 (2 ∷ [])) 1 2 [] 50 51 refl refl refl
      refl (omega arith) refl refl urgent_waits-IsQueued (λ p lt. ground arith) refl
