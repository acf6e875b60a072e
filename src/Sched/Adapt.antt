-- ===== src/Sched/Adapt.antt =====
-- The adaptive priorities of src/sched/scheduler.c.
pub mod Bounds
use cgos.Base.{
  ℕ, ◌+◌, ◌-◌, ◌*◌, ◌/◌, ◌%◌, ◌^◌, Bool, true, false, ◌||◌, List, [], ◌∷◌, Option, none, some, ltb,
  ◌==◌, if◌then◌else◌, set,
}
use cgos.Sched.Thread.{
  Thread, priority_realtime, priority_low, priority_levels, time_slice_base_ms, cpu_history_samples,
  priority_boost_threshold, priority_demote_threshold,
}
use cgos.Sched.State.{Sched, Stats, inc32, update, points_to}

-- The loop that adds the samples up in a uint16_t.
unfoldable pub sum_history : ℕ → List ℕ → ℕ
sum_history sum [] = sum
sum_history sum (x ∷ xs) = sum_history ((sum + x) % 2 ^ 16) xs

-- The history is the array of CPU_HISTORY_SAMPLES bytes.
unfoldable pub update_cpu_usage : Thread → ℕ → Thread
update_cpu_usage t usage_percent =
    let history : List ℕ = set t.cpu_usage_history t.history_index usage_percent in
    record t {
      cpu_usage_history = history;
      history_index = (t.history_index + 1) % cpu_history_samples;
      avg_cpu_usage = sum_history 0 history / cpu_history_samples;
    }

-- The new priority and what it adds to the counts of demotions and boosts.
pub data Change : Type 0 where
  demoted boosted kept : Change

unfoldable pub change_of : Thread → Change
change_of t =
    if ltb priority_demote_threshold t.avg_cpu_usage
    then (if ltb t.priority priority_low then demoted else kept)
    else if ltb t.avg_cpu_usage priority_boost_threshold
    then (if ltb t.base_priority t.priority then boosted else kept)
    else kept

-- A change of priority sets the time slice anew.
unfoldable pub with_priority : Thread → ℕ → Thread
with_priority t p = record t {
  priority = p;
  time_slice_length = time_slice_base_ms + (priority_levels - p) * 3;
}

unfoldable pub apply_change : Change → Thread → Thread
unfolding with_priority
apply_change demoted t = with_priority t (t.priority + 1)
apply_change boosted t = with_priority t (t.priority - 1)
apply_change kept t = t

unfoldable pub count_change : Change → Stats → Stats
count_change demoted st = record st { priority_demotions = inc32 st.priority_demotions }
count_change boosted st = record st { priority_boosts = inc32 st.priority_boosts }
count_change kept st = st

unfoldable pub adjust_priority : Sched → ℕ → Sched
unfolding apply_change count_change change_of
adjust_priority s thread =
    let t : Thread = s.threads thread in
    if points_to s.idle_thread thread || (t.base_priority == priority_realtime)
    then s
    else record s {
      threads = update s.threads thread (apply_change (change_of t) t);
      stats = count_change (change_of t) s.stats;
    }
