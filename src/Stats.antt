-- ===== src/Stats.antt =====
-- src/stats.rs: seven event counters of 64 bits, each bumped by an atomic addition that wraps.
use libcortlet_upgradesched.Prelude.{ℕ, ◌+◌, wrap}

-- The counters of `SchedulerStats`, and of `SchedulerStatsSnapshot`, which has the same fields.
pub record SchedulerStats : Type 0 where
  pub submitted : ℕ
  pub completed : ℕ
  pub rejected_full : ℕ
  pub steals_attempted : ℕ
  pub steals_succeeded : ℕ
  pub fairness_yields : ℕ
  pub steal_failures : ℕ

unfoldable pub stats_new : SchedulerStats
stats_new = record {
  submitted = 0;
  completed = 0;
  rejected_full = 0;
  steals_attempted = 0;
  steals_succeeded = 0;
  fairness_yields = 0;
  steal_failures = 0;
}

-- One name for each `record_…` method.
pub data Event : Type 0 where
  submission completion queue_full steal_attempt steal_success fairness_yield steal_failure : Event

unfoldable pub record_event : Event → SchedulerStats → SchedulerStats
record_event Event.submission s = record s { submitted = wrap (s.submitted + 1) }
record_event Event.completion s = record s { completed = wrap (s.completed + 1) }
record_event Event.queue_full s = record s { rejected_full = wrap (s.rejected_full + 1) }
record_event Event.steal_attempt s = record s { steals_attempted = wrap (s.steals_attempted + 1) }
record_event Event.steal_success s = record s { steals_succeeded = wrap (s.steals_succeeded + 1) }
record_event Event.fairness_yield s = record s { fairness_yields = wrap (s.fairness_yields + 1) }
record_event Event.steal_failure s = record s { steal_failures = wrap (s.steal_failures + 1) }

-- The load of one counter, as `snapshot` makes seven of them.
unfoldable pub read_event : Event → SchedulerStats → ℕ
read_event Event.submission s = s.submitted
read_event Event.completion s = s.completed
read_event Event.queue_full s = s.rejected_full
read_event Event.steal_attempt s = s.steals_attempted
read_event Event.steal_success s = s.steals_succeeded
read_event Event.fairness_yield s = s.fairness_yields
read_event Event.steal_failure s = s.steal_failures
