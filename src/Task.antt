-- ===== src/Task.antt =====
-- src/queue.rs: tasks, their priorities, and the streak of HIGH tasks of a worker.
use libcortlet_upgradesched.Prelude.{ℕ, ◌+◌, Bool, Option, none, wrap, leb}

pub data TaskPriority : Type 0 where
  low normal high : TaskPriority

-- `function` names a C function and `argument` is the pointer, as a `usize`. `group` is the address
-- of the task group that the `Arc` keeps alive.
pub record Task : Type 0 where
  pub function : ℕ
  pub argument : ℕ
  pub priority : TaskPriority
  pub group : Option ℕ

abbrev pub new : (function argument : ℕ) → TaskPriority → (group : Option ℕ) → Task
new function argument priority group = record {
  function = function;
  argument = argument;
  priority = priority;
  group = group;
}

abbrev pub priority : Task → TaskPriority
priority t = t.priority

-- `Option::take`: the task is left without its group.
unfoldable pub take_group : Task → Option ℕ × Task
take_group t = (t.group, record t { group = none })

pub data PopResult : Type 0 where
  task : Task → PopResult
  empty retry : PopResult

abbrev pub high_burst_limit : ℕ
high_burst_limit = 32

pub record PriorityState : Type 0 where
  pub high_streak : ℕ

abbrev pub fresh_streak : PriorityState
fresh_streak = record { high_streak = 0 }

unfoldable pub record_high : PriorityState → PriorityState
record_high ps = record { high_streak = wrap (ps.high_streak + 1) }

unfoldable pub reset : PriorityState → PriorityState
reset ps = record { high_streak = 0 }

unfoldable pub fairness_due : PriorityState → Bool
fairness_due ps = leb high_burst_limit ps.high_streak

unfoldable pub record_priority : TaskPriority → PriorityState → PriorityState
unfolding record_high reset
record_priority TaskPriority.high ps = record_high ps
record_priority TaskPriority.normal ps = reset ps
record_priority TaskPriority.low ps = reset ps

unfoldable pub record_task : Task → PriorityState → PriorityState
unfolding record_priority
record_task t ps = record_priority t.priority ps
