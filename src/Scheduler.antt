-- ===== src/Scheduler.antt =====
-- src/scheduler.rs: submission, waiting and shutdown. `capacity` is the field `queue_capacity` of the
-- `Scheduler`, which never changes.
pub mod Submit
pub mod Waiting
pub mod Termination
pub mod Ledger
pub mod Rollback
use libcortlet_upgradesched.Prelude.{
  ℕ, ◌+◌, Bool, true, Option, none, some, ◌⊎◌, inl, inr, leb, ◌==◌, wrap, if◌then◌else◌,
}
use libcortlet_upgradesched.Task.{Task, TaskPriority, new}
use libcortlet_upgradesched.Stats.{Event, SchedulerStats}
use libcortlet_upgradesched.Machine.{
  Op, Exchange, exchanged, failed, Prog, ret, call, loop, ◌>>=◌, ◌>>◌,
}
use libcortlet_upgradesched.Group
use libcortlet_upgradesched.Queue.{push_global}
use libcortlet_upgradesched.Worker
use libcortlet_upgradesched.Worker.{wake_one}

pub data SchedulerError : Type 0 where
  worker_creation_failed scheduler_stopped queue_full internal_error : SchedulerError

pub data Result (A : Type 0) : Type 0 where
  ok : A → Result A
  err : SchedulerError → Result A

abbrev pub stopped : Result (Unit {0})
stopped = err scheduler_stopped

-- `Err(actual)` goes into another round with the value seen.
unfoldable pub reserve_result : Exchange → Prog (ℕ ⊎ Result (Unit {0}))
reserve_result (exchanged old) = ret (inr (ok tt))
reserve_result (failed actual) = ret (inl actual)

unfoldable pub reserve_round : (capacity current : ℕ) → Prog (ℕ ⊎ Result (Unit {0}))
unfolding reserve_result
reserve_round capacity current =
    if leb capacity current
    then (do call (Op.stat Event.queue_full); ret (inr (err queue_full)))
    else (call (Op.compare_exchange_weak current (wrap (current + 1))) >>= reserve_result)

unfoldable pub reserve_task_slot : (rounds capacity : ℕ) → Prog (Result (Unit {0}))
unfolding reserve_round loop
reserve_task_slot rounds capacity =
    if capacity == 0
    then (do _ ← call Op.fetch_add_in_flight; ret (ok tt))
    else (do current ← call Op.load_in_flight; loop rounds (reserve_round capacity) current)

unfoldable pub release_task_slot : Prog (Unit {0})
release_task_slot = do _ ← call Op.fetch_sub_in_flight; ret tt

-- `add_task` on the optional group.
unfoldable pub join_group : Option ℕ → Prog Bool
unfolding Group.add_task
join_group none = ret true
join_group (some g) = Group.add_task g

unfoldable pub leave_group : Option ℕ → Prog (Unit {0})
unfolding Group.task_completed
leave_group none = ret tt
leave_group (some g) = Group.task_completed g

-- The final check for shutdown, then the publication.
unfoldable pub publish : Task → Prog (Result (Unit {0}))
unfolding release_task_slot leave_group push_global wake_one
publish t = do
  stopping ← call Op.load_shutdown
  if stopping
      then (do release_task_slot; leave_group t.group; ret stopped)
      else do push_global t; call (Op.stat Event.submission); wake_one; ret (ok tt)

-- With a slot in hand: the second check for shutdown, then the group.
unfoldable pub enter : Task → Prog (Result (Unit {0}))
unfolding publish join_group
enter t = do
  stopping ← call Op.load_shutdown
  if stopping then (do release_task_slot; ret stopped) else do
    joined ← join_group t.group
    if joined then publish t else (do release_task_slot; ret stopped)

unfoldable pub enter_if : Task → Result (Unit {0}) → Prog (Result (Unit {0}))
unfolding enter
enter_if t (ok _) = enter t
enter_if t (err e) = ret (err e)

unfoldable pub push_internal :
    (rounds capacity function argument : ℕ) → TaskPriority → Option ℕ → Prog (Result (Unit {0}))
unfolding enter_if reserve_task_slot
push_internal rounds capacity function argument priority group = do
  stopping ← call Op.load_shutdown
  if stopping then ret stopped else do
    reserved ← reserve_task_slot rounds capacity
    enter_if (new function argument priority group) reserved

module _ (rounds capacity function argument : ℕ) where
  unfoldable pub push : Prog (Result (Unit {0}))
  unfolding push_internal
  push = push_internal rounds capacity function argument TaskPriority.normal none

  unfoldable pub push_priority : TaskPriority → Prog (Result (Unit {0}))
  unfolding push_internal
  push_priority priority = push_internal rounds capacity function argument priority none

  unfoldable pub push_group : ℕ → Prog (Result (Unit {0}))
  unfolding push_internal
  push_group group =
      push_internal rounds capacity function argument TaskPriority.normal (some group)

  unfoldable pub push_group_priority : TaskPriority → ℕ → Prog (Result (Unit {0}))
  unfolding push_internal
  push_group_priority priority group =
      push_internal rounds capacity function argument priority (some group)

  unfoldable pub try_push : Prog (Result (Unit {0}))
  unfolding push_internal
  try_push = push_internal rounds capacity function argument TaskPriority.normal none

  unfoldable pub try_push_priority : TaskPriority → Prog (Result (Unit {0}))
  unfolding push_internal
  try_push_priority priority = push_internal rounds capacity function argument priority none

  unfoldable pub try_push_group : ℕ → Prog (Result (Unit {0}))
  unfolding push_internal
  try_push_group group =
      push_internal rounds capacity function argument TaskPriority.normal (some group)

  unfoldable pub try_push_group_priority : TaskPriority → ℕ → Prog (Result (Unit {0}))
  unfolding push_internal
  try_push_group_priority priority group =
      push_internal rounds capacity function argument priority (some group)

-- A round of the `while`: leave when nothing is in flight, or block once.
unfoldable pub wait_round : Unit {0} → Prog (Unit {0} ⊎ Unit {0})
wait_round _ = do
  count ← call Op.load_in_flight
  if count == 0 then ret (inr tt) else do call Op.block; call Op.resume; ret (inl tt)

unfoldable pub wait : (rounds : ℕ) → Prog (Result (Unit {0}))
unfolding wait_round loop
wait rounds = do call Op.lock_sleep; loop rounds wait_round tt; call Op.unlock_sleep; ret (ok tt)

unfoldable pub shutdown : Prog (Unit {0})
unfolding Worker.begin_shutdown
shutdown = Worker.begin_shutdown

-- The accessors.
unfoldable pub tasks_in_flight : Prog ℕ
tasks_in_flight = call Op.load_in_flight

unfoldable pub outstanding_tasks : Prog ℕ
outstanding_tasks = call Op.load_in_flight

unfoldable pub is_stopped : Prog Bool
is_stopped = call Op.load_shutdown

unfoldable pub sleeping_workers : Prog ℕ
sleeping_workers = call Op.load_sleeping

-- `SchedulerStats::snapshot`: seven loads, between which other threads may run.
unfoldable pub snapshot : Prog SchedulerStats
snapshot = do
  submitted ← call (Op.load_stat Event.submission)
  completed ← call (Op.load_stat Event.completion)
  rejected_full ← call (Op.load_stat Event.queue_full)
  steals_attempted ← call (Op.load_stat Event.steal_attempt)
  steals_succeeded ← call (Op.load_stat Event.steal_success)
  fairness_yields ← call (Op.load_stat Event.fairness_yield)
  steal_failures ← call (Op.load_stat Event.steal_failure)
  ret (record {
    submitted = submitted;
    completed = completed;
    rejected_full = rejected_full;
    steals_attempted = steals_attempted;
    steals_succeeded = steals_succeeded;
    fairness_yields = fairness_yields;
    steal_failures = steal_failures;
  })
