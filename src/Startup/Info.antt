-- ===== src/Startup/Info.antt =====
-- The accessors of `Scheduler` in src/scheduler.rs, what its `Debug` prints, and the texts of its
-- errors.
use Prim.Native.String.{String}
use libcortlet_upgradesched.Prelude.{ℕ, Bool, List, [], ◌∷◌}
use libcortlet_upgradesched.Task
use libcortlet_upgradesched.Stats.{SchedulerStats}
use libcortlet_upgradesched.Machine.{Op, Prog, ret, call, ◌>>=◌}
use libcortlet_upgradesched.Scheduler.{SchedulerError, snapshot, tasks_in_flight}
use libcortlet_upgradesched.Startup.{Scheduler}
use libcortlet_upgradesched.Topology.{cpu_count}

unfoldable pub worker_count : Scheduler → ℕ
worker_count s = s.worker_count

unfoldable pub pin_workers : Scheduler → Bool
pin_workers s = s.pin_workers

unfoldable pub queue_capacity : Scheduler → ℕ
queue_capacity s = s.queue_capacity

unfoldable pub stats : Prog SchedulerStats
unfolding snapshot
stats = snapshot

unfoldable pub high_burst_limit : ℕ
high_burst_limit = Task.high_burst_limit

-- `Display` of `SchedulerError`
unfoldable pub message : SchedulerError → String
message SchedulerError.worker_creation_failed = "failed to create scheduler worker"
message SchedulerError.scheduler_stopped = "scheduler has stopped"
message SchedulerError.queue_full = "scheduler queue is full"
message SchedulerError.internal_error = "internal scheduler error"

-- A value that `Debug` prints.
pub data Field : Type 0 where
  number : ℕ → Field
  flag : Bool → Field

-- `Debug` of `Scheduler`: the fields by name, in the order in which they are read and printed.
unfoldable pub debug_fields : Scheduler → Prog (List (String × Field))
unfolding tasks_in_flight cpu_count
debug_fields s = do
  in_flight ← tasks_in_flight
  shutdown ← call Op.load_shutdown
  ret (
      ("worker_count", Field.number s.worker_count)
      ∷ ("tasks_in_flight", Field.number in_flight)
      ∷ ("shutdown", Field.flag shutdown)
      ∷ ("cpu_count", Field.number (cpu_count s.topology))
      ∷ ("pin_workers", Field.flag s.pin_workers)
      ∷ ("queue_capacity", Field.number s.queue_capacity)
      ∷ [])
