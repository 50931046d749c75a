-- ===== src/Ffi/Info.antt =====
-- The other functions of src/ffi.rs: lifecycle, waiting, groups and queries.
use libcortlet_upgradesched.Prelude.{
  ℕ, Bool, true, false, Option, none, some, List, [], not, ◌==◌, if◌then◌else◌, update,
}
use libcortlet_upgradesched.Platform.{Platform}
use libcortlet_upgradesched.Machine.Store.{Store, group_new}
use libcortlet_upgradesched.Machine.{Prog, ret, ◌>>=◌, ◌>>◌}
use libcortlet_upgradesched.Group
use libcortlet_upgradesched.Scheduler
use libcortlet_upgradesched.Startup.{
  WorkerThread, Scheduler, Startup, started, creation_failed, from_config, new, drop,
}
use libcortlet_upgradesched.Startup.Info
use libcortlet_upgradesched.Ffi.{CortletResult, ok, invalid_argument, result_code, ℤ, pos, negsuc}

pub record CortletSchedulerConfig : Type 0 where
  pub worker_count : ℕ
  pub pin_workers : ℤ
  pub queue_capacity : ℕ

pub record CortletSchedulerStats : Type 0 where
  pub submitted : ℕ
  pub completed : ℕ
  pub rejected_full : ℕ
  pub steals_attempted : ℕ
  pub steals_succeeded : ℕ
  pub steal_failures : ℕ
  pub fairness_yields : ℕ
  pub outstanding : ℕ

-- `Err(_)` becomes a null pointer.
unfoldable pub handle : Startup → Option Scheduler
handle (started s) = some s
handle (creation_failed joined) = none

unfoldable pub cortlet_sched_init : (ℕ → Bool) → (available : Option ℕ) → Prog (Option Scheduler)
unfolding new handle
cortlet_sched_init spawns available = do startup ← new spawns available; ret (handle startup)

unfoldable pub is_nonzero : ℤ → Bool
is_nonzero (pos n) = not (n == 0)
is_nonzero (negsuc n) = true

unfoldable pub cortlet_sched_init_ex :
    (ℕ → Bool) → (available : Option ℕ) → Option CortletSchedulerConfig → Prog (Option Scheduler)
unfolding from_config handle is_nonzero
cortlet_sched_init_ex spawns available none = ret none
cortlet_sched_init_ex spawns available (some config) = do
  startup ← from_config spawns available (record {
    worker_count = config.worker_count;
    pin_workers = is_nonzero config.pin_workers;
    queue_capacity = config.queue_capacity;
  })
  ret (handle startup)

-- The workers that the destruction joins.
unfoldable pub cortlet_sched_destroy : Option Scheduler → Prog (List WorkerThread)
unfolding drop
cortlet_sched_destroy none = ret []
cortlet_sched_destroy (some s) = drop s

unfoldable pub cortlet_sched_worker_count : Option Scheduler → ℕ
unfolding Info.worker_count
cortlet_sched_worker_count none = 0
cortlet_sched_worker_count (some s) = Info.worker_count s

unfoldable pub cortlet_sched_pin_workers : Option Scheduler → ℕ
unfolding Info.pin_workers
cortlet_sched_pin_workers none = 0
cortlet_sched_pin_workers (some s) = if Info.pin_workers s then 1 else 0

unfoldable pub cortlet_sched_queue_capacity : Option Scheduler → ℕ
unfolding Info.queue_capacity
cortlet_sched_queue_capacity none = 0
cortlet_sched_queue_capacity (some s) = Info.queue_capacity s

-- A new group; `address` is where the allocator puts it.
unfoldable pub cortlet_task_group_create :
    (P : Platform) → (address : ℕ) → Store P → Option ℕ × Store P
unfolding group_new
cortlet_task_group_create P address s =
    (some address, record s { groups = update s.groups address (group_new P) })

unfoldable pub cortlet_task_group_wait : (rounds : ℕ) → Option ℕ → Prog CortletResult
unfolding Group.wait
cortlet_task_group_wait rounds none = ret invalid_argument
cortlet_task_group_wait rounds (some g) = do Group.wait rounds g; ret ok

-- The handle goes away, and the group lives on while tasks refer to it.
unfoldable pub cortlet_task_group_destroy : Option ℕ → Prog (Unit {0})
unfolding Group.close
cortlet_task_group_destroy none = ret tt
cortlet_task_group_destroy (some g) = Group.close g

unfoldable pub cortlet_sched_wait : (rounds : ℕ) → Option Scheduler → Prog CortletResult
unfolding Scheduler.wait result_code
cortlet_sched_wait rounds none = ret invalid_argument
cortlet_sched_wait rounds (some s) = do r ← Scheduler.wait rounds; ret (result_code r)

-- `stats` tells whether the pointer to the output is not null; the output is written on success.
unfoldable pub cortlet_sched_get_stats :
    Option Scheduler → (stats : Bool) → Prog (CortletResult × Option CortletSchedulerStats)
unfolding Info.stats Scheduler.tasks_in_flight
cortlet_sched_get_stats none stats = ret (invalid_argument, none)
cortlet_sched_get_stats (some s) false = ret (invalid_argument, none)
cortlet_sched_get_stats (some s) true = do
  snapshot ← Info.stats
  outstanding ← Scheduler.tasks_in_flight
  ret (
    ok,
    some (record {
      submitted = snapshot.submitted;
      completed = snapshot.completed;
      rejected_full = snapshot.rejected_full;
      steals_attempted = snapshot.steals_attempted;
      steals_succeeded = snapshot.steals_succeeded;
      steal_failures = snapshot.steal_failures;
      fairness_yields = snapshot.fairness_yields;
      outstanding = outstanding;
    }),
  )

unfoldable pub cortlet_sched_shutdown : Option Scheduler → Prog CortletResult
unfolding Scheduler.shutdown
cortlet_sched_shutdown none = ret invalid_argument
cortlet_sched_shutdown (some s) = do Scheduler.shutdown; ret ok

unfoldable pub cortlet_sched_is_stopped : Option Scheduler → Prog ℕ
unfolding Scheduler.is_stopped
cortlet_sched_is_stopped none = ret 1
cortlet_sched_is_stopped (some s) = do
  stopped ← Scheduler.is_stopped
  ret (if stopped then 1 else 0)

unfoldable pub cortlet_sched_outstanding_tasks : Option Scheduler → Prog ℕ
unfolding Scheduler.outstanding_tasks
cortlet_sched_outstanding_tasks none = ret 0
cortlet_sched_outstanding_tasks (some s) = Scheduler.outstanding_tasks

unfoldable pub cortlet_sched_sleeping_workers : Option Scheduler → Prog ℕ
unfolding Scheduler.sleeping_workers
cortlet_sched_sleeping_workers none = ret 0
cortlet_sched_sleeping_workers (some s) = Scheduler.sleeping_workers

unfoldable pub cortlet_sched_high_burst_limit : ℕ
unfolding Info.high_burst_limit
cortlet_sched_high_burst_limit = Info.high_burst_limit
