-- ===== src/Examples/Interface.antt =====
-- The theorems on construction, topology and the C interface at concrete arguments.
use libcortlet_upgradesched.Prelude.{
  arith, wrap, ◌+◌, List, ℕ, ◌≡◌, Bool, true, false, none, some, [], ◌∷◌, map, ltb, ◌↔◌,
}
use libcortlet_upgradesched.Task.{TaskPriority}
use libcortlet_upgradesched.Platform.Reference.{reference}
use libcortlet_upgradesched.Machine.{◌>>◌}
use libcortlet_upgradesched.Machine.Alone.{alone}
use libcortlet_upgradesched.Scheduler
use libcortlet_upgradesched.Scheduler.{Result}
use libcortlet_upgradesched.System.Calls.{store_new}
use libcortlet_upgradesched.Topology.{detect, parallelism, cpu_for_worker}
use libcortlet_upgradesched.Topology.Assignment.{cpu_for_worker-detect}
use libcortlet_upgradesched.Startup.{Scheduler, create, thread_of, started}
use mathlib.Core.List.{reverse}
use libcortlet_upgradesched.Machine.{ret, ◌>>=◌, ◌>>◌}
use libcortlet_upgradesched.Worker.{begin_shutdown}
use libcortlet_upgradesched.Startup.Lifetime.{dropped, create-dropped}
use libcortlet_upgradesched.Startup.Lifecycle.{settle, create-settle}
use libcortlet_upgradesched.Ffi.{ok, queue_full, code, result_code, pos, negsuc, map_priority}
use libcortlet_upgradesched.Ffi.Submit.{
  cortlet_sched_push, cortlet_sched_push_priority, cortlet_sched_push_group,
  cortlet_sched_push_group_priority, cortlet_sched_try_push, cortlet_sched_try_push_priority,
  cortlet_sched_try_push_group, cortlet_sched_try_push_group_priority,
}
use libcortlet_upgradesched.Ffi.Info.{CortletSchedulerStats, cortlet_sched_get_stats}
use libcortlet_upgradesched.Ffi.Agreement.{submit, given, ungrouped, normal, submissions-submit}
use libcortlet_upgradesched.Ffi.Queries.{reported, record_all, occurrences, record_all-get_stats}
use libcortlet_upgradesched.Stats.{Event, read_event, stats_new}
use libcortlet_upgradesched.Machine.Store.{Store}
use libcortlet_upgradesched.Ffi.Codes.{map_priority_iff, code-result_code}
use libcortlet_upgradesched.Examples.Parts.{loaded}

-- The operating system gives threads to workers 0 and 1 only.
abbrev two_spawn : ℕ → Bool
two_spawn id = ltb id 2

create-settle_example :
    create two_spawn (detect (some 4)) true 3 16
    ≡ settle false (map (thread_of two_spawn (detect (some 4)) true) (0 ∷ 1 ∷ [])) (λ workers.
      started (record {
        workers = workers;
        worker_count = 3;
        topology = detect (some 4);
        pin_workers = true;
        queue_capacity = 16;
      }))
create-settle_example = create-settle two_spawn (detect (some 4)) true 3 16

create-dropped_example : (create two_spawn (detect (some 4)) true 2 16 >>= dropped) ≡ (
    begin_shutdown >> ret (reverse (map (thread_of two_spawn (detect (some 4)) true) (0 ∷ 1 ∷ []))))
create-dropped_example = create-dropped two_spawn (detect (some 4)) true 2 16

cpu_for_worker-detect_example :
    cpu_for_worker (detect (some 4)) 6 ≡ some (record { logical_id = 2 })
unfolding parallelism
cpu_for_worker-detect_example = cpu_for_worker-detect (some 4) 6 (λ e. absurd (cc))

abbrev scheduler : Scheduler
scheduler = record {
  workers = [];
  worker_count = 2;
  topology = record { cpus = [] };
  pin_workers = false;
  queue_capacity = 16;
}

submissions-submit_example :
    (cortlet_sched_push 3 (some scheduler) (some 7) 5
      ≡ submit 3 5 (some scheduler) (some 7) normal ungrouped)
    × (cortlet_sched_push_priority 3 (some scheduler) (some 7) 5 (pos 9)
        ≡ submit 3 5 (some scheduler) (some 7) (map_priority (pos 9)) ungrouped)
    × (cortlet_sched_push_group 3 (some scheduler) none (some 7) 5
        ≡ submit 3 5 (some scheduler) (some 7) normal (given none))
    × (cortlet_sched_push_group_priority 3 (some scheduler) none (some 7) 5 (pos 9)
        ≡ submit 3 5 (some scheduler) (some 7) (map_priority (pos 9)) (given none))
    × (cortlet_sched_try_push 3 (some scheduler) (some 7) 5
        ≡ submit 3 5 (some scheduler) (some 7) normal ungrouped)
    × (cortlet_sched_try_push_priority 3 (some scheduler) (some 7) 5 (pos 9)
        ≡ submit 3 5 (some scheduler) (some 7) (map_priority (pos 9)) ungrouped)
    × (cortlet_sched_try_push_group 3 (some scheduler) none (some 7) 5
        ≡ submit 3 5 (some scheduler) (some 7) normal (given none))
    × (cortlet_sched_try_push_group_priority 3 (some scheduler) none (some 7) 5 (pos 9)
        ≡ submit 3 5 (some scheduler) (some 7) (map_priority (pos 9)) (given none))
submissions-submit_example = submissions-submit 3 5 (some scheduler) (some 7) none (pos 9)

map_priority_iff_example : (map_priority (negsuc 1) ≡ some TaskPriority.high) ↔ (negsuc 1 ≡ pos 2)
map_priority_iff_example = map_priority_iff (negsuc 1) TaskPriority.high

code-result_code_example :
    (code ok ≡ code queue_full → ok ≡ queue_full)
    × ((code (result_code Scheduler.stopped) ≡ 0) ↔ (Scheduler.stopped ≡ Result.ok tt))
code-result_code_example = code-result_code ok queue_full Scheduler.stopped

abbrev two_steals : List Event
two_steals =
    Event.steal_attempt ∷ Event.steal_failure ∷ Event.steal_attempt ∷ Event.steal_success ∷ []

record_all-get_stats_example :
    (out : CortletSchedulerStats) × (s' : Store reference) × (alone reference 0 1
        (record_all two_steals >> cortlet_sched_get_stats (some scheduler) true)
        loaded
      ≡ some ((ok, some out), s'))
    × ((e : Event)
        → reported out e ≡ wrap (read_event e loaded.shared.stats + occurrences e two_steals))
    × (out.outstanding ≡ 2)
unfolding read_event store_new stats_new
record_all-get_stats_example =
    record_all-get_stats reference 0 1 scheduler two_steals loaded (elim [
      | Event.submission ↦ omega arith
      | Event.completion ↦ omega arith
      | Event.queue_full ↦ omega arith
      | Event.steal_attempt ↦ omega arith
      | Event.steal_success ↦ omega arith
      | Event.fairness_yield ↦ omega arith
      | Event.steal_failure ↦ omega arith
    ])
