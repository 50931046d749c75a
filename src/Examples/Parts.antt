-- ===== src/Examples/Parts.antt =====
-- Calls of single functions, and their theorems at concrete arguments.
use libcortlet_upgradesched.Prelude.{◌≡◌, refl, arith, true, false, none, some, [], ◌∷◌}
use libcortlet_upgradesched.Task.{Task, TaskPriority, PriorityState, fairness_due}
use libcortlet_upgradesched.Steal.{StealState, StealPolicy, steal_state_new, victims}
use libcortlet_upgradesched.Steal.Victims.{times, times-victims}
use libcortlet_upgradesched.Platform.Reference.{reference}
use libcortlet_upgradesched.Machine.{◌>>=◌, ◌>>◌, ret}
use libcortlet_upgradesched.Machine.Store.{Store}
use libcortlet_upgradesched.Machine.Alone.{alone}
use libcortlet_upgradesched.Machine.Monitor.{Watched}
use libcortlet_upgradesched.Group
use libcortlet_upgradesched.Group.Membership.{observe, add_task-task_completed, close-add_task}
use libcortlet_upgradesched.Queue.{pop_for_worker}
use libcortlet_upgradesched.Queue.Injectors.{NoRetry}
use libcortlet_upgradesched.Queue.Fairness.{Always, StreakLaw, pop_for_worker-StreakLaw}
use libcortlet_upgradesched.Worker.{Worker, worker_round, worker_main, execute_task}
use libcortlet_upgradesched.Worker.Streak.{RoundInLimit, worker_round-InLimit}
use libcortlet_upgradesched.Worker.Completion.{view, completion, alone-execute_task}
use libcortlet_upgradesched.Worker.Watch.{Seen, worker_watch}
use libcortlet_upgradesched.Worker.Watch.Rounds.{Informed, worker_main-Watched}
use libcortlet_upgradesched.Scheduler
use libcortlet_upgradesched.Scheduler.{Result}
use libcortlet_upgradesched.Scheduler.Submit.{submission, alone-push_internal}
use libcortlet_upgradesched.Scheduler.Ledger.{ledger_watch, Settled, blank}
use libcortlet_upgradesched.Scheduler.Rollback.{push_internal-Watched}
use libcortlet_upgradesched.Scheduler.Termination.{EndsWithin, push_internal-EndsWithin}
use libcortlet_upgradesched.Scheduler.Waiting.{in_flight_watch, count_watch, AtZero, waits-AtZero}
use libcortlet_upgradesched.System.Calls.{store_new}

abbrev pub fresh : Store reference
fresh = store_new reference 2

abbrev pub low_task : Task
low_task = record { function = 7; argument = 5; priority = TaskPriority.low; group = some 9 }

abbrev pub high_task : Task
high_task = record { function = 8; argument = 6; priority = TaskPriority.high; group = none }

-- One LOW and one HIGH task in the injectors, one task in flight.
abbrev pub loaded : Store reference
loaded = record fresh {
  shared = record (fresh.shared) {
    tasks_in_flight = 2;
    queues = record (fresh.shared.queues) { high = high_task ∷ []; low = low_task ∷ [] };
  };
}

-- With chance 1 the reference platform answers no `Retry`.
pub never_retry : NoRetry reference 1
never_retry [] d = λ e. absurd (cc)
never_retry (t ∷ q) d = λ e. absurd (cc)

abbrev pub steal_state : StealState
steal_state = steal_state_new 0 2 StealPolicy.round_robin

-- A worker that has taken 32 HIGH tasks one after the other.
abbrev pub long_streak : PriorityState
long_streak = record { high_streak = 32 }

long_streak_due : fairness_due long_streak ≡ true
unfolding fairness_due
long_streak_due = refl

pop_for_worker-StreakLaw_example :
    Always (StreakLaw long_streak) (pop_for_worker steal_state 0 long_streak)
pop_for_worker-StreakLaw_example = pop_for_worker-StreakLaw long_streak steal_state 0

abbrev worker : Worker
worker = record { steal_state = steal_state; priority_state = long_streak }

worker_round-InLimit_example : Always RoundInLimit (worker_round 0 worker)
worker_round-InLimit_example = worker_round-InLimit 0 worker (omega arith)

-- A worker that has read nothing yet.
abbrev awake : Seen
awake = record {
  checked = false;
  announced = false;
  stop = false;
  zero = false;
  high = false;
  normal = false;
  low = false;
  own = false;
}

worker_main-Watched_example : Watched (worker_watch 0) Informed awake (worker_main 5 0 2)
worker_main-Watched_example = worker_main-Watched 5 0 2 awake

times-victims_example : times 1 (victims steal_state).0 ≡ 1
unfolding steal_state_new
times-victims_example = times-victims steal_state 1 (omega arith) (omega arith)

alone-push_internal_example :
    alone reference 0 1 (Scheduler.push_internal 1 2 7 5 TaskPriority.low (some 9)) loaded
    ≡ some (submission reference 2 1 low_task loaded)
alone-push_internal_example =
    alone-push_internal reference 2 0 1 0 7 5 TaskPriority.low (some 9) loaded (λ e. absurd (cc))
      (omega arith)

push_internal-EndsWithin_example :
    EndsWithin 3 (Scheduler.push_internal 4 2 7 5 TaskPriority.low (some 9))
push_internal-EndsWithin_example = push_internal-EndsWithin 3 2 7 5 TaskPriority.low (some 9)

waits-AtZero_example :
    Watched in_flight_watch AtZero false (Scheduler.wait 4)
    × Watched (count_watch 9) AtZero false (Group.wait 4 9)
waits-AtZero_example = waits-AtZero 9 4 false

alone-execute_task_example :
    view reference 9 (alone reference 1 1 (execute_task low_task) loaded)
    ≡ view reference 9 (some (tt, completion reference low_task loaded))
alone-execute_task_example = alone-execute_task reference 1 1 9 low_task loaded

add_task-task_completed_example :
    observe reference 9 (
      alone reference 0 1
        (Group.add_task 9 >>= λ joined. Group.task_completed 9 >> ret joined)
        fresh)
    ≡ some (true, 0, false, [])
unfolding store_new
add_task-task_completed_example = add_task-task_completed reference 9 0 1 fresh refl (omega arith)

close-add_task_example :
    observe reference 9 (alone reference 0 1 (Group.close 9 >> Group.add_task 9) fresh)
    ≡ some (false, 0, true, [])
unfolding store_new
close-add_task_example = close-add_task reference 9 0 1 fresh

push_internal-Watched_example :
    Watched
      (ledger_watch (some 9))
      (Settled (some 9))
      blank
      (Scheduler.push_internal 4 2 7 5 TaskPriority.low (some 9))
push_internal-Watched_example = push_internal-Watched 4 2 7 5 TaskPriority.low (some 9)
