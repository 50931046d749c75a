-- ===== src/Examples/Runs.antt =====
-- Runs of a client, a worker and a waiter.
use libcortlet_upgradesched.Prelude.{
  ℕ, zero, suc, ◌≤◌, ◌≡◌, refl, arith, true, false, none, some, List, [], ◌∷◌, ◌++◌, sum_by, ◌==◌,
  ◌&&◌, if◌then◌else◌,
}
use libcortlet_upgradesched.Examples.{turns_of}
use libcortlet_upgradesched.Task.{TaskPriority, fairness_due, record_task}
use libcortlet_upgradesched.Platform.Reference.{reference, reference-Crossbeam}
use libcortlet_upgradesched.Scheduler
use libcortlet_upgradesched.Worker
use libcortlet_upgradesched.Machine.Perform.{perform}
use libcortlet_upgradesched.Steal.{round_robin_victims}
use libcortlet_upgradesched.Effects.{InLanes}
use libcortlet_upgradesched.System.{Turn, System, run}
use libcortlet_upgradesched.System.Calls.{Call, start}
use libcortlet_upgradesched.System.Invariant.{queued, queued_of}
use libcortlet_upgradesched.System.Safety.{
  about_to_execute, about_to_complete, in_flight-le-capacity, in_flight_zero, run-InLanes,
  group_zero,
}
use libcortlet_upgradesched.System.History.{published, executed, executed-eq-published}
use libcortlet_upgradesched.System.Unbounded.{settled_at_zero, shutdown_at_zero}
use libcortlet_upgradesched.System.Shutdown.{shutdown_final}

-- A client that makes two submissions and begins the shutdown, one worker, and a waiter.
abbrev calls : ℕ → List Call
calls zero =
    Call.push 2 7 5 TaskPriority.high none
    ∷ Call.push 2 8 5 TaskPriority.low (some 9)
    ∷ Call.shutdown
    ∷ []
calls (suc zero) = Call.work 6 0 1 ∷ []
calls _ = Call.wait 3 ∷ []

abbrev submitted_only : List Turn
submitted_only = turns_of 0 30

abbrev all_turns : List Turn
all_turns = turns_of 0 30 ++ turns_of 1 60

abbrev after : List Turn → System reference (Unit {0})
after turns = run 3 turns (start reference 1 2 calls)

test_in_flight : (after submitted_only).store.shared.tasks_in_flight ≡ 2
unfolding run start Scheduler.push_internal Scheduler.shutdown perform
test_in_flight = refl

test_drained : (after all_turns).store.shared.tasks_in_flight ≡ 0
unfolding run start Scheduler.push_internal Scheduler.shutdown Worker.worker_main perform
    fairness_due record_task round_robin_victims
test_drained = refl

test_stopping : (after all_turns).store.shared.shutdown ≡ true
unfolding run start Scheduler.push_internal Scheduler.shutdown Worker.worker_main perform
    fairness_due record_task round_robin_victims
test_stopping = refl

test_group : ((after all_turns).store.groups 9).tasks_in_flight ≡ 0
unfolding run start Scheduler.push_internal Scheduler.shutdown Worker.worker_main perform
    fairness_due record_task round_robin_victims
test_group = refl

-- Counts the task of function 7 and argument 5.
abbrev seven : ℕ → ℕ → ℕ
seven function argument = if function == 7 && argument == 5 then 1 else 0

in_flight-le-capacity_example :
    ((after submitted_only).store.shared.tasks_in_flight ≤ 2)
    × (queued (after submitted_only) ≤ (after submitted_only).store.shared.tasks_in_flight)
in_flight-le-capacity_example =
    in_flight-le-capacity reference reference-Crossbeam 3 1 2 (omega arith) (omega arith) calls
      submitted_only

in_flight_zero_example :
    (queued (after all_turns) ≡ 0) × (about_to_execute ((after all_turns).threads 1) ≡ false)
in_flight_zero_example =
    in_flight_zero reference reference-Crossbeam 3 1 2 (omega arith) (omega arith) calls all_turns 1
      (omega arith) test_drained

run-InLanes_example : InLanes reference (after submitted_only).store.shared.queues
run-InLanes_example =
    run-InLanes reference reference-Crossbeam 3 1 2 (omega arith) (omega arith) calls submitted_only

group_zero_example :
    (queued_of 9 (after all_turns) ≡ 0)
    × (about_to_complete 9 ((after all_turns).threads 1) ≡ false)
group_zero_example =
    group_zero reference reference-Crossbeam 3 1 2 (omega arith) (omega arith) calls all_turns 9 1
      (omega arith) (omega arith) test_group

executed-eq-published_example :
    sum_by (executed seven) (after all_turns).trace
    ≡ sum_by (published seven) (after all_turns).trace
executed-eq-published_example =
    executed-eq-published reference reference-Crossbeam 3 1 2 (omega arith) calls all_turns seven
      (omega arith) test_drained

shutdown_final_example :
    let t = run 3 (turns_of 0 5) (after all_turns) in
    (t.store.shared.shutdown ≡ true) × (queued t ≡ 0) × (about_to_execute (t.threads 1) ≡ false)
shutdown_final_example =
    shutdown_final reference reference-Crossbeam 3 1 2 (omega arith) (omega arith) calls all_turns
      (turns_of 0 5) 1 (omega arith) test_stopping test_drained

-- The same threads with a scheduler without a limit.
abbrev without_limit : System reference (Unit {0})
without_limit = run 3 all_turns (start reference 1 0 calls)

test_without_limit : without_limit.store.shared.tasks_in_flight ≡ 0
unfolding run start Scheduler.push_internal Scheduler.shutdown Worker.worker_main perform
    fairness_due record_task round_robin_victims
test_without_limit = refl

test_nothing_queued : queued without_limit ≡ 0
unfolding run start Scheduler.push_internal Scheduler.shutdown Worker.worker_main perform
    fairness_due record_task round_robin_victims
test_nothing_queued = refl

settled_at_zero_example :
    (queued without_limit ≡ 0)
    × (about_to_execute (without_limit.threads 1) ≡ false)
    × (sum_by (executed seven) without_limit.trace ≡ sum_by (published seven) without_limit.trace)
settled_at_zero_example =
    settled_at_zero reference reference-Crossbeam 3 1 0 (omega arith) calls all_turns seven 1
      (omega arith) (omega (arith, test_nothing_queued)) test_without_limit

test_without_limit_stopping : without_limit.store.shared.shutdown ≡ true
unfolding run start Scheduler.push_internal Scheduler.shutdown Worker.worker_main perform
    fairness_due record_task round_robin_victims
test_without_limit_stopping = refl

shutdown_at_zero_example :
    let t = run 3 (turns_of 0 5) without_limit in
    (t.store.shared.shutdown ≡ true) × (queued t ≡ 0) × (about_to_execute (t.threads 1) ≡ false)
shutdown_at_zero_example =
    shutdown_at_zero reference reference-Crossbeam 3 1 0 (omega arith) calls all_turns
      (turns_of 0 5) 1 (omega arith) (omega (arith, test_nothing_queued))
      test_without_limit_stopping test_without_limit
