-- ===== src/Examples/Moments.antt =====
-- A client that submits two tasks and begins the shutdown, and one worker, at some moments.
use libcortlet_upgradesched.Prelude.{
  ℕ, zero, suc, ◌+◌, ◌≤◌, ◌<◌, ◌≡◌, refl, arith, true, false, none, some, List, [], ◌∷◌, ◌++◌,
  sum_by, sum_below, wrap,
}
use libcortlet_upgradesched.Examples.{turns_of}
use libcortlet_upgradesched.Task.{TaskPriority, fairness_due, record_task}
use libcortlet_upgradesched.Stats.{Event}
use libcortlet_upgradesched.Platform.Reference.{
  reference, reference-Crossbeam, reference-ParkingLot,
}
use libcortlet_upgradesched.Scheduler
use libcortlet_upgradesched.Worker
use libcortlet_upgradesched.Machine.Perform.{perform}
use libcortlet_upgradesched.Steal.{round_robin_victims}
use libcortlet_upgradesched.Effects.{stored}
use libcortlet_upgradesched.Spec.{Bag, only, units, Reaches}
use libcortlet_upgradesched.System.{Turn, System, run}
use libcortlet_upgradesched.System.Calls.{Call, start}
use libcortlet_upgradesched.System.History.{weight, published, executed}
use libcortlet_upgradesched.System.Counters.{each}
use libcortlet_upgradesched.System.Locking.{needs_lock, is_apart, apart_bit, waking_bit}
use libcortlet_upgradesched.System.Exclusion.{
  needs_lock-exclusive, is_apart-unlocked, sleeping_workers-le,
}
use libcortlet_upgradesched.System.Tally.{
  times, counter, has_ended, times-published, counter-completion, counter-submission,
}
use libcortlet_upgradesched.System.Refinement.{actions, run-Reaches}
use libcortlet_upgradesched.System.Ended.{worker-drained}
use libcortlet_upgradesched.System.Invariant.{queued}
use libcortlet_upgradesched.System.Safety.{about_to_execute}
use libcortlet_upgradesched.Machine.{ret}

abbrev two_calls : ℕ → List Call
two_calls zero =
    Call.push 2 7 5 TaskPriority.high none
    ∷ Call.push 2 8 5 TaskPriority.low (some 9)
    ∷ Call.shutdown
    ∷ []
two_calls (suc zero) = Call.work 6 0 1 ∷ []
two_calls _ = []

abbrev after : List Turn → System reference (Unit {0})
after turns = run 2 turns (start reference 1 2 two_calls)

-- The worker alone finds nothing, and is about to block.
abbrev looking : List Turn
looking = turns_of 1 17

-- All tasks are executed, and both threads have ended.
abbrev finished : List Turn
finished = turns_of 0 40 ++ turns_of 1 60

test_at_lock : needs_lock ((after looking).threads 1) ≡ true
unfolding run start Scheduler.push_internal Scheduler.shutdown Worker.worker_main perform
    fairness_due record_task round_robin_victims
test_at_lock = refl

test_apart : is_apart ((after finished).threads 1) ≡ true
unfolding run start Scheduler.push_internal Scheduler.shutdown Worker.worker_main perform
    fairness_due record_task round_robin_victims
test_apart = refl

test_settled : (after finished).store.shared.tasks_in_flight ≡ 0
unfolding run start Scheduler.push_internal Scheduler.shutdown Worker.worker_main perform
    fairness_due record_task round_robin_victims
test_settled = refl

test_ended : (i : ℕ) → i < 2 → has_ended ((after finished).threads i) ≡ true
unfolding run start Scheduler.push_internal Scheduler.shutdown Worker.worker_main perform
    fairness_due record_task round_robin_victims
test_ended zero h = refl
test_ended (suc zero) h = refl
test_ended (suc (suc i)) h = absurd (omega arith)

needs_lock-exclusive_example :
    (◌≡◌ {A = ℕ} 1 1) × ((after looking).store.shared.sleep_lock ≡ some 1)
needs_lock-exclusive_example =
    needs_lock-exclusive reference reference-Crossbeam 2 1 2 (omega arith) two_calls looking
      reference-ParkingLot 1 1 test_at_lock test_at_lock

is_apart-unlocked_example : ¬ ((after finished).store.shared.sleep_lock ≡ some 1)
is_apart-unlocked_example =
    is_apart-unlocked reference reference-Crossbeam 2 1 2 (omega arith) two_calls finished
      reference-ParkingLot 1 test_apart

sleeping_workers-le_example :
    ((after looking).store.shared.sleeping_workers + sum_below apart_bit 2 (after looking).threads
      ≤ 2)
    × (sum_below waking_bit 2 (after looking).threads
        ≤ (after looking).store.shared.sleeping_workers)
sleeping_workers-le_example =
    sleeping_workers-le reference reference-Crossbeam 2 1 2 (omega arith) two_calls looking
      (omega arith)

abbrev so_many : Event → ℕ
so_many = times reference reference-Crossbeam 2 1 2 (omega arith) two_calls finished

abbrev counted : Event → ℕ
counted = counter reference reference-Crossbeam 2 1 2 (omega arith) two_calls finished

times-published_example :
    ((e : Event) → counted e ≡ wrap (so_many e))
    × (so_many Event.completion ≤ sum_by (executed each) (after finished).trace)
    × (sum_by (executed each) (after finished).trace ≤ so_many Event.completion + 2)
    × (sum_by (executed each) (after finished).trace
        ≤ sum_by (published each) (after finished).trace)
    × (so_many Event.submission ≤ sum_by (published each) (after finished).trace)
    × (sum_by (published each) (after finished).trace ≤ so_many Event.submission + 2)
    × (so_many Event.steal_success + so_many Event.steal_failure ≤ so_many Event.steal_attempt)
times-published_example =
    times-published reference reference-Crossbeam 2 1 2 (omega arith) two_calls finished

counter-completion_example :
    (so_many Event.completion ≡ sum_by (published each) (after finished).trace)
    × (counted Event.completion ≡ wrap (sum_by (published each) (after finished).trace))
counter-completion_example =
    counter-completion reference reference-Crossbeam 2 1 2 (omega arith) two_calls finished
      (omega arith) test_settled

counter-submission_example : counted Event.submission ≡ counted Event.completion
counter-submission_example =
    counter-submission reference reference-Crossbeam 2 1 2 (omega arith) two_calls finished
      (omega arith) test_settled test_ended

run-Reaches_example :
    (bag : Bag) × Reaches (actions (after finished).trace) bag
    × ((f a : ℕ)
        → (stored reference (weight (only f a)) (after finished).store.shared.queues
            ≤ units f a bag)
          × (units f a bag + sum_by (executed (only f a)) (after finished).trace
              ≡ sum_by (published (only f a)) (after finished).trace))
run-Reaches_example =
    run-Reaches reference reference-Crossbeam 2 1 2 (omega arith) two_calls finished

test_worker_ended : (after finished).threads 1 ≡ ret tt
unfolding run start Scheduler.push_internal Scheduler.shutdown Worker.worker_main perform
    fairness_due record_task round_robin_victims
test_worker_ended = refl

worker-drained_example :
    ((after finished).store.shared.shutdown ≡ true)
    × (queued (after finished) ≡ 0)
    × (about_to_execute ((after finished).threads 0) ≡ false)
    × (sum_by (executed each) (after finished).trace
        ≡ sum_by (published each) (after finished).trace)
worker-drained_example =
    worker-drained reference reference-Crossbeam 2 1 2 (omega arith) (omega arith) two_calls
      finished each 6 0 1 1 0 refl test_worker_ended (omega arith)
