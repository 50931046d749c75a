-- ===== src/Examples/Wakeups.antt =====
-- Runs that end with threads that wait for a notification that no thread is left to give.
use libcortlet_upgradesched.Prelude.{
  ℕ, zero, suc, ◌<◌, ◌≡◌, refl, arith, true, none, List, [], ◌∷◌, ◌++◌,
}
use libcortlet_upgradesched.Examples.{turns_of}
use libcortlet_upgradesched.Task.{TaskPriority, fairness_due, record_task}
use libcortlet_upgradesched.Platform.Reference.{reference}
use libcortlet_upgradesched.Scheduler
use libcortlet_upgradesched.Worker
use libcortlet_upgradesched.Machine.Perform.{perform}
use libcortlet_upgradesched.Steal.{round_robin_victims}
use libcortlet_upgradesched.System.{Turn, System, run}
use libcortlet_upgradesched.System.Calls.{Call, start}
use libcortlet_upgradesched.System.Invariant.{queued}
use libcortlet_upgradesched.System.Deadlock.{Rests, run-Rests}

-- Between the last look of the worker and its sleep, a submission finds a sleeping worker and
-- notifies nobody: the task stays queued, and both threads stay blocked.
abbrev lone_calls : ℕ → List Call
lone_calls zero = Call.push 2 7 5 TaskPriority.high none ∷ Call.wait 3 ∷ []
lone_calls (suc zero) = Call.work 6 0 1 ∷ []
lone_calls _ = []

abbrev lost_wakeup : List Turn
lost_wakeup = turns_of 1 17 ++ turns_of 0 30 ++ turns_of 1 60 ++ turns_of 0 30 ++ turns_of 1 60

abbrev after_lost_wakeup : System reference (Unit {0})
after_lost_wakeup = run 2 lost_wakeup (start reference 1 2 lone_calls)

test_lost_wakeup : queued after_lost_wakeup ≡ 1
unfolding run start Scheduler.push_internal Scheduler.shutdown Worker.worker_main perform
    fairness_due record_task round_robin_victims Scheduler.wait
test_lost_wakeup = refl

lost_wakeup-Rests :
    (i : ℕ) → i < 2 → Rests i (after_lost_wakeup).store ((after_lost_wakeup).threads i)
unfolding run start Scheduler.push_internal Scheduler.shutdown Worker.worker_main perform
    fairness_due record_task round_robin_victims Scheduler.wait
lost_wakeup-Rests zero h = refl
lost_wakeup-Rests (suc zero) h = refl
lost_wakeup-Rests (suc (suc i)) h = absurd (omega arith)

test_stays_lost : run 2 (turns_of 0 9 ++ turns_of 1 9) after_lost_wakeup ≡ after_lost_wakeup
test_stays_lost = run-Rests 2 (turns_of 0 9 ++ turns_of 1 9) after_lost_wakeup lost_wakeup-Rests

-- A worker sleeps; a submission has its slot when a caller of `wait` blocks behind it; its notification
-- wakes that caller, which blocks again, and not the worker.
abbrev crossed_calls : ℕ → List Call
crossed_calls zero = Call.push 2 7 5 TaskPriority.high none ∷ []
crossed_calls (suc zero) = Call.work 6 0 1 ∷ []
crossed_calls _ = Call.wait 6 ∷ []

abbrev crossed_wakeup : List Turn
crossed_wakeup =
    turns_of 1 30 ++ turns_of 0 3 ++ turns_of 2 5 ++ turns_of 0 9 ++ turns_of 2 9 ++ turns_of 1 30

abbrev after_crossed_wakeup : System reference (Unit {0})
after_crossed_wakeup = run 3 crossed_wakeup (start reference 1 2 crossed_calls)

test_crossed_wakeup : queued after_crossed_wakeup ≡ 1
unfolding run start Scheduler.push_internal Scheduler.shutdown Worker.worker_main perform
    fairness_due record_task round_robin_victims Scheduler.wait
test_crossed_wakeup = refl

crossed_wakeup-Rests :
    (i : ℕ) → i < 3 → Rests i after_crossed_wakeup.store (after_crossed_wakeup.threads i)
unfolding run start Scheduler.push_internal Scheduler.shutdown Worker.worker_main perform
    fairness_due record_task round_robin_victims Scheduler.wait
crossed_wakeup-Rests zero h = tt
crossed_wakeup-Rests (suc zero) h = refl
crossed_wakeup-Rests (suc (suc zero)) h = refl
crossed_wakeup-Rests (suc (suc (suc i))) h = absurd (omega arith)

-- A caller of `wait` has read a count of one when the worker completes the task and notifies; then it
-- blocks, with a count of zero.
abbrev missed_completion : List Turn
missed_completion = turns_of 0 30 ++ turns_of 2 2 ++ turns_of 1 30 ++ turns_of 2 9 ++ turns_of 1 30

abbrev after_missed_completion : System reference (Unit {0})
after_missed_completion = run 3 missed_completion (start reference 1 2 crossed_calls)

test_missed_completion : after_missed_completion.store.shared.tasks_in_flight ≡ 0
unfolding run start Scheduler.push_internal Scheduler.shutdown Worker.worker_main perform
    fairness_due record_task round_robin_victims Scheduler.wait
test_missed_completion = refl

missed_completion-Rests :
    (i : ℕ) → i < 3 → Rests i after_missed_completion.store (after_missed_completion.threads i)
unfolding run start Scheduler.push_internal Scheduler.shutdown Worker.worker_main perform
    fairness_due record_task round_robin_victims Scheduler.wait
missed_completion-Rests zero h = tt
missed_completion-Rests (suc zero) h = refl
missed_completion-Rests (suc (suc zero)) h = refl
missed_completion-Rests (suc (suc (suc i))) h = absurd (omega arith)

test_waits_at_zero : reference.is_waiting 2 after_missed_completion.store.shared.wake ≡ true
unfolding run start Scheduler.push_internal Scheduler.shutdown Worker.worker_main perform
    fairness_due record_task round_robin_victims Scheduler.wait
test_waits_at_zero = refl

-- A submission has its slot when shutdown begins and a caller of `wait` blocks; it gives the slot
-- back and notifies nobody.
abbrev refused_calls : ℕ → List Call
refused_calls zero = Call.push 2 7 5 TaskPriority.high none ∷ []
refused_calls (suc zero) = Call.shutdown ∷ []
refused_calls _ = Call.wait 6 ∷ []

abbrev silent_release : List Turn
silent_release = turns_of 0 3 ++ turns_of 1 5 ++ turns_of 2 5 ++ turns_of 0 9 ++ turns_of 2 9

abbrev after_silent_release : System reference (Unit {0})
after_silent_release = run 3 silent_release (start reference 1 2 refused_calls)

test_silent_release : after_silent_release.store.shared.tasks_in_flight ≡ 0
unfolding run start Scheduler.push_internal Scheduler.shutdown perform Scheduler.wait
test_silent_release = refl

silent_release-Rests :
    (i : ℕ) → i < 3 → Rests i after_silent_release.store (after_silent_release.threads i)
unfolding run start Scheduler.push_internal Scheduler.shutdown perform Scheduler.wait
silent_release-Rests zero h = tt
silent_release-Rests (suc zero) h = tt
silent_release-Rests (suc (suc zero)) h = refl
silent_release-Rests (suc (suc (suc i))) h = absurd (omega arith)

test_still_waiting : reference.is_waiting 2 after_silent_release.store.shared.wake ≡ true
unfolding run start Scheduler.push_internal Scheduler.shutdown perform Scheduler.wait
test_still_waiting = refl
