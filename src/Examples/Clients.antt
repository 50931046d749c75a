-- ===== src/Examples/Clients.antt =====
-- A client that submits and waits beside a worker; and the start of a worker's thread.
use libcortlet_upgradesched.Prelude.{
  ℕ, ◌≤◌, ◌≡◌, refl, arith, true, false, Option, none, some, List, [], ◌∷◌, ◌++◌, sum_by, ltb,
  ==-eq, ==_refl, ◌==◌, if◌then◌else◌,
}
use libcortlet_upgradesched.Examples.{turns_of}
use libcortlet_upgradesched.Task.{TaskPriority, fairness_due, record_task}
use libcortlet_upgradesched.Platform.Reference.{reference, reference-Crossbeam}
use libcortlet_upgradesched.Scheduler
use libcortlet_upgradesched.Scheduler.{Result, ok}
use libcortlet_upgradesched.Worker
use libcortlet_upgradesched.Group
use libcortlet_upgradesched.Machine.{ret}
use libcortlet_upgradesched.Machine.Perform.{perform}
use libcortlet_upgradesched.Steal.{round_robin_victims}
use libcortlet_upgradesched.Spec.{only}
use libcortlet_upgradesched.System.{Turn, System, run}
use libcortlet_upgradesched.System.Calls.{Call}
use libcortlet_upgradesched.System.History.{executed}
use libcortlet_upgradesched.System.Client.{Request, accepted, boot_client}
use libcortlet_upgradesched.System.Client.Executed.{accepted-executed}
use libcortlet_upgradesched.Topology.{detect, parallelism}
use libcortlet_upgradesched.Topology.Pinning.{Libc, CpuSets}
use libcortlet_upgradesched.Startup.{thread_of}
use libcortlet_upgradesched.Startup.Threads.{runs, Only, worker_thread, worker_thread-worker_main}

abbrev requests : List Request
requests =
    record { function = 7; argument = 5; priority = TaskPriority.high; group = none }
    ∷ record { function = 8; argument = 5; priority = TaskPriority.low; group = some 9 }
    ∷ []

abbrev worker_calls : ℕ → List Call
worker_calls i = Call.work 6 0 1 ∷ []

-- The client submits, the worker executes, and the client waits for group 9.
abbrev turns : List Turn
turns = turns_of 0 22 ++ turns_of 1 60 ++ turns_of 0 20

abbrev after_wait : System reference (List (Result (Unit {0})))
after_wait = run 2 turns (boot_client reference 1 2 3 0 (some 9) requests worker_calls)

abbrev both_accepted : List (Result (Unit {0}))
both_accepted = ok tt ∷ ok tt ∷ []

test_client_ended : after_wait.threads 0 ≡ ret both_accepted
unfolding run boot_client Scheduler.push_internal Group.wait Worker.worker_main perform fairness_due
    record_task round_robin_victims
test_client_ended = refl

accepted-executed_example :
    accepted (only 8 5) (some 9) requests both_accepted
    ≤ sum_by (executed (only 8 5)) after_wait.trace
accepted-executed_example =
    accepted-executed reference reference-Crossbeam 2 1 2 (omega arith) (omega arith) worker_calls
      turns (only 8 5) 3 0 (some 9) requests both_accepted test_client_ended

test_accepted : accepted (only 8 5) (some 9) requests both_accepted ≡ 1
test_accepted = refl

-- A set of CPUs with room for 1024 that holds at most one.
abbrev one_cpu : Libc
one_cpu = record {
  CpuSet = Option ℕ;
  cpu_zero = none;
  cpu_set = λ cpu set. if ltb cpu 1024 then some (some cpu) else none;
  cpu_isset = λ cpu set. elim set [ none ↦ false | some only ↦ cpu == only ];
  setaffinity = λ set. 22;
}

one_cpu-CpuSets : CpuSets one_cpu 1024
one_cpu-CpuSets = record {
  only_set = λ cpu below.
      (some cpu, ground arith, λ other. (λ e. ==-eq other cpu e, λ e. rw e (==_refl cpu)));
}

-- Worker 5 of a machine with 4 CPUs, where pinning fails.
worker_thread-worker_main_example :
    (set : Option ℕ) × Only one_cpu 1 set
    × (worker_thread one_cpu (thread_of (λ _. true) (detect (some 4)) true 5).assigned_cpu 6 5 8
        ≡ runs (set ∷ []) (Worker.worker_main 6 5 8))
unfolding parallelism
worker_thread-worker_main_example =
    worker_thread-worker_main one_cpu 1024 (λ _. true) true (some 4) 6 5 8 one_cpu-CpuSets
      (λ e. absurd (ground arith)) (omega arith)
