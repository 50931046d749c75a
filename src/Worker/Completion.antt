-- ===== src/Worker/Completion.antt =====
-- `execute_task` of src/worker.rs, undisturbed, against a description in one step.
use libcortlet_upgradesched.Prelude.{
  ℕ, ◌≡◌, arith, Option, none, some, ◌==◌, update, wrap, wrapping_pred, ◌+◌, if◌then◌else◌,
}
use libcortlet_upgradesched.Task.{Task}
use libcortlet_upgradesched.Platform.{Platform}
use libcortlet_upgradesched.Machine.Store.{TaskGroup, WorkerShared, Store}
use libcortlet_upgradesched.Machine.Alone.{alone}
use libcortlet_upgradesched.Worker.{execute_task}

module _ (P : Platform) where
  -- One task fewer in flight, one more completed; at the last one, everybody on the condition
  -- variable is notified.
  abbrev pub count_down : Store P → WorkerShared P
  count_down s = record (s.shared) {
    tasks_in_flight = wrapping_pred s.shared.tasks_in_flight;
    stats = record (s.shared.stats) { completed = wrap (s.shared.stats.completed + 1) };
    wake = if s.shared.tasks_in_flight == 1 then P.notify_all s.shared.wake else s.shared.wake;
  }

  -- So for the task's group, if it has one.
  abbrev pub leave : Option ℕ → (ℕ → TaskGroup P) → ℕ → TaskGroup P
  leave none groups = groups
  leave (some g) groups = update groups g (record (groups g) {
    tasks_in_flight = wrapping_pred (groups g).tasks_in_flight;
    wake =
        if (groups g).tasks_in_flight == 1 then P.notify_all (groups g).wake else (groups g).wake;
  })

  -- A result, with the shared state and the group at an address.
  abbrev pub view : ℕ → Option (Unit {0} × Store P) → Option (WorkerShared P × TaskGroup P)
  view address none = none
  view address (some (_, s)) = some (s.shared, s.groups address)

  abbrev pub completion : Task → Store P → Store P
  completion t s = record { shared = count_down s; groups = leave t.group s.groups }

  -- Undisturbed, a worker that executes a task takes it off the scheduler's count, counts the
  -- completion, takes it off the count of its group and of no other, and notifies the waiters of
  -- each count that comes to zero.
  pub alone-execute_task :
      (thread chance address : ℕ) (t : Task) (s : Store P)
      → view address (alone P thread chance (execute_task t) s)
        ≡ view address (some (tt, completion t s))
  unfolding alone execute_task
  alone-execute_task thread chance address t s = ground arith
