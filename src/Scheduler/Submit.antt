-- ===== src/Scheduler/Submit.antt =====
-- `push_internal` of src/scheduler.rs, undisturbed, against a description in one step.
use libcortlet_upgradesched.Prelude.{
  ℕ, suc, ◌+◌, ◌<◌, ◌^◌, ◌≡◌, ◌≢◌, Bool, false, not, ◌&&◌, Option, none, some, arith, leb, ◌==◌,
  update, wrap, if◌then◌else◌,
}
use libcortlet_upgradesched.Task.{Task, TaskPriority}
use libcortlet_upgradesched.Platform.{Platform}
use libcortlet_upgradesched.Machine.Store.{TaskGroup, Store, injector, set_injector}
use libcortlet_upgradesched.Machine.Alone.{alone}
use libcortlet_upgradesched.Scheduler.{
  Result, ok, err, scheduler_stopped, queue_full, push_internal,
}

module _ (P : Platform) (capacity : ℕ) where
  abbrev is_full : Store P → Bool
  is_full s = not (capacity == 0) && leb capacity s.shared.tasks_in_flight

  abbrev is_closed : Option ℕ → Store P → Bool
  is_closed none s = false
  is_closed (some g) s = (s.groups g).closed

  abbrev count_rejection : Store P → Store P
  count_rejection s = record s {
    shared = record (s.shared) {
      stats = record (s.shared.stats) { rejected_full = wrap (s.shared.stats.rejected_full + 1) };
    };
  }

  abbrev join : Option ℕ → Store P → ℕ → TaskGroup P
  join none s = s.groups
  join (some g) s =
      update s.groups g
        (record (s.groups g) { tasks_in_flight = wrap ((s.groups g).tasks_in_flight + 1) })

  -- One more in flight and submitted, the task at the back of the injector of its priority, one more
  -- in its group, and a notification if some worker sleeps.
  abbrev accept : (chance : ℕ) → Task → Store P → Store P
  accept chance t s = record {
    shared = record (s.shared) {
      tasks_in_flight = wrap (s.shared.tasks_in_flight + 1);
      queues =
          set_injector P t.priority (P.injector_push t (injector P t.priority s.shared.queues))
            s.shared.queues;
      stats = record (s.shared.stats) { submitted = wrap (s.shared.stats.submitted + 1) };
      wake =
          if s.shared.sleeping_workers == 0
          then s.shared.wake
          else P.notify_one chance s.shared.wake;
    };
    groups = join t.group s;
  }

  pub submission : (chance : ℕ) → Task → Store P → Result (Unit {0}) × Store P
  submission chance t s =
      if s.shared.shutdown
      then (err scheduler_stopped, s)
      else (if is_full s
          then (err queue_full, count_rejection s)
          else (if is_closed t.group s
              then (err scheduler_stopped, s)
              else (ok tt, accept chance t s)))

  -- Undisturbed, a submission returns, and does what `submission` says on each branch: a stopped
  -- scheduler and a closed group refuse and leave everything as it was, a full scheduler refuses and
  -- counts the rejection, and otherwise the task is accepted. One round of the reservation loop is
  -- enough, if the compare-exchange does not fail for no reason (chance 0) and the count is a word.
  pub alone-push_internal :
      (thread chance rounds function argument : ℕ) (priority : TaskPriority) (group : Option ℕ)
      (s : Store P)
      → chance ≢ 0
      → s.shared.tasks_in_flight < 2 ^ 64
      → alone P thread chance
          (push_internal (suc rounds) capacity function argument priority group)
          s
        ≡ some (
            submission chance
              (record {
                function = function;
                argument = argument;
                priority = priority;
                group = group;
              })
              s)
  unfolding push_internal alone submission
  alone-push_internal thread chance rounds function argument priority none s c small = ground arith
  alone-push_internal thread chance rounds function argument priority (some g) s c small =
      ground arith
