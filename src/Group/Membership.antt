-- ===== src/Group/Membership.antt =====
-- Joining, completing and closing in src/group.rs, undisturbed.
use libcortlet_upgradesched.Prelude.{
  ℕ, ◌<◌, ◌^◌, ◌≡◌, arith, Bool, true, false, Option, some, none, ◌==◌, if◌then◌else◌,
}
use libcortlet_upgradesched.Platform.{Platform}
use libcortlet_upgradesched.Machine.{ret, ◌>>=◌, ◌>>◌}
use libcortlet_upgradesched.Machine.Store.{Store}
use libcortlet_upgradesched.Machine.Alone.{alone}
use libcortlet_upgradesched.Group.{add_task, task_completed, close}

module _ (P : Platform) (g : ℕ) where
  -- A result, with the group as the callers see it: its count, whether it is closed, who waits.
  abbrev pub observe : {A : Type 0} → Option (A × Store P) → Option (A × ℕ × Bool × P.Condvar)
  observe none = none
  observe (some (a, s)) =
      some (a, (s.groups g).tasks_in_flight, (s.groups g).closed, (s.groups g).wake)

  module _ (thread chance : ℕ) (s : Store P) where
    -- Undisturbed, a task joins an open group, whose count is a word, and completes: the count is
    -- what it was, and if that is zero, all callers of the group's `wait` are notified.
    pub add_task-task_completed :
        (s.groups g).closed ≡ false
        → (s.groups g).tasks_in_flight < 2 ^ 64
        → observe
            (alone P thread chance (add_task g >>= λ joined. task_completed g >> ret joined) s)
          ≡ some (
            true,
            (s.groups g).tasks_in_flight,
            false,
            (if (s.groups g).tasks_in_flight == 0
                then P.notify_all (s.groups g).wake
                else (s.groups g).wake),
          )
    unfolding alone add_task task_completed
    add_task-task_completed opened small = ground arith

    -- Undisturbed, closing a group notifies its waiters and keeps its count; a task that comes
    -- later is refused, and the count is still what it was.
    pub close-add_task :
        observe (alone P thread chance (close g >> add_task g) s)
        ≡ some (false, (s.groups g).tasks_in_flight, true, P.notify_all (s.groups g).wake)
    unfolding alone close add_task
    close-add_task = ground arith
