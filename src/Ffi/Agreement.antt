-- ===== src/Ffi/Agreement.antt =====
-- The eight submission functions of src/ffi.rs against one description of all of them.
use libcortlet_upgradesched.Prelude.{ℕ, ◌≡◌, arith, Option, none, some}
use libcortlet_upgradesched.Task.{TaskPriority}
use libcortlet_upgradesched.Machine.{Prog, ret}
use libcortlet_upgradesched.Scheduler.{push_internal}
use libcortlet_upgradesched.Startup.{Scheduler}
use libcortlet_upgradesched.Ffi.{CortletResult, invalid_argument, ℤ, map_priority}
use libcortlet_upgradesched.Ffi.Submit.{
  finish, cortlet_sched_push, cortlet_sched_push_priority, cortlet_sched_push_group,
  cortlet_sched_push_group_priority, cortlet_sched_try_push, cortlet_sched_try_push_priority,
  cortlet_sched_try_push_group, cortlet_sched_try_push_group_priority,
}

-- An argument of the interface, once it is checked: a value, or that the call is refused.
abbrev pub Checked : Type 0 → Type 0
Checked A = Option A

-- All arguments valid: the submission; otherwise `INVALID_ARGUMENT`, and no access to the scheduler.
abbrev pub submit :
    (rounds argument : ℕ)
    → Option Scheduler
    → (task : Option ℕ) → Checked TaskPriority
    → Checked (Option ℕ)
    → Prog CortletResult
submit rounds argument (some s) (some task) (some p) (some group) =
    finish (push_internal rounds s.queue_capacity task argument p group)
submit rounds argument _ _ _ _ = ret invalid_argument

-- A group's pointer must not be null, in the functions that take one.
abbrev pub given : Option ℕ → Checked (Option ℕ)
given none = none
given (some g) = some (some g)

abbrev pub ungrouped : Checked (Option ℕ)
ungrouped = some none

abbrev pub normal : Checked TaskPriority
normal = some TaskPriority.normal

-- Each of the eight functions is the submission of its arguments: NORMAL where it takes no priority,
-- no group where it takes none, `INVALID_ARGUMENT` for a null scheduler, group or function and for
-- an unknown priority; and each `try` function is the function without `try`.
pub submissions-submit :
    (rounds argument : ℕ) (s : Option Scheduler) (task group : Option ℕ) (priority : ℤ)
    → (cortlet_sched_push rounds s task argument ≡ submit rounds argument s task normal ungrouped)
      × (cortlet_sched_push_priority rounds s task argument priority
          ≡ submit rounds argument s task (map_priority priority) ungrouped)
      × (cortlet_sched_push_group rounds s group task argument
          ≡ submit rounds argument s task normal (given group))
      × (cortlet_sched_push_group_priority rounds s group task argument priority
          ≡ submit rounds argument s task (map_priority priority) (given group))
      × (cortlet_sched_try_push rounds s task argument
          ≡ submit rounds argument s task normal ungrouped)
      × (cortlet_sched_try_push_priority rounds s task argument priority
          ≡ submit rounds argument s task (map_priority priority) ungrouped)
      × (cortlet_sched_try_push_group rounds s group task argument
          ≡ submit rounds argument s task normal (given group))
      × (cortlet_sched_try_push_group_priority rounds s group task argument priority
          ≡ submit rounds argument s task (map_priority priority) (given group))
unfolding cortlet_sched_push cortlet_sched_push_priority cortlet_sched_push_group
    cortlet_sched_push_group_priority cortlet_sched_try_push cortlet_sched_try_push_priority
    cortlet_sched_try_push_group cortlet_sched_try_push_group_priority
submissions-submit rounds argument s task group priority = ground arith
