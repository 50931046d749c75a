-- ===== src/Ffi/Submit.antt =====
-- The eight submission functions of src/ffi.rs. They check their pointers, then the function, then
-- the priority, and pass the call on.
use libcortlet_upgradesched.Prelude.{ℕ, Option, none, some}
use libcortlet_upgradesched.Task.{TaskPriority}
use libcortlet_upgradesched.Machine.{Prog, ret, ◌>>=◌}
use libcortlet_upgradesched.Scheduler
use libcortlet_upgradesched.Scheduler.{Result}
use libcortlet_upgradesched.Startup.{Scheduler}
use libcortlet_upgradesched.Ffi.{CortletResult, invalid_argument, result_code, ℤ, map_priority}

abbrev pub finish : Prog (Result (Unit {0})) → Prog CortletResult
finish p = p >>= λ r. ret (result_code r)

-- A call with a priority goes on only with one that is known.
abbrev pub with_priority : ℤ → (TaskPriority → Prog CortletResult) → Prog CortletResult
with_priority priority next = elim (map_priority priority) [
  | none ↦ ret invalid_argument
  | some p ↦ next p
]

module _ (rounds : ℕ) where
  unfoldable pub cortlet_sched_push :
      Option Scheduler → (task : Option ℕ) → (argument : ℕ) → Prog CortletResult
  unfolding Scheduler.push result_code
  cortlet_sched_push none task argument = ret invalid_argument
  cortlet_sched_push (some s) none argument = ret invalid_argument
  cortlet_sched_push (some s) (some task) argument =
      finish (Scheduler.push rounds s.queue_capacity task argument)

  unfoldable pub cortlet_sched_push_priority :
      Option Scheduler → (task : Option ℕ) → (argument : ℕ) → ℤ → Prog CortletResult
  unfolding Scheduler.push_priority result_code map_priority
  cortlet_sched_push_priority none task argument priority = ret invalid_argument
  cortlet_sched_push_priority (some s) none argument priority = ret invalid_argument
  cortlet_sched_push_priority (some s) (some task) argument priority =
      with_priority priority
        λ p. finish (Scheduler.push_priority rounds s.queue_capacity task argument p)

  unfoldable pub cortlet_sched_push_group :
      Option Scheduler → Option ℕ → (task : Option ℕ) → (argument : ℕ) → Prog CortletResult
  unfolding Scheduler.push_group result_code
  cortlet_sched_push_group none group task argument = ret invalid_argument
  cortlet_sched_push_group (some s) none task argument = ret invalid_argument
  cortlet_sched_push_group (some s) (some group) none argument = ret invalid_argument
  cortlet_sched_push_group (some s) (some group) (some task) argument =
      finish (Scheduler.push_group rounds s.queue_capacity task argument group)

  unfoldable pub cortlet_sched_push_group_priority :
      Option Scheduler → Option ℕ → (task : Option ℕ) → (argument : ℕ) → ℤ → Prog CortletResult
  unfolding Scheduler.push_group_priority result_code map_priority
  cortlet_sched_push_group_priority none group task argument priority = ret invalid_argument
  cortlet_sched_push_group_priority (some s) none task argument priority = ret invalid_argument
  cortlet_sched_push_group_priority (some s) (some group) none argument priority =
      ret invalid_argument
  cortlet_sched_push_group_priority (some s) (some group) (some task) argument priority =
      with_priority priority
        λ p. finish (Scheduler.push_group_priority rounds s.queue_capacity task argument p group)

  unfoldable pub cortlet_sched_try_push :
      Option Scheduler → (task : Option ℕ) → (argument : ℕ) → Prog CortletResult
  unfolding Scheduler.try_push result_code
  cortlet_sched_try_push none task argument = ret invalid_argument
  cortlet_sched_try_push (some s) none argument = ret invalid_argument
  cortlet_sched_try_push (some s) (some task) argument =
      finish (Scheduler.try_push rounds s.queue_capacity task argument)

  unfoldable pub cortlet_sched_try_push_priority :
      Option Scheduler → (task : Option ℕ) → (argument : ℕ) → ℤ → Prog CortletResult
  unfolding Scheduler.try_push_priority result_code map_priority
  cortlet_sched_try_push_priority none task argument priority = ret invalid_argument
  cortlet_sched_try_push_priority (some s) none argument priority = ret invalid_argument
  cortlet_sched_try_push_priority (some s) (some task) argument priority =
      with_priority priority
        λ p. finish (Scheduler.try_push_priority rounds s.queue_capacity task argument p)

  unfoldable pub cortlet_sched_try_push_group :
      Option Scheduler → Option ℕ → (task : Option ℕ) → (argument : ℕ) → Prog CortletResult
  unfolding Scheduler.try_push_group result_code
  cortlet_sched_try_push_group none group task argument = ret invalid_argument
  cortlet_sched_try_push_group (some s) none task argument = ret invalid_argument
  cortlet_sched_try_push_group (some s) (some group) none argument = ret invalid_argument
  cortlet_sched_try_push_group (some s) (some group) (some task) argument =
      finish (Scheduler.try_push_group rounds s.queue_capacity task argument group)

  unfoldable pub cortlet_sched_try_push_group_priority :
      Option Scheduler → Option ℕ → (task : Option ℕ) → (argument : ℕ) → ℤ → Prog CortletResult
  unfolding Scheduler.try_push_group_priority result_code map_priority
  cortlet_sched_try_push_group_priority none group task argument priority = ret invalid_argument
  cortlet_sched_try_push_group_priority (some s) none task argument priority = ret invalid_argument
  cortlet_sched_try_push_group_priority (some s) (some group) none argument priority =
      ret invalid_argument
  cortlet_sched_try_push_group_priority (some s) (some group) (some task) argument priority =
      with_priority priority λ p.
        finish (Scheduler.try_push_group_priority rounds s.queue_capacity task argument p group)
