-- ===== src/Ownership/Submission.antt =====
-- Each submission path of src/scheduler.rs owns what its accesses need, and keeps nothing.
use libcortlet_upgradesched.Prelude.{
  ℕ, ap, sym, subst, ◌≡◌, if◌then◌else◌, refl, Bool, true, false, Option, none, some, leb, leb→lt,
  ◌==◌, ==-eq,
}
use libcortlet_upgradesched.Task.{Task, TaskPriority}
use libcortlet_upgradesched.Machine.{Exchange, exchanged, failed, ret, ◌>>◌}
use libcortlet_upgradesched.Group
use libcortlet_upgradesched.Queue.{push_global}
use libcortlet_upgradesched.Worker.{wake_one}
use libcortlet_upgradesched.Scheduler.{
  Result, ok, err, stopped, reserve_result, reserve_round, reserve_task_slot, release_task_slot,
  join_group, leave_group, publish, enter, enter_if, push_internal,
}
use libcortlet_upgradesched.Ownership.{
  Ghost, Slot, free, reserved, cleared, nothing, after_exchange, is_taken, Safe,
}
use libcortlet_upgradesched.Ownership.Rules.{
  >>=-Safe, RoundEnd, loop-Safe, if-Safe, if-Safe_of, check-Safe, Clean,
}

abbrev with_slot : Slot → Option ℕ → Ghost
with_slot slot group = record { slot = slot; group = group }

-- A reservation that succeeds leaves a slot that was not checked against shutdown.
abbrev Reserves : Ghost → Result (Unit {0}) → Type 0
Reserves own (ok _) = own ≡ with_slot reserved none
Reserves own (err e) = own ≡ nothing

module _ (capacity : ℕ) where
  reserve_round-Safe :
      (own : Ghost) (current : ℕ)
      → own ≡ nothing
      → Safe capacity (RoundEnd Clean Reserves) own (reserve_round capacity current)
  unfolding reserve_round
  reserve_round-Safe own current h =
      if-Safe_of capacity (RoundEnd Clean Reserves) (leb capacity current) own _ _
        (λ full. (tt, λ _. h))
        λ room. ((leb→lt capacity current room, refl, ap Ghost.slot h), answered)
    where
      answered :
          (x : Exchange)
          → Safe capacity (RoundEnd Clean Reserves) (after_exchange x own) (reserve_result x)
      answered (exchanged old) = cc
      answered (failed actual) = h

  reserve_task_slot-Safe :
      (rounds : ℕ) → Safe capacity Reserves nothing (reserve_task_slot rounds capacity)
  unfolding reserve_task_slot
  reserve_task_slot-Safe rounds =
      if-Safe_of capacity Reserves (capacity == 0) nothing _ _
        (λ unlimited. ((==-eq capacity 0 unlimited, refl), λ _. refl))
        λ bounded. (
          tt,
          λ current.
              loop-Safe capacity Clean Reserves (reserve_round capacity) reserve_round-Safe rounds
                nothing current refl,
        )

  -- After `task_completed` the unit of the group is gone, and the slot is as before.
  abbrev pub Left : Ghost → Ghost → Unit {0} → Type 0
  Left own own' _ = own' ≡ record own { group = none }

  pub task_completed-Safe :
      (own : Ghost) (g : ℕ)
      → own.group ≡ some g
      → is_taken own.slot ≡ false
      → Safe capacity (Left own) own (Group.task_completed g)
  unfolding Group.task_completed
  task_completed-Safe own g h t =
      ((h, t), λ previous. if-Safe capacity (Left own) (previous == 1) _ _ _ (tt, λ _. refl) refl)

  abbrev Joins : Slot → Option ℕ → Ghost → Bool → Type 0
  Joins slot group own joined = own ≡ with_slot slot (if joined then group else none)

  add_task-Safe :
      (slot : Slot) (g : ℕ)
      → is_taken slot ≡ false
      → Safe capacity (Joins slot (some g)) (with_slot slot none) (Group.add_task g)
  unfolding Group.add_task
  add_task-Safe slot g t = (
    tt,
    λ closed. if-Safe capacity (Joins slot (some g)) closed _ _ _ refl (
      refl,
      λ _. (
        tt,
        λ closing.
            if-Safe capacity (Joins slot (some g)) closing _ _ _
              (>>=-Safe capacity (Left own) (Joins slot (some g)) (Group.task_completed g) _ own
                (task_completed-Safe own g refl t) (λ own' _ e. e))
              refl,
      ),
    ),
  )
    where
      own : Ghost
      own = with_slot slot (some g)

  join_group-Safe :
      (slot : Slot) (group : Option ℕ)
      → is_taken slot ≡ false
      → Safe capacity (Joins slot group) (with_slot slot none) (join_group group)
  unfolding join_group
  join_group-Safe slot none t = refl
  join_group-Safe slot (some g) t = add_task-Safe slot g t

  leave_group-Safe :
      (group : Option ℕ) → Safe capacity Clean (with_slot free group) (leave_group group)
  unfolding leave_group
  leave_group-Safe none = refl
  leave_group-Safe (some g) = task_completed-Safe (with_slot free (some g)) g refl refl

  wake_one-Safe : (own : Ghost) → own ≡ nothing → Safe capacity Clean own wake_one
  unfolding wake_one
  wake_one-Safe own h =
      (tt, λ sleeping. if-Safe capacity Clean (sleeping == 0) _ _ _ h (tt, λ _. h))

  publish-Safe : (t : Task) → Safe capacity Clean (with_slot cleared t.group) (publish t)
  unfolding publish release_task_slot push_global
  publish-Safe t = (
    tt,
    check-Safe capacity Clean (with_slot cleared t.group) _ _
        (
          refl,
          λ _.
              >>=-Safe capacity Clean Clean (leave_group t.group) _ (with_slot free t.group)
                (leave_group-Safe t.group) (λ own _ e. e),
        )
        (
          (refl, refl, refl),
          λ _. (
            tt,
            λ _.
                >>=-Safe capacity Clean Clean wake_one _ nothing (wake_one-Safe nothing refl)
                  (λ own _ e. e),
          ),
        ),
  )

  enter-Safe : (t : Task) → Safe capacity Clean (with_slot reserved none) (enter t)
  unfolding enter release_task_slot
  enter-Safe t = (
    tt,
    check-Safe capacity Clean (with_slot reserved none) _ _ (refl, λ _. refl)
        (>>=-Safe capacity (Joins cleared t.group) Clean (join_group t.group) _
          (with_slot cleared none) (join_group-Safe cleared t.group refl) joined),
  )
    where
      joined :
          (own : Ghost) (b : Bool)
          → Joins cleared t.group own b
          → Safe capacity Clean own (if b then publish t else (do release_task_slot; ret stopped))
      joined own true e =
          subst (λ own. Safe capacity Clean own (publish t)) (sym e) (publish-Safe t)
      joined own false e = (rw e refl, λ _. rw e refl)

  -- A submission reserves before it publishes, publishes only with a slot that was checked against
  -- shutdown, and gives back on each failing path what it had taken.
  pub push_internal-Safe :
      (rounds function argument : ℕ) (priority : TaskPriority) (group : Option ℕ)
      → Safe capacity Clean nothing (push_internal rounds capacity function argument priority group)
  unfolding push_internal
  push_internal-Safe rounds function argument priority group = (
    tt,
    check-Safe capacity Clean nothing _ _ refl (
        >>=-Safe capacity Reserves Clean (reserve_task_slot rounds capacity) _ nothing
          (reserve_task_slot-Safe rounds) entered),
  )
    where
      t : Task
      t = record { function = function; argument = argument; priority = priority; group = group }

      entered :
          (own : Ghost) (r : Result (Unit {0}))
          → Reserves own r
          → Safe capacity Clean own (enter_if t r)
      entered own (ok _) e = subst (λ own. Safe capacity Clean own (enter t)) (sym e) (enter-Safe t)
      entered own (err e) h = h
