-- ===== src/Conduct/Submission.antt =====
-- The conduct of a submission (src/scheduler.rs) and of the group calls (src/group.rs): they take no
-- lock of the scheduler, and each push is recorded.
use libcortlet_upgradesched.Prelude.{
  ℕ, arith, Bool, false, Option, none, some, leb, ◌==◌, if◌then◌else◌,
}
use libcortlet_upgradesched.Task.{Task, TaskPriority}
use libcortlet_upgradesched.Machine.{exchanged, failed, Prog, ret, ◌>>=◌}
use libcortlet_upgradesched.Machine.Monitor.{
  Watched, Watched->>=, Watched-loop, RoundEnds, if-Watched,
}
use libcortlet_upgradesched.Group
use libcortlet_upgradesched.Queue.{push_global}
use libcortlet_upgradesched.Worker.{wake_one}
use libcortlet_upgradesched.Scheduler.{
  Result, ok, err, reserve_result, reserve_round, reserve_task_slot, release_task_slot, join_group,
  leave_group, publish, enter, enter_if, push_internal,
}
use libcortlet_upgradesched.Conduct.{Conduct, conduct, At, Idle}

-- From an idle state, the program comes to its end in one.
abbrev pub Leaves {ℓ} : {A : Type ℓ} → Prog A → Type 0
Leaves p = (m : Conduct) → At false false m → Watched conduct Idle m p

pub then-Leaves {ℓ κ} :
    {A : Type ℓ} {B : Type κ} (p : Prog A) (f : A → Prog B)
    → Leaves p
    → ((a : A) → Leaves (f a))
    → Leaves (p >>= f)
then-Leaves p f hp hf m h = Watched->>= conduct Idle Idle m p f (hp m h) (λ a m h. hf a m h)

pub if-Leaves {ℓ} :
    {A : Type ℓ} (b : Bool) (p q : Prog A) → Leaves p → Leaves q → Leaves (if b then p else q)
if-Leaves b p q hp hq m h = if-Watched conduct Idle m b p q (λ _. hp m h) (λ _. hq m h)

reserve-Leaves : (rounds capacity : ℕ) → Leaves (reserve_task_slot rounds capacity)
unfolding reserve_task_slot reserve_round reserve_result
reserve-Leaves rounds capacity =
    if-Leaves (capacity == 0) _ _ (λ m h. (tt, λ _. h))
      λ m h. (
        tt,
        λ current.
            Watched-loop conduct Idle Idle (reserve_round capacity)
              (λ current m h. round current m h) rounds current m h,
      )
  where
    round :
        (current : ℕ) (m : Conduct)
        → At false false m
        → Watched conduct (RoundEnds conduct Idle Idle) m (reserve_round capacity current)
    round current m h =
        if-Watched conduct (RoundEnds conduct Idle Idle) m (leb capacity current) _ _
          (λ _. (tt, λ _. h)) (λ _. (tt, elim [ exchanged old ↦ h | failed actual ↦ h ]))

completed-Leaves : (g : ℕ) → Leaves (Group.task_completed g)
unfolding Group.task_completed
completed-Leaves g m h =
    (tt, λ previous. if-Leaves (previous == 1) _ _ (λ m h. (tt, λ _. h)) (λ m h. h) m h)

join-Leaves : (group : Option ℕ) → Leaves (join_group group)
unfolding join_group Group.add_task
join-Leaves none m h = h
join-Leaves (some g) m h = (
  tt,
  λ closed.
      if-Leaves closed _ _ (λ m h. h)
        (λ m h. (
          tt,
          λ _. (
            tt,
            λ closing.
                if-Leaves closing _ _
                  (then-Leaves (Group.task_completed g) (λ _. ret false) (completed-Leaves g)
                    (λ _ m h. h))
                  (λ m h. h) m h,
          ),
        ))
        m h,
)

leave-Leaves : (group : Option ℕ) → Leaves (leave_group group)
unfolding leave_group
leave-Leaves none m h = h
leave-Leaves (some g) m h = completed-Leaves g m h

wake_one-Leaves : Leaves wake_one
unfolding wake_one
wake_one-Leaves m h =
    (tt, λ sleeping. if-Leaves (sleeping == 0) _ _ (λ m h. h) (λ m h. (tt, λ _. h)) m h)

publish-Leaves : (t : Task) → Leaves (publish t)
unfolding publish release_task_slot push_global
publish-Leaves t m (l, a, u, c) = (
  tt,
  λ stopping.
      if-Leaves stopping _ _
        (λ m (l, a, u, c). (
          c,
          λ _.
              then-Leaves (leave_group t.group) _ (leave-Leaves t.group) (λ _ m h. h) m
                (l, a, u, c),
        ))
        (λ m (l, a, u, c). (
          u,
          λ _. (
            omega arith,
            λ _. then-Leaves wake_one _ wake_one-Leaves (λ _ m h. h) _ (l, a, omega arith, c),
          ),
        ))
        m (l, a, u, c),
)

enter-Leaves : (t : Task) → Leaves (enter t)
unfolding enter release_task_slot
enter-Leaves t m h = (
  tt,
  λ stopping.
      if-Leaves stopping _ _ (λ m (l, a, u, c). (c, λ _. (l, a, u, c)))
        (then-Leaves (join_group t.group) _ (join-Leaves t.group) (λ joined.
          if-Leaves joined _ _ (publish-Leaves t) (λ m (l, a, u, c). (c, λ _. (l, a, u, c)))))
        m h,
)

enter_if-Leaves : (t : Task) (r : Result (Unit {0})) → Leaves (enter_if t r)
unfolding enter_if
enter_if-Leaves t (ok _) m h = enter-Leaves t m h
enter_if-Leaves t (err e) m h = h

pub push_internal-Leaves :
    (rounds capacity function argument : ℕ) (priority : TaskPriority) (group : Option ℕ)
    → Leaves (push_internal rounds capacity function argument priority group)
unfolding push_internal
push_internal-Leaves rounds capacity function argument priority group m h = (
  tt,
  λ stopping.
      if-Leaves stopping _ _ (λ m h. h)
        (then-Leaves (reserve_task_slot rounds capacity) _ (reserve-Leaves rounds capacity)
          (enter_if-Leaves _))
        m h,
)
