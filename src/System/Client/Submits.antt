-- ===== src/System/Client/Submits.antt =====
-- The submissions of a client push exactly the tasks that are accepted (src/scheduler.rs).
use libcortlet_upgradesched.Prelude.{
  ℕ, ◌+◌, ◌≡◌, arith, Bool, true, false, Option, none, some, List, [], ◌∷◌, leb, ◌==◌,
  if◌then◌else◌,
}
use libcortlet_upgradesched.Task.{Task}
use libcortlet_upgradesched.Machine.{Op, exchanged, failed, Prog, ◌>>=◌}
use libcortlet_upgradesched.Machine.Monitor.{
  Monitor, Watched, Watched->>=, Watched-loop, RoundEnds, if-Watched,
}
use libcortlet_upgradesched.Group
use libcortlet_upgradesched.Queue.{push_global}
use libcortlet_upgradesched.Worker.{wake_one}
use libcortlet_upgradesched.Scheduler.{
  Result, ok, err, reserve_result, reserve_round, reserve_task_slot, release_task_slot, join_group,
  leave_group, publish, enter, enter_if, push_internal,
}
use libcortlet_upgradesched.System.Scope.{scoped}
use libcortlet_upgradesched.System.Client.{
  Request, submit_all, weight_if, request_weight, accepted, Progress, reads_zero, progress,
}

module _ (w : ℕ → ℕ → ℕ) (scope : Option ℕ) where
  abbrev pub W : Monitor
  W = progress w scope

  -- The client has pushed `k`.
  abbrev pub Mine {ℓ} : {A : Type ℓ} → ℕ → A → Progress → Type 0
  Mine k _ m = m.mine ≡ k

  abbrev pub Pushes {ℓ} : {A : Type ℓ} → (A → ℕ) → Prog A → Type 0
  Pushes more p = (k : ℕ) (m : Progress) → m.mine ≡ k → Watched W (λ a m. m.mine ≡ k + more a) m p

  abbrev Nothing {ℓ} : {A : Type ℓ} → Prog A → Type 0
  Nothing p = (k : ℕ) (m : Progress) → m.mine ≡ k → Watched W (Mine k) m p

  then-Pushes {ℓ κ} :
      {A : Type ℓ} {B : Type κ} (more : A → ℕ) (total : B → ℕ) (p : Prog A) (f : A → Prog B)
      → Pushes more p
      → ((a : A) (k : ℕ) (m : Progress)
          → m.mine ≡ k + more a
          → Watched W (λ b m. m.mine ≡ k + total b) m (f a))
      → Pushes total (p >>= f)
  then-Pushes more total p f hp hf k m h =
      Watched->>= W (λ a m. m.mine ≡ k + more a) (λ b m. m.mine ≡ k + total b) m p f (hp k m h)
        (λ a m h. hf a k m h)

  if-Nothing {ℓ} :
      {A : Type ℓ} (b : Bool) (p q : Prog A) → Nothing p → Nothing q → Nothing (if b then p else q)
  if-Nothing b p q hp hq k m h = if-Watched W (Mine k) m b p q (λ _. hp k m h) (λ _. hq k m h)

  then-Nothing {ℓ κ} :
      {A : Type ℓ} {B : Type κ} (p : Prog A) (f : A → Prog B)
      → Nothing p
      → ((a : A) → Nothing (f a))
      → Nothing (p >>= f)
  then-Nothing p f hp hf k m h =
      Watched->>= W (Mine k) (Mine k) m p f (hp k m h) (λ a m h. hf a k m h)

  reserve-Nothing : (rounds capacity : ℕ) → Nothing (reserve_task_slot rounds capacity)
  unfolding reserve_task_slot reserve_round reserve_result
  reserve-Nothing rounds capacity =
      if-Nothing (capacity == 0) _ _ (λ k m h. (tt, λ _. h))
        λ k m h. (
          tt,
          λ current.
              Watched-loop W (Mine k) (Mine k) (reserve_round capacity)
                (λ current m h. round k current m h) rounds current (progress_at m current) h,
        )
    where
      progress_at : Progress → ℕ → Progress
      progress_at m current = record m {
        at_zero = if reads_zero Op.load_in_flight current scope then true else m.at_zero;
      }

      round :
          (k current : ℕ) (m : Progress)
          → m.mine ≡ k
          → Watched W (RoundEnds W (Mine k) (Mine k)) m (reserve_round capacity current)
      round k current m h =
          if-Watched W (RoundEnds W (Mine k) (Mine k)) m (leb capacity current) _ _
            (λ _. (tt, λ _. h)) (λ _. (tt, elim [ exchanged old ↦ h | failed actual ↦ h ]))

  completed-Nothing : (g : ℕ) → Nothing (Group.task_completed g)
  unfolding Group.task_completed
  completed-Nothing g k m h =
      (tt, λ previous. if-Nothing (previous == 1) _ _ (λ k m h. (tt, λ _. h)) (λ k m h. h) k m h)

  join-Nothing : (group : Option ℕ) → Nothing (join_group group)
  unfolding join_group Group.add_task
  join-Nothing none k m h = h
  join-Nothing (some g) k m h = (
    tt,
    λ closed.
        if-Nothing closed _ _ (λ k m h. h)
          (λ k m h. (
            tt,
            λ _. (
              tt,
              λ closing.
                  if-Nothing closing _ _
                    (then-Nothing (Group.task_completed g) _ (completed-Nothing g) (λ _ k m h. h))
                    (λ k m h. h) k m h,
            ),
          ))
          k m h,
  )

  leave-Nothing : (group : Option ℕ) → Nothing (leave_group group)
  unfolding leave_group
  leave-Nothing none k m h = h
  leave-Nothing (some g) k m h = completed-Nothing g k m h

  wake_one-Nothing : Nothing wake_one
  unfolding wake_one
  wake_one-Nothing k m h =
      (tt, λ sleeping. if-Nothing (sleeping == 0) _ _ (λ k m h. h) (λ k m h. (tt, λ _. h)) k m h)

  module _ (t : Task) where
    abbrev gain : Result (Unit {0}) → ℕ
    gain = weight_if (scoped w scope t)

    publish-Pushes : Pushes gain (publish t)
    unfolding publish release_task_slot push_global
    publish-Pushes k m h = (
      tt,
      λ stopping.
          if-Watched W (λ r m. m.mine ≡ k + gain r) m stopping _ _
            (λ _. (
              tt,
              λ _.
                  Watched->>= W (Mine k) (λ r m. m.mine ≡ k + gain r) m (leave_group t.group) _
                    (leave-Nothing t.group k m h) (λ _ m h. omega (arith, h)),
            ))
            (λ _. (
              tt,
              λ _. (
                tt,
                λ _.
                    Watched->>= W (Mine (k + scoped w scope t)) (λ r m. m.mine ≡ k + gain r)
                      (record { mine = m.mine + scoped w scope t; at_zero = false }) wake_one _
                      (wake_one-Nothing (k + scoped w scope t) _ (omega (arith, h))) (λ _ m h. h),
              ),
            )),
    )

    enter-Pushes : Pushes gain (enter t)
    unfolding enter release_task_slot
    enter-Pushes k m h = (
      tt,
      λ stopping.
          if-Watched W (λ r m. m.mine ≡ k + gain r) m stopping _ _
            (λ _. (tt, λ _. omega (arith, h)))
            (λ _.
              Watched->>= W (Mine k) (λ r m. m.mine ≡ k + gain r) m (join_group t.group) _
                (join-Nothing t.group k m h)
                (λ joined m h.
                  if-Watched W (λ r m. m.mine ≡ k + gain r) m joined _ _ (λ _. publish-Pushes k m h)
                    (λ _. (tt, λ _. omega (arith, h))))),
    )

    enter_if-Pushes : (r : Result (Unit {0})) → Pushes gain (enter_if t r)
    unfolding enter_if
    enter_if-Pushes (ok _) k m h = enter-Pushes k m h
    enter_if-Pushes (err e) k m h = omega (arith, h)

  submission-Pushes :
      (rounds capacity : ℕ) (q : Request)
      → Pushes
          (weight_if (request_weight w scope q))
          (push_internal rounds capacity q.function q.argument q.priority q.group)
  unfolding push_internal
  submission-Pushes rounds capacity q k m h = (
    tt,
    λ stopping.
        if-Watched W (λ r m. m.mine ≡ k + weight_if (request_weight w scope q) r) m stopping _ _
          (λ _. omega (arith, h))
          (λ _.
            Watched->>= W (Mine k) (λ r m. m.mine ≡ k + weight_if (request_weight w scope q) r) m
              (reserve_task_slot rounds capacity) _ (reserve-Nothing rounds capacity k m h)
              (λ r m h. enter_if-Pushes _ r k m h)),
  )

  pub submit_all-Pushes :
      (rounds capacity : ℕ) (qs : List Request)
      → Pushes (accepted w scope qs) (submit_all rounds capacity qs)
  submit_all-Pushes rounds capacity [] k m h = omega (arith, h)
  submit_all-Pushes rounds capacity (q ∷ qs) k m h =
      then-Pushes (weight_if (request_weight w scope q)) (accepted w scope (q ∷ qs)) _ _
        (submission-Pushes rounds capacity q)
        (λ r k m h.
          Watched->>= W
            (λ rs m. m.mine ≡ k + weight_if (request_weight w scope q) r + accepted w scope qs rs)
            (λ rs m. m.mine ≡ k + accepted w scope (q ∷ qs) rs) m (submit_all rounds capacity qs) _
            (submit_all-Pushes rounds capacity qs (k + weight_if (request_weight w scope q) r) m h)
            (λ rs m h. omega (arith, h)))
        k m h
