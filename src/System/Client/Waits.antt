-- ===== src/System/Client/Waits.antt =====
-- A client's `wait` (src/scheduler.rs, src/group.rs) ends only at a count of zero, behind all its
-- submissions.
use libcortlet_upgradesched.Prelude.{
  ℕ, ◌+◌, ◌≡◌, refl, arith, true, Option, none, some, List, ◌==◌, ==_refl, if◌then◌else◌,
}
use libcortlet_upgradesched.Machine.{Op, GroupOp, call, ret, loop, ◌>>=◌}
use libcortlet_upgradesched.Machine.Monitor.{
  Watched, Watched->>=, Watched-loop, RoundEnds, if-Watched,
}
use libcortlet_upgradesched.Group
use libcortlet_upgradesched.Scheduler
use libcortlet_upgradesched.Scheduler.{Result, ok}
use libcortlet_upgradesched.System.Client.{
  Request, submit_all, wait_for, submit_and_wait, accepted, Progress, reads_zero,
}
use libcortlet_upgradesched.System.Client.Submits.{W, Mine, submit_all-Pushes}

module _ (w : ℕ → ℕ → ℕ) (scope : Option ℕ) where
  -- A count of zero was read behind the last push.
  abbrev Waited {ℓ} : {A : Type ℓ} → ℕ → A → Progress → Type 0
  Waited k _ m = (m.mine ≡ k) × (m.at_zero ≡ true)

  wait_round-Waited :
      (k : ℕ) (m : Progress)
      → scope ≡ none
      → m.mine ≡ k
      → Watched
          (W w scope)
          (RoundEnds (W w scope) (Mine w scope k) (Waited k))
          m
          (Scheduler.wait_round tt)
  unfolding Scheduler.wait_round
  wait_round-Waited k m e h = (
    tt,
    λ count.
        if-Watched (W w scope) (RoundEnds (W w scope) (Mine w scope k) (Waited k))
          (record m {
            at_zero = if reads_zero Op.load_in_flight count scope then true else m.at_zero;
          })
          (count == 0) _ _ (λ zero. (h, rw (e, zero) refl)) (λ _. (tt, λ _. (tt, λ _. h))),
  )

  group_round-Waited :
      (g k : ℕ) (m : Progress)
      → scope ≡ some g
      → m.mine ≡ k
      → Watched
          (W w scope)
          (RoundEnds (W w scope) (Mine w scope k) (Waited k))
          m
          (Group.wait_round g tt)
  unfolding Group.wait_round
  group_round-Waited g k m e h = (
    tt,
    λ count.
        if-Watched (W w scope) (RoundEnds (W w scope) (Mine w scope k) (Waited k))
          (record m {
            at_zero =
                if reads_zero (Op.group g GroupOp.load_count) count scope then true else m.at_zero;
          })
          (count == 0) _ _ (λ zero. (h, rw (e, ==_refl g, zero) refl))
          (λ _. (tt, λ _. (tt, λ _. h))),
  )

  wait-Waited :
      (rounds capacity k : ℕ) (m : Progress) (by : Option ℕ)
      → scope ≡ by
      → m.mine ≡ k
      → Watched (W w scope) (Waited k) m (wait_for rounds capacity by)
  unfolding Scheduler.wait Group.wait
  wait-Waited rounds capacity k m none e h = (
    tt,
    λ _.
        Watched->>= (W w scope) (Waited k) (Waited k) m
          (loop rounds Scheduler.wait_round tt >>= λ _. call Op.unlock_sleep >>= λ _. ret (ok tt)) _
          (Watched->>= (W w scope) (Waited k) (Waited k) m (loop rounds Scheduler.wait_round tt) _
            (Watched-loop (W w scope) (Mine w scope k) (Waited k) Scheduler.wait_round
              (λ _ m h. wait_round-Waited k m e h) rounds tt m h)
            (λ _ m h. (tt, λ _. h)))
          (λ _ m h. h),
  )
  wait-Waited rounds capacity k m (some g) e h = (
    tt,
    λ _.
        Watched->>= (W w scope) (Waited k) (Waited k) m (loop rounds (Group.wait_round g) tt) _
          (Watched-loop (W w scope) (Mine w scope k) (Waited k) (Group.wait_round g)
            (λ _ m h. group_round-Waited g k m e h) rounds tt m h)
          (λ _ m h. (tt, λ _. h)),
  )

  -- What the client has pushed at its end is what was accepted, and it has read a count of zero
  -- since.
  abbrev pub Done : List Request → List (Result (Unit {0})) → Progress → Type 0
  Done qs rs m = Waited (accepted w scope qs rs) rs m

  pub submit_and_wait-Done :
      (rounds capacity : ℕ) (qs : List Request) (m : Progress)
      → m.mine ≡ 0
      → Watched (W w scope) (Done qs) m (submit_and_wait rounds capacity scope qs)
  submit_and_wait-Done rounds capacity qs m h =
      Watched->>= (W w scope) (λ rs m. m.mine ≡ 0 + accepted w scope qs rs) (Done qs) m
        (submit_all rounds capacity qs) _ (submit_all-Pushes w scope rounds capacity qs 0 m h)
        (λ rs m h.
          Watched->>= (W w scope) (Waited (accepted w scope qs rs)) (Done qs) m
            (wait_for rounds capacity scope) _
            (wait-Waited rounds capacity (accepted w scope qs rs) m scope refl (omega (arith, h)))
            (λ _ m h. h))
