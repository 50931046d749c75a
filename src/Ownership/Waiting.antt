-- ===== src/Ownership/Waiting.antt =====
-- Waiting, closing and shutting down own nothing: `wait` of src/group.rs and src/scheduler.rs, `close`,
-- `shutdown`, and the accessors.
use libcortlet_upgradesched.Prelude.{ℕ, ◌≡◌, refl, ◌==◌}
use libcortlet_upgradesched.Group
use libcortlet_upgradesched.Scheduler
use libcortlet_upgradesched.Ownership.{Ghost, nothing, Safe}
use libcortlet_upgradesched.Ownership.Rules.{>>=-Safe, RoundEnd, loop-Safe, if-Safe, Clean}

module _ (capacity : ℕ) where
  wait_round-Safe :
      (own : Ghost) (u : Unit {0})
      → own ≡ nothing
      → Safe capacity (RoundEnd Clean Clean) own (Scheduler.wait_round u)
  unfolding Scheduler.wait_round
  wait_round-Safe own u h = (
    tt,
    λ count. if-Safe capacity (RoundEnd Clean Clean) (count == 0) own _ _ h (tt, λ _. (tt, λ _. h)),
  )

  pub wait-Safe : (rounds : ℕ) → Safe capacity Clean nothing (Scheduler.wait rounds)
  unfolding Scheduler.wait
  wait-Safe rounds = (
    tt,
    λ _.
        >>=-Safe capacity Clean Clean _ _ nothing
          (loop-Safe capacity Clean Clean Scheduler.wait_round wait_round-Safe rounds nothing tt
            refl)
          (λ own _ e. (tt, λ _. e)),
  )

  group_round-Safe :
      (g : ℕ) (own : Ghost) (u : Unit {0})
      → own ≡ nothing
      → Safe capacity (RoundEnd Clean Clean) own (Group.wait_round g u)
  unfolding Group.wait_round
  group_round-Safe g own u h = (
    tt,
    λ count. if-Safe capacity (RoundEnd Clean Clean) (count == 0) own _ _ h (tt, λ _. (tt, λ _. h)),
  )

  pub group_wait-Safe : (rounds g : ℕ) → Safe capacity Clean nothing (Group.wait rounds g)
  unfolding Group.wait
  group_wait-Safe rounds g = (
    tt,
    λ _.
        >>=-Safe capacity Clean Clean _ _ nothing
          (loop-Safe capacity Clean Clean (Group.wait_round g) (group_round-Safe g) rounds nothing
            tt refl)
          (λ own _ e. (tt, λ _. e)),
  )

  pub close-Safe : (g : ℕ) → Safe capacity Clean nothing (Group.close g)
  unfolding Group.close
  close-Safe g = (tt, λ _. (tt, λ _. refl))

  pub shutdown-Safe : Safe capacity Clean nothing Scheduler.shutdown
  unfolding Scheduler.shutdown
  shutdown-Safe = (tt, λ _. (tt, λ _. refl))
