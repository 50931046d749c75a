-- ===== src/Conduct/Clients.antt =====
-- The conduct of the callers of `wait` and `shutdown` (src/scheduler.rs, src/group.rs), and of a
-- thread that makes any calls one after the other.
use libcortlet_upgradesched.Prelude.{ℕ, refl, true, false, List, [], ◌∷◌, ◌==◌}
use libcortlet_upgradesched.Machine.{loop}
use libcortlet_upgradesched.Machine.Monitor.{
  Watched, Watched->>=, Watched-loop, RoundEnds, if-Watched,
}
use libcortlet_upgradesched.Group
use libcortlet_upgradesched.Scheduler
use libcortlet_upgradesched.Worker.{begin_shutdown}
use libcortlet_upgradesched.System.Calls.{Call, program, script}
use libcortlet_upgradesched.Conduct.{Conduct, conduct, At, Stays, Idle}
use libcortlet_upgradesched.Conduct.Submission.{Leaves, then-Leaves, push_internal-Leaves}
use libcortlet_upgradesched.Conduct.Workers.{worker_main-Idle}

-- A round of `wait` keeps the lock, which `Condvar::wait` gives back and takes again.
wait_round-Stays :
    (m : Conduct)
    → At true false m
    → Watched conduct
        (RoundEnds conduct (Stays true false) (Stays true false))
        m
        (Scheduler.wait_round tt)
unfolding Scheduler.wait_round
wait_round-Stays m (l, a, u, c) = (
  tt,
  λ count.
      if-Watched conduct (RoundEnds conduct (Stays true false) (Stays true false)) m (count == 0) _
        _ (λ _. (l, a, u, c)) (λ _. (l, λ _. (refl, λ _. (refl, a, u, c)))),
)

wait-Leaves : (rounds : ℕ) → Leaves (Scheduler.wait rounds)
unfolding Scheduler.wait
wait-Leaves rounds m (l, a, u, c) = (
  l,
  λ _.
      Watched->>= conduct (Stays true false) Idle (record m { locked = true })
        (loop rounds Scheduler.wait_round tt) _
        (Watched-loop conduct (Stays true false) (Stays true false) Scheduler.wait_round
          (λ _ m h. wait_round-Stays m h) rounds tt (record m { locked = true }) (refl, a, u, c))
        (λ _ m (l, a, u, c). (l, λ _. (refl, a, u, c))),
)

group_round-Leaves :
    (g : ℕ) (m : Conduct)
    → At false false m
    → Watched conduct (RoundEnds conduct Idle Idle) m (Group.wait_round g tt)
unfolding Group.wait_round
group_round-Leaves g m h = (
  tt,
  λ count.
      if-Watched conduct (RoundEnds conduct Idle Idle) m (count == 0) _ _ (λ _. h)
        (λ _. (tt, λ _. (tt, λ _. h))),
)

group_wait-Leaves : (rounds g : ℕ) → Leaves (Group.wait rounds g)
unfolding Group.wait
group_wait-Leaves rounds g m h = (
  tt,
  λ _.
      Watched->>= conduct Idle Idle m (loop rounds (Group.wait_round g) tt) _
        (Watched-loop conduct Idle Idle (Group.wait_round g) (λ _ m h. group_round-Leaves g m h)
          rounds tt m h)
        (λ _ m h. (tt, λ _. h)),
)

close-Leaves : (g : ℕ) → Leaves (Group.close g)
unfolding Group.close
close-Leaves g m h = (tt, λ _. (tt, λ _. h))

shutdown-Leaves : Leaves Scheduler.shutdown
unfolding Scheduler.shutdown begin_shutdown
shutdown-Leaves m h = (tt, λ _. (tt, λ _. h))

program-Leaves : (capacity : ℕ) (c : Call) → Leaves (program capacity c)
program-Leaves capacity (Call.push rounds function argument priority group) =
    then-Leaves (Scheduler.push_internal rounds capacity function argument priority group) _
      (push_internal-Leaves rounds capacity function argument priority group) (λ _ m h. h)
program-Leaves capacity (Call.wait rounds) =
    then-Leaves (Scheduler.wait rounds) _ (wait-Leaves rounds) (λ _ m h. h)
program-Leaves capacity Call.shutdown = shutdown-Leaves
program-Leaves capacity (Call.group_wait rounds group) = group_wait-Leaves rounds group
program-Leaves capacity (Call.group_close group) = close-Leaves group
program-Leaves capacity (Call.work rounds worker_id worker_count) =
    worker_main-Idle rounds worker_id worker_count

pub script-Leaves : (capacity : ℕ) (cs : List Call) → Leaves (script capacity cs)
script-Leaves capacity [] m h = h
script-Leaves capacity (c ∷ cs) m h =
    then-Leaves (program capacity c) _ (program-Leaves capacity c) (λ _. script-Leaves capacity cs)
      m h
