-- ===== src/Conduct/Workers.antt =====
-- The conduct of `worker_main` (src/worker.rs): which lock and which count each of its rounds gives
-- back, on each of its paths.
use libcortlet_upgradesched.Prelude.{
  ℕ, ◌≡◌, refl, arith, Bool, true, false, Option, none, some, inr, ◌==◌,
}
use libcortlet_upgradesched.Task.{Task, take_group, PopResult, PriorityState}
use libcortlet_upgradesched.Steal.{StealState}
use libcortlet_upgradesched.Machine.{Prog, ret, ◌>>=◌, ◌>>◌}
use libcortlet_upgradesched.Machine.Monitor.{
  Watched, Watched->>=, Watched-loop, RoundEnds, if-Watched,
}
use libcortlet_upgradesched.Queue.{Search, pop_for_worker}
use libcortlet_upgradesched.Worker.{
  Worker, Round, again, task_completed, group_completed, execute_task, pop_then, stop_or,
  should_stop, unlock, awake_and_unlock, sleep, last_look, locked_look, worker_round, worker_main,
}
use libcortlet_upgradesched.Conduct.{Conduct, conduct, At, Stays, Idle}
use libcortlet_upgradesched.Conduct.Search.{pop_for_worker-Keeps}

-- A round begins and ends without the lock.
abbrev RoundIdle : Round → Conduct → Type 0
RoundIdle = RoundEnds conduct Idle Idle

-- A program that gives back the lock and the count of sleeping workers, as they are taken.
abbrev Releases : (locked asleep : Bool) → Prog (Unit {0}) → Type 0
Releases locked asleep p = (m : Conduct) → At locked asleep m → Watched conduct Idle m p

abbrev IdleFrom : (locked asleep : Bool) → Prog Round → Type 0
IdleFrom locked asleep p = (m : Conduct) → At locked asleep m → Watched conduct RoundIdle m p

then-Idle :
    (locked asleep : Bool) (release : Prog (Unit {0})) (q : Prog Round)
    → Releases locked asleep release
    → IdleFrom false false q
    → IdleFrom locked asleep (release >> q)
then-Idle locked asleep release q hr hq m h =
    Watched->>= conduct Idle RoundIdle m release (λ _. q) (hr m h) (λ _ m h. hq m h)

group_completed-Releases : (group : Option ℕ) → Releases false false (group_completed group)
unfolding group_completed
group_completed-Releases none m h = h
group_completed-Releases (some g) m h =
    (tt, λ previous. if-Watched conduct Idle m (previous == 1) _ _ (λ _. (tt, λ _. h)) (λ _. h))

-- Behind the task's function, its completion is still to be recorded.
completed-Watched :
    (m : Conduct)
    → m.locked ≡ false
    → m.asleep ≡ false
    → m.unrecorded ≡ 0
    → m.uncounted ≡ 1
    → Watched conduct Idle m task_completed
unfolding task_completed
completed-Watched m l a u c = (
  omega arith,
  λ _. (
    omega arith,
    λ previous.
        if-Watched conduct Idle _ (previous == 1) _ _ (λ _. (tt, λ _. (l, a, u, omega arith)))
          (λ _. (l, a, u, omega arith)),
  ),
)

execute_task-Releases : (t : Task) → Releases false false (execute_task t)
unfolding execute_task take_group
execute_task-Releases t m (l, a, u, c) = (
  (l, a, c),
  λ _.
      Watched->>= conduct Idle Idle _ task_completed (λ _. group_completed t.group)
        (completed-Watched _ l a u (omega arith)) (λ _ m h. group_completed-Releases t.group m h),
)

module _ (locked asleep : Bool) (release : Prog (Unit {0}))
    (gives_back : Releases locked asleep release) where
  pop_then-Idle :
      (next : StealState → PriorityState → Prog Round)
      → ((ss : StealState) (ps : PriorityState) → IdleFrom locked asleep (next ss ps))
      → (found : Search) → IdleFrom locked asleep (pop_then release next found)
  unfolding pop_then
  pop_then-Idle next onward (PopResult.task t, ss, ps) =
      then-Idle locked asleep release _ gives_back (
        then-Idle false false (execute_task t) (ret (again ss ps)) (execute_task-Releases t)
          (λ m h. h))
  pop_then-Idle next onward (PopResult.retry, ss, ps) =
      then-Idle locked asleep release (ret (again ss ps)) gives_back (λ m h. h)
  pop_then-Idle next onward (PopResult.empty, ss, ps) = onward ss ps

  stop_or-Idle :
      (next : Prog Round)
      → IdleFrom locked asleep next
      → IdleFrom locked asleep (stop_or release next)
  unfolding stop_or should_stop
  stop_or-Idle next onward m h = (
    tt,
    elim [
      | false ↦ onward m h
      | true ↦ (
        tt,
        λ count.
            if-Watched conduct RoundIdle m (count == 0) _ _
              (λ _. then-Idle locked asleep release (ret (inr tt)) gives_back (λ m h. h) m h)
              (λ _. onward m h),
      )
    ],
  )

  look-Idle :
      (next : StealState → PriorityState → Prog Round)
      → ((ss : StealState) (ps : PriorityState) → IdleFrom locked asleep (next ss ps))
      → (ss : StealState) (id : ℕ) (ps : PriorityState)
      → IdleFrom locked asleep
          (pop_for_worker ss id ps >>= pop_then release (λ ss ps. stop_or release (next ss ps)))
  look-Idle next onward ss id ps m h =
      Watched->>= conduct (Stays locked asleep) RoundIdle m (pop_for_worker ss id ps) _
        (pop_for_worker-Keeps locked asleep ss id ps m h)
        (λ found m h. pop_then-Idle _ (λ ss ps. stop_or-Idle (next ss ps) (onward ss ps)) found m h)

unlock-Releases : Releases true false unlock
unfolding unlock
unlock-Releases m (l, a, u, c) = (l, λ _. (refl, a, u, c))

awake-Releases : Releases true true awake_and_unlock
unfolding awake_and_unlock unlock
awake-Releases m (l, a, u, c) = ((l, a), λ _. (l, λ _. (refl, refl, u, c)))

sleep-Idle : (ss : StealState) (ps : PriorityState) → IdleFrom true true (sleep ss ps)
unfolding sleep
sleep-Idle ss ps m (l, a, u, c) = (
  l,
  λ _. (
    refl,
    λ _.
        then-Idle true true awake_and_unlock (ret (again ss ps)) awake-Releases (λ m h. h)
          (record m { locked = true }) (refl, a, u, c),
  ),
)

last_look-Idle :
    (id : ℕ) (ss : StealState) (ps : PriorityState) → IdleFrom true false (last_look id ss ps)
unfolding last_look
last_look-Idle id ss ps m (l, a, u, c) = (
  (l, a),
  λ _.
      look-Idle true true awake_and_unlock awake-Releases sleep sleep-Idle ss id ps
        (record m { asleep = true }) (l, refl, u, c),
)

locked_look-Idle :
    (id : ℕ) (ss : StealState) (ps : PriorityState) → IdleFrom false false (locked_look id ss ps)
unfolding locked_look
locked_look-Idle id ss ps m (l, a, u, c) = (
  l,
  λ _.
      look-Idle true false unlock unlock-Releases (last_look id) (last_look-Idle id) ss id ps
        (record m { locked = true }) (refl, a, u, c),
)

round-Idle : (id : ℕ) (w : Worker) → IdleFrom false false (worker_round id w)
unfolding worker_round
round-Idle id w =
    look-Idle false false (ret tt) (λ m h. h) (locked_look id) (locked_look-Idle id) w.steal_state
      id w.priority_state

pub worker_main-Idle :
    (rounds id worker_count : ℕ) → Releases false false (worker_main rounds id worker_count)
unfolding worker_main
worker_main-Idle rounds id worker_count m h =
    Watched-loop conduct Idle Idle (worker_round id) (λ w m h. round-Idle id w m h) rounds _ m h
