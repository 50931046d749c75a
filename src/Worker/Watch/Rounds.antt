-- ===== src/Worker/Watch/Rounds.antt =====
-- `worker_main` of src/worker.rs: when it sleeps, and when it stops.
use libcortlet_upgradesched.Prelude.{
  ℕ, ◌≡◌, refl, Bool, true, false, Option, none, some, ◌&&◌, inr, ◌==◌, if◌then◌else◌,
}
use libcortlet_upgradesched.Task.{Task, take_group, PopResult, PriorityState}
use libcortlet_upgradesched.Steal.{StealState}
use libcortlet_upgradesched.Machine.{Op, GroupOp, Prog, ret, call, ◌>>=◌, ◌>>◌}
use libcortlet_upgradesched.Machine.Monitor.{Watched, Watched->>=, Watched-loop, RoundEnds}
use libcortlet_upgradesched.Queue.{Search, pop_for_worker}
use libcortlet_upgradesched.Worker.{
  Worker, Round, again, pop_then, stop_or, should_stop, unlock, awake_and_unlock, sleep, last_look,
  locked_look, worker_round, worker_main, execute_task, group_completed,
}
use libcortlet_upgradesched.Worker.Watch.{Seen, worker_watch, Ready, Searched}
use libcortlet_upgradesched.Worker.Watch.Looks.{pop_for_worker-Searched}

-- The worker knows that shutdown has begun and that no task is in flight.
abbrev pub Informed {ℓ} : {A : Type ℓ} → A → Seen → Type 0
Informed a m = (m.stop ≡ true) × (m.zero ≡ true)

module _ (id : ℕ) where
  abbrev Anything {ℓ} : {A : Type ℓ} → A → Seen → Type 0
  Anything a m = Unit

  abbrev RoundInformed : Round → Seen → Type 0
  RoundInformed = RoundEnds (worker_watch id) Anything Informed

  -- A program after which the round goes on.
  abbrev Harmless : Prog (Unit {0}) → Type 0
  Harmless p = (m : Seen) → Watched (worker_watch id) Anything m p

  then-Watched :
      (p : Prog (Unit {0})) (q : Prog Round) (m : Seen)
      → Harmless p
      → ((m : Seen) → Watched (worker_watch id) RoundInformed m q)
      → Watched (worker_watch id) RoundInformed m (p >> q)
  then-Watched p q m harmless h =
      Watched->>= (worker_watch id) Anything RoundInformed m p (λ _. q) (harmless m) (λ _ m _. h m)

  -- The notification behind the last task.
  notify_or-Harmless :
      (b : Bool) (notify rest : Prog (Unit {0}))
      → Harmless rest
      → Harmless (notify >> rest)
      → Harmless ((if b then notify else ret tt) >> rest)
  notify_or-Harmless true notify rest h k = k
  notify_or-Harmless false notify rest h k = h

  group_completed-Harmless : (group : Option ℕ) → Harmless (group_completed group)
  unfolding group_completed
  group_completed-Harmless none m = tt
  group_completed-Harmless (some g) m = (
    tt,
    λ previous.
        elim (previous == 1)
          as (λ b.
            Watched (worker_watch id) Anything m
              (if b then call (Op.group g GroupOp.notify_all) else ret tt)) [
                | true ↦ (tt, λ _. tt)
                | false ↦ tt
              ],
  )

  execute_task-Harmless : (t : Task) → Harmless (execute_task t)
  unfolding execute_task take_group
  execute_task-Harmless t m = (
    tt,
    λ _. (
      tt,
      λ _. (
        tt,
        λ previous.
            notify_or-Harmless (previous == 1) (call Op.notify_all) (group_completed t.group)
              (group_completed-Harmless t.group)
              (λ m. (tt, λ _. group_completed-Harmless t.group m)) m,
      ),
    ),
  )

  pop_then-Watched :
      (release : Prog (Unit {0})) (next : StealState → PriorityState → Prog Round) (found : Search)
      (b : Bool) (m : Seen)
      → Harmless release
      → Searched b found m
      → ((ss : StealState) (ps : PriorityState)
          → Ready b m
          → Watched (worker_watch id) RoundInformed m (next ss ps))
      → Watched (worker_watch id) RoundInformed m (pop_then release next found)
  unfolding pop_then
  pop_then-Watched release next (PopResult.task t, ss, ps) b m harmless h onward =
      then-Watched release _ m harmless
        λ m. then-Watched (execute_task t) (ret (again ss ps)) m (execute_task-Harmless t) λ _. tt
  pop_then-Watched release next (PopResult.retry, ss, ps) b m harmless h onward =
      then-Watched release (ret (again ss ps)) m harmless λ _. tt
  pop_then-Watched release next (PopResult.empty, ss, ps) b m harmless h onward = onward ss ps h

  abbrev leave : Prog (Unit {0}) → Prog Round
  leave release = release >> ret (inr tt)

  stop_or-Watched :
      (release : Prog (Unit {0})) (next : Prog Round) (b : Bool) (m : Seen)
      → Ready b m
      → Watched
          (worker_watch id)
          RoundInformed
          (record m { stop = true; zero = true; checked = true })
          (leave release)
      → ((m : Seen)
          → Ready b m
          → m.checked ≡ true
          → (m.stop && m.zero) ≡ false
          → Watched (worker_watch id) RoundInformed m next)
      → Watched (worker_watch id) RoundInformed m (stop_or release next)
  unfolding stop_or should_stop
  stop_or-Watched release next b m empty stopping h = (
    tt,
    elim [
      | false ↦ h (record m { stop = false; checked = true }) empty refl refl
      | true ↦ (
        tt,
        λ count.
            elim (count == 0)
              as (λ z.
                Watched (worker_watch id) RoundInformed
                  (record m { stop = true; zero = z; checked = true })
                  (if z then leave release else next)) [
                    | true ↦ stopping
                    | false ↦
                        h (record m { stop = true; zero = false; checked = true }) empty refl refl
                  ],
      )
    ],
  )

  look-Watched :
      (ss : StealState) (ps : PriorityState) (release : Prog (Unit {0}))
      (next : StealState → PriorityState → Prog Round) (b : Bool) (m : Seen)
      → m.announced ≡ b
      → Harmless release
      → ((ss : StealState) (ps : PriorityState) (m : Seen)
          → Ready b m
          → Watched (worker_watch id) RoundInformed m (next ss ps))
      → Watched
          (worker_watch id)
          RoundInformed
          m
          (pop_for_worker ss id ps >>= pop_then release next)
  look-Watched ss ps release next b m told harmless onward =
      Watched->>= (worker_watch id) (Searched b) RoundInformed m (pop_for_worker ss id ps)
        (pop_then release next) (pop_for_worker-Searched b id ss ps m told)
        λ found m h.
          pop_then-Watched release next found b m harmless h (λ ss ps empty. onward ss ps m empty)

  last_look-Watched :
      (ss : StealState) (ps : PriorityState) (m : Seen)
      → Watched (worker_watch id) RoundInformed m (last_look id ss ps)
  unfolding last_look sleep awake_and_unlock unlock
  last_look-Watched ss ps m = (
    tt,
    λ _.
        look-Watched ss ps awake_and_unlock _ true _ refl (λ _. (tt, λ _. (tt, λ _. tt)))
          λ ss ps m empty.
            stop_or-Watched awake_and_unlock (sleep ss ps) true m empty
              (tt, λ _. (tt, λ _. (refl, refl)))
              λ m ready checked going.
                ((ready.0, checked, ready.1, going), λ _. (tt, λ _. (tt, λ _. (tt, λ _. tt)))),
  )

  locked_look-Watched :
      (ss : StealState) (ps : PriorityState) (m : Seen)
      → Watched (worker_watch id) RoundInformed m (locked_look id ss ps)
  unfolding locked_look unlock
  locked_look-Watched ss ps m = (
    tt,
    λ _.
        look-Watched ss ps unlock _ m.announced m refl (λ _. (tt, λ _. tt))
          λ ss ps m empty.
            stop_or-Watched unlock (last_look id ss ps) _ m empty (tt, λ _. (refl, refl))
              λ m _ _ _. last_look-Watched ss ps m,
  )

  round-Watched :
      (w : Worker) (m : Seen) → Watched (worker_watch id) RoundInformed m (worker_round id w)
  unfolding worker_round
  round-Watched w m =
      look-Watched w.steal_state w.priority_state (ret tt) _ m.announced m refl (λ _. tt)
        λ ss ps m empty.
          stop_or-Watched (ret tt) (locked_look id ss ps) _ m empty (refl, refl)
            λ m _ _ _. locked_look-Watched ss ps m

-- On every path, whatever other threads do, a worker goes to sleep only if it has announced that it
-- sleeps (raised the count of sleeping workers), anew for each sleep and not taken back; if it found
-- its own deque and the three injectors empty behind that announcement; and if it has read the
-- shutdown flag behind it, and its last reads do not say that it must stop. It ends only where its
-- last reads say that shutdown has begun and that no task is in flight.
pub worker_main-Watched :
    (rounds id worker_count : ℕ) (m : Seen)
    → Watched (worker_watch id) Informed m (worker_main rounds id worker_count)
unfolding worker_main
worker_main-Watched rounds id worker_count m =
    Watched-loop (worker_watch id) (Anything id) Informed (worker_round id)
      (λ w m _. round-Watched id w m) rounds _ m tt
