-- ===== src/Worker/Watch/Final.antt =====
-- `worker_main` of src/worker.rs ends only behind a count of zero that it read after it had read that
-- shutdown has begun.
use libcortlet_upgradesched.Prelude.{ℕ, ◌≡◌, refl, arith, Bool, true, false, ◌&&◌, ◌||◌, inr, ◌==◌}
use libcortlet_upgradesched.Task.{PopResult, PriorityState}
use libcortlet_upgradesched.Steal.{StealState}
use libcortlet_upgradesched.Machine.{Op, Answer, Prog, ret, ◌>>=◌, ◌>>◌}
use libcortlet_upgradesched.Machine.Monitor.{
  Monitor, Watched, Watched->>=, Watched-loop, Watched-any, RoundEnds, if-Watched,
}
use libcortlet_upgradesched.Queue.{Search, pop_for_worker}
use libcortlet_upgradesched.Worker.{
  Worker, Round, again, pop_then, stop_or, should_stop, execute_task, unlock, awake_and_unlock,
  sleep, last_look, locked_look, worker_round, worker_main,
}

-- Whether the last read of the flag said that shutdown has begun, and whether a count of zero was
-- ever read while it did.
pub record Knowledge : Type 0 where
  pub stop : Bool
  pub final : Bool

abbrev pub learn : (op : Op) → Answer op → Knowledge → Knowledge
learn Op.load_shutdown x m = record m { stop = x }
learn Op.load_in_flight x m = record m { final = m.final || (m.stop && x == 0) }
learn _ x m = m

abbrev pub knowledge : Monitor
knowledge = record { State = Knowledge; next = learn; Allows = λ _ _. Unit }

abbrev pub Final {ℓ} : {A : Type ℓ} → A → Knowledge → Type 0
Final _ m = m.final ≡ true

abbrev Anything {ℓ} : {A : Type ℓ} → A → Knowledge → Type 0
Anything _ _ = Unit

abbrev RoundFinal : Round → Knowledge → Type 0
RoundFinal = RoundEnds knowledge Anything Final

abbrev Ends : Prog Round → Type 0
Ends p = (m : Knowledge) → Watched knowledge RoundFinal m p

then-Ends : {A : Type 0} (p : Prog A) (f : A → Prog Round) → ((a : A) → Ends (f a)) → Ends (p >>= f)
then-Ends p f h m =
    Watched->>= knowledge Anything RoundFinal m p f (Watched-any knowledge p m (λ _ _. tt))
      (λ a m _. h a m)

pop_then-Ends :
    (release : Prog (Unit {0})) (next : StealState → PriorityState → Prog Round)
    → ((ss : StealState) (ps : PriorityState) → Ends (next ss ps))
    → (found : Search) → Ends (pop_then release next found)
unfolding pop_then
pop_then-Ends release next h (PopResult.task t, ss, ps) =
    then-Ends release _ λ _. then-Ends (execute_task t) _ λ _ m. tt
pop_then-Ends release next h (PopResult.retry, ss, ps) = then-Ends release _ λ _ m. tt
pop_then-Ends release next h (PopResult.empty, ss, ps) = h ss ps

-- What was learned stays so while a lock is given back.
leave-Ends :
    (release : Prog (Unit {0}))
    → ((m : Knowledge) → Watched knowledge (λ _ m'. m' ≡ m) m release)
    → (m : Knowledge) → m.final ≡ true
    → Watched knowledge RoundFinal m (release >> ret (inr tt))
leave-Ends release keeps m e =
    Watched->>= knowledge (λ _ m'. m' ≡ m) RoundFinal m release _ (keeps m) (λ _ m' same. rw same e)

stop_or-Ends :
    (release : Prog (Unit {0})) (next : Prog Round)
    → ((m : Knowledge) → Watched knowledge (λ _ m'. m' ≡ m) m release)
    → Ends next
    → Ends (stop_or release next)
unfolding stop_or should_stop
stop_or-Ends release next keeps h m = (
  tt,
  elim [
    | false ↦ h (record m { stop = false })
    | true ↦ (
      tt,
      λ count.
          if-Watched knowledge RoundFinal (record { stop = true; final = m.final || (count == 0) })
            (count == 0) _ _
            (λ e.
              leave-Ends release keeps (record { stop = true; final = m.final || (count == 0) })
                (ground arith))
            (λ _. h _),
    )
  ],
)

unlock-keeps : (m : Knowledge) → Watched knowledge (λ _ m'. m' ≡ m) m unlock
unfolding unlock
unlock-keeps m = (tt, λ _. refl)

awake-keeps : (m : Knowledge) → Watched knowledge (λ _ m'. m' ≡ m) m awake_and_unlock
unfolding awake_and_unlock unlock
awake-keeps m = (tt, λ _. (tt, λ _. refl))

sleep-Ends : (ss : StealState) (ps : PriorityState) → Ends (sleep ss ps)
unfolding sleep
sleep-Ends ss ps m =
    (tt, λ _. (tt, λ _. then-Ends awake_and_unlock (λ _. ret (again ss ps)) (λ _ m. tt) m))

look-Ends :
    (release : Prog (Unit {0})) (next : StealState → PriorityState → Prog Round)
    → ((m : Knowledge) → Watched knowledge (λ _ m'. m' ≡ m) m release)
    → ((ss : StealState) (ps : PriorityState) → Ends (next ss ps))
    → (ss : StealState) (id : ℕ) (ps : PriorityState)
    → Ends (pop_for_worker ss id ps >>= pop_then release (λ ss ps. stop_or release (next ss ps)))
look-Ends release next keeps h ss id ps =
    then-Ends (pop_for_worker ss id ps) _
      (pop_then-Ends release _ (λ ss ps. stop_or-Ends release (next ss ps) keeps (h ss ps)))

last_look-Ends : (id : ℕ) (ss : StealState) (ps : PriorityState) → Ends (last_look id ss ps)
unfolding last_look
last_look-Ends id ss ps m =
    (tt, λ _. look-Ends awake_and_unlock sleep awake-keeps sleep-Ends ss id ps m)

locked_look-Ends : (id : ℕ) (ss : StealState) (ps : PriorityState) → Ends (locked_look id ss ps)
unfolding locked_look
locked_look-Ends id ss ps m =
    (tt, λ _. look-Ends unlock (last_look id) unlock-keeps (last_look-Ends id) ss id ps m)

round-Ends : (id : ℕ) (w : Worker) → Ends (worker_round id w)
unfolding worker_round
round-Ends id w =
    look-Ends (ret tt) (locked_look id) (λ m. refl) (locked_look-Ends id) w.steal_state id
      w.priority_state

pub worker_main-Final :
    (rounds id worker_count : ℕ) (m : Knowledge)
    → Watched knowledge Final m (worker_main rounds id worker_count)
unfolding worker_main
worker_main-Final rounds id worker_count m =
    Watched-loop knowledge Anything Final (worker_round id) (λ w m _. round-Ends id w m) rounds _ m
      tt
