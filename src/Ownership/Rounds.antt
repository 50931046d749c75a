-- ===== src/Ownership/Rounds.antt =====
-- The rounds of `worker_main` (src/worker.rs).
use libcortlet_upgradesched.Prelude.{ℕ, ◌≡◌, refl, sym, subst, inr, if◌then◌else◌}
use libcortlet_upgradesched.Task.{PopResult, PriorityState}
use libcortlet_upgradesched.Steal.{StealState}
use libcortlet_upgradesched.Machine.{Prog, ret, ◌>>=◌, ◌>>◌}
use libcortlet_upgradesched.Queue.{Search, pop_for_worker}
use libcortlet_upgradesched.Worker.{
  Worker, Round, again, should_stop, execute_task, pop_then, stop_or, unlock, awake_and_unlock,
  sleep, last_look, locked_look, worker_round, worker_main,
}
use libcortlet_upgradesched.Ownership.{Ghost, nothing, received, Safe}
use libcortlet_upgradesched.Ownership.Rules.{
  >>=-Safe, RoundEnd, loop-Safe, if-Safe, Safe-at, check-Safe, Clean,
}
use libcortlet_upgradesched.Ownership.Workers.{Finds, pop_for_worker-Safe, execute_task-Safe}

abbrev EndOfRound : Ghost → Round → Type 0
EndOfRound = RoundEnd Clean Clean

module _ (capacity : ℕ) where
  -- A release of locks and counters, which changes nothing that a thread owns.
  abbrev IsNeutral : Prog (Unit {0}) → Type 0
  IsNeutral p = (own : Ghost) → Safe capacity (λ own' _. own' ≡ own) own p

  neutral-then {ℓ} :
      {A : Type ℓ} (Q : Ghost → A → Type 0) (p : Prog (Unit {0})) (q : Prog A) (own : Ghost)
      → IsNeutral p
      → Safe capacity Q own q
      → Safe capacity Q own (p >> q)
  neutral-then Q p q own hp hq =
      >>=-Safe capacity (λ own' _. own' ≡ own) Q p (λ _. q) own (hp own)
        (λ own' _ e. subst (λ own. Safe capacity Q own q) (sym e) hq)

  should_stop-Safe : Safe capacity Clean nothing should_stop
  unfolding should_stop
  should_stop-Safe = (tt, check-Safe capacity Clean nothing _ _ (tt, λ count. refl) refl)

  stop_or-Safe :
      (release : Prog (Unit {0})) (next : Prog Round)
      → IsNeutral release
      → Safe capacity EndOfRound nothing next
      → Safe capacity EndOfRound nothing (stop_or release next)
  unfolding stop_or
  stop_or-Safe release next h hn =
      >>=-Safe capacity Clean EndOfRound should_stop _ nothing should_stop-Safe λ own stop e.
        Safe-at capacity EndOfRound (if stop then (do release; ret (inr tt)) else next) nothing e (
          if-Safe capacity EndOfRound stop nothing _ next
            (neutral-then EndOfRound release (ret (inr tt)) nothing h refl) hn)

  pop_then-Safe :
      (release : Prog (Unit {0})) (next : StealState → PriorityState → Prog Round)
      → IsNeutral release
      → ((ss : StealState) (ps : PriorityState) → Safe capacity EndOfRound nothing (next ss ps))
      → (own : Ghost) (found : Search) → Finds own found
      → Safe capacity EndOfRound own (pop_then release next found)
  unfolding pop_then
  pop_then-Safe release next h hn own (PopResult.task t, ss, ps) e =
      Safe-at capacity EndOfRound (do release; execute_task t; ret (again ss ps)) (received t) e
        (neutral-then EndOfRound release (do execute_task t; ret (again ss ps)) (received t) h
          (>>=-Safe capacity Clean EndOfRound (execute_task t) (λ _. ret (again ss ps)) (received t)
            (execute_task-Safe capacity t) (λ own _ e. e)))
  pop_then-Safe release next h hn own (PopResult.retry, ss, ps) e =
      Safe-at capacity EndOfRound (do release; ret (again ss ps)) nothing e
        (neutral-then EndOfRound release (ret (again ss ps)) nothing h refl)
  pop_then-Safe release next h hn own (PopResult.empty, ss, ps) e =
      Safe-at capacity EndOfRound (next ss ps) nothing e (hn ss ps)

  look-Safe :
      (release : Prog (Unit {0})) (next : StealState → PriorityState → Prog Round) (ss : StealState)
      (worker_id : ℕ) (ps : PriorityState)
      → IsNeutral release
      → ((ss : StealState) (ps : PriorityState) → Safe capacity EndOfRound nothing (next ss ps))
      → Safe capacity EndOfRound nothing (
          pop_for_worker ss worker_id ps
          >>= pop_then release (λ ss ps. stop_or release (next ss ps)))
  look-Safe release next ss worker_id ps h hn =
      >>=-Safe capacity Finds EndOfRound (pop_for_worker ss worker_id ps) _ nothing
        (pop_for_worker-Safe capacity ss worker_id ps)
        (pop_then-Safe release _ h (λ ss ps. stop_or-Safe release (next ss ps) h (hn ss ps)))

  worker_round-Safe :
      (worker_id : ℕ) (own : Ghost) (w : Worker)
      → own ≡ nothing
      → Safe capacity EndOfRound own (worker_round worker_id w)
  unfolding worker_round
  worker_round-Safe worker_id own w e =
      Safe-at capacity EndOfRound (worker_round worker_id w) nothing e (
        look-Safe (ret tt) (locked_look worker_id) w.steal_state worker_id w.priority_state
          (λ own. refl)
          λ ss ps. (
            tt,
            λ _.
                look-Safe unlock (last_look worker_id) ss worker_id ps (λ own. (tt, λ _. refl))
                  λ ss ps. (
                    tt,
                    λ _.
                        look-Safe awake_and_unlock sleep ss worker_id ps
                          (λ own. (tt, λ _. (tt, λ _. refl)))
                          λ ss ps. (tt, λ _. (tt, λ _. (tt, λ _. (tt, λ _. refl)))),
                  ),
          ))

  -- Whatever a worker finds, it executes before it gives back the slot, and it stops with nothing.
  pub worker_main-Safe :
      (rounds worker_id worker_count : ℕ)
      → Safe capacity Clean nothing (worker_main rounds worker_id worker_count)
  unfolding worker_main
  worker_main-Safe rounds worker_id worker_count =
      loop-Safe capacity Clean Clean (worker_round worker_id) (worker_round-Safe worker_id) rounds
        nothing _ refl
