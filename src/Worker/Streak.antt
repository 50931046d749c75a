-- ===== src/Worker/Streak.antt =====
-- The streak counter along a round of `worker_main` (src/worker.rs).
use libcortlet_upgradesched.Prelude.{ℕ, ◌≤◌, arith, true, false, inl, inr}
use libcortlet_upgradesched.Task.{PopResult, PriorityState, high_burst_limit, fairness_due}
use libcortlet_upgradesched.Steal.{StealState}
use libcortlet_upgradesched.Machine.{Prog, ret, act, stalled, ◌>>=◌, ◌>>◌}
use libcortlet_upgradesched.Queue.{Search, pop_for_worker}
use libcortlet_upgradesched.Queue.Fairness.{Always, StreakLaw, pop_for_worker-StreakLaw}
use libcortlet_upgradesched.Worker.{
  Worker, Round, again, pop_then, should_stop, stop_or, unlock, awake_and_unlock, sleep, last_look,
  locked_look, worker_round, execute_task,
}

Always->>= {ℓ κ μ ν} :
    {A : Type ℓ} {B : Type κ} (Q : A → Type μ) (R : B → Type ν) (p : Prog A) (f : A → Prog B)
    → Always Q p
    → ((a : A) → Q a → Always R (f a))
    → Always R (p >>= f)
Always->>= Q R (ret a) f h onward = onward a h
Always->>= Q R (act op k) f h onward = λ x own. Always->>= Q R (k x) f (h x own) onward
Always->>= Q R stalled f h onward = tt

abbrev Anything {ℓ} : {A : Type ℓ} → A → Type 0
Anything a = Unit

Always-Anything {ℓ} : {A : Type ℓ} (p : Prog A) → Always Anything p
Always-Anything (ret a) = tt
Always-Anything (act op k) = λ x _. Always-Anything (k x)
Always-Anything stalled = tt

then-Always {ℓ κ ν} :
    {A : Type ℓ} {B : Type κ} (R : B → Type ν) (p : Prog A) (q : Prog B)
    → Always R q
    → Always R (p >> q)
then-Always R p q h = Always->>= Anything R p (λ _. q) (Always-Anything p) λ _ _. h

-- The streak of a worker is at most the limit.
abbrev pub InLimit : PriorityState → Type 0
InLimit ps = ps.high_streak ≤ high_burst_limit

-- A round leaves the streak within the limit, where the worker goes on.
abbrev pub RoundInLimit : Round → Type 0
RoundInLimit (inl w) = InLimit w.priority_state
RoundInLimit (inr _) = Unit

abbrev SearchInLimit : Search → Type 0
SearchInLimit (result, ss, ps) = InLimit ps

StreakLaw-InLimit :
    (ps : PriorityState) (found : Search) → InLimit ps → StreakLaw ps found → SearchInLimit found
unfolding fairness_due
StreakLaw-InLimit ps (PopResult.task t, ss, ps') h law = ground arith
StreakLaw-InLimit ps (PopResult.empty, ss, ps') h law = ground arith
StreakLaw-InLimit ps (PopResult.retry, ss, ps') h law = ground arith

pop_then-Always :
    (release : Prog (Unit {0})) (next : StealState → PriorityState → Prog Round) (found : Search)
    → SearchInLimit found
    → ((ss : StealState) (ps : PriorityState) → InLimit ps → Always RoundInLimit (next ss ps))
    → Always RoundInLimit (pop_then release next found)
unfolding pop_then
pop_then-Always release next (PopResult.task t, ss, ps) h onward =
    then-Always RoundInLimit release _
      (then-Always RoundInLimit (execute_task t) (ret (again ss ps)) h)
pop_then-Always release next (PopResult.retry, ss, ps) h onward =
    then-Always RoundInLimit release (ret (again ss ps)) h
pop_then-Always release next (PopResult.empty, ss, ps) h onward = onward ss ps h

stop_or-Always :
    (release : Prog (Unit {0})) (next : Prog Round)
    → Always RoundInLimit next
    → Always RoundInLimit (stop_or release next)
unfolding stop_or
stop_or-Always release next h =
    Always->>= Anything RoundInLimit should_stop _ (Always-Anything should_stop)
      (elim [ true ↦ λ _. then-Always RoundInLimit release (ret (inr tt)) tt | false ↦ λ _. h ])

look-Always :
    (ss : StealState) (local : ℕ) (ps : PriorityState) (release : Prog (Unit {0}))
    (next : StealState → PriorityState → Prog Round)
    → InLimit ps
    → ((ss : StealState) (ps : PriorityState) → InLimit ps → Always RoundInLimit (next ss ps))
    → Always RoundInLimit (pop_for_worker ss local ps >>= pop_then release next)
look-Always ss local ps release next h onward =
    Always->>= (StreakLaw ps) RoundInLimit (pop_for_worker ss local ps) (pop_then release next)
      (pop_for_worker-StreakLaw ps ss local)
      λ found law. pop_then-Always release next found (StreakLaw-InLimit ps found h law) onward

sleep-Always :
    (ss : StealState) (ps : PriorityState) → InLimit ps → Always RoundInLimit (sleep ss ps)
unfolding sleep
sleep-Always ss ps h = λ _ _ _ _. then-Always RoundInLimit awake_and_unlock (ret (again ss ps)) h

last_look-Always :
    (id : ℕ) (ss : StealState) (ps : PriorityState)
    → InLimit ps
    → Always RoundInLimit (last_look id ss ps)
unfolding last_look
last_look-Always id ss ps h = λ _ _.
    look-Always ss id ps awake_and_unlock _ h
      λ ss ps h. stop_or-Always awake_and_unlock (sleep ss ps) (sleep-Always ss ps h)

locked_look-Always :
    (id : ℕ) (ss : StealState) (ps : PriorityState)
    → InLimit ps
    → Always RoundInLimit (locked_look id ss ps)
unfolding locked_look
locked_look-Always id ss ps h = λ _ _.
    look-Always ss id ps unlock _ h
      λ ss ps h. stop_or-Always unlock (last_look id ss ps) (last_look-Always id ss ps h)

-- A round of a worker whose streak is at most 32 leaves the streak at most 32, for all answers that
-- other threads may cause while an injector gives only tasks of its own priority.
pub worker_round-InLimit :
    (id : ℕ) (w : Worker) → InLimit w.priority_state → Always RoundInLimit (worker_round id w)
unfolding worker_round
worker_round-InLimit id w h =
    look-Always w.steal_state id w.priority_state (ret tt) _ h
      λ ss ps h. stop_or-Always (ret tt) (locked_look id ss ps) (locked_look-Always id ss ps h)
