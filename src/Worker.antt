-- ===== src/Worker.antt =====
-- src/worker.rs: what a worker thread does with the tasks that it finds, and when it sleeps or stops.
pub mod Streak
pub mod Completion
pub mod OneRound
pub mod Drain
pub mod Watch
use libcortlet_upgradesched.Prelude.{
  ℕ, Bool, false, Option, none, some, ◌⊎◌, inl, inr, ◌==◌, if◌then◌else◌,
}
use libcortlet_upgradesched.Task.{Task, take_group, PopResult, PriorityState, fresh_streak}
use libcortlet_upgradesched.Stats.{Event}
use libcortlet_upgradesched.Steal.{StealState, StealPolicy, steal_state_new}
use libcortlet_upgradesched.Machine.{Op, Prog, ret, call, loop, ◌>>=◌, ◌>>◌}
use libcortlet_upgradesched.Group
use libcortlet_upgradesched.Queue.{Search, pop_for_worker}

unfoldable pub task_completed : Prog (Unit {0})
task_completed = do
  call (Op.stat Event.completion)
  previous ← call Op.fetch_sub_in_flight
  if previous == 1 then call Op.notify_all else ret tt

-- `&&` reads the count only once shutdown is seen.
unfoldable pub should_stop : Prog Bool
should_stop = do
  stopping ← call Op.load_shutdown
  if stopping then (do count ← call Op.load_in_flight; ret (count == 0)) else ret false

unfoldable pub begin_shutdown : Prog (Unit {0})
begin_shutdown = do call Op.store_shutdown; call Op.notify_all

unfoldable pub wake_one : Prog (Unit {0})
wake_one = do sleeping ← call Op.load_sleeping; if sleeping == 0 then ret tt else call Op.notify_one

unfoldable pub wake_all : Prog (Unit {0})
wake_all = call Op.notify_all

-- `Task::execute`: the call of the C function.
unfoldable pub execute : Task → Prog (Unit {0})
execute t = call (Op.execute t)

unfoldable pub group_completed : Option ℕ → Prog (Unit {0})
unfolding Group.task_completed
group_completed none = ret tt
group_completed (some g) = Group.task_completed g

unfoldable pub execute_task : Task → Prog (Unit {0})
unfolding take_group execute task_completed group_completed
execute_task t =
    let (group, t') = take_group t in do execute t'; task_completed; group_completed group

-- The two variables of `worker_main` that change from round to round.
pub record Worker : Type 0 where
  pub steal_state : StealState
  pub priority_state : PriorityState

-- `inl`: `continue`, or the end of the body. `inr`: `break`.
abbrev pub Round : Type 0
Round = Worker ⊎ Unit {0}

abbrev pub again : StealState → PriorityState → Round
again ss ps = inl (record { steal_state = ss; priority_state = ps })

-- One of the three matches on `pop_for_worker`: `release` is what its first two branches undo, and
-- `next` the code below the match.
unfoldable pub pop_then :
    Prog (Unit {0}) → (StealState → PriorityState → Prog Round) → Search → Prog Round
unfolding execute_task
pop_then release next (PopResult.task t, ss, ps) = do release; execute_task t; ret (again ss ps)
pop_then release next (PopResult.retry, ss, ps) = do release; ret (again ss ps)
pop_then release next (PopResult.empty, ss, ps) = next ss ps

-- `if shared.should_stop() { …; break; }`, and the code below it. A guard in scope is dropped.
unfoldable pub stop_or : Prog (Unit {0}) → Prog Round → Prog Round
unfolding should_stop
stop_or release next = do stop ← should_stop; if stop then (do release; ret (inr tt)) else next

unfoldable pub unlock : Prog (Unit {0})
unlock = call Op.unlock_sleep

unfoldable pub awake_and_unlock : Prog (Unit {0})
unfolding unlock
awake_and_unlock = do _ ← call Op.fetch_sub_sleeping; unlock

-- Sleep until a notification; the guard is dropped at the end of the loop's body.
unfoldable pub sleep : StealState → PriorityState → Prog Round
unfolding awake_and_unlock
sleep ss ps = do call Op.block; call Op.resume; awake_and_unlock; ret (again ss ps)

-- The third match, once the worker counts as sleeping.
unfoldable pub last_look : (worker_id : ℕ) → StealState → PriorityState → Prog Round
unfolding pop_for_worker pop_then stop_or sleep
last_look worker_id ss ps = do
  _ ← call Op.fetch_add_sleeping
  found ← pop_for_worker ss worker_id ps
  pop_then awake_and_unlock (λ ss ps. stop_or awake_and_unlock (sleep ss ps)) found

-- The second match, under the lock.
unfoldable pub locked_look : (worker_id : ℕ) → StealState → PriorityState → Prog Round
unfolding last_look
locked_look worker_id ss ps = do
  call Op.lock_sleep
  found ← pop_for_worker ss worker_id ps
  pop_then unlock (λ ss ps. stop_or unlock (last_look worker_id ss ps)) found

-- The body of the `loop` of `worker_main`.
unfoldable pub worker_round : (worker_id : ℕ) → Worker → Prog Round
unfolding locked_look
worker_round worker_id w = do
  found ← pop_for_worker w.steal_state worker_id w.priority_state
  pop_then (ret tt) (λ ss ps. stop_or (ret tt) (locked_look worker_id ss ps)) found

unfoldable pub worker_main : (rounds worker_id worker_count : ℕ) → Prog (Unit {0})
unfolding worker_round steal_state_new loop
worker_main rounds worker_id worker_count = loop rounds (worker_round worker_id) (record {
  steal_state = steal_state_new worker_id worker_count StealPolicy.round_robin;
  priority_state = fresh_streak;
})
