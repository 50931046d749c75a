-- ===== src/Queue.antt =====
-- `QueueSystem` of src/queue.rs: how a worker looks for a task.
pub mod View
pub mod Changed
pub mod Peers
pub mod Stealing
pub mod Injectors
pub mod Selection
pub mod Fairness
pub mod Remaining
pub mod Robbing
pub mod Calm
pub mod Outcome
use libcortlet_upgradesched.Prelude.{ℕ, not, Option, none, some, List, [], ◌∷◌, if◌then◌else◌}
use libcortlet_upgradesched.Task.{
  Task, TaskPriority, priority, PopResult, PriorityState, fairness_due, record_task, reset,
}
use libcortlet_upgradesched.Stats.{Event}
use libcortlet_upgradesched.Steal.{StealState, victims}
use libcortlet_upgradesched.Platform.{Steal}
use libcortlet_upgradesched.Machine.{Op, Prog, ret, call, ◌>>=◌, ◌>>◌}

unfoldable pub push_global : Task → Prog (Unit {0})
push_global t = call (Op.push_injector (priority t) t)

abbrev pub from_steal : Steal → PopResult
from_steal (Steal.success t) = PopResult.task t
from_steal Steal.retry = PopResult.retry
from_steal Steal.empty = PopResult.empty

unfoldable pub steal_priority : (local : ℕ) → (injector : TaskPriority) → Prog PopResult
steal_priority local injector = do
  answer ← call (Op.steal_batch_and_pop injector local)
  ret (from_steal answer)

-- `none`: the queue was empty, and the search goes on.
unfoldable pub priority_result : PriorityState → PopResult → Option PopResult × PriorityState
priority_result ps (PopResult.task t) = (some (PopResult.task t), record_task t ps)
priority_result ps PopResult.retry = (some PopResult.retry, ps)
priority_result ps PopResult.empty = (none, ps)

unfoldable pub try_priority_queue :
    (local : ℕ)
    → (injector : TaskPriority) → PriorityState
    → Prog (Option PopResult × PriorityState)
unfolding priority_result steal_priority
try_priority_queue local injector ps = do
  result ← steal_priority local injector
  ret (priority_result ps result)

-- What a search returns: its result, and the state of the worker that changed on the way.
abbrev pub Search : Type 0
Search = PopResult × StealState × PriorityState

-- `if let Some(result) = self.try_priority_queue(…) { return result; }`, and the code after it.
unfoldable pub return_or :
    StealState → (PriorityState → Prog Search) → Option PopResult × PriorityState → Prog Search
return_or ss next (none, ps) = next ps
return_or ss next (some result, ps) = ret (result, ss, ps)

unfoldable pub try_or_else :
    StealState
    → (local : ℕ) → (injector : TaskPriority) → PriorityState
    → (PriorityState → Prog Search)
    → Prog Search
unfolding try_priority_queue return_or
try_or_else ss local injector ps next = try_priority_queue local injector ps >>= return_or ss next

-- The answer of one stealer, and the code for the victims after it.
unfoldable pub steal_result : StealState → PriorityState → Prog Search → Steal → Prog Search
steal_result ss ps next (Steal.success t) = do
  call (Op.stat Event.steal_success)
  ret (PopResult.task t, ss, record_task t ps)
steal_result ss ps next Steal.retry = ret (PopResult.retry, ss, ps)
steal_result ss ps next Steal.empty = do call (Op.stat Event.steal_failure); next

-- The `for victim in victims` loop.
unfoldable pub steal_from_each : StealState → PriorityState → List ℕ → Prog Search
unfolding steal_result
steal_from_each ss ps [] = ret (PopResult.empty, ss, ps)
steal_from_each ss ps (victim ∷ rest) =
    let next = steal_from_each ss ps rest in
    do
      present ← call (Op.has_stealer victim)
      if not present then next else do
        call (Op.stat Event.steal_attempt)
        answer ← call (Op.steal victim)
        steal_result ss ps next answer

unfoldable pub steal_from_peers : StealState → PriorityState → Prog Search
unfolding steal_from_each victims
steal_from_peers ss ps = let (order, ss') = victims ss in steal_from_each ss' ps order

-- HIGH, then NORMAL, then LOW, then the other workers.
unfoldable pub search_global : StealState → (local : ℕ) → PriorityState → Prog Search
unfolding try_or_else steal_from_peers
search_global ss local ps = try_or_else ss local TaskPriority.high ps λ ps.
    try_or_else ss local TaskPriority.normal ps
      λ ps. try_or_else ss local TaskPriority.low ps λ ps. steal_from_peers ss ps

unfoldable pub local_result : StealState → (local : ℕ) → PriorityState → Option Task → Prog Search
unfolding search_global
local_result ss local ps (some t) = ret (PopResult.task t, ss, record_task t ps)
local_result ss local ps none = search_global ss local ps

-- The part behind the check for fairness.
unfoldable pub search_local : StealState → (local : ℕ) → PriorityState → Prog Search
unfolding local_result
search_local ss local ps = call (Op.pop_local local) >>= local_result ss local ps

-- The lower priorities first; where they have nothing, the streak is reset.
unfoldable pub fair_search : StealState → (local : ℕ) → PriorityState → Prog Search
unfolding try_or_else search_local
fair_search ss local ps =
    try_or_else ss local TaskPriority.normal ps
      λ ps. try_or_else ss local TaskPriority.low ps λ ps. search_local ss local (reset ps)

unfoldable pub pop_for_worker : StealState → (local : ℕ) → PriorityState → Prog Search
unfolding fair_search search_local
pop_for_worker ss local ps =
    if fairness_due ps
    then (do call (Op.stat Event.fairness_yield); fair_search ss local ps)
    else search_local ss local ps
