-- ===== src/Queue/Calm.antt =====
-- A search of src/queue.rs calls no task's function.
use libcortlet_upgradesched.Prelude.{ℕ, true, false, none, some, List, [], ◌∷◌}
use libcortlet_upgradesched.Task.{TaskPriority, PriorityState, fairness_due, reset}
use libcortlet_upgradesched.Steal.{StealState, victims}
use libcortlet_upgradesched.Platform.{Steal}
use libcortlet_upgradesched.Machine.{Op, Prog}
use libcortlet_upgradesched.Machine.Monitor.{Monitor, Watched, if-Watched}
use libcortlet_upgradesched.Queue.{
  Search, try_or_else, return_or, priority_result, steal_result, steal_from_each, steal_from_peers,
  search_global, local_result, search_local, pop_for_worker, fair_search,
}

abbrev pub NoCall : Op → Type 0
NoCall (Op.execute t) = ⊥
NoCall _ = Unit

abbrev pub calls_nothing : Monitor
calls_nothing = record { State = Unit {0}; next = λ _ _ m. m; Allows = λ op _. NoCall op }

abbrev pub Anything {ℓ} : {A : Type ℓ} → A → Unit {0} → Type 0
Anything _ _ = Unit

abbrev pub IsCalm : Prog Search → Type 0
IsCalm p = Watched calls_nothing Anything tt p

try-IsCalm :
    (ss : StealState) (local : ℕ) (lane : TaskPriority) (ps : PriorityState)
    (next : PriorityState → Prog Search)
    → IsCalm (next ps)
    → IsCalm (try_or_else ss local lane ps next)
unfolding try_or_else return_or priority_result
try-IsCalm ss local lane ps next onward =
    (tt, elim [ Steal.success t ↦ tt | Steal.empty ↦ onward | Steal.retry ↦ tt ])

each-IsCalm :
    (ss : StealState) (ps : PriorityState) (order : List ℕ) → IsCalm (steal_from_each ss ps order)
unfolding steal_from_each steal_result
each-IsCalm ss ps [] = tt
each-IsCalm ss ps (victim ∷ rest) = (
  tt,
  elim [
    | false ↦ each-IsCalm ss ps rest
    | true ↦ (
      tt,
      λ _. (
        tt,
        elim [
          | Steal.success t ↦ (tt, λ _. tt)
          | Steal.empty ↦ (tt, λ _. each-IsCalm ss ps rest)
          | Steal.retry ↦ tt
        ],
      ),
    )
  ],
)

global-IsCalm :
    (ss : StealState) (local : ℕ) (ps : PriorityState) → IsCalm (search_global ss local ps)
unfolding search_global steal_from_peers
global-IsCalm ss local ps = try-IsCalm ss local TaskPriority.high ps _ (
    try-IsCalm ss local TaskPriority.normal ps _
      (try-IsCalm ss local TaskPriority.low ps _ (each-IsCalm (victims ss).1 ps (victims ss).0)))

local-IsCalm :
    (ss : StealState) (local : ℕ) (ps : PriorityState) → IsCalm (search_local ss local ps)
unfolding search_local local_result
local-IsCalm ss local ps = (tt, elim [ some t ↦ tt | none ↦ global-IsCalm ss local ps ])

fair-IsCalm : (ss : StealState) (local : ℕ) (ps : PriorityState) → IsCalm (fair_search ss local ps)
unfolding fair_search
fair-IsCalm ss local ps = try-IsCalm ss local TaskPriority.normal ps _ (
    try-IsCalm ss local TaskPriority.low ps (λ ps. search_local ss local (reset ps))
      (local-IsCalm ss local (reset ps)))

pub pop_for_worker-IsCalm :
    (ss : StealState) (local : ℕ) (ps : PriorityState) → IsCalm (pop_for_worker ss local ps)
unfolding pop_for_worker fair_search
pop_for_worker-IsCalm ss local ps =
    if-Watched calls_nothing Anything tt (fairness_due ps) _ _
      (λ _. (tt, λ _. fair-IsCalm ss local ps)) (λ _. local-IsCalm ss local ps)
