-- ===== src/Conduct/Search.antt =====
-- The search for a task (src/queue.rs) takes no lock, and records each attempt to steal before its
-- outcome.
use libcortlet_upgradesched.Prelude.{ℕ, arith, Bool, true, false, none, some, List, [], ◌∷◌}
use libcortlet_upgradesched.Task.{TaskPriority, PriorityState, fairness_due, reset}
use libcortlet_upgradesched.Steal.{StealState, victims}
use libcortlet_upgradesched.Platform.{Steal}
use libcortlet_upgradesched.Machine.{Prog}
use libcortlet_upgradesched.Machine.Monitor.{Watched, if-Watched}
use libcortlet_upgradesched.Queue.{
  Search, try_or_else, return_or, priority_result, steal_result, steal_from_each, steal_from_peers,
  search_global, local_result, search_local, pop_for_worker, fair_search,
}
use libcortlet_upgradesched.Conduct.{Conduct, conduct, At, Stays}

module _ (locked asleep : Bool) where
  abbrev Keeps : Prog Search → Type 0
  Keeps p = (m : Conduct) → At locked asleep m → Watched conduct (Stays locked asleep) m p

  try-Keeps :
      (ss : StealState) (local : ℕ) (lane : TaskPriority) (ps : PriorityState)
      (next : PriorityState → Prog Search)
      → Keeps (next ps)
      → Keeps (try_or_else ss local lane ps next)
  unfolding try_or_else return_or priority_result
  try-Keeps ss local lane ps next onward m h =
      (tt, elim [ Steal.success t ↦ h | Steal.empty ↦ onward m h | Steal.retry ↦ h ])

  each-Keeps :
      (ss : StealState) (ps : PriorityState) (order : List ℕ) → Keeps (steal_from_each ss ps order)
  unfolding steal_from_each steal_result
  each-Keeps ss ps [] m h = h
  each-Keeps ss ps (victim ∷ rest) m h = (
    tt,
    elim [
      | false ↦ each-Keeps ss ps rest m h
      | true ↦ (
        tt,
        λ _. (
          tt,
          elim [
            | Steal.success t ↦ (omega arith, λ _. h)
            | Steal.empty ↦ (omega arith, λ _. each-Keeps ss ps rest _ h)
            | Steal.retry ↦ h
          ],
        ),
      )
    ],
  )

  global-Keeps :
      (ss : StealState) (local : ℕ) (ps : PriorityState) → Keeps (search_global ss local ps)
  unfolding search_global steal_from_peers
  global-Keeps ss local ps = try-Keeps ss local TaskPriority.high ps _ (
      try-Keeps ss local TaskPriority.normal ps _
        (try-Keeps ss local TaskPriority.low ps _ (each-Keeps (victims ss).1 ps (victims ss).0)))

  local-Keeps :
      (ss : StealState) (local : ℕ) (ps : PriorityState) → Keeps (search_local ss local ps)
  unfolding search_local local_result
  local-Keeps ss local ps m h = (tt, elim [ some t ↦ h | none ↦ global-Keeps ss local ps m h ])

  fair-Keeps : (ss : StealState) (local : ℕ) (ps : PriorityState) → Keeps (fair_search ss local ps)
  unfolding fair_search
  fair-Keeps ss local ps = try-Keeps ss local TaskPriority.normal ps _ (
      try-Keeps ss local TaskPriority.low ps (λ ps. search_local ss local (reset ps))
        (local-Keeps ss local (reset ps)))

  pub pop_for_worker-Keeps :
      (ss : StealState) (local : ℕ) (ps : PriorityState) → Keeps (pop_for_worker ss local ps)
  unfolding pop_for_worker fair_search
  pop_for_worker-Keeps ss local ps m h =
      if-Watched conduct (Stays locked asleep) m (fairness_due ps) _ _
        (λ _. (tt, λ _. fair-Keeps ss local ps m h)) (λ _. local-Keeps ss local ps m h)
