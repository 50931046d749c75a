-- ===== src/Worker/Watch/Looks.antt =====
-- A search that ends with `Empty` has looked into every injector and the own deque (src/queue.rs).
use libcortlet_upgradesched.Prelude.{
  ==_refl, ◌==◌, ℕ, ◌≡◌, refl, Bool, true, false, none, some, List, [], ◌∷◌, if◌then◌else◌,
}
use libcortlet_upgradesched.Task.{TaskPriority, PriorityState, fairness_due, reset}
use libcortlet_upgradesched.Steal.{StealState, victims}
use libcortlet_upgradesched.Stats.{Event}
use libcortlet_upgradesched.Platform.{Steal}
use libcortlet_upgradesched.Machine.{Op, Prog, act}
use libcortlet_upgradesched.Machine.Monitor.{Watched}
use libcortlet_upgradesched.Queue.{
  Search, try_or_else, return_or, priority_result, steal_result, steal_from_each, steal_from_peers,
  search_global, local_result, search_local, pop_for_worker, fair_search,
}
use libcortlet_upgradesched.Worker.Watch.{Seen, look, Ready, worker_watch, Searched}

module _ (b : Bool) (local : ℕ) where
  -- One injector: where it is empty, the search goes on, and has seen that.
  try-Searched :
      (ss : StealState) (lane : TaskPriority) (ps : PriorityState)
      (next : PriorityState → Prog Search) (m : Seen)
      → Watched (worker_watch local) (Searched b) (look lane true m) (next ps)
      → Watched (worker_watch local) (Searched b) m (try_or_else ss local lane ps next)
  unfolding try_or_else return_or priority_result
  try-Searched ss lane ps next m h =
      (tt, elim [ Steal.success t ↦ tt | Steal.empty ↦ h | Steal.retry ↦ tt ])

  each-Searched :
      (ss : StealState) (ps : PriorityState) (order : List ℕ) (m : Seen)
      → Ready b m
      → Watched (worker_watch local) (Searched b) m (steal_from_each ss ps order)
  unfolding steal_from_each steal_result
  each-Searched ss ps [] m h = h
  each-Searched ss ps (victim ∷ rest) m h = (
    tt,
    elim [
      | false ↦ each-Searched ss ps rest m h
      | true ↦ (
        tt,
        λ _. (
          tt,
          elim [
            | Steal.success t ↦ (tt, λ _. tt)
            | Steal.empty ↦ (tt, λ _. each-Searched ss ps rest m h)
            | Steal.retry ↦ tt
          ],
        ),
      )
    ],
  )

  global-Searched :
      (ss : StealState) (ps : PriorityState) (m : Seen)
      → m.announced ≡ b
      → m.own ≡ true
      → Watched (worker_watch local) (Searched b) m (search_global ss local ps)
  unfolding search_global steal_from_peers
  global-Searched ss ps m told own = try-Searched ss TaskPriority.high ps _ m (
      try-Searched ss TaskPriority.normal ps _ (look TaskPriority.high true m) (
        try-Searched ss TaskPriority.low ps _
          (look TaskPriority.normal true (look TaskPriority.high true m))
          (each-Searched (victims ss).1 ps (victims ss).0 _ (told, (refl, refl, refl, own)))))

  local-Searched :
      (ss : StealState) (ps : PriorityState) (m : Seen)
      → m.announced ≡ b
      → Watched (worker_watch local) (Searched b) m (search_local ss local ps)
  unfolding search_local local_result
  local-Searched ss ps m told = (
    tt,
    elim [
      | some t ↦ tt
      | none ↦ global-Searched ss ps (record m { own = local == local }) told (==_refl local)
    ],
  )

  fair-Searched :
      (ss : StealState) (ps : PriorityState) (m : Seen)
      → m.announced ≡ b
      → Watched (worker_watch local) (Searched b) m (fair_search ss local ps)
  unfolding fair_search
  fair-Searched ss ps m told = try-Searched ss TaskPriority.normal ps _ m (
      try-Searched ss TaskPriority.low ps (λ ps. search_local ss local (reset ps))
        (look TaskPriority.normal true m)
        (local-Searched ss (reset ps) (look TaskPriority.low true (look TaskPriority.normal true m))
          told))

  pub pop_for_worker-Searched :
      (ss : StealState) (ps : PriorityState) (m : Seen)
      → m.announced ≡ b
      → Watched (worker_watch local) (Searched b) m (pop_for_worker ss local ps)
  unfolding pop_for_worker fair_search
  pop_for_worker-Searched ss ps m told =
      elim (fairness_due ps)
        as (λ due. Watched (worker_watch local) (Searched b) m (
          if due
          then act (Op.stat Event.fairness_yield) (λ _. fair_search ss local ps)
          else search_local ss local ps)) [
            | false ↦ local-Searched ss ps m told
            | true ↦ (tt, λ _. fair-Searched ss ps m told)
          ]
