-- ===== src/Ownership/Workers.antt =====
-- A worker (src/queue.rs, src/worker.rs) executes each task that it takes before it releases the
-- task's slot, and leaves each round with nothing.
use libcortlet_upgradesched.Prelude.{
  ℕ, ◌≡◌, refl, sym, subst, Option, none, some, List, [], ◌∷◌, ◌==◌, not,
}
use libcortlet_upgradesched.Task.{Task, TaskPriority, PopResult, PriorityState, fairness_due, reset}
use libcortlet_upgradesched.Steal.{StealState, victims}
use libcortlet_upgradesched.Platform.{Steal}
use libcortlet_upgradesched.Machine.{Prog}
use libcortlet_upgradesched.Queue.{
  from_steal, priority_result, Search, return_or, try_or_else, steal_result, steal_from_each,
  steal_from_peers, search_global, local_result, search_local, pop_for_worker,
}
use libcortlet_upgradesched.Worker.{group_completed, execute_task}
use libcortlet_upgradesched.Ownership.{Ghost, free, nothing, received, after_steal, after_pop, Safe}
use libcortlet_upgradesched.Ownership.Rules.{>>=-Safe, if-Safe, Clean}
use libcortlet_upgradesched.Ownership.Submission.{task_completed-Safe}

-- A search ends with the task that was found, or with nothing.
abbrev pub Finds : Ghost → Search → Type 0
Finds own (PopResult.task t, ss, ps) = own ≡ received t
Finds own (PopResult.empty, ss, ps) = own ≡ nothing
Finds own (PopResult.retry, ss, ps) = own ≡ nothing

module _ (capacity : ℕ) where
  try_or_else-Safe :
      (ss : StealState) (local : ℕ) (injector : TaskPriority) (ps : PriorityState)
      (next : PriorityState → Prog Search)
      → ((ps : PriorityState) → Safe capacity Finds nothing (next ps))
      → Safe capacity Finds nothing (try_or_else ss local injector ps next)
  unfolding try_or_else
  try_or_else-Safe ss local injector ps next h = (refl, answered)
    where
      answered :
          (x : Steal)
          → Safe capacity Finds
              (after_steal x nothing)
              (return_or ss next (priority_result ps (from_steal x)))
      answered (Steal.success t) = refl
      answered Steal.empty = h ps
      answered Steal.retry = refl

  steal_result-Safe :
      (ss : StealState) (ps : PriorityState) (next : Prog Search)
      → Safe capacity Finds nothing next
      → (x : Steal) → Safe capacity Finds (after_steal x nothing) (steal_result ss ps next x)
  unfolding steal_result
  steal_result-Safe ss ps next h (Steal.success t) = (tt, λ _. refl)
  steal_result-Safe ss ps next h Steal.empty = (tt, λ _. h)
  steal_result-Safe ss ps next h Steal.retry = refl

  steal_from_each-Safe :
      (ss : StealState) (ps : PriorityState) (order : List ℕ)
      → Safe capacity Finds nothing (steal_from_each ss ps order)
  unfolding steal_from_each
  steal_from_each-Safe ss ps [] = refl
  steal_from_each-Safe ss ps (victim ∷ rest) =
      let ih = steal_from_each-Safe ss ps rest in
      (
        tt,
        λ present.
            if-Safe capacity Finds (not present) _ _ _ ih
              (tt, λ _. (refl, steal_result-Safe ss ps _ ih)),
      )

  search_global-Safe :
      (ss : StealState) (local : ℕ) (ps : PriorityState)
      → Safe capacity Finds nothing (search_global ss local ps)
  unfolding search_global steal_from_peers
  search_global-Safe ss local ps = try_or_else-Safe ss local TaskPriority.high ps _ λ ps.
      try_or_else-Safe ss local TaskPriority.normal ps _ λ ps.
        try_or_else-Safe ss local TaskPriority.low ps _
          λ ps. steal_from_each-Safe (victims ss).1 ps (victims ss).0

  search_local-Safe :
      (ss : StealState) (local : ℕ) (ps : PriorityState)
      → Safe capacity Finds nothing (search_local ss local ps)
  unfolding search_local
  search_local-Safe ss local ps = (refl, popped)
    where
      popped :
          (x : Option Task) → Safe capacity Finds (after_pop x nothing) (local_result ss local ps x)
      popped none = search_global-Safe ss local ps
      popped (some t) = refl

  pub pop_for_worker-Safe :
      (ss : StealState) (local : ℕ) (ps : PriorityState)
      → Safe capacity Finds nothing (pop_for_worker ss local ps)
  unfolding pop_for_worker
  pop_for_worker-Safe ss local ps =
      if-Safe capacity Finds (fairness_due ps) nothing _ _
        (
          tt,
          λ _. try_or_else-Safe ss local TaskPriority.normal ps _ λ ps.
              try_or_else-Safe ss local TaskPriority.low ps _
                λ ps. search_local-Safe ss local (reset ps),
        )
        (search_local-Safe ss local ps)

  -- The task is executed, then its slot released, then the unit of its group.
  pub execute_task-Safe : (t : Task) → Safe capacity Clean (received t) (execute_task t)
  unfolding execute_task
  execute_task-Safe t = (
    refl,
    λ _. (
      tt,
      λ _. (
        refl,
        λ previous.
            >>=-Safe capacity (λ own (_ : Unit {0}). own ≡ released) Clean _ _ released
              (if-Safe capacity (λ own (_ : Unit {0}). own ≡ released) (previous == 1) _ _ _
                (tt, λ _. refl) refl)
              finish,
      ),
    ),
  )
    where
      released : Ghost
      released = record { slot = free; group = t.group }

      finish_group :
          (group : Option ℕ)
          → Safe capacity Clean (record { slot = free; group = group }) (group_completed group)
      finish_group none = refl
      finish_group (some g) =
          task_completed-Safe capacity (record { slot = free; group = some g }) g refl refl

      finish :
          (own : Ghost) (u : Unit {0})
          → own ≡ released
          → Safe capacity Clean own (group_completed t.group)
      finish own u e =
          subst (λ own. Safe capacity Clean own (group_completed t.group)) (sym e)
            (finish_group t.group)
