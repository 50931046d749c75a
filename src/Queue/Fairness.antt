-- ===== src/Queue/Fairness.antt =====
-- The streak counter along the search of src/queue.rs, whatever other threads do in between.
use libcortlet_upgradesched.Prelude.{
  ℕ, ◌+◌, ◌≤◌, ◌≡◌, refl, arith, Bool, true, false, none, some, List, [], ◌∷◌, ◌≢◌, if◌then◌else◌,
}
use libcortlet_upgradesched.Task.{
  Task, TaskPriority, PopResult, PriorityState, fairness_due, record_task, reset,
}
use libcortlet_upgradesched.Stats.{Event}
use libcortlet_upgradesched.Steal.{StealState, victims}
use libcortlet_upgradesched.Platform.{Steal}
use libcortlet_upgradesched.Machine.{Op, Answer, Prog, ret, act, stalled}
use libcortlet_upgradesched.Queue.{
  Search, priority_result, return_or, try_or_else, steal_result, steal_from_each, steal_from_peers,
  search_global, local_result, search_local, pop_for_worker, fair_search,
}

-- What another thread cannot change: an injector gives tasks of its own priority.
abbrev pub Honest : (op : Op) → Answer op → Type 0
Honest (Op.steal_batch_and_pop lane local) (Steal.success t) = t.priority ≡ lane
Honest _ _ = Unit

-- Every result of a program satisfies `Q`, for all honest answers of the shared state.
abbrev pub Always {ℓ κ} : {A : Type ℓ} → (A → Type κ) → Prog A → Type κ
Always Q (ret a) = Q a
Always Q (act op k) = (x : Answer op) → Honest op x → Always Q (k x)
Always Q stalled = Unit

-- The streak behind a task: one more for HIGH, from zero where fairness was due; zero for others.
abbrev pub streak_after : (due : Bool) → (streak : ℕ) → TaskPriority → ℕ
streak_after due streak TaskPriority.high = if due then 1 else streak + 1
streak_after due streak _ = 0

-- The streak that a search which began with `ps` leaves.
abbrev pub StreakLaw : PriorityState → Search → Type 0
StreakLaw ps (PopResult.task t, ss, ps') =
    ps'.high_streak ≡ streak_after (fairness_due ps) ps.high_streak t.priority
StreakLaw ps (PopResult.empty, ss, ps') =
    ps'.high_streak ≡ (if fairness_due ps then 0 else ps.high_streak)
StreakLaw ps (PopResult.retry, ss, ps') = ps'.high_streak ≤ ps.high_streak

-- A state from which the rest of the search may go on.
abbrev pub Running : PriorityState → PriorityState → Type 0
Running ps now = now.high_streak ≡ (if fairness_due ps then 0 else ps.high_streak)

module _ (ps : PriorityState) where
  taken-StreakLaw :
      (ss : StealState) (t : Task) (now : PriorityState)
      → Running ps now
      → StreakLaw ps (PopResult.task t, ss, record_task t now)
  unfolding record_task fairness_due
  taken-StreakLaw ss t now h = ground arith

  retry-StreakLaw :
      (ss : StealState) (now : PriorityState)
      → Running ps now
      → StreakLaw ps (PopResult.retry, ss, now)
  unfolding fairness_due
  retry-StreakLaw ss now h = ground arith

  try-Always :
      (ss : StealState) (local : ℕ) (lane : TaskPriority) (now : PriorityState)
      (next : PriorityState → Prog Search)
      → Running ps now
      → Always (StreakLaw ps) (next now)
      → Always (StreakLaw ps) (try_or_else ss local lane now next)
  unfolding try_or_else return_or priority_result
  try-Always ss local lane now next h onward (Steal.success t) _ = taken-StreakLaw ss t now h
  try-Always ss local lane now next h onward Steal.empty _ = onward
  try-Always ss local lane now next h onward Steal.retry _ = retry-StreakLaw ss now h

  result-Always :
      (ss : StealState) (now : PriorityState) (next : Prog Search) (answer : Steal)
      → Running ps now
      → Always (StreakLaw ps) next
      → Always (StreakLaw ps) (steal_result ss now next answer)
  unfolding steal_result
  result-Always ss now next (Steal.success t) h onward = λ _ _. taken-StreakLaw ss t now h
  result-Always ss now next Steal.empty h onward = λ _ _. onward
  result-Always ss now next Steal.retry h onward = retry-StreakLaw ss now h

  each-Always :
      (ss : StealState) (now : PriorityState) (order : List ℕ)
      → Running ps now
      → Always (StreakLaw ps) (steal_from_each ss now order)
  unfolding steal_from_each
  each-Always ss now [] h = h
  each-Always ss now (victim ∷ rest) h = elim [
    | false ↦ λ _. each-Always ss now rest h
    | true ↦ λ _ _ _ answer _.
        result-Always ss now (steal_from_each ss now rest) answer h (each-Always ss now rest h)
  ]

  global-Always :
      (ss : StealState) (local : ℕ) (now : PriorityState)
      → Running ps now
      → Always (StreakLaw ps) (search_global ss local now)
  unfolding search_global steal_from_peers
  global-Always ss local now h = try-Always ss local TaskPriority.high now _ h (
      try-Always ss local TaskPriority.normal now _ h (
        try-Always ss local TaskPriority.low now _ h
          (each-Always (victims ss).1 now (victims ss).0 h)))

  local-Always :
      (ss : StealState) (local : ℕ) (now : PriorityState)
      → Running ps now
      → Always (StreakLaw ps) (search_local ss local now)
  unfolding search_local local_result
  local-Always ss local now h (some t) _ = taken-StreakLaw ss t now h
  local-Always ss local now h none _ = global-Always ss local now h

  -- In front of everything else, a search that is due takes no HIGH task.
  fair-Always :
      (ss : StealState) (local : ℕ) (lane : TaskPriority) (next : PriorityState → Prog Search)
      → fairness_due ps ≡ true
      → lane ≢ TaskPriority.high
      → Always (StreakLaw ps) (next ps)
      → Always (StreakLaw ps) (try_or_else ss local lane ps next)
  unfolding try_or_else return_or priority_result record_task
  fair-Always ss local lane next due other onward (Steal.success t) own = ground arith
  fair-Always ss local lane next due other onward Steal.empty _ = onward
  fair-Always ss local lane next due other onward Steal.retry _ = ground arith

  fair_search-Always :
      (ss : StealState) (local : ℕ)
      → fairness_due ps ≡ true
      → Always (StreakLaw ps) (fair_search ss local ps)
  unfolding fair_search reset
  fair_search-Always ss local due =
      fair-Always ss local TaskPriority.normal _ due (λ e. absurd (cc))
        (fair-Always ss local TaskPriority.low (λ ps. search_local ss local (reset ps)) due
          (λ e. absurd (cc)) (local-Always ss local (reset ps) (rw due)))

  -- The streak that a search leaves, for all answers that other threads may cause while an injector
  -- gives only tasks of its own priority: behind a HIGH task one more than before, but 1 where
  -- fairness was due; behind a NORMAL or LOW task 0; behind no task what it was, but 0 where
  -- fairness was due; behind a retry at most what it was.
  pub pop_for_worker-StreakLaw :
      (ss : StealState) (local : ℕ) → Always (StreakLaw ps) (pop_for_worker ss local ps)
  unfolding pop_for_worker fair_search
  pop_for_worker-StreakLaw ss local =
      elim (fairness_due ps)
          as (λ b.
            fairness_due ps ≡ b
            → Always (StreakLaw ps) (
                if b
                then act (Op.stat Event.fairness_yield) (λ _. fair_search ss local ps)
                else search_local ss local ps)) [
                  | false ↦ λ due. local-Always ss local ps (rw due)
                  | true ↦ λ due _ _. fair_search-Always ss local due
                ]
        refl
