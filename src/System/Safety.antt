-- ===== src/System/Safety.antt =====
-- What holds at every moment of every run: the capacity, and what a count of zero means to the
-- callers of `wait` (src/scheduler.rs, src/group.rs).
use libcortlet_upgradesched.Prelude.{
  ℕ, ◌+◌, ◌≤◌, ◌<◌, ◌^◌, ◌≡◌, Bool, true, false, List, Option, arith, sum_below, le-sum_below,
  sum_below-le, sum_by, [], ◌∷◌, Bool-cases, inl, inr, ◌==◌,
}
use libcortlet_upgradesched.Task.{Task}
use libcortlet_upgradesched.Platform.{Platform, Crossbeam}
use libcortlet_upgradesched.Machine.{Op, GroupOp, Prog, act}
use libcortlet_upgradesched.Machine.Store.{QueueSystem}
use libcortlet_upgradesched.Ownership.{Ghost, held, joined, Safe}
use libcortlet_upgradesched.Ownership.Rules.{Clean}
use libcortlet_upgradesched.Effects.{stored, InLanes}
use libcortlet_upgradesched.System.{Turn, System, run}
use libcortlet_upgradesched.System.Invariant.{one, in_group, queued, queued_of, Accounted}
use libcortlet_upgradesched.System.Accounting.{run-Accounted}
use libcortlet_upgradesched.System.Calls.{Call, start, start-Accounted}

-- Whether a thread is about to call a task's function.
abbrev pub about_to_execute : {A : Type 0} → Prog A → Bool
about_to_execute (act (Op.execute t) k) = true
about_to_execute _ = false

-- Whether a thread is about to complete a task for the group at an address.
abbrev pub about_to_complete : {A : Type 0} → ℕ → Prog A → Bool
about_to_complete address (act (Op.group g GroupOp.fetch_sub) k) = g == address
about_to_complete address _ = false

pub held_of_execute :
    {A : Type 0} (capacity : ℕ) (own : Ghost) (p : Prog A)
    → Safe capacity Clean own p
    → about_to_execute p ≡ true
    → held own ≡ 1
held_of_execute capacity own (act (Op.execute t) k) safe e = ground arith
held_of_execute capacity own _ safe e = absurd (ground arith)

joined_of_complete :
    {A : Type 0} (address capacity : ℕ) (own : Ghost) (p : Prog A)
    → Safe capacity Clean own p
    → about_to_complete address p ≡ true
    → joined address own.group ≡ 1
joined_of_complete address capacity own (act (Op.group g GroupOp.fetch_sub) k) safe e = ground arith
joined_of_complete address capacity own _ safe e = absurd (ground arith)

pub joined-le : (address : ℕ) (group : Option ℕ) → joined address group ≤ 1
joined-le address group = ground arith

sum_by_mono {ℓ} :
    {A : Type ℓ} (v w : A → ℕ) (xs : List A) → ((a : A) → v a ≤ w a) → sum_by v xs ≤ sum_by w xs
sum_by_mono v w [] h = omega arith
sum_by_mono v w (x ∷ xs) h = omega (arith, h x, sum_by_mono v w xs h)

pub stored-le :
    (P : Platform) (v w : Task → ℕ) (q : QueueSystem P)
    → ((t : Task) → v t ≤ w t)
    → stored P v q ≤ stored P w q
stored-le P v w q h = omega (
  arith,
  sum_by_mono v w (P.injected q.high) h,
  sum_by_mono v w (P.injected q.normal) h,
  sum_by_mono v w (P.injected q.low) h,
  sum_by_mono (λ d. sum_by v (P.local d)) (λ d. sum_by w (P.local d)) q.stealers
      (λ d. sum_by_mono v w (P.local d) h),
)

module _ (P : Platform) (C : Crossbeam P) (n worker_count capacity : ℕ) (small : capacity < 2 ^ 64)
    (bounded : 0 < capacity) (calls : ℕ → List Call) (turns : List Turn) where
  abbrev after_run : System P (Unit {0})
  after_run = run n turns (start P worker_count capacity calls)

  -- Some ownership accounts for the state, and the count has not wrapped.
  count_exact :
      (own : ℕ → Ghost) × Accounted n capacity own after_run
      × (after_run.store.shared.tasks_in_flight ≡ sum_below held n own + queued after_run)
  count_exact =
      let (own, v) =
        run-Accounted C n capacity small turns _ _
          (start-Accounted P C n worker_count capacity calls) in
      (own, v, omega (arith, v.counted, v.bounded bounded))

  -- At every moment of every interleaving of submissions, workers, waiters and a shutdown, a
  -- scheduler with a capacity from 1 below 2^64 has at most that many tasks in flight, and the count
  -- of tasks in flight covers all tasks in the queues.
  pub in_flight-le-capacity :
      (after_run.store.shared.tasks_in_flight ≤ capacity)
      × (queued after_run ≤ after_run.store.shared.tasks_in_flight)
  in_flight-le-capacity =
      let (own, v, e) = count_exact in (omega (arith, e, v.bounded bounded), omega (arith, e))

  -- In a scheduler with a capacity from 1 below 2^64, at every moment of every interleaving: when the
  -- count of tasks in flight reads zero, at which `wait` returns and a stopping worker ends,
  -- all queues are empty and no thread `i` is about to execute a task.
  pub in_flight_zero :
      (i : ℕ)
      → i < n
      → after_run.store.shared.tasks_in_flight ≡ 0
      → (queued after_run ≡ 0) × (about_to_execute (after_run.threads i) ≡ false)
  in_flight_zero i below z =
      let (own, v, e) = count_exact in
      (
        omega (arith, e),
        elim (Bool-cases (about_to_execute (after_run.threads i))) [
          | inl busy ↦ absurd (
              omega (
                arith,
                e,
                le-sum_below held n own i below,
                held_of_execute capacity (own i) (after_run.threads i) (v.safe i) busy,
              ))
          | inr idle ↦ idle
        ],
      )

  -- In a scheduler with a capacity from 1 below 2^64, at every moment of every interleaving, each
  -- injector holds only tasks of its own priority.
  pub run-InLanes : InLanes P after_run.store.shared.queues
  run-InLanes = let (own, v, e) = count_exact in v.lanes

  -- In a scheduler with a capacity from 1, at every moment of every interleaving, where the number
  -- of threads and the capacity add up to less than 2^64: when the count of a group reads zero, at
  -- which the group's `wait` returns, no queue holds a task of the group, and no thread `i` is
  -- about to complete one.
  pub group_zero :
      (address i : ℕ)
      → n + capacity < 2 ^ 64
      → i < n
      → (after_run.store.groups address).tasks_in_flight ≡ 0
      → (queued_of address after_run ≡ 0)
        × (about_to_complete address (after_run.threads i) ≡ false)
  group_zero address i few below z =
      let (own, v, e) = count_exact in
      let members = sum_below (λ o. joined address o.group) n own in
      let fits : members + queued_of address after_run < 2 ^ 64 = omega (
        arith,
        v.bounded bounded,
        stored-le P (in_group address) one after_run.store.shared.queues
            (λ t. joined-le address t.group),
        sum_below-le (λ o. joined address o.group) n own (λ i. joined-le address (own i).group),
      ) in
      (
        omega (arith, v.grouped address, fits),
        elim (Bool-cases (about_to_complete address (after_run.threads i))) [
          | inl busy ↦ absurd (
              omega (
                arith,
                v.grouped address,
                fits,
                le-sum_below (λ o. joined address o.group) n own i below,
                joined_of_complete address capacity (own i) (after_run.threads i) (v.safe i) busy,
              ))
          | inr idle ↦ idle
        ],
      )
