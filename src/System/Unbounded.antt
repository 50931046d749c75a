-- ===== src/System/Unbounded.antt =====
-- What a count of zero means in a scheduler of any capacity, also without a limit (capacity 0).
use libcortlet_upgradesched.Prelude.{
  ℕ, ◌+◌, ◌≤◌, ◌<◌, ◌^◌, ◌≡◌, false, List, arith, sum_below, le-sum_below, sum_below-le,
  sum_below-zero, sum_by, Bool-cases, inl, inr, true,
}
use libcortlet_upgradesched.Platform.{Platform, Crossbeam}
use libcortlet_upgradesched.Ownership.{Ghost, held}
use libcortlet_upgradesched.Effects.{stored}
use libcortlet_upgradesched.System.{Turn, System, run}
use libcortlet_upgradesched.System.Invariant.{one, queued}
use libcortlet_upgradesched.System.Calls.{Call, start, start-Accounted}
use libcortlet_upgradesched.System.Accounting.{run-Accounted}
use libcortlet_upgradesched.System.Shutdown.{final_from}
use libcortlet_upgradesched.System.Safety.{about_to_execute, held_of_execute}
use libcortlet_upgradesched.System.History.{
  weight, published, executed, in_hand, Told-after_run, nothing_queued, nothing_in_hand,
}

held_le : (own : Ghost) → held own ≤ 1
held_le own = ground arith

module _ (P : Platform) (C : Crossbeam P) (n worker_count capacity : ℕ) (small : capacity < 2 ^ 64)
    (calls : ℕ → List Call) (turns : List Turn) (w : ℕ → ℕ → ℕ) where
  abbrev after_run : System P (Unit {0})
  after_run = run n turns (start P worker_count capacity calls)

  -- In a scheduler of any capacity below 2^64, also without a limit (0), while the threads and the
  -- queued tasks together are fewer than 2^64: when the count of tasks in flight reads zero, all
  -- queues are empty, no thread `i` is about to execute a task, and the tasks of a function and
  -- argument were executed exactly as often as they were published.
  pub settled_at_zero :
      (i : ℕ)
      → i < n
      → n + queued after_run < 2 ^ 64
      → after_run.store.shared.tasks_in_flight ≡ 0
      → (queued after_run ≡ 0)
        × (about_to_execute (after_run.threads i) ≡ false)
        × (sum_by (executed w) after_run.trace ≡ sum_by (published w) after_run.trace)
  settled_at_zero i below few z =
      let (own, v, h) = Told-after_run P C n worker_count capacity small calls turns w in
      let total : sum_below held n own + queued after_run ≡ 0 =
        omega (arith, z, v.counted, few, sum_below-le held n own (λ i. held_le (own i))) in
      let none_queued : stored P one after_run.store.shared.queues ≡ 0 = omega (arith, total) in
      let hands : sum_below (in_hand w) n own ≡ 0 =
        sum_below-zero (in_hand w) n own (λ j lt.
          nothing_in_hand w (own j) (omega (arith, total, le-sum_below held n own j lt))) in
      (
        none_queued,
        elim (Bool-cases (about_to_execute (after_run.threads i))) [
          | inl busy ↦ absurd (
              omega (
                arith,
                total,
                le-sum_below held n own i below,
                held_of_execute capacity (own i) (after_run.threads i) (v.safe i) busy,
              ))
          | inr idle ↦ idle
        ],
        omega (
          arith,
          h.told,
          hands,
          nothing_queued P (weight w) after_run.store.shared.queues none_queued,
        ),
      )

module _ (P : Platform) (C : Crossbeam P) (n worker_count capacity : ℕ) (small : capacity < 2 ^ 64)
    (calls : ℕ → List Call) (turns : List Turn) where
  abbrev until_then : System P (Unit {0})
  until_then = run n turns (start P worker_count capacity calls)

  -- In a scheduler of any capacity below 2^64, also without a limit (0), while the threads and the
  -- queued tasks together are fewer than 2^64: if the shutdown flag is set and the count of tasks in
  -- flight is zero, then after any further turns the flag is still set, the queues are empty, and no
  -- thread `i` is about to execute a task.
  pub shutdown_at_zero :
      (more : List Turn) (i : ℕ)
      → i < n
      → n + queued until_then < 2 ^ 64
      → until_then.store.shared.shutdown ≡ true
      → until_then.store.shared.tasks_in_flight ≡ 0
      → let t = run n more until_then in
        (t.store.shared.shutdown ≡ true) × (queued t ≡ 0) × (about_to_execute (t.threads i) ≡ false)
  shutdown_at_zero more i below few stopping z =
      let (own, v) =
        run-Accounted C n capacity small turns _ _
          (start-Accounted P C n worker_count capacity calls) in
      final_from P C n worker_count capacity small calls turns more i below own v stopping
        (omega (arith, z, v.counted, few, sum_below-le held n own (λ i. held_le (own i))))
