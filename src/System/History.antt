-- ===== src/System/History.antt =====
-- The tasks that were published and the tasks that were executed, by the trace of a run.
use libcortlet_upgradesched.Prelude.{
  ℕ, ◌+◌, ◌≤◌, ◌<◌, ◌^◌, ◌≡◌, List, arith, sum_below, sum_below-update, sum_below-zero,
  le-sum_below, sum_by, sum_by-zero, refl,
}
use libcortlet_upgradesched.Task.{Task}
use libcortlet_upgradesched.Platform.{Platform, Crossbeam}
use libcortlet_upgradesched.Machine.{Op, Answer, Prog}
use libcortlet_upgradesched.Machine.Store.{QueueSystem}
use libcortlet_upgradesched.Ownership.{Ghost, taken, nothing, held, Allowed, after}
use libcortlet_upgradesched.Effects.{stored, put_in, taken_out}
use libcortlet_upgradesched.System.{Turn, System, run}
use libcortlet_upgradesched.System.Invariant.{one, Accounted}
use libcortlet_upgradesched.System.Accounting.{Kept, run-IsKept}
use libcortlet_upgradesched.System.Calls.{
  Call, script, boot, start, start-Accounted, stored-queues_new,
}

-- A weight of tasks by their function and argument. With the weight that is 1 at one function and
-- argument and 0 elsewhere, a sum of weights counts the tasks of that function and argument.
module _ (w : ℕ → ℕ → ℕ) where
  abbrev pub weight : Task → ℕ
  weight t = w t.function t.argument

  -- What a push adds, and what an execution adds.
  abbrev pub published : Op → ℕ
  published (Op.push_injector lane t) = weight t
  published _ = 0

  abbrev pub executed : Op → ℕ
  executed (Op.execute t) = weight t
  executed _ = 0

  abbrev pub in_hand : Ghost → ℕ
  in_hand own = elim own.slot [ taken function argument ↦ w function argument | _ ↦ 0 ]

  pub history-after :
      (capacity total total' queues queues' past done : ℕ) (own : Ghost) (op : Op) (x : Answer op)
      → Allowed capacity own op
      → total' + in_hand own ≡ total + in_hand (after op x own)
      → queues' + taken_out weight op x ≡ queues + put_in weight op
      → past ≡ done + queues + total
      → published op + past ≡ executed op + done + queues' + total'
  history-after capacity total total' queues queues' past done own Op.load_shutdown x a t q e =
      ground arith
  history-after capacity total total' queues queues' past done own _ x a t q e = ground arith

module _ {P : Platform} {A : Type 0} (w : ℕ → ℕ → ℕ) (n : ℕ) where
  -- What was published was executed, is queued, or is in the hands of a thread.
  pub record Told (own : ℕ → Ghost) (s : System P A) : Type 0 where
    pub told :
        sum_by (published w) s.trace
        ≡ sum_by (executed w) s.trace
          + stored P (weight w) s.store.shared.queues
          + sum_below (in_hand w) n own

  pub Told-Kept : (capacity : ℕ) → Kept {P = P} {A = A} n capacity Told
  Told-Kept capacity = record {
    keep = λ own s i op k x s' below v h a f here. record {
      told =
          history-after w capacity (sum_below (in_hand w) n own) _
            (stored P (weight w) s.store.shared.queues) _ (sum_by (published w) s.trace) _ (own i)
            op x a (sum_below-update (in_hand w) n own i (after op x (own i)) below)
            (f.flow (weight w)) h.told;
    };
  }

-- Queues that weigh nothing by one weight weigh nothing by a weight of fewer tasks.
pub stored-zero :
    (P : Platform) (u v : Task → ℕ) (q : QueueSystem P)
    → ((t : Task) → u t ≡ 0 → v t ≡ 0)
    → stored P u q ≡ 0
    → stored P v q ≡ 0
stored-zero P u v q h e = omega (
  arith,
  sum_by-zero u v (P.injected q.high) h (omega arith),
  sum_by-zero u v (P.injected q.normal) h (omega arith),
  sum_by-zero u v (P.injected q.low) h (omega arith),
  sum_by-zero (λ d. sum_by u (P.local d)) (λ d. sum_by v (P.local d)) q.stealers
      (λ d. sum_by-zero u v (P.local d) h) (omega arith),
)

pub nothing_queued :
    (P : Platform) (v : Task → ℕ) (q : QueueSystem P) → stored P one q ≡ 0 → stored P v q ≡ 0
nothing_queued P v q = stored-zero P one v q (λ t h. absurd (omega arith))

pub nothing_in_hand : (w : ℕ → ℕ → ℕ) (own : Ghost) → held own ≡ 0 → in_hand w own ≡ 0
nothing_in_hand w own h = ground arith

pub boot-Told :
    (P : Platform)
    → Crossbeam P
    → {A : Type 0} (w : ℕ → ℕ → ℕ) (n worker_count : ℕ) (programs : ℕ → Prog A)
    → Told w n (λ _. nothing) (boot P worker_count programs)
unfolding boot
boot-Told P C w n worker_count programs = record {
  told = omega (
    arith,
    stored-queues_new P C (weight w) worker_count,
    sum_below-zero (in_hand w) n (λ _. nothing) (λ _ _. refl),
  );
}

-- At a count of zero nothing is queued and nothing is in the hands of a thread.
pub Told-at_zero :
    {P : Platform} {A : Type 0} (w : ℕ → ℕ → ℕ) (n capacity : ℕ) (own : ℕ → Ghost) (s : System P A)
    → capacity < 2 ^ 64
    → 0 < capacity
    → Accounted n capacity own s
    → Told w n own s
    → s.store.shared.tasks_in_flight ≡ 0
    → sum_by (executed w) s.trace ≡ sum_by (published w) s.trace
Told-at_zero {P} w n capacity own s small bounded v h z =
    let none_queued : stored P one s.store.shared.queues ≡ 0 =
      omega (arith, z, v.counted, v.bounded bounded) in
    let hands : sum_below (in_hand w) n own ≡ 0 = sum_below-zero (in_hand w) n own (λ i lt.
      nothing_in_hand w (own i)
        (omega (arith, z, v.counted, v.bounded bounded, le-sum_below held n own i lt))) in
    omega (arith, h.told, hands, nothing_queued P (weight w) s.store.shared.queues none_queued)

module _ (P : Platform) (C : Crossbeam P) (n worker_count capacity : ℕ) (small : capacity < 2 ^ 64)
    (calls : ℕ → List Call) (turns : List Turn) (w : ℕ → ℕ → ℕ) where
  abbrev after_run : System P (Unit {0})
  after_run = run n turns (start P worker_count capacity calls)

  pub Told-after_run :
      (own : ℕ → Ghost) × Accounted n capacity own after_run × Told w n own after_run
  unfolding start
  Told-after_run = run-IsKept C n capacity small (Told w n) (Told-Kept w n capacity) turns _ (
    _,
    start-Accounted P C n worker_count capacity calls,
    boot-Told P C w n worker_count (λ i. script capacity (calls i)),
  )

  -- In a scheduler with a capacity below 2^64, 0 included, at every moment of every interleaving:
  -- the tasks of a function and argument that were executed
  -- and those that are queued are together no more than those that were published.
  pub executed-le-published :
      sum_by (executed w) after_run.trace + stored P (weight w) after_run.store.shared.queues
      ≤ sum_by (published w) after_run.trace
  executed-le-published = let (own, v, h) = Told-after_run in omega (arith, h.told)

  -- Whenever the count of tasks in flight of a scheduler with a capacity from 1 below 2^64 reads zero, the tasks of a function
  -- and argument were executed exactly as often as they were published.
  pub executed-eq-published :
      0 < capacity
      → after_run.store.shared.tasks_in_flight ≡ 0
      → sum_by (executed w) after_run.trace ≡ sum_by (published w) after_run.trace
  executed-eq-published bounded z =
      let (own, v, h) = Told-after_run in
      Told-at_zero w n capacity own after_run small bounded v h z
