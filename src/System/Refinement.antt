-- ===== src/System/Refinement.antt =====
-- The interleaved scheduler refines the bag of jobs (Spec.antt).
use libcortlet_upgradesched.Prelude.{
  ℕ, ◌+◌, ◌≤◌, ◌<◌, ◌^◌, ◌≡◌, refl, arith, sym, subst, List, [], ◌∷◌, sum_by, sum_below,
  sum_below-update, sum_below-zero, le-sum_below, update,
}
use libcortlet_upgradesched.Platform.{Platform, Crossbeam}
use libcortlet_upgradesched.Machine.{Op}
use libcortlet_upgradesched.Ownership.{Ghost, nothing, Allowed, after}
use libcortlet_upgradesched.Effects.{stored}
use libcortlet_upgradesched.Spec.{
  only, Bag, no_jobs, units, put, take_out, units-no_jobs, units-put, units-take_out, units-ext,
  Action, Reaches, begin, publishes, executes, put-take_out,
}
use libcortlet_upgradesched.System.{Turn, System, run}
use libcortlet_upgradesched.System.Accounting.{Kept, run-IsKept}
use libcortlet_upgradesched.System.Calls.{Call, start, start-Accounted, stored-queues_new}
use libcortlet_upgradesched.System.History.{
  weight, published, executed, in_hand, history-after, executed-eq-published,
}

-- What the abstract scheduler sees of a trace.
abbrev pub actions : List Op → List Action
actions [] = []
actions (Op.push_injector lane t ∷ ops) = Action.publish t.function t.argument ∷ actions ops
actions (Op.execute t ∷ ops) = Action.execute t.function t.argument ∷ actions ops
actions (_ ∷ ops) = actions ops

-- An access that executes only what is in the bag is an action of the abstract scheduler, or none.
record Moves (ops : List Op) (op : Op) (bag : Bag) : Type 0 where
  behind : Bag
  reaches : Reaches (actions (op ∷ ops)) behind
  moved :
      (f a : ℕ)
      → units f a behind + executed (only f a) op ≡ units f a bag + published (only f a) op

moves :
    (ops : List Op) (op : Op) (bag : Bag)
    → Reaches (actions ops) bag
    → ((f a : ℕ) → executed (only f a) op ≤ units f a bag)
    → Moves ops op bag
moves ops (Op.push_injector lane t) bag r h = record {
  behind = put t.function t.argument bag;
  reaches = publishes t.function t.argument r;
  moved = λ f a. omega (arith, units-put t.function t.argument f a bag);
}
moves ops (Op.execute t) bag r h = record {
  behind = take_out t.function t.argument bag;
  reaches = executes t.function t.argument (
      subst (Reaches (actions ops))
        (sym (put-take_out t.function t.argument bag (ground (arith, h t.function t.argument)))) r);
  moved = λ f a. omega (arith, units-take_out t.function t.argument f a bag, h f a);
}
moves ops _ bag r h = record { behind = bag; reaches = r; moved = λ f a. refl }

-- A thread executes only the task that it took.
executed-le-in_hand :
    (w : ℕ → ℕ → ℕ) (capacity : ℕ) (own : Ghost) (op : Op)
    → Allowed capacity own op
    → executed w op ≤ in_hand w own
executed-le-in_hand w capacity own (Op.execute t) a = rw a (omega arith)
executed-le-in_hand w capacity own _ a = omega arith

module _ {P : Platform} {A : Type 0} (n : ℕ) where
  -- The bag holds the jobs that are queued and those in the hands of the threads.
  record Abstracts (own : ℕ → Ghost) (s : System P A) : Type 0 where
    bag : Bag
    reaches : Reaches (actions s.trace) bag
    holds :
        (f a : ℕ)
        → units f a bag
          ≡ stored P (weight (only f a)) s.store.shared.queues
            + sum_below (in_hand (only f a)) n own
    balance :
        (f a : ℕ)
        → units f a bag + sum_by (executed (only f a)) s.trace
          ≡ sum_by (published (only f a)) s.trace

  Abstracts-Kept : (capacity : ℕ) → Kept {P = P} {A = A} n capacity Abstracts
  Abstracts-Kept capacity = record {
    keep = λ own s i op k x s' below v h a f here.
        let flow : (g b : ℕ)
            → published (only g b) op + units g b h.bag
              ≡ executed (only g b) op
                + 0
                + stored P (weight (only g b)) s'.shared.queues
                + sum_below (in_hand (only g b)) n (update own i (after op x (own i))) =
          λ g b.
            history-after (only g b) capacity (sum_below (in_hand (only g b)) n own) _
              (stored P (weight (only g b)) s.store.shared.queues) _ (units g b h.bag) 0 (own i) op
              x a (sum_below-update (in_hand (only g b)) n own i (after op x (own i)) below)
              (f.flow (weight (only g b))) (omega (arith, h.holds g b)) in
        let m : Moves s.trace op h.bag = moves s.trace op h.bag h.reaches λ g b. omega (
          arith,
          h.holds g b,
          executed-le-in_hand (only g b) capacity (own i) op a,
          le-sum_below (in_hand (only g b)) n own i below,
        ) in
        record {
          bag = m.behind;
          reaches = m.reaches;
          holds = λ g b. omega (arith, m.moved g b, flow g b);
          balance = λ g b. omega (arith, m.moved g b, h.balance g b);
        };
  }

module _ (P : Platform) (C : Crossbeam P) (n worker_count capacity : ℕ) (small : capacity < 2 ^ 64)
    (calls : ℕ → List Call) (turns : List Turn) where
  abbrev after_run : System P (Unit {0})
  after_run = run n turns (start P worker_count capacity calls)

  Abstracts-after_run : (own : ℕ → Ghost) × Abstracts n own after_run
  unfolding start
  Abstracts-after_run =
      let (own, v, h) =
        run-IsKept C n capacity small (Abstracts n) (Abstracts-Kept n capacity) turns _ (
          _,
          start-Accounted P C n worker_count capacity calls,
          record {
            bag = no_jobs;
            reaches = begin;
            holds = λ f a. omega (
              arith,
              units-no_jobs f a,
              stored-queues_new P C (weight (only f a)) worker_count,
              sum_below-zero (in_hand (only f a)) n (λ _. nothing) (λ _ _. refl),
            );
            balance = λ f a. omega (arith, units-no_jobs f a);
          },
        ) in
      (own, h)

  -- In a scheduler with a capacity below 2^64, 0 included, every interleaving of submissions, workers,
  -- waiters and a shutdown is, by its publications and executions, a history of the abstract scheduler,
  -- which executes a job only out of a bag that holds it. The bag behind it covers all queued tasks,
  -- and holds each job as often as it was published and not executed.
  pub run-Reaches :
      (bag : Bag) × Reaches (actions after_run.trace) bag
      × ((f a : ℕ)
          → (stored P (weight (only f a)) after_run.store.shared.queues ≤ units f a bag)
            × (units f a bag + sum_by (executed (only f a)) after_run.trace
                ≡ sum_by (published (only f a)) after_run.trace))
  run-Reaches =
      let (own, h) = Abstracts-after_run in
      (h.bag, h.reaches, λ f a. (omega (arith, h.holds f a), h.balance f a))

  -- In a scheduler with a capacity from 1 below 2^64, whenever the count of tasks in flight reads
  -- zero, the history of publications and executions is one of the abstract scheduler that ends with
  -- the empty bag.
  pub run-Reaches-no_jobs :
      0 < capacity
      → after_run.store.shared.tasks_in_flight ≡ 0
      → Reaches (actions after_run.trace) no_jobs
  run-Reaches-no_jobs bounded z =
      let (own, h) = Abstracts-after_run in
      subst (Reaches (actions after_run.trace))
        (units-ext h.bag no_jobs λ f a. omega (
          arith,
          h.balance f a,
          units-no_jobs f a,
          executed-eq-published P C n worker_count capacity small calls turns (only f a) bounded z,
        ))
        h.reaches
