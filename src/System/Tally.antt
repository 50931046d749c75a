-- ===== src/System/Tally.antt =====
-- What the counters of src/stats.rs say at every moment of every run, and when nothing is in flight.
use libcortlet_upgradesched.Prelude.{
  ℕ, ◌+◌, ◌≤◌, ◌<◌, ◌^◌, ◌≡◌, refl, arith, Bool, true, false, List, wrap, sum_by, sum_below,
  sum_below-zero, sum_below-le, le-sum_below, ◌∙◌, sym, ap,
}
use libcortlet_upgradesched.Stats.{Event, read_event, stats_new}
use libcortlet_upgradesched.Platform.{Platform, Crossbeam}
use libcortlet_upgradesched.Machine.{Prog, ret}
use libcortlet_upgradesched.Machine.Monitor.{Watched}
use libcortlet_upgradesched.Ownership.{Ghost, held}
use libcortlet_upgradesched.Conduct.{Conduct, conduct, Idle}
use libcortlet_upgradesched.System.{Turn, System, run}
use libcortlet_upgradesched.System.Invariant.{Accounted}
use libcortlet_upgradesched.System.Calls.{Call, start}
use libcortlet_upgradesched.System.Conducted.{fresh, Follows, run-Explained}
use libcortlet_upgradesched.System.Counters.{
  each, recording, Linked-uncounted, Tallied, Tallied-Conducted,
}
use libcortlet_upgradesched.System.History.{
  published, executed, executed-le-published, executed-eq-published,
}

-- Whether a thread has made all its calls.
abbrev pub has_ended : {A : Type 0} → Prog A → Bool
has_ended (ret a) = true
has_ended _ = false

has_ended-unrecorded :
    {A : Type 0} (m : Conduct) (p : Prog A)
    → Watched conduct Idle m p
    → has_ended p ≡ true
    → m.unrecorded ≡ 0
has_ended-unrecorded m (ret a) w e = w.2
has_ended-unrecorded m _ w e = absurd (ground arith)

module _ (P : Platform) (C : Crossbeam P) (n worker_count capacity : ℕ) (small : capacity < 2 ^ 64)
    (calls : ℕ → List Call) (turns : List Turn) where
  abbrev after_run : System P (Unit {0})
  after_run = run n turns (start P worker_count capacity calls)

  -- How often a run has recorded an event.
  abbrev pub times : Event → ℕ
  times e = sum_by (recording e) after_run.trace

  -- The counter of an event.
  abbrev pub counter : Event → ℕ
  counter e = read_event e after_run.store.shared.stats

  Tallied-after_run :
      (own : ℕ → Ghost) × Accounted n capacity own after_run
      × ((m : ℕ → Conduct) × Follows m after_run × Tallied n own m after_run)
  unfolding start read_event stats_new
  Tallied-after_run =
      run-Explained P C n worker_count capacity small calls turns (Tallied n)
        (Tallied-Conducted n capacity)
        (record {
          recorded = elim [
            | Event.submission ↦ refl
            | Event.completion ↦ refl
            | Event.queue_full ↦ refl
            | Event.steal_attempt ↦ refl
            | Event.steal_success ↦ refl
            | Event.fairness_yield ↦ refl
            | Event.steal_failure ↦ refl
          ];
          pushes = omega (arith, sum_below-zero (λ m. m.unrecorded) n (λ _. fresh) (λ _ _. refl));
          executions =
              omega (arith, sum_below-zero (λ m. m.uncounted) n (λ _. fresh) (λ _ _. refl));
          steals = omega (arith, sum_below-zero (λ m. m.attempts) n (λ _. fresh) (λ _ _. refl));
          linked = λ i. ((λ e. absurd (ground arith)), omega arith, omega arith);
        })

  -- In a scheduler with a capacity below 2^64, 0 included, at every moment of every interleaving:
  -- each counter is the number of times that its event was recorded, modulo 2^64; the recorded
  -- completions are at most the executed tasks, which are at most the published ones and at most
  -- one for each thread ahead of the completions; the recorded submissions are at most the published
  -- tasks, and at most one for each thread behind them; the recorded successes and failures of
  -- steals are together at most the recorded attempts.
  pub times-published :
      ((e : Event) → counter e ≡ wrap (times e))
      × (times Event.completion ≤ sum_by (executed each) after_run.trace)
      × (sum_by (executed each) after_run.trace ≤ times Event.completion + n)
      × (sum_by (executed each) after_run.trace ≤ sum_by (published each) after_run.trace)
      × (times Event.submission ≤ sum_by (published each) after_run.trace)
      × (sum_by (published each) after_run.trace ≤ times Event.submission + n)
      × (times Event.steal_success + times Event.steal_failure ≤ times Event.steal_attempt)
  times-published =
      let (own, v, (m, f, h)) = Tallied-after_run in
      let pushing : sum_below (λ m. m.unrecorded) n m ≤ n =
        sum_below-le (λ m. m.unrecorded) n m (λ i. (h.linked i).1) in
      let executing : sum_below (λ m. m.uncounted) n m ≤ n =
        sum_below-le (λ m. m.uncounted) n m (λ i. (h.linked i).2) in
      (
        h.recorded,
        omega (arith, h.executions),
        omega (arith, h.executions, executing),
        omega (arith, executed-le-published P C n worker_count capacity small calls turns each),
        omega (arith, h.pushes),
        omega (arith, h.pushes, pushing),
        omega (arith, h.steals),
      )

  -- Whenever the count of tasks in flight of a scheduler with a capacity from 1 below 2^64 reads
  -- zero: the completion of every published task is recorded, so the counter of
  -- completions is the number of published tasks, modulo 2^64.
  pub counter-completion :
      0 < capacity
      → after_run.store.shared.tasks_in_flight ≡ 0
      → (times Event.completion ≡ sum_by (published each) after_run.trace)
        × (counter Event.completion ≡ wrap (sum_by (published each) after_run.trace))
  counter-completion bounded z =
      let (own, v, (m, f, h)) = Tallied-after_run in
      let none_held : sum_below held n own ≡ 0 = omega (arith, z, v.counted, v.bounded bounded) in
      let none_uncounted : sum_below (λ m. m.uncounted) n m ≡ 0 =
        sum_below-zero (λ m. m.uncounted) n m
          (λ i lt.
            Linked-uncounted (own i) (m i) (h.linked i)
              (omega (arith, none_held, le-sum_below held n own i lt))) in
      let all : times Event.completion ≡ sum_by (published each) after_run.trace = omega (
        arith,
        h.executions,
        none_uncounted,
        executed-eq-published P C n worker_count capacity small calls turns each bounded z,
      ) in
      (all, h.recorded Event.completion ∙ ap wrap all)

  -- In a scheduler with a capacity from 1 below 2^64, whenever the count of tasks in flight reads
  -- zero and all `n` threads have ended: the counters of submissions and of completions are equal.
  pub counter-submission :
      0 < capacity
      → after_run.store.shared.tasks_in_flight ≡ 0
      → ((i : ℕ) → i < n → has_ended (after_run.threads i) ≡ true)
      → counter Event.submission ≡ counter Event.completion
  counter-submission bounded z ended =
      let (own, v, (m, f, h)) = Tallied-after_run in
      let none_unrecorded : sum_below (λ m. m.unrecorded) n m ≡ 0 =
        sum_below-zero (λ m. m.unrecorded) n m
          (λ i lt. has_ended-unrecorded (m i) _ (f i) (ended i lt)) in
      let same : times Event.submission ≡ sum_by (published each) after_run.trace =
        omega (arith, h.pushes, none_unrecorded) in
      h.recorded Event.submission ∙ ap wrap same ∙ sym (counter-completion bounded z).1
