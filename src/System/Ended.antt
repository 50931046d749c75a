-- ===== src/System/Ended.antt =====
-- When a worker thread has come to its end: what `drop` of src/scheduler.rs relies on as it joins the
-- workers.
use libcortlet_upgradesched.Prelude.{
  ℕ, ◌<◌, ◌^◌, ◌≡◌, ◌⊎◌, inl, inr, arith, subst, sym, ap, ◌∙◌, Bool, true, false, List, [], ◌∷◌,
  ◌==◌, ==-eq, Bool-cases, sum_by, sum_below-zero,
}
use libcortlet_upgradesched.Platform.{Platform, Crossbeam}
use libcortlet_upgradesched.Machine.{Op, Answer, ret, act}
use libcortlet_upgradesched.Machine.Monitor.{Watched, Watched->>=}
use libcortlet_upgradesched.Worker.{worker_main}
use libcortlet_upgradesched.Worker.Watch.Final.{
  Knowledge, learn, knowledge, Final, worker_main-Final,
}
use libcortlet_upgradesched.Ownership.{Ghost}
use libcortlet_upgradesched.Effects.{CountLaw, ShutdownLaw}
use libcortlet_upgradesched.System.{Turn, System, run}
use libcortlet_upgradesched.System.Invariant.{queued, Accounted}
use libcortlet_upgradesched.System.Accounting.{Kept, run-IsKept}
use libcortlet_upgradesched.System.Calls.{Call, script, start, start-Accounted}
use libcortlet_upgradesched.System.Safety.{about_to_execute}
use libcortlet_upgradesched.System.Shutdown.{
  is_quiet, Quiet, Quiet-Kept, settled-Quiet, not_executing,
}
use libcortlet_upgradesched.System.History.{
  published, executed, in_hand, Told, Told-Kept, boot-Told, nothing_queued,
}

-- A worker learns that it may end only from a count of zero.
learned :
    (op : Op) (x : Answer op) (m : Knowledge) (before now : ℕ)
    → CountLaw op x before now
    → (learn op x m).final ≡ true
    → (m.final ≡ true) ⊎ ((m.stop ≡ true) × (before ≡ 0))
learned Op.load_in_flight x m before now law e = elim (Bool-cases m.final) [
  | inl known ↦ inl known
  | inr new ↦ inr (ground arith)
]
learned Op.load_shutdown x m before now law e = inl e
learned _ x m before now law e = inl e

-- The flag is never unset, so what was read of it stays true.
stopping-after :
    (op : Op) (x : Answer op) (m : Knowledge) (before now : Bool)
    → ShutdownLaw op x before now
    → (m.stop ≡ true → before ≡ true)
    → (learn op x m).stop ≡ true
    → now ≡ true
stopping-after Op.load_shutdown x m before now law h e = ground arith
stopping-after _ x m before now law h e = ground arith

still_stopping :
    (op : Op) (x : Answer op) (before now : Bool)
    → ShutdownLaw op x before now
    → before ≡ true
    → now ≡ true
still_stopping Op.load_shutdown x before now law e = ground arith
still_stopping _ x before now law e = ground arith

quiet-in_hand : (w : ℕ → ℕ → ℕ) (own : Ghost) → is_quiet own.slot ≡ true → in_hand w own ≡ 0
quiet-in_hand w own q = ground arith

module _ {P : Platform} (w : ℕ → ℕ → ℕ) (n worker : ℕ) where
  -- What the worker knows is so, and once it may end, no thread has a task to execute.
  record Knows (own : ℕ → Ghost) (s : System P (Unit {0})) : Type 0 where
    so_far : Knowledge
    watched : Watched knowledge Final so_far (s.threads worker)
    stopping : so_far.stop ≡ true → s.store.shared.shutdown ≡ true
    quiet : so_far.final ≡ true → Quiet n own s
    history : Told w n own s

  module _ (capacity : ℕ) (small : capacity < 2 ^ 64) (bounded : 0 < capacity) (own : ℕ → Ghost)
      (s : System P (Unit {0})) (v : Accounted n capacity own s) (h : Knows own s) where
    -- The moment of the last read.
    last_read-Quiet :
        (h.so_far.final ≡ true) ⊎ ((h.so_far.stop ≡ true) × (s.store.shared.tasks_in_flight ≡ 0))
        → Quiet n own s
    last_read-Quiet (inl known) = h.quiet known
    last_read-Quiet (inr (stop, z)) =
        settled-Quiet n own s (h.stopping stop) (omega (arith, z, v.counted, v.bounded bounded))

  Knows-Kept : (capacity : ℕ) → capacity < 2 ^ 64 → 0 < capacity → Kept n capacity Knows
  Knows-Kept capacity small bounded = record {
    keep = λ own s i op k x s' below v h a f here.
        let told = (Told-Kept w n capacity).keep own s i op k x s' below v h.history a f here in
        let still = λ (q : Quiet n own s).
          (Quiet-Kept n capacity).keep own s i op k x s' below v q a f here in
        elim (Bool-cases (i == worker)) [
          | inl e ↦
              let at_worker : Watched knowledge Final h.so_far (act op k) =
                subst (Watched knowledge Final h.so_far)
                  (ap s.threads (sym (==-eq i worker e)) ∙ here) h.watched in
              record {
                so_far = learn op x h.so_far;
                watched = rw e (at_worker.1 x);
                stopping = stopping-after op x h.so_far s.store.shared.shutdown _ f.flag h.stopping;
                quiet = λ final. still (
                    last_read-Quiet capacity small bounded own s v h
                      (learned op x h.so_far s.store.shared.tasks_in_flight _ f.count final));
                history = told;
              }
          | inr e ↦ record {
            so_far = h.so_far;
            watched = rw e h.watched;
            stopping =
                λ stop. still_stopping op x s.store.shared.shutdown _ f.flag (h.stopping stop);
            quiet = λ final. still (h.quiet final);
            history = told;
          }
        ];
  }

script-Final :
    (capacity rounds id worker_count : ℕ) (cs : List Call) (m : Knowledge)
    → cs ≡ Call.work rounds id worker_count ∷ []
    → Watched knowledge Final m (script capacity cs)
script-Final capacity rounds id worker_count cs m e = rw e (
    Watched->>= knowledge Final Final m (worker_main rounds id worker_count) _
      (worker_main-Final rounds id worker_count m) (λ _ m h. h))

module _ (P : Platform) (C : Crossbeam P) (n count capacity : ℕ) (small : capacity < 2 ^ 64)
    (bounded : 0 < capacity) (calls : ℕ → List Call) (turns : List Turn) (w : ℕ → ℕ → ℕ) where
  abbrev after_run : System P (Unit {0})
  after_run = run n turns (start P count capacity calls)

  -- In a scheduler with a capacity from 1 below 2^64, with any other threads and in every
  -- interleaving: once one worker has come to its end, as it must have when `drop` has joined it,
  -- shutdown has begun, the queues are empty, no thread `i` is about to execute a task, and the
  -- tasks of a function and argument were executed exactly as often as they were published.
  pub worker-drained :
      (rounds id worker_count worker i : ℕ)
      → calls worker ≡ Call.work rounds id worker_count ∷ []
      → after_run.threads worker ≡ ret tt
      → i < n
      → (after_run.store.shared.shutdown ≡ true)
        × (queued after_run ≡ 0)
        × (about_to_execute (after_run.threads i) ≡ false)
        × (sum_by (executed w) after_run.trace ≡ sum_by (published w) after_run.trace)
  unfolding start
  worker-drained rounds id worker_count worker i works ended lt =
      let (own, v, h) =
        run-IsKept C n capacity small (Knows w n worker)
          (Knows-Kept w n worker capacity small bounded) turns (start P count capacity calls)
          (
            _,
            start-Accounted P C n count capacity calls,
            record {
              so_far = record { stop = false; final = false };
              watched = script-Final capacity rounds id worker_count (calls worker) _ works;
              stopping = λ e. absurd (ground arith);
              quiet = λ e. absurd (ground arith);
              history = boot-Told P C w n count (λ i. script capacity (calls i));
            },
          ) in
      let q : Quiet n own after_run =
        h.quiet (subst (Watched knowledge Final h.so_far) ended h.watched) in
      (
        q.stopping,
        q.drained,
        not_executing capacity (own i) _ (v.safe i) (q.idle i lt),
        omega (
          arith,
          h.history.told,
          nothing_queued P (λ t. w t.function t.argument) after_run.store.shared.queues q.drained,
          sum_below-zero (in_hand w) n own (λ i lt. quiet-in_hand w (own i) (q.idle i lt)),
        ),
      )
