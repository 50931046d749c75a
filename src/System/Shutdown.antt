-- ===== src/System/Shutdown.antt =====
-- Graceful shutdown: once the flag is set and nothing is in flight, nothing ever runs again.
use libcortlet_upgradesched.Prelude.{
  ℕ, ◌+◌, ◌<◌, ◌^◌, ◌≡◌, refl, Bool, true, false, List, ◌∷◌, arith, sum_below, le-sum_below, update,
  Bool-cases, inl, inr, ◌==◌,
}
use libcortlet_upgradesched.Platform.{Platform, Crossbeam}
use libcortlet_upgradesched.Machine.{Op, Answer, Prog, act}
use libcortlet_upgradesched.Machine.Store.{Store}
use libcortlet_upgradesched.Ownership.{Ghost, Slot, free, reserved, held, Allowed, after, Safe}
use libcortlet_upgradesched.Ownership.Rules.{Clean}
use libcortlet_upgradesched.Effects.{stored, ShutdownLaw, put_in, taken_out}
use libcortlet_upgradesched.System.{Turn, System, run}
use libcortlet_upgradesched.System.Invariant.{one, queued, Accounted}
use libcortlet_upgradesched.System.Accounting.{Effect, Kept, run-IsKept, run-Accounted}
use libcortlet_upgradesched.System.Calls.{Call, start, start-Accounted}
use libcortlet_upgradesched.System.Safety.{about_to_execute}

-- A thread that can only give back what it holds.
abbrev pub is_quiet : Slot → Bool
is_quiet free = true
is_quiet reserved = true
is_quiet _ = false

pub record Quiet {P : Platform} {A : Type 0} (n : ℕ) (own : ℕ → Ghost) (s : System P A)
    : Type 0 where
  pub stopping : s.store.shared.shutdown ≡ true
  pub drained : queued s ≡ 0
  pub idle : (i : ℕ) → i < n → is_quiet (own i).slot ≡ true

-- With an empty queue and the flag set, an access leaves the queue empty, the flag set and the
-- thread quiet.
quiet_after :
    (capacity queues' : ℕ) (own : Ghost) (before now : Bool) (op : Op) (x : Answer op)
    → Allowed capacity own op
    → ShutdownLaw op x before now
    → queues' + taken_out one op x ≡ put_in one op
    → before ≡ true
    → is_quiet own.slot ≡ true
    → (now ≡ true) × (queues' ≡ 0) × (is_quiet (after op x own).slot ≡ true)
quiet_after capacity queues' own before now Op.load_shutdown x a l f b q = ground arith
quiet_after capacity queues' own before now _ x a l f b q = ground arith

pub Quiet-Kept :
    {P : Platform} {A : Type 0} (n capacity : ℕ) → Kept {P = P} {A = A} n capacity (Quiet n)
Quiet-Kept {P} {A} n capacity = record { keep = keep }
  where
    keep :
        (own : ℕ → Ghost) (s : System P A) (i : ℕ) (op : Op) (k : Answer op → Prog A)
        (x : Answer op) (s' : Store P)
        → i < n
        → Accounted n capacity own s
        → Quiet n own s
        → Allowed capacity (own i) op
        → Effect i op s.store x s'
        → s.threads i ≡ act op k
        → Quiet n
            (update own i (after op x (own i)))
            (record { store = s'; threads = update s.threads i (k x); trace = op ∷ s.trace })
    keep own s i op k x s' below v q a f here =
        let (flag, empty, quiet) =
          quiet_after capacity (stored P one s'.shared.queues) (own i) s.store.shared.shutdown
            s'.shared.shutdown op x a f.flag (omega (arith, f.flow one, q.drained)) q.stopping
            (q.idle i below) in
        record {
          stopping = flag;
          drained = empty;
          idle = λ j lt. elim (Bool-cases (i == j)) [
            | inl e ↦ rw e quiet
            | inr e ↦ rw e (q.idle j lt)
          ];
        }

quiet_of_free : (own : Ghost) → held own ≡ 0 → is_quiet own.slot ≡ true
quiet_of_free own h = ground arith

-- Where nothing is queued and no thread holds a slot.
pub settled-Quiet :
    {P : Platform} {A : Type 0} (n : ℕ) (own : ℕ → Ghost) (s : System P A)
    → s.store.shared.shutdown ≡ true
    → sum_below held n own + queued s ≡ 0
    → Quiet n own s
settled-Quiet n own s stopping nothing_left = record {
  stopping = stopping;
  drained = omega (arith, nothing_left);
  idle = λ i lt. quiet_of_free (own i) (omega (arith, nothing_left, le-sum_below held n own i lt));
}

pub not_executing :
    {A : Type 0} (capacity : ℕ) (own : Ghost) (p : Prog A)
    → Safe capacity Clean own p
    → is_quiet own.slot ≡ true
    → about_to_execute p ≡ false
not_executing capacity own (act (Op.execute t) k) safe q = absurd (ground arith)
not_executing capacity own _ safe q = refl

module _ (P : Platform) (C : Crossbeam P) (n worker_count capacity : ℕ) (small : capacity < 2 ^ 64)
    (calls : ℕ → List Call) (turns : List Turn) where
  -- From a moment at which the flag is set, no thread holds a slot and nothing is queued.
  pub final_from :
      (more : List Turn) (i : ℕ)
      → i < n
      → (own : ℕ → Ghost)
      → Accounted n capacity own (run n turns (start P worker_count capacity calls))
      → (run n turns (start P worker_count capacity calls)).store.shared.shutdown ≡ true
      → sum_below held n own + queued (run n turns (start P worker_count capacity calls)) ≡ 0
      → let t = run n more (run n turns (start P worker_count capacity calls)) in
        (t.store.shared.shutdown ≡ true) × (queued t ≡ 0) × (about_to_execute (t.threads i) ≡ false)
  final_from more i lt own v stopping nothing_left =
      let (own', v', q) =
        run-IsKept C n capacity small (Quiet n) (Quiet-Kept n capacity) more _
          (own, v, settled-Quiet n own _ stopping nothing_left) in
      (q.stopping, q.drained, not_executing capacity (own' i) _ (v'.safe i) (q.idle i lt))

module _ (P : Platform) (C : Crossbeam P) (n worker_count capacity : ℕ) (small : capacity < 2 ^ 64)
    (bounded : 0 < capacity) (calls : ℕ → List Call) (turns : List Turn) where
  -- In a scheduler with a capacity from 1 below 2^64: if at some moment of a run the shutdown flag is set and the count of tasks in flight is zero,
  -- which is the condition on which a worker stops, then after any further turns the flag is still
  -- set, the queues are empty, and no thread `i` is about to execute a task.
  pub shutdown_final :
      (more : List Turn) (i : ℕ)
      → i < n
      → (run n turns (start P worker_count capacity calls)).store.shared.shutdown ≡ true
      → (run n turns (start P worker_count capacity calls)).store.shared.tasks_in_flight ≡ 0
      → let t = run n more (run n turns (start P worker_count capacity calls)) in
        (t.store.shared.shutdown ≡ true) × (queued t ≡ 0) × (about_to_execute (t.threads i) ≡ false)
  shutdown_final more i lt stopping z =
      let (own, v) =
        run-Accounted C n capacity small turns _ _
          (start-Accounted P C n worker_count capacity calls) in
      final_from P C n worker_count capacity small calls turns more i lt own v stopping
        (omega (arith, z, v.counted, v.bounded bounded))
