-- ===== src/System/Accounting.antt =====
-- Every interleaving keeps the invariant.
use libcortlet_upgradesched.Prelude.{
  ℕ, ◌+◌, ◌<◌, ◌^◌, ◌≡◌, refl, subst, Option, none, some, List, [], ◌∷◌, ltb, ltb→lt, ◌==◌, update,
  sum_below, sum_below-update, le-sum_below, Bool-cases, inl, inr,
}
use libcortlet_upgradesched.Task.{Task}
use libcortlet_upgradesched.Platform.{Platform, Crossbeam}
use libcortlet_upgradesched.Machine.{Op, Answer, Prog, ret, act, stalled}
use libcortlet_upgradesched.Machine.Store.{Store}
use libcortlet_upgradesched.Machine.Perform.{perform}
use libcortlet_upgradesched.Ownership.{Ghost, held, joined, Allowed, after, Safe}
use libcortlet_upgradesched.Ownership.Rules.{Clean}
use libcortlet_upgradesched.Effects.{
  Holds, stored, InLanes, CountLaw, GroupLaw, ShutdownLaw, put_in, taken_out,
}
use libcortlet_upgradesched.Effects.Counts.{
  perform-CountLaw, perform-ShutdownLaw, perform-GroupLaw, perform-Flow,
}
use libcortlet_upgradesched.Effects.Lanes.{InOwnLane, perform-InLanes}
use libcortlet_upgradesched.System.{Turn, System, answer, advance, step, run}
use libcortlet_upgradesched.System.Invariant.{one, in_group, Accounted}
use libcortlet_upgradesched.System.Arithmetic.{counted-after, bounded-after, grouped-after}

Allowed-InOwnLane : (capacity : ℕ) (own : Ghost) (op : Op) → Allowed capacity own op → InOwnLane op
Allowed-InOwnLane capacity own (Op.push_injector lane t) h = h.2
Allowed-InOwnLane capacity own _ h = tt

module _ {P : Platform} where
  -- What an access that went through is known to do.
  pub record Effect (i : ℕ) (op : Op) (s : Store P) (x : Answer op) (s' : Store P) : Type 0 where
    pub chance : ℕ
    pub performed : perform P i chance op s ≡ some (x, s')
    pub count : CountLaw op x s.shared.tasks_in_flight s'.shared.tasks_in_flight
    pub flag : ShutdownLaw op x s.shared.shutdown s'.shared.shutdown
    pub group :
        (address : ℕ)
        → GroupLaw address op (s.groups address).tasks_in_flight (s'.groups address).tasks_in_flight
    pub flow :
        (w : Task → ℕ)
        → stored P w s'.shared.queues + taken_out w op x ≡ stored P w s.shared.queues + put_in w op
    pub keeps : InLanes P s.shared.queues → InOwnLane op → InLanes P s'.shared.queues

  Effect-of :
      (C : Crossbeam P) (i chance : ℕ) (op : Op) (s : Store P) (x : Answer op) (s' : Store P)
      → perform P i chance op s ≡ some (x, s')
      → Effect i op s x s'
  Effect-of C i chance op s x s' e = record {
    chance = chance;
    performed = e;
    count = subst (Holds _) e (perform-CountLaw P i chance op s);
    flag = subst (Holds _) e (perform-ShutdownLaw P i chance op s);
    group = λ address. subst (Holds _) e (perform-GroupLaw P i chance address op s);
    flow = λ w. subst (Holds _) e (perform-Flow P i chance C w op s);
    keeps = λ v o. subst (Holds _) e (perform-InLanes P C i chance op s o v);
  }

module _ {P : Platform} {A : Type 0} (n capacity : ℕ) where
  -- An invariant on top of the accounting: it holds behind every access that goes through.
  pub record Kept (R : (ℕ → Ghost) → System P A → Type 0) : Type 0 where
    pub keep :
        (own : ℕ → Ghost) (s : System P A) (i : ℕ) (op : Op) (k : Answer op → Prog A)
        (x : Answer op) (s' : Store P)
        → i < n
        → Accounted n capacity own s
        → R own s
        → Allowed capacity (own i) op
        → Effect i op s.store x s'
        → s.threads i ≡ act op k
        → R
            (update own i (after op x (own i)))
            (record { store = s'; threads = update s.threads i (k x); trace = op ∷ s.trace })

  -- Some ownership accounts for the state and has the other invariant.
  abbrev pub IsKept : ((ℕ → Ghost) → System P A → Type 0) → System P A → Type 0
  IsKept R s = (own : ℕ → Ghost) × Accounted n capacity own s × R own s

module _ {P : Platform} {A : Type 0} (n capacity : ℕ) (small : capacity < 2 ^ 64) (own : ℕ → Ghost)
    (s : System P A) (v : Accounted n capacity own s) (i : ℕ) (below : i < n) where
  total_after :
      (w : Ghost → ℕ) (o : Ghost)
      → sum_below w n (update own i o) + w (own i) ≡ sum_below w n own + w o
  total_after w o = sum_below-update w n own i o below

  answered-Accounted :
      (op : Op) (k : Answer op → Prog A) (x : Answer op) (s' : Store P)
      → Effect i op s.store x s'
      → Safe capacity Clean (own i) (act op k)
      → Accounted n capacity
          (update own i (after op x (own i)))
          (record { store = s'; threads = update s.threads i (k x); trace = op ∷ s.trace })
  answered-Accounted op k x s' f safe = record {
    counted =
        counted-after capacity _ _ _ _ _ _ (own i) op x safe.0 f.count
          (le-sum_below held n own i below) (total_after held (after op x (own i))) (f.flow one)
          v.counted;
    bounded = λ some_capacity.
        bounded-after capacity _ _ _ _ _ _ (own i) op x safe.0 f.count
          (total_after held (after op x (own i))) (f.flow one) v.counted small some_capacity
          (v.bounded some_capacity);
    grouped = λ address.
        grouped-after capacity _ _ _ _ _ _ (own i) address op x safe.0 (f.group address)
          (le-sum_below (λ o. joined address o.group) n own i below)
          (total_after (λ o. joined address o.group) (after op x (own i)))
          (f.flow (in_group address)) (v.grouped address);
    lanes = f.keeps v.lanes (Allowed-InOwnLane capacity (own i) op safe.0);
    safe = λ j. still_safe j;
  }
    where
      still_safe :
          (j : ℕ)
          → Safe capacity Clean (update own i (after op x (own i)) j) (update s.threads i (k x) j)
      still_safe j = elim (Bool-cases (i == j)) [
        | inl e ↦ rw e (safe.1 x)
        | inr e ↦ rw e (v.safe j)
      ]

  module _ (C : Crossbeam P) (R : (ℕ → Ghost) → System P A → Type 0) (kept : Kept n capacity R)
      (h : R own s) (chance : ℕ) where
    answer-IsKept :
        (op : Op) (k : Answer op → Prog A)
        → Safe capacity Clean (own i) (act op k)
        → s.threads i ≡ act op k
        → (r : Option (Answer op × Store P)) → perform P i chance op s.store ≡ r
        → IsKept n capacity R (answer i op k s r)
    unfolding answer
    answer-IsKept op k safe here none e = (own, v, h)
    answer-IsKept op k safe here (some (x, s')) e = (
      update own i (after op x (own i)),
      answered-Accounted op k x s' (Effect-of C i chance op s.store x s' e) safe,
      kept.keep own s i op k x s' below v h safe.0 (Effect-of C i chance op s.store x s' e) here,
    )

    advance-IsKept :
        (p : Prog A)
        → Safe capacity Clean (own i) p
        → s.threads i ≡ p
        → IsKept n capacity R (advance i chance p s)
    unfolding advance
    advance-IsKept (ret a) safe here = (own, v, h)
    advance-IsKept stalled safe here = (own, v, h)
    advance-IsKept (act op k) safe here = answer-IsKept op k safe here _ refl

module _ {P : Platform} (C : Crossbeam P) {A : Type 0} (n capacity : ℕ) (small : capacity < 2 ^ 64)
    (R : (ℕ → Ghost) → System P A → Type 0) (kept : Kept n capacity R) where
  step-IsKept :
      (turn : Turn) (s : System P A) → IsKept n capacity R s → IsKept n capacity R (step n turn s)
  unfolding step
  step-IsKept turn s (own, v, h) = elim (Bool-cases (ltb turn.thread n)) [
    | inl e ↦ rw e (
        advance-IsKept n capacity small own s v turn.thread (ltb→lt turn.thread n e) C R kept h
          turn.chance (s.threads turn.thread) (v.safe turn.thread) refl)
    | inr e ↦ rw e (own, v, h)
  ]

  pub run-IsKept :
      (turns : List Turn) (s : System P A)
      → IsKept n capacity R s
      → IsKept n capacity R (run n turns s)
  unfolding run
  run-IsKept [] s h = h
  run-IsKept (turn ∷ turns) s h = run-IsKept turns (step n turn s) (step-IsKept turn s h)

-- With no other invariant.
module _ {P : Platform} (C : Crossbeam P) {A : Type 0} (n capacity : ℕ)
    (small : capacity < 2 ^ 64) where
  pub run-Accounted :
      (turns : List Turn) (s : System P A) (own : ℕ → Ghost)
      → Accounted n capacity own s
      → (own' : ℕ → Ghost) × Accounted n capacity own' (run n turns s)
  run-Accounted turns s own v =
      let (own', v', _) =
        run-IsKept C n capacity small (λ _ _. Unit {0})
          (record { keep = λ own s i op k x s' below v h a f here. tt }) turns s (own, v, tt) in
      (own', v')
