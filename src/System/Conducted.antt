-- ===== src/System/Conducted.antt =====
-- Invariants on the conduct of the threads: in every interleaving each thread follows its monitor
-- (Conduct.antt).
use libcortlet_upgradesched.Prelude.{
  ℕ, ◌<◌, ◌^◌, refl, subst, List, ◌∷◌, ◌==◌, update, Bool-cases, inl, inr, false,
}
use libcortlet_upgradesched.Platform.{Platform, Crossbeam}
use libcortlet_upgradesched.Machine.{Op, Answer, Prog}
use libcortlet_upgradesched.Machine.Store.{Store}
use libcortlet_upgradesched.Machine.Monitor.{Watched}
use libcortlet_upgradesched.Ownership.{Ghost, nothing, Allowed, after}
use libcortlet_upgradesched.Conduct.{Conduct, conduct, conduct_after, Proper, Idle}
use libcortlet_upgradesched.Conduct.Clients.{script-Leaves}
use libcortlet_upgradesched.System.{Turn, System, run}
use libcortlet_upgradesched.System.Accounting.{Effect, Kept, IsKept, run-IsKept}
use libcortlet_upgradesched.System.Calls.{Call, start, start-Accounted}

-- A thread that has done nothing yet.
abbrev pub fresh : Conduct
fresh = record { locked = false; asleep = false; unrecorded = 0; uncounted = 0; attempts = 0 }

module _ {P : Platform} {A : Type 0} where
  abbrev pub Follows : (ℕ → Conduct) → System P A → Type 0
  Follows m s = (i : ℕ) → Watched conduct Idle (m i) (s.threads i)

module _ {P : Platform} {A : Type 0} (n capacity : ℕ) where
  -- An invariant of the conduct of all threads: it holds behind every proper access.
  pub record Conducted (X : (ℕ → Ghost) → (ℕ → Conduct) → System P A → Type 0) : Type 0 where
    pub keep :
        (own : ℕ → Ghost) (m : ℕ → Conduct) (s : System P A) (i : ℕ) (op : Op)
        (k : Answer op → Prog A) (x : Answer op) (s' : Store P)
        → i < n
        → X own m s
        → Allowed capacity (own i) op
        → Effect i op s.store x s'
        → Proper op (m i)
        → X
            (update own i (after op x (own i)))
            (update m i (conduct_after op x (m i)))
            (record { store = s'; threads = update s.threads i (k x); trace = op ∷ s.trace })

  -- Some conduct of the threads explains the state.
  abbrev pub Explained :
      ((ℕ → Ghost) → (ℕ → Conduct) → System P A → Type 0) → (ℕ → Ghost) → System P A → Type 0
  Explained X own s = (m : ℕ → Conduct) × Follows m s × X own m s

  pub Explained-Kept :
      (X : (ℕ → Ghost) → (ℕ → Conduct) → System P A → Type 0)
      → Conducted X
      → Kept n capacity (Explained X)
  Explained-Kept X c = record {
    keep = λ own s i op k x s' below v (m, f, h) a effect here.
        let watched = subst (Watched conduct Idle (m i)) here (f i) in
        (
          update m i (conduct_after op x (m i)),
          λ j. elim (Bool-cases (i == j)) [ inl e ↦ rw e (watched.1 x) | inr e ↦ rw e (f j) ],
          c.keep own m s i op k x s' below h a effect watched.0,
        );
  }

module _ (P : Platform) (C : Crossbeam P) (n worker_count capacity : ℕ) (small : capacity < 2 ^ 64)
    (calls : ℕ → List Call) (turns : List Turn) where
  -- Every run from the start keeps such an invariant.
  pub run-Explained :
      (X : (ℕ → Ghost) → (ℕ → Conduct) → System P (Unit {0}) → Type 0)
      → Conducted n capacity X
      → X (λ _. nothing) (λ _. fresh) (start P worker_count capacity calls)
      → IsKept n capacity
          (Explained n capacity X)
          (run n turns (start P worker_count capacity calls))
  unfolding start
  run-Explained X c begins =
      run-IsKept C n capacity small (Explained n capacity X) (Explained-Kept n capacity X c) turns _
        (
          _,
          start-Accounted P C n worker_count capacity calls,
          (
            (λ _. fresh),
            (λ i. script-Leaves capacity (calls i) fresh (refl, refl, refl, refl)),
            begins,
          ),
        )
