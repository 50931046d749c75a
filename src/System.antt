-- ===== src/System.antt =====
-- Threads over one shared state, interleaved at every atomic access. A thread is a program: a client
-- that makes calls of src/scheduler.rs and src/group.rs, or a worker in `worker_main`. Memory is
-- sequentially consistent: the acquire and release orderings of the source are not told apart.
pub mod Invariant
pub mod Arithmetic
pub mod Accounting
pub mod Calls
pub mod Safety
pub mod Shutdown
pub mod History
pub mod Deadlock
pub mod Unbounded
pub mod Conducted
pub mod Locking
pub mod Exclusion
pub mod Counters
pub mod Tally
pub mod Client
pub mod Refinement
pub mod Ended
pub mod Scope
use libcortlet_upgradesched.Prelude.{
  ℕ, Option, none, some, List, [], ◌∷◌, ltb, if◌then◌else◌, update,
}
use libcortlet_upgradesched.Platform.{Platform}
use libcortlet_upgradesched.Machine.{Op, Answer, Prog, ret, act, stalled}
use libcortlet_upgradesched.Machine.Store.{Store}
use libcortlet_upgradesched.Machine.Perform.{perform}

-- Which thread makes its next access, and what the platform decides by itself in it.
pub record Turn : Type 0 where
  pub thread : ℕ
  pub chance : ℕ

pub record System (P : Platform) (A : Type 0) : Type 0 where
  pub store : Store P
  pub threads : ℕ → Prog A
  -- The accesses so far, latest first. Nothing reads it but the statements.
  pub trace : List Op

module _ {P : Platform} {A : Type 0} where
  -- A blocked access leaves everything as it is.
  unfoldable pub answer :
      (i : ℕ) (op : Op)
      → (Answer op → Prog A)
      → System P A
      → Option (Answer op × Store P)
      → System P A
  answer i op k s none = s
  answer i op k s (some (x, store')) = record {
    store = store';
    threads = update s.threads i (k x);
    trace = op ∷ s.trace;
  }

  unfoldable pub advance : (i chance : ℕ) → Prog A → System P A → System P A
  unfolding answer
  advance i chance (ret a) s = s
  advance i chance stalled s = s
  advance i chance (act op k) s = answer i op k s (perform P i chance op s.store)

  -- `n` threads; a turn of any other thread is no turn.
  unfoldable pub step : (n : ℕ) → Turn → System P A → System P A
  unfolding advance
  step n turn s =
      if ltb turn.thread n then advance turn.thread turn.chance (s.threads turn.thread) s else s

  unfoldable pub run : (n : ℕ) → List Turn → System P A → System P A
  unfolding step
  run n [] s = s
  run n (turn ∷ turns) s = run n turns (step n turn s)
