-- ===== src/System/Calls.antt =====
-- The calls that the threads of a run make, and the state in which a scheduler starts.
use libcortlet_upgradesched.Prelude.{
  ℕ, ◌≡◌, refl, Option, arith, sum_below-zero, sum_by, List, [], ◌∷◌, zero, suc, replicate, ap,
  subst, sym, All, leb, if◌then◌else◌,
}
use libcortlet_upgradesched.Task.{Task, TaskPriority}
use libcortlet_upgradesched.Platform.{Platform, Crossbeam}
use libcortlet_upgradesched.Machine.{Prog, ret, ◌>>=◌, ◌>>◌}
use libcortlet_upgradesched.Machine.Store.{Store, group_new, queues_new, shared_new}
use libcortlet_upgradesched.Group
use libcortlet_upgradesched.Scheduler
use libcortlet_upgradesched.Worker.{worker_main}
use libcortlet_upgradesched.Ownership.{nothing, held, joined, Safe}
use libcortlet_upgradesched.Ownership.Rules.{>>=-Safe, Clean}
use libcortlet_upgradesched.Ownership.Submission.{push_internal-Safe}
use libcortlet_upgradesched.Ownership.Rounds.{worker_main-Safe}
use libcortlet_upgradesched.Ownership.Waiting.{
  wait-Safe, group_wait-Safe, close-Safe, shutdown-Safe,
}
use libcortlet_upgradesched.Effects.{stored}
use libcortlet_upgradesched.System.{System}
use libcortlet_upgradesched.System.Invariant.{one, in_group, Accounted}

-- One call by a client thread, or the life of a worker. `rounds` bounds the loops of the call.
pub data Call : Type 0 where
  push : (rounds function argument : ℕ) → TaskPriority → (group : Option ℕ) → Call
  wait : (rounds : ℕ) → Call
  shutdown : Call
  group_wait : (rounds group : ℕ) → Call
  group_close : (group : ℕ) → Call
  work : (rounds worker_id worker_count : ℕ) → Call

abbrev pub program : (capacity : ℕ) → Call → Prog (Unit {0})
program capacity (Call.push rounds function argument priority group) =
    Scheduler.push_internal rounds capacity function argument priority group >> ret tt
program capacity (Call.wait rounds) = Scheduler.wait rounds >> ret tt
program capacity Call.shutdown = Scheduler.shutdown
program capacity (Call.group_wait rounds group) = Group.wait rounds group
program capacity (Call.group_close group) = Group.close group
program capacity (Call.work rounds worker_id worker_count) =
    worker_main rounds worker_id worker_count

-- A thread makes its calls one after the other.
abbrev pub script : (capacity : ℕ) → List Call → Prog (Unit {0})
script capacity [] = ret tt
script capacity (c ∷ cs) = program capacity c >>= λ _. script capacity cs

unfoldable pub store_new : (P : Platform) → (worker_count : ℕ) → Store P
unfolding group_new queues_new shared_new
store_new P worker_count = record {
  shared = shared_new P (queues_new P worker_count);
  groups = λ _. group_new P;
}

-- A scheduler that has just been made, and threads at the beginning of their programs.
unfoldable pub boot : {A : Type 0} (P : Platform) → (worker_count : ℕ) → (ℕ → Prog A) → System P A
unfolding store_new
boot P worker_count programs = record {
  store = store_new P worker_count;
  threads = programs;
  trace = [];
}

unfoldable pub start :
    (P : Platform) → (worker_count capacity : ℕ) → (ℕ → List Call) → System P (Unit {0})
unfolding boot
start P worker_count capacity calls = boot P worker_count (λ i. script capacity (calls i))

program-Safe : (capacity : ℕ) (c : Call) → Safe capacity Clean nothing (program capacity c)
program-Safe capacity (Call.push rounds function argument priority group) =
    >>=-Safe capacity Clean Clean _ _ nothing
      (push_internal-Safe capacity rounds function argument priority group) (λ own _ e. e)
program-Safe capacity (Call.wait rounds) =
    >>=-Safe capacity Clean Clean _ _ nothing (wait-Safe capacity rounds) (λ own _ e. e)
program-Safe capacity Call.shutdown = shutdown-Safe capacity
program-Safe capacity (Call.group_wait rounds group) = group_wait-Safe capacity rounds group
program-Safe capacity (Call.group_close group) = close-Safe capacity group
program-Safe capacity (Call.work rounds worker_id worker_count) =
    worker_main-Safe capacity rounds worker_id worker_count

-- Each call of the library, and so each sequence of them, takes care of what it owns.
pub script-Safe : (capacity : ℕ) (cs : List Call) → Safe capacity Clean nothing (script capacity cs)
script-Safe capacity [] = refl
script-Safe capacity (c ∷ cs) =
    >>=-Safe capacity Clean Clean (program capacity c) _ nothing (program-Safe capacity c)
      (λ own _ e.
        subst (λ o. Safe capacity Clean o (script capacity cs)) (sym e) (script-Safe capacity cs))

module _ (P : Platform) (C : Crossbeam P) where
  deques-empty :
      (w : Task → ℕ) (k : ℕ) → sum_by (λ d. sum_by w (P.local d)) (replicate k P.new_fifo) ≡ 0
  deques-empty w zero = refl
  deques-empty w (suc k) = omega (arith, ap (sum_by w) C.deque_starts, deques-empty w k)

  pub stored-queues_new : (w : Task → ℕ) (k : ℕ) → stored P w (queues_new P k) ≡ 0
  unfolding queues_new
  stored-queues_new w k =
      omega (arith, ap (sum_by w) C.injector_starts, deques-empty w (if leb 1 k then k else 1))

  lane_starts : (K : Task → Type 0) → All K (P.injected P.injector_new)
  lane_starts K = subst (All K) (sym C.injector_starts) tt

  pub boot-Accounted :
      {A : Type 0} (n worker_count capacity : ℕ) (programs : ℕ → Prog A)
      → ((i : ℕ) → Safe capacity Clean nothing (programs i))
      → Accounted n capacity (λ _. nothing) (boot P worker_count programs)
  unfolding boot
  boot-Accounted n worker_count capacity programs safe = record {
    counted = omega (
      arith,
      sum_below-zero held n (λ _. nothing) (λ _ _. refl),
      stored-queues_new one worker_count,
    );
    bounded = λ _. omega (
      arith,
      sum_below-zero held n (λ _. nothing) (λ _ _. refl),
      stored-queues_new one worker_count,
    );
    grouped = λ address. omega (
      arith,
      sum_below-zero (λ o. joined address o.group) n (λ _. nothing) (λ _ _. refl),
      stored-queues_new (in_group address) worker_count,
    );
    lanes = record {
      high_lane = lane_starts _;
      normal_lane = lane_starts _;
      low_lane = lane_starts _;
    };
    safe = safe;
  }

  pub start-Accounted :
      (n worker_count capacity : ℕ) (calls : ℕ → List Call)
      → Accounted n capacity (λ _. nothing) (start P worker_count capacity calls)
  unfolding start
  start-Accounted n worker_count capacity calls =
      boot-Accounted n worker_count capacity (λ i. script capacity (calls i))
        (λ i. script-Safe capacity (calls i))
