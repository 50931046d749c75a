-- ===== src/System/Client.antt =====
-- A client of the library, among any other threads: it submits tasks and waits for all tasks of the
-- scheduler or for those of a group (`push_internal` and `wait` of src/scheduler.rs, `wait` of
-- src/group.rs).
pub mod Submits
pub mod Waits
pub mod Executed
use libcortlet_upgradesched.Prelude.{
  ℕ, ◌+◌, Bool, true, false, Option, none, some, List, [], ◌∷◌, ◌==◌, if◌then◌else◌,
}
use libcortlet_upgradesched.Task.{TaskPriority}
use libcortlet_upgradesched.Platform.{Platform}
use libcortlet_upgradesched.Machine.{Op, GroupOp, Answer, Prog, ret, ◌>>=◌, ◌>>◌}
use libcortlet_upgradesched.Machine.Monitor.{Monitor}
use libcortlet_upgradesched.Group
use libcortlet_upgradesched.Scheduler
use libcortlet_upgradesched.Scheduler.{Result, ok, err, push_internal}
use libcortlet_upgradesched.System.{System}
use libcortlet_upgradesched.System.Scope.{covers, scoped}
use libcortlet_upgradesched.System.Calls.{Call, script, boot}

-- The arguments of one submission.
pub record Request : Type 0 where
  pub function : ℕ
  pub argument : ℕ
  pub priority : TaskPriority
  pub group : Option ℕ

module _ (rounds capacity : ℕ) where
  abbrev pub submit_all : List Request → Prog (List (Result (Unit {0})))
  submit_all [] = ret []
  submit_all (q ∷ qs) =
      push_internal rounds capacity q.function q.argument q.priority q.group >>= λ r.
      submit_all qs >>= λ rs. ret (r ∷ rs)

  -- The scope is the scheduler (`none`), or a group.
  abbrev pub wait_for : (scope : Option ℕ) → Prog (Unit {0})
  wait_for none = Scheduler.wait rounds >> ret tt
  wait_for (some g) = Group.wait rounds g

  -- All submissions, with the results kept, and then one wait.
  abbrev pub submit_and_wait : (scope : Option ℕ) → List Request → Prog (List (Result (Unit {0})))
  submit_and_wait scope qs = submit_all qs >>= λ rs. (wait_for scope >> ret rs)

abbrev pub weight_if : ℕ → Result (Unit {0}) → ℕ
weight_if k (ok _) = k
weight_if k (err e) = 0

module _ (w : ℕ → ℕ → ℕ) (scope : Option ℕ) where
  abbrev pub request_weight : Request → ℕ
  request_weight q = if covers scope q.group then w q.function q.argument else 0

  -- The weight of the requests in the scope that were accepted.
  abbrev pub accepted : List Request → List (Result (Unit {0})) → ℕ
  accepted (q ∷ qs) (r ∷ rs) = weight_if (request_weight q) r + accepted qs rs
  accepted _ _ = 0

-- Thread `client` submits and waits; the others make any calls.
abbrev pub client_programs :
    (capacity rounds client : ℕ) (scope : Option ℕ)
    → List Request
    → (ℕ → List Call)
    → ℕ
    → Prog (List (Result (Unit {0})))
client_programs capacity rounds client scope requests calls i =
    if i == client
    then submit_and_wait rounds capacity scope requests
    else (script capacity (calls i) >> ret [])

unfoldable pub boot_client :
    (P : Platform)
    → (worker_count capacity rounds client : ℕ) (scope : Option ℕ) → List Request
    → (ℕ → List Call)
    → System P (List (Result (Unit {0})))
unfolding boot
boot_client P worker_count capacity rounds client scope requests calls =
    boot P worker_count (client_programs capacity rounds client scope requests calls)

-- What the client has pushed in the scope so far, by weight, and whether it has read a count of zero
-- since.
pub record Progress : Type 0 where
  pub mine : ℕ
  pub at_zero : Bool

-- Whether an access reads that the count of the scope is zero.
abbrev pub reads_zero : (op : Op) → Answer op → (scope : Option ℕ) → Bool
reads_zero Op.load_in_flight x none = x == 0
reads_zero (Op.group h GroupOp.load_count) x (some g) = if h == g then x == 0 else false
reads_zero _ x scope = false

module _ (w : ℕ → ℕ → ℕ) (scope : Option ℕ) where
  abbrev pub progress_after : (op : Op) → Answer op → Progress → Progress
  progress_after (Op.push_injector lane t) x m = record {
    mine = m.mine + scoped w scope t;
    at_zero = false;
  }
  progress_after op x m = record m { at_zero = if reads_zero op x scope then true else m.at_zero }

  abbrev pub progress : Monitor
  progress = record { State = Progress; next = progress_after; Allows = λ _ _. Unit }
