-- ===== src/System/Client/Executed.antt =====
-- When a client that submits and waits comes to its end.
use libcortlet_upgradesched.Prelude.{
  ℕ, ◌+◌, ◌≤◌, ◌<◌, ◌^◌, ◌≡◌, refl, arith, sym, subst, true, false, Option, none, some, List, [],
  ◌==◌, ==-eq, ==_refl, ◌∷◌, Bool-cases, inl, inr, ap, ◌∙◌, sum_by,
}
use libcortlet_upgradesched.Platform.{Platform, Crossbeam}
use libcortlet_upgradesched.Machine.{Op, GroupOp, Answer, ret, act, ◌>>=◌, ◌>>◌}
use libcortlet_upgradesched.Machine.Store.{Store}
use libcortlet_upgradesched.Machine.Perform.{perform}
use libcortlet_upgradesched.Machine.Monitor.{Watched}
use libcortlet_upgradesched.Scheduler
use libcortlet_upgradesched.Scheduler.{Result, push_internal}
use libcortlet_upgradesched.Ownership.{Ghost, nothing, Safe}
use libcortlet_upgradesched.Ownership.Rules.{>>=-Safe, if-Safe, Safe-at, Clean}
use libcortlet_upgradesched.Ownership.Submission.{push_internal-Safe}
use libcortlet_upgradesched.Ownership.Waiting.{wait-Safe, group_wait-Safe}
use libcortlet_upgradesched.Effects.{Holds}
use libcortlet_upgradesched.System.{Turn, System, run}
use libcortlet_upgradesched.System.Accounting.{Kept, run-IsKept}
use libcortlet_upgradesched.System.Calls.{Call, script, script-Safe, boot, boot-Accounted}
use libcortlet_upgradesched.System.History.{executed}
use libcortlet_upgradesched.System.Scope.{
  scope_count, scoped_published, Spread, Spread-Kept, Spread-at_zero,
}
use libcortlet_upgradesched.System.Client.{
  Request, submit_all, wait_for, accepted, client_programs, boot_client, Progress, reads_zero,
  progress, progress_after,
}
use libcortlet_upgradesched.System.Client.Waits.{Done, submit_and_wait-Done}

module _ (w : ℕ → ℕ → ℕ) (scope : Option ℕ) where
  -- What the client has pushed in the scope was published, and was executed once it has read a count
  -- of zero.
  abbrev Covered : Progress → (past done : ℕ) → Type 0
  Covered m past done = (m.mine ≤ past) × (m.at_zero ≡ true → m.mine ≤ done)

  Covered-own :
      (op : Op) (x : Answer op) (m : Progress) (past done : ℕ)
      → (reads_zero op x scope ≡ true → past ≤ done)
      → Covered m past done
      → Covered
          (progress_after w scope op x m)
          (scoped_published w scope op + past)
          (executed w op + done)
  Covered-own (Op.push_injector lane t) x m past done zero h = ground arith
  Covered-own Op.load_shutdown x m past done zero h = ground arith
  Covered-own op x m past done zero h = ground arith

  Covered-other :
      (op : Op) (m : Progress) (past done : ℕ)
      → Covered m past done
      → Covered m (scoped_published w scope op + past) (executed w op + done)
  Covered-other op m past done h = ground arith

-- What an access reads as a count of zero is one.
perform-reads_zero :
    (P : Platform) (thread chance : ℕ) (scope : Option ℕ) (op : Op) (s : Store P)
    → Holds
        (λ x s'. reads_zero op x scope ≡ true → scope_count scope s ≡ 0)
        (perform P thread chance op s)
unfolding perform
perform-reads_zero P thread chance scope Op.load_shutdown s = λ e. absurd (ground arith)
perform-reads_zero P thread chance none Op.load_in_flight s =
    λ e. ==-eq s.shared.tasks_in_flight 0 e
perform-reads_zero P thread chance (some g) (Op.group h GroupOp.load_count) s = λ e. ground arith
perform-reads_zero P thread chance scope op s = ground arith

module _ {P : Platform} (w : ℕ → ℕ → ℕ) (n client : ℕ) (scope : Option ℕ)
    (requests : List Request) where
  record Waits (own : ℕ → Ghost) (s : System P (List (Result (Unit {0})))) : Type 0 where
    so_far : Progress
    watched : Watched (progress w scope) (Done w scope requests) so_far (s.threads client)
    covered :
        Covered w scope so_far
          (sum_by (scoped_published w scope) s.trace)
          (sum_by (executed w) s.trace)
    history : Spread w scope n own s

  Waits-Kept : (capacity : ℕ) → 0 < capacity → n + capacity < 2 ^ 64 → Kept n capacity Waits
  Waits-Kept capacity bounded few = record {
    keep = λ own s i op k x s' below v h a f here.
        let spread =
          (Spread-Kept w scope n capacity).keep own s i op k x s' below v h.history a f here in
        elim (Bool-cases (i == client)) [
          | inl e ↦
              let at_client : Watched (progress w scope) (Done w scope requests) h.so_far
                  (act op k) =
                subst (Watched (progress w scope) (Done w scope requests) h.so_far)
                  (ap s.threads (sym (==-eq i client e)) ∙ here) h.watched in
              record {
                so_far = progress_after w scope op x h.so_far;
                watched = rw e (at_client.1 x);
                covered =
                    Covered-own w scope op x h.so_far _ _
                      (λ zero. Spread-at_zero w n capacity own s v bounded few scope h.history (
                        subst (Holds _) f.performed
                          (perform-reads_zero P i f.chance scope op s.store) zero))
                      h.covered;
                history = spread;
              }
          | inr e ↦ record {
            so_far = h.so_far;
            watched = rw e h.watched;
            covered = Covered-other w scope op h.so_far _ _ h.covered;
            history = spread;
          }
        ];
  }

module _ (capacity rounds : ℕ) where
  submit_all-Safe :
      (requests : List Request) → Safe capacity Clean nothing (submit_all rounds capacity requests)
  submit_all-Safe [] = refl
  submit_all-Safe (q ∷ qs) =
      >>=-Safe capacity Clean Clean
        (push_internal rounds capacity q.function q.argument q.priority q.group) _ nothing
        (push_internal-Safe capacity rounds q.function q.argument q.priority q.group)
        (λ own r e.
          Safe-at capacity Clean (submit_all rounds capacity qs >>= λ rs. ret (r ∷ rs)) nothing e (
            >>=-Safe capacity Clean Clean (submit_all rounds capacity qs) _ nothing
              (submit_all-Safe qs) (λ own _ e. e)))

  wait_for-Safe : (scope : Option ℕ) → Safe capacity Clean nothing (wait_for rounds capacity scope)
  wait_for-Safe none =
      >>=-Safe capacity Clean Clean (Scheduler.wait rounds) _ nothing (wait-Safe capacity rounds)
        (λ own _ e. e)
  wait_for-Safe (some g) = group_wait-Safe capacity rounds g

  client_programs-Safe :
      (client : ℕ) (scope : Option ℕ) (requests : List Request) (calls : ℕ → List Call) (i : ℕ)
      → Safe capacity Clean nothing (client_programs capacity rounds client scope requests calls i)
  client_programs-Safe client scope requests calls i =
      if-Safe capacity Clean (i == client) nothing _ _
        (>>=-Safe capacity Clean Clean (submit_all rounds capacity requests) _ nothing
          (submit_all-Safe requests)
          (λ own rs e. Safe-at capacity Clean (wait_for rounds capacity scope >> ret rs) nothing e (
            >>=-Safe capacity Clean Clean (wait_for rounds capacity scope) _ nothing
              (wait_for-Safe scope) (λ own _ e. e))))
        (>>=-Safe capacity Clean Clean (script capacity (calls i)) _ nothing
          (script-Safe capacity (calls i)) (λ own _ e. e))

boot-Waits :
    (P : Platform)
    → Crossbeam P
    → (w : ℕ → ℕ → ℕ) (n worker_count capacity rounds client : ℕ) (scope : Option ℕ)
      (requests : List Request) (calls : ℕ → List Call)
    → Waits w n client scope requests
        (λ _. nothing)
        (boot P worker_count (client_programs capacity rounds client scope requests calls))
unfolding boot
boot-Waits P C w n worker_count capacity rounds client scope requests calls = record {
  so_far = record { mine = 0; at_zero = false };
  watched = rw (==_refl client) (submit_and_wait-Done w scope rounds capacity requests _ refl);
  covered = (omega arith, λ e. absurd (ground arith));
  history = record { done = 0; spread = omega arith; counted_in = omega arith };
}

module _ (P : Platform) (C : Crossbeam P) (n worker_count capacity : ℕ) (bounded : 0 < capacity)
    (few : n + capacity < 2 ^ 64) (calls : ℕ → List Call) (turns : List Turn) (w : ℕ → ℕ → ℕ) where
  -- In a scheduler with a capacity from 1, with any other threads, where the number of threads and
  -- the capacity add up to less than 2^64, in every interleaving: when a client that submits any
  -- tasks and then waits, for the scheduler (`none`) or for the group at an address, has come to its
  -- end, every task of that scope that was accepted from it has been executed. For each weight of
  -- functions and arguments, the executed tasks weigh at least as much as the accepted ones.
  pub accepted-executed :
      (rounds client : ℕ) (scope : Option ℕ) (requests : List Request)
      (results : List (Result (Unit {0})))
      → let s =
          run n turns (boot_client P worker_count capacity rounds client scope requests calls) in
        s.threads client ≡ ret results
        → accepted w scope requests results ≤ sum_by (executed w) s.trace
  unfolding boot_client
  accepted-executed rounds client scope requests results ended =
      let programs = client_programs capacity rounds client scope requests calls in
      let (own, v, h) =
        run-IsKept C n capacity (omega (arith, few)) (Waits w n client scope requests)
          (Waits-Kept w n client scope requests capacity bounded few) turns
          (boot P worker_count programs)
          (
            (λ _. nothing),
            boot-Accounted P C n worker_count capacity programs
                (client_programs-Safe capacity rounds client scope requests calls),
            boot-Waits P C w n worker_count capacity rounds client scope requests calls,
          ) in
      let at_end : Watched (progress w scope) (Done w scope requests) h.so_far (ret results) =
        subst (Watched (progress w scope) (Done w scope requests) h.so_far) ended h.watched in
      omega (arith, at_end.0, h.covered.1 at_end.1)
