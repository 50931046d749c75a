-- ===== src/System/Scope.antt =====
-- The tasks that a call of `wait` waits for: those of the whole scheduler (`Scheduler::wait`), or
-- those of one group (`TaskGroup::wait`).
use libcortlet_upgradesched.Prelude.{
  ℕ, ◌+◌, ◌≤◌, ◌<◌, ◌^◌, ◌≡◌, arith, Bool, true, false, Option, none, some, ◌==◌, if◌then◌else◌,
  sum_by, sum_below, sum_below-update, sum_below-zero, sum_below-le, le-sum_below,
}
use libcortlet_upgradesched.Task.{Task}
use libcortlet_upgradesched.Platform.{Platform}
use libcortlet_upgradesched.Machine.{Op, Answer}
use libcortlet_upgradesched.Machine.Store.{Store}
use libcortlet_upgradesched.Ownership.{Ghost, taken, held, joined, Allowed, after}
use libcortlet_upgradesched.Effects.{stored, put_in, taken_out}
use libcortlet_upgradesched.System.{System}
use libcortlet_upgradesched.System.Invariant.{one, in_group, Accounted}
use libcortlet_upgradesched.System.Accounting.{Kept}
use libcortlet_upgradesched.System.Safety.{joined-le, stored-le}
use libcortlet_upgradesched.System.History.{executed, stored-zero, nothing_queued}

-- Whether a task of a group is in the scope: `none` is the scheduler, `some g` the group at `g`.
abbrev pub covers : (scope group : Option ℕ) → Bool
covers none group = true
covers (some g) none = false
covers (some g) (some h) = h == g

-- The count that a scope has.
abbrev pub scope_count : {P : Platform} → Option ℕ → Store P → ℕ
scope_count none s = s.shared.tasks_in_flight
scope_count (some g) s = (s.groups g).tasks_in_flight

module _ (w : ℕ → ℕ → ℕ) (scope : Option ℕ) where
  abbrev pub scoped : Task → ℕ
  scoped t = if covers scope t.group then w t.function t.argument else 0

  abbrev pub scoped_published : Op → ℕ
  scoped_published (Op.push_injector lane t) = scoped t
  scoped_published _ = 0

  abbrev scoped_in_hand : Ghost → ℕ
  scoped_in_hand own = elim own.slot [
    | taken function argument ↦ if covers scope own.group then w function argument else 0
    | _ ↦ 0
  ]

  -- What an execution adds in the scope.
  abbrev scoped_executed : Ghost → Op → ℕ
  scoped_executed own (Op.execute t) = scoped_in_hand own
  scoped_executed own _ = 0

  scoped_executed-le :
      (capacity : ℕ) (own : Ghost) (op : Op)
      → Allowed capacity own op
      → scoped_executed own op ≤ executed w op
  scoped_executed-le capacity own (Op.execute t) a = rw a (ground arith)
  scoped_executed-le capacity own _ a = omega arith

  scope-after :
      (capacity total total' queues queues' past done : ℕ) (own : Ghost) (op : Op) (x : Answer op)
      → Allowed capacity own op
      → total' + scoped_in_hand own ≡ total + scoped_in_hand (after op x own)
      → queues' + taken_out scoped op x ≡ queues + put_in scoped op
      → past ≤ done + queues + total
      → scoped_published op + past ≤ (scoped_executed own op + done) + queues' + total'
  scope-after capacity total total' queues queues' past done own Op.load_shutdown x a t q e =
      ground arith
  scope-after capacity total total' queues queues' past done own _ x a t q e = ground arith

module _ {P : Platform} {A : Type 0} (w : ℕ → ℕ → ℕ) (scope : Option ℕ) (n : ℕ) where
  -- What was published in the scope was executed, is queued, or is in the hands of a thread.
  pub record Spread (own : ℕ → Ghost) (s : System P A) : Type 0 where
    pub done : ℕ
    pub spread :
        sum_by (scoped_published w scope) s.trace
        ≤ done
          + stored P (scoped w scope) s.store.shared.queues
          + sum_below (scoped_in_hand w scope) n own
    pub counted_in : done ≤ sum_by (executed w) s.trace

  pub Spread-Kept : (capacity : ℕ) → Kept {P = P} {A = A} n capacity Spread
  Spread-Kept capacity = record {
    keep = λ own s i op k x s' below v h a f here. record {
      done = scoped_executed w scope (own i) op + h.done;
      spread =
          scope-after w scope capacity (sum_below (scoped_in_hand w scope) n own) _
            (stored P (scoped w scope) s.store.shared.queues) _
            (sum_by (scoped_published w scope) s.trace) h.done (own i) op x a
            (sum_below-update (scoped_in_hand w scope) n own i (after op x (own i)) below)
            (f.flow (scoped w scope)) h.spread;
      counted_in = omega (arith, scoped_executed-le w scope capacity (own i) op a, h.counted_in);
    };
  }

module _ (w : ℕ → ℕ → ℕ) where
  scoped-zero : (g : ℕ) (t : Task) → in_group g t ≡ 0 → scoped w (some g) t ≡ 0
  scoped-zero g t h = ground arith

  free-scoped_in_hand :
      (scope : Option ℕ) (own : Ghost) → held own ≡ 0 → scoped_in_hand w scope own ≡ 0
  free-scoped_in_hand scope own h = ground arith

  outside-scoped_in_hand :
      (g : ℕ) (own : Ghost) → joined g own.group ≡ 0 → scoped_in_hand w (some g) own ≡ 0
  outside-scoped_in_hand g own h = ground arith

module _ {P : Platform} {A : Type 0} (w : ℕ → ℕ → ℕ) (n capacity : ℕ) (own : ℕ → Ghost)
    (s : System P A) (v : Accounted n capacity own s) (bounded : 0 < capacity)
    (few : n + capacity < 2 ^ 64) where
  -- The members of a group are fewer than its count can hold.
  members-lt :
      (g : ℕ)
      → sum_below (λ o. joined g o.group) n own + stored P (in_group g) s.store.shared.queues
        < 2 ^ 64
  members-lt g = omega (
    arith,
    few,
    v.bounded bounded,
    stored-le P (in_group g) one s.store.shared.queues (λ t. joined-le g t.group),
    sum_below-le (λ o. joined g o.group) n own (λ i. joined-le g (own i).group),
  )

  -- At a count of zero nothing of the scope is queued, and no thread has a task of it in hand.
  scope_queued :
      (scope : Option ℕ)
      → scope_count scope s.store ≡ 0
      → stored P (scoped w scope) s.store.shared.queues ≡ 0
  scope_queued none z =
      nothing_queued P (scoped w none) s.store.shared.queues
        (omega (arith, z, v.counted, v.bounded bounded, few))
  scope_queued (some g) z =
      stored-zero P (in_group g) (scoped w (some g)) s.store.shared.queues (scoped-zero w g)
        (omega (arith, z, v.grouped g, members-lt g))

  scope_hands :
      (scope : Option ℕ) (i : ℕ)
      → scope_count scope s.store ≡ 0
      → i < n
      → scoped_in_hand w scope (own i) ≡ 0
  scope_hands none i z lt =
      free-scoped_in_hand w none (own i)
        (omega (arith, z, v.counted, v.bounded bounded, few, le-sum_below held n own i lt))
  scope_hands (some g) i z lt =
      outside-scoped_in_hand w g (own i) (
        omega
          (arith, z, v.grouped g, members-lt g, le-sum_below (λ o. joined g o.group) n own i lt))

  -- At a count of zero everything that was published in the scope was executed.
  pub Spread-at_zero :
      (scope : Option ℕ)
      → Spread w scope n own s
      → scope_count scope s.store ≡ 0
      → sum_by (scoped_published w scope) s.trace ≤ sum_by (executed w) s.trace
  Spread-at_zero scope h z = omega (
    arith,
    h.spread,
    h.counted_in,
    scope_queued scope z,
    sum_below-zero (scoped_in_hand w scope) n own (λ i lt. scope_hands scope i z lt),
  )
