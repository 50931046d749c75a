-- ===== src/Scheduler/Termination.antt =====
-- The reservation loop of src/scheduler.rs ends: how many rounds `push_internal` needs.
use libcortlet_upgradesched.Prelude.{
  ℕ, zero, suc, ◌≡◌, subst, arith, ap, inr, Bool, true, false, Option, none, some, leb, wrap, ◌+◌,
  ◌==◌, if◌then◌else◌,
}
use libcortlet_upgradesched.Task.{Task, TaskPriority}
use libcortlet_upgradesched.Stats.{Event}
use libcortlet_upgradesched.Machine.{
  Op, Answer, Exchange, exchanged, failed, Prog, ret, act, stalled, call, loop, next_round, ◌>>=◌,
  ◌>>◌,
}
use libcortlet_upgradesched.Group
use libcortlet_upgradesched.Queue.{push_global}
use libcortlet_upgradesched.Worker.{wake_one}
use libcortlet_upgradesched.Scheduler.{
  ok, err, queue_full, reserve_result, reserve_round, reserve_task_slot, Result, release_task_slot,
  join_group, leave_group, publish, enter, enter_if, push_internal,
}

-- How many failures of the compare-exchange are left, from those that other threads cause.
abbrev pub spend : (op : Op) → Answer op → ℕ → Option ℕ
spend (Op.compare_exchange_weak current new) (failed actual) zero = none
spend (Op.compare_exchange_weak current new) (failed actual) (suc failures) = some failures
spend _ _ failures = some failures

-- On every path with at most so many failures, the program comes to its end.
abbrev pub EndsWithin {ℓ} : {A : Type ℓ} → ℕ → Prog A → Type 0
EndsWithin failures (ret a) = Unit
EndsWithin failures (act op k) =
    (x : Answer op) (left : ℕ) → spend op x failures ≡ some left → EndsWithin left (k x)
EndsWithin failures stalled = ⊥

some_eq : {a b : ℕ} → some a ≡ some b → a ≡ b
some_eq e = cc

-- The second half of a round, by the answer of the compare-exchange.
after-EndsWithin :
    (capacity : ℕ) (failures : ℕ)
    → ((fewer current : ℕ)
        → failures ≡ suc fewer
        → EndsWithin fewer (loop failures (reserve_round capacity) current))
    → (expected new : ℕ) (x : Exchange) (left : ℕ)
    → spend (Op.compare_exchange_weak expected new) x failures ≡ some left
    → EndsWithin left (reserve_result x >>= next_round (loop failures (reserve_round capacity)))
unfolding reserve_result
after-EndsWithin capacity failures shorter expected new (exchanged old) left e = tt
after-EndsWithin capacity zero shorter expected new (failed actual) left e = absurd (cc)
after-EndsWithin capacity (suc failures) shorter expected new (failed actual) left e =
    shorter left actual (ap suc (some_eq e))

round-EndsWithin :
    (failures capacity current : ℕ)
    → ((fewer current : ℕ)
        → failures ≡ suc fewer
        → EndsWithin fewer (loop failures (reserve_round capacity) current))
    → EndsWithin failures (loop (suc failures) (reserve_round capacity) current)
unfolding loop reserve_round
round-EndsWithin failures capacity current shorter =
    elim (leb capacity current)
      as (λ full. EndsWithin failures (
        (if full
          then call (Op.stat Event.queue_full) >> ret (inr (err queue_full))
          else (call (Op.compare_exchange_weak current (wrap (current + 1))) >>= reserve_result))
        >>= next_round (loop failures (reserve_round capacity)))) [
          | true ↦ λ _ _ _. tt
          | false ↦ after-EndsWithin capacity failures shorter current (wrap (current + 1))
        ]

loop-EndsWithin :
    (failures capacity current : ℕ)
    → EndsWithin failures (loop (suc failures) (reserve_round capacity) current)
loop-EndsWithin zero capacity current =
    round-EndsWithin zero capacity current (λ fewer current e. absurd (omega (arith, e)))
loop-EndsWithin (suc n) capacity current =
    round-EndsWithin (suc n) capacity current λ fewer current e.
      subst (λ m. EndsWithin m (loop (suc n) (reserve_round capacity) current)) (omega (arith, e))
        (loop-EndsWithin n capacity current)

>>=-EndsWithin {ℓ κ} :
    {A : Type ℓ} {B : Type κ} (failures : ℕ) (p : Prog A) (f : A → Prog B)
    → EndsWithin failures p
    → ((a : A) (failures : ℕ) → EndsWithin failures (f a))
    → EndsWithin failures (p >>= f)
>>=-EndsWithin failures (ret a) f h onward = onward a failures
>>=-EndsWithin failures (act op k) f h onward =
    λ x left e. >>=-EndsWithin left (k x) f (h x left e) onward
>>=-EndsWithin failures stalled f h onward = absurd h

reserve-EndsWithin :
    (failures capacity : ℕ) → EndsWithin failures (reserve_task_slot (suc failures) capacity)
unfolding reserve_task_slot
reserve-EndsWithin failures capacity =
    elim (capacity == 0)
      as (λ unbounded. EndsWithin failures (
        if unbounded
        then (call Op.fetch_add_in_flight >>= λ _. ret (ok tt))
        else (call Op.load_in_flight >>= λ current.
            loop (suc failures) (reserve_round capacity) current))) [
              | true ↦ λ _ _ _. tt
              | false ↦ λ current left e.
                  subst (λ m. EndsWithin m (loop (suc failures) (reserve_round capacity) current))
                    (some_eq e) (loop-EndsWithin failures capacity current)
            ]

-- Programs without a loop.
abbrev Loopless {ℓ} : {A : Type ℓ} → Prog A → Type 0
Loopless (ret a) = Unit
Loopless (act op k) = (x : Answer op) → Loopless (k x)
Loopless stalled = ⊥

Loopless-EndsWithin {ℓ} :
    {A : Type ℓ} (p : Prog A) → Loopless p → (failures : ℕ) → EndsWithin failures p
Loopless-EndsWithin (ret a) h failures = tt
Loopless-EndsWithin (act op k) h failures = λ x left _. Loopless-EndsWithin (k x) (h x) left
Loopless-EndsWithin stalled h failures = h

Loopless->>= {ℓ κ} :
    {A : Type ℓ} {B : Type κ} (p : Prog A) (f : A → Prog B)
    → Loopless p
    → ((a : A) → Loopless (f a))
    → Loopless (p >>= f)
Loopless->>= (ret a) f h onward = onward a
Loopless->>= (act op k) f h onward = λ x. Loopless->>= (k x) f (h x) onward
Loopless->>= stalled f h onward = absurd h

if-Loopless {ℓ} :
    {A : Type ℓ} (b : Bool) (p q : Prog A) → Loopless p → Loopless q → Loopless (if b then p else q)
if-Loopless true p q h k = h
if-Loopless false p q h k = k

group_completed-Loopless : (g : ℕ) → Loopless (Group.task_completed g)
unfolding Group.task_completed
group_completed-Loopless g = λ previous. if-Loopless (previous == 1) _ _ (λ _. tt) tt

leave_group-Loopless : (group : Option ℕ) → Loopless (leave_group group)
unfolding leave_group
leave_group-Loopless none = tt
leave_group-Loopless (some g) = group_completed-Loopless g

join_group-Loopless : (group : Option ℕ) → Loopless (join_group group)
unfolding join_group Group.add_task
join_group-Loopless none = tt
join_group-Loopless (some g) = λ closed. if-Loopless closed _ _ tt λ _ closing.
    if-Loopless closing _ _
      (Loopless->>= (Group.task_completed g) _ (group_completed-Loopless g) λ _. tt) tt

publish-Loopless : (t : Task) → Loopless (publish t)
unfolding publish release_task_slot push_global wake_one
publish-Loopless t = λ stopping.
    if-Loopless stopping _ _
      (λ _. Loopless->>= (leave_group t.group) _ (leave_group-Loopless t.group) λ _. tt)
      λ _ _ sleeping.
        Loopless->>= (if sleeping == 0 then ret tt else call Op.notify_one) _
          (if-Loopless (sleeping == 0) _ _ tt (λ _. tt)) λ _. tt

enter-Loopless : (t : Task) → Loopless (enter t)
unfolding enter release_task_slot
enter-Loopless t = λ stopping.
    if-Loopless stopping _ _ (λ _. tt)
      (Loopless->>= (join_group t.group) _ (join_group-Loopless t.group)
        λ joined. if-Loopless joined _ _ (publish-Loopless t) (λ _. tt))

enter_if-Loopless : (t : Task) (r : Result (Unit {0})) → Loopless (enter_if t r)
unfolding enter_if
enter_if-Loopless t (ok _) = enter-Loopless t
enter_if-Loopless t (err e) = tt

-- A submission comes to its end, whatever other threads do, within one round more of the
-- reservation loop than the compare-exchange fails.
pub push_internal-EndsWithin :
    (failures capacity function argument : ℕ) (priority : TaskPriority) (group : Option ℕ)
    → EndsWithin failures (push_internal (suc failures) capacity function argument priority group)
unfolding push_internal
push_internal-EndsWithin failures capacity function argument priority group = elim [
  | true ↦ λ _ _. tt
  | false ↦ λ left e.
      subst (λ m. EndsWithin m (reserve_task_slot (suc failures) capacity >>= enter_if t))
        (some_eq e)
        (>>=-EndsWithin failures (reserve_task_slot (suc failures) capacity) (enter_if t)
          (reserve-EndsWithin failures capacity)
          (λ r n. Loopless-EndsWithin (enter_if t r) (enter_if-Loopless t r) n))
]
  where
    t : Task
    t = record { function = function; argument = argument; priority = priority; group = group }
