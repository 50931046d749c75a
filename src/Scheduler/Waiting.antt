-- ===== src/Scheduler/Waiting.antt =====
-- When the two `wait` functions return: `Scheduler::wait` (src/scheduler.rs) and `TaskGroup::wait`
-- (src/group.rs).
use libcortlet_upgradesched.Prelude.{
  ℕ, ◌≡◌, refl, Bool, true, false, inl, inr, ◌==◌, ==_refl, if◌then◌else◌,
}
use libcortlet_upgradesched.Machine.{Op, GroupOp, Answer, ret, call, loop, ◌>>◌}
use libcortlet_upgradesched.Machine.Monitor.{Monitor, Watched, Watched->>=, Watched-loop, RoundEnds}
use libcortlet_upgradesched.Group
use libcortlet_upgradesched.Scheduler

-- Whether the last count that the program read was zero, for the scheduler and for a group.
abbrev read_in_flight : (op : Op) → Answer op → Bool → Bool
read_in_flight Op.load_in_flight x seen = x == 0
read_in_flight _ x seen = seen

abbrev read_count : (g : ℕ) → (op : Op) → Answer op → Bool → Bool
read_count g (Op.group h GroupOp.load_count) x seen = if h == g then x == 0 else seen
read_count g _ x seen = seen

abbrev pub in_flight_watch : Monitor
in_flight_watch = record { State = Bool; next = read_in_flight; Allows = λ _ _. Unit }

abbrev pub count_watch : ℕ → Monitor
count_watch g = record { State = Bool; next = read_count g; Allows = λ _ _. Unit }

abbrev pub AtZero {ℓ} : {A : Type ℓ} → A → Bool → Type 0
AtZero a seen = seen ≡ true

-- Nothing is kept from round to round: each round reads the count anew.
abbrev Anything : Unit {0} → Bool → Type 0
Anything _ _ = Unit

round-AtZero :
    (seen : Bool)
    → Watched in_flight_watch
        (RoundEnds in_flight_watch Anything AtZero)
        seen
        (Scheduler.wait_round tt)
unfolding Scheduler.wait_round
round-AtZero seen = (
  tt,
  λ count.
      elim (count == 0)
        as (λ z.
          Watched in_flight_watch (RoundEnds in_flight_watch Anything AtZero) z
            (if z then ret (inr tt) else (call Op.block >> (call Op.resume >> ret (inl tt))))) [
              | true ↦ refl
              | false ↦ (tt, λ _. (tt, λ _. tt))
            ],
)

wait-AtZero :
    (rounds : ℕ) (seen : Bool) → Watched in_flight_watch AtZero seen (Scheduler.wait rounds)
unfolding Scheduler.wait
wait-AtZero rounds seen = (
  tt,
  λ _.
      Watched->>= in_flight_watch AtZero AtZero seen (loop rounds Scheduler.wait_round tt) _
        (Watched-loop in_flight_watch Anything AtZero Scheduler.wait_round
          (λ _ seen _. round-AtZero seen) rounds tt seen tt)
        λ _ seen zero. (tt, λ _. zero),
)

group_round-AtZero :
    (g : ℕ) (seen : Bool)
    → Watched
        (count_watch g)
        (RoundEnds (count_watch g) Anything AtZero)
        seen
        (Group.wait_round g tt)
unfolding Group.wait_round
group_round-AtZero g seen = (
  tt,
  rw (==_refl g) (λ count.
      elim (count == 0)
        as (λ z. Watched (count_watch g) (RoundEnds (count_watch g) Anything AtZero) z (
          if z
          then ret (inr tt)
          else (call (Op.group g GroupOp.block)
              >> (call (Op.group g GroupOp.resume) >> ret (inl tt))))) [
                | true ↦ refl
                | false ↦ (tt, λ _. (tt, λ _. tt))
              ]),
)

group_wait-AtZero :
    (g rounds : ℕ) (seen : Bool) → Watched (count_watch g) AtZero seen (Group.wait rounds g)
unfolding Group.wait
group_wait-AtZero g rounds seen = (
  tt,
  λ _.
      Watched->>= (count_watch g) AtZero AtZero seen (loop rounds (Group.wait_round g) tt) _
        (Watched-loop (count_watch g) Anything AtZero (Group.wait_round g)
          (λ _ seen _. group_round-AtZero g seen) rounds tt seen tt)
        λ _ seen zero. (tt, λ _. zero),
)

-- On every path, whatever other threads do, `Scheduler::wait` returns only when the last count of
-- tasks in flight that it read was zero, and `TaskGroup::wait` only when the last count of the
-- group that it read was zero.
pub waits-AtZero :
    (g rounds : ℕ) (seen : Bool)
    → Watched in_flight_watch AtZero seen (Scheduler.wait rounds)
      × Watched (count_watch g) AtZero seen (Group.wait rounds g)
waits-AtZero g rounds seen = (wait-AtZero rounds seen, group_wait-AtZero g rounds seen)
