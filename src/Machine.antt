-- ===== src/Machine.antt =====
-- Programs over the shared state of the scheduler: a tree of atomic accesses. Each access stands for
-- one atomic operation of the source, on a field of `WorkerShared` (src/worker.rs), on its queues
-- (src/queue.rs), on its counters (src/stats.rs) or on a `TaskGroup` (src/group.rs). The functions of
-- the source are such programs, so that threads can be interleaved between any two accesses.
pub mod Store
pub mod Perform
pub mod Alone
pub mod Log
pub mod Monitor
use libcortlet_upgradesched.Prelude.{
  ℕ, zero, suc, Bool, true, false, Option, none, some, ◌⊎◌, inl, inr,
}
use libcortlet_upgradesched.Task.{Task, TaskPriority}
use libcortlet_upgradesched.Stats.{Event}
use libcortlet_upgradesched.Platform.{Steal}

-- The result of a compare-exchange: the old value, as `Ok` or as `Err`.
pub data Exchange : Type 0 where
  exchanged : ℕ → Exchange
  failed : ℕ → Exchange

-- The accesses to one `TaskGroup`.
pub data GroupOp : Type 0 where
  load_closed store_closed load_count fetch_add fetch_sub : GroupOp
  lock_wait unlock_wait block resume notify_all : GroupOp

pub data Op : Type 0 where
  load_in_flight fetch_add_in_flight fetch_sub_in_flight : Op
  compare_exchange_weak : (current new : ℕ) → Op
  load_sleeping fetch_add_sleeping fetch_sub_sleeping : Op
  load_shutdown store_shutdown : Op
  stat load_stat : Event → Op
  -- `sleep_lock`, and the two halves of `wake.wait(&mut guard)`: release the lock and block; then,
  -- once notified, take the lock again.
  lock_sleep unlock_sleep block resume : Op
  notify_one notify_all : Op
  -- The injector of a priority; a local deque; a stealer, by its index in `stealers`.
  push_injector : TaskPriority → Task → Op
  steal_batch_and_pop : TaskPriority → (local : ℕ) → Op
  pop_local : (local : ℕ) → Op
  has_stealer steal : (victim : ℕ) → Op
  -- The call of the task's C function.
  execute : Task → Op
  group : ℕ → GroupOp → Op

abbrev pub GroupAnswer : GroupOp → Type 0
GroupAnswer GroupOp.load_closed = Bool
GroupAnswer GroupOp.load_count = ℕ
GroupAnswer GroupOp.fetch_add = ℕ
GroupAnswer GroupOp.fetch_sub = ℕ
GroupAnswer _ = Unit

abbrev pub Answer : Op → Type 0
Answer Op.load_in_flight = ℕ
Answer Op.fetch_add_in_flight = ℕ
Answer Op.fetch_sub_in_flight = ℕ
Answer (Op.compare_exchange_weak current new) = Exchange
Answer Op.load_sleeping = ℕ
Answer Op.fetch_add_sleeping = ℕ
Answer Op.fetch_sub_sleeping = ℕ
Answer Op.load_shutdown = Bool
Answer (Op.load_stat e) = ℕ
Answer (Op.steal_batch_and_pop lane local) = Steal
Answer (Op.pop_local local) = Option Task
Answer (Op.has_stealer victim) = Bool
Answer (Op.steal victim) = Steal
Answer (Op.group g op) = GroupAnswer op
Answer _ = Unit

-- `stalled`: the rounds that the model grants to a loop are used up, and the thread stops where it
-- is. A run of the real program up to any moment is a run with enough rounds.
pub data Prog {ℓ} (A : Type ℓ) : Type ℓ where
  ret : A → Prog A
  act : (op : Op) → (Answer op → Prog A) → Prog A
  stalled : Prog A

abbrev pub call : (op : Op) → Prog (Answer op)
call op = act op ret

infixl 5 ◌>>=◌ ◌>>◌
abbrev pub ◌>>=◌ {ℓ κ} : {A : Type ℓ} {B : Type κ} → Prog A → (A → Prog B) → Prog B
ret a >>= f = f a
act op k >>= f = act op (λ x. k x >>= f)
stalled >>= f = stalled

abbrev pub ◌>>◌ {ℓ κ} : {A : Type ℓ} {B : Type κ} → Prog A → Prog B → Prog B
p >> q = p >>= λ _. q

-- `loop { … }`: the body asks for another round, or leaves with a result.
abbrev pub next_round {ℓ κ} : {S : Type ℓ} {A : Type κ} → (S → Prog A) → S ⊎ A → Prog A
next_round again (inl s) = again s
next_round again (inr a) = ret a

unfoldable pub loop {ℓ κ} : {S : Type ℓ} {A : Type κ} → ℕ → (S → Prog (S ⊎ A)) → S → Prog A
loop zero body s = stalled
loop (suc rounds) body s = body s >>= next_round (loop rounds body)
