-- ===== src/Effects.antt =====
-- What the atomic accesses (Machine/Perform.antt) do to the counts and the queues, as laws between
-- the state before and the state after.
pub mod Queues
pub mod Counts
pub mod Lanes
pub mod Records
use libcortlet_upgradesched.Prelude.{
  ℕ, ◌+◌, ◌≡◌, Bool, true, Option, none, some, sum_by, wrap, wrapping_pred, All, ◌==◌,
  if◌then◌else◌,
}
use libcortlet_upgradesched.Task.{Task, TaskPriority}
use libcortlet_upgradesched.Platform.{Platform, Steal}
use libcortlet_upgradesched.Machine.{Op, GroupOp, GroupAnswer, Answer, Exchange, exchanged, failed}
use libcortlet_upgradesched.Machine.Store.{QueueSystem}

-- A statement on the outcome of an access, where it is not blocked.
abbrev pub Holds {ℓ κ μ} : {A : Type ℓ} {S : Type κ} → (A → S → Type μ) → Option (A × S) → Type μ
Holds R none = Unit
Holds R (some (x, s)) = R x s

module _ (P : Platform) where
  -- The weight of all tasks in the queues.
  abbrev pub stored : (Task → ℕ) → QueueSystem P → ℕ
  stored w q =
      sum_by w (P.injected q.high)
      + sum_by w (P.injected q.normal)
      + sum_by w (P.injected q.low)
      + sum_by (λ d. sum_by w (P.local d)) q.stealers

  -- Each injector holds tasks of its own priority.
  pub record InLanes (q : QueueSystem P) : Type 0 where
    pub high_lane : All (λ t. t.priority ≡ TaskPriority.high) (P.injected q.high)
    pub normal_lane : All (λ t. t.priority ≡ TaskPriority.normal) (P.injected q.normal)
    pub low_lane : All (λ t. t.priority ≡ TaskPriority.low) (P.injected q.low)

module _ (w : Task → ℕ) where
  abbrev pub steal_weight : Steal → ℕ
  steal_weight (Steal.success t) = w t
  steal_weight _ = 0

  abbrev pub pop_weight : Option Task → ℕ
  pop_weight (some t) = w t
  pop_weight none = 0

  -- The weight that an access puts into the queues, and the weight that it takes out.
  abbrev pub put_in : Op → ℕ
  put_in (Op.push_injector lane t) = w t
  put_in _ = 0

  abbrev pub taken_out : (op : Op) → Answer op → ℕ
  taken_out (Op.steal_batch_and_pop lane local) x = steal_weight x
  taken_out (Op.pop_local local) x = pop_weight x
  taken_out (Op.steal victim) x = steal_weight x
  taken_out _ x = 0

abbrev pub ExchangeLaw : (current new : ℕ) → Exchange → ℕ → ℕ → Type 0
ExchangeLaw current new (exchanged old) before after = (before ≡ current) × (after ≡ new)
ExchangeLaw current new (failed actual) before after = after ≡ before

-- The scheduler's `tasks_in_flight`, before and after.
abbrev pub CountLaw : (op : Op) → Answer op → ℕ → ℕ → Type 0
CountLaw Op.load_in_flight x before after = (x ≡ before) × (after ≡ before)
CountLaw Op.fetch_add_in_flight x before after = after ≡ wrap (before + 1)
CountLaw Op.fetch_sub_in_flight x before after = after ≡ wrapping_pred before
CountLaw (Op.compare_exchange_weak current new) x before after =
    ExchangeLaw current new x before after
CountLaw _ x before after = after ≡ before

-- The count of the group at `address`.
abbrev pub GroupCountLaw : GroupOp → ℕ → ℕ → Type 0
GroupCountLaw GroupOp.fetch_add before after = after ≡ wrap (before + 1)
GroupCountLaw GroupOp.fetch_sub before after = after ≡ wrapping_pred before
GroupCountLaw _ before after = after ≡ before

abbrev pub GroupLaw : (address : ℕ) → Op → ℕ → ℕ → Type 0
GroupLaw address (Op.group g op) before after =
    if g == address then GroupCountLaw op before after else (after ≡ before)
GroupLaw address _ before after = after ≡ before

-- The shutdown flag.
abbrev pub ShutdownLaw : (op : Op) → Answer op → Bool → Bool → Type 0
ShutdownLaw Op.load_shutdown x before after = (x ≡ before) × (after ≡ before)
ShutdownLaw Op.store_shutdown x before after = after ≡ true
ShutdownLaw _ x before after = after ≡ before
