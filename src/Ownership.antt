-- ===== src/Ownership.antt =====
-- What a thread owns while it runs a program: a slot of the scheduler's count, on its way from the
-- reservation to the release, and a unit of a group's count. `Safe` says of a program that it makes
-- each access only while it owns what the access needs.
pub mod Rules
pub mod Submission
pub mod Workers
pub mod Rounds
pub mod Waiting
use libcortlet_upgradesched.Prelude.{
  ℕ, ◌+◌, ◌<◌, ◌≡◌, Bool, true, false, Option, none, some, wrap, ◌==◌, if◌then◌else◌,
}
use libcortlet_upgradesched.Task.{Task}
use libcortlet_upgradesched.Platform.{Steal}
use libcortlet_upgradesched.Machine.{
  Op, GroupOp, GroupAnswer, Answer, exchanged, failed, Exchange, Prog, ret, act, stalled,
}

pub data Slot : Type 0 where
  -- no slot
  free : Slot
  -- reserved, and shutdown not checked since
  reserved : Slot
  -- reserved, and shutdown seen unset since
  cleared : Slot
  -- the slot of a task taken from a queue, to be executed
  taken : (function argument : ℕ) → Slot
  -- the slot of a task that was executed
  executed : Slot

pub record Ghost : Type 0 where
  pub slot : Slot
  pub group : Option ℕ

abbrev pub nothing : Ghost
nothing = record { slot = free; group = none }

-- The units that a slot adds to the scheduler's count.
abbrev pub held : Ghost → ℕ
held g = elim g.slot [ free ↦ 0 | _ ↦ 1 ]

-- The units that a thread adds to the count of the group at an address.
abbrev pub joined : ℕ → Option ℕ → ℕ
joined address none = 0
joined address (some g) = if g == address then 1 else 0

abbrev pub may_release : Slot → Bool
may_release free = false
may_release (taken _ _) = false
may_release _ = true

abbrev pub is_taken : Slot → Bool
is_taken (taken _ _) = true
is_taken _ = false

-- A thread leaves a group only when its task is not to be executed any more.
abbrev pub GroupAllowed : Ghost → ℕ → GroupOp → Type 0
GroupAllowed own g GroupOp.fetch_add = own.group ≡ none
GroupAllowed own g GroupOp.fetch_sub = (own.group ≡ some g) × (is_taken own.slot ≡ false)
GroupAllowed own g _ = Unit {0}

-- What a thread has to own for an access, with the capacity of the scheduler.
abbrev pub Allowed : (capacity : ℕ) → Ghost → Op → Type 0
Allowed capacity own Op.fetch_add_in_flight = (capacity ≡ 0) × (own.slot ≡ free)
Allowed capacity own (Op.compare_exchange_weak current new) =
    (current < capacity) × (new ≡ wrap (current + 1)) × (own.slot ≡ free)
Allowed capacity own Op.fetch_sub_in_flight = may_release own.slot ≡ true
Allowed capacity own (Op.push_injector lane t) =
    (own.slot ≡ cleared) × (own.group ≡ t.group) × (lane ≡ t.priority)
Allowed capacity own (Op.steal_batch_and_pop lane local) = own ≡ nothing
Allowed capacity own (Op.pop_local local) = own ≡ nothing
Allowed capacity own (Op.steal victim) = own ≡ nothing
Allowed capacity own (Op.execute t) = own.slot ≡ taken t.function t.argument
Allowed capacity own (Op.group g op) = GroupAllowed own g op
Allowed capacity own _ = Unit {0}

abbrev pub after_check : Bool → Slot → Slot
after_check false reserved = cleared
after_check _ slot = slot

abbrev pub received : Task → Ghost
received t = record { slot = taken t.function t.argument; group = t.group }

abbrev pub after_steal : Steal → Ghost → Ghost
after_steal (Steal.success t) own = received t
after_steal _ own = own

abbrev pub after_pop : Option Task → Ghost → Ghost
after_pop (some t) own = received t
after_pop none own = own

abbrev pub after_exchange : Exchange → Ghost → Ghost
after_exchange (exchanged old) own = record own { slot = reserved }
after_exchange (failed actual) own = own

abbrev pub after_group : ℕ → (op : GroupOp) → Ghost → Ghost
after_group g GroupOp.fetch_add own = record own { group = some g }
after_group g GroupOp.fetch_sub own = record own { group = none }
after_group g _ own = own

-- What the thread owns behind the access, by its answer.
abbrev pub after : (op : Op) → Answer op → Ghost → Ghost
after Op.fetch_add_in_flight x own = record own { slot = reserved }
after (Op.compare_exchange_weak current new) x own = after_exchange x own
after Op.fetch_sub_in_flight x own = record own { slot = free }
after Op.load_shutdown x own = record own { slot = after_check x own.slot }
after (Op.push_injector lane t) x own = nothing
after (Op.steal_batch_and_pop lane local) x own = after_steal x own
after (Op.pop_local local) x own = after_pop x own
after (Op.steal victim) x own = after_steal x own
after (Op.execute t) x own = record own { slot = executed }
after (Op.group g op) x own = after_group g op own
after _ x own = own

-- From `own`, each access of the program is allowed, and a result is reached with `Q`.
abbrev pub Safe {ℓ κ} :
    {A : Type ℓ} → (capacity : ℕ) → (Ghost → A → Type κ) → Ghost → Prog A → Type κ
Safe capacity Q own (ret a) = Q own a
Safe capacity Q own (act op k) =
    Allowed capacity own op × ((x : Answer op) → Safe capacity Q (after op x own) (k x))
Safe capacity Q own stalled = Unit
