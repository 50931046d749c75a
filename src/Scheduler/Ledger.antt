-- ===== src/Scheduler/Ledger.antt =====
-- What a submission of src/scheduler.rs has taken so far, and what it may do with it.
use libcortlet_upgradesched.Prelude.{ℕ, wrap, ◌+◌, ◌-◌, ◌≡◌, Bool, false, Option, none, some}
use libcortlet_upgradesched.Machine.{Op, GroupOp, Answer, Exchange, exchanged, failed}
use libcortlet_upgradesched.Machine.Monitor.{Monitor}
use libcortlet_upgradesched.Scheduler.{Result, ok, err}

-- What a submission has done so far: slots taken in the count of tasks in flight, memberships taken
-- in its group, tasks pushed; and whether it last read that shutdown has begun.
pub record Ledger : Type 0 where
  pub slots : ℕ
  pub members : ℕ
  pub pushed : ℕ
  pub stop : Bool

abbrev exchange_entry : Exchange → Ledger → Ledger
exchange_entry (exchanged old) m = record m { slots = m.slots + 1 }
exchange_entry (failed actual) m = m

abbrev pub enter_op : (op : Op) → Answer op → Ledger → Ledger
enter_op Op.load_shutdown x m = record m { stop = x }
enter_op Op.fetch_add_in_flight x m = record m { slots = m.slots + 1 }
enter_op Op.fetch_sub_in_flight x m = record m { slots = m.slots - 1 }
enter_op (Op.compare_exchange_weak current new) x m = exchange_entry x m
enter_op (Op.group g GroupOp.fetch_add) x m = record m { members = m.members + 1 }
enter_op (Op.group g GroupOp.fetch_sub) x m = record m { members = m.members - 1 }
enter_op (Op.push_injector lane t) x m = record m { pushed = m.pushed + 1 }
enter_op _ x m = m

-- One membership in a group, none where there is no group.
abbrev pub membership : Option ℕ → ℕ
membership none = 0
membership (some g) = 1

-- A push is allowed with one slot, with the membership, behind a read that shutdown has not begun,
-- and only once. A slot is taken by raising the count that was read by one. A slot or a membership is given back only by a submission that has one and has not
-- pushed, so the subtractions of `enter_op` never stop at 0. No other group is touched.
abbrev pub MayPush : Option ℕ → Op → Ledger → Type 0
MayPush group (Op.push_injector lane t) m =
    (m.slots ≡ 1) × (m.members ≡ membership group) × (m.pushed ≡ 0) × (m.stop ≡ false)
MayPush group (Op.compare_exchange_weak current new) m = new ≡ wrap (current + 1)
MayPush group Op.fetch_sub_in_flight m = (m.slots ≡ 1) × (m.pushed ≡ 0)
MayPush group (Op.group g GroupOp.fetch_sub) m = (group ≡ some g) × (m.members ≡ 1) × (m.pushed ≡ 0)
MayPush group (Op.group g op) m = group ≡ some g
MayPush group _ m = Unit

abbrev pub ledger_watch : Option ℕ → Monitor
ledger_watch group = record { State = Ledger; next = enter_op; Allows = MayPush group }

-- Success: one task is pushed, with its slot and membership. An error: nothing is left.
abbrev pub Settled : Option ℕ → Result (Unit {0}) → Ledger → Type 0
Settled group (ok _) m = (m.pushed ≡ 1) × (m.slots ≡ 1) × (m.members ≡ membership group)
Settled group (err e) m = (m.pushed ≡ 0) × (m.slots ≡ 0) × (m.members ≡ 0)

-- A submission that has done nothing yet.
abbrev pub blank : Ledger
blank = record { slots = 0; members = 0; pushed = 0; stop = false }
