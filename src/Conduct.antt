-- ===== src/Conduct.antt =====
-- How a thread conducts itself with `sleep_lock`, with the count of sleeping workers and with the
-- counters (src/worker.rs, src/scheduler.rs, src/stats.rs).
pub mod Search
pub mod Workers
pub mod Submission
pub mod Clients
use libcortlet_upgradesched.Prelude.{ℕ, ◌+◌, ◌-◌, ◌≤◌, ◌≡◌, Bool, true, false}
use libcortlet_upgradesched.Stats.{Event}
use libcortlet_upgradesched.Machine.{Op, Answer}
use libcortlet_upgradesched.Machine.Monitor.{Monitor}

-- Whether the thread holds the lock, whether it counts as sleeping, and what it has done and not
-- yet recorded: pushes, executions, and attempts to steal.
pub record Conduct : Type 0 where
  pub locked : Bool
  pub asleep : Bool
  pub unrecorded : ℕ
  pub uncounted : ℕ
  pub attempts : ℕ

abbrev pub record_of : Event → Conduct → Conduct
record_of Event.submission m = record m { unrecorded = m.unrecorded - 1 }
record_of Event.completion m = record m { uncounted = m.uncounted - 1 }
record_of Event.steal_attempt m = record m { attempts = m.attempts + 1 }
record_of Event.steal_success m = record m { attempts = m.attempts - 1 }
record_of Event.steal_failure m = record m { attempts = m.attempts - 1 }
record_of _ m = m

abbrev pub conduct_after : (op : Op) → Answer op → Conduct → Conduct
conduct_after Op.lock_sleep x m = record m { locked = true }
conduct_after Op.unlock_sleep x m = record m { locked = false }
conduct_after Op.block x m = record m { locked = false }
conduct_after Op.resume x m = record m { locked = true }
conduct_after Op.fetch_add_sleeping x m = record m { asleep = true }
conduct_after Op.fetch_sub_sleeping x m = record m { asleep = false }
conduct_after (Op.push_injector lane t) x m = record m { unrecorded = m.unrecorded + 1 }
conduct_after (Op.execute t) x m = record m { uncounted = m.uncounted + 1 }
conduct_after (Op.stat e) x m = record_of e m
conduct_after _ x m = m

-- An event is recorded only once it has happened.
abbrev pub MayRecord : Event → Conduct → Type 0
MayRecord Event.submission m = 1 ≤ m.unrecorded
MayRecord Event.completion m = 1 ≤ m.uncounted
MayRecord Event.steal_success m = 1 ≤ m.attempts
MayRecord Event.steal_failure m = 1 ≤ m.attempts
MayRecord _ m = Unit

-- The lock is taken by a thread that does not hold it, and given back by one that does; the count of
-- sleeping workers changes under the lock; a task's function runs without the lock, in a worker that
-- does not count as sleeping; a push is recorded before the next one, and a completion before the
-- slot is given back.
abbrev pub Proper : Op → Conduct → Type 0
Proper Op.lock_sleep m = m.locked ≡ false
Proper Op.unlock_sleep m = m.locked ≡ true
Proper Op.block m = m.locked ≡ true
Proper Op.resume m = m.locked ≡ false
Proper Op.fetch_add_sleeping m = (m.locked ≡ true) × (m.asleep ≡ false)
Proper Op.fetch_sub_sleeping m = (m.locked ≡ true) × (m.asleep ≡ true)
Proper Op.fetch_sub_in_flight m = m.uncounted ≡ 0
Proper (Op.push_injector lane t) m = m.unrecorded ≡ 0
Proper (Op.execute t) m = (m.locked ≡ false) × (m.asleep ≡ false) × (m.uncounted ≡ 0)
Proper (Op.stat e) m = MayRecord e m
Proper _ m = Unit

abbrev pub conduct : Monitor
conduct = record { State = Conduct; next = conduct_after; Allows = Proper }

-- Everything is recorded, with the lock and the sleep as given.
abbrev pub At : (locked asleep : Bool) → Conduct → Type 0
At locked asleep m =
    (m.locked ≡ locked) × (m.asleep ≡ asleep) × (m.unrecorded ≡ 0) × (m.uncounted ≡ 0)

abbrev pub Stays {ℓ} : {A : Type ℓ} → (locked asleep : Bool) → A → Conduct → Type 0
Stays locked asleep _ m = At locked asleep m

-- A thread that has no lock, does not count as sleeping, and has recorded everything.
abbrev pub Idle {ℓ} : {A : Type ℓ} → A → Conduct → Type 0
Idle _ m = At false false m
