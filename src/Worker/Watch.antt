-- ===== src/Worker/Watch.antt =====
-- What a worker of src/worker.rs has read when it goes to sleep, and when it leaves its loop.
pub mod Looks
pub mod Rounds
pub mod Final
use libcortlet_upgradesched.Prelude.{ℕ, ◌≡◌, Bool, true, false, ◌&&◌, not, ◌==◌, Option, none, some}
use libcortlet_upgradesched.Task.{Task, TaskPriority, PopResult}
use libcortlet_upgradesched.Platform.{Steal}
use libcortlet_upgradesched.Machine.{Op, Answer}
use libcortlet_upgradesched.Machine.Monitor.{Monitor}
use libcortlet_upgradesched.Queue.{Search}

-- Whether the worker has announced that it sleeps, and has not slept or taken that back since, and
-- whether it has read the shutdown flag behind the announcement. The last reads: of the shutdown
-- flag, of whether no task is in flight, and of whether each injector and the own deque were empty,
-- since the announcement.
pub record Seen : Type 0 where
  pub announced : Bool
  pub checked : Bool
  pub stop : Bool
  pub zero : Bool
  pub high : Bool
  pub normal : Bool
  pub low : Bool
  pub own : Bool

abbrev is_empty : Steal → Bool
is_empty Steal.empty = true
is_empty _ = false

abbrev is_none : Option Task → Bool
is_none none = true
is_none (some t) = false

abbrev pub look : TaskPriority → Bool → Seen → Seen
look TaskPriority.high b m = record m { high = b }
look TaskPriority.normal b m = record m { normal = b }
look TaskPriority.low b m = record m { low = b }

-- What worker `id` sees.
abbrev pub see : (id : ℕ) (op : Op) → Answer op → Seen → Seen
see id Op.load_shutdown x m = record m { stop = x; checked = true }
see id Op.load_in_flight x m = record m { zero = x == 0 }
see id Op.fetch_add_sleeping x m = record {
  announced = true;
  checked = false;
  stop = m.stop;
  zero = m.zero;
  high = false;
  normal = false;
  low = false;
  own = false;
}
see id Op.fetch_sub_sleeping x m = record m { announced = false }
see id Op.resume x m = record m { announced = false }
see id (Op.steal_batch_and_pop lane local) x m = look lane (is_empty x) m
see id (Op.pop_local local) x m = record m { own = is_none x && (local == id) }
see id _ x m = m

-- All four places were found empty.
abbrev pub AllEmpty : Seen → Type 0
AllEmpty m = (m.high ≡ true) × (m.normal ≡ true) × (m.low ≡ true) × (m.own ≡ true)

-- Sleep is allowed once the worker has announced it and, behind that, read the shutdown flag and
-- found all places empty, and it does not know that it must stop.
abbrev pub MaySleep : Op → Seen → Type 0
MaySleep Op.block m =
    (m.announced ≡ true) × (m.checked ≡ true) × AllEmpty m × ((m.stop && m.zero) ≡ false)
MaySleep _ m = Unit

abbrev pub worker_watch : (id : ℕ) → Monitor
worker_watch id = record { State = Seen; next = see id; Allows = MaySleep }

-- All places were found empty, and the announcement is as given.
abbrev pub Ready : (announced : Bool) → Seen → Type 0
Ready announced m = (m.announced ≡ announced) × AllEmpty m

-- A search that found nothing has found all places empty, and leaves the announcement.
abbrev pub Searched : (announced : Bool) → Search → Seen → Type 0
Searched announced (PopResult.empty, ss, ps) m = Ready announced m
Searched announced _ m = Unit
