-- ===== src/Machine/Store.antt =====
-- The shared state: `QueueSystem` (src/queue.rs), `WorkerShared` (src/worker.rs), and the
-- `TaskGroup` objects (src/group.rs) by their addresses.
use libcortlet_upgradesched.Prelude.{ℕ, Bool, false, List, length, replicate, leb, if◌then◌else◌}
use libcortlet_upgradesched.Task.{TaskPriority}
use libcortlet_upgradesched.Stats.{SchedulerStats, stats_new}
use libcortlet_upgradesched.Platform.{Platform}

pub record TaskGroup (P : Platform) : Type 0 where
  pub tasks_in_flight : ℕ
  pub closed : Bool
  pub wait_lock : P.Mutex
  pub wake : P.Condvar

-- A stealer is a handle of a worker's deque: entry `i` of `stealers` is the deque that worker `i`
-- owns as its local queue.
pub record QueueSystem (P : Platform) : Type 0 where
  pub high : P.Injector
  pub normal : P.Injector
  pub low : P.Injector
  pub stealers : List P.Deque

pub record WorkerShared (P : Platform) : Type 0 where
  pub queues : QueueSystem P
  pub tasks_in_flight : ℕ
  pub sleeping_workers : ℕ
  pub shutdown : Bool
  pub sleep_lock : P.Mutex
  pub wake : P.Condvar
  pub stats : SchedulerStats

pub record Store (P : Platform) : Type 0 where
  pub shared : WorkerShared P
  pub groups : ℕ → TaskGroup P

module _ (P : Platform) where
  unfoldable pub group_new : TaskGroup P
  group_new = record {
    tasks_in_flight = 0;
    closed = false;
    wait_lock = P.mutex_new;
    wake = P.condvar_new;
  }

  unfoldable pub queues_new : (worker_count : ℕ) → QueueSystem P
  queues_new worker_count = record {
    high = P.injector_new;
    normal = P.injector_new;
    low = P.injector_new;
    stealers = replicate (if leb 1 worker_count then worker_count else 1) P.new_fifo;
  }

  unfoldable pub shared_new : QueueSystem P → WorkerShared P
  unfolding stats_new
  shared_new queues = record {
    queues = queues;
    tasks_in_flight = 0;
    sleeping_workers = 0;
    shutdown = false;
    sleep_lock = P.mutex_new;
    wake = P.condvar_new;
    stats = stats_new;
  }

  unfoldable pub worker_count : QueueSystem P → ℕ
  worker_count queues = length queues.stealers

  -- The injector of a priority, and the same queues with another one in its place.
  abbrev pub injector : TaskPriority → QueueSystem P → P.Injector
  injector TaskPriority.high q = q.high
  injector TaskPriority.normal q = q.normal
  injector TaskPriority.low q = q.low

  abbrev pub set_injector : TaskPriority → P.Injector → QueueSystem P → QueueSystem P
  set_injector TaskPriority.high inj q = record q { high = inj }
  set_injector TaskPriority.normal inj q = record q { normal = inj }
  set_injector TaskPriority.low inj q = record q { low = inj }
