-- ===== src/Startup.antt =====
-- Construction and destruction in src/scheduler.rs. Whether the operating system gives a thread to
-- worker `i` is `spawns i`. Joining a thread, which waits for its end, is no access to the shared
-- state; the model keeps which threads are joined.
pub mod Lifecycle
pub mod Lifetime
pub mod Info
pub mod Threads
use libcortlet_upgradesched.Prelude.{
  ℕ, ◌+◌, zero, suc, Bool, true, false, Option, none, some, List, [], ◌∷◌, ◌++◌, leb, ◌==◌,
  if◌then◌else◌, range,
}
use libcortlet_upgradesched.Machine.{Prog, ret, ◌>>=◌, ◌>>◌}
use libcortlet_upgradesched.Worker.{begin_shutdown}
use libcortlet_upgradesched.Scheduler.{shutdown}
use libcortlet_upgradesched.Topology.{CpuInfo, Topology, detect, cpu_count, cpu_for_worker}

pub record SchedulerConfig : Type 0 where
  pub worker_count : ℕ
  pub pin_workers : Bool
  pub queue_capacity : ℕ

unfoldable pub automatic : SchedulerConfig
automatic = record { worker_count = 0; pin_workers = true; queue_capacity = 0 }

-- A worker thread, with the CPU that it was given.
pub record WorkerThread : Type 0 where
  pub worker_id : ℕ
  pub assigned_cpu : Option CpuInfo

pub record Scheduler : Type 0 where
  pub workers : List WorkerThread
  pub worker_count : ℕ
  pub topology : Topology
  pub pin_workers : Bool
  pub queue_capacity : ℕ

-- The error is `WorkerCreationFailed`, behind the join of the workers started before.
pub data Startup : Type 0 where
  started : Scheduler → Startup
  creation_failed : (joined : List WorkerThread) → Startup

module _ (spawns : ℕ → Bool) (topology : Topology) (pin_workers : Bool) where
  unfoldable pub assigned_cpu : (worker_id : ℕ) → Option CpuInfo
  assigned_cpu worker_id = if pin_workers then cpu_for_worker topology worker_id else none

  unfoldable pub thread_of : (worker_id : ℕ) → WorkerThread
  unfolding assigned_cpu
  thread_of worker_id = record { worker_id = worker_id; assigned_cpu = assigned_cpu worker_id }

  -- The loop over the local queues; `finish` is what stands below it.
  unfoldable pub spawn_each :
      List ℕ → List WorkerThread → (List WorkerThread → Startup) → Prog Startup
  unfolding thread_of
  spawn_each [] workers finish = ret (finish workers)
  spawn_each (id ∷ ids) workers finish =
      let next = spawn_each ids (workers ++ thread_of id ∷ []) finish in
      if spawns id then next else (do begin_shutdown; ret (creation_failed workers))

  unfoldable pub create : (worker_count queue_capacity : ℕ) → Prog Startup
  unfolding spawn_each
  create worker_count queue_capacity =
      let count = if leb 1 worker_count then worker_count else 1 in
      spawn_each (range 0 count) [] λ workers. started (record {
        workers = workers;
        worker_count = count;
        topology = topology;
        pin_workers = pin_workers;
        queue_capacity = queue_capacity;
      })

unfoldable pub configured_count : Topology → SchedulerConfig → ℕ
configured_count topology config =
    if config.worker_count == 0
    then (if leb 1 (cpu_count topology) then cpu_count topology else 1)
    else config.worker_count

unfoldable pub from_config : (ℕ → Bool) → (available : Option ℕ) → SchedulerConfig → Prog Startup
unfolding create configured_count
from_config spawns available config =
    create spawns (detect available) config.pin_workers (configured_count (detect available) config)
      config.queue_capacity

unfoldable pub new : (ℕ → Bool) → (available : Option ℕ) → Prog Startup
unfolding from_config automatic
new spawns available = from_config spawns available automatic

unfoldable pub with_worker_count :
    (ℕ → Bool) → (available : Option ℕ) → (worker_count : ℕ) → Prog Startup
unfolding from_config
with_worker_count spawns available worker_count = from_config spawns available (record {
  worker_count = if leb 1 worker_count then worker_count else 1;
  pin_workers = true;
  queue_capacity = 0;
})

-- `while let Some(worker) = self.workers.pop()`: the order in which the workers are joined.
unfoldable pub join_workers : List WorkerThread → List WorkerThread
join_workers [] = []
join_workers (w ∷ ws) = join_workers ws ++ w ∷ []

-- `Drop`: begin the shutdown, then join.
unfoldable pub drop : Scheduler → Prog (List WorkerThread)
unfolding shutdown join_workers
drop s = do shutdown; ret (join_workers s.workers)
