-- ===== src/Topology.antt =====
-- src/topology.rs. What `available_parallelism` answers is an argument.
pub mod Assignment
pub mod Pinning
use libcortlet_upgradesched.Prelude.{
  ℕ, ◌%◌, Option, none, some, List, map, length, get_elem?, range, ◌==◌, if◌then◌else◌,
}

pub record CpuInfo : Type 0 where
  pub logical_id : ℕ

pub record Topology : Type 0 where
  pub cpus : List CpuInfo

unfoldable pub logical_id : CpuInfo → ℕ
logical_id cpu = cpu.logical_id

unfoldable pub cpus : Topology → List CpuInfo
cpus topology = topology.cpus

-- `unwrap_or(1)` on the answer of the operating system.
unfoldable pub parallelism : Option ℕ → ℕ
parallelism none = 1
parallelism (some count) = count

unfoldable pub detect : Option ℕ → Topology
unfolding parallelism
detect available = record {
  cpus = map (λ id. record { logical_id = id }) (range 0 (parallelism available));
}

unfoldable pub cpu_count : Topology → ℕ
cpu_count topology = length topology.cpus

-- The index is below the length wherever the list is not empty.
unfoldable pub cpu_for_worker : Topology → (worker_id : ℕ) → Option CpuInfo
cpu_for_worker topology worker_id =
    if length topology.cpus == 0
    then none
    else get_elem? topology.cpus (worker_id % length topology.cpus)
