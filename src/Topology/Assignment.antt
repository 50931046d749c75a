-- ===== src/Topology/Assignment.antt =====
-- Which CPU `cpu_for_worker` of src/topology.rs gives to a worker.
use libcortlet_upgradesched.Prelude.{
  ℕ, zero, suc, ◌+◌, ◌<◌, ◌%◌, ◌≡◌, ◌≢◌, refl, arith, Option, some, List, map, ap, length,
  get_elem?, range,
}
use native.Mathlib.Nat.{mod-lt}
use libcortlet_upgradesched.Topology.{CpuInfo, parallelism, detect, cpu_for_worker}

cpus_from : (lo n : ℕ) → List CpuInfo
cpus_from lo n = map (λ id. record { logical_id = id }) (range lo n)

length-cpus_from : (lo n : ℕ) → length (cpus_from lo n) ≡ n
unfolding cpus_from
length-cpus_from lo zero = refl
length-cpus_from lo (suc n) = ap suc (length-cpus_from (lo + 1) n)

get_elem?-cpus_from :
    (lo n i : ℕ) → i < n → get_elem? (cpus_from lo n) i ≡ some (record { logical_id = lo + i })
unfolding cpus_from
get_elem?-cpus_from lo zero i h = absurd (omega arith)
get_elem?-cpus_from lo (suc n) zero h = ground arith
get_elem?-cpus_from lo (suc n) (suc i) h = ground (arith, get_elem?-cpus_from (lo + 1) n i)

pub parallelism-pos : (available : Option ℕ) → available ≢ some 0 → 0 < parallelism available
unfolding parallelism
parallelism-pos available h = ground arith

cpu_for_worker-cpus_from :
    (n worker_id : ℕ)
    → 0 < n
    → cpu_for_worker (record { cpus = cpus_from 0 n }) worker_id
      ≡ some (record { logical_id = worker_id % n })
unfolding cpu_for_worker
cpu_for_worker-cpus_from n worker_id h =
    rw (length-cpus_from 0 n)
      (ground (arith, get_elem?-cpus_from 0 n (worker_id % n), mod-lt worker_id {m = n}))

-- Where the operating system's answer, if it gives one, is not zero: each worker gets one of the
-- detected CPUs, and consecutive workers go around them in order, worker `w` to CPU `w` modulo
-- their number.
pub cpu_for_worker-detect :
    (available : Option ℕ) (worker_id : ℕ)
    → available ≢ some 0
    → cpu_for_worker (detect available) worker_id
      ≡ some (record { logical_id = worker_id % parallelism available })
unfolding detect cpus_from
cpu_for_worker-detect available worker_id h =
    cpu_for_worker-cpus_from (parallelism available) worker_id (parallelism-pos available h)
