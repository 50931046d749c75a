-- ===== src/Startup/Threads.antt =====
-- The closure that `create` of src/scheduler.rs runs on each worker thread.
use native.Mathlib.Nat.{mod-lt}
use libcortlet_upgradesched.Prelude.{
  ℕ, ◌≤◌, ◌<◌, ◌%◌, ◌≡◌, ◌≢◌, refl, arith, Bool, true, false, Option, none, some, List, [], ◌∷◌,
  ◌↔◌, ap, ◌∙◌, ◌==◌, if◌then◌else◌,
}
use libcortlet_upgradesched.Machine.{Prog}
use libcortlet_upgradesched.Worker.{worker_main}
use libcortlet_upgradesched.Topology.{CpuInfo, logical_id, detect, parallelism, cpu_for_worker}
use libcortlet_upgradesched.Topology.Assignment.{parallelism-pos, cpu_for_worker-detect}
use libcortlet_upgradesched.Topology.Pinning.{Libc, CpuSets, Pinned, pin_current_thread}
use libcortlet_upgradesched.Startup.{thread_of, assigned_cpu}

-- What becomes of a thread: it asks for masks and then runs a program; or a panic ends the process, as
-- the profiles of Cargo.toml say (`panic = "abort"`).
pub data Thread (L : Libc) : Type 0 where
  aborted : Thread L
  runs : (asked : List L.CpuSet) → Prog (Unit {0}) → Thread L

-- `let _ = pin_current_thread(cpu);`: a panic is not ignored, everything else is.
unfoldable pub unless_panicked : {L : Libc} → List L.CpuSet × Pinned → Prog (Unit {0}) → Thread L
unless_panicked (asked, Pinned.panicked) next = aborted
unless_panicked (asked, _) next = runs asked next

unfoldable pub worker_thread :
    (L : Libc) → (assigned_cpu : Option CpuInfo) → (rounds worker_id worker_count : ℕ) → Thread L
unfolding unless_panicked pin_current_thread worker_main
worker_thread L none rounds worker_id worker_count =
    runs [] (worker_main rounds worker_id worker_count)
worker_thread L (some cpu) rounds worker_id worker_count =
    unless_panicked (pin_current_thread L cpu) (worker_main rounds worker_id worker_count)

unless_panicked-runs :
    {L : Libc} (b : Bool) (number : ℕ) (asked : List L.CpuSet) (next : Prog (Unit {0}))
    → unless_panicked {L = L} (asked, if b then Pinned.pinned else Pinned.os_error number) next
      ≡ runs asked next
unfolding unless_panicked
unless_panicked-runs true number asked next = refl
unless_panicked-runs false number asked next = refl

pin-asked :
    (L : Libc) (cpu : CpuInfo) (set : L.CpuSet)
    → L.cpu_set (logical_id cpu) L.cpu_zero ≡ some set
    → pin_current_thread L cpu ≡ (
      set ∷ [],
      if L.setaffinity set == 0 then Pinned.pinned else Pinned.os_error (L.setaffinity set),
    )
unfolding pin_current_thread
pin-asked L cpu set e = rw (e, pin_current_thread) refl

-- A thread with a CPU that a set has room for asks for the mask of that CPU alone, once.
pinned-runs :
    (L : Libc) (cpu : CpuInfo) (rounds worker_id worker_count : ℕ) (set : L.CpuSet)
    → L.cpu_set (logical_id cpu) L.cpu_zero ≡ some set
    → worker_thread L (some cpu) rounds worker_id worker_count
      ≡ runs (set ∷ []) (worker_main rounds worker_id worker_count)
unfolding worker_thread
pinned-runs L cpu rounds worker_id worker_count set e =
    ap (λ r. unless_panicked r (worker_main rounds worker_id worker_count)) (pin-asked L cpu set e)
    ∙ unless_panicked-runs (L.setaffinity set == 0) (L.setaffinity set) (set ∷ []) _

-- A mask with exactly one CPU.
abbrev pub Only : (L : Libc) → ℕ → L.CpuSet → Type 0
Only L cpu set = (other : ℕ) → (L.cpu_isset other set ≡ true) ↔ (other ≡ cpu)

-- With the CPU sets of libc as documented, where the operating system's answer is not zero and the
-- detected CPUs are no more than a set has room for: the thread that `create` starts for worker `w`
-- runs `worker_main` of `w`, whatever the pinning returns. If workers are to be pinned, it has asked
-- before for one mask and no other, with CPU `w` modulo the number of CPUs and no other CPU;
-- otherwise it has asked for none.
pub worker_thread-worker_main :
    (L : Libc) (size : ℕ) (spawns : ℕ → Bool) (pin_workers : Bool) (available : Option ℕ)
    (rounds worker_id worker_count : ℕ)
    → CpuSets L size
    → available ≢ some 0
    → parallelism available ≤ size
    → (set : L.CpuSet) × Only L (worker_id % parallelism available) set
      × (worker_thread L
            (thread_of spawns (detect available) pin_workers worker_id).assigned_cpu
            rounds
            worker_id
            worker_count
          ≡ runs (if pin_workers then set ∷ [] else []) (worker_main rounds worker_id worker_count))
unfolding thread_of assigned_cpu worker_thread logical_id
worker_thread-worker_main L size spawns pin_workers available rounds worker_id worker_count laws
      answered fits =
    let (set, e, only) = laws.only_set (worker_id % parallelism available) below in
    (set, only, runs_with set e pin_workers)
  where
    below : worker_id % parallelism available < size
    below = omega (
      arith,
      mod-lt worker_id {m = parallelism available} (parallelism-pos available answered),
      fits,
    )

    runs_with :
        (set : L.CpuSet)
        → L.cpu_set (worker_id % parallelism available) L.cpu_zero ≡ some set
        → (pin : Bool)
        → worker_thread L
            (if pin then cpu_for_worker (detect available) worker_id else none)
            rounds
            worker_id
            worker_count
          ≡ runs (if pin then set ∷ [] else []) (worker_main rounds worker_id worker_count)
    runs_with set e false = refl
    runs_with set e true =
        rw (cpu_for_worker-detect available worker_id answered)
          (pinned-runs L _ rounds worker_id worker_count set e)
