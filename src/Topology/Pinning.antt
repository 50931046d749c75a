-- ===== src/Topology/Pinning.antt =====
-- `pin_current_thread` of src/topology.rs, on Linux and elsewhere. The calls into libc are parameters.
use libcortlet_upgradesched.Prelude.{
  ℕ, ◌<◌, ◌≡◌, Bool, true, Option, none, some, List, [], ◌∷◌, ◌↔◌, ◌==◌, if◌then◌else◌,
}
use libcortlet_upgradesched.Topology.{CpuInfo, logical_id}

pub record Libc : Type 1 where
  pub CpuSet : Type 0
  -- `CPU_ZERO` on a zeroed set.
  pub cpu_zero : CpuSet
  -- `CPU_SET`; `none`: the index is outside the set, and the call panics.
  pub cpu_set : ℕ → CpuSet → Option CpuSet
  -- `CPU_ISSET`
  pub cpu_isset : ℕ → CpuSet → Bool
  -- What `pthread_setaffinity_np` returns for the calling thread: 0, or the number of an error.
  pub setaffinity : CpuSet → ℕ

-- What the documentation of the sets promises, for the `size` CPUs that a set has room for
-- (`CPU_SETSIZE`).
pub record CpuSets (L : Libc) (size : ℕ) : Type 0 where
  pub only_set :
      (cpu : ℕ)
      → cpu < size
      → (set : L.CpuSet) × (L.cpu_set cpu L.cpu_zero ≡ some set)
        × ((other : ℕ) → (L.cpu_isset other set ≡ true) ↔ (other ≡ cpu))

-- The `io::Result` of a pinning, or a panic.
pub data Pinned : Type 0 where
  pinned panicked unsupported : Pinned
  os_error : (number : ℕ) → Pinned

-- The result, with the masks that were asked for: the arguments of the calls of
-- `pthread_setaffinity_np` for the calling thread, in order.
unfoldable pub pin_current_thread : (L : Libc) → CpuInfo → List L.CpuSet × Pinned
unfolding logical_id
pin_current_thread L cpu = elim (L.cpu_set (logical_id cpu) L.cpu_zero) [
  | none ↦ ([], Pinned.panicked)
  | some set ↦
      let result = L.setaffinity set in
      (set ∷ [], if result == 0 then Pinned.pinned else Pinned.os_error result)
]

-- The version for the other systems.
unfoldable pub pin_elsewhere : CpuInfo → Pinned
pin_elsewhere _ = Pinned.unsupported
