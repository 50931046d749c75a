-- ===== src/Ffi.antt =====
-- src/ffi.rs: the C interface. A pointer that may be null is an `Option`; what a scheduler's pointer
-- leads to besides the shared state are the fixed fields of `Scheduler`. Allocation does not fail.
pub mod Submit
pub mod Agreement
pub mod Codes
pub mod Queries
pub mod Info
use libcortlet_upgradesched.Prelude.{ℕ, zero, suc, Option, none, some}
use libcortlet_upgradesched.Task.{TaskPriority}
use libcortlet_upgradesched.Scheduler.{SchedulerError, Result}

pub data CortletResult : Type 0 where
  ok invalid_argument allocation_failed scheduler_stopped queue_full internal_error : CortletResult

-- The numbers of `#[repr(C)]`.
unfoldable pub code : CortletResult → ℕ
code CortletResult.ok = 0
code CortletResult.invalid_argument = 1
code CortletResult.allocation_failed = 2
code CortletResult.scheduler_stopped = 3
code CortletResult.queue_full = 4
code CortletResult.internal_error = 255

unfoldable pub map_scheduler_error : SchedulerError → CortletResult
map_scheduler_error SchedulerError.scheduler_stopped = CortletResult.scheduler_stopped
map_scheduler_error SchedulerError.queue_full = CortletResult.queue_full
map_scheduler_error SchedulerError.worker_creation_failed = CortletResult.internal_error
map_scheduler_error SchedulerError.internal_error = CortletResult.internal_error

-- `Ok(())` and `Err(error)` at the end of each function that returns a code.
unfoldable pub result_code : Result (Unit {0}) → CortletResult
unfolding map_scheduler_error
result_code (Result.ok _) = CortletResult.ok
result_code (Result.err e) = map_scheduler_error e

-- A C `int`; `negsuc n` is -(n + 1).
pub data ℤ : Type 0 where
  pos : ℕ → ℤ
  negsuc : ℕ → ℤ

unfoldable pub map_priority : ℤ → Option TaskPriority
map_priority (pos zero) = some TaskPriority.low
map_priority (pos (suc zero)) = some TaskPriority.normal
map_priority (pos (suc (suc zero))) = some TaskPriority.high
map_priority _ = none

unfoldable pub cortlet_version_major : ℕ
cortlet_version_major = 2

unfoldable pub cortlet_version_minor : ℕ
cortlet_version_minor = 0

unfoldable pub cortlet_version_patch : ℕ
cortlet_version_patch = 0
