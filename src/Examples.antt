-- ===== src/Examples.antt =====
-- Concrete runs and calls, on the platform of Platform/Reference.antt: instances of the theorems where
-- their hypotheses hold, and tests of the definitions.
pub mod Runs
pub mod Wakeups
pub mod Moments
pub mod Clients
pub mod Parts
pub mod Search
pub mod Interface
use libcortlet_upgradesched.Prelude.{ℕ, List, replicate}
use libcortlet_upgradesched.System.{Turn}

-- Some turns of one thread, in which no steal answers `Retry` and no exchange fails for no reason.
abbrev pub turns_of : (thread count : ℕ) → List Turn
turns_of thread count = replicate count (record { thread = thread; chance = 1 })
