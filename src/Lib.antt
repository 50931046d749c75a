-- ===== src/Lib.antt =====
-- libcortlet-upgradesched: a task scheduler for Linux with a C interface, written in Rust
-- (src/*.rs).
--
-- Producers submit tasks, which are C functions with an argument, a priority (LOW, NORMAL, HIGH)
-- and perhaps a task group. A submission reserves a slot in the count of tasks in flight, joins the
-- group, pushes the task into the injector of its priority and wakes a worker. Workers take tasks
-- from their own deque, from the injectors in the order of the priorities, and from each other;
-- they execute them, count down, and sleep on a condition variable when they find nothing. Callers
-- wait until the count of the scheduler, or of a group, is zero. A shutdown refuses new tasks and
-- lets the workers drain the queues and stop.
--
-- How the model works. Each function of the source is a program (Machine.antt): a tree of atomic
-- accesses, each of which is one atomic operation of the source on WorkerShared, on its queues, on
-- its counters or on a TaskGroup. Machine/Store.antt is the shared state and Machine/Perform.antt
-- what an access does to it. System.antt runs any number of threads, interleaved at every access by
-- a list of turns, so a statement on all lists of turns is a statement on all interleavings.
-- Machine/Alone.antt runs one program undisturbed, Machine/Log.antt lists the accesses that it
-- makes, and Machine/Monitor.antt states what holds on every path of a program for all answers that
-- other threads may cause.
--
-- Which file models which part of the source:
--   * Task.antt, Queue.antt: src/queue.rs (Task, PriorityState, QueueSystem with pop_for_worker).
--   * Steal.antt: src/steal.rs. Stats.antt: src/stats.rs. Group.antt: src/group.rs.
--   * Worker.antt: src/worker.rs. One function for each part of the loop of worker_main; a guard
--     that the source drops at the end of a scope is an unlock at that place.
--   * Scheduler.antt: submission, waiting, shutdown and accessors of src/scheduler.rs.
--     Startup.antt: its construction and destruction. Startup/Info.antt: its accessors and what
--     Debug and Display print. Startup/Threads.antt: the closure of a worker thread.
--   * Topology.antt, Topology/Pinning.antt: src/topology.rs.
--   * Ffi.antt, Ffi/Submit.antt, Ffi/Info.antt: src/ffi.rs.
--   * Platform.antt: the crates crossbeam_deque and parking_lot, which are parameters, with the
--     laws that their documentation promises. The calls into libc are a parameter of
--     Topology/Pinning.antt. Platform/Reference.antt is a platform on which all laws hold.
-- The proofs: Ownership.antt and its children say who holds a slot and a membership of a group, and
-- that every function takes care of them; Effects.antt and its children say what one access does to
-- counts and queues; the children of System.antt put them together. Conduct.antt and its children
-- say how a thread treats sleep_lock, the count of sleeping workers and the counters. Spec.antt is
-- the abstract scheduler, a bag of jobs, which System/Refinement.antt compares with the runs.
-- System/Client.antt is a client that submits and waits, and System/Scope.antt says which tasks a
-- wait covers. Examples.antt has concrete runs and instances.
--
-- Bounds. Counters are words of 64 bits and wrap, as atomic additions do; queue_capacity is below
-- 2^64. A loop of the source runs on rounds, and a program whose rounds are used up stalls where it
-- is. The statements on interleavings hold for every number of rounds, so also for the unbounded
-- loop up to any moment. The argument chance of an access is what the platform decides by itself: a
-- spurious failure of the weak compare-exchange, an answer Retry, the size of a batch, the thread
-- that a notification wakes.
--
-- Not modelled: memory orderings (accesses are sequentially consistent), allocation and the
-- validity of pointers, joining as an access (which threads are joined is kept), the layout of the
-- text that Debug prints, and Default implementations, which only call a constructor. A panic ends
-- the process, as Cargo.toml says, and is modelled for the pinning of a thread only. A task's
-- function is opaque: a submission that it makes is one that another thread makes at that moment.
-- The whole batch that a steal moves is taken in one access.
pub mod Examples
pub mod Prelude
pub mod Task
pub mod Stats
pub mod Platform
pub mod Machine
pub mod Steal
pub mod Group
pub mod Queue
pub mod Worker
pub mod Scheduler
pub mod Ownership
pub mod Effects
pub mod Conduct
pub mod Spec
pub mod System
pub mod Topology
pub mod Startup
pub mod Ffi
