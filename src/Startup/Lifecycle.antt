-- ===== src/Startup/Lifecycle.antt =====
-- What becomes of the worker threads in `create`, `join_workers` and `drop` of src/scheduler.rs.
use libcortlet_upgradesched.Prelude.{
  ℕ, ◌≡◌, Bool, true, false, List, [], ◌∷◌, ◌++◌, map, sym, ap, ◌∙◌, range, leb, if◌then◌else◌,
}
use mathlib.Core.List.{append_assoc, append-nil}
use libcortlet_upgradesched.Machine.{Prog, ret, ◌>>◌}
use libcortlet_upgradesched.Worker.{begin_shutdown}
use libcortlet_upgradesched.Topology.{Topology}
use libcortlet_upgradesched.Startup.{
  WorkerThread, Startup, started, creation_failed, thread_of, spawn_each, create,
}

-- The numbers in front of the first at which the operating system gives no thread.
abbrev pub spawned : (ℕ → Bool) → List ℕ → List ℕ
spawned spawns [] = []
spawned spawns (id ∷ ids) = if spawns id then id ∷ spawned spawns ids else []

-- Whether all threads were given.
abbrev pub all_spawn : (ℕ → Bool) → List ℕ → Bool
all_spawn spawns [] = true
all_spawn spawns (id ∷ ids) = if spawns id then all_spawn spawns ids else false

-- What a startup ends with: all workers run; or shutdown begins, and those that run are joined.
abbrev pub settle : Bool → List WorkerThread → (List WorkerThread → Startup) → Prog Startup
settle true workers finish = ret (finish workers)
settle false workers finish = do begin_shutdown; ret (creation_failed workers)

module _ (spawns : ℕ → Bool) (topology : Topology) (pin_workers : Bool) where
  threads_of : List ℕ → List WorkerThread
  threads_of ids = map (thread_of spawns topology pin_workers) ids

  spawn_each-settle :
      (ids : List ℕ) (workers : List WorkerThread) (finish : List WorkerThread → Startup)
      → spawn_each spawns topology pin_workers ids workers finish
        ≡ settle (all_spawn spawns ids) (workers ++ threads_of (spawned spawns ids)) finish
  unfolding spawn_each threads_of
  spawn_each-settle [] workers finish = ap (λ l. ret (finish l)) (sym (append-nil workers))
  spawn_each-settle (id ∷ ids) workers finish =
      elim (spawns id)
        as (λ b.
          (if b
            then spawn_each spawns topology pin_workers ids (workers ++ thread id ∷ []) finish
            else begin_shutdown >> ret (creation_failed workers))
          ≡ settle (if b then all_spawn spawns ids else false)
              (workers ++ threads_of (if b then id ∷ spawned spawns ids else [])) finish) [
                | true ↦
                    spawn_each-settle ids (workers ++ thread id ∷ []) finish
                    ∙ ap (λ l. settle (all_spawn spawns ids) l finish)
                        (append_assoc workers (thread id ∷ []) (threads_of (spawned spawns ids)))
                | false ↦
                    ap (λ l. begin_shutdown >> ret (creation_failed l)) (sym (append-nil workers))
              ]
    where
      thread : ℕ → WorkerThread
      thread = thread_of spawns topology pin_workers

-- `create` starts workers 0, 1, … in order, at least one. Where the operating system gives all the
-- threads, they are the workers of the scheduler; at the first that it does not give, shutdown
-- begins, and exactly the workers started before are joined and the scheduler is not made.
pub create-settle :
    (spawns : ℕ → Bool) (topology : Topology) (pin_workers : Bool) (worker_count queue_capacity : ℕ)
    → let count = if leb 1 worker_count then worker_count else 1 in
      create spawns topology pin_workers worker_count queue_capacity
      ≡ settle
          (all_spawn spawns (range 0 count))
          (map (thread_of spawns topology pin_workers) (spawned spawns (range 0 count)))
          (λ workers. started (record {
            workers = workers;
            worker_count = count;
            topology = topology;
            pin_workers = pin_workers;
            queue_capacity = queue_capacity;
          }))
unfolding create threads_of
create-settle spawns topology pin_workers worker_count queue_capacity =
    spawn_each-settle spawns topology pin_workers
      (range 0 (if leb 1 worker_count then worker_count else 1)) [] _
