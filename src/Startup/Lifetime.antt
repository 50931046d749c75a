-- ===== src/Startup/Lifetime.antt =====
-- A scheduler of src/scheduler.rs from its construction to its end: `create`, then `drop`.
use libcortlet_upgradesched.Prelude.{
  ℕ, ◌≡◌, refl, Bool, true, false, List, [], ◌∷◌, ◌++◌, map, sym, ap, ◌∙◌, range, leb,
  if◌then◌else◌,
}
use mathlib.Core.List.{reverse, reverse-cons}
use libcortlet_upgradesched.Machine.{Prog, ret, ◌>>=◌, ◌>>◌}
use libcortlet_upgradesched.Worker.{begin_shutdown}
use libcortlet_upgradesched.Scheduler.{shutdown}
use libcortlet_upgradesched.Topology.{Topology}
use libcortlet_upgradesched.Startup.{
  WorkerThread, Scheduler, Startup, started, creation_failed, thread_of, create, join_workers, drop,
}
use libcortlet_upgradesched.Startup.Lifecycle.{spawned, all_spawn, settle, create-settle}

-- What follows a construction: a scheduler that was made is dropped, and the threads of one that
-- was not made are joined already. The result is which threads were joined, in this order.
abbrev pub dropped : Startup → Prog (List WorkerThread)
dropped (started s) = drop s
dropped (creation_failed joined) = ret joined

join_workers-reverse : (workers : List WorkerThread) → join_workers workers ≡ reverse workers
unfolding join_workers
join_workers-reverse [] = refl
join_workers-reverse (w ∷ ws) =
    ap (λ l. l ++ w ∷ []) (join_workers-reverse ws) ∙ sym (reverse-cons w ws)

settle-dropped :
    (all : Bool) (workers : List WorkerThread) (finish : List WorkerThread → Scheduler)
    → (finish workers).workers ≡ workers
    → (settle all workers (λ l. started (finish l)) >>= dropped)
      ≡ (begin_shutdown >> ret (if all then reverse workers else workers))
unfolding drop shutdown begin_shutdown
settle-dropped true workers finish kept =
    ap (λ l. begin_shutdown >> ret l)
      (join_workers-reverse (finish workers).workers ∙ ap reverse kept)
settle-dropped false workers finish kept = refl

-- From construction to destruction, on either path of `create`: the scheduler begins the shutdown
-- once, and joins each thread that it was given once and no other, in the reverse order of their
-- start if all were given, and in the order of their start if one was not.
pub create-dropped :
    (spawns : ℕ → Bool) (topology : Topology) (pin_workers : Bool) (worker_count queue_capacity : ℕ)
    → let ids = range 0 (if leb 1 worker_count then worker_count else 1) in
      let threads = map (thread_of spawns topology pin_workers) (spawned spawns ids) in
      (create spawns topology pin_workers worker_count queue_capacity >>= dropped)
      ≡ (begin_shutdown >> ret (if all_spawn spawns ids then reverse threads else threads))
create-dropped spawns topology pin_workers worker_count queue_capacity =
    ap (λ p. p >>= dropped) (create-settle spawns topology pin_workers worker_count queue_capacity)
    ∙ settle-dropped (all_spawn spawns _) _ _ refl
