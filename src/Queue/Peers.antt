-- ===== src/Queue/Peers.antt =====
-- What a worker can steal: the tasks in the deques of the others, in the order of src/steal.rs.
use libcortlet_upgradesched.Prelude.{
  ℕ, ◌≡◌, ◌≢◌, ◌∙◌, ap, arith, Option, none, some, List, [], ◌∷◌, All, get_elem?, set,
  get_elem?-set_other, ◌≤◌, ◌<◌, ◌+◌, ◌^◌,
}
use libcortlet_upgradesched.Task.{Task, TaskPriority}
use libcortlet_upgradesched.Steal.{StealState, victims}
use libcortlet_upgradesched.Steal.Victims.{times, times-victims}
use libcortlet_upgradesched.Platform.{Platform}
use libcortlet_upgradesched.Machine.Store.{Store}
use libcortlet_upgradesched.Queue.Changed.{replaced, with_deque}

-- No victim of a worker is the worker itself.
not_among : (worker : ℕ) (l : List ℕ) → times worker l ≡ 0 → All (λ victim. victim ≢ worker) l
not_among worker [] e = tt
not_among worker (victim ∷ rest) e = (ground arith, not_among worker rest (ground arith))

pub others :
    (s : StealState)
    → s.worker_id < s.worker_count
    → s.worker_count + s.worker_count ≤ 2 ^ 64
    → All (λ victim. victim ≢ s.worker_id) (victims s).0
others s self_lt small =
    not_among s.worker_id (victims s).0 (ground (arith, times-victims s s.worker_id self_lt small))

-- What a stealer gives access to: the tasks of its deque, none where there is no such worker.
abbrev pub reachable : (P : Platform) → Option P.Deque → List Task
reachable P none = []
reachable P (some d) = P.local d

module _ (P : Platform) (local : ℕ) where
  -- The tasks in the deques of the other workers.
  pub record SeesPeers (peers : ℕ → List Task) (s : Store P) : Type 0 where
    pub reaches :
        (worker : ℕ)
        → worker ≢ local
        → reachable P (get_elem? s.shared.queues.stealers worker) ≡ peers worker

  reachable-set :
      (peers : ℕ → List Task) (s : Store P) (d : P.Deque) (worker : ℕ)
      → (h : SeesPeers peers s) → worker ≢ local
      → reachable P (get_elem? (set s.shared.queues.stealers local d) worker) ≡ peers worker
  reachable-set peers s d worker h other =
      ap (reachable P) (get_elem?-set_other s.shared.queues.stealers local worker d other)
      ∙ h.reaches worker other

  pub with_deque-SeesPeers :
      (peers : ℕ → List Task) (s : Store P) (d : P.Deque)
      → SeesPeers peers s
      → SeesPeers peers (with_deque P local s d)
  unfolding with_deque
  with_deque-SeesPeers peers s d h = record { reaches = λ worker. reachable-set peers s d worker h }

  pub replaced-SeesPeers :
      (peers : ℕ → List Task) (s : Store P) (lane : TaskPriority) (inj : P.Injector) (d : P.Deque)
      → SeesPeers peers s
      → SeesPeers peers (replaced P local s lane inj d)
  unfolding replaced
  replaced-SeesPeers peers s TaskPriority.high inj d h = record {
    reaches = λ worker. reachable-set peers s d worker h;
  }
  replaced-SeesPeers peers s TaskPriority.normal inj d h = record {
    reaches = λ worker. reachable-set peers s d worker h;
  }
  replaced-SeesPeers peers s TaskPriority.low inj d h = record {
    reaches = λ worker. reachable-set peers s d worker h;
  }
