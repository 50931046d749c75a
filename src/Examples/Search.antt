-- ===== src/Examples/Search.antt =====
-- Workers that find tasks with another one, and the theorems on searches there.
use libcortlet_upgradesched.Prelude.{
  ◌≡◌, true, sum_below, get_elem?, ◌≢◌, refl, arith, List, [], ◌∷◌, ℕ, zero, suc,
}
use libcortlet_upgradesched.Task.{Task, TaskPriority, fairness_due, fresh_streak}
use libcortlet_upgradesched.Steal.{steal_state_new, victims, round_robin_victims}
use libcortlet_upgradesched.Platform.Reference.{reference, reference-Crossbeam}
use libcortlet_upgradesched.Machine.Store.{Store}
use libcortlet_upgradesched.Queue.{pop_for_worker}
use libcortlet_upgradesched.Queue.View.{View, Sees}
use libcortlet_upgradesched.Queue.Peers.{reachable}
use libcortlet_upgradesched.Queue.Remaining.{SeesAll}
use libcortlet_upgradesched.Worker.{Worker}
use libcortlet_upgradesched.Worker.Drain.{Drains, worker_round-Drains}
use libcortlet_upgradesched.Queue.Stealing.{Takes, NoLostRace}
use libcortlet_upgradesched.Queue.Selection.{pop_for_worker-Takes}
use libcortlet_upgradesched.System.Calls.{store_new}
use libcortlet_upgradesched.Examples.Parts.{
  loaded, high_task, never_retry, fresh, low_task, steal_state, long_streak,
}

-- Nor does a stealer.
no_lost_race : NoLostRace reference 0 3 1
no_lost_race [] = λ e. absurd (cc)
no_lost_race (t ∷ d) = λ e. absurd (cc)

-- The injectors are empty, and the other worker has a LOW task in its deque.
abbrev lopsided : Store reference
lopsided = record fresh {
  shared = record (fresh.shared) {
    tasks_in_flight = 1;
    queues = record (fresh.shared.queues) { stealers = [] ∷ (low_task ∷ []) ∷ [] };
  };
}

lopsided-Sees : Sees reference 0 (record { high = []; normal = []; low = []; own = [] }) lopsided
unfolding store_new
lopsided-Sees = record {
  lanes = elim [ TaskPriority.high ↦ refl | TaskPriority.normal ↦ refl | TaskPriority.low ↦ refl ];
  deque = [];
  found = refl;
  owned = refl;
}

abbrev other_deque : ℕ → List Task
other_deque (suc zero) = low_task ∷ []
other_deque worker = []

other_deque_reached :
    (worker : ℕ)
    → worker ≢ 0
    → reachable reference (get_elem? ([] ∷ (low_task ∷ []) ∷ []) worker) ≡ other_deque worker
other_deque_reached zero other = absurd (other refl)
other_deque_reached (suc zero) other = refl
other_deque_reached (suc (suc worker)) other = refl

pop_for_worker-Takes_example :
    Takes reference 0 3 1 low_task (pop_for_worker steal_state 0 long_streak) lopsided
unfolding fairness_due steal_state_new victims round_robin_victims
pop_for_worker-Takes_example =
    pop_for_worker-Takes reference 0 3 1 reference-Crossbeam never_retry no_lost_race steal_state
      long_streak (record { high = []; normal = []; low = []; own = [] }) other_deque low_task
      lopsided refl (omega arith) (omega arith) lopsided-Sees
      (record { reaches = other_deque_reached }) refl

-- One HIGH and one LOW task in the injectors, and a LOW task with the other worker.
abbrev stopping : Store reference
stopping = record loaded {
  shared = record (loaded.shared) {
    shutdown = true;
    tasks_in_flight = 3;
    queues = record (loaded.shared.queues) { stealers = [] ∷ (low_task ∷ []) ∷ [] };
  };
}

abbrev stopping_view : View
stopping_view = record { high = high_task ∷ []; normal = []; low = low_task ∷ []; own = [] }

stopping-SeesAll : SeesAll reference 0 stopping_view other_deque stopping
unfolding store_new
stopping-SeesAll = record {
  sees = record {
    lanes = elim [
      | TaskPriority.high ↦ refl
      | TaskPriority.normal ↦ refl
      | TaskPriority.low ↦ refl
    ];
    deque = [];
    found = refl;
    owned = refl;
  };
  sees_peers = record { reaches = other_deque_reached };
  apart = refl;
}

abbrev first_worker : Worker
first_worker = record { steal_state = steal_state; priority_state = fresh_streak }

worker_round-Drains_example :
    Drains reference 0 3 1 2 4 first_worker stopping_view other_deque stopping
unfolding steal_state_new sum_below
worker_round-Drains_example =
    worker_round-Drains reference 0 3 1 reference-Crossbeam never_retry no_lost_race 2 (omega arith)
      (omega arith) 3 first_worker stopping_view other_deque stopping stopping-SeesAll refl refl
      (omega arith) refl (refl, refl)
