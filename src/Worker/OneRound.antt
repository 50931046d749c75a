-- ===== src/Worker/OneRound.antt =====
-- One round of a worker of src/worker.rs, undisturbed: what it leaves, and what it executes.
use libcortlet_upgradesched.Prelude.{
  sum_by, sum_by-append, [], ◌++◌, ℕ, ◌+◌, List, ◌≡◌, refl, ◌∙◌, ap, subst, arith, true, Option,
  none, some, inr, get_elem?,
}
use libcortlet_upgradesched.Task.{Task, PopResult, PriorityState}
use libcortlet_upgradesched.Steal.{StealState}
use libcortlet_upgradesched.Machine.Log.{log, log-after, log-light}
use libcortlet_upgradesched.Queue.Calm.{NoCall, calls_nothing, Anything, pop_for_worker-IsCalm}
use libcortlet_upgradesched.System.History.{weight, executed}
use libcortlet_upgradesched.Platform.{Platform}
use libcortlet_upgradesched.Machine.{Op, Prog, ret}
use libcortlet_upgradesched.Machine.Store.{TaskGroup, WorkerShared, Store, injector}
use libcortlet_upgradesched.Machine.Perform.{perform}
use libcortlet_upgradesched.Machine.Alone.{alone, alone_after}
use libcortlet_upgradesched.Queue.{Search, pop_for_worker}
use libcortlet_upgradesched.Queue.View.{View, lane_of}
use libcortlet_upgradesched.Queue.Peers.{reachable}
use libcortlet_upgradesched.Queue.Remaining.{SeesAll}
use libcortlet_upgradesched.Worker.{
  Worker, Round, again, pop_then, stop_or, should_stop, locked_look, worker_round, execute_task,
}
use libcortlet_upgradesched.Worker.Completion.{count_down, view, leave, alone-execute_task}

pub sum_zero : (a b : ℕ) → a ≡ 0 → b ≡ 0 → a + b ≡ 0
sum_zero a b e f = omega arith

NoCall-executed : (weigh : ℕ → ℕ → ℕ) (op : Op) (m : Unit {0}) → NoCall op → executed weigh op ≡ 0
NoCall-executed weigh (Op.execute t) m h = absurd h
NoCall-executed weigh _ m h = ground arith

module _ (P : Platform) (local thread chance : ℕ) where
  -- What is seen depends on the queues only.
  pub SeesAll-queues :
      (v : View) (peers : ℕ → List Task) (s s' : Store P)
      → s.shared.queues ≡ s'.shared.queues
      → SeesAll P local v peers s
      → SeesAll P local v peers s'
  SeesAll-queues v peers s s' e h = record {
    sees = record {
      lanes = λ lane.
          subst (λ q. P.injected (injector P lane q) ≡ lane_of v lane) e (h.sees.lanes lane);
      deque = h.sees.deque;
      found = subst (λ q. get_elem? q.stealers local ≡ some h.sees.deque) e h.sees.found;
      owned = h.sees.owned;
    };
    sees_peers = record {
      reaches = λ worker other.
          subst (λ q. reachable P (get_elem? q.stealers worker) ≡ peers worker) e
            (h.sees_peers.reaches worker other);
    };
    apart = h.apart;
  }

  viewed :
      (address : ℕ) (r : Option (Unit {0} × Store P)) (shared : WorkerShared P)
      (group : TaskGroup P)
      → view P address r ≡ some (shared, group)
      → (s' : Store P) × (r ≡ some (tt, s')) × (s'.shared ≡ shared)
  viewed address none shared group e = absurd (cc)
  viewed address (some (_, s')) shared group e = (s', refl, cc)

  execute_task-ends :
      (t : Task) (s : Store P)
      → (s' : Store P) × (alone P thread chance (execute_task t) s ≡ some (tt, s'))
        × (s'.shared ≡ count_down P s)
  execute_task-ends t s =
      viewed 0 (alone P thread chance (execute_task t) s) (count_down P s)
        (leave P t.group s.groups 0) (alone-execute_task P thread chance 0 t s)

  stop_or-ends :
      (next : Prog Round) (s : Store P)
      → s.shared.shutdown ≡ true
      → s.shared.tasks_in_flight ≡ 0
      → alone P thread chance (stop_or (ret tt) next) s ≡ some (inr tt, s)
  unfolding stop_or should_stop alone perform
  stop_or-ends next s stopping z = ground arith

  abbrev pub searching : Worker → Prog Search
  searching w = pop_for_worker w.steal_state local w.priority_state

  search-executes_none :
      (weigh : ℕ → ℕ → ℕ) (w : Worker) (s : Store P)
      → sum_by (executed weigh) (log P thread chance (searching w) s) ≡ 0
  search-executes_none weigh w s =
      log-light P thread chance calls_nothing (executed weigh) (NoCall-executed weigh) Anything tt
        (searching w) s (pop_for_worker-IsCalm w.steal_state local w.priority_state)

  execute_task-executes :
      (weigh : ℕ → ℕ → ℕ) (t : Task) (s : Store P)
      → sum_by (executed weigh) (log P thread chance (execute_task t) s) ≡ weight weigh t
  unfolding log execute_task perform
  execute_task-executes weigh t s = ground arith

  log-sum :
      (weigh : ℕ → ℕ → ℕ) (search execution : List Op) (t : Task)
      → sum_by (executed weigh) search ≡ 0
      → sum_by (executed weigh) execution ≡ weight weigh t
      → sum_by (executed weigh) (search ++ (execution ++ [])) ≡ weight weigh t
  log-sum weigh search execution t none_there one_there = omega (
    arith,
    sum_by-append (executed weigh) search (execution ++ []),
    sum_by-append (executed weigh) execution [],
  )

  -- A round that finds a task executes it and no other.
  pub round-task :
      (w : Worker) (s s' : Store P) (t : Task) (ss : StealState) (ps : PriorityState)
      → alone P thread chance (pop_for_worker w.steal_state local w.priority_state) s
        ≡ some ((PopResult.task t, ss, ps), s')
      → (s'' : Store P) × (alone P thread chance (worker_round local w) s ≡ some (again ss ps, s''))
        × (s''.shared ≡ count_down P s')
        × ((weigh : ℕ → ℕ → ℕ)
            → sum_by (executed weigh) (log P thread chance (worker_round local w) s)
              ≡ weight weigh t)
  unfolding worker_round pop_then alone log
  round-task w s s' t ss ps e =
      let (s'', ends, shared) = execute_task-ends t s' in
      (
        s'',
        alone_after P thread chance (pop_for_worker w.steal_state local w.priority_state) _ s s' _ e
            ∙ alone_after P thread chance (execute_task t) (λ _. ret (again ss ps)) s' s'' tt ends,
        shared,
        λ weigh.
            ap (sum_by (executed weigh)) (
              log-after P thread chance (searching w) _ s s' _ e
              ∙ ap (λ l. log P thread chance (searching w) s ++ l)
                  (log-after P thread chance (execute_task t) (λ _. ret (again ss ps)) s' s'' tt
                    ends))
            ∙ log-sum weigh (log P thread chance (searching w) s)
                (log P thread chance (execute_task t) s') t (search-executes_none weigh w s)
                (execute_task-executes weigh t s'),
      )

  stop_or-executes_none :
      (weigh : ℕ → ℕ → ℕ) (next : Prog Round) (s : Store P)
      → s.shared.shutdown ≡ true
      → s.shared.tasks_in_flight ≡ 0
      → sum_by (executed weigh) (log P thread chance (stop_or (ret tt) next) s) ≡ 0
  unfolding stop_or should_stop log perform
  stop_or-executes_none weigh next s stopping z = ground arith

  -- A round that finds none ends the loop, behind a shutdown with nothing in flight.
  pub round-empty :
      (w : Worker) (s s' : Store P) (ss : StealState) (ps : PriorityState)
      → alone P thread chance (pop_for_worker w.steal_state local w.priority_state) s
        ≡ some ((PopResult.empty, ss, ps), s')
      → s'.shared.shutdown ≡ true
      → s'.shared.tasks_in_flight ≡ 0
      → (alone P thread chance (worker_round local w) s ≡ some (inr tt, s'))
        × ((weigh : ℕ → ℕ → ℕ)
            → sum_by (executed weigh) (log P thread chance (worker_round local w) s) ≡ 0)
  unfolding worker_round pop_then
  round-empty w s s' ss ps e stopping z = (
    alone_after P thread chance (searching w) _ s s' _ e
        ∙ stop_or-ends (locked_look local ss ps) s' stopping z,
    λ weigh.
        ap (sum_by (executed weigh)) (log-after P thread chance (searching w) _ s s' _ e)
        ∙ sum_by-append (executed weigh) (log P thread chance (searching w) s) _
        ∙ sum_zero _ _ (search-executes_none weigh w s)
            (stop_or-executes_none weigh (locked_look local ss ps) s' stopping z),
  )
