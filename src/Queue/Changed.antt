-- ===== src/Queue/Changed.antt =====
-- The shared state behind an access of src/queue.rs to an injector or to a deque.
use libcortlet_upgradesched.Prelude.{
  ℕ, ◌≡◌, refl, ◌∙◌, subst, some, arith, get_elem?, set, get_elem?-set_self,
}
use libcortlet_upgradesched.Task.{TaskPriority, PriorityState}
use libcortlet_upgradesched.Steal.{StealState}
use libcortlet_upgradesched.Platform.{Platform}
use libcortlet_upgradesched.Machine.{Op, Prog}
use libcortlet_upgradesched.Machine.Store.{QueueSystem, Store, injector, set_injector}
use libcortlet_upgradesched.Machine.Perform.{perform}
use libcortlet_upgradesched.Machine.Alone.{alone}
use libcortlet_upgradesched.Queue.{
  from_steal, priority_result, Search, return_or, try_or_else, local_result, search_local,
}
use libcortlet_upgradesched.Queue.View.{View, lane_of, with_lane, with_lane_same, Sees}

-- What a search leaves alone.
pub record Follows {P : Platform} (s s' : Store P) : Type 0 where
  pub in_flight : s'.shared.tasks_in_flight ≡ s.shared.tasks_in_flight
  pub shutdown : s'.shared.shutdown ≡ s.shared.shutdown

pub Follows-trans : {P : Platform} (a b c : Store P) → Follows a b → Follows b c → Follows a c
Follows-trans a b c h k = record {
  in_flight = k.in_flight ∙ h.in_flight;
  shutdown = k.shutdown ∙ h.shutdown;
}

module _ (P : Platform) (local : ℕ) where
  with_queues_of : Store P → QueueSystem P → Store P
  with_queues_of s q = record s { shared = record (s.shared) { queues = q } }

  -- The queues with the injector of a priority and the worker's deque replaced.
  unfoldable pub replaced : Store P → TaskPriority → P.Injector → P.Deque → Store P
  unfolding with_queues_of
  replaced s lane inj d = with_queues_of s (record (set_injector P lane inj s.shared.queues) {
    stealers = set (set_injector P lane inj s.shared.queues).stealers local d;
  })

  unfoldable pub with_deque : Store P → P.Deque → Store P
  unfolding with_queues_of
  with_deque s d =
      with_queues_of s
        (record (s.shared.queues) { stealers = set s.shared.queues.stealers local d })

  module _ (thread chance : ℕ) where
    perform-batch :
        (lane : TaskPriority) (s : Store P) (d : P.Deque)
        → get_elem? s.shared.queues.stealers local ≡ some d
        → perform P thread chance (Op.steal_batch_and_pop lane local) s ≡ (
            let r = P.steal_batch_and_pop chance (injector P lane s.shared.queues) d in
            some (r.0, replaced s lane r.1 r.2))
    unfolding perform replaced
    perform-batch lane s d e = ground arith

    perform-pop :
        (s : Store P) (d : P.Deque)
        → get_elem? s.shared.queues.stealers local ≡ some d
        → perform P thread chance (Op.pop_local local) s
          ≡ some ((P.pop d).0, with_deque s (P.pop d).1)
    unfolding perform with_deque with_queues_of
    perform-pop s d e = ground arith

    pub alone-local :
        (ss : StealState) (ps : PriorityState) (s : Store P) (d : P.Deque)
        → get_elem? s.shared.queues.stealers local ≡ some d
        → alone P thread chance (search_local ss local ps) s
          ≡ alone P thread chance (local_result ss local ps (P.pop d).0) (with_deque s (P.pop d).1)
    unfolding alone search_local
    alone-local ss ps s d e = rw (perform-pop s d e)

    -- Asking an injector, by the answer of the crate.
    pub alone-try :
        (ss : StealState) (lane : TaskPriority) (ps : PriorityState)
        (next : PriorityState → Prog Search) (s : Store P) (d : P.Deque)
        → get_elem? s.shared.queues.stealers local ≡ some d
        → alone P thread chance (try_or_else ss local lane ps next) s ≡ (
            let r = P.steal_batch_and_pop chance (injector P lane s.shared.queues) d in
            alone P thread chance
              (return_or ss next (priority_result ps (from_steal r.0)))
              (replaced s lane r.1 r.2))
    unfolding alone try_or_else
    alone-try ss lane ps next s d e = rw (perform-batch lane s d e)

  pub popped-Sees :
      (v : View) (s : Store P) (d : P.Deque)
      → (h : Sees P local v s) → Sees P local (record v { own = P.local d }) (with_deque s d)
  unfolding with_deque
  popped-Sees v s d h = record {
    lanes = elim [
      | TaskPriority.high ↦ h.lanes TaskPriority.high
      | TaskPriority.normal ↦ h.lanes TaskPriority.normal
      | TaskPriority.low ↦ h.lanes TaskPriority.low
    ];
    deque = d;
    found = get_elem?-set_self s.shared.queues.stealers local h.deque d h.found;
    owned = refl;
  }

  pub with_deque-Sees :
      (v : View) (s : Store P) (d : P.Deque)
      → (h : Sees P local v s) → P.local d ≡ v.own
      → Sees P local v (with_deque s d)
  with_deque-Sees v s d h e =
      subst (λ own. Sees P local (record v { own = own }) (with_deque s d)) e (popped-Sees v s d h)

  pub with_lane-Sees :
      (v : View) (s : Store P) (lane : TaskPriority) (inj : P.Injector) (d : P.Deque)
      → (h : Sees P local v s)
      → Sees P local (with_lane lane (P.injected inj) (P.local d) v) (replaced s lane inj d)
  unfolding replaced
  with_lane-Sees v s TaskPriority.high inj d h = record {
    lanes = elim [
      | TaskPriority.high ↦ refl
      | TaskPriority.normal ↦ h.lanes TaskPriority.normal
      | TaskPriority.low ↦ h.lanes TaskPriority.low
    ];
    deque = d;
    found = get_elem?-set_self s.shared.queues.stealers local h.deque d h.found;
    owned = refl;
  }
  with_lane-Sees v s TaskPriority.normal inj d h = record {
    lanes = elim [
      | TaskPriority.high ↦ h.lanes TaskPriority.high
      | TaskPriority.normal ↦ refl
      | TaskPriority.low ↦ h.lanes TaskPriority.low
    ];
    deque = d;
    found = get_elem?-set_self s.shared.queues.stealers local h.deque d h.found;
    owned = refl;
  }
  with_lane-Sees v s TaskPriority.low inj d h = record {
    lanes = elim [
      | TaskPriority.high ↦ h.lanes TaskPriority.high
      | TaskPriority.normal ↦ h.lanes TaskPriority.normal
      | TaskPriority.low ↦ refl
    ];
    deque = d;
    found = get_elem?-set_self s.shared.queues.stealers local h.deque d h.found;
    owned = refl;
  }

  -- Where nothing else is in the injector and in the deque, the view is the same.
  pub replaced-Sees :
      (v : View) (s : Store P) (lane : TaskPriority) (inj : P.Injector) (d : P.Deque)
      → (h : Sees P local v s) → P.injected inj ≡ lane_of v lane
      → P.local d ≡ v.own
      → Sees P local v (replaced s lane inj d)
  replaced-Sees v s lane inj d h e f =
      subst (λ w. Sees P local w (replaced s lane inj d))
        (with_lane_same lane (P.injected inj) (P.local d) v e f) (with_lane-Sees v s lane inj d h)

  pub replaced-Follows :
      (s : Store P) (lane : TaskPriority) (inj : P.Injector) (d : P.Deque)
      → Follows s (replaced s lane inj d)
  unfolding replaced with_queues_of
  replaced-Follows s lane inj d = record { in_flight = refl; shutdown = refl }

  pub with_deque-Follows : (s : Store P) (d : P.Deque) → Follows s (with_deque s d)
  unfolding with_deque with_queues_of
  with_deque-Follows s d = record { in_flight = refl; shutdown = refl }
