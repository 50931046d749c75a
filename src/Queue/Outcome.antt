-- ===== src/Queue/Outcome.antt =====
-- A search of src/queue.rs that no other thread disturbs: it takes a task or there is none.
use libcortlet_upgradesched.Prelude.{
  ℕ, ◌+◌, ◌^◌, ◌<◌, ◌≤◌, ◌≡◌, ◌≢◌, refl, sym, ◌∙◌, ap, arith, true, false, Option, none, some, [],
  ◌++◌, inl, sum_by, if◌then◌else◌, List,
}
use libcortlet_upgradesched.Task.{
  Task, TaskPriority, PriorityState, fairness_due, record_task, reset,
}
use libcortlet_upgradesched.Stats.{Event}
use libcortlet_upgradesched.Steal.{StealState}
use libcortlet_upgradesched.Platform.{Platform, Crossbeam, Steal, BatchTaken, Popped}
use libcortlet_upgradesched.Machine.{Op, Prog, act}
use libcortlet_upgradesched.Machine.Store.{Store, injector}
use libcortlet_upgradesched.Machine.Perform.{perform}
use libcortlet_upgradesched.Machine.Alone.{alone}
use libcortlet_upgradesched.Queue.{
  Search, from_steal, priority_result, return_or, try_or_else, steal_from_peers, search_global,
  local_result, search_local, pop_for_worker, fair_search,
}
use libcortlet_upgradesched.Queue.View.{View, lane_of, with_lane}
use libcortlet_upgradesched.Queue.Changed.{
  replaced-Follows, with_deque-Follows, popped-Sees, with_lane-Sees, replaced, with_deque,
  with_deque-Sees, replaced-Sees, alone-try, alone-local,
}
use libcortlet_upgradesched.Queue.Injectors.{NoRetry}
use libcortlet_upgradesched.Queue.Remaining.{total-with_lane, Numbered, SeesAll, Outcome, continued}
use libcortlet_upgradesched.Queue.Peers.{with_deque-SeesPeers, replaced-SeesPeers}
use libcortlet_upgradesched.Queue.Stealing.{NoLostRace}
use libcortlet_upgradesched.Queue.Robbing.{peers-Outcome}

module _ (P : Platform) (local count : ℕ) (thread chance : ℕ) where
  module _ (C : Crossbeam P) (never : NoRetry P chance) (sure : NoLostRace P local thread chance)
      (small : count + count ≤ 2 ^ 64) (inside : local < count) (ss : StealState)
      (numbered : Numbered local count ss) (peers : ℕ → List Task) where
    try-Outcome :
        (lane : TaskPriority) (ps : PriorityState) (next : PriorityState → Prog Search) (v : View)
        (s : Store P)
        → SeesAll P local v peers s
        → ((s : Store P)
            → SeesAll P local v peers s
            → lane_of v lane ≡ []
            → Outcome P local count thread chance v peers s (next ps))
        → Outcome P local count thread chance v peers s (try_or_else ss local lane ps next)
    unfolding return_or priority_result alone
    try-Outcome lane ps next v s h onward =
        answered (P.steal_batch_and_pop chance inj h.sees.deque) (C.batches chance inj h.sees.deque)
          (never inj h.sees.deque)
          (alone-try P local thread chance ss lane ps next s h.sees.deque h.sees.found)
      where
        inj : P.Injector
        inj = injector P lane s.shared.queues

        answered :
            (r : Steal × P.Injector × P.Deque)
            → BatchTaken P inj h.sees.deque r
            → r.0 ≢ Steal.retry
            → alone P thread chance (try_or_else ss local lane ps next) s
              ≡ alone P thread chance
                  (return_or ss next (priority_result ps (from_steal r.0)))
                  (replaced P local s lane r.1 r.2)
            → Outcome P local count thread chance v peers s (try_or_else ss local lane ps next)
        answered (Steal.success t, inj', d') (batch, front, back) nr eq = inl (record {
          task = t;
          steal_state = ss;
          priority_state = record_task t ps;
          store = replaced P local s lane inj' d';
          view = with_lane lane (P.injected inj') (P.local d') v;
          view_peers = peers;
          ends = eq;
          sees_all = record {
            sees = with_lane-Sees P local v s lane inj' d' h.sees;
            sees_peers = replaced-SeesPeers P local peers s lane inj' d' h.sees_peers;
            apart = h.apart;
          };
          fewer = λ w. omega (
            arith,
            total-with_lane w lane v t batch (P.injected inj') (P.local d')
                (sym (h.sees.lanes lane) ∙ front) (back ∙ ap (λ l. l ++ batch) h.sees.owned),
          );
          follows = replaced-Follows P local s lane inj' d';
          numbered = numbered;
        })
        answered (Steal.empty, inj', d') (was, none_left, same) nr eq =
            let gone : lane_of v lane ≡ [] = sym (h.sees.lanes lane) ∙ was in
            continued P local count thread chance v peers s (replaced P local s lane inj' d') _
              (next ps) eq (replaced-Follows P local s lane inj' d')
              (onward _
                (record {
                  sees =
                      replaced-Sees P local v s lane inj' d' h.sees (none_left ∙ sym gone)
                        (same ∙ h.sees.owned);
                  sees_peers = replaced-SeesPeers P local peers s lane inj' d' h.sees_peers;
                  apart = h.apart;
                })
                gone)
        answered (Steal.retry, inj', d') law nr eq = absurd (nr refl)

    global-Outcome :
        (ps : PriorityState) (v : View) (s : Store P)
        → SeesAll P local v peers s
        → v.own ≡ []
        → Outcome P local count thread chance v peers s (search_global ss local ps)
    unfolding search_global
    global-Outcome ps v s h none_own =
        try-Outcome TaskPriority.high ps
          (λ ps.
            try_or_else ss local TaskPriority.normal ps
              λ ps. try_or_else ss local TaskPriority.low ps λ ps. steal_from_peers ss ps)
          v s h
          λ s h no_high.
            try-Outcome TaskPriority.normal ps
              (λ ps. try_or_else ss local TaskPriority.low ps λ ps. steal_from_peers ss ps) v s h
              λ s h no_normal.
                try-Outcome TaskPriority.low ps (λ ps. steal_from_peers ss ps) v s h
                  λ s h no_low.
                    peers-Outcome P local thread chance C sure count small inside ss ps v peers s
                      numbered h
                      (λ w. omega (
                        arith,
                        ap (sum_by w) no_high,
                        ap (sum_by w) no_normal,
                        ap (sum_by w) no_low,
                        ap (sum_by w) none_own,
                      ))

    local-Outcome :
        (ps : PriorityState) (v : View) (s : Store P)
        → SeesAll P local v peers s
        → Outcome P local count thread chance v peers s (search_local ss local ps)
    unfolding local_result alone
    local-Outcome ps v s h =
        answered (P.pop h.sees.deque) (C.pops h.sees.deque)
          (alone-local P local thread chance ss ps s h.sees.deque h.sees.found)
      where
        answered :
            (r : Option Task × P.Deque)
            → Popped P h.sees.deque r
            → alone P thread chance (search_local ss local ps) s
              ≡ alone P thread chance (local_result ss local ps r.0) (with_deque P local s r.1)
            → Outcome P local count thread chance v peers s (search_local ss local ps)
        answered (some t, d') law eq = inl (record {
          task = t;
          steal_state = ss;
          priority_state = record_task t ps;
          store = with_deque P local s d';
          view = record v { own = P.local d' };
          ends = eq;
          view_peers = peers;
          sees_all = record {
            sees = popped-Sees P local v s d' h.sees;
            sees_peers = with_deque-SeesPeers P local peers s d' h.sees_peers;
            apart = h.apart;
          };
          fewer = λ w. omega (arith, ap (sum_by w) (sym law ∙ h.sees.owned));
          follows = with_deque-Follows P local s d';
          numbered = numbered;
        })
        answered (none, d') law eq =
            let none_left : v.own ≡ [] = sym h.sees.owned ∙ law.0 in
            continued P local count thread chance v peers s (with_deque P local s d') _
              (search_global ss local ps) eq (with_deque-Follows P local s d')
              (global-Outcome ps v (with_deque P local s d')
                (record {
                  sees = with_deque-Sees P local v s d' h.sees (law.1 ∙ sym none_left);
                  sees_peers = with_deque-SeesPeers P local peers s d' h.sees_peers;
                  apart = h.apart;
                })
                none_left)

    fair-Outcome :
        (ps : PriorityState) (v : View) (s : Store P)
        → SeesAll P local v peers s
        → Outcome P local count thread chance v peers s (fair_search ss local ps)
    unfolding fair_search
    fair-Outcome ps v s h =
        try-Outcome TaskPriority.normal ps
          (λ ps. try_or_else ss local TaskPriority.low ps λ ps. search_local ss local (reset ps)) v
          s h
          λ s h _.
            try-Outcome TaskPriority.low ps (λ ps. search_local ss local (reset ps)) v s h
              λ s h _. local-Outcome (reset ps) v s h

    yield-Outcome :
        (ps : PriorityState) (v : View) (s : Store P)
        → SeesAll P local v peers s
        → Outcome P local count thread chance v peers s
            (act (Op.stat Event.fairness_yield) λ _. fair_search ss local ps)
    unfolding alone perform
    yield-Outcome ps v s h =
        continued P local count thread chance v peers s _
          (act (Op.stat Event.fairness_yield) λ _. fair_search ss local ps)
          (fair_search ss local ps) refl (record { in_flight = refl; shutdown = refl })
          (fair-Outcome ps v _ (record {
            sees = record {
              lanes = h.sees.lanes;
              deque = h.sees.deque;
              found = h.sees.found;
              owned = h.sees.owned;
            };
            sees_peers = record { reaches = h.sees_peers.reaches };
            apart = h.apart;
          }))

    -- Undisturbed, a search takes one of the tasks that there are, or there is none.
    pub pop_for_worker-Outcome :
        (ps : PriorityState) (v : View) (s : Store P)
        → SeesAll P local v peers s
        → Outcome P local count thread chance v peers s (pop_for_worker ss local ps)
    unfolding pop_for_worker fair_search
    pop_for_worker-Outcome ps v s h =
        elim (fairness_due ps)
          as (λ b. Outcome P local count thread chance v peers s (
            if b
            then act (Op.stat Event.fairness_yield) (λ _. fair_search ss local ps)
            else search_local ss local ps)) [
              | false ↦ local-Outcome ps v s h
              | true ↦ yield-Outcome ps v s h
            ]
