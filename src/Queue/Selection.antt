-- ===== src/Queue/Selection.antt =====
-- Which task `pop_for_worker` of src/queue.rs takes, undisturbed.
use libcortlet_upgradesched.Prelude.{
  ℕ, ◌≡◌, ◌≢◌, refl, sym, ◌∙◌, subst, ap, map, All, ◌+◌, ◌^◌, ◌<◌, ◌≤◌, true, false, Option, none,
  some, List, [], ◌∷◌, if◌then◌else◌,
}
use libcortlet_upgradesched.Task.{
  Task, TaskPriority, PopResult, PriorityState, fairness_due, record_task, reset,
}
use libcortlet_upgradesched.Stats.{Event}
use libcortlet_upgradesched.Steal.{StealState, victims}
use libcortlet_upgradesched.Platform.{Platform, Crossbeam, Popped}
use libcortlet_upgradesched.Machine.{Op, Prog, act}
use libcortlet_upgradesched.Machine.Store.{Store}
use libcortlet_upgradesched.Machine.Perform.{perform}
use libcortlet_upgradesched.Machine.Alone.{alone}
use libcortlet_upgradesched.Queue.{
  Search, try_or_else, local_result, search_local, search_global, steal_from_peers, pop_for_worker,
  fair_search,
}
use libcortlet_upgradesched.Queue.View.{
  View, first_of, search_order, lane_of, Sees, first_of-cons, first_of-nil,
}
use libcortlet_upgradesched.Queue.Changed.{with_deque, with_deque-Sees, alone-local}
use libcortlet_upgradesched.Queue.Peers.{SeesPeers, with_deque-SeesPeers, others}
use libcortlet_upgradesched.Queue.Stealing.{Takes, NoLostRace, peers-Takes}
use libcortlet_upgradesched.Queue.Injectors.{NoRetry, Around, try-empty, try-cons}

module _ (P : Platform) (local thread chance : ℕ) where
  module _ (C : Crossbeam P) (never : NoRetry P chance) (sure : NoLostRace P local thread chance)
      (ss : StealState) (v : View) (peers : ℕ → List Task) (t : Task)
      (apart : All (λ victim. victim ≢ local) (victims ss).0) where
    -- The deques of the other workers, in the order in which they are tried.
    abbrev robbed : List (List Task)
    robbed = map peers (victims ss).0

    abbrev Finds : Prog Search → Store P → Type 0
    Finds p s = Takes P local thread chance t p s

    try-Takes :
        (lane : TaskPriority) (ps : PriorityState) (next : PriorityState → Prog Search)
        (s : Store P) (lists : List (List Task))
        → Around P local v peers s
        → first_of (lane_of v lane ∷ lists) ≡ some t
        → ((s' : Store P)
            → Around P local v peers s'
            → first_of lists ≡ some t
            → Finds (next ps) s')
        → Finds (try_or_else ss local lane ps next) s
    try-Takes lane ps next s lists h e onward = split (lane_of v lane) refl e
      where
        split :
            (l : List Task)
            → lane_of v lane ≡ l
            → first_of (l ∷ lists) ≡ some t
            → Finds (try_or_else ss local lane ps next) s
        split [] nothing_there e =
            let (s', h', eq) =
              try-empty P local C thread chance never ss lane ps next v peers s h nothing_there in
            let (ss', ps', s'', eq') = onward s' h' e in (ss', ps', s'', eq ∙ eq')
        split (u ∷ rest) there e =
            let same : u ≡ t = cc in
            let (s', eq) =
              try-cons P local C thread chance never ss lane ps next v s t rest h.sees
                (subst (λ w. lane_of v lane ≡ w ∷ rest) same there) in
            (ss, record_task t ps, s', eq)

    global-Takes :
        (ps : PriorityState) (s : Store P)
        → Around P local v peers s
        → first_of (v.high ∷ v.normal ∷ v.low ∷ robbed) ≡ some t
        → Finds (search_global ss local ps) s
    unfolding search_global
    global-Takes ps s h e =
        try-Takes TaskPriority.high ps _ s (v.normal ∷ v.low ∷ robbed) h e λ s h e.
          try-Takes TaskPriority.normal ps _ s (v.low ∷ robbed) h e λ s h e.
            try-Takes TaskPriority.low ps (λ ps. steal_from_peers ss ps) s robbed h e
              λ s h e. peers-Takes P local thread chance C sure peers t ss ps s apart h.sees_peers e

    local-Takes :
        (ps : PriorityState) (s : Store P)
        → Around P local v peers s
        → first_of (search_order false v robbed) ≡ some t
        → Finds (search_local ss local ps) s
    unfolding local_result alone
    local-Takes ps s h e =
        answered (P.pop h.sees.deque) (C.pops h.sees.deque)
          (alone-local P local thread chance ss ps s h.sees.deque h.sees.found)
      where
        answered :
            (r : Option Task × P.Deque)
            → Popped P h.sees.deque r
            → alone P thread chance (search_local ss local ps) s
              ≡ alone P thread chance (local_result ss local ps r.0) (with_deque P local s r.1)
            → Finds (search_local ss local ps) s
        answered (some u, d') law eq =
            let own : u ∷ P.local d' ≡ v.own = sym law ∙ h.sees.owned in
            let same : u ≡ t = first_of-cons _ (sym own) e in
            (
              ss,
              record_task t ps,
              with_deque P local s d',
              eq
                  ∙ ap
                      (λ w.
                        some ((PopResult.task w, ss, record_task w ps), with_deque P local s d'))
                      same,
            )
        answered (none, d') law eq =
            let none_left : v.own ≡ [] = sym h.sees.owned ∙ law.0 in
            let (ss', ps', s', eq') =
              global-Takes ps (with_deque P local s d')
                (record {
                  sees = with_deque-Sees P local v s d' h.sees (law.1 ∙ sym none_left);
                  sees_peers = with_deque-SeesPeers P local peers s d' h.sees_peers;
                })
                (first_of-nil _ none_left e) in
            (ss', ps', s', eq ∙ eq')

    yield-Takes :
        (p : Prog Search) (s : Store P)
        → Around P local v peers s
        → ((s' : Store P) → Around P local v peers s' → Finds p s')
        → Finds (act (Op.stat Event.fairness_yield) λ _. p) s
    unfolding alone perform
    yield-Takes p s h onward = onward _ (record {
      sees = record {
        lanes = h.sees.lanes;
        deque = h.sees.deque;
        found = h.sees.found;
        owned = h.sees.owned;
      };
      sees_peers = record { reaches = h.sees_peers.reaches };
    })

    fair-Takes :
        (ps : PriorityState) (s : Store P)
        → Around P local v peers s
        → first_of (search_order true v robbed) ≡ some t
        → Finds (fair_search ss local ps) s
    unfolding fair_search
    fair-Takes ps s h e =
        try-Takes TaskPriority.normal ps
          (λ ps. try_or_else ss local TaskPriority.low ps λ ps. search_local ss local (reset ps)) s
          _ h e
          λ s h e.
            try-Takes TaskPriority.low ps (λ ps. search_local ss local (reset ps)) s _ h e
              λ s h e. local-Takes (reset ps) s h e

    due-Takes :
        (ps : PriorityState) (s : Store P)
        → Around P local v peers s
        → first_of (search_order (fairness_due ps) v robbed) ≡ some t
        → Finds (pop_for_worker ss local ps) s
    unfolding pop_for_worker fair_search
    due-Takes ps s h =
        elim (fairness_due ps)
          as (λ b.
            first_of (search_order b v robbed) ≡ some t
            → Finds
                (if b
                  then act (Op.stat Event.fairness_yield) (λ _. fair_search ss local ps)
                  else search_local ss local ps)
                s) [
                  | false ↦ local-Takes ps s h
                  | true ↦ λ e. yield-Takes (fair_search ss local ps) s h λ s h. fair-Takes ps s h e
                ]

  -- Undisturbed, and where no steal answers `Retry`: the task that `pop_for_worker` takes is the
  -- oldest of the first place of the search order that has one. The order is the worker's own
  -- deque, HIGH, NORMAL, LOW, and the deques of the other workers in the order of `victims`, with
  -- NORMAL and LOW also in front where fairness is due. The worker is one of up to 2^63.
  pub pop_for_worker-Takes :
      Crossbeam P
      → NoRetry P chance
      → NoLostRace P local thread chance
      → (ss : StealState) (ps : PriorityState) (v : View) (peers : ℕ → List Task) (t : Task)
        (s : Store P)
      → ss.worker_id ≡ local
      → local < ss.worker_count
      → ss.worker_count + ss.worker_count ≤ 2 ^ 64
      → Sees P local v s
      → SeesPeers P local peers s
      → first_of (search_order (fairness_due ps) v (map peers (victims ss).0)) ≡ some t
      → Takes P local thread chance t (pop_for_worker ss local ps) s
  pop_for_worker-Takes C never sure ss ps v peers t s numbered self_lt small h k =
      due-Takes C never sure ss v peers t
        (subst (λ w. All (λ victim. victim ≢ w) (victims ss).0) numbered
          (others ss (subst (λ w. w < ss.worker_count) (sym numbered) self_lt) small))
        ps s (record { sees = h; sees_peers = k })
