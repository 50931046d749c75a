-- ===== src/Queue/Injectors.antt =====
-- Asking an injector of src/queue.rs, undisturbed: an empty one is passed over, and of any other the
-- oldest task is taken.
use libcortlet_upgradesched.Prelude.{ℕ, ◌≡◌, ◌≢◌, refl, sym, ◌∙◌, ap, some, List, [], ◌∷◌}
use libcortlet_upgradesched.Task.{Task, TaskPriority, PopResult, PriorityState, record_task}
use libcortlet_upgradesched.Steal.{StealState}
use libcortlet_upgradesched.Platform.{Platform, Crossbeam, Steal, BatchTaken}
use libcortlet_upgradesched.Machine.{Prog}
use libcortlet_upgradesched.Machine.Store.{Store, injector}
use libcortlet_upgradesched.Machine.Alone.{alone}
use libcortlet_upgradesched.Queue.{from_steal, priority_result, Search, return_or, try_or_else}
use libcortlet_upgradesched.Queue.View.{View, lane_of, Sees, not_cons, head_eq}
use libcortlet_upgradesched.Queue.Peers.{SeesPeers, replaced-SeesPeers}
use libcortlet_upgradesched.Queue.Changed.{replaced, replaced-Sees, alone-try}

-- No race makes a steal from an injector answer `Retry`.
abbrev pub NoRetry : (P : Platform) (chance : ℕ) → Type 0
NoRetry P chance =
    (inj : P.Injector) (d : P.Deque) → (P.steal_batch_and_pop chance inj d).0 ≢ Steal.retry

module _ (P : Platform) (local : ℕ) where
  -- What a worker sees in the injectors and its own deque, and in the deques of the others.
  pub record Around (v : View) (peers : ℕ → List Task) (s : Store P) : Type 0 where
    pub sees : Sees P local v s
    pub sees_peers : SeesPeers P local peers s

  module _ (C : Crossbeam P) (thread chance : ℕ) (never : NoRetry P chance) where
    -- An empty injector is passed over, and leaves what the worker sees.
    pub try-empty :
        (ss : StealState) (lane : TaskPriority) (ps : PriorityState)
        (next : PriorityState → Prog Search) (v : View) (peers : ℕ → List Task) (s : Store P)
        → Around v peers s
        → lane_of v lane ≡ []
        → (s' : Store P) × Around v peers s'
          × (alone P thread chance (try_or_else ss local lane ps next) s
              ≡ alone P thread chance (next ps) s')
    unfolding return_or priority_result
    try-empty ss lane ps next v peers s h e =
        answered (P.steal_batch_and_pop chance inj h.sees.deque) (C.batches chance inj h.sees.deque)
          (never inj h.sees.deque)
          (alone-try P local thread chance ss lane ps next s h.sees.deque h.sees.found)
      where
        inj : P.Injector
        inj = injector P lane s.shared.queues

        answered :
            (r : Steal × P.Injector × P.Deque)
            → BatchTaken P inj h.sees.deque r
            → r.0 ≢ Steal.retry
            → alone P thread chance (try_or_else ss local lane ps next) s
              ≡ alone P thread chance
                  (return_or ss next (priority_result ps (from_steal r.0)))
                  (replaced P local s lane r.1 r.2)
            → (s' : Store P) × Around v peers s'
              × (alone P thread chance (try_or_else ss local lane ps next) s
                  ≡ alone P thread chance (next ps) s')
        answered (Steal.success t, inj', d') (batch, front, _) nr eq =
            absurd (not_cons (sym front ∙ h.sees.lanes lane ∙ e))
        answered (Steal.empty, inj', d') (_, none_left, same) nr eq = (
          replaced P local s lane inj' d',
          record {
            sees =
                replaced-Sees P local v s lane inj' d' h.sees (none_left ∙ sym e)
                  (same ∙ h.sees.owned);
            sees_peers = replaced-SeesPeers P local peers s lane inj' d' h.sees_peers;
          },
          eq,
        )
        answered (Steal.retry, inj', d') law nr eq = absurd (nr refl)

    -- The oldest task of an injector is taken.
    pub try-cons :
        (ss : StealState) (lane : TaskPriority) (ps : PriorityState)
        (next : PriorityState → Prog Search) (v : View) (s : Store P) (t : Task) (rest : List Task)
        → Sees P local v s
        → lane_of v lane ≡ t ∷ rest
        → (s' : Store P) × (alone P thread chance (try_or_else ss local lane ps next) s
            ≡ some ((PopResult.task t, ss, record_task t ps), s'))
    unfolding return_or priority_result alone
    try-cons ss lane ps next v s t rest h e =
        answered (P.steal_batch_and_pop chance inj h.deque) (C.batches chance inj h.deque)
          (never inj h.deque) (alone-try P local thread chance ss lane ps next s h.deque h.found)
      where
        inj : P.Injector
        inj = injector P lane s.shared.queues

        answered :
            (r : Steal × P.Injector × P.Deque)
            → BatchTaken P inj h.deque r
            → r.0 ≢ Steal.retry
            → alone P thread chance (try_or_else ss local lane ps next) s
              ≡ alone P thread chance
                  (return_or ss next (priority_result ps (from_steal r.0)))
                  (replaced P local s lane r.1 r.2)
            → (s' : Store P) × (alone P thread chance (try_or_else ss local lane ps next) s
                ≡ some ((PopResult.task t, ss, record_task t ps), s'))
        answered (Steal.success u, inj', d') (batch, front, _) nr eq =
            let same : u ≡ t = head_eq (sym front ∙ h.lanes lane ∙ e) in
            (
              replaced P local s lane inj' d',
              eq
                  ∙ ap
                      (λ w.
                        some (
                          (PopResult.task w, ss, record_task w ps),
                          replaced P local s lane inj' d',
                        ))
                      same,
            )
        answered (Steal.empty, inj', d') (none_left, _, _) nr eq =
            absurd (not_cons (sym e ∙ sym (h.lanes lane) ∙ none_left))
        answered (Steal.retry, inj', d') law nr eq = absurd (nr refl)
