-- ===== src/Effects/Lanes.antt =====
-- Each injector keeps to the tasks of its own priority.
use libcortlet_upgradesched.Prelude.{
  ℕ, ◌≡◌, sym, subst, [], ◌∷◌, arith, All, All-append, All-append_right,
}
use libcortlet_upgradesched.Task.{Task, TaskPriority}
use libcortlet_upgradesched.Platform.{Platform, Crossbeam, Steal, BatchTaken}
use libcortlet_upgradesched.Machine.{Op}
use libcortlet_upgradesched.Machine.Store.{QueueSystem, Store, injector, set_injector}
use libcortlet_upgradesched.Machine.Perform.{batch_from, push_to, perform}
use libcortlet_upgradesched.Effects.{Holds, InLanes}
use libcortlet_upgradesched.Effects.Queues.{on_deque-Holds}

-- A push goes to the injector of the task's priority.
abbrev pub InOwnLane : Op → Type 0
InOwnLane (Op.push_injector lane t) = lane ≡ t.priority
InOwnLane _ = Unit {0}

module _ (P : Platform) (C : Crossbeam P) where
  batch-All :
      (K : Task → Type 0) (q : P.Injector) (d : P.Deque) (r : Steal × P.Injector × P.Deque)
      → BatchTaken P q d r
      → All K (P.injected q)
      → All K (P.injected r.1)
  batch-All K q d (Steal.success t, q', d') (batch, front, _) h =
      All-append_right K batch (P.injected q') (subst (All K) front h).1
  batch-All K q d (Steal.empty, q', d') (_, e, _) h = subst (All K) (sym e) tt
  batch-All K q d (Steal.retry, q', d') (e, _) h = subst (All K) (sym e) h

  push-All :
      (K : Task → Type 0) (t : Task) (q : P.Injector)
      → K t
      → All K (P.injected q)
      → All K (P.injected (P.injector_push t q))
  push-All K t q k h =
      subst (All K) (sym (C.pushes t q)) (All-append K (P.injected q) (t ∷ []) h (k, tt))

  batch-InLanes :
      (lane : TaskPriority) (q : QueueSystem P) (d : P.Deque) (r : Steal × P.Injector × P.Deque)
      → BatchTaken P (injector P lane q) d r
      → InLanes P q
      → InLanes P (set_injector P lane r.1 q)
  batch-InLanes TaskPriority.high q d r h v = record {
    high_lane = batch-All _ q.high d r h v.high_lane;
    normal_lane = v.normal_lane;
    low_lane = v.low_lane;
  }
  batch-InLanes TaskPriority.normal q d r h v = record {
    high_lane = v.high_lane;
    normal_lane = batch-All _ q.normal d r h v.normal_lane;
    low_lane = v.low_lane;
  }
  batch-InLanes TaskPriority.low q d r h v = record {
    high_lane = v.high_lane;
    normal_lane = v.normal_lane;
    low_lane = batch-All _ q.low d r h v.low_lane;
  }

  batch_from-InLanes :
      (thread chance : ℕ) (lane : TaskPriority) (i : ℕ) (q : QueueSystem P)
      → InLanes P q
      → Holds (λ _ q'. InLanes P q') (batch_from P thread chance lane i q)
  unfolding batch_from
  batch_from-InLanes thread chance lane i q v = on_deque-Holds P thread chance i q _ _ λ d _.
      let w =
        batch-InLanes lane q d (P.steal_batch_and_pop chance (injector P lane q) d)
          (C.batches chance (injector P lane q) d) v in
      record { high_lane = w.high_lane; normal_lane = w.normal_lane; low_lane = w.low_lane }

  push_to-InLanes :
      (thread chance : ℕ) (lane : TaskPriority) (t : Task) (q : QueueSystem P)
      → lane ≡ t.priority
      → InLanes P q
      → InLanes P (push_to P thread chance lane t q)
  unfolding push_to
  push_to-InLanes thread chance TaskPriority.high t q e v = record {
    high_lane = push-All _ t q.high (sym e) v.high_lane;
    normal_lane = v.normal_lane;
    low_lane = v.low_lane;
  }
  push_to-InLanes thread chance TaskPriority.normal t q e v = record {
    high_lane = v.high_lane;
    normal_lane = push-All _ t q.normal (sym e) v.normal_lane;
    low_lane = v.low_lane;
  }
  push_to-InLanes thread chance TaskPriority.low t q e v = record {
    high_lane = v.high_lane;
    normal_lane = v.normal_lane;
    low_lane = push-All _ t q.low (sym e) v.low_lane;
  }

  pub perform-InLanes :
      (thread chance : ℕ) (op : Op) (s : Store P)
      → InOwnLane op
      → InLanes P s.shared.queues
      → Holds (λ _ s'. InLanes P s'.shared.queues) (perform P thread chance op s)
  unfolding perform
  perform-InLanes thread chance (Op.push_injector lane t) s e v =
      push_to-InLanes thread chance lane t s.shared.queues e v
  perform-InLanes thread chance (Op.steal_batch_and_pop lane local) s e v =
      ground (arith, batch_from-InLanes thread chance lane local s.shared.queues v)
  perform-InLanes thread chance _ s e v = ground arith
