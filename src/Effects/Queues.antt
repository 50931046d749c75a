-- ===== src/Effects/Queues.antt =====
-- Tasks are neither lost nor made up by the queues, and stay in the lane of their priority.
use libcortlet_upgradesched.Prelude.{
  ℕ, ◌+◌, ◌≡◌, ap, Option, none, some, [], ◌∷◌, arith, get_elem?, set, sum_by, sum_by-append,
  sum_by-set, Option-cases, inl, inr,
}
use libcortlet_upgradesched.Task.{Task, TaskPriority}
use libcortlet_upgradesched.Platform.{Platform, Crossbeam, Steal, BatchTaken, Popped, Stolen}
use libcortlet_upgradesched.Machine.Store.{QueueSystem, injector, set_injector}
use libcortlet_upgradesched.Machine.Perform.{on_deque, batch_from, pop_from, steal_from, push_to}
use libcortlet_upgradesched.Effects.{Holds, stored, steal_weight, pop_weight}

pub on_deque-Holds {ℓ μ} :
    (P : Platform) (thread chance i : ℕ) (q : QueueSystem P) {A : Type ℓ}
    (R : A → QueueSystem P → Type μ) (f : P.Deque → A × QueueSystem P × P.Deque)
    → ((d : P.Deque)
        → get_elem? q.stealers i ≡ some d
        → R (f d).0 (record (f d).1 { stealers = set (f d).1.stealers i (f d).2 }))
    → Holds R (on_deque P thread chance i q f)
unfolding on_deque
on_deque-Holds P thread chance i q R f h = elim (Option-cases (get_elem? q.stealers i)) [
  | inl e ↦ rw (e, on_deque) tt
  | inr (d, e) ↦ rw (e, on_deque) (h d e)
]

module _ (P : Platform) (C : Crossbeam P) (w : Task → ℕ) where
  stored-set :
      (q : QueueSystem P) (i : ℕ) (d d' : P.Deque)
      → get_elem? q.stealers i ≡ some d
      → sum_by (λ d. sum_by w (P.local d)) (set q.stealers i d') + sum_by w (P.local d)
        ≡ sum_by (λ d. sum_by w (P.local d)) q.stealers + sum_by w (P.local d')
  stored-set q i d d' h = sum_by-set (λ d. sum_by w (P.local d)) q.stealers i d d' h

  batch-weight :
      (q : P.Injector) (d : P.Deque) (r : Steal × P.Injector × P.Deque)
      → BatchTaken P q d r
      → sum_by w (P.injected r.1) + sum_by w (P.local r.2) + steal_weight w r.0
        ≡ sum_by w (P.injected q) + sum_by w (P.local d)
  batch-weight q d (Steal.success t, q', d') (batch, front, back) = omega (
    arith,
    ap (sum_by w) front,
    ap (sum_by w) back,
    sum_by-append w batch (P.injected q'),
    sum_by-append w (P.local d) batch,
  )
  batch-weight q d (Steal.empty, q', d') h =
      omega (arith, ap (sum_by w) h.0, ap (sum_by w) h.1, ap (sum_by w) h.2)
  batch-weight q d (Steal.retry, q', d') h = omega (arith, ap (sum_by w) h.0, ap (sum_by w) h.1)

  stored-batch :
      (lane : TaskPriority) (q : QueueSystem P) (i : ℕ) (d : P.Deque)
      (r : Steal × P.Injector × P.Deque)
      → get_elem? q.stealers i ≡ some d
      → BatchTaken P (injector P lane q) d r
      → stored P w (record (set_injector P lane r.1 q) {
        stealers = set (set_injector P lane r.1 q).stealers i r.2;
      })
          + steal_weight w r.0
        ≡ stored P w q
  stored-batch TaskPriority.high q i d r e h =
      omega (arith, stored-set q i d r.2 e, batch-weight q.high d r h)
  stored-batch TaskPriority.normal q i d r e h =
      omega (arith, stored-set q i d r.2 e, batch-weight q.normal d r h)
  stored-batch TaskPriority.low q i d r e h =
      omega (arith, stored-set q i d r.2 e, batch-weight q.low d r h)

  pub batch_from-stored :
      (thread chance : ℕ) (lane : TaskPriority) (i : ℕ) (q : QueueSystem P)
      → Holds
          (λ x q'. stored P w q' + steal_weight w x ≡ stored P w q)
          (batch_from P thread chance lane i q)
  unfolding batch_from
  batch_from-stored thread chance lane i q = on_deque-Holds P thread chance i q _ _ λ d e.
      stored-batch lane q i d (P.steal_batch_and_pop chance (injector P lane q) d) e
        (C.batches chance (injector P lane q) d)

  stored-pop :
      (q : QueueSystem P) (i : ℕ) (d : P.Deque) (r : Option Task × P.Deque)
      → get_elem? q.stealers i ≡ some d
      → Popped P d r
      → stored P w (record q { stealers = set q.stealers i r.1 }) + pop_weight w r.0 ≡ stored P w q
  stored-pop q i d (some t, d') e h = omega (arith, stored-set q i d d' e, ap (sum_by w) h)
  stored-pop q i d (none, d') e h =
      omega (arith, stored-set q i d d' e, ap (sum_by w) h.0, ap (sum_by w) h.1)

  pub pop_from-stored :
      (thread chance : ℕ) (i : ℕ) (q : QueueSystem P)
      → Holds (λ x q'. stored P w q' + pop_weight w x ≡ stored P w q) (pop_from P thread chance i q)
  unfolding pop_from
  pop_from-stored thread chance i q =
      on_deque-Holds P thread chance i q _ _ λ d e. stored-pop q i d (P.pop d) e (C.pops d)

  stored-steal :
      (q : QueueSystem P) (i : ℕ) (d : P.Deque) (r : Steal × P.Deque)
      → get_elem? q.stealers i ≡ some d
      → Stolen P d r
      → stored P w (record q { stealers = set q.stealers i r.1 }) + steal_weight w r.0
        ≡ stored P w q
  stored-steal q i d (Steal.success t, d') e h =
      omega (arith, stored-set q i d d' e, ap (sum_by w) h)
  stored-steal q i d (Steal.empty, d') e h =
      omega (arith, stored-set q i d d' e, ap (sum_by w) h.0, ap (sum_by w) h.1)
  stored-steal q i d (Steal.retry, d') e h = omega (arith, stored-set q i d d' e, ap (sum_by w) h)

  pub steal_from-stored :
      (thread chance : ℕ) (i : ℕ) (q : QueueSystem P)
      → Holds
          (λ x q'. stored P w q' + steal_weight w x ≡ stored P w q)
          (steal_from P thread chance i q)
  unfolding steal_from
  steal_from-stored thread chance i q =
      on_deque-Holds P thread chance i q _ _
        λ d e. stored-steal q i d (P.steal chance d) e (C.steals chance d)

  pub push_to-stored :
      (thread chance : ℕ) (lane : TaskPriority) (t : Task) (q : QueueSystem P)
      → stored P w (push_to P thread chance lane t q) ≡ stored P w q + w t
  unfolding push_to
  push_to-stored thread chance TaskPriority.high t q =
      omega (arith, ap (sum_by w) (C.pushes t q.high), sum_by-append w (P.injected q.high) (t ∷ []))
  push_to-stored thread chance TaskPriority.normal t q =
      omega
        (arith, ap (sum_by w) (C.pushes t q.normal), sum_by-append w (P.injected q.normal) (t ∷ []))
  push_to-stored thread chance TaskPriority.low t q =
      omega (arith, ap (sum_by w) (C.pushes t q.low), sum_by-append w (P.injected q.low) (t ∷ []))
