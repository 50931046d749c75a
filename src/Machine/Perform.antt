-- ===== src/Machine/Perform.antt =====
-- What each atomic access does to the shared state. `none`: the thread is blocked there for now.
use libcortlet_upgradesched.Prelude.{
  ℕ, ◌+◌, Bool, true, false, Option, none, some, get_elem?, set, update, wrap, wrapping_pred, ◌==◌,
  ◌&&◌, not, if◌then◌else◌, List,
}
use libcortlet_upgradesched.Task.{Task, TaskPriority}
use libcortlet_upgradesched.Stats.{record_event, read_event}
use libcortlet_upgradesched.Platform.{Platform, Steal}
use libcortlet_upgradesched.Machine.{Op, GroupOp, GroupAnswer, Answer, Exchange, exchanged, failed}
use libcortlet_upgradesched.Machine.Store.{
  TaskGroup, QueueSystem, WorkerShared, Store, injector, set_injector,
}

module _ (P : Platform) (thread chance : ℕ) where
  -- Blocked until the notification has come and the mutex is free.
  unfoldable pub wake_up : P.Condvar → P.Mutex → Option P.Mutex
  wake_up condvar mutex = if P.is_waiting thread condvar then none else P.lock thread mutex

  unfoldable pub with_mutex {ℓ} :
      {S : Type ℓ} → (P.Mutex → S) → Option P.Mutex → Option (Unit {0} × S)
  with_mutex f none = none
  with_mutex f (some mutex) = some (tt, f mutex)

  unfoldable pub group_perform :
      (op : GroupOp) → TaskGroup P → Option (GroupAnswer op × TaskGroup P)
  unfolding wake_up with_mutex
  group_perform GroupOp.load_closed g = some (g.closed, g)
  group_perform GroupOp.store_closed g = some (tt, record g { closed = true })
  group_perform GroupOp.load_count g = some (g.tasks_in_flight, g)
  group_perform GroupOp.fetch_add g =
      some (g.tasks_in_flight, record g { tasks_in_flight = wrap (g.tasks_in_flight + 1) })
  group_perform GroupOp.fetch_sub g =
      some (g.tasks_in_flight, record g { tasks_in_flight = wrapping_pred g.tasks_in_flight })
  group_perform GroupOp.lock_wait g =
      with_mutex (λ mutex. record g { wait_lock = mutex }) (P.lock thread g.wait_lock)
  group_perform GroupOp.unlock_wait g = some (tt, record g { wait_lock = P.unlock g.wait_lock })
  group_perform GroupOp.block g =
      some (tt, record g { wait_lock = P.unlock g.wait_lock; wake = P.enqueue thread g.wake })
  group_perform GroupOp.resume g =
      with_mutex (λ mutex. record g { wait_lock = mutex }) (wake_up g.wake g.wait_lock)
  group_perform GroupOp.notify_all g = some (tt, record g { wake = P.notify_all g.wake })

  -- A weak compare-exchange may fail although the values agree: chance 0 stands for that.
  unfoldable pub exchange : (current new : ℕ) → WorkerShared P → Exchange × WorkerShared P
  exchange current new s =
      if s.tasks_in_flight == current && not (chance == 0)
      then (exchanged s.tasks_in_flight, record s { tasks_in_flight = new })
      else (failed s.tasks_in_flight, s)

  -- Put back a deque, or stay blocked where there is none of that index.
  unfoldable pub on_deque {ℓ} :
      {A : Type ℓ}
      → (index : ℕ) → QueueSystem P
      → (P.Deque → A × QueueSystem P × P.Deque)
      → Option (A × QueueSystem P)
  on_deque index q f = elim (get_elem? q.stealers index) [
    | none ↦ none
    | some d ↦ let (a, q', d') = f d in some (a, record q' { stealers = set q'.stealers index d' })
  ]

  unfoldable pub batch_from :
      TaskPriority → (local : ℕ) → QueueSystem P → Option (Steal × QueueSystem P)
  unfolding on_deque
  batch_from lane local q = on_deque local q λ d.
      let (answer, inj, d') = P.steal_batch_and_pop chance (injector P lane q) d in
      (answer, set_injector P lane inj q, d')

  unfoldable pub pop_from : (local : ℕ) → QueueSystem P → Option (Option Task × QueueSystem P)
  unfolding on_deque
  pop_from local q = on_deque local q λ d. let (answer, d') = P.pop d in (answer, q, d')

  unfoldable pub steal_from : (victim : ℕ) → QueueSystem P → Option (Steal × QueueSystem P)
  unfolding on_deque
  steal_from victim q =
      on_deque victim q λ d. let (answer, d') = P.steal chance d in (answer, q, d')

  unfoldable pub push_to : TaskPriority → Task → QueueSystem P → QueueSystem P
  push_to lane t q = set_injector P lane (P.injector_push t (injector P lane q)) q

  unfoldable pub is_index : ℕ → List P.Deque → Bool
  is_index i l = elim (get_elem? l i) [ none ↦ false | some d ↦ true ]

  unfoldable pub with_queues {ℓ} :
      {A : Type ℓ} → WorkerShared P → Option (A × QueueSystem P) → Option (A × WorkerShared P)
  with_queues s none = none
  with_queues s (some (a, q)) = some (a, record s { queues = q })

  unfoldable pub shared_perform : (op : Op) → WorkerShared P → Option (Answer op × WorkerShared P)
  unfolding wake_up with_mutex exchange batch_from pop_from steal_from push_to is_index with_queues
      record_event read_event
  shared_perform Op.load_in_flight s = some (s.tasks_in_flight, s)
  shared_perform Op.fetch_add_in_flight s =
      some (s.tasks_in_flight, record s { tasks_in_flight = wrap (s.tasks_in_flight + 1) })
  shared_perform Op.fetch_sub_in_flight s =
      some (s.tasks_in_flight, record s { tasks_in_flight = wrapping_pred s.tasks_in_flight })
  shared_perform (Op.compare_exchange_weak current new) s = some (exchange current new s)
  shared_perform Op.load_sleeping s = some (s.sleeping_workers, s)
  shared_perform Op.fetch_add_sleeping s =
      some (s.sleeping_workers, record s { sleeping_workers = wrap (s.sleeping_workers + 1) })
  shared_perform Op.fetch_sub_sleeping s =
      some (s.sleeping_workers, record s { sleeping_workers = wrapping_pred s.sleeping_workers })
  shared_perform Op.load_shutdown s = some (s.shutdown, s)
  shared_perform Op.store_shutdown s = some (tt, record s { shutdown = true })
  shared_perform (Op.stat e) s = some (tt, record s { stats = record_event e s.stats })
  shared_perform (Op.load_stat e) s = some (read_event e s.stats, s)
  shared_perform Op.lock_sleep s =
      with_mutex (λ mutex. record s { sleep_lock = mutex }) (P.lock thread s.sleep_lock)
  shared_perform Op.unlock_sleep s = some (tt, record s { sleep_lock = P.unlock s.sleep_lock })
  shared_perform Op.block s =
      some (tt, record s { sleep_lock = P.unlock s.sleep_lock; wake = P.enqueue thread s.wake })
  shared_perform Op.resume s =
      with_mutex (λ mutex. record s { sleep_lock = mutex }) (wake_up s.wake s.sleep_lock)
  shared_perform Op.notify_one s = some (tt, record s { wake = P.notify_one chance s.wake })
  shared_perform Op.notify_all s = some (tt, record s { wake = P.notify_all s.wake })
  shared_perform (Op.push_injector lane t) s =
      some (tt, record s { queues = push_to lane t s.queues })
  shared_perform (Op.steal_batch_and_pop lane local) s =
      with_queues s (batch_from lane local s.queues)
  shared_perform (Op.pop_local local) s = with_queues s (pop_from local s.queues)
  shared_perform (Op.has_stealer victim) s = some (is_index victim s.queues.stealers, s)
  shared_perform (Op.steal victim) s = with_queues s (steal_from victim s.queues)
  shared_perform (Op.execute t) s = some (tt, s)
  shared_perform (Op.group g op) s = none

  unfoldable pub with_group {ℓ} :
      {A : Type ℓ} → ℕ → Store P → Option (A × TaskGroup P) → Option (A × Store P)
  with_group g s none = none
  with_group g s (some (a, group')) = some (a, record s { groups = update s.groups g group' })

  unfoldable pub with_shared {ℓ} :
      {A : Type ℓ} → Store P → Option (A × WorkerShared P) → Option (A × Store P)
  with_shared s none = none
  with_shared s (some (a, shared')) = some (a, record s { shared = shared' })

  unfoldable pub perform : (op : Op) → Store P → Option (Answer op × Store P)
  unfolding shared_perform group_perform with_group with_shared
  perform (Op.group g op) s = with_group g s (group_perform op (s.groups g))
  perform op s = with_shared s (shared_perform op s.shared)
