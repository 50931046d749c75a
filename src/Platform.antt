-- ===== src/Platform.antt =====
-- The crates that the scheduler calls and does not contain: the deques of `crossbeam_deque`, and the
-- mutexes and condition variables of `parking_lot`. They are parameters of the model. `Crossbeam`
-- states of the deques what their documentation promises and the scheduler relies on.
pub mod Reference
use libcortlet_upgradesched.Prelude.{
  ℕ, ◌≡◌, Bool, true, false, Option, none, some, List, [], ◌∷◌, ◌++◌,
}
use libcortlet_upgradesched.Task.{Task}

-- `crossbeam_deque::Steal`
pub data Steal : Type 0 where
  success : Task → Steal
  empty retry : Steal

-- A `chance` is what the crate decides by itself: whether a race makes it answer `Retry`, how many
-- tasks a batch has, which thread a notification wakes. Threads are named by numbers.
pub record Platform : Type 1 where
  pub Injector : Type 0
  pub Deque : Type 0
  pub Mutex : Type 0
  pub Condvar : Type 0
  pub injector_new : Injector
  pub injector_push : Task → Injector → Injector
  pub steal_batch_and_pop : (chance : ℕ) → Injector → Deque → Steal × Injector × Deque
  pub new_fifo : Deque
  pub pop : Deque → Option Task × Deque
  pub steal : (chance : ℕ) → Deque → Steal × Deque
  -- The tasks inside, oldest first.
  pub injected : Injector → List Task
  pub local : Deque → List Task
  pub mutex_new : Mutex
  -- `none`: the mutex is held, so the caller waits.
  pub lock : (thread : ℕ) → Mutex → Option Mutex
  pub unlock : Mutex → Mutex
  pub condvar_new : Condvar
  pub enqueue : (thread : ℕ) → Condvar → Condvar
  pub is_waiting : (thread : ℕ) → Condvar → Bool
  pub notify_one : (chance : ℕ) → Condvar → Condvar
  pub notify_all : Condvar → Condvar

module _ (P : Platform) where
  open P use {Injector, Deque, injected, local}

  -- A batch is taken from the front of the injector. Its first task is the answer, and the others
  -- go to the back of the deque.
  abbrev pub BatchTaken : Injector → Deque → Steal × Injector × Deque → Type 0
  BatchTaken q d (Steal.success t, q', d') =
      (batch : List Task) × (injected q ≡ t ∷ (batch ++ injected q'))
      × (local d' ≡ local d ++ batch)
  BatchTaken q d (Steal.empty, q', d') =
      (injected q ≡ []) × (injected q' ≡ []) × (local d' ≡ local d)
  BatchTaken q d (Steal.retry, q', d') = (injected q' ≡ injected q) × (local d' ≡ local d)

  abbrev pub Popped : Deque → Option Task × Deque → Type 0
  Popped d (some t, d') = local d ≡ t ∷ local d'
  Popped d (none, d') = (local d ≡ []) × (local d' ≡ [])

  abbrev pub Stolen : Deque → Steal × Deque → Type 0
  Stolen d (Steal.success t, d') = local d ≡ t ∷ local d'
  Stolen d (Steal.empty, d') = (local d ≡ []) × (local d' ≡ [])
  Stolen d (Steal.retry, d') = local d' ≡ local d

  pub record Crossbeam : Type 0 where
    pub injector_starts : injected P.injector_new ≡ []
    pub deque_starts : local P.new_fifo ≡ []
    pub pushes : (t : Task) (q : Injector) → injected (P.injector_push t q) ≡ injected q ++ t ∷ []
    pub batches :
        (chance : ℕ) (q : Injector) (d : Deque) → BatchTaken q d (P.steal_batch_and_pop chance q d)
    pub pops : (d : Deque) → Popped d (P.pop d)
    pub steals : (chance : ℕ) (d : Deque) → Stolen d (P.steal chance d)

  -- Of a mutex the documentation of `parking_lot` promises at most one holder.
  pub record ParkingLot : Type 0 where
    pub holder : P.Mutex → Option ℕ
    pub starts_free : holder P.mutex_new ≡ none
    pub locks :
        (thread : ℕ) (mutex mutex' : P.Mutex)
        → P.lock thread mutex ≡ some mutex'
        → (holder mutex ≡ none) × (holder mutex' ≡ some thread)
    pub unlocks : (mutex : P.Mutex) → holder (P.unlock mutex) ≡ none
