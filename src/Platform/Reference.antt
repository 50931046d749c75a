-- ===== src/Platform/Reference.antt =====
-- A platform on which the model runs: queues are lists, and chance 0 makes a steal answer `Retry`.
use libcortlet_upgradesched.Prelude.{
  ℕ, zero, suc, ◌≡◌, refl, arith, Bool, false, Option, none, some, List, [], ◌∷◌, ◌++◌, ◌||◌, ◌==◌,
}
use libcortlet_upgradesched.Task.{Task}
use libcortlet_upgradesched.Platform.{
  Steal, Platform, Crossbeam, ParkingLot, BatchTaken, Popped, Stolen,
}

-- The first `n` tasks, and the others.
abbrev split : ℕ → List Task → List Task × List Task
split zero ts = ([], ts)
split (suc n) [] = ([], [])
split (suc n) (t ∷ ts) = let (front, back) = split n ts in (t ∷ front, back)

split-append : (n : ℕ) (ts : List Task) → ts ≡ (split n ts).0 ++ (split n ts).1
split-append zero ts = refl
split-append (suc n) [] = refl
split-append (suc n) (t ∷ ts) = λ i. t ∷ split-append n ts i

-- Chance `n + 1` moves up to `n` tasks beside the one returned.
abbrev batch_and_pop : ℕ → List Task → List Task → Steal × List Task × List Task
batch_and_pop zero q d = (Steal.retry, q, d)
batch_and_pop (suc n) [] d = (Steal.empty, [], d)
batch_and_pop (suc n) (t ∷ q) d =
    let (front, back) = split n q in (Steal.success t, back, d ++ front)

abbrev pop_front : List Task → Option Task × List Task
pop_front [] = (none, [])
pop_front (t ∷ d) = (some t, d)

abbrev steal_front : ℕ → List Task → Steal × List Task
steal_front zero d = (Steal.retry, d)
steal_front (suc n) [] = (Steal.empty, [])
steal_front (suc n) (t ∷ d) = (Steal.success t, d)

-- A mutex is the thread that holds it; a condition variable is the list of those that wait.
abbrev take_lock : ℕ → Option ℕ → Option (Option ℕ)
take_lock thread none = some (some thread)
take_lock thread (some owner) = none

abbrev member : ℕ → List ℕ → Bool
member thread [] = false
member thread (j ∷ l) = thread == j || member thread l

abbrev wake_first : List ℕ → List ℕ
wake_first [] = []
wake_first (j ∷ l) = l

abbrev pub reference : Platform
reference = record {
  Injector = List Task;
  Deque = List Task;
  Mutex = Option ℕ;
  Condvar = List ℕ;
  injector_new = [];
  injector_push = λ t q. q ++ t ∷ [];
  steal_batch_and_pop = batch_and_pop;
  new_fifo = [];
  pop = pop_front;
  steal = steal_front;
  injected = λ q. q;
  local = λ d. d;
  mutex_new = none;
  lock = take_lock;
  unlock = λ _. none;
  condvar_new = [];
  enqueue = λ thread l. thread ∷ l;
  is_waiting = member;
  notify_one = λ _. wake_first;
  notify_all = λ _. [];
}

reference-batches :
    (chance : ℕ) (q d : List Task) → BatchTaken reference q d (batch_and_pop chance q d)
reference-batches zero q d = (refl, refl)
reference-batches (suc n) [] d = (refl, refl, refl)
reference-batches (suc n) (t ∷ q) d = ((split n q).0, (λ i. t ∷ split-append n q i), refl)

reference-pops : (d : List Task) → Popped reference d (pop_front d)
reference-pops [] = (refl, refl)
reference-pops (t ∷ d) = refl

reference-steals : (chance : ℕ) (d : List Task) → Stolen reference d (steal_front chance d)
reference-steals zero d = refl
reference-steals (suc n) [] = (refl, refl)
reference-steals (suc n) (t ∷ d) = refl

pub reference-Crossbeam : Crossbeam reference
reference-Crossbeam = record {
  injector_starts = refl;
  deque_starts = refl;
  pushes = λ t q. refl;
  batches = reference-batches;
  pops = reference-pops;
  steals = reference-steals;
}

pub reference-locks :
    (thread : ℕ) (mutex mutex' : Option ℕ)
    → take_lock thread mutex ≡ some mutex'
    → (mutex ≡ none) × (mutex' ≡ some thread)
reference-locks thread none mutex' e = (refl, ground arith)
reference-locks thread (some owner) mutex' e = absurd (ground arith)

abbrev pub reference-ParkingLot : ParkingLot reference
reference-ParkingLot = record {
  holder = λ mutex. mutex;
  starts_free = refl;
  locks = reference-locks;
  unlocks = λ _. refl;
}
