-- ===== src/System/Exclusion.antt =====
-- `sleep_lock` and the count of sleeping workers (src/worker.rs) at every moment of every run.
use libcortlet_upgradesched.Prelude.{
  ℕ, ◌+◌, ◌≤◌, ◌<◌, ◌^◌, ◌≡◌, refl, arith, true, some, List, wrap, sum_below, sum_below-zero,
  sum_below-le-sum_below, sum_below-add-le,
}
use libcortlet_upgradesched.Platform.{Platform, Crossbeam, ParkingLot}
use libcortlet_upgradesched.Conduct.{Conduct}
use libcortlet_upgradesched.System.{Turn, System, run}
use libcortlet_upgradesched.System.Calls.{Call, start}
use libcortlet_upgradesched.System.Conducted.{fresh, Follows, run-Explained}
use libcortlet_upgradesched.System.Locking.{
  asleep_bit, Agrees, needs_lock, is_apart, needs_lock-locked, is_apart-Idle, Locked,
  Locked-Conducted, Slept, Slept-Conducted, apart_bit, waking_bit, apart_bit-asleep_bit,
  waking_bit-asleep_bit,
}

module _ (P : Platform) (C : Crossbeam P) (n worker_count capacity : ℕ) (small : capacity < 2 ^ 64)
    (calls : ℕ → List Call) (turns : List Turn) where
  abbrev after_run : System P (Unit {0})
  after_run = run n turns (start P worker_count capacity calls)

  module _ (L : ParkingLot P) where
    Locked-after_run :
        (m : ℕ → Conduct) × Follows m after_run
        × ((i : ℕ) → Agrees i (m i) (L.holder after_run.store.shared.sleep_lock))
    unfolding start
    Locked-after_run =
        let (own, v, (m, f, h)) =
          run-Explained P C n worker_count capacity small calls turns (Locked L)
            (Locked-Conducted L n capacity)
            (record { agrees = λ i. (λ e. absurd (ground arith), λ e. absurd (free i e)) }) in
        (m, f, h.agrees)
      where
        free : (i : ℕ) → L.holder P.mutex_new ≡ some i → ⊥
        free i e = ground (arith, L.starts_free)

    -- In a scheduler with a capacity below 2^64, 0 included, at every moment of every interleaving,
    -- with a mutex as parking_lot documents it: of the accesses that need `sleep_lock` (to give it
    -- back, to block, to change the count of sleeping workers) at most one thread is at one, and
    -- that thread is the holder of the lock.
    pub needs_lock-exclusive :
        (i j : ℕ)
        → needs_lock (after_run.threads i) ≡ true
        → needs_lock (after_run.threads j) ≡ true
        → (i ≡ j) × (L.holder after_run.store.shared.sleep_lock ≡ some i)
    needs_lock-exclusive i j at_i at_j =
        let (m, f, h) = Locked-after_run in
        let held_i = (h i).0 (needs_lock-locked (m i) _ (f i) at_i) in
        let held_j = (h j).0 (needs_lock-locked (m j) _ (f j) at_j) in
        (ground (arith, held_i, held_j), held_i)

    -- In a scheduler with a capacity below 2^64, 0 included, at every moment of every interleaving,
    -- with a mutex as parking_lot documents it: a thread that has ended, or that is about to call a
    -- task's function, does not hold `sleep_lock`.
    pub is_apart-unlocked :
        (i : ℕ)
        → is_apart (after_run.threads i) ≡ true
        → ¬ (L.holder after_run.store.shared.sleep_lock ≡ some i)
    is_apart-unlocked i apart held =
        let (m, f, h) = Locked-after_run in
        let (unlocked, awake) = is_apart-Idle (m i) _ (f i) apart in
        absurd (ground (arith, (h i).1 held, unlocked))

  Slept-after_run :
      (m : ℕ → Conduct) × Follows m after_run
      × (after_run.store.shared.sleeping_workers ≡ wrap (sum_below asleep_bit n m))
  unfolding start
  Slept-after_run =
      let (own, v, (m, f, h)) =
        run-Explained P C n worker_count capacity small calls turns (Slept n)
          (Slept-Conducted n capacity)
          (record { slept = rw (sum_below-zero asleep_bit n (λ _. fresh) (λ _ _. refl)) refl }) in
      (m, f, h.slept)

  -- In a scheduler with a capacity below 2^64, 0 included, and fewer than 2^64 threads, at every
  -- moment of every interleaving: the count of sleeping workers and the threads that have ended or
  -- are about to call a task's function are together at most the number of threads, and the
  -- threads that are about to take themselves off the count are at most the count, so that it never
  -- wraps.
  pub sleeping_workers-le :
      n < 2 ^ 64
      → (after_run.store.shared.sleeping_workers + sum_below apart_bit n after_run.threads ≤ n)
        × (sum_below waking_bit n after_run.threads ≤ after_run.store.shared.sleeping_workers)
  sleeping_workers-le few =
      let (m, f, e) = Slept-after_run in
      let calm =
        sum_below-add-le apart_bit asleep_bit n after_run.threads m
          (λ i. apart_bit-asleep_bit (m i) (after_run.threads i) (f i)) in
      let waking =
        sum_below-le-sum_below waking_bit asleep_bit n after_run.threads m
          (λ i. waking_bit-asleep_bit (m i) (after_run.threads i) (f i)) in
      (omega (arith, calm, e, few), omega (arith, calm, waking, e, few))
