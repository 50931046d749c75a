-- ===== src/Effects/Records.antt =====
-- What an access does to the counters (src/stats.rs), to the count of sleeping workers and to
-- `sleep_lock` (src/worker.rs).
use libcortlet_upgradesched.Prelude.{
  ℕ, ◌+◌, ◌≡◌, refl, arith, Bool, true, false, Option, none, some, wrap, wrapping_pred,
  if◌then◌else◌,
}
use libcortlet_upgradesched.Stats.{SchedulerStats, record_event}
use libcortlet_upgradesched.Platform.{Platform, ParkingLot}
use libcortlet_upgradesched.Machine.{Op}
use libcortlet_upgradesched.Machine.Store.{Store}
use libcortlet_upgradesched.Machine.Perform.{perform, wake_up, with_mutex, with_shared}
use libcortlet_upgradesched.Effects.{Holds}

abbrev pub stats_after : Op → SchedulerStats → SchedulerStats
stats_after (Op.stat e) s = record_event e s
stats_after _ s = s

abbrev pub SleepLaw : Op → ℕ → ℕ → Type 0
SleepLaw Op.fetch_add_sleeping before after = after ≡ wrap (before + 1)
SleepLaw Op.fetch_sub_sleeping before after = after ≡ wrapping_pred before
SleepLaw _ before after = after ≡ before

-- The thread that holds the lock, before and after an access of `thread`.
abbrev pub LockLaw : (thread : ℕ) → Op → Option ℕ → Option ℕ → Type 0
LockLaw thread Op.lock_sleep before after = (before ≡ none) × (after ≡ some thread)
LockLaw thread Op.resume before after = (before ≡ none) × (after ≡ some thread)
LockLaw thread Op.unlock_sleep before after = after ≡ none
LockLaw thread Op.block before after = after ≡ none
LockLaw thread _ before after = after ≡ before

module _ (P : Platform) (thread chance : ℕ) where
  pub perform-StatLaw :
      (op : Op) (s : Store P)
      → Holds
          (λ x s'. s'.shared.stats ≡ stats_after op s.shared.stats)
          (perform P thread chance op s)
  unfolding perform record_event
  perform-StatLaw Op.load_shutdown s = refl
  perform-StatLaw (Op.stat e) s = refl
  perform-StatLaw _ s = ground arith

  pub perform-SleepLaw :
      (op : Op) (s : Store P)
      → Holds
          (λ x s'. SleepLaw op s.shared.sleeping_workers s'.shared.sleeping_workers)
          (perform P thread chance op s)
  unfolding perform
  perform-SleepLaw Op.load_shutdown s = refl
  perform-SleepLaw _ s = ground arith

  module _ (L : ParkingLot P) where
    -- Where the lock is given, its holder is as it says.
    given :
        (mutex : P.Mutex) (s : Store P) (r : Option P.Mutex)
        → P.lock thread mutex ≡ r
        → Holds
            (λ x s'. (L.holder mutex ≡ none) × (L.holder s'.shared.sleep_lock ≡ some thread))
            (with_shared P thread chance s
              (with_mutex P thread chance (λ mutex. record s.shared { sleep_lock = mutex }) r))
    unfolding with_shared with_mutex
    given mutex s none e = tt
    given mutex s (some mutex') e = L.locks thread mutex mutex' e

    given_awake :
        (waiting : Bool) (mutex : P.Mutex) (s : Store P)
        → Holds
            (λ x s'. (L.holder mutex ≡ none) × (L.holder s'.shared.sleep_lock ≡ some thread))
            (with_shared P thread chance s (
              with_mutex P thread chance
                (λ mutex. record s.shared { sleep_lock = mutex })
                (if waiting then none else P.lock thread mutex)))
    unfolding with_shared with_mutex
    given_awake true mutex s = tt
    given_awake false mutex s = given mutex s _ refl

    pub perform-LockLaw :
        (op : Op) (s : Store P)
        → Holds
            (λ x s'.
              LockLaw thread op (L.holder s.shared.sleep_lock) (L.holder s'.shared.sleep_lock))
            (perform P thread chance op s)
    unfolding perform wake_up
    perform-LockLaw Op.load_shutdown s = refl
    perform-LockLaw Op.unlock_sleep s = L.unlocks s.shared.sleep_lock
    perform-LockLaw Op.block s = L.unlocks s.shared.sleep_lock
    perform-LockLaw Op.lock_sleep s = given s.shared.sleep_lock s _ refl
    perform-LockLaw Op.resume s =
        given_awake (P.is_waiting thread s.shared.wake) s.shared.sleep_lock s
    perform-LockLaw _ s = ground arith
