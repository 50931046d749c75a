-- ===== src/Ffi/Queries.antt =====
-- What `cortlet_sched_get_stats` of src/ffi.rs reports of the events that src/stats.rs recorded.
use libcortlet_upgradesched.Prelude.{
  ℕ, ◌+◌, ◌<◌, ◌^◌, ◌≡◌, refl, ◌∙◌, arith, true, some, List, [], ◌∷◌, wrap,
}
use libcortlet_upgradesched.Stats.{Event, SchedulerStats, record_event, read_event}
use libcortlet_upgradesched.Platform.{Platform}
use libcortlet_upgradesched.Machine.{Op, Prog, ret, call, ◌>>◌}
use libcortlet_upgradesched.Machine.Store.{Store}
use libcortlet_upgradesched.Machine.Perform.{perform}
use libcortlet_upgradesched.Machine.Alone.{alone}
use libcortlet_upgradesched.Startup.{Scheduler}
use libcortlet_upgradesched.Ffi.{ok}
use libcortlet_upgradesched.Ffi.Info.{CortletSchedulerStats, cortlet_sched_get_stats}

-- The field of the C structure for each event.
abbrev pub reported : CortletSchedulerStats → Event → ℕ
reported out Event.submission = out.submitted
reported out Event.completion = out.completed
reported out Event.queue_full = out.rejected_full
reported out Event.steal_attempt = out.steals_attempted
reported out Event.steal_success = out.steals_succeeded
reported out Event.fairness_yield = out.fairness_yields
reported out Event.steal_failure = out.steal_failures

-- Events are recorded one after the other.
abbrev pub record_all : List Event → Prog (Unit {0})
record_all [] = ret tt
record_all (e ∷ events) = call (Op.stat e) >> record_all events

-- 1 where both are the same event.
abbrev same : Event → Event → ℕ
same Event.submission Event.submission = 1
same Event.completion Event.completion = 1
same Event.queue_full Event.queue_full = 1
same Event.steal_attempt Event.steal_attempt = 1
same Event.steal_success Event.steal_success = 1
same Event.fairness_yield Event.fairness_yield = 1
same Event.steal_failure Event.steal_failure = 1
same _ _ = 0

abbrev pub occurrences : Event → List Event → ℕ
occurrences e [] = 0
occurrences e (event ∷ events) = same e event + occurrences e events

read-record :
    (e event : Event) (s : SchedulerStats)
    → read_event e s < 2 ^ 64
    → read_event e (record_event event s) ≡ wrap (read_event e s + same e event)
unfolding read_event record_event
read-record e event s h = ground arith

-- The counters behind some events.
abbrev recorded : List Event → SchedulerStats → SchedulerStats
recorded [] stats = stats
recorded (e ∷ events) stats = recorded events (record_event e stats)

read-recorded :
    (e : Event) (events : List Event) (stats : SchedulerStats)
    → read_event e stats < 2 ^ 64
    → read_event e (recorded events stats) ≡ wrap (read_event e stats + occurrences e events)
read-recorded e [] stats h = omega arith
read-recorded e (event ∷ events) stats h =
    let here : read_event e (record_event event stats) ≡ wrap (read_event e stats + same e event) =
      read-record e event stats h in
    omega (arith, here, read-recorded e events (record_event event stats) (omega (arith, here)))

module _ (P : Platform) (thread chance : ℕ) where
  with_stats : SchedulerStats → Store P → Store P
  with_stats stats s = record s { shared = record (s.shared) { stats = stats } }

  alone-record_all :
      {A : Type 0} (events : List Event) (p : Prog A) (stats : SchedulerStats) (s : Store P)
      → alone P thread chance (record_all events >> p) (with_stats stats s)
        ≡ alone P thread chance p (with_stats (recorded events stats) s)
  unfolding alone perform with_stats
  alone-record_all [] p stats s = refl
  alone-record_all (e ∷ events) p stats s = alone-record_all events p (record_event e stats) s

  report : Store P → CortletSchedulerStats
  report s = record {
    submitted = s.shared.stats.submitted;
    completed = s.shared.stats.completed;
    rejected_full = s.shared.stats.rejected_full;
    steals_attempted = s.shared.stats.steals_attempted;
    steals_succeeded = s.shared.stats.steals_succeeded;
    steal_failures = s.shared.stats.steal_failures;
    fairness_yields = s.shared.stats.fairness_yields;
    outstanding = s.shared.tasks_in_flight;
  }

  alone-get_stats :
      (sched : Scheduler) (s : Store P)
      → alone P thread chance (cortlet_sched_get_stats (some sched) true) s
        ≡ some ((ok, some (report s)), s)
  unfolding alone perform cortlet_sched_get_stats report
  alone-get_stats sched s = refl

  reported-report : (e : Event) (s : Store P) → reported (report s) e ≡ read_event e s.shared.stats
  unfolding read_event report
  reported-report Event.submission s = refl
  reported-report Event.completion s = refl
  reported-report Event.queue_full s = refl
  reported-report Event.steal_attempt s = refl
  reported-report Event.steal_success s = refl
  reported-report Event.fairness_yield s = refl
  reported-report Event.steal_failure s = refl

  -- Undisturbed: where any events are recorded, in any order, and then `get_stats` is called with two
  -- pointers that are not null, it succeeds, and each of the seven counters that it writes is the
  -- value before, plus how often its own event is among them, modulo 2^64. It also writes how many
  -- tasks are in flight.
  pub record_all-get_stats :
      (sched : Scheduler) (events : List Event) (s : Store P)
      → ((e : Event) → read_event e s.shared.stats < 2 ^ 64)
      → (out : CortletSchedulerStats) × (s' : Store P) × (alone P thread chance
            (record_all events >> cortlet_sched_get_stats (some sched) true)
            s
          ≡ some ((ok, some out), s'))
        × ((e : Event) → reported out e ≡ wrap (read_event e s.shared.stats + occurrences e events))
        × (out.outstanding ≡ s.shared.tasks_in_flight)
  unfolding report with_stats
  record_all-get_stats sched events s words =
      let s' : Store P = with_stats (recorded events s.shared.stats) s in
      (
        report s',
        s',
        alone-record_all events (cortlet_sched_get_stats (some sched) true) s.shared.stats s
            ∙ alone-get_stats sched s',
        λ e. reported-report e s' ∙ read-recorded e events s.shared.stats (words e),
        refl,
      )
