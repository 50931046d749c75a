-- ===== src/System/Counters.antt =====
-- The counters of src/stats.rs against what happened in a run.
use libcortlet_upgradesched.Prelude.{
  ℕ, ◌+◌, ◌≤◌, ◌≡◌, arith, wrap, sum_by, sum_below, sum_below-update, subst, update, Bool-cases,
  ◌==◌, inl, inr,
}
use libcortlet_upgradesched.Stats.{Event, SchedulerStats, record_event, read_event}
use libcortlet_upgradesched.Platform.{Platform}
use libcortlet_upgradesched.Machine.{Op, Answer}
use libcortlet_upgradesched.Ownership.{Ghost, executed, held, Allowed, after}
use libcortlet_upgradesched.Effects.{Holds}
use libcortlet_upgradesched.Effects.Records.{stats_after, perform-StatLaw}
use libcortlet_upgradesched.Conduct.{Conduct, conduct_after, Proper}
use libcortlet_upgradesched.System.{System}
use libcortlet_upgradesched.System.Conducted.{Conducted}
use libcortlet_upgradesched.System.History
use libcortlet_upgradesched.System.History.{published}

-- Every task weighs one.
abbrev pub each : ℕ → ℕ → ℕ
each function argument = 1

-- 1 for an access that records the event.
abbrev pub recording : Event → Op → ℕ
recording Event.submission (Op.stat Event.submission) = 1
recording Event.completion (Op.stat Event.completion) = 1
recording Event.queue_full (Op.stat Event.queue_full) = 1
recording Event.steal_attempt (Op.stat Event.steal_attempt) = 1
recording Event.steal_success (Op.stat Event.steal_success) = 1
recording Event.fairness_yield (Op.stat Event.fairness_yield) = 1
recording Event.steal_failure (Op.stat Event.steal_failure) = 1
recording _ _ = 0

-- The counter of an event holds the number of its recordings, as a word.
read-stats_after :
    (e : Event) (op : Op) (stats : SchedulerStats) (past : ℕ)
    → read_event e stats ≡ wrap past
    → read_event e (stats_after op stats) ≡ wrap (recording e op + past)
unfolding read_event record_event
read-stats_after Event.submission op stats past h = ground arith
read-stats_after Event.completion op stats past h = ground arith
read-stats_after Event.queue_full op stats past h = ground arith
read-stats_after Event.steal_attempt op stats past h = ground arith
read-stats_after Event.steal_success op stats past h = ground arith
read-stats_after Event.fairness_yield op stats past h = ground arith
read-stats_after Event.steal_failure op stats past h = ground arith

-- The sums over the conduct of all threads behind one access.
module _ (m : Conduct) (total total' past done : ℕ) where
  pushes-after :
      (op : Op) (x : Answer op)
      → Proper op m
      → total' + m.unrecorded ≡ total + (conduct_after op x m).unrecorded
      → past ≡ done + total
      → published each op + past ≡ recording Event.submission op + done + total'
  pushes-after Op.load_shutdown x proper t e = ground arith
  pushes-after (Op.stat Event.submission) x proper t e = ground arith
  pushes-after _ x proper t e = ground arith

  executions-after :
      (op : Op) (x : Answer op)
      → Proper op m
      → total' + m.uncounted ≡ total + (conduct_after op x m).uncounted
      → past ≡ done + total
      → History.executed each op + past ≡ recording Event.completion op + done + total'
  executions-after Op.load_shutdown x proper t e = ground arith
  executions-after (Op.stat Event.completion) x proper t e = ground arith
  executions-after _ x proper t e = ground arith

  attempts-after :
      (failures : ℕ) (op : Op) (x : Answer op)
      → Proper op m
      → total' + m.attempts ≡ total + (conduct_after op x m).attempts
      → past ≡ done + failures + total
      → recording Event.steal_attempt op + past
        ≡ recording Event.steal_success op
          + done
          + (recording Event.steal_failure op + failures)
          + total'
  attempts-after failures Op.load_shutdown x proper t e = ground arith
  attempts-after failures (Op.stat e) x proper t h = ground arith
  attempts-after failures _ x proper t e = ground arith

-- A thread that has an execution to record holds the slot of the task that it executed, and it has
-- at most one push and one execution to record.
abbrev pub Linked : Ghost → Conduct → Type 0
Linked own m = (1 ≤ m.uncounted → own.slot ≡ executed) × (m.unrecorded ≤ 1) × (m.uncounted ≤ 1)

Linked-after :
    (capacity : ℕ) (own : Ghost) (m : Conduct) (op : Op) (x : Answer op)
    → Allowed capacity own op
    → Proper op m
    → Linked own m
    → Linked (after op x own) (conduct_after op x m)
Linked-after capacity own m Op.load_shutdown x a proper h = ground arith
Linked-after capacity own m op x a proper h = ground arith

-- A thread without a slot has no execution to record.
pub Linked-uncounted : (own : Ghost) (m : Conduct) → Linked own m → held own ≡ 0 → m.uncounted ≡ 0
Linked-uncounted own m h free = ground arith

module _ {P : Platform} {A : Type 0} (n : ℕ) where
  pub record Tallied (own : ℕ → Ghost) (m : ℕ → Conduct) (s : System P A) : Type 0 where
    pub recorded :
        (e : Event) → read_event e s.store.shared.stats ≡ wrap (sum_by (recording e) s.trace)
    pub pushes :
        sum_by (published each) s.trace
        ≡ sum_by (recording Event.submission) s.trace + sum_below (λ m. m.unrecorded) n m
    pub executions :
        sum_by (History.executed each) s.trace
        ≡ sum_by (recording Event.completion) s.trace + sum_below (λ m. m.uncounted) n m
    pub steals :
        sum_by (recording Event.steal_attempt) s.trace
        ≡ sum_by (recording Event.steal_success) s.trace
          + sum_by (recording Event.steal_failure) s.trace
          + sum_below (λ m. m.attempts) n m
    pub linked : (i : ℕ) → Linked (own i) (m i)

  pub Tallied-Conducted : (capacity : ℕ) → Conducted {P = P} {A = A} n capacity Tallied
  Tallied-Conducted capacity = record {
    keep = λ own m s i op k x s' below h a f proper.
        let total : (w : Conduct → ℕ)
            → sum_below w n (update m i (conduct_after op x (m i))) + w (m i)
              ≡ sum_below w n m + w (conduct_after op x (m i)) =
          λ w. sum_below-update w n m i (conduct_after op x (m i)) below in
        record {
          recorded = λ e.
              rw (subst (Holds _) f.performed (perform-StatLaw P i f.chance op s.store)) (
                read-stats_after e op s.store.shared.stats (sum_by (recording e) s.trace)
                  (h.recorded e));
          pushes =
              pushes-after (m i) (sum_below (λ m. m.unrecorded) n m) _ _ _ op x proper
                (total (λ m. m.unrecorded)) h.pushes;
          executions =
              executions-after (m i) (sum_below (λ m. m.uncounted) n m) _ _ _ op x proper
                (total (λ m. m.uncounted)) h.executions;
          steals =
              attempts-after (m i) (sum_below (λ m. m.attempts) n m) _ _ _ _ op x proper
                (total (λ m. m.attempts)) h.steals;
          linked = λ j. elim (Bool-cases (i == j)) [
            | inl e ↦ rw e (Linked-after capacity (own i) (m i) op x a proper (h.linked i))
            | inr e ↦ rw e (h.linked j)
          ];
        };
  }
