-- ===== src/Worker/Drain.antt =====
-- A worker of src/worker.rs, undisturbed after a shutdown: it drains all queues and ends.
use libcortlet_upgradesched.Prelude.{
  sum_by, sum_by-append, [], ℕ, ◌+◌, List, zero, suc, ◌≤◌, ◌<◌, ◌^◌, ◌≡◌, refl, sym, ◌∙◌, ap, arith,
  true, some, inl, inr,
}
use libcortlet_upgradesched.Task.{Task}
use libcortlet_upgradesched.Machine.Log.{log, log-after}
use libcortlet_upgradesched.System.History.{weight, executed}
use libcortlet_upgradesched.Platform.{Platform, Crossbeam}
use libcortlet_upgradesched.Machine.{loop, next_round}
use libcortlet_upgradesched.Machine.Store.{Store}
use libcortlet_upgradesched.Machine.Alone.{alone, alone_after}
use libcortlet_upgradesched.Queue.View.{View}
use libcortlet_upgradesched.Queue.Injectors.{NoRetry}
use libcortlet_upgradesched.Queue.Stealing.{NoLostRace}
use libcortlet_upgradesched.Queue.Remaining.{Numbered, SeesAll, all_tasks, Found, Nothing}
use libcortlet_upgradesched.Queue.Outcome.{pop_for_worker-Outcome}
use libcortlet_upgradesched.Worker.{Worker, worker_round}
use libcortlet_upgradesched.Worker.OneRound.{
  SeesAll-queues, searching, round-task, round-empty, sum_zero,
}

-- The weight that counts tasks.
abbrev pub one_each : Task → ℕ
one_each t = 1

module _ (P : Platform) (local thread chance : ℕ) where
  -- The loop ends in a state with nothing in flight and nothing queued; and of each function and
  -- argument, as many tasks were executed as were queued.
  abbrev pub Drains :
      (count rounds : ℕ) → Worker → View → (peers : ℕ → List Task) → Store P → Type 0
  Drains count rounds w v peers s =
      (s' : Store P) × (v' : View) × (peers' : ℕ → List Task) × (alone P thread chance
          (loop rounds (worker_round local) w) s
        ≡ some (tt, s'))
      × (s'.shared.tasks_in_flight ≡ 0)
      × SeesAll P local v' peers' s'
      × (all_tasks one_each count v' peers' ≡ 0)
      × ((weigh : ℕ → ℕ → ℕ)
          → sum_by (executed weigh) (log P thread chance (loop rounds (worker_round local) w) s)
            ≡ all_tasks (weight weigh) count v peers)

  module _ (C : Crossbeam P) (never : NoRetry P chance) (sure : NoLostRace P local thread chance)
      (count : ℕ) (small : count + count ≤ 2 ^ 64) (inside : local < count) where
    stop-Drains :
        (rounds : ℕ) (w : Worker) (v : View) (peers : ℕ → List Task) (s : Store P)
        → Nothing P local count thread chance v peers s (searching P local thread chance w)
        → s.shared.shutdown ≡ true
        → s.shared.tasks_in_flight ≡ 0
        → Drains count (suc rounds) w v peers s
    unfolding loop alone log
    stop-Drains rounds w v peers s h stopping z =
        let (ends, executes_none) =
          round-empty P local thread chance w s h.store h.steal_state h.priority_state h.ends
            (h.follows.shutdown ∙ stopping) (h.follows.in_flight ∙ z) in
        (
          h.store,
          v,
          peers,
          alone_after P thread chance (worker_round local w)
              (next_round (loop rounds (worker_round local))) s h.store (inr tt) ends,
          h.follows.in_flight ∙ z,
          h.sees_all,
          h.none_left one_each,
          λ weigh.
              ap (sum_by (executed weigh)) (
                log-after P thread chance (worker_round local w)
                  (next_round (loop rounds (worker_round local))) s h.store (inr tt) ends)
              ∙ sum_by-append (executed weigh) (log P thread chance (worker_round local w) s) []
              ∙ sum_zero _ _ (executes_none weigh) refl
              ∙ sym (h.none_left (weight weigh)),
        )

    task-Drains :
        (n : ℕ) (w : Worker) (v : View) (peers : ℕ → List Task) (s : Store P)
        → (h : Found P local count thread chance v peers s (searching P local thread chance w))
        → s.shared.shutdown ≡ true
        → s.shared.tasks_in_flight ≡ suc n
        → suc n < 2 ^ 64
        → ((w : Worker) (s : Store P)
            → SeesAll P local h.view h.view_peers s
            → Numbered local count w.steal_state
            → s.shared.shutdown ≡ true
            → s.shared.tasks_in_flight ≡ n
            → Drains count (suc n) w h.view h.view_peers s)
        → Drains count (suc (suc n)) w v peers s
    unfolding loop
    task-Drains n w v peers s h stopping in_flight fits onward =
        let next : Worker = record {
          steal_state = h.steal_state;
          priority_state = h.priority_state;
        } in
        let (s'', ends, shared, executes) =
          round-task P local thread chance w s h.store h.task h.steal_state h.priority_state
            h.ends in
        let (s', v', peers', e, z, sees, none_left, executes_rest) =
          onward next s''
            (SeesAll-queues P local thread chance h.view h.view_peers h.store s''
              (sym (ap (λ r. r.queues) shared)) h.sees_all)
            h.numbered (ap (λ r. r.shutdown) shared ∙ h.follows.shutdown ∙ stopping)
            (omega (arith, ap (λ r. r.tasks_in_flight) shared, h.follows.in_flight, in_flight)) in
        (
          s',
          v',
          peers',
          alone_after P thread chance (worker_round local w)
                (next_round (loop (suc n) (worker_round local))) s s'' _ ends
              ∙ e,
          z,
          sees,
          none_left,
          λ weigh.
              ap (sum_by (executed weigh)) (
                log-after P thread chance (worker_round local w)
                  (next_round (loop (suc n) (worker_round local))) s s'' _ ends)
              ∙ sum_by-append (executed weigh) (log P thread chance (worker_round local w) s)
                  (log P thread chance (loop (suc n) (worker_round local) next) s'')
              ∙ omega (arith, executes weigh, executes_rest weigh, h.fewer (weight weigh)),
        )

    -- A worker behind a shutdown, one of up to 2^63, undisturbed and with no steal that answers
    -- `Retry`: where `n` tasks are queued in all, also in the deques of the other workers, fewer
    -- than 2^64, and as many are in flight, its loop ends within `n` + 1 rounds, with nothing
    -- queued and nothing in flight; and it has called the function of every queued task once: of
    -- each function and argument, as many tasks were executed as were queued.
    pub worker_round-Drains :
        (n : ℕ) (w : Worker) (v : View) (peers : ℕ → List Task) (s : Store P)
        → SeesAll P local v peers s
        → all_tasks one_each count v peers ≡ n
        → s.shared.tasks_in_flight ≡ n
        → n < 2 ^ 64
        → s.shared.shutdown ≡ true
        → Numbered local count w.steal_state
        → Drains count (suc n) w v peers s
    worker_round-Drains zero w v peers s h seen in_flight fits stopping numbered =
        elim (pop_for_worker-Outcome P local count thread chance C never sure small inside
          w.steal_state numbered peers w.priority_state v s h) [
            | inl found ↦ absurd (omega (arith, seen, found.fewer one_each))
            | inr nothing ↦ stop-Drains zero w v peers s nothing stopping in_flight
          ]
    worker_round-Drains (suc n) w v peers s h seen in_flight fits stopping numbered =
        elim (pop_for_worker-Outcome P local count thread chance C never sure small inside
          w.steal_state numbered peers w.priority_state v s h) [
            | inl found ↦
                task-Drains n w v peers s found stopping in_flight fits
                  λ w s sees numbered stopping in_flight.
                    worker_round-Drains n w found.view found.view_peers s sees
                      (omega (arith, seen, found.fewer one_each)) in_flight (omega arith) stopping
                      numbered
            | inr nothing ↦ absurd (omega (arith, seen, nothing.none_left one_each))
          ]
