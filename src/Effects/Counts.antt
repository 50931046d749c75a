-- ===== src/Effects/Counts.antt =====
-- `perform` keeps the laws of the counts, of the shutdown flag and of the queues.
use libcortlet_upgradesched.Prelude.{ℕ, ◌+◌, ◌≡◌, refl, arith}
use libcortlet_upgradesched.Task.{Task}
use libcortlet_upgradesched.Platform.{Platform, Crossbeam}
use libcortlet_upgradesched.Machine.{Op, GroupOp, Answer}
use libcortlet_upgradesched.Machine.Store.{QueueSystem, Store}
use libcortlet_upgradesched.Machine.Perform.{perform}
use libcortlet_upgradesched.Effects.{
  Holds, stored, put_in, taken_out, CountLaw, GroupLaw, ShutdownLaw,
}
use libcortlet_upgradesched.Effects.Queues.{
  batch_from-stored, pop_from-stored, steal_from-stored, push_to-stored,
}

module _ (P : Platform) (thread chance : ℕ) where
  pub perform-CountLaw :
      (op : Op) (s : Store P)
      → Holds
          (λ x s'. CountLaw op x s.shared.tasks_in_flight s'.shared.tasks_in_flight)
          (perform P thread chance op s)
  unfolding perform
  perform-CountLaw Op.load_in_flight s = (refl, refl)
  perform-CountLaw (Op.group g op) s = ground arith
  perform-CountLaw _ s = ground arith

  pub perform-ShutdownLaw :
      (op : Op) (s : Store P)
      → Holds
          (λ x s'. ShutdownLaw op x s.shared.shutdown s'.shared.shutdown)
          (perform P thread chance op s)
  unfolding perform
  perform-ShutdownLaw Op.load_shutdown s = (refl, refl)
  perform-ShutdownLaw _ s = ground arith

  pub perform-GroupLaw :
      (address : ℕ) (op : Op) (s : Store P)
      → Holds
          (λ x s'.
            GroupLaw address op
              (s.groups address).tasks_in_flight
              (s'.groups address).tasks_in_flight)
          (perform P thread chance op s)
  unfolding perform
  perform-GroupLaw address Op.load_shutdown s = refl
  perform-GroupLaw address (Op.group g GroupOp.fetch_add) s = ground arith
  perform-GroupLaw address _ s = ground arith

  module _ (C : Crossbeam P) (w : Task → ℕ) where
    -- What comes out of the queues and what stays inside weighs as much as before, with what is
    -- put in.
    abbrev Flow : (op : Op) → QueueSystem P → Answer op → QueueSystem P → Type 0
    Flow op q x q' = stored P w q' + taken_out w op x ≡ stored P w q + put_in w op

    pub perform-Flow :
        (op : Op) (s : Store P)
        → Holds (λ x s'. Flow op s.shared.queues x s'.shared.queues) (perform P thread chance op s)
    unfolding perform
    perform-Flow Op.load_shutdown s = refl
    perform-Flow (Op.push_injector lane t) s =
        ground (arith, push_to-stored P C w thread chance lane t s.shared.queues)
    perform-Flow (Op.steal_batch_and_pop lane local) s =
        ground (arith, batch_from-stored P C w thread chance lane local s.shared.queues)
    perform-Flow (Op.pop_local local) s =
        ground (arith, pop_from-stored P C w thread chance local s.shared.queues)
    perform-Flow (Op.steal victim) s =
        ground (arith, steal_from-stored P C w thread chance victim s.shared.queues)
    perform-Flow _ s = ground arith
