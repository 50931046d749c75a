-- ===== src/System/Invariant.antt =====
-- The accounting invariant of all interleavings.
use libcortlet_upgradesched.Prelude.{ℕ, ◌+◌, ◌≤◌, ◌<◌, ◌≡◌, wrap, sum_below}
use libcortlet_upgradesched.Task.{Task}
use libcortlet_upgradesched.Platform.{Platform}
use libcortlet_upgradesched.Ownership.{Ghost, held, joined, Safe}
use libcortlet_upgradesched.Ownership.Rules.{Clean}
use libcortlet_upgradesched.Effects.{stored, InLanes}
use libcortlet_upgradesched.System.{System}

abbrev pub one : Task → ℕ
one t = 1

-- 1 for a task of the group at an address.
abbrev pub in_group : ℕ → Task → ℕ
in_group address t = joined address t.group

module _ {P : Platform} {A : Type 0} where
  -- The tasks in the queues.
  abbrev pub queued : System P A → ℕ
  queued s = stored P one s.store.shared.queues

  abbrev pub queued_of : ℕ → System P A → ℕ
  queued_of address s = stored P (in_group address) s.store.shared.queues

  pub record Accounted (n capacity : ℕ) (own : ℕ → Ghost) (s : System P A) : Type 0 where
    -- The count is what the threads hold and what is queued.
    pub counted : s.store.shared.tasks_in_flight ≡ wrap (sum_below held n own + queued s)
    -- A bounded scheduler stays within its capacity.
    pub bounded : 0 < capacity → sum_below held n own + queued s ≤ capacity
    -- So for each group.
    pub grouped :
        (address : ℕ)
        → (s.store.groups address).tasks_in_flight
          ≡ wrap (sum_below (λ o. joined address o.group) n own + queued_of address s)
    pub lanes : InLanes P s.store.shared.queues
    pub safe : (i : ℕ) → Safe capacity Clean (own i) (s.threads i)
