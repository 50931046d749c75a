-- ===== src/Scheduler/Rollback.antt =====
-- What a submission (`push_internal` of src/scheduler.rs) leaves behind on each of its paths.
use libcortlet_upgradesched.Prelude.{
  ℕ, ◌+◌, ◌-◌, ◌≡◌, refl, arith, Bool, true, false, Option, none, some, inr, leb, wrap, ◌==◌,
  if◌then◌else◌,
}
use libcortlet_upgradesched.Task.{Task, TaskPriority}
use libcortlet_upgradesched.Stats.{Event}
use libcortlet_upgradesched.Machine.{Op, GroupOp, exchanged, failed, ret, call, loop, ◌>>=◌, ◌>>◌}
use libcortlet_upgradesched.Machine.Monitor.{Monitor, Watched, Watched->>=, Watched-loop, RoundEnds}
use libcortlet_upgradesched.Group
use libcortlet_upgradesched.Queue.{push_global}
use libcortlet_upgradesched.Worker.{wake_one}
use libcortlet_upgradesched.Scheduler.{
  Result, ok, err, queue_full, reserve_result, reserve_round, reserve_task_slot, release_task_slot,
  join_group, leave_group, publish, enter, enter_if, push_internal,
}
use libcortlet_upgradesched.Scheduler.Ledger.{Ledger, membership, ledger_watch, Settled, blank}

-- Between the parts of a submission.
abbrev Holding : (slots members : ℕ) → Ledger → Type 0
Holding slots members m = (m.slots ≡ slots) × (m.members ≡ members) × (m.pushed ≡ 0)

abbrev Reserved : Result (Unit {0}) → Ledger → Type 0
Reserved (ok _) m = Holding 1 0 m
Reserved (err e) m = Holding 0 0 m

module _ (group : Option ℕ) where
  abbrev W : Monitor
  W = ledger_watch group

  reserve_round-Watched :
      (capacity current : ℕ) (m : Ledger)
      → Holding 0 0 m
      → Watched W (RoundEnds W (λ _ m. Holding 0 0 m) Reserved) m (reserve_round capacity current)
  unfolding reserve_round reserve_result
  reserve_round-Watched capacity current m (s, g, p) =
      elim (leb capacity current)
        as (λ full. Watched W (RoundEnds W (λ _ m. Holding 0 0 m) Reserved) m (
          if full
          then call (Op.stat Event.queue_full) >> ret (inr (err queue_full))
          else (call (Op.compare_exchange_weak current (wrap (current + 1))) >>= reserve_result))) [
            | true ↦ (tt, λ _. (s, g, p))
            | false ↦ (refl, elim [ exchanged old ↦ (ground arith) | failed actual ↦ (s, g, p) ])
          ]

  reserve-Watched :
      (rounds capacity : ℕ) (m : Ledger)
      → Holding 0 0 m
      → Watched W Reserved m (reserve_task_slot rounds capacity)
  unfolding reserve_task_slot
  reserve-Watched rounds capacity m h =
      elim (capacity == 0)
        as (λ unbounded. Watched W Reserved m (
          if unbounded
          then (call Op.fetch_add_in_flight >>= λ _. ret (ok tt))
          else (call Op.load_in_flight >>= λ current.
              loop rounds (reserve_round capacity) current))) [
                | true ↦ (tt, λ _. ground arith)
                | false ↦ (
                  tt,
                  λ current.
                      Watched-loop W (λ _ m. Holding 0 0 m) Reserved (reserve_round capacity)
                        (λ current m h. reserve_round-Watched capacity current m h) rounds current m
                        h,
                )
              ]

-- `add_task` on the group: joined, or refused and left as it was.
abbrev Joined : Option ℕ → Bool → Ledger → Type 0
Joined group joined m = Holding 1 (if joined then membership group else 0) m

completed-Watched :
    (g slots : ℕ) (m : Ledger)
    → Holding slots 1 m
    → Watched (ledger_watch (some g)) (λ _ m. Holding slots 0 m) m (Group.task_completed g)
unfolding Group.task_completed
completed-Watched g slots m h = (
  (refl, h.1, h.2),
  λ previous.
      elim (previous == 1)
        as (λ b.
          Watched (ledger_watch (some g)) (λ _ m. Holding slots 0 m)
            (record m { members = m.members - 1 })
            (if b then call (Op.group g GroupOp.notify_all) else ret tt)) [
              | true ↦ (refl, λ _. ground arith)
              | false ↦ ground arith
            ],
)

join-Watched :
    (group : Option ℕ) (m : Ledger)
    → Holding 1 0 m
    → Watched (ledger_watch group) (Joined group) m (join_group group)
unfolding join_group Group.add_task
join-Watched none m h = h
join-Watched (some g) m h = (
  refl,
  elim [
    | true ↦ h
    | false ↦ (
      refl,
      λ _. (
        refl,
        elim [
          | true ↦
              Watched->>= (ledger_watch (some g)) (λ _ m. Holding 1 0 m) (Joined (some g)) _
                (Group.task_completed g) _ (completed-Watched g 1 _ (ground arith)) (λ _ m h. h)
          | false ↦ ground arith
        ],
      ),
    )
  ],
)

leave-Watched :
    (group : Option ℕ) (m : Ledger)
    → Holding 0 (membership group) m
    → Watched (ledger_watch group) (λ _ m. Holding 0 0 m) m (leave_group group)
unfolding leave_group
leave-Watched none m h = h
leave-Watched (some g) m h = completed-Watched g 0 m h

module _ (t : Task) where
  abbrev V : Monitor
  V = ledger_watch t.group

  notify-Watched :
      (b : Bool) (m : Ledger)
      → Settled t.group (ok tt) m
      → Watched V
          (Settled t.group)
          m
          ((if b then ret tt else call Op.notify_one) >>= λ _. ret (ok tt))
  notify-Watched true m h = h
  notify-Watched false m h = (tt, λ _. h)

  publish-Watched :
      (m : Ledger) → Holding 1 (membership t.group) m → Watched V (Settled t.group) m (publish t)
  unfolding publish release_task_slot push_global wake_one
  publish-Watched m (s, g, p) = (
    tt,
    elim [
      | true ↦ (
        (s, p),
        λ _.
            Watched->>= V (λ _ m. Holding 0 0 m) (Settled t.group) _ (leave_group t.group) _
              (leave-Watched t.group _ (ground arith)) (λ _ m h. (h.2, h.0, h.1)),
      )
      | false ↦ (
        (s, g, p, refl),
        λ _. (tt, λ _. (tt, λ sleeping. notify-Watched (sleeping == 0) _ (ground arith))),
      )
    ],
  )

  enter-Watched : (m : Ledger) → Holding 1 0 m → Watched V (Settled t.group) m (enter t)
  unfolding enter release_task_slot
  enter-Watched m h = (
    tt,
    elim [
      | true ↦ ((h.0, h.2), λ _. ground arith)
      | false ↦
          Watched->>= V (Joined t.group) (Settled t.group) _ (join_group t.group) _
            (join-Watched t.group _ h)
            (elim [
              | true ↦ λ m h. publish-Watched m h
              | false ↦ λ m h. ((h.0, h.2), λ _. ground arith)
            ])
    ],
  )

  enter_if-Watched :
      (r : Result (Unit {0})) (m : Ledger)
      → Reserved r m
      → Watched V (Settled t.group) m (enter_if t r)
  unfolding enter_if
  enter_if-Watched (ok _) m h = enter-Watched m h
  enter_if-Watched (err e) m (s, g, p) = (p, s, g)

-- On every path, whatever other threads do, a submission pushes only while it holds one slot and
-- the membership in its group, if it has one, and its last read of the shutdown flag was false; it
-- gives back a slot or a membership only while it holds that one and has not pushed; it touches no
-- other group; on success it has pushed once and leaves the slot and the membership to
-- the task; on an error it has pushed nothing and has given back all it took.
pub push_internal-Watched :
    (rounds capacity function argument : ℕ) (priority : TaskPriority) (group : Option ℕ)
    → Watched
        (ledger_watch group)
        (Settled group)
        blank
        (push_internal rounds capacity function argument priority group)
unfolding push_internal
push_internal-Watched rounds capacity function argument priority group = (
  tt,
  elim [
    | true ↦ (refl, refl, refl)
    | false ↦
        Watched->>= (ledger_watch group) Reserved (Settled group) blank
          (reserve_task_slot rounds capacity) (enter_if t)
          (reserve-Watched group rounds capacity blank (refl, refl, refl)) (enter_if-Watched t)
  ],
)
  where
    t : Task
    t = record { function = function; argument = argument; priority = priority; group = group }
