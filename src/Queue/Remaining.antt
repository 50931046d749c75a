-- ===== src/Queue/Remaining.antt =====
-- How a search of src/queue.rs may end that no other thread disturbs.
use libcortlet_upgradesched.Prelude.{
  ℕ, ◌+◌, ◌<◌, ◌≤◌, ◌^◌, ◌≡◌, ◌≢◌, ◌∙◌, ap, arith, false, some, List, [], ◌∷◌, ◌++◌, ◌⊎◌, inl, inr,
  sum_by, sum_by-append, sum_below, sum_below-zero, All, Bool, Bool-cases, subst, ==-eq, true,
  if◌then◌else◌, sym, ltb, leb, ◌==◌, not, ◌&&◌,
}
use libcortlet_upgradesched.Task.{Task, TaskPriority, PopResult, PriorityState}
use libcortlet_upgradesched.Steal.{
  StealState, StealPolicy, victims, victims_by, round_robin_victims,
}
use libcortlet_upgradesched.Steal.Victims.{times, times-victims}
use libcortlet_upgradesched.Platform.{Platform}
use libcortlet_upgradesched.Machine.{Prog}
use libcortlet_upgradesched.Machine.Store.{Store}
use libcortlet_upgradesched.Machine.Alone.{alone}
use libcortlet_upgradesched.Queue.{Search}
use libcortlet_upgradesched.Queue.View.{View, lane_of, with_lane, Sees}
use libcortlet_upgradesched.Queue.Peers.{SeesPeers}
use libcortlet_upgradesched.Queue.Changed.{Follows, Follows-trans}

-- What the tasks that a worker sees weigh. With weight 1 that is how many they are.
abbrev pub total : (Task → ℕ) → View → ℕ
total w v = sum_by w v.high + sum_by w v.normal + sum_by w v.low + sum_by w v.own

-- A batch is moved and its first task is taken.
pub total-with_lane :
    (w : Task → ℕ) (lane : TaskPriority) (v : View) (t : Task) (batch l own : List Task)
    → lane_of v lane ≡ t ∷ (batch ++ l)
    → own ≡ v.own ++ batch
    → total w (with_lane lane l own v) + w t ≡ total w v
total-with_lane w TaskPriority.high v t batch l own e f =
    omega (
      arith,
      ap (sum_by w) e,
      ap (sum_by w) f,
      sum_by-append w batch l,
      sum_by-append w v.own batch,
    )
total-with_lane w TaskPriority.normal v t batch l own e f =
    omega (
      arith,
      ap (sum_by w) e,
      ap (sum_by w) f,
      sum_by-append w batch l,
      sum_by-append w v.own batch,
    )
total-with_lane w TaskPriority.low v t batch l own e f =
    omega (
      arith,
      ap (sum_by w) e,
      ap (sum_by w) f,
      sum_by-append w batch l,
      sum_by-append w v.own batch,
    )

-- What holds of each worker that stands in a list holds along the list.
All-times :
    (Q : ℕ → Bool) (R : ℕ → Type 0) (l : List ℕ)
    → ((worker : ℕ) → Q worker ≡ true → R worker)
    → ((worker : ℕ) → Q worker ≡ false → times worker l ≡ 0)
    → All R l
All-times Q R [] sound h = tt
All-times Q R (victim ∷ rest) sound h = (
  elim (Bool-cases (Q victim)) [
    | inl e ↦ sound victim e
    | inr e ↦ absurd (ground (arith, h victim e))
  ],
  All-times Q R rest sound λ worker e. ground (arith, h worker e),
)

-- A worker that stands in a list of workers without tasks has none.
nothing_among :
    (peers : ℕ → List Task) (worker : ℕ) (l : List ℕ)
    → times worker l ≡ 1
    → All (λ victim. peers victim ≡ []) l
    → peers worker ≡ []
nothing_among peers worker [] e h = absurd (omega arith)
nothing_among peers worker (victim ∷ rest) e h = elim (Bool-cases (victim == worker)) [
  | inl same ↦ subst (λ w. peers w ≡ []) (==-eq victim worker same) h.0
  | inr other ↦ nothing_among peers worker rest (ground arith) h.1
]

module _ (local count : ℕ) where
  -- A worker's own number, and how many workers there are.
  abbrev pub Numbered : StealState → Type 0
  Numbered ss = (ss.worker_id ≡ local) × (ss.worker_count ≡ count)

  round_robin-Numbered : (ss : StealState) → Numbered ss → Numbered (round_robin_victims ss).1
  unfolding round_robin_victims
  round_robin-Numbered ss h = elim (Bool-cases (leb ss.worker_count 1)) [
    | inl alone ↦ rw alone h
    | inr more ↦ rw more h
  ]

  by-Numbered :
      (policy : StealPolicy) (ss : StealState) → Numbered ss → Numbered (victims_by policy ss).1
  unfolding victims_by
  by-Numbered StealPolicy.round_robin ss h = round_robin-Numbered ss h
  by-Numbered StealPolicy.adaptive ss h = round_robin-Numbered ss h

  pub victims-Numbered : (ss : StealState) → Numbered ss → Numbered (victims ss).1
  unfolding victims
  victims-Numbered ss h = by-Numbered ss.policy ss h

  abbrev pub Other : ℕ → Type 0
  Other victim = (victim < count) × (victim ≢ local)

  module _ (small : count + count ≤ 2 ^ 64) (inside : local < count) where
    times-Other :
        (ss : StealState) (worker : ℕ)
        → Numbered ss
        → times worker (victims ss).0 ≡ (if ltb worker count && not (worker == local) then 1 else 0)
    times-Other ss worker h =
        times-victims ss worker (omega (arith, h.0, h.1)) (omega (arith, h.1))
        ∙ ap (λ w. if ltb worker w && not (worker == ss.worker_id) then 1 else 0) h.1
        ∙ ap (λ w. if ltb worker count && not (worker == w) then 1 else 0) h.0

    pub victims-Other : (ss : StealState) → Numbered ss → All Other (victims ss).0
    victims-Other ss h =
        All-times (λ w. ltb w count && not (w == local)) Other (victims ss).0
          (λ worker e. (ground arith, ground arith))
          λ worker e. times-Other ss worker h ∙ ap (λ b. if b then 1 else 0) e

    pub nothing_left :
        (w : Task → ℕ) (peers : ℕ → List Task) (ss : StealState)
        → Numbered ss
        → peers local ≡ []
        → All (λ victim. peers victim ≡ []) (victims ss).0
        → sum_below (sum_by w) count peers ≡ 0
    nothing_left w peers ss h own gone = sum_below-zero (sum_by w) count peers λ i lt.
        ap (sum_by w) (elim (Bool-cases (i == local)) [
          | inl same ↦ subst (λ w. peers w ≡ []) (sym (==-eq i local same)) own
          | inr other ↦
              nothing_among peers i (victims ss).0 (times-Other ss i h ∙ ground (arith, other)) gone
        ])

-- All that there is: the injectors, the worker's own deque, and those of the other workers.
pub record SeesAll (P : Platform) (local : ℕ) (v : View) (peers : ℕ → List Task) (s : Store P)
    : Type 0 where
  pub sees : Sees P local v s
  pub sees_peers : SeesPeers P local peers s
  pub apart : peers local ≡ []

-- What all that weighs, of `count` workers. With weight 1 that is how many tasks there are.
abbrev pub all_tasks : (Task → ℕ) → (count : ℕ) → View → (peers : ℕ → List Task) → ℕ
all_tasks w count v peers = total w v + sum_below (sum_by w) count peers

module _ (P : Platform) (local count : ℕ) (thread chance : ℕ) where
  -- A task was taken.
  pub record Found (v : View) (peers : ℕ → List Task) (s : Store P) (p : Prog Search) : Type 0 where
    pub task : Task
    pub steal_state : StealState
    pub priority_state : PriorityState
    pub store : Store P
    pub view : View
    pub view_peers : ℕ → List Task
    pub ends :
        alone P thread chance p s ≡ some ((PopResult.task task, steal_state, priority_state), store)
    pub sees_all : SeesAll P local view view_peers store
    pub fewer :
        (w : Task → ℕ) → all_tasks w count view view_peers + w task ≡ all_tasks w count v peers
    pub follows : Follows s store
    pub numbered : Numbered local count steal_state

  -- There was none.
  pub record Nothing (v : View) (peers : ℕ → List Task) (s : Store P) (p : Prog Search)
      : Type 0 where
    pub steal_state : StealState
    pub priority_state : PriorityState
    pub store : Store P
    pub ends :
        alone P thread chance p s ≡ some ((PopResult.empty, steal_state, priority_state), store)
    pub sees_all : SeesAll P local v peers store
    pub none_left : (w : Task → ℕ) → all_tasks w count v peers ≡ 0
    pub follows : Follows s store
    pub numbered : Numbered local count steal_state

  abbrev pub Outcome : View → (ℕ → List Task) → Store P → Prog Search → Type 0
  Outcome v peers s p = Found v peers s p ⊎ Nothing v peers s p

  -- A search that continues as another one.
  pub continued :
      (v : View) (peers : ℕ → List Task) (s s' : Store P) (p q : Prog Search)
      → alone P thread chance p s ≡ alone P thread chance q s'
      → Follows s s'
      → Outcome v peers s' q
      → Outcome v peers s p
  continued v peers s s' p q e f (inl h) = inl (record {
    task = h.task;
    steal_state = h.steal_state;
    priority_state = h.priority_state;
    store = h.store;
    view = h.view;
    view_peers = h.view_peers;
    ends = e ∙ h.ends;
    sees_all = h.sees_all;
    fewer = h.fewer;
    follows = Follows-trans s s' h.store f h.follows;
    numbered = h.numbered;
  })
  continued v peers s s' p q e f (inr h) = inr (record {
    steal_state = h.steal_state;
    priority_state = h.priority_state;
    store = h.store;
    ends = e ∙ h.ends;
    sees_all = h.sees_all;
    none_left = h.none_left;
    follows = Follows-trans s s' h.store f h.follows;
    numbered = h.numbered;
  })
