-- ===== src/Queue/Robbing.antt =====
-- How `steal_from_peers` of src/queue.rs may end that no other thread disturbs.
use libcortlet_upgradesched.Prelude.{
  ℕ, ◌+◌, ◌<◌, ◌≤◌, ◌^◌, ◌≡◌, ◌≢◌, refl, sym, ◌∙◌, ap, arith, Option, none, some, List, [], ◌∷◌,
  sum_by, sum_below-update, update, get_elem?, set, get_elem?-set_self, get_elem?-set_other, All,
  Bool-cases, ==-eq, ==-ne, ◌==◌, if◌then◌else◌, inl, inr,
}
use libcortlet_upgradesched.Task.{Task, TaskPriority, PriorityState, record_task}
use libcortlet_upgradesched.Stats.{Event}
use libcortlet_upgradesched.Steal.{StealState, victims}
use libcortlet_upgradesched.Platform.{Platform, Crossbeam, Steal, Stolen}
use libcortlet_upgradesched.Machine.Perform.{perform}
use libcortlet_upgradesched.Machine.Store.{Store}
use libcortlet_upgradesched.Machine.Alone.{alone}
use libcortlet_upgradesched.Queue.{steal_result, steal_from_each, steal_from_peers}
use libcortlet_upgradesched.Queue.View.{View, Sees}
use libcortlet_upgradesched.Queue.Peers.{SeesPeers, reachable}
use libcortlet_upgradesched.Queue.Changed.{Follows}
use libcortlet_upgradesched.Queue.Stealing.{
  NoLostRace, counted, behind, alone-absent, alone-present, behind-SeesPeers,
}
use libcortlet_upgradesched.Queue.Remaining.{
  total, Numbered, victims-Numbered, Other, victims-Other, nothing_left, SeesAll, all_tasks,
  Outcome, continued,
}

module _ (P : Platform) (local thread chance : ℕ) where
  behind-Sees :
      (v : View) (s : Store P) (event : Event) (victim : ℕ) (d : P.Deque)
      → victim ≢ local
      → Sees P local v s
      → Sees P local v (counted P event (behind P s victim d))
  unfolding counted behind
  behind-Sees v s event victim d other h = record {
    lanes = elim [
      | TaskPriority.high ↦ h.lanes TaskPriority.high
      | TaskPriority.normal ↦ h.lanes TaskPriority.normal
      | TaskPriority.low ↦ h.lanes TaskPriority.low
    ];
    deque = h.deque;
    found =
        get_elem?-set_other s.shared.queues.stealers victim local d (λ e. other (sym e)) ∙ h.found;
    owned = h.owned;
  }

  behind-update :
      (peers : ℕ → List Task) (s : Store P) (event : Event) (victim : ℕ) (d d' : P.Deque)
      → get_elem? s.shared.queues.stealers victim ≡ some d
      → SeesPeers P local peers s
      → SeesPeers P local
          (update peers victim (P.local d'))
          (counted P event (behind P s victim d'))
  unfolding counted behind
  behind-update peers s event victim d d' there h = record {
    reaches = λ worker other. elim (Bool-cases (victim == worker)) [
      | inl same ↦
          let this : victim ≡ worker = ==-eq victim worker same in
          ap (λ w. reachable P (get_elem? (set s.shared.queues.stealers victim d') w)) (sym this)
          ∙ ap (reachable P) (get_elem?-set_self s.shared.queues.stealers victim d d' there)
          ∙ sym (ap (λ b. if b then P.local d' else peers worker) same)
      | inr differs ↦
          ap (reachable P) (
            get_elem?-set_other s.shared.queues.stealers victim worker d'
              (λ e. ==-ne victim worker differs (sym e)))
          ∙ h.reaches worker other
          ∙ sym (ap (λ b. if b then P.local d' else peers worker) differs)
    ];
  }

  update-apart :
      (peers : ℕ → List Task) (victim : ℕ) (rest : List Task)
      → victim ≢ local
      → peers local ≡ []
      → update peers victim rest local ≡ []
  update-apart peers victim rest other e = elim (Bool-cases (victim == local)) [
    | inl same ↦ absurd (other (==-eq victim local same))
    | inr differs ↦ ap (λ b. if b then rest else peers local) differs ∙ e
  ]

  counted-Follows :
      (s : Store P) (event : Event) (victim : ℕ) (d : P.Deque)
      → Follows s (counted P event (behind P s victim d))
  unfolding counted behind
  counted-Follows s event victim d = record { in_flight = refl; shutdown = refl }

  module _ (C : Crossbeam P) (sure : NoLostRace P local thread chance) (count : ℕ) (ss : StealState)
      (numbered : Numbered local count ss) (v : View) (peers : ℕ → List Task) where
    abbrev Ends : List ℕ → PriorityState → Store P → Type 0
    Ends order ps s = Outcome P local count thread chance v peers s (steal_from_each ss ps order)

    victim-Outcome :
        (victim : ℕ) (rest : List ℕ) (ps : PriorityState) (s : Store P)
        → Other local count victim
        → SeesAll P local v peers s
        → ((s : Store P) → SeesAll P local v peers s → peers victim ≡ [] → Ends rest ps s)
        → Ends (victim ∷ rest) ps s
    unfolding alone steal_result perform counted
    victim-Outcome victim rest ps s other h onward =
        look (get_elem? s.shared.queues.stealers victim) refl
      where
        answered :
            (d : P.Deque)
            → get_elem? s.shared.queues.stealers victim ≡ some d
            → P.local d ≡ peers victim
            → (r : Steal × P.Deque) → Stolen P d r
            → r.0 ≢ Steal.retry
            → alone P thread chance (steal_from_each ss ps (victim ∷ rest)) s
              ≡ alone P thread chance
                  (steal_result ss ps (steal_from_each ss ps rest) r.0)
                  (behind P s victim r.1)
            → Ends (victim ∷ rest) ps s
        answered d there shown (Steal.success t, d') law nr eq = inl (record {
          task = t;
          steal_state = ss;
          priority_state = record_task t ps;
          store = counted P Event.steal_success (behind P s victim d');
          view = v;
          view_peers = update peers victim (P.local d');
          ends = eq;
          sees_all = record {
            sees = behind-Sees v s Event.steal_success victim d' other.1 h.sees;
            sees_peers = behind-update peers s Event.steal_success victim d d' there h.sees_peers;
            apart = update-apart peers victim (P.local d') other.1 h.apart;
          };
          fewer = λ w. omega (
            arith,
            sum_below-update (sum_by w) count peers victim (P.local d') other.0,
            ap (sum_by w) (sym shown ∙ law),
          );
          follows = counted-Follows s Event.steal_success victim d';
          numbered = numbered;
        })
        answered d there shown (Steal.empty, d') (was, now) nr eq =
            continued P local count thread chance v peers s
              (counted P Event.steal_failure (behind P s victim d')) _ _ eq
              (counted-Follows s Event.steal_failure victim d')
              (onward _
                (record {
                  sees = behind-Sees v s Event.steal_failure victim d' other.1 h.sees;
                  sees_peers =
                      behind-SeesPeers P local thread chance peers s victim d d' there was now
                        h.sees_peers;
                  apart = h.apart;
                })
                (sym shown ∙ was))
        answered d there shown (Steal.retry, d') law nr eq = absurd (nr refl)

        look :
            (found : Option P.Deque)
            → get_elem? s.shared.queues.stealers victim ≡ found
            → Ends (victim ∷ rest) ps s
        look none there =
            continued P local count thread chance v peers s s _ _
              (alone-absent P local thread chance ss ps victim rest s there)
              (record { in_flight = refl; shutdown = refl })
              (onward s h (sym (h.sees_peers.reaches victim other.1) ∙ ap (reachable P) there))
        look (some d) there =
            answered d there (sym (ap (reachable P) there) ∙ h.sees_peers.reaches victim other.1)
              (P.steal chance d) (C.steals chance d) (sure d)
              (alone-present P local thread chance ss ps victim rest s d there)

    each-Outcome :
        (order : List ℕ) (ps : PriorityState) (s : Store P)
        → All (Other local count) order
        → SeesAll P local v peers s
        → (All (λ victim. peers victim ≡ []) order
            → ((w : Task → ℕ) → all_tasks w count v peers ≡ 0))
        → Ends order ps s
    unfolding alone steal_from_each
    each-Outcome [] ps s others h finish = inr (record {
      steal_state = ss;
      priority_state = ps;
      store = s;
      ends = refl;
      sees_all = h;
      none_left = finish tt;
      follows = record { in_flight = refl; shutdown = refl };
      numbered = numbered;
    })
    each-Outcome (victim ∷ rest) ps s others h finish =
        victim-Outcome victim rest ps s others.0 h
          λ s h gone. each-Outcome rest ps s others.1 h λ all_gone. finish (gone, all_gone)

  -- With the injectors and the own deque empty: a task of another worker, or there is none.
  pub peers-Outcome :
      (C : Crossbeam P) (sure : NoLostRace P local thread chance) (count : ℕ)
      → count + count ≤ 2 ^ 64
      → local < count
      → (ss : StealState) (ps : PriorityState) (v : View) (peers : ℕ → List Task) (s : Store P)
      → Numbered local count ss
      → (h : SeesAll P local v peers s) → ((w : Task → ℕ) → total w v ≡ 0)
      → Outcome P local count thread chance v peers s (steal_from_peers ss ps)
  unfolding steal_from_peers
  peers-Outcome C sure count small inside ss ps v peers s numbered h nothing =
      each-Outcome C sure count (victims ss).1 (victims-Numbered local count ss numbered) v peers
        (victims ss).0 ps s (victims-Other local count small inside ss numbered) h
        λ gone w.
          omega (
            arith,
            nothing w,
            nothing_left local count small inside w peers ss numbered h.apart gone,
          )
