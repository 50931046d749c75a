-- ===== src/Queue/Stealing.antt =====
-- What `steal_from_peers` of src/queue.rs takes, undisturbed.
use libcortlet_upgradesched.Prelude.{
  ℕ, ◌≡◌, ◌≢◌, refl, sym, ◌∙◌, ap, arith, Option, none, some, List, [], ◌∷◌, map, All, get_elem?,
  set, get_elem?-set_self, get_elem?-set_other, Bool-cases, ==-eq, ==-ne, ◌==◌, inl, inr,
}
use libcortlet_upgradesched.Task.{Task, PopResult, PriorityState, record_task}
use libcortlet_upgradesched.Stats.{Event, record_event}
use libcortlet_upgradesched.Steal.{StealState, victims}
use libcortlet_upgradesched.Platform.{Platform, Crossbeam, Steal, Stolen}
use libcortlet_upgradesched.Machine.{Prog}
use libcortlet_upgradesched.Machine.Store.{Store}
use libcortlet_upgradesched.Machine.Perform.{perform}
use libcortlet_upgradesched.Machine.Alone.{alone}
use libcortlet_upgradesched.Queue.{Search, steal_result, steal_from_each, steal_from_peers}
use libcortlet_upgradesched.Queue.View.{first_of, first_of-nil, first_of-cons}
use libcortlet_upgradesched.Queue.Peers.{SeesPeers, reachable}

module _ (P : Platform) where
  unfoldable pub counted : Event → Store P → Store P
  counted event s = record s {
    shared = record (s.shared) { stats = record_event event s.shared.stats };
  }

  -- The victim's deque, where it has one, behind the attempt.
  unfoldable pub behind : Store P → (victim : ℕ) → P.Deque → Store P
  behind s victim d = record s {
    shared = record (s.shared) {
      queues = record (s.shared.queues) { stealers = set s.shared.queues.stealers victim d };
      stats = record_event Event.steal_attempt s.shared.stats;
    };
  }

module _ (P : Platform) (local : ℕ) where
  module _ (thread chance : ℕ) where
    -- A search that ends with a given task.
    abbrev pub Takes : Task → Prog Search → Store P → Type 0
    Takes t p s =
        (ss : StealState) × (ps : PriorityState) × (s' : Store P) × (alone P thread chance p s
          ≡ some ((PopResult.task t, ss, ps), s'))

    -- No race makes a stealer answer `Retry`.
    abbrev pub NoLostRace : Type 0
    NoLostRace = (d : P.Deque) → (P.steal chance d).0 ≢ Steal.retry

    pub alone-absent :
        (ss : StealState) (ps : PriorityState) (victim : ℕ) (rest : List ℕ) (s : Store P)
        → get_elem? s.shared.queues.stealers victim ≡ none
        → alone P thread chance (steal_from_each ss ps (victim ∷ rest)) s
          ≡ alone P thread chance (steal_from_each ss ps rest) s
    unfolding alone steal_from_each perform
    alone-absent ss ps victim rest s e = ground arith

    pub alone-present :
        (ss : StealState) (ps : PriorityState) (victim : ℕ) (rest : List ℕ) (s : Store P)
        (d : P.Deque)
        → get_elem? s.shared.queues.stealers victim ≡ some d
        → alone P thread chance (steal_from_each ss ps (victim ∷ rest)) s ≡ (
            let r = P.steal chance d in
            alone P thread chance
              (steal_result ss ps (steal_from_each ss ps rest) r.0)
              (behind P s victim r.1))
    unfolding alone steal_from_each perform behind
    alone-present ss ps victim rest s d e = ground arith

    pub behind-SeesPeers :
        (peers : ℕ → List Task) (s : Store P) (victim : ℕ) (d d' : P.Deque)
        → get_elem? s.shared.queues.stealers victim ≡ some d
        → P.local d ≡ []
        → P.local d' ≡ []
        → (h : SeesPeers P local peers s)
        → SeesPeers P local peers (counted P Event.steal_failure (behind P s victim d'))
    unfolding behind counted
    behind-SeesPeers peers s victim d d' there was now h = record {
      reaches = λ worker other. elim (Bool-cases (worker == victim)) [
        | inl same ↦
            let this : worker ≡ victim = ==-eq worker victim same in
            ap (λ w. reachable P (get_elem? (set s.shared.queues.stealers victim d') w)) this
            ∙ ap (reachable P) (get_elem?-set_self s.shared.queues.stealers victim d d' there)
            ∙ now
            ∙ sym was
            ∙ sym (ap (reachable P) there)
            ∙ sym (ap (λ w. reachable P (get_elem? s.shared.queues.stealers w)) this)
            ∙ h.reaches worker other
        | inr differs ↦
            ap (reachable P) (
              get_elem?-set_other s.shared.queues.stealers victim worker d'
                (==-ne worker victim differs))
            ∙ h.reaches worker other
      ];
    }

    module _ (C : Crossbeam P) (sure : NoLostRace) (peers : ℕ → List Task) (t : Task) where
      victim-Takes :
          (victim : ℕ) (rest : List ℕ) (ss : StealState) (ps : PriorityState) (s : Store P)
          → victim ≢ local
          → SeesPeers P local peers s
          → first_of (peers victim ∷ map peers rest) ≡ some t
          → ((s : Store P)
              → SeesPeers P local peers s
              → first_of (map peers rest) ≡ some t
              → Takes t (steal_from_each ss ps rest) s)
          → Takes t (steal_from_each ss ps (victim ∷ rest)) s
      unfolding alone steal_result perform counted
      victim-Takes victim rest ss ps s other h e onward =
          look (get_elem? s.shared.queues.stealers victim) refl
        where
          answered :
              (d : P.Deque)
              → get_elem? s.shared.queues.stealers victim ≡ some d
              → P.local d ≡ peers victim
              → (r : Steal × P.Deque) → Stolen P d r
              → r.0 ≢ Steal.retry
              → alone P thread chance (steal_from_each ss ps (victim ∷ rest)) s
                ≡ alone P thread chance
                    (steal_result ss ps (steal_from_each ss ps rest) r.0)
                    (behind P s victim r.1)
              → Takes t (steal_from_each ss ps (victim ∷ rest)) s
          answered d there shown (Steal.success u, d') law nr eq =
              let same : u ≡ t = first_of-cons _ (sym shown ∙ law) e in
              let taken = counted P Event.steal_success (behind P s victim d') in
              (
                ss,
                record_task t ps,
                taken,
                eq ∙ ap (λ w. some ((PopResult.task w, ss, record_task w ps), taken)) same,
              )
          answered d there shown (Steal.empty, d') (was, now) nr eq =
              let (ss', ps', s', eq') =
                onward _ (behind-SeesPeers peers s victim d d' there was now h)
                  (first_of-nil _ (sym shown ∙ was) e) in
              (ss', ps', s', eq ∙ eq')
          answered d there shown (Steal.retry, d') law nr eq = absurd (nr refl)

          look :
              (found : Option P.Deque)
              → get_elem? s.shared.queues.stealers victim ≡ found
              → Takes t (steal_from_each ss ps (victim ∷ rest)) s
          look none there =
              let nothing : peers victim ≡ [] =
                sym (h.reaches victim other) ∙ ap (reachable P) there in
              let (ss', ps', s', eq) = onward s h (first_of-nil _ nothing e) in
              (ss', ps', s', alone-absent ss ps victim rest s there ∙ eq)
          look (some d) there =
              answered d there (sym (ap (reachable P) there) ∙ h.reaches victim other)
                (P.steal chance d) (C.steals chance d) (sure d)
                (alone-present ss ps victim rest s d there)

      -- The task of the first victim that has one is taken.
      each-Takes :
          (order : List ℕ) (ss : StealState) (ps : PriorityState) (s : Store P)
          → All (λ victim. victim ≢ local) order
          → SeesPeers P local peers s
          → first_of (map peers order) ≡ some t
          → Takes t (steal_from_each ss ps order) s
      each-Takes [] ss ps s apart h e = absurd (cc)
      each-Takes (victim ∷ rest) ss ps s apart h e =
          victim-Takes victim rest ss ps s apart.0 h e λ s h e. each-Takes rest ss ps s apart.1 h e

      pub peers-Takes :
          (ss : StealState) (ps : PriorityState) (s : Store P)
          → All (λ victim. victim ≢ local) (victims ss).0
          → SeesPeers P local peers s
          → first_of (map peers (victims ss).0) ≡ some t
          → Takes t (steal_from_peers ss ps) s
      unfolding steal_from_peers
      peers-Takes ss ps s apart h e = each-Takes (victims ss).0 (victims ss).1 ps s apart h e
