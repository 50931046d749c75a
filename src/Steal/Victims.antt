-- ===== src/Steal/Victims.antt =====
-- The order of the victims in src/steal.rs: every other worker once, from a start that rotates.
use libcortlet_upgradesched.Prelude.{
  ℕ, zero, suc, ◌+◌, ◌-◌, ◌%◌, ◌^◌, ◌≤◌, ◌<◌, ◌≡◌, refl, not, ◌&&◌, List, [], ◌∷◌, ◌++◌, arith,
  length, length-append, wrap, leb, ltb, ◌==◌, if◌then◌else◌, sum_by, dec_lt, Bool-cases, inl, inr,
  sym, ap, ◌∙◌,
}
use mathlib.Core.List.{append-nil, append_assoc}
use native.Mathlib.Nat.{mod-lt, mod-eq_of_lt, mod-eq-sub-mod}
use libcortlet_upgradesched.Steal.{
  StealState, StealPolicy, collect, round_robin_victims, victims_by, victims,
}

-- The workers from `first` on, around the circle, with the worker itself left out.
module _ (worker_id count first : ℕ) where
  around : (rounds offset : ℕ) → List ℕ
  around zero offset = []
  around (suc rounds) offset =
      let rest = around rounds (offset + 1) in
      if (first + offset) % count == worker_id then rest else ((first + offset) % count ∷ rest)

-- The offset at which the circle comes to a worker.
offset_of : (count first worker : ℕ) → ℕ
offset_of count first worker = if leb first worker then worker - first else worker + count - first

-- Less than two rounds of the circle.
mod_once : (count a : ℕ) → a < count + count → a % count ≡ (if ltb a count then a else (a - count))
mod_once count a h = elim (dec_lt a count) [
  | yes l ↦ ground (arith, mod-eq_of_lt l)
  | no l ↦
      let below : a - count < count = omega arith in
      let above : count ≤ a = omega arith in
      ground (arith, mod-eq-sub-mod above, mod-eq_of_lt below)
]

module _ (count first : ℕ) (first_lt : first < count) where
  offset_of-lt : (worker : ℕ) → worker < count → offset_of count first worker < count
  unfolding offset_of
  offset_of-lt worker h = ground arith

  meets_iff :
      (worker offset : ℕ)
      → worker < count
      → offset < count
      → ((first + offset) % count == worker) ≡ (offset == offset_of count first worker)
  unfolding offset_of
  meets_iff worker offset h k = rw (mod_once count (first + offset) (omega arith)) (ground arith)

  module _ (worker_id : ℕ) (self_lt : worker_id < count) where
    abbrev self : ℕ
    self = offset_of count first worker_id

    -- How many entries are left, and how many were passed.
    length-around :
        (rounds offset : ℕ)
        → rounds + offset ≡ count
        → length (around worker_id count first rounds offset) + (if leb offset self then 1 else 0)
          ≡ rounds
    unfolding around
    length-around zero offset e = ground (arith, offset_of-lt worker_id self_lt)
    length-around (suc rounds) offset e =
        ground (arith, meets_iff worker_id offset self_lt, length-around rounds (offset + 1))

    around-nil :
        (rounds offset : ℕ)
        → length (around worker_id count first rounds offset) ≡ 0
        → around worker_id count first rounds offset ≡ []
    around-nil rounds offset e = ground arith

    collect-around :
        (rounds offset : ℕ) (acc : List ℕ)
        → rounds + offset ≡ count
        → count + count ≤ 2 ^ 64
        → length acc + (if leb offset self then 0 else 1) ≡ offset
        → collect worker_id count first rounds offset acc
          ≡ acc ++ around worker_id count first rounds offset
    unfolding collect around
    collect-around zero offset acc e small passed = sym (append-nil acc)
    collect-around (suc rounds) offset acc e small passed =
        rw (mod-eq_of_lt fits) (elim (Bool-cases ((first + offset) % count == worker_id)) [
          | inl at_self ↦ rw at_self (
              collect-around rounds (offset + 1) acc (omega arith) small
                (ground (arith, meets_iff worker_id offset self_lt)))
          | inr other ↦ rw other (elim (Bool-cases (length longer == count - 1)) [
            | inl full ↦ rw full (
                ap (λ l. acc ++ victim ∷ l)
                  (sym (
                    around-nil rounds (offset + 1) (
                      ground (
                        arith,
                        length-append {0} acc (victim ∷ []),
                        meets_iff worker_id offset self_lt,
                        length-around rounds (offset + 1),
                      )))))
            | inr room ↦ rw room (
                collect-around rounds (offset + 1) longer (omega arith) small (
                  ground (
                    arith,
                    length-append {0} acc (victim ∷ []),
                    meets_iff worker_id offset self_lt,
                  ))
                ∙ append_assoc acc (victim ∷ []) _)
          ])
        ])
      where
        victim : ℕ
        victim = (first + offset) % count

        longer : List ℕ
        longer = acc ++ victim ∷ []

        fits : first + offset < 2 ^ 64
        fits = omega arith

    -- How often a worker comes on the rest of the circle.
    around-once :
        (worker rounds offset : ℕ)
        → worker < count
        → rounds + offset ≡ count
        → sum_by (λ v. if v == worker then 1 else 0) (around worker_id count first rounds offset)
          ≡ (if worker == worker_id
              then 0
              else (if leb offset (offset_of count first worker) then 1 else 0))
    unfolding around
    around-once worker zero offset h e = ground (arith, offset_of-lt worker h)
    around-once worker (suc rounds) offset h e =
        ground (arith, meets_iff worker offset h, around-once worker rounds (offset + 1))

    around-never :
        (worker rounds offset : ℕ)
        → count ≤ worker
        → sum_by (λ v. if v == worker then 1 else 0) (around worker_id count first rounds offset)
          ≡ 0
    unfolding around
    around-never worker zero offset h = refl
    around-never worker (suc rounds) offset h =
        ground (arith, mod-lt (first + offset) {m = count}, around-never worker rounds (offset + 1))

-- How often a worker stands in a list of victims.
abbrev pub times : ℕ → List ℕ → ℕ
times worker l = sum_by (λ v. if v == worker then 1 else 0) l

module _ (s : StealState) (self_lt : s.worker_id < s.worker_count)
    (small : s.worker_count + s.worker_count ≤ 2 ^ 64) where
  abbrev first : ℕ
  first = wrap (s.worker_id + 1 + s.cursor) % s.worker_count

  times-around :
      (worker : ℕ)
      → times worker (around s.worker_id s.worker_count first s.worker_count 0)
        ≡ (if ltb worker s.worker_count && not (worker == s.worker_id) then 1 else 0)
  times-around worker =
      let first_lt : first < s.worker_count = mod-lt _ (omega arith) in
      elim (dec_lt worker s.worker_count) [
        | yes l ↦ ground (
          arith,
          around-once s.worker_count first first_lt s.worker_id self_lt worker s.worker_count 0,
        )
        | no l ↦ ground (
          arith,
          around-never s.worker_count first first_lt s.worker_id self_lt worker s.worker_count 0,
        )
      ]

  times-round_robin :
      (worker : ℕ)
      → times worker (round_robin_victims s).0
        ≡ (if ltb worker s.worker_count && not (worker == s.worker_id) then 1 else 0)
  unfolding round_robin_victims
  times-round_robin worker = elim (Bool-cases (leb s.worker_count 1)) [
    | inl alone ↦ ground arith
    | inr more ↦ rw more (
        rw
          (collect-around s.worker_count first (mod-lt _ (omega arith)) s.worker_id self_lt
            s.worker_count 0 [] (omega arith) small (ground arith))
          (times-around worker))
  ]

victims_by-eq :
    (policy : StealPolicy) (s : StealState) → victims_by policy s ≡ round_robin_victims s
unfolding victims_by
victims_by-eq StealPolicy.round_robin s = refl
victims_by-eq StealPolicy.adaptive s = refl

-- In one attempt a worker of a numbered set of up to 2^63 workers tries each other worker exactly
-- once, itself never, and no index that names no worker, for any cursor and under either policy.
pub times-victims :
    (s : StealState) (worker : ℕ)
    → s.worker_id < s.worker_count
    → s.worker_count + s.worker_count ≤ 2 ^ 64
    → times worker (victims s).0
      ≡ (if ltb worker s.worker_count && not (worker == s.worker_id) then 1 else 0)
unfolding victims
times-victims s worker self_lt small =
    rw (victims_by-eq s.policy s) (times-round_robin s self_lt small worker)
