-- ===== src/System/Deadlock.antt =====
-- States from which nothing goes on: every thread has ended, or waits on a condition variable of
-- src/worker.rs or src/group.rs for a notification that no thread is left to give.
use libcortlet_upgradesched.Prelude.{
  ℕ, ◌<◌, ◌≡◌, refl, true, List, [], ◌∷◌, arith, ltb, ◌∙◌, ap, Bool-cases, inl, inr, ltb→lt,
}
use libcortlet_upgradesched.Platform.{Platform}
use libcortlet_upgradesched.Machine.{Op, GroupOp, Prog, ret, act, stalled}
use libcortlet_upgradesched.Machine.Store.{Store}
use libcortlet_upgradesched.Machine.Perform.{perform}
use libcortlet_upgradesched.System.{Turn, System, advance, step, run}

module _ {P : Platform} {A : Type 0} where
  -- A thread that has ended, or waits.
  abbrev pub Rests : (i : ℕ) → Store P → Prog A → Type 0
  Rests i s (ret a) = Unit
  Rests i s stalled = Unit
  Rests i s (act Op.resume k) = P.is_waiting i s.shared.wake ≡ true
  Rests i s (act (Op.group g GroupOp.resume) k) = P.is_waiting i (s.groups g).wake ≡ true
  Rests i s (act op k) = ⊥

  advance-Rests :
      (i chance : ℕ) (p : Prog A) (s : System P A) → Rests i s.store p → advance i chance p s ≡ s
  unfolding advance perform
  advance-Rests i chance (ret a) s h = refl
  advance-Rests i chance stalled s h = refl
  advance-Rests i chance (act Op.resume k) s h = ground arith
  advance-Rests i chance (act (Op.group g GroupOp.resume) k) s h = ground arith
  advance-Rests i chance (act _ k) s h = absurd h

  step-Rests :
      (n : ℕ) (turn : Turn) (s : System P A)
      → ((i : ℕ) → i < n → Rests i s.store (s.threads i))
      → step n turn s ≡ s
  unfolding step
  step-Rests n turn s h = elim (Bool-cases (ltb turn.thread n)) [
    | inl inside ↦ rw inside (
        advance-Rests turn.thread turn.chance (s.threads turn.thread) s
          (h turn.thread (ltb→lt turn.thread n inside)))
    | inr outside ↦ rw outside refl
  ]

  -- Once every thread has ended or waits for a notification, no turn of any thread changes anything:
  -- no later moment wakes them.
  pub run-Rests :
      (n : ℕ) (turns : List Turn) (s : System P A)
      → ((i : ℕ) → i < n → Rests i s.store (s.threads i))
      → run n turns s ≡ s
  unfolding run
  run-Rests n [] s h = refl
  run-Rests n (turn ∷ turns) s h = ap (run n turns) (step-Rests n turn s h) ∙ run-Rests n turns s h
