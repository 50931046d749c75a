-- ===== src/Machine/Monitor.antt =====
-- Statements on every path of a program, for all answers that other threads may cause: a monitor
-- follows the accesses of the program and their answers.
use libcortlet_upgradesched.Prelude.{
  ℕ, zero, suc, ◌≡◌, refl, Bool, true, false, ◌⊎◌, inl, inr, if◌then◌else◌,
}
use libcortlet_upgradesched.Machine.{Op, Answer, Prog, ret, act, stalled, loop, ◌>>=◌}

-- How the monitor's state changes with an access and its answer, and which accesses it allows.
pub record Monitor : Type 1 where
  pub State : Type 0
  pub next : (op : Op) → Answer op → State → State
  pub Allows : Op → State → Type 0

module _ (W : Monitor) where
  -- From state `m` on, every access is allowed, and every result satisfies `Q` with the state there.
  abbrev pub Watched {ℓ} : {A : Type ℓ} → (A → W.State → Type 0) → W.State → Prog A → Type 0
  Watched Q m (ret a) = Q a m
  Watched Q m (act op k) = W.Allows op m × ((x : Answer op) → Watched Q (W.next op x m) (k x))
  Watched Q m stalled = Unit

  pub Watched->>= {ℓ κ} :
      {A : Type ℓ} {B : Type κ} (Q : A → W.State → Type 0) (R : B → W.State → Type 0) (m : W.State)
      (p : Prog A) (f : A → Prog B)
      → Watched Q m p
      → ((a : A) (m : W.State) → Q a m → Watched R m (f a))
      → Watched R m (p >>= f)
  Watched->>= Q R m (ret a) f h onward = onward a m h
  Watched->>= Q R m (act op k) f h onward =
      (h.0, λ x. Watched->>= Q R (W.next op x m) (k x) f (h.1 x) onward)
  Watched->>= Q R m stalled f h onward = tt

  -- A test whose outcome is known in the branches.
  pub if-Watched {ℓ} :
      {A : Type ℓ} (Q : A → W.State → Type 0) (m : W.State) (b : Bool) (p q : Prog A)
      → (b ≡ true → Watched Q m p)
      → (b ≡ false → Watched Q m q)
      → Watched Q m (if b then p else q)
  if-Watched Q m true p q hp hq = hp refl
  if-Watched Q m false p q hp hq = hq refl

  -- What a round leaves: the invariant where the loop goes on, the result where it ends.
  abbrev pub RoundEnds {ℓ κ} :
      {S : Type ℓ} {A : Type κ}
      → (S → W.State → Type 0)
      → (A → W.State → Type 0)
      → S ⊎ A
      → W.State
      → Type 0
  RoundEnds I Q (inl s) m = I s m
  RoundEnds I Q (inr a) m = Q a m

  -- A loop whose rounds keep an invariant, for any number of rounds.
  pub Watched-loop {ℓ κ} :
      {S : Type ℓ} {A : Type κ} (I : S → W.State → Type 0) (Q : A → W.State → Type 0)
      (body : S → Prog (S ⊎ A))
      → ((s : S) (m : W.State) → I s m → Watched (RoundEnds I Q) m (body s))
      → (rounds : ℕ) (s : S) (m : W.State) → I s m
      → Watched Q m (loop rounds body s)
  unfolding loop
  Watched-loop I Q body keep zero s m h = tt
  Watched-loop I Q body keep (suc rounds) s m h =
      Watched->>= (RoundEnds I Q) Q m (body s) _ (keep s m h) (elim [
        | inl s' ↦ λ m' h'. Watched-loop I Q body keep rounds s' m' h'
        | inr a ↦ λ m' h'. h'
      ])

  -- Where every access is allowed, every program is watched.
  pub Watched-any {ℓ} :
      {A : Type ℓ} (p : Prog A) (m : W.State)
      → ((op : Op) (m : W.State) → W.Allows op m)
      → Watched (λ _ _. Unit {0}) m p
  Watched-any (ret a) m free = tt
  Watched-any (act op k) m free = (free op m, λ x. Watched-any (k x) (W.next op x m) free)
  Watched-any stalled m free = tt
