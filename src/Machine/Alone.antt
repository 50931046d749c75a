-- ===== src/Machine/Alone.antt =====
-- A program that runs with no other thread in between.
use libcortlet_upgradesched.Prelude.{ℕ, ◌≡◌, refl, ap, ◌∙◌, Option, none, some}
use libcortlet_upgradesched.Platform.{Platform}
use libcortlet_upgradesched.Machine.{Prog, ret, act, stalled, ◌>>=◌}
use libcortlet_upgradesched.Machine.Store.{Store}
use libcortlet_upgradesched.Machine.Perform.{perform}

abbrev pub go_on {ℓ κ} :
    {P : Platform} {X : Type κ} {A : Type ℓ}
    → (X → Store P → Option (A × Store P))
    → Option (X × Store P)
    → Option (A × Store P)
go_on next none = none
go_on next (some (x, s)) = next x s

-- `none`: it blocks, with nobody to wake it, or its rounds are used up. The platform decides each
-- access by the same chance.
unfoldable pub alone {ℓ} :
    {A : Type ℓ} (P : Platform) (thread chance : ℕ) → Prog A → Store P → Option (A × Store P)
unfolding perform
alone P thread chance (ret a) s = some (a, s)
alone P thread chance stalled s = none
alone P thread chance (act op k) s =
    go_on (λ x s'. alone P thread chance (k x) s') (perform P thread chance op s)

module _ (P : Platform) (thread chance : ℕ) where
  go_on-alone {ℓ κ} :
      {X : Type 0} {A : Type ℓ} {B : Type κ} (k : X → Prog A) (f : A → Prog B)
      → ((x : X) (s : Store P)
          → alone P thread chance (k x >>= f) s
            ≡ go_on (λ a s. alone P thread chance (f a) s) (alone P thread chance (k x) s))
      → (r : Option (X × Store P))
      → go_on (λ x s. alone P thread chance (k x >>= f) s) r
        ≡ go_on
            (λ a s. alone P thread chance (f a) s)
            (go_on (λ x s. alone P thread chance (k x) s) r)
  go_on-alone k f h none = refl
  go_on-alone k f h (some (x, s)) = h x s

  -- A program and what follows it.
  pub alone->>= {ℓ κ} :
      {A : Type ℓ} {B : Type κ} (p : Prog A) (f : A → Prog B) (s : Store P)
      → alone P thread chance (p >>= f) s
        ≡ go_on (λ a s. alone P thread chance (f a) s) (alone P thread chance p s)
  unfolding alone
  alone->>= (ret a) f s = refl
  alone->>= (act op k) f s =
      go_on-alone k f (λ x s. alone->>= (k x) f s) (perform P thread chance op s)
  alone->>= stalled f s = refl

  -- The same, where the first program is known to end.
  pub alone_after {ℓ κ} :
      {A : Type ℓ} {B : Type κ} (p : Prog A) (f : A → Prog B) (s s' : Store P) (a : A)
      → alone P thread chance p s ≡ some (a, s')
      → alone P thread chance (p >>= f) s ≡ alone P thread chance (f a) s'
  alone_after p f s s' a e = alone->>= p f s ∙ ap (go_on (λ a s. alone P thread chance (f a) s)) e
