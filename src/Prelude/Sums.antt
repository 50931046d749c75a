-- ===== src/Prelude/Sums.antt =====
-- Weighted sums over lists, and over families indexed by thread.
use Prim.Native.Nat.{ℕ, zero, suc, ◌+◌, ◌≤◌, ◌<◌}
use mathlib.Core.Path.{◌≡◌, refl}
use mathlib.Core.List.{List, [], ◌∷◌, ◌++◌}
use mathlib.Core.Option.{some}
use native.Mathlib.Decide.{dec_lt}
use native.Mathlib.Omega.{arith}
use libcortlet_upgradesched.Prelude.Tests.{◌==◌, if◌then◌else◌}
use libcortlet_upgradesched.Prelude.Lists.{get_elem?, set}

module _ {ℓ} {A : Type ℓ} (w : A → ℕ) where
  -- The weights of a list, added up.
  abbrev pub sum_by : List A → ℕ
  sum_by [] = 0
  sum_by (x ∷ xs) = w x + sum_by xs

  pub sum_by-append : (xs ys : List A) → sum_by (xs ++ ys) ≡ sum_by xs + sum_by ys
  sum_by-append [] ys = omega arith
  sum_by-append (x ∷ xs) ys = omega (arith, sum_by-append xs ys)

  pub sum_by-set :
      (xs : List A) (i : ℕ) (old new : A)
      → get_elem? xs i ≡ some old
      → sum_by (set xs i new) + w old ≡ sum_by xs + w new
  sum_by-set [] i old new h = absurd (ground arith)
  sum_by-set (x ∷ xs) zero old new h = ground arith
  sum_by-set (x ∷ xs) (suc i) old new h = omega (arith, sum_by-set xs i old new h)

-- A sum of positive weights that is zero has no terms.
pub sum_by-zero {ℓ} :
    {A : Type ℓ} (v w : A → ℕ) (xs : List A)
    → ((x : A) → v x ≡ 0 → w x ≡ 0)
    → sum_by v xs ≡ 0
    → sum_by w xs ≡ 0
sum_by-zero v w [] h e = refl
sum_by-zero v w (x ∷ xs) h e = omega (arith, h x (omega arith), sum_by-zero v w xs h (omega arith))

-- A family with one entry replaced.
abbrev pub update {ℓ} : {A : Type ℓ} → (ℕ → A) → ℕ → A → ℕ → A
update f i a j = if i == j then a else f j

module _ {ℓ} {A : Type ℓ} (w : A → ℕ) where
  -- The weights of the entries below `n`.
  unfoldable pub sum_below : ℕ → (ℕ → A) → ℕ
  sum_below zero f = 0
  sum_below (suc n) f = w (f n) + sum_below n f

  sum_below-update_of_le :
      (n : ℕ) (f : ℕ → A) (i : ℕ) (a : A) → n ≤ i → sum_below n (update f i a) ≡ sum_below n f
  unfolding sum_below
  sum_below-update_of_le zero f i a h = refl
  sum_below-update_of_le (suc n) f i a h = ground (arith, sum_below-update_of_le n f i a)

  pub sum_below-update :
      (n : ℕ) (f : ℕ → A) (i : ℕ) (a : A)
      → i < n
      → sum_below n (update f i a) + w (f i) ≡ sum_below n f + w a
  unfolding sum_below
  sum_below-update zero f i a h = absurd (omega arith)
  sum_below-update (suc n) f i a h = elim (dec_lt i n) [
    | yes inside ↦ ground (arith, sum_below-update n f i a inside)
    | no last ↦ ground (arith, sum_below-update_of_le n f i a)
  ]

  pub le-sum_below : (n : ℕ) (f : ℕ → A) (i : ℕ) → i < n → w (f i) ≤ sum_below n f
  unfolding sum_below
  le-sum_below zero f i h = absurd (omega arith)
  le-sum_below (suc n) f i h = elim (dec_lt i n) [
    | yes inside ↦ omega (arith, le-sum_below n f i inside)
    | no last ↦ ground arith
  ]

  pub sum_below-zero : (n : ℕ) (f : ℕ → A) → ((i : ℕ) → i < n → w (f i) ≡ 0) → sum_below n f ≡ 0
  unfolding sum_below
  sum_below-zero zero f h = refl
  sum_below-zero (suc n) f h =
      omega (arith, h n (omega arith), sum_below-zero n f (λ i lt. h i (omega arith)))

  pub sum_below-le : (n : ℕ) (f : ℕ → A) → ((i : ℕ) → w (f i) ≤ 1) → sum_below n f ≤ n
  unfolding sum_below
  sum_below-le zero f small = omega arith
  sum_below-le (suc n) f small = omega (arith, small n, sum_below-le n f small)

module _ {ℓ κ} {A : Type ℓ} {B : Type κ} (v : A → ℕ) (w : B → ℕ) where
  pub sum_below-le-sum_below :
      (n : ℕ) (f : ℕ → A) (g : ℕ → B)
      → ((i : ℕ) → v (f i) ≤ w (g i))
      → sum_below v n f ≤ sum_below w n g
  unfolding sum_below
  sum_below-le-sum_below zero f g h = omega arith
  sum_below-le-sum_below (suc n) f g h = omega (arith, h n, sum_below-le-sum_below n f g h)

  pub sum_below-add-le :
      (n : ℕ) (f : ℕ → A) (g : ℕ → B)
      → ((i : ℕ) → v (f i) + w (g i) ≤ 1)
      → sum_below v n f + sum_below w n g ≤ n
  unfolding sum_below
  sum_below-add-le zero f g h = omega arith
  sum_below-add-le (suc n) f g h = omega (arith, h n, sum_below-add-le n f g h)
