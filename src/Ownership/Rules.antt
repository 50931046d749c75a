-- ===== src/Ownership/Rules.antt =====
-- The rules of `Safe` for sequencing, loops and tests.
use libcortlet_upgradesched.Prelude.{
  ℕ, zero, suc, ◌≡◌, refl, sym, subst, Bool, true, false, ◌⊎◌, inl, inr, if◌then◌else◌,
}
use libcortlet_upgradesched.Machine.{Op, Prog, ret, act, stalled, ◌>>=◌, next_round, loop}
use libcortlet_upgradesched.Ownership.{Ghost, nothing, after, Safe}

module _ {ℓ κ μ ν} {A : Type ℓ} {B : Type κ} (capacity : ℕ) where
  pub >>=-Safe :
      (Q : Ghost → A → Type μ) (R : Ghost → B → Type ν) (p : Prog A) (f : A → Prog B) (own : Ghost)
      → Safe capacity Q own p
      → ((own : Ghost) (a : A) → Q own a → Safe capacity R own (f a))
      → Safe capacity R own (p >>= f)
  >>=-Safe Q R (ret a) f own h k = k own a h
  >>=-Safe Q R (act op next) f own h k =
      (h.0, λ x. >>=-Safe Q R (next x) f (after op x own) (h.1 x) k)
  >>=-Safe Q R stalled f own h k = tt

-- What the end of a round owes: the invariant for another one, or the postcondition.
abbrev pub RoundEnd {ℓ κ μ} :
    {S : Type ℓ} {A : Type κ} → (Ghost → S → Type μ) → (Ghost → A → Type μ) → Ghost → S ⊎ A → Type μ
RoundEnd I Q own (inl s) = I own s
RoundEnd I Q own (inr a) = Q own a

module _ {ℓ κ μ} {S : Type ℓ} {A : Type κ} (capacity : ℕ) (I : Ghost → S → Type μ)
    (Q : Ghost → A → Type μ) (body : S → Prog (S ⊎ A))
    (round : (own : Ghost) (s : S) → I own s → Safe capacity (RoundEnd I Q) own (body s)) where
  next_round-Safe :
      (again : S → Prog A)
      → ((own : Ghost) (s : S) → I own s → Safe capacity Q own (again s))
      → (own : Ghost) (r : S ⊎ A) → RoundEnd I Q own r
      → Safe capacity Q own (next_round again r)
  next_round-Safe again h own (inl s) i = h own s i
  next_round-Safe again h own (inr a) q = q

  -- An invariant of the rounds, for any number of them.
  pub loop-Safe :
      (rounds : ℕ) (own : Ghost) (s : S) → I own s → Safe capacity Q own (loop rounds body s)
  unfolding loop
  loop-Safe zero own s h = tt
  loop-Safe (suc rounds) own s h =
      >>=-Safe capacity (RoundEnd I Q) Q (body s) (next_round (loop rounds body)) own
        (round own s h) (next_round-Safe (loop rounds body) (loop-Safe rounds))

module _ {ℓ κ} {A : Type ℓ} (capacity : ℕ) (Q : Ghost → A → Type κ) where
  pub if-Safe :
      (b : Bool) (own : Ghost) (p q : Prog A)
      → Safe capacity Q own p
      → Safe capacity Q own q
      → Safe capacity Q own (if b then p else q)
  if-Safe true own p q hp hq = hp
  if-Safe false own p q hp hq = hq

  -- The same where the test is known in the branches.
  pub if-Safe_of :
      (b : Bool) (own : Ghost) (p q : Prog A)
      → (b ≡ true → Safe capacity Q own p)
      → (b ≡ false → Safe capacity Q own q)
      → Safe capacity Q own (if b then p else q)
  if-Safe_of true own p q hp hq = hp refl
  if-Safe_of false own p q hp hq = hq refl

  -- Along an equation of what is owned.
  pub Safe-at :
      (p : Prog A) (own : Ghost) {own' : Ghost}
      → own' ≡ own
      → Safe capacity Q own p
      → Safe capacity Q own' p
  Safe-at p own e h = subst (λ own. Safe capacity Q own p) (sym e) h

  -- A test of the shutdown flag, just loaded.
  pub check-Safe :
      (own : Ghost) (p q : Prog A)
      → Safe capacity Q (after Op.load_shutdown true own) p
      → Safe capacity Q (after Op.load_shutdown false own) q
      → (b : Bool) → Safe capacity Q (after Op.load_shutdown b own) (if b then p else q)
  check-Safe own p q hp hq true = hp
  check-Safe own p q hp hq false = hq

-- A thread that owns nothing at its end.
abbrev pub Clean {ℓ} : {A : Type ℓ} → Ghost → A → Type 0
Clean own a = own ≡ nothing
