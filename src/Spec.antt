-- ===== src/Spec.antt =====
-- The abstract scheduler: a bag of jobs, which forgets the order and the place of the tasks. It takes
-- in published jobs, and executes jobs that are in the bag.
use mathlib.Core.Quot
use mathlib.Core.Quot.{Quot, Quot-set}
use libcortlet_upgradesched.Prelude.{
  ℕ, ◌+◌, ◌-◌, ◌≤◌, ◌≡◌, refl, arith, List, [], ◌∷◌, sum_by, ◌==◌, ◌&&◌, if◌then◌else◌,
}

-- The C function of a task, and its argument.
pub record Job : Type 0 where
  pub function : ℕ
  pub argument : ℕ

-- Weighs 1 for the given function and argument, and 0 for all others.
abbrev pub only : (function argument : ℕ) → ℕ → ℕ → ℕ
only function argument f a = if f == function && a == argument then 1 else 0

abbrev pub count : (function argument : ℕ) → List Job → ℕ
count function argument = sum_by (λ j. only function argument j.function j.argument)

-- The same jobs, each as often.
abbrev pub SameJobs : List Job → List Job → Type 0
SameJobs xs ys = (f a : ℕ) → count f a xs ≡ count f a ys

abbrev pub Bag : Type 0
Bag = Quot SameJobs

unfoldable pub no_jobs : Bag
no_jobs = Quot.mk []

-- How often a job is in the bag.
unfoldable pub units : (function argument : ℕ) → Bag → ℕ
units f a = Quot.lift (hlevel) (count f a) λ xs ys h. h f a

unfoldable pub put : (function argument : ℕ) → Bag → Bag
put f a =
    Quot.lift Quot-set (λ js. Quot.mk (record { function = f; argument = a } ∷ js))
      λ xs ys h. Quot.sound λ g b. omega (arith, h g b)

erase : (function argument : ℕ) → List Job → List Job
erase f a [] = []
erase f a (j ∷ js) = if j.function == f && j.argument == a then js else (j ∷ erase f a js)

count-erase : (f a g b : ℕ) (js : List Job) → count g b (erase f a js) ≡ count g b js - only g b f a
unfolding erase
count-erase f a g b [] = omega arith
count-erase f a g b (j ∷ js) = ground (arith, count-erase f a g b js)

-- The bag without one such job.
pub take_out : (function argument : ℕ) → Bag → Bag
take_out f a =
    Quot.lift Quot-set (λ js. Quot.mk (erase f a js))
      λ xs ys h.
        Quot.sound λ g b. omega (arith, count-erase f a g b xs, count-erase f a g b ys, h g b)

pub units-no_jobs : (f a : ℕ) → units f a no_jobs ≡ 0
unfolding units no_jobs
units-no_jobs f a = refl

pub units-put : (f a g b : ℕ) (bag : Bag) → units g b (put f a bag) ≡ units g b bag + only g b f a
unfolding units put
units-put f a g b = Quot.ind (λ _. hlevel) λ js. omega arith

pub units-take_out :
    (f a g b : ℕ) (bag : Bag) → units g b (take_out f a bag) ≡ units g b bag - only g b f a
unfolding units take_out
units-take_out f a g b = Quot.ind (λ _. hlevel) (count-erase f a g b)

-- Bags are equal when each job is in them as often.
pub units-ext : (x y : Bag) → ((f a : ℕ) → units f a x ≡ units f a y) → x ≡ y
unfolding units
units-ext = Quot.ind (λ _. hlevel Quot-set) λ xs. Quot.ind (λ _. hlevel Quot-set) λ ys. Quot.sound

-- What the abstract scheduler does.
pub data Action : Type 0 where
  publish execute : (function argument : ℕ) → Action

-- The histories of the abstract scheduler, latest action first, with the bag behind them: a job is
-- executed only out of a bag that holds it.
pub data Reaches : List Action → Bag → Type 0 where
  begin : Reaches [] no_jobs
  publishes :
      {actions : List Action} {bag : Bag} (f a : ℕ)
      → Reaches actions bag
      → Reaches (Action.publish f a ∷ actions) (put f a bag)
  executes :
      {actions : List Action} {bag : Bag} (f a : ℕ)
      → Reaches actions (put f a bag)
      → Reaches (Action.execute f a ∷ actions) bag

-- A job that is in the bag can be executed.
pub put-take_out : (f a : ℕ) (bag : Bag) → 1 ≤ units f a bag → put f a (take_out f a bag) ≡ bag
put-take_out f a bag h = units-ext _ _ λ g b.
    omega (arith, units-put f a g b (take_out f a bag), units-take_out f a g b bag, at_least g b)
  where
    at_least : (g b : ℕ) → only g b f a ≤ units g b bag
    at_least g b = ground (arith, h)
