-- ===== src/Machine/Log.antt =====
-- Which accesses a program makes that runs with no other thread in between, in their order.
use libcortlet_upgradesched.Prelude.{
  ℕ, ◌≡◌, refl, ap, arith, Option, none, some, List, [], ◌∷◌, ◌++◌, sum_by,
}
use libcortlet_upgradesched.Platform.{Platform}
use libcortlet_upgradesched.Machine.{Op, Answer, Prog, ret, act, stalled, ◌>>=◌}
use libcortlet_upgradesched.Machine.Store.{Store}
use libcortlet_upgradesched.Machine.Perform.{perform}
use libcortlet_upgradesched.Machine.Alone.{alone, go_on}
use libcortlet_upgradesched.Machine.Monitor.{Monitor, Watched}

abbrev pub log_on :
    {P : Platform} (op : Op)
    → (Answer op → Store P → List Op)
    → Option (Answer op × Store P)
    → List Op
log_on op next none = []
log_on op next (some (x, s)) = op ∷ next x s

unfoldable pub log {ℓ} :
    {A : Type ℓ} (P : Platform) (thread chance : ℕ) → Prog A → Store P → List Op
unfolding perform
log P thread chance (ret a) s = []
log P thread chance stalled s = []
log P thread chance (act op k) s =
    log_on op (λ x s'. log P thread chance (k x) s') (perform P thread chance op s)

module _ (P : Platform) (thread chance : ℕ) where
  log_on-after {ℓ κ} :
      {A : Type ℓ} {B : Type κ} (op : Op) (k : Answer op → Prog A) (f : A → Prog B) (a : A)
      (s' : Store P)
      → ((x : Answer op) (s : Store P)
          → alone P thread chance (k x) s ≡ some (a, s')
          → log P thread chance (k x >>= f) s
            ≡ log P thread chance (k x) s ++ log P thread chance (f a) s')
      → (r : Option (Answer op × Store P))
      → go_on (λ x s. alone P thread chance (k x) s) r ≡ some (a, s')
      → log_on op (λ x s. log P thread chance (k x >>= f) s) r
        ≡ log_on op (λ x s. log P thread chance (k x) s) r ++ log P thread chance (f a) s'
  log_on-after op k f a s' h none e = absurd (cc)
  log_on-after op k f a s' h (some (x, s)) e = ap (λ l. op ∷ l) (h x s e)

  -- A program and what follows it, where the first is known to end.
  pub log-after {ℓ κ} :
      {A : Type ℓ} {B : Type κ} (p : Prog A) (f : A → Prog B) (s s' : Store P) (a : A)
      → alone P thread chance p s ≡ some (a, s')
      → log P thread chance (p >>= f) s ≡ log P thread chance p s ++ log P thread chance (f a) s'
  unfolding log alone
  log-after (ret b) f s s' a e =
      ap (λ r. elim r [ none ↦ [] | some q ↦ log P thread chance (f q.0) q.1 ]) e
  log-after stalled f s s' a e = absurd (cc)
  log-after (act op k) f s s' a e =
      log_on-after op k f a s' (λ x s e. log-after (k x) f s s' a e) (perform P thread chance op s)
        e

  -- Where a monitor allows no access that weighs anything, the log weighs nothing.
  module _ (W : Monitor) (weigh : Op → ℕ)
      (light : (op : Op) (m : W.State) → W.Allows op m → weigh op ≡ 0) where
    log_on-light {ℓ} :
        {A : Type ℓ} (op : Op) (k : Answer op → Prog A)
        → weigh op ≡ 0
        → ((x : Answer op) (s : Store P) → sum_by weigh (log P thread chance (k x) s) ≡ 0)
        → (r : Option (Answer op × Store P))
        → sum_by weigh (log_on op (λ x s. log P thread chance (k x) s) r) ≡ 0
    log_on-light op k z h none = refl
    log_on-light op k z h (some (x, s)) = omega (arith, z, h x s)

    pub log-light {ℓ} :
        {A : Type ℓ} (Q : A → W.State → Type 0) (m : W.State) (p : Prog A) (s : Store P)
        → Watched W Q m p
        → sum_by weigh (log P thread chance p s) ≡ 0
    unfolding log
    log-light Q m (ret a) s h = refl
    log-light Q m stalled s h = refl
    log-light Q m (act op k) s h =
        log_on-light op k (light op m h.0) (λ x s. log-light Q (W.next op x m) (k x) s (h.1 x))
          (perform P thread chance op s)
