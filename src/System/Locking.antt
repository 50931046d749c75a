-- ===== src/System/Locking.antt =====
-- `sleep_lock` and the count of sleeping workers (src/worker.rs): what the conduct of a thread says of
-- them, and that every access keeps it.
use libcortlet_upgradesched.Prelude.{
  ℕ, ◌+◌, ◌≤◌, ◌≡◌, arith, Bool, true, false, Option, some, ◌==◌, ==-eq, ==-ne, wrap, sym,
  Bool-cases, inl, inr, sum_below, sum_below-update, le-sum_below, subst,
}
use libcortlet_upgradesched.Platform.{Platform, ParkingLot}
use libcortlet_upgradesched.Machine.{Op, Answer, Prog, ret, act}
use libcortlet_upgradesched.Machine.Monitor.{Watched}
use libcortlet_upgradesched.Ownership.{Ghost}
use libcortlet_upgradesched.Effects.{Holds}
use libcortlet_upgradesched.Effects.Records.{SleepLaw, LockLaw, perform-SleepLaw, perform-LockLaw}
use libcortlet_upgradesched.Conduct.{Conduct, conduct, conduct_after, Proper, Idle}
use libcortlet_upgradesched.System.{System}
use libcortlet_upgradesched.System.Conducted.{Conducted}

abbrev pub asleep_bit : Conduct → ℕ
asleep_bit m = elim m.asleep [ true ↦ 1 | false ↦ 0 ]

-- Thread `i` holds the lock exactly if the mutex says so.
abbrev pub Agrees : (i : ℕ) → Conduct → Option ℕ → Type 0
Agrees i m holder = (m.locked ≡ true → holder ≡ some i) × (holder ≡ some i → m.locked ≡ true)

Agrees-self :
    (i : ℕ) (m : Conduct) (op : Op) (x : Answer op) (before now : Option ℕ)
    → Proper op m
    → LockLaw i op before now
    → Agrees i m before
    → Agrees i (conduct_after op x m) now
Agrees-self i m Op.load_shutdown x before now proper law agrees = ground arith
Agrees-self i m _ x before now proper law agrees = ground arith

Agrees-other :
    (i j : ℕ) (m m' : Conduct) (op : Op) (before now : Option ℕ)
    → ¬ (i ≡ j)
    → Proper op m
    → LockLaw i op before now
    → Agrees i m before
    → Agrees j m' before
    → Agrees j m' now
Agrees-other i j m m' Op.load_shutdown before now other proper law agrees agrees' = ground arith
Agrees-other i j m m' _ before now other proper law agrees agrees' = ground arith

slept-after :
    (m : Conduct) (op : Op) (x : Answer op) (total total' before now : ℕ)
    → Proper op m
    → SleepLaw op before now
    → asleep_bit m ≤ total
    → total' + asleep_bit m ≡ total + asleep_bit (conduct_after op x m)
    → before ≡ wrap total
    → now ≡ wrap total'
slept-after m Op.load_shutdown x total total' before now proper law le t e = ground arith
slept-after m _ x total total' before now proper law le t e = ground arith

-- Whether the next access of a thread is one that the source makes under `sleep_lock`.
abbrev pub needs_lock : {A : Type 0} → Prog A → Bool
needs_lock (act Op.unlock_sleep k) = true
needs_lock (act Op.block k) = true
needs_lock (act Op.fetch_add_sleeping k) = true
needs_lock (act Op.fetch_sub_sleeping k) = true
needs_lock _ = false

-- Whether a thread has ended, or is about to call a task's function.
abbrev pub is_apart : {A : Type 0} → Prog A → Bool
is_apart (ret a) = true
is_apart (act (Op.execute t) k) = true
is_apart _ = false

pub needs_lock-locked :
    {A : Type 0} (m : Conduct) (p : Prog A)
    → Watched conduct Idle m p
    → needs_lock p ≡ true
    → m.locked ≡ true
needs_lock-locked m (act Op.unlock_sleep k) w e = w.0
needs_lock-locked m (act Op.block k) w e = w.0
needs_lock-locked m (act Op.fetch_add_sleeping k) w e = w.0.0
needs_lock-locked m (act Op.fetch_sub_sleeping k) w e = w.0.0
needs_lock-locked m _ w e = absurd (ground arith)

pub is_apart-Idle :
    {A : Type 0} (m : Conduct) (p : Prog A)
    → Watched conduct Idle m p
    → is_apart p ≡ true
    → (m.locked ≡ false) × (m.asleep ≡ false)
is_apart-Idle m (ret a) w e = (w.0, w.1)
is_apart-Idle m (act (Op.execute t) k) w e = (w.0.0, w.0.1)
is_apart-Idle m _ w e = absurd (ground arith)

module _ {P : Platform} {A : Type 0} (L : ParkingLot P) where
  pub record Locked (own : ℕ → Ghost) (m : ℕ → Conduct) (s : System P A) : Type 0 where
    pub agrees : (i : ℕ) → Agrees i (m i) (L.holder s.store.shared.sleep_lock)

  pub Locked-Conducted : (n capacity : ℕ) → Conducted {P = P} {A = A} n capacity Locked
  Locked-Conducted n capacity = record {
    keep = λ own m s i op k x s' below h a f proper.
        let law = subst (Holds _) f.performed (perform-LockLaw P i f.chance L op s.store) in
        record {
          agrees = λ j. elim (Bool-cases (i == j)) [
            | inl e ↦
                rw (e, sym (==-eq i j e))
                  (Agrees-self i (m i) op x (L.holder s.store.shared.sleep_lock) _ proper law
                    (h.agrees i))
            | inr e ↦ rw e (
                Agrees-other i j (m i) (m j) op (L.holder s.store.shared.sleep_lock) _ (==-ne i j e)
                  proper law (h.agrees i) (h.agrees j))
          ];
        };
  }

module _ {P : Platform} {A : Type 0} (n : ℕ) where
  pub record Slept (own : ℕ → Ghost) (m : ℕ → Conduct) (s : System P A) : Type 0 where
    pub slept : s.store.shared.sleeping_workers ≡ wrap (sum_below asleep_bit n m)

  pub Slept-Conducted : (capacity : ℕ) → Conducted {P = P} {A = A} n capacity Slept
  Slept-Conducted capacity = record {
    keep = λ own m s i op k x s' below h a f proper. record {
      slept =
          slept-after (m i) op x (sum_below asleep_bit n m) _ s.store.shared.sleeping_workers _
            proper (subst (Holds _) f.performed (perform-SleepLaw P i f.chance op s.store))
            (le-sum_below asleep_bit n m i below)
            (sum_below-update asleep_bit n m i (conduct_after op x (m i)) below) h.slept;
    };
  }

-- 1 for a thread that has ended or is about to call a task's function.
abbrev pub apart_bit : {A : Type 0} → Prog A → ℕ
apart_bit (ret a) = 1
apart_bit (act (Op.execute t) k) = 1
apart_bit _ = 0

-- 1 for a thread that is about to take itself off the count of sleeping workers.
abbrev pub waking_bit : {A : Type 0} → Prog A → ℕ
waking_bit (act Op.fetch_sub_sleeping k) = 1
waking_bit _ = 0

pub apart_bit-asleep_bit :
    {A : Type 0} (m : Conduct) (p : Prog A)
    → Watched conduct Idle m p
    → apart_bit p + asleep_bit m ≤ 1
apart_bit-asleep_bit m (ret a) w = rw w.1 (omega arith)
apart_bit-asleep_bit m (act (Op.execute t) k) w = rw w.0.1 (omega arith)
apart_bit-asleep_bit m _ w = ground arith

pub waking_bit-asleep_bit :
    {A : Type 0} (m : Conduct) (p : Prog A) → Watched conduct Idle m p → waking_bit p ≤ asleep_bit m
waking_bit-asleep_bit m (act Op.fetch_sub_sleeping k) w = rw w.0.1 (omega arith)
waking_bit-asleep_bit m _ w = ground arith
