-- ===== src/Ffi/Codes.antt =====
-- The numbers that src/ffi.rs exchanges with C: priorities and result codes.
use libcortlet_upgradesched.Prelude.{ℕ, ◌≡◌, sym, subst, arith, some, ◌↔◌}
use libcortlet_upgradesched.Task.{TaskPriority}
use libcortlet_upgradesched.Scheduler.{Result}
use libcortlet_upgradesched.Ffi.{CortletResult, code, result_code, ℤ, pos, map_priority}

-- The enumeration `CORTLET_PRIORITY` of the C header.
abbrev pub number : TaskPriority → ℕ
number TaskPriority.low = 0
number TaskPriority.normal = 1
number TaskPriority.high = 2

number-map_priority : (n : ℤ) (p : TaskPriority) → map_priority n ≡ some p → n ≡ pos (number p)
unfolding map_priority
number-map_priority n p h = ground arith

map_priority-number : (p : TaskPriority) → map_priority (pos (number p)) ≡ some p
unfolding map_priority
map_priority-number p = ground arith

-- A C integer is read as a priority exactly if it is the number of that priority in the C header,
-- and every other integer, the negative ones included, is read as none.
pub map_priority_iff : (n : ℤ) (p : TaskPriority) → (map_priority n ≡ some p) ↔ (n ≡ pos (number p))
map_priority_iff n p = (
  number-map_priority n p,
  λ e. subst (λ m. map_priority m ≡ some p) (sym e) (map_priority-number p),
)

-- Different results have different numbers, and the number of a submission's result is 0 exactly if
-- it succeeded.
pub code-result_code :
    (a b : CortletResult) (r : Result (Unit {0}))
    → (code a ≡ code b → a ≡ b) × ((code (result_code r) ≡ 0) ↔ (r ≡ Result.ok tt))
unfolding code result_code
code-result_code a b r = ground arith
