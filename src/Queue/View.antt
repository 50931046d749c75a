-- ===== src/Queue/View.antt =====
-- What a worker sees of the queues of src/queue.rs, and what one access to them does.
use libcortlet_upgradesched.Prelude.{
  ℕ, ◌≡◌, subst, Bool, true, false, Option, none, some, List, [], ◌∷◌, get_elem?,
}
use libcortlet_upgradesched.Task.{Task, TaskPriority}
use libcortlet_upgradesched.Platform.{Platform}
use libcortlet_upgradesched.Machine.Store.{Store, injector}

pub not_cons : {t : Task} {l : List Task} → ¬ (t ∷ l ≡ [])
not_cons e = cc

pub some_eq : {t u : Task} → some t ≡ some u → t ≡ u
some_eq e = cc

pub head_eq : {t u : Task} {l m : List Task} → t ∷ l ≡ u ∷ m → t ≡ u
head_eq e = cc

-- The tasks that a worker can see: the three injectors and its own deque, oldest first.
pub record View : Type 0 where
  pub high : List Task
  pub normal : List Task
  pub low : List Task
  pub own : List Task

-- The oldest task of the first list that is not empty.
abbrev pub first_of : List (List Task) → Option Task
first_of [] = none
first_of ([] ∷ lists) = first_of lists
first_of ((t ∷ rest) ∷ lists) = some t

-- The order of a search: the worker's own deque, then the priorities from the highest, then the
-- deques of the other workers; where fairness is due, the lower priorities before all of these.
abbrev pub search_order : (due : Bool) → View → (peers : List (List Task)) → List (List Task)
search_order false v peers = v.own ∷ v.high ∷ v.normal ∷ v.low ∷ peers
search_order true v peers = v.normal ∷ v.low ∷ v.own ∷ v.high ∷ v.normal ∷ v.low ∷ peers

pub first_of-cons :
    {u t : Task} {l rest : List Task} (lists : List (List Task))
    → l ≡ u ∷ rest
    → first_of (l ∷ lists) ≡ some t
    → u ≡ t
first_of-cons {t = t} lists there e = some_eq (subst (λ m. first_of (m ∷ lists) ≡ some t) there e)

pub first_of-nil :
    {t : Task} {l : List Task} (lists : List (List Task))
    → l ≡ []
    → first_of (l ∷ lists) ≡ some t
    → first_of lists ≡ some t
first_of-nil {t = t} lists there e = subst (λ m. first_of (m ∷ lists) ≡ some t) there e

abbrev pub lane_of : View → TaskPriority → List Task
lane_of v TaskPriority.high = v.high
lane_of v TaskPriority.normal = v.normal
lane_of v TaskPriority.low = v.low

-- The view with other tasks in an injector and in the worker's deque.
abbrev pub with_lane : TaskPriority → List Task → List Task → View → View
with_lane TaskPriority.high l own v = record v { high = l; own = own }
with_lane TaskPriority.normal l own v = record v { normal = l; own = own }
with_lane TaskPriority.low l own v = record v { low = l; own = own }

pub with_lane_same :
    (lane : TaskPriority) (l own : List Task) (v : View)
    → l ≡ lane_of v lane
    → own ≡ v.own
    → with_lane lane l own v ≡ v
with_lane_same TaskPriority.high l own v e f = λ i. record v { high = e i; own = f i }
with_lane_same TaskPriority.normal l own v e f = λ i. record v { normal = e i; own = f i }
with_lane_same TaskPriority.low l own v e f = λ i. record v { low = e i; own = f i }

module _ (P : Platform) (local : ℕ) where
  pub record Sees (v : View) (s : Store P) : Type 0 where
    pub lanes :
        (lane : TaskPriority) → P.injected (injector P lane s.shared.queues) ≡ lane_of v lane
    pub deque : P.Deque
    pub found : get_elem? s.shared.queues.stealers local ≡ some deque
    pub owned : P.local deque ≡ v.own
