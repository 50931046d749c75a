-- ===== src/Steal.antt =====
-- src/steal.rs: which workers a worker tries to steal from, and in which order.
pub mod Victims
use libcortlet_upgradesched.Prelude.{
  ℕ, zero, suc, ◌+◌, ◌-◌, ◌%◌, List, [], ◌∷◌, ◌++◌, length, wrap, leb, ◌==◌, if◌then◌else◌,
}

pub data StealPolicy : Type 0 where
  round_robin adaptive : StealPolicy

-- The cursor is atomic in the source, but a worker's `StealState` is seen by that worker alone.
pub record StealState : Type 0 where
  pub worker_id : ℕ
  pub worker_count : ℕ
  pub policy : StealPolicy
  pub cursor : ℕ

unfoldable pub steal_state_new : (worker_id worker_count : ℕ) → StealPolicy → StealState
steal_state_new worker_id worker_count policy = record {
  worker_id = worker_id;
  worker_count = if leb 1 worker_count then worker_count else 1;
  policy = policy;
  cursor = 0;
}

-- The `for offset in 0..worker_count` loop, with `rounds` offsets left.
unfoldable pub collect : (worker_id count first rounds offset : ℕ) → List ℕ → List ℕ
collect worker_id count first zero offset victims = victims
collect worker_id count first (suc rounds) offset victims =
    let victim = wrap (first + offset) % count in
    let longer = victims ++ victim ∷ [] in
    let skip = collect worker_id count first rounds (offset + 1) victims in
    let rest = collect worker_id count first rounds (offset + 1) longer in
    if victim == worker_id then skip else (if length longer == count - 1 then longer else rest)

unfoldable pub round_robin_victims : StealState → List ℕ × StealState
unfolding collect
round_robin_victims s = if leb s.worker_count 1 then ([], s) else (
  collect s.worker_id s.worker_count (wrap (s.worker_id + 1 + s.cursor) % s.worker_count)
      s.worker_count 0 [],
  record s { cursor = wrap (s.cursor + 1) },
)

unfoldable pub victims_by : StealPolicy → StealState → List ℕ × StealState
victims_by StealPolicy.round_robin s = round_robin_victims s
victims_by StealPolicy.adaptive s = round_robin_victims s

unfoldable pub victims : StealState → List ℕ × StealState
unfolding victims_by
victims s = victims_by s.policy s
