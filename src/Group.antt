-- ===== src/Group.antt =====
-- src/group.rs: the methods of `TaskGroup`, for the group at address `g`.
pub mod Membership
use libcortlet_upgradesched.Prelude.{ℕ, Bool, true, false, ◌⊎◌, inl, inr, ◌==◌, if◌then◌else◌}
use libcortlet_upgradesched.Machine.{Op, GroupOp, Prog, ret, call, loop, ◌>>=◌, ◌>>◌}

unfoldable pub task_completed : (g : ℕ) → Prog (Unit {0})
task_completed g = do
  previous ← call (Op.group g GroupOp.fetch_sub)
  if previous == 1 then call (Op.group g GroupOp.notify_all) else ret tt

unfoldable pub add_task : (g : ℕ) → Prog Bool
unfolding task_completed
add_task g = do
  closed ← call (Op.group g GroupOp.load_closed)
  if closed then ret false else do
    previous ← call (Op.group g GroupOp.fetch_add)
    closing ← call (Op.group g GroupOp.load_closed)
    if closing then (do task_completed g; ret false) else ret true

-- A round of the `while`: leave when the count is zero, or block once.
unfoldable pub wait_round : (g : ℕ) → Unit {0} → Prog (Unit {0} ⊎ Unit {0})
wait_round g _ = do
  count ← call (Op.group g GroupOp.load_count)
  if count == 0
      then ret (inr tt)
      else do call (Op.group g GroupOp.block); call (Op.group g GroupOp.resume); ret (inl tt)

unfoldable pub wait : (rounds g : ℕ) → Prog (Unit {0})
unfolding wait_round loop
wait rounds g = do
  call (Op.group g GroupOp.lock_wait)
  loop rounds (wait_round g) tt
  call (Op.group g GroupOp.unlock_wait)

unfoldable pub close : (g : ℕ) → Prog (Unit {0})
close g = do call (Op.group g GroupOp.store_closed); call (Op.group g GroupOp.notify_all)

unfoldable pub tasks_in_flight : (g : ℕ) → Prog ℕ
tasks_in_flight g = call (Op.group g GroupOp.load_count)

unfoldable pub is_closed : (g : ℕ) → Prog Bool
is_closed g = call (Op.group g GroupOp.load_closed)
