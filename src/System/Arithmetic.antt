-- ===== src/System/Arithmetic.antt =====
-- One access in numbers: the laws of the counts and of the queues, with what the thread owned and
-- owns. `total` and `queues` are sums over all threads and all queues.
use libcortlet_upgradesched.Prelude.{ℕ, ◌+◌, ◌≤◌, ◌<◌, ◌^◌, ◌≡◌, wrap, arith}
use libcortlet_upgradesched.Machine.{Op, GroupOp, Answer}
use libcortlet_upgradesched.Ownership.{Ghost, held, joined, Allowed, after}
use libcortlet_upgradesched.Effects.{CountLaw, GroupLaw, put_in, taken_out}
use libcortlet_upgradesched.System.Invariant.{one, in_group}

module _ (capacity total total' queues queues' count count' : ℕ) (own : Ghost) where
  pub counted-after :
      (op : Op) (x : Answer op)
      → Allowed capacity own op
      → CountLaw op x count count'
      → held own ≤ total
      → total' + held own ≡ total + held (after op x own)
      → queues' + taken_out one op x ≡ queues + put_in one op
      → count ≡ wrap (total + queues)
      → count' ≡ wrap (total' + queues')
  counted-after Op.load_in_flight x a c l t q e = ground arith
  counted-after _ x a c l t q e = ground arith

  pub bounded-after :
      (op : Op) (x : Answer op)
      → Allowed capacity own op
      → CountLaw op x count count'
      → total' + held own ≡ total + held (after op x own)
      → queues' + taken_out one op x ≡ queues + put_in one op
      → count ≡ wrap (total + queues)
      → capacity < 2 ^ 64
      → 0 < capacity
      → total + queues ≤ capacity
      → total' + queues' ≤ capacity
  bounded-after Op.load_in_flight x a c t q e small some_capacity b = ground arith
  bounded-after _ x a c t q e small some_capacity b = ground arith

  pub grouped-after :
      (address : ℕ) (op : Op) (x : Answer op)
      → Allowed capacity own op
      → GroupLaw address op count count'
      → joined address own.group ≤ total
      → total' + joined address own.group ≡ total + joined address (after op x own).group
      → queues' + taken_out (in_group address) op x ≡ queues + put_in (in_group address) op
      → count ≡ wrap (total + queues)
      → count' ≡ wrap (total' + queues')
  grouped-after address (Op.group g GroupOp.fetch_add) x a c l t q e = ground arith
  grouped-after address _ x a c l t q e = ground arith
