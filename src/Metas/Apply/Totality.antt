-- ===== src/Metas/Apply/Totality.antt =====
-- `apply_operation` never fails.
use rtain.Base.{ℕ, suc, ◌≡◌, refl, ok, err, panic, arith}
use rtain.Metas.Types.{InnerState, StorageOperation, create, batch, Operations, nil, cons}
use rtain.Metas.Apply.{Applied, Clock, member, and_then, apply_operation, apply_operations}

pub and_then-ok : (r : Applied) (k : InnerState → Applied) → r.0 ≡ ok tt → and_then r k ≡ k r.1
unfolding and_then
and_then-ok (ok tt, s) k h = refl
and_then-ok (err e, s) k h = absurd (cc)
and_then-ok (panic, s) k h = absurd (cc)

mutual
  unfolding apply_operation

  pub op_ok :
      (clock : Clock) (op : StorageOperation) (s : InnerState)
      → (apply_operation clock op s).0 ≡ ok tt
  op_ok clock (create meta) s = refl
  op_ok clock (batch operations) s = ops_ok clock 0 operations s
  op_ok clock _ s = refl

  pub ops_ok :
      (clock : Clock) (i : ℕ) (ops : Operations) (s : InnerState)
      → (apply_operations clock i ops s).0 ≡ ok tt
  ops_ok clock i nil s = refl
  ops_ok clock i (cons op ops) s = ground (
    arith,
    op_ok (member i clock) op s,
    ops_ok clock (suc i) ops (apply_operation (member i clock) op s).1,
  )

-- A batch goes on after each member, since no member fails.
pub ops-cons :
    (clock : Clock) (i : ℕ) (op : StorageOperation) (ops : Operations) (s : InnerState)
    → apply_operations clock i (cons op ops) s
      ≡ apply_operations clock (suc i) ops (apply_operation (member i clock) op s).1
unfolding apply_operation
ops-cons clock i op ops s =
    and_then-ok (apply_operation (member i clock) op s)
      (λ s'. apply_operations clock (suc i) ops s') (op_ok (member i clock) op s)

-- Every operation succeeds, from every state: the worker never meets an error here.
pub apply_operation-ok :
    (clock : Clock) (op : StorageOperation) (s : InnerState)
    → (apply_operation clock op s).0 ≡ ok tt
apply_operation-ok = op_ok
