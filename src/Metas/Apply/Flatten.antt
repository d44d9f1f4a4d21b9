-- ===== src/Metas/Apply/Flatten.antt =====
-- A batch, and a log of batches, does what its plain operations do one after the other.
use rtain.Base.{ℕ, suc, ◌≡◌, refl, sym, ap, ◌∙◌, List, [], ◌∷◌, ◌++◌, append_assoc, All}
use rtain.Metas.Types.{InnerState, StorageOperation, batch, Operations, nil, cons}
use rtain.Metas.Apply.{Clock, member, apply_operation, apply_operations}
use rtain.Metas.Apply.Totality.{ops-cons}
use rtain.Metas.Apply.View.{SameView, SameView-refl, apply_operation-SameView}

abbrev pub no_clock : Clock
no_clock path = 0

-- One operation after the other, with the clock at rest.
unfoldable pub exec : List StorageOperation → InnerState → InnerState
exec [] s = s
exec (op ∷ ops) s = exec ops (apply_operation no_clock op s).1

mutual
  pub leaves : StorageOperation → List StorageOperation
  leaves (batch ops) = leaves_all ops
  leaves op = op ∷ []

  pub leaves_all : Operations → List StorageOperation
  leaves_all nil = []
  leaves_all (cons op ops) = leaves op ++ leaves_all ops

unfoldable pub leaves_of : List StorageOperation → List StorageOperation
leaves_of [] = []
leaves_of (op ∷ ops) = leaves op ++ leaves_of ops

pub exec-append :
    (p q : List StorageOperation) (s : InnerState) → exec (p ++ q) s ≡ exec q (exec p s)
unfolding exec
exec-append [] q s = refl
exec-append (op ∷ p) q s = exec-append p q (apply_operation no_clock op s).1

pub leaves_of-append :
    (p q : List StorageOperation) → leaves_of (p ++ q) ≡ leaves_of p ++ leaves_of q
unfolding leaves_of
leaves_of-append [] q = refl
leaves_of-append (op ∷ p) q =
    ap (λ l. leaves op ++ l) (leaves_of-append p q)
    ∙ sym (append_assoc (leaves op) (leaves_of p) (leaves_of q))

pub exec-SameView :
    (ops : List StorageOperation) (r s : InnerState)
    → SameView r s
    → SameView (exec ops r) (exec ops s)
unfolding exec
exec-SameView [] r s v = v
exec-SameView (op ∷ ops) r s v =
    exec-SameView ops _ _ (apply_operation-SameView no_clock no_clock op r s v)

mutual
  unfolding leaves exec apply_operation

  op-leaves :
      (c : Clock) (op : StorageOperation) (r s : InnerState)
      → SameView r s
      → SameView (apply_operation c op r).1 (exec (leaves op) s)
  op-leaves c (batch ops) r s v = ops-leaves c 0 ops r s v
  op-leaves c op r s v = apply_operation-SameView c no_clock op r s v

  ops-leaves :
      (c : Clock) (i : ℕ) (ops : Operations) (r s : InnerState)
      → SameView r s
      → SameView (apply_operations c i ops r).1 (exec (leaves_all ops) s)
  ops-leaves c i nil r s v = v
  ops-leaves c i (cons op ops) r s v =
      rw (ops-cons c i op ops r, exec-append (leaves op) (leaves_all ops) s)
        (ops-leaves c (suc i) ops _ _ (op-leaves (member i c) op r s v))

-- A batch, however nested, has the effect of its plain operations in order, but for the times of the
-- last changes.
pub apply-leaves :
    (c : Clock) (op : StorageOperation) (s : InnerState)
    → SameView (apply_operation c op s).1 (exec (leaves op) s)
apply-leaves c op s = op-leaves c op s s (SameView-refl s)

-- No batch is left among the plain operations.
abbrev pub IsPlain : StorageOperation → Type 0
IsPlain (batch _) = ⊥
IsPlain _ = Unit

All-append {ℓ κ} :
    {A : Type ℓ} (P : A → Type κ) (xs ys : List A) → All P xs → All P ys → All P (xs ++ ys)
All-append P [] ys hx hy = hy
All-append P (x ∷ xs) ys hx hy = (hx.0, All-append P xs ys hx.1 hy)

mutual
  unfolding leaves

  leaves-IsPlain : (op : StorageOperation) → All IsPlain (leaves op)
  leaves-IsPlain (batch ops) = leaves_all-IsPlain ops
  leaves-IsPlain _ = (tt, tt)

  leaves_all-IsPlain : (ops : Operations) → All IsPlain (leaves_all ops)
  leaves_all-IsPlain nil = tt
  leaves_all-IsPlain (cons op ops) =
      All-append IsPlain (leaves op) (leaves_all ops) (leaves-IsPlain op) (leaves_all-IsPlain ops)

pub leaves_of-IsPlain : (ops : List StorageOperation) → All IsPlain (leaves_of ops)
unfolding leaves_of
leaves_of-IsPlain [] = tt
leaves_of-IsPlain (op ∷ ops) =
    All-append IsPlain (leaves op) (leaves_of ops) (leaves-IsPlain op) (leaves_of-IsPlain ops)
