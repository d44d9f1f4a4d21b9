-- ===== src/Metas/Wal/Numbering.antt =====
-- `read_all_operations` gives what `read_operations` gives, numbered from 0 on.
use rtain.Base.{ℕ, zero, suc, ◌+◌, ◌≡◌, refl, ap, ◌∙◌, List, [], ◌∷◌, Option, none, some}
use rtain.Base.{Outcome, ok, err, panic}
use rtain.Base.Bytes.{Bytes, Codec}
use rtain.Metas.Wal.Read.{
  Found, not_found, unreadable, contents, push_front, next_frame, read_loop, read_all_loop,
  read_operations, read_all_operations,
}

module _ {A : Type 0} where
  abbrev pub numbered : ℕ → List A → List (ℕ × A)
  numbered i [] = []
  numbered i (op ∷ ops) = (i, op) ∷ numbered (i + 1) ops

  abbrev pub number : ℕ → Option (Outcome (List A)) → Option (Outcome (List (ℕ × A)))
  number i none = none
  number i (some (ok ops)) = some (ok (numbered i ops))
  number i (some (err e)) = some (err e)
  number i (some panic) = some panic

  push_front-number :
      (i : ℕ) (op : A) (r : Option (Outcome (List A)))
      → push_front (i, op) (number (i + 1) r) ≡ number i (push_front op r)
  push_front-number i op none = refl
  push_front-number i op (some (ok ops)) = refl
  push_front-number i op (some (err e)) = refl
  push_front-number i op (some panic) = refl

module _ {A : Type 0} (codec : Codec A) where
  loops_agree :
      (rounds i : ℕ) (bytes : Bytes)
      → read_all_loop codec rounds i bytes ≡ number i (read_loop codec rounds bytes)
  unfolding read_all_loop read_loop
  loops_agree rounds i [] = refl
  loops_agree zero i (b ∷ bs) = refl
  loops_agree (suc rounds) i (b ∷ bs) =
      split (next_frame codec (b ∷ bs)) refl (loops_agree rounds (i + 1))
    where
      split :
          (x : Outcome (A × Bytes))
          → next_frame codec (b ∷ bs) ≡ x
          → ((rest : Bytes)
              → read_all_loop codec rounds (i + 1) rest
                ≡ number (i + 1) (read_loop codec rounds rest))
          → read_all_loop codec (suc rounds) i (b ∷ bs)
            ≡ number i (read_loop codec (suc rounds) (b ∷ bs))
      split (ok (op, rest)) e ih =
          rw (e, read_all_loop, read_loop)
            (ap (push_front (i, op)) (ih rest)
              ∙ push_front-number i op (read_loop codec rounds rest))
      split (err m) e ih = rw (e, read_all_loop, read_loop)
      split panic e ih = rw (e, read_all_loop, read_loop)

  -- The two readers agree: on the operations, on their order, and on how they fail.
  pub read_all_operations-eq :
      (found : Found) → read_all_operations codec found ≡ number 0 (read_operations codec found)
  unfolding read_all_operations read_operations
  read_all_operations-eq not_found = refl
  read_all_operations-eq (unreadable e) = refl
  read_all_operations-eq (contents bytes) = loops_agree _ 0 bytes
