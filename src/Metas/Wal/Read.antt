-- ===== src/Metas/Wal/Read.antt =====
-- `read_operations` and `read_all_operations` of src/core/metas/wal.rs.
use rtain.Base.{
  ℕ, zero, suc, ◌+◌, String, List, [], ◌∷◌, Option, none, some, length, take, drop, ltb,
}
use rtain.Base.{Outcome, ok, err, panic, ◌>>=◌, ◌>>◌, panic_if}
use rtain.Base.Bytes.{Bytes, from_le_bytes, Codec}
use rtain.Metas.Folder.{File}

-- What `tokio::fs::read` gives.
pub data Found : Type 0 where
  not_found : Found
  unreadable : String → Found
  contents : Bytes → Found

-- A read on a sound disk.
abbrev pub fs_read : Option File → Found
fs_read none = not_found
fs_read (some f) = contents f.content

abbrev pub push_front : {B : Type 0} → B → Option (Outcome (List B)) → Option (Outcome (List B))
push_front b none = none
push_front b (some r) = some (r >>= λ bs. ok (b ∷ bs))

module _ {A : Type 0} (codec : Codec A) where
  -- The body of the loop: an operation, and the bytes behind its frame. Both slices panic where
  -- they reach past the end. (`index + length` that overflows ends before it begins, and panics
  -- too.)
  unfoldable pub next_frame : Bytes → Outcome (A × Bytes)
  next_frame bytes = do
    panic_if (ltb (length bytes) 8)
    let rest = drop 8 bytes
    let size = from_le_bytes (take 8 bytes)
    panic_if (ltb (length rest) size)
    op ← codec.deserialize (take size rest)
    ok (op, drop size rest)

  -- The loops of the two readers. Each round takes eight bytes at least; `none` is a loop that runs
  -- out of rounds.
  unfoldable pub read_loop : ℕ → Bytes → Option (Outcome (List A))
  read_loop rounds [] = some (ok [])
  read_loop zero (b ∷ bs) = none
  read_loop (suc rounds) (b ∷ bs) = elim (next_frame (b ∷ bs)) [
    | ok (op, rest) ↦ push_front op (read_loop rounds rest)
    | err e ↦ some (err e)
    | panic ↦ some panic
  ]

  unfoldable pub read_all_loop : ℕ → ℕ → Bytes → Option (Outcome (List (ℕ × A)))
  read_all_loop rounds op_index [] = some (ok [])
  read_all_loop zero op_index (b ∷ bs) = none
  read_all_loop (suc rounds) op_index (b ∷ bs) = elim (next_frame (b ∷ bs)) [
    | ok (op, rest) ↦ push_front (op_index, op) (read_all_loop rounds (op_index + 1) rest)
    | err e ↦ some (err e)
    | panic ↦ some panic
  ]

  -- `read_operations`, with as many rounds as there are bytes.
  unfoldable pub read_operations : Found → Option (Outcome (List A))
  unfolding read_loop
  read_operations not_found = some (ok [])
  read_operations (unreadable e) = some (err e)
  read_operations (contents bytes) = read_loop (length bytes) bytes

  -- `read_all_operations`
  unfoldable pub read_all_operations : Found → Option (Outcome (List (ℕ × A)))
  unfolding read_all_loop
  read_all_operations not_found = some (ok [])
  read_all_operations (unreadable e) = some (err e)
  read_all_operations (contents bytes) = read_all_loop (length bytes) 0 bytes
