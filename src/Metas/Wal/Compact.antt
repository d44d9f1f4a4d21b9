-- ===== src/Metas/Wal/Compact.antt =====
-- `compact` and `rewrite_wal` of src/core/metas/wal.rs.
use rtain.Base.{
  ℕ, List, [], ◌∷◌, ◌++◌, Option, none, some, take, length, leb, ltb, ◌+◌, if◌then◌else◌, Bool,
  true, false, Outcome, ok, err, panic,
}
use rtain.Base.Bytes.{Bytes, Codec}
use rtain.Metas.Wal.Disk.{frame, WalDir, Disk, sound, no_open, short}
use rtain.Metas.Wal.Read.{fs_read, read_all_operations}

-- `Iterator::skip_while`
unfoldable pub skip_while {ℓ} : {A : Type ℓ} → (A → Bool) → List A → List A
skip_while p [] = []
skip_while p (x ∷ xs) = let rest = skip_while p xs in elim (p x) [ true ↦ rest | false ↦ x ∷ xs ]

module _ {A : Type 0} (codec : Codec A) where
  -- The loop of `rewrite_wal`: what the new file holds, up to a record that cannot be serialized.
  unfoldable pub rewrite_loop : List (ℕ × A) → Bytes → Outcome (Unit {0}) × Bytes
  rewrite_loop [] written = (ok tt, written)
  rewrite_loop ((_, op) ∷ rest) written = elim (codec.serialize op) [
    | ok bytes ↦ rewrite_loop rest (written ++ frame bytes)
    | err e ↦ (err e, written)
    | panic ↦ (panic, written)
  ]

  -- Where the last write of the loop begins, from where the last one began and the place reached.
  -- Only the failure of a write before it is reported.
  unfoldable pub last_write : List (ℕ × A) → ℕ → ℕ → ℕ
  last_write [] start place = start
  last_write ((_, op) ∷ rest) start place = elim (codec.serialize op) [
    | ok bytes ↦ last_write rest (place + 8) (place + 8 + length bytes)
    | err e ↦ start
    | panic ↦ start
  ]

  -- The rename at the end replaces the log at once.
  abbrev finish_rewrite : ℕ → Outcome (Unit {0}) × Bytes → WalDir → Outcome (Unit {0}) × WalDir
  finish_rewrite now (ok _, written) d = (
    ok tt,
    record d { current = some (record { content = written; modified = now }); temp = none },
  )
  finish_rewrite now (err e, written) d =
      (err e, record d { temp = some (record { content = written; modified = now }) })
  finish_rewrite now (panic, written) d =
      (panic, record d { temp = some (record { content = written; modified = now }) })

  -- `rewrite_wal`: the new file is written aside.
  unfoldable pub rewrite_wal : Disk → ℕ → List (ℕ × A) → WalDir → Outcome (Unit {0}) × WalDir
  unfolding rewrite_loop last_write
  rewrite_wal sound now operations d = finish_rewrite now (rewrite_loop operations []) d
  rewrite_wal (no_open e) now operations d = (err e, d)
  rewrite_wal (short n e) now operations d =
      let (r, written) = rewrite_loop operations [] in
      let lost = ltb n (last_write operations 0 0) in
      finish_rewrite now ((if lost then err e else r), take n written) d

  -- `compact`: the operations up to the index go.
  unfoldable pub compact : Disk → ℕ → ℕ → WalDir → Option (Outcome (Unit {0}) × WalDir)
  unfolding rewrite_wal skip_while
  compact disk now snapshot_index d = elim (read_all_operations codec (fs_read d.current)) [
    | none ↦ none
    | some (ok entries) ↦
        some (rewrite_wal disk now (skip_while (λ (index, _). leb index snapshot_index) entries) d)
    | some (err e) ↦ some (err e, d)
    | some panic ↦ some (panic, d)
  ]
