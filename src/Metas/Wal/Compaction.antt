-- ===== src/Metas/Wal/Compaction.antt =====
-- What is left of the log after `compact` (src/core/metas/wal.rs).
use rtain.Base.{
  ℕ, zero, suc, ◌+◌, ◌≡◌, refl, ap, ◌∙◌, List, [], ◌∷◌, ◌++◌, none, some, length, drop, leb, All,
  arith, ok, append_assoc, append-nil,
}
use rtain.Base.Bytes.{Bytes, Codec, IsLawful}
use rtain.Metas.Folder.{File}
use rtain.Metas.Wal.Disk.{frame, WalDir, sound}
use rtain.Metas.Wal.Read.{fs_read, read_loop, read_operations, read_all_operations}
use rtain.Metas.Wal.Loop.{read_loop-append}
use rtain.Metas.Wal.Numbering.{numbered, number, read_all_operations-eq}
use rtain.Metas.Wal.RoundTrip.{frame-IsFrame}
use rtain.Metas.Wal.Compact.{skip_while, rewrite_loop, compact}

module _ {A : Type 0} where
  -- On numbers that grow, the operations up to `k` are the first ones.
  skip_while-numbered :
      (k d i : ℕ) (ops : List A)
      → i + d ≡ k + 1
      → skip_while (λ (index, _). leb index k) (numbered i ops) ≡ numbered (k + 1) (drop d ops)
  unfolding skip_while
  skip_while-numbered k zero i [] h = refl
  skip_while-numbered k zero i (op ∷ ops) h =
      let start : i ≡ k + 1 = omega arith in rw start (ground arith)
  skip_while-numbered k (suc d) i [] h = refl
  skip_while-numbered k (suc d) i (op ∷ ops) h = ground (arith, skip_while-numbered k d (i + 1) ops)

module _ {A : Type 0} (codec : Codec A) where
  abbrev pub Serializable : A → Type 0
  Serializable op = (bytes : Bytes) × (codec.serialize op ≡ ok bytes)

  abbrev ReadsAll : Bytes → List A → Type 0
  ReadsAll bytes ops = read_loop codec (length bytes) bytes ≡ some (ok ops)

  -- The new file, written behind `old`, holds the operations of the list.
  rewrite-reads :
      IsLawful codec
      → (i : ℕ) (ops before : List A) (old : Bytes) → All Serializable ops
      → ReadsAll old before
      → (new : Bytes) × (rewrite_loop codec (numbered i ops) old ≡ (ok tt, new))
        × ReadsAll new (before ++ ops)
  unfolding rewrite_loop
  rewrite-reads lawful i [] before old s h = (old, refl, rw (append-nil before) h)
  rewrite-reads lawful i (op ∷ ops) before old ((bytes, e), s) h =
      let written =
        read_loop-append codec (length old) (length (old ++ frame bytes)) old (frame bytes) before
          op h (frame-IsFrame codec lawful op bytes e) (omega arith) in
      let (new, done, reads) =
        rewrite-reads lawful (i + 1) ops (before ++ op ∷ []) (old ++ frame bytes) s written in
      (new, rw (e, rewrite_loop) done, rw (append_assoc before (op ∷ []) ops) at reads)

  numbered-Serializable :
      (n : ℕ) (ops : List A) → All Serializable ops → All Serializable (drop n ops)
  numbered-Serializable zero ops s = s
  numbered-Serializable (suc n) [] s = tt
  numbered-Serializable (suc n) (op ∷ ops) s = numbered-Serializable n ops s.1

  -- `compact` succeeds on a log that can be read, and leaves the operations behind the given
  -- place, in order and numbered from 0 again; the archive stays, and no file is left aside.
  pub read-compact :
      IsLawful codec
      → (now k : ℕ) (d : WalDir) (ops : List A)
      → read_operations codec (fs_read d.current) ≡ some (ok ops)
      → All Serializable ops
      → (d' : WalDir) × (compact codec sound now k d ≡ some (ok tt, d'))
        × (read_all_operations codec (fs_read d'.current)
            ≡ some (ok (numbered 0 (drop (k + 1) ops))))
        × (d'.archive ≡ d.archive)
        × (d'.temp ≡ none)
  unfolding compact read_operations
  read-compact lawful now k d ops readable s =
      let left = drop (k + 1) ops in
      let (new, done, reads) =
        rewrite-reads lawful (k + 1) left [] [] (numbered-Serializable (k + 1) ops s) refl in
      let file : File = record { content = new; modified = now } in
      let entries = read_all_operations-eq codec (fs_read d.current) ∙ ap (number 0) readable in
      (
        record d { current = some file; temp = none },
        rw (entries, compact) (rw (skip_while-numbered k (k + 1) 0 ops (omega arith), done)),
        read_all_operations-eq codec (fs_read (some file)) ∙ ap (number 0) reads,
        refl,
        refl,
      )
