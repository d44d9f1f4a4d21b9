-- ===== src/Metas/Wal/RoundTrip.antt =====
-- The readers of src/core/metas/wal.rs after its writer.
use rtain.Base.{
  ℕ, ◌+◌, ◌<◌, ◌≡◌, ◌≢◌, refl, String, List, [], ◌∷◌, ◌++◌, Option, none, some, length, take, arith,
  length-append, length-drop, length-take, take-length, take-take, dec_lt, drop-length, sym, ◌∙◌,
}
use rtain.Base.{Outcome, ok, err, panic}
use rtain.Base.Bytes.{
  Bytes, le_bytes, from_le_bytes, length-le_bytes, from-le_bytes, take-le_bytes, drop-le_bytes,
  Codec, IsLawful,
}
use rtain.Metas.Folder.{File}
use rtain.Metas.Wal.Disk.{frame, WalDir, sound, short, bytes_of, write_operation}
use rtain.Metas.Wal.Read.{
  Found, not_found, unreadable, contents, fs_read, next_frame, read_loop, read_operations,
}
use rtain.Metas.Wal.Loop.{
  IsFrame, next_frame-short, next_frame-cut, read_loop-append, read_loop-torn, read_loop-ne-none,
}

module _ {A : Type 0} (codec : Codec A) where
  -- Reading ends, with operations, an error or a panic.
  pub read_operations-ne-none : (found : Found) → read_operations codec found ≢ none
  unfolding read_operations
  read_operations-ne-none not_found = λ e. cc
  read_operations-ne-none (unreadable e) = λ e. cc
  read_operations-ne-none (contents bytes) =
      read_loop-ne-none codec (length bytes) bytes (omega arith)

  pub reads-bytes :
      (file : Option File)
      → read_operations codec (fs_read file)
        ≡ read_loop codec (length (bytes_of file)) (bytes_of file)
  unfolding read_operations read_loop
  reads-bytes none = refl
  reads-bytes (some f) = refl

  module _ (lawful : IsLawful codec) where
    frame_size :
        (op : A) (bytes : Bytes)
        → codec.serialize op ≡ ok bytes
        → from_le_bytes (le_bytes 8 (length bytes)) ≡ length bytes
    frame_size op bytes h = from-le_bytes 8 (length bytes) (omega (arith, lawful.fits op bytes h))

    pub frame-IsFrame :
        (op : A) (bytes : Bytes) → codec.serialize op ≡ ok bytes → IsFrame codec (frame bytes) op []
    unfolding frame
    frame-IsFrame op bytes h =
        let size = length bytes in
        let head = take-le_bytes 8 size bytes in
        let tail = drop-le_bytes 8 size bytes in
        record {
          header = omega (arith, length-append (le_bytes 8 size) bytes, length-le_bytes 8 size);
          body = rw (head, tail, frame_size op bytes h) (omega arith);
          decoded =
              rw (head, tail, frame_size op bytes h, take-length bytes)
                (lawful.round_trip op bytes h);
          left = rw (head, tail, frame_size op bytes h, drop-length bytes);
        }

    -- A proper part of a frame is no frame: one of the two slices reaches past the end.
    part_panics :
        (n : ℕ) (op : A) (bytes : Bytes)
        → codec.serialize op ≡ ok bytes
        → n < length (frame bytes)
        → next_frame codec (take n (frame bytes)) ≡ panic
    unfolding frame
    part_panics n op bytes h part =
        let size = length bytes in
        let whole = le_bytes 8 size ++ bytes in
        let taken : length (take n whole) ≡ n = length-take n whole (omega arith) in
        let total : length whole ≡ 8 + size =
          omega (arith, length-append (le_bytes 8 size) bytes, length-le_bytes 8 size) in
        elim (dec_lt n 8) [
          | yes few ↦ next_frame-short codec (take n whole) (omega (arith, taken))
          | no many ↦ next_frame-cut codec (take n whole) (omega (arith, taken)) (
              rw
                (
                  take-take 8 n whole (omega arith),
                  take-le_bytes 8 size bytes,
                  frame_size op bytes h,
                )
                (omega (arith, length-drop 8 (take n whole), taken, total)))
        ]

    module _ (now : ℕ) (op : A) (d : WalDir) (ops : List A) where
      abbrev reads : Option File → Option (Outcome (List A))
      reads file = read_operations codec (fs_read file)

      -- A record that is written whole behind readable ones is read back last.
      pub read-write :
          reads d.current ≡ some (ok ops)
          → (write_operation codec sound now op d).0 ≡ ok tt
          → reads (write_operation codec sound now op d).1.current ≡ some (ok (ops ++ op ∷ []))
      unfolding write_operation read_operations
      read-write readable written = split (codec.serialize op) refl written
        where
          split :
              (r : Outcome Bytes)
              → codec.serialize op ≡ r
              → (write_operation codec sound now op d).0 ≡ ok tt
              → reads (write_operation codec sound now op d).1.current ≡ some (ok (ops ++ op ∷ []))
          split (ok bytes) e w = rw e (
              read_loop-append codec (length (bytes_of d.current)) _ (bytes_of d.current)
                (frame bytes) ops op (sym (reads-bytes d.current) ∙ readable)
                (frame-IsFrame op bytes e) (omega arith))
          split (err m) e w = absurd (cc (rw e at w))
          split panic e w = absurd (cc (rw e at w))

      -- After a torn write the next read of the log panics.
      pub read-torn_write :
          (n : ℕ) (cause : String) (bytes : Bytes)
          → reads d.current ≡ some (ok ops)
          → codec.serialize op ≡ ok bytes
          → 0 < n
          → n < length (frame bytes)
          → reads (write_operation codec (short n cause) now op d).1.current ≡ some panic
      unfolding write_operation read_operations
      read-torn_write n cause bytes readable e pos part = rw e (
          read_loop-torn codec (length (bytes_of d.current)) _ (bytes_of d.current)
            (take n (frame bytes)) ops (sym (reads-bytes d.current) ∙ readable)
            (part_panics n op bytes e part)
            (omega (arith, length-take n (frame bytes) (omega arith))) (omega arith))
