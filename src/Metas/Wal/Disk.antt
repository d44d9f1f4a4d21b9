-- ===== src/Metas/Wal/Disk.antt =====
-- The files of `WalManager` (src/core/metas/wal.rs) and the writes to them.
use rtain.Base.{ℕ, String, [], ◌++◌, Option, none, some, length, take, ltb, if◌then◌else◌}
use rtain.Base.{Outcome, ok, err, panic}
use rtain.Base.Bytes.{Bytes, le_bytes, Codec}
use rtain.Metas.Folder.{File, Folder}

-- What the manager owns on disk: `current.wal`, `current.wal.tmp` and the folder `archive`.
-- `none` is a file, or a folder, that does not exist.
pub record WalDir : Type 0 where
  pub current : Option File
  pub temp : Option File
  pub archive : Option Folder

-- What the disk does with one record: all bytes arrive, the file cannot be opened, or only the
-- first `n` bytes arrive, with the cause. A write is taken as done before the next use of the file.
pub data Disk : Type 0 where
  sound : Disk
  no_open : String → Disk
  short : ℕ → String → Disk

abbrev pub bytes_of : Option File → Bytes
bytes_of none = []
bytes_of (some f) = f.content

-- The length as eight bytes, then the bytes.
unfoldable pub frame : Bytes → Bytes
frame bytes = le_bytes 8 (length bytes) ++ bytes

-- The file of tokio buffers: `write_all` hands the bytes on and returns, and the failure of one
-- write is reported by the next. Nothing flushes the file, so the failure of the last write, the one
-- of the serialized operation, is reported to nobody.
abbrev pub acknowledged : ℕ → String → Outcome (Unit {0})
acknowledged n e = if ltb n 8 then err e else ok tt

-- The open file takes what arrives of the frame.
unfoldable pub append_frame : Disk → ℕ → Outcome Bytes → Bytes → Outcome (Unit {0}) × File
append_frame (no_open e) now serialized old = (err e, record { content = old; modified = now })
append_frame _ now (err e) old = (err e, record { content = old; modified = now })
append_frame _ now panic old = (panic, record { content = old; modified = now })
append_frame sound now (ok bytes) old =
    (ok tt, record { content = old ++ frame bytes; modified = now })
append_frame (short n e) now (ok bytes) old =
    (acknowledged n e, record { content = old ++ take n (frame bytes); modified = now })

module _ {A : Type 0} (codec : Codec A) where
  -- `write_operation`, at the time `now`. A file that cannot be opened stays as it is.
  unfoldable pub write_operation : Disk → ℕ → A → WalDir → Outcome (Unit {0}) × WalDir
  unfolding append_frame
  write_operation (no_open e) now op d = (err e, d)
  write_operation sound now op d =
      let (r, f) = append_frame sound now (codec.serialize op) (bytes_of d.current) in
      (r, record d { current = some f })
  write_operation (short n e) now op d =
      let (r, f) = append_frame (short n e) now (codec.serialize op) (bytes_of d.current) in
      (r, record d { current = some f })
