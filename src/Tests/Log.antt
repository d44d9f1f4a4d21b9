-- ===== src/Tests/Log.antt =====
-- The theorems about the log at a log of one container.
use rtain.Base.{◌≡◌, ◌≢◌, refl, [], ◌∷◌, none, some, ok, panic, arith}
use rtain.Base.Bytes.{le_bytes, from_le_bytes}
use rtain.Metas.Types.{create, delete}
use rtain.Metas.Wal.Compact.{compact}
use rtain.Metas.Wal.Compaction.{read-compact}
use rtain.Metas.Wal.Numbering.{numbered}
use rtain.Metas.Wal.Check.{verify_integrity, IntegrityReport}
use rtain.Metas.Wal.Validation.{Reports, verify_integrity-Reports}
use rtain.Metas.Container
use rtain.Metas.Folder.{File}
use rtain.Metas.Wal.Disk.{WalDir, sound, short, frame, write_operation}
use rtain.Metas.Wal.Read.{fs_read, next_frame, read_loop, read_operations, read_all_operations}
use rtain.Metas.Wal.RoundTrip.{read-write, read-torn_write, read_operations-ne-none}
use rtain.Tests.Samples.{
  web, operations, codecs, table_codec, table_codec-IsLawful, operation_discrete,
}

abbrev log_file : File
log_file = record { content = 1 ∷ 0 ∷ 0 ∷ 0 ∷ 0 ∷ 0 ∷ 0 ∷ 0 ∷ 0 ∷ []; modified = 7 }

abbrev log_dir : WalDir
log_dir = record { current = some log_file; temp = none; archive = none }

log_holds_create :
    read_operations codecs.operations (fs_read log_dir.current) ≡ some (ok (create web ∷ []))
unfolding read_operations read_loop next_frame table_codec from_le_bytes
log_holds_create = refl

written_whole : (write_operation codecs.operations sound 8 (delete "0a1b") log_dir).0 ≡ ok tt
unfolding write_operation table_codec operation_discrete
written_whole = refl

read-write_example :
    read_operations codecs.operations
      (fs_read (write_operation codecs.operations sound 8 (delete "0a1b") log_dir).1.current)
    ≡ some (ok (create web ∷ delete "0a1b" ∷ []))
read-write_example =
    read-write codecs.operations (table_codec-IsLawful operation_discrete operations) 8
      (delete "0a1b") log_dir (create web ∷ []) log_holds_create written_whole

read-torn_write_example :
    read_operations codecs.operations (
      fs_read
        (write_operation codecs.operations
          (short 5 "disk full")
          8
          (delete "0a1b")
          log_dir).1.current)
    ≡ some panic
unfolding table_codec operation_discrete frame le_bytes
read-torn_write_example =
    read-torn_write codecs.operations (table_codec-IsLawful operation_discrete operations) 8
      (delete "0a1b") log_dir (create web ∷ []) 5 "disk full" (4 ∷ []) log_holds_create refl
      (omega arith) (omega arith)

read_operations-ne-none_example : read_operations codecs.operations (fs_read log_dir.current) ≢ none
read_operations-ne-none_example =
    read_operations-ne-none codecs.operations (fs_read log_dir.current)

-- Two records.
abbrev longer_dir : WalDir
longer_dir = record {
  current = some (record {
    content = 1 ∷ 0 ∷ 0 ∷ 0 ∷ 0 ∷ 0 ∷ 0 ∷ 0 ∷ 0 ∷ 1 ∷ 0 ∷ 0 ∷ 0 ∷ 0 ∷ 0 ∷ 0 ∷ 0 ∷ 4 ∷ [];
    modified = 8;
  });
  temp = none;
  archive = none;
}

longer_dir_reads :
    read_operations codecs.operations (fs_read longer_dir.current)
    ≡ some (ok (create web ∷ delete "0a1b" ∷ []))
unfolding read_operations read_loop next_frame table_codec from_le_bytes
longer_dir_reads = refl

read-compact_example :
    (d' : WalDir) × (compact codecs.operations sound 9 0 longer_dir ≡ some (ok tt, d'))
    × (read_all_operations codecs.operations (fs_read d'.current)
        ≡ some (ok (numbered 0 (delete "0a1b" ∷ []))))
    × (d'.archive ≡ none)
    × (d'.temp ≡ none)
unfolding table_codec operation_discrete Container.new
read-compact_example =
    read-compact codecs.operations (table_codec-IsLawful operation_discrete operations) 9 0
      longer_dir (create web ∷ delete "0a1b" ∷ []) longer_dir_reads
      ((0 ∷ [], refl), ((4 ∷ [], refl), tt))

-- A log with a deletion that has no id.
abbrev bad_dir : WalDir
bad_dir = record {
  current = some (record {
    content = 1 ∷ 0 ∷ 0 ∷ 0 ∷ 0 ∷ 0 ∷ 0 ∷ 0 ∷ 0 ∷ 1 ∷ 0 ∷ 0 ∷ 0 ∷ 0 ∷ 0 ∷ 0 ∷ 0 ∷ 3 ∷ [];
    modified = 8;
  });
  temp = none;
  archive = none;
}

bad_dir_reads :
    read_operations codecs.operations (fs_read bad_dir.current)
    ≡ some (ok (create web ∷ delete "" ∷ []))
unfolding read_operations read_loop next_frame table_codec from_le_bytes
bad_dir_reads = refl

verify_integrity-Reports_example :
    (report : IntegrityReport) × (verify_integrity codecs.operations (fs_read bad_dir.current)
      ≡ some (ok report))
    × Reports (create web ∷ delete "" ∷ []) report
verify_integrity-Reports_example =
    verify_integrity-Reports codecs.operations (fs_read bad_dir.current)
      (create web ∷ delete "" ∷ []) bad_dir_reads
