-- ===== src/Metas/Snapshot.antt =====
-- `Snapshotter` of src/core/metas/snapshot.rs.
pub mod Latest
use rtain.Base.{ℕ, String, [], Option, none, some, take, Outcome, ok, err, panic}
use rtain.Base.Bytes.{Bytes, Codec}
use rtain.Metas.Types.{InnerState}
use rtain.Metas.Apply.{empty}
use rtain.Metas.Folder.{
  File, Entry, Folder, tmp_snapshot, snapshot_file, put_file, remove_file, sort_by_time, last,
  purge_oldest,
}
use rtain.Metas.Wal.Disk.{Disk, sound, no_open, short}

-- `Snapshotter::new`: the folder is there from then on.
unfoldable pub open_snapshots : Option Folder → Folder
open_snapshots none = []
open_snapshots (some folder) = folder

module _ (codec : Codec InnerState) where
  -- The write to `tmp.snapshot` and the rename over `snapshot-{time}.bin`.
  abbrev write_snapshot : Disk → ℕ → Bytes → Folder → Outcome (Unit {0}) × Folder
  write_snapshot (no_open e) now bytes folder = (err e, folder)
  write_snapshot (short n e) now bytes folder =
      (err e, put_file tmp_snapshot (record { content = take n bytes; modified = now }) folder)
  write_snapshot sound now bytes folder =
      let file : File = record { content = bytes; modified = now } in
      (ok tt, put_file (snapshot_file now) file (remove_file tmp_snapshot folder))

  unfoldable pub take_snapshot : Disk → ℕ → InnerState → Folder → Outcome (Unit {0}) × Folder
  take_snapshot disk now state folder = elim (codec.serialize state) [
    | ok bytes ↦ write_snapshot disk now bytes folder
    | err e ↦ (err e, folder)
    | panic ↦ (panic, folder)
  ]

  unfoldable pub load_latest : Folder → Outcome InnerState
  unfolding sort_by_time last
  load_latest folder = elim (last (sort_by_time folder)) [
    | none ↦ ok empty
    | some entry ↦ codec.deserialize entry.file.content
  ]

unfoldable pub purge_old_snapshots : ℕ → Folder → Outcome (Unit {0}) × Folder
unfolding purge_oldest
purge_old_snapshots max_snapshots folder = (ok tt, purge_oldest max_snapshots folder)
