-- ===== src/Metas/Folder.antt =====
-- Folders of files, as src/core/metas/snapshot.rs and src/core/metas/wal.rs use them: a rename into
-- a folder, the newest file, and the purge of the oldest.
pub mod Newest
pub mod Kept
use rtain.Base.{
  ℕ, ◌-◌, String, Bool, true, false, List, [], ◌∷◌, Option, none, some, take, length, leb, ◌==◌,
  not, keep, str_eq, if◌then◌else◌,
}
use rtain.Base.Bytes.{Bytes}

-- A file: its bytes, and the time of its last change.
pub record File : Type 0 where
  pub content : Bytes
  pub modified : ℕ

-- The names that the program makes, by their parts (`wal-{time}.log`, `snapshot-{time}.bin`,
-- `tmp.snapshot`), and all others.
pub data FileName : Type 0 where
  wal_archive : ℕ → FileName
  snapshot_file : ℕ → FileName
  tmp_snapshot : FileName
  other : String → FileName

abbrev pub same_name : FileName → FileName → Bool
same_name (wal_archive s) (wal_archive t) = s == t
same_name (snapshot_file s) (snapshot_file t) = s == t
same_name tmp_snapshot tmp_snapshot = true
same_name (other s) (other t) = str_eq s t
same_name _ _ = false

pub record Entry : Type 0 where
  pub file_name : FileName
  pub file : File

abbrev pub Folder : Type 0
Folder = List Entry

-- A file comes under a name, in place of one that is there.
unfoldable pub put_file : FileName → File → Folder → Folder
put_file name file [] = record { file_name = name; file = file } ∷ []
put_file name file (e ∷ es) =
    if same_name e.file_name name
    then record { file_name = name; file = file } ∷ es
    else e ∷ put_file name file es

unfoldable pub remove_file : FileName → Folder → Folder
remove_file name = keep (λ e. not (same_name e.file_name name))

-- `entries.sort_by_key(|e| modified)`: a stable sort, the oldest first.
unfoldable pub insert_by_time : Entry → Folder → Folder
insert_by_time e [] = e ∷ []
insert_by_time e (f ∷ fs) =
    if leb e.file.modified f.file.modified then e ∷ f ∷ fs else f ∷ insert_by_time e fs

unfoldable pub sort_by_time : Folder → Folder
unfolding insert_by_time
sort_by_time [] = []
sort_by_time (e ∷ es) = insert_by_time e (sort_by_time es)

-- `entries.last()`
unfoldable pub last : Folder → Option Entry
last [] = none
last (e ∷ []) = some e
last (e ∷ f ∷ fs) = last (f ∷ fs)

unfoldable pub remove_files : Folder → Folder → Folder
unfolding remove_file
remove_files [] folder = folder
remove_files (e ∷ es) folder = remove_files es (remove_file e.file_name folder)

-- The oldest files go until `max` are left (`saturating_sub` is `-` on these numbers).
unfoldable pub purge_oldest : ℕ → Folder → Folder
unfolding remove_files sort_by_time
purge_oldest max folder = remove_files (take (length folder - max) (sort_by_time folder)) folder
