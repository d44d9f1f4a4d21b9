-- ===== src/Metas/Wal/Archive.antt =====
-- `WalManager::new`, `rotate` and `purge_old_archives` of src/core/metas/wal.rs.
use rtain.Base.{ℕ, Option, none, some, Outcome, ok, err, String}
use rtain.Metas.Folder.{File, Folder, wal_archive, put_file, purge_oldest}
use rtain.Metas.Wal.Disk.{WalDir}

abbrev pub no_such_file : String
no_such_file = "No such file or directory (os error 2)"

abbrev pub empty_dir : WalDir
empty_dir = record { current = none; temp = none; archive = none }

-- `WalManager::new`: `create_dir_all` of the folder of the log, and of no other. What an earlier
-- run has left is still there.
unfoldable pub open_dir : Option WalDir → WalDir
open_dir none = empty_dir
open_dir (some d) = d

abbrev rename_into : ℕ → Option File → Option Folder → WalDir → Outcome (Unit {0}) × WalDir
rename_into now none archive d = (err no_such_file, d)
rename_into now (some f) none d = (err no_such_file, d)
rename_into now (some f) (some folder) d =
    (ok tt, record d { current = none; archive = some (put_file (wal_archive now) f folder) })

-- `rotate`: one rename, which fails where the log or the folder `archive` is not there.
unfoldable pub rotate : ℕ → WalDir → Outcome (Unit {0}) × WalDir
rotate now d = rename_into now d.current d.archive d

abbrev purge_folder : ℕ → Option Folder → WalDir → Outcome (Unit {0}) × WalDir
purge_folder max none d = (err no_such_file, d)
purge_folder max (some folder) d = (ok tt, record d { archive = some (purge_oldest max folder) })

-- `purge_old_archives`
unfoldable pub purge_old_archives : ℕ → WalDir → Outcome (Unit {0}) × WalDir
purge_old_archives max_archives d = purge_folder max_archives d.archive d
