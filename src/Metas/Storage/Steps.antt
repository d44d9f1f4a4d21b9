-- ===== src/Metas/Storage/Steps.antt =====
-- The life of a manager as steps: requests, the ticks of both timers, and restarts, in any order.
use rtain.Base.{ℕ, ◌≡◌, String, none, some, ok}
use rtain.Metas.Types.{StorageOperation}
use rtain.Metas.Apply.{Clock}
use rtain.Metas.Wal.Disk.{sound, no_open}
use rtain.Metas.Storage.{
  Codecs, StorageConfig, StorageInner, new, handle_request, snapshot_tick, cleanup_tick,
}

module _ (codecs : Codecs) where
  -- One step: a request or a snapshot on a disk that takes the whole write or does not open the
  -- file, a cleanup, or a new manager on the files of the old one.
  pub data Step : StorageInner → StorageInner → Type 0 where
    request :
        (now : ℕ) (clock : Clock) (op : StorageOperation) (s : StorageInner)
        → Step s (handle_request codecs sound now clock op s).1
    refused :
        (cause : String) (now : ℕ) (clock : Clock) (op : StorageOperation) (s : StorageInner)
        → Step s (handle_request codecs (no_open cause) now clock op s).1
    snapshot : (now : ℕ) (s : StorageInner) → Step s (snapshot_tick codecs sound now s)
    no_snapshot :
        (cause : String) (now : ℕ) (s : StorageInner)
        → Step s (snapshot_tick codecs (no_open cause) now s)
    cleanup : (now : ℕ) (s : StorageInner) → Step s (cleanup_tick now s)
    restart :
        (clock : Clock) (s t : StorageInner)
        → new codecs s.config clock (some s.wal) (some s.snapshots) ≡ some (ok t)
        → Step s t

  -- From a manager that started on an empty disk.
  pub data Reach : StorageInner → Type 0 where
    start :
        (config : StorageConfig) (clock : Clock) (s : StorageInner)
        → new codecs config clock none none ≡ some (ok s)
        → Reach s
    next : {s t : StorageInner} → Reach s → Step s t → Reach t
