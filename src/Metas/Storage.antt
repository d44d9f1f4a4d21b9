-- ===== src/Metas/Storage.antt =====
-- `StorageManager` of src/core/metas/storage.rs: the state behind the lock, recovery at the start,
-- and what the worker and its two timers do with the state.
pub mod Recovery
pub mod Steps
pub mod Durability
use rtain.Base.{ℕ, suc, String, List, [], ◌∷◌, Option, none, some, Outcome, ok, err, panic}
use rtain.Base.Bytes.{Codec}
use rtain.Base.Dict
use rtain.Metas.Types.{ContainerMeta, InnerState, StorageOperation}
use rtain.Metas.Apply.{Clock, member, Applied, and_then, apply_operation}
use rtain.Metas.Folder.{Folder}
use rtain.Metas.Wal.Disk.{WalDir, Disk, write_operation}
use rtain.Metas.Wal.Read.{fs_read, read_operations}
use rtain.Metas.Wal.Compact.{compact}
use rtain.Metas.Wal.Archive.{open_dir, rotate, purge_old_archives}
use rtain.Metas.Snapshot.{open_snapshots, take_snapshot, load_latest, purge_old_snapshots}

pub record StorageConfig : Type 0 where
  pub wal_dir : String
  pub snapshots_dir : String
  pub max_wals : ℕ
  pub max_snapshots : ℕ
  pub snapshot_intervals_secs : ℕ
  pub cleanup_interval_secs : ℕ

-- The serializer at the two types that go to disk.
pub record Codecs : Type 0 where
  pub operations : Codec StorageOperation
  pub states : Codec InnerState

pub record StorageInner : Type 0 where
  pub config : StorageConfig
  pub wal : WalDir
  pub snapshots : Folder
  pub state : InnerState

-- The loop of `recover_state` over the operations of the log, from number `i` on.
unfoldable pub replay : Clock → ℕ → List StorageOperation → InnerState → Applied
unfolding and_then
replay clock i [] s = (ok tt, s)
replay clock i (op ∷ ops) s =
    and_then (apply_operation (member i clock) op s) (λ s'. replay clock (suc i) ops s')

abbrev pub result_of : Applied → Outcome InnerState
result_of (ok _, s) = ok s
result_of (err e, s) = err e
result_of (panic, s) = panic

module _ (codecs : Codecs) where
  abbrev replay_read :
      Clock → InnerState → Option (Outcome (List StorageOperation)) → Option (Outcome InnerState)
  replay_read clock s none = none
  replay_read clock s (some (ok ops)) = some (result_of (replay clock 0 ops s))
  replay_read clock s (some (err e)) = some (err e)
  replay_read clock s (some panic) = some panic

  -- `recover_state`: the latest snapshot, then the whole log.
  unfoldable pub recover_state : Clock → Folder → WalDir → Option (Outcome InnerState)
  unfolding load_latest read_operations replay
  recover_state clock snapshots wal = elim (load_latest codecs.states snapshots) [
    | ok s ↦ replay_read clock s (read_operations codecs.operations (fs_read wal.current))
    | err e ↦ some (err e)
    | panic ↦ some panic
  ]

  -- `StorageManager::new` on what an earlier run has left: the log and the snapshots.
  unfoldable pub new :
      StorageConfig → Clock → Option WalDir → Option Folder → Option (Outcome StorageInner)
  unfolding recover_state open_dir open_snapshots
  new config clock wal snapshots =
      elim (recover_state clock (open_snapshots snapshots) (open_dir wal)) [
        | none ↦ none
        | some (ok s) ↦ some (
            ok (record {
              config = config;
              wal = open_dir wal;
              snapshots = open_snapshots snapshots;
              state = s;
            }))
        | some (err e) ↦ some (err e)
        | some panic ↦ some panic
      ]

  abbrev pub apply_logged :
      Clock
      → StorageOperation
      → Outcome (Unit {0}) × WalDir
      → StorageInner
      → Outcome (Unit {0}) × StorageInner
  apply_logged clock op (ok _, wal) s =
      let (r, state) = apply_operation clock op s.state in
      (r, record s { wal = wal; state = state })
  apply_logged clock op (err e, wal) s = (err e, record s { wal = wal })
  apply_logged clock op (panic, wal) s = (panic, record s { wal = wal })

  -- What the worker does with one request: the log first, then the memory. The first part is the
  -- answer that it sends.
  unfoldable pub handle_request :
      Disk → ℕ → Clock → StorageOperation → StorageInner → Outcome (Unit {0}) × StorageInner
  unfolding write_operation
  handle_request disk now clock op s =
      apply_logged clock op (write_operation codecs.operations disk now op s.wal) s

  -- A tick of `snapshot_task`; an error is only logged.
  unfoldable pub snapshot_tick : Disk → ℕ → StorageInner → StorageInner
  unfolding take_snapshot
  snapshot_tick disk now s = record s {
    snapshots = (take_snapshot codecs.states disk now s.state s.snapshots).1;
  }

abbrev pub purge_rotated : ℕ → Outcome (Unit {0}) × WalDir → WalDir
purge_rotated max (ok _, wal) = (purge_old_archives max wal).1
purge_rotated max (err e, wal) = wal
purge_rotated max (panic, wal) = wal

-- A tick of `cleanup_task`: each step only if the one before it succeeded.
unfoldable pub cleanup_tick : ℕ → StorageInner → StorageInner
unfolding rotate purge_old_archives purge_old_snapshots
cleanup_tick now s = record s {
  snapshots = (purge_old_snapshots s.config.max_snapshots s.snapshots).1;
  wal = purge_rotated s.config.max_wals (rotate now s.wal);
}

-- `get_meta_by_id`
unfoldable pub get_meta_by_id : String → StorageInner → Option ContainerMeta
get_meta_by_id id s = Dict.get id s.state.by_id

-- `get_meta_by_name`: the `unwrap` panics where a name leads to no container.
unfoldable pub get_meta_by_name : String → StorageInner → Outcome (Option ContainerMeta)
get_meta_by_name name s = elim (Dict.get name s.state.by_name) [
  | none ↦ ok none
  | some id ↦ elim (Dict.get id s.state.by_id) [ none ↦ panic | some meta ↦ ok (some meta) ]
]

unfoldable pub get_all_metas : StorageInner → List ContainerMeta
get_all_metas s = Dict.values s.state.by_id
