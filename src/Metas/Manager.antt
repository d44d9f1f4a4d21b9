-- ===== src/Metas/Manager.antt =====
-- `ContainerManager` of src/core/metas/meta.rs: requests to the storage.
pub mod Registered
use rtain.Base.{ℕ, String, Option, none, some, Outcome, ok, err, panic}
use rtain.Metas.Types.{
  ContainerMeta, ContainerStatus, NetworkConfig, ResourceConfig, MountPoint, StorageOperation,
  Operations, create, delete, update_status, update_resources, batch, attach_network as attach,
  detach_network as detach, add_mount as add, remove_mount as remove,
}
use rtain.Metas.Apply.{Clock}
use rtain.Metas.Wal.Disk.{Disk}
use rtain.Metas.Wal.Read.{fs_read}
use rtain.Metas.Wal.Compact.{compact}
use rtain.Metas.Wal.Check.{IntegrityReport, verify_integrity}
use rtain.Metas.Storage.{Codecs, StorageInner, handle_request}

abbrev pub Answered : Type 0
Answered = Outcome (Unit {0}) × StorageInner

module _ (codecs : Codecs) (disk : Disk) (now : ℕ) where
  module _ (clock : Clock) where
    -- `execute`: the request goes to the worker, and its answer comes back.
    unfoldable pub execute : StorageOperation → StorageInner → Answered
    execute op s = handle_request codecs disk now clock op s

    unfoldable pub register : ContainerMeta → StorageInner → Answered
    register meta s = execute (create meta) s

    unfoldable pub updates : String → ContainerStatus → StorageInner → Answered
    updates id status s = execute (update_status id status) s

    unfoldable pub deregister : String → StorageInner → Answered
    deregister id s = execute (delete id) s

    unfoldable pub batch_update : Operations → StorageInner → Answered
    batch_update operations s = execute (batch operations) s

    unfoldable pub update_container_resources : String → ResourceConfig → StorageInner → Answered
    update_container_resources id resources s = execute (update_resources id resources) s

    unfoldable pub attach_network : String → NetworkConfig → StorageInner → Answered
    attach_network id network s = execute (attach id network) s

    unfoldable pub detach_network : String → StorageInner → Answered
    detach_network id s = execute (detach id) s

    unfoldable pub add_mount : String → MountPoint → StorageInner → Answered
    add_mount id mount s = execute (add id mount) s

    unfoldable pub remove_mount : String → String → StorageInner → Answered
    remove_mount id destination s = execute (remove id destination) s

  -- `compact_wal` of the storage manager
  unfoldable pub compact_storage : ℕ → StorageInner → Option Answered
  compact_storage snapshot_index s =
      elim (compact codecs.operations disk now snapshot_index s.wal) [
        | none ↦ none
        | some answer ↦ some (answer.0, record s { wal = answer.1 })
      ]

-- `verify_wal_integrity` of the storage manager
unfoldable pub verify_storage_integrity : Codecs → StorageInner → Option (Outcome IntegrityReport)
verify_storage_integrity codecs s = verify_integrity codecs.operations (fs_read s.wal.current)
