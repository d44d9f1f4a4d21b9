-- ===== src/Daemon/Start.antt =====
-- The start of the daemon, in `run_daemon` of src/core/mod.rs: the containers by
-- `ContainerManager::default` of src/core/metas/meta.rs, then the networks, each with `expect`.
use rtain.Base.{[], Option, none, some, Outcome, ok, err, panic}
use rtain.Base.Bytes.{Bytes}
use rtain.Metas.Apply.{Clock}
use rtain.Metas.Folder.{Folder}
use rtain.Metas.Wal.Disk.{WalDir}
use rtain.Metas.Storage.{Codecs, StorageConfig, StorageInner, new}
use rtain.Network.BitVec.{BitVec}
use rtain.Network.Bridge.{Links}
use rtain.Network.Networks.Load.{Stored, load}
use rtain.Daemon.{Daemon}

-- `ContainerManager::default`
abbrev pub default_config : StorageConfig
default_config = record {
  wal_dir = "/tmp/rtain/containermetas/wal";
  snapshots_dir = "/tmp/rtain/containermetas/snapshots";
  max_wals = 10;
  max_snapshots = 10;
  snapshot_intervals_secs = 60;
  cleanup_interval_secs = 180;
}

-- What an earlier daemon has left on the disk, if there was one, and in the kernel.
pub record Left : Type 0 where
  pub wal : Option WalDir
  pub snapshots : Option Folder
  pub networks : Option Bytes
  pub links : Links

module _ (B : BitVec) where
  -- The daemon has ended.
  abbrev pub left_by : Daemon B → Left
  left_by d = record {
    wal = some d.world.metas.wal;
    snapshots = some d.world.metas.snapshots;
    networks = d.networks.saved;
    links = d.networks.links;
  }

  module _ (deserialize : Bytes → Outcome (Stored B)) (create_dir_all : Outcome (Unit {0})) where
    abbrev pub with_networks : Left → StorageInner → Outcome (Stored B) → Outcome (Daemon B)
    with_networks left metas (ok stored) = ok (record {
      world = record { metas = metas; calls = []; sent = []; raw = [] };
      networks = record {
        ipam = stored.0;
        networks = stored.1;
        links = left.links;
        saved = left.networks;
        sent = [];
      };
    })
    with_networks left metas (err e) = panic
    with_networks left metas panic = panic

    abbrev pub with_metas : Left → Outcome StorageInner → Outcome (Daemon B)
    with_metas left (ok metas) =
        with_networks left metas (load B deserialize create_dir_all left.networks)
    with_metas left (err e) = panic
    with_metas left panic = panic

    abbrev pub opened : Left → Option (Outcome StorageInner) → Option (Outcome (Daemon B))
    opened left none = none
    opened left (some metas) = some (with_metas left metas)

    -- `run_daemon`, up to its socket.
    unfoldable pub start_up : Codecs → Clock → Left → Option (Outcome (Daemon B))
    unfolding new
    start_up codecs clock left =
        opened left (new codecs default_config clock left.wal left.snapshots)
