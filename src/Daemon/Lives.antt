-- ===== src/Daemon/Lives.antt =====
-- The daemon from its first start on: connections and ticks, and starts on what it has left.
use rtain.Base.{All, List, [], ◌∷◌, Option, none, some, ◌≡◌, refl, ap, ◌∙◌, Outcome, ok, err, panic}
use rtain.Base.Bytes.{Bytes, IsLawful}
use rtain.Metas.Types.{InnerState, StorageOperation}
use rtain.Metas.Folder.{Folder}
use rtain.Metas.Snapshot.{open_snapshots}
use rtain.Metas.Wal.Archive.{open_dir}
use rtain.Metas.Apply.{Clock}
use rtain.Metas.Apply.View.{SameView}
use rtain.Metas.Wal.Disk.{WalDir, write_operation}
use rtain.Metas.Storage.{
  Codecs, StorageConfig, StorageInner, apply_logged, recover_state, new, handle_request,
  snapshot_tick, cleanup_tick,
}
use rtain.Metas.Storage.Steps.{Reach, start, next, restart}
use rtain.Metas.Storage.Durability.{recover-Reach}
use rtain.Container.World.{Journal}
use rtain.Container.Moves.{Moves, stays, asks}
use rtain.Network.BitVec.{BitVec}
use rtain.Network.Bridge.{Links}
use rtain.Network.Networks.Load.{Stored, load}
use rtain.Daemon.{Daemon, Turn, accepts, snapshots, cleans, turn, serve_each}
use rtain.Daemon.Moves.{handler-Moves}
use rtain.Daemon.Start.{default_config, Left, left_by, with_networks, with_metas, opened, start_up}
use rtain.Daemon.Histories.Durable.{Writes, serve_each-Reach}

handle_request-config :
    (j : Journal) (op : StorageOperation) (s : StorageInner)
    → (handle_request j.codecs j.disk j.now j.clock op s).1.config ≡ s.config
unfolding handle_request
handle_request-config j op s = after (write_operation j.codecs.operations j.disk j.now op s.wal)
  where
    after :
        (r : Outcome (Unit {0}) × WalDir)
        → (apply_logged j.codecs j.clock op r s).1.config ≡ s.config
    after (ok _, wal) = refl
    after (err e, wal) = refl
    after (panic, wal) = refl

Moves-config : {J : Journal → Type 0} {s t : StorageInner} → Moves J s t → t.config ≡ s.config
Moves-config (stays s) = refl
Moves-config (asks j op s allowed a m) = Moves-config m ∙ handle_request-config j op s

module _ (B : BitVec) where
  turn-config : (t : Turn B) (d : Daemon B) → (turn B t d).world.metas.config ≡ d.world.metas.config
  unfolding turn snapshot_tick cleanup_tick
  turn-config (accepts env input) d =
      Moves-config (handler-Moves {J = λ _. Unit {0}} B env tt tt input d)
  turn-config (snapshots codecs disk now) d = refl
  turn-config (cleans now) d = refl

  serve_each-config :
      (turns : List (Turn B)) (d : Daemon B)
      → (serve_each B turns d).world.metas.config ≡ d.world.metas.config
  unfolding serve_each
  serve_each-config [] d = refl
  serve_each-config (t ∷ turns) d = serve_each-config turns (turn B t d) ∙ turn-config t d

  module _ (deserialize : Bytes → Outcome (Stored B)) (create_dir_all : Outcome (Unit {0}))
      (codecs : Codecs) where
    -- A daemon at some moment at which no handler runs.
    pub data Lives : Daemon B → Type 0 where
      -- on a disk without containers
      begins :
          (clock : Clock) (file : Option Bytes) (links : Links) (d : Daemon B)
          → start_up B deserialize create_dir_all codecs clock
              (record { wal = none; snapshots = none; networks = file; links = links })
            ≡ some (ok d)
          → Lives d
      serves :
          {d : Daemon B} (turns : List (Turn B))
          → All (Writes codecs) turns
          → Lives d
          → Lives (serve_each B turns d)
      restarts :
          {d : Daemon B} (clock : Clock) (e : Daemon B)
          → Lives d
          → start_up B deserialize create_dir_all codecs clock (left_by B d) ≡ some (ok e)
          → Lives e

    with_networks-metas :
        (left : Left) (metas : StorageInner) (r : Outcome (Stored B)) (d : Daemon B)
        → with_networks B deserialize create_dir_all left metas r ≡ ok d
        → metas ≡ d.world.metas
    with_networks-metas left metas (ok stored) d h = ap metas_of h
      where
        metas_of : Outcome (Daemon B) → StorageInner
        metas_of (ok d) = d.world.metas
        metas_of (err e) = metas
        metas_of panic = metas
    with_networks-metas left metas (err e) d h = absurd (cc)
    with_networks-metas left metas panic d h = absurd (cc)

    opened-metas :
        (left : Left) (r : Option (Outcome StorageInner)) (d : Daemon B)
        → opened B deserialize create_dir_all left r ≡ some (ok d)
        → r ≡ some (ok d.world.metas)
    opened-metas left none d h = absurd (cc)
    opened-metas left (some (ok metas)) d h =
        let made : with_metas B deserialize create_dir_all left (ok metas) ≡ ok d = cc in
        ap (λ m. some (ok m))
          (with_networks-metas left metas (load B deserialize create_dir_all left.networks) d made)
    opened-metas left (some (err e)) d h = absurd (cc)
    opened-metas left (some panic) d h = absurd (cc)

    start_up-metas :
        (clock : Clock) (left : Left) (d : Daemon B)
        → start_up B deserialize create_dir_all codecs clock left ≡ some (ok d)
        → new codecs default_config clock left.wal left.snapshots ≡ some (ok d.world.metas)
    unfolding start_up
    start_up-metas clock left d h =
        opened-metas left (new codecs default_config clock left.wal left.snapshots) d h

    new-config :
        (config : StorageConfig) (clock : Clock) (wal : Option WalDir) (snaps : Option Folder)
        (s : StorageInner)
        → new codecs config clock wal snaps ≡ some (ok s)
        → s.config ≡ config
    unfolding new
    new-config config clock wal snaps s h = split (recovered clock wal snaps) refl
      where
        recovered : Clock → Option WalDir → Option Folder → Option (Outcome InnerState)
        recovered clock wal snaps = recover_state codecs clock (open_snapshots snaps) (open_dir wal)

        split :
            (r : Option (Outcome InnerState)) → recovered clock wal snaps ≡ r → s.config ≡ config
        split none e = let again = rw (e, new) at h in absurd (cc)
        split (some (ok state)) e =
            let again = rw (e, new) at h in
            let built : StorageInner = record {
              config = config;
              wal = open_dir wal;
              snapshots = open_snapshots snaps;
              state = state;
            } in
            let same : s ≡ built = cc in ap (λ t. t.config) same
        split (some (err m)) e = let again = rw (e, new) at h in absurd (cc)
        split (some panic) e = let again = rw (e, new) at h in absurd (cc)

    -- The storage has lived a life of its own, on the daemon's configuration.
    record IsSane (d : Daemon B) : Type 0 where
      reach : Reach codecs d.world.metas
      config : d.world.metas.config ≡ default_config

    module _ (ops_lawful : IsLawful codecs.operations)
        (states_lawful : IsLawful codecs.states) where
      Lives-IsSane : {d : Daemon B} → Lives d → IsSane d
      Lives-IsSane (begins clock file links d h) =
          let made = start_up-metas clock _ d h in
          record {
            reach = start default_config clock d.world.metas made;
            config = new-config default_config clock none none d.world.metas made;
          }
      Lives-IsSane (serves {d = d} turns writes l) =
          let sane = Lives-IsSane l in
          record {
            reach = serve_each-Reach codecs turns d writes sane.reach;
            config = serve_each-config turns d ∙ sane.config;
          }
      Lives-IsSane (restarts {d = d} clock e l h) =
          let sane = Lives-IsSane l in
          let s = d.world.metas in
          let made = start_up-metas clock (left_by B d) e h in
          record {
            reach = next sane.reach (restart clock s e.world.metas (rw sane.config made));
            config =
                new-config default_config clock (some s.wal) (some s.snapshots) e.world.metas made;
          }

      -- At every moment of the daemon's life at which no handler runs and the file of the networks
      -- can be read, it can end, and a new daemon starts on what it has left, with the same
      -- containers, but for the times of their last changes, and the networks of the file. So far
      -- each write to the log and each snapshot was whole or did not open its file.
      pub start_up-Lives :
          (d : Daemon B) (clock : Clock) (stored : Stored B)
          → Lives d
          → load B deserialize create_dir_all d.networks.saved ≡ ok stored
          → (e : Daemon B) × (start_up B deserialize create_dir_all codecs clock (left_by B d)
              ≡ some (ok e))
            × SameView e.world.metas.state d.world.metas.state
            × (e.networks.networks ≡ stored.1)
      unfolding start_up new
      start_up-Lives d clock stored l loaded =
          let sane = Lives-IsSane l in
          let s = d.world.metas in
          let (state, recovered, view) =
            recover-Reach codecs ops_lawful states_lawful s clock sane.reach in
          let metas : StorageInner = record s { state = state; config = default_config } in
          let ready : Daemon B = record {
            world = record { metas = metas; calls = []; sent = []; raw = [] };
            networks = record {
              ipam = stored.0;
              networks = stored.1;
              links = d.networks.links;
              saved = d.networks.saved;
              sent = [];
            };
          } in
          (ready, rw (recovered, start_up, new) (rw loaded refl), view, refl)
