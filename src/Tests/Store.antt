-- ===== src/Tests/Store.antt =====
-- The theorems about the storage at a manager that has made one container.
use rtain.Base.{◌≡◌, refl, [], ◌∷◌, none, some, ok, err, arith}
use rtain.Metas.Types.{
  InnerState, StorageOperation, create, update_status, batch, cons, nil, running, add_mount,
}
use rtain.Metas.Container
use rtain.Metas.Apply.{empty, apply_operation}
use rtain.Metas.Apply.Coherence.{
  IsCoherent, IsCoherent-empty, Admissible, apply_operation-IsCoherent,
}
use rtain.Metas.Apply.View.{SameView}
use rtain.Metas.Apply.Flatten.{leaves, exec, apply-leaves}
use rtain.Metas.Folder.{Folder, snapshot_file, sort_by_time, last}
use rtain.Metas.Manager.{register}
use rtain.Metas.Manager.Registered.{get_meta-register}
use rtain.Base.Bytes.{le_bytes}
use rtain.Metas.Wal.Disk.{write_operation, append_frame, frame, sound, short}
use rtain.Metas.Wal.Archive.{no_such_file, open_dir, rotate}
use rtain.Metas.Wal.Read.{read_loop, read_operations}
use rtain.Base.Dict
use rtain.Metas.Snapshot.{open_snapshots, take_snapshot, load_latest}
use rtain.Metas.Snapshot.Latest.{load-torn_snapshot}
use rtain.Metas.Storage.{
  get_meta_by_id, get_meta_by_name, StorageInner, new, replay, recover_state, handle_request,
  snapshot_tick, cleanup_tick,
}
use rtain.Metas.Storage.Steps.{Reach, start, next, request, snapshot}
use rtain.Metas.Storage.Durability.{recover-Reach, rotate-Reach}
use rtain.Tests.Samples.{
  web, bind_mount, operations, clock, one_container, codecs, config, table_codec,
  table_codec-IsLawful, operation_discrete, state_discrete,
}

-- A manager on an empty disk.
abbrev pub started : StorageInner
started = record {
  config = config;
  wal = record { current = none; temp = none; archive = none };
  snapshots = [];
  state = empty;
}

starts : new codecs config clock none none ≡ some (ok started)
unfolding new recover_state load_latest read_operations read_loop replay open_dir open_snapshots
    sort_by_time last
starts = refl

pub started-Reach : Reach codecs started
started-Reach = start config clock started starts

-- It has made a container and taken a snapshot.
abbrev snapped : StorageInner
snapped = snapshot_tick codecs sound 60 (handle_request codecs sound 7 clock (create web) started).1

snapped-Reach : Reach codecs snapped
snapped-Reach = next (next started-Reach (request 7 clock (create web) started)) (snapshot 60 _)

recover-Reach_example :
    (t : InnerState) × (recover_state codecs clock snapped.snapshots snapped.wal ≡ some (ok t))
    × SameView t snapped.state
recover-Reach_example =
    recover-Reach codecs (table_codec-IsLawful operation_discrete operations)
      (table_codec-IsLawful state_discrete (empty ∷ one_container ∷ [])) snapped clock snapped-Reach

rotate-Reach_example :
    (rotate 180 snapped.wal ≡ (err no_such_file, snapped.wal))
    × ((cleanup_tick 180 snapped).wal ≡ snapped.wal)
rotate-Reach_example =
    rotate-Reach codecs (table_codec-IsLawful operation_discrete operations)
      (table_codec-IsLawful state_discrete (empty ∷ one_container ∷ [])) snapped 180 snapped-Reach

-- An older snapshot, of nothing.
abbrev folder : Folder
folder =
    record { file_name = snapshot_file 50; file = record { content = 0 ∷ []; modified = 50 } } ∷ []

serialized : codecs.states.serialize one_container ≡ ok (1 ∷ [])
unfolding table_codec state_discrete Container.new
serialized = refl

load-torn_snapshot_example :
    load_latest codecs.states
      (take_snapshot codecs.states (short 0 "disk full") 60 one_container folder).1
    ≡ codecs.states.deserialize []
load-torn_snapshot_example =
    load-torn_snapshot codecs.states 60 0 "disk full" one_container (1 ∷ []) folder
      (omega arith, tt) serialized

abbrev program : StorageOperation
program = batch (
    cons (create web)
      (cons (update_status "0a1b" running) (cons (add_mount "0a1b" bind_mount) nil)))

program-Admissible : Admissible clock program empty
unfolding Admissible Dict.get
program-Admissible = (λ m h. absurd (cc), (tt, (tt, tt)))

apply_operation-IsCoherent_example : IsCoherent (apply_operation clock program empty).1
apply_operation-IsCoherent_example =
    apply_operation-IsCoherent clock program empty program-Admissible IsCoherent-empty

apply-leaves_example :
    SameView (apply_operation clock program empty).1 (exec (leaves program) empty)
apply-leaves_example = apply-leaves clock program empty

web_logged : write_operation codecs.operations sound 7 (create web) started.wal ≡ (
  ok tt,
  record {
    current = some (record { content = 1 ∷ 0 ∷ 0 ∷ 0 ∷ 0 ∷ 0 ∷ 0 ∷ 0 ∷ 0 ∷ []; modified = 7 });
    temp = none;
    archive = none;
  },
)
unfolding write_operation append_frame frame le_bytes table_codec operation_discrete Container.new
web_logged = refl

get_meta-register_example :
    ((register codecs sound 7 clock web started).0 ≡ ok tt)
    × (get_meta_by_id "0a1b" (register codecs sound 7 clock web started).1 ≡ some web)
    × (get_meta_by_name "web" (register codecs sound 7 clock web started).1 ≡ ok (some web))
unfolding Container.new
get_meta-register_example = get_meta-register codecs sound 7 clock web started _ web_logged
