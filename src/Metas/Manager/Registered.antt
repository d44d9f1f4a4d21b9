-- ===== src/Metas/Manager/Registered.antt =====
-- A container that was registered is found.
use rtain.Base.{ℕ, ◌≡◌, refl, ◌∙◌, some, ok, eq_refl}
use rtain.Base.Dict
use rtain.Base.Dict.{get-insert}
use rtain.Metas.Types.{ContainerMeta, InnerState, create}
use rtain.Metas.Apply.{Clock, insert_meta, apply_operation}
use rtain.Metas.Wal.Disk.{WalDir, Disk, write_operation}
use rtain.Metas.Storage.{Codecs, StorageInner, handle_request, get_meta_by_id, get_meta_by_name}
use rtain.Metas.Manager.{execute, register}

insert_meta-found :
    (meta : ContainerMeta) (s : InnerState)
    → (Dict.get meta.id (insert_meta meta s).by_id ≡ some meta)
      × (Dict.get meta.name (insert_meta meta s).by_name ≡ some meta.id)
unfolding insert_meta
insert_meta-found meta s = (
  get-insert meta.id meta.id meta s.by_id ∙ rw (eq_refl meta.id) refl,
  get-insert meta.name meta.name meta.id s.by_name ∙ rw (eq_refl meta.name) refl,
)

-- A container whose registration is in the log is found by its id and by its name.
pub get_meta-register :
    (codecs : Codecs) (disk : Disk) (now : ℕ) (clock : Clock) (meta : ContainerMeta)
    (s : StorageInner) (wal : WalDir)
    → write_operation codecs.operations disk now (create meta) s.wal ≡ (ok tt, wal)
    → ((register codecs disk now clock meta s).0 ≡ ok tt)
      × (get_meta_by_id meta.id (register codecs disk now clock meta s).1 ≡ some meta)
      × (get_meta_by_name meta.name (register codecs disk now clock meta s).1 ≡ ok (some meta))
unfolding register execute handle_request apply_operation get_meta_by_id get_meta_by_name
get_meta-register codecs disk now clock meta s wal logged =
    let (at_id, at_name) = insert_meta-found meta s.state in
    rw logged (refl, at_id, rw (at_name, get_meta_by_name) (rw (at_id, get_meta_by_name) refl))
