-- ===== src/Container/CleanUp.antt =====
-- The clean-up of `remove_container` (src/core/container/rm.rs): when it comes back, what it does to
-- the metadata, and what the client reads of it.
use mathlib.Core.Path.{subst}
use rtain.Base.{
  ap, String, none, some, ◌≡◌, ◌≢◌, refl, ◌∙◌, ◌⊎◌, inl, inr, Outcome, ok, err, panic, eq_refl,
}
use rtain.Base.Dict
use rtain.Base.Dict.{get-remove, get-update}
use rtain.Metas.Types.{ContainerMeta, InnerState, delete}
use rtain.Metas.Apply.{apply_operation, remove_meta}
use rtain.Metas.Apply.Coherence.{IsCoherent}
use rtain.Metas.Wal.Disk.{WalDir}
use rtain.Metas.Storage.{StorageInner, get_meta_by_id, get_meta_by_name}
use rtain.Base.Text.{◌⧺◌}
use rtain.Container.World.{
  Host, Journal, World, call, delete_cgroup, umount, root_path, name_id, execute, deregister,
}
use rtain.Base.{dropped}
use rtain.Container.Task.{◌>>◌, go_on, ignoring}
use rtain.Container.Remove.{remove_tree, delete_workspace, deregistered, clean_up}
use rtain.Container.Lifecycle.{
  get_meta_by_name-found, Logs, execute-state, log_answer, execute-refused,
}

-- A container that is removed is found neither by its id nor by its name.
pub remove_meta-gone :
    (meta : ContainerMeta) (s : InnerState)
    → Dict.get meta.id s.by_id ≡ some meta
    → (Dict.get meta.id (remove_meta meta.id s).by_id ≡ none)
      × (Dict.get meta.name (remove_meta meta.id s).by_name ≡ none)
unfolding remove_meta
remove_meta-gone meta s e =
    rw (e, remove_meta)
      (
        get-remove meta.id meta.id s.by_id ∙ rw (eq_refl meta.id) refl,
        get-remove meta.name meta.name s.by_name ∙ rw (eq_refl meta.name) refl,
      )

pub name_of :
    (name : String) (s : StorageInner) (meta : ContainerMeta)
    → IsCoherent s.state
    → get_meta_by_name name s ≡ ok (some meta)
    → (Dict.get meta.id s.state.by_id ≡ some meta) × (meta.name ≡ name)
unfolding get_meta_by_id
name_of name s meta c e = elim (get_meta_by_name-found name s c) [
  | inl missing ↦ absurd (cc)
  | inr (m, found, named, here) ↦
      let same : m ≡ meta = cc in
      subst (λ k. (Dict.get k.id s.state.by_id ≡ some k) × (k.name ≡ name)) same (here, named)
]

delete_workspace-metas :
    (host : Host) (root mnt : String) (w : World)
    → (delete_workspace host root mnt none w).1.metas ≡ w.metas
unfolding delete_workspace
delete_workspace-metas host root mnt w = kept (host.umount mnt)
  where
    kept :
        (o : Outcome (Unit {0})) → (remove_tree host root o (call (umount mnt) w)).1.metas ≡ w.metas
    kept (ok _) = refl
    kept (err e) = refl
    kept panic = refl

-- Calls of the clean-up that come back, with success or with an error.
pub record CallsReturn (host : Host) (meta : ContainerMeta) : Type 0 where
  pub deleted : host.delete (name_id meta.name meta.id) ≢ panic
  pub umounted : host.umount ((root_path ⧺ "/" ⧺ name_id meta.name meta.id) ⧺ "/mnt") ≢ panic
  pub removed : host.remove_dir_all (root_path ⧺ "/" ⧺ name_id meta.name meta.id) ≢ panic

-- A step whose result is dropped.
ignored-eq : (r : Outcome (Unit {0}) × World) → r.0 ≢ panic → dropped r ≡ (ok tt, r.1)
ignored-eq (ok _, w) h = refl
ignored-eq (err e, w) h = refl
ignored-eq (panic, w) h = absurd (h refl)

delete_workspace-returns :
    (host : Host) (root mnt : String) (w : World)
    → host.umount mnt ≢ panic
    → host.remove_dir_all root ≢ panic
    → (delete_workspace host root mnt none w).0 ≢ panic
unfolding delete_workspace
delete_workspace-returns host root mnt w umounts removes = kept (host.umount mnt) umounts
  where
    kept :
        (o : Outcome (Unit {0}))
        → o ≢ panic
        → (remove_tree host root o (call (umount mnt) w)).0 ≢ panic
    kept (ok _) h = removes
    kept (err e) h = λ p. absurd (cc)
    kept panic h = absurd (h refl)

module _ (host : Host) (journal : Journal) (w : World) (meta : ContainerMeta) where
  -- The world behind the calls of the clean-up.
  abbrev deleted : World
  deleted =
      (delete_workspace host (root_path ⧺ "/" ⧺ name_id meta.name meta.id)
        ((root_path ⧺ "/" ⧺ name_id meta.name meta.id) ⧺ "/mnt") none
        (call (delete_cgroup (name_id meta.name meta.id)) w)).1

  pub clean_up-eq :
      CallsReturn host meta
      → clean_up host journal meta w ≡ (ok tt, (deregister journal meta.id deleted).1)
  clean_up-eq r =
      let w1 = call (delete_cgroup (name_id meta.name meta.id)) w in
      let root = root_path ⧺ "/" ⧺ name_id meta.name meta.id in
      ap
        (go_on (λ _.
          ignoring (delete_workspace host root (root ⧺ "/mnt") none)
          >> deregistered host journal meta.id))
        (ignored-eq (host.delete (name_id meta.name meta.id), w1) r.deleted)
      ∙ ap (go_on (λ _. deregistered host journal meta.id)) (
          ignored-eq (delete_workspace host root (root ⧺ "/mnt") none w1)
            (delete_workspace-returns host root (root ⧺ "/mnt") w1 r.umounted r.removed))

  deleted-metas : deleted.metas ≡ w.metas
  deleted-metas =
      delete_workspace-metas host (root_path ⧺ "/" ⧺ name_id meta.name meta.id) _
        (call (delete_cgroup (name_id meta.name meta.id)) w)

  pub clean_up-state :
      (wal : WalDir)
      → CallsReturn host meta
      → Logs journal (delete meta.id) w wal
      → (clean_up host journal meta w).1.metas.state ≡ remove_meta meta.id w.metas.state
  unfolding deregister apply_operation
  clean_up-state wal r logged =
      ap (λ r. r.1.metas.state) (clean_up-eq r)
      ∙ (execute-state journal (delete meta.id) deleted wal (rw deleted-metas logged)
          ∙ ap (λ m. remove_meta meta.id m.state) deleted-metas)

  pub clean_up-refused :
      CallsReturn host meta
      → log_answer journal (delete meta.id) w ≢ ok tt
      → (clean_up host journal meta w).1.metas.state ≡ w.metas.state
  unfolding deregister
  clean_up-refused r refused =
      ap (λ r. r.1.metas.state) (clean_up-eq r)
      ∙ (execute-refused journal (delete meta.id) deleted (rw (deleted-metas, log_answer) refused)
          ∙ ap (λ m. m.state) deleted-metas)

delete_workspace-sent :
    (host : Host) (root mnt : String) (w : World)
    → (delete_workspace host root mnt none w).1.sent ≡ w.sent
unfolding delete_workspace
delete_workspace-sent host root mnt w = kept (host.umount mnt)
  where
    kept :
        (o : Outcome (Unit {0})) → (remove_tree host root o (call (umount mnt) w)).1.sent ≡ w.sent
    kept (ok _) = refl
    kept (err e) = refl
    kept panic = refl

-- The clean-up says nothing to the client.
pub clean_up-sent :
    (host : Host) (journal : Journal) (w : World) (meta : ContainerMeta)
    → (clean_up host journal meta w).1.sent ≡ w.sent
unfolding deregister execute
clean_up-sent host journal w meta = first (host.delete (name_id meta.name meta.id))
  where
    w1 : World
    w1 = call (delete_cgroup (name_id meta.name meta.id)) w

    root : String
    root = root_path ⧺ "/" ⧺ name_id meta.name meta.id

    second :
        (r : Outcome (Unit {0}) × World)
        → r.1.sent ≡ w.sent
        → (go_on (λ _. deregistered host journal meta.id) (dropped r)).1.sent ≡ w.sent
    second (ok _, w') h = h
    second (err e, w') h = h
    second (panic, w') h = h

    first :
        (o : Outcome (Unit {0}))
        → (go_on
            (λ _.
              ignoring (delete_workspace host root (root ⧺ "/mnt") none)
              >> deregistered host journal meta.id)
            (dropped (o, w1))).1.sent
          ≡ w.sent
    first (ok _) = second _ (delete_workspace-sent host root _ w1)
    first (err e) = second _ (delete_workspace-sent host root _ w1)
    first panic = refl

abbrev Ends : Outcome (Unit {0}) × World → Type 0
Ends r = (r.0 ≡ ok tt) ⊎ (r.0 ≡ panic)

-- The clean-up comes back or panics; its errors are dropped.
pub clean_up-ends :
    (host : Host) (journal : Journal) (w : World) (meta : ContainerMeta)
    → ((clean_up host journal meta w).0 ≡ ok tt) ⊎ ((clean_up host journal meta w).0 ≡ panic)
clean_up-ends host journal w meta = first (host.delete (name_id meta.name meta.id))
  where
    w1 : World
    w1 = call (delete_cgroup (name_id meta.name meta.id)) w

    root : String
    root = root_path ⧺ "/" ⧺ name_id meta.name meta.id

    second :
        (r : Outcome (Unit {0}) × World)
        → Ends (go_on (λ _. deregistered host journal meta.id) (dropped r))
    second (ok _, w') = inl refl
    second (err e, w') = inl refl
    second (panic, w') = inr refl

    first :
        (o : Outcome (Unit {0}))
        → Ends (
            go_on
              (λ _.
                ignoring (delete_workspace host root (root ⧺ "/mnt") none)
                >> deregistered host journal meta.id)
              (dropped (o, w1)))
    first (ok _) = second (delete_workspace host root (root ⧺ "/mnt") none w1)
    first (err e) = second (delete_workspace host root (root ⧺ "/mnt") none w1)
    first panic = inr refl
