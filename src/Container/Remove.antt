-- ===== src/Container/Remove.antt =====
-- `remove_container` of src/core/container/rm.rs and `delete_workspace` of
-- src/core/container/image.rs.
use rtain.Base.Text.{codes, split}
use rtain.Base.{
  ◌==◌, none, ℕ, List, [], ◌∷◌, Option, some, String, Outcome, ok, err, panic, if◌then◌else◌,
}
use rtain.Metas.Types.{ContainerMeta}
use rtain.Metas.Container.{is_running}
use rtain.Msg.{ok_content}
use rtain.Cmd.{RmArgs}
use rtain.Base.Text.{◌⧺◌}
use rtain.Container.Task.{Task, ◌>>◌, answer, noted, ignoring}
use rtain.Container.World.{
  umount_volume, delete_cgroup, umount, remove_dir_all, Host, Journal, World, Handled, root_path,
  name_id, call, reply, deregister, look_up,
}

module _ (host : Host) where
  abbrev pub remove_tree : String → Outcome (Unit {0}) → World → Outcome (Unit {0}) × World
  remove_tree root (ok _) w = (host.remove_dir_all root, call (remove_dir_all root) w)
  remove_tree root (err e) w = (err e, w)
  remove_tree root panic w = (panic, w)

  abbrev pub tear_down : String → String → World → Outcome (Unit {0}) × World
  tear_down root mnt w = remove_tree root (host.umount mnt) (call (umount mnt) w)

  abbrev pub after_volume :
      String → String → Outcome (Unit {0}) → World → Outcome (Unit {0}) × World
  after_volume root mnt (ok _) w = tear_down root mnt w
  after_volume root mnt (err e) w = (err e, w)
  after_volume root mnt panic w = (panic, w)

  -- `umount_volume`, at the path behind its first `/`; a path without one is a panic.
  abbrev pub umount_then : String → String → List ℕ → World → Outcome (Unit {0}) × World
  umount_then root mnt [] w = (panic, w)
  umount_then root mnt (c ∷ path) w =
      if c == b'/'
      then after_volume root mnt (host.umount2 mnt path) (call (umount_volume mnt path) w)
      else (panic, w)

  -- The parts of a volume: the assertion wants two that are not empty.
  abbrev pub without_volume : String → String → List (List ℕ) → World → Outcome (Unit {0}) × World
  without_volume root mnt ((a ∷ host_path) ∷ path ∷ []) w = umount_then root mnt path w
  without_volume root mnt _ w = (panic, w)

  -- `delete_workspace`
  unfoldable pub delete_workspace :
      String → String → Option String → World → Outcome (Unit {0}) × World
  delete_workspace root mnt none w = tear_down root mnt w
  delete_workspace root mnt (some volume) w = without_volume root mnt (split b':' (codes volume)) w

  module _ (journal : Journal) where
    -- The answer of the storage is at most logged.
    abbrev pub deregistered : String → Task (Unit {0})
    deregistered id w = (ok tt, (deregister journal id w).1)

    -- Each step's error is only logged; then the next follows.
    abbrev pub clean_up : ContainerMeta → Task (Unit {0})
    clean_up meta = do
      let root = root_path ⧺ "/" ⧺ name_id meta.name meta.id
      noted (delete_cgroup (name_id meta.name meta.id))
      ignoring (answer (host.delete (name_id meta.name meta.id)))
      ignoring (delete_workspace root (root ⧺ "/mnt") none)
      deregistered meta.id

    -- A missing or a running container gets no answer.
    unfoldable pub remove_container : RmArgs → World → Handled
    remove_container args w =
        look_up args.name (λ w. (ok tt, w))
          (λ meta w.
            if is_running meta.state.status
            then (ok tt, w)
            else (clean_up meta >> reply (ok_content ("Container " ⧺ args.name ⧺ " removed"))) w)
          w
