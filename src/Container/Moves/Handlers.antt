-- ===== src/Container/Moves/Handlers.antt =====
-- The moves of the storage that the handlers of src/core/container make.
use rtain.Base.{
  ◌==◌, ℕ, ℤ, String, Bool, true, false, List, [], ◌∷◌, Option, none, some, Outcome, ok, err, panic,
  if◌then◌else◌,
}
use rtain.Base.Text.{codes, split}
use rtain.Metas.Types.{ContainerMeta, exited}
use rtain.Metas.Container.{is_running}
use rtain.Metas.Storage.{StorageInner, get_all_metas}
use rtain.Cmd.{StopArgs, RmArgs, PsArgs, LogsArgs, CommitArgs}
use rtain.Container.World.{
  deregister, Host, Journal, World, name_id, call, kill_cgroup, tar, umount,
}
use rtain.Container.Stop.{mark_stopped, do_stop, stop_container}
use rtain.Container.Remove.{
  remove_tree, tear_down, after_volume, umount_then, without_volume, delete_workspace, deregistered,
  clean_up, remove_container,
}
use rtain.Container.Report.{
  listed, list_containers, header, rows, shown, show_logs, archived, commit_container,
}
use rtain.Container.Moves.{
  Moves, stays, removes, Acts, go_on-Moves, Chain, followed, ignored, answered, noting,
  execute-Moves, updates-Moves, look_up-Moves,
}

pub if-Moves :
    {J : Journal → Type 0} {A : Type 0} (b : Bool) (s : StorageInner) (r t : Outcome A × World)
    → Moves J s r.1.metas
    → Moves J s t.1.metas
    → Moves J s (if b then r else t).1.metas
if-Moves true s r t m n = m
if-Moves false s r t m n = n

module _ {J : Journal → Type 0} where
  module _ (host : Host) where
    remove_tree-Moves : (root : String) (r : Outcome (Unit {0})) → Acts J (remove_tree host root r)
    remove_tree-Moves root (ok _) w = stays w.metas
    remove_tree-Moves root (err e) w = stays w.metas
    remove_tree-Moves root panic w = stays w.metas

    tear_down-Moves : (root mnt : String) → Acts J (tear_down host root mnt)
    tear_down-Moves root mnt w = remove_tree-Moves root (host.umount mnt) (call (umount mnt) w)

    after_volume-Moves :
        (root mnt : String) (r : Outcome (Unit {0})) → Acts J (after_volume host root mnt r)
    after_volume-Moves root mnt (ok _) w = tear_down-Moves root mnt w
    after_volume-Moves root mnt (err e) w = stays w.metas
    after_volume-Moves root mnt panic w = stays w.metas

    umount_then-Moves :
        (root mnt : String) (path : List ℕ) → Acts J (umount_then host root mnt path)
    umount_then-Moves root mnt [] w = stays w.metas
    umount_then-Moves root mnt (c ∷ path) w =
        if-Moves (c == b'/') w.metas _ _
          (after_volume-Moves root mnt (host.umount2 mnt path) (call _ w)) (stays w.metas)

    without_volume-Moves :
        (root mnt : String) (parts : List (List ℕ)) → Acts J (without_volume host root mnt parts)
    without_volume-Moves root mnt [] w = stays w.metas
    without_volume-Moves root mnt ([] ∷ parts) w = stays w.metas
    without_volume-Moves root mnt ((a ∷ host_path) ∷ []) w = stays w.metas
    without_volume-Moves root mnt ((a ∷ host_path) ∷ path ∷ []) w =
        umount_then-Moves root mnt path w
    without_volume-Moves root mnt ((a ∷ host_path) ∷ path ∷ more ∷ parts) w = stays w.metas

    pub delete_workspace-Moves :
        (root mnt : String) (volume : Option String)
        → Acts J (delete_workspace host root mnt volume)
    unfolding delete_workspace
    delete_workspace-Moves root mnt none w = tear_down-Moves root mnt w
    delete_workspace-Moves root mnt (some volume) w =
        without_volume-Moves root mnt (split b':' (codes volume)) w

    shown-Moves : (r : Outcome String) → Acts J (shown r)
    shown-Moves (ok text) w = stays w.metas
    shown-Moves (err e) w = stays w.metas
    shown-Moves panic w = stays w.metas

    pub show_logs-Moves : (args : LogsArgs) → Acts J (show_logs host args)
    unfolding show_logs
    show_logs-Moves args =
        look_up-Moves args.name _ _ (λ w. stays w.metas)
          (λ meta. shown-Moves (host.read_to_string _))

    archived-Moves : (args : CommitArgs) (r : Outcome (Option String)) → Acts J (archived args r)
    archived-Moves args (ok none) w = stays w.metas
    archived-Moves args (ok (some stderr)) w = stays w.metas
    archived-Moves args (err e) w = stays w.metas
    archived-Moves args panic w = stays w.metas

    pub commit_container-Moves : (args : CommitArgs) → Acts J (commit_container host args)
    unfolding commit_container
    commit_container-Moves args =
        look_up-Moves args.name _ _ (λ w. stays w.metas)
          (λ meta w. archived-Moves args (host.tar _ _) (call (tar _ _) w))

    module _ (journal : Journal) (allowed : J journal) where
      mark_stopped-Moves :
          (id : String) (r : Outcome (Unit {0})) (w : World)
          → Moves J w.metas (mark_stopped host journal id r w).1.metas
      mark_stopped-Moves id (ok _) w = updates-Moves journal id exited allowed w
      mark_stopped-Moves id (err e) w = stays w.metas
      mark_stopped-Moves id panic w = stays w.metas

      pub do_stop-Moves :
          (name id : String) (w : World) → Moves J w.metas (do_stop host journal name id w).1.metas
      unfolding do_stop
      do_stop-Moves name id w =
          mark_stopped-Moves id (host.kill (name_id name id))
            (call (kill_cgroup (name_id name id)) w)

      pub stop_container-Moves : (args : StopArgs) → Acts J (stop_container host journal args)
      unfolding stop_container
      stop_container-Moves args =
          look_up-Moves args.name _ _ (λ w. stays w.metas)
            (λ meta w.
              go_on-Moves _ w.metas (do_stop host journal meta.name meta.id w)
                (do_stop-Moves meta.name meta.id w) (λ _ w'. stays w'.metas))

      deregistering : (id : String) → Chain J (deregistered host journal id)
      unfolding deregister
      deregistering id = record { moves = λ w. execute-Moves journal _ allowed (removes id) w }

      deleting : (root mnt : String) → Chain J (delete_workspace host root mnt none)
      deleting root mnt = record { moves = delete_workspace-Moves root mnt none }

      cleaning_up : (meta : ContainerMeta) → Chain J (clean_up host journal meta)
      cleaning_up meta = followed (noting _) (
          followed (ignored (answered (host.delete _)))
            (followed (ignored (deleting _ _)) (deregistering meta.id)))

      pub remove_container-Moves : (args : RmArgs) → Acts J (remove_container host journal args)
      unfolding remove_container
      remove_container-Moves args =
          look_up-Moves args.name _ _ (λ w. stays w.metas)
            (λ meta w. if-Moves (is_running meta.state.status) w.metas _ _ (stays w.metas) (
              go_on-Moves _ w.metas (clean_up host journal meta w) ((cleaning_up meta).moves w)
                (λ _ w'. stays w'.metas)))

  listed-Moves :
      (host : Host) (print : ℤ → String) (r : Outcome String) → Acts J (listed host print r)
  listed-Moves host print (ok table) w = stays w.metas
  listed-Moves host print (err e) w = stays w.metas
  listed-Moves host print panic w = stays w.metas

  pub list_containers-Moves :
      (host : Host) (print : ℤ → String) (args : PsArgs) → Acts J (list_containers host print args)
  unfolding list_containers
  list_containers-Moves host print args w =
      listed-Moves host print (host.align (header ∷ rows host print (get_all_metas w.metas))) w
