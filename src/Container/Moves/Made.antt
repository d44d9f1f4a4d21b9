-- ===== src/Container/Moves/Made.antt =====
-- The moves of the storage that a run makes.
use rtain.Base.{ℕ, ℤ, String, Bool, List, [], ◌∷◌, Option, none, some, Outcome, ok, err, panic}
use rtain.Base.Text.{◌⧺◌, codes, split}
use rtain.Metas.Types.{ContainerMeta}
use rtain.Metas.Container.{get_pid}
use rtain.Metas.Storage.{StorageInner}
use rtain.Cmd.{RunArgs}
use rtain.Container.World.{Host, Journal, World, Handled, name_id, root_path}
use rtain.Container.Run.{
  Maker, Word, wait, exit, other, name_or, remove_root, take_down, mount_parts, with_volume,
  removed, new_workspace, clean, check_word, unregistered, make_container, run_prepare, attach,
  prepared, run_container,
}
use rtain.Container.Remove.{delete_workspace}
use rtain.Container.Moves.{
  Moves, stays, Acts, Chain, registers, Moves-trans, executing, answered, noting, bound, followed,
  handled, ignored,
}
use rtain.Container.Moves.Handlers.{delete_workspace-Moves}

module _ {J : Journal → Type 0} (host : Host) (maker : Maker) where
  removing_root : (root : String) → Chain J (remove_root host maker root)
  removing_root root = followed (noting _) (ignored (answered (host.remove_dir_all root)))

  taking_down : (root mnt e : String) → Chain J (take_down host maker root mnt e)
  taking_down root mnt e =
      followed (followed (noting _) (ignored (answered (host.umount mnt))))
        (followed (removing_root root) (answered (err e)))

  mounting :
      (root mnt volume : String) (parts : List (List ℕ))
      → Chain J (mount_parts host maker root mnt volume parts)
  mounting root mnt volume [] = taking_down root mnt _
  mounting root mnt volume ([] ∷ parts) = taking_down root mnt _
  mounting root mnt volume ((a ∷ host_path) ∷ []) = taking_down root mnt _
  mounting root mnt volume ((a ∷ host_path) ∷ [] ∷ parts) = taking_down root mnt _
  mounting root mnt volume ((a ∷ host_path) ∷ (b ∷ path) ∷ []) =
      handled (answered _) (taking_down root mnt)
  mounting root mnt volume ((a ∷ host_path) ∷ (b ∷ path) ∷ more ∷ parts) = taking_down root mnt _

  binding :
      (root mnt : String) (volume : Option String)
      → Chain J (with_volume host maker root mnt volume)
  binding root mnt none = answered (ok tt)
  binding root mnt (some volume) = mounting root mnt volume (split b':' (codes volume))

  removing : (root e : String) → Chain J (removed host maker root e)
  removing root e = followed (removing_root root) (answered (err e))

  building :
      (image root mnt : String) (volume : Option String)
      → Chain J (new_workspace host maker image root mnt volume)
  unfolding new_workspace
  building image root mnt volume = followed (answered (maker.create_ro_layer image root)) (
      followed (handled (answered (maker.create_rw_layer root)) (removing root)) (
        followed (handled (answered (maker.create_mount_point root mnt)) (removing root))
          (binding root mnt volume)))

  module _ (journal : Journal) (allowed : J journal) where
    deleting :
        (root mnt : String) (volume : Option String)
        → Chain J (delete_workspace host root mnt volume)
    deleting root mnt volume = record { moves = delete_workspace-Moves host root mnt volume }

    cleaning :
        {A : Type 0} (root mnt : String) (volume : Option String) (e : String)
        → Chain J (clean host maker journal {A = A} root mnt volume e)
    cleaning root mnt volume e = followed (ignored (deleting root mnt volume)) (answered (err e))

    checking :
        (root mnt : String) (volume : Option String) (word : Word)
        → Chain J (check_word host maker journal root mnt volume word)
    checking root mnt volume wait = answered (ok tt)
    checking root mnt volume exit = followed (deleting root mnt volume) (answered (err _))
    checking root mnt volume (other word) = cleaning root mnt volume _

    unregistering :
        (child : ℤ) (root mnt : String) (volume : Option String) (group e : String)
        → Chain J (unregistered host maker journal child root mnt volume group e)
    unregistering child root mnt volume group e = followed (noting _) (
        followed (ignored (deleting root mnt volume)) (
          followed (noting _)
            (followed (ignored (answered (host.delete group))) (answered (err e)))))

    module _ (id : String) (time : ℕ) (args : RunArgs) where
      making : Chain J (make_container host maker journal id time args)
      unfolding make_container
      making =
          let name = name_or id args.name in
          let root = root_path ⧺ "/" ⧺ name_id name id in
          let mnt = root ⧺ "/mnt" in
          followed (answered maker.openpty) (
            followed (answered maker.pair) (
              followed (building args.image root mnt args.volume) (
                bound
                  (handled (answered (maker.clone mnt args.command))
                    (cleaning root mnt args.volume))
                  (λ child.
                    bound
                      (handled (answered (maker.read_word child))
                        (λ e. cleaning root mnt args.volume _))
                      (λ word. followed (checking root mnt args.volume word) (
                        followed
                          (handled (answered (maker.setup_cgroup (name_id name id) child))
                            (λ e. followed (noting _) (cleaning root mnt args.volume _)))
                          (handled
                            (executing journal _ allowed
                              (registers time id name args.image args.command))
                            (λ e.
                              unregistering child root mnt args.volume (name_id name id) _))))))))

      preparing_run : Chain J (run_prepare host maker journal id time args)
      unfolding run_prepare
      preparing_run = followed making (answered (ok _))

      module _ (do_run : ContainerMeta → ℤ → Bool → World → Handled)
          (runs : (meta : ContainerMeta) (child : ℤ) (detach : Bool)
            → Acts J (do_run meta child detach)) where
        attach-Moves :
            (detach : Bool) (meta : ContainerMeta) (pid : Option ℤ)
            → Acts J (attach host maker journal do_run detach meta pid)
        attach-Moves detach meta none w = stays w.metas
        attach-Moves detach meta (some pid) w = runs meta pid detach w

        prepared-Moves :
            (s : StorageInner) (r : Outcome ContainerMeta × World)
            → Moves J s r.1.metas
            → Moves J s (prepared host maker journal do_run args.detach r).1.metas
        prepared-Moves s (ok meta, w) m =
            Moves-trans m (attach-Moves args.detach meta (get_pid meta) w)
        prepared-Moves s (err e, w) m = m
        prepared-Moves s (panic, w) m = m

        pub run_container-Moves : Acts J (run_container host maker journal do_run id time args)
        unfolding run_container
        run_container-Moves w =
            prepared-Moves w.metas (run_prepare host maker journal id time args w)
              (preparing_run.moves w)
