-- ===== src/Container/Run.antt =====
-- `run_container` and `run_prepare` of src/core/container/init.rs and `new_workspace` of
-- src/core/container/image.rs. What the host answers is a parameter, and so is `do_run`, which
-- attaches the client to a container. A write of `EXIT` to the child has its result dropped.
pub mod NoPid
pub mod Workspace
use rtain.Base.Text.{◌⧺◌, codes, split}
use rtain.Base.{
  ℕ, String, Bool, true, false, List, [], ◌∷◌, ◌++◌, Option, none, some, ℤ, Outcome, ok, err, panic,
  ◌==◌, if◌then◌else◌,
}
use rtain.Metas.Types.{ContainerMeta, create}
use rtain.Metas.Container
use rtain.Metas.Container.{get_pid}
use rtain.Msg.{error}
use rtain.Cmd.{RunArgs}
use rtain.Container.World.{
  Host, Journal, World, Handled, write_word, delete_cgroup, umount, remove_dir_all, call, reply,
  name_id, root_path, execute,
}
use rtain.Container.Task.{Task, ◌>>=◌, ◌>>◌, answer, or_else, ignoring, noted}
use rtain.Container.Remove.{delete_workspace}

-- The four bytes that the child sends: `WAIT`, `EXIT`, or others.
pub data Word : Type 0 where
  wait exit : Word
  other : String → Word

-- What the host answers while a container is made: the layers of the workspace (an error of a
-- program is its error here), the terminal, the child, the word that it sends, and the cgroup.
pub record Maker : Type 0 where
  pub create_ro_layer : String → String → Outcome (Unit {0})
  pub create_rw_layer : String → Outcome (Unit {0})
  pub create_mount_point : String → String → Outcome (Unit {0})
  pub bind_volume : String → List ℕ → List ℕ → Outcome (Unit {0})
  pub openpty : Outcome (Unit {0})
  pub pair : Outcome (Unit {0})
  pub clone : String → List String → Outcome ℤ
  pub read_word : ℤ → Outcome Word
  pub setup_cgroup : String → ℤ → Outcome (Unit {0})

-- `unwrap_or_else`
abbrev pub name_or : String → Option String → String
name_or id none = id
name_or id (some name) = name

module _ (host : Host) (maker : Maker) where
  -- The clean-ups whose results are dropped.
  abbrev pub remove_root : String → Task (Unit {0})
  remove_root root = do noted (remove_dir_all root); ignoring (answer (host.remove_dir_all root))

  abbrev pub umount_mnt : String → Task (Unit {0})
  umount_mnt mnt = do noted (umount mnt); ignoring (answer (host.umount mnt))

  abbrev pub take_down : String → String → String → Task (Unit {0})
  take_down root mnt e = do umount_mnt mnt; remove_root root; answer (err e)

  -- `mount_volume`: the path behind its first `/`; a path without one is a panic.
  abbrev pub mount_volume : String → List ℕ → List ℕ → Outcome (Unit {0})
  mount_volume mnt host_path [] = panic
  mount_volume mnt host_path (c ∷ path) =
      if c == b'/' then maker.bind_volume mnt host_path path else panic

  abbrev pub mount_parts : String → String → String → List (List ℕ) → Task (Unit {0})
  mount_parts root mnt volume ((a ∷ host_path) ∷ (b ∷ path) ∷ []) =
      or_else (answer (mount_volume mnt (a ∷ host_path) (b ∷ path))) (take_down root mnt)
  mount_parts root mnt volume _ = take_down root mnt ("Invalid volume: " ⧺ volume)

  abbrev pub with_volume : String → String → Option String → Task (Unit {0})
  with_volume root mnt none = answer (ok tt)
  with_volume root mnt (some volume) = mount_parts root mnt volume (split b':' (codes volume))

  abbrev pub removed : String → String → Task (Unit {0})
  removed root e = do remove_root root; answer (err e)

  -- `new_workspace`
  unfoldable pub new_workspace : String → String → String → Option String → Task (Unit {0})
  new_workspace image root mnt volume = do
    answer (maker.create_ro_layer image root)
    or_else (answer (maker.create_rw_layer root)) (removed root)
    or_else (answer (maker.create_mount_point root mnt)) (removed root)
    with_volume root mnt volume

  module _ (journal : Journal) where
    abbrev pub clean : {A : Type 0} → String → String → Option String → String → Task A
    clean root mnt volume e = do ignoring (delete_workspace host root mnt volume); answer (err e)

    -- The word of the child: `WAIT` when it is ready.
    abbrev pub check_word : String → String → Option String → Word → Task (Unit {0})
    check_word root mnt volume wait = answer (ok tt)
    check_word root mnt volume exit = do
      delete_workspace host root mnt volume
      answer (err "Failed to initialize container: child unexpected exit")
    check_word root mnt volume (other word) =
        clean root mnt volume ("Unexpected message from child process: " ⧺ word)

    abbrev pub unregistered :
        ℤ → String → String → Option String → String → String → Task (Unit {0})
    unregistered child root mnt volume group e = do
      noted (write_word child "EXIT")
      ignoring (delete_workspace host root mnt volume)
      noted (delete_cgroup group)
      ignoring (answer (host.delete group))
      answer (err e)

    -- The container record, with the identifier that `random_id` gives and the reading of the clock.
    abbrev pub record_of : String → ℕ → RunArgs → ContainerMeta
    record_of id time args = Container.new time id (name_or id args.name) args.image args.command []

    -- The steps of `run_prepare`, up to the registration of the record.
    unfoldable pub make_container : String → ℕ → RunArgs → Task (Unit {0})
    make_container id time args = do
      let name = name_or id args.name
      let root = root_path ⧺ "/" ⧺ name_id name id
      let mnt = root ⧺ "/mnt"
      answer maker.openpty
      answer maker.pair
      new_workspace args.image root mnt args.volume
      child ← or_else (answer (maker.clone mnt args.command)) (clean root mnt args.volume)
      word ←
          or_else (answer (maker.read_word child))
            (λ e. clean root mnt args.volume ("Failed to read from child process: " ⧺ e))
      check_word root mnt args.volume word
      or_else (answer (maker.setup_cgroup (name_id name id) child)) (λ e.
          noted (write_word child "EXIT")
          >> clean root mnt args.volume ("Failed to setup cgroup: " ⧺ e))
      or_else (execute journal (create (record_of id time args))) (λ e.
          unregistered child root mnt args.volume (name_id name id)
            ("Failed to register container: " ⧺ e))

    -- `run_prepare`: the steps, then the record.
    unfoldable pub run_prepare : String → ℕ → RunArgs → Task ContainerMeta
    run_prepare id time args = do make_container id time args; answer (ok (record_of id time args))

    -- The client is attached where the record has a process.
    abbrev pub attach :
        (ContainerMeta → ℤ → Bool → World → Handled)
        → Bool
        → ContainerMeta
        → Option ℤ
        → World
        → Handled
    attach do_run detach meta (some pid) w = do_run meta pid detach w
    attach do_run detach meta none w = reply (error "Container is not running") w

    abbrev pub prepared :
        (ContainerMeta → ℤ → Bool → World → Handled)
        → Bool
        → Outcome ContainerMeta × World
        → Handled
    prepared do_run detach (ok meta, w) = attach do_run detach meta (get_pid meta) w
    prepared do_run detach (err e, w) = reply (error e) w
    prepared do_run detach (panic, w) = (panic, w)

    unfoldable pub run_container :
        (ContainerMeta → ℤ → Bool → World → Handled) → String → ℕ → RunArgs → World → Handled
    run_container do_run id time args w = prepared do_run args.detach (run_prepare id time args w)
