-- ===== src/Container/Enter.antt =====
-- `start_container` of src/core/container/start.rs and `exec_container` of
-- src/core/container/exec.rs. What the host answers is a parameter, and so is `do_run`, which
-- attaches the client to a process.
pub mod Unattached
use rtain.Base.Text.{◌⧺◌}
use rtain.Base.{
  String, Bool, true, false, not, List, Option, none, some, ℤ, Outcome, ok, err, panic,
  if◌then◌else◌,
}
use rtain.Metas.Types.{ContainerMeta, running}
use rtain.Metas.Container.{is_running, get_pid}
use rtain.Msg.{error}
use rtain.Cmd.{StartArgs, ExecArgs}
use rtain.Container.World.{
  Journal, World, call, kill_cgroup, Handled, reply, name_id, root_path, updates, look_up,
}
use rtain.Container.Task.{Task, ◌>>=◌, ◌>>◌, answer, or_else, noted, tell}
use rtain.Container.Run.{Word, wait, exit, other}

-- What the host answers: the terminal, a child with the namespaces of a container or with new
-- ones, the word that it sends, and the cgroup.
pub record Entry : Type 0 where
  pub openpty : Outcome (Unit {0})
  pub pair : Outcome (Unit {0})
  pub new_process : String → List String → Outcome ℤ
  pub join_process : ℤ → List String → Outcome ℤ
  pub read_word : ℤ → Outcome Word
  pub add_task : String → ℤ → Outcome (Unit {0})
  pub write_word : ℤ → String → Outcome (Unit {0})

-- The result of the read is unwrapped, and other words are unreachable.
abbrev pub ready : Outcome Word → Task (Unit {0})
ready (ok wait) = answer (ok tt)
ready (ok exit) = answer (err "Failed to initialize container: child unexpected exit")
ready (ok (other word)) = answer panic
ready (err e) = answer panic
ready panic = answer panic

module _ (entry : Entry) where
  module _ (journal : Journal) where
    -- `start_prepare`
    unfoldable pub start_prepare : ContainerMeta → Task ℤ
    start_prepare meta = do
      answer entry.openpty
      answer entry.pair
      child ←
          answer
            (entry.new_process (root_path ⧺ "/" ⧺ name_id meta.name meta.id ⧺ "/mnt") meta.command)
      ready (entry.read_word child)
      or_else (answer (entry.add_task (name_id meta.name meta.id) child)) (λ e.
          tell child "EXIT" (entry.write_word child "EXIT")
          >> answer (err ("Failed to add task to cgroup: " ⧺ e)))
      or_else (updates journal meta.id running) (λ e. do
        tell child "EXIT" (entry.write_word child "EXIT")
        noted (kill_cgroup (name_id meta.name meta.id))
        answer (err ("Failed to update container: " ⧺ e)))
      answer (ok child)

  -- The process whose namespaces are entered.
  abbrev pub process_of : Option ℤ → Outcome ℤ
  process_of none = err "Container is not running"
  process_of (some pid) = ok pid

  -- `exec_prepare`: the command is the container's.
  unfoldable pub exec_prepare : ContainerMeta → Task ℤ
  exec_prepare meta = do
    answer entry.openpty
    answer entry.pair
    pid ← answer (process_of (get_pid meta))
    child ← answer (entry.join_process pid meta.command)
    ready (entry.read_word child)
    answer (ok child)

  -- The flags of `do_run` are `detach` and `stop_after_exit`.
  module _ (do_run : ContainerMeta → ℤ → Bool → Bool → World → Handled) where
    abbrev pub entered : ContainerMeta → Bool → Bool → Outcome ℤ × World → Handled
    entered meta detach stop_after_exit (ok child, w) = do_run meta child detach stop_after_exit w
    entered meta detach stop_after_exit (err e, w) = reply (error e) w
    entered meta detach stop_after_exit (panic, w) = (panic, w)

    unfoldable pub start_container : Journal → StartArgs → World → Handled
    start_container journal args w =
        look_up args.name
          (reply (error ("Failed to start container " ⧺ args.name ⧺ ", record does not exist")))
          (λ meta w.
            if is_running meta.state.status
            then reply (error ("Failed to start container " ⧺ args.name ⧺ ", it's already running"))
                w
            else entered meta args.detach true (start_prepare journal meta w))
          w

    unfoldable pub exec_container : ExecArgs → World → Handled
    exec_container args w =
        look_up args.name
          (reply (error ("Failed to exec container " ⧺ args.name ⧺ ", record does not exist")))
          (λ meta w.
            if not (is_running meta.state.status)
            then reply (error ("Failed to exec container " ⧺ args.name ⧺ ", it's not running")) w
            else entered meta false false (exec_prepare meta w))
          w
