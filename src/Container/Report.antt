-- ===== src/Container/Report.antt =====
-- `list_containers` and `show_logs` of src/core/container/list.rs and `commit_container` of
-- src/core/container/commit.rs. How a number is printed is a parameter.
use rtain.Base.{String, List, [], ◌∷◌, Option, none, some, ℤ, pos, Outcome, ok, err, panic}
use rtain.Metas.Types.{
  ContainerStatus, creating, running, paused, restarting, removing, exited, dead, ContainerMeta,
}
use rtain.Metas.Container.{get_pid}
use rtain.Metas.Storage.{get_all_metas}
use rtain.Msg.{ok_content, error}
use rtain.Cmd.{PsArgs, LogsArgs, CommitArgs}
use rtain.Base.Text.{◌⧺◌}
use rtain.Container.World.{tar, Host, World, Handled, root_path, name_id, call, reply, look_up}

-- `{:?}` of a status
abbrev pub status_name : ContainerStatus → String
status_name creating = "Creating"
status_name running = "Running"
status_name paused = "Paused"
status_name restarting = "Restarting"
status_name removing = "Removing"
status_name exited = "Exited"
status_name dead = "Dead"

-- `join(" ")`
unfoldable pub join : List String → String
join [] = ""
join (word ∷ []) = word
join (word ∷ next ∷ words) = word ⧺ " " ⧺ join (next ∷ words)

abbrev or_zero : Option ℤ → ℤ
or_zero none = pos 0
or_zero (some pid) = pid

abbrev pub header : List String
header = "ID" ∷ "NAME" ∷ "PID" ∷ "COMMAND" ∷ "STATUS" ∷ []

module _ (host : Host) (print : ℤ → String) where
  abbrev pub row : ContainerMeta → List String
  row meta =
      meta.id
      ∷ meta.name
      ∷ print (or_zero (get_pid meta))
      ∷ join meta.command
      ∷ status_name meta.state.status
      ∷ []

  unfoldable pub rows : List ContainerMeta → List (List String)
  rows [] = []
  rows (meta ∷ metas) = row meta ∷ rows metas

  abbrev pub listed : Outcome String → World → Handled
  listed (ok table) = reply (ok_content table)
  listed (err e) = reply (error ("Failed to write to tab writer: " ⧺ e))
  listed panic = λ w. (panic, w)

  -- `list_containers`: the flag for all containers is not looked at.
  unfoldable pub list_containers : PsArgs → World → Handled
  list_containers args w = listed (host.align (header ∷ rows (get_all_metas w.metas))) w

abbrev pub shown : Outcome String → World → Handled
shown (ok logs) = reply (ok_content logs)
shown (err e) = reply (error ("Failed to read logs: " ⧺ e))
shown panic = λ w. (panic, w)

-- The answer to a commit: `tar` has run, with what it wrote to its standard error where it failed.
abbrev pub archived : CommitArgs → Outcome (Option String) → World → Handled
archived args (ok none) =
    reply (ok_content ("Container " ⧺ args.name ⧺ " commited to image " ⧺ args.image))
archived args (ok (some stderr)) =
    reply (error ("Failed to commit container " ⧺ args.name ⧺ ", tar command failed: " ⧺ stderr))
archived args (err e) =
    reply (error ("Failed to commit container " ⧺ args.name ⧺ ", cannot tar the image: " ⧺ e))
archived args panic = λ w. (panic, w)

module _ (host : Host) where
  -- `show_logs`
  unfoldable pub show_logs : LogsArgs → World → Handled
  show_logs args w =
      look_up args.name
        (reply (error ("Failed to get container " ⧺ args.name ⧺ " meta, does not exist")))
        (λ meta.
          shown (host.read_to_string (root_path ⧺ "/" ⧺ name_id meta.name meta.id ⧺ "/stdout.log")))
        w

  -- `commit_container`. The image's path is that of a relative name.
  unfoldable pub commit_container : CommitArgs → World → Handled
  commit_container args w =
      look_up args.name
        (reply (error ("Failed to commit container " ⧺ args.name ⧺ ", record does not exist")))
        (λ meta w.
          let image = args.image ⧺ "/" ⧺ args.image ⧺ ".tar" in
          let mnt = root_path ⧺ "/" ⧺ name_id meta.name meta.id ⧺ "/mnt" in
          archived args (host.tar image mnt) (call (tar image mnt) w))
        w
