-- ===== src/Container/Stop.antt =====
-- `stop_container` and `do_stop` of src/core/container/stop.rs.
use rtain.Base.{String, Outcome, ok, err, panic}
use rtain.Metas.Types.{exited}
use rtain.Msg.{ok_content, error}
use rtain.Cmd.{StopArgs}
use rtain.Base.Text.{◌⧺◌}
use rtain.Container.Task.{◌>>◌}
use rtain.Container.World.{
  kill_cgroup, Host, Journal, World, Handled, name_id, call, reply, updates, look_up,
}

module _ (host : Host) (journal : Journal) where
  -- An error of `kill` ends it early; an error of the update is dropped.
  abbrev pub mark_stopped : String → Outcome (Unit {0}) → World → Handled
  mark_stopped id (ok _) w = (ok tt, (updates journal id exited w).1)
  mark_stopped id (err e) w = (ok tt, w)
  mark_stopped id panic w = (panic, w)

  unfoldable pub do_stop : String → String → World → Handled
  do_stop name id w =
      mark_stopped id (host.kill (name_id name id)) (call (kill_cgroup (name_id name id)) w)

  unfoldable pub stop_container : StopArgs → World → Handled
  stop_container args w =
      look_up args.name
        (reply (error ("Failed to stop container " ⧺ args.name ⧺ ", record does not exist")))
        (λ meta.
          do_stop meta.name meta.id >> reply (ok_content ("Container " ⧺ args.name ⧺ " stoped")))
        w
