-- ===== src/Daemon/Moves.antt =====
-- The moves of the storage that the commands make.
use rtain.Base.{true, Option, none, some, Outcome, ok, err, panic}
use rtain.Base.Bytes.{Bytes}
use rtain.Cmd.{Cli, Commands, run, start, exec, stop, rm, ps, logs, commit, network, create}
use rtain.Msg.{Msg, get_req, recv_from}
use rtain.Container.World.{Journal}
use rtain.Container.Moves.{Moves, stays}
use rtain.Container.Moves.Handlers.{
  stop_container-Moves, remove_container-Moves, list_containers-Moves, show_logs-Moves,
  commit_container-Moves,
}
use rtain.Container.Moves.Attached.{do_run-Moves, start_container-Moves, exec_container-Moves}
use rtain.Container.Moves.Made.{run_container-Moves}
use rtain.Network.BitVec.{BitVec}
use rtain.Daemon.{Daemon, Env, dispatch, requested, received, handler, connect}

module _ {J : Journal → Type 0} (B : BitVec) (env : Env B) (now : J env.journal)
    (then : J env.later) where
  dispatch-Moves :
      (command : Commands) (d : Daemon B)
      → Moves J d.world.metas (dispatch B env command d).1.world.metas
  unfolding dispatch
  dispatch-Moves (run args) d =
      run_container-Moves env.host env.maker env.journal now env.id env.time args _
        (λ meta child detach.
          do_run-Moves env.host env.later then env.terminal env.await meta child detach true)
        d.world
  dispatch-Moves (start args) d =
      start_container-Moves env.entry _
        (do_run-Moves env.host env.later then env.terminal env.await) env.journal now args d.world
  dispatch-Moves (exec args) d =
      exec_container-Moves env.entry _ (do_run-Moves env.host env.later then env.terminal env.await)
        args d.world
  dispatch-Moves (stop args) d = stop_container-Moves env.host env.journal now args d.world
  dispatch-Moves (rm args) d = remove_container-Moves env.host env.journal now args d.world
  dispatch-Moves (ps args) d = list_containers-Moves env.host env.print args d.world
  dispatch-Moves (logs args) d = show_logs-Moves env.host args d.world
  dispatch-Moves (commit args) d = commit_container-Moves env.host args d.world
  dispatch-Moves (network (create args)) d = stays d.world.metas

  requested-Moves :
      (cli : Option Cli) (d : Daemon B)
      → Moves J d.world.metas (requested B env cli d).1.world.metas
  requested-Moves none d = stays d.world.metas
  requested-Moves (some cli) d = dispatch-Moves cli.command d

  received-Moves :
      (r : Outcome Msg) (d : Daemon B) → Moves J d.world.metas (received B env r d).1.world.metas
  received-Moves (ok msg) d = requested-Moves (get_req msg) d
  received-Moves (err e) d = stays d.world.metas
  received-Moves panic d = stays d.world.metas

  pub handler-Moves :
      (input : Bytes) (d : Daemon B)
      → Moves J d.world.metas (handler B env input (connect B d)).1.world.metas
  unfolding handler
  handler-Moves input d = received-Moves (recv_from env.codec input).0 (connect B d)
