-- ===== src/Daemon.antt =====
-- The daemon's `handler` of src/core/mod.rs: a connection brings a request, which goes to the
-- handler of its command.
pub mod Replies
pub mod Moves
pub mod Start
pub mod Lives
pub mod Histories
use rtain.Base.{
  ℕ, ℤ, true, String, List, [], ◌∷◌, ◌++◌, Option, none, some, Outcome, ok, err, panic,
}
use rtain.Base.Dict.{Dict}
use rtain.Base.Bytes.{Bytes, Codec}
use rtain.Base.Words.{Profile}
use rtain.Metas.Wal.Disk.{Disk}
use rtain.Metas.Storage.{Codecs, StorageInner, snapshot_tick, cleanup_tick}
use rtain.Cmd.{
  Cli, Commands, run, start, exec, stop, rm, ps, logs, commit, network, NetworkCommands, create,
}
use rtain.Msg.{Msg, get_req, recv_from}
use rtain.Container.World.{Host, Journal, World, Handled}
use rtain.Container.Run.{Maker, run_container}
use rtain.Container.Enter.{Entry, start_container, exec_container}
use rtain.Container.Stop.{stop_container}
use rtain.Container.Remove.{remove_container}
use rtain.Container.Report.{list_containers, show_logs, commit_container}
use rtain.Container.Session.{Session}
use rtain.Container.Attach.{Terminal, Finished, do_run}
use rtain.Network.BitVec.{BitVec}
use rtain.Network.Ipam.{Ipam}
use rtain.Network.Bridge.{Network, Netlink}
use rtain.Network.Networks.{Networks, create_network}

-- The two statics, and what one connection has been sent.
pub record Daemon (B : BitVec) : Type 0 where
  pub world : World
  pub networks : Networks B

-- What one request meets: the libraries, the host, the clock and the random identifier.
pub record Env (B : BitVec) : Type 0 where
  pub codec : Codec Msg
  pub host : Host
  pub maker : Maker
  pub entry : Entry
  pub journal : Journal
  -- the log when a session has ended
  pub later : Journal
  pub terminal : Terminal
  pub await : Session → Finished
  pub print : ℤ → String
  pub id : String
  pub time : ℕ
  pub profile : Profile
  pub netlink : Netlink
  pub serialize : Ipam B → Dict Network → Outcome Bytes

module _ (B : BitVec) where
  abbrev pub Served : Type 0
  Served = Outcome (Unit {0}) × Daemon B

  abbrev pub in_world : Daemon B → Handled → Served
  in_world d (r, w) = (r, record d { world = w })

  abbrev pub in_networks : Daemon B → Outcome (Unit {0}) × Networks B → Served
  in_networks d (r, n) = (r, record d { networks = n })

  -- The handler of each command.
  unfoldable pub dispatch : Env B → Commands → Daemon B → Served
  dispatch env (run args) d = in_world d (
      run_container env.host env.maker env.journal
        (λ meta pid detach. do_run env.host env.later env.terminal env.await meta pid detach true)
        env.id env.time args d.world)
  dispatch env (start args) d = in_world d (
      start_container env.entry (do_run env.host env.later env.terminal env.await) env.journal args
        d.world)
  dispatch env (exec args) d =
      in_world d
        (exec_container env.entry (do_run env.host env.later env.terminal env.await) args d.world)
  dispatch env (stop args) d = in_world d (stop_container env.host env.journal args d.world)
  dispatch env (rm args) d = in_world d (remove_container env.host env.journal args d.world)
  dispatch env (ps args) d = in_world d (list_containers env.host env.print args d.world)
  dispatch env (logs args) d = in_world d (show_logs env.host args d.world)
  dispatch env (commit args) d = in_world d (commit_container env.host args d.world)
  dispatch env (network (create args)) d =
      in_networks d (create_network B env.profile env.netlink env.serialize args d.networks)

  -- A message that is no request ends the connection.
  abbrev pub requested : Env B → Option Cli → Daemon B → Served
  requested env none d = (ok tt, d)
  requested env (some cli) d = dispatch env cli.command d

  abbrev pub received : Env B → Outcome Msg → Daemon B → Served
  received env (ok msg) d = requested env (get_req msg) d
  received env (err e) d = (err e, d)
  received env panic d = (panic, d)

  -- `handler`, on what the client has written.
  unfoldable pub handler : Env B → Bytes → Daemon B → Served
  handler env input d = received env (recv_from env.codec input).0 d

  -- A new connection: nothing has been sent on it.
  abbrev pub connect : Daemon B → Daemon B
  connect d = record d {
    world = record d.world { sent = []; raw = [] };
    networks = record d.networks { sent = [] };
  }

  -- The messages on a connection: a command has its answers from one of the two.
  abbrev pub replies : Daemon B → List Msg
  replies d = d.world.sent ++ d.networks.sent

-- What happens at the daemon between two moments at which no handler runs: a connection is
-- accepted and its handler runs, or one of the two timers of the storage ticks.
pub data Turn (B : BitVec) : Type 0 where
  accepts : Env B → Bytes → Turn B
  snapshots : Codecs → Disk → ℕ → Turn B
  cleans : ℕ → Turn B

module _ (B : BitVec) where
  abbrev pub in_metas : Daemon B → StorageInner → Daemon B
  in_metas d metas = record d { world = record d.world { metas = metas } }

  -- The result of a handler is dropped, and a panic ends its task alone.
  unfoldable pub turn : Turn B → Daemon B → Daemon B
  turn (accepts env input) d = (handler B env input (connect B d)).1
  turn (snapshots codecs disk now) d = in_metas d (snapshot_tick codecs disk now d.world.metas)
  turn (cleans now) d = in_metas d (cleanup_tick now d.world.metas)

  -- The loop of `run_daemon`: each connection's task ends before the next begins.
  unfoldable pub serve_each : List (Turn B) → Daemon B → Daemon B
  serve_each [] d = d
  serve_each (t ∷ turns) d = serve_each turns (turn t d)
