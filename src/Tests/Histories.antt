-- ===== src/Tests/Histories.antt =====
-- A daemon with two connections and the ticks of both timers.
use rtain.Base.{
  String, true, List, [], ◌∷◌, ◌++◌, All, some, ◌≡◌, refl, sym, ◌⊎◌, inl, Outcome, ok, panic,
}
use rtain.Base.Bytes.{Bytes, Codec, le_bytes}
use rtain.Base.Dict
use rtain.Metas.Container
use rtain.Metas.Apply.{empty, apply_operation}
use rtain.Metas.Apply.View.{SameView}
use rtain.Metas.Wal.Disk.{sound, frame, append_frame, write_operation}
use rtain.Metas.Storage.{handle_request, recover_state}
use rtain.Cmd.{ExecArgs, run, exec, stop}
use rtain.Msg.{Msg, req, error, get_req, read_exact, recv_from}
use rtain.Container.World.{Journal, execute, reply}
use rtain.Container.Run.{new_workspace, make_container, run_prepare, run_container}
use rtain.Daemon.{
  Daemon, Env, dispatch, handler, connect, in_world, Turn, accepts, snapshots, cleans, turn,
  serve_each,
}
use rtain.Daemon.Histories.{NoPids, exec-serve_each}
use rtain.Daemon.Histories.Durable.{Writes}
use rtain.Daemon.Start.{left_by, start_up}
use rtain.Daemon.Lives.{Lives, begins, serves, start_up-Lives}
use rtain.Network.Networks.Load.{Stored, load}
use rtain.Tests.Net.{no_networks}
use rtain.Metas.Storage.{new, replay}
use rtain.Metas.Snapshot.{open_snapshots, load_latest}
use rtain.Metas.Folder.{sort_by_time, last}
use rtain.Metas.Wal.Archive.{open_dir}
use rtain.Metas.Wal.Read.{read_operations, read_loop}
use rtain.Base.{none, err}
use rtain.Tests.Bits.{bits}
use rtain.Tests.Samples.{
  clock, codecs, one_container, operations, table_codec, table_codec-IsLawful, operation_discrete,
  state_discrete,
}
use rtain.Tests.Wire.{msg_discrete}
use rtain.Tests.Store.{started}
use rtain.Tests.Containers.{run_web, world}
use rtain.Tests.Requests.{env, daemon}

abbrev known : List Msg
known =
    req (record { command = run run_web })
    ∷ req (record { command = stop (record { name = "web" }) })
    ∷ []

abbrev durable_journal : Journal
durable_journal = record { codecs = codecs; disk = sound; now = 9; clock = clock }

abbrev serving : Env bits
serving = record env {
  codec = table_codec msg_discrete known;
  journal = durable_journal;
  later = durable_journal;
}

abbrev fresh : Daemon bits
fresh = record daemon { world = record world { metas = started } }

-- A run, both ticks, and a stop.
abbrev day : List (Turn bits)
day =
    accepts serving (frame (0 ∷ []))
    ∷ snapshots codecs sound 60
    ∷ cleans 180
    ∷ accepts serving (frame (1 ∷ []))
    ∷ []

day-Writes : All (Writes codecs) day
day-Writes = (
  ((refl, inl refl), (refl, inl refl)),
  ((refl, inl refl), (tt, (((refl, inl refl), (refl, inl refl)), tt))),
)

empty-NoPids : NoPids empty
unfolding Dict.get
empty-NoPids id meta found = absurd (cc)

abbrev exec_web : ExecArgs
exec_web = record { name = "web"; command = "ls" ∷ [] }

exec-serve_each_example :
    (dispatch bits serving (exec exec_web) (connect bits (serve_each bits day fresh))
      ≡ (panic, connect bits (serve_each bits day fresh)))
    ⊎ ((e : String) × (dispatch bits serving
            (exec exec_web)
            (connect bits (serve_each bits day fresh))
          ≡ in_world bits
              (connect bits (serve_each bits day fresh))
              (reply (error e) (connect bits (serve_each bits day fresh)).world)))
exec-serve_each_example = exec-serve_each bits day serving exec_web fresh empty-NoPids

-- There is no file of networks.
abbrev no_file : Bytes → Outcome (Stored bits)
no_file contents = err "no such file"

abbrev first : Daemon bits
first = record fresh { networks = no_networks }

starts_up :
    start_up bits no_file
      (ok tt)
      codecs
      clock
      (record { wal = none; snapshots = none; networks = none; links = [] })
    ≡ some (ok first)
unfolding start_up new recover_state load_latest read_operations read_loop replay open_dir
    open_snapshots sort_by_time last load
starts_up = refl

lives : Lives bits no_file (ok tt) codecs (serve_each bits day first)
lives = serves day day-Writes (begins clock none [] first starts_up)

still_no_file : load bits no_file (ok tt) (serve_each bits day first).networks.saved ≡ ok ([], [])
unfolding load serve_each turn handler dispatch get_req recv_from read_exact frame le_bytes
    table_codec msg_discrete rtain.Base.Bytes.from_le_bytes
still_no_file = refl

start_up-Lives_example :
    (e : Daemon bits) × (start_up bits no_file
        (ok tt)
        codecs
        clock
        (left_by bits (serve_each bits day first))
      ≡ some (ok e))
    × SameView e.world.metas.state (serve_each bits day first).world.metas.state
    × (e.networks.networks ≡ [])
start_up-Lives_example =
    start_up-Lives bits no_file (ok tt) codecs (table_codec-IsLawful operation_discrete operations)
      (table_codec-IsLawful state_discrete (empty ∷ one_container ∷ [])) (serve_each bits day first)
      clock ([], []) lives still_no_file

-- The run has registered the container.
registered :
    Dict.contains_key "0a1b"
      (turn bits (accepts serving (frame (0 ∷ []))) fresh).world.metas.state.by_id
    ≡ true
unfolding turn handler dispatch get_req recv_from read_exact frame le_bytes run_container
    run_prepare make_container new_workspace execute handle_request write_operation append_frame
    apply_operation Dict.get Container.new table_codec msg_discrete operation_discrete
    Dict.contains_key rtain.Base.Bytes.from_le_bytes Container.get_pid Dict.insert
registered = refl
