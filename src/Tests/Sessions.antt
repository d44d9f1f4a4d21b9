-- ===== src/Tests/Sessions.antt =====
-- The theorems about sessions at a short one, and a start with it.
use rtain.Base.{
  pos, ℤ, String, true, false, [], ◌∷◌, ◌++◌, none, some, ◌≡◌, ◌≢◌, false, refl, List, ok, panic,
}
use rtain.Base.Text.{◌⧺◌, codes}
use rtain.Base.Bytes.{le_bytes}
use rtain.Base.Dict
use rtain.Metas.Types.{update_status, running, exited}
use rtain.Metas.Container
use rtain.Metas.Wal.Disk.{WalDir, sound, frame, append_frame, write_operation}
use rtain.Metas.Storage.{get_meta_by_id}
use rtain.Msg.{continue}
use rtain.Cmd.{StartArgs}
use rtain.Container.World.{World}
use rtain.Container.Lifecycle.{stopped}
use rtain.Container.Enter.{start_container}
use rtain.Container.Session.{
  Watcher, code, Session, Event, prints, exits, closes, capture_read, capture_write, forward_read,
  forward_write, watch, listening, wake, on_child, container_left, broken, begin, run, step, move,
}
use rtain.Container.Session.Output.{Stage, reading, ended}
use rtain.Container.Session.Wait.{to_end, lost_signal, heard_ends}
use rtain.Container.Attach.{Terminal, Finished, do_run}
use rtain.Container.Attach.Started.{restarted, start_container-exited}
use rtain.Container.Attach.Unsaid.{start_container-unsaid}
use rtain.Tests.Samples.{web}
use rtain.Tests.Containers.{done, host, any_codec, journal, storage, world, logged, entry, found}

abbrev pub print : ℤ → String
print n = "0"

-- The process prints two bytes; one has arrived, and one is in the buffer of `read_from_pty`.
abbrev half : List Event
half = prints (104 ∷ 105 ∷ []) ∷ capture_read 2 ∷ capture_write ∷ forward_read ∷ forward_write ∷ []

abbrev half_way : Session
half_way = record (begin false true) {
  copy = record {
    output = [];
    capture = Stage.writing (105 ∷ []);
    pipe = [];
    forward = reading;
    received = 104 ∷ [];
  };
}

half_runs : run print half (begin false true) ≡ some half_way
unfolding run step move
half_runs = refl

-- The process has ended before the listener is there.
abbrev missed : Session
missed = record half_way { exit_status = some (code (pos 0)); watcher = listening false }

missed_runs : run print (exits (code (pos 0)) ∷ watch ∷ []) half_way ≡ some missed
unfolding run step move
missed_runs = refl

lost_signal_example : (missed.ending ≡ none) × (missed.exit_status ≡ some (code (pos 0)))
lost_signal_example =
    lost_signal print half (watch ∷ []) (code (pos 0)) half_way missed
      (refl, (refl, (refl, (refl, (refl, tt))))) (refl, tt) half_runs missed_runs

abbrev watched : Session
watched = record half_way { watcher = listening false }

abbrev heard : Session
heard = record half_way { watcher = listening true; exit_status = some (code (pos 0)) }

heard_runs : run print (exits (code (pos 0)) ∷ []) watched ≡ some heard
unfolding run step move
heard_runs = refl

heard_ends_example :
    (s : Session) × (run print (to_end heard.watcher) heard ≡ some s) × (s.ending ≢ none)
heard_ends_example =
    heard_ends print (code (pos 0)) false [] watched heard refl refl heard_runs refl

-- A session to its end, with a client that stays and one that leaves.
abbrev pub last : Session
last = record heard {
  copy = record heard.copy { forward = ended [] };
  watcher = Watcher.done (ok (code (pos 0)));
  farewell = codes ("Container exited with code: " ⧺ "0");
  ending = some container_left;
}

last_runs :
    run print (half ++ watch ∷ exits (code (pos 0)) ∷ wake ∷ on_child ∷ []) (begin false true)
    ≡ some last
unfolding run step move
last_runs = refl

-- The client has left, and the process is known to have ended.
abbrev gone : Session
gone = record heard {
  watcher = Watcher.done (ok (code (pos 0)));
  has_input = false;
  is_open = false;
}

abbrev unsaid : Session
unsaid = record gone { copy = record gone.copy { forward = ended [] }; ending = some broken }

gone_runs :
    run print (half ++ watch ∷ exits (code (pos 0)) ∷ wake ∷ closes ∷ []) (begin false true)
    ≡ some gone
unfolding run step move
gone_runs = refl

step-gone : step print on_child gone ≡ some unsaid
unfolding step move
step-gone = refl

abbrev pub await : Session → Finished
await s = record { last = last; how = container_left }

abbrev await_lost : Session → Finished
await_lost s = record { last = unsaid; how = broken }

abbrev pub terminal : Terminal
terminal = record {
  get_flags = done;
  set_flags = done;
  async_fd = done;
  open_log = λ path. done;
  write_word = λ child word. done;
  is_open = true;
}

abbrev pub start_web : StartArgs
start_web = record { name = "web"; detach = false }

abbrev pub logged_twice : WalDir
logged_twice = record logged {
  current = some (record {
    content = 1 ∷ 0 ∷ 0 ∷ 0 ∷ 0 ∷ 0 ∷ 0 ∷ 0 ∷ 0 ∷ 1 ∷ 0 ∷ 0 ∷ 0 ∷ 0 ∷ 0 ∷ 0 ∷ 0 ∷ 0 ∷ [];
    modified = 9;
  });
}

pub run_logged :
    write_operation any_codec sound 9 (update_status "0a1b" running) storage.wal ≡ (ok tt, logged)
unfolding write_operation append_frame frame le_bytes
run_logged = refl

pub exit_logged :
    write_operation any_codec sound 9 (update_status "0a1b" exited) logged ≡ (ok tt, logged_twice)
unfolding write_operation append_frame frame le_bytes
exit_logged = refl

pub web_there : get_meta_by_id "0a1b" storage ≡ some web
unfolding get_meta_by_id Dict.get
web_there = refl

start_container-exited_example :
    (w' : World) × (start_container entry
        (do_run host journal terminal await)
        journal
        start_web
        world
      ≡ (ok tt, w'))
    × (get_meta_by_id "0a1b" w'.metas ≡ some (stopped 1000 (restarted 1000 web)))
    × (w'.sent ≡ continue ∷ [])
    × (w'.raw ≡ (104 ∷ []) ++ last.farewell)
unfolding Container.new Container.is_running
start_container-exited_example =
    start_container-exited host journal terminal await entry journal start_web web (pos 42) world
      logged logged_twice found web_there refl
      (record { terminal = refl; sockets = refl; cloned = refl; waits = refl; grouped = refl })
      (record { flags = refl; flagged = refl; polled = refl; log = refl; continued = refl }) refl
      run_logged exit_logged refl tt

start_container-unsaid_example :
    (w' : World) × (start_container entry
        (do_run host journal terminal await_lost)
        journal
        start_web
        world
      ≡ (panic, w'))
    × (get_meta_by_id "0a1b" w'.metas ≡ some (restarted 1000 web))
unfolding Container.new Container.is_running
start_container-unsaid_example =
    start_container-unsaid print host journal terminal await_lost entry journal start_web web
      (pos 42) world logged (half ++ watch ∷ exits (code (pos 0)) ∷ wake ∷ closes ∷ [])
      (code (pos 0)) gone refl gone_runs refl refl refl refl step-gone refl found web_there refl
      (record { terminal = refl; sockets = refl; cloned = refl; waits = refl; grouped = refl })
      (record { flags = refl; flagged = refl; polled = refl; log = refl; continued = refl }) refl
      run_logged
