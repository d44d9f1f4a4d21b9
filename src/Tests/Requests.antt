-- ===== src/Tests/Requests.antt =====
-- A stop from the client to the daemon and back, and the output of an attached client.
use mathlib.Core.Path.{subst}
use rtain.Base.{pos, String, List, [], ◌∷◌, ◌++◌, All, ◌≡◌, refl, sym, Outcome, ok}
use rtain.Base.Bytes.{Bytes, Codec}
use rtain.Base.Dict
use rtain.Base.Text.{◌⧺◌}
use rtain.Base.Words.{debug}
use rtain.Metas.Container
use rtain.Metas.Apply.{apply_operation}
use rtain.Metas.Wal.Disk.{append_frame, write_operation}
use rtain.Metas.Storage.{handle_request, get_meta_by_name}
use rtain.Cmd.{Commands, start, stop}
use rtain.Msg.{Msg, req, ok_content, continue}
use rtain.Msg.Frames.{Serializes, send_each}
use rtain.Container.World.{World, execute, updates}
use rtain.Container.Enter.{start_container}
use rtain.Container.Attach.{do_run}
use rtain.Container.Stop.{do_stop, stop_container}
use rtain.Daemon.{Daemon, Env, dispatch, handler, connect, replies}
use rtain.Front.{copied, client}
use rtain.Front.Attached.{start-shown}
use rtain.Front.Answers.{outputs, sink, request-answered}
use rtain.Tests.Bits.{bits}
use rtain.Tests.Samples.{web, table_codec, table_codec-IsLawful}
use rtain.Tests.Wire.{msg_discrete}
use rtain.Tests.Net.{netlink, serialize, no_networks}
use rtain.Tests.Sessions.{
  terminal, await, print, start_web, logged_twice, last, run_logged, exit_logged, web_there,
}
use rtain.Tests.Containers.{host, maker, journal, world, entry, logged, found}

abbrev stop_web : Commands
stop_web = stop (record { name = "web" })

abbrev known : List Msg
known =
    req (record { command = stop_web })
    ∷ ok_content ("Container " ⧺ "web" ⧺ " stoped")
    ∷ continue
    ∷ []

abbrev codec : Codec Msg
codec = table_codec msg_discrete known

abbrev pub env : Env bits
env = record {
  codec = codec;
  host = host;
  maker = maker;
  entry = entry;
  journal = journal;
  later = journal;
  terminal = terminal;
  await = await;
  print = print;
  id = "0a1b";
  time = 100;
  profile = debug;
  netlink = netlink;
  serialize = serialize;
}

abbrev pub daemon : Daemon bits
daemon = record { world = world; networks = no_networks }

abbrev shown_of : Outcome Msg → String
shown_of resp = "?"

request_bytes : codec.serialize (req (record { command = stop_web })) ≡ ok (0 ∷ [])
unfolding table_codec msg_discrete
request_bytes = refl

answer_bytes : codec.serialize (ok_content ("Container " ⧺ "web" ⧺ " stoped")) ≡ ok (1 ∷ [])
unfolding table_codec msg_discrete
answer_bytes = refl

continue_bytes : codec.serialize continue ≡ ok (2 ∷ [])
unfolding table_codec msg_discrete
continue_bytes = refl

stop_answers :
    replies bits (dispatch bits env stop_web (connect bits daemon)).1
    ≡ ok_content ("Container " ⧺ "web" ⧺ " stoped") ∷ []
unfolding dispatch stop_container do_stop updates execute handle_request write_operation
    append_frame apply_operation get_meta_by_name Dict.get Container.new
stop_answers = refl

request-answered_example :
    (wire reply : Bytes) × (send_each codec (req (record { command = stop_web }) ∷ []) (sink [])
      ≡ (ok tt, sink wire))
    × (handler bits env wire (connect bits daemon)
        ≡ dispatch bits env stop_web (connect bits daemon))
    × (send_each codec (replies bits (handler bits env wire (connect bits daemon)).1) (sink [])
        ≡ (ok tt, sink reply))
    × (client codec shown_of stop_web reply
        ≡ ok (outputs stop_web (replies bits (handler bits env wire (connect bits daemon)).1)))
request-answered_example =
    request-answered bits env shown_of stop_web daemon tt (table_codec-IsLawful msg_discrete known)
      (0 ∷ [], request_bytes)
      (subst (All (Serializes codec)) (sym stop_answers) ((1 ∷ [], answer_bytes), tt))

-- The session of the start leaves one byte and the text behind it.
start-shown_example :
    (w' : World) × (reply : Bytes) × (start_container entry
        (do_run host journal terminal await)
        journal
        start_web
        world
      ≡ (ok tt, w'))
    × (send_each codec w'.sent (sink []) ≡ (ok tt, sink reply))
    × (client codec shown_of (start start_web) (reply ++ w'.raw)
        ≡ ok (copied ((104 ∷ []) ++ last.farewell) ∷ []))
unfolding Container.new Container.is_running
start-shown_example =
    start-shown codec shown_of host journal terminal await entry journal start_web web (pos 42)
      world logged logged_twice (2 ∷ []) (table_codec-IsLawful msg_discrete known) continue_bytes
      refl refl refl found web_there refl
      (record { terminal = refl; sockets = refl; cloned = refl; waits = refl; grouped = refl })
      (record { flags = refl; flagged = refl; polled = refl; log = refl; continued = refl }) refl
      run_logged exit_logged refl tt
