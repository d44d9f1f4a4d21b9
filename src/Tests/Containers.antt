-- ===== src/Tests/Containers.antt =====
-- The theorems about the handlers at a container that runs and one that has exited.
use mathlib.Core.Path.{subst}
use rtain.Base.{
  pos, ℤ, Bool, String, panic, ◌++◌, true, false, ◌≡◌, ◌≢◌, refl, sym, ◌∙◌, [], ◌∷◌, none, some,
  Outcome, ok, err, ◌⊎◌,
}
use rtain.Base.Dict
use rtain.Base.Bytes.{Codec, le_bytes}
use rtain.Metas.Types.{ContainerMeta, create, update_status, delete, running, exited}
use rtain.Metas.Container
use rtain.Metas.Container.{is_running, get_pid}
use rtain.Metas.Apply.{insert_meta, empty, apply_operation}
use rtain.Metas.Apply.Coherence.{
  IsCoherent, IsCoherent-empty, Admissible, apply_operation-IsCoherent,
}
use rtain.Metas.Wal.Disk.{WalDir, no_open, sound, frame, append_frame, write_operation}
use rtain.Metas.Storage.{handle_request, StorageInner, get_meta_by_id, get_meta_by_name}
use rtain.Msg.{ok_content, error}
use rtain.Cmd.{ExecArgs, RunArgs, StopArgs, RmArgs}
use rtain.Base.Text.{◌⧺◌}
use rtain.Container.Run.{Maker, wait, new_workspace, make_container, run_prepare, run_container}
use rtain.Container.Enter.{Entry}
use rtain.Metas.Event.{status_changed, operation_to_event}
use rtain.Metas.Event.Changes.{Tells, operation_to_event-Tells}
use rtain.Base.Text.{split}
use rtain.Container.Run.NoPid.{run_container-error}
use rtain.Container.World.{call, kill_cgroup, name_id, execute, Handled, Host, Journal, World}
use rtain.Container.Stop.{stop_container}
use rtain.Container.Remove.{clean_up, remove_container}
use rtain.Container.Lifecycle.{Marked, log_answer, stop_container-outcome}
use rtain.Container.CleanUp.{CallsReturn}
use rtain.Container.Removal.{remove_container-answers, remove_container-outcome}
use rtain.Tests.Samples.{web, clock, one_container, config}

abbrev pub done : Outcome (Unit {0})
done = ok tt

abbrev pub host : Host
host = record {
  kill = λ group. done;
  delete = λ group. done;
  umount2 = λ mnt path. done;
  umount = λ path. done;
  remove_dir_all = λ path. done;
  read_to_string = λ path. ok "";
  tar = λ image mnt. ok none;
  align = λ table. ok "";
}

abbrev broken_host : Host
broken_host = record host { kill = λ group. err "no such cgroup" }

-- A serializer that takes every operation and state.
abbrev pub any_codec : {A : Type 0} → Codec A
any_codec = record { serialize = λ a. ok (0 ∷ []); deserialize = λ bytes. err "" }

abbrev pub journal : Journal
journal = record {
  codecs = record { operations = any_codec; states = any_codec };
  disk = sound;
  now = 9;
  clock = clock;
}

abbrev pub storage : StorageInner
storage = record {
  config = config;
  wal = record { current = none; temp = none; archive = none };
  snapshots = [];
  state = one_container;
}

abbrev pub world : World
world = record { metas = storage; calls = []; sent = []; raw = [] }

abbrev web_runs : ContainerMeta
web_runs = record web { state = record web.state { status = running } }

abbrev running_world : World
running_world = record world {
  metas = record storage {
    state = record { by_id = ("0a1b", web_runs) ∷ []; by_name = ("web", "0a1b") ∷ [] };
  };
}

coherent : IsCoherent one_container
unfolding apply_operation insert_meta Dict.insert Dict.get Admissible Container.new
coherent = apply_operation-IsCoherent clock (create web) empty (λ m h. absurd (cc)) IsCoherent-empty

pub found : get_meta_by_name "web" storage ≡ ok (some web)
unfolding get_meta_by_name Dict.get
found = refl

found_running : get_meta_by_name "web" running_world.metas ≡ ok (some web_runs)
unfolding get_meta_by_name Dict.get
found_running = refl

abbrev stop_web : StopArgs
stop_web = record { name = "web" }

abbrev rm_web : RmArgs
rm_web = record { name = "web" }

-- The log with one more record.
abbrev pub logged : WalDir
logged = record {
  current = some (record { content = 1 ∷ 0 ∷ 0 ∷ 0 ∷ 0 ∷ 0 ∷ 0 ∷ 0 ∷ 0 ∷ []; modified = 9 });
  temp = none;
  archive = none;
}

update_logged :
    write_operation any_codec sound 9 (update_status "0a1b" exited) running_world.metas.wal
    ≡ (ok tt, logged)
unfolding write_operation append_frame frame le_bytes
update_logged = refl

delete_logged : write_operation any_codec sound 9 (delete "0a1b") storage.wal ≡ (ok tt, logged)
unfolding write_operation append_frame frame le_bytes
delete_logged = refl

at_id : get_meta_by_id "0a1b" running_world.metas ≡ some web_runs
unfolding get_meta_by_id Dict.get
at_id = refl

-- A host whose cgroups cannot be told to end, and a journal on a disk that refuses.
abbrev refusing : Journal
refusing = record journal { disk = no_open "read-only" }

stop_container-outcome_example :
    ((host.kill (name_id "web" "0a1b") ≡ panic)
      × (stop_container host refusing stop_web running_world
          ≡ (panic, call (kill_cgroup (name_id "web" "0a1b")) running_world)))
    ⊎ (((stop_container host refusing stop_web running_world).0 ≡ ok tt)
        × ((stop_container host refusing stop_web running_world).1.sent
            ≡ ok_content ("Container " ⧺ "web" ⧺ " stoped") ∷ [])
        × (((host.kill (name_id "web" "0a1b") ≡ ok tt)
              × Marked host refusing running_world web_runs stop_web found_running
                  (stop_container host refusing stop_web running_world))
            ⊎ ((e : String) × (host.kill (name_id "web" "0a1b") ≡ err e)
                × ((stop_container host refusing stop_web running_world).1.metas
                    ≡ running_world.metas))))
unfolding Container.new
stop_container-outcome_example =
    stop_container-outcome host refusing running_world web_runs stop_web found_running at_id

web_calls : CallsReturn host web
web_calls = record {
  deleted = λ p. absurd (cc);
  umounted = λ p. absurd (cc);
  removed = λ p. absurd (cc);
}

remove_container-answers_example :
    ((get_meta_by_name "web" storage ≡ ok none)
      × (remove_container host journal rm_web world ≡ (ok tt, world)))
    ⊎ ((meta : ContainerMeta) × (get_meta_by_name "web" storage ≡ ok (some meta))
        × (((is_running meta.state.status ≡ true)
              × (remove_container host journal rm_web world ≡ (ok tt, world)))
            ⊎ ((is_running meta.state.status ≡ false)
                × ((((clean_up host journal meta world).0 ≡ ok tt)
                      × ((remove_container host journal rm_web world).1.sent
                          ≡ ok_content ("Container " ⧺ "web" ⧺ " removed") ∷ []))
                    ⊎ (((clean_up host journal meta world).0 ≡ panic)
                        × ((remove_container host journal rm_web world).0 ≡ panic)
                        × ((remove_container host journal rm_web world).1.sent ≡ []))))))
remove_container-answers_example = remove_container-answers host journal world rm_web coherent

remove_container-outcome_example :
    ((remove_container host journal rm_web world).1.sent
      ≡ ok_content ("Container " ⧺ "web" ⧺ " removed") ∷ [])
    × (((log_answer journal (delete "0a1b") world ≡ ok tt)
          × (get_meta_by_id "0a1b" (remove_container host journal rm_web world).1.metas ≡ none)
          × (get_meta_by_name "web" (remove_container host journal rm_web world).1.metas ≡ ok none))
        ⊎ ((log_answer journal (delete "0a1b") world ≢ ok tt)
            × ((remove_container host journal rm_web world).1.metas.state ≡ one_container)))
unfolding is_running Container.new
remove_container-outcome_example =
    remove_container-outcome host journal world web rm_web found refl coherent web_calls

-- A host on which everything works.
abbrev pub maker : Maker
maker = record {
  create_ro_layer = λ image root. done;
  create_rw_layer = λ root. done;
  create_mount_point = λ root mnt. done;
  bind_volume = λ mnt host_path path. done;
  openpty = done;
  pair = done;
  clone = λ mnt command. ok (pos 42);
  read_word = λ child. ok wait;
  setup_cgroup = λ name child. done;
}

abbrev pub run_web : RunArgs
run_web = record {
  name = some "web";
  memory = none;
  volume = none;
  detach = true;
  image = "busybox.tar";
  command = "sh" ∷ [];
}

abbrev attached : ContainerMeta → ℤ → Bool → World → Handled
attached meta pid detach w = (ok tt, w)

run_container-error_example :
    ((run_container host maker journal attached "0a1b" 100 run_web world).0 ≡ panic)
    ⊎ ((e : String) × (w' : World) × (run_container host maker journal attached "0a1b" 100 run_web
            world
          ≡ (ok tt, record w' { sent = w'.sent ++ error e ∷ [] })))
run_container-error_example =
    run_container-error host maker journal "0a1b" 100 run_web attached world

-- On it the container is registered, and the client is told that it does not run.
run_reads :
    (run_container host maker journal attached "0a1b" 100 run_web world).1.sent
    ≡ error "Container is not running" ∷ []
unfolding run_container run_prepare make_container new_workspace execute handle_request
    write_operation append_frame apply_operation get_pid Container.new
run_reads = refl

-- A host on which every process is entered.
abbrev pub entry : Entry
entry = record {
  openpty = done;
  pair = done;
  new_process = λ mnt command. ok (pos 42);
  join_process = λ pid command. ok (pos 43);
  read_word = λ child. ok wait;
  add_task = λ name child. done;
  write_word = λ child word. done;
}

abbrev exec_web : ExecArgs
exec_web = record { name = "web"; command = "ls" ∷ [] }

abbrev entered_as : ContainerMeta → ℤ → Bool → Bool → World → Handled
entered_as meta pid detach stop_after_exit w = (ok tt, w)

web_rests : get_pid web ≡ none
unfolding get_pid Container.new
web_rests = refl

no_process :
    (meta : ContainerMeta) → get_meta_by_name "web" storage ≡ ok (some meta) → get_pid meta ≡ none
no_process meta h = subst (λ m. get_pid m ≡ none) (same meta (sym found ∙ h)) web_rests
  where
    same : (meta : ContainerMeta) → ok (some web) ≡ ok (some meta) → web ≡ meta
    same meta p = cc

volume_panics :
    new_workspace host maker "busybox.tar" "/r" "/r/mnt" (some "/srv:data") world ≡ (panic, world)
unfolding new_workspace split
volume_panics = refl

status_event :
    operation_to_event (update_status "0a1b" exited) running_world.metas
    ≡ some (status_changed "0a1b" "web" running exited)
unfolding operation_to_event get_meta_by_id Dict.get Container.new
status_event = refl

operation_to_event-Tells_example :
    Tells
      (status_changed "0a1b" "web" running exited)
      running_world.metas.state
      (apply_operation clock (update_status "0a1b" exited) running_world.metas.state).1
operation_to_event-Tells_example =
    operation_to_event-Tells clock (update_status "0a1b" exited) running_world.metas
      (status_changed "0a1b" "web" running exited) status_event
