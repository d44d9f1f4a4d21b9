-- ===== src/Container/World.antt =====
-- What the handlers of src/core/container work on: the metadata, the calls to the host, and the
-- messages to the client. The results of the host's calls are a parameter. The daemon sets the
-- metadata before it listens, so that it is there.
use rtain.Base.Text.{◌⧺◌}
use rtain.Base.Bytes.{Bytes}
use rtain.Base.{ℕ, ℤ, String, List, [], ◌∷◌, ◌++◌, Option, none, some, Outcome, ok, err, panic}
use rtain.Metas.Types.{ContainerMeta, ContainerStatus, StorageOperation, update_status, delete}
use rtain.Metas.Apply.{Clock}
use rtain.Metas.Wal.Disk.{Disk}
use rtain.Metas.Storage.{Codecs, StorageInner, handle_request, get_meta_by_name}
use rtain.Msg.{Msg}

-- A call to the host.
pub data Call : Type 0 where
  kill_cgroup : String → Call
  delete_cgroup : String → Call
  umount_volume : String → List ℕ → Call
  umount : String → Call
  remove_dir_all : String → Call
  tar : String → String → Call
  -- a word for the child, on the socket pair
  write_word : ℤ → String → Call

-- What the host answers: cgroups, mounts, files, and the program `tar`, whose failure has the text
-- that it wrote to its standard error.
pub record Host : Type 0 where
  pub kill : String → Outcome (Unit {0})
  pub delete : String → Outcome (Unit {0})
  -- at a mount point, the path inside it
  pub umount2 : String → List ℕ → Outcome (Unit {0})
  pub umount : String → Outcome (Unit {0})
  pub remove_dir_all : String → Outcome (Unit {0})
  pub read_to_string : String → Outcome String
  pub tar : String → String → Outcome (Option String)
  -- the crate tabwriter, on the rows of a table
  pub align : List (List String) → Outcome String

-- What a request to the storage meets: the serializer, the disk and the clock.
pub record Journal : Type 0 where
  pub codecs : Codecs
  pub disk : Disk
  pub now : ℕ
  pub clock : Clock

pub record World : Type 0 where
  pub metas : StorageInner
  pub calls : List Call
  pub sent : List Msg
  -- what the client gets behind the messages
  pub raw : Bytes

-- A handler ends, or its task panics.
abbrev pub Handled : Type 0
Handled = Outcome (Unit {0}) × World

abbrev pub root_path : String
root_path = "/tmp/rtain"

-- `format!("{name}-{id}")`
abbrev pub name_id : String → String → String
name_id name id = name ⧺ "-" ⧺ id

abbrev pub call : Call → World → World
call c w = record w { calls = w.calls ++ c ∷ [] }

-- `let _ = msg.send_to(&mut stream).await;` and the end of the handler.
abbrev pub reply : Msg → World → Handled
reply msg w = (ok tt, record w { sent = w.sent ++ msg ∷ [] })

-- `execute` of the storage manager, as `updates` and `deregister` use it.
unfoldable pub execute : Journal → StorageOperation → World → Outcome (Unit {0}) × World
execute j op w =
    let (r, metas) = handle_request j.codecs j.disk j.now j.clock op w.metas in
    (r, record w { metas = metas })

unfoldable pub updates : Journal → String → ContainerStatus → World → Outcome (Unit {0}) × World
updates j id status w = execute j (update_status id status) w

unfoldable pub deregister : Journal → String → World → Outcome (Unit {0}) × World
deregister j id w = execute j (delete id) w

-- The lookup with which each handler starts, with what it does for a name that is not there.
abbrev pub on_lookup :
    (World → Handled)
    → (ContainerMeta → World → Handled)
    → World
    → Outcome (Option ContainerMeta)
    → Handled
on_lookup missing found w (ok none) = missing w
on_lookup missing found w (ok (some meta)) = found meta w
on_lookup missing found w (err e) = (err e, w)
on_lookup missing found w panic = (panic, w)

abbrev pub look_up :
    String → (World → Handled) → (ContainerMeta → World → Handled) → World → Handled
look_up name missing found w = on_lookup missing found w (get_meta_by_name name w.metas)
