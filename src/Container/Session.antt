-- ===== src/Container/Session.antt =====
-- `do_run` of src/core/container/init.rs: the tasks between a process's terminal and its client,
-- or its log, and the wait for the process, as steps in any order.
pub mod Output
pub mod Order
pub mod Wait
use rtain.Container.Session.Output.{
  Copy, Stage, abort, deliver, end_capture, end_forward, ended, fail, held, left, pull, push,
  read_output, readable, reading, when, writing,
}
use rtain.Base.Text.{◌⧺◌, codes}
use rtain.Base.{
  ℕ, String, Bool, true, false, ◌&&◌, ◌||◌, not, List, [], ◌∷◌, ◌++◌, Option, none, some, ℤ,
  Outcome, ok, err, panic, length, take, drop, ltb, leb,
}
use rtain.Base.Bytes.{Bytes}

-- How a process ends: a code, a signal, or another report.
pub data Status : Type 0 where
  code : ℤ → Status
  signal : String → Status
  unusual : String → Status

-- The task that waits for the process: before its listener is there, behind it with a signal that
-- has come or not, and done.
pub data Watcher : Type 0 where
  starting : Watcher
  listening : Bool → Watcher
  done : Outcome Status → Watcher

-- How `do_run` goes on: the client or the container has left, or it has panicked.
pub data Ending : Type 0 where
  client_left container_left broken : Ending

pub record Session : Type 0 where
  pub detach : Bool
  pub copy : Copy
  -- the client's bytes, `client_to_pty`, and what the process can read
  pub input : Bytes
  pub feed : Stage
  pub typed : Bytes
  -- whether the client may send more
  pub has_input : Bool
  -- whether the client is there, or the log can be written
  pub is_open : Bool
  pub exit_status : Option Status
  pub watcher : Watcher
  -- the text behind the output
  pub farewell : Bytes
  pub ending : Option Ending

-- What may happen next.
pub data Event : Type 0 where
  -- the process and the client
  prints : Bytes → Event
  exits : Status → Event
  sends : Bytes → Event
  -- the client ends what it sends, or it is gone
  shuts closes : Event
  -- the tasks that copy; a number is how many bytes a call takes
  capture_read : ℕ → Event
  capture_write capture_ends : Event
  forward_read forward_write forward_fails forward_ends : Event
  feed_read : ℕ → Event
  feed_write : ℕ → Event
  feed_ends : Event
  -- the wait: the listener, a signal for another child, and what follows a signal
  watch other_signal wake reap : Event
  wait_fails : String → Event
  -- `select!`, and the end of the wait when detached
  on_client on_child : Event

abbrev pub with_copy : Option Copy → Session → Option Session
with_copy none s = none
with_copy (some c) s = some (record s { copy = c })

abbrev pub read_input : ℕ → Stage → Session → Option Session
read_input n reading s =
    when (readable n s.input) (record s { feed = writing (take n s.input); input = drop n s.input })
read_input n (writing bs) s = none
read_input n (ended bs) s = none

-- One `write` takes `n` bytes; the others of the buffer are dropped.
abbrev pub type_input : ℕ → Stage → Session → Option Session
type_input n (writing bs) s =
    when (leb n (length bs)) (record s { feed = reading; typed = s.typed ++ take n bs })
type_input n reading s = none
type_input n (ended bs) s = none

-- The client's input is at its end, a read has failed since the client is gone, or a write has.
abbrev pub end_feed : Stage → Session → Option Session
end_feed (ended bs) s = none
end_feed (writing bs) s = some (record s { feed = ended bs })
end_feed reading s =
    when (not s.has_input && (leb (length s.input) 0 || not s.is_open))
      (record s { feed = ended [] })

-- The signal of a child's end, which only a listener that is there hears.
abbrev pub hear : Watcher → Watcher
hear (listening heard) = listening true
hear starting = starting
hear (done r) = done r

-- The listener is made.
abbrev pub listen : Bool → Watcher → Session → Option Session
listen false starting s = some (record s { watcher = listening false })
listen _ _ s = none

-- `waitpid` without hanging, after a signal.
abbrev pub ask : Watcher → Option Status → Session → Option Session
ask (listening true) none s = some (record s { watcher = listening false })
ask (listening true) (some status) s = some (record s { watcher = done (ok status) })
ask _ _ s = none

-- `waitpid` that waits.
abbrev pub reap_child : Bool → Watcher → Option Status → Session → Option Session
reap_child true starting (some status) s = some (record s { watcher = done (ok status) })
reap_child _ _ _ s = none

abbrev pub stop_waiting : Watcher → String → Session → Option Session
stop_waiting (done r) e s = none
stop_waiting starting e s = some (record s { watcher = done (err e) })
stop_waiting (listening heard) e s = some (record s { watcher = done (err e) })

module _ (print : ℤ → String) where
  -- The text for the client.
  abbrev pub farewell_of : Outcome Status → String
  farewell_of (ok (code n)) = "Container exited with code: " ⧺ print n
  farewell_of (ok (signal name)) = "Container exited with signal: " ⧺ name
  farewell_of (ok (unusual report)) = "Container exited with unexpected status: " ⧺ report
  farewell_of (err e) = "Error waiting for container: " ⧺ e
  farewell_of panic = ""

  -- Whether the result of that write is unwrapped.
  abbrev pub must_arrive : Outcome Status → Bool
  must_arrive (ok (code n)) = true
  must_arrive (ok (signal name)) = true
  must_arrive (ok (unusual report)) = false
  must_arrive (err e) = false
  must_arrive panic = true

  -- The branch of the client.
  abbrev pub client_branch : Bool → Stage → Session → Option Session
  client_branch false (ended bs) s =
      some (record s { copy = abort s.copy; ending = some client_left })
  client_branch _ _ s = none

  abbrev pub say : Bool → Outcome Status → Session → Session
  say true r s = record s {
    copy = abort s.copy;
    farewell = codes (farewell_of r);
    ending = some container_left;
  }
  say false r s = record s {
    copy = abort s.copy;
    ending = some (elim (must_arrive r) [ true ↦ broken | false ↦ container_left ]);
  }

  -- The branch of the child; the watcher's own panic is unwrapped. Detached, nobody is told.
  abbrev pub child_branch : Bool → Watcher → Session → Option Session
  child_branch true (done r) s =
      some (record s { copy = abort s.copy; ending = some container_left })
  child_branch false (done panic) s = some (record s { copy = abort s.copy; ending = some broken })
  child_branch false (done (ok status)) s = some (say s.is_open (ok status) s)
  child_branch false (done (err e)) s = some (say s.is_open (err e) s)
  child_branch _ _ s = none

  abbrev pub alive : Option Status → Session → Option Session
  alive none s = some s
  alive (some status) s = none

  -- One step, where it is possible.
  unfoldable pub move : Event → Session → Option Session
  move (prints bs) s = some (record s { copy = record s.copy { output = s.copy.output ++ bs } })
  move (exits status) s =
      alive s.exit_status (record s { exit_status = some status; watcher = hear s.watcher })
  move (sends bs) s = when s.has_input (record s { input = s.input ++ bs })
  move shuts s = some (record s { has_input = false })
  move closes s = some (record s { has_input = false; is_open = false })
  move (capture_read n) s = with_copy (read_output n s.copy.capture s.copy) s
  move capture_write s = with_copy (push s.copy.capture s.copy.pipe s.copy) s
  move capture_ends s = with_copy (end_capture s.copy.capture s.copy) s
  move forward_read s = with_copy (pull s.copy.forward s.copy.pipe s.copy) s
  move forward_write s = with_copy (deliver s.is_open s.copy.forward s.copy) s
  move forward_fails s = with_copy (fail s.is_open s.copy.forward s.copy) s
  move forward_ends s = with_copy (end_forward s.copy.forward s.copy.pipe s.copy.capture s.copy) s
  move (feed_read n) s = read_input n s.feed s
  move (feed_write n) s = type_input n s.feed s
  move feed_ends s = end_feed s.feed s
  move watch s = listen s.detach s.watcher s
  move other_signal s = some (record s { watcher = hear s.watcher })
  move wake s = ask s.watcher s.exit_status s
  move reap s = reap_child s.detach s.watcher s.exit_status s
  move (wait_fails e) s = stop_waiting s.watcher e s
  move on_client s = client_branch s.detach s.feed s
  move on_child s = child_branch s.detach s.watcher s

  -- Nothing follows the end.
  abbrev pub unless_ended : Option Ending → Event → Session → Option Session
  unless_ended none e s = move e s
  unless_ended (some ending) e s = none

  unfoldable pub step : Event → Session → Option Session
  step e s = unless_ended s.ending e s

  abbrev pub then_run : (Session → Option Session) → Option Session → Option Session
  then_run rest none = none
  then_run rest (some s) = rest s

  -- A sequence of steps.
  unfoldable pub run : List Event → Session → Option Session
  run [] s = some s
  run (e ∷ events) s = then_run (run events) (step e s)

-- The session behind the word `CONT`. Detached, no task reads the client.
abbrev pub begin : Bool → Bool → Session
begin detach is_open = record {
  detach = detach;
  copy = record { output = []; capture = reading; pipe = []; forward = reading; received = [] };
  input = [];
  feed = elim detach [ true ↦ ended [] | false ↦ reading ];
  typed = [];
  has_input = is_open;
  is_open = is_open;
  exit_status = none;
  watcher = starting;
  farewell = [];
  ending = none;
}
