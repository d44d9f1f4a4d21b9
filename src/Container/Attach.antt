-- ===== src/Container/Attach.antt =====
-- `do_run` of src/core/container/init.rs, from the set-up of the terminal to the stop behind the
-- session. How the session runs (Session) is a parameter.
pub mod Started
pub mod Unsaid
use rtain.Base.Text.{◌⧺◌}
use rtain.Base.{Bool, true, false, String, ℤ, ◌++◌, Outcome, ok, err, panic}
use rtain.Metas.Types.{ContainerMeta}
use rtain.Msg.{Msg, continue}
use rtain.Container.World.{Host, Journal, World, Handled, root_path, name_id, reply}
use rtain.Container.Task.{Task, ◌>>=◌, ◌>>◌, answer, unwrapped, tell, go_on}
use rtain.Container.Stop.{do_stop}
use rtain.Container.Session.{Session, Ending, client_left, container_left, broken, begin}

-- What the host answers while the session is set up: the two calls of `fcntl`, `AsyncFd`, the log,
-- and the words for the child; and whether the client or the log takes what is written.
pub record Terminal : Type 0 where
  pub get_flags : Outcome (Unit {0})
  pub set_flags : Outcome (Unit {0})
  pub async_fd : Outcome (Unit {0})
  pub open_log : String → Outcome (Unit {0})
  pub write_word : ℤ → String → Outcome (Unit {0})
  pub is_open : Bool

-- A session at its end.
pub record Finished : Type 0 where
  pub last : Session
  pub how : Ending

module _ (host : Host) (journal : Journal) (terminal : Terminal) (await : Session → Finished) where
  -- The bytes that an attached client gets.
  abbrev pub delivered : Bool → Session → World → World
  delivered true s w = w
  delivered false s w = record w { raw = w.raw ++ (s.copy.received ++ s.farewell) }

  abbrev pub stop_if : Bool → ContainerMeta → World → Handled
  stop_if true meta w = do_stop host journal meta.name meta.id w
  stop_if false meta w = (ok tt, w)

  -- A panic ends the task before the stop.
  abbrev pub conclude : ContainerMeta → Bool → Ending → World → Handled
  conclude meta stop_after_exit broken w = (panic, w)
  conclude meta stop_after_exit client_left w = stop_if stop_after_exit meta w
  conclude meta stop_after_exit container_left w = stop_if stop_after_exit meta w

  abbrev pub attend : ContainerMeta → Bool → Bool → Finished → World → Handled
  attend meta detach stop_after_exit end w =
      conclude meta stop_after_exit end.how (delivered detach end.last w)

  -- `Msg::Continue`, whose sending is unwrapped.
  abbrev pub greet : Bool → Bool → Task (Unit {0})
  greet true is_open = answer (ok tt)
  greet false true = reply continue
  greet false false = answer panic

  -- Without a log the child is told to exit, and that is all.
  abbrev pub with_log : ContainerMeta → ℤ → Bool → Bool → Outcome (Unit {0}) → World → Handled
  with_log meta child detach stop_after_exit (ok _) = do
    tell child "CONT" (terminal.write_word child "CONT")
    greet detach terminal.is_open
    attend meta detach stop_after_exit (await (begin detach terminal.is_open))
  with_log meta child detach stop_after_exit (err e) =
      tell child "EXIT" (terminal.write_word child "EXIT")
  with_log meta child detach stop_after_exit panic = answer panic

  unfoldable pub do_run : ContainerMeta → ℤ → Bool → Bool → World → Handled
  do_run meta child detach stop_after_exit = do
    answer (unwrapped terminal.get_flags)
    answer (unwrapped terminal.set_flags)
    answer (unwrapped terminal.async_fd)
    with_log meta child detach stop_after_exit
        (terminal.open_log (root_path ⧺ "/" ⧺ name_id meta.name meta.id ⧺ "/log.log"))
