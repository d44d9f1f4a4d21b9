-- ===== src/Container/Moves/Attached.antt =====
-- The moves of the storage that a start, an exec and the session that follows them make.
use rtain.Base.{ℤ, String, Bool, true, false, not, Outcome, ok, err, panic}
use rtain.Metas.Types.{ContainerMeta, running}
use rtain.Metas.Container.{is_running, get_pid}
use rtain.Metas.Storage.{StorageInner}
use rtain.Cmd.{StartArgs, ExecArgs}
use rtain.Container.World.{Host, Journal, World, Handled}
use rtain.Container.Task.{tell, unwrapped}
use rtain.Container.Run.{Word, wait, exit, other}
use rtain.Container.Enter.{
  Entry, ready, start_prepare, process_of, exec_prepare, entered, start_container, exec_container,
}
use rtain.Container.Session.{Session, Ending, client_left, container_left, broken, begin}
use rtain.Container.Attach.{
  Terminal, Finished, delivered, stop_if, conclude, attend, greet, with_log, do_run,
}
use rtain.Container.Moves.{
  Moves, stays, Acts, Chain, Moves-trans, updates-Moves, answered, noting, bound, followed, handled,
  look_up-Moves,
}
use rtain.Container.Moves.Handlers.{if-Moves, do_stop-Moves}

module _ {J : Journal → Type 0} where
  pub telling : (child : ℤ) (word : String) (r : Outcome (Unit {0})) → Chain J (tell child word r)
  telling child word r = followed (noting _) (answered (unwrapped r))

  ready-Moves : (r : Outcome Word) → Acts J (ready r)
  ready-Moves (ok wait) w = stays w.metas
  ready-Moves (ok exit) w = stays w.metas
  ready-Moves (ok (other word)) w = stays w.metas
  ready-Moves (err e) w = stays w.metas
  ready-Moves panic w = stays w.metas

  module _ (host : Host) (journal : Journal) (allowed : J journal) (terminal : Terminal)
      (await : Session → Finished) where
    stop_if-Moves :
        (stop_after_exit : Bool) (meta : ContainerMeta) (w : World)
        → Moves J w.metas (stop_if host journal terminal await stop_after_exit meta w).1.metas
    stop_if-Moves true meta w = do_stop-Moves host journal allowed meta.name meta.id w
    stop_if-Moves false meta w = stays w.metas

    conclude-Moves :
        (meta : ContainerMeta) (stop_after_exit : Bool) (how : Ending)
        → Acts J (conclude host journal terminal await meta stop_after_exit how)
    conclude-Moves meta stop_after_exit broken w = stays w.metas
    conclude-Moves meta stop_after_exit client_left w = stop_if-Moves stop_after_exit meta w
    conclude-Moves meta stop_after_exit container_left w = stop_if-Moves stop_after_exit meta w

    attend-Moves :
        (meta : ContainerMeta) (detach stop_after_exit : Bool) (end : Finished)
        → Acts J (attend host journal terminal await meta detach stop_after_exit end)
    attend-Moves meta true stop_after_exit end w = conclude-Moves meta stop_after_exit end.how w
    attend-Moves meta false stop_after_exit end w =
        conclude-Moves meta stop_after_exit end.how
          (delivered host journal terminal await false end.last w)

    greet-Moves :
        (detach is_open : Bool) → Acts J (greet host journal terminal await detach is_open)
    greet-Moves true is_open w = stays w.metas
    greet-Moves false true w = stays w.metas
    greet-Moves false false w = stays w.metas

    attending :
        (meta : ContainerMeta) (detach stop_after_exit : Bool) (end : Finished)
        → Chain J (attend host journal terminal await meta detach stop_after_exit end)
    attending meta detach stop_after_exit end = record {
      moves = attend-Moves meta detach stop_after_exit end;
    }

    greeting : (detach : Bool) → Chain J (greet host journal terminal await detach terminal.is_open)
    greeting detach = record { moves = greet-Moves detach terminal.is_open }

    logged :
        (meta : ContainerMeta) (child : ℤ) (detach stop_after_exit : Bool) (r : Outcome (Unit {0}))
        → Chain J (with_log host journal terminal await meta child detach stop_after_exit r)
    logged meta child detach stop_after_exit (ok _) =
        followed (telling child "CONT" (terminal.write_word child "CONT")) (
          followed (greeting detach)
            (attending meta detach stop_after_exit (await (begin detach terminal.is_open))))
    logged meta child detach stop_after_exit (err e) =
        telling child "EXIT" (terminal.write_word child "EXIT")
    logged meta child detach stop_after_exit panic = answered panic

    pub do_run-Moves :
        (meta : ContainerMeta) (child : ℤ) (detach stop_after_exit : Bool)
        → Acts J (do_run host journal terminal await meta child detach stop_after_exit)
    unfolding do_run
    do_run-Moves meta child detach stop_after_exit =
        let chain : Chain J (do_run host journal terminal await meta child detach stop_after_exit) =
          followed (answered (unwrapped terminal.get_flags)) (
            followed (answered (unwrapped terminal.set_flags)) (
              followed (answered (unwrapped terminal.async_fd))
                (logged meta child detach stop_after_exit (terminal.open_log _)))) in
        chain.moves

  module _ (entry : Entry) where
    pub preparing :
        (journal : Journal)
        → J journal
        → (meta : ContainerMeta) → Chain J (start_prepare entry journal meta)
    unfolding start_prepare
    preparing journal allowed meta = followed (answered entry.openpty) (
        followed (answered entry.pair) (
          bound (answered (entry.new_process _ meta.command)) (λ child.
            followed (record { moves = ready-Moves (entry.read_word child) })
              (followed
                (handled (answered (entry.add_task _ child)) (λ e.
                  followed (telling child "EXIT" (entry.write_word child "EXIT"))
                    (answered (err _))))
                (followed
                  (handled (record { moves = updates-Moves journal meta.id running allowed })
                    (λ e.
                      followed (telling child "EXIT" (entry.write_word child "EXIT"))
                        (followed (noting _) (answered (err _)))))
                  (answered (ok child)))))))

    pub joining : (meta : ContainerMeta) → Chain J (exec_prepare entry meta)
    unfolding exec_prepare
    joining meta = followed (answered entry.openpty) (
        followed (answered entry.pair) (
          bound (answered (process_of entry (get_pid meta))) (λ pid.
            bound (answered (entry.join_process pid meta.command)) (λ child.
              followed (record { moves = ready-Moves (entry.read_word child) })
                (answered (ok child))))))

    module _ (do_run : ContainerMeta → ℤ → Bool → Bool → World → Handled)
        (runs : (meta : ContainerMeta) (child : ℤ) (detach stop_after_exit : Bool)
          → Acts J (do_run meta child detach stop_after_exit)) where
      entered-Moves :
          (meta : ContainerMeta) (detach stop_after_exit : Bool) (s : StorageInner)
          (r : Outcome ℤ × World)
          → Moves J s r.1.metas
          → Moves J s (entered entry do_run meta detach stop_after_exit r).1.metas
      entered-Moves meta detach stop_after_exit s (ok child, w) m =
          Moves-trans m (runs meta child detach stop_after_exit w)
      entered-Moves meta detach stop_after_exit s (err e, w) m = m
      entered-Moves meta detach stop_after_exit s (panic, w) m = m

      pub start_container-Moves :
          (journal : Journal)
          → J journal
          → (args : StartArgs) → Acts J (start_container entry do_run journal args)
      unfolding start_container
      start_container-Moves journal allowed args =
          look_up-Moves args.name _ _ (λ w. stays w.metas)
            (λ meta w. if-Moves (is_running meta.state.status) w.metas _ _ (stays w.metas) (
              entered-Moves meta args.detach true w.metas (start_prepare entry journal meta w)
                ((preparing journal allowed meta).moves w)))

      pub exec_container-Moves : (args : ExecArgs) → Acts J (exec_container entry do_run args)
      unfolding exec_container
      exec_container-Moves args =
          look_up-Moves args.name _ _ (λ w. stays w.metas)
            (λ meta w. if-Moves (not (is_running meta.state.status)) w.metas _ _ (stays w.metas) (
              entered-Moves meta false false w.metas (exec_prepare entry meta w)
                ((joining meta).moves w)))
