-- ===== src/Container/Attach/Started.antt =====
-- A container from its start to the end of its session.
use rtain.Base.{
  ℕ, String, Bool, true, false, [], ◌∷◌, ◌++◌, some, ℤ, ◌≡◌, refl, ap, ◌∙◌, ok, panic,
  if◌then◌else◌,
}
use rtain.Base.Text.{◌⧺◌}
use rtain.Metas.Types.{ContainerMeta, ContainerStatus, update_status, running, exited}
use rtain.Metas.Container.{is_running}
use rtain.Metas.Apply.{apply_operation, modify, stamp}
use rtain.Metas.Wal.Disk.{WalDir, write_operation}
use rtain.Metas.Storage.{handle_request, get_meta_by_id, get_meta_by_name}
use rtain.Msg.{continue}
use rtain.Cmd.{StartArgs}
use rtain.Container.World.{
  Host, Journal, World, Handled, execute, updates, root_path, name_id, write_word, kill_cgroup,
  call,
}
use rtain.Container.Run.{wait}
use rtain.Container.Stop.{mark_stopped, do_stop}
use rtain.Container.Enter.{Entry, start_prepare, start_container}
use rtain.Container.Lifecycle.{Logs, stopped, update-found}
use rtain.Container.Session.{Session, Ending, client_left, container_left, broken, begin}
use rtain.Container.Attach.{Terminal, Finished, do_run, delivered, conclude, attend}

-- A record with a new status.
abbrev with_status : ContainerStatus → ContainerMeta → ContainerMeta
with_status status e = record e { state = record e.state { status = status } }

-- The container with the status `Running`.
abbrev pub restarted : ℕ → ContainerMeta → ContainerMeta
restarted time meta = stamp (with_status running) time meta

-- The world after a change of a status that is in the log.
abbrev changed : Journal → String → ContainerStatus → WalDir → World → World
changed j id status wal w = record w {
  metas = record w.metas {
    wal = wal;
    state = (modify id (with_status status) (j.clock []) w.metas.state).1;
  };
}

updates-eq :
    (j : Journal) (id : String) (status : ContainerStatus) (wal : WalDir) (w : World)
    → Logs j (update_status id status) w wal
    → updates j id status w ≡ (ok tt, changed j id status wal w)
unfolding updates execute handle_request apply_operation modify
updates-eq j id status wal w logged = rw logged refl

-- A host on which the process of a container can be made.
pub record IsReady (entry : Entry) (meta : ContainerMeta) (child : ℤ) : Type 0 where
  pub terminal : entry.openpty ≡ ok tt
  pub sockets : entry.pair ≡ ok tt
  pub cloned :
      entry.new_process (root_path ⧺ "/" ⧺ name_id meta.name meta.id ⧺ "/mnt") meta.command
      ≡ ok child
  pub waits : entry.read_word child ≡ ok wait
  pub grouped : entry.add_task (name_id meta.name meta.id) child ≡ ok tt

-- A host on which a session can be set up.
pub record Opens (terminal : Terminal) (meta : ContainerMeta) (child : ℤ) : Type 0 where
  pub flags : terminal.get_flags ≡ ok tt
  pub flagged : terminal.set_flags ≡ ok tt
  pub polled : terminal.async_fd ≡ ok tt
  pub log : terminal.open_log (root_path ⧺ "/" ⧺ name_id meta.name meta.id ⧺ "/log.log") ≡ ok tt
  pub continued : terminal.write_word child "CONT" ≡ ok tt

abbrev pub Leaves : Ending → Type 0
Leaves client_left = Unit {0}
Leaves container_left = Unit {0}
Leaves broken = ⊥

start_prepare-eq :
    (entry : Entry) (journal : Journal) (meta : ContainerMeta) (child : ℤ) (w w' : World)
    → IsReady entry meta child
    → updates journal meta.id running w ≡ (ok tt, w')
    → start_prepare entry journal meta w ≡ (ok child, w')
unfolding start_prepare
start_prepare-eq entry journal meta child w w' r e =
    rw (r.terminal, start_prepare)
      (rw r.sockets (rw r.cloned (rw r.waits (rw r.grouped (rw e refl)))))

-- The world when the child has been told to go on and an attached client has been greeted.
abbrev greeted : Bool → ℤ → World → World
greeted true child w = call (write_word child "CONT") w
greeted false child w = record (call (write_word child "CONT") w) { sent = w.sent ++ continue ∷ [] }

module _ (host : Host) (later : Journal) (terminal : Terminal) (await : Session → Finished) where
  do_run-eq :
      (meta : ContainerMeta) (child : ℤ) (detach stop_after_exit : Bool) (w : World)
      → Opens terminal meta child
      → terminal.is_open ≡ true
      → do_run host later terminal await meta child detach stop_after_exit w
        ≡ attend host later terminal await meta detach stop_after_exit
            (await (begin detach true))
            (greeted detach child w)
  unfolding do_run
  do_run-eq meta child true stop w o reads =
      rw (o.flags, do_run) (rw o.flagged (rw o.polled (rw o.log (rw o.continued (rw reads refl)))))
  do_run-eq meta child false stop w o reads =
      rw (o.flags, do_run) (rw o.flagged (rw o.polled (rw o.log (rw o.continued (rw reads refl)))))

  module _ (entry : Entry) (journal : Journal) (args : StartArgs) (meta : ContainerMeta) (child : ℤ)
      (w : World) (wal wal' : WalDir) where
    -- The start, up to the session.
    start_container-eq :
        get_meta_by_name args.name w.metas ≡ ok (some meta)
        → is_running meta.state.status ≡ false
        → IsReady entry meta child
        → Opens terminal meta child
        → terminal.is_open ≡ true
        → Logs journal (update_status meta.id running) w wal
        → start_container entry (do_run host later terminal await) journal args w
          ≡ attend host later terminal await meta args.detach true
              (await (begin args.detach true))
              (greeted args.detach child (changed journal meta.id running wal w))
    unfolding start_container
    start_container-eq found rests ready opens reads logged =
        let w1 = changed journal meta.id running wal w in
        let prepared =
          start_prepare-eq entry journal meta child w w1 ready
            (updates-eq journal meta.id running wal w logged) in
        rw (found, start_container)
          (rw rests (rw prepared (do_run-eq meta child args.detach true w1 opens reads)))

    abbrev behind : Bool → Session → World → World
    behind detach last w1 =
        delivered host later terminal await detach last (greeted detach child w1)

    behind_parts :
        (detach : Bool) (last : Session) (w1 : World)
        → ((behind detach last w1).metas ≡ w1.metas)
          × ((behind detach last w1).sent ≡ (if detach then w1.sent else w1.sent ++ continue ∷ []))
          × ((behind detach last w1).raw
              ≡ (if detach then w1.raw else w1.raw ++ (last.copy.received ++ last.farewell)))
    behind_parts true last w1 = (refl, refl, refl)
    behind_parts false last w1 = (refl, refl, refl)

    abbrev killed : World → World
    killed w1 = call (kill_cgroup (name_id meta.name meta.id)) w1

    ended :
        (w1 : World)
        → Logs later (update_status meta.id exited) w1 wal'
        → ◌≡◌ {A = Handled}
            (mark_stopped host later meta.id (ok tt) (killed w1))
            (ok tt, changed later meta.id exited wal' (killed w1))
    ended w1 logged =
        ap (λ r. (ok tt, r.1)) (updates-eq later meta.id exited wal' (killed w1) logged)

    -- The stop behind the session.
    conclude-eq :
        (how : Ending) (w1 : World)
        → Leaves how
        → host.kill (name_id meta.name meta.id) ≡ ok tt
        → Logs later (update_status meta.id exited) w1 wal'
        → conclude host later terminal await meta true how w1
          ≡ (ok tt, changed later meta.id exited wal' (killed w1))
    unfolding do_stop
    conclude-eq client_left w1 l dies logged = rw dies (ended w1 logged)
    conclude-eq container_left w1 l dies logged = rw dies (ended w1 logged)
    conclude-eq broken w1 l dies logged = absurd l

    -- The record after the start and the stop.
    twice-found :
        (w1 : World)
        → get_meta_by_id meta.id w.metas ≡ some meta
        → w1.metas.state ≡ (changed journal meta.id running wal w).metas.state
        → get_meta_by_id meta.id (changed later meta.id exited wal' w1).metas
          ≡ some (stopped (later.clock []) (restarted (journal.clock []) meta))
    unfolding get_meta_by_id
    twice-found w1 here same =
        update-found meta.id (with_status exited) (later.clock []) w1.metas.state
          (restarted (journal.clock []) meta)
          (rw same
            (update-found meta.id (with_status running) (journal.clock []) w.metas.state meta here))

    -- When the host and the log take it, a start leads from a session that ends without a panic to
    -- a record with the status `Exited`. An attached client gets `Continue` and then the output
    -- that has arrived, with the text behind it; a detached one gets nothing.
    pub start_container-exited :
        get_meta_by_name args.name w.metas ≡ ok (some meta)
        → get_meta_by_id meta.id w.metas ≡ some meta
        → is_running meta.state.status ≡ false
        → IsReady entry meta child
        → Opens terminal meta child
        → terminal.is_open ≡ true
        → Logs journal (update_status meta.id running) w wal
        → write_operation later.codecs.operations later.disk later.now
            (update_status meta.id exited)
            wal
          ≡ (ok tt, wal')
        → host.kill (name_id meta.name meta.id) ≡ ok tt
        → Leaves (await (begin args.detach true)).how
        → (w' : World) × (start_container entry (do_run host later terminal await) journal args w
            ≡ (ok tt, w'))
          × (get_meta_by_id meta.id w'.metas
              ≡ some (stopped (later.clock []) (restarted (journal.clock []) meta)))
          × (w'.sent ≡ (if args.detach then w.sent else w.sent ++ continue ∷ []))
          × (w'.raw ≡ (
              if args.detach
              then w.raw
              else w.raw
                ++ ((await (begin args.detach true)).last.copy.received
                    ++ (await (begin args.detach true)).last.farewell)))
    start_container-exited found here rests ready opens reads logged again dies leaves =
        let end = await (begin args.detach true) in
        let w2 = behind args.detach end.last (changed journal meta.id running wal w) in
        let (metas, sent, raw) =
          behind_parts args.detach end.last (changed journal meta.id running wal w) in
        (
          changed later meta.id exited wal' (killed w2),
          start_container-eq found rests ready opens reads logged
              ∙ conclude-eq end.how w2 leaves dies (rw metas again),
          twice-found (killed w2) here (ap (λ m. m.state) metas),
          sent,
          raw,
        )

    -- When the session ends in a panic, as it does when the client is gone and the text about the
    -- end of the process cannot be written, the record keeps the status `Running`.
    pub start_container-panics :
        get_meta_by_name args.name w.metas ≡ ok (some meta)
        → get_meta_by_id meta.id w.metas ≡ some meta
        → is_running meta.state.status ≡ false
        → IsReady entry meta child
        → Opens terminal meta child
        → terminal.is_open ≡ true
        → Logs journal (update_status meta.id running) w wal
        → (await (begin args.detach true)).how ≡ broken
        → (w' : World) × (start_container entry (do_run host later terminal await) journal args w
            ≡ (panic, w'))
          × (get_meta_by_id meta.id w'.metas ≡ some (restarted (journal.clock []) meta))
    unfolding get_meta_by_id
    start_container-panics found here rests ready opens reads logged breaks =
        let end = await (begin args.detach true) in
        let w1 = changed journal meta.id running wal w in
        let (metas, _, _) = behind_parts args.detach end.last w1 in
        (
          behind args.detach end.last w1,
          start_container-eq found rests ready opens reads logged ∙ rw breaks refl,
          rw metas (
              update-found meta.id (with_status running) (journal.clock []) w.metas.state meta
                here),
        )
