-- ===== src/Front/Attached.antt =====
-- An attached start, from the daemon to the client's terminal.
use rtain.Base.{String, true, false, [], ◌∷◌, ◌++◌, some, ℤ, ◌≡◌, refl, ap, ◌∙◌, Outcome, ok}
use rtain.Base.Bytes.{Bytes, Codec, IsLawful}
use rtain.Metas.Types.{ContainerMeta, update_status, running, exited}
use rtain.Metas.Container.{is_running}
use rtain.Metas.Wal.Disk.{WalDir, write_operation}
use rtain.Metas.Storage.{get_meta_by_id, get_meta_by_name}
use rtain.Msg.{Msg, continue}
use rtain.Msg.Frames.{frame, send_each}
use rtain.Cmd.{StartArgs, start}
use rtain.Container.World.{Host, Journal, World, name_id}
use rtain.Container.Enter.{Entry, start_container}
use rtain.Container.Lifecycle.{Logs}
use rtain.Container.Session.{Session, begin}
use rtain.Container.Attach.{Terminal, Finished, do_run}
use rtain.Container.Attach.Started.{IsReady, Opens, Leaves, start_container-exited}
use rtain.Front.{copied, client, client_do_run}
use rtain.Front.Answers.{sink, send_each-one, client_do_run-copies}

module _ (codec : Codec Msg) (debug : Outcome Msg → String) (host : Host) (later : Journal)
    (terminal : Terminal) (await : Session → Finished) (entry : Entry) (journal : Journal)
    (args : StartArgs) (meta : ContainerMeta) (child : ℤ) (w : World) (wal wal' : WalDir)
    (bytes : Bytes) where
  -- The whole way of an attached start over a lawful serializer, when the host and the log take it
  -- and the session ends without a panic: the client prints exactly the output that has arrived
  -- and the text behind it, whatever its length, and no message.
  pub start-shown :
      IsLawful codec
      → codec.serialize continue ≡ ok bytes
      → args.detach ≡ false
      → w.sent ≡ []
      → w.raw ≡ []
      → get_meta_by_name args.name w.metas ≡ ok (some meta)
      → get_meta_by_id meta.id w.metas ≡ some meta
      → is_running meta.state.status ≡ false
      → IsReady entry meta child
      → Opens terminal meta child
      → terminal.is_open ≡ true
      → Logs journal (update_status meta.id running) w wal
      → write_operation later.codecs.operations later.disk later.now
          (update_status meta.id exited)
          wal
        ≡ (ok tt, wal')
      → host.kill (name_id meta.name meta.id) ≡ ok tt
      → Leaves (await (begin args.detach true)).how
      → (w' : World) × (reply : Bytes) × (start_container entry
            (do_run host later terminal await)
            journal
            args
            w
          ≡ (ok tt, w'))
        × (send_each codec w'.sent (sink []) ≡ (ok tt, sink reply))
        × (client codec debug (start args) (reply ++ w'.raw)
            ≡ ok (
                copied (
                  (await (begin args.detach true)).last.copy.received
                  ++ (await (begin args.detach true)).last.farewell)
                ∷ []))
  unfolding client
  start-shown lawful e attached unsent unraw found here rests ready opens reads logged again dies
        leaves =
      let (w', started, _, sent, raw) =
        start_container-exited host later terminal await entry journal args meta child w wal wal'
          found here rests ready opens reads logged again dies leaves in
      let end = (await (begin args.detach true)).last in
      let shown = end.copy.received ++ end.farewell in
      let said : w'.sent ≡ continue ∷ [] = sent ∙ rw attached (rw unsent refl) in
      let output : w'.raw ≡ shown = raw ∙ rw attached (rw unraw refl) in
      (
        w',
        frame bytes,
        started,
        rw said (send_each-one codec debug lawful continue bytes e),
        rw output (
            ap (λ detach. client_do_run codec debug detach (frame bytes ++ shown)) attached
            ∙ client_do_run-copies codec debug bytes shown lawful e),
      )
