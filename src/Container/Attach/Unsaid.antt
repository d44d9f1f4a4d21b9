-- ===== src/Container/Attach/Unsaid.antt =====
-- A start whose client is gone when its process ends.
use mathlib.Core.Path.{subst}
use rtain.Base.{
  String, true, false, List, [], Option, none, some, ℤ, ◌≡◌, refl, sym, ap, arith, ok, panic,
}
use rtain.Metas.Types.{ContainerMeta, update_status, running}
use rtain.Metas.Container.{is_running}
use rtain.Metas.Wal.Disk.{WalDir}
use rtain.Metas.Storage.{get_meta_by_id, get_meta_by_name}
use rtain.Cmd.{StartArgs}
use rtain.Container.World.{Host, Journal, World}
use rtain.Container.Enter.{Entry, start_container}
use rtain.Container.Lifecycle.{Logs}
use rtain.Container.Session.{
  Status, done, Session, Event, Ending, broken, on_child, must_arrive, move, step, run, begin,
}
use rtain.Container.Session.Wait.{Then, run-Then, trivial}
use rtain.Container.Attach.{Terminal, Finished, do_run}
use rtain.Container.Attach.Started.{IsReady, Opens, restarted, start_container-panics}

module _ (print : ℤ → String) where
  step-attached :
      (e : Event) (s : Session)
      → Unit {0}
      → s.detach ≡ false
      → Then (λ t. t.detach ≡ false) (step print e s)
  unfolding step move
  step-attached e s _ h = ground arith

  -- The branch of the child, when the client is gone and its text is unwrapped.
  unsaid-broken :
      (status : Status) (s last : Session)
      → s.detach ≡ false
      → s.ending ≡ none
      → s.watcher ≡ done (ok status)
      → s.is_open ≡ false
      → must_arrive print (ok status) ≡ true
      → step print on_child s ≡ some last
      → last.ending ≡ some broken
  unfolding step move
  unsaid-broken status s last attached goes_on waited gone unwrapped h =
      let first = rw (attached, goes_on, waited, gone, unwrapped) at h in sym (ap ending_of first)
    where
      ending_of : Option Session → Option Ending
      ending_of none = none
      ending_of (some t) = t.ending

  module _ (host : Host) (later : Journal) (terminal : Terminal) (await : Session → Finished)
      (entry : Entry) (journal : Journal) (args : StartArgs) (meta : ContainerMeta) (child : ℤ)
      (w : World) (wal : WalDir) (events : List Event) (status : Status) (s : Session) where
    -- When a process has ended with a code or a signal, its client is gone, and the branch of the
    -- child ends the session, the task of an attached start panics before its stop, and the record
    -- keeps the status `Running`.
    pub start_container-unsaid :
        args.detach ≡ false
        → run print events (begin false true) ≡ some s
        → s.ending ≡ none
        → s.watcher ≡ done (ok status)
        → s.is_open ≡ false
        → must_arrive print (ok status) ≡ true
        → step print on_child s ≡ some (await (begin false true)).last
        → (await (begin false true)).last.ending ≡ some (await (begin false true)).how
        → get_meta_by_name args.name w.metas ≡ ok (some meta)
        → get_meta_by_id meta.id w.metas ≡ some meta
        → is_running meta.state.status ≡ false
        → IsReady entry meta child
        → Opens terminal meta child
        → terminal.is_open ≡ true
        → Logs journal (update_status meta.id running) w wal
        → (w' : World) × (start_container entry (do_run host later terminal await) journal args w
            ≡ (panic, w'))
          × (get_meta_by_id meta.id w'.metas ≡ some (restarted (journal.clock []) meta))
    start_container-unsaid attached runs goes_on waited gone unwrapped ends how found here rests
          ready opens reads logged =
        let kept : s.detach ≡ false =
          run-Then print (λ t. t.detach ≡ false) (λ e. Unit {0}) step-attached events
            (begin false true) s (trivial events) refl runs in
        let last = (await (begin false true)).last in
        let broke = unsaid-broken status s last kept goes_on waited gone unwrapped ends in
        let same : (await (begin false true)).how ≡ broken = cc in
        start_container-panics host later terminal await entry journal args meta child w wal wal
          found here rests ready opens reads logged
          (subst (λ d. (await (begin d true)).how ≡ broken) (sym attached) same)
