-- ===== src/Container/Enter/Unattached.antt =====
-- What a start or an exec needs of the record of a container.
use rtain.Base.{
  String, Bool, false, Option, none, some, ℤ, ◌≡◌, refl, ◌⊎◌, inl, inr, Outcome, ok, err, panic,
  Bool-cases,
}
use rtain.Metas.Types.{ContainerMeta}
use rtain.Metas.Container.{is_running, get_pid}
use rtain.Metas.Storage.{get_meta_by_name}
use rtain.Msg.{error}
use rtain.Cmd.{ExecArgs}
use rtain.Container.World.{World, Handled, reply}
use rtain.Container.Task.{Task, answer, ◌>>=◌, ◌>>◌}
use rtain.Container.Lifecycle.{get_meta_by_name-cases}
use rtain.Container.Enter.{Entry, process_of, exec_prepare, entered, exec_container}

module _ (entry : Entry) (do_run : ContainerMeta → ℤ → Bool → Bool → World → Handled)
    (w : World) where
  -- The client reads an error, or the daemon panics; nothing else has happened.
  abbrev pub Refused : Handled → Type 0
  Refused h = (h ≡ (panic, w)) ⊎ ((e : String) × (h ≡ reply (error e) w))

  exec_prepare-Refused :
      (meta : ContainerMeta)
      → get_pid meta ≡ none
      → Refused (entered entry do_run meta false false (exec_prepare entry meta w))
  unfolding exec_prepare
  exec_prepare-Refused meta no_pid = after entry.openpty entry.pair (get_pid meta) _ no_pid
    where
      after :
          (r s : Outcome (Unit {0})) (pid : Option ℤ) (next : ℤ → Task ℤ)
          → pid ≡ none
          → Refused (
              entered entry do_run meta false false
                ((answer r >> (answer s >> (answer (process_of entry pid) >>= next))) w))
      after (ok _) (ok _) none next e = inr ("Container is not running", refl)
      after (ok _) (ok _) (some pid) next e = absurd (cc)
      after (ok _) (err m) pid next e = inr (m, refl)
      after (ok _) panic pid next e = inl refl
      after (err m) s pid next e = inr (m, refl)
      after panic s pid next e = inl refl

  -- Where the record of the name, if there is one, has no pid, an exec ends with an error for the
  -- client or, when a lookup or a call of the host panics, with that panic. The storage and the
  -- host stay as they were.
  pub exec_container-Refused :
      (args : ExecArgs)
      → ((meta : ContainerMeta)
          → get_meta_by_name args.name w.metas ≡ ok (some meta)
          → get_pid meta ≡ none)
      → Refused (exec_container entry do_run args w)
  unfolding exec_container
  exec_container-Refused args no_pid = elim (get_meta_by_name-cases args.name w.metas) [
    | inl missing ↦ rw (missing, exec_container) (inr (_, refl))
    | inr (inl (meta, found)) ↦ elim (Bool-cases (is_running meta.state.status)) [
      | inl runs ↦
          rw (found, exec_container) (rw runs (exec_prepare-Refused meta (no_pid meta found)))
      | inr rests ↦ rw (found, exec_container) (rw rests (inr (_, refl)))
    ]
    | inr (inr lost) ↦ rw (lost, exec_container) (inl refl)
  ]
