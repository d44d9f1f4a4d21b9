-- ===== src/Container/Lifecycle.antt =====
-- What a lookup finds, and what `stop_container` does to the metadata.
use mathlib.Core.Path.{subst}
use rtain.Base.{
  ℕ, String, [], ◌∷◌, ◌++◌, none, some, ap, ◌∙◌, ◌≡◌, ◌≢◌, refl, sym, ◌⊎◌, inl, inr, Outcome, ok,
  err, panic, eq_refl, Option-cases,
}
use rtain.Base.Dict
use rtain.Base.Dict.{get-remove, get-update}
use rtain.Metas.Types.{ContainerMeta, InnerState, StorageOperation, update_status, exited}
use rtain.Metas.Apply.{apply_operation, modify, stamp}
use rtain.Metas.Apply.Coherence.{IsCoherent}
use rtain.Metas.Wal.Disk.{WalDir, write_operation}
use rtain.Metas.Storage.{
  StorageInner, apply_logged, handle_request, get_meta_by_id, get_meta_by_name,
}
use rtain.Msg.{Msg, ok_content}
use rtain.Cmd.{StopArgs}
use rtain.Base.Text.{◌⧺◌}
use rtain.Container.Task.{go_on}
use rtain.Container.World.{
  Handled, Host, Journal, World, reply, call, kill_cgroup, name_id, execute, updates,
}
use rtain.Container.Stop.{mark_stopped, do_stop, stop_container}

-- What a lookup answers.
pub get_meta_by_name-cases :
    (name : String) (m : StorageInner)
    → (get_meta_by_name name m ≡ ok none)
      ⊎ (((meta : ContainerMeta) × (get_meta_by_name name m ≡ ok (some meta)))
          ⊎ (get_meta_by_name name m ≡ panic))
unfolding get_meta_by_name
get_meta_by_name-cases name m = elim (Option-cases (Dict.get name m.state.by_name)) [
  | inl missing ↦ inl (rw (missing, get_meta_by_name) refl)
  | inr (id, named) ↦ elim (Option-cases (Dict.get id m.state.by_id)) [
    | inl lost ↦ inr (inr (rw (named, get_meta_by_name) (rw (lost, get_meta_by_name) refl)))
    | inr (meta, here) ↦
        inr (inl (meta, rw (named, get_meta_by_name) (rw (here, get_meta_by_name) refl)))
  ]
]

-- A coherent state never panics at a lookup: a name gives a container of that name, stored under
-- its own id, or nothing.
pub get_meta_by_name-found :
    (name : String) (s : StorageInner)
    → IsCoherent s.state
    → (get_meta_by_name name s ≡ ok none)
      ⊎ ((meta : ContainerMeta) × (get_meta_by_name name s ≡ ok (some meta))
          × (meta.name ≡ name)
          × (get_meta_by_id meta.id s ≡ some meta))
unfolding get_meta_by_name get_meta_by_id
get_meta_by_name-found name s c = elim (Option-cases (Dict.get name s.state.by_name)) [
  | inl missing ↦ inl (rw (missing, get_meta_by_name) refl)
  | inr (id, at_name) ↦
      let (meta, at_id, named) = c.named name id at_name in
      let key = c.keyed id meta at_id in
      inr (
        meta,
        rw (at_name, get_meta_by_name) (rw (at_id, get_meta_by_name) refl),
        named,
        subst (λ k. Dict.get k s.state.by_id ≡ some meta) (sym key) at_id,
      )
]

-- A log that takes the operation.
abbrev pub Logs : Journal → StorageOperation → World → WalDir → Type 0
Logs j op w wal = write_operation j.codecs.operations j.disk j.now op w.metas.wal ≡ (ok tt, wal)

pub execute-state :
    (j : Journal) (op : StorageOperation) (w : World) (wal : WalDir)
    → Logs j op w wal
    → (execute j op w).1.metas.state ≡ (apply_operation j.clock op w.metas.state).1
unfolding execute handle_request
execute-state j op w wal e = rw e refl

-- What the log answers to an operation.
abbrev pub log_answer : Journal → StorageOperation → World → Outcome (Unit {0})
log_answer j op w = (write_operation j.codecs.operations j.disk j.now op w.metas.wal).0

-- A log that does not take the operation keeps the memory as it is.
pub execute-refused :
    (j : Journal) (op : StorageOperation) (w : World)
    → log_answer j op w ≢ ok tt
    → (execute j op w).1.metas.state ≡ w.metas.state
unfolding execute handle_request
execute-refused j op w = after (write_operation j.codecs.operations j.disk j.now op w.metas.wal)
  where
    after :
        (r : Outcome (Unit {0}) × WalDir)
        → r.0 ≢ ok tt
        → (apply_logged j.codecs j.clock op r w.metas).1.state ≡ w.metas.state
    after (ok _, wal) h = absurd (h refl)
    after (err e, wal) h = refl
    after (panic, wal) h = refl

-- The container with the status `Exited`.
abbrev pub stopped : ℕ → ContainerMeta → ContainerMeta
stopped time meta = stamp (λ e. record e { state = record e.state { status = exited } }) time meta

pub update-found :
    (id : String) (change : ContainerMeta → ContainerMeta) (time : ℕ) (s : InnerState)
    (meta : ContainerMeta)
    → Dict.get id s.by_id ≡ some meta
    → Dict.get id (modify id change time s).1.by_id ≡ some (stamp change time meta)
unfolding modify
update-found id change time s meta e =
    rw (get-update id id (stamp change time) s.by_id) (rw (eq_refl id) (rw e refl))

module _ (host : Host) (journal : Journal) (w : World) (meta : ContainerMeta) where
  module _ (args : StopArgs) (found : get_meta_by_name args.name w.metas ≡ ok (some meta)) where
    -- The world when the processes of the container have been told to end.
    abbrev killed : World
    killed = call (kill_cgroup (name_id meta.name meta.id)) w

    -- What the client reads after a stop, whether the container was stopped or not.
    abbrev pub confirmation : Msg
    confirmation = ok_content ("Container " ⧺ args.name ⧺ " stoped")

    stop_container-eq :
        (o : Outcome (Unit {0}))
        → host.kill (name_id meta.name meta.id) ≡ o
        → stop_container host journal args w
          ≡ go_on (λ _. reply confirmation) (mark_stopped host journal meta.id o killed)
    unfolding stop_container do_stop
    stop_container-eq o e = rw (found, stop_container) (rw e refl)

    -- A container that is stopped has the status `Exited`, and the client gets a confirmation.
    pub stop_container-exited :
        (wal : WalDir)
        → get_meta_by_id meta.id w.metas ≡ some meta
        → host.kill (name_id meta.name meta.id) ≡ ok tt
        → Logs journal (update_status meta.id exited) killed wal
        → (get_meta_by_id meta.id (stop_container host journal args w).1.metas
            ≡ some (stopped (journal.clock []) meta))
          × ((stop_container host journal args w).1.sent ≡ w.sent ++ confirmation ∷ [])
    unfolding get_meta_by_id updates execute apply_operation
    stop_container-exited wal here dies logged =
        let state = execute-state journal (update_status meta.id exited) killed wal logged in
        let entry =
          update-found meta.id (λ e. record e { state = record e.state { status = exited } })
            (journal.clock []) w.metas.state meta here in
        rw (stop_container-eq (ok tt) dies) (rw state entry, refl)

    -- When its processes cannot be told to end, the metadata stays as it is; the client gets the same
    -- confirmation.
    pub stop_container-kill_fails :
        (e : String)
        → host.kill (name_id meta.name meta.id) ≡ err e
        → (stop_container host journal args w).1
          ≡ record killed { sent = w.sent ++ confirmation ∷ [] }
    stop_container-kill_fails e fails = rw (stop_container-eq (err e) fails) refl

    -- How a stop ends when the processes have been told to end.
    abbrev pub Marked : Handled → Type 0
    Marked r =
        ((log_answer journal (update_status meta.id exited) killed ≡ ok tt)
          × (get_meta_by_id meta.id r.1.metas ≡ some (stopped (journal.clock []) meta)))
        ⊎ ((log_answer journal (update_status meta.id exited) killed ≢ ok tt)
            × (r.1.metas.state ≡ w.metas.state))

    stop_container-Marked :
        get_meta_by_id meta.id w.metas ≡ some meta
        → host.kill (name_id meta.name meta.id) ≡ ok tt
        → Marked (stop_container host journal args w)
    unfolding updates
    stop_container-Marked here dies =
        split
          (write_operation journal.codecs.operations journal.disk journal.now
            (update_status meta.id exited) w.metas.wal)
          refl
      where
        refused :
            log_answer journal (update_status meta.id exited) killed ≢ ok tt
            → (stop_container host journal args w).1.metas.state ≡ w.metas.state
        refused h =
            ap (λ r. r.1.metas.state) (stop_container-eq (ok tt) dies)
            ∙ execute-refused journal (update_status meta.id exited) killed h

        split :
            (r : Outcome (Unit {0}) × WalDir)
            → write_operation journal.codecs.operations journal.disk journal.now
                (update_status meta.id exited)
                w.metas.wal
              ≡ r
            → Marked (stop_container host journal args w)
        split (ok _, wal) e = inl (ap (λ r. r.0) e, (stop_container-exited wal here dies e).0)
        split (err m, wal) e =
            let no : log_answer journal (update_status meta.id exited) killed ≢ ok tt =
              λ p. absurd (cc (ap (λ r. r.0) e)) in
            inr (no, refused no)
        split (panic, wal) e =
            let no : log_answer journal (update_status meta.id exited) killed ≢ ok tt =
              λ p. absurd (cc (ap (λ r. r.0) e)) in
            inr (no, refused no)

    -- How a stop of a container that is there ends. When the call to end its processes comes back,
    -- the client gets a confirmation in any case, also where the processes could not be told to
    -- end, with the metadata as it was, or the log has not taken the change, with the containers as
    -- they were; where both have gone well the status is `Exited`. A panic of the call ends the
    -- task without an answer.
    pub stop_container-outcome :
        get_meta_by_id meta.id w.metas ≡ some meta
        → ((host.kill (name_id meta.name meta.id) ≡ panic)
            × (stop_container host journal args w ≡ (panic, killed)))
          ⊎ (((stop_container host journal args w).0 ≡ ok tt)
              × ((stop_container host journal args w).1.sent ≡ w.sent ++ confirmation ∷ [])
              × (((host.kill (name_id meta.name meta.id) ≡ ok tt)
                    × Marked (stop_container host journal args w))
                  ⊎ ((e : String) × (host.kill (name_id meta.name meta.id) ≡ err e)
                      × ((stop_container host journal args w).1.metas ≡ w.metas))))
    unfolding updates execute
    stop_container-outcome here = split (host.kill (name_id meta.name meta.id)) refl
      where
        split :
            (o : Outcome (Unit {0}))
            → host.kill (name_id meta.name meta.id) ≡ o
            → ((host.kill (name_id meta.name meta.id) ≡ panic)
                × (stop_container host journal args w ≡ (panic, killed)))
              ⊎ (((stop_container host journal args w).0 ≡ ok tt)
                  × ((stop_container host journal args w).1.sent ≡ w.sent ++ confirmation ∷ [])
                  × (((host.kill (name_id meta.name meta.id) ≡ ok tt)
                        × Marked (stop_container host journal args w))
                      ⊎ ((e : String) × (host.kill (name_id meta.name meta.id) ≡ err e)
                          × ((stop_container host journal args w).1.metas ≡ w.metas))))
        split (ok _) e =
            let end = stop_container-eq (ok tt) e in
            inr (ap (λ r. r.0) end, ap (λ r. r.1.sent) end, inl (e, stop_container-Marked here e))
        split (err m) e =
            let end = stop_container-eq (err m) e in
            inr (ap (λ r. r.0) end, ap (λ r. r.1.sent) end, inr (m, e, ap (λ r. r.1.metas) end))
        split panic e = inl (e, stop_container-eq panic e)
