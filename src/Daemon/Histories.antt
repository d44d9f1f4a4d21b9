-- ===== src/Daemon/Histories.antt =====
-- The daemon over any number of connections and ticks of its timers.
pub mod Durable
use rtain.Base.{
  String, true, false, All, List, [], ◌∷◌, Option, none, some, ◌≡◌, refl, ◌∙◌, sym, ap, ◌⊎◌, inl,
  inr, Outcome, ok, err, panic, Bool-cases, Option-cases, str_eq,
}
use rtain.Base.Bytes.{Bytes}
use rtain.Base.Dict
use rtain.Base.Dict.{get-insert, get-remove, get-update}
use rtain.Metas.Types.{ContainerMeta, InnerState, StorageOperation}
use rtain.Metas.Container
use rtain.Metas.Container.{get_pid, is_running}
use rtain.Metas.Apply.{Clock, apply_operation, insert_meta, remove_meta, modify}
use rtain.Metas.Wal.Disk.{WalDir, write_operation}
use rtain.Metas.Storage.{
  StorageInner, apply_logged, handle_request, get_meta_by_name, snapshot_tick, cleanup_tick,
}
use rtain.Msg.{error}
use rtain.Cmd.{ExecArgs, exec}
use rtain.Container.World.{Journal, World, Handled, reply}
use rtain.Container.Enter.{Entry, exec_prepare, entered, exec_container}
use rtain.Container.Enter.Unattached.{Refused, exec_container-Refused}
use rtain.Container.Attach.{do_run}
use rtain.Container.Moves.{Asked, registers, changes, removes, Moves, stays, asks}
use rtain.Network.BitVec.{BitVec}
use rtain.Daemon.{
  Daemon, Env, dispatch, connect, in_world, Turn, accepts, snapshots, cleans, turn, serve_each,
}
use rtain.Daemon.Moves.{handler-Moves}

-- No stored container has a process.
abbrev pub NoPids : InnerState → Type 0
NoPids s =
    (id : String) (meta : ContainerMeta) → Dict.get id s.by_id ≡ some meta → get_pid meta ≡ none

insert-NoPids :
    (m : ContainerMeta) (s : InnerState) → get_pid m ≡ none → NoPids s → NoPids (insert_meta m s)
unfolding insert_meta
insert-NoPids m s h n id meta found = elim (Bool-cases (str_eq m.id id)) [
  | inl e ↦
      let here : some m ≡ some meta = sym (get-insert m.id id m s.by_id ∙ rw e refl) ∙ found in
      let same : m ≡ meta = cc in rw (sym same) h
  | inr e ↦ n id meta (sym (get-insert m.id id m s.by_id ∙ rw e refl) ∙ found)
]

remove-NoPids : (i : String) (s : InnerState) → NoPids s → NoPids (remove_meta i s)
unfolding remove_meta
remove-NoPids i s n id meta = elim (Option-cases (Dict.get i s.by_id)) [
  | inl gone ↦ rw (gone, remove_meta) (n id meta)
  | inr (m, here) ↦
      rw (here, remove_meta)
        (λ found. elim (Bool-cases (str_eq i id)) [
          | inl e ↦
              let none_left : none ≡ some meta =
                sym (get-remove i id s.by_id ∙ rw e refl) ∙ found in
              absurd (cc)
          | inr e ↦ n id meta (sym (get-remove i id s.by_id ∙ rw e refl) ∙ found)
        ])
]

update-NoPids :
    (i : String) (f : ContainerMeta → ContainerMeta) (s : InnerState)
    → ((m : ContainerMeta) → get_pid (f m) ≡ get_pid m)
    → NoPids s
    → (id : String) (meta : ContainerMeta) → Dict.get id (Dict.update i f s.by_id) ≡ some meta
    → get_pid meta ≡ none
update-NoPids i f s same n id meta found = elim (Bool-cases (str_eq i id)) [
  | inl e ↦ elim (Option-cases (Dict.get id s.by_id)) [
    | inl gone ↦
        let none_there : none ≡ some meta =
          sym (get-update i id f s.by_id ∙ rw e (rw gone refl)) ∙ found in
        absurd (cc)
    | inr (m, here) ↦
        let there : some (f m) ≡ some meta =
          sym (get-update i id f s.by_id ∙ rw e (rw here refl)) ∙ found in
        let changed : f m ≡ meta = cc in rw (sym changed) (same m ∙ n id m here)
  ]
  | inr e ↦ n id meta (sym (get-update i id f s.by_id ∙ rw e refl) ∙ found)
]

apply_operation-NoPids :
    (clock : Clock) {op : StorageOperation} (s : InnerState)
    → Asked op
    → NoPids s
    → NoPids (apply_operation clock op s).1
unfolding apply_operation modify get_pid Container.new
apply_operation-NoPids clock s (registers time id name image command) n = insert-NoPids _ s refl n
apply_operation-NoPids clock s (changes id status) n = update-NoPids id _ s (λ m. refl) n
apply_operation-NoPids clock s (removes id) n = remove-NoPids id s n

handle_request-NoPids :
    (j : Journal) (op : StorageOperation) (s : StorageInner)
    → Asked op
    → NoPids s.state
    → NoPids (handle_request j.codecs j.disk j.now j.clock op s).1.state
unfolding handle_request
handle_request-NoPids j op s a n = after (write_operation j.codecs.operations j.disk j.now op s.wal)
  where
    after :
        (r : Outcome (Unit {0}) × WalDir) → NoPids (apply_logged j.codecs j.clock op r s).1.state
    after (ok _, wal) = apply_operation-NoPids j.clock s.state a n
    after (err e, wal) = n
    after (panic, wal) = n

Moves-NoPids :
    {J : Journal → Type 0} {s t : StorageInner} → Moves J s t → NoPids s.state → NoPids t.state
Moves-NoPids (stays s) n = n
Moves-NoPids (asks j op s allowed a m) n = Moves-NoPids m (handle_request-NoPids j op s a n)

module _ (B : BitVec) where
  turn-NoPids :
      (t : Turn B) (d : Daemon B)
      → NoPids d.world.metas.state
      → NoPids (turn B t d).world.metas.state
  unfolding turn snapshot_tick cleanup_tick
  turn-NoPids (accepts env input) d n =
      Moves-NoPids (handler-Moves {J = λ _. Unit {0}} B env tt tt input d) n
  turn-NoPids (snapshots codecs disk now) d n = n
  turn-NoPids (cleans now) d n = n

  serve_each-NoPids :
      (turns : List (Turn B)) (d : Daemon B)
      → NoPids d.world.metas.state
      → NoPids (serve_each B turns d).world.metas.state
  unfolding serve_each
  serve_each-NoPids [] d n = n
  serve_each-NoPids (t ∷ turns) d n = serve_each-NoPids turns (turn B t d) (turn-NoPids t d n)

  get_meta_by_name-NoPids :
      (name : String) (s : StorageInner) (meta : ContainerMeta)
      → NoPids s.state
      → get_meta_by_name name s ≡ ok (some meta)
      → get_pid meta ≡ none
  unfolding get_meta_by_name
  get_meta_by_name-NoPids name s meta n found =
      elim (Option-cases (Dict.get name s.state.by_name)) [
        | inl missing ↦ absurd (cc)
        | inr (id, named) ↦ elim (Option-cases (Dict.get id s.state.by_id)) [
          | inl lost ↦ absurd (cc)
          | inr (m, here) ↦
              let there = rw (named, get_meta_by_name) at found in
              let same = rw here at there in
              let equal : m ≡ meta = cc in n id meta (here ∙ ap some equal)
        ]
      ]

  -- A daemon that starts without processes on record never enters a container for an exec, after
  -- any connections and ticks, whatever its libraries, its host and its disks have answered: the
  -- client gets an error, or the handler panics. The storage and the host stay as they were.
  pub exec-serve_each :
      (turns : List (Turn B)) (env : Env B) (args : ExecArgs) (d : Daemon B)
      → NoPids d.world.metas.state
      → (dispatch B env (exec args) (connect B (serve_each B turns d))
          ≡ (panic, connect B (serve_each B turns d)))
        ⊎ ((e : String) × (dispatch B env (exec args) (connect B (serve_each B turns d))
              ≡ in_world B
                  (connect B (serve_each B turns d))
                  (reply (error e) (connect B (serve_each B turns d)).world)))
  unfolding dispatch
  exec-serve_each turns env args d n =
      let now = connect B (serve_each B turns d) in
      elim (exec_container-Refused env.entry (do_run env.host env.later env.terminal env.await)
        now.world args
        (λ meta found.
          get_meta_by_name-NoPids args.name now.world.metas meta (serve_each-NoPids turns d n)
            found)) [
              | inl panics ↦ inl (ap (in_world B now) panics)
              | inr (e, told) ↦ inr (e, ap (in_world B now) told)
            ]
