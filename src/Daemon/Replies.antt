-- ===== src/Daemon/Replies.antt =====
-- What a client reads of a command with one answer.
use mathlib.Core.Path.{subst}
use rtain.Base.{
  ℕ, String, List, [], ◌∷◌, ◌++◌, append-nil, Option, none, some, ◌≡◌, refl, sym, ap, ◌∙◌, ◌⊎◌, inl,
  inr, Bool-cases, Outcome, ok, err, panic, ℤ, str_eq,
}
use rtain.Base.Dict
use rtain.Base.Dict.{Dict}
use rtain.Base.Bytes.{Bytes}
use rtain.Base.Words.{Profile}
use rtain.Base.Text.{◌⧺◌}
use rtain.Metas.Container.{is_running}
use rtain.Metas.Storage.{get_all_metas}
use rtain.Msg.{Msg, ok_content, error}
use rtain.Cmd.{
  StopArgs, RmArgs, PsArgs, LogsArgs, CommitArgs, NetCreateArgs, Commands, run, start, exec, stop,
  rm, ps, logs, commit, network, create,
}
use rtain.Container.World.{
  Host, Journal, World, reply, call, kill_cgroup, name_id, tar, root_path, execute, updates,
}
use rtain.Container.Lifecycle.{get_meta_by_name-cases}
use rtain.Container.Task.{go_on}
use rtain.Container.Stop.{mark_stopped, do_stop, stop_container}
use rtain.Container.Remove.{clean_up, remove_container}
use rtain.Container.CleanUp.{clean_up-sent}
use rtain.Container.Report.{
  listed, list_containers, shown, show_logs, archived, commit_container, header, rows,
}
use rtain.Network.BitVec.{BitVec}
use rtain.Network.Ipam.{Ipam, Answer, add_subnet}
use rtain.Network.Bridge.{Network, Netlink, Links}
use rtain.Network.Networks.{Networks, after_driver, after_gateway, after_subnet, create_network}
use rtain.Network.Networks.Creation.{save-keeps}
use rtain.Daemon.{Daemon, Env, dispatch, connect, replies}

-- Nothing, or one message with a result or an error.
abbrev pub IsAnswer : List Msg → Type 0
IsAnswer msgs =
    (msgs ≡ [])
    ⊎ (((cont : String) × (msgs ≡ ok_content cont ∷ [])) ⊎ ((e : String) × (msgs ≡ error e ∷ [])))

-- The commands with one answer.
abbrev pub Answered : Commands → Type 0
Answered (run args) = ⊥
Answered (start args) = ⊥
Answered (exec args) = ⊥
Answered _ = Unit {0}

module _ (w : World) (fresh : w.sent ≡ []) where
  reply-ok :
      (cont : String) (w' : World) → w'.sent ≡ [] → IsAnswer (reply (ok_content cont) w').1.sent
  reply-ok cont w' h = inr (inl (cont, ap (λ l. l ++ ok_content cont ∷ []) h))

  reply-error : (e : String) (w' : World) → w'.sent ≡ [] → IsAnswer (reply (error e) w').1.sent
  reply-error e w' h = inr (inr (e, ap (λ l. l ++ error e ∷ []) h))

  -- A confirmation behind a step that says nothing; a panic in it says nothing at all.
  then-ok :
      (cont : String) (r : Outcome (Unit {0}) × World)
      → r.1.sent ≡ []
      → IsAnswer (go_on (λ _. reply (ok_content cont)) r).1.sent
  then-ok cont (ok _, w') h = reply-ok cont w' h
  then-ok cont (err e, w') h = inl h
  then-ok cont (panic, w') h = inl h

  do_stop-sent :
      (host : Host) (journal : Journal) (name id : String)
      → (do_stop host journal name id w).1.sent ≡ []
  unfolding do_stop updates execute
  do_stop-sent host journal name id = after (host.kill (name_id name id))
    where
      after :
          (o : Outcome (Unit {0}))
          → (mark_stopped host journal id o (call (kill_cgroup (name_id name id)) w)).1.sent ≡ []
      after (ok _) = fresh
      after (err e) = fresh
      after panic = fresh

  stop_container-IsAnswer :
      (host : Host) (journal : Journal) (args : StopArgs)
      → IsAnswer (stop_container host journal args w).1.sent
  unfolding stop_container
  stop_container-IsAnswer host journal args = elim (get_meta_by_name-cases args.name w.metas) [
    | inl h ↦ rw (h, stop_container) (reply-error _ w fresh)
    | inr (inl (meta, h)) ↦
        rw (h, stop_container)
          (then-ok _ (do_stop host journal meta.name meta.id w)
            (do_stop-sent host journal meta.name meta.id))
    | inr (inr h) ↦ rw (h, stop_container) (inl fresh)
  ]

  remove_container-IsAnswer :
      (host : Host) (journal : Journal) (args : RmArgs)
      → IsAnswer (remove_container host journal args w).1.sent
  unfolding remove_container
  remove_container-IsAnswer host journal args = elim (get_meta_by_name-cases args.name w.metas) [
    | inl h ↦ rw (h, remove_container) (inl fresh)
    | inr (inl (meta, h)) ↦
        rw (h, remove_container)
          (elim (Bool-cases (is_running meta.state.status)) [
            | inl runs ↦ rw runs (inl fresh)
            | inr rests ↦ rw rests (
                then-ok _ (clean_up host journal meta w)
                  (clean_up-sent host journal w meta ∙ fresh))
          ])
    | inr (inr h) ↦ rw (h, remove_container) (inl fresh)
  ]

  list_containers-IsAnswer :
      (host : Host) (print : ℤ → String) (args : PsArgs)
      → IsAnswer (list_containers host print args w).1.sent
  unfolding list_containers
  list_containers-IsAnswer host print args =
      listed_answer (host.align (header ∷ rows host print (get_all_metas w.metas)))
    where
      listed_answer : (r : Outcome String) → IsAnswer (listed host print r w).1.sent
      listed_answer (ok table) = reply-ok table w fresh
      listed_answer (err e) = reply-error _ w fresh
      listed_answer panic = inl fresh

  shown-IsAnswer : (r : Outcome String) → IsAnswer (shown r w).1.sent
  shown-IsAnswer (ok text) = reply-ok text w fresh
  shown-IsAnswer (err e) = reply-error _ w fresh
  shown-IsAnswer panic = inl fresh

  show_logs-IsAnswer : (host : Host) (args : LogsArgs) → IsAnswer (show_logs host args w).1.sent
  unfolding show_logs
  show_logs-IsAnswer host args = elim (get_meta_by_name-cases args.name w.metas) [
    | inl h ↦ rw (h, show_logs) (reply-error _ w fresh)
    | inr (inl (meta, h)) ↦ rw (h, show_logs) (shown-IsAnswer _)
    | inr (inr h) ↦ rw (h, show_logs) (inl fresh)
  ]

archived-IsAnswer :
    (args : CommitArgs) (r : Outcome (Option String)) (w : World)
    → w.sent ≡ []
    → IsAnswer (archived args r w).1.sent
archived-IsAnswer args (ok none) w h = reply-ok w h _ w h
archived-IsAnswer args (ok (some stderr)) w h = reply-error w h _ w h
archived-IsAnswer args (err e) w h = reply-error w h _ w h
archived-IsAnswer args panic w h = inl h

commit_container-IsAnswer :
    (w : World)
    → w.sent ≡ []
    → (host : Host) (args : CommitArgs) → IsAnswer (commit_container host args w).1.sent
unfolding commit_container
commit_container-IsAnswer w fresh host args = elim (get_meta_by_name-cases args.name w.metas) [
  | inl h ↦ rw (h, commit_container) (reply-error w fresh _ w fresh)
  | inr (inl (meta, h)) ↦
      let image = args.image ⧺ "/" ⧺ args.image ⧺ ".tar" in
      let mnt = root_path ⧺ "/" ⧺ name_id meta.name meta.id ⧺ "/mnt" in
      rw (h, commit_container)
        (archived-IsAnswer args (host.tar image mnt) (call (tar image mnt) w) fresh)
  | inr (inr h) ↦ rw (h, commit_container) (inl fresh)
]

module _ (B : BitVec) (profile : Profile) (net : Netlink)
    (serialize : Ipam B → Dict Network → Outcome Bytes) (args : NetCreateArgs) where
  told : (msg : Msg) (s : Networks B) → s.sent ≡ [] → s.sent ++ msg ∷ [] ≡ msg ∷ []
  told msg s h = ap (λ l. l ++ msg ∷ []) h

  after_driver-IsAnswer :
      (gateway : ℕ) (r : Outcome Network × Links) (s : Networks B)
      → s.sent ≡ []
      → IsAnswer (after_driver B profile net serialize args gateway r s).1.sent
  after_driver-IsAnswer gateway (ok made, links) s h =
      inr (inl (_, (save-keeps B profile net serialize _).1 ∙ told _ s h))
  after_driver-IsAnswer gateway (err e, links) s h = inr (inr (_, told _ s h))
  after_driver-IsAnswer gateway (panic, links) s h = inl h

  after_gateway-IsAnswer :
      (r : Answer B ℕ) (s : Networks B)
      → s.sent ≡ []
      → IsAnswer (after_gateway B profile net serialize args r s).1.sent
  after_gateway-IsAnswer (ok gateway, ipam) s h =
      after_driver-IsAnswer gateway _ (record s { ipam = ipam }) h
  after_gateway-IsAnswer (err e, ipam) s h = inr (inr (_, told _ s h))
  after_gateway-IsAnswer (panic, ipam) s h = inl h

  after_subnet-IsAnswer :
      (r : Answer B (Unit {0})) (s : Networks B)
      → s.sent ≡ []
      → IsAnswer (after_subnet B profile net serialize args r s).1.sent
  after_subnet-IsAnswer (ok _, ipam) s h = after_gateway-IsAnswer _ (record s { ipam = ipam }) h
  after_subnet-IsAnswer (err e, ipam) s h = inr (inr (_, told _ s h))
  after_subnet-IsAnswer (panic, ipam) s h = inl h

  create_network-IsAnswer :
      (s : Networks B)
      → s.sent ≡ []
      → IsAnswer (create_network B profile net serialize args s).1.sent
  unfolding create_network
  create_network-IsAnswer s h = elim (Bool-cases (Dict.contains_key args.name s.networks)) [
    | inl known ↦ rw known (inr (inr (_, told _ s h)))
    | inr fresh ↦ rw fresh (elim (Bool-cases (str_eq args.driver "bridge")) [
      | inl bridge ↦ rw bridge (after_subnet-IsAnswer (add_subnet B profile args.subnet s.ipam) s h)
      | inr foreign ↦ rw foreign (inr (inr (_, told _ s h)))
    ])
  ]

-- The messages of a command with one answer, on a new connection: none, or one with a result or an
-- error.
pub dispatch-IsAnswer :
    (B : BitVec) (env : Env B) (command : Commands) (d : Daemon B)
    → Answered command
    → IsAnswer (replies B (dispatch B env command (connect B d)).1)
unfolding dispatch
dispatch-IsAnswer B env (stop args) d a =
    subst IsAnswer (sym (append-nil _)) (stop_container-IsAnswer _ refl env.host env.journal args)
dispatch-IsAnswer B env (rm args) d a =
    subst IsAnswer (sym (append-nil _)) (remove_container-IsAnswer _ refl env.host env.journal args)
dispatch-IsAnswer B env (ps args) d a =
    subst IsAnswer (sym (append-nil _)) (list_containers-IsAnswer _ refl env.host env.print args)
dispatch-IsAnswer B env (logs args) d a =
    subst IsAnswer (sym (append-nil _)) (show_logs-IsAnswer _ refl env.host args)
dispatch-IsAnswer B env (commit args) d a =
    subst IsAnswer (sym (append-nil _)) (commit_container-IsAnswer _ refl env.host args)
dispatch-IsAnswer B env (network (create args)) d a =
    create_network-IsAnswer B env.profile env.netlink env.serialize args _ refl
dispatch-IsAnswer B env (run args) d a = absurd a
dispatch-IsAnswer B env (start args) d a = absurd a
dispatch-IsAnswer B env (exec args) d a = absurd a
