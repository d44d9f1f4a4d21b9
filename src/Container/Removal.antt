-- ===== src/Container/Removal.antt =====
-- What `remove_container` does to the metadata, and what its client reads.
use mathlib.Core.Path.{subst}
use rtain.Base.{
  ap, true, false, [], ◌∷◌, ◌++◌, none, some, ◌≡◌, ◌≢◌, sym, refl, ◌∙◌, ◌⊎◌, inl, inr, Outcome, ok,
  err, panic, Bool-cases,
}
use rtain.Base.Dict
use rtain.Base.Dict.{get-remove, get-update}
use rtain.Metas.Types.{ContainerMeta, delete}
use rtain.Metas.Container.{is_running}
use rtain.Metas.Apply.{remove_meta}
use rtain.Metas.Apply.Coherence.{IsCoherent}
use rtain.Metas.Wal.Disk.{WalDir, write_operation}
use rtain.Metas.Storage.{get_meta_by_id, get_meta_by_name}
use rtain.Msg.{Msg, ok_content}
use rtain.Cmd.{RmArgs}
use rtain.Base.Text.{◌⧺◌}
use rtain.Container.World.{Host, Journal, World, reply}
use rtain.Container.Task.{go_on}
use rtain.Container.Remove.{clean_up, remove_container}
use rtain.Container.Lifecycle.{get_meta_by_name-found, Logs, log_answer}
use rtain.Container.CleanUp.{
  remove_meta-gone, name_of, CallsReturn, clean_up-eq, clean_up-state, clean_up-refused,
  clean_up-sent, clean_up-ends,
}

module _ (host : Host) (journal : Journal) (w : World) (meta : ContainerMeta) where
  module _ (args : RmArgs) (found : get_meta_by_name args.name w.metas ≡ ok (some meta)) where
    abbrev pub removal : Msg
    removal = ok_content ("Container " ⧺ args.name ⧺ " removed")

    remove_container-running :
        is_running meta.state.status ≡ true → remove_container host journal args w ≡ (ok tt, w)
    unfolding remove_container
    remove_container-running runs = rw (found, remove_container) (rw runs refl)

    remove_container-eq :
        is_running meta.state.status ≡ false
        → remove_container host journal args w
          ≡ go_on (λ _. reply removal) (clean_up host journal meta w)
    unfolding remove_container
    remove_container-eq rests = rw (found, remove_container) (rw rests refl)

    -- The confirmation goes behind what was sent, and changes nothing else.
    removed-parts :
        is_running meta.state.status ≡ false
        → CallsReturn host meta
        → ((remove_container host journal args w).1.sent ≡ w.sent ++ removal ∷ [])
          × ((remove_container host journal args w).1.metas
              ≡ (clean_up host journal meta w).1.metas)
    removed-parts rests r =
        let end = clean_up-eq host journal w meta r in
        let all = remove_container-eq rests ∙ ap (go_on (λ _. reply removal)) end in
        (
          ap (λ r. r.1.sent) all
              ∙ ap (λ sent. sent ++ removal ∷ [])
                  (ap (λ r. r.1.sent) (sym end) ∙ clean_up-sent host journal w meta),
          ap (λ r. r.1.metas) all ∙ ap (λ r. r.1.metas) (sym end),
        )

    -- A container that is removed is found no more.
    remove_container-gone :
        (wal : WalDir)
        → is_running meta.state.status ≡ false
        → IsCoherent w.metas.state
        → CallsReturn host meta
        → Logs journal (delete meta.id) w wal
        → (get_meta_by_id meta.id (remove_container host journal args w).1.metas ≡ none)
          × (get_meta_by_name args.name (remove_container host journal args w).1.metas ≡ ok none)
    unfolding get_meta_by_id get_meta_by_name
    remove_container-gone wal rests coherent r logged =
        let state =
          ap (λ m. m.state) (removed-parts rests r).1
          ∙ clean_up-state host journal w meta wal r logged in
        let (at_id, named) = name_of args.name w.metas meta coherent found in
        let (no_id, no_name) = remove_meta-gone meta w.metas.state at_id in
        (
          rw state no_id,
          rw (state, get_meta_by_name)
              (rw
                (
                  subst (λ n. Dict.get n (remove_meta meta.id w.metas.state).by_name ≡ none) named
                      no_name,
                  get_meta_by_name,
                )
                refl),
        )

    -- Of a coherent state, a container that does not run, and whose clean-up does not panic: when
    -- the log takes the deletion, it is found neither by its id nor by its name any more; when the
    -- log does not, all containers are as they were. The client gets a confirmation in both cases,
    -- and whatever errors the clean-up has met.
    pub remove_container-outcome :
        is_running meta.state.status ≡ false
        → IsCoherent w.metas.state
        → CallsReturn host meta
        → ((remove_container host journal args w).1.sent ≡ w.sent ++ removal ∷ [])
          × (((log_answer journal (delete meta.id) w ≡ ok tt)
                × (get_meta_by_id meta.id (remove_container host journal args w).1.metas ≡ none)
                × (get_meta_by_name args.name (remove_container host journal args w).1.metas
                    ≡ ok none))
              ⊎ ((log_answer journal (delete meta.id) w ≢ ok tt)
                  × ((remove_container host journal args w).1.metas.state ≡ w.metas.state)))
    remove_container-outcome rests coherent r = (
      (removed-parts rests r).0,
      split
          (write_operation journal.codecs.operations journal.disk journal.now (delete meta.id)
            w.metas.wal)
          refl,
    )
      where
        kept :
            log_answer journal (delete meta.id) w ≢ ok tt
            → (remove_container host journal args w).1.metas.state ≡ w.metas.state
        kept h =
            ap (λ m. m.state) (removed-parts rests r).1 ∙ clean_up-refused host journal w meta r h

        split :
            (o : Outcome (Unit {0}) × WalDir)
            → write_operation journal.codecs.operations journal.disk journal.now
                (delete meta.id)
                w.metas.wal
              ≡ o
            → ((log_answer journal (delete meta.id) w ≡ ok tt)
                × (get_meta_by_id meta.id (remove_container host journal args w).1.metas ≡ none)
                × (get_meta_by_name args.name (remove_container host journal args w).1.metas
                    ≡ ok none))
              ⊎ ((log_answer journal (delete meta.id) w ≢ ok tt)
                  × ((remove_container host journal args w).1.metas.state ≡ w.metas.state))
        split (ok _, wal) e =
            let (no_id, no_name) = remove_container-gone wal rests coherent r e in
            inl (ap (λ o. o.0) e, no_id, no_name)
        split (err m, wal) e =
            let no : log_answer journal (delete meta.id) w ≢ ok tt =
              λ p. absurd (cc (ap (λ o. o.0) e)) in
            inr (no, kept no)
        split (panic, wal) e =
            let no : log_answer journal (delete meta.id) w ≢ ok tt =
              λ p. absurd (cc (ap (λ o. o.0) e)) in
            inr (no, kept no)

-- The client of a removal gets a confirmation when the container was there and did not run, and no
-- answer at all when it is missing or runs; then nothing has been called or changed either. A
-- panic of the clean-up ends the task without an answer.
pub remove_container-answers :
    (host : Host) (journal : Journal) (w : World) (args : RmArgs)
    → IsCoherent w.metas.state
    → ((get_meta_by_name args.name w.metas ≡ ok none)
        × (remove_container host journal args w ≡ (ok tt, w)))
      ⊎ ((meta : ContainerMeta) × (get_meta_by_name args.name w.metas ≡ ok (some meta))
          × (((is_running meta.state.status ≡ true)
                × (remove_container host journal args w ≡ (ok tt, w)))
              ⊎ ((is_running meta.state.status ≡ false)
                  × ((((clean_up host journal meta w).0 ≡ ok tt)
                        × ((remove_container host journal args w).1.sent
                            ≡ w.sent ++ ok_content ("Container " ⧺ args.name ⧺ " removed") ∷ []))
                      ⊎ (((clean_up host journal meta w).0 ≡ panic)
                          × ((remove_container host journal args w).0 ≡ panic)
                          × ((remove_container host journal args w).1.sent ≡ w.sent))))))
unfolding remove_container
remove_container-answers host journal w args coherent =
    elim (get_meta_by_name-found args.name w.metas coherent) [
      | inl missing ↦ inl (missing, rw (missing, remove_container) refl)
      | inr (meta, found, _, _) ↦ inr (
        meta,
        found,
        elim (Bool-cases (is_running meta.state.status)) [
          | inl runs ↦ inl (runs, remove_container-running host journal w meta args found runs)
          | inr rests ↦ inr (rests, confirmed meta found rests)
        ],
      )
    ]
  where
    confirmed :
        (meta : ContainerMeta)
        → get_meta_by_name args.name w.metas ≡ ok (some meta)
        → is_running meta.state.status ≡ false
        → (((clean_up host journal meta w).0 ≡ ok tt)
            × ((remove_container host journal args w).1.sent
                ≡ w.sent ++ ok_content ("Container " ⧺ args.name ⧺ " removed") ∷ []))
          ⊎ (((clean_up host journal meta w).0 ≡ panic)
              × ((remove_container host journal args w).0 ≡ panic)
              × ((remove_container host journal args w).1.sent ≡ w.sent))
    confirmed meta found rests = rw (remove_container-eq host journal w meta args found rests) (
        answered (clean_up host journal meta w) (clean_up-sent host journal w meta)
          (clean_up-ends host journal w meta))
      where
        answered :
            (r : Outcome (Unit {0}) × World)
            → r.1.sent ≡ w.sent
            → (r.0 ≡ ok tt) ⊎ (r.0 ≡ panic)
            → ((r.0 ≡ ok tt)
                × ((go_on (λ _. reply (removal host journal w meta args found)) r).1.sent
                    ≡ w.sent ++ ok_content ("Container " ⧺ args.name ⧺ " removed") ∷ []))
              ⊎ ((r.0 ≡ panic)
                  × ((go_on (λ _. reply (removal host journal w meta args found)) r).0 ≡ panic)
                  × ((go_on (λ _. reply (removal host journal w meta args found)) r).1.sent
                      ≡ w.sent))
        answered (ok _, w') h k =
            inl (refl, ap (λ sent. sent ++ removal host journal w meta args found ∷ []) h)
        answered (err e, w') h (inl k) = absurd (cc)
        answered (err e, w') h (inr k) = absurd (cc)
        answered (panic, w') h k = inr (refl, refl, h)
