-- ===== src/Metas/Storage/Durability.antt =====
-- What recovery restores at any moment of a life of the manager: requests, the ticks of both
-- timers, and restarts, in any order.
use rtain.Base.{
  ℕ, ◌≡◌, refl, sym, ap, ◌∙◌, String, List, [], ◌∷◌, ◌++◌, none, some, All, Outcome, ok, err, panic,
  append-nil, append_assoc, arith,
}
use mathlib.Core.Path.{subst}
use rtain.Base.Bytes.{Bytes, IsLawful}
use rtain.Metas.Types.{InnerState, StorageOperation}
use rtain.Metas.Apply.{Clock, empty}
use rtain.Metas.Apply.View.{SameView, SameView-refl, SameView-sym, SameView-trans}
use rtain.Metas.Apply.Flatten.{exec, leaves_of}
use rtain.Metas.Folder.{Entry, Folder, tmp_snapshot, snapshot_file}
use rtain.Metas.Folder.Kept.{put_file-All, remove_file-All, purge_oldest-All}
use rtain.Metas.Wal.Disk.{WalDir, bytes_of, sound, no_open, write_operation}
use rtain.Metas.Wal.Read.{fs_read, read_operations}
use rtain.Metas.Wal.RoundTrip.{read-write, reads-bytes}
use rtain.Metas.Wal.Archive.{empty_dir, no_such_file, rotate}
use rtain.Metas.Snapshot.{take_snapshot}
use rtain.Metas.Storage.{
  Codecs, StorageConfig, StorageInner, new, recover_state, handle_request, snapshot_tick,
  purge_rotated, cleanup_tick,
}
use rtain.Metas.Storage.Recovery.{replayed, IsSnapshot, replayed-append, recover-replayed}
use rtain.Metas.Storage.Steps.{
  Step, request, refused, snapshot, no_snapshot, cleanup, restart, Reach, start, next,
}

rotate-unarchived : (now : ℕ) (d : WalDir) → d.archive ≡ none → rotate now d ≡ (err no_such_file, d)
unfolding rotate
rotate-unarchived now d h = ground arith

-- Without the folder `archive` a cleanup leaves the log as it is.
cleanup_wal : (max now : ℕ) (d : WalDir) → d.archive ≡ none → purge_rotated max (rotate now d) ≡ d
cleanup_wal max now d h = rw (rotate-unarchived now d h)

module _ (codecs : Codecs) where
  record IsDurable (s : StorageInner) : Type 0 where
    log : List StorageOperation
    logged : read_operations codecs.operations (fs_read s.wal.current) ≡ some (ok log)
    current : SameView s.state (replayed log)
    snapshotted : All (IsSnapshot codecs log) s.snapshots
    unarchived : s.wal.archive ≡ none

  -- A snapshot of a log is one of a longer log.
  IsSnapshot-longer :
      (log more : List StorageOperation) (fs : Folder)
      → All (IsSnapshot codecs log) fs
      → All (IsSnapshot codecs (log ++ more)) fs
  IsSnapshot-longer log more [] h = tt
  IsSnapshot-longer log more (f ∷ fs) ((p, q, s, parts, read, same), hs) = (
    (p, q ++ more, s, ap (λ l. l ++ more) parts ∙ append_assoc p q more, read, same),
    IsSnapshot-longer log more fs hs,
  )

  module _ (ops_lawful : IsLawful codecs.operations) (states_lawful : IsLawful codecs.states) where
    module _ (s : StorageInner) (d : IsDurable s) where
      request-IsDurable :
          (now : ℕ) (clock : Clock) (op : StorageOperation)
          → IsDurable (handle_request codecs sound now clock op s).1
      unfolding handle_request write_operation
      request-IsDurable now clock op = split (codecs.operations.serialize op) refl
        where
          same_bytes :
              read_operations codecs.operations
                (fs_read (some (record { content = bytes_of s.wal.current; modified = now })))
              ≡ some (ok d.log)
          same_bytes =
              reads-bytes codecs.operations
                (some (record { content = bytes_of s.wal.current; modified = now }))
              ∙ sym (reads-bytes codecs.operations s.wal.current)
              ∙ d.logged

          split :
              (r : Outcome Bytes)
              → codecs.operations.serialize op ≡ r
              → IsDurable (handle_request codecs sound now clock op s).1
          split (ok bytes) e =
              let written =
                read-write codecs.operations ops_lawful now op s.wal d.log d.logged (rw e) in
              rw e (record {
                log = d.log ++ op ∷ [];
                logged = rw e at written;
                current = replayed-append clock op d.log s.state d.current;
                snapshotted = IsSnapshot-longer d.log (op ∷ []) s.snapshots d.snapshotted;
                unarchived = d.unarchived;
              })
          split (err m) e = rw e (record {
            log = d.log;
            logged = same_bytes;
            current = d.current;
            snapshotted = d.snapshotted;
            unarchived = d.unarchived;
          })
          split panic e = rw e (record {
            log = d.log;
            logged = same_bytes;
            current = d.current;
            snapshotted = d.snapshotted;
            unarchived = d.unarchived;
          })

      snapshot-IsDurable : (now : ℕ) → IsDurable (snapshot_tick codecs sound now s)
      unfolding snapshot_tick
      snapshot-IsDurable now = split (codecs.states.serialize s.state) refl
        where
          Holds : Entry → Type 0
          Holds = IsSnapshot codecs d.log

          split :
              (r : Outcome Bytes)
              → codecs.states.serialize s.state ≡ r
              → IsDurable (snapshot_tick codecs sound now s)
          split (ok bytes) e =
              rw (e, take_snapshot)
                (record {
                  log = d.log;
                  logged = d.logged;
                  current = d.current;
                  snapshotted =
                      put_file-All Holds (snapshot_file now)
                        (record { content = bytes; modified = now }) _
                        (
                          d.log,
                          [],
                          s.state,
                          sym (append-nil d.log),
                          states_lawful.round_trip s.state bytes e,
                          d.current,
                        )
                        (remove_file-All Holds tmp_snapshot s.snapshots d.snapshotted);
                  unarchived = d.unarchived;
                })
          split (err m) e = rw (e, take_snapshot) d
          split panic e = rw (e, take_snapshot) d

      no_snapshot-IsDurable :
          (cause : String) (now : ℕ) → IsDurable (snapshot_tick codecs (no_open cause) now s)
      unfolding snapshot_tick
      no_snapshot-IsDurable cause now = split (codecs.states.serialize s.state) refl
        where
          split :
              (r : Outcome Bytes)
              → codecs.states.serialize s.state ≡ r
              → IsDurable (snapshot_tick codecs (no_open cause) now s)
          split (ok bytes) e = rw (e, take_snapshot) d
          split (err m) e = rw (e, take_snapshot) d
          split panic e = rw (e, take_snapshot) d

      cleanup-IsDurable : (now : ℕ) → IsDurable (cleanup_tick now s)
      unfolding cleanup_tick
      cleanup-IsDurable now =
          let same = cleanup_wal s.config.max_wals now s.wal d.unarchived in
          record {
            log = d.log;
            logged = rw same d.logged;
            current = d.current;
            snapshotted =
                purge_oldest-All (IsSnapshot codecs d.log) s.config.max_snapshots s.snapshots
                  d.snapshotted;
            unarchived = rw same d.unarchived;
          }

      restart-IsDurable :
          (clock : Clock) (t : StorageInner)
          → new codecs s.config clock (some s.wal) (some s.snapshots) ≡ some (ok t)
          → IsDurable t
      unfolding new
      restart-IsDurable clock t h =
          let (state, recovered, view) =
            recover-replayed codecs clock d.log s.snapshots s.wal d.logged d.snapshotted in
          let again = rw (recovered, new) at h in
          let same : record s { state = state } ≡ t = cc in
          subst IsDurable same (record {
            log = d.log;
            logged = d.logged;
            current = view;
            snapshotted = d.snapshotted;
            unarchived = d.unarchived;
          })

    start-IsDurable :
        (config : StorageConfig) (clock : Clock) (s : StorageInner)
        → new codecs config clock none none ≡ some (ok s)
        → IsDurable s
    unfolding new read_operations leaves_of exec
    start-IsDurable config clock s h =
        let empty_inner : StorageInner = record {
          config = config;
          wal = empty_dir;
          snapshots = [];
          state = empty;
        } in
        let same : empty_inner ≡ s = cc in
        subst IsDurable same (record {
          log = [];
          logged = refl;
          current = SameView-refl empty;
          snapshotted = tt;
          unarchived = refl;
        })

    Step-IsDurable : {s t : StorageInner} → Step codecs s t → IsDurable s → IsDurable t
    unfolding handle_request write_operation
    Step-IsDurable (request now clock op s) d = request-IsDurable s d now clock op
    Step-IsDurable (refused cause now clock op s) d = record {
      log = d.log;
      logged = d.logged;
      current = d.current;
      snapshotted = d.snapshotted;
      unarchived = d.unarchived;
    }
    Step-IsDurable (snapshot now s) d = snapshot-IsDurable s d now
    Step-IsDurable (no_snapshot cause now s) d = no_snapshot-IsDurable s d cause now
    Step-IsDurable (cleanup now s) d = cleanup-IsDurable s d now
    Step-IsDurable (restart clock s t h) d = restart-IsDurable s d clock t h

    Reach-IsDurable : {s : StorageInner} → Reach codecs s → IsDurable s
    Reach-IsDurable (start config clock s h) = start-IsDurable config clock s h
    Reach-IsDurable (next r step) = Step-IsDurable step (Reach-IsDurable r)

    -- In every state that is reached from an empty disk by requests, snapshots, cleanups and
    -- restarts, on a disk that takes each write whole or does not open the file, recovery from the
    -- files succeeds, and restores what is in memory, but for the times of the last changes.
    pub recover-Reach :
        (s : StorageInner) (clock : Clock)
        → Reach codecs s
        → (t : InnerState) × (recover_state codecs clock s.snapshots s.wal ≡ some (ok t))
          × SameView t s.state
    recover-Reach s clock r =
        let d = Reach-IsDurable r in
        let (t, recovered, view) =
          recover-replayed codecs clock d.log s.snapshots s.wal d.logged d.snapshotted in
        (t, recovered, SameView-trans t _ _ view (SameView-sym _ _ d.current))

    -- The folder `archive` is never made, so no rotation ever succeeds and the log only grows.
    pub rotate-Reach :
        (s : StorageInner) (now : ℕ)
        → Reach codecs s
        → (rotate now s.wal ≡ (err no_such_file, s.wal)) × ((cleanup_tick now s).wal ≡ s.wal)
    unfolding rotate cleanup_tick
    rotate-Reach s now r =
        let gone = (Reach-IsDurable r).unarchived in
        (rotate-unarchived now s.wal gone, cleanup_wal s.config.max_wals now s.wal gone)
