-- ===== src/Metas/Storage/Recovery.antt =====
-- A log that can be read, and snapshots of what first parts of it made, are enough to recover.
use rtain.Base.{
  ℕ, suc, ◌≡◌, refl, sym, ◌∙◌, List, [], ◌∷◌, ◌++◌, Option, none, some, All, ok, append-nil,
}
use mathlib.Core.Path.{subst}
use rtain.Metas.Types.{InnerState, StorageOperation}
use rtain.Metas.Apply.{Clock, member, empty, apply_operation}
use rtain.Metas.Apply.Totality.{apply_operation-ok, and_then-ok}
use rtain.Metas.Apply.View.{SameView, SameView-refl, SameView-trans}
use rtain.Metas.Apply.Flatten.{
  exec, leaves, leaves_of, exec-append, exec-SameView, leaves_of-append, leaves_of-IsPlain,
  apply-leaves, IsPlain,
}
use rtain.Metas.Apply.Rerun.{exec_again}
use rtain.Metas.Folder.{Entry, Folder, sort_by_time, last}
use rtain.Metas.Folder.Kept.{newest-All}
use rtain.Metas.Wal.Disk.{WalDir}
use rtain.Metas.Wal.Read.{fs_read, read_operations}
use rtain.Metas.Snapshot.{load_latest}
use rtain.Metas.Storage.{Codecs, replay, recover_state}

-- What a log makes from nothing, with the clock at rest.
abbrev pub replayed : List StorageOperation → InnerState
replayed ops = exec (leaves_of ops) empty

-- The loop of `recover_state` succeeds, and does what the plain operations of the log do.
pub replay-exec :
    (clock : Clock) (i : ℕ) (ops : List StorageOperation) (r s : InnerState)
    → SameView r s
    → (t : InnerState) × (replay clock i ops r ≡ (ok tt, t)) × SameView t (exec (leaves_of ops) s)
unfolding replay leaves_of exec
replay-exec clock i [] r s v = (r, refl, v)
replay-exec clock i (op ∷ ops) r s v =
    let next = apply_operation (member i clock) op r in
    let after : SameView next.1 (exec (leaves op) s) =
      SameView-trans _ _ _ (apply-leaves (member i clock) op r) (exec-SameView (leaves op) r s v) in
    let (t, done, same) = replay-exec clock (suc i) ops next.1 (exec (leaves op) s) after in
    (
      t,
      and_then-ok next (λ s'. replay clock (suc i) ops s')
            (apply_operation-ok (member i clock) op r)
          ∙ done,
      rw (exec-append (leaves op) (leaves_of ops) s) same,
    )

-- One more operation in the log is one more operation after what the log made.
pub replayed-append :
    (clock : Clock) (op : StorageOperation) (ops : List StorageOperation) (s : InnerState)
    → SameView s (replayed ops)
    → SameView (apply_operation clock op s).1 (replayed (ops ++ op ∷ []))
unfolding leaves_of
replayed-append clock op ops s v =
    rw
      (
        leaves_of-append ops (op ∷ []),
        append-nil (leaves op),
        exec-append (leaves_of ops) (leaves op) empty,
      )
      (SameView-trans _ _ _ (apply-leaves clock op s)
        (exec-SameView (leaves op) s (replayed ops) v))

-- A log that is replayed on what a first part of it made gives what it makes from nothing.
pub replayed_again :
    (p q : List StorageOperation)
    → SameView (exec (leaves_of (p ++ q)) (replayed p)) (replayed (p ++ q))
replayed_again p q = rw (leaves_of-append p q) (
    exec_again (leaves_of p) (leaves_of q)
      (subst (All IsPlain) (leaves_of-append p q) (leaves_of-IsPlain (p ++ q)))
      (leaves_of-IsPlain p))

module _ (codecs : Codecs) where
  -- The file holds what a first part of the log made.
  abbrev pub IsSnapshot : List StorageOperation → Entry → Type 0
  IsSnapshot ops e =
      (p : List StorageOperation) × (q : List StorageOperation) × (s : InnerState) × (ops ≡ p ++ q)
      × (codecs.states.deserialize e.file.content ≡ ok s)
      × SameView s (replayed p)

  loaded :
      (ops : List StorageOperation) (folder : Folder)
      → All (IsSnapshot ops) folder
      → (p : List StorageOperation) × (q : List StorageOperation) × (s : InnerState) × (ops
          ≡ p ++ q)
        × (load_latest codecs.states folder ≡ ok s)
        × SameView s (replayed p)
  unfolding load_latest leaves_of exec
  loaded ops folder h = split (last (sort_by_time folder)) refl
    where
      split :
          (o : Option Entry)
          → last (sort_by_time folder) ≡ o
          → (p : List StorageOperation) × (q : List StorageOperation) × (s : InnerState) × (ops
              ≡ p ++ q)
            × (load_latest codecs.states folder ≡ ok s)
            × SameView s (replayed p)
      split none e = ([], ops, empty, refl, rw (e, load_latest), SameView-refl empty)
      split (some entry) e =
          let (p, q, s, parts, read, same) = newest-All (IsSnapshot ops) folder entry h e in
          (p, q, s, parts, rw (e, load_latest) read, same)

  -- Recovery succeeds, and gives what the log makes from nothing.
  pub recover-replayed :
      (clock : Clock) (ops : List StorageOperation) (folder : Folder) (wal : WalDir)
      → read_operations codecs.operations (fs_read wal.current) ≡ some (ok ops)
      → All (IsSnapshot ops) folder
      → (s : InnerState) × (recover_state codecs clock folder wal ≡ some (ok s))
        × SameView s (replayed ops)
  unfolding recover_state
  recover-replayed clock ops folder wal readable h =
      let (p, q, s, parts, read, same) = loaded ops folder h in
      let (t, done, view) = replay-exec clock 0 ops s (replayed p) same in
      (
        t,
        rw (read, recover_state) (rw (readable, recover_state) (rw done)),
        subst (λ l. SameView t (replayed l)) (sym parts)
            (SameView-trans t _ _
              (subst (λ l. SameView t (exec (leaves_of l) (replayed p))) parts view)
              (replayed_again p q)),
      )
