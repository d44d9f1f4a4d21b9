-- ===== src/Metas/Apply/Rerun.antt =====
-- Executing a log again, from a state that a first part of it has made: the outcome is that of
-- executing it once. The proof follows the two runs side by side.
use rtain.Base.{String, ◌≡◌, refl, List, [], ◌∷◌, ◌++◌, Option, none, some, inl, inr, All}
use rtain.Base.Dict
use rtain.Base.Dict.{get-insert, get-remove, get-update, get-nil}
use rtain.Metas.Types.{ContainerMeta, InnerState, StorageOperation, create, delete, batch}
use rtain.Metas.Apply.{empty, apply_operation}
use rtain.Metas.Apply.Edits.{target}
use rtain.Metas.Apply.View.{SameEntry, SameView}
use rtain.Metas.Apply.Flatten.{no_clock, exec, IsPlain}
use rtain.Metas.Apply.Fits.{Fits, IdFits, NameFits, create-Fits, edit-Fits, delete-Fits}
use rtain.Metas.Apply.Origin.{Creates-append, created_id, created_name}

step-Fits :
    (op : StorageOperation) (rest : List StorageOperation) (again once : InnerState)
    → IsPlain op
    → Fits (op ∷ rest) again once
    → Fits rest (apply_operation no_clock op again).1 (apply_operation no_clock op once).1
unfolding apply_operation
step-Fits (create c) rest again once plain f = create-Fits rest again once c f
step-Fits (delete d) rest again once plain f = delete-Fits rest again once d f
step-Fits (batch _) rest again once plain f = absurd plain
step-Fits op rest again once plain f = edit-Fits rest again once op (target op) (λ k n now. now) f

exec-Fits :
    (ops : List StorageOperation) (again once : InnerState)
    → All IsPlain ops
    → Fits ops again once
    → SameView (exec ops again) (exec ops once)
unfolding exec
exec-Fits [] again once plain f = record {
  ids = λ k. settled_id k (f.ids k);
  names = λ n. settled_name n (f.names n);
}
  where
    settled_id :
        (k : String)
        → IdFits [] k (Dict.get k again.by_id) (Dict.get k once.by_id)
        → SameEntry (Dict.get k again.by_id) (Dict.get k once.by_id)
    settled_id k (inl same) = same
    settled_id k (inr (gone, (m, here, later))) = absurd later

    settled_name :
        (n : String)
        → NameFits [] n (Dict.get n again.by_name) (Dict.get n once.by_name)
        → Dict.get n again.by_name ≡ Dict.get n once.by_name
    settled_name n (inl same) = same
    settled_name n (inr (k, later)) = absurd later
exec-Fits (op ∷ ops) again once (p, ps) f = exec-Fits ops _ _ ps (step-Fits op ops again once p f)

-- At the start the second run has what the first part of the log has made.
start-Fits : (p q : List StorageOperation) → All IsPlain p → Fits (p ++ q) (exec p empty) empty
start-Fits p q plain = record {
  ids = λ k. start_id k (Dict.get k (exec p empty).by_id) refl;
  names = λ n. start_name n (Dict.get n (exec p empty).by_name) refl;
}
  where
    start_id :
        (k : String) (o : Option ContainerMeta)
        → Dict.get k (exec p empty).by_id ≡ o
        → IdFits (p ++ q) k (Dict.get k (exec p empty).by_id) (Dict.get {V = ContainerMeta} k [])
    start_id k none e = inl (rw (e, get-nil {V = ContainerMeta} k))
    start_id k (some m) e =
        inr (get-nil k, (m, e, Creates-append k m.name p q (created_id p k m plain e)))

    start_name :
        (n : String) (o : Option String)
        → Dict.get n (exec p empty).by_name ≡ o
        → NameFits (p ++ q) n (Dict.get n (exec p empty).by_name) (Dict.get {V = String} n [])
    start_name n none e = inl (rw (e, get-nil {V = String} n))
    start_name n (some k) e =
        let (j, made) = created_name p n k plain e in inr (j, Creates-append j n p q made)

-- Executed from what its first part has made, a log of plain operations has the outcome that it
-- has from nothing.
pub exec_again :
    (p q : List StorageOperation)
    → All IsPlain (p ++ q)
    → All IsPlain p
    → SameView (exec (p ++ q) (exec p empty)) (exec (p ++ q) empty)
exec_again p q plain first = exec-Fits (p ++ q) (exec p empty) empty plain (start-Fits p q first)
