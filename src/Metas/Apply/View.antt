-- ===== src/Metas/Apply/View.antt =====
-- What of an `InnerState` does not hang on the clock: the two maps, but for the field `updated_at`.
use rtain.Base.{
  ℕ, suc, String, ◌≡◌, refl, sym, ap, ◌∙◌, [], Option, none, some, inl, inr, arith, str_eq,
  Bool-cases,
}
use mathlib.Core.Option
use rtain.Base.Dict
use rtain.Base.Dict.{get-insert, get-remove, get-update}
use rtain.Metas.Types.{
  ContainerMeta, InnerState, StorageOperation, create, delete, batch, Operations, nil, cons,
}
use rtain.Metas.Apply.{
  Clock, member, stamp, modify, insert_meta, remove_meta, apply_operation, apply_operations,
}
use rtain.Metas.Apply.Edits.{target, change}
use rtain.Metas.Apply.Totality.{ops-cons}

abbrev pub timeless : ContainerMeta → ContainerMeta
timeless m = record m { updated_at = 0 }

-- The entry is there in both or in neither, and differs in the time alone.
abbrev pub SameEntry : Option ContainerMeta → Option ContainerMeta → Type 0
SameEntry a b = Option.map timeless a ≡ Option.map timeless b

pub record SameView (s t : InnerState) : Type 0 where
  pub ids : (k : String) → SameEntry (Dict.get k s.by_id) (Dict.get k t.by_id)
  pub names : (n : String) → Dict.get n s.by_name ≡ Dict.get n t.by_name

pub SameView-refl : (s : InnerState) → SameView s s
SameView-refl s = record { ids = λ k. refl; names = λ n. refl }

pub SameView-sym : (s t : InnerState) → SameView s t → SameView t s
SameView-sym s t v = record { ids = λ k. sym (v.ids k); names = λ n. sym (v.names n) }

pub SameView-trans : (s t u : InnerState) → SameView s t → SameView t u → SameView s u
SameView-trans s t u v w = record {
  ids = λ k. v.ids k ∙ w.ids k;
  names = λ n. v.names n ∙ w.names n;
}

-- A change reads no time.
timeless-change :
    (op : StorageOperation) (m : ContainerMeta)
    → timeless (change op m) ≡ timeless (change op (timeless m))
timeless-change (create _) m = refl
timeless-change _ m = refl

pub SameEntry-change :
    (op : StorageOperation) (t u : ℕ) (a b : Option ContainerMeta)
    → SameEntry a b
    → SameEntry (Option.map (stamp (change op) t) a) (Option.map (stamp (change op) u) b)
SameEntry-change op t u none none h = refl
SameEntry-change op t u none (some b) h = absurd (cc)
SameEntry-change op t u (some a) none h = absurd (cc)
SameEntry-change op t u (some a) (some b) h =
    let same : timeless a ≡ timeless b = cc in
    ap some
      (timeless-change op a ∙ ap (λ m. timeless (change op m)) same ∙ sym (timeless-change op b))

-- The names of equal entries are equal.
pub SameEntry-name : (a b : ContainerMeta) → SameEntry (some a) (some b) → a.name ≡ b.name
SameEntry-name a b h = let same : timeless a ≡ timeless b = cc in ap (λ m. m.name) same

modify-SameView :
    (op : StorageOperation) (id : String) (t u : ℕ) (r s : InnerState)
    → SameView r s
    → SameView (modify id (change op) t r).1 (modify id (change op) u s).1
unfolding modify
modify-SameView op id t u r s v = record {
  ids = λ k. elim (Bool-cases (str_eq id k)) [
    | inl e ↦
        rw
          (
            get-update id k (stamp (change op) t) r.by_id,
            get-update id k (stamp (change op) u) s.by_id,
            e,
          )
          (SameEntry-change op t u (Dict.get k r.by_id) (Dict.get k s.by_id) (v.ids k))
    | inr e ↦
        rw
          (
            get-update id k (stamp (change op) t) r.by_id,
            get-update id k (stamp (change op) u) s.by_id,
            e,
          )
          (v.ids k)
  ];
  names = v.names;
}

insert-SameView :
    (m : ContainerMeta) (r s : InnerState)
    → SameView r s
    → SameView (insert_meta m r) (insert_meta m s)
unfolding insert_meta
insert-SameView m r s v = record {
  ids =
      λ k. rw (get-insert m.id k m r.by_id, get-insert m.id k m s.by_id) (ground (arith, v.ids k));
  names = λ n.
      ground
        (arith, get-insert m.name n m.id r.by_name, get-insert m.name n m.id s.by_name, v.names n);
}

remove-SameView :
    (id : String) (r s : InnerState) → SameView r s → SameView (remove_meta id r) (remove_meta id s)
unfolding remove_meta
remove-SameView id r s v = split (Dict.get id r.by_id) (Dict.get id s.by_id) refl refl (v.ids id)
  where
    split :
        (a b : Option ContainerMeta)
        → Dict.get id r.by_id ≡ a
        → Dict.get id s.by_id ≡ b
        → SameEntry a b
        → SameView (remove_meta id r) (remove_meta id s)
    split none none ea eb h = rw (ea, eb, remove_meta) v
    split none (some b) ea eb h = absurd (cc)
    split (some a) none ea eb h = absurd (cc)
    split (some a) (some b) ea eb h =
        rw (ea, eb, remove_meta)
          (record {
            ids = λ k. ground (arith, get-remove id k r.by_id, get-remove id k s.by_id, v.ids k);
            names = λ n. ground (
              arith,
              get-remove a.name n r.by_name,
              get-remove b.name n s.by_name,
              v.names n,
              SameEntry-name a b h,
            );
          })

mutual
  unfolding apply_operation

  op-SameView :
      (c d : Clock) (op : StorageOperation) (r s : InnerState)
      → SameView r s
      → SameView (apply_operation c op r).1 (apply_operation d op s).1
  op-SameView c d (create m) r s v = insert-SameView m r s v
  op-SameView c d (delete id) r s v = remove-SameView id r s v
  op-SameView c d (batch ops) r s v = ops-SameView c d 0 0 ops r s v
  op-SameView c d op r s v = modify-SameView op (target op) (c []) (d []) r s v

  ops-SameView :
      (c d : Clock) (i j : ℕ) (ops : Operations) (r s : InnerState)
      → SameView r s
      → SameView (apply_operations c i ops r).1 (apply_operations d j ops s).1
  ops-SameView c d i j nil r s v = v
  ops-SameView c d i j (cons op ops) r s v =
      rw (ops-cons c i op ops r, ops-cons d j op ops s)
        (ops-SameView c d (suc i) (suc j) ops _ _ (op-SameView (member i c) (member j d) op r s v))

-- An operation takes states with one view to states with one view, whatever the clocks say.
pub apply_operation-SameView :
    (c d : Clock) (op : StorageOperation) (r s : InnerState)
    → SameView r s
    → SameView (apply_operation c op r).1 (apply_operation d op s).1
apply_operation-SameView = op-SameView
