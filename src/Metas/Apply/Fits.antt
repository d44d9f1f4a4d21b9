-- ===== src/Metas/Apply/Fits.antt =====
-- Two runs of a log side by side: what the second, which started from a later state, has beside the
-- first.
use rtain.Base.{
  String, ◌≡◌, refl, sym, ap, List, ◌∷◌, Option, none, some, ◌⊎◌, inl, inr, arith, str_eq, eq_iff,
  Bool-cases,
}
use mathlib.Core.Option
use mathlib.Core.Path.{subst}
use rtain.Base.Dict
use rtain.Base.Dict.{get-insert, get-remove, get-update, get-nil}
use rtain.Metas.Types.{ContainerMeta, InnerState, StorageOperation, create, delete}
use rtain.Metas.Apply.{stamp, modify, insert_meta, remove_meta}
use rtain.Metas.Apply.Edits.{change, name-change}
use rtain.Metas.Apply.View.{SameEntry, SameEntry-change, SameEntry-name}
use rtain.Metas.Apply.Origin.{CreatesOne, Creates}

-- What the second run has under an id, beside the first: the same, or an entry that the rest of
-- the log will create anew.
abbrev pub IdFits :
    List StorageOperation → String → Option ContainerMeta → Option ContainerMeta → Type 0
IdFits rest k again once =
    SameEntry again once
    ⊎ ((once ≡ none) × ((m : ContainerMeta) × (again ≡ some m) × Creates k m.name rest))

abbrev pub NameFits : List StorageOperation → String → Option String → Option String → Type 0
NameFits rest n again once = (again ≡ once) ⊎ ((k : String) × Creates k n rest)

pub record Fits (rest : List StorageOperation) (again once : InnerState) : Type 0 where
  pub ids : (k : String) → IdFits rest k (Dict.get k again.by_id) (Dict.get k once.by_id)
  pub names : (n : String) → NameFits rest n (Dict.get n again.by_name) (Dict.get n once.by_name)

-- A create of another id, or an operation that is no create, leaves what is still to come.
later_id :
    (op : StorageOperation) (rest : List StorageOperation) (k : String) (a b : Option ContainerMeta)
    → ((n : String) → ¬ (CreatesOne k n op))
    → IdFits (op ∷ rest) k a b
    → IdFits rest k a b
later_id op rest k a b other (inl same) = inl same
later_id op rest k a b other (inr (gone, (m, here, inl now))) = absurd (other m.name now)
later_id op rest k a b other (inr (gone, (m, here, inr later))) = inr (gone, (m, here, later))

later_name :
    (op : StorageOperation) (rest : List StorageOperation) (n : String) (a b : Option String)
    → ((k : String) → ¬ (CreatesOne k n op))
    → NameFits (op ∷ rest) n a b
    → NameFits rest n a b
later_name op rest n a b other (inl same) = inl same
later_name op rest n a b other (inr (k, inl now)) = absurd (other k now)
later_name op rest n a b other (inr (k, inr later)) = inr (k, later)

module _ (rest : List StorageOperation) (again once : InnerState) where
  pub create-Fits :
      (c : ContainerMeta)
      → Fits (create c ∷ rest) again once
      → Fits rest (insert_meta c again) (insert_meta c once)
  unfolding insert_meta
  create-Fits c f = record {
    ids = λ k. elim (Bool-cases (str_eq c.id k)) [
      | inl e ↦ rw (get-insert c.id k c again.by_id, get-insert c.id k c once.by_id, e) (inl refl)
      | inr e ↦
          rw (get-insert c.id k c again.by_id, get-insert c.id k c once.by_id, e)
            (later_id (create c) rest k _ _ (λ n now. cc (e, (eq_iff c.id k).1 now.0)) (f.ids k))
    ];
    names = λ n. elim (Bool-cases (str_eq c.name n)) [
      | inl e ↦
          rw (get-insert c.name n c.id again.by_name, get-insert c.name n c.id once.by_name, e)
            (inl refl)
      | inr e ↦
          rw (get-insert c.name n c.id again.by_name, get-insert c.name n c.id once.by_name, e)
            (later_name (create c) rest n _ _ (λ k now. cc (e, (eq_iff c.name n).1 now.1))
              (f.names n))
    ];
  }

  pub edit-Fits :
      (op : StorageOperation) (id : String)
      → ((k n : String) → ¬ (CreatesOne k n op))
      → Fits (op ∷ rest) again once
      → Fits rest (modify id (change op) 0 again).1 (modify id (change op) 0 once).1
  unfolding modify
  edit-Fits op id none' f = record {
    ids = λ k.
        rw
          (
            get-update id k (stamp (change op) 0) again.by_id,
            get-update id k (stamp (change op) 0) once.by_id,
          )
          (elim (Bool-cases (str_eq id k)) [
            | inl e ↦ rw e (edited k _ _ (later_id op rest k _ _ (none' k) (f.ids k)))
            | inr e ↦ rw e (later_id op rest k _ _ (none' k) (f.ids k))
          ]);
    names = λ n. later_name op rest n _ _ (λ k. none' k n) (f.names n);
  }
    where
      edited :
          (k : String) (a b : Option ContainerMeta)
          → IdFits rest k a b
          → IdFits rest k (Option.map (stamp (change op) 0) a) (Option.map (stamp (change op) 0) b)
      edited k a b (inl same) = inl (SameEntry-change op 0 0 a b same)
      edited k a b (inr (gone, (m, here, later))) = inr (
        ap (Option.map (stamp (change op) 0)) gone,
        (
          stamp (change op) 0 m,
          ap (Option.map (stamp (change op) 0)) here,
          subst (λ n. Creates k n rest) (sym (name-change op m)) later,
        ),
      )

  module _ (d : String) (f : Fits (delete d ∷ rest) again once) where
    kept_id : (k : String) → IdFits rest k (Dict.get k again.by_id) (Dict.get k once.by_id)
    kept_id k = later_id (delete d) rest k _ _ (λ n now. now) (f.ids k)

    kept_name : (n : String) → NameFits rest n (Dict.get n again.by_name) (Dict.get n once.by_name)
    kept_name n = later_name (delete d) rest n _ _ (λ k now. now) (f.names n)

    -- The entry is there in both runs.
    delete_both :
        (a b : ContainerMeta)
        → Dict.get d again.by_id ≡ some a
        → Dict.get d once.by_id ≡ some b
        → a.name ≡ b.name
        → Fits rest (remove_meta d again) (remove_meta d once)
    unfolding remove_meta
    delete_both a b ea eb same =
        rw (ea, eb, remove_meta)
          (record {
            ids = λ k.
                rw (get-remove d k again.by_id, get-remove d k once.by_id)
                  (elim (Bool-cases (str_eq d k)) [
                    | inl e ↦ rw e (inl refl)
                    | inr e ↦ rw e (kept_id k)
                  ]);
            names = λ n.
                rw (get-remove a.name n again.by_name, get-remove b.name n once.by_name, same)
                  (elim (Bool-cases (str_eq b.name n)) [
                    | inl e ↦ rw e (inl refl)
                    | inr e ↦ rw e (kept_name n)
                  ]);
          })

    -- The entry is left over in the second run, and will be created anew.
    delete_left_over :
        (a : ContainerMeta)
        → Dict.get d again.by_id ≡ some a
        → Dict.get d once.by_id ≡ none
        → Creates d a.name rest
        → Fits rest (remove_meta d again) (remove_meta d once)
    unfolding remove_meta
    delete_left_over a ea eb later =
        rw (ea, eb, remove_meta)
          (record {
            ids = λ k. rw (get-remove d k again.by_id) (elim (Bool-cases (str_eq d k)) [
              | inl e ↦ rw e (inl (ground (arith, eq_iff d k)))
              | inr e ↦ rw e (kept_id k)
            ]);
            names = λ n.
                rw (get-remove a.name n again.by_name) (elim (Bool-cases (str_eq a.name n)) [
                  | inl e ↦ inr (d, subst (λ x. Creates d x rest) ((eq_iff a.name n).0 e) later)
                  | inr e ↦ rw e (kept_name n)
                ]);
          })

    pub delete-Fits : Fits rest (remove_meta d again) (remove_meta d once)
    unfolding remove_meta
    delete-Fits = split (Dict.get d again.by_id) (Dict.get d once.by_id) refl refl (f.ids d)
      where
        split :
            (x y : Option ContainerMeta)
            → Dict.get d again.by_id ≡ x
            → Dict.get d once.by_id ≡ y
            → IdFits (delete d ∷ rest) d (Dict.get d again.by_id) (Dict.get d once.by_id)
            → Fits rest (remove_meta d again) (remove_meta d once)
        split none none ex ey h =
            rw (ex, ey, remove_meta) (record { ids = kept_id; names = kept_name })
        split (some a) (some b) ex ey (inl same) =
            delete_both a b ex ey (SameEntry-name a b (rw (ex, ey) at same))
        split (some a) (some b) ex ey (inr (gone, more)) = absurd (cc)
        split (some a) none ex ey (inl same) = absurd (cc (rw (ex, ey) at same))
        split (some a) none ex ey (inr (gone, (m, here, inl now))) = absurd now
        split (some a) none ex ey (inr (gone, (m, here, inr later))) =
            let same : m ≡ a = cc in
            delete_left_over a ex ey
              (subst (λ (x : ContainerMeta). Creates d x.name rest) same later)
        split none (some b) ex ey (inl same) = absurd (cc (rw (ex, ey) at same))
        split none (some b) ex ey (inr (gone, more)) = absurd (cc)
