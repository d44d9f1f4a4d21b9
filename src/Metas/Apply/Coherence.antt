-- ===== src/Metas/Apply/Coherence.antt =====
-- The two maps of `InnerState` agree: a name leads to a container of that name.
use rtain.Base.{
  ℕ, suc, String, ◌≡◌, refl, ◌∙◌, some, none, inl, inr, arith, str_eq, eq_iff, [], Option,
  Bool-cases, Option-cases,
}
use rtain.Base.Dict
use rtain.Base.Dict.{get-insert, get-remove, get-update}
use rtain.Metas.Types.{
  ContainerMeta, InnerState, StorageOperation, create, delete, batch, Operations, nil, cons,
}
use rtain.Metas.Apply.{
  Clock, member, empty, stamp, modify, insert_meta, remove_meta, apply_operation, apply_operations,
}
use rtain.Metas.Apply.Edits.{target, change, id-change, name-change}
use rtain.Metas.Apply.Totality.{ops-cons}

-- Every name leads to a container of that name, and every container stands under its own id.
pub record IsCoherent (s : InnerState) : Type 0 where
  pub named :
      (n id : String)
      → Dict.get n s.by_name ≡ some id
      → (m : ContainerMeta) × (Dict.get id s.by_id ≡ some m) × (m.name ≡ n)
  pub keyed : (id : String) (m : ContainerMeta) → Dict.get id s.by_id ≡ some m → m.id ≡ id

-- A container that is created under an id in use keeps the name that the id has.
abbrev pub Renames : ContainerMeta → InnerState → Type 0
Renames meta s = (m : ContainerMeta) → Dict.get meta.id s.by_id ≡ some m → m.name ≡ meta.name

pub IsCoherent-empty : IsCoherent empty
unfolding Dict.get
IsCoherent-empty = record { named = λ n id h. absurd (cc); keyed = λ id m h. absurd (cc) }

module _ (meta : ContainerMeta) (s : InnerState) (c : IsCoherent s) (same : Renames meta s) where
  insert-named :
      (n id : String)
      → Dict.get n (insert_meta meta s).by_name ≡ some id
      → (m : ContainerMeta) × (Dict.get id (insert_meta meta s).by_id ≡ some m) × (m.name ≡ n)
  unfolding insert_meta
  insert-named n id h = elim (Bool-cases (str_eq meta.name n)) [
    | inl e ↦ (
      meta,
      ground (
        arith,
        h,
        get-insert meta.name n meta.id s.by_name,
        get-insert meta.id id meta s.by_id,
        eq_iff meta.id id,
      ),
      (eq_iff meta.name n).0 e,
    )
    | inr e ↦ kept (c.named n id (ground (arith, get-insert meta.name n meta.id s.by_name)))
  ]
    where
      kept :
          (m : ContainerMeta) × (Dict.get id s.by_id ≡ some m) × (m.name ≡ n)
          → (m : ContainerMeta) × (Dict.get id (insert_meta meta s).by_id ≡ some m) × (m.name ≡ n)
      kept (m, found, name) = elim (Bool-cases (str_eq meta.id id)) [
        | inl e ↦ (
          meta,
          ground (arith, get-insert meta.id id meta s.by_id),
          ground (arith, eq_iff meta.id id, same m),
        )
        | inr e ↦ (m, ground (arith, get-insert meta.id id meta s.by_id), name)
      ]

  insert-IsCoherent : IsCoherent (insert_meta meta s)
  unfolding insert_meta
  insert-IsCoherent = record {
    named = insert-named;
    keyed = λ id m h.
        ground (arith, get-insert meta.id id meta s.by_id, eq_iff meta.id id, c.keyed id m);
  }

module _ (id : String) (s : InnerState) (c : IsCoherent s) where
  remove_meta-IsCoherent : IsCoherent (remove_meta id s)
  unfolding remove_meta
  remove_meta-IsCoherent = elim (Option-cases (Dict.get id s.by_id)) [
    | inl missing ↦ rw (missing, remove_meta) c
    | inr (meta, found) ↦ rw (found, remove_meta) (removed meta found)
  ]
    where
      removed :
          (meta : ContainerMeta)
          → Dict.get id s.by_id ≡ some meta
          → IsCoherent (record s {
            by_id = Dict.remove id s.by_id;
            by_name = Dict.remove meta.name s.by_name;
          })
      removed meta found = record {
        named = λ n j h.
            let (m, at_j, name) = c.named n j (ground (arith, get-remove meta.name n s.by_name)) in
            (
              m,
              ground (
                arith,
                get-remove id j s.by_id,
                get-remove meta.name n s.by_name,
                eq_iff id j,
                eq_iff meta.name n,
              ),
              name,
            );
        keyed = λ j m h. ground (arith, get-remove id j s.by_id, c.keyed j m);
      }

  modify-IsCoherent :
      (change : ContainerMeta → ContainerMeta) (time : ℕ)
      → ((m : ContainerMeta) → (change m).id ≡ m.id)
      → ((m : ContainerMeta) → (change m).name ≡ m.name)
      → IsCoherent (modify id change time s).1
  unfolding modify
  modify-IsCoherent change time ids names = record {
    named = λ n j h.
        let (m, at_j, name) = c.named n j h in
        elim (Bool-cases (str_eq id j)) [
          | inl e ↦ (
            stamp change time m,
            ground (arith, get-update id j (stamp change time) s.by_id),
            names m ∙ name,
          )
          | inr e ↦ (m, ground (arith, get-update id j (stamp change time) s.by_id), name)
        ];
    keyed = λ j m h. at_key j m (Dict.get j s.by_id) refl h;
  }
    where
      at_key :
          (j : String) (m : ContainerMeta) (o : Option ContainerMeta)
          → Dict.get j s.by_id ≡ o
          → Dict.get j (Dict.update id (stamp change time) s.by_id) ≡ some m
          → m.id ≡ j
      at_key j m none e h = ground (arith, get-update id j (stamp change time) s.by_id)
      at_key j m (some old) e h =
          ground (arith, get-update id j (stamp change time) s.by_id, c.keyed j old, ids old)

-- No create of an operation gives an id in use another name, at the state that it meets.
unfoldable mutual
  unfolding apply_operation

  pub Admissible : Clock → StorageOperation → InnerState → Type 0
  Admissible clock (create meta) s = Renames meta s
  Admissible clock (batch ops) s = AdmissibleAll clock 0 ops s
  Admissible clock _ s = Unit

  pub AdmissibleAll : Clock → ℕ → Operations → InnerState → Type 0
  AdmissibleAll clock i nil s = Unit
  AdmissibleAll clock i (cons op ops) s =
      Admissible (member i clock) op s
      × AdmissibleAll clock (suc i) ops (apply_operation (member i clock) op s).1

mutual
  unfolding apply_operation Admissible

  op-IsCoherent :
      (clock : Clock) (op : StorageOperation) (s : InnerState)
      → Admissible clock op s
      → IsCoherent s
      → IsCoherent (apply_operation clock op s).1
  op-IsCoherent clock (create meta) s a c = insert-IsCoherent meta s c a
  op-IsCoherent clock (delete id) s a c = remove_meta-IsCoherent id s c
  op-IsCoherent clock (batch ops) s a c = ops-IsCoherent clock 0 ops s a c
  op-IsCoherent clock op s a c =
      modify-IsCoherent (target op) s c (change op) (clock []) (id-change op) (name-change op)

  ops-IsCoherent :
      (clock : Clock) (i : ℕ) (ops : Operations) (s : InnerState)
      → AdmissibleAll clock i ops s
      → IsCoherent s
      → IsCoherent (apply_operations clock i ops s).1
  ops-IsCoherent clock i nil s a c = c
  ops-IsCoherent clock i (cons op ops) s a c = rw (ops-cons clock i op ops s) (
      ops-IsCoherent clock (suc i) ops (apply_operation (member i clock) op s).1 a.1
        (op-IsCoherent (member i clock) op s a.0 c))

-- Every operation, batches included, keeps the two maps in agreement, if no create in it gives an id
-- in use another name.
pub apply_operation-IsCoherent :
    (clock : Clock) (op : StorageOperation) (s : InnerState)
    → Admissible clock op s
    → IsCoherent s
    → IsCoherent (apply_operation clock op s).1
apply_operation-IsCoherent = op-IsCoherent
