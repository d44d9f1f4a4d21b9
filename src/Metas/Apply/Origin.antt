-- ===== src/Metas/Apply/Origin.antt =====
-- Where the entries of a state come from: each was created by an operation that was executed.
use rtain.Base.{
  String, ◌≡◌, refl, ◌∙◌, List, [], ◌∷◌, ◌++◌, Option, none, some, ◌⊎◌, inl, inr, All, arith,
  str_eq, eq_iff, Bool-cases, Option-cases,
}
use mathlib.Core.Path.{subst}
use rtain.Base.Dict
use rtain.Base.Dict.{get-insert, get-remove, get-update, get-nil}
use rtain.Metas.Types.{ContainerMeta, InnerState, StorageOperation, create, delete, batch}
use rtain.Metas.Apply.{empty, stamp, modify, remove_meta, apply_operation}
use rtain.Metas.Apply.Edits.{target, change, name-change}
use rtain.Metas.Apply.Flatten.{no_clock, exec, IsPlain}

-- The operation creates a container of this id and this name.
abbrev pub CreatesOne : String → String → StorageOperation → Type 0
CreatesOne k n (create m) = (m.id ≡ k) × (m.name ≡ n)
CreatesOne k n _ = ⊥

abbrev pub Creates : String → String → List StorageOperation → Type 0
Creates k n [] = ⊥
Creates k n (op ∷ ops) = CreatesOne k n op ⊎ Creates k n ops

pub Creates-append :
    (k n : String) (p q : List StorageOperation) → Creates k n p → Creates k n (p ++ q)
Creates-append k n [] q h = absurd h
Creates-append k n (op ∷ p) q (inl h) = inl h
Creates-append k n (op ∷ p) q (inr h) = inr (Creates-append k n p q h)

-- An entry under `k` that was there, with this name.
abbrev Had : String → String → InnerState → Type 0
Had k n s = (m : ContainerMeta) × (Dict.get k s.by_id ≡ some m) × (m.name ≡ n)

abbrev HadName : String → InnerState → Type 0
HadName n s = (k : String) × (Dict.get n s.by_name ≡ some k)

-- A removal leaves no entry that was not there.
remove-id :
    (d k : String) (s : InnerState) (m : ContainerMeta)
    → Dict.get k (remove_meta d s).by_id ≡ some m
    → Dict.get k s.by_id ≡ some m
unfolding remove_meta
remove-id d k s m h = elim (Option-cases (Dict.get d s.by_id)) [
  | inl missing ↦ rw (missing, remove_meta) at h
  | inr (a, found) ↦ let h' = rw (found, remove_meta) at h in ground (arith, get-remove d k s.by_id)
]

remove-name :
    (d n k : String) (s : InnerState)
    → Dict.get n (remove_meta d s).by_name ≡ some k
    → Dict.get n s.by_name ≡ some k
unfolding remove_meta
remove-name d n k s h = elim (Option-cases (Dict.get d s.by_id)) [
  | inl missing ↦ rw (missing, remove_meta) at h
  | inr (a, found) ↦
      let h' = rw (found, remove_meta) at h in ground (arith, get-remove a.name n s.by_name)
]

edit-id :
    (op : StorageOperation) (s : InnerState) (id k : String) (m : ContainerMeta)
    → Dict.get k (modify id (change op) 0 s).1.by_id ≡ some m
    → Had k m.name s
unfolding modify
edit-id op s id k m h = split (Dict.get k s.by_id) refl
  where
    split : (o : Option ContainerMeta) → Dict.get k s.by_id ≡ o → Had k m.name s
    split none e = absurd (ground (arith, get-update id k (stamp (change op) 0) s.by_id))
    split (some a) e =
        (a, e, ground (arith, get-update id k (stamp (change op) 0) s.by_id, name-change op a))

step-id :
    (op : StorageOperation) (s : InnerState) (k : String) (m : ContainerMeta)
    → IsPlain op
    → Dict.get k (apply_operation no_clock op s).1.by_id ≡ some m
    → CreatesOne k m.name op ⊎ Had k m.name s
unfolding apply_operation
step-id (create c) s k m plain h = elim (Bool-cases (str_eq c.id k)) [
  | inl e ↦ inl ((eq_iff c.id k).0 e, ground (arith, get-insert c.id k c s.by_id))
  | inr e ↦ inr (m, ground (arith, get-insert c.id k c s.by_id), refl)
]
step-id (delete d) s k m plain h = inr (m, remove-id d k s m h, refl)
step-id (batch _) s k m plain h = absurd plain
step-id op s k m plain h = inr (edit-id op s (target op) k m h)

step-name :
    (op : StorageOperation) (s : InnerState) (n k : String)
    → IsPlain op
    → Dict.get n (apply_operation no_clock op s).1.by_name ≡ some k
    → ((j : String) × CreatesOne j n op) ⊎ HadName n s
unfolding apply_operation
step-name (create c) s n k plain h = elim (Bool-cases (str_eq c.name n)) [
  | inl e ↦ inl (c.id, (refl, (eq_iff c.name n).0 e))
  | inr e ↦ inr (k, ground (arith, get-insert c.name n c.id s.by_name))
]
step-name (delete d) s n k plain h = inr (k, remove-name d n k s h)
step-name (batch _) s n k plain h = absurd plain
step-name op s n k plain h = inr (k, h)

exec-id :
    (ops : List StorageOperation) (s : InnerState) (k : String) (m : ContainerMeta)
    → All IsPlain ops
    → Dict.get k (exec ops s).by_id ≡ some m
    → Creates k m.name ops ⊎ Had k m.name s
unfolding exec
exec-id [] s k m plain h = inr (m, h, refl)
exec-id (op ∷ ops) s k m (p, ps) h = elim (exec-id ops (apply_operation no_clock op s).1 k m ps h) [
  | inl later ↦ inl (inr later)
  | inr (a, found, name) ↦ elim (step-id op s k a p found) [
    | inl now ↦ inl (inl (subst (λ n. CreatesOne k n op) name now))
    | inr (b, there, same) ↦ inr (b, there, same ∙ name)
  ]
]

exec-name :
    (ops : List StorageOperation) (s : InnerState) (n k : String)
    → All IsPlain ops
    → Dict.get n (exec ops s).by_name ≡ some k
    → ((j : String) × Creates j n ops) ⊎ HadName n s
unfolding exec
exec-name [] s n k plain h = inr (k, h)
exec-name (op ∷ ops) s n k (p, ps) h =
    elim (exec-name ops (apply_operation no_clock op s).1 n k ps h) [
      | inl (j, later) ↦ inl (j, inr later)
      | inr (i, found) ↦ elim (step-name op s n i p found) [
        | inl (j, now) ↦ inl (j, inl now)
        | inr had ↦ inr had
      ]
    ]

-- From nothing, what is there under an id was created under that id, with the name that it has.
pub created_id :
    (ops : List StorageOperation) (k : String) (m : ContainerMeta)
    → All IsPlain ops
    → Dict.get k (exec ops empty).by_id ≡ some m
    → Creates k m.name ops
created_id ops k m plain h = elim (exec-id ops empty k m plain h) [
  | inl c ↦ c
  | inr (a, found, name) ↦ absurd (cc (found, get-nil {V = ContainerMeta} k))
]

-- A name that is there was given by a create.
pub created_name :
    (ops : List StorageOperation) (n k : String)
    → All IsPlain ops
    → Dict.get n (exec ops empty).by_name ≡ some k
    → (j : String) × Creates j n ops
created_name ops n k plain h = elim (exec-name ops empty n k plain h) [
  | inl c ↦ c
  | inr (i, found) ↦ absurd (cc (found, get-nil {V = String} n))
]
