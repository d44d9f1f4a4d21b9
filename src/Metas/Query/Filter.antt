-- ===== src/Metas/Query/Filter.antt =====
-- Which containers a query returns.
use mathlib.Core.List.{Memᴰ}
use mathlib.Core.List.Memᴰ.{head, tail}
use rtain.Base.{
  ℕ, zero, suc, ◌≡◌, ◌≤◌, refl, sym, ap, ◌∙◌, ◌↔◌, Bool, true, false, not, List, [], ◌∷◌, Option,
  none, some, arith, ltb, if◌then◌else◌, keep, length, take,
}
use rtain.Metas.Query.Conditions.{On, Occurs, Labelled, status_eq_iff, contains_iff, has_labels_iff}
use rtain.Base.Text.{codes}
use rtain.Metas.Types.{ContainerMeta}
use rtain.Metas.Storage.{StorageInner, get_all_metas}
use rtain.Metas.Query.{ContainerFilter, matches, passes, truncate, list_containers}

-- What a filter promises of a container that it selects.
abbrev pub Selected : ContainerFilter → ContainerMeta → Type 0
Selected f meta =
    On f.status (λ status. meta.state.status ≡ status)
    × Labelled f.labels meta.labels
    × On f.name_pattern (λ pattern. Occurs (codes pattern) (codes meta.name))
    × On f.since (λ since. since ≤ meta.created_at)
    × On f.until (λ until. meta.created_at ≤ until)

passes_iff {ℓ} :
    {A : Type ℓ} {P : A → Type 0} {test : A → Bool} (o : Option A)
    → ((a : A) → (test a ≡ true) ↔ P a)
    → (passes o test ≡ true) ↔ On o P
passes_iff none h = (λ _. tt, λ _. refl)
passes_iff (some a) h = h a

-- A chain of early returns.
all_pass_iff :
    (a b c d e : Bool)
    → ((if not a
          then false
          else if not b
          then false
          else if not c
          then false
          else if not d
          then false
          else if not e
          then false
          else true)
        ≡ true)
      ↔ ((a ≡ true) × (b ≡ true) × (c ≡ true) × (d ≡ true) × (e ≡ true))
all_pass_iff a b c d e = (λ h. ground arith, λ (ha, hb, hc, hd, he). ground arith)

-- `matches` holds exactly of the containers with the filter's status, all of its labels, a name in
-- which the pattern occurs, and a creation time within the bounds.
pub matches_iff :
    (f : ContainerFilter) (meta : ContainerMeta) → (matches f meta ≡ true) ↔ Selected f meta
unfolding matches
matches_iff f meta =
    let status = passes_iff f.status (λ status. status_eq_iff meta.state.status status) in
    let labels = has_labels_iff f.labels meta.labels in
    let name =
      passes_iff f.name_pattern (λ pattern. contains_iff (codes pattern) (codes meta.name)) in
    let since = passes_iff f.since (λ since. not_below_iff meta.created_at since) in
    let until = passes_iff f.until (λ until. not_below_iff until meta.created_at) in
    (
      (λ h.
          let (h1, h2, h3, h4, h5) = (all_pass_iff _ _ _ _ _).0 h in
          (status.0 h1, labels.0 h2, name.0 h3, since.0 h4, until.0 h5)),
      (λ (h1, h2, h3, h4, h5).
          (all_pass_iff _ _ _ _ _).1 (status.1 h1, labels.1 h2, name.1 h3, since.1 h4, until.1 h5)),
    )
  where
    not_below_iff : (a b : ℕ) → (not (ltb a b) ≡ true) ↔ (b ≤ a)
    not_below_iff a b = (λ h. ground arith, λ h. ground arith)

module _ {ℓ} {A : Type ℓ} (p : A → Bool) (a : A) where
  mem-keep : (xs : List A) → Memᴰ a (keep p xs) → Memᴰ a xs × (p a ≡ true)
  mem-keep [] m = elim m [ ]
  mem-keep (x ∷ xs) m = split (p x) refl (mem-keep xs) m
    where
      split :
          (b : Bool)
          → p x ≡ b
          → (Memᴰ a (keep p xs) → Memᴰ a xs × (p a ≡ true))
          → Memᴰ a (elim b as (λ _. List A) [ true ↦ x ∷ keep p xs | false ↦ keep p xs ])
          → Memᴰ a (x ∷ xs) × (p a ≡ true)
      split true e rest (head same) = (head same, ap p same ∙ e)
      split true e rest (tail later) = let (m, t) = rest later in (tail m, t)
      split false e rest later = let (m, t) = rest later in (tail m, t)

  keep-mem : (xs : List A) → Memᴰ a xs → p a ≡ true → Memᴰ a (keep p xs)
  keep-mem [] m t = elim m [ ]
  keep-mem (x ∷ xs) (head same) t = kept (p x) (sym (ap p same) ∙ t)
    where
      kept :
          (b : Bool)
          → b ≡ true
          → Memᴰ a (elim b as (λ _. List A) [ true ↦ x ∷ keep p xs | false ↦ keep p xs ])
      kept true e = head same
      kept false e = absurd (cc)
  keep-mem (x ∷ xs) (tail later) t = kept (p x) (keep-mem xs later t)
    where
      kept :
          (b : Bool)
          → Memᴰ a (keep p xs)
          → Memᴰ a (elim b as (λ _. List A) [ true ↦ x ∷ keep p xs | false ↦ keep p xs ])
      kept true m = tail m
      kept false m = m

-- `list_containers` with a filter that has no limit returns exactly the stored containers that
-- the filter selects.
pub list_containers-exact :
    (f : ContainerFilter) (s : StorageInner) (meta : ContainerMeta)
    → f.limit ≡ none
    → Memᴰ meta (list_containers (some f) s) ↔ (Memᴰ meta (get_all_metas s) × Selected f meta)
unfolding list_containers matches
list_containers-exact f s meta no_limit = (
  (λ m.
      let (found, passed) = mem-keep (matches f) meta (get_all_metas s) (rw no_limit at m) in
      (found, (matches_iff f meta).0 passed)),
  (λ (found, selected).
      rw no_limit
        (keep-mem (matches f) meta (get_all_metas s) found ((matches_iff f meta).1 selected))),
)

take-length_le {ℓ} : {A : Type ℓ} (n : ℕ) (xs : List A) → length (take n xs) ≤ n
take-length_le zero xs = omega arith
take-length_le (suc n) [] = omega arith
take-length_le (suc n) (x ∷ xs) = omega (arith, take-length_le n xs)

-- With a limit, it returns no more containers than that, the first of those that the same filter
-- returns without the limit.
pub list_containers-limit :
    (f : ContainerFilter) (s : StorageInner) (n : ℕ)
    → f.limit ≡ some n
    → (length (list_containers (some f) s) ≤ n)
      × (list_containers (some f) s ≡ take n (list_containers (some (record f { limit = none })) s))
unfolding list_containers matches
list_containers-limit f s n limit = rw limit (take-length_le n _, refl)

-- A query picks the stored containers that the filter selects, and returns the first of them, as
-- many as the limit allows, or all of them when there is none.
pub list_containers-selects :
    (f : ContainerFilter) (s : StorageInner)
    → (all : List ContainerMeta) × ((meta : ContainerMeta)
        → Memᴰ meta all ↔ (Memᴰ meta (get_all_metas s) × Selected f meta))
      × (list_containers (some f) s ≡ truncate f.limit all)
unfolding list_containers matches
list_containers-selects f s = (
  list_containers (some (record f { limit = none })) s,
  λ meta. list_containers-exact (record f { limit = none }) s meta refl,
  refl,
)
