-- ===== src/Metas/Query/Summary.antt =====
-- What the resource summary counts.
use rtain.Base.{
  ℕ, suc, ◌+◌, ◌≡◌, ◌<◌, ◌^◌, refl, sym, ap, ◌∙◌, inl, inr, true, false, List, [], ◌∷◌, Option,
  none, some, arith, length, if◌then◌else◌, Bool-cases, ok, >>=-eq-ok,
}
use rtain.Base.Words.{Profile, add_u64}
use rtain.Metas.Types.{
  ContainerStatus, ContainerMeta, creating, running, paused, restarting, removing, exited, dead,
}
use rtain.Metas.Container.{is_running}
use rtain.Metas.Storage.{StorageInner, get_all_metas}
use rtain.Metas.Query.Conditions.{status_eq_iff}
use rtain.Metas.Query.{
  add_memory, add_cpu, status_eq, ResourceSummary, count_status, count_container, count_containers,
  get_resource_summary,
}

-- The count of a status; one that is missing counts as 0.
unfoldable pub count_of : ContainerStatus → List (ContainerStatus × ℕ) → ℕ
count_of status [] = 0
count_of status ((t, n) ∷ counts) =
    let rest = count_of status counts in if status_eq t status then n else rest

-- How many containers have a status.
unfoldable pub with_status : ContainerStatus → List ContainerMeta → ℕ
with_status status [] = 0
with_status status (meta ∷ metas) =
    let rest = with_status status metas in
    if status_eq meta.state.status status then suc rest else rest

same_status : (u t s : ContainerStatus) → status_eq u t ≡ true → status_eq u s ≡ status_eq t s
same_status u t s h = ap (λ v. status_eq v s) ((status_eq_iff u t).0 h)

other_status :
    (u t s : ContainerStatus) → status_eq u t ≡ false → status_eq u s ≡ true → status_eq t s ≡ false
other_status u t s differ same =
    let e = (status_eq_iff u s).0 same in
    elim (Bool-cases (status_eq t s)) [
      | inl ts ↦
          let both = (status_eq_iff u t).1 (e ∙ sym ((status_eq_iff t s).0 ts)) in absurd (cc)
      | inr ts ↦ ts
    ]

count_of-count_status :
    (s t : ContainerStatus) (counts : List (ContainerStatus × ℕ))
    → count_of s (count_status t counts)
      ≡ (if status_eq t s then suc (count_of s counts) else count_of s counts)
unfolding count_of count_status
count_of-count_status s t [] = ground arith
count_of-count_status s t ((u, n) ∷ counts) = elim (Bool-cases (status_eq u t)) [
  | inl e ↦ let same = same_status u t s e in rw (e, count_status) (ground (arith, same))
  | inr e ↦ elim (Bool-cases (status_eq u s)) [
    | inl us ↦ let ts = other_status u t s e us in rw (e, count_status) (rw (us, ts) refl)
    | inr us ↦ rw (e, count_status) (rw us (count_of-count_status s t counts))
  ]
]

is_running-eq : (s : ContainerStatus) → is_running s ≡ status_eq s running
unfolding is_running status_eq
is_running-eq creating = refl
is_running-eq running = refl
is_running-eq paused = refl
is_running-eq restarting = refl
is_running-eq removing = refl
is_running-eq exited = refl
is_running-eq dead = refl

module _ (profile : Profile) (add_f64 : ℕ → ℕ → ℕ) where
  count_containers-counts :
      (metas : List ContainerMeta) (s s' : ResourceSummary)
      → count_containers profile add_f64 metas s ≡ ok s'
      → (s'.total_count ≡ s.total_count)
        × (s'.running_count ≡ with_status running metas + s.running_count)
        × ((status : ContainerStatus)
            → count_of status s'.containers_by_status
              ≡ with_status status metas + count_of status s.containers_by_status)
  unfolding count_containers count_container with_status
  count_containers-counts [] s s' e = ground arith
  count_containers-counts (meta ∷ metas) s s' e =
      let (next, e1, e2) = >>=-eq-ok (count_container profile add_f64 meta s) _ e in
      let (memory, e3, e4) =
        >>=-eq-ok (add_memory profile s.total_memory meta.resources.memory_limit) _ e1 in
      let (total, run, by) = count_containers-counts metas next s' e2 in
      let is_run = is_running-eq meta.state.status in
      let runs : next.running_count
          ≡ (if status_eq meta.state.status running then suc s.running_count else s.running_count) =
        rw⁻¹ is_run cc in
      let counts : next.containers_by_status
          ≡ count_status meta.state.status s.containers_by_status =
        cc in
      (
        cc,
        ground arith,
        (λ status.
            let counted = count_of-count_status status meta.state.status s.containers_by_status in
            let later = by status in
            let first : count_of status next.containers_by_status ≡ (
                if status_eq meta.state.status status
                then suc (count_of status s.containers_by_status)
                else count_of status s.containers_by_status) =
              rw counts counted in
            ground arith),
      )

-- A resource summary that is computed counts all containers, those that run, and those of each
-- status.
pub get_resource_summary-counts :
    (profile : Profile) (add_f64 : ℕ → ℕ → ℕ) (s : StorageInner) (summary : ResourceSummary)
    → get_resource_summary profile add_f64 s ≡ ok summary
    → (summary.total_count ≡ length (get_all_metas s))
      × (summary.running_count ≡ with_status running (get_all_metas s))
      × ((status : ContainerStatus)
          → count_of status summary.containers_by_status ≡ with_status status (get_all_metas s))
unfolding get_resource_summary count_of
get_resource_summary-counts profile add_f64 s summary e =
    let (total, run, by) = count_containers-counts profile add_f64 (get_all_metas s) _ summary e in
    (total, ground arith, (λ status. let b = by status in ground arith))

abbrev memory_of : Option ℕ → ℕ
memory_of none = 0
memory_of (some m) = m

-- The memory limits of all containers together.
unfoldable pub memory_total : List ContainerMeta → ℕ
memory_total [] = 0
memory_total (meta ∷ metas) = memory_of meta.resources.memory_limit + memory_total metas

module _ (profile : Profile) (add_f64 : ℕ → ℕ → ℕ) where
  add_memory-ok :
      (total : ℕ) (m : Option ℕ)
      → total + memory_of m < 2 ^ 64
      → add_memory profile total m ≡ ok (total + memory_of m)
  unfolding add_u64
  add_memory-ok total none h = ap ok (omega arith)
  add_memory-ok total (some m) h = ground arith

  count_containers-ok :
      (metas : List ContainerMeta) (s : ResourceSummary)
      → s.total_memory + memory_total metas < 2 ^ 64
      → (s' : ResourceSummary) × (count_containers profile add_f64 metas s ≡ ok s')
        × (s'.total_memory ≡ s.total_memory + memory_total metas)
  unfolding count_containers count_container memory_total
  count_containers-ok [] s h = (s, refl, omega arith)
  count_containers-ok (meta ∷ metas) s h =
      let added = add_memory-ok s.total_memory meta.resources.memory_limit (omega arith) in
      let (s', e, total) =
        count_containers-ok metas
          (record s {
            total_memory = s.total_memory + memory_of meta.resources.memory_limit;
            total_cpu = add_cpu add_f64 s.total_cpu meta.resources.cpu_limit;
            containers_by_status = count_status meta.state.status s.containers_by_status;
            running_count =
                (if is_running meta.state.status then suc s.running_count else s.running_count);
          })
          (omega arith) in
      (s', rw added e, omega (arith, total))

  -- The summary is computed, in both builds, when the memory limits together fit in 64 bits, and
  -- its memory is their sum.
  pub get_resource_summary-fits :
      (s : StorageInner)
      → memory_total (get_all_metas s) < 2 ^ 64
      → (summary : ResourceSummary) × (get_resource_summary profile add_f64 s ≡ ok summary)
        × (summary.total_memory ≡ memory_total (get_all_metas s))
  unfolding get_resource_summary
  get_resource_summary-fits s h =
      let (summary, e, total) = count_containers-ok (get_all_metas s) _ (omega arith) in
      (summary, e, omega (arith, total))
