-- ===== src/Metas/Query.antt =====
-- The queries of `ContainerManager` and `ContainerFilter` of src/core/metas/meta.rs and
-- src/core/metas/mod.rs.
pub mod Conditions
pub mod Filter
pub mod Summary
use rtain.Base.{
  ℕ, zero, suc, ◌+◌, ◌*◌, String, Bool, true, false, not, ◌&&◌, ◌||◌, List, [], ◌∷◌, Option, none,
  some, keep, take, length, ltb, ◌==◌, str_eq, if◌then◌else◌, Outcome, ok, ◌>>=◌,
}
use rtain.Base.Dict
use rtain.Base.Dict.{Dict}
use rtain.Base.Text.{codes, contains}
use rtain.Base.Words.{Profile, add_u64, sub_u64, mul_u64}
use rtain.Metas.Types.{
  ContainerStatus, creating, running, paused, restarting, removing, exited, dead, ContainerMeta,
}
use rtain.Metas.Container.{is_running}
use rtain.Metas.Storage.{StorageInner, get_all_metas}

pub record ContainerFilter : Type 0 where
  pub status : Option ContainerStatus
  pub labels : Dict String
  pub name_pattern : Option String
  pub since : Option ℕ
  pub until : Option ℕ
  pub limit : Option ℕ

-- `ContainerFilter::default()`
abbrev pub any : ContainerFilter
any = record {
  status = none;
  labels = [];
  name_pattern = none;
  since = none;
  until = none;
  limit = none;
}

-- The derived equality of the statuses, by their places in the declaration.
abbrev pub place : ContainerStatus → ℕ
place creating = 0
place running = 1
place paused = 2
place restarting = 3
place removing = 4
place exited = 5
place dead = 6

unfoldable pub status_eq : ContainerStatus → ContainerStatus → Bool
status_eq a b = place a == place b

abbrev pub is_value : String → Option String → Bool
is_value value none = false
is_value value (some v) = str_eq v value

-- The loop over the labels of the filter.
unfoldable pub has_labels : Dict String → Dict String → Bool
has_labels [] labels = true
has_labels ((key, value) ∷ wanted) labels =
    let rest = has_labels wanted labels in
    if not (is_value value (Dict.get key labels)) then false else rest

-- A test that a filter may leave out.
abbrev pub passes {ℓ} : {A : Type ℓ} → Option A → (A → Bool) → Bool
passes none test = true
passes (some a) test = test a

-- `matches`
unfoldable pub matches : ContainerFilter → ContainerMeta → Bool
unfolding status_eq has_labels contains
matches f meta =
    if not (passes f.status (λ status. status_eq meta.state.status status))
    then false
    else if not (has_labels f.labels meta.labels)
    then false
    else if not (passes f.name_pattern (λ pattern. contains (codes pattern) (codes meta.name)))
    then false
    else if not (passes f.since (λ since. not (ltb meta.created_at since)))
    then false
    else if not (passes f.until (λ until. not (ltb until meta.created_at)))
    then false
    else true

-- `truncate`, where the filter has a limit.
abbrev pub truncate {ℓ} : {A : Type ℓ} → Option ℕ → List A → List A
truncate none xs = xs
truncate (some n) xs = take n xs

abbrev pub select : Option ContainerFilter → List ContainerMeta → List ContainerMeta
select none metas = metas
select (some f) metas = truncate f.limit (keep (matches f) metas)

-- `list_containers`
unfoldable pub list_containers : Option ContainerFilter → StorageInner → List ContainerMeta
unfolding get_all_metas
list_containers filter s = select filter (get_all_metas s)

-- `ContainerFilter::by_status`, `by_label` and `recent`
unfoldable pub by_status : ContainerStatus → ContainerFilter
by_status status = record any { status = some status }

unfoldable pub by_label : String → String → ContainerFilter
by_label key value = record any { labels = (key, value) ∷ [] }

unfoldable pub recent : Profile → ℕ → ℕ → Outcome ContainerFilter
recent profile now hours = do
  age ← mul_u64 profile hours 3600
  start ← sub_u64 profile now age
  ok (record any { since = some start })

unfoldable pub get_containers_by_status : ContainerStatus → StorageInner → List ContainerMeta
unfolding by_status list_containers
get_containers_by_status status s = list_containers (some (by_status status)) s

unfoldable pub get_containers_by_label : String → String → StorageInner → List ContainerMeta
unfolding by_label list_containers
get_containers_by_label key value s = list_containers (some (by_label key value)) s

pub record ResourceSummary : Type 0 where
  pub total_memory : ℕ
  pub total_cpu : ℕ
  pub running_count : ℕ
  pub total_count : ℕ
  pub containers_by_status : List (ContainerStatus × ℕ)

-- `entry(status).or_insert(0)` and `+= 1`
unfoldable pub count_status :
    ContainerStatus → List (ContainerStatus × ℕ) → List (ContainerStatus × ℕ)
count_status status [] = (status, 1) ∷ []
count_status status ((t, n) ∷ counts) =
    let rest = count_status status counts in
    if status_eq t status then (t, suc n) ∷ counts else (t, n) ∷ rest

abbrev pub add_memory : Profile → ℕ → Option ℕ → Outcome ℕ
add_memory profile total none = ok total
add_memory profile total (some memory) = add_u64 profile total memory

-- Floating-point addition is the machine's: a parameter.
abbrev pub add_cpu : (ℕ → ℕ → ℕ) → ℕ → Option ℕ → ℕ
add_cpu add_f64 total none = total
add_cpu add_f64 total (some cpu) = add_f64 total cpu

module _ (profile : Profile) (add_f64 : ℕ → ℕ → ℕ) where
  unfoldable pub count_container : ContainerMeta → ResourceSummary → Outcome ResourceSummary
  unfolding count_status is_running
  count_container meta summary = do
    memory ← add_memory profile summary.total_memory meta.resources.memory_limit
    ok (record summary {
      total_memory = memory;
      total_cpu = add_cpu add_f64 summary.total_cpu meta.resources.cpu_limit;
      containers_by_status = count_status meta.state.status summary.containers_by_status;
      running_count =
          (if is_running meta.state.status
            then suc summary.running_count
            else summary.running_count);
    })

  unfoldable pub count_containers : List ContainerMeta → ResourceSummary → Outcome ResourceSummary
  count_containers [] summary = ok summary
  count_containers (meta ∷ metas) summary = do
    next ← count_container meta summary
    count_containers metas next

  -- `get_resource_summary`
  unfoldable pub get_resource_summary : StorageInner → Outcome ResourceSummary
  unfolding count_containers get_all_metas
  get_resource_summary s = count_containers (get_all_metas s) (record {
    total_memory = 0;
    total_cpu = 0;
    running_count = 0;
    total_count = length (get_all_metas s);
    containers_by_status = [];
  })
