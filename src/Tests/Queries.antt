-- ===== src/Tests/Queries.antt =====
-- The theorems about the queries at two containers.
use mathlib.Core.List.{Memᴰ}
use rtain.Base.{List, ℕ, ◌≡◌, ◌<◌, ◌^◌, ◌↔◌, refl, [], ◌∷◌, none, some, ok, arith, pos}
use rtain.Base.Words.{debug, add_u64}
use rtain.Base.Dict
use rtain.Metas.Types.{ContainerMeta, creating, running}
use rtain.Metas.Container
use rtain.Metas.Storage.{StorageInner, get_all_metas}
use rtain.Metas.Query.{
  ContainerFilter, any, truncate, list_containers, ResourceSummary, count_containers,
  count_container, count_status, status_eq, get_resource_summary,
}
use rtain.Metas.Query.Filter.{Selected, list_containers-selects}
use rtain.Metas.Query.Summary.{memory_total, get_resource_summary-fits}
use rtain.Tests.Samples.{web, config}

-- A second container, which runs and has a memory limit.
abbrev database : ContainerMeta
database =
    record (Container.set_running (Container.new 200 "2c3d" "database" "pg.tar" [] []) (pos 42) 200
      200) {
        resources = record {
          memory_limit = some 4096;
          cpu_limit = none;
          pids_limit = none;
          disk_limit = none;
        };
      }

abbrev two : StorageInner
two = record {
  config = config;
  wal = record { current = none; temp = none; archive = none };
  snapshots = [];
  state = record {
    by_id = ("0a1b", web) ∷ ("2c3d", database) ∷ [];
    by_name = ("web", "0a1b") ∷ ("database", "2c3d") ∷ [];
  };
}

abbrev recent_data : ContainerFilter
recent_data = record any { name_pattern = some "data"; since = some 150 }

abbrev one_of_data : ContainerFilter
one_of_data = record recent_data { limit = some 1 }

list_containers-selects_example :
    (all : List ContainerMeta) × ((meta : ContainerMeta)
      → Memᴰ meta all ↔ (Memᴰ meta (get_all_metas two) × Selected one_of_data meta))
    × (list_containers (some one_of_data) two ≡ truncate (some 1) all)
list_containers-selects_example = list_containers-selects one_of_data two

abbrev one_of_all : ContainerFilter
one_of_all = record any { limit = some 1 }

abbrev left : ℕ → ℕ → ℕ
left a b = a

abbrev summary_of_two : ResourceSummary
summary_of_two = record {
  total_memory = 4096;
  total_cpu = 0;
  running_count = 1;
  total_count = 2;
  containers_by_status = (creating, 1) ∷ (running, 1) ∷ [];
}

summarized : get_resource_summary debug left two ≡ ok summary_of_two
unfolding get_resource_summary count_containers count_container count_status status_eq get_all_metas
    Dict.values Container.new Container.set_running Container.is_running add_u64
summarized = refl

small_total : memory_total (get_all_metas two) < 2 ^ 64
unfolding memory_total get_all_metas Dict.values Container.new Container.set_running
small_total = omega arith

get_resource_summary-fits_example :
    (summary : ResourceSummary) × (get_resource_summary debug left two ≡ ok summary)
    × (summary.total_memory ≡ memory_total (get_all_metas two))
get_resource_summary-fits_example = get_resource_summary-fits debug left two small_total
