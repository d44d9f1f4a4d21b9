-- ===== src/Metas/Apply.antt =====
-- `InnerState::apply_operation` of src/core/metas/meta.rs. A change is made in place, so the new
-- state comes back beside the result.
pub mod Edits
pub mod Totality
pub mod Coherence
pub mod View
pub mod Flatten
pub mod Origin
pub mod Fits
pub mod Rerun
use rtain.Base.{ℕ, suc, String, Bool, not, List, [], ◌∷◌, ◌++◌, none, some, keep, str_eq}
use rtain.Base.{Outcome, ok, err, panic}
use rtain.Base.Dict
use rtain.Metas.Types.{
  ContainerMeta, InnerState, MountPoint, StorageOperation, create, delete, update_status,
  update_state, update_environment, update_labels, update_resources, attach_network, detach_network,
  add_mount, remove_mount, batch, Operations, nil, cons,
}

-- The readings of the clock that one operation makes: `clock []` is that of a plain operation, and
-- member `i` of a batch has its own readings, under the paths that begin with `i`.
abbrev pub Clock : Type 0
Clock = List ℕ → ℕ

abbrev pub member : ℕ → Clock → Clock
member i clock path = clock (i ∷ path)

-- `InnerState::default()`
abbrev pub empty : InnerState
empty = record { by_id = []; by_name = [] }

abbrev pub Applied : Type 0
Applied = Outcome (Unit {0}) × InnerState

-- A change of an entry, and its new time.
abbrev pub stamp : (ContainerMeta → ContainerMeta) → ℕ → ContainerMeta → ContainerMeta
stamp change time entry = record (change entry) { updated_at = time }

-- `if let Some(mut entry) = self.by_id.get_mut(&id) { …; entry.updated_at = current_time(); }`
unfoldable pub modify : String → (ContainerMeta → ContainerMeta) → ℕ → InnerState → Applied
modify id change time s = (ok tt, record s { by_id = Dict.update id (stamp change time) s.by_id })

unfoldable pub insert_meta : ContainerMeta → InnerState → InnerState
insert_meta meta s = record s {
  by_id = Dict.insert meta.id meta s.by_id;
  by_name = Dict.insert meta.name meta.id s.by_name;
}

unfoldable pub remove_meta : String → InnerState → InnerState
remove_meta id s = elim (Dict.get id s.by_id) [
  | none ↦ s
  | some meta ↦ record s {
    by_id = Dict.remove id s.by_id;
    by_name = Dict.remove meta.name s.by_name;
  }
]

-- The operator `?` on a result that stands beside a state.
unfoldable pub and_then : Applied → (InnerState → Applied) → Applied
and_then (ok u, s) k = k s
and_then (err e, s) k = (err e, s)
and_then (panic, s) k = (panic, s)

abbrev pub without_destination : String → List MountPoint → List MountPoint
without_destination destination = keep (λ m. not (str_eq m.destination destination))

unfoldable mutual
  unfolding modify insert_meta remove_meta and_then

  pub apply_operation : Clock → StorageOperation → InnerState → Applied
  apply_operation clock (create meta) s = (ok tt, insert_meta meta s)
  apply_operation clock (delete id) s = (ok tt, remove_meta id s)
  apply_operation clock (update_status id status) s =
      modify id (λ e. record e { state = record e.state { status = status } }) (clock []) s
  apply_operation clock (update_state id state) s =
      modify id (λ e. record e { state = state }) (clock []) s
  apply_operation clock (update_environment id env) s =
      modify id (λ e. record e { env = env }) (clock []) s
  apply_operation clock (update_labels id labels) s =
      modify id (λ e. record e { labels = labels }) (clock []) s
  apply_operation clock (update_resources id resources) s =
      modify id (λ e. record e { resources = resources }) (clock []) s
  apply_operation clock (attach_network id network) s =
      modify id (λ e. record e { network = some network }) (clock []) s
  apply_operation clock (detach_network id) s =
      modify id (λ e. record e { network = none }) (clock []) s
  apply_operation clock (add_mount id mount) s =
      modify id (λ e. record e { mounts = e.mounts ++ mount ∷ [] }) (clock []) s
  apply_operation clock (remove_mount id destination) s =
      modify id (λ e. record e { mounts = without_destination destination e.mounts }) (clock []) s
  apply_operation clock (batch operations) s = apply_operations clock 0 operations s

  -- The loop of `Batch`, from member `i` on.
  pub apply_operations : Clock → ℕ → Operations → InnerState → Applied
  apply_operations clock i nil s = (ok tt, s)
  apply_operations clock i (cons op ops) s =
      and_then (apply_operation (member i clock) op s) (λ s'. apply_operations clock (suc i) ops s')
