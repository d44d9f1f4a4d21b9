-- ===== src/Metas/Event.antt =====
-- `MetadataEvent` of src/core/metas/meta.rs and `operation_to_event` of
-- src/core/metas/storage.rs.
pub mod Changes
use rtain.Base.{String, Option, none, some}
use rtain.Metas.Types.{
  ContainerMeta, ContainerStatus, HealthStatus, NetworkConfig, ResourceConfig, StorageOperation,
  create, delete, update_status, update_state, update_environment, update_labels, update_resources,
  attach_network, detach_network, add_mount, remove_mount, batch,
}
use rtain.Metas.Storage.{StorageInner, get_meta_by_id}

pub data MetadataEvent : Type 0 where
  container_created : (id name : String) → MetadataEvent
  container_deleted : (id name : String) → MetadataEvent
  status_changed : (id name : String) → (old_status new_status : ContainerStatus) → MetadataEvent
  resources_updated : (id : String) → ResourceConfig → MetadataEvent
  network_attached : (id : String) → NetworkConfig → MetadataEvent
  health_changed : (id : String) → (old_health new_health : HealthStatus) → MetadataEvent

abbrev pub deleted_event : String → Option ContainerMeta → Option MetadataEvent
deleted_event id none = none
deleted_event id (some meta) = some (container_deleted id meta.name)

abbrev pub status_event : String → ContainerStatus → Option ContainerMeta → Option MetadataEvent
status_event id status none = none
status_event id status (some meta) = some (status_changed id meta.name meta.state.status status)

-- `operation_to_event`, on the state before the operation.
unfoldable pub operation_to_event : StorageOperation → StorageInner → Option MetadataEvent
operation_to_event (create meta) s = some (container_created meta.id meta.name)
operation_to_event (delete id) s = deleted_event id (get_meta_by_id id s)
operation_to_event (update_status id status) s = status_event id status (get_meta_by_id id s)
operation_to_event (update_resources id resources) s = some (resources_updated id resources)
operation_to_event (attach_network id config) s = some (network_attached id config)
operation_to_event (update_state id state) s = none
operation_to_event (update_environment id env) s = none
operation_to_event (update_labels id labels) s = none
operation_to_event (detach_network id) s = none
operation_to_event (add_mount id mount) s = none
operation_to_event (remove_mount id destination) s = none
operation_to_event (batch operations) s = none
