-- ===== src/Metas/Event/Changes.antt =====
-- What an event says of the state before and after its operation.
use mathlib.Core.Option
use mathlib.Core.Path.{subst}
use rtain.Base.{ℕ, String, [], Option, none, some, ◌≡◌, refl, sym, ap, ◌∙◌, eq_refl}
use rtain.Base.Dict
use rtain.Base.Dict.{get-update, get-remove, get-insert}
use rtain.Metas.Types.{
  ContainerMeta, ContainerStatus, InnerState, StorageOperation, create, delete, update_status,
  update_state, update_environment, update_labels, update_resources, attach_network, detach_network,
  add_mount, remove_mount, batch,
}
use rtain.Metas.Apply.{Clock, apply_operation, modify, insert_meta, remove_meta, stamp}
use rtain.Metas.Storage.{StorageInner, get_meta_by_id}
use rtain.Metas.Event.{
  MetadataEvent, container_created, container_deleted, status_changed, resources_updated,
  network_attached, health_changed, deleted_event, status_event, operation_to_event,
}

-- The status of a container, where there is one.
abbrev pub status_of : String → InnerState → Option ContainerStatus
status_of id s = Option.map (λ meta. meta.state.status) (Dict.get id s.by_id)

-- What an event promises of the states on its two sides.
abbrev pub Tells : MetadataEvent → InnerState → InnerState → Type 0
Tells (container_created id name) s s' =
    (meta : ContainerMeta) × (Dict.get id s'.by_id ≡ some meta) × (meta.name ≡ name)
Tells (container_deleted id name) s s' =
    ((meta : ContainerMeta) × (Dict.get id s.by_id ≡ some meta) × (meta.name ≡ name))
    × (Dict.get id s'.by_id ≡ none)
Tells (status_changed id name old new) s s' =
    (status_of id s ≡ some old) × (status_of id s' ≡ some new)
-- These two are told whether the container is there or not.
Tells (resources_updated id resources) s s' =
    (meta : ContainerMeta) → Dict.get id s'.by_id ≡ some meta → meta.resources ≡ resources
Tells (network_attached id config) s s' =
    (meta : ContainerMeta) → Dict.get id s'.by_id ≡ some meta → meta.network ≡ some config
Tells (health_changed id old new) s s' = Unit {0}

abbrev Told : Option MetadataEvent → InnerState → InnerState → Type 0
Told none s s' = Unit {0}
Told (some event) s s' = Tells event s s'

deleted-Told :
    (id : String) (s : InnerState) (o : Option ContainerMeta)
    → Dict.get id s.by_id ≡ o
    → Told (deleted_event id o) s (remove_meta id s)
unfolding remove_meta
deleted-Told id s none e = tt
deleted-Told id s (some meta) e =
    ((meta, e, refl), rw (e, remove_meta) (get-remove id id s.by_id ∙ rw (eq_refl id) refl))

status-Told :
    (id : String) (status : ContainerStatus) (time : ℕ) (s : InnerState) (o : Option ContainerMeta)
    → Dict.get id s.by_id ≡ o
    → Told
        (status_event id status o)
        s
        (modify id (λ e. record e { state = record e.state { status = status } }) time s).1
unfolding modify
status-Told id status time s none e = tt
status-Told id status time s (some meta) e =
    (rw e refl, rw (get-update id id _ s.by_id) (rw (eq_refl id) (rw e refl)))

-- What a change leaves in an entry.
after-modify :
    (id : String) (change : ContainerMeta → ContainerMeta) (time : ℕ) (s : InnerState)
    (meta : ContainerMeta)
    → Dict.get id (modify id change time s).1.by_id ≡ some meta
    → (old : ContainerMeta) × (meta ≡ stamp change time old)
unfolding modify
after-modify id change time s meta h = from (Dict.get id s.by_id) (here h)
  where
    here :
        Dict.get id (Dict.update id (stamp change time) s.by_id) ≡ some meta
        → Option.map (stamp change time) (Dict.get id s.by_id) ≡ some meta
    here h = sym (get-update id id (stamp change time) s.by_id ∙ rw (eq_refl id) refl) ∙ h

    from :
        (o : Option ContainerMeta)
        → Option.map (stamp change time) o ≡ some meta
        → (old : ContainerMeta) × (meta ≡ stamp change time old)
    from none h = absurd (cc)
    from (some old) h = (old, cc)

-- The event of an operation is true of the states before and after it: a container that is said to
-- be created or deleted is there or gone, under the name that is said, a change of a status has the
-- two statuses, and the new resources and the new network are those of the container, where it is
-- there.
pub operation_to_event-Tells :
    (clock : Clock) (op : StorageOperation) (s : StorageInner) (event : MetadataEvent)
    → operation_to_event op s ≡ some event
    → Tells event s.state (apply_operation clock op s.state).1
unfolding operation_to_event apply_operation get_meta_by_id insert_meta
operation_to_event-Tells clock op s event h =
    subst (λ o. Told o s.state (apply_operation clock op s.state).1) h (told op)
  where
    told :
        (op : StorageOperation)
        → Told (operation_to_event op s) s.state (apply_operation clock op s.state).1
    told (create meta) =
        (meta, get-insert meta.id meta.id meta s.state.by_id ∙ rw (eq_refl meta.id) refl, refl)
    told (delete id) = deleted-Told id s.state (Dict.get id s.state.by_id) refl
    told (update_status id status) =
        status-Told id status (clock []) s.state (Dict.get id s.state.by_id) refl
    told (update_resources id resources) = λ meta h.
        let (old, e) =
          after-modify id (λ e. record e { resources = resources }) (clock []) s.state meta h in
        ap (λ m. m.resources) e
    told (attach_network id config) = λ meta h.
        let (old, e) =
          after-modify id (λ e. record e { network = some config }) (clock []) s.state meta h in
        ap (λ m. m.network) e
    told (update_state id state) = tt
    told (update_environment id env) = tt
    told (update_labels id labels) = tt
    told (detach_network id) = tt
    told (add_mount id mount) = tt
    told (remove_mount id destination) = tt
    told (batch operations) = tt
