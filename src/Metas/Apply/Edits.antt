-- ===== src/Metas/Apply/Edits.antt =====
-- The nine operations that change one entry in place, in one form: which entry, and how. For
-- `create`, `delete` and `batch` the two functions mean nothing.
use rtain.Base.{String, [], ◌∷◌, ◌++◌, none, some, ◌≡◌, refl}
use rtain.Metas.Types.{
  ContainerMeta, StorageOperation, create, delete, update_status, update_state, update_environment,
  update_labels, update_resources, attach_network, detach_network, add_mount, remove_mount, batch,
}
use rtain.Metas.Apply.{without_destination}

abbrev pub target : StorageOperation → String
target (create _) = ""
target (batch _) = ""
target (delete id) = id
target (update_status id _) = id
target (update_state id _) = id
target (update_environment id _) = id
target (update_labels id _) = id
target (update_resources id _) = id
target (attach_network id _) = id
target (detach_network id) = id
target (add_mount id _) = id
target (remove_mount id _) = id

abbrev pub change : StorageOperation → ContainerMeta → ContainerMeta
change (update_status _ status) e = record e { state = record e.state { status = status } }
change (update_state _ state) e = record e { state = state }
change (update_environment _ env) e = record e { env = env }
change (update_labels _ labels) e = record e { labels = labels }
change (update_resources _ resources) e = record e { resources = resources }
change (attach_network _ network) e = record e { network = some network }
change (detach_network _) e = record e { network = none }
change (add_mount _ mount) e = record e { mounts = e.mounts ++ mount ∷ [] }
change (remove_mount _ d) e = record e { mounts = without_destination d e.mounts }
change _ e = e

pub id-change : (op : StorageOperation) (m : ContainerMeta) → (change op m).id ≡ m.id
id-change (create _) m = refl
id-change _ m = refl

pub name-change : (op : StorageOperation) (m : ContainerMeta) → (change op m).name ≡ m.name
name-change (create _) m = refl
name-change _ m = refl
