-- ===== src/Metas/Types.antt =====
-- The records of src/core/metas/meta.rs and the operations of src/core/metas/storage.rs.
-- A `u64`, a `u32` and a `u16` are native numbers, an `i32` is an integer, and an `f64` is the
-- number of its bits: nothing here computes with one.
use rtain.Base.{ℕ, String, Bool, List, Option, ℤ}
use rtain.Base.Dict.{Dict}

pub data ContainerStatus : Type 0 where
  creating running paused restarting removing exited dead : ContainerStatus

pub data HealthStatus : Type 0 where
  unknown starting healthy unhealthy : HealthStatus

pub record ContainerState : Type 0 where
  pub status : ContainerStatus
  pub pid : Option ℤ
  pub started_at : Option ℕ
  pub finished_at : Option ℕ
  pub exit_code : Option ℤ
  pub error : Option String
  pub restart_count : ℕ
  pub health_status : HealthStatus

pub record NetworkConfig : Type 0 where
  pub ip_address : Option String
  pub network_name : String
  pub mac_address : Option String
  -- host port and container port
  pub ports : List (ℕ × ℕ)

pub record ResourceConfig : Type 0 where
  pub memory_limit : Option ℕ
  pub cpu_limit : Option ℕ
  pub pids_limit : Option ℕ
  pub disk_limit : Option ℕ

pub data MountType : Type 0 where
  bind volume tmpfs : MountType

pub record MountPoint : Type 0 where
  pub source : String
  pub destination : String
  pub mount_type : MountType
  pub read_only : Bool

pub record ContainerMeta : Type 0 where
  pub id : String
  pub name : String
  pub created_at : ℕ
  pub updated_at : ℕ
  pub image : String
  pub command : List String
  pub args : List String
  pub working_dir : Option String
  pub user : Option String
  pub env : Dict String
  pub labels : Dict String
  pub state : ContainerState
  pub network : Option NetworkConfig
  pub resources : ResourceConfig
  pub mounts : List MountPoint

pub record InnerState : Type 0 where
  pub by_id : Dict ContainerMeta
  pub by_name : Dict String

mutual
  pub data StorageOperation : Type 0 where
    create : ContainerMeta → StorageOperation
    delete : String → StorageOperation
    update_status : String → ContainerStatus → StorageOperation
    update_state : String → ContainerState → StorageOperation
    update_environment : String → Dict String → StorageOperation
    update_labels : String → Dict String → StorageOperation
    update_resources : String → ResourceConfig → StorageOperation
    attach_network : String → NetworkConfig → StorageOperation
    detach_network : String → StorageOperation
    add_mount : String → MountPoint → StorageOperation
    remove_mount : String → String → StorageOperation
    batch : Operations → StorageOperation

  -- `Vec<StorageOperation>`
  pub data Operations : Type 0 where
    nil : Operations
    cons : StorageOperation → Operations → Operations
