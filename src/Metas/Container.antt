-- ===== src/Metas/Container.antt =====
-- `impl ContainerMeta` and `impl ContainerStatus` of src/core/metas/meta.rs. Every call of
-- `current_time()` is an argument.
use rtain.Base.{ℕ, String, Bool, true, false, List, [], Option, none, some, ℤ}
use rtain.Metas.Types.{
  ContainerStatus, creating, running, paused, exited, dead, unknown, ContainerMeta, ContainerState,
  ResourceConfig,
}

abbrev no_limits : ResourceConfig
no_limits = record { memory_limit = none; cpu_limit = none; pids_limit = none; disk_limit = none }

abbrev fresh_state : ContainerState
fresh_state = record {
  status = creating;
  pid = none;
  started_at = none;
  finished_at = none;
  exit_code = none;
  error = none;
  restart_count = 0;
  health_status = unknown;
}

-- `ContainerMeta::new`
unfoldable pub new : ℕ → String → String → String → List String → List String → ContainerMeta
new time id name image command args = record {
  id = id;
  name = name;
  created_at = time;
  updated_at = time;
  image = image;
  command = command;
  args = args;
  working_dir = none;
  user = none;
  env = [];
  labels = [];
  state = fresh_state;
  network = none;
  resources = no_limits;
  mounts = [];
}

unfoldable pub get_pid : ContainerMeta → Option ℤ
get_pid m = m.state.pid

-- The two times are two readings of the clock.
unfoldable pub set_running : ContainerMeta → ℤ → ℕ → ℕ → ContainerMeta
set_running m pid started updated = record m {
  state = record m.state { status = running; pid = some pid; started_at = some started };
  updated_at = updated;
}

unfoldable pub set_stopped : ContainerMeta → Option ℤ → Option String → ℕ → ℕ → ContainerMeta
set_stopped m exit_code error finished updated = record m {
  state = record m.state {
    status = exited;
    pid = none;
    finished_at = some finished;
    exit_code = exit_code;
    error = error;
  };
  updated_at = updated;
}

unfoldable pub is_running : ContainerStatus → Bool
is_running running = true
is_running _ = false

unfoldable pub is_stopped : ContainerStatus → Bool
is_stopped exited = true
is_stopped dead = true
is_stopped _ = false

unfoldable pub can_start : ContainerStatus → Bool
can_start exited = true
can_start dead = true
can_start _ = false

unfoldable pub can_stop : ContainerStatus → Bool
can_stop running = true
can_stop paused = true
can_stop _ = false
