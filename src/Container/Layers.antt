-- ===== src/Container/Layers.antt =====
-- The layers of a workspace: `create_ro_layer`, `create_rw_layer`, `create_mount_point` and
-- `mount_volume` of src/core/container/image.rs, and `setup_cgroup` of src/core/container/init.rs.
-- What the file system, the programs and the cgroups answer is a parameter.
use rtain.Base.Text.{◌⧺◌}
use rtain.Base.{
  ℕ, ℤ, String, Bool, true, false, List, Option, none, some, Outcome, ok, err, panic, ◌>>=◌, ◌>>◌,
}
use rtain.Container.Run.{Maker}

-- Each path is looked at once, before it is made. A program gives nothing when it succeeds, or
-- what it has written to its standard error.
pub record Files : Type 0 where
  pub exists : String → Bool
  pub create_dir_all : String → Outcome (Unit {0})
  pub tar : String → String → Outcome (Option String)
  pub mount_overlay : String → String → Outcome (Option String)
  -- the path on the host, and the one inside the mount point
  pub volume_exists : String → List ℕ → Bool
  pub create_volume : String → List ℕ → Outcome (Unit {0})
  pub host_exists : List ℕ → Bool
  pub create_host : List ℕ → Outcome (Unit {0})
  pub mount_bind : List ℕ → String → List ℕ → Outcome (Unit {0})

pub record Cgroups : Type 0 where
  pub build : String → Outcome (Unit {0})
  pub add_task_by_tgid : String → ℤ → Outcome (Unit {0})
  pub delete : String → Outcome (Unit {0})

-- A folder that is there is left alone.
abbrev pub unless : Bool → Outcome (Unit {0}) → Outcome (Unit {0})
unless true make = ok tt
unless false make = make

-- The check of a program's status.
abbrev pub succeeded : String → Option String → Outcome (Unit {0})
succeeded message none = ok tt
succeeded message (some stderr) = err (message ⧺ stderr)

module _ (files : Files) where
  -- `create_ro_layer`: an image that has been unpacked is not unpacked again.
  unfoldable pub create_ro_layer : String → String → Outcome (Unit {0})
  create_ro_layer image_path root_path =
      let image_dir = root_path ⧺ "/image" in
      unless (files.exists image_dir) (do
        files.create_dir_all image_dir
        output ← files.tar image_path image_dir
        succeeded "Failed to extract image: " output)

  unfoldable pub create_rw_layer : String → Outcome (Unit {0})
  create_rw_layer root_path =
      let write_dir = root_path ⧺ "/writeLayer" in
      unless (files.exists write_dir) (files.create_dir_all write_dir)

  abbrev pub mount_option : String → String
  mount_option root_path =
      "lowerdir=" ⧺ root_path ⧺ "/image" ⧺ ",upperdir=" ⧺ root_path ⧺ "/writeLayer" ⧺ ",workdir="
      ⧺ root_path ⧺ "/work"

  unfoldable pub create_mount_point : String → String → Outcome (Unit {0})
  create_mount_point root_path mnt_path = do
    unless (files.exists (root_path ⧺ "/work")) (files.create_dir_all (root_path ⧺ "/work"))
    unless (files.exists mnt_path) (files.create_dir_all mnt_path)
    output ← files.mount_overlay (mount_option root_path) mnt_path
    succeeded "Failed to mount overlay filesystem: " output

  -- `mount_volume`, behind the split of the volume.
  unfoldable pub bind_volume : String → List ℕ → List ℕ → Outcome (Unit {0})
  bind_volume mnt_path hostv contv = do
    unless (files.host_exists hostv) (files.create_host hostv)
    unless (files.volume_exists mnt_path contv) (files.create_volume mnt_path contv)
    files.mount_bind hostv mnt_path contv

module _ (cgroups : Cgroups) where
  -- After a failure the cgroup is deleted; an error of the deletion takes the place of the first.
  abbrev pub added : String → Outcome (Unit {0}) → Outcome (Unit {0})
  added cg_name (ok _) = ok tt
  added cg_name (err e) = cgroups.delete cg_name >> err ("Failed to add task to cgroup: " ⧺ e)
  added cg_name panic = panic

  abbrev pub built : String → ℤ → Outcome (Unit {0}) → Outcome (Unit {0})
  built cg_name child (ok _) = added cg_name (cgroups.add_task_by_tgid cg_name child)
  built cg_name child (err e) = err ("Failed to create cgroup: " ⧺ e)
  built cg_name child panic = panic

  unfoldable pub setup_cgroup : String → ℤ → Outcome (Unit {0})
  setup_cgroup cg_name child = built cg_name child (cgroups.build cg_name)

-- The answers that `new_workspace` and `run_prepare` get from these functions.
unfoldable pub with_layers : Files → Cgroups → Maker → Maker
with_layers files cgroups maker = record maker {
  create_ro_layer = create_ro_layer files;
  create_rw_layer = create_rw_layer files;
  create_mount_point = create_mount_point files;
  bind_volume = bind_volume files;
  setup_cgroup = setup_cgroup cgroups;
}
