-- ===== src/Container/Run/Workspace.antt =====
-- How the making of a workspace ends, and what is left of one that cannot be made.
use rtain.Base.{
  ◌==◌, ℕ, String, false, List, [], ◌∷◌, Option, none, some, ◌≡◌, ◌≢◌, refl, ◌⊎◌, Outcome, ok, err,
  panic,
}
use rtain.Base.Text.{codes, split}
use rtain.Container.World.{Host, World, umount, remove_dir_all, call}
use rtain.Container.Run.{Maker, removed, new_workspace}

-- Calls that come back, with success or with an error.
pub record Returns (host : Host) (maker : Maker) (root mnt : String) : Type 0 where
  pub umounted : host.umount mnt ≢ panic
  pub removed : host.remove_dir_all root ≢ panic
  pub layered : maker.create_rw_layer root ≢ panic
  pub mounted : maker.create_mount_point root mnt ≢ panic
  pub bound : (host_path path : List ℕ) → maker.bind_volume mnt host_path path ≢ panic

module _ (host : Host) (maker : Maker) (root mnt : String) where
  -- The world behind the clean-ups.
  abbrev pub unrooted : World → World
  unrooted w = call (remove_dir_all root) w

  abbrev pub unmounted : World → World
  unmounted w = unrooted (call (umount mnt) w)

  -- A volume whose path in the container does not begin with `/`.
  abbrev pub Relative : List (List ℕ) → Type 0
  Relative parts =
      (a : ℕ) × (host_path : List ℕ) × (c : ℕ) × (path : List ℕ) × (parts
        ≡ (a ∷ host_path) ∷ (c ∷ path) ∷ [])
      × ((c == b'/') ≡ false)

  -- How the last step ends: the volume is bound, an error takes everything down, or the path of
  -- the volume is a panic that takes nothing down.
  abbrev pub Bound : List (List ℕ) → Outcome (Unit {0}) × World → World → Type 0
  Bound parts r w =
      (r ≡ (ok tt, w))
      ⊎ (((e : String) × (r ≡ (err e, unmounted w))) ⊎ (Relative parts × (r ≡ (panic, w))))

  -- The parts of the volume, if there is one.
  abbrev pub parts_of : Option String → List (List ℕ)
  parts_of none = []
  parts_of (some volume) = split b':' (codes volume)

  -- An image that cannot be unpacked ends it with nothing removed, whatever has been made.
  pub new_workspace-leaves :
      (image : String) (volume : Option String) (w : World) (e : String)
      → maker.create_ro_layer image root ≡ err e
      → new_workspace host maker image root mnt volume w ≡ (err e, w)
  unfolding new_workspace
  new_workspace-leaves image volume w e fails = rw (fails, new_workspace) refl
