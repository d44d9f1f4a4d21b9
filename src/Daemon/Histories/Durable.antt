-- ===== src/Daemon/Histories/Durable.antt =====
-- What is on the disk of a daemon at any moment of its life.
use rtain.Base.{ℕ, String, All, List, [], ◌∷◌, ◌≡◌, ◌⊎◌, inl, inr}
use rtain.Metas.Types.{StorageOperation}
use rtain.Metas.Wal.Disk.{Disk, sound, no_open}
use rtain.Metas.Storage.{Codecs, StorageInner, handle_request, snapshot_tick}
use rtain.Metas.Storage.Steps.{Step, Reach, next, request, refused, snapshot, no_snapshot, cleanup}
use rtain.Container.World.{Journal}
use rtain.Container.Moves.{Moves, stays, asks}
use rtain.Network.BitVec.{BitVec}
use rtain.Daemon.{Daemon, Turn, accepts, snapshots, cleans, turn, serve_each}
use rtain.Daemon.Moves.{handler-Moves}

-- A disk that takes a write whole or does not open the file.
abbrev pub IsWhole : Disk → Type 0
IsWhole disk = (disk ≡ sound) ⊎ ((cause : String) × (disk ≡ no_open cause))

module _ (codecs : Codecs) where
  -- A journal with this serializer, on such a disk.
  abbrev pub Uses : Journal → Type 0
  Uses j = (j.codecs ≡ codecs) × IsWhole j.disk

  request-Step :
      (j : Journal) (op : StorageOperation) (s : StorageInner)
      → Uses j
      → Step codecs s (handle_request j.codecs j.disk j.now j.clock op s).1
  request-Step j op s (same, inl whole) = rw (same, whole) (request j.now j.clock op s)
  request-Step j op s (same, inr (cause, closed)) =
      rw (same, closed) (refused cause j.now j.clock op s)

  Moves-Reach : {s t : StorageInner} → Moves Uses s t → Reach codecs s → Reach codecs t
  Moves-Reach (stays s) r = r
  Moves-Reach (asks j op s uses a m) r = Moves-Reach m (next r (request-Step j op s uses))

  snapshot-Step :
      (c : Codecs) (disk : Disk) (now : ℕ) (s : StorageInner)
      → c ≡ codecs
      → IsWhole disk
      → Step codecs s (snapshot_tick c disk now s)
  snapshot-Step c disk now s same (inl whole) = rw (same, whole) (snapshot now s)
  snapshot-Step c disk now s same (inr (cause, closed)) =
      rw (same, closed) (no_snapshot cause now s)

  module _ {B : BitVec} where
    -- A turn whose writes to disk are such ones.
    abbrev pub Writes : Turn B → Type 0
    Writes (accepts env input) = Uses env.journal × Uses env.later
    Writes (snapshots c disk now) = (c ≡ codecs) × IsWhole disk
    Writes (cleans now) = Unit {0}

    turn-Reach :
        (t : Turn B) (d : Daemon B)
        → Writes t
        → Reach codecs d.world.metas
        → Reach codecs (turn B t d).world.metas
    unfolding turn
    turn-Reach (accepts env input) d (first, later) r =
        Moves-Reach (handler-Moves {J = Uses} B env first later input d) r
    turn-Reach (snapshots c disk now) d (same, whole) r =
        next r (snapshot-Step c disk now d.world.metas same whole)
    turn-Reach (cleans now) d _ r = next r (cleanup now d.world.metas)

    pub serve_each-Reach :
        (turns : List (Turn B)) (d : Daemon B)
        → All Writes turns
        → Reach codecs d.world.metas
        → Reach codecs (serve_each B turns d).world.metas
    unfolding serve_each
    serve_each-Reach [] d _ r = r
    serve_each-Reach (t ∷ turns) d (w, ws) r =
        serve_each-Reach turns (turn B t d) ws (turn-Reach t d w r)
