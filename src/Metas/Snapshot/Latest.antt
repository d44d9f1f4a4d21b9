-- ===== src/Metas/Snapshot/Latest.antt =====
-- Which snapshot is loaded after one was taken, whole or torn.
use rtain.Base.{ℕ, ◌≡◌, refl, ◌∙◌, String, [], ◌∷◌, All, take, Outcome, ok, err, panic, arith}
use rtain.Base.Bytes.{Bytes, Codec, IsLawful}
use rtain.Metas.Types.{InnerState}
use rtain.Metas.Folder.{File, Folder, FileName, tmp_snapshot, snapshot_file, put_file, remove_file}
use rtain.Metas.Folder.Newest.{OlderThan, last-put_file}
use rtain.Metas.Wal.Disk.{sound, short}
use rtain.Metas.Snapshot.{take_snapshot, load_latest}

remove-OlderThan :
    (time : ℕ) (name : FileName) (fs : Folder)
    → All (OlderThan time) fs
    → All (OlderThan time) (remove_file name fs)
unfolding remove_file
remove-OlderThan time name [] h = tt
remove-OlderThan time name (f ∷ fs) (hf, hs) = ground (arith, remove-OlderThan time name fs hs)

module _ (codec : Codec InnerState) where
  load-put_file :
      (name : FileName) (file : File) (fs : Folder)
      → All (OlderThan file.modified) fs
      → load_latest codec (put_file name file fs) ≡ codec.deserialize file.content
  unfolding load_latest
  load-put_file name file fs h = rw (last-put_file name file fs h, load_latest)

  -- A snapshot that was taken whole is the one that is loaded.
  pub load-take_snapshot :
      IsLawful codec
      → (now : ℕ) (state : InnerState) (folder : Folder) → All (OlderThan now) folder
      → (take_snapshot codec sound now state folder).0 ≡ ok tt
      → load_latest codec (take_snapshot codec sound now state folder).1 ≡ ok state
  unfolding take_snapshot
  load-take_snapshot lawful now state folder older done = split (codec.serialize state) refl done
    where
      split :
          (r : Outcome Bytes)
          → codec.serialize state ≡ r
          → (take_snapshot codec sound now state folder).0 ≡ ok tt
          → load_latest codec (take_snapshot codec sound now state folder).1 ≡ ok state
      split (ok bytes) e d =
          rw (e, take_snapshot)
            (load-put_file (snapshot_file now) (record { content = bytes; modified = now }) _
                (remove-OlderThan now tmp_snapshot folder older)
              ∙ lawful.round_trip state bytes e)
      split (err m) e d = absurd (cc (rw (e, take_snapshot) at d))
      split panic e d = absurd (cc (rw (e, take_snapshot) at d))

  -- After a torn write of `tmp.snapshot` it is the torn file that is loaded, whatever good
  -- snapshots are there.
  pub load-torn_snapshot :
      (now n : ℕ) (cause : String) (state : InnerState) (bytes : Bytes) (folder : Folder)
      → All (OlderThan now) folder
      → codec.serialize state ≡ ok bytes
      → load_latest codec (take_snapshot codec (short n cause) now state folder).1
        ≡ codec.deserialize (take n bytes)
  unfolding take_snapshot
  load-torn_snapshot now n cause state bytes folder older e =
      rw (e, take_snapshot)
        (load-put_file tmp_snapshot (record { content = take n bytes; modified = now }) folder
          older)
