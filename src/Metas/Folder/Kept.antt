-- ===== src/Metas/Folder/Kept.antt =====
-- What holds of all files of a folder holds after a file came, went or was purged, and of the
-- newest file.
use rtain.Base.{
  ℕ, ◌-◌, ◌≡◌, [], ◌∷◌, some, All, keep-All, leb, take, length, not, Bool-cases, inl, inr,
}
use mathlib.Core.Path.{subst}
use rtain.Metas.Folder.{
  File, FileName, Entry, Folder, same_name, put_file, remove_file, remove_files, insert_by_time,
  sort_by_time, last, purge_oldest,
}

module _ {ℓ} (P : Entry → Type ℓ) where
  pub put_file-All :
      (name : FileName) (file : File) (fs : Folder)
      → P (record { file_name = name; file = file })
      → All P fs
      → All P (put_file name file fs)
  unfolding put_file
  put_file-All name file [] h hs = (h, tt)
  put_file-All name file (f ∷ fs) h (hf, hs) = elim (Bool-cases (same_name f.file_name name)) [
    | inl e ↦ rw e (h, hs)
    | inr e ↦ rw e (hf, put_file-All name file fs h hs)
  ]

  pub remove_file-All : (name : FileName) (fs : Folder) → All P fs → All P (remove_file name fs)
  unfolding remove_file
  remove_file-All name fs h = keep-All P (λ e. not (same_name e.file_name name)) fs h

  remove_files-All : (es fs : Folder) → All P fs → All P (remove_files es fs)
  unfolding remove_files
  remove_files-All [] fs h = h
  remove_files-All (e ∷ es) fs h = remove_files-All es _ (remove_file-All e.file_name fs h)

  pub purge_oldest-All : (max : ℕ) (fs : Folder) → All P fs → All P (purge_oldest max fs)
  unfolding purge_oldest
  purge_oldest-All max fs h = remove_files-All (take (length fs - max) (sort_by_time fs)) fs h

  insert-All : (e : Entry) (fs : Folder) → P e → All P fs → All P (insert_by_time e fs)
  unfolding insert_by_time
  insert-All e [] h hs = (h, tt)
  insert-All e (f ∷ fs) h (hf, hs) = elim (Bool-cases (leb e.file.modified f.file.modified)) [
    | inl b ↦ rw b (h, (hf, hs))
    | inr b ↦ rw b (hf, insert-All e fs h hs)
  ]

  sort-All : (fs : Folder) → All P fs → All P (sort_by_time fs)
  unfolding sort_by_time
  sort-All [] h = tt
  sort-All (f ∷ fs) (hf, hs) = insert-All f (sort_by_time fs) hf (sort-All fs hs)

  last-All : (fs : Folder) (e : Entry) → All P fs → last fs ≡ some e → P e
  unfolding last
  last-All [] e h l = absurd (cc)
  last-All (f ∷ []) e h l = let same : f ≡ e = cc in subst P same h.0
  last-All (f ∷ g ∷ fs) e h l = last-All (g ∷ fs) e h.1 l

  pub newest-All : (fs : Folder) (e : Entry) → All P fs → last (sort_by_time fs) ≡ some e → P e
  newest-All fs e h l = last-All (sort_by_time fs) e (sort-All fs h) l
