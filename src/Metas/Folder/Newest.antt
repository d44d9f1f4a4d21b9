-- ===== src/Metas/Folder/Newest.antt =====
-- The newest file is the one that was put there last.
use rtain.Base.{ℕ, ◌≤◌, ◌<◌, ◌≡◌, refl, [], ◌∷◌, some, All, leb, arith, Bool-cases, inl, inr}
use rtain.Metas.Folder.{
  File, FileName, Entry, Folder, same_name, put_file, insert_by_time, sort_by_time, last,
}

abbrev pub OlderThan : ℕ → Entry → Type 0
OlderThan time e = e.file.modified < time

last-insert_new :
    (e : Entry) (fs : Folder)
    → All (OlderThan e.file.modified) fs
    → last (insert_by_time e fs) ≡ some e
unfolding last insert_by_time
last-insert_new e [] h = refl
last-insert_new e (f ∷ []) h = ground arith
last-insert_new e (f ∷ g ∷ fs) (hf, h) = ground (arith, last-insert_new e (g ∷ fs) h)

last-insert_old :
    (e f : Entry) (fs : Folder)
    → last fs ≡ some f
    → e.file.modified ≤ f.file.modified
    → last (insert_by_time e fs) ≡ some f
unfolding last insert_by_time
last-insert_old e f [] l h = absurd (cc)
last-insert_old e f (g ∷ []) l h = ground arith
last-insert_old e f (g ∷ k ∷ fs) l h = ground (arith, last-insert_old e f (k ∷ fs) l h)

insert-OlderThan :
    (time : ℕ) (e : Entry) (fs : Folder)
    → OlderThan time e
    → All (OlderThan time) fs
    → All (OlderThan time) (insert_by_time e fs)
unfolding insert_by_time
insert-OlderThan time e [] h hs = (h, tt)
insert-OlderThan time e (f ∷ fs) h (hf, hs) =
    elim (Bool-cases (leb e.file.modified f.file.modified)) [
      | inl yes' ↦ rw yes' (h, (hf, hs))
      | inr no' ↦ rw no' (hf, insert-OlderThan time e fs h hs)
    ]

sort-OlderThan :
    (time : ℕ) (fs : Folder) → All (OlderThan time) fs → All (OlderThan time) (sort_by_time fs)
unfolding sort_by_time
sort-OlderThan time [] h = tt
sort-OlderThan time (f ∷ fs) (hf, hs) =
    insert-OlderThan time f (sort_by_time fs) hf (sort-OlderThan time fs hs)

last-sort_new :
    (e : Entry) (fs : Folder)
    → All (OlderThan e.file.modified) fs
    → last (sort_by_time (e ∷ fs)) ≡ some e
unfolding sort_by_time
last-sort_new e fs h = last-insert_new e (sort_by_time fs) (sort-OlderThan e.file.modified fs h)

last-sort_old :
    (e f : Entry) (fs : Folder)
    → last (sort_by_time fs) ≡ some f
    → e.file.modified ≤ f.file.modified
    → last (sort_by_time (e ∷ fs)) ≡ some f
unfolding sort_by_time
last-sort_old e f fs l h = last-insert_old e f (sort_by_time fs) l h

-- A file newer than all that are there is the last of the sorted folder.
pub last-put_file :
    (name : FileName) (file : File) (fs : Folder)
    → All (OlderThan file.modified) fs
    → last (sort_by_time (put_file name file fs)) ≡ some (record { file_name = name; file = file })
unfolding put_file
last-put_file name file [] h = last-sort_new (record { file_name = name; file = file }) [] tt
last-put_file name file (f ∷ fs) (hf, hs) = elim (Bool-cases (same_name f.file_name name)) [
  | inl same ↦ rw same (last-sort_new (record { file_name = name; file = file }) fs hs)
  | inr differ ↦
      rw differ
        (last-sort_old f _ (put_file name file fs) (last-put_file name file fs hs) (omega arith))
]
