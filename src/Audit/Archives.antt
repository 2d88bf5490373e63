-- ===== src/Audit/Archives.antt =====
-- Rotation in internal/audit/audit.go: the log is no archive of its own, and cleaning keeps it.
use dockward.Prelude.{
  ℕ, zero, suc, ◌+◌, ◌-◌, ◌≤◌, ◌<◌, ◌≡◌, ◌≢◌, inl, inr, refl, ap, Bool, true, false, none, some,
  List, [], ◌∷◌, ◌++◌, arith, length, take, All, length-append, length-take, Bool-cases, beq_refl,
}
use dockward.Prelude.Text.{Text, codes, text_eq, text_beq_iff, has_prefix}
use dockward.Prelude.Map.{lookup, insert, delete, lookup-insert, lookup-delete}
use dockward.Prelude.Sort.{sort_into}
use dockward.Prelude.Files.{Files, create, rename}
use dockward.Audit.Disk.{
  archive_path, trim_jsonl, is_archive, matches, remove_all, clean_old_archives,
}
use dockward.Audit.{Logger, opened, Answers, rotate}

length-has_prefix : (s p : Text) → has_prefix s p ≡ true → length p ≤ length s
unfolding has_prefix
length-has_prefix s [] h = omega arith
length-has_prefix [] (y ∷ ys) h = ground arith
length-has_prefix (x ∷ xs) (y ∷ ys) h = grind (arith, length-has_prefix xs ys)

length-trim_jsonl : (s : Text) → length s ≤ length (trim_jsonl s) + 6
unfolding trim_jsonl
length-trim_jsonl s = ground (arith, length-take (length s - 6) s)

length-archive_path : (path stamp : Text) → length path < length (archive_path path stamp)
unfolding archive_path
length-archive_path path stamp = ground (
  arith,
  length-append (trim_jsonl path ++ codes "." ++ stamp) (codes ".jsonl"),
  length-append (trim_jsonl path ++ codes ".") stamp,
  length-append (trim_jsonl path) (codes "."),
  length-trim_jsonl path,
)

archive_path_ne : (path stamp : Text) → archive_path path stamp ≢ path
archive_path_ne path stamp e = absurd (omega (arith, ap length e, length-archive_path path stamp))

is_archive_self : (path : Text) → is_archive path path ≡ false
unfolding is_archive
is_archive_self path =
    ground (arith, length-append (trim_jsonl path) (codes "."), length-trim_jsonl path)

abbrev IsArchiveOf : Text → Text → Type 0
IsArchiveOf path f = is_archive path f ≡ true

All-sort_into :
    (P : Text → Type 0) (f : Text) (gs : List Text) → P f → All P gs → All P (sort_into f gs)
unfolding sort_into
All-sort_into P f [] p ps = (p, ps)
All-sort_into P f (g ∷ gs) p (q, ps) = ground (arith, All-sort_into P f gs p ps)

matches-IsArchiveOf : (path : Text) (files : Files) → All (IsArchiveOf path) (matches path files)
unfolding matches
matches-IsArchiveOf path [] = tt
matches-IsArchiveOf path ((f, c) ∷ files) = elim (Bool-cases (is_archive path f)) [
  | inl member ↦ rw member (
      All-sort_into (IsArchiveOf path) f (matches path files) member
        (matches-IsArchiveOf path files))
  | inr other ↦ rw other (matches-IsArchiveOf path files)
]

All-take : (P : Text → Type 0) (n : ℕ) (fs : List Text) → All P fs → All P (take n fs)
All-take P zero fs h = tt
All-take P (suc n) [] h = h
All-take P (suc n) (f ∷ fs) h = (h.0, All-take P n fs h.1)

lookup-remove_all :
    (removable : Text → Bool) (path : Text) (fs : List Text) (files : Files)
    → All (IsArchiveOf path) fs
    → lookup path (remove_all removable fs files) ≡ lookup path files
unfolding remove_all
lookup-remove_all removable path [] files h = refl
lookup-remove_all removable path (f ∷ fs) files (a, h) = ground (
  arith,
  lookup-delete path f (remove_all removable fs files),
  lookup-remove_all removable path fs files h,
  text_beq_iff f path,
  is_archive_self path,
)

-- Cleaning keeps the log.
pub lookup-clean_old_archives :
    (removable : Text → Bool) (path : Text) (files : Files)
    → lookup path (clean_old_archives removable path files) ≡ lookup path files
unfolding clean_old_archives
lookup-clean_old_archives removable path files =
    lookup-remove_all removable path _ files
      (All-take (IsArchiveOf path) _ _ (matches-IsArchiveOf path files))

create_missing :
    (path : Text) (files : Files)
    → lookup path files ≡ none
    → create path files ≡ insert path [] files
unfolding create
create_missing path files h = ground arith

lookup-moved :
    (path stamp c : Text) (files : Files)
    → lookup path (insert (archive_path path stamp) c (delete path files)) ≡ none
lookup-moved path stamp c files = ground (
  arith,
  lookup-insert path (archive_path path stamp) c (delete path files),
  lookup-delete path path files,
  beq_refl path,
  archive_path_ne path stamp,
  text_beq_iff (archive_path path stamp) path,
)

-- A rotation that finds the log leaves it open and empty, and the old contents under the name of the
-- archive, unless they are cleaned away.
pub rotate-log :
    (a : Answers) (l : Logger) (c : Text)
    → l.file ≡ opened
    → lookup l.path l.files ≡ some c
    → a.rename_ok ≡ true
    → a.open_ok ≡ true
    → (rotate a l).file ≡ opened
      × (lookup l.path (rotate a l).files ≡ some [])
      × ((rotate a l).event_count ≡ 0)
      × ((rotate a l).path ≡ l.path)
unfolding rotate rename
rotate-log a l c o h r p =
    let moved = insert (archive_path l.path a.stamp) c (delete l.path l.files) in
    ground (
      arith,
      create_missing l.path moved (lookup-moved l.path a.stamp c l.files),
      lookup-insert l.path l.path [] moved,
      beq_refl l.path,
      lookup-clean_old_archives a.removable l.path (insert l.path [] moved),
    )

-- A rotation whose rename fails goes on with the log.
pub rotate_unmoved :
    (a : Answers) (l : Logger) (c : Text)
    → l.file ≡ opened
    → lookup l.path l.files ≡ some c
    → a.rename_ok ≡ false
    → a.open_ok ≡ true
    → rotate a l ≡ l
unfolding rotate create
rotate_unmoved a l c o h r p = ground arith
