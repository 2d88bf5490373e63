-- ===== src/Audit/Disk.antt =====
-- The names of the files of internal/audit/audit.go, and `cleanOldArchives`. The path of the log is taken as clean and without the special characters of
-- `filepath.Glob`.
use dockward.Prelude.{
  ℕ, ◌+◌, ◌-◌, Bool, not, ◌&&◌, List, [], ◌∷◌, ◌++◌, if◌then◌else◌, ◌==◌, nat_eq, leb, length, take,
  drop, any_of,
}
use dockward.Prelude.Text.{Text, codes, text_eq, has_prefix, has_suffix}
use dockward.Prelude.Files.{Files}
use dockward.Prelude.Sort.{sort_into}
use dockward.Prelude.Map.{delete}

-- `strings.TrimSuffix(s, ".jsonl")`
unfoldable pub trim_jsonl : Text → Text
trim_jsonl s =
    if has_suffix s (codes ".jsonl") then take (length s - length (codes ".jsonl")) s else s

-- `"%s.%s.jsonl"`, of the path without its suffix and the formatted time.
unfoldable pub archive_path : Text → Text → Text
unfolding trim_jsonl
archive_path path stamp = trim_jsonl path ++ codes "." ++ stamp ++ codes ".jsonl"

-- Whether a path matches the pattern `base.*.jsonl` in the directory of the log.
unfoldable pub is_archive : Text → Text → Bool
unfolding trim_jsonl
is_archive path f =
    let stem = trim_jsonl path ++ codes "." in
    leb (length stem + length (codes ".jsonl")) (length f)
    && has_prefix f stem
    && has_suffix f (codes ".jsonl")
    && not (any_of (λ c. c == b'/') (drop (length stem) f))

unfoldable pub matches : Text → Files → List Text
unfolding is_archive sort_into
matches path [] = []
matches path ((f, _) ∷ files) =
    let rest = matches path files in if is_archive path f then sort_into f rest else rest

-- `removable` tells of which files the removal succeeds.
unfoldable pub remove_all : (Text → Bool) → List Text → Files → Files
remove_all removable [] files = files
remove_all removable (f ∷ fs) files =
    let left = remove_all removable fs files in if removable f then delete f left else left

abbrev pub kept_archives : ℕ
kept_archives = 5

unfoldable pub clean_old_archives : (Text → Bool) → Text → Files → Files
unfolding matches remove_all
clean_old_archives removable path files =
    let found = matches path files in
    remove_all removable (take (length found - kept_archives) found) files
