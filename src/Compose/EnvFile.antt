-- ===== src/Compose/EnvFile.antt =====
-- `loadEnvFile` of internal/compose/compose.go.
use mathlib.Core.Logic.{◌⊎◌, inl, inr}
use dockward.Prelude.{
  ℕ, ◌&&◌, ◌||◌, Option, none, some, List, [], ◌∷◌, ◌++◌, if◌then◌else◌, ◌==◌, nat_eq,
}
use dockward.Prelude.Text.{Text, codes, text_eq, has_prefix, trim_space}
use dockward.Prelude.Scan.{scan}

pub data EnvError : Type 0 where
  open_failed scan_failed : EnvError

-- The text before and after the first `=`, as `strings.IndexByte` finds it.
unfoldable pub cut_equals : Text → Option (Text × Text)
cut_equals [] = none
cut_equals (c ∷ s) =
    let rest = cut_equals s in
    if c == b'='
    then some ([], s)
    else elim rest [ none ↦ none | some (key, value) ↦ some (c ∷ key, value) ]

-- The last byte of a text that is not empty, and the text without it.
abbrev pub last_byte : ℕ → Text → ℕ
last_byte c [] = c
last_byte c (d ∷ s) = last_byte d s

abbrev pub without_last : ℕ → Text → Text
without_last c [] = []
without_last c (d ∷ s) = c ∷ without_last d s

-- A value of two bytes at least that begins and ends with the same quote loses both.
unfoldable pub strip_quotes : Text → Text
strip_quotes [] = []
strip_quotes (c ∷ []) = c ∷ []
strip_quotes (c ∷ d ∷ s) =
    if c == b'"' && last_byte d s == b'"' || c == 39 && last_byte d s == 39
    then without_last d s
    else c ∷ d ∷ s

-- The entry that a line adds, if any.
unfoldable pub parse_line : Text → Option Text
unfolding cut_equals strip_quotes trim_space
parse_line raw =
    let line = trim_space raw in
    if line == [] || has_prefix line (codes "#") then none else elim (cut_equals line) [
      | none ↦ none
      | some (key, value) ↦ some (key ++ codes "=" ++ strip_quotes (trim_space value))
    ]

unfoldable pub parse_lines : List Text → List Text
unfolding parse_line
parse_lines [] = []
parse_lines (l ∷ ls) =
    let rest = parse_lines ls in elim (parse_line l) [ none ↦ rest | some e ↦ e ∷ rest ]

-- `content` is none where the file cannot be opened.
unfoldable pub load_env_file : Option Text → EnvError ⊎ List Text
unfolding parse_lines scan
load_env_file none = inl open_failed
load_env_file (some content) =
    let (lines, stopped) = scan content in
    if stopped then inl scan_failed else inr (parse_lines lines)
