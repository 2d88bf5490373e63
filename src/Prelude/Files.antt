-- ===== src/Prelude/Files.antt =====
-- Files by path with their contents, and the calls of package os that the source makes on them.
use mathlib.Core.Option.{Option, none, some}
use mathlib.Core.List.{[]}
use dockward.Prelude.Tests.{if◌then◌else◌}
use dockward.Prelude.Text.{Text, text_eq}
use dockward.Prelude.Map.{Map, lookup, insert, delete, has}

abbrev pub Files : Type 0
Files = Map Text Text

-- `os.OpenFile` with `O_CREATE`: a file that is missing is created empty.
unfoldable pub create : Text → Files → Files
create path files = if has path files then files else insert path [] files

-- `os.Rename`, which replaces the target.
unfoldable pub rename : Text → Text → Files → Option Files
rename old target files = elim (lookup old files) [
  | none ↦ none
  | some content ↦ some (insert target content (delete old files))
]
