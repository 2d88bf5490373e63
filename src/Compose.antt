-- ===== src/Compose.antt =====
-- internal/compose: the commands of compose.go behind the checks of validation.go. The command itself,
-- the environment of the process and the file system are parameters.
pub mod EnvFile
pub mod Guard
mod RoundTrip
pub mod Kept
mod Tests
use dockward.Prelude.{
  ℕ, suc, ◌≡◌, Bool, true, false, not, ◌&&◌, ◌||◌, Option, none, some, List, [], ◌∷◌, ◌++◌,
  if◌then◌else◌, ◌==◌, nat_eq,
}
use dockward.Prelude.{◌⊎◌, inl, inr}
use dockward.Prelude.Text.{Text, codes, text_eq, has_prefix, trim_space}
use dockward.Config.Validation.{
  FileKind, regular, missing, stat_error, irregular, is_project_name, has_dots,
}
use dockward.Compose.EnvFile.{EnvError, load_env_file}

pub data PathError : Type 0 where
  path_empty not_absolute traversal no_such_file cannot_stat not_regular : PathError

-- `files_invalid` has the index of the file.
pub data RunError : Type 0 where
  invalid_runtime project_empty project_invalid no_files : RunError
  files_invalid : ℕ → PathError → RunError
  env_invalid : PathError → RunError
  env_failed : EnvError → RunError
  command_failed : Text → Text → RunError

-- `exec.Cmd`: the program, its arguments and its environment.
pub record Command : Type 0 where
  pub program : Text
  pub args : List Text
  pub env : List Text

-- `stat` tells the kind of the file at a cleaned path, `read` the contents of a file that opens, and
-- `combined_output` what a command prints and whether it fails.
pub record System : Type 0 where
  pub stat : Text → FileKind
  pub read : Text → Option Text
  pub environ : List Text
  pub combined_output : Command → Text × Bool

unfoldable pub validate_project_name : Text → Option RunError
validate_project_name name =
    if name == []
    then some project_empty
    else if is_project_name name
    then none
    else some project_invalid

unfoldable pub validate_file_path : System → Text → Option PathError
validate_file_path s path =
    if path == []
    then some path_empty
    else if not (has_prefix path (codes "/"))
    then some not_absolute
    else if has_dots path
    then some traversal
    else elim (s.stat path) [
      | missing ↦ some no_such_file
      | stat_error ↦ some cannot_stat
      | irregular ↦ some not_regular
      | regular ↦ none
    ]

unfoldable pub validate_env_file_path : System → Text → Option PathError
unfolding validate_file_path
validate_env_file_path s path = if path == [] then none else validate_file_path s path

-- The loop over the files, from index `i`.
unfoldable pub validate_each : System → ℕ → List Text → Option RunError
unfolding validate_file_path
validate_each s i [] = none
validate_each s i (f ∷ files) =
    let rest = validate_each s (suc i) files in
    elim (validate_file_path s f) [ none ↦ rest | some e ↦ some (files_invalid i e) ]

unfoldable pub validate_compose_files : System → List Text → Option RunError
unfolding validate_each
validate_compose_files s [] = some no_files
validate_compose_files s (f ∷ files) = validate_each s 0 (f ∷ files)

abbrev pub file_args : List Text → List Text
file_args [] = []
file_args (f ∷ files) = codes "-f" ∷ f ∷ file_args files

abbrev pub command_args : Text → List Text → List Text → List Text
command_args project files args = codes "compose" ∷ codes "-p" ∷ project ∷ (file_args files ++ args)

-- The parameters that `Pull`, `Up` and `Restart` share.
pub record Target : Type 0 where
  pub runtime : Text
  pub compose_files : List Text
  pub project : Text
  pub env_file : Text

-- The first check that refuses the target.
unfoldable pub validate_target : System → Target → Option RunError
unfolding validate_project_name validate_compose_files validate_env_file_path
validate_target s t =
    if not (t.runtime == codes "docker") && not (t.runtime == codes "podman")
    then some invalid_runtime
    else elim (validate_project_name t.project) [
      | some e ↦ some e
      | none ↦ elim (validate_compose_files s t.compose_files) [
        | some e ↦ some e
        | none ↦ elim (validate_env_file_path s t.env_file) [
          | some e ↦ some (env_invalid e)
          | none ↦ none
        ]
      ]
    ]

-- What a call of `run` returns, and the commands that it ran.
pub record Outcome : Type 0 where
  pub output : Text
  pub error : Option RunError
  pub ran : List Command

abbrev refused : RunError → Outcome
refused e = record { output = []; error = some e; ran = [] }

-- The last step of `run`: `sub` is the first of the arguments.
unfoldable pub execute : System → Text → Command → Outcome
unfolding trim_space
execute s sub c =
    let (printed, failed) = s.combined_output c in
    let out = trim_space printed in
    record {
      output = out;
      error = if failed then some (command_failed sub out) else none;
      ran = c ∷ [];
    }

-- The environment of the process, then that of the file, if one is given.
unfoldable pub command_env : System → Text → EnvError ⊎ List Text
unfolding load_env_file
command_env s env_file =
    if env_file == [] then inr s.environ else elim (load_env_file (s.read env_file)) [
      | inl e ↦ inl e
      | inr extra ↦ inr (s.environ ++ extra)
    ]

-- `run` with the arguments `sub ∷ flags`.
unfoldable pub run : System → Target → Text → List Text → Outcome
unfolding validate_target command_env execute
run s t sub flags = elim (validate_target s t) [
  | some e ↦ refused e
  | none ↦ elim (command_env s t.env_file) [
    | inl e ↦ refused (env_failed e)
    | inr env ↦ execute s sub (record {
      program = t.runtime;
      args = command_args t.project t.compose_files (sub ∷ flags);
      env = env;
    })
  ]
]

unfoldable pub pull : System → Target → Outcome
unfolding run
pull s t = run s t (codes "pull") []

unfoldable pub up : System → Target → Outcome
unfolding run
up s t = run s t (codes "up") (codes "-d" ∷ [])

-- `down`, then `up -d` if that succeeded; the commands are listed in the order in which they ran. The
-- second one meets the world as the first one leaves it.
unfoldable pub restart : System → System → Target → Outcome
unfolding run up
restart s later t =
    let down = run s t (codes "down") [] in
    elim down.error [
      | some e ↦ down
      | none ↦
          let second = up later t in
          record {
            output = down.output ++ second.output;
            error = second.error;
            ran = down.ran ++ second.ran;
          }
    ]
