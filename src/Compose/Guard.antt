-- ===== src/Compose/Guard.antt =====
-- Which commands internal/compose/compose.go runs.
use dockward.Prelude.{
  ℕ, suc, ◌≡◌, ◌≢◌, ◌↔◌, ◌⊎◌, inl, inr, refl, sym, ◌∙◌, true, false, none, some, List, [], ◌∷◌,
  ◌++◌, arith, is_some, All, Option-cases, Sum-cases,
}
use dockward.Prelude.Text.{Text, codes, text_eq, text_beq_iff, has_prefix}
use dockward.Config.Validation.{regular, is_project_name, has_dots}
use dockward.Compose.EnvFile.{EnvError}
use dockward.Compose.{
  System, Target, Command, RunError, validate_target, validate_project_name, validate_compose_files,
  validate_each, validate_file_path, validate_env_file_path, command_args, command_env, execute,
  run, up, restart,
}

-- An absolute path of a regular file, with no two dots in a row.
abbrev pub IsPlainFile : System → Text → Type 0
IsPlainFile s f = (has_prefix f (codes "/") ≡ true) × (has_dots f ≡ false) × (s.stat f ≡ regular)

abbrev pub IsSafe : System → Target → Type 0
IsSafe s t =
    ((t.runtime ≡ codes "docker") ⊎ (t.runtime ≡ codes "podman"))
    × (is_project_name t.project ≡ true)
    × (t.compose_files ≢ [])
    × All (IsPlainFile s) t.compose_files
    × ((t.env_file ≡ []) ⊎ IsPlainFile s t.env_file)

absolute_nonempty : (f : Text) → has_prefix f (codes "/") ≡ true → f ≢ []
unfolding has_prefix
absolute_nonempty [] h e = ground arith
absolute_nonempty (c ∷ f) h e = cc

validate_file_path_iff : (s : System) (f : Text) → (validate_file_path s f ≡ none) ↔ IsPlainFile s f
unfolding validate_file_path
validate_file_path_iff s f = ground (arith, text_beq_iff f [], absolute_nonempty f)

validate_each_iff :
    (s : System) (i : ℕ) (files : List Text)
    → (validate_each s i files ≡ none) ↔ All (IsPlainFile s) files
unfolding validate_each
validate_each_iff s i [] = (λ _. tt, λ _. refl)
validate_each_iff s i (f ∷ files) =
    ground (arith, validate_file_path_iff s f, validate_each_iff s (suc i) files)

validate_compose_files_iff :
    (s : System) (files : List Text)
    → (validate_compose_files s files ≡ none) ↔ ((files ≢ []) × All (IsPlainFile s) files)
unfolding validate_compose_files
validate_compose_files_iff s [] = ground arith
validate_compose_files_iff s (f ∷ files) = ground (arith, validate_each_iff s 0 (f ∷ files))

validate_project_name_iff :
    (name : Text) → (validate_project_name name ≡ none) ↔ (is_project_name name ≡ true)
unfolding validate_project_name is_project_name
validate_project_name_iff name = ground (arith, text_beq_iff name [])

-- The checks before a command let just the safe targets pass: `docker` or `podman`, a project name of
-- letters, digits, dashes and underscores, at least one compose file, and only absolute paths of
-- regular files with no two dots in a row; the environment file may be left out.
pub validate_target_iff : (s : System) (t : Target) → (validate_target s t ≡ none) ↔ IsSafe s t
unfolding validate_target validate_env_file_path
validate_target_iff s t = ground (
  arith,
  text_beq_iff t.runtime (codes "docker"),
  text_beq_iff t.runtime (codes "podman"),
  text_beq_iff t.env_file [],
  validate_project_name_iff t.project,
  validate_compose_files_iff s t.compose_files,
  validate_file_path_iff s t.env_file,
)

abbrev pub command_of : Target → Text → List Text → List Text → Command
command_of t sub flags env = record {
  program = t.runtime;
  args = command_args t.project t.compose_files (sub ∷ flags);
  env = env;
}

-- A command for a target that is not safe, or whose environment file cannot be read, fails and runs
-- nothing. For a safe target whose environment file, if it has one, can be read, it runs once: as
-- `compose -p project -f file ...` and the given arguments, with the variables of that file.
pub run-IsSafe :
    (s : System) (t : Target) (sub : Text) (flags : List Text)
    → ((¬ IsSafe s t ⊎ ((e : EnvError) × (command_env s t.env_file ≡ inl e)))
        × ((run s t sub flags).ran ≡ [])
        × (is_some (run s t sub flags).error ≡ true))
      ⊎ (IsSafe s t
          × ((env : List Text) × (command_env s t.env_file ≡ inr env)
              × ((run s t sub flags).ran ≡ command_of t sub flags env ∷ [])))
unfolding execute run
run-IsSafe s t sub flags = elim (Option-cases (validate_target s t)) [
  | inr (e, bad) ↦ inl (
    inl (λ safe. absurd (cc ((validate_target_iff s t).1 safe, bad))),
    rw (bad, run) refl,
    rw (bad, run) refl,
  )
  | inl ok ↦ elim (Sum-cases (command_env s t.env_file)) [
    | inl (e, unread) ↦ inl (inr (e, unread), rw (ok, unread, run) refl, rw (ok, unread, run) refl)
    | inr (env, read) ↦ inr ((validate_target_iff s t).0 ok, (env, read, rw (ok, read, run) refl))
  ]
]

run_success :
    (s : System) (t : Target) (sub : Text) (flags : List Text)
    → (run s t sub flags).error ≡ none
    → (env : List Text) × ((run s t sub flags).ran ≡ command_of t sub flags env ∷ [])
run_success s t sub flags h = elim (run-IsSafe s t sub flags) [
  | inl (_, _, failed) ↦ absurd (ground (arith, h))
  | inr (_, (env, _, ran)) ↦ (env, ran)
]

restart_down_ok :
    (s later : System) (t : Target)
    → (run s t (codes "down") []).error ≡ none
    → ((restart s later t).ran
        ≡ (run s t (codes "down") []).ran ++ (run later t (codes "up") (codes "-d" ∷ [])).ran)
      × ((restart s later t).error ≡ (run later t (codes "up") (codes "-d" ∷ [])).error)
unfolding restart up
restart_down_ok s later t ok = rw (ok, restart) (refl, refl)

restart_down_failed :
    (s later : System) (t : Target) (e : RunError)
    → (run s t (codes "down") []).error ≡ some e
    → (restart s later t).error ≡ some e
unfolding restart
restart_down_failed s later t e failed = rw (failed, restart) failed

-- A restart that returns no error has run `down` and then `up -d` for the same project and files.
restart_success :
    (s later : System) (t : Target)
    → (restart s later t).error ≡ none
    → (down_env up_env : List Text) × ((restart s later t).ran
        ≡ record {
          program = t.runtime;
          args = command_args t.project t.compose_files (codes "down" ∷ []);
          env = down_env;
        }
          ∷ record {
            program = t.runtime;
            args = command_args t.project t.compose_files (codes "up" ∷ codes "-d" ∷ []);
            env = up_env;
          }
          ∷ [])
restart_success s later t h = elim (Option-cases (run s t (codes "down") []).error) [
  | inr (e, failed) ↦ absurd (cc (h, restart_down_failed s later t e failed))
  | inl ok ↦
      let (ran, error) = restart_down_ok s later t ok in
      let (down_env, down) = run_success s t (codes "down") [] ok in
      let (up_env, second) = run_success later t (codes "up") (codes "-d" ∷ []) (sym error ∙ h) in
      (down_env, up_env, ran ∙ rw (down, second) refl)
]
