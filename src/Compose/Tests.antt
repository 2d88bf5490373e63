-- ===== src/Compose/Tests.antt =====
-- Runs of the compose commands and of the environment file on concrete data.
use dockward.Prelude.{
  ◌≡◌, ◌↔◌, ◌⊎◌, inl, inr, refl, true, false, none, some, List, [], ◌∷◌, map, arith, is_some,
}
use dockward.Prelude.Int.{pos}
use dockward.Prelude.Text.{
  Text, codes, text_eq, text_beq, has_prefix, trim_space, skip_space, space_width, end_width,
}
use dockward.Prelude.Scan.{unlines}
use dockward.Config.{Service}
use dockward.Config.Validation.{Checks, regular, is_project_name, has_dots}
use dockward.Compose.{System, Target, validate_target, command_env, run, pull}
use dockward.Compose.EnvFile.{load_env_file}
use dockward.Compose.Guard.{IsSafe, validate_target_iff, run-IsSafe, command_of}
use dockward.Compose.Kept.{target_of}
use dockward.Compose.RoundTrip.{printed, entry, load_env_file-printed}

abbrev shop : Service
shop = record {
  name = codes "shop";
  images = codes "shop:2" ∷ [];
  silent = false;
  compose_files = codes "/srv/a.yml" ∷ codes "/srv/b.yml" ∷ [];
  compose_project = codes "shop-1";
  container_name = [];
  env_file = codes "/srv/shop.env";
  auto_update = true;
  auto_start = false;
  auto_heal = true;
  compose_watch = false;
  cpu_threshold = pos 0;
  memory_threshold = pos 0;
  health_grace = pos 60;
  heal_cooldown = pos 300;
  heal_max_restarts = pos 3;
}

abbrev env_text : Text
env_text = codes "# ports\nPORT = 80 \n\nNAME='a b'\nexport X\nURL=\"h=1#2\"\n"

-- Every path is a regular file with the same contents, and every command prints two lines.
abbrev host : System
host = record {
  stat = λ f. regular;
  read = λ f. some env_text;
  environ = codes "HOME=/root" ∷ [];
  combined_output = λ c. (codes " done\n", false);
}

abbrev checks : Checks
checks = record { stat = λ f. regular; port = λ a. none; hundred = pos 100 }

abbrev target : Target
target = target_of (codes "podman") shop

comments_and_quotes :
    load_env_file (some env_text)
    ≡ inr (codes "PORT =80" ∷ codes "NAME=a b" ∷ codes "URL=h=1#2" ∷ [])
unfolding load_env_file trim_space skip_space space_width end_width text_beq has_prefix
comments_and_quotes = refl

-- A no-break space and an ideographic space are trimmed, the letter that begins with the same byte is not.
wide_blanks : trim_space (194 ∷ 160 ∷ 194 ∷ 181 ∷ 227 ∷ 128 ∷ 128 ∷ 32 ∷ []) ≡ 194 ∷ 181 ∷ []
unfolding trim_space skip_space space_width end_width
wide_blanks = refl

pull_args :
    (pull host target).ran
    ≡ record {
      program = codes "podman";
      args =
          codes "compose"
          ∷ codes "-p"
          ∷ codes "shop-1"
          ∷ codes "-f"
          ∷ codes "/srv/a.yml"
          ∷ codes "-f"
          ∷ codes "/srv/b.yml"
          ∷ codes "pull"
          ∷ [];
      env = codes "HOME=/root" ∷ codes "PORT =80" ∷ codes "NAME=a b" ∷ codes "URL=h=1#2" ∷ [];
    }
      ∷ []
unfolding pull trim_space skip_space space_width end_width text_beq has_prefix is_project_name
    has_dots
pull_args = refl

target-IsSafe : IsSafe host target
unfolding has_prefix is_project_name has_dots text_beq
target-IsSafe = (
  inr refl,
  refl,
  λ e. cc,
  ((refl, refl, refl), ((refl, refl, refl), tt)),
  inr (refl, refl, refl),
)

validate_target_iff_example : (validate_target host target ≡ none) ↔ IsSafe host target
validate_target_iff_example = validate_target_iff host target

run-IsSafe_example :
    ((¬ IsSafe host target ⊎ ((e : _) × (command_env host target.env_file ≡ inl e)))
      × ((run host target (codes "pull") []).ran ≡ [])
      × (is_some (run host target (codes "pull") []).error ≡ true))
    ⊎ (IsSafe host target
        × ((env : List Text) × (command_env host target.env_file ≡ inr env)
            × ((run host target (codes "pull") []).ran
                ≡ command_of target (codes "pull") [] env ∷ [])))
run-IsSafe_example = run-IsSafe host target (codes "pull") []

abbrev variables : List (Text × Text)
variables = (codes "NAME", codes " a=b # c ") ∷ (codes "QUOTE", codes "\"'") ∷ []

load_env_file-printed_example :
    load_env_file (some (unlines (map printed variables))) ≡ inr (map entry variables)
unfolding space_width
load_env_file-printed_example = load_env_file-printed variables (ground arith)
