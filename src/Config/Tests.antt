-- ===== src/Config/Tests.antt =====
-- A configuration with a service that is valid and one that is not.
use dockward.Prelude.{◌≡◌, ◌≢◌, ◌⊎◌, refl, true, false, [], ◌∷◌, some, All}
use dockward.Prelude.Int.{pos, leb_ℤ, ltb_ℤ}
use dockward.Prelude.Text.{codes, text_eq, text_beq, text_beq_iff, has_prefix}
use dockward.Config.{Service, Config, name_required}
use dockward.Config.Defaults.{set_defaults, service_defaults, positive_or, text_or, list_or}
use dockward.Config.Validation.{
  Checks, regular, check_files, check_env_file, check_features, check_numbers, check_service,
  sort_services, check_addresses, check_settings, has_dots, is_project_name, refused,
  timeout_not_below_check, validate,
}
use dockward.Config.Loading.{HasTiming, load_bounds}
use dockward.Config.Save.{SaveAnswers, save, save_atomic}
use dockward.Prelude.Files.{Files}
use dockward.Prelude.Map.{lookup, insert}

abbrev app : Service
app = record {
  name = codes "app";
  images = codes "app:1" ∷ [];
  silent = false;
  compose_files = codes "/srv/app.yml" ∷ [];
  compose_project = codes "app";
  container_name = [];
  env_file = [];
  auto_update = true;
  auto_start = true;
  auto_heal = true;
  compose_watch = false;
  cpu_threshold = pos 90;
  memory_threshold = pos 0;
  health_grace = pos 0;
  heal_cooldown = pos 0;
  heal_max_restarts = pos 5;
}

abbrev nameless : Service
nameless = record app { name = [] }

abbrev checks : Checks
checks = record { stat = λ f. regular; port = λ a. some (pos 9090); hundred = pos 100 }

abbrev empty : Config
empty = record {
  runtime = [];
  registry_url = [];
  poll_interval = pos 0;
  stats_interval = pos 0;
  check_interval = pos 0;
  timeout = pos 0;
  address = [];
  services = app ∷ nameless ∷ [];
  invalid_services = [];
}

abbrev kept : Config
kept = record {
  runtime = codes "docker";
  registry_url = codes "http://localhost:5000";
  poll_interval = pos 300;
  stats_interval = pos 300;
  check_interval = pos 30;
  timeout = pos 5;
  address = codes "127.0.0.1:9090" ∷ [];
  services = service_defaults app ∷ [];
  invalid_services =
      record { index = 1; reason = name_required; service = service_defaults nameless } ∷ [];
}

-- A check interval of 5 seconds, the least that is allowed, needs a timeout below the default one.
short_check :
    validate checks (set_defaults (record empty { check_interval = pos 5 }))
    ≡ refused timeout_not_below_check
unfolding validate set_defaults positive_or text_or list_or service_defaults sort_services
    check_service check_files check_env_file check_features check_numbers check_settings has_dots
    is_project_name text_beq has_prefix
short_check = refl

load_bounds_example :
    ((kept.runtime ≡ codes "docker") ⊎ (kept.runtime ≡ codes "podman"))
    × ((leb_ℤ (pos 10) (pos 300) ≡ true) × (leb_ℤ (pos 300) (pos 86400) ≡ true))
    × (leb_ℤ (pos 5) (pos 300) ≡ true)
    × ((leb_ℤ (pos 5) (pos 30) ≡ true) × (leb_ℤ (pos 30) (pos 3600) ≡ true))
    × ((leb_ℤ (pos 1) (pos 5) ≡ true) × (leb_ℤ (pos 5) (pos 30) ≡ true))
    × (ltb_ℤ (pos 5) (pos 30) ≡ true)
    × All HasTiming kept.services
unfolding validate set_defaults positive_or text_or list_or service_defaults sort_services
    check_service check_files check_env_file check_features check_numbers check_settings
    check_addresses has_dots is_project_name text_beq has_prefix
load_bounds_example = load_bounds checks empty kept refl

-- The disk is full after seven bytes.
abbrev full_disk : SaveAnswers
full_disk = record {
  temp = codes "/etc/.dockward-config-1.tmp";
  create_ok = true;
  failed_after = some 7;
  close_ok = true;
  rename_ok = true;
  remove_ok = false;
}

abbrev etc : Files
etc = insert (codes "/etc/dockward.json") (codes "{}") []

apart : full_disk.temp ≢ codes "/etc/dockward.json"
unfolding text_beq
apart e = absurd (cc ((text_beq_iff full_disk.temp (codes "/etc/dockward.json")).1 e))

save_atomic_example :
    let (ok, after) =
      save (λ c. some c.registry_url) full_disk (codes "/etc/dockward.json") kept etc in
    ((ok ≡ true) × (lookup (codes "/etc/dockward.json") after ≡ some kept.registry_url))
    ⊎ ((ok ≡ false)
        × (lookup (codes "/etc/dockward.json") after ≡ lookup (codes "/etc/dockward.json") etc))
save_atomic_example =
    save_atomic (λ c. some c.registry_url) full_disk (codes "/etc/dockward.json") kept etc apart
