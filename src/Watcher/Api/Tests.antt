-- ===== src/Watcher/Api/Tests.antt =====
-- Requests to the API of the agent on concrete data.
use dockward.Prelude.{
  is_some, ◌+◌, ◌≡◌, ◌≢◌, ◌⊎◌, refl, true, false, none, some, [], ◌∷◌, ◌++◌, arith, if◌then◌else◌,
  ◌==◌,
}
use dockward.Prelude.Int.{pos}
use dockward.Prelude.Text.{
  codes, text_eq, text_beq, text_beq_iff, has_prefix, trim_space, skip_space, space_width,
  end_width,
}
use dockward.Prelude.Map.{lookup, insert}
use dockward.Prelude.Files.{rename}
use dockward.Config.{Service}
use dockward.Config.Defaults.{set_defaults, service_defaults}
use dockward.Config.Save.{save}
use dockward.Config.Validation.{
  Checks, regular, is_project_name, has_dots, refused, ConfigError, validate,
}
use dockward.Compose.{System, up}
use dockward.Watcher.Samples.{web, web_api, db, failing}
use dockward.Watcher.State.{Watcher, new_watcher, is_deploying}
use dockward.Watcher.Updater.{try_start_deploy}
use dockward.Watcher.Updater.Drift.{ups}
use dockward.Watcher.Api.{
  post, put, delete_method, service_of_path, validate_service_name, find_service,
  handle_trigger_service, handle_unblock_service, handle_force_redeploy, service_not_found,
  invalid_name, force_redeploy, preview,
}
use dockward.Watcher.Api.Status.{build_service_status}
use dockward.Watcher.Api.Shown.{unblocked_shown}
use dockward.Watcher.Api.Redeploy.{
  command_line, env_note, compose_verifications, force_redeploy_lem, preview-up,
}
use dockward.Watcher.Api.Triggers.{IsListed, checks_started, trigger_service_guarded}
use dockward.Watcher.Api.ConfigApi.{
  Disk, Running, registry_ok, handle_put_registry, handle_config_service,
}
use dockward.Watcher.Api.Upserts.{services_of, with_defaults, upsert_lem, put_registry_refused}

abbrev start : Watcher
start = new_watcher 0

abbrev blocking : Watcher
blocking = record start {
  updater = record start.updater {
    blocked = insert (codes "web/app:1") (codes "sha256:bb") start.updater.blocked;
  };
}

abbrev busy : Watcher
busy = (try_start_deploy (codes "web") 5 start).1

-- Names are trimmed and checked; what follows the prefix is the name.
bad_name : (handle_force_redeploy post (codes "/redeploy/a.b") (web ∷ []) start).0 ≡ invalid_name
unfolding handle_force_redeploy service_of_path validate_service_name trim_space skip_space
    space_width end_width is_project_name has_prefix text_beq
bad_name = refl

unknown_service :
    (handle_force_redeploy post (codes "/redeploy/ db ") (web ∷ []) start).0 ≡ service_not_found
unfolding handle_force_redeploy service_of_path validate_service_name trim_space skip_space
    space_width end_width is_project_name has_prefix text_beq find_service
unknown_service = refl

unblocked_shown_example :
    let t = (handle_unblock_service delete_method (codes "/blocked/web") blocking).1 in
    (build_service_status web (pos 300) 9 none t).blocked ≡ []
unfolding service_of_path validate_service_name trim_space skip_space space_width end_width
    is_project_name has_prefix text_beq
unblocked_shown_example =
    unblocked_shown web (codes "/blocked/web") (pos 300) 9 none blocking refl (λ e. cc)

force_redeploy_lem_example :
    let t = force_redeploy web failing 6 busy in
    (ups t.log ≡ ups busy.log + 1)
    × (((failing.failure ≡ none)
          × (is_deploying (codes "web") t.updater ≡ true)
          × (compose_verifications t.log ≡ web ∷ compose_verifications busy.log))
        ⊎ ((is_some failing.failure ≡ true)
            × (is_deploying (codes "web") t.updater ≡ false)
            × (compose_verifications t.log ≡ compose_verifications busy.log)
            × ((try_start_deploy (codes "web") 7 t).0 ≡ true)))
force_redeploy_lem_example = force_redeploy_lem web failing 6 7 busy

abbrev shop : Service
shop = record web { compose_files = codes "/srv/web.yml" ∷ []; env_file = codes "/srv/web.env" }

abbrev host : System
host = record {
  stat = λ f. regular;
  read = λ f. some (codes "PORT=80\n");
  environ = codes "HOME=/root" ∷ [];
  combined_output = λ c. (codes "done\n", false);
}

preview-up_example :
    preview (codes "podman") shop
    ≡ command_line (record {
      program = codes "podman";
      args =
          codes "compose"
          ∷ codes "-p"
          ∷ codes "web"
          ∷ codes "-f"
          ∷ codes "/srv/web.yml"
          ∷ codes "up"
          ∷ codes "-d"
          ∷ [];
      env = codes "HOME=/root" ∷ codes "PORT=80" ∷ [];
    })
      ++ env_note shop
unfolding up trim_space skip_space space_width end_width text_beq has_prefix is_project_name
    has_dots
preview-up_example =
    preview-up host (codes "podman") shop
      (record {
        program = codes "podman";
        args =
            codes "compose"
            ∷ codes "-p"
            ∷ codes "web"
            ∷ codes "-f"
            ∷ codes "/srv/web.yml"
            ∷ codes "up"
            ∷ codes "-d"
            ∷ [];
        env = codes "HOME=/root" ∷ codes "PORT=80" ∷ [];
      })
      refl

trigger_service_guarded_example :
    let path = codes "/trigger/web" in
    let name = service_of_path (codes "/trigger/") path in
    let t = (handle_trigger_service post path false (db ∷ web ∷ []) start).1 in
    (t ≡ start)
    ⊎ ((svc : Service) × (post ≡ post)
        × (is_project_name name ≡ true)
        × IsListed name (db ∷ web ∷ []) svc
        × (svc.auto_update ≡ true)
        × (is_deploying name start.updater ≡ false)
        × (checks_started t.log ≡ some svc ∷ checks_started start.log)
        × (t.updater ≡ start.updater)
        × (t.healer ≡ start.healer))
trigger_service_guarded_example =
    trigger_service_guarded post (codes "/trigger/web") false (db ∷ web ∷ []) start

abbrev running : Running
running = record {
  config = record {
    runtime = codes "docker";
    registry_url = codes "http://localhost:5000";
    poll_interval = pos 300;
    stats_interval = pos 300;
    check_interval = pos 30;
    timeout = pos 5;
    address = codes "127.0.0.1:9090" ∷ [];
    services = web ∷ web_api ∷ [];
    invalid_services = [];
  };
  files = [];
}

abbrev disk : Disk
disk = record {
  encode = λ c. some c.registry_url;
  path = codes "/etc/dockward.json";
  answers = record {
    temp = codes "/etc/.dockward-config-1.tmp";
    create_ok = true;
    failed_after = none;
    close_ok = true;
    rename_ok = true;
    remove_ok = true;
  };
}

abbrev checks : Checks
checks = record { stat = λ f. regular; port = λ a. some (pos 9090); hundred = pos 100 }

-- The name in the body is not that of the path.
upsert_lem_example :
    find_service (codes "web-api") (
      services_of
        (handle_config_service disk put (codes "/config/services/web") (some db) running).1)
    ≡ (if codes "web" == codes "web-api"
        then some (service_defaults (record db { name = codes "web" }))
        else with_defaults (find_service (codes "web-api") (services_of running)))
unfolding service_of_path validate_service_name trim_space skip_space space_width end_width
    is_project_name has_prefix text_beq
upsert_lem_example =
    upsert_lem disk (codes "/config/services/web") (codes "web") (codes "web-api") db running refl
      (λ e. cc)

apart : disk.answers.temp ≢ disk.path
unfolding text_beq
apart e = absurd (cc ((text_beq_iff disk.answers.temp disk.path).1 e))

put_registry_refused_example :
    let (reply, t) = handle_put_registry disk put (some (codes "https://hub", pos 5)) running in
    (reply ≡ registry_ok)
    × (lookup disk.path t.files ≡ disk.encode t.config)
    × (e : ConfigError) × (validate checks (set_defaults t.config) ≡ refused e)
unfolding save rename lookup insert text_beq
put_registry_refused_example =
    put_registry_refused disk checks (codes "https://hub") 5 running apart omega arith omega arith
      refl
