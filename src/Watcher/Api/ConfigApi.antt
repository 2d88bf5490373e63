-- ===== src/Watcher/Api/ConfigApi.antt =====
-- The handlers of internal/watcher/api_config.go that change the configuration. The body of a request is
-- what it decodes to, none where it is not valid JSON. The notifications are left out, as in Config.
use dockward.Prelude.{Bool, List, [], ◌∷◌, Option, none, some, if◌then◌else◌, ◌==◌, any_of}
use dockward.Prelude.Int.{ℤ}
use dockward.Prelude.Text.{Text, codes, text_eq}
use dockward.Prelude.Files.{Files}
use dockward.Config.{Service, Config}
use dockward.Config.Defaults.{set_defaults}
use dockward.Config.Save.{SaveAnswers, save}
use dockward.Watcher.Api.{Method, put, delete_method, service_of_path}

-- The configuration in memory, and the files.
pub record Running : Type 0 where
  pub config : Config
  pub files : Files

pub data ConfigReply : Type 0 where
  bad_method bad_name bad_json persist_failed no_service : ConfigReply
  registry_ok monitor_ok : ConfigReply
  created updated deleted : Text → ConfigReply

-- How a configuration is written out, the path of its file, and what the system answers.
pub record Disk : Type 0 where
  pub encode : Config → Option Text
  pub path : Text
  pub answers : SaveAnswers

-- `Save`, after the configuration in memory was changed; `r` is the reply where it succeeds.
unfoldable pub persist : Disk → ConfigReply → Config → Files → ConfigReply × Running
unfolding save
persist d r c files =
    let (saved, after) = save d.encode d.answers d.path c files in
    (if saved then r else persist_failed, record { config = c; files = after })

-- `Registry` as it is sent: the address and the interval.
unfoldable pub handle_put_registry :
    Disk → Method → Option (Text × ℤ) → Running → ConfigReply × Running
unfolding persist set_defaults
handle_put_registry d put (some (url, poll_interval)) s =
    persist d registry_ok
      (set_defaults (record s.config { registry_url = url; poll_interval = poll_interval })) s.files
handle_put_registry d put none s = (bad_json, s)
handle_put_registry d _ body s = (bad_method, s)

unfoldable pub handle_put_monitor : Disk → Method → Option ℤ → Running → ConfigReply × Running
unfolding persist set_defaults
handle_put_monitor d put (some stats_interval) s =
    persist d monitor_ok (set_defaults (record s.config { stats_interval = stats_interval }))
      s.files
handle_put_monitor d put none s = (bad_json, s)
handle_put_monitor d _ body s = (bad_method, s)

-- The first service with the name is replaced; otherwise the service is appended.
unfoldable pub put_service : Service → List Service → List Service
put_service svc [] = svc ∷ []
put_service svc (s ∷ services) =
    let rest = put_service svc services in if s.name == svc.name then svc ∷ services else s ∷ rest

abbrev pub has_service : Text → List Service → Bool
has_service name services = any_of (λ svc. svc.name == name) services

unfoldable pub drop_service : Text → List Service → List Service
drop_service name [] = []
drop_service name (s ∷ services) =
    let rest = drop_service name services in if s.name == name then rest else s ∷ rest

unfoldable pub handle_upsert_service :
    Disk → Text → Option Service → Running → ConfigReply × Running
unfolding persist set_defaults put_service
handle_upsert_service d path body s =
    let name = service_of_path (codes "/config/services/") path in
    if name == [] then (bad_name, s) else elim body [
      | none ↦ (bad_json, s)
      | some sent ↦
          persist d (if has_service name s.config.services then updated name else created name)
            (set_defaults (record s.config {
              services = put_service (record sent { name = name }) s.config.services;
            }))
            s.files
    ]

unfoldable pub handle_delete_service : Disk → Text → Running → ConfigReply × Running
unfolding persist drop_service
handle_delete_service d path s =
    let name = service_of_path (codes "/config/services/") path in
    if name == []
    then (bad_name, s)
    else if has_service name s.config.services
    then persist d (deleted name)
        (record s.config { services = drop_service name s.config.services }) s.files
    else (no_service, s)

unfoldable pub handle_config_service :
    Disk → Method → Text → Option Service → Running → ConfigReply × Running
unfolding handle_upsert_service handle_delete_service
handle_config_service d put path body s = handle_upsert_service d path body s
handle_config_service d delete_method path body s = handle_delete_service d path s
handle_config_service d _ path body s = (bad_method, s)
