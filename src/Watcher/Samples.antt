-- ===== src/Watcher/Samples.antt =====
-- A service, its container and its answers, for the tests of the healer and the updater.
use dockward.Prelude.{true, false, [], ◌∷◌, Option, none, some}
use dockward.Prelude.Int.{pos}
use dockward.Prelude.Text.{Text, codes}
use dockward.Docker.{ContainerInspect, HealthState, Container}
use dockward.Config.{Service}
use dockward.Watcher.Effects.{ImageChange}
use dockward.Watcher.Updater.Deploy.{ComposeResult, DeployAnswers}
use dockward.Watcher.Updater.Check.{digest, ImageAnswers}

abbrev pub web : Service
web = record {
  name = codes "web";
  images = codes "app:1" ∷ [];
  silent = false;
  compose_files = codes "web.yml" ∷ [];
  compose_project = codes "web";
  container_name = codes "web-1";
  env_file = [];
  auto_update = true;
  auto_start = true;
  auto_heal = true;
  compose_watch = true;
  cpu_threshold = pos 0;
  memory_threshold = pos 0;
  health_grace = pos 60;
  heal_cooldown = pos 300;
  heal_max_restarts = pos 2;
}

-- A service whose name continues the other's.
abbrev pub web_api : Service
web_api = record web { name = codes "web-api" }

abbrev pub db : Service
db = record web { name = codes "db"; compose_project = codes "db"; container_name = codes "db-1" }

abbrev pub with_health : Option HealthState → ContainerInspect
with_health health = record {
  name = codes "/web-1";
  image = codes "sha256:aa";
  state = record { running = true; health = health };
  config_image = codes "hub/app:1";
}

abbrev pub reporting : Text → ContainerInspect
reporting status = with_health (some (record { status = status; log = [] }))

abbrev pub sick : ContainerInspect
sick = reporting (codes "unhealthy")

abbrev pub fine : ContainerInspect
fine = reporting (codes "healthy")

abbrev pub running : Container
running = record { id = codes "c1"; image = codes "hub/app:1"; state = codes "running" }

abbrev pub url : Text
url = codes "https://hub"

abbrev pub app : Text
app = codes "app:1"

abbrev pub new_app : ImageChange
new_app = record { image = app; old_digest = codes "old"; new_digest = codes "new"; old_ref = [] }

abbrev pub succeeding : ComposeResult
succeeding = record { output = codes "ok"; failure = none }

abbrev pub failing : ComposeResult
failing = record { output = []; failure = some (codes "exit 1") }

abbrev pub deploying_with : ComposeResult → DeployAnswers
deploying_with pull = record {
  cancelled = none;
  now = 7;
  containers = some (running ∷ []);
  inspect = λ i. some fine;
  pull = pull;
  up = succeeding;
}

abbrev pub good : DeployAnswers
good = deploying_with succeeding

abbrev pub asking : ImageAnswers
asking = record {
  remote = digest (codes "new");
  containers = some (running ∷ []);
  container = some fine;
  image_by_id = none;
  image_by_ref = none;
}
