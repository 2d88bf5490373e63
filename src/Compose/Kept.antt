-- ===== src/Compose/Kept.antt =====
-- A service that the configuration keeps passes the checks of internal/compose/validation.go.
use dockward.Prelude.Text.{Text, text_eq}
use dockward.Config.{Service}
use dockward.Compose.{Target}

-- What the updater passes to `compose.Up` for a service.
abbrev pub target_of : Text → Service → Target
target_of runtime svc = record {
  runtime = runtime;
  compose_files = svc.compose_files;
  project = svc.compose_project;
  env_file = svc.env_file;
}
