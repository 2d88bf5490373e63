-- ===== src/Watcher/State.antt =====
-- The structs of healer.go and updater.go, with the metrics that both hold and the log of effects,
-- newest first. The mutexes guard single reads and writes of one map, so they leave no trace here.
use dockward.Prelude.{ℕ, Bool, List, [], ◌∷◌}
use dockward.Prelude.Text.{Text, text_eq}
use dockward.Prelude.Map.{Map, has}
use dockward.Watcher.Effects.{Effect}
use dockward.Watcher.Metrics.{Metrics, new_metrics}

pub record Healer : Type 0 where
  pub cooldowns : Map Text ℕ
  pub degraded : Map Text Bool
  pub restart_counts : Map Text ℕ
  pub exhausted : Map Text Bool
  pub started_at : ℕ

-- `DeployedInfo`
pub record DeployedInfo : Type 0 where
  pub image : Text
  pub digest : Text
  pub size : ℕ

-- An empty text stands for a missing digest or message, as in the source.
pub record Updater : Type 0 where
  pub deploying : Map Text ℕ
  pub blocked : Map Text Text
  pub not_found : Map Text Text
  pub errored : Map Text Text
  pub start_attempted : Map Text Text
  pub compose_hashes : Map Text Text
  pub deployed : Map Text DeployedInfo
  pub last_checked : Map Text ℕ
  pub check_status : Map Text Text

pub record Watcher : Type 0 where
  pub healer : Healer
  pub updater : Updater
  pub metrics : Metrics
  pub log : List Effect

-- `NewHealer` at time `now`, and `NewUpdater`.
unfoldable pub new_healer : ℕ → Healer
new_healer now = record {
  cooldowns = [];
  degraded = [];
  restart_counts = [];
  exhausted = [];
  started_at = now;
}

unfoldable pub new_updater : Updater
new_updater = record {
  deploying = [];
  blocked = [];
  not_found = [];
  errored = [];
  start_attempted = [];
  compose_hashes = [];
  deployed = [];
  last_checked = [];
  check_status = [];
}

unfoldable pub new_watcher : ℕ → Watcher
unfolding new_healer new_updater new_metrics
new_watcher now = record {
  healer = new_healer now;
  updater = new_updater;
  metrics = new_metrics;
  log = [];
}

abbrev pub emit : Effect → Watcher → Watcher
emit e s = record s { log = e ∷ s.log }

abbrev pub on_metrics : (Metrics → Metrics) → Watcher → Watcher
on_metrics f s = record s { metrics = f s.metrics }

-- `IsDeploying`
abbrev pub is_deploying : Text → Updater → Bool
is_deploying service u = has service u.deploying
