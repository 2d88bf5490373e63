-- ===== src/Watcher/Api/Status.antt =====
-- The status of a service in internal/watcher/api.go, on one state of the agent. The list of containers,
-- which is asked of Docker, is left out.
use dockward.Prelude.{
  ℕ, ◌*◌, ◌/◌, Bool, false, not, List, [], ◌∷◌, ◌++◌, Option, none, some, if◌then◌else◌, ◌==◌,
  or_zero,
}
use dockward.Prelude.Int.{ℤ}
use dockward.Prelude.Text.{Text, codes, text_eq, has_prefix}
use dockward.Prelude.Map.{Map, lookup}
use dockward.Config.{Service}
use dockward.References.{short_digest}
use dockward.Watcher.Metrics.Prometheus.{ServiceCounters, counters_snapshot}
use dockward.Watcher.Monitor.{ResourceStats}
use dockward.Watcher.State.{DeployedInfo, Watcher, is_deploying}
use dockward.Watcher.Updater.{get_check_status, get_next_check}

pub data StatusWord : Type 0 where
  exhausted_status degraded_status errored_status blocked_status not_found_status : StatusWord
  deploying_status ok_status unhealthy_status unknown_status : StatusWord

pub record ImageInfo : Type 0 where
  pub image : Text
  pub digest : Text
  pub short : Text
  pub size_mb : ℕ

-- `serviceStatus`
pub record ServiceStatus : Type 0 where
  pub name : Text
  pub word : StatusWord
  pub auto_update : Bool
  pub auto_start : Bool
  pub auto_heal : Bool
  pub healthy : Option Bool
  pub deploying : Bool
  pub blocked : Text
  pub not_found : Text
  pub errored : Text
  pub degraded : Bool
  pub exhausted : Bool
  pub restarts : ℕ
  pub counters : Option ServiceCounters
  pub images : List ImageInfo
  pub stats : Option ResourceStats
  pub last_check : Option ℕ
  pub next_check : ℕ
  pub check_status : Text

-- The first value in the order of the list; a Go map has any order.
unfoldable pub first_value_by_prefix : Map Text Text → Text → Text
first_value_by_prefix [] prefix = []
first_value_by_prefix ((k, v) ∷ m) prefix =
    let rest = first_value_by_prefix m prefix in if has_prefix k prefix then v else rest

unfoldable pub images_by_prefix : Map Text DeployedInfo → Text → List ImageInfo
images_by_prefix [] prefix = []
images_by_prefix ((k, d) ∷ m) prefix =
    let rest = images_by_prefix m prefix in
    if has_prefix k prefix
    then record {
      image = d.image;
      digest = d.digest;
      short = short_digest d.digest;
      size_mb = d.size / (1024 * 1024);
    }
      ∷ rest
    else rest

unfoldable pub synthesize_status : ServiceStatus → StatusWord
synthesize_status s =
    if s.exhausted
    then exhausted_status
    else if s.degraded
    then degraded_status
    else if not (s.errored == [])
    then errored_status
    else if not (s.blocked == [])
    then blocked_status
    else if not (s.not_found == [])
    then not_found_status
    else if s.deploying
    then deploying_status
    else elim s.healthy [
      | none ↦ unknown_status
      | some healthy ↦ if healthy then ok_status else unhealthy_status
    ]

-- At time `now`, with the poll interval and what the monitor has of the service.
unfoldable pub build_service_status :
    Service → ℤ → ℕ → Option ResourceStats → Watcher → ServiceStatus
unfolding first_value_by_prefix images_by_prefix synthesize_status
build_service_status svc poll_interval now stats w =
    let prefix = svc.name ++ codes "/" in
    let built : ServiceStatus = record {
      name = svc.name;
      word = unknown_status;
      auto_update = svc.auto_update;
      auto_start = svc.auto_start;
      auto_heal = svc.auto_heal;
      healthy = lookup svc.name w.metrics.service_healthy;
      deploying = is_deploying svc.name w.updater;
      blocked = first_value_by_prefix w.updater.blocked prefix;
      not_found = first_value_by_prefix w.updater.not_found prefix;
      errored = or_zero [] (lookup svc.name w.updater.errored);
      degraded = or_zero false (lookup svc.name w.healer.degraded);
      exhausted = or_zero false (lookup svc.name w.healer.exhausted);
      restarts = or_zero 0 (lookup svc.name w.healer.restart_counts);
      counters = counters_snapshot w.metrics svc.name;
      images = images_by_prefix w.updater.deployed prefix;
      stats = stats;
      last_check = lookup svc.name w.updater.last_checked;
      next_check = get_next_check svc.name poll_interval now w.updater;
      check_status = get_check_status svc.name w.updater;
    } in
    record built { word = synthesize_status built }
