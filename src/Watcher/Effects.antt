-- ===== src/Watcher/Effects.antt =====
-- What a handler does to the world, as values in a log: alerts (internal/notify/notify.go), audit
-- entries (internal/audit/audit.go), calls of the Docker API and of `docker compose`, goroutines.
-- Event names, levels and message texts are constants of the source, so they are enumerations; a
-- message that `fmt.Sprintf` builds is a constructor with its arguments. Timestamps are left out.
use dockward.Prelude.{ℕ, List}
use dockward.Prelude.Int.{ℤ}
use dockward.Prelude.Text.{Text}
use dockward.Config.{Service}

pub data Level : Type 0 where
  info_level warning critical error_level : Level

pub data EventName : Type 0 where
  unhealthy healthy died recovered restarting restart_failed restarted critical_event : EventName
  updated rolled_back not_found error_event trigger_failed started checked : EventName
  compose_drift resource_alert : EventName
  manual_trigger unblocked force_redeployed force_redeploy_failed : EventName

pub data Message : Type 0 where
  container_unhealthy container_unhealthy_no_heal restarting_container : Message
  restart_failure restart_success container_recovered container_exited : Message
  restarted_no_healthcheck : Message
  restart_failure_with : Text → Message
  giving_up : ℕ → Message
  still_unhealthy : ℕ → ℤ → Message
  drift_redeployed recovered_from_error deployed : Message
  retag_failure rollback_up_failure rolled_back_message : Message
  poll_error manual_error manual_failure : Text → Message
  image_not_found image_not_found_short : Text → Message
  up_to_date up_to_date_not_running stuck_restarted none_started : Message
  cpu_exceeds memory_exceeds force_redeploy_failure : Text → Message
  trigger_all_requested trigger_requested unblocked_by_api unblocked_by_ui : Message
  forced_redeploy : Message

pub record Alert : Type 0 where
  pub service : Text
  pub event : EventName
  pub message : Message
  pub reason : Text
  pub old_digest : Text
  pub new_digest : Text
  pub container : Text
  pub level : Level

-- `audit.Entry`; `output` is what compose printed.
pub record Entry : Type 0 where
  pub service : Text
  pub event : EventName
  pub message : Message
  pub reason : Text
  pub old_digest : Text
  pub new_digest : Text
  pub container : Text
  pub level : Level
  pub output : Text

-- `imageChange` of updater.go.
pub record ImageChange : Type 0 where
  pub image : Text
  pub old_digest : Text
  pub new_digest : Text
  pub old_ref : Text

pub data Effect : Type 0 where
  send : Alert → Effect
  write : Entry → Effect
  restart_container : Text → ℕ → Effect
  tag_image : Text → Text → Text → Effect
  remove_image : Text → Effect
  compose_up compose_pull compose_restart : Service → Effect
  go_verify_after_restart : Service → Text → Text → Text → Effect
  go_verify_after_deploy : Service → List ImageChange → Text → Effect
  go_verify_after_compose : Service → Effect
  go_poll_all : Effect
  go_trigger go_force_redeploy : Service → Effect
