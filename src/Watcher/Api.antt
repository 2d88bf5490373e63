-- ===== src/Watcher/Api.antt =====
-- internal/watcher/api.go: the handlers that act on services, on a request's method and path. What a
-- handler answers is a constructor; the text of its JSON is left out.
pub mod Status
pub mod ConfigApi
pub mod Views
pub mod AuditView
mod Triggers
mod Redeploy
mod Shown
mod Upserts
mod Tests
use dockward.Prelude.{
  ℕ, suc, ◌+◌, Bool, true, false, not, ◌&&◌, List, [], ◌∷◌, ◌++◌, Option, none, some, if◌then◌else◌,
  ◌==◌, nat_eq, length, drop, or_zero, is_some,
}
use dockward.Prelude.Text.{Text, codes, text_eq, has_prefix, trim_space}
use dockward.Prelude.Map.{has}
use dockward.Config.{Service}
use dockward.Config.Validation.{is_project_name}
use dockward.Watcher.Effects.{
  Effect, EventName, Message, Level, write, info_level, error_level, manual_trigger, unblocked,
  force_redeployed, force_redeploy_failed, trigger_all_requested, trigger_requested,
  unblocked_by_api, unblocked_by_ui, forced_redeploy, force_redeploy_failure, go_poll_all,
  go_trigger, go_force_redeploy, compose_up, go_verify_after_compose,
}
use dockward.Watcher.State.{Watcher, emit, is_deploying}
use dockward.Watcher.Updater.{
  unblock_service, handle_poll_error_always, try_start_deploy, clear_deploying,
}
use dockward.Watcher.Updater.Deploy.{ComposeResult}
use dockward.Watcher.Updater.Check.{CheckAnswers, check_and_update}

pub data Method : Type 0 where
  get post put delete_method other_method : Method

abbrev is_post : Method → Bool
is_post post = true
is_post _ = false

abbrev is_delete : Method → Bool
is_delete delete_method = true
is_delete _ = false

abbrev is_get : Method → Bool
is_get get = true
is_get _ = false

pub data Reply : Type 0 where
  method_not_allowed invalid_name service_not_found redirect_ui : Reply
  rate_limited : ℕ → Reply
  triggered_all auto_update_off deploy_in_progress no_compose_files : Reply
  triggered unblocked_reply not_blocked redeploying : Text → Reply
  command : Text → Text → Reply

-- The empty text stands for an invalid name.
unfoldable pub validate_service_name : Text → Text
unfolding trim_space is_project_name
validate_service_name name =
    let trimmed = trim_space name in if is_project_name trimmed then trimmed else []

-- `strings.TrimPrefix(path, prefix)`, validated.
unfoldable pub service_of_path : Text → Text → Text
unfolding validate_service_name
service_of_path prefix path =
    validate_service_name (if has_prefix path prefix then drop (length prefix) path else path)

-- The first service with the name, which the loops over the services stop at.
unfoldable pub find_service : Text → List Service → Option Service
find_service name [] = none
find_service name (svc ∷ services) =
    let rest = find_service name services in if svc.name == name then some svc else rest

abbrev api_entry : Text → EventName → Message → Level → Text → Effect
api_entry service event message level output = write (record {
  service = service;
  event = event;
  message = message;
  reason = [];
  old_digest = [];
  new_digest = [];
  container = [];
  level = level;
  output = output;
})

unfoldable pub deploying_in : List Service → Watcher → ℕ
deploying_in [] s = 0
deploying_in (svc ∷ services) s =
    let rest = deploying_in services s in if is_deploying svc.name s.updater then suc rest else rest

unfoldable pub handle_trigger_all : Method → List Service → Watcher → Reply × Watcher
unfolding deploying_in
handle_trigger_all method services s =
    if not (is_post method)
    then (method_not_allowed, s)
    else if not (deploying_in services s == 0)
    then (rate_limited (deploying_in services s), s)
    else (
      triggered_all,
      emit go_poll_all (emit (api_entry [] manual_trigger trigger_all_requested info_level []) s),
    )

abbrev or_redirect : Bool → Reply → Reply
or_redirect redirect r = if redirect then redirect_ui else r

-- `redirect` tells whether the query has `redirect=ui`.
unfoldable pub handle_trigger_service :
    Method → Text → Bool → List Service → Watcher → Reply × Watcher
unfolding service_of_path find_service
handle_trigger_service method path redirect services s =
    let name = service_of_path (codes "/trigger/") path in
    if not (is_post method)
    then (method_not_allowed, s)
    else if name == []
    then (invalid_name, s)
    else elim (find_service name services) [
      | none ↦ (service_not_found, s)
      | some svc ↦
          if not svc.auto_update
          then (or_redirect redirect auto_update_off, s)
          else if is_deploying name s.updater
          then (or_redirect redirect deploy_in_progress, s)
          else (
            or_redirect redirect (triggered name),
            emit (go_trigger svc)
                (emit (api_entry svc.name manual_trigger trigger_requested info_level []) s),
          )
    ]

-- The goroutine of a trigger.
unfoldable pub run_trigger : Text → Service → CheckAnswers → Watcher → Watcher
unfolding check_and_update handle_poll_error_always
run_trigger url svc a s =
    let (err, checked) = check_and_update url svc true a s in
    elim err [ none ↦ checked | some e ↦ handle_poll_error_always svc e checked ]

-- Unblocking and the entry for it, if something was blocked.
abbrev unblock_with : Message → Text → Watcher → Bool × Watcher
unblock_with message name s =
    let (found, kept) = unblock_service name s in
    (found, if found then emit (api_entry name unblocked message info_level []) kept else kept)

unfoldable pub handle_unblock_service : Method → Text → Watcher → Reply × Watcher
unfolding service_of_path
handle_unblock_service method path s =
    let name = service_of_path (codes "/blocked/") path in
    if not (is_delete method)
    then (method_not_allowed, s)
    else if name == []
    then (invalid_name, s)
    else let (found, t) = unblock_with unblocked_by_api name s in
      (if found then unblocked_reply name else not_blocked name, t)

unfoldable pub handle_unblock_post : Method → Text → Watcher → Reply × Watcher
unfolding service_of_path
handle_unblock_post method path s =
    let name = service_of_path (codes "/unblock/") path in
    if not (is_post method)
    then (method_not_allowed, s)
    else if name == []
    then (invalid_name, s)
    else (redirect_ui, (unblock_with unblocked_by_ui name s).1)

unfoldable pub handle_force_redeploy : Method → Text → List Service → Watcher → Reply × Watcher
unfolding service_of_path find_service
handle_force_redeploy method path services s =
    let name = service_of_path (codes "/redeploy/") path in
    if not (is_post method)
    then (method_not_allowed, s)
    else if name == []
    then (invalid_name, s)
    else elim (find_service name services) [
      | none ↦ (service_not_found, s)
      | some svc ↦ elim svc.compose_files [
        | [] ↦ (no_compose_files, s)
        | _ ∷ _ ↦ (redeploying name, emit (go_force_redeploy svc) s)
      ]
    ]

-- The goroutine of a forced redeploy at time `now`. The answer of `tryStartDeploy` is ignored.
unfoldable pub force_redeploy : Service → ComposeResult → ℕ → Watcher → Watcher
unfolding try_start_deploy clear_deploying
force_redeploy svc result now s =
    let ran = emit (compose_up svc) (try_start_deploy svc.name now s).1 in
    elim result.failure [
      | some err ↦
          emit
            (api_entry svc.name force_redeploy_failed (force_redeploy_failure err) error_level
              result.output)
            (clear_deploying svc.name ran)
      | none ↦
          emit (go_verify_after_compose svc) (
            emit (api_entry svc.name force_redeployed forced_redeploy info_level result.output) ran)
    ]

abbrev pub dash_f : List Text → Text
dash_f [] = []
dash_f (f ∷ files) = codes " -f " ++ f ++ dash_f files

-- The command that `handleCommandPreview` shows, for the configured runtime.
unfoldable pub preview : Text → Service → Text
preview runtime svc =
    (if runtime == [] then codes "docker" else runtime)
    ++ codes " compose"
    ++ (if svc.compose_project == [] then [] else codes " -p " ++ svc.compose_project)
    ++ dash_f svc.compose_files
    ++ codes " up -d"
    ++ (if svc.env_file == [] then [] else codes " # (with env from " ++ svc.env_file ++ codes ")")

unfoldable pub handle_command_preview : Method → Text → Text → List Service → Reply
unfolding service_of_path find_service preview
handle_command_preview method path runtime services =
    let name = service_of_path (codes "/command-preview/") path in
    if not (is_get method)
    then method_not_allowed
    else if name == []
    then invalid_name
    else elim (find_service name services) [
      | none ↦ service_not_found
      | some svc ↦ command name (preview runtime svc)
    ]
