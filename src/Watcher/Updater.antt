-- ===== src/Watcher/Updater.antt =====
-- internal/watcher/updater.go: the deploy flag, the memory of errors, the tracking of checks, and the
-- operations that users and the hourly cleanup call. Checks and deploys are in the modules below.
pub mod Deploy
pub mod AutoStart
pub mod Cleanup
pub mod Drift
pub mod Errors
pub mod Verdicts
pub mod Rollback
pub mod Restored
pub mod NotRedeployed
pub mod Blocked
pub mod Poll
pub mod Exclusive
pub mod Check
pub mod Verify
mod Tests
mod PollTests
use dockward.Prelude.{
  ℕ, ◌+◌, Bool, true, false, not, ◌&&◌, ◌||◌, List, [], ◌∷◌, ◌++◌, Option, none, some, ◌==◌,
  if◌then◌else◌, or_zero, is_some, map, length, any_of,
}
use dockward.Prelude.Int.{add_seconds, ℤ}
use dockward.Prelude.Text.{Text, text_eq, codes, has_prefix}
use dockward.Prelude.Map.{Map, lookup, insert, delete, retain, has}
use dockward.Docker.{Container}
use dockward.Config.{Service}
use dockward.Watcher.Effects.{
  Level, info_level, warning, critical, error_level, EventName, error_event, trigger_failed,
  recovered, Message, poll_error, manual_error, manual_failure, recovered_from_error, ImageChange,
  send, write,
}
use dockward.Watcher.Metrics.{inc_failures, set_blocked}
use dockward.Watcher.State.{Updater, DeployedInfo, Watcher, emit, on_metrics, is_deploying}

abbrev pub on_updater : (Updater → Updater) → Watcher → Watcher
on_updater f s = record s { updater = f s.updater }

-- The key "service/image".
unfoldable pub image_key : Service → Text → Text
image_key svc image = svc.name ++ (b'/' ∷ image)

-- `changed` where the code passes no digests.
abbrev pub no_digests : ImageChange
no_digests = record { image = []; old_digest = []; new_digest = []; old_ref = [] }

unfoldable pub send_alert :
    Service → EventName → Message → Text → ImageChange → Text → Level → Watcher → Watcher
send_alert svc event message reason ch container level s =
    emit
      (send (record {
        service = svc.name;
        event = event;
        message = message;
        reason = reason;
        old_digest = ch.old_digest;
        new_digest = ch.new_digest;
        container = container;
        level = level;
      }))
      s

unfoldable pub write_entry :
    Service → EventName → Message → Text → ImageChange → Text → Level → Text → Watcher → Watcher
write_entry svc event message reason ch container level output s =
    emit
      (write (record {
        service = svc.name;
        event = event;
        message = message;
        reason = reason;
        old_digest = ch.old_digest;
        new_digest = ch.new_digest;
        container = container;
        level = level;
        output = output;
      }))
      s

-- `tryStartDeploy` at time `now`: whether the flag was free, and the state after.
unfoldable pub try_start_deploy : Text → ℕ → Watcher → Bool × Watcher
try_start_deploy service now s =
    if has service s.updater.deploying
    then (false, s)
    else (true, on_updater (λ u. record u { deploying = insert service now u.deploying }) s)

unfoldable pub clear_deploying : Text → Watcher → Watcher
clear_deploying service s = on_updater (λ u. record u { deploying = delete service u.deploying }) s

unfoldable pub deploying_count : Updater → ℕ
deploying_count u = length u.deploying

unfoldable pub set_check_status : Text → Text → Watcher → Watcher
set_check_status service status s =
    on_updater (λ u. record u { check_status = insert service status u.check_status }) s

unfoldable pub update_last_checked : Text → ℕ → Watcher → Watcher
update_last_checked service now s =
    on_updater (λ u. record u { last_checked = insert service now u.last_checked }) s

unfoldable pub get_check_status : Text → Updater → Text
get_check_status service u =
    let status = or_zero [] (lookup service u.check_status) in
    if status == [] then codes "idle" else status

unfoldable pub get_next_check : Text → ℤ → ℕ → Updater → ℕ
get_next_check service poll_interval now u = elim (lookup service u.last_checked) [
  | none ↦ add_seconds now poll_interval
  | some last ↦ add_seconds last poll_interval
]

unfoldable pub set_deployed_info : Text → Text → Text → ℕ → Watcher → Watcher
set_deployed_info key image digest size s =
    on_updater
      (λ u. record u {
        deployed = insert key (record { image = image; digest = digest; size = size }) u.deployed;
      })
      s

-- `handlePollError`, with the error's text.
unfoldable pub handle_poll_error : Service → Text → Watcher → Watcher
unfolding send_alert write_entry
handle_poll_error svc msg s =
    let prev = or_zero [] (lookup svc.name s.updater.errored) in
    if prev == msg
    then s
    else write_entry svc error_event (poll_error msg) [] no_digests [] critical [] (
        send_alert svc error_event (poll_error msg) [] no_digests [] critical (
          on_metrics (inc_failures svc.name)
            (on_updater (λ u. record u { errored = insert svc.name msg u.errored }) s)))

unfoldable pub handle_poll_error_always : Service → Text → Watcher → Watcher
unfolding send_alert write_entry
handle_poll_error_always svc msg s =
    send_alert svc error_event (manual_error msg) [] no_digests [] critical (
      write_entry svc trigger_failed (manual_failure msg) [] no_digests [] error_level []
        (on_metrics (inc_failures svc.name) s))

unfoldable pub clear_poll_error : Service → Watcher → Watcher
unfolding write_entry
clear_poll_error svc s =
    if or_zero [] (lookup svc.name s.updater.errored) == []
    then s
    else write_entry svc recovered recovered_from_error [] no_digests [] info_level []
        (on_updater (λ u. record u { errored = delete svc.name u.errored }) s)

-- `UnblockService`: whether a key had the prefix "service/", and the state without such keys.
unfoldable pub unblock_service : Text → Watcher → Bool × Watcher
unblock_service service s =
    let prefix = service ++ codes "/" in
    let found = any_of (λ (e : Text × Text). has_prefix e.0 prefix) s.updater.blocked in
    let kept =
      on_updater (λ u. record u { blocked = retain (λ k. not (has_prefix k prefix)) u.blocked })
        s in
    if found then (true, on_metrics (set_blocked service false) kept) else (false, kept)

-- The set that `cleanupOldEntries` builds: service names, and "service/image" keys.
unfoldable pub current_keys : List Service → List Text
unfolding image_key
current_keys [] = []
current_keys (svc ∷ services) = svc.name ∷ (map (image_key svc) svc.images ++ current_keys services)

abbrev pub is_current : List Text → Text → Bool
is_current current k = any_of (λ c. c == k) current

-- `cleanupOldEntries`. A key of `deployed` stays if any current key is a prefix of it.
unfoldable pub cleanup_old_entries : List Service → Watcher → Watcher
cleanup_old_entries services s =
    let current = current_keys services in
    on_updater
      (λ u. record u {
        last_checked = retain (is_current current) u.last_checked;
        check_status = retain (is_current current) u.check_status;
        deployed = retain (λ k. any_of (λ c. has_prefix k c) current) u.deployed;
        errored = retain (is_current current) u.errored;
        start_attempted = retain (is_current current) u.start_attempted;
        compose_hashes = retain (is_current current) u.compose_hashes;
      })
      s

pub data ContainerStatus : Type 0 where
  container_none container_stuck container_running : ContainerStatus

first_active : List Container → Option Container
first_active [] = none
first_active (c ∷ cs) =
    let rest = first_active cs in
    if c.state == codes "running" || c.state == codes "exited" then some c else rest

-- `findContainerByProject` on the answer of the container list (none for an error).
unfoldable pub find_container_by_project :
    Option (List Container) → Option Container × ContainerStatus
unfolding first_active
find_container_by_project none = (none, container_none)
find_container_by_project (some []) = (none, container_none)
find_container_by_project (some (c ∷ cs)) = elim (first_active (c ∷ cs)) [
  | some active ↦ (some active, container_running)
  | none ↦ (some c, container_stuck)
]
