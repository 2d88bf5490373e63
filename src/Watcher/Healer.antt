-- ===== src/Watcher/Healer.antt =====
-- internal/watcher/healer.go, handler by handler. What a handler asks of Docker or of the clock is an
-- argument: `inspected` is the answer of `InspectContainer` (none for an error), `now` the time.
pub mod Events
pub mod Invariant
pub mod Restarts
pub mod Isolation
pub mod Recovery
pub mod Cooldown
mod Tests
use dockward.Prelude.{
  ℕ, ◌+◌, ◌-◌, ◌*◌, Bool, true, false, not, ◌&&◌, ◌||◌, List, [], ◌∷◌, Option, none, some, ◌==◌,
  if◌then◌else◌, ltb, leb, or_zero, is_some,
}
use dockward.Prelude.Int.{ℤ, pos, negsuc, second, add_seconds, leb_ℤ}
use dockward.Prelude.Text.{Text, text_eq, codes, has_prefix}
use dockward.Prelude.Map.{Map, lookup, insert, delete, has}
use dockward.Docker.{
  ContainerInspect, Event, attribute, event_container_name, last_health_output, health_is,
}
use dockward.Config.{Service}
use dockward.Watcher.Effects.{
  Level, info_level, warning, critical, EventName, unhealthy, healthy, died, recovered, restarting,
  restart_failed, restarted, critical_event, Message, container_unhealthy,
  container_unhealthy_no_heal, restarting_container, restart_failure, restart_success,
  container_recovered, container_exited, restarted_no_healthcheck, restart_failure_with, giving_up,
  still_unhealthy, Effect, send, write, restart_container, go_verify_after_restart,
}
use dockward.Watcher.Metrics.{Metrics, inc_failures, inc_restarts, set_healthy}
use dockward.Watcher.State.{Healer, Watcher, emit, on_metrics, is_deploying}

abbrev on_healer : (Healer → Healer) → Watcher → Watcher
on_healer f s = record s { healer = f s.healer }

-- `setDegraded`: false is stored as absence.
unfoldable pub set_degraded : Text → Bool → Healer → Healer
set_degraded name true h = record h { degraded = insert name true h.degraded }
set_degraded name false h = record h { degraded = delete name h.degraded }

abbrev pub is_degraded : Text → Healer → Bool
is_degraded name h = or_zero false (lookup name h.degraded)

abbrev pub is_exhausted : Text → Healer → Bool
is_exhausted name h = or_zero false (lookup name h.exhausted)

abbrev pub restart_count : Text → Healer → ℕ
restart_count name h = or_zero 0 (lookup name h.restart_counts)

unfoldable pub in_cooldown : Text → ℕ → Healer → Bool
in_cooldown container now h = elim (lookup container h.cooldowns) [
  | none ↦ false
  | some deadline ↦ ltb now deadline
]

-- The lines that three handlers repeat: the service is no longer degraded, and its counts are gone.
unfoldable pub clear_failures : Text → Healer → Healer
unfolding set_degraded
clear_failures name h =
    let h' = set_degraded name false h in
    record h' { restart_counts = delete name h.restart_counts; exhausted = delete name h.exhausted }

-- The alert, then the audit entry, as each handler sends them.
unfoldable pub report : Service → EventName → Message → Text → Text → Level → Watcher → Watcher
report svc event message reason container level s =
    emit
      (send (record {
        service = svc.name;
        event = event;
        message = message;
        reason = reason;
        old_digest = [];
        new_digest = [];
        container = container;
        level = level;
      }))
      s

unfoldable pub audit : Service → EventName → Message → Text → Text → Level → Watcher → Watcher
audit svc event message reason container level s =
    emit
      (write (record {
        service = svc.name;
        event = event;
        message = message;
        reason = reason;
        old_digest = [];
        new_digest = [];
        container = container;
        level = level;
        output = [];
      }))
      s

-- The restart itself. `failure` is the error of `RestartContainer`, and `later` the time when it has
-- returned.
unfoldable pub restart : Service → Text → Text → Text → Option Text → ℕ → Watcher → Watcher
unfolding report audit
restart svc container id reason failure later s =
    let asked =
      emit (restart_container id 10)
        (audit svc restarting restarting_container reason container warning s) in
    elim failure [
      | some err ↦ audit svc restart_failed (restart_failure_with err) reason container critical (
          report svc critical_event restart_failure reason container critical
            (on_metrics (inc_failures svc.name) asked))
      | none ↦ emit (go_verify_after_restart svc container id reason) (
          on_healer
            (λ h. record h {
              cooldowns = insert container (add_seconds later svc.heal_cooldown) h.cooldowns;
            })
            asked)
    ]

unfoldable pub handle_unhealthy :
    Service → Text → Text → Option ContainerInspect → Option Text → ℕ → ℕ → Watcher → Watcher
unfolding set_degraded report audit restart in_cooldown
handle_unhealthy svc container id inspected failure now later s =
    if is_deploying svc.name s.updater
    then s
    else let reason : Text = elim inspected [ none ↦ [] | some info ↦ last_health_output info ] in
      let s' = on_healer (set_degraded svc.name true) (on_metrics (set_healthy svc.name false) s) in
      if not svc.auto_heal
      then audit svc unhealthy container_unhealthy_no_heal reason container warning
          (report svc unhealthy container_unhealthy reason container warning s')
      else if leb_ℤ svc.heal_max_restarts (pos (restart_count svc.name s'.healer))
      then on_healer (λ h. record h { exhausted = insert svc.name true h.exhausted }) s'
      else if in_cooldown container now s'.healer
      then s'
      else restart svc container id reason failure later s'

-- `verifyAfterRestart`, 30 seconds after the restart unless the context was cancelled by then.
unfoldable pub still_failing : Service → Text → ContainerInspect → Watcher → Watcher
unfolding report audit
still_failing svc container info s =
    let count = restart_count svc.name s.healer + 1 in
    let s' =
      on_healer (λ h. record h { restart_counts = insert svc.name count h.restart_counts })
        (on_metrics (inc_failures svc.name) s) in
    let message =
      if leb_ℤ svc.heal_max_restarts (pos count)
      then giving_up count
      else still_unhealthy count svc.heal_max_restarts in
    let reason = last_health_output info in
    audit svc critical_event message reason container critical
      (report svc critical_event message reason container critical s')

unfoldable pub verify_after_restart :
    Service → Text → Text → Bool → Option ContainerInspect → Watcher → Watcher
unfolding report audit clear_failures still_failing
verify_after_restart svc container reason cancelled inspected s =
    if cancelled then s else elim inspected [
      | none ↦ s
      | some info ↦
          if health_is info (codes "unhealthy")
          then still_failing svc container info s
          else let s' = on_metrics (inc_restarts svc.name) s in
            if not (is_degraded svc.name s'.healer)
            then s'
            else audit svc restarted restart_success reason container info_level (
                report svc restarted restart_success reason container warning
                  (on_healer (clear_failures svc.name) (on_metrics (set_healthy svc.name true) s')))
    ]

unfoldable pub handle_healthy : Service → Text → Watcher → Watcher
unfolding report audit clear_failures
handle_healthy svc container s =
    let was_cooling = has container s.healer.cooldowns in
    let consumed = on_healer (λ h. record h { cooldowns = delete container h.cooldowns }) s in
    let was_degraded = is_degraded svc.name consumed.healer in
    let cleared = if was_degraded then on_healer (clear_failures svc.name) consumed else consumed in
    if is_deploying svc.name cleared.updater
    then cleared
    else if not was_cooling && not was_degraded
    then cleared
    else audit svc healthy container_recovered [] container info_level (
        report svc healthy container_recovered [] container info_level
          (on_metrics (set_healthy svc.name true) cleared))

-- `time.Since(h.startedAt) < 15*time.Second`; times do not run backwards.
unfoldable pub handle_died : Service → Text → ℕ → Watcher → Watcher
unfolding report audit set_degraded
handle_died svc container now s =
    if ltb (now - s.healer.started_at) (15 * second)
    then s
    else if is_deploying svc.name s.updater
    then s
    else if is_degraded svc.name s.healer
    then s
    else audit svc died container_exited [] container critical (
        report svc died container_exited [] container critical
          (on_healer (set_degraded svc.name true) (on_metrics (set_healthy svc.name false) s)))

unfoldable pub handle_started : Service → Text → Option ContainerInspect → Watcher → Watcher
unfolding report audit clear_failures
handle_started svc container inspected s =
    if not (is_degraded svc.name s.healer) then s else elim inspected [
      | none ↦ s
      | some info ↦
          if is_some info.state.health
          then s
          else audit svc recovered restarted_no_healthcheck [] container info_level (
              report svc recovered restarted_no_healthcheck [] container info_level
                (on_healer (clear_failures svc.name) (on_metrics (set_healthy svc.name true) s)))
    ]
