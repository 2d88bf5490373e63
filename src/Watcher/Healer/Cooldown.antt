-- ===== src/Watcher/Healer/Cooldown.antt =====
-- How long a restart keeps the healer from restarting the same container again.
use dockward.Prelude.{
  ◌⊎◌, All, ◌≢◌, ℕ, ◌<◌, ◌≡◌, Bool, true, false, List, [], ◌∷◌, Option, none, some, arith,
  Option-cases, inl, inr, beq_refl,
}
use dockward.Prelude.Int.{add_seconds}
use dockward.Prelude.Text.{Text, text_eq, text_beq_iff, codes, has_prefix}
use dockward.Prelude.Map.{lookup, lookup-insert, lookup-delete}
use dockward.Docker.{ContainerInspect, Event, event_container_name}
use dockward.Config.{Service}
use dockward.Watcher.State.{Watcher}
use dockward.Watcher.Healer.Restarts.{restarts_in, may_restart, handle_unhealthy_count}
use dockward.Watcher.Healer.Events.{
  Answers, find_service_by_event, dispatch, handle_event, Stimulus, docker_event, restart_checked,
  step, run,
}
use dockward.Watcher.Healer.{
  in_cooldown, handle_unhealthy, verify_after_restart, handle_healthy, handle_died, handle_started,
}

-- What a restart that succeeds leaves behind: the cooldown runs from the end of the restart.
restart_cooldown :
    (svc : Service) (container id : Text) (inspected : Option ContainerInspect) (now later : ℕ)
    (s : Watcher)
    → may_restart svc container now s ≡ true
    → lookup container
        (handle_unhealthy svc container id inspected none now later s).healer.cooldowns
      ≡ some (add_seconds later svc.heal_cooldown)
unfolding handle_unhealthy
restart_cooldown svc container id inspected now later s h = ground (
  arith,
  beq_refl container,
  lookup-insert container container (add_seconds later svc.heal_cooldown) s.healer.cooldowns,
)

-- Nothing that reaches the healer ends a cooldown early, but a healthy event of that container.
abbrev pub IsQuiet : Text → ℕ → Stimulus → Type 0
IsQuiet container deadline (docker_event e a) =
    (event_container_name e ≢ container)
    ⊎ ((has_prefix e.action (codes "health_status: healthy") ≡ false) × (a.now < deadline))
IsQuiet container deadline (restart_checked svc c reason cancelled inspected) = Unit {0}

handle_unhealthy_keeps :
    (svc : Service) (c container id : Text) (inspected : Option ContainerInspect)
    (failure : Option Text) (now later deadline : ℕ) (s : Watcher)
    → lookup container s.healer.cooldowns ≡ some deadline
    → (c ≡ container → now < deadline)
    → lookup container (handle_unhealthy svc c id inspected failure now later s).healer.cooldowns
      ≡ some deadline
unfolding handle_unhealthy
handle_unhealthy_keeps svc c container id inspected failure now later deadline s h early = ground (
  arith,
  early,
  text_beq_iff c container,
  lookup-insert container c (add_seconds later svc.heal_cooldown) s.healer.cooldowns,
)

handle_healthy_keeps :
    (svc : Service) (c container : Text) (deadline : ℕ) (s : Watcher)
    → lookup container s.healer.cooldowns ≡ some deadline
    → c ≢ container
    → lookup container (handle_healthy svc c s).healer.cooldowns ≡ some deadline
unfolding handle_healthy
handle_healthy_keeps svc c container deadline s h other =
    ground (arith, other, text_beq_iff c container, lookup-delete container c s.healer.cooldowns)

handle_died_keeps :
    (svc : Service) (c : Text) (now : ℕ) (s : Watcher)
    → (handle_died svc c now s).healer.cooldowns ≡ s.healer.cooldowns
unfolding handle_died
handle_died_keeps svc c now s = ground arith

handle_started_keeps :
    (svc : Service) (c : Text) (inspected : Option ContainerInspect) (s : Watcher)
    → (handle_started svc c inspected s).healer.cooldowns ≡ s.healer.cooldowns
unfolding handle_started
handle_started_keeps svc c inspected s = ground arith

verify_after_restart_keeps :
    (svc : Service) (c reason : Text) (cancelled : Bool) (inspected : Option ContainerInspect)
    (s : Watcher)
    → (verify_after_restart svc c reason cancelled inspected s).healer.cooldowns
      ≡ s.healer.cooldowns
unfolding verify_after_restart
verify_after_restart_keeps svc c reason cancelled inspected s = ground arith

dispatch_keeps :
    (svc : Service) (e : Event) (a : Answers) (container : Text) (deadline : ℕ) (s : Watcher)
    → lookup container s.healer.cooldowns ≡ some deadline
    → IsQuiet container deadline (docker_event e a)
    → lookup container (dispatch svc e a s).healer.cooldowns ≡ some deadline
unfolding dispatch
dispatch_keeps svc e a container deadline s h quiet =
    let name = event_container_name e in
    let early : name ≡ container → a.now < deadline = λ p. ground arith in
    ground (
      arith,
      quiet,
      handle_unhealthy_keeps svc name container e.id a.inspected a.failure a.now a.later deadline s
          h early,
      handle_healthy_keeps svc name container deadline s h,
      handle_died_keeps svc name a.now s,
      handle_started_keeps svc name a.inspected s,
    )

step_keeps :
    (services : List Service) (i : Stimulus) (container : Text) (deadline : ℕ) (s : Watcher)
    → lookup container s.healer.cooldowns ≡ some deadline
    → IsQuiet container deadline i
    → lookup container (step services i s).healer.cooldowns ≡ some deadline
unfolding step handle_event
step_keeps services (docker_event e a) container deadline s h quiet =
    elim (Option-cases (find_service_by_event services e)) [
      | inl miss ↦ rw (miss, handle_event) h
      | inr (svc, hit) ↦
          rw (hit, handle_event) (dispatch_keeps svc e a container deadline s h quiet)
    ]
step_keeps services (restart_checked svc c reason cancelled inspected) container deadline s h
      quiet =
    rw (verify_after_restart_keeps svc c reason cancelled inspected s) h

run_keeps :
    (services : List Service) (is : List Stimulus) (container : Text) (deadline : ℕ) (s : Watcher)
    → lookup container s.healer.cooldowns ≡ some deadline
    → All (IsQuiet container deadline) is
    → lookup container (run services is s).healer.cooldowns ≡ some deadline
unfolding run
run_keeps services [] container deadline s h quiet = h
run_keeps services (i ∷ is) container deadline s h quiet =
    run_keeps services is container deadline (step services i s)
      (step_keeps services i container deadline s h quiet.0) quiet.1

blocked_by_cooldown :
    (svc : Service) (container id : Text) (inspected : Option ContainerInspect)
    (failure : Option Text) (now later deadline : ℕ) (s : Watcher)
    → lookup container s.healer.cooldowns ≡ some deadline
    → now < deadline
    → restarts_in (handle_unhealthy svc container id inspected failure now later s).log
      ≡ restarts_in s.log
unfolding in_cooldown
blocked_by_cooldown svc container id inspected failure now later deadline s h early =
    ground (arith, handle_unhealthy_count svc container id inspected failure now later s)

-- After a restart that succeeded and ended at `later`, and any run of the healer in which no healthy
-- event of that container arrives and its events come before `later` plus the cooldown, an unhealthy
-- event of the container before that deadline restarts nothing.
pub cooldown_holds :
    (svc other : Service) (container id id' : Text) (inspected inspected' : Option ContainerInspect)
    (failure : Option Text) (now later now' later' : ℕ) (services : List Service)
    (is : List Stimulus) (s : Watcher)
    → may_restart svc container now s ≡ true
    → All (IsQuiet container (add_seconds later svc.heal_cooldown)) is
    → now' < add_seconds later svc.heal_cooldown
    → let s' = run services is (handle_unhealthy svc container id inspected none now later s) in
      restarts_in (handle_unhealthy other container id' inspected' failure now' later' s').log
      ≡ restarts_in s'.log
cooldown_holds svc other container id id' inspected inspected' failure now later now' later'
      services is s may quiet early =
    blocked_by_cooldown other container id' inspected' failure now' later' _ _
      (run_keeps services is container _ _
        (restart_cooldown svc container id inspected now later s may) quiet)
      early
