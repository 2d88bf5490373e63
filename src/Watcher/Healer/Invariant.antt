-- ===== src/Watcher/Healer/Invariant.antt =====
-- What holds of the healer's maps after every handler.
use dockward.Prelude.{ℕ, ◌≡◌, Bool, true, List, [], ◌∷◌, Option, arith, Option-cases, inl, inr}
use dockward.Prelude.Text.{Text, text_eq}
use dockward.Prelude.Map.{lookup, lookup-insert, lookup-delete}
use dockward.Docker.{ContainerInspect, Event, event_container_name}
use dockward.Config.{Service}
use dockward.Watcher.State.{Watcher, new_watcher}
use dockward.Watcher.Healer.{
  is_degraded, is_exhausted, handle_unhealthy, verify_after_restart, handle_healthy, handle_died,
  handle_started,
}
use dockward.Watcher.Healer.Events.{
  Answers, find_service_by_event, dispatch, handle_event, Stimulus, docker_event, restart_checked,
  step, run,
}

-- A service whose restarts are exhausted is degraded, so the next recovery re-arms it.
abbrev IsSound : Watcher → Type 0
IsSound s = (name : Text) → is_exhausted name s.healer ≡ true → is_degraded name s.healer ≡ true

handle_unhealthy-IsSound :
    (svc : Service) (container id : Text) (inspected : Option ContainerInspect)
    (failure : Option Text) (now later : ℕ) (s : Watcher)
    → IsSound s
    → IsSound (handle_unhealthy svc container id inspected failure now later s)
unfolding handle_unhealthy
handle_unhealthy-IsSound svc container id inspected failure now later s sound name h = ground (
  arith,
  sound name,
  lookup-insert name svc.name true s.healer.degraded,
  lookup-insert name svc.name true s.healer.exhausted,
)

new-IsSound : (now : ℕ) → IsSound (new_watcher now)
unfolding new_watcher lookup
new-IsSound now name h = cc

verify_after_restart-IsSound :
    (svc : Service) (container reason : Text) (cancelled : Bool)
    (inspected : Option ContainerInspect) (s : Watcher)
    → IsSound s
    → IsSound (verify_after_restart svc container reason cancelled inspected s)
unfolding verify_after_restart
verify_after_restart-IsSound svc container reason cancelled inspected s sound name h = ground (
  arith,
  sound name,
  lookup-delete name svc.name s.healer.degraded,
  lookup-delete name svc.name s.healer.exhausted,
)

handle_healthy-IsSound :
    (svc : Service) (container : Text) (s : Watcher)
    → IsSound s
    → IsSound (handle_healthy svc container s)
unfolding handle_healthy
handle_healthy-IsSound svc container s sound name h = ground (
  arith,
  sound name,
  lookup-delete name svc.name s.healer.degraded,
  lookup-delete name svc.name s.healer.exhausted,
)

handle_died-IsSound :
    (svc : Service) (container : Text) (now : ℕ) (s : Watcher)
    → IsSound s
    → IsSound (handle_died svc container now s)
unfolding handle_died
handle_died-IsSound svc container now s sound name h =
    ground (arith, sound name, lookup-insert name svc.name true s.healer.degraded)

handle_started-IsSound :
    (svc : Service) (container : Text) (inspected : Option ContainerInspect) (s : Watcher)
    → IsSound s
    → IsSound (handle_started svc container inspected s)
unfolding handle_started
handle_started-IsSound svc container inspected s sound name h = ground (
  arith,
  sound name,
  lookup-delete name svc.name s.healer.degraded,
  lookup-delete name svc.name s.healer.exhausted,
)

dispatch-IsSound :
    (svc : Service) (e : Event) (a : Answers) (s : Watcher)
    → IsSound s
    → IsSound (dispatch svc e a s)
unfolding dispatch
dispatch-IsSound svc e a s sound name h = ground (
  arith,
  handle_unhealthy-IsSound svc (event_container_name e) e.id a.inspected a.failure a.now a.later s
      sound name,
  handle_healthy-IsSound svc (event_container_name e) s sound name,
  handle_died-IsSound svc (event_container_name e) a.now s sound name,
  handle_started-IsSound svc (event_container_name e) a.inspected s sound name,
  sound name,
)

step-IsSound :
    (services : List Service) (i : Stimulus) (s : Watcher) → IsSound s → IsSound (step services i s)
unfolding step handle_event
step-IsSound services (docker_event e a) s sound =
    elim (Option-cases (find_service_by_event services e)) [
      | inl miss ↦ rw (miss, handle_event) sound
      | inr (svc, hit) ↦ rw (hit, handle_event) (dispatch-IsSound svc e a s sound)
    ]
step-IsSound services (restart_checked svc container reason cancelled inspected) s sound =
    verify_after_restart-IsSound svc container reason cancelled inspected s sound

run_from-IsSound :
    (services : List Service) (is : List Stimulus) (s : Watcher)
    → IsSound s
    → IsSound (run services is s)
unfolding run
run_from-IsSound services [] s sound = sound
run_from-IsSound services (i ∷ is) s sound =
    run_from-IsSound services is (step services i s) (step-IsSound services i s sound)

run-IsSound :
    (services : List Service) (is : List Stimulus) (now : ℕ)
    → IsSound (run services is (new_watcher now))
run-IsSound services is now = run_from-IsSound services is (new_watcher now) (new-IsSound now)

-- After any events and restart checks, in any order, from a fresh healer, a service whose restarts
-- are exhausted is recorded as degraded.
pub exhausted_is_degraded :
    (services : List Service) (is : List Stimulus) (start : ℕ) (name : Text)
    → is_exhausted name (run services is (new_watcher start)).healer ≡ true
    → is_degraded name (run services is (new_watcher start)).healer ≡ true
exhausted_is_degraded services is start name h = run-IsSound services is start name h
