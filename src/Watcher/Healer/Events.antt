-- ===== src/Watcher/Healer/Events.antt =====
-- `findServiceByEvent` and `handleEvent` of internal/watcher/healer.go, and a run of the healer as a
-- list of what reaches it: events of the stream, and restarts whose 30 seconds have passed.
use dockward.Prelude.{
  ℕ, Bool, true, false, not, ◌&&◌, List, [], ◌∷◌, Option, none, some, ◌==◌, if◌then◌else◌,
}
use dockward.Prelude.Text.{Text, text_eq, codes, has_prefix}
use dockward.Docker.{ContainerInspect, Event, attribute, event_container_name}
use dockward.Config.{Service}
use dockward.Watcher.State.{Watcher}
use dockward.Watcher.Healer.{
  handle_unhealthy, handle_healthy, handle_died, handle_started, verify_after_restart,
}

abbrev pub project_label : Text
project_label = codes "com.docker.compose.project"

-- The tests of the loop body, in its order.
unfoldable pub concerns : Event → Service → Bool
concerns e svc =
    let project = attribute e project_label in
    let name = attribute e (codes "name") in
    if svc.silent
    then false
    else if not (project == []) && svc.compose_project == project
    then true
    else not (name == []) && svc.container_name == name

unfoldable pub find_service_by_event : List Service → Event → Option Service
find_service_by_event [] e = none
find_service_by_event (svc ∷ services) e =
    let rest = find_service_by_event services e in if concerns e svc then some svc else rest

-- What the world answers while one event is handled.
pub record Answers : Type 0 where
  pub inspected : Option ContainerInspect
  pub failure : Option Text
  pub now : ℕ
  pub later : ℕ

-- The `switch` on the action.
unfoldable pub dispatch : Service → Event → Answers → Watcher → Watcher
dispatch svc e a s =
    let name = event_container_name e in
    if has_prefix e.action (codes "health_status: unhealthy")
    then handle_unhealthy svc name e.id a.inspected a.failure a.now a.later s
    else if has_prefix e.action (codes "health_status: healthy")
    then handle_healthy svc name s
    else if e.action == codes "die"
    then handle_died svc name a.now s
    else if e.action == codes "start"
    then handle_started svc name a.inspected s
    else s

unfoldable pub handle_event : List Service → Event → Answers → Watcher → Watcher
unfolding dispatch
handle_event services e a s = elim (find_service_by_event services e) [
  | none ↦ s
  | some svc ↦ dispatch svc e a s
]

pub data Stimulus : Type 0 where
  docker_event : Event → Answers → Stimulus
  restart_checked : Service → Text → Text → Bool → Option ContainerInspect → Stimulus

unfoldable pub step : List Service → Stimulus → Watcher → Watcher
step services (docker_event e a) s = handle_event services e a s
step services (restart_checked svc container reason cancelled inspected) s =
    verify_after_restart svc container reason cancelled inspected s

unfoldable pub run : List Service → List Stimulus → Watcher → Watcher
run services [] s = s
run services (i ∷ is) s = run services is (step services i s)
