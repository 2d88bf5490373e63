-- ===== src/Watcher/Updater/Verify.antt =====
-- `verifyAfterDeploy` and `verifyHealthAfterCompose` of internal/watcher/updater.go: polling loops
-- over what each tick sees. A loop that has not returned by the last tick given yields none.
use dockward.Prelude.{
  ℕ, Bool, true, false, List, [], ◌∷◌, ◌++◌, Option, none, some, ◌==◌, if◌then◌else◌, ltb,
}
use dockward.Prelude.Int.{add_seconds}
use dockward.Prelude.Text.{Text, text_eq, codes}
use dockward.Docker.{Container, ContainerInspect, last_health_output}
use dockward.Config.{Service}
use dockward.Watcher.Effects.{ImageChange}
use dockward.Watcher.Metrics.{set_healthy}
use dockward.Watcher.State.{Watcher, on_metrics}
use dockward.Watcher.Updater.{container_none, find_container_by_project, clear_deploying}
use dockward.Watcher.Updater.Deploy.{ComposeResult, on_deploy_success, rollback}

pub data Inspection : Type 0 where
  seen : ContainerInspect → Inspection
  unseen : Text → Inspection

-- What one round of the loop meets: whether the context is done, the answers of Docker, the clock.
pub record Tick : Type 0 where
  pub cancelled : Bool
  pub containers : Option (List Container)
  pub inspection : Inspection
  pub now : ℕ

pub data Verdict : Type 0 where
  keep_polling abandoned : Verdict
  succeeded : ContainerInspect → Verdict
  failed : Text → Verdict

-- `if time.Now().After(deadline) { fail }`, and else another round.
abbrev after_deadline : ℕ → Tick → Text → Verdict
after_deadline deadline t reason = if ltb deadline t.now then failed reason else keep_polling

unfoldable pub judge_container : ℕ → Tick → ContainerInspect → Verdict
judge_container deadline t info = elim info.state.health [
  | none ↦
      if info.state.running
      then succeeded info
      else after_deadline deadline t (codes "container not running")
  | some h ↦
      if h.status == codes "healthy"
      then succeeded info
      else if h.status == codes "unhealthy"
      then failed (last_health_output info)
      else after_deadline deadline t (last_health_output info)
]

-- The body of the `for` loop of `verifyAfterDeploy`.
unfoldable pub judge : ℕ → Tick → Verdict
unfolding judge_container
judge deadline t =
    if t.cancelled then abandoned else elim (find_container_by_project t.containers).1 [
      | container_none ↦ after_deadline deadline t (codes "container not found after deploy")
      | _ ↦ elim t.inspection [
        | unseen err ↦ after_deadline deadline t (codes "inspect failed: " ++ err)
        | seen info ↦ judge_container deadline t info
      ]
    ]

-- How the first round that decides ends the loop.
unfoldable pub first_verdict : ℕ → List Tick → Option Verdict
first_verdict deadline [] = none
first_verdict deadline (t ∷ ts) = elim (judge deadline t) [
  | keep_polling ↦ first_verdict deadline ts
  | v ↦ some v
]

-- What `rollback` is told by Docker and compose.
pub record RollbackAnswers : Type 0 where
  pub retag : ℕ → Bool
  pub up : ComposeResult

unfoldable pub conclude :
    Text → Service → List ImageChange → Text → RollbackAnswers → Verdict → Watcher → Watcher
conclude url svc changed out a keep_polling s = s
conclude url svc changed out a abandoned s = s
conclude url svc changed out a (succeeded info) s = on_deploy_success url svc changed info out s
conclude url svc changed out a (failed reason) s =
    rollback url svc changed reason out a.retag a.up s

-- The deploy flag is cleared by `defer`, however the loop ends.
unfoldable pub verify_after_deploy :
    Text
    → Service
    → List ImageChange
    → Text
    → RollbackAnswers
    → ℕ
    → List Tick
    → Watcher
    → Option Watcher
unfolding conclude first_verdict
verify_after_deploy url svc changed out a started ticks s =
    elim (first_verdict (add_seconds started svc.health_grace) ticks) [
      | none ↦ none
      | some v ↦ some (clear_deploying svc.name (conclude url svc changed out a v s))
    ]

-- `verifyHealthAfterCompose` only sets the gauge.
unfoldable pub judge_health : ℕ → Tick → Option (Option Bool)
judge_health deadline t =
    let timed_out : Option (Option Bool) = if ltb deadline t.now then some (some false) else none in
    if t.cancelled then some none else elim (find_container_by_project t.containers).1 [
      | container_none ↦ timed_out
      | _ ↦ elim t.inspection [
        | unseen err ↦ timed_out
        | seen info ↦ elim info.state.health [
          | none ↦ if info.state.running then some (some true) else timed_out
          | some h ↦
              if h.status == codes "healthy"
              then some (some true)
              else if h.status == codes "unhealthy"
              then some (some false)
              else timed_out
        ]
      ]
    ]

unfoldable pub verify_health_after_compose : Service → ℕ → List Tick → Watcher → Option Watcher
unfolding judge_health
verify_health_after_compose svc started [] s = none
verify_health_after_compose svc started (t ∷ ts) s =
    elim (judge_health (add_seconds started svc.health_grace) t) [
      | none ↦ verify_health_after_compose svc started ts s
      | some none ↦ some (clear_deploying svc.name s)
      | some (some healthy) ↦
          some (clear_deploying svc.name (on_metrics (set_healthy svc.name healthy) s))
    ]
