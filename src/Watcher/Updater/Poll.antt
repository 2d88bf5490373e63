-- ===== src/Watcher/Updater/Poll.antt =====
-- `checkComposeDrift` and `pollAll` of internal/watcher/updater.go.
use dockward.Prelude.{
  ℕ, suc, Bool, true, false, ◌||◌, List, [], ◌∷◌, ◌++◌, Option, none, some, ◌==◌, if◌then◌else◌,
  or_zero,
}
use dockward.Prelude.Text.{Text, text_eq, codes}
use dockward.Prelude.Map.{lookup, insert}
use dockward.Config.{Service}
use dockward.Watcher.Effects.{
  info_level, compose_drift, drift_redeployed, compose_up, go_verify_after_compose,
}
use dockward.Watcher.Metrics.{record_poll}
use dockward.Watcher.State.{Watcher, emit, on_metrics}
use dockward.Watcher.Updater.{
  on_updater, no_digests, send_alert, write_entry, try_start_deploy, clear_deploying,
  handle_poll_error,
}
use dockward.Watcher.Updater.Deploy.{ComposeResult}
use dockward.Watcher.Updater.Check.{CheckAnswers, check_and_update}

-- The hash of the compose files (SHA-256, of the standard library), or the error of reading them.
pub data FileHash : Type 0 where
  hash : Text → FileHash
  unreadable : Text → FileHash

pub record DriftAnswers : Type 0 where
  pub files : FileHash
  pub now : ℕ
  pub up : ComposeResult

-- The content differs from the last one seen.
unfoldable pub redeploy_drifted : Service → DriftAnswers → Watcher → Option Text × Watcher
unfolding try_start_deploy clear_deploying send_alert write_entry
redeploy_drifted svc a s =
    let s1 = emit (compose_up svc) (try_start_deploy svc.name a.now s).1 in
    elim a.up.failure [
      | some err ↦ (some (codes "compose up (drift): " ++ err), clear_deploying svc.name s1)
      | none ↦ (
        none,
        emit (go_verify_after_compose svc) (
            send_alert svc compose_drift drift_redeployed [] no_digests [] info_level (
              write_entry svc compose_drift drift_redeployed [] no_digests [] info_level a.up.output
                s1)),
      )
    ]

unfoldable pub check_compose_drift : Service → DriftAnswers → Watcher → Option Text × Watcher
unfolding redeploy_drifted
check_compose_drift svc a s = elim svc.compose_files [
  | [] ↦ (none, s)
  | _ ∷ _ ↦ elim a.files [
    | unreadable err ↦ (some err, s)
    | hash h ↦
        let prev = or_zero [] (lookup svc.name s.updater.compose_hashes) in
        let stored =
          on_updater (λ u. record u { compose_hashes = insert svc.name h u.compose_hashes }) s in
        if prev == [] || prev == h then (none, stored) else redeploy_drifted svc a stored
  ]
]

-- What the world answers while one service is polled; `stopping` is `ctx.Err() != nil`.
pub record PollAnswers : Type 0 where
  pub stopping : Bool
  pub update : CheckAnswers
  pub drift : DriftAnswers

abbrev pub after_check : Service → Option Text × Watcher → Watcher
after_check svc (none, s) = s
after_check svc (some err, s) = handle_poll_error svc err s

-- One round of the loop of `pollAll`. A drift error is only logged.
unfoldable pub poll_service : Text → Service → PollAnswers → Watcher → Watcher
poll_service url svc a s =
    let s' =
      if svc.auto_update then after_check svc (check_and_update url svc false a.update s) else s in
    if svc.compose_watch then (check_compose_drift svc a.drift s').1 else s'

unfoldable pub poll_services : Text → (ℕ → PollAnswers) → ℕ → List Service → Watcher → Watcher
poll_services url answers i [] s = s
poll_services url answers i (svc ∷ services) s = elim (answers i).stopping [
  | true ↦ s
  | false ↦ poll_services url answers (suc i) services (poll_service url svc (answers i) s)
]

unfoldable pub poll_all : Text → List Service → (ℕ → PollAnswers) → ℕ → Watcher → Watcher
unfolding poll_services
poll_all url services answers now s =
    poll_services url answers 0 services (on_metrics (record_poll now) s)
