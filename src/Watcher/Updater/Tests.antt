-- ===== src/Watcher/Updater/Tests.antt =====
-- Deploys, checks and drift of one service with one image.
use dockward.Prelude.{
  ℕ, ◌*◌, ◌≡◌, ◌⊎◌, refl, true, false, List, [], ◌∷◌, none, some, is_some, ◌==◌, or_zero,
  if◌then◌else◌,
}
use dockward.Prelude.Int.{second}
use dockward.Prelude.Text.{codes, text_eq}
use dockward.Prelude.Map.{lookup}
use dockward.Docker.{ContainerInspect}
use dockward.Watcher.Samples.{web, sick, fine, running, url, app, new_app, succeeding, good, asking}
use dockward.Watcher.State.{Watcher, new_watcher, new_updater, is_deploying}
use dockward.Watcher.Updater.{image_key, clear_deploying}
use dockward.Watcher.Updater.Deploy.{deploy, rollback}
use dockward.Watcher.Updater.Verify.{
  seen, Tick, failed, RollbackAnswers, conclude, verify_after_deploy, verify_health_after_compose,
}
use dockward.Watcher.Updater.Check.{skipped, check_image}
use dockward.Watcher.Updater.Exclusive.{verifications, deploy_flag}
use dockward.Watcher.Metrics.{new_metrics}
use dockward.Watcher.Updater.Drift.{ups}
use dockward.Watcher.Updater.Restored.{rollback_lem}
use dockward.Watcher.Updater.Blocked.{rolled_back_skipped, check_image_blocked}
use dockward.Watcher.Updater.Verdicts.{verification_ends}

abbrev start : Watcher
start = new_watcher 0

deploy_flag_example :
    let (err, t) = deploy url web (new_app ∷ []) good start in
    ((err ≡ none)
      × (is_deploying (codes "web") t.updater ≡ true)
      × (verifications t.log ≡ web ∷ []))
    ⊎ ((is_some err ≡ true)
        × (is_deploying (codes "web") t.updater ≡ false)
        × (verifications t.log ≡ []))
unfolding new_watcher new_updater lookup
deploy_flag_example = deploy_flag url web (new_app ∷ []) good start refl

rolled_back_skipped_example :
    let t = rollback url web (new_app ∷ []) [] [] (λ i. true) succeeding start in
    (check_image url web app asking t ≡ (skipped, t)) × Unit {0}
rolled_back_skipped_example =
    rolled_back_skipped url web (new_app ∷ []) [] [] (λ i. true) succeeding asking start (tt, tt)
      ((λ e. cc), tt)

rollback_lem_example :
    let t = rollback url web (new_app ∷ []) [] [] (λ i. true) succeeding start in
    (ups t.log ≡ 1)
    × (or_zero 0 (lookup (codes "web") t.metrics.rollbacks) ≡ 1)
    × (lookup (codes "web") t.metrics.service_blocked ≡ some true)
unfolding new_watcher new_metrics lookup
rollback_lem_example = rollback_lem url web (new_app ∷ []) [] [] (λ i. true) succeeding start

check_image_blocked_example :
    let before = or_zero [] (lookup (image_key web app) start.updater.blocked) in
    let t = (check_image url web app asking start).1 in
    or_zero [] (lookup (image_key web app) t.updater.blocked)
    ≡ (if before == codes "new" then before else [])
check_image_blocked_example = check_image_blocked url web app (codes "new") asking start (λ e. cc)

abbrev tick : ContainerInspect → ℕ → Tick
tick info now = record {
  cancelled = false;
  containers = some (running ∷ []);
  inspection = seen info;
  now = now;
}

-- Starting at first, unhealthy after 5 seconds.
abbrev ticks : List Tick
ticks = tick sick (5 * second) ∷ tick fine (100 * second) ∷ []

abbrev answers : RollbackAnswers
answers = record { retag = λ i. true; up = succeeding }

verification_ends_example :
    (is_some (verify_after_deploy url web (new_app ∷ []) [] answers 0 ticks start) ≡ true)
    × ((t : Watcher) × (verify_health_after_compose web 0 ticks start ≡ some t)
        × (is_deploying (codes "web") t.updater ≡ false))
verification_ends_example = verification_ends url web (new_app ∷ []) [] answers 0 ticks start refl

abbrev verified : Watcher
verified =
    clear_deploying (codes "web") (conclude url web (new_app ∷ []) [] answers (failed []) start)
