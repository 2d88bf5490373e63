-- ===== src/Watcher/Updater/PollTests.antt =====
-- Polls of one service: its errors, the drift of its files, its start, and what stays remembered.
use dockward.Prelude.{◌≡◌, refl, true, false, [], ◌∷◌, none, some}
use dockward.Prelude.Text.{codes, text_eq, text_beq}
use dockward.Prelude.Map.{lookup}
use dockward.Watcher.Samples.{
  web, web_api, url, app, succeeding, failing, deploying_with, asking, new_app,
}
use dockward.Watcher.State.{Watcher, new_watcher, new_updater}
use dockward.Watcher.Updater.{image_key, on_updater, find_container_by_project, first_active}
use dockward.Watcher.Updater.Check.{ImageAnswers, CheckAnswers, check_and_update, check_containers}
use dockward.Watcher.Updater.Poll.{DriftAnswers, hash}
use dockward.Watcher.Updater.Deploy.{rollback}
use dockward.Watcher.Updater.NotRedeployed.{
  Skips, containers_checked, pulls, rolled_back_not_redeployed,
}
use dockward.Watcher.Updater.AutoStart.{starts}

abbrev fresh : Watcher
fresh = new_watcher 0

-- The error of the last poll was the one that the next poll meets again.
abbrev erring : Watcher
erring =
    on_updater (λ u. record u { errored = (codes "web", codes "compose pull: exit 1") ∷ [] }) fresh

-- The image on the host has the digest "old", and the registry has "new".
abbrev outdated : ImageAnswers
outdated = record asking {
  image_by_ref = some (record { repo_digests = codes "hub/app@old" ∷ []; size = 5 });
}

abbrev polled : CheckAnswers
polled = record {
  images = λ i. outdated;
  containers = none;
  start_time = 8;
  start = succeeding;
  deployment = deploying_with failing;
  end_time = 9;
}

rolled_back_not_redeployed_example :
    let t = rollback url web (new_app ∷ []) [] [] (λ i. true) succeeding fresh in
    Skips url web polled.images 0 (new_app ∷ []) t
    × (check_and_update url web true polled t ≡ containers_checked web true polled t)
    × (pulls (check_and_update url web true polled t).1.log ≡ pulls t.log)
rolled_back_not_redeployed_example =
    rolled_back_not_redeployed url web (new_app ∷ []) [] [] (λ i. true) succeeding true polled fresh
      (tt, tt) ((λ e. cc), tt) refl (refl, tt)

abbrev drifted : DriftAnswers
drifted = record { files = hash (codes "hh"); now = 4; up = failing }

abbrev hashed : Watcher
hashed =
    on_updater
      (λ u. record u {
        compose_hashes = (codes "web", codes "h") ∷ [];
        deploying = (codes "web", 3) ∷ [];
      })
      fresh

-- No container runs, and a start was attempted for the digest "new" already; a check that knows no
-- digest starts again.
abbrev attempted : Watcher
attempted = on_updater (λ u. record u { start_attempted = (codes "web", codes "new") ∷ [] }) fresh

guarded : starts (check_containers web false (codes "new") polled attempted).1.log ≡ 0
unfolding check_containers new_watcher new_updater lookup text_beq find_container_by_project
    first_active
guarded = refl

abbrev both_blocked : Watcher
both_blocked =
    on_updater
      (λ u. record u {
        blocked = (image_key web app, codes "bad") ∷ (image_key web_api app, codes "bad") ∷ [];
      })
      fresh

-- "web-api" is configured no more, "web" is.
abbrev both_deployed : Watcher
both_deployed =
    on_updater
      (λ u. record u {
        deployed =
            (image_key web_api app, record { image = app; digest = codes "d"; size = 1 }) ∷ [];
      })
      fresh
