-- ===== src/Watcher/Updater/Errors.antt =====
-- Which poll errors are reported, and which are suppressed.
use dockward.Prelude.{
  ℕ, suc, ◌≡◌, ◌≢◌, ap, ◌∙◌, false, List, [], ◌∷◌, ◌++◌, Option, none, some, ◌==◌, arith,
  if◌then◌else◌, beq_refl, or_zero, length,
}
use dockward.Prelude.Text.{Text, text_eq, text_beq_iff, codes}
use dockward.Prelude.Map.{lookup, lookup-insert, lookup-delete}
use dockward.Config.{Service}
use dockward.Watcher.Effects.{ImageChange}
use dockward.Watcher.State.{Watcher}
use dockward.Watcher.Updater.{
  handle_poll_error, clear_poll_error, try_start_deploy, set_check_status, update_last_checked,
}
use dockward.Watcher.Updater.Deploy.{DeployAnswers, deploy, pull_and_up}
use dockward.Watcher.Updater.Poll.{after_check}
use dockward.Watcher.Updater.Exclusive.{tag_rollbacks_keeps}
use dockward.Watcher.State.{is_deploying}
use dockward.Watcher.Updater.Check.{
  CheckAnswers, finished, check_images, check_body, check_and_update,
}

-- Handling a poll error adds one alert and one entry to the log, or nothing if it is the error last
-- remembered; handling the same error again right after that changes nothing.
poll_error_once :
    (svc : Service) (msg : Text) (s : Watcher)
    → (handle_poll_error svc msg (handle_poll_error svc msg s) ≡ handle_poll_error svc msg s)
      × (length (handle_poll_error svc msg s).log ≡ (
          if or_zero [] (lookup svc.name s.updater.errored) == msg
          then length s.log
          else suc (suc (length s.log))))
unfolding handle_poll_error
poll_error_once svc msg s =
    ground (
      arith,
      beq_refl svc.name,
      beq_refl msg,
      lookup-insert svc.name svc.name msg s.updater.errored,
    )

clear_poll_error_lem :
    (svc : Service) (s : Watcher)
    → or_zero [] (lookup svc.name (clear_poll_error svc s).updater.errored) ≡ []
unfolding clear_poll_error
clear_poll_error_lem svc s = ground (
  arith,
  beq_refl svc.name,
  text_beq_iff (or_zero [] (lookup svc.name s.updater.errored)) [],
  lookup-delete svc.name svc.name s.updater.errored,
)

clear_poll_error_deploying :
    (svc : Service) (s : Watcher) → (clear_poll_error svc s).updater.deploying ≡ s.updater.deploying
unfolding clear_poll_error
clear_poll_error_deploying svc s = ground arith

failed_pull :
    (url : Text) (svc : Service) (changed : List ImageChange) (a : DeployAnswers) (err : Text)
    (s : Watcher)
    → a.cancelled ≡ none
    → is_deploying svc.name s.updater ≡ false
    → a.pull.failure ≡ some err
    → ((deploy url svc changed a s).0 ≡ some (codes "compose pull: " ++ err))
      × ((deploy url svc changed a s).1.updater.errored ≡ s.updater.errored)
unfolding deploy pull_and_up
failed_pull url svc changed a err s alive free broken = ground (
  arith,
  tag_rollbacks_keeps url (or_zero [] a.containers) a.inspect 0 changed
      (try_start_deploy svc.name a.now s).1,
)

fresh_error_reported :
    (svc : Service) (msg : Text) (s : Watcher)
    → msg ≢ []
    → or_zero [] (lookup svc.name s.updater.errored) ≡ []
    → length (handle_poll_error svc msg s).log ≡ suc (suc (length s.log))
unfolding handle_poll_error
fresh_error_reported svc msg s nonempty fresh = ground (arith, nonempty, text_beq_iff [] msg)

forgotten_later :
    (svc : Service) (now : ℕ) (s : Watcher)
    → or_zero [] (lookup svc.name s.updater.errored) ≡ []
    → or_zero [] (
        lookup svc.name
          (update_last_checked svc.name now
            (set_check_status svc.name (codes "idle") s)).updater.errored)
      ≡ []
unfolding update_last_checked set_check_status
forgotten_later svc now s h = h

check_body_deploys :
    (url : Text) (svc : Service) (a : CheckAnswers) (ch : ImageChange) (changed : List ImageChange)
    (representative : Text) (s s' : Watcher)
    → check_images url svc a.images 0 svc.images [] [] s
      ≡ (finished (ch ∷ changed) representative, s')
    → check_body url svc false a s
      ≡ deploy url svc (ch ∷ changed) a.deployment (clear_poll_error svc s')
unfolding check_body
check_body_deploys url svc a ch changed representative s s' found = ground arith

-- A poll that finds changed images and whose `compose pull` fails reports the failure by an alert and
-- an entry, also if the polls before it have already reported the same failure: `checkAndUpdate`
-- forgets the last error before it deploys.
failed_pull_reported :
    (url : Text) (svc : Service) (a : CheckAnswers) (ch : ImageChange) (changed : List ImageChange)
    (representative err : Text) (s s' : Watcher)
    → check_images url svc a.images 0 svc.images [] []
        (set_check_status svc.name (codes "checking") s)
      ≡ (finished (ch ∷ changed) representative, s')
    → is_deploying svc.name s'.updater ≡ false
    → a.deployment.cancelled ≡ none
    → a.deployment.pull.failure ≡ some err
    → let (e, t) = check_and_update url svc false a s in
      (e ≡ some (codes "compose pull: " ++ err))
      × (length (after_check svc (e, t)).log ≡ suc (suc (length t.log)))
unfolding check_and_update
failed_pull_reported url svc a ch changed representative err s s' found free alive broken =
    let r = check_body url svc false a (set_check_status svc.name (codes "checking") s) in
    let body : r ≡ deploy url svc (ch ∷ changed) a.deployment (clear_poll_error svc s') =
      check_body_deploys url svc a ch changed representative _ s' found in
    let pull =
      failed_pull url svc (ch ∷ changed) a.deployment err (clear_poll_error svc s') alive
        (rw (clear_poll_error_deploying svc s') free) broken in
    let failure : r.0 ≡ some (codes "compose pull: " ++ err) =
      ap (λ (x : Option Text × Watcher). x.0) body ∙ pull.0 in
    let forgotten : or_zero [] (lookup svc.name r.1.updater.errored) ≡ [] =
      ap (λ (x : Option Text × Watcher). or_zero [] (lookup svc.name x.1.updater.errored)) body
      ∙ ap (λ (m : List (Text × Text)). or_zero [] (lookup svc.name m)) pull.1
      ∙ clear_poll_error_lem svc s' in
    (
      failure,
      rw failure (
          fresh_error_reported svc (codes "compose pull: " ++ err)
            (update_last_checked svc.name a.end_time (set_check_status svc.name (codes "idle") r.1))
            (λ e. cc) (forgotten_later svc a.end_time r.1 forgotten)),
    )
