-- ===== src/Watcher/Updater/Check.antt =====
-- `checkAndUpdate`, `resolveLocalDigestForImage`, `pollAll` and `checkComposeDrift` of
-- internal/watcher/updater.go. The answers for the image of index `i` in the loop are `images i`.
use dockward.Prelude.{
  ℕ, suc, Bool, false, not, ◌&&◌, List, [], ◌∷◌, ◌++◌, Option, none, some, ◌==◌, if◌then◌else◌,
  or_zero,
}
use dockward.Prelude.Text.{Text, text_eq, codes}
use dockward.Prelude.Map.{lookup, insert, delete}
use dockward.Docker.{Container, ImageInspect, ContainerInspect}
use dockward.References.{image_tag, local_digest}
use dockward.Config.{Service}
use dockward.Watcher.Effects.{
  info_level, warning, not_found, started, checked, image_not_found, image_not_found_short,
  up_to_date, up_to_date_not_running, stuck_restarted, none_started, Message, ImageChange,
  compose_up, compose_restart, go_verify_after_compose, Effect,
}
use dockward.Watcher.Metrics.{set_blocked}
use dockward.Watcher.State.{Watcher, emit, on_metrics}
use dockward.Watcher.Updater.{
  on_updater, image_key, no_digests, send_alert, write_entry, try_start_deploy, clear_deploying,
  set_check_status, update_last_checked, set_deployed_info, clear_poll_error, ContainerStatus,
  container_stuck, container_running, find_container_by_project,
}
use dockward.Watcher.Updater.Deploy.{ComposeResult, registry_prefix, DeployAnswers, deploy}

pub data RemoteDigest : Type 0 where
  digest : Text → RemoteDigest
  registry_error : Text → RemoteDigest

-- What the registry and Docker answer for one image.
pub record ImageAnswers : Type 0 where
  pub remote : RemoteDigest
  pub containers : Option (List Container)
  pub container : Option ContainerInspect
  pub image_by_id : Option ImageInspect
  pub image_by_ref : Option ImageInspect

-- `LocalDigest` of an image, with its size; an empty digest is none.
abbrev digest_of : Text → Option ImageInspect → Option (Text × ℕ)
digest_of prefix none = none
digest_of prefix (some img) =
    let d = local_digest img.repo_digests prefix in if d == [] then none else some (d, img.size)

-- Strategy 1 asks the running container's image, strategy 2 the image by reference.
unfoldable pub resolve_local_digest : Text → ImageAnswers → Text × ℕ
resolve_local_digest prefix a =
    let by_container : Option (Text × ℕ) = elim (find_container_by_project a.containers).1 [
      | container_running ↦ elim a.container [
        | none ↦ none
        | some info ↦ digest_of prefix a.image_by_id
      ]
      | _ ↦ none
    ] in
    elim by_container [
      | some found ↦ found
      | none ↦ elim (digest_of prefix a.image_by_ref) [ some found ↦ found | none ↦ ([], 0) ]
    ]

pub data ImageResult : Type 0 where
  check_failed : Text → ImageResult
  skipped : ImageResult
  current : Text → ImageResult
  changes : ImageChange → ImageResult

-- Steps 2 and 3 of the loop body.
unfoldable pub compare_digests :
    Text → Service → Text → ImageAnswers → Text → Watcher → ImageResult × Watcher
unfolding image_key send_alert write_entry set_deployed_info
compare_digests url svc img a remote s =
    let key = image_key svc img in
    let prefix = registry_prefix url img in
    let (local, size) = resolve_local_digest prefix a in
    if local == []
    then (
      skipped,
      write_entry svc not_found (image_not_found_short img) [] no_digests [] warning [] (
          send_alert svc not_found (image_not_found img) [] no_digests [] warning
            (on_updater (λ u. record u { not_found = insert key remote u.not_found }) s)),
    )
    else if local == remote
    then (current remote, set_deployed_info key (prefix ++ (b':' ∷ image_tag img)) local size s)
    else (
      changes (record { image = img; old_digest = local; new_digest = remote; old_ref = [] }),
      s,
    )

-- One round of the loop over `svc.Images`.
unfoldable pub check_image : Text → Service → Text → ImageAnswers → Watcher → ImageResult × Watcher
unfolding image_key
check_image url svc img a s = elim a.remote [
  | registry_error err ↦ (check_failed (codes "remote digest " ++ (img ++ (codes ": " ++ err))), s)
  | digest remote ↦
      let key = image_key svc img in
      let blocked_digest = or_zero [] (lookup key s.updater.blocked) in
      if not (blocked_digest == []) && blocked_digest == remote
      then (skipped, s)
      else let s1 =
          if blocked_digest == []
          then s
          else on_metrics (set_blocked svc.name false)
              (on_updater (λ u. record u { blocked = delete key u.blocked }) s) in
        let not_found_digest = or_zero [] (lookup key s1.updater.not_found) in
        if not (not_found_digest == []) && not_found_digest == remote
        then (skipped, s1)
        else let s2 =
            if not_found_digest == []
            then s1
            else on_updater (λ u. record u { not_found = delete key u.not_found }) s1 in
          compare_digests url svc img a remote s2
]

pub data LoopResult : Type 0 where
  stopped : Text → LoopResult
  finished : List ImageChange → Text → LoopResult

-- `changed` and `representative` are the variables of the loop.
unfoldable pub check_images :
    Text
    → Service
    → (ℕ → ImageAnswers)
    → ℕ
    → List Text
    → List ImageChange
    → Text
    → Watcher
    → LoopResult × Watcher
check_images url svc images i [] changed representative s = (finished changed representative, s)
check_images url svc images i (img ∷ imgs) changed representative s =
    let (result, s') = check_image url svc img (images i) s in
    elim result [
      | check_failed err ↦ (stopped err, s')
      | skipped ↦ check_images url svc images (suc i) imgs changed representative s'
      | current remote ↦
          check_images url svc images (suc i) imgs changed
            (if representative == [] then remote else representative) s'
      | changes ch ↦
          check_images url svc images (suc i) imgs (changed ++ (ch ∷ [])) representative s'
    ]

-- What the world answers to one check of a service.
pub record CheckAnswers : Type 0 where
  pub images : ℕ → ImageAnswers
  pub containers : Option (List Container)
  pub start_time : ℕ
  pub start : ComposeResult
  pub deployment : DeployAnswers
  pub end_time : ℕ

abbrev checked_entry : Service → Bool → Message → Watcher → Watcher
checked_entry svc manual message s =
    if manual then write_entry svc checked message [] no_digests [] info_level [] s else s

-- The auto-start at the end of the case without changes; the answer of `tryStartDeploy` is ignored.
unfoldable pub auto_start_project :
    Service → ContainerStatus → CheckAnswers → Watcher → Option Text × Watcher
unfolding try_start_deploy clear_deploying send_alert write_entry clear_poll_error
auto_start_project svc status a s =
    let s1 = (try_start_deploy svc.name a.start_time s).1 in
    let launch = λ (command : Effect) (context : Text) (message : Message).
      let s2 = emit command s1 in
      elim a.start.failure as (λ _. Option Text × Watcher) [
        | some err ↦ (some (context ++ err), clear_deploying svc.name s2)
        | none ↦ (
          none,
          emit (go_verify_after_compose svc) (
              clear_poll_error svc (
                write_entry svc started message [] no_digests [] warning a.start.output
                  (send_alert svc started message [] no_digests [] warning s2))),
        )
      ] in
    elim status [
      | container_stuck ↦
          launch (compose_restart svc) (codes "compose restart (stuck containers): ")
            stuck_restarted
      | _ ↦ launch (compose_up svc) (codes "compose up (no running container): ") none_started
    ]

-- The case without image changes.
unfoldable pub check_containers :
    Service → Bool → Text → CheckAnswers → Watcher → Option Text × Watcher
unfolding auto_start_project clear_poll_error write_entry
check_containers svc manual representative a s =
    let status = (find_container_by_project a.containers).1 in
    let stopped_case =
      if not svc.auto_start
      then (none, checked_entry svc manual up_to_date_not_running (clear_poll_error svc s))
      else let attempted = or_zero [] (lookup svc.name s.updater.start_attempted) in
        if not (attempted == []) && attempted == representative
        then (none, s)
        else auto_start_project svc status a (
            on_updater
              (λ u. record u { start_attempted = insert svc.name representative u.start_attempted })
              s) in
    elim status [
      | container_running ↦ (
        none,
        checked_entry svc manual up_to_date (
            clear_poll_error svc (
              on_updater (λ u. record u { start_attempted = delete svc.name u.start_attempted })
                s)),
      )
      | _ ↦ stopped_case
    ]

unfoldable pub check_body : Text → Service → Bool → CheckAnswers → Watcher → Option Text × Watcher
check_body url svc manual a s =
    let (result, s') = check_images url svc a.images 0 svc.images [] [] s in
    elim result [
      | stopped err ↦ (some err, s')
      | finished [] representative ↦ check_containers svc manual representative a s'
      | finished (ch ∷ changed) representative ↦
          deploy url svc (ch ∷ changed) a.deployment (clear_poll_error svc s')
    ]

-- The `defer` sets the status and the time on every way out.
unfoldable pub check_and_update :
    Text → Service → Bool → CheckAnswers → Watcher → Option Text × Watcher
unfolding set_check_status update_last_checked check_body
check_and_update url svc manual a s =
    let (err, s') = check_body url svc manual a (set_check_status svc.name (codes "checking") s) in
    (err, update_last_checked svc.name a.end_time (set_check_status svc.name (codes "idle") s'))
