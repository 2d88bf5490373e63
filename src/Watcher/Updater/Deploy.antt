-- ===== src/Watcher/Updater/Deploy.antt =====
-- `deploy`, `onDeploySuccess`, `rollback` and `cleanupRollbacks` of internal/watcher/updater.go. The
-- answers of Docker and compose are arguments, by the index of the change where the code loops.
use dockward.Prelude.{
  ℕ, suc, Bool, true, false, not, ◌&&◌, ◌||◌, List, [], ◌∷◌, ◌++◌, Option, none, some, ◌==◌,
  if◌then◌else◌, or_zero, is_some,
}
use dockward.Prelude.Text.{Text, text_eq, codes, has_suffix, trim_space}
use dockward.Prelude.Map.{insert}
use dockward.Docker.{Container, ContainerInspect, container_name}
use dockward.References.{image_name, image_tag, registry_host}
use dockward.Config.{Service}
use dockward.Watcher.Effects.{
  info_level, warning, critical, updated, rolled_back, deployed, retag_failure, rollback_up_failure,
  rolled_back_message, ImageChange, tag_image, remove_image, compose_up, compose_pull,
  go_verify_after_deploy,
}
use dockward.Watcher.Metrics.{inc_failures, inc_rollbacks, inc_updates, set_blocked, set_healthy}
use dockward.Watcher.State.{Watcher, emit, on_metrics}
use dockward.Watcher.Updater.{
  on_updater, image_key, no_digests, send_alert, write_entry, try_start_deploy, clear_deploying,
  set_deployed_info,
}

-- What a compose command printed, and its error if it failed.
pub record ComposeResult : Type 0 where
  pub output : Text
  pub failure : Option Text

abbrev pub registry_prefix : Text → Text → Text
registry_prefix url image = registry_host url ++ (b'/' ∷ image_name image)

-- The container of a change: the first running one whose image has the name of the changed image.
abbrev runs_image : Text → Container → Bool
runs_image name c =
    c.state == codes "running"
    && (image_name c.image == name || has_suffix (image_name c.image) (b'/' ∷ name))

unfoldable pub container_of : Text → List Container → Option Container
container_of name [] = none
container_of name (c ∷ cs) =
    let rest = container_of name cs in if runs_image name c then some c else rest

-- Step 1 of `deploy`: tag the running image of each change as `rollback`, and note its reference.
-- `inspect i` answers the inspection for the change of index `i`.
unfoldable pub tag_rollbacks :
    Text
    → List Container
    → (ℕ → Option ContainerInspect)
    → ℕ
    → List ImageChange
    → Watcher
    → List ImageChange × Watcher
tag_rollbacks url containers inspect i [] s = ([], s)
tag_rollbacks url containers inspect i (ch ∷ changed) s =
    let hit : Option ContainerInspect = elim (container_of (image_name ch.image) containers) [
      | none ↦ none
      | some c ↦ inspect i
    ] in
    let (rest, s') = tag_rollbacks url containers inspect (suc i) changed (elim hit [
      | none ↦ s
      | some info ↦ emit (tag_image info.image (registry_prefix url ch.image) (codes "rollback")) s
    ]) in
    (elim hit [ none ↦ ch | some info ↦ record ch { old_ref = info.config_image } ] ∷ rest, s')

-- What the world answers to a deploy. `cancelled` is the error of the context, if it is done.
pub record DeployAnswers : Type 0 where
  pub cancelled : Option Text
  pub now : ℕ
  pub containers : Option (List Container)
  pub inspect : ℕ → Option ContainerInspect
  pub pull : ComposeResult
  pub up : ComposeResult

-- After the flag is set. The result is the error, if any.
unfoldable pub pull_and_up :
    Text → Service → List ImageChange → DeployAnswers → Watcher → Option Text × Watcher
unfolding clear_deploying
pull_and_up url svc changed a s =
    let (tagged, s1) = tag_rollbacks url (or_zero [] a.containers) a.inspect 0 changed s in
    let s2 = emit (compose_pull svc) s1 in
    elim a.pull.failure [
      | some err ↦ (some (codes "compose pull: " ++ err), clear_deploying svc.name s2)
      | none ↦
          let s3 = emit (compose_up svc) s2 in
          elim a.up.failure [
            | some err ↦ (some (codes "compose up: " ++ err), clear_deploying svc.name s3)
            | none ↦
                let out = trim_space (a.pull.output ++ (10 ∷ a.up.output)) in
                (none, emit (go_verify_after_deploy svc tagged out) s3)
          ]
    ]

unfoldable pub deploy :
    Text → Service → List ImageChange → DeployAnswers → Watcher → Option Text × Watcher
unfolding try_start_deploy
deploy url svc changed a s = elim a.cancelled [
  | some err ↦ (some err, s)
  | none ↦
      let (free, s') = try_start_deploy svc.name a.now s in
      if free then pull_and_up url svc changed a s' else (none, s')
]

-- `changed[0]`; both callers pass the changes of a deploy, and there is at least one.
abbrev pub first_change : List ImageChange → ImageChange
first_change [] = no_digests
first_change (ch ∷ _) = ch

unfoldable pub cleanup_rollbacks : Text → List ImageChange → Watcher → Watcher
cleanup_rollbacks url [] s = s
cleanup_rollbacks url (ch ∷ changed) s =
    cleanup_rollbacks url changed
      (emit (remove_image (registry_prefix url ch.image ++ codes ":rollback")) s)

unfoldable pub record_deployed : Service → Text → List ImageChange → Watcher → Watcher
unfolding set_deployed_info image_key
record_deployed svc ref [] s = s
record_deployed svc ref (ch ∷ changed) s =
    record_deployed svc ref changed
      (set_deployed_info (image_key svc ch.image) ref ch.new_digest 0 s)

unfoldable pub on_deploy_success :
    Text → Service → List ImageChange → ContainerInspect → Text → Watcher → Watcher
unfolding send_alert write_entry
on_deploy_success url svc changed info out s =
    let s1 = on_metrics (set_healthy svc.name true) (on_metrics (inc_updates svc.name) s) in
    let s2 = record_deployed svc info.config_image changed s1 in
    let ch = first_change changed in
    let name = container_name info in
    cleanup_rollbacks url changed (
      write_entry svc updated deployed [] ch name info_level out
        (send_alert svc updated deployed [] ch name info_level s2))

unfoldable pub block_digests : Service → List ImageChange → Watcher → Watcher
unfolding image_key
block_digests svc [] s = s
block_digests svc (ch ∷ changed) s = block_digests svc changed (
    on_updater (λ u. record u { blocked = insert (image_key svc ch.image) ch.new_digest u.blocked })
      s)

-- The retag loop of `rollback`: whether a tag failed. `retag i` answers the second `TagImage` of the
-- change of index `i`, true for success; the error of the first is only logged.
unfoldable pub retag_all :
    Text → (ℕ → Bool) → ℕ → List ImageChange → Bool → Watcher → Bool × Watcher
retag_all url retag i [] failed s = (failed, s)
retag_all url retag i (ch ∷ changed) failed s =
    let prefix = registry_prefix url ch.image in
    let tag = image_tag ch.image in
    let source = prefix ++ codes ":rollback" in
    let compose_ref = prefix ++ (b':' ∷ tag) in
    let s1 =
      if not (ch.old_ref == []) && not (ch.old_ref == compose_ref)
      then emit (tag_image source (image_name ch.old_ref) (image_tag ch.old_ref)) s
      else s in
    retag_all url retag (suc i) changed (failed || not (retag i))
      (emit (tag_image source prefix tag) s1)

-- `rollback` after the digests are blocked: restore the tags, then recreate the containers.
unfoldable pub restore_images :
    Text → Service → List ImageChange → Text → Text → (ℕ → Bool) → ComposeResult → Watcher → Watcher
unfolding send_alert write_entry
restore_images url svc changed reason out retag up s =
    let ch = first_change changed in
    let (tag_failed, s1) = retag_all url retag 0 changed false s in
    if tag_failed
    then write_entry svc rolled_back retag_failure reason ch [] critical out (
        send_alert svc rolled_back retag_failure reason ch [] critical
          (on_metrics (inc_failures svc.name) s1))
    else let s2 = emit (compose_up svc) s1 in
      let all_out = trim_space (out ++ (10 ∷ up.output)) in
      if is_some up.failure
      then write_entry svc rolled_back rollback_up_failure reason ch [] critical all_out (
          send_alert svc rolled_back rollback_up_failure reason ch [] critical
            (on_metrics (inc_failures svc.name) s2))
      else cleanup_rollbacks url changed (
          write_entry svc rolled_back rolled_back_message reason ch [] warning all_out
            (send_alert svc rolled_back rolled_back_message reason ch [] warning s2))

unfoldable pub rollback :
    Text → Service → List ImageChange → Text → Text → (ℕ → Bool) → ComposeResult → Watcher → Watcher
unfolding block_digests
rollback url svc changed reason out retag up s =
    let s1 = on_metrics (set_healthy svc.name false) (on_metrics (inc_rollbacks svc.name) s) in
    let s2 = on_metrics (set_blocked svc.name true) (block_digests svc changed s1) in
    restore_images url svc changed reason out retag up s2
