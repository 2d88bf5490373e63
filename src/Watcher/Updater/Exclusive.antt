-- ===== src/Watcher/Updater/Exclusive.antt =====
-- The deploy flag: one deploy at a time for each service, and no flag left behind.
use dockward.Prelude.{
  Option-cases, or_zero, ℕ, suc, ◌≡◌, ◌||◌, ◌⊎◌, refl, true, false, List, [], ◌∷◌, Option, none,
  ◌==◌, arith, inl, inr, is_some, beq_refl,
}
use dockward.Prelude.Text.{Text, text_eq, text_beq_iff, codes}
use dockward.Prelude.Map.{insert, lookup-insert, lookup-delete}
use dockward.Config.{Service}
use dockward.Docker.{Container, ContainerInspect}
use dockward.Watcher.Effects.{Effect, ImageChange, go_verify_after_deploy, tag_image}
use dockward.References.{image_name}
use dockward.Watcher.State.{emit, Watcher, is_deploying}
use dockward.Watcher.Updater.{try_start_deploy, clear_deploying}
use dockward.Watcher.Updater.Deploy.{
  container_of, registry_prefix, DeployAnswers, tag_rollbacks, pull_and_up, deploy,
}

-- Of two attempts without a `clearDeploying` between them the second fails and changes nothing; after
-- `clearDeploying` an attempt succeeds. The service is then marked, and of the others those that were.
try_start_deploy_excludes :
    (service other : Text) (now later : ℕ) (s : Watcher)
    → let (_, s') = try_start_deploy service now s in
      (try_start_deploy service later s' ≡ (false, s'))
      × ((try_start_deploy service later (clear_deploying service s')).0 ≡ true)
      × (is_deploying other s'.updater ≡ (service == other || is_deploying other s.updater))
unfolding try_start_deploy clear_deploying
try_start_deploy_excludes service other now later s = ground (
  arith,
  beq_refl service,
  text_beq_iff service other,
  lookup-insert service service now s.updater.deploying,
  lookup-insert other service now s.updater.deploying,
  lookup-delete service service s.updater.deploying,
  lookup-delete service service (insert service now s.updater.deploying),
)

-- The services whose deploys the log has started to verify, newest first.
abbrev pub verifications : List Effect → List Service
verifications [] = []
verifications (go_verify_after_deploy svc changed out ∷ es) = svc ∷ verifications es
verifications (_ ∷ es) = verifications es

pub tag_rollbacks_keeps :
    (url : Text) (containers : List Container) (inspect : ℕ → Option ContainerInspect) (i : ℕ)
    (changed : List ImageChange) (s : Watcher)
    → let t = (tag_rollbacks url containers inspect i changed s).1 in
      (t.updater ≡ s.updater) × (verifications t.log ≡ verifications s.log)
unfolding tag_rollbacks
tag_rollbacks_keeps url containers inspect i [] s = (refl, refl)
tag_rollbacks_keeps url containers inspect i (ch ∷ changed) s =
    elim (Option-cases (container_of (image_name ch.image) containers)) [
      | inl miss ↦
          rw (miss, tag_rollbacks) (tag_rollbacks_keeps url containers inspect (suc i) changed s)
      | inr (c, hit) ↦ elim (Option-cases (inspect i)) [
        | inl unseen ↦
            rw (hit, unseen, tag_rollbacks)
              (tag_rollbacks_keeps url containers inspect (suc i) changed s)
        | inr (info, seen) ↦
            rw (hit, seen, tag_rollbacks)
              (tag_rollbacks_keeps url containers inspect (suc i) changed
                (emit (tag_image info.image (registry_prefix url ch.image) (codes "rollback")) s))
      ]
    ]

pull_and_up_flag :
    (url : Text) (svc : Service) (changed : List ImageChange) (a : DeployAnswers) (s : Watcher)
    → is_deploying svc.name s.updater ≡ true
    → let (err, t) = pull_and_up url svc changed a s in
      ((err ≡ none)
        × (is_deploying svc.name t.updater ≡ true)
        × (verifications t.log ≡ svc ∷ verifications s.log))
      ⊎ ((is_some err ≡ true)
          × (is_deploying svc.name t.updater ≡ false)
          × (verifications t.log ≡ verifications s.log))
unfolding pull_and_up
pull_and_up_flag url svc changed a s h = ground (
  arith,
  tag_rollbacks_keeps url (or_zero [] a.containers) a.inspect 0 changed s,
  beq_refl svc.name,
  lookup-delete svc.name svc.name s.updater.deploying,
)

-- A deploy of a service that is not being deployed either returns no error, with its flag set and the
-- verification of a deploy of this service started, and of no other; or it returns an error, with its
-- flag free and no verification started.
pub deploy_flag :
    (url : Text) (svc : Service) (changed : List ImageChange) (a : DeployAnswers) (s : Watcher)
    → is_deploying svc.name s.updater ≡ false
    → let (err, t) = deploy url svc changed a s in
      ((err ≡ none)
        × (is_deploying svc.name t.updater ≡ true)
        × (verifications t.log ≡ svc ∷ verifications s.log))
      ⊎ ((is_some err ≡ true)
          × (is_deploying svc.name t.updater ≡ false)
          × (verifications t.log ≡ verifications s.log))
unfolding deploy
deploy_flag url svc changed a s free = ground (
  arith,
  pull_and_up_flag url svc changed a (try_start_deploy svc.name a.now s).1,
  beq_refl svc.name,
  lookup-insert svc.name svc.name a.now s.updater.deploying,
)

deploy_excluded :
    (url : Text) (svc : Service) (changed : List ImageChange) (a : DeployAnswers) (s : Watcher)
    → is_deploying svc.name s.updater ≡ true
    → deploy url svc changed a s ≡ (a.cancelled, s)
unfolding deploy
deploy_excluded url svc changed a s h = ground arith

-- After a deploy that returned no error, another deploy of the service does nothing at all, until the
-- verification of the first has cleared the flag.
deploy_again :
    (url : Text) (svc : Service) (changed changed' : List ImageChange) (a b : DeployAnswers)
    (s : Watcher)
    → is_deploying svc.name s.updater ≡ false
    → (deploy url svc changed a s).0 ≡ none
    → let t = (deploy url svc changed a s).1 in deploy url svc changed' b t ≡ (b.cancelled, t)
deploy_again url svc changed changed' a b s free fine =
    deploy_excluded url svc changed' b (deploy url svc changed a s).1
      (flag_held (deploy_flag url svc changed a s free))
  where
    flag_held :
        ((((deploy url svc changed a s).0 ≡ none)
            × (is_deploying svc.name (deploy url svc changed a s).1.updater ≡ true)
            × (verifications (deploy url svc changed a s).1.log ≡ svc ∷ verifications s.log))
          ⊎ ((is_some (deploy url svc changed a s).0 ≡ true)
              × (is_deploying svc.name (deploy url svc changed a s).1.updater ≡ false)
              × (verifications (deploy url svc changed a s).1.log ≡ verifications s.log)))
        → is_deploying svc.name (deploy url svc changed a s).1.updater ≡ true
    flag_held h = ground (arith, fine)
