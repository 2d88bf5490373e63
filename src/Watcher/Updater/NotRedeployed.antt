-- ===== src/Watcher/Updater/NotRedeployed.antt =====
-- A poll after a rollback, as long as the registry has the digests that were rolled back.
use dockward.Prelude.{
  Option, ℕ, suc, ◌≡◌, ◌≢◌, refl, subst, ap, sym, ◌∙◌, Bool, true, false, List, [], ◌∷◌, some,
  arith, beq_refl, All, map, if◌then◌else◌,
}
use dockward.Prelude.Text.{Text, text_eq, text_beq_iff, codes}
use dockward.Prelude.Map.{lookup, insert}
use dockward.Config.{Service}
use dockward.Watcher.Effects.{ImageChange, Effect, compose_pull}
use dockward.Watcher.State.{Watcher, Updater}
use dockward.Watcher.Updater.{
  image_key, container_none, container_stuck, container_running, find_container_by_project,
  set_check_status, update_last_checked, clear_poll_error, ContainerStatus, on_updater,
}
use dockward.Watcher.Updater.Deploy.{ComposeResult, rollback}
use dockward.Watcher.Updater.Rollback.{Distinct, block_digests_lem, rollback_updater}
use dockward.Watcher.Updater.Check.{
  ImageAnswers, digest, skipped, check_image, check_images, finished, CheckAnswers, check_body,
  check_containers, check_and_update, auto_start_project,
}

-- How often the log has `compose pull`, which every deploy begins with.
abbrev is_pull : Effect → Bool
is_pull (compose_pull svc) = true
is_pull _ = false

abbrev pub pulls : List Effect → ℕ
pulls [] = 0
pulls (e ∷ es) = let rest = pulls es in if is_pull e then suc rest else rest

-- From the image of index `i`, the registry has the new digests of the changes.
abbrev pub Serves : (ℕ → ImageAnswers) → ℕ → List ImageChange → Type 0
Serves images i [] = Unit {0}
Serves images i (ch ∷ changed) =
    ((images i).remote ≡ digest ch.new_digest) × Serves images (suc i) changed

-- Each change has its digest blocked, and that is not empty.
abbrev AllBlocked : Service → List ImageChange → Watcher → Type 0
AllBlocked svc changed s =
    All
      (λ ch.
        (ch.new_digest ≢ [])
        × (lookup (image_key svc ch.image) s.updater.blocked ≡ some ch.new_digest))
      changed

skips_served :
    (url : Text) (svc : Service) (img bad : Text) (a : ImageAnswers) (s : Watcher)
    → bad ≢ []
    → lookup (image_key svc img) s.updater.blocked ≡ some bad
    → a.remote ≡ digest bad
    → check_image url svc img a s ≡ (skipped, s)
unfolding check_image
skips_served url svc img bad a s nonempty h served =
    ground (arith, nonempty, text_beq_iff bad [], beq_refl bad)

-- The whole loop skips.
check_images_blocked :
    (url : Text) (svc : Service) (images : ℕ → ImageAnswers) (i : ℕ) (changed : List ImageChange)
    (s : Watcher)
    → AllBlocked svc changed s
    → Serves images i changed
    → check_images url svc images i (map (λ ch. ch.image) changed) [] [] s ≡ (finished [] [], s)
unfolding check_images
check_images_blocked url svc images i [] s h served = refl
check_images_blocked url svc images i (ch ∷ changed) s h served = ground (
  arith,
  skips_served url svc ch.image ch.new_digest (images i) s h.0.0 h.0.1 served.0,
  check_images_blocked url svc images (suc i) changed s h.1 served.1,
)

auto_start-pulls :
    (svc : Service) (status : ContainerStatus) (a : CheckAnswers) (s : Watcher)
    → pulls (auto_start_project svc status a s).1.log ≡ pulls s.log
unfolding auto_start_project clear_poll_error
auto_start-pulls svc container_none a s = ground arith
auto_start-pulls svc container_stuck a s = ground arith
auto_start-pulls svc container_running a s = ground arith

check_containers-pulls :
    (svc : Service) (manual : Bool) (representative : Text) (a : CheckAnswers) (s : Watcher)
    → pulls (check_containers svc manual representative a s).1.log ≡ pulls s.log
unfolding check_containers clear_poll_error
check_containers-pulls svc manual representative a s = ground (
  arith,
  auto_start-pulls svc (find_container_by_project a.containers).1 a (
      on_updater
        (λ u. record u { start_attempted = insert svc.name representative u.start_attempted }) s),
)

check_body-pulls :
    (url : Text) (svc : Service) (manual : Bool) (a : CheckAnswers) (s : Watcher)
    → check_images url svc a.images 0 svc.images [] [] s ≡ (finished [] [], s)
    → pulls (check_body url svc manual a s).1.log ≡ pulls s.log
unfolding check_body
check_body-pulls url svc manual a s h = ground (arith, check_containers-pulls svc manual [] a s)

AllBlocked-intro :
    (svc : Service) (changed : List ImageChange) (s : Watcher)
    → All (λ ch. ch.new_digest ≢ []) changed
    → All (λ ch. lookup (image_key svc ch.image) s.updater.blocked ≡ some ch.new_digest) changed
    → AllBlocked svc changed s
AllBlocked-intro svc [] s p q = tt
AllBlocked-intro svc (ch ∷ changed) s p q = ((p.0, q.0), AllBlocked-intro svc changed s p.1 q.1)

-- From the image of index `i`, each check of an image skips it and changes nothing.
abbrev pub Skips : Text → Service → (ℕ → ImageAnswers) → ℕ → List ImageChange → Watcher → Type 0
Skips url svc images i [] s = Unit {0}
Skips url svc images i (ch ∷ changed) s =
    (check_image url svc ch.image (images i) s ≡ (skipped, s))
    × Skips url svc images (suc i) changed s

AllBlocked-Skips :
    (url : Text) (svc : Service) (images : ℕ → ImageAnswers) (i : ℕ) (changed : List ImageChange)
    (s : Watcher)
    → AllBlocked svc changed s
    → Serves images i changed
    → Skips url svc images i changed s
AllBlocked-Skips url svc images i [] s h served = tt
AllBlocked-Skips url svc images i (ch ∷ changed) s h served = (
  skips_served url svc ch.image ch.new_digest (images i) s h.0.0 h.0.1 served.0,
  AllBlocked-Skips url svc images (suc i) changed s h.1 served.1,
)

check_body-check_containers :
    (url : Text) (svc : Service) (manual : Bool) (a : CheckAnswers) (s : Watcher)
    → check_images url svc a.images 0 svc.images [] [] s ≡ (finished [] [], s)
    → check_body url svc manual a s ≡ check_containers svc manual [] a s
unfolding check_body
check_body-check_containers url svc manual a s h =
    rw (h, check_body) (ap (λ (r : _ × Watcher). check_containers svc manual [] a r.1) h)

-- What a check leaves that has found nothing to deploy: it looks at the containers only.
abbrev pub containers_checked : Service → Bool → CheckAnswers → Watcher → Option Text × Watcher
containers_checked svc manual a s =
    let checked =
      check_containers svc manual [] a (set_check_status svc.name (codes "checking") s) in
    (
      checked.0,
      update_last_checked svc.name a.end_time (set_check_status svc.name (codes "idle") checked.1),
    )

-- After a rollback of all the images of a service, while the registry still has the digests that were
-- rolled back: each check of an image skips it and changes nothing; a check of the service does just what
-- one does that has found no new image, which is to look at the containers; and it runs no
-- `compose pull`, so it deploys nothing. The changes are of different images and their digests not empty.
pub rolled_back_not_redeployed :
    (url : Text) (svc : Service) (changed : List ImageChange) (reason out : Text) (retag : ℕ → Bool)
    (up : ComposeResult) (manual : Bool) (a : CheckAnswers) (s : Watcher)
    → Distinct changed
    → All (λ ch. ch.new_digest ≢ []) changed
    → svc.images ≡ map (λ ch. ch.image) changed
    → Serves a.images 0 changed
    → let t = rollback url svc changed reason out retag up s in
      Skips url svc a.images 0 changed t
      × (check_and_update url svc manual a t ≡ containers_checked svc manual a t)
      × (pulls (check_and_update url svc manual a t).1.log ≡ pulls t.log)
unfolding check_and_update set_check_status update_last_checked
rolled_back_not_redeployed url svc changed reason out retag up manual a s distinct nonempty all
      served =
    let t = rollback url svc changed reason out retag up s in
    let kept =
      subst
        (λ (u : Updater).
          All (λ ch. lookup (image_key svc ch.image) u.blocked ≡ some ch.new_digest) changed)
        (sym (rollback_updater url svc changed reason out retag up s))
        (block_digests_lem svc changed s distinct) in
    let checking = set_check_status svc.name (codes "checking") t in
    let blocked = AllBlocked-intro svc changed checking nonempty kept in
    let none_found =
      ap (λ imgs. check_images url svc a.images 0 imgs [] [] checking) all
      ∙ check_images_blocked url svc a.images 0 changed checking blocked served in
    (
      AllBlocked-Skips url svc a.images 0 changed t (AllBlocked-intro svc changed t nonempty kept)
          served,
      ap
          (λ (r : Option Text × Watcher). (
            r.0,
            update_last_checked svc.name a.end_time (set_check_status svc.name (codes "idle") r.1),
          ))
          (check_body-check_containers url svc manual a checking none_found),
      check_body-pulls url svc manual a checking none_found,
    )
