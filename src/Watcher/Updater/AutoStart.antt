-- ===== src/Watcher/Updater/AutoStart.antt =====
-- The guard of the auto-start: `startAttempted`.
use dockward.Prelude.{
  ℕ, suc, ◌&&◌, ◌||◌, not, ◌≡◌, Bool, true, false, List, [], ◌∷◌, Option, ◌==◌, arith,
  if◌then◌else◌, or_zero,
}
use dockward.Prelude.Text.{Text, text_eq}
use dockward.Prelude.Map.{lookup, insert}
use dockward.Docker.{Container}
use dockward.Config.{Service}
use dockward.Watcher.Effects.{Effect, compose_up, compose_restart}
use dockward.Watcher.State.{Watcher}
use dockward.Watcher.Updater.{
  on_updater, ContainerStatus, container_none, container_stuck, container_running,
  find_container_by_project,
}
use dockward.Watcher.Updater.Check.{CheckAnswers, check_containers, auto_start_project}

-- How often the log has `compose up` or `compose restart`, the commands of the auto-start.
abbrev is_start : Effect → Bool
is_start (compose_up svc) = true
is_start (compose_restart svc) = true
is_start _ = false

abbrev pub starts : List Effect → ℕ
starts [] = 0
starts (e ∷ es) = let rest = starts es in if is_start e then suc rest else rest

abbrev pub is_up : Option (List Container) → Bool
is_up containers = elim (find_container_by_project containers).1 [
  | container_running ↦ true
  | _ ↦ false
]

auto_start_once :
    (svc : Service) (status : ContainerStatus) (a : CheckAnswers) (s : Watcher)
    → (starts (auto_start_project svc status a s).1.log ≡ suc (starts s.log))
      × ((auto_start_project svc status a s).1.updater.start_attempted ≡ s.updater.start_attempted)
unfolding auto_start_project
auto_start_once svc container_none a s = ground arith
auto_start_once svc container_stuck a s = ground arith
auto_start_once svc container_running a s = ground arith

-- A check without image changes starts the project once if no container runs, `auto_start` is on, and
-- no start was attempted for this digest; an empty digest, of a check that skipped all its images,
-- counts as none attempted. Otherwise it starts nothing.
check_containers-starts :
    (svc : Service) (manual : Bool) (representative : Text) (a : CheckAnswers) (s : Watcher)
    → let attempted = or_zero [] (lookup svc.name s.updater.start_attempted) in
      starts (check_containers svc manual representative a s).1.log ≡ (
        if not (is_up a.containers)
          && svc.auto_start
          && (attempted == [] || not (attempted == representative))
        then suc (starts s.log)
        else starts s.log)
unfolding check_containers
check_containers-starts svc manual representative a s = ground (
  arith,
  auto_start_once svc (find_container_by_project a.containers).1 a (
      on_updater
        (λ u. record u { start_attempted = insert svc.name representative u.start_attempted }) s),
)
