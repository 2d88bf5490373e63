-- ===== src/Watcher/Healer/Restarts.antt =====
-- When the healer restarts a container, and how often.
use dockward.Prelude.{
  ℕ, suc, ◌≡◌, Bool, true, false, not, ◌&&◌, List, [], ◌∷◌, Option, arith, if◌then◌else◌,
}
use dockward.Prelude.Int.{pos, leb_ℤ}
use dockward.Prelude.Text.{Text, text_eq}
use dockward.Docker.{ContainerInspect}
use dockward.Config.{Service}
use dockward.Watcher.Effects.{Effect, restart_container}
use dockward.Watcher.State.{Watcher, is_deploying}
use dockward.Watcher.Healer.{restart_count, in_cooldown, handle_unhealthy}

-- How many restarts of any container the log holds.
abbrev is_restart : Effect → Bool
is_restart (restart_container id timeout) = true
is_restart _ = false

abbrev pub restarts_in : List Effect → ℕ
restarts_in [] = 0
restarts_in (e ∷ es) = let rest = restarts_in es in if is_restart e then suc rest else rest

-- What must hold for an unhealthy event to lead to a restart.
abbrev pub may_restart : Service → Text → ℕ → Watcher → Bool
may_restart svc container now s =
    not (is_deploying svc.name s.updater)
    && svc.auto_heal
    && not (leb_ℤ svc.heal_max_restarts (pos (restart_count svc.name s.healer)))
    && not (in_cooldown container now s.healer)

pub handle_unhealthy_count :
    (svc : Service) (container id : Text) (inspected : Option ContainerInspect)
    (failure : Option Text) (now later : ℕ) (s : Watcher)
    → restarts_in (handle_unhealthy svc container id inspected failure now later s).log
      ≡ (if may_restart svc container now s then suc (restarts_in s.log) else restarts_in s.log)
unfolding handle_unhealthy
handle_unhealthy_count svc container id inspected failure now later s = ground arith

-- The containers that the log has restarted, by their ids, newest first.
abbrev pub restarted : List Effect → List Text
restarted [] = []
restarted (restart_container id timeout ∷ es) = id ∷ restarted es
restarted (_ ∷ es) = restarted es

-- An unhealthy event restarts the container that it reports, once, if the service is not being deployed,
-- has `auto_heal`, has failed restarts left, and the container's cooldown, which a successful restart
-- begins, is over; otherwise it restarts none. It restarts no other container.
pub handle_unhealthy_restarts :
    (svc : Service) (container id : Text) (inspected : Option ContainerInspect)
    (failure : Option Text) (now later : ℕ) (s : Watcher)
    → restarted (handle_unhealthy svc container id inspected failure now later s).log
      ≡ (if may_restart svc container now s then id ∷ restarted s.log else restarted s.log)
unfolding handle_unhealthy
handle_unhealthy_restarts svc container id inspected failure now later s = ground arith
