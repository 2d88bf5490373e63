-- ===== src/Watcher/Healer/Recovery.antt =====
-- How a service gets into and out of the degraded state, and when the healer gives up.
use dockward.Prelude.{
  ℕ, ◌+◌, ◌≤◌, ◌≡◌, ◌⊎◌, subst, sym, refl, true, false, List, [], ◌∷◌, Option, some, arith, inl,
  inr, length, beq_refl, All,
}
use dockward.Prelude.Int.{pos, leb_ℤ}
use dockward.Prelude.Text.{Text, text_eq, codes}
use dockward.Prelude.Map.{lookup-insert, lookup-delete}
use dockward.Docker.{ContainerInspect, health_is}
use dockward.Config.{Service}
use dockward.Watcher.State.{Watcher, new_watcher}
use dockward.Watcher.Healer.{
  is_degraded, is_exhausted, restart_count, handle_unhealthy, verify_after_restart, handle_healthy,
  handle_died,
}
use dockward.Watcher.Healer.Events.{Stimulus, run}
use dockward.Watcher.Healer.Invariant.{exhausted_is_degraded}
use dockward.Watcher.Healer.Restarts.{restarts_in, handle_unhealthy_count}

-- A service that ran out of restarts in any run of a fresh healer is no longer exhausted nor degraded
-- after a healthy event, and its count of failed restarts is 0 again.
pub healthy_rearms :
    (services : List Service) (is : List Stimulus) (start : ℕ) (svc : Service) (container : Text)
    → is_exhausted svc.name (run services is (new_watcher start)).healer ≡ true
    → let h = (handle_healthy svc container (run services is (new_watcher start))).healer in
      (is_exhausted svc.name h ≡ false)
      × (is_degraded svc.name h ≡ false)
      × (restart_count svc.name h ≡ 0)
unfolding handle_healthy
healthy_rearms services is start svc container h =
    let s = run services is (new_watcher start) in
    ground (
      arith,
      exhausted_is_degraded services is start svc.name h,
      beq_refl svc.name,
      lookup-delete svc.name svc.name s.healer.degraded,
      lookup-delete svc.name svc.name s.healer.exhausted,
      lookup-delete svc.name svc.name s.healer.restart_counts,
    )

-- `die` events of one container, at the given times.
unfoldable pub all_died : Service → Text → List ℕ → Watcher → Watcher
all_died svc container [] s = s
all_died svc container (now ∷ times) s =
    all_died svc container times (handle_died svc container now s)

died_while_degraded :
    (svc : Service) (container : Text) (times : List ℕ) (s : Watcher)
    → is_degraded svc.name s.healer ≡ true
    → all_died svc container times s ≡ s
unfolding all_died handle_died
died_while_degraded svc container [] s h = refl
died_while_degraded svc container (now ∷ times) s h =
    ground (arith, died_while_degraded svc container times s h)

died_first :
    (svc : Service) (container : Text) (now : ℕ) (s : Watcher)
    → ((handle_died svc container now s ≡ s)
        ⊎ ((is_degraded svc.name (handle_died svc container now s).healer ≡ true)
            × (length (handle_died svc container now s).log ≡ length s.log + 2)))
unfolding handle_died
died_first svc container now s =
    ground (arith, beq_refl svc.name, lookup-insert svc.name svc.name true s.healer.degraded)

-- However often a container dies in a row, one alert and one audit entry at most come of it.
died_burst :
    (svc : Service) (container : Text) (times : List ℕ) (s : Watcher)
    → length (all_died svc container times s).log ≤ length s.log + 2
unfolding all_died
died_burst svc container [] s = omega arith
died_burst svc container (now ∷ times) s = elim (died_first svc container now s) [
  | inl same ↦
      subst (λ t. length (all_died svc container times t).log ≤ length s.log + 2) (sym same)
        (died_burst svc container times s)
  | inr (bad, grown) ↦
      subst (λ t. length t.log ≤ length s.log + 2)
        (sym (died_while_degraded svc container times (handle_died svc container now s) bad))
        (omega arith)
]

-- Restart checks that each find the container still unhealthy.
unfoldable pub all_failing : Service → Text → Text → List ContainerInspect → Watcher → Watcher
all_failing svc container reason [] s = s
all_failing svc container reason (info ∷ infos) s =
    all_failing svc container reason infos
      (verify_after_restart svc container reason false (some info) s)

verify_counts :
    (svc : Service) (container reason : Text) (info : ContainerInspect) (s : Watcher)
    → health_is info (codes "unhealthy") ≡ true
    → restart_count svc.name (verify_after_restart svc container reason false (some info) s).healer
      ≡ restart_count svc.name s.healer + 1
unfolding verify_after_restart
verify_counts svc container reason info s h = ground (
  arith,
  beq_refl svc.name,
  lookup-insert svc.name svc.name (restart_count svc.name s.healer + 1) s.healer.restart_counts,
)

failing_counts :
    (svc : Service) (container reason : Text) (infos : List ContainerInspect) (s : Watcher)
    → All (λ info. health_is info (codes "unhealthy") ≡ true) infos
    → restart_count svc.name (all_failing svc container reason infos s).healer
      ≡ restart_count svc.name s.healer + length infos
unfolding all_failing
failing_counts svc container reason [] s h = omega arith
failing_counts svc container reason (info ∷ infos) s h = omega (
  arith,
  verify_counts svc container reason info s h.0,
  failing_counts svc container reason infos
      (verify_after_restart svc container reason false (some info) s) h.1,
)

-- After at least `heal_max_restarts` restart checks in a row that found a container of the service
-- unhealthy, an unhealthy event of the service restarts nothing.
pub gives_up :
    (svc : Service) (container reason id : Text) (infos : List ContainerInspect)
    (inspected : Option ContainerInspect) (failure : Option Text) (now later : ℕ) (s : Watcher)
    → All (λ info. health_is info (codes "unhealthy") ≡ true) infos
    → leb_ℤ svc.heal_max_restarts (pos (length infos)) ≡ true
    → let s' = all_failing svc container reason infos s in
      restarts_in (handle_unhealthy svc container id inspected failure now later s').log
      ≡ restarts_in s'.log
gives_up svc container reason id infos inspected failure now later s failing enough = ground (
  arith,
  failing_counts svc container reason infos s failing,
  handle_unhealthy_count svc container id inspected failure now later
      (all_failing svc container reason infos s),
)
