-- ===== src/Watcher/Monitor/Alerts.antt =====
-- The alerts of internal/watcher/monitor.go and the counters of metrics.go.
use dockward.Prelude.{
  ℕ, ◌+◌, ◌≡◌, List, [], ◌∷◌, arith, if◌then◌else◌, ◌==◌, Option-cases, inl, inr, or_zero,
}
use dockward.Prelude.Text.{Text, text_eq, text_beq_iff}
use dockward.Prelude.Map.{lookup}
use dockward.Config.{Service}
use dockward.Docker.Stats.{ContainerStats}
use dockward.Watcher.Effects.{Effect, send}
use dockward.Watcher.Metrics.{Metrics, inc_cpu_alerts, inc_memory_alerts, lookup-increment}
use dockward.Watcher.Monitor.Induction.{polls, polls-keeps_always}
use dockward.Watcher.Monitor.{
  Monitor, Percent, Totals, Reading, Turn, new_monitor, maybe_alert, cpu_alert, memory_alert,
  check_container, evict,
}

-- The alerts of a service in a log.
abbrev pub alerts_of : Text → List Effect → ℕ
alerts_of name [] = 0
alerts_of name (send a ∷ log) =
    let rest = alerts_of name log in if a.service == name then rest + 1 else rest
alerts_of name (_ ∷ log) = alerts_of name log

abbrev pub counted : Text → Metrics → ℕ
counted name m = or_zero 0 (lookup name m.cpu_alerts) + or_zero 0 (lookup name m.memory_alerts)

module _ (name : Text) where
  abbrev IsCounted : Monitor → Type 0
  IsCounted m = alerts_of name m.log ≡ counted name m.metrics

  cpu_alert-IsCounted :
      (hundred : ℕ) (svc : Service) (id : Text) (cpu : Percent) (now : ℕ) (m : Monitor)
      → IsCounted m
      → IsCounted (cpu_alert hundred svc id cpu now m)
  unfolding cpu_alert maybe_alert inc_cpu_alerts
  cpu_alert-IsCounted hundred svc id cpu now m w =
      ground
        (arith, w, lookup-increment name svc.name m.metrics.cpu_alerts, text_beq_iff svc.name name)

  memory_alert-IsCounted :
      (hundred : ℕ) (svc : Service) (id : Text) (raw : ContainerStats) (now : ℕ) (m : Monitor)
      → IsCounted m
      → IsCounted (memory_alert hundred svc id raw now m)
  unfolding memory_alert maybe_alert inc_memory_alerts
  memory_alert-IsCounted hundred svc id raw now m w =
      ground (
        arith,
        w,
        lookup-increment name svc.name m.metrics.memory_alerts,
        text_beq_iff svc.name name,
      )

  check_container-IsCounted :
      (hundred : ℕ) (svc : Service) (r : Reading) (s : Totals × Monitor)
      → IsCounted s.1
      → IsCounted (check_container hundred svc r s).1
  unfolding check_container
  check_container-IsCounted hundred svc r s w = elim (Option-cases r.stats) [
    | inl no_answer ↦ rw (no_answer, check_container) w
    | inr (raw, got) ↦
        rw (got, check_container)
          (memory_alert-IsCounted hundred svc r.id raw r.memory_time _
            (cpu_alert-IsCounted hundred svc r.id _ r.cpu_time _ w))
  ]

-- From a new monitor with no alert counted, after any polls, the two alert counters of a service are
-- together the number of alerts that were sent for it.
pub alerts_counted :
    (name : Text) (hundred : ℕ) (rest : List (List Turn)) (metrics : Metrics)
    → counted name metrics ≡ 0
    → let m = polls hundred rest (new_monitor metrics) in
      alerts_of name m.log ≡ counted name m.metrics
unfolding new_monitor evict
alerts_counted name hundred rest metrics h =
    polls-keeps_always (IsCounted name) hundred (check_container-IsCounted name hundred)
      (λ stats m w. w) (λ ids m w. w) rest (new_monitor metrics) (omega (arith, h))
