-- ===== src/Watcher/Metrics.antt =====
-- internal/watcher/metrics.go: counters and gauges by service. An `int64` counter is a number here: it
-- would take 2 ^ 63 increments to wrap.
pub mod Prometheus
pub mod Exposed
mod DockerGauge
mod Tests
use dockward.Prelude.{ℕ, ◌+◌, ◌≡◌, Bool, false, List, [], ◌∷◌, arith, ◌==◌, if◌then◌else◌, or_zero}
use dockward.Prelude.Text.{Text, text_eq}
use dockward.Prelude.Map.{Map, lookup, insert, has, lookup-insert}

pub record Metrics : Type 0 where
  pub updates : Map Text ℕ
  pub rollbacks : Map Text ℕ
  pub restarts : Map Text ℕ
  pub failures : Map Text ℕ
  pub cpu_alerts : Map Text ℕ
  pub memory_alerts : Map Text ℕ
  pub service_healthy : Map Text Bool
  pub service_blocked : Map Text Bool
  pub last_poll_time : ℕ
  pub poll_count : ℕ
  pub docker_healthy : Bool
  pub docker_consecutive_fails : ℕ
  pub docker_check_count : ℕ
  pub invalid_services_count : ℕ

unfoldable pub new_metrics : Metrics
new_metrics = record {
  updates = [];
  rollbacks = [];
  restarts = [];
  failures = [];
  cpu_alerts = [];
  memory_alerts = [];
  service_healthy = [];
  service_blocked = [];
  last_poll_time = 0;
  poll_count = 0;
  docker_healthy = false;
  docker_consecutive_fails = 0;
  docker_check_count = 0;
  invalid_services_count = 0;
}

-- `m[service]++`
unfoldable pub increment : Text → Map Text ℕ → Map Text ℕ
increment service m = insert service (or_zero 0 (lookup service m) + 1) m

unfoldable pub inc_updates : Text → Metrics → Metrics
inc_updates service m = record m { updates = increment service m.updates }

unfoldable pub inc_rollbacks : Text → Metrics → Metrics
inc_rollbacks service m = record m { rollbacks = increment service m.rollbacks }

unfoldable pub inc_restarts : Text → Metrics → Metrics
inc_restarts service m = record m { restarts = increment service m.restarts }

unfoldable pub inc_failures : Text → Metrics → Metrics
inc_failures service m = record m { failures = increment service m.failures }

unfoldable pub set_healthy : Text → Bool → Metrics → Metrics
set_healthy service b m = record m { service_healthy = insert service b m.service_healthy }

unfoldable pub set_blocked : Text → Bool → Metrics → Metrics
set_blocked service b m = record m { service_blocked = insert service b m.service_blocked }

unfoldable pub record_poll : ℕ → Metrics → Metrics
record_poll now m = record m { poll_count = m.poll_count + 1; last_poll_time = now }

unfoldable pub inc_cpu_alerts : Text → Metrics → Metrics
inc_cpu_alerts service m = record m { cpu_alerts = increment service m.cpu_alerts }

unfoldable pub inc_memory_alerts : Text → Metrics → Metrics
inc_memory_alerts service m = record m { memory_alerts = increment service m.memory_alerts }

unfoldable pub set_docker_health : Bool → ℕ → Metrics → Metrics
set_docker_health healthy consecutive_fails m = record m {
  docker_healthy = healthy;
  docker_consecutive_fails = consecutive_fails;
  docker_check_count = m.docker_check_count + 1;
}

unfoldable pub set_invalid_services_count : ℕ → Metrics → Metrics
set_invalid_services_count count m = record m { invalid_services_count = count }

-- `if _, ok := m[name]; !ok { m[name] = zero }`
unfoldable pub seed : {V : Type 0} → V → Text → Map Text V → Map Text V
seed zero_value name m = if has name m then m else insert name zero_value m

unfoldable pub seed_service : Text → Metrics → Metrics
unfolding seed
seed_service name m = record m {
  updates = seed 0 name m.updates;
  rollbacks = seed 0 name m.rollbacks;
  restarts = seed 0 name m.restarts;
  failures = seed 0 name m.failures;
  service_blocked = seed false name m.service_blocked;
  cpu_alerts = seed 0 name m.cpu_alerts;
  memory_alerts = seed 0 name m.memory_alerts;
}

unfoldable pub seed_services : List Text → Metrics → Metrics
unfolding seed_service
seed_services [] m = m
seed_services (name ∷ names) m = seed_services names (seed_service name m)

-- The counter of one service goes up by one, and the others stay.
pub lookup-increment :
    (j service : Text) (m : Map Text ℕ)
    → or_zero 0 (lookup j (increment service m))
      ≡ (if service == j then or_zero 0 (lookup service m) + 1 else or_zero 0 (lookup j m))
unfolding increment
lookup-increment j service m =
    ground (arith, lookup-insert j service (or_zero 0 (lookup service m) + 1) m)
