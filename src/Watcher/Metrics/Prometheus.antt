-- ===== src/Watcher/Metrics/Prometheus.antt =====
-- `Prometheus` and the snapshot of the counters in internal/watcher/metrics.go. The verbs of `fmt`
-- are parameters.
use dockward.Prelude.{
  ℕ, Bool, false, List, [], ◌∷◌, ◌++◌, Option, none, some, if◌then◌else◌, ◌==◌, nat_eq, or_zero,
  ◌||◌,
}
use dockward.Prelude.Text.{Text, codes, text_eq}
use dockward.Prelude.Map.{Map, lookup, keys, has}
use dockward.Prelude.Sort.{sort_texts}
use dockward.Watcher.Metrics.{Metrics}

-- `%q` of a string, `%d` of a number, and a time in Unix seconds.
pub record Verbs : Type 0 where
  pub quote : Text → Text
  pub decimal : ℕ → Text
  pub unix : ℕ → Text

-- The values of a map in the order of its sorted keys.
unfoldable pub sample : {V : Type 0} → V → Map Text V → List Text → List (Text × V)
sample zero_value m [] = []
sample zero_value m (k ∷ ks) = (k, or_zero zero_value (lookup k m)) ∷ sample zero_value m ks

unfoldable pub sorted_samples : {V : Type 0} → V → Map Text V → List (Text × V)
unfolding sample sort_texts
sorted_samples zero_value m = sample zero_value m (sort_texts (keys m))

abbrev newline : Text
newline = 10 ∷ []

abbrev header : Text → Text → Text → Text
header name help kind =
    codes "# HELP "
    ++ name
    ++ codes " "
    ++ help
    ++ newline
    ++ (codes "# TYPE " ++ name ++ codes " " ++ kind ++ newline)

unfoldable pub service_lines : Verbs → Text → List (Text × ℕ) → Text
service_lines v name [] = []
service_lines v name ((k, n) ∷ samples) =
    name
    ++ codes "{service="
    ++ v.quote k
    ++ codes "} "
    ++ v.decimal n
    ++ newline
    ++ service_lines v name samples

abbrev bit : Bool → ℕ
bit b = if b then 1 else 0

abbrev bits : List (Text × Bool) → List (Text × ℕ)
bits [] = []
bits ((k, b) ∷ samples) = (k, bit b) ∷ bits samples

abbrev counters : Verbs → Text → Text → Map Text ℕ → Text
counters v name help m =
    header name help (codes "counter") ++ service_lines v name (sorted_samples 0 m)

abbrev gauges : Verbs → Text → Text → Map Text Bool → Text
gauges v name help m =
    header name help (codes "gauge") ++ service_lines v name (bits (sorted_samples false m))

abbrev single : Text → Text → Text → Text → Text
single name help kind value = header name help kind ++ (name ++ codes " " ++ value ++ newline)

-- `uptime` is the rounded number of seconds since the start.
unfoldable pub prometheus : Verbs → Text → Metrics → Text
unfolding sorted_samples service_lines
prometheus v uptime m =
    counters v (codes "watcher_updates_total") (codes "Total successful image updates") m.updates
    ++ (counters v (codes "watcher_rollbacks_total") (codes "Total rollbacks after failed updates")
          m.rollbacks
        ++ (counters v (codes "watcher_restarts_total") (codes "Total auto-heal restarts")
              m.restarts
            ++ (counters v (codes "watcher_failures_total")
                  (codes "Total failures (critical events)") m.failures
                ++ (gauges v (codes "watcher_service_healthy")
                      (codes "Whether each service is healthy (1) or not (0)") m.service_healthy
                    ++ (gauges v (codes "watcher_service_blocked")
                          (codes "Whether a service has a blocked digest (1) or not (0)")
                          m.service_blocked
                        ++ (single (codes "watcher_poll_count_total")
                              (codes "Total registry poll cycles") (codes "counter")
                              (v.decimal m.poll_count)
                            ++ (header (codes "watcher_last_poll_timestamp_seconds")
                                  (codes "Unix timestamp of last poll") (codes "gauge")
                                ++ ((if m.last_poll_time == 0
                                      then []
                                      else codes "watcher_last_poll_timestamp_seconds "
                                        ++ v.unix m.last_poll_time
                                        ++ newline)
                                    ++ (single (codes "watcher_uptime_seconds")
                                          (codes "Seconds since watcher started") (codes "gauge")
                                          uptime
                                        ++ (counters v (codes "watcher_cpu_alerts_total")
                                              (codes "Total CPU threshold alerts") m.cpu_alerts
                                            ++ (counters v (codes "watcher_memory_alerts_total")
                                                  (codes "Total memory threshold alerts")
                                                  m.memory_alerts
                                                ++ (single (codes "docker_daemon_healthy")
                                                      (codes
                                                        "Whether Docker daemon is healthy (1) or not (0)")
                                                      (codes "gauge")
                                                      (v.decimal (bit m.docker_healthy))
                                                    ++ (single
                                                          (codes
                                                            "docker_daemon_consecutive_failures")
                                                          (codes
                                                            "Consecutive Docker daemon health check failures")
                                                          (codes "gauge")
                                                          (v.decimal m.docker_consecutive_fails)
                                                        ++ (single
                                                            (codes "docker_daemon_checks_total")
                                                            (codes
                                                            "Total Docker daemon health checks performed")
                                                            (codes "counter")
                                                            (v.decimal m.docker_check_count)
                                                            ++ single
                                                            (codes "watcher_invalid_services_total")
                                                            (codes
                                                            "Number of services that failed config validation")
                                                            (codes "gauge")
                                                            (v.decimal
                                                            m.invalid_services_count)))))))))))))))

pub record ServiceCounters : Type 0 where
  pub updates : ℕ
  pub rollbacks : ℕ
  pub restarts : ℕ
  pub failures : ℕ

-- The entry of one service, none where none of the four maps has it.
unfoldable pub counters_snapshot : Metrics → Text → Option ServiceCounters
counters_snapshot m service =
    if has service m.updates
      || has service m.rollbacks
      || has service m.restarts
      || has service m.failures
    then some (record {
      updates = or_zero 0 (lookup service m.updates);
      rollbacks = or_zero 0 (lookup service m.rollbacks);
      restarts = or_zero 0 (lookup service m.restarts);
      failures = or_zero 0 (lookup service m.failures);
    })
    else none
