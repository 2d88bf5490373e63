-- ===== src/Watcher/Metrics/Tests.antt =====
-- Runs of the metrics and of the Docker checker on concrete data.
use dockward.Prelude.{ℕ, ◌+◌, ◌≡◌, refl, List, [], ◌∷◌, ◌==◌, nat_eq, length}
use dockward.Prelude.Int.{pos}
use dockward.Prelude.Text.{Text, codes, text_eq, text_beq}
use dockward.Prelude.Map.{lookup}
use dockward.Docker.Health.{Answer, failed, answered, new_health_checker, status}
use dockward.Watcher.Metrics.{Metrics, new_metrics}
use dockward.Watcher.Metrics.Prometheus.{sorted_samples}
use dockward.Watcher.Metrics.DockerGauge.{observe, observe_all, fails_at_end, docker_gauges}

abbrev counted : Metrics
counted = record new_metrics { updates = (codes "web", 2) ∷ (codes "api", 5) ∷ [] }

sorted : sorted_samples 0 counted.updates ≡ (codes "api", 5) ∷ (codes "web", 2) ∷ []
unfolding sorted_samples lookup text_beq
sorted = refl

abbrev names : List Text
names = codes "web" ∷ codes "db" ∷ []

abbrev rounds : List (ℕ × Answer)
rounds = (2, answered 500 [] []) ∷ (3, failed (codes "timeout")) ∷ []

docker_gauges_example :
    let start = new_health_checker (pos 0) (pos 5) in
    let all = (1, answered 200 (codes "1.43") (codes "Docker")) ∷ rounds in
    let (c, n) = observe_all all (start, counted) in
    (n.docker_consecutive_fails ≡ fails_at_end all)
    × (n.docker_check_count ≡ counted.docker_check_count + length all)
    × (n.docker_healthy ≡ (fails_at_end all == 0))
    × ((status c).healthy ≡ n.docker_healthy)
    × ((status c).consecutive_fails ≡ n.docker_consecutive_fails)
docker_gauges_example =
    docker_gauges (1, answered 200 (codes "1.43") (codes "Docker")) rounds (pos 0) (pos 5) counted

two_fails :
    (observe_all
      ((1, answered 200 [] []) ∷ rounds)
      (new_health_checker (pos 0) (pos 5), counted)).1.docker_consecutive_fails
    ≡ 2
unfolding observe new_health_checker
two_fails = refl
