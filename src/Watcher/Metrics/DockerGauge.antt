-- ===== src/Watcher/Metrics/DockerGauge.antt =====
-- The gauges of the Docker daemon: internal/docker/health.go with the callback of cmd/dockward/main.go.
use dockward.Prelude.{
  ℕ, ◌+◌, ◌≡◌, refl, ap, Bool, false, List, [], ◌∷◌, arith, if◌then◌else◌, ◌==◌, nat_eq, any_of,
  length, Bool-cases, inl, inr, sym, ◌∙◌,
}
use dockward.Prelude.Int.{ℤ}
use dockward.Docker.Health.{
  Answer, failed, answered, HealthChecker, new_health_checker, ping, check, status,
}
use dockward.Watcher.Metrics.{Metrics, set_docker_health}

-- A check and the callback that `main` registers.
unfoldable pub observe : ℕ × Answer → HealthChecker × Metrics → HealthChecker × Metrics
unfolding check set_docker_health
observe (now, a) (hc, m) =
    let checked = check now a hc in
    (checked, set_docker_health checked.healthy checked.consecutive_fails m)

abbrev pub observe_all : List (ℕ × Answer) → HealthChecker × Metrics → HealthChecker × Metrics
observe_all [] s = s
observe_all (r ∷ rounds) s = observe_all rounds (observe r s)

-- Whether the daemon answered a ping with 200.
abbrev pub is_up : ℕ × Answer → Bool
is_up (now, failed e) = false
is_up (now, answered status api server) = status == 200

-- The rounds after the last one that was up.
abbrev pub fails_at_end : List (ℕ × Answer) → ℕ
fails_at_end [] = 0
fails_at_end (r ∷ rounds) =
    if any_of is_up rounds
    then fails_at_end rounds
    else if is_up r
    then length rounds
    else length rounds + 1

observe-consecutive_fails :
    (r : ℕ × Answer) (hc : HealthChecker) (m : Metrics)
    → let (c, n) = observe r (hc, m) in
      (c.consecutive_fails ≡ (if is_up r then 0 else hc.consecutive_fails + 1))
      × (c.healthy ≡ is_up r)
      × (n.docker_healthy ≡ c.healthy)
      × (n.docker_consecutive_fails ≡ c.consecutive_fails)
      × (n.docker_check_count ≡ m.docker_check_count + 1)
unfolding observe ping
observe-consecutive_fails (now, failed e) hc m = (refl, refl, refl, refl, refl)
observe-consecutive_fails (now, answered status api server) hc m = ground arith

observe_all-consecutive_fails :
    (rounds : List (ℕ × Answer)) (hc : HealthChecker) (m : Metrics)
    → let (c, n) = observe_all rounds (hc, m) in
      (c.consecutive_fails ≡ (
        if any_of is_up rounds then fails_at_end rounds else hc.consecutive_fails + length rounds))
      × (n.docker_check_count ≡ m.docker_check_count + length rounds)
observe_all-consecutive_fails [] hc m = (omega arith, omega arith)
observe_all-consecutive_fails (r ∷ rounds) hc m =
    let (c, n) = observe r (hc, m) in
    let (first, _, _, _, counted) = observe-consecutive_fails r hc m in
    let (then_fails, then_count) = observe_all-consecutive_fails rounds c n in
    (
      elim (Bool-cases (any_of is_up rounds)) [
        | inl later ↦ ground (arith, then_fails, later)
        | inr never ↦ ground (arith, then_fails, never, first)
      ],
      omega (arith, then_count, counted),
    )

-- The metrics show what the checker knows.
abbrev Agrees : HealthChecker × Metrics → Type 0
Agrees (c, n) =
    (c.healthy ≡ (c.consecutive_fails == 0))
    × (n.docker_healthy ≡ c.healthy)
    × (n.docker_consecutive_fails ≡ c.consecutive_fails)

Agrees-observe_all :
    (r : ℕ × Answer) (rounds : List (ℕ × Answer)) (s : HealthChecker × Metrics)
    → Agrees (observe_all (r ∷ rounds) s)
Agrees-observe_all r [] (hc, m) =
    let (fails, up, healthy, counted, _) = observe-consecutive_fails r hc m in
    (ground (arith, fails, up), healthy, counted)
Agrees-observe_all r (q ∷ rounds) s = Agrees-observe_all q rounds (observe r s)

fails_at_end_of_down :
    (rounds : List (ℕ × Answer)) → any_of is_up rounds ≡ false → fails_at_end rounds ≡ length rounds
fails_at_end_of_down [] h = refl
fails_at_end_of_down (r ∷ rounds) h = elim (Bool-cases (is_up r)) [
  | inl up ↦ absurd (ground (arith, h, up))
  | inr down ↦ elim (Bool-cases (any_of is_up rounds)) [
    | inl later ↦ absurd (ground (arith, h, down, later))
    | inr never ↦ rw (never, down) (omega arith)
  ]
]

fails_of_new :
    (rounds : List (ℕ × Answer)) (hc : HealthChecker) (m : Metrics)
    → hc.consecutive_fails ≡ 0
    → (observe_all rounds (hc, m)).0.consecutive_fails ≡ fails_at_end rounds
fails_of_new rounds hc m new =
    (observe_all-consecutive_fails rounds hc m).0 ∙ elim (Bool-cases (any_of is_up rounds)) [
      | inl up ↦ rw up refl
      | inr down ↦ rw down (omega (arith, fails_at_end_of_down rounds down))
    ]

-- After any checks, at least one, the metrics count the failures in a row as the rounds since the last
-- successful ping, have the number of the checks, and show the daemon as healthy just if the last ping
-- succeeded. The checker and its status say the same.
pub docker_gauges :
    (r : ℕ × Answer) (rounds : List (ℕ × Answer)) (check_interval timeout : ℤ) (m : Metrics)
    → let (c, n) = observe_all (r ∷ rounds) (new_health_checker check_interval timeout, m) in
      (n.docker_consecutive_fails ≡ fails_at_end (r ∷ rounds))
      × (n.docker_check_count ≡ m.docker_check_count + length (r ∷ rounds))
      × (n.docker_healthy ≡ (fails_at_end (r ∷ rounds) == 0))
      × ((status c).healthy ≡ n.docker_healthy)
      × ((status c).consecutive_fails ≡ n.docker_consecutive_fails)
unfolding new_health_checker status
docker_gauges r rounds check_interval timeout m =
    let start = new_health_checker check_interval timeout in
    let fails = fails_of_new (r ∷ rounds) start m refl in
    let (up, healthy, shown) = Agrees-observe_all r rounds (start, m) in
    (
      shown ∙ fails,
      (observe_all-consecutive_fails (r ∷ rounds) start m).1,
      healthy ∙ up ∙ ap (λ n. n == 0) fails,
      sym healthy,
      sym shown,
    )
