-- ===== src/Watcher/Monitor/Tests.antt =====
-- Runs of the resource monitor on concrete data.
use dockward.Prelude.{ℕ, ◌+◌, ◌≡◌, refl, false, none, some, List, [], ◌∷◌, arith, if◌then◌else◌}
use dockward.Prelude.Int.{pos}
use dockward.Prelude.Text.{Text, codes, text_eq, text_beq}
use dockward.Prelude.Map.{lookup, insert, retain}
use dockward.Config.{Service}
use dockward.Docker.Stats.{RawStats, container_stats}
use dockward.Watcher.Effects.{cpu_exceeds}
use dockward.Watcher.Metrics.{new_metrics, increment}
use dockward.Watcher.Samples.{web}
use dockward.Watcher.Monitor.{
  Monitor, Reading, Turn, new_monitor, poll_all, maybe_alert, cooldown_of, seen_in,
}
use dockward.Watcher.Monitor.Induction.{polls}
use dockward.Watcher.Monitor.Cooldown.{alert_cooldown}
use dockward.Watcher.Monitor.Eviction.{all_ids, check_all, poll_all_evicts}
use dockward.Watcher.Monitor.Alerts.{alerts_of, counted, alerts_counted}

-- Both thresholds are at 50 per cent, the cooldown is 300 seconds.
abbrev watched : Service
watched = record web { cpu_threshold = pos 50; memory_threshold = pos 50 }

abbrev usage : ℕ → ℕ → RawStats
usage total memory = record {
  total_usage = total;
  percpu_usage = [];
  system_cpu_usage = total + 100;
  online_cpus = 4;
  memory_usage = memory;
  memory_limit = 100;
  memory_cache = 10;
}

abbrev reading : ℕ → ℕ → ℕ → Reading
reading now total memory = record {
  id = codes "0123456789abcdef";
  stats = some (container_stats (usage total memory));
  cpu_time = now;
  memory_time = now;
}

abbrev turn : Reading → Turn
turn r = record { done = false; svc = watched; readings = r ∷ [] }

-- The first poll has no sample to compare with, the second one finds both in excess, the third one comes
-- too early.
abbrev three_polls : List (List Turn)
three_polls =
    (turn (reading 1000 0 20) ∷ [])
    ∷ (turn (reading 2000 90 80) ∷ [])
    ∷ (turn (reading 3000 180 80) ∷ [])
    ∷ []

abbrev after_polls : Monitor
after_polls = polls 100 three_polls (new_monitor new_metrics)

one_alert_each : counted (codes "web") after_polls.metrics ≡ 2
unfolding poll_all new_monitor new_metrics container_stats lookup insert retain increment text_beq
one_alert_each = refl

alerts_counted_example :
    alerts_of (codes "web") after_polls.log ≡ counted (codes "web") after_polls.metrics
unfolding new_metrics lookup
alerts_counted_example = alerts_counted (codes "web") 100 three_polls new_metrics refl

poll_all_evicts_example :
    let polled = poll_all 100 (turn (reading 1000 0 20) ∷ []) after_polls in
    let checked = check_all 100 (turn (reading 1000 0 20) ∷ []) after_polls in
    (lookup (codes "gone") polled.container_stats ≡ (
      if seen_in (all_ids (turn (reading 1000 0 20) ∷ [])) (codes "gone")
      then lookup (codes "gone") checked.container_stats
      else none))
    × (lookup (codes "gone") polled.prev_cpu ≡ (
        if seen_in (all_ids (turn (reading 1000 0 20) ∷ [])) (codes "gone")
        then lookup (codes "gone") checked.prev_cpu
        else none))
poll_all_evicts_example =
    poll_all_evicts 100 (turn (reading 1000 0 20) ∷ []) after_polls (codes "gone") (refl, tt)

abbrev metric : Text
metric = codes "cpu:0123456789abcdef"

alert_cooldown_example :
    let first =
      maybe_alert watched metric
        (cooldown_of watched)
        (cpu_exceeds [])
        1000
        (new_monitor new_metrics) in
    let later = polls 100 ((turn (reading 2000 90 80) ∷ []) ∷ []) first.1 in
    maybe_alert watched metric (cooldown_of watched) (cpu_exceeds []) 4000 later ≡ (false, later)
unfolding maybe_alert new_monitor lookup cooldown_of
alert_cooldown_example =
    alert_cooldown watched metric (cpu_exceeds []) (cpu_exceeds []) 1000 4000 100
      ((turn (reading 2000 90 80) ∷ []) ∷ []) (new_monitor new_metrics) refl
      ((((λ e. omega arith, λ e. omega arith), tt), tt), tt) (omega arith)
