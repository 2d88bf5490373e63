-- ===== src/Docker/Stats.antt =====
-- internal/docker/stats.go: what `ContainerStats` makes of the answer of the daemon. Its two percentages,
-- which no caller reads, are left out.
use dockward.Prelude.{ℕ, ◌-◌, List, if◌then◌else◌, ◌==◌, nat_eq, ltb, length}

-- The counters of `rawStats` that are read.
pub record RawStats : Type 0 where
  pub total_usage : ℕ
  pub percpu_usage : List ℕ
  pub system_cpu_usage : ℕ
  pub online_cpus : ℕ
  pub memory_usage : ℕ
  pub memory_limit : ℕ
  pub memory_cache : ℕ

pub record ContainerStats : Type 0 where
  pub memory_usage : ℕ
  pub memory_limit : ℕ
  pub cpu_total_usage : ℕ
  pub cpu_system_usage : ℕ
  pub num_cpus : ℕ

unfoldable pub container_stats : RawStats → ContainerStats
container_stats raw = record {
  memory_usage =
      if ltb raw.memory_cache raw.memory_usage
      then raw.memory_usage - raw.memory_cache
      else raw.memory_usage;
  memory_limit = raw.memory_limit;
  cpu_total_usage = raw.total_usage;
  cpu_system_usage = raw.system_cpu_usage;
  num_cpus = if raw.online_cpus == 0 then length raw.percpu_usage else raw.online_cpus;
}
