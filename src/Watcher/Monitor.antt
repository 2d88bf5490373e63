-- ===== src/Watcher/Monitor.antt =====
-- internal/watcher/monitor.go: the resource monitor. A percentage is an exact fraction where the source
-- has a floating-point number, and a threshold has `hundred` units for 100 per cent, as in Config. The
-- times of one alert are one reading of the clock.
mod Induction
mod Cooldown
mod Eviction
mod Alerts
mod Tests
use dockward.Prelude.{
  ℕ, zero, suc, ◌+◌, ◌-◌, ◌*◌, ◌%◌, ◌^◌, Bool, true, false, not, ◌&&◌, ◌||◌, Option, none, some,
  List, [], ◌∷◌, ◌++◌, if◌then◌else◌, ◌==◌, nat_eq, ltb, leb, take, any_of,
}
use dockward.Prelude.Int.{ℤ, pos, negsuc, second}
use dockward.Prelude.Text.{Text, codes, text_eq}
use dockward.Prelude.Map.{Map, lookup, insert, retain}
use dockward.Config.{Service}
use dockward.Docker.{Container}
use dockward.Docker.Stats.{ContainerStats}
use dockward.Watcher.Effects.{
  Alert, Entry, Effect, Message, send, write, warning, resource_alert, cpu_exceeds, memory_exceeds,
}
use dockward.Watcher.Metrics.{Metrics, inc_cpu_alerts, inc_memory_alerts}

-- `parts / whole`, times 100 per cent.
pub record Percent : Type 0 where
  pub parts : ℕ
  pub whole : ℕ

abbrev pub zero_percent : Percent
zero_percent = record { parts = 0; whole = 1 }

abbrev pub add_percent : Percent → Percent → Percent
add_percent a b = record {
  parts = a.parts * b.whole + b.parts * a.whole;
  whole = a.whole * b.whole;
}

-- `percent > threshold`, for a threshold above 0.
abbrev pub exceeds : ℕ → Percent → ℤ → Bool
exceeds hundred p (pos t) = ltb 0 t && ltb (t * p.whole) (p.parts * hundred)
exceeds hundred p (negsuc t) = false

-- `ServiceStats` and `ContainerStats`, which have the same fields; usage and limit are in bytes.
pub record ResourceStats : Type 0 where
  pub cpu : Percent
  pub memory : Percent
  pub memory_usage : ℕ
  pub memory_limit : ℕ

pub record CpuSample : Type 0 where
  pub total_usage : ℕ
  pub system_usage : ℕ

-- `Monitor`, with the metrics and the log of what it sends and writes, newest first.
pub record Monitor : Type 0 where
  pub latest : Map Text ResourceStats
  pub container_stats : Map Text ResourceStats
  pub prev_cpu : Map Text CpuSample
  pub alerted_at : Map Text ℕ
  pub metrics : Metrics
  pub log : List Effect

unfoldable pub new_monitor : Metrics → Monitor
new_monitor metrics = record {
  latest = [];
  container_stats = [];
  prev_cpu = [];
  alerted_at = [];
  metrics = metrics;
  log = [];
}

-- The share of the time since the last sample, none of it where a counter went back.
unfoldable pub cpu_percent : Option CpuSample → ContainerStats → Percent
cpu_percent none raw = zero_percent
cpu_percent (some prev) raw =
    if ltb 0 raw.num_cpus
      && ltb prev.system_usage raw.cpu_system_usage
      && leb prev.total_usage raw.cpu_total_usage
    then record {
      parts = (raw.cpu_total_usage - prev.total_usage) * raw.num_cpus;
      whole = raw.cpu_system_usage - prev.system_usage;
    }
    else zero_percent

unfoldable pub memory_percent : ℕ → ℕ → Percent
memory_percent usage limit =
    if ltb 0 limit then record { parts = usage; whole = limit } else zero_percent

abbrev pub alert_key : Service → Text → Text
alert_key svc metric = svc.name ++ codes ":" ++ metric

abbrev resource_alert_of : Service → Message → Alert
resource_alert_of svc message = record {
  service = svc.name;
  event = resource_alert;
  message = message;
  reason = [];
  old_digest = [];
  new_digest = [];
  container = [];
  level = warning;
}

abbrev resource_entry_of : Service → Message → Entry
resource_entry_of svc message = record {
  service = svc.name;
  event = resource_alert;
  message = message;
  reason = [];
  old_digest = [];
  new_digest = [];
  container = [];
  level = warning;
  output = [];
}

abbrev pub cooling : ℕ → ℕ → Option ℕ → Bool
cooling cooldown now none = false
cooling cooldown now (some last) = ltb (now - last) cooldown

-- Whether the alert was sent, and the monitor after it.
unfoldable pub maybe_alert : Service → Text → ℕ → Message → ℕ → Monitor → Bool × Monitor
maybe_alert svc metric cooldown message now m =
    if cooling cooldown now (lookup (alert_key svc metric) m.alerted_at) then (false, m) else (
      true,
      record m {
        alerted_at = insert (alert_key svc metric) now m.alerted_at;
        log = write (resource_entry_of svc message) ∷ send (resource_alert_of svc message) ∷ m.log;
      },
    )

-- In nanoseconds: five minutes if it is not positive.
unfoldable pub cooldown_of : Service → ℕ
cooldown_of svc = elim svc.heal_cooldown [
  | pos n ↦ if n == 0 then 300 * second else n * second
  | negsuc n ↦ 300 * second
]

-- The first 12 characters of an id, which `id[:12]` takes; the ids of Docker have 64.
abbrev short_id : Text → Text
short_id id = take 12 id

-- An alert that was sent is counted.
abbrev pub count_if : (Metrics → Metrics) → Bool × Monitor → Monitor
count_if f (true, m) = record m { metrics = f m.metrics }
count_if f (false, m) = m

unfoldable pub cpu_alert : ℕ → Service → Text → Percent → ℕ → Monitor → Monitor
unfolding maybe_alert cooldown_of inc_cpu_alerts
cpu_alert hundred svc id cpu now m =
    if exceeds hundred cpu svc.cpu_threshold
    then count_if (inc_cpu_alerts svc.name)
        (maybe_alert svc (codes "cpu:" ++ id) (cooldown_of svc) (cpu_exceeds (short_id id)) now m)
    else m

unfoldable pub memory_high : ℕ → Service → ContainerStats → Bool
unfolding memory_percent
memory_high hundred svc raw =
    ltb 0 raw.memory_limit
    && exceeds hundred (memory_percent raw.memory_usage raw.memory_limit) svc.memory_threshold

unfoldable pub memory_alert : ℕ → Service → Text → ContainerStats → ℕ → Monitor → Monitor
unfolding maybe_alert cooldown_of inc_memory_alerts memory_high
memory_alert hundred svc id raw now m =
    if memory_high hundred svc raw
    then count_if (inc_memory_alerts svc.name) (
        maybe_alert svc (codes "memory:" ++ id) (cooldown_of svc) (memory_exceeds (short_id id)) now
          m)
    else m

-- The sums over the containers of a service; those of the bytes are unsigned 64-bit integers.
pub record Totals : Type 0 where
  pub cpu : Percent
  pub memory_usage : ℕ
  pub memory_limit : ℕ

abbrev pub no_totals : Totals
no_totals = record { cpu = zero_percent; memory_usage = 0; memory_limit = 0 }

-- A container of a service, what the daemon tells of it, none for an error, and the times of its alerts.
pub record Reading : Type 0 where
  pub id : Text
  pub stats : Option ContainerStats
  pub cpu_time : ℕ
  pub memory_time : ℕ

abbrev pub record_sample : Text → ContainerStats → Monitor → Monitor
record_sample id raw m = record m {
  prev_cpu =
      insert id (record { total_usage = raw.cpu_total_usage; system_usage = raw.cpu_system_usage })
        m.prev_cpu;
}

abbrev pub record_container : Text → Percent → ContainerStats → Monitor → Monitor
record_container id cpu raw m = record m {
  container_stats =
      insert id
        (record {
          cpu = cpu;
          memory = memory_percent raw.memory_usage raw.memory_limit;
          memory_usage = raw.memory_usage;
          memory_limit = raw.memory_limit;
        })
        m.container_stats;
}

-- The body of the loop over the containers of a service.
unfoldable pub check_container : ℕ → Service → Reading → Totals × Monitor → Totals × Monitor
unfolding cpu_percent memory_percent cpu_alert memory_alert
check_container hundred svc r (t, m) = elim r.stats [
  | none ↦ (t, m)
  | some raw ↦
      let cpu = cpu_percent (lookup r.id m.prev_cpu) raw in
      let recorded = record_container r.id cpu raw (record_sample r.id raw m) in
      (
        record {
          cpu = add_percent t.cpu cpu;
          memory_usage = (t.memory_usage + raw.memory_usage) % 2 ^ 64;
          memory_limit = (t.memory_limit + raw.memory_limit) % 2 ^ 64;
        },
        memory_alert hundred svc r.id raw r.memory_time
            (cpu_alert hundred svc r.id cpu r.cpu_time recorded),
      )
]

unfoldable pub check_containers : ℕ → Service → List Reading → Totals × Monitor → Totals × Monitor
unfolding check_container
check_containers hundred svc [] s = s
check_containers hundred svc (r ∷ readings) s =
    check_containers hundred svc readings (check_container hundred svc r s)

-- `checkService` for the readings of its running containers, whose ids it returns.
unfoldable pub check_service : ℕ → Service → List Reading → Monitor → Monitor
unfolding check_containers memory_percent
check_service hundred svc [] m = m
check_service hundred svc (r ∷ readings) m =
    let (t, checked) = check_containers hundred svc (r ∷ readings) (no_totals, m) in
    record checked {
      latest =
          insert svc.name
            (record {
              cpu = t.cpu;
              memory = memory_percent t.memory_usage t.memory_limit;
              memory_usage = t.memory_usage;
              memory_limit = t.memory_limit;
            })
            checked.latest;
    }

abbrev pub reading_ids : List Reading → List Text
reading_ids [] = []
reading_ids (r ∷ readings) = r.id ∷ reading_ids readings

-- A turn of the loop of `pollAll`: whether the context is done before it, and else the service.
pub record Turn : Type 0 where
  pub done : Bool
  pub svc : Service
  pub readings : List Reading

abbrev pub seen_in : List Text → Text → Bool
seen_in ids id = any_of (λ j. j == id) ids

unfoldable pub evict : List Text → Monitor → Monitor
evict ids m = record m {
  container_stats = retain (seen_in ids) m.container_stats;
  prev_cpu = retain (seen_in ids) m.prev_cpu;
}

-- The ids that were seen before are `ids`. A context that is done ends the poll without an eviction.
unfoldable pub poll_turns : ℕ → List Text → List Turn → Monitor → Monitor
unfolding check_service evict
poll_turns hundred ids [] m = evict ids m
poll_turns hundred ids (t ∷ turns) m = elim t.done [
  | true ↦ m
  | false ↦
      poll_turns hundred (ids ++ reading_ids t.readings) turns
        (check_service hundred t.svc t.readings m)
]

unfoldable pub poll_all : ℕ → List Turn → Monitor → Monitor
unfolding poll_turns
poll_all hundred turns m = poll_turns hundred [] turns m

unfoldable pub running_ids : List Container → List Text
running_ids [] = []
running_ids (c ∷ containers) =
    let rest = running_ids containers in if c.state == codes "running" then c.id ∷ rest else rest

-- What the two kinds of container lists return, none for an error.
abbrev listed : Option (List Container) → List Text
listed none = []
listed (some containers) = running_ids containers

abbrev first_id : List Text → Text
first_id [] = []
first_id (id ∷ ids) = id

-- `by_project` and `by_name` are the lists for the compose project and for the container name.
unfoldable pub find_running_container_id :
    Service → Option (List Container) → Option (List Container) → Text
unfolding running_ids
find_running_container_id svc by_project by_name =
    let in_project = if svc.compose_project == [] then [] else listed by_project in
    let named = if svc.container_name == [] then [] else listed by_name in
    elim in_project [ [] ↦ first_id named | id ∷ ids ↦ id ]

-- `again` is the list for the project when it is asked for the second time.
unfoldable pub find_running_container_ids :
    Service
    → Option (List Container)
    → Option (List Container)
    → Option (List Container)
    → List Text
unfolding running_ids find_running_container_id
find_running_container_ids svc by_project again by_name =
    let ids = if svc.compose_project == [] then [] else listed by_project in
    let fallback = find_running_container_id svc again by_name in
    elim ids [
      | id ∷ rest ↦ id ∷ rest
      | [] ↦ if not (svc.container_name == []) && not (fallback == []) then fallback ∷ [] else []
    ]
