-- ===== src/Watcher/Monitor/Cooldown.antt =====
-- The cooldown of the alerts of internal/watcher/monitor.go, over any number of polls.
use dockward.Prelude.{
  ℕ, ◌+◌, ◌<◌, ◌≡◌, Bool, true, false, some, List, ◌++◌, arith, nat_eq, All, Bool-cases,
  Option-cases, beq_refl, inl, inr,
}
use dockward.Prelude.Text.{Text, codes, text_eq, text_beq_iff}
use dockward.Prelude.Map.{lookup, lookup-insert}
use dockward.Config.{Service}
use dockward.Docker.Stats.{ContainerStats}
use dockward.Watcher.Effects.{Message}
use dockward.Watcher.Metrics.{Metrics}
use dockward.Watcher.Monitor.Induction.{polls, polls-keeps}
use dockward.Watcher.Monitor.{
  Monitor, Percent, count_if, exceeds, memory_high, Totals, Reading, Turn, alert_key, maybe_alert,
  cooldown_of, cpu_alert, memory_alert, check_container, evict,
}

cooldown_of_positive : (svc : Service) → 0 < cooldown_of svc
unfolding cooldown_of
cooldown_of_positive svc = ground arith

module _ (key : Text) (t : ℕ) where
  -- The last alert of the key was at `t`.
  abbrev pub IsCooling : Monitor → Type 0
  IsCooling m = lookup key m.alerted_at ≡ some t

  -- An alert of the key would come before its cooldown is over.
  abbrev pub IsEarly : Service → Text → ℕ → Type 0
  IsEarly svc metric now = alert_key svc metric ≡ key → now < t + cooldown_of svc

  abbrev pub IsEarlyReading : Service → Reading → Type 0
  IsEarlyReading svc r =
      IsEarly svc (codes "cpu:" ++ r.id) r.cpu_time
      × IsEarly svc (codes "memory:" ++ r.id) r.memory_time

  abbrev pub IsEarlyTurn : Turn → Type 0
  IsEarlyTurn turn = All (IsEarlyReading turn.svc) turn.readings

  maybe_alert-IsCooling :
      (svc : Service) (metric : Text) (message : Message) (now : ℕ) (m : Monitor)
      → IsEarly svc metric now
      → IsCooling m
      → IsCooling (maybe_alert svc metric (cooldown_of svc) message now m).1
  unfolding maybe_alert
  maybe_alert-IsCooling svc metric message now m early w = ground (
    arith,
    early,
    text_beq_iff (alert_key svc metric) key,
    lookup-insert key (alert_key svc metric) now m.alerted_at,
    cooldown_of_positive svc,
  )

  IsCooling-count_if :
      (f : Metrics → Metrics) (r : Bool × Monitor) → IsCooling r.1 → IsCooling (count_if f r)
  IsCooling-count_if f (true, m) w = w
  IsCooling-count_if f (false, m) w = w

  cpu_alert-IsCooling :
      (hundred : ℕ) (svc : Service) (id : Text) (cpu : Percent) (now : ℕ) (m : Monitor)
      → IsEarly svc (codes "cpu:" ++ id) now
      → IsCooling m
      → IsCooling (cpu_alert hundred svc id cpu now m)
  unfolding cpu_alert
  cpu_alert-IsCooling hundred svc id cpu now m early w =
      elim (Bool-cases (exceeds hundred cpu svc.cpu_threshold)) [
        | inl high ↦
            rw (high, cpu_alert)
              (IsCooling-count_if _ _ (maybe_alert-IsCooling svc _ _ now m early w))
        | inr low ↦ rw (low, cpu_alert) w
      ]

  memory_alert-IsCooling :
      (hundred : ℕ) (svc : Service) (id : Text) (raw : ContainerStats) (now : ℕ) (m : Monitor)
      → IsEarly svc (codes "memory:" ++ id) now
      → IsCooling m
      → IsCooling (memory_alert hundred svc id raw now m)
  unfolding memory_alert
  memory_alert-IsCooling hundred svc id raw now m early w =
      elim (Bool-cases (memory_high hundred svc raw)) [
        | inl high ↦
            rw (high, memory_alert)
              (IsCooling-count_if _ _ (maybe_alert-IsCooling svc _ _ now m early w))
        | inr low ↦ rw (low, memory_alert) w
      ]

  check_container-IsCooling :
      (hundred : ℕ) (svc : Service) (r : Reading) (s : Totals × Monitor)
      → IsEarlyReading svc r
      → IsCooling s.1
      → IsCooling (check_container hundred svc r s).1
  unfolding check_container
  check_container-IsCooling hundred svc r s (cpu_early, memory_early) w =
      elim (Option-cases r.stats) [
        | inl no_answer ↦ rw (no_answer, check_container) w
        | inr (raw, got) ↦
            rw (got, check_container)
              (memory_alert-IsCooling hundred svc r.id raw r.memory_time _ memory_early
                (cpu_alert-IsCooling hundred svc r.id _ r.cpu_time _ cpu_early w))
      ]

polls-IsCooling :
    (key : Text) (t hundred : ℕ) (rest : List (List Turn)) (m : Monitor)
    → All (All (IsEarlyTurn key t)) rest
    → IsCooling key t m
    → IsCooling key t (polls hundred rest m)
unfolding evict
polls-IsCooling key t hundred =
    polls-keeps (IsCooling key t) (IsEarlyReading key t) hundred
      (check_container-IsCooling key t hundred) (λ stats m w. w) (λ ids m w. w)

sent-IsCooling :
    (svc : Service) (metric : Text) (message : Message) (t : ℕ) (m : Monitor)
    → (maybe_alert svc metric (cooldown_of svc) message t m).0 ≡ true
    → IsCooling (alert_key svc metric) t (maybe_alert svc metric (cooldown_of svc) message t m).1
unfolding maybe_alert
sent-IsCooling svc metric message t m sent = ground (
  arith,
  sent,
  beq_refl (alert_key svc metric),
  lookup-insert (alert_key svc metric) (alert_key svc metric) t m.alerted_at,
)

refused :
    (svc : Service) (metric : Text) (message : Message) (t now : ℕ) (m : Monitor)
    → IsCooling (alert_key svc metric) t m
    → now < t + cooldown_of svc
    → maybe_alert svc metric (cooldown_of svc) message now m ≡ (false, m)
unfolding maybe_alert
refused svc metric message t now m w soon = ground (arith, w, soon, cooldown_of_positive svc)

-- After an alert at `t`, whatever the polls until then find, no second alert of the same service, kind
-- and container is sent before the cooldown is over: nothing changes.
pub alert_cooldown :
    (svc : Service) (metric : Text) (first second_message : Message) (t now hundred : ℕ)
    (rest : List (List Turn)) (m : Monitor)
    → (maybe_alert svc metric (cooldown_of svc) first t m).0 ≡ true
    → All (All (IsEarlyTurn (alert_key svc metric) t)) rest
    → now < t + cooldown_of svc
    → let later = polls hundred rest (maybe_alert svc metric (cooldown_of svc) first t m).1 in
      maybe_alert svc metric (cooldown_of svc) second_message now later ≡ (false, later)
alert_cooldown svc metric first second_message t now hundred rest m sent early soon =
    refused svc metric second_message t now _
      (polls-IsCooling (alert_key svc metric) t hundred rest _ early
        (sent-IsCooling svc metric first t m sent))
      soon
