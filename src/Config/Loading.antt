-- ===== src/Config/Loading.antt =====
-- What a configuration that is loaded satisfies: `setDefaults`, then `validate`.
use dockward.Prelude.{
  ◌≡◌, ◌⊎◌, refl, true, false, List, [], ◌∷◌, none, arith, inl, inr, is_some, All, map, Bool-cases,
}
use dockward.Prelude.Int.{ℤ, pos, negsuc, leb_ℤ, ltb_ℤ}
use dockward.Prelude.Text.{text_eq, text_beq_iff, codes}
use dockward.Config.{Service, Config}
use dockward.Config.Services.{passing, sort_services_lem}
use dockward.Config.Defaults.{positive_or, service_defaults, set_defaults}
use dockward.Config.Validation.{
  Checks, check_service, sort_services, check_settings, loaded, validate,
}

positive_or_lem :
    (default v : ℤ) → ltb_ℤ (pos 0) default ≡ true → ltb_ℤ (pos 0) (positive_or default v) ≡ true
unfolding positive_or
positive_or_lem default (pos v) h = ground arith
positive_or_lem default (negsuc v) h = ground arith

ltb_ℤ-false : (a b : ℤ) → ltb_ℤ a b ≡ false → leb_ℤ b a ≡ true
ltb_ℤ-false (pos a) (pos b) h = ground arith
ltb_ℤ-false (pos a) (negsuc b) h = refl
ltb_ℤ-false (negsuc a) (pos b) h = cc
ltb_ℤ-false (negsuc a) (negsuc b) h = ground arith

leb_ℤ-false : (a b : ℤ) → leb_ℤ a b ≡ false → ltb_ℤ b a ≡ true
leb_ℤ-false (pos a) (pos b) h = ground arith
leb_ℤ-false (pos a) (negsuc b) h = refl
leb_ℤ-false (negsuc a) (pos b) h = cc
leb_ℤ-false (negsuc a) (negsuc b) h = ground arith

leb_ℤ_zero : (v : ℤ) → ltb_ℤ (pos 0) v ≡ true → leb_ℤ v (pos 0) ≡ true → ⊥
leb_ℤ_zero (pos v) h k = ground arith
leb_ℤ_zero (negsuc v) h k = cc

-- The timing of a service is set.
abbrev pub HasTiming : Service → Type 0
HasTiming svc =
    (ltb_ℤ (pos 0) svc.health_grace ≡ true)
    × (ltb_ℤ (pos 0) svc.heal_cooldown ≡ true)
    × (ltb_ℤ (pos 0) svc.heal_max_restarts ≡ true)

service_defaults-HasTiming : (svc : Service) → HasTiming (service_defaults svc)
unfolding service_defaults
service_defaults-HasTiming svc = (
  positive_or_lem (pos 60) svc.health_grace refl,
  positive_or_lem (pos 300) svc.heal_cooldown refl,
  positive_or_lem (pos 3) svc.heal_max_restarts refl,
)

service_defaults-All : (services : List Service) → All HasTiming (map service_defaults services)
service_defaults-All [] = tt
service_defaults-All (svc ∷ services) =
    (service_defaults-HasTiming svc, service_defaults-All services)

All-passing :
    (k : Checks) (services : List Service)
    → All HasTiming services
    → All HasTiming (passing k services)
All-passing k [] h = tt
All-passing k (svc ∷ services) h = elim (Bool-cases (is_some (check_service k svc))) [
  | inl bad ↦ rw (bad, passing) (All-passing k services h.1)
  | inr ok ↦ rw (ok, passing) (h.0, All-passing k services h.1)
]

settings_bounds :
    (k : Checks) (d : Config)
    → check_settings k d ≡ none
    → ltb_ℤ (pos 0) d.stats_interval ≡ true
    → ((leb_ℤ (pos 10) d.poll_interval ≡ true) × (leb_ℤ d.poll_interval (pos 86400) ≡ true))
      × (leb_ℤ (pos 5) d.stats_interval ≡ true)
      × ((leb_ℤ (pos 5) d.check_interval ≡ true) × (leb_ℤ d.check_interval (pos 3600) ≡ true))
      × ((leb_ℤ (pos 1) d.timeout ≡ true) × (leb_ℤ d.timeout (pos 30) ≡ true))
      × (ltb_ℤ d.timeout d.check_interval ≡ true)
unfolding check_settings
settings_bounds k d h positive = ground (
  arith,
  ltb_ℤ-false d.poll_interval (pos 10),
  ltb_ℤ-false (pos 86400) d.poll_interval,
  ltb_ℤ-false d.stats_interval (pos 5),
  leb_ℤ_zero d.stats_interval,
  ltb_ℤ-false d.check_interval (pos 5),
  ltb_ℤ-false (pos 3600) d.check_interval,
  ltb_ℤ-false d.timeout (pos 1),
  ltb_ℤ-false (pos 30) d.timeout,
  leb_ℤ-false d.check_interval d.timeout,
)

validate_lem :
    (k : Checks) (c d : Config)
    → validate k c ≡ loaded d
    → ((d.runtime ≡ codes "docker") ⊎ (d.runtime ≡ codes "podman"))
      × (check_settings k d ≡ none)
      × (d.stats_interval ≡ c.stats_interval)
      × (d.services ≡ (sort_services k 0 c.services).0)
unfolding validate
validate_lem k c d h =
    ground (arith, text_beq_iff c.runtime (codes "docker"), text_beq_iff c.runtime (codes "podman"))

set_defaults_lem :
    (c : Config)
    → (ltb_ℤ (pos 0) (set_defaults c).stats_interval ≡ true)
      × All HasTiming (set_defaults c).services
unfolding set_defaults
set_defaults_lem c = (
  positive_or_lem (positive_or (pos 300) c.poll_interval) c.stats_interval
      (positive_or_lem (pos 300) c.poll_interval refl),
  service_defaults-All c.services,
)

-- A configuration that is loaded has a known runtime, a poll interval from 10 to 86400 seconds, an
-- interval of at least 5 seconds for the statistics (never 0, which would disable them), a health
-- check from 5 to 3600 seconds with a timeout from 1 to 30 and shorter than its interval, and every
-- service has a positive grace period, cooldown and limit of restarts.
pub load_bounds :
    (k : Checks) (c d : Config)
    → validate k (set_defaults c) ≡ loaded d
    → ((d.runtime ≡ codes "docker") ⊎ (d.runtime ≡ codes "podman"))
      × ((leb_ℤ (pos 10) d.poll_interval ≡ true) × (leb_ℤ d.poll_interval (pos 86400) ≡ true))
      × (leb_ℤ (pos 5) d.stats_interval ≡ true)
      × ((leb_ℤ (pos 5) d.check_interval ≡ true) × (leb_ℤ d.check_interval (pos 3600) ≡ true))
      × ((leb_ℤ (pos 1) d.timeout ≡ true) × (leb_ℤ d.timeout (pos 30) ≡ true))
      × (ltb_ℤ d.timeout d.check_interval ≡ true)
      × All HasTiming d.services
load_bounds k c d h =
    let (runtime, settings, stats, services) = validate_lem k (set_defaults c) d h in
    let (positive, timed) = set_defaults_lem c in
    let (poll, at_least, check, timeout, below) =
      settings_bounds k d settings (rw stats positive) in
    let (kept, _, _) = sort_services_lem k 0 (set_defaults c).services in
    (
      runtime,
      poll,
      at_least,
      check,
      timeout,
      below,
      rw (services, kept) (All-passing k (set_defaults c).services timed),
    )
