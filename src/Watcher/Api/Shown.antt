-- ===== src/Watcher/Api/Shown.antt =====
-- What the status shows after an action of a user and of the healer.
use dockward.Prelude.{
  ℕ, ◌≡◌, ◌≢◌, refl, ap, ◌∙◌, true, false, not, [], ◌∷◌, ◌++◌, Option, some, arith, or_zero,
  beq_refl,
}
use dockward.Prelude.Int.{ℤ}
use dockward.Prelude.Text.{Text, codes, text_eq, text_beq_iff, has_prefix}
use dockward.Prelude.Map.{Map, lookup, retain, lookup-insert, lookup-delete}
use dockward.Config.{Service}
use dockward.Watcher.Monitor.{ResourceStats}
use dockward.Watcher.State.{Watcher, is_deploying}
use dockward.Watcher.Metrics.{set_healthy}
use dockward.Watcher.Updater.{unblock_service}
use dockward.Watcher.Healer.{handle_healthy, is_degraded, is_exhausted}
use dockward.Watcher.Api.{delete_method, service_of_path, handle_unblock_service}
use dockward.Watcher.Api.Status.{
  ok_status, first_value_by_prefix, synthesize_status, build_service_status,
}

first_value_by_prefix-retain :
    (m : Map Text Text) (prefix : Text)
    → first_value_by_prefix (retain (λ k. not (has_prefix k prefix)) m) prefix ≡ []
unfolding first_value_by_prefix retain
first_value_by_prefix-retain [] prefix = refl
first_value_by_prefix-retain ((k, v) ∷ m) prefix =
    ground (arith, first_value_by_prefix-retain m prefix)

blocked-handle_unblock_service :
    (name path : Text) (s : Watcher)
    → service_of_path (codes "/blocked/") path ≡ name
    → name ≢ []
    → (handle_unblock_service delete_method path s).1.updater.blocked
      ≡ retain (λ k. not (has_prefix k (name ++ codes "/"))) s.updater.blocked
unfolding handle_unblock_service unblock_service
blocked-handle_unblock_service name path s same full = ground (arith, same, text_beq_iff name [])

-- After an accepted DELETE of the blocked digests of a service, its status shows no blocked digest.
pub unblocked_shown :
    (svc : Service) (path : Text) (poll_interval : ℤ) (now : ℕ) (stats : Option ResourceStats)
    (s : Watcher)
    → service_of_path (codes "/blocked/") path ≡ svc.name
    → svc.name ≢ []
    → let t = (handle_unblock_service delete_method path s).1 in
      (build_service_status svc poll_interval now stats t).blocked ≡ []
unfolding build_service_status
unblocked_shown svc path poll_interval now stats s name full =
    ap (λ m. first_value_by_prefix m (svc.name ++ codes "/"))
      (blocked-handle_unblock_service svc.name path s name full)
    ∙ first_value_by_prefix-retain s.updater.blocked (svc.name ++ codes "/")

-- The state after a healthy event of a degraded service.
healed :
    (svc : Service) (container : Text) (s : Watcher)
    → is_degraded svc.name s.healer ≡ true
    → is_deploying svc.name s.updater ≡ false
    → let t = handle_healthy svc container s in
      (is_degraded svc.name t.healer ≡ false)
      × (is_exhausted svc.name t.healer ≡ false)
      × (lookup svc.name t.metrics.service_healthy ≡ some true)
      × (t.updater ≡ s.updater)
unfolding handle_healthy set_healthy
healed svc container s degraded idle = ground (
  arith,
  beq_refl svc.name,
  lookup-delete svc.name svc.name s.healer.degraded,
  lookup-delete svc.name svc.name s.healer.exhausted,
  lookup-insert svc.name svc.name true s.metrics.service_healthy,
)

ok_shown :
    (svc : Service) (poll_interval : ℤ) (now : ℕ) (stats : Option ResourceStats) (t : Watcher)
    → is_degraded svc.name t.healer ≡ false
    → is_exhausted svc.name t.healer ≡ false
    → lookup svc.name t.metrics.service_healthy ≡ some true
    → is_deploying svc.name t.updater ≡ false
    → or_zero [] (lookup svc.name t.updater.errored) ≡ []
    → first_value_by_prefix t.updater.blocked (svc.name ++ codes "/") ≡ []
    → first_value_by_prefix t.updater.not_found (svc.name ++ codes "/") ≡ []
    → (build_service_status svc poll_interval now stats t).word ≡ ok_status
unfolding build_service_status synthesize_status
ok_shown svc poll_interval now stats t degraded exhausted healthy idle fine free present = ground (
  arith,
  text_beq_iff (or_zero [] (lookup svc.name t.updater.errored)) [],
  text_beq_iff (first_value_by_prefix t.updater.blocked (svc.name ++ codes "/")) [],
  text_beq_iff (first_value_by_prefix t.updater.not_found (svc.name ++ codes "/")) [],
)

-- A healthy event of a degraded service that is not being deployed shows it as ok, if the updater has
-- no error, no blocked digest and no missing image of it.
recovered_shown :
    (svc : Service) (container : Text) (poll_interval : ℤ) (now : ℕ) (stats : Option ResourceStats)
    (s : Watcher)
    → is_degraded svc.name s.healer ≡ true
    → is_deploying svc.name s.updater ≡ false
    → or_zero [] (lookup svc.name s.updater.errored) ≡ []
    → first_value_by_prefix s.updater.blocked (svc.name ++ codes "/") ≡ []
    → first_value_by_prefix s.updater.not_found (svc.name ++ codes "/") ≡ []
    → (build_service_status svc poll_interval now stats (handle_healthy svc container s)).word
      ≡ ok_status
recovered_shown svc container poll_interval now stats s degraded idle fine free present =
    let (d, e, h, same) = healed svc container s degraded idle in
    ok_shown svc poll_interval now stats (handle_healthy svc container s) d e h (rw same idle)
      (rw same fine) (rw same free) (rw same present)
