-- ===== src/Watcher/Api/Views.antt =====
-- The handlers of internal/watcher/api.go that only read: lists, the status, health and the audit log.
use dockward.Prelude.{
  ℕ, Bool, not, List, [], Option, none, some, inl, inr, if◌then◌else◌, ◌==◌, nat_eq, ltb, map,
}
use dockward.Prelude.Int.{ℤ, pos, negsuc}
use dockward.Prelude.Text.{Text, codes, text_eq}
use dockward.Prelude.Map.{Map, lookup}
use dockward.Config.{Service}
use dockward.Warden.Store.{AuditEntry}
use dockward.Docker.Health.{HealthChecker, HealthStatus, status}
use dockward.Audit.{Json, Logger, recent}
use dockward.Watcher.State.{Watcher}
use dockward.Watcher.Monitor.{ResourceStats}
use dockward.Watcher.Api.{Method, is_get, service_of_path, find_service}
use dockward.Watcher.Api.Status.{ServiceStatus, build_service_status}

pub data View {ℓ} (A : Type ℓ) : Type ℓ where
  only_get wrong_name unknown_name internal_error : View A
  shown : A → View A

abbrev on_get {ℓ} : {A : Type ℓ} → Method → A → View A
on_get method a = if is_get method then shown a else only_get

unfoldable pub handle_list_blocked : Method → Watcher → View (Map Text Text)
handle_list_blocked method s = on_get method s.updater.blocked

unfoldable pub handle_list_not_found : Method → Watcher → View (Map Text Text)
handle_list_not_found method s = on_get method s.updater.not_found

unfoldable pub handle_list_errored : Method → Watcher → View (Map Text Text)
handle_list_errored method s = on_get method s.updater.errored

-- What a request for the status reads beside the state: the poll interval, the time, and what the monitor
-- has of each service.
pub record Reads : Type 0 where
  pub poll_interval : ℤ
  pub now : ℕ
  pub stats : Map Text ResourceStats

abbrev pub status_of : Reads → Watcher → Service → ServiceStatus
status_of r s svc = build_service_status svc r.poll_interval r.now (lookup svc.name r.stats) s

-- The services of the answer; the metadata of the process is left out.
unfoldable pub handle_status_all :
    Method → Reads → List Service → Watcher → View (List ServiceStatus)
handle_status_all method r services s = on_get method (map (status_of r s) services)

unfoldable pub handle_status_service :
    Method → Text → Reads → List Service → Watcher → View ServiceStatus
unfolding service_of_path find_service
handle_status_service method path r services s =
    let name = service_of_path (codes "/status/") path in
    if not (is_get method)
    then only_get
    else if name == []
    then wrong_name
    else elim (find_service name services) [
      | none ↦ unknown_name
      | some svc ↦ shown (status_of r s svc)
    ]

-- The status code, and the answer.
pub record HealthReply : Type 0 where
  pub code : ℕ
  pub docker : HealthStatus
  pub config_warnings : List Text

unfoldable pub handle_health : List Text → HealthChecker → HealthReply
unfolding status
handle_health warnings hc = record {
  code = if (status hc).healthy then 200 else 503;
  docker = status hc;
  config_warnings = warnings;
}

unfoldable pub limit_of : Option ℤ → ℕ
limit_of none = 100
limit_of (some (negsuc n)) = 100
limit_of (some (pos n)) = if n == 0 then 100 else if ltb 500 n then 500 else n

-- `limit` is the parameter of the query, and `atoi` is strconv.Atoi.
unfoldable pub handle_audit :
    (Text → Option ℤ) → Json → Bool → Method → Text → Logger → View (List AuditEntry)
unfolding limit_of recent
handle_audit atoi J readable method limit l =
    if not (is_get method)
    then only_get
    else let n = if limit == [] then 100 else limit_of (atoi limit) in
      elim (recent J readable (pos n) l) [ inl e ↦ internal_error | inr entries ↦ shown entries ]
