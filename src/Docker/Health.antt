-- ===== src/Docker/Health.antt =====
-- internal/docker/health.go: the checker of the Docker daemon. A ping is answered by the daemon or fails;
-- the client and the timeout of its context are left out. A time of 0 is Go's zero time.
use dockward.Prelude.{
  ℕ, ◌+◌, ◌*◌, Bool, true, false, Option, none, some, [], if◌then◌else◌, ◌==◌, nat_eq,
}
use dockward.Prelude.Int.{ℤ, pos, negsuc, second}
use dockward.Prelude.Text.{Text}

pub data PingError : Type 0 where
  no_answer : Text → PingError
  ping_status : ℕ → PingError

-- What comes back: an error, or a status with the headers `API-Version` and `Server`.
pub data Answer : Type 0 where
  failed : Text → Answer
  answered : ℕ → Text → Text → Answer

-- Intervals are in nanoseconds.
pub record HealthChecker : Type 0 where
  pub check_interval : ℤ
  pub timeout : ℤ
  pub healthy : Bool
  pub last_check : ℕ
  pub last_error : Option PingError
  pub consecutive_fails : ℕ
  pub docker_version : Text
  pub api_version : Text
  pub last_healthy_check : ℕ

abbrev or_seconds : ℕ → ℤ → ℤ
or_seconds n (pos d) = if d == 0 then pos (n * second) else pos d
or_seconds n (negsuc d) = negsuc d

unfoldable pub new_health_checker : ℤ → ℤ → HealthChecker
new_health_checker check_interval timeout = record {
  check_interval = or_seconds 30 check_interval;
  timeout = or_seconds 5 timeout;
  healthy = false;
  last_check = 0;
  last_error = none;
  consecutive_fails = 0;
  docker_version = [];
  api_version = [];
  last_healthy_check = 0;
}

unfoldable pub ping : Answer → HealthChecker → Option PingError × HealthChecker
ping (failed e) hc = (some (no_answer e), hc)
ping (answered status api server) hc =
    if status == 200
    then (none, record hc { api_version = api; docker_version = server })
    else (some (ping_status status), hc)

-- One check at time `now`, and the arguments of the callback.
unfoldable pub check : ℕ → Answer → HealthChecker → HealthChecker
unfolding ping
check now a hc =
    let (error, pinged) = ping a hc in
    elim error [
      | some e ↦ record pinged {
        last_check = now;
        healthy = false;
        last_error = some e;
        consecutive_fails = pinged.consecutive_fails + 1;
      }
      | none ↦ record pinged {
        last_check = now;
        healthy = true;
        last_error = none;
        consecutive_fails = 0;
        last_healthy_check = now;
      }
    ]

-- `HealthStatus`, which `Status` returns.
pub record HealthStatus : Type 0 where
  pub healthy : Bool
  pub last_check : ℕ
  pub last_healthy_check : ℕ
  pub last_error : Option PingError
  pub consecutive_fails : ℕ
  pub docker_version : Text
  pub api_version : Text

unfoldable pub status : HealthChecker → HealthStatus
status hc = record {
  healthy = hc.healthy;
  last_check = hc.last_check;
  last_healthy_check = hc.last_healthy_check;
  last_error = hc.last_error;
  consecutive_fails = hc.consecutive_fails;
  docker_version = hc.docker_version;
  api_version = hc.api_version;
}
