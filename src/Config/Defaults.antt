-- ===== src/Config/Defaults.antt =====
-- `setDefaults` of internal/config/config.go.
use dockward.Prelude.{List, [], ◌∷◌, ◌==◌, if◌then◌else◌, map}
use dockward.Prelude.Int.{ℤ, pos, leb_ℤ}
use dockward.Prelude.Text.{Text, text_eq, codes}
use dockward.Config.{Service, Config}

-- `if v <= 0 { v = default }`
unfoldable pub positive_or : ℤ → ℤ → ℤ
positive_or default v = if leb_ℤ v (pos 0) then default else v

unfoldable pub text_or : Text → Text → Text
text_or default v = if v == [] then default else v

unfoldable pub list_or : List Text → List Text → List Text
list_or default [] = default
list_or default (x ∷ xs) = x ∷ xs

unfoldable pub service_defaults : Service → Service
unfolding positive_or
service_defaults svc = record svc {
  health_grace = positive_or (pos 60) svc.health_grace;
  heal_cooldown = positive_or (pos 300) svc.heal_cooldown;
  heal_max_restarts = positive_or (pos 3) svc.heal_max_restarts;
}

unfoldable pub set_defaults : Config → Config
unfolding positive_or text_or list_or service_defaults
set_defaults c =
    let poll = positive_or (pos 300) c.poll_interval in
    record c {
      runtime = text_or (codes "docker") c.runtime;
      registry_url = text_or (codes "http://localhost:5000") c.registry_url;
      poll_interval = poll;
      stats_interval = positive_or poll c.stats_interval;
      check_interval = positive_or (pos 30) c.check_interval;
      timeout = positive_or (pos 5) c.timeout;
      address = list_or (codes "127.0.0.1:9090" ∷ []) c.address;
      services = map service_defaults c.services;
    }
