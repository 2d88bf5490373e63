-- ===== src/Watcher/Api/AuditView.antt =====
-- What GET /audit of internal/watcher/api.go shows of the audit log.
use dockward.Prelude.{ℕ, [], Option, if◌then◌else◌, ◌==◌, nat_eq}
use dockward.Prelude.Int.{ℤ}
use dockward.Prelude.Text.{Text, text_eq}
use dockward.Watcher.Api.Views.{limit_of}

-- The limit that a query asks for.
abbrev pub asked : (Text → Option ℤ) → Text → ℕ
asked atoi limit = if limit == [] then 100 else limit_of (atoi limit)
