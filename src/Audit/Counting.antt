-- ===== src/Audit/Counting.antt =====
-- The limit on the events in the log of internal/audit/audit.go, and where an entry goes.
use dockward.Prelude.{◌≤◌, ◌≡◌, ◌≢◌, not, ◌&&◌, is_some, true, some, ◌∷◌, arith, if◌then◌else◌}
use dockward.Prelude.Text.{Text, text_eq}
use dockward.Prelude.Map.{lookup}
use dockward.Warden.Store.{AuditEntry}
use dockward.Audit.{
  Json, Logger, Answers, opened, disabled, rotate, write_line, write, fan_out, stamped,
}

-- The log is open and exists, and has a positive limit.
abbrev pub IsOpen : Logger → Type 0
IsOpen l = (l.file ≡ opened) × ((c : Text) × (lookup l.path l.files ≡ some c)) × (1 ≤ l.max_events)

-- The log is open and exists, and its limit is kept.
abbrev pub InLimit : Logger → Type 0
InLimit l =
    (l.file ≡ opened)
    × ((c : Text) × (lookup l.path l.files ≡ some c))
    × (1 ≤ l.max_events)
    × (l.event_count ≤ l.max_events)

abbrev CanRotate : Answers × AuditEntry → Type 0
CanRotate (a, e) = (a.rename_ok ≡ true) × (a.open_ok ≡ true)

fan_out-rotate :
    (a : Answers) (l : Logger)
    → ((rotate a l).sent ≡ l.sent)
      × ((rotate a l).shown ≡ l.shown)
      × ((rotate a l).push ≡ l.push)
      × ((rotate a l).bcast ≡ l.bcast)
unfolding rotate
fan_out-rotate a l = ground arith

-- Where a logger is enabled, an entry goes to the warden and to the local streams, as far as they are
-- attached, once and with its time, if `Write` returns no error, and else to neither.
pub write_delivers :
    (J : Json) (a : Answers) (e : AuditEntry) (l : Logger)
    → l.file ≢ disabled
    → ((write J a e l).1.sent
        ≡ (if not (is_some (write J a e l).0) && l.push then stamped a.now e ∷ l.sent else l.sent))
      × ((write J a e l).1.shown ≡ (
          if not (is_some (write J a e l).0) && l.bcast
          then stamped a.now e ∷ l.shown
          else l.shown))
unfolding write write_line fan_out
write_delivers J a e l enabled = ground (arith, fan_out-rotate a l)
