-- ===== src/Audit.antt =====
-- internal/audit/audit.go: the logger and its file. The limits, the count and the size are numbers;
-- `json.Marshal` and `json.Unmarshal` of an entry, and the formatting of a time, are parameters.
pub mod Disk
mod Archives
mod Counting
pub mod Reading
mod Tests
use mathlib.Core.Option.{Option}
use dockward.Prelude.{
  ℕ, zero, suc, ◌+◌, ◌-◌, ◌*◌, ◌/◌, ◌≡◌, ◌≢◌, ◌⊎◌, inl, inr, Bool, true, false, ◌||◌, none, some,
  List, [], ◌∷◌, ◌++◌, if◌then◌else◌, ◌==◌, nat_eq, leb, length, take, drop, or_zero, is_some,
}
use dockward.Prelude.Int.{ℤ, pos, negsuc}
use dockward.Prelude.Last.{last}
use dockward.Prelude.Text.{Text, text_eq}
use dockward.Prelude.Map.{lookup, insert}
use dockward.Warden.Store.{AuditEntry}
use dockward.Prelude.Scan.{scan, IsPrintable}
use dockward.Prelude.Files.{Files, create, rename}
use dockward.Audit.Disk.{archive_path, clean_old_archives}

-- `json.Marshal` fails on a time it cannot write. `valid` is what it makes of a string: bytes that are not
-- UTF-8 are replaced by U+FFFD.
pub record Json : Type 0 where
  pub marshal : AuditEntry → Option Text
  pub unmarshal : Text → Option AuditEntry
  pub valid : Text → Text

-- An entry as it is read back.
abbrev pub as_read : Json → AuditEntry → AuditEntry
as_read J e = record {
  timestamp = e.timestamp;
  machine = J.valid e.machine;
  service = J.valid e.service;
  event = J.valid e.event;
  message = J.valid e.message;
  reason = J.valid e.reason;
  old_digest = J.valid e.old_digest;
  new_digest = J.valid e.new_digest;
  container = J.valid e.container;
  level = J.valid e.level;
  output = J.valid e.output;
}

-- What the documentation of encoding/json promises of an entry: it is read back with its strings made
-- valid, and its text is an object in which control characters are escaped.
pub record IsJson (J : Json) : Type 0 where
  pub unmarshal-marshal :
      (e : AuditEntry) (d : Text) → J.marshal e ≡ some d → J.unmarshal d ≡ some (as_read J e)
  pub printable : (e : AuditEntry) (d : Text) → J.marshal e ≡ some d → IsPrintable d
  pub nonempty : (e : AuditEntry) (d : Text) → J.marshal e ≡ some d → d ≢ []

-- `l.file`: a nil pointer, an open file at the path of the log, or a file that was closed.
pub data Handle : Type 0 where
  disabled opened closed : Handle

-- `sent` and `shown` are the entries given to the warden and to the local streams, newest first.
pub record Logger : Type 0 where
  pub file : Handle
  pub push : Bool
  pub bcast : Bool
  pub path : Text
  pub max_size_mb : ℕ
  pub max_events : ℕ
  pub event_count : ℕ
  pub files : Files
  pub sent : List AuditEntry
  pub shown : List AuditEntry

unfoldable pub with_push : Logger → Logger
with_push l = record l { push = true }

unfoldable pub with_broadcast : Logger → Logger
with_broadcast l = record l { bcast = true }

-- The logger is a no-op if the path is empty. None where the file cannot be opened. `readable` tells
-- whether it can be opened again, for the count.
unfoldable pub new_logger : Bool → Bool → Text → Files → Option Logger
unfolding create scan
new_logger openable readable path files =
    if path == []
    then some (record {
      file = disabled;
      push = false;
      bcast = false;
      path = [];
      max_size_mb = 0;
      max_events = 0;
      event_count = 0;
      files = files;
      sent = [];
      shown = [];
    })
    else if openable
    then some (record {
      file = opened;
      push = false;
      bcast = false;
      path = path;
      max_size_mb = 100;
      max_events = 10000;
      event_count = if readable then length (scan (or_zero [] (lookup path files))).0 else 0;
      files = create path files;
      sent = [];
      shown = [];
    })
    else none

abbrev limit_or : ℕ → ℤ → ℕ
limit_or old (pos (suc n)) = suc n
limit_or old (pos zero) = old
limit_or old (negsuc n) = old

unfoldable pub set_limits : ℤ → ℤ → Logger → Logger
set_limits max_size_mb max_events l = record l {
  max_size_mb = limit_or l.max_size_mb max_size_mb;
  max_events = limit_or l.max_events max_events;
}

abbrev pub content : Logger → Text
content l = or_zero [] (lookup l.path l.files)

abbrev megabyte : ℕ
megabyte = 1024 * 1024

-- The file can be measured while it is open.
unfoldable pub should_rotate : Logger → Bool
should_rotate l = elim l.file [
  | disabled ↦ false
  | closed ↦ leb l.max_events l.event_count
  | opened ↦ leb l.max_events l.event_count || leb l.max_size_mb (length (content l) / megabyte)
]

-- What the operating system answers in one call of `Write`: `stamp` is the formatted time of a rotation,
-- `failed_after` how many bytes a write that fails has written.
pub record Answers : Type 0 where
  pub now : ℕ
  pub stamp : Text
  pub rename_ok : Bool
  pub open_ok : Bool
  pub removable : Text → Bool
  pub failed_after : Option ℕ

-- A rotation whose rename fails opens the log again; `OpenFile` returns nil if that fails too.
unfoldable pub rotate : Answers → Logger → Logger
unfolding create rename archive_path clean_old_archives
rotate a l =
    let renamed =
      if a.rename_ok then rename l.path (archive_path l.path a.stamp) l.files else none in
    elim l.file [
      | disabled ↦ l
      | _ ↦ elim renamed [
        | none ↦
            if a.open_ok
            then record l { file = opened; files = create l.path l.files }
            else record l { file = disabled }
        | some files ↦
            if a.open_ok
            then record l {
              file = opened;
              event_count = 0;
              files = clean_old_archives a.removable l.path (create l.path files);
            }
            else record l { file = closed; files = files }
      ]
    ]

pub data WriteError : Type 0 where
  marshal_error write_error : WriteError

-- `time.Now().UTC()` where the entry has the zero time.
abbrev pub stamped : ℕ → AuditEntry → AuditEntry
stamped now e = if e.timestamp == 0 then record e { timestamp = now } else e

abbrev append_bytes : Text → Logger → Logger
append_bytes d l = record l { files = insert l.path (content l ++ d) l.files }

-- The two goroutines that `Write` starts.
unfoldable pub fan_out : AuditEntry → Logger → Logger
fan_out e l = record l {
  sent = if l.push then e ∷ l.sent else l.sent;
  shown = if l.bcast then e ∷ l.shown else l.shown;
}

-- The end of `Write`: `d` is the line, and any rotation is done.
unfoldable pub write_line : Answers → AuditEntry → Text → Logger → Option WriteError × Logger
unfolding fan_out
write_line a e d l = elim l.file [
  | opened ↦ elim a.failed_after [
    | none ↦ (
      none,
      fan_out e (append_bytes (d ++ (10 ∷ [])) (record l { event_count = l.event_count + 1 })),
    )
    | some n ↦ (some write_error, append_bytes (take n (d ++ (10 ∷ []))) l)
  ]
  | _ ↦ (some write_error, l)
]

-- The error that `Write` returns, if any. A rotation that fails is only logged.
unfoldable pub write : Json → Answers → AuditEntry → Logger → Option WriteError × Logger
unfolding should_rotate rotate write_line
write J a e l =
    let line = J.marshal (stamped a.now e) in
    elim l.file [
      | disabled ↦ (none, l)
      | _ ↦ elim line [
        | none ↦ (some marshal_error, l)
        | some d ↦ write_line a (stamped a.now e) d (if should_rotate l then rotate a l else l)
      ]
    ]

-- Writes one after another.
abbrev pub write_all : Json → List (Answers × AuditEntry) → Logger → Logger
write_all J [] l = l
write_all J ((a, e) ∷ ws) l = write_all J ws (write J a e l).1

pub data ReadError : Type 0 where
  open_error scan_error : ReadError

-- The blank lines are left out before the last ones are taken, the malformed ones after.
unfoldable pub drop_blank : List Text → List Text
drop_blank [] = []
drop_blank (l ∷ ls) = let rest = drop_blank ls in if l == [] then rest else l ∷ rest

unfoldable pub decode : Json → List Text → List AuditEntry
decode J [] = []
decode J (l ∷ ls) =
    let rest = decode J ls in elim (J.unmarshal l) [ none ↦ rest | some e ↦ e ∷ rest ]

abbrev read_lines : Json → ℕ → List Text × Bool → ReadError ⊎ List AuditEntry
read_lines J n (lines, stopped) =
    if stopped then inl scan_error else inr (decode J (last n (drop_blank lines)))

-- `readable` tells whether the log can be opened.
unfoldable pub recent : Json → Bool → ℤ → Logger → ReadError ⊎ List AuditEntry
unfolding scan drop_blank decode
recent J readable (negsuc n) l = inr []
recent J readable (pos n) l = elim l.file [
  | disabled ↦ inr []
  | _ ↦
      if n == 0
      then inr []
      else if readable
      then read_lines J n (scan (content l))
      else inl open_error
]
