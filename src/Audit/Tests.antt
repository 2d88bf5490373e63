-- ===== src/Audit/Tests.antt =====
-- Runs of the audit log, with entries that have nothing but a time: `{` and as many `a` as its time.
use Prim.Native.Nat.{min}
use dockward.Prelude.{
  ℕ, zero, suc, ◌-◌, ◌≡◌, inr, refl, sym, ap, ◌∙◌, Bool, true, false, ◌&&◌, none, some, List, [],
  ◌∷◌, arith, if◌then◌else◌, ◌==◌, length, replicate, length-replicate, not, is_some,
}
use dockward.Prelude.Int.{pos}
use dockward.Prelude.Last.{last}
use dockward.Prelude.Text.{Text, codes, text_eq, text_beq, text_beq_iff, has_suffix}
use dockward.Prelude.Map.{lookup, insert, delete}
use dockward.Warden.Store.{AuditEntry, no_entry}
use dockward.Prelude.Scan.{IsPrintable}
use dockward.Audit.{Json, IsJson, Logger, opened, Answers, write_all, write, recent}
use dockward.Audit.Reading.{recent-write_all}
use dockward.Watcher.Api.Views.{shown}
use dockward.Audit.Counting.{write_delivers}

abbrev is_bare : AuditEntry → Bool
is_bare e =
    e.machine == []
    && e.service == []
    && e.event == []
    && e.message == []
    && e.level == []
    && e.old_digest == []
    && e.new_digest == []
    && e.container == []
    && e.reason == []
    && e.output == []

abbrev at_time : ℕ → AuditEntry
at_time t = record no_entry { timestamp = t }

abbrev bare_json : Json
bare_json = record {
  marshal = λ e. if is_bare e then some (b'{' ∷ replicate e.timestamp b'a') else none;
  unmarshal = λ d. some (at_time (length d - 1));
  valid = λ t. t;
}

replicate-IsPrintable : (n : ℕ) → IsPrintable (replicate n b'a')
replicate-IsPrintable zero = tt
replicate-IsPrintable (suc n) = (omega arith, replicate-IsPrintable n)

is_bare_lem : (e : AuditEntry) → is_bare e ≡ true → e ≡ at_time e.timestamp
is_bare_lem e h = ground (
  arith,
  text_beq_iff e.machine [],
  text_beq_iff e.service [],
  text_beq_iff e.event [],
  text_beq_iff e.message [],
  text_beq_iff e.level [],
  text_beq_iff e.old_digest [],
  text_beq_iff e.new_digest [],
  text_beq_iff e.container [],
  text_beq_iff e.reason [],
  text_beq_iff e.output [],
)

if_some : (b : Bool) (x d : Text) → (if b then some x else none) ≡ some d → (b ≡ true) × (d ≡ x)
if_some true x d h = (refl, ground arith)
if_some false x d h = absurd (cc)

bare_json-IsJson : IsJson bare_json
bare_json-IsJson = record {
  unmarshal-marshal = λ e d h.
      let (bare, line) = if_some (is_bare e) _ d h in
      ap some (
        rw line (ap at_time (omega (arith, length-replicate {A = ℕ} e.timestamp b'a')))
        ∙ sym (is_bare_lem e bare));
  printable =
      λ e d h. rw (if_some (is_bare e) _ d h).1 (omega arith, replicate-IsPrintable e.timestamp);
  nonempty = λ e d h z. cc ((if_some (is_bare e) _ d h).1, z);
}

abbrev answers : Answers
answers = record {
  now = 7;
  stamp = codes "20250101-000000";
  rename_ok = true;
  open_ok = true;
  removable = λ f. true;
  failed_after = none;
}

-- A log that is rotated after two events.
abbrev small_log : Logger
small_log = record {
  file = opened;
  push = true;
  bcast = false;
  path = codes "/l/a.jsonl";
  max_size_mb = 100;
  max_events = 2;
  event_count = 0;
  files = (codes "/l/a.jsonl", []) ∷ [];
  sent = [];
  shown = [];
}

abbrev three : List (Answers × AuditEntry)
three = (answers, at_time 1) ∷ (answers, at_time 0) ∷ (answers, at_time 2) ∷ []

rotated :
    (write_all bare_json three small_log).files
    ≡ (codes "/l/a.20250101-000000.jsonl", codes "{a\n{aaaaaaa\n")
      ∷ (codes "/l/a.jsonl", codes "{aa\n")
      ∷ []
unfolding write text_beq lookup insert delete has_suffix
rotated = refl

recent-write_all_example :
    recent bare_json true (pos 9) (write_all bare_json three small_log)
    ≡ inr (
        last
          (min 9 (write_all bare_json three small_log).event_count)
          (at_time 1 ∷ at_time 7 ∷ at_time 2 ∷ []))
unfolding lookup text_beq write insert
recent-write_all_example =
    recent-write_all bare_json three small_log 9 bare_json-IsJson refl refl refl (
      (refl, refl, (_, refl, omega arith)),
      ((refl, refl, (_, refl, omega arith)), ((refl, refl, (_, refl, omega arith)), tt)),
    )

-- A log that counts more events than its limit.
abbrev full_log : Logger
full_log = record small_log { event_count = 5 }

write_delivers_example :
    ((write bare_json answers (at_time 3) small_log).1.sent ≡ (
      if not (is_some (write bare_json answers (at_time 3) small_log).0) && true
      then at_time 3 ∷ []
      else []))
    × ((write bare_json answers (at_time 3) small_log).1.shown ≡ (
        if not (is_some (write bare_json answers (at_time 3) small_log).0) && false
        then at_time 3 ∷ []
        else []))
write_delivers_example = write_delivers bare_json answers (at_time 3) small_log (λ e. cc)
