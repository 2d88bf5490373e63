-- ===== src/Audit/Reading.antt =====
-- What `Recent` of internal/audit/audit.go finds of what was written.
use Prim.Native.Nat.{min}
use mathlib.Core.List.{append-nil, append_assoc, map-append}
use dockward.Prelude.{
  ℕ, ◌+◌, ◌-◌, ◌≤◌, ◌<◌, ◌≡◌, inl, inr, refl, sym, ap, subst, ◌∙◌, true, none, some, List, [], ◌∷◌,
  ◌++◌, map, arith, if◌then◌else◌, ◌==◌, length, or_zero, All, length-append, beq_refl, nat_eq,
  Bool-cases,
}
use dockward.Prelude.Int.{pos}
use dockward.Prelude.Last.{last, last-last, last-snoc_add, last-map, last_zero, All-drop}
use dockward.Prelude.Text.{Text, text_eq, text_beq_iff}
use dockward.Prelude.Map.{lookup, lookup-insert}
use dockward.Warden.Store.{AuditEntry}
use dockward.Prelude.Scan.{IsScannable, max_token, unlines, scan-unlines, unlines-append}
use dockward.Audit.Archives.{rotate-log, rotate_unmoved}
use dockward.Audit.{
  Json, IsJson, as_read, Logger, opened, Answers, rotate, should_rotate, write, write_all,
  write_line, recent, stamped, fan_out, drop_blank, decode,
}

All-snoc {ℓ κ} :
    {A : Type ℓ} (P : A → Type κ) (xs : List A) (x : A) → All P xs → P x → All P (xs ++ (x ∷ []))
All-snoc P [] x h p = (p, tt)
All-snoc P (y ∷ xs) x h p = (h.0, All-snoc P xs x h.1 p)

module _ (J : Json) where
  -- The line of an entry, and that it can be written and scanned.
  abbrev line_of : AuditEntry → Text
  line_of e = or_zero [] (J.marshal e)

  abbrev IsWritable : AuditEntry → Type 0
  IsWritable e = (d : Text) × (J.marshal e ≡ some d) × (length d < max_token)

  module _ (laws : IsJson J) where
    IsScannable-line_of :
        (es : List AuditEntry) → All IsWritable es → All IsScannable (map line_of es)
    IsScannable-line_of [] h = h
    IsScannable-line_of (e ∷ es) ((d, m, short), h) =
        rw m ((laws.printable e d m, short), IsScannable-line_of es h)

    drop_blank-line_of :
        (es : List AuditEntry) → All IsWritable es → drop_blank (map line_of es) ≡ map line_of es
    unfolding drop_blank
    drop_blank-line_of [] h = refl
    drop_blank-line_of (e ∷ es) ((d, m, short), h) =
        rw (m, drop_blank-line_of es h) (ground (arith, laws.nonempty e d m, text_beq_iff d []))

    decode-line_of :
        (es : List AuditEntry) → All IsWritable es → decode J (map line_of es) ≡ map (as_read J) es
    unfolding decode
    decode-line_of [] h = refl
    decode-line_of (e ∷ es) ((d, m, short), h) =
        rw (m, laws.unmarshal-marshal e d m, decode-line_of es h) refl

  -- The log is open and holds the newest `event_count` of the entries `h`.
  abbrev pub Holds : List AuditEntry → Logger → Type 0
  Holds h l =
      (l.file ≡ opened)
      × (lookup l.path l.files ≡ some (unlines (map line_of (last l.event_count h))))
      × (l.event_count ≤ length h)
      × All IsWritable h

  Holds-rotate :
      (a : Answers) (h : List AuditEntry) (l : Logger)
      → a.open_ok ≡ true
      → Holds h l
      → Holds h (rotate a l)
  unfolding unlines
  Holds-rotate a h l p (o, c, k, w) = elim (Bool-cases a.rename_ok) [
    | inl moved ↦
        let (o', c', n, same) = rotate-log a l _ o c moved p in
        (o', rw (same, n, last_zero 0 h refl) c', omega (arith, n), w)
    | inr failed ↦ subst (Holds h) (sym (rotate_unmoved a l _ o c failed p)) (o, c, k, w)
  ]

  abbrev ready : Answers → Logger → Logger
  ready a l = if should_rotate l then rotate a l else l

  Holds-ready :
      (a : Answers) (h : List AuditEntry) (l : Logger)
      → a.open_ok ≡ true
      → Holds h l
      → Holds h (ready a l)
  Holds-ready a h l p w = elim (Bool-cases (should_rotate l)) [
    | inl full ↦ rw full (Holds-rotate a h l p w)
    | inr room ↦ rw room w
  ]

  unlines-snoc :
      (k : ℕ) (h : List AuditEntry) (e : AuditEntry)
      → k ≤ length h
      → unlines (map line_of (last k h)) ++ (line_of e ++ (10 ∷ []))
        ≡ unlines (map line_of (last (k + 1) (h ++ (e ∷ []))))
  unfolding unlines
  unlines-snoc k h e b = rw (last-snoc_add k h e b, map-append line_of) (rw unlines-append refl)

  Holds-write_line :
      (a : Answers) (e : AuditEntry) (d : Text) (h : List AuditEntry) (l : Logger)
      → a.failed_after ≡ none
      → J.marshal e ≡ some d
      → length d < max_token
      → Holds h l
      → Holds (h ++ (e ∷ [])) (write_line a e d l).1
  unfolding write_line fan_out
  Holds-write_line a e d h l f m short (o, c, k, w) =
      rw (o, f)
        (
          refl,
          lookup-insert l.path l.path _ l.files
              ∙ rw (beq_refl l.path, c)
                  (ap some (
                    ap
                      (λ o.
                        unlines (map line_of (last l.event_count h)) ++ (or_zero [] o ++ (10 ∷ [])))
                      (sym m)
                    ∙ unlines-snoc l.event_count h e k)),
          omega (arith, length-append h (e ∷ [])),
          All-snoc IsWritable h e w (d, m, short),
        )

  write-write_line :
      (a : Answers) (e : AuditEntry) (d : Text) (l : Logger)
      → l.file ≡ opened
      → J.marshal (stamped a.now e) ≡ some d
      → write J a e l ≡ write_line a (stamped a.now e) d (ready a l)
  unfolding write
  write-write_line a e d l o m = ground arith

  -- One write that succeeds, after a rotation or not.
  Holds-write :
      (a : Answers) (e : AuditEntry) (h : List AuditEntry) (l : Logger)
      → a.open_ok ≡ true
      → a.failed_after ≡ none
      → IsWritable (stamped a.now e)
      → Holds h l
      → Holds (h ++ (stamped a.now e ∷ [])) (write J a e l).1
  Holds-write a e h l p f (d, m, short) w =
      subst (λ r. Holds (h ++ (stamped a.now e ∷ [])) r.1) (sym (write-write_line a e d l w.0 m))
        (Holds-write_line a _ d h (ready a l) f m short (Holds-ready a h l p w))

  recent_entries :
      (n : ℕ) (es : List AuditEntry)
      → IsJson J
      → All IsWritable es
      → decode J (last n (drop_blank (map line_of es))) ≡ map (as_read J) (last n es)
  recent_entries n es laws w =
      rw (drop_blank-line_of laws es w, last-map line_of n es)
        (decode-line_of laws (last n es) (All-drop IsWritable _ es w))

  Holds-recent :
      (h : List AuditEntry) (l : Logger) (n : ℕ)
      → IsJson J
      → Holds h l
      → recent J true (pos n) l ≡ inr (map (as_read J) (last (min n l.event_count) h))
  unfolding recent
  Holds-recent h l n laws (o, c, k, w) =
      let wn = All-drop IsWritable (length h - l.event_count) h w in
      let read = recent_entries n _ laws wn ∙ ap (map (as_read J)) (last-last n l.event_count h) in
      rw (o, c, scan-unlines _ (IsScannable-line_of laws _ wn))
        (elim (Bool-cases (n == 0)) [
          | inl none_asked ↦
              rw none_asked
                (ap inr (sym (ap (map (as_read J)) (last_zero _ h (ground (arith, none_asked))))))
          | inr some_asked ↦ rw some_asked (ap inr read)
        ])

abbrev pub stamped_all : List (Answers × AuditEntry) → List AuditEntry
stamped_all [] = []
stamped_all ((a, e) ∷ ws) = stamped a.now e ∷ stamped_all ws

-- The log can be opened and written, and the line of the entry fits the scanner.
abbrev pub IsFine : Json → Answers × AuditEntry → Type 0
IsFine J (a, e) = (a.open_ok ≡ true) × (a.failed_after ≡ none) × IsWritable J (stamped a.now e)

Holds-write_all :
    (J : Json) (ws : List (Answers × AuditEntry)) (h : List AuditEntry) (l : Logger)
    → All (IsFine J) ws
    → Holds J h l
    → Holds J (h ++ stamped_all ws) (write_all J ws l)
Holds-write_all J [] h l fine holds = subst (λ h. Holds J h l) (sym (append-nil h)) holds
Holds-write_all J ((a, e) ∷ ws) h l ((p, f, m), fine) holds =
    subst (λ h. Holds J h (write_all J ws (write J a e l).1))
      (append_assoc h (stamped a.now e ∷ []) (stamped_all ws))
      (Holds-write_all J ws (h ++ (stamped a.now e ∷ [])) _ fine
        (Holds-write J a e h l p f m holds))

-- After any writes to an open and empty log, rotations between them that may fail included, `Recent`
-- returns the newest entries that were written, oldest first, with the strings that encoding/json makes
-- of theirs: as many as asked for, but at most as many as the log counts since its last rotation. Each
-- write can open the log and write its line, and the line is short enough for the scanner.
pub recent-write_all :
    (J : Json) (ws : List (Answers × AuditEntry)) (l : Logger) (n : ℕ)
    → IsJson J
    → l.file ≡ opened
    → lookup l.path l.files ≡ some []
    → l.event_count ≡ 0
    → All (IsFine J) ws
    → recent J true (pos n) (write_all J ws l)
      ≡ inr (map (as_read J) (last (min n (write_all J ws l).event_count) (stamped_all ws)))
unfolding unlines
recent-write_all J ws l n laws o c k fine =
    Holds-recent J (stamped_all ws) (write_all J ws l) n laws (
      Holds-write_all J ws [] l fine
        (o, rw (last_zero {A = AuditEntry} l.event_count [] k) c, omega arith, tt))
