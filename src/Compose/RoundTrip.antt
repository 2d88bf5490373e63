-- ===== src/Compose/RoundTrip.antt =====
-- What `loadEnvFile` of internal/compose/compose.go reads of a file with quoted values.
use mathlib.Core.List.{append_assoc, reverse-append, reverse-reverse}
use dockward.Prelude.{
  ℕ, ◌≤◌, ◌<◌, ◌≡◌, ◌≢◌, inr, refl, sym, ap, false, subst, ◌∙◌, some, List, [], ◌∷◌, ◌++◌, map,
  reverse, arith, nat_eq, All,
}
use dockward.Prelude.Text.{
  Text, codes, text_eq, text_beq_iff, has_prefix, trim_space, space_width, end_width, skip_space,
}
use dockward.Prelude.Scan.{IsScannable, unlines, scan-unlines}
use dockward.Compose.EnvFile.{
  cut_equals, last_byte, without_last, strip_quotes, parse_line, parse_lines, load_env_file,
}

skip_space_visible :
    (width : Text → ℕ) (c : ℕ) (s : Text) → width (c ∷ s) ≡ 0 → skip_space width 0 (c ∷ s) ≡ c ∷ s
unfolding skip_space
skip_space_visible width c s h = rw (h, skip_space) refl

-- A visible byte of ASCII begins and ends no white space.
space_width_visible : (c : ℕ) (s : Text) → 33 ≤ c → c < 128 → space_width (c ∷ s) ≡ 0
unfolding space_width
space_width_visible c [] lo hi = ground arith
space_width_visible c (d ∷ []) lo hi = ground arith
space_width_visible c (d ∷ e ∷ s) lo hi = ground arith

end_width_visible : (c : ℕ) (s : Text) → 33 ≤ c → c < 128 → end_width (c ∷ s) ≡ 0
unfolding end_width
end_width_visible c [] lo hi = ground arith
end_width_visible c (d ∷ []) lo hi = ground arith
end_width_visible c (d ∷ e ∷ s) lo hi = ground arith

-- A text that begins with no white space and ends in a visible byte of ASCII.
trim_space_visible :
    (c d : ℕ) (s : Text)
    → space_width ((c ∷ s) ++ (d ∷ [])) ≡ 0
    → 33 ≤ d
    → d < 128
    → trim_space ((c ∷ s) ++ (d ∷ [])) ≡ (c ∷ s) ++ (d ∷ [])
unfolding trim_space
trim_space_visible c d s hc lo hi =
    rw
      (
        skip_space_visible space_width c (s ++ (d ∷ [])) hc,
        reverse-append (c ∷ s) (d ∷ []),
        skip_space_visible end_width d (reverse (c ∷ s))
            (end_width_visible d (reverse (c ∷ s)) lo hi),
      )
      (ap reverse (sym (reverse-append (c ∷ s) (d ∷ []))) ∙ reverse-reverse ((c ∷ s) ++ (d ∷ [])))

abbrev quoted : Text → Text
quoted v = (b'"' ∷ v) ++ (b'"' ∷ [])

last_byte_snoc : (c d : ℕ) (s : Text) → last_byte c (s ++ (d ∷ [])) ≡ d
last_byte_snoc c d [] = refl
last_byte_snoc c d (x ∷ s) = last_byte_snoc x d s

without_last_snoc : (c d : ℕ) (s : Text) → without_last c (s ++ (d ∷ [])) ≡ c ∷ s
without_last_snoc c d [] = refl
without_last_snoc c d (x ∷ s) = ap (◌∷◌ c) (without_last_snoc x d s)

strip_quotes-quoted : (v : Text) → strip_quotes (quoted v) ≡ v
unfolding strip_quotes
strip_quotes-quoted [] = refl
strip_quotes-quoted (c ∷ v) = rw (last_byte_snoc c b'"' v) (without_last_snoc c b'"' v)

cut_equals-append :
    (key rest : Text)
    → All (λ c. c ≢ b'=') key
    → cut_equals (key ++ (b'=' ∷ rest)) ≡ some (key, rest)
unfolding cut_equals
cut_equals-append [] rest h = refl
cut_equals-append (c ∷ key) rest (h, hs) = rw (cut_equals-append key rest hs) (ground arith)

-- `KEY="value"`, and the entry of the environment.
abbrev pub printed : Text × Text → Text
printed (key, value) = key ++ (b'=' ∷ quoted value)

abbrev pub entry : Text × Text → Text
entry (key, value) = key ++ codes "=" ++ value

abbrev BeginsKey : Text → Type 0
BeginsKey [] = ⊥
BeginsKey (c ∷ key) = c ≢ b'#'

-- A key is not empty, has no `=`, and begins with neither white space nor `#`; the line fits the scanner.
abbrev pub IsVariable : Text × Text → Type 0
IsVariable (key, value) =
    BeginsKey key
    × (space_width (printed (key, value)) ≡ 0)
    × All (λ c. c ≢ b'=') key
    × IsScannable (printed (key, value))

trim_space-printed :
    (c : ℕ) (key value : Text)
    → space_width (printed (c ∷ key, value)) ≡ 0
    → trim_space (printed (c ∷ key, value)) ≡ printed (c ∷ key, value)
trim_space-printed c key value h =
    let parts = append_assoc (c ∷ key) (b'=' ∷ b'"' ∷ value) (b'"' ∷ []) in
    subst (λ line. trim_space line ≡ line) parts
      (trim_space_visible c b'"' (key ++ (b'=' ∷ b'"' ∷ value)) (ap space_width parts ∙ h)
        (omega arith) (omega arith))

parse_line_of :
    (raw key v : Text)
    → trim_space raw ≡ raw
    → raw ≢ []
    → has_prefix raw (codes "#") ≡ false
    → cut_equals raw ≡ some (key, v)
    → parse_line raw ≡ some (key ++ codes "=" ++ strip_quotes (trim_space v))
unfolding parse_line
parse_line_of raw key v trim full mark cut =
    rw (trim, mark, cut) (ground (arith, text_beq_iff raw []))

no_mark : (c : ℕ) (s : Text) → c ≢ b'#' → has_prefix (c ∷ s) (codes "#") ≡ false
unfolding has_prefix
no_mark c s h = ground arith

parse_line-printed :
    (key value : Text)
    → BeginsKey key
    → space_width (printed (key, value)) ≡ 0
    → All (λ c. c ≢ b'=') key
    → parse_line (printed (key, value)) ≡ some (entry (key, value))
parse_line-printed [] value begins visible no_equals = absurd begins
parse_line-printed (c ∷ key) value mark visible no_equals =
    parse_line_of _ (c ∷ key) (quoted value) (trim_space-printed c key value visible) (λ e. cc)
      (no_mark c _ mark) (cut_equals-append (c ∷ key) (quoted value) no_equals)
    ∙ rw
        (
          trim_space_visible b'"' b'"' value
              (space_width_visible b'"' (value ++ (b'"' ∷ [])) (omega arith) (omega arith))
              (omega arith) (omega arith),
          strip_quotes-quoted value,
        )
        refl

parse_lines-printed :
    (vars : List (Text × Text))
    → All IsVariable vars
    → parse_lines (map printed vars) ≡ map entry vars
unfolding parse_lines
parse_lines-printed [] h = refl
parse_lines-printed ((key, value) ∷ vars) ((begins, visible, no_equals, _), h) =
    rw
      (
        parse_line-printed key value begins visible no_equals,
        parse_lines-printed vars h,
        parse_lines,
      )
      refl

lines-IsScannable :
    (vars : List (Text × Text)) → All IsVariable vars → All IsScannable (map printed vars)
lines-IsScannable [] h = tt
lines-IsScannable (v ∷ vars) ((_, _, _, fits), h) = (fits, lines-IsScannable vars h)

-- A file with a line `KEY="value"` for each of some variables is read as those, in order, with the
-- values as they were, quotes, blanks, `#` and `=` in them included. A key is not empty, has no `=`, and
-- begins with neither white space nor `#`; a line has no control characters and fits the scanner.
pub load_env_file-printed :
    (vars : List (Text × Text))
    → All IsVariable vars
    → load_env_file (some (unlines (map printed vars))) ≡ inr (map entry vars)
unfolding load_env_file
load_env_file-printed vars h =
    rw (scan-unlines (map printed vars) (lines-IsScannable vars h))
      (ap inr (parse_lines-printed vars h))
