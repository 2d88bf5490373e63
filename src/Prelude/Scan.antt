-- ===== src/Prelude/Scan.antt =====
-- `bufio.Scanner` with its default split function and its default buffer, as internal/audit/audit.go
-- and internal/compose/compose.go read files with it.
use mathlib.Core.List.{append_assoc}
use dockward.Prelude.{
  ℕ, ◌≤◌, ◌<◌, ◌≡◌, refl, ap, Bool, true, false, List, [], ◌∷◌, ◌++◌, arith, if◌then◌else◌, ◌==◌,
  nat_eq, leb, length, All,
}
use dockward.Prelude.Text.{Text}

-- `bufio.MaxScanTokenSize`: a line needs room for its newline.
abbrev pub max_token : ℕ
max_token = 65536

abbrev cons_first : ℕ → List Text → List Text
cons_first c [] = (c ∷ []) ∷ []
cons_first c (l ∷ ls) = (c ∷ l) ∷ ls

-- The lines of a text. A last line need not be terminated, and is no line if it is empty.
unfoldable pub split_lines : Text → List Text
split_lines [] = []
split_lines (c ∷ s) = let rest = split_lines s in if c == 10 then [] ∷ rest else cons_first c rest

-- A carriage return before the newline is dropped.
unfoldable pub drop_cr : Text → Text
drop_cr [] = []
drop_cr (c ∷ []) = if c == 13 then [] else c ∷ []
drop_cr (c ∷ d ∷ s) = c ∷ drop_cr (d ∷ s)

unfoldable pub scan_from : List Text → List Text × Bool
unfolding drop_cr
scan_from [] = ([], false)
scan_from (l ∷ ls) =
    let (found, stopped) = scan_from ls in
    if leb max_token (length l) then ([], true) else (drop_cr l ∷ found, stopped)

-- The lines that `Scan` yields, and whether it stops at one that is too long (`ErrTooLong`).
unfoldable pub scan : Text → List Text × Bool
unfolding split_lines scan_from
scan s = scan_from (split_lines s)

-- The text with each line terminated.
unfoldable pub unlines : List Text → Text
unlines [] = []
unlines (l ∷ ls) = l ++ (10 ∷ unlines ls)

-- A line as `json.Marshal` gives it: no control characters, and short enough for the scanner.
abbrev pub IsPrintable : Text → Type 0
IsPrintable = All (λ c. 32 ≤ c)

abbrev pub IsScannable : Text → Type 0
IsScannable l = IsPrintable l × (length l < max_token)

split_lines-line : (l s : Text) → IsPrintable l → split_lines (l ++ (10 ∷ s)) ≡ l ∷ split_lines s
unfolding split_lines
split_lines-line [] s p = refl
split_lines-line (c ∷ l) s (h, p) = rw (split_lines-line l s p) (ground arith)

drop_cr-printable : (l : Text) → IsPrintable l → drop_cr l ≡ l
unfolding drop_cr
drop_cr-printable [] p = refl
drop_cr-printable (c ∷ []) (h, p) = ground arith
drop_cr-printable (c ∷ d ∷ l) (h, p) = ap (◌∷◌ c) (drop_cr-printable (d ∷ l) p)

-- What was written line by line is read line by line.
pub scan-unlines : (ls : List Text) → All IsScannable ls → scan (unlines ls) ≡ (ls, false)
unfolding scan split_lines scan_from unlines
scan-unlines [] p = refl
scan-unlines (l ∷ ls) ((p, short), ps) =
    rw (split_lines-line l (unlines ls) p)
      (ground (arith, drop_cr-printable l p, scan-unlines ls ps))

pub unlines-append : (ls ms : List Text) → unlines (ls ++ ms) ≡ unlines ls ++ unlines ms
unfolding unlines
unlines-append [] ms = refl
unlines-append (l ∷ ls) ms = simp (unlines-append ls ms, append_assoc)
