-- ===== src/Prelude/Text.antt =====
-- Go strings as lists of bytes, and the functions of package `strings` that the source calls.
use Prim.Native.Nat.{ℕ, zero, suc}
use Prim.Native.Char.{code}
use Prim.Native.String.{String}
use mathlib.Core.Path.{◌≡◌, refl}
use mathlib.Core.Logic.{◌↔◌}
use mathlib.Core.Bool.{Bool, true, false, ◌&&◌, ◌||◌}
use mathlib.Core.List.{List, [], ◌∷◌, ◌++◌, reverse}
use native.Mathlib.Omega.{arith}
use dockward.Prelude.Tests.{nat_beq, leb, if◌then◌else◌}
use dockward.Prelude.Classes.{Eq}

abbrev pub Text : Type 0
Text = List ℕ

-- The code points of a literal: its bytes, as the literals of the source are ASCII.
abbrev pub codes : String → Text
codes String.[] = []
codes (String.◌∷◌ c s) = code c ∷ codes s

unfoldable pub text_beq : Text → Text → Bool
text_beq [] [] = true
text_beq (x ∷ xs) (y ∷ ys) = nat_beq x y && text_beq xs ys
text_beq _ _ = false

pub text_beq_iff : (s t : Text) → (text_beq s t ≡ true) ↔ (s ≡ t)
unfolding text_beq
text_beq_iff [] [] = (λ _. refl, λ _. refl)
text_beq_iff [] (y ∷ ys) = (λ h. cc, λ h. cc)
text_beq_iff (x ∷ xs) [] = (λ h. cc, λ h. cc)
text_beq_iff (x ∷ xs) (y ∷ ys) = ground (arith, text_beq_iff xs ys)

instance abbrev pub text_eq : Eq Text
text_eq = record { beq = text_beq; beq_iff = text_beq_iff }

-- `strings.HasPrefix s p`.
unfoldable pub has_prefix : Text → Text → Bool
has_prefix s [] = true
has_prefix [] (y ∷ ys) = false
has_prefix (x ∷ xs) (y ∷ ys) = nat_beq x y && has_prefix xs ys

pub has_prefix-append : (p s : Text) → has_prefix (p ++ s) p ≡ true
unfolding has_prefix
has_prefix-append [] s = elim s as (λ s. has_prefix s [] ≡ true) [ [] ↦ refl | _ ∷ _ ↦ refl ]
has_prefix-append (x ∷ p) s = ground (arith, has_prefix-append p s)

-- `strings.HasSuffix s p`.
unfoldable pub has_suffix : Text → Text → Bool
unfolding has_prefix
has_suffix s p = has_prefix (reverse s) (reverse p)

-- The white space of `unicode.IsSpace`, encoded in UTF-8: tab, newline, vertical tab, form feed, carriage
-- return and blank in one byte; U+0085 and U+00A0 in two; U+1680, U+2000 to U+200A, U+2028, U+2029, U+202F,
-- U+205F and U+3000 in three.
abbrev is_space : ℕ → Bool
is_space c = leb 9 c && leb c 13 || nat_beq c 32

abbrev is_space2 : ℕ → ℕ → Bool
is_space2 c d = nat_beq c 194 && (nat_beq d 133 || nat_beq d 160)

abbrev is_space3 : ℕ → ℕ → ℕ → Bool
is_space3 c d e =
    nat_beq c 225 && nat_beq d 154 && nat_beq e 128
    || nat_beq c 226
      && nat_beq d 128
      && (leb 128 e && leb e 138 || nat_beq e 168 || nat_beq e 169 || nat_beq e 175)
    || nat_beq c 226 && nat_beq d 129 && nat_beq e 159
    || nat_beq c 227 && nat_beq d 128 && nat_beq e 128

-- The bytes of the white space that a text begins with, none if it begins with no white space.
unfoldable pub space_width : Text → ℕ
space_width [] = 0
space_width (c ∷ []) = if is_space c then 1 else 0
space_width (c ∷ d ∷ []) = if is_space c then 1 else if is_space2 c d then 2 else 0
space_width (c ∷ d ∷ e ∷ s) =
    if is_space c then 1 else if is_space2 c d then 2 else if is_space3 c d e then 3 else 0

-- The same for the end of a text, which is given in reverse.
unfoldable pub end_width : Text → ℕ
end_width [] = 0
end_width (c ∷ []) = if is_space c then 1 else 0
end_width (c ∷ d ∷ []) = if is_space c then 1 else if is_space2 d c then 2 else 0
end_width (c ∷ d ∷ e ∷ s) =
    if is_space c then 1 else if is_space2 d c then 2 else if is_space3 e d c then 3 else 0

-- Leaves out the next bytes, and then white space as long as there is some.
unfoldable pub skip_space : (Text → ℕ) → ℕ → Text → Text
skip_space width n [] = []
skip_space width (suc n) (c ∷ s) = skip_space width n s
skip_space width zero (c ∷ s) = elim (width (c ∷ s)) [ zero ↦ c ∷ s | suc n ↦ skip_space width n s ]

-- `strings.TrimSpace`.
unfoldable pub trim_space : Text → Text
unfolding skip_space space_width end_width
trim_space s = reverse (skip_space end_width 0 (reverse (skip_space space_width 0 s)))
