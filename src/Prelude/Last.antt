-- ===== src/Prelude/Last.antt =====
-- The end of a list: Go's `xs[len(xs)-n:]` under a guard.
use Prim.Native.Nat.{ℕ, zero, suc, ◌+◌, ◌-◌, ◌≤◌, min}
use mathlib.Core.Path.{◌≡◌, refl, sym, ap, ◌∙◌}
use mathlib.Core.List.{List, [], ◌∷◌, ◌++◌, map}
use native.Mathlib.Omega.{arith}
use dockward.Prelude.Lists.{length, drop, All, length-append}

suc_add : (n m : ℕ) → suc (n + m) ≡ suc n + m
suc_add n m = omega arith

add_one : (n : ℕ) → n + 1 ≡ suc n
add_one n = omega arith

module _ {ℓ} {A : Type ℓ} where
  abbrev pub last : ℕ → List A → List A
  last n xs = drop (length xs - n) xs

  pub length-drop : (n : ℕ) (xs : List A) → length (drop n xs) ≡ length xs - n
  length-drop zero xs = omega arith
  length-drop (suc n) [] = omega arith
  length-drop (suc n) (x ∷ xs) = omega (arith, length-drop n xs)

  pub drop-append : (n : ℕ) (xs ys : List A) → n ≤ length xs → drop n (xs ++ ys) ≡ drop n xs ++ ys
  drop-append zero xs ys h = refl
  drop-append (suc n) [] ys h = absurd (omega arith)
  drop-append (suc n) (x ∷ xs) ys h = drop-append n xs ys (omega arith)

  drop_of_empty : (n : ℕ) (xs : List A) → length xs ≡ 0 → drop n xs ≡ xs
  drop_of_empty zero xs h = refl
  drop_of_empty (suc n) [] h = refl
  drop_of_empty (suc n) (x ∷ xs) h = absurd (omega arith)

  drop-drop : (m n : ℕ) (xs : List A) → drop m (drop n xs) ≡ drop (n + m) xs
  drop-drop m zero xs = ap (λ k. drop k xs) (omega arith)
  drop-drop m (suc n) [] = drop_of_empty m [] refl ∙ sym (drop_of_empty (suc n + m) [] refl)
  drop-drop m (suc n) (x ∷ xs) = drop-drop m n xs ∙ ap (λ k. drop k (x ∷ xs)) (suc_add n m)

  pub All-drop {κ} : (P : A → Type κ) (n : ℕ) (xs : List A) → All P xs → All P (drop n xs)
  All-drop P zero xs h = h
  All-drop P (suc n) [] h = h
  All-drop P (suc n) (x ∷ xs) h = All-drop P n xs h.1

  last-snoc :
      (k : ℕ) (xs : List A) (x : A)
      → k ≤ length xs
      → last (suc k) (xs ++ (x ∷ [])) ≡ last k xs ++ (x ∷ [])
  last-snoc k xs x h =
      ap (λ n. drop n (xs ++ (x ∷ []))) (omega (arith, length-append xs (x ∷ [])))
      ∙ drop-append (length xs - k) xs (x ∷ []) (omega arith)

  pub last-last : (m n : ℕ) (xs : List A) → last m (last n xs) ≡ last (min m n) xs
  last-last m n xs =
      drop-drop (length (last n xs) - m) (length xs - n) xs
      ∙ ap (λ k. drop k xs) (omega (arith, length-drop (length xs - n) xs))

  drop_all : (n : ℕ) (xs : List A) → length xs ≤ n → drop n xs ≡ []
  drop_all zero [] h = refl
  drop_all (suc n) [] h = refl
  drop_all zero (x ∷ xs) h = absurd (omega arith)
  drop_all (suc n) (x ∷ xs) h = drop_all n xs (omega arith)

  pub last_zero : (n : ℕ) (xs : List A) → n ≡ 0 → last n xs ≡ []
  last_zero n xs h = drop_all (length xs - n) xs (omega arith)

  pub last-snoc_add :
      (k : ℕ) (xs : List A) (x : A)
      → k ≤ length xs
      → last (k + 1) (xs ++ (x ∷ [])) ≡ last k xs ++ (x ∷ [])
  last-snoc_add k xs x h = ap (λ n. last n (xs ++ (x ∷ []))) (add_one k) ∙ last-snoc k xs x h

map-drop {ℓ κ} :
    {A : Type ℓ} {B : Type κ} (f : A → B) (n : ℕ) (xs : List A)
    → drop n (map f xs) ≡ map f (drop n xs)
map-drop f zero xs = refl
map-drop f (suc n) [] = refl
map-drop f (suc n) (x ∷ xs) = map-drop f n xs

length-map {ℓ κ} :
    {A : Type ℓ} {B : Type κ} (f : A → B) (xs : List A) → length (map f xs) ≡ length xs
length-map f [] = refl
length-map f (x ∷ xs) = ap suc (length-map f xs)

pub last-map {ℓ κ} :
    {A : Type ℓ} {B : Type κ} (f : A → B) (n : ℕ) (xs : List A)
    → last n (map f xs) ≡ map f (last n xs)
last-map f n xs =
    ap (λ k. drop (k - n) (map f xs)) (length-map f xs) ∙ map-drop f (length xs - n) xs
