-- ===== src/References/Split.antt =====
-- Where a reference is split into its name and tag.
use mathlib.Core.List.{append_assoc}
use dockward.Prelude.{
  ℕ, suc, ◌+◌, ◌≡◌, refl, ap, true, [], ◌∷◌, ◌++◌, none, some, arith, length, take, drop, nat_eq,
}
use dockward.Prelude.Text.{Text}
use dockward.References.{
  last_index, image_name, image_tag, parse_ref, parse_image_ref, latest, is_free_of,
}

last_index_free : (c : ℕ) (s : Text) → is_free_of c s ≡ true → last_index c s ≡ none
unfolding last_index
last_index_free c [] h = refl
last_index_free c (x ∷ xs) h = ground (arith, last_index_free c xs)

-- The last `c` of `s ++ c ∷ t` is the one written, if `t` has none.
last_index-append :
    (c : ℕ) (s t : Text) → is_free_of c t ≡ true → last_index c (s ++ (c ∷ t)) ≡ some (length s)
unfolding last_index
last_index-append c [] t h = ground (arith, last_index_free c t h)
last_index-append c (x ∷ s) t h = ground (arith, last_index-append c s t h)

take-append : (s t : Text) → take (length s) (s ++ t) ≡ s
take-append [] t = refl
take-append (x ∷ s) t = ap (◌∷◌ x) (take-append s t)

drop-append : (s t : Text) → drop (length s) (s ++ t) ≡ t
drop-append [] t = refl
drop-append (x ∷ s) t = drop-append s t

drop-append_suc : (c : ℕ) (s t : Text) → drop (suc (length s)) (s ++ (c ∷ t)) ≡ t
drop-append_suc c [] t = refl
drop-append_suc c (x ∷ s) t = drop-append_suc c s t

add_one : (n : ℕ) → n + 1 ≡ suc n
add_one n = omega arith

-- A name and a tag without a colon, joined by a colon, are taken apart again by `parseRef` and by
-- `imageName` and `imageTag`, whatever the name.
parse_ref-join :
    (name tag : Text)
    → is_free_of b':' tag ≡ true
    → (parse_ref (name ++ (b':' ∷ tag)) ≡ (name, tag))
      × (image_name (name ++ (b':' ∷ tag)) ≡ name)
      × (image_tag (name ++ (b':' ∷ tag)) ≡ tag)
unfolding parse_ref image_name image_tag
parse_ref-join name tag h = ground (
  arith,
  last_index-append b':' name tag h,
  take-append name (b':' ∷ tag),
  drop-append_suc b':' name tag,
  add_one (length name),
)

is_free_of-append :
    (c : ℕ) (s t : Text)
    → is_free_of c s ≡ true
    → is_free_of c t ≡ true
    → is_free_of c (s ++ t) ≡ true
is_free_of-append c [] t h k = k
is_free_of-append c (x ∷ s) t h k = ground (arith, is_free_of-append c s t)

-- With no colon after the last slash there is no tag.
untagged_after_slash :
    (path name : Text)
    → is_free_of b':' name ≡ true
    → is_free_of b'/' name ≡ true
    → parse_image_ref (path ++ (b'/' ∷ name)) ≡ (path ++ (b'/' ∷ name), latest)
unfolding parse_image_ref
untagged_after_slash path name n slash = ground (
  arith,
  last_index-append b'/' path name slash,
  drop-append path (b'/' ∷ name),
  last_index_free b':' (b'/' ∷ name) n,
)

-- On a reference with a registry port and no tag, `registry:port/name`, `parseImageRef` gives the
-- whole reference and `latest`; `imageName` gives the registry alone, and `imageTag` the rest.
untagged_port_diverges :
    (registry port name : Text)
    → is_free_of b':' port ≡ true
    → is_free_of b':' name ≡ true
    → is_free_of b'/' name ≡ true
    → let image = registry ++ (b':' ∷ port ++ (b'/' ∷ name)) in
      (parse_image_ref image ≡ (image, latest))
      × (image_name image ≡ registry)
      × (image_tag image ≡ port ++ (b'/' ∷ name))
untagged_port_diverges registry port name p n slash =
    let (_, front, back) =
      parse_ref-join registry (port ++ (b'/' ∷ name))
        (is_free_of-append b':' port (b'/' ∷ name) p n) in
    (
      rw (← append_assoc registry (b':' ∷ port) (b'/' ∷ name))
          (untagged_after_slash (registry ++ (b':' ∷ port)) name n slash),
      front,
      back,
    )
