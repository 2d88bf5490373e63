-- ===== src/References.antt =====
-- Image references: `imageName`, `imageTag`, `registryHost` and `shortDigest` of
-- internal/watcher/updater.go, `parseRef` of internal/registry/registry.go, and `parseImageRef` and
-- `LocalDigest` of internal/docker/images.go.
pub mod Split
mod Tests
use dockward.Prelude.{
  ℕ, zero, suc, ◌+◌, ◌<◌, ◌≡◌, refl, Bool, true, false, not, List, [], ◌∷◌, ◌++◌, Option, none,
  some, ◌==◌, arith, if◌then◌else◌, ltb, length, take, drop, nat_eq, any_of, reverse,
}
use dockward.Prelude.Text.{Text, text_eq, codes, has_prefix}

-- `strings.LastIndex(s, c)` and `strings.Index(s, c)` for one byte; none is -1.
unfoldable pub last_index : ℕ → Text → Option ℕ
last_index c [] = none
last_index c (x ∷ xs) = elim (last_index c xs) [
  | some i ↦ some (suc i)
  | none ↦ if x == c then some 0 else none
]

unfoldable pub index : ℕ → Text → Option ℕ
index c [] = none
index c (x ∷ xs) = elim (x == c) [
  | true ↦ some 0
  | false ↦ elim (index c xs) [ none ↦ none | some i ↦ some (suc i) ]
]

abbrev pub latest : Text
latest = codes "latest"

unfoldable pub image_name : Text → Text
image_name image = elim (last_index b':' image) [ none ↦ image | some idx ↦ take idx image ]

unfoldable pub image_tag : Text → Text
image_tag image = elim (last_index b':' image) [ none ↦ latest | some idx ↦ drop (idx + 1) image ]

-- `parseRef` of the registry client.
unfoldable pub parse_ref : Text → Text × Text
parse_ref image = elim (last_index b':' image) [
  | none ↦ (image, latest)
  | some idx ↦ (take idx image, drop (idx + 1) image)
]

-- `parseImageRef` of the Docker client, which looks for the colon after the last slash.
unfoldable pub parse_image_ref : Text → Text × Text
parse_image_ref image = elim (last_index b'/' image) [
  | none ↦ elim (last_index b':' image) [
    | none ↦ (image, latest)
    | some idx ↦ (take idx image, drop (idx + 1) image)
  ]
  | some slash ↦ elim (last_index b':' (drop slash image)) [
    | none ↦ (image, latest)
    | some idx ↦ (take (slash + idx) image, drop (slash + idx + 1) image)
  ]
]

-- `strings.TrimPrefix` and `strings.TrimRight(s, "/")`.
abbrev pub trim_prefix : Text → Text → Text
trim_prefix s p = if has_prefix s p then drop (length p) s else s

unfoldable pub trim_right : ℕ → Text → Text
trim_right c [] = []
trim_right c (x ∷ xs) = elim (trim_right c xs) [
  | [] ↦ if x == c then [] else x ∷ []
  | y ∷ ys ↦ x ∷ y ∷ ys
]

unfoldable pub registry_host : Text → Text
unfolding has_prefix
registry_host url =
    trim_right b'/' (trim_prefix (trim_prefix url (codes "http://")) (codes "https://"))

unfoldable pub short_digest : Text → Text
short_digest d = if ltb 19 (length d) then take 19 d else d

-- `LocalDigest`: what follows the `@` in the first repository digest that has the prefix and an `@`.
unfoldable pub local_digest : List Text → Text → Text
local_digest [] prefix = []
local_digest (d ∷ ds) prefix =
    let rest = local_digest ds prefix in
    if has_prefix d prefix
    then elim (index b'@' d) [ none ↦ rest | some idx ↦ drop (idx + 1) d ]
    else rest

-- No byte of the text is `c`.
abbrev pub is_free_of : ℕ → Text → Bool
is_free_of c [] = true
is_free_of c (x ∷ xs) = let rest = is_free_of c xs in if x == c then false else rest
