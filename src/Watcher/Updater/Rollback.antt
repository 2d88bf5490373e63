-- ===== src/Watcher/Updater/Rollback.antt =====
-- What a rollback leaves behind: the bad digests are blocked, and the next poll skips them.
use dockward.Prelude.{
  ℕ, suc, ◌≡◌, ◌≢◌, refl, Bool, not, ◌||◌, List, [], ◌∷◌, ◌++◌, some, arith, beq_refl, All, ◌∙◌, ap,
}
use dockward.Prelude.Text.{Text, text_eq, text_beq_iff}
use dockward.Prelude.Map.{lookup, insert, lookup-insert}
use dockward.Config.{Service}
use dockward.Watcher.Effects.{ImageChange}
use dockward.Watcher.State.{Watcher, Updater}
use dockward.Watcher.Updater.{image_key, on_updater}
use dockward.Watcher.Updater.Deploy.{
  ComposeResult, block_digests, retag_all, cleanup_rollbacks, rollback, restore_images,
}

-- No image stands twice among the changes; `check_images` makes one change for each image.
abbrev pub Distinct : List ImageChange → Type 0
Distinct [] = Unit {0}
Distinct (ch ∷ changed) = All (λ other. other.image ≢ ch.image) changed × Distinct changed

image_key_injective : (svc : Service) (a b : Text) → image_key svc a ≡ image_key svc b → a ≡ b
unfolding image_key
image_key_injective svc a b e = append_cancel svc.name a b e
  where
    append_cancel : (p a b : Text) → p ++ (b'/' ∷ a) ≡ p ++ (b'/' ∷ b) → a ≡ b
    append_cancel [] a b e = cc
    append_cancel (c ∷ p) a b e = append_cancel p a b (cc)

block_digests_keeps :
    (svc : Service) (image : Text) (changed : List ImageChange) (s : Watcher)
    → All (λ other. other.image ≢ image) changed
    → lookup (image_key svc image) (block_digests svc changed s).updater.blocked
      ≡ lookup (image_key svc image) s.updater.blocked
unfolding block_digests
block_digests_keeps svc image [] s h = refl
block_digests_keeps svc image (ch ∷ changed) s h = ground (
  arith,
  block_digests_keeps svc image changed (
      on_updater
        (λ u. record u { blocked = insert (image_key svc ch.image) ch.new_digest u.blocked }) s),
  h.0,
  image_key_injective svc ch.image image,
  text_beq_iff (image_key svc ch.image) (image_key svc image),
  lookup-insert (image_key svc image) (image_key svc ch.image) ch.new_digest s.updater.blocked,
)

pub block_digests_lem :
    (svc : Service) (changed : List ImageChange) (s : Watcher)
    → Distinct changed
    → All
        (λ ch.
          lookup (image_key svc ch.image) (block_digests svc changed s).updater.blocked
          ≡ some ch.new_digest)
        changed
unfolding block_digests
block_digests_lem svc [] s h = tt
block_digests_lem svc (ch ∷ changed) s h =
    let s' =
      on_updater
        (λ u. record u { blocked = insert (image_key svc ch.image) ch.new_digest u.blocked }) s in
    (
      ground (
        arith,
        block_digests_keeps svc ch.image changed s' h.0,
        beq_refl (image_key svc ch.image),
        lookup-insert (image_key svc ch.image) (image_key svc ch.image) ch.new_digest
            s.updater.blocked,
      ),
      block_digests_lem svc changed s' h.1,
    )

-- Nothing after the blocking touches the map.
pub retag_all_keeps :
    (url : Text) (retag : ℕ → Bool) (i : ℕ) (changed : List ImageChange) (failed : Bool)
    (s : Watcher)
    → (retag_all url retag i changed failed s).1.updater ≡ s.updater
unfolding retag_all
retag_all_keeps url retag i [] failed s = refl
retag_all_keeps url retag i (ch ∷ changed) failed s =
    retag_all_keeps url retag (suc i) changed (failed || not (retag i)) _ ∙ ground arith

pub cleanup_rollbacks_keeps :
    (url : Text) (changed : List ImageChange) (s : Watcher)
    → (cleanup_rollbacks url changed s).updater ≡ s.updater
unfolding cleanup_rollbacks
cleanup_rollbacks_keeps url [] s = refl
cleanup_rollbacks_keeps url (ch ∷ changed) s = cleanup_rollbacks_keeps url changed _

block_digests-of_updater :
    (svc : Service) (changed : List ImageChange) (s t : Watcher)
    → s.updater ≡ t.updater
    → (block_digests svc changed s).updater ≡ (block_digests svc changed t).updater
unfolding block_digests
block_digests-of_updater svc [] s t h = h
block_digests-of_updater svc (ch ∷ changed) s t h = block_digests-of_updater svc changed _ _ (
    ap
      (λ (u : Updater). record u {
        blocked = insert (image_key svc ch.image) ch.new_digest u.blocked;
      })
      h)

restore_images_keeps :
    (url : Text) (svc : Service) (changed : List ImageChange) (reason out : Text) (retag : ℕ → Bool)
    (up : ComposeResult) (s : Watcher)
    → (restore_images url svc changed reason out retag up s).updater ≡ s.updater
unfolding restore_images
restore_images_keeps url svc changed reason out retag up s =
    grind (arith, retag_all_keeps, cleanup_rollbacks_keeps)

-- `rollback` changes the updater's maps by the blocking alone.
pub rollback_updater :
    (url : Text) (svc : Service) (changed : List ImageChange) (reason out : Text) (retag : ℕ → Bool)
    (up : ComposeResult) (s : Watcher)
    → (rollback url svc changed reason out retag up s).updater
      ≡ (block_digests svc changed s).updater
unfolding rollback
rollback_updater url svc changed reason out retag up s =
    restore_images_keeps url svc changed reason out retag up _
    ∙ block_digests-of_updater svc changed _ s refl
