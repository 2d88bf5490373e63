-- ===== src/Watcher/Updater/Blocked.antt =====
-- After a rollback: its digests are skipped until the registry has another one.
use dockward.Prelude.{
  ℕ, ◌≡◌, ◌≢◌, Bool, List, [], ◌∷◌, some, ◌==◌, arith, if◌then◌else◌, beq_refl, or_zero, All, ◌∙◌,
  ap,
}
use dockward.Prelude.Text.{Text, text_eq, text_beq_iff}
use dockward.Prelude.Map.{lookup, lookup-delete}
use dockward.Config.{Service}
use dockward.Watcher.Effects.{ImageChange}
use dockward.Watcher.State.{Watcher, Updater}
use dockward.Watcher.Updater.{image_key}
use dockward.Watcher.Updater.Deploy.{ComposeResult, rollback}
use dockward.Watcher.Updater.Rollback.{Distinct, block_digests_lem, rollback_updater}
use dockward.Watcher.Updater.Check.{ImageAnswers, digest, skipped, check_image, compare_digests}

skips_blocked :
    (url : Text) (svc : Service) (img bad : Text) (a : ImageAnswers) (s : Watcher)
    → bad ≢ []
    → lookup (image_key svc img) s.updater.blocked ≡ some bad
    → check_image url svc img (record a { remote = digest bad }) s ≡ (skipped, s)
unfolding check_image
skips_blocked url svc img bad a s nonempty h =
    ground (arith, nonempty, text_beq_iff bad [], beq_refl bad)

All-map₂ {ℓ κ} :
    {A : Type ℓ} {P Q R : A → Type κ} (f : (a : A) → P a → Q a → R a) (xs : List A)
    → All P xs
    → All Q xs
    → All R xs
All-map₂ f [] p q = tt
All-map₂ f (x ∷ xs) p q = (f x p.0 q.0, All-map₂ f xs p.1 q.1)

-- After a rollback, whatever else its retagging and compose came to, a check of each rolled-back
-- image whose registry still has the new digest skips the image and changes nothing.
pub rolled_back_skipped :
    (url : Text) (svc : Service) (changed : List ImageChange) (reason out : Text) (retag : ℕ → Bool)
    (up : ComposeResult) (a : ImageAnswers) (s : Watcher)
    → Distinct changed
    → All (λ ch. ch.new_digest ≢ []) changed
    → let t = rollback url svc changed reason out retag up s in
      All
        (λ ch.
          check_image url svc ch.image (record a { remote = digest ch.new_digest }) t
          ≡ (skipped, t))
        changed
rolled_back_skipped url svc changed reason out retag up a s distinct nonempty =
    let t = rollback url svc changed reason out retag up s in
    All-map₂
      (λ ch h k. skips_blocked url svc ch.image ch.new_digest a t h (
        ap (λ (u : Updater). lookup (image_key svc ch.image) u.blocked)
          (rollback_updater url svc changed reason out retag up s)
        ∙ k))
      changed nonempty (block_digests_lem svc changed s distinct)

-- A check whose registry answers with a digest keeps the image blocked just if that is the blocked
-- digest, and otherwise unblocks it.
pub check_image_blocked :
    (url : Text) (svc : Service) (img remote : Text) (a : ImageAnswers) (s : Watcher)
    → remote ≢ []
    → let before = or_zero [] (lookup (image_key svc img) s.updater.blocked) in
      let t = (check_image url svc img (record a { remote = digest remote }) s).1 in
      or_zero [] (lookup (image_key svc img) t.updater.blocked)
      ≡ (if before == remote then before else [])
unfolding check_image compare_digests
check_image_blocked url svc img remote a s nonempty = ground (
  arith,
  nonempty,
  text_beq_iff remote [],
  beq_refl (image_key svc img),
  text_beq_iff (or_zero [] (lookup (image_key svc img) s.updater.blocked)) [],
  text_beq_iff (or_zero [] (lookup (image_key svc img) s.updater.blocked)) remote,
  lookup-delete (image_key svc img) (image_key svc img) s.updater.blocked,
)
