-- ===== src/Watcher/Updater/Restored.antt =====
-- What a rollback does to the world: it recreates the containers unless an image could not be tagged under
-- its name in the registry.
use dockward.Prelude.{
  ℕ, suc, ◌+◌, ◌≡◌, refl, ◌∙◌, ap, Bool, true, false, not, ◌||◌, List, [], ◌∷◌, some, arith,
  if◌then◌else◌, or_zero, beq_refl,
}
use dockward.Prelude.Text.{Text, text_eq}
use dockward.Prelude.Map.{Map, insert, lookup, lookup-insert}
use dockward.Config.{Service}
use dockward.Watcher.Effects.{ImageChange}
use dockward.Watcher.Metrics.{
  Metrics, inc_rollbacks, inc_failures, set_healthy, set_blocked, increment, lookup-increment,
}
use dockward.Watcher.State.{Watcher, on_metrics}
use dockward.Watcher.Updater.Deploy.{
  ComposeResult, block_digests, retag_all, cleanup_rollbacks, restore_images, rollback,
}
use dockward.Watcher.Updater.Drift.{ups}

-- Of the changes from index `i`, some image could not be tagged under its name in the registry, which is
-- what `tagFailed` tells in the source.
abbrev pub some_failed : (ℕ → Bool) → ℕ → List ImageChange → Bool
some_failed retag i [] = false
some_failed retag i (ch ∷ changed) = not (retag i) || some_failed retag (suc i) changed

retag_all_lem :
    (url : Text) (retag : ℕ → Bool) (i : ℕ) (changed : List ImageChange) (failed : Bool)
    (s : Watcher)
    → let (bad, t) = retag_all url retag i changed failed s in
      (bad ≡ (failed || some_failed retag i changed))
      × (ups t.log ≡ ups s.log)
      × (t.metrics ≡ s.metrics)
unfolding retag_all
retag_all_lem url retag i [] failed s = (ground arith, refl, refl)
retag_all_lem url retag i (ch ∷ changed) failed s =
    let (bad, same, metrics) =
      retag_all_lem url retag (suc i) changed (failed || not (retag i)) _ in
    (bad ∙ ground arith, same ∙ ground arith, metrics ∙ ground arith)

cleanup_rollbacks_lem :
    (url : Text) (changed : List ImageChange) (s : Watcher)
    → (ups (cleanup_rollbacks url changed s).log ≡ ups s.log)
      × ((cleanup_rollbacks url changed s).metrics ≡ s.metrics)
unfolding cleanup_rollbacks
cleanup_rollbacks_lem url [] s = (refl, refl)
cleanup_rollbacks_lem url (ch ∷ changed) s = cleanup_rollbacks_lem url changed _

block_digests-others :
    (svc : Service) (changed : List ImageChange) (s : Watcher)
    → ((block_digests svc changed s).log ≡ s.log)
      × ((block_digests svc changed s).metrics ≡ s.metrics)
unfolding block_digests
block_digests-others svc [] s = (refl, refl)
block_digests-others svc (ch ∷ changed) s = block_digests-others svc changed _

-- `restore_images` runs compose up once, or not at all if a tag failed.
restore_images-ups :
    (url : Text) (svc : Service) (changed : List ImageChange) (reason out : Text) (retag : ℕ → Bool)
    (up : ComposeResult) (s : Watcher)
    → let t = restore_images url svc changed reason out retag up s in
      (ups t.log ≡ (if some_failed retag 0 changed then ups s.log else suc (ups s.log)))
      × (t.metrics.rollbacks ≡ s.metrics.rollbacks)
      × (t.metrics.service_blocked ≡ s.metrics.service_blocked)
unfolding restore_images inc_failures
restore_images-ups url svc changed reason out retag up s =
    grind (arith, retag_all_lem, cleanup_rollbacks_lem)

counted :
    (name : Text) (m : Map Text ℕ)
    → or_zero 0 (lookup name (increment name m)) ≡ or_zero 0 (lookup name m) + 1
counted name m = ground (arith, lookup-increment name name m, beq_refl name)

stored : (name : Text) (m : Map Text Bool) → lookup name (insert name true m) ≡ some true
stored name m = ground (arith, lookup-insert name name true m, beq_refl name)

-- A rollback runs `compose up` once if each image could be tagged again under its name in the registry,
-- which is the second `TagImage` of the loop in the source, and otherwise not at all. Either way it counts
-- one more rollback of the service, and shows the service as blocked.
pub rollback_lem :
    (url : Text) (svc : Service) (changed : List ImageChange) (reason out : Text) (retag : ℕ → Bool)
    (up : ComposeResult) (s : Watcher)
    → let t = rollback url svc changed reason out retag up s in
      (ups t.log ≡ (if some_failed retag 0 changed then ups s.log else suc (ups s.log)))
      × (or_zero 0 (lookup svc.name t.metrics.rollbacks)
          ≡ or_zero 0 (lookup svc.name s.metrics.rollbacks) + 1)
      × (lookup svc.name t.metrics.service_blocked ≡ some true)
unfolding rollback inc_rollbacks set_healthy set_blocked
rollback_lem url svc changed reason out retag up s =
    let s1 = on_metrics (set_healthy svc.name false) (on_metrics (inc_rollbacks svc.name) s) in
    let s2 = on_metrics (set_blocked svc.name true) (block_digests svc changed s1) in
    let (runs, counts, blocked) = restore_images-ups url svc changed reason out retag up s2 in
    let (log, metrics) = block_digests-others svc changed s1 in
    (
      runs ∙ ap (λ l. if some_failed retag 0 changed then ups l else suc (ups l)) log,
      ap (λ m. or_zero 0 (lookup svc.name m)) counts
          ∙ ap (λ (m : Metrics). or_zero 0 (lookup svc.name m.rollbacks)) metrics
          ∙ counted svc.name s.metrics.rollbacks,
      ap (lookup svc.name) blocked
          ∙ stored svc.name (block_digests svc changed s1).metrics.service_blocked,
    )
