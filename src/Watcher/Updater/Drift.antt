-- ===== src/Watcher/Updater/Drift.antt =====
-- Redeploys on a change of the compose files.
use dockward.Prelude.{
  ◌||◌, ℕ, suc, ◌≡◌, ◌≢◌, Bool, true, false, List, [], ◌∷◌, none, some, ◌==◌, arith, if◌then◌else◌,
  beq_refl, or_zero,
}
use dockward.Prelude.Text.{Text, text_eq, text_beq_iff}
use dockward.Prelude.Map.{lookup, lookup-insert, lookup-delete}
use dockward.Config.{Service}
use dockward.Watcher.Effects.{Effect, compose_up}
use dockward.Watcher.State.{Watcher, is_deploying}
use dockward.Watcher.Updater.Poll.{hash, DriftAnswers, check_compose_drift}

-- How often the log has `compose up`.
abbrev is_up : Effect → Bool
is_up (compose_up svc) = true
is_up _ = false

abbrev pub ups : List Effect → ℕ
ups [] = 0
ups (e ∷ es) = let rest = ups es in if is_up e then suc rest else rest

abbrev is_empty : List Text → Bool
is_empty [] = true
is_empty (_ ∷ _) = false

-- A drift check whose files hash to `h` runs `compose up` once if there are compose files and another
-- hash was stored before, and otherwise not at all.
drift_ups :
    (svc : Service) (a : DriftAnswers) (h : Text) (s : Watcher)
    → a.files ≡ hash h
    → let prev = or_zero [] (lookup svc.name s.updater.compose_hashes) in
      ups (check_compose_drift svc a s).1.log ≡ (
        if is_empty svc.compose_files || (prev == [] || prev == h)
        then ups s.log
        else suc (ups s.log))
unfolding check_compose_drift
drift_ups svc a h s files = ground arith

-- A check after a check that saw the same hash does nothing more, whether or not the `compose up` of
-- the first one failed: a redeploy that failed is not tried again until the files change.
drift_not_retried :
    (svc : Service) (a b : DriftAnswers) (h : Text) (s : Watcher)
    → a.files ≡ hash h
    → b.files ≡ hash h
    → let t = (check_compose_drift svc a s).1 in
      ((check_compose_drift svc b t).0 ≡ none) × ((check_compose_drift svc b t).1.log ≡ t.log)
unfolding check_compose_drift
drift_not_retried svc a b h s fa fb = ground (
  arith,
  beq_refl svc.name,
  beq_refl h,
  lookup-insert svc.name svc.name h s.updater.compose_hashes,
)

-- A drift check of a service that is being deployed runs `compose up` all the same, and if that fails
-- it frees the flag which the running deploy holds.
drift_frees_flag :
    (svc : Service) (a : DriftAnswers) (h prev err file : Text) (files : List Text) (s : Watcher)
    → svc.compose_files ≡ file ∷ files
    → is_deploying svc.name s.updater ≡ true
    → a.files ≡ hash h
    → lookup svc.name s.updater.compose_hashes ≡ some prev
    → prev ≢ []
    → prev ≢ h
    → a.up.failure ≡ some err
    → let t = (check_compose_drift svc a s).1 in
      (ups t.log ≡ suc (ups s.log)) × (is_deploying svc.name t.updater ≡ false)
unfolding check_compose_drift
drift_frees_flag svc a h prev err file files s some_files busy fa known p q broken = ground (
  arith,
  beq_refl svc.name,
  text_beq_iff prev [],
  text_beq_iff prev h,
  lookup-delete svc.name svc.name s.updater.deploying,
)
