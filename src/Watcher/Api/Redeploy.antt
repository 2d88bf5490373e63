-- ===== src/Watcher/Api/Redeploy.antt =====
-- A forced redeploy and the command that the API shows for it (internal/watcher/api.go), against what
-- internal/compose/compose.go runs.
use mathlib.Core.List.{append_assoc}
use dockward.Prelude.{
  is_some, ℕ, ◌+◌, ◌≡◌, ◌≢◌, ◌⊎◌, refl, sym, ap, ◌∙◌, true, false, List, [], ◌∷◌, ◌++◌, none, arith,
  if◌then◌else◌, ◌==◌, nat_eq, get_or, inl, inr, beq_refl,
}
use dockward.Prelude.Text.{Text, codes, text_eq, text_beq_iff}
use dockward.Watcher.Effects.{Effect, go_verify_after_compose}
use dockward.Prelude.Map.{lookup-insert, insert, lookup-delete}
use dockward.Config.{Service}
use dockward.Config.Validation.{is_project_name}
use dockward.Compose.{System, Command, file_args, up}
use dockward.Compose.Guard.{run-IsSafe, command_of}
use dockward.Compose.Kept.{target_of}
use dockward.Watcher.State.{Watcher, is_deploying}
use dockward.Watcher.Updater.{try_start_deploy, clear_deploying}
use dockward.Watcher.Updater.Deploy.{ComposeResult}
use dockward.Watcher.Updater.Drift.{ups}
use dockward.Watcher.Api.{force_redeploy, dash_f, preview}

-- The services whose compose command the log has started to verify, newest first.
abbrev pub compose_verifications : List Effect → List Service
compose_verifications [] = []
compose_verifications (go_verify_after_compose svc ∷ log) = svc ∷ compose_verifications log
compose_verifications (_ ∷ log) = compose_verifications log

-- A forced redeploy runs `compose up` once, whether or not a deploy of the service is in progress. If
-- that succeeds, the deploy flag is set and the verification of this service is started. If it fails,
-- none is started and the flag is free, also if another deploy held it: a next deploy can start.
pub force_redeploy_lem :
    (svc : Service) (result : ComposeResult) (now later : ℕ) (s : Watcher)
    → let t = force_redeploy svc result now s in
      (ups t.log ≡ ups s.log + 1)
      × (((result.failure ≡ none)
            × (is_deploying svc.name t.updater ≡ true)
            × (compose_verifications t.log ≡ svc ∷ compose_verifications s.log))
          ⊎ ((is_some result.failure ≡ true)
              × (is_deploying svc.name t.updater ≡ false)
              × (compose_verifications t.log ≡ compose_verifications s.log)
              × ((try_start_deploy svc.name later t).0 ≡ true)))
unfolding force_redeploy try_start_deploy clear_deploying
force_redeploy_lem svc result now later s = ground (
  arith,
  beq_refl svc.name,
  lookup-insert svc.name svc.name now s.updater.deploying,
  lookup-delete svc.name svc.name s.updater.deploying,
  lookup-delete svc.name svc.name (insert svc.name now s.updater.deploying),
)

-- Words with a blank before each, and a command line.
abbrev spaced : List Text → Text
spaced [] = []
spaced (w ∷ ws) = codes " " ++ w ++ spaced ws

abbrev pub command_line : Command → Text
command_line c = c.program ++ spaced c.args

abbrev pub env_note : Service → Text
env_note svc =
    if svc.env_file == [] then [] else codes " # (with env from " ++ svc.env_file ++ codes ")"

spaced-file_args :
    (files args : List Text) → spaced (file_args files ++ args) ≡ dash_f files ++ spaced args
spaced-file_args [] args = refl
spaced-file_args (f ∷ files) args = simp (spaced-file_args files args, append_assoc)

nonempty_test : (s : Text) → s ≢ [] → (s == []) ≡ false
nonempty_test s h = ground (arith, text_beq_iff s [])

preview-command_of :
    (runtime : Text) (svc : Service) (env : List Text)
    → runtime ≢ []
    → svc.compose_project ≢ []
    → preview runtime svc
      ≡ command_line (command_of (target_of runtime svc) (codes "up") (codes "-d" ∷ []) env)
        ++ env_note svc
unfolding preview
preview-command_of runtime svc env named project =
    rw (nonempty_test runtime named, nonempty_test svc.compose_project project)
      (simp (spaced-file_args svc.compose_files, append_assoc))

runtime_nonempty :
    (runtime : Text) → (runtime ≡ codes "docker") ⊎ (runtime ≡ codes "podman") → runtime ≢ []
runtime_nonempty runtime (inl docker) e = cc
runtime_nonempty runtime (inr podman) e = cc

project_nonempty : (name : Text) → is_project_name name ≡ true → name ≢ []
unfolding is_project_name
project_nonempty name h e = ground (arith, h, text_beq_iff name [])

-- What the preview shows for a service is what `compose.Up` runs for it, with a note if there is an
-- environment file.
pub preview-up :
    (s : System) (runtime : Text) (svc : Service) (c : Command)
    → (up s (target_of runtime svc)).ran ≡ c ∷ []
    → preview runtime svc ≡ command_line c ++ env_note svc
unfolding up
preview-up s runtime svc c ran =
    elim (run-IsSafe s (target_of runtime svc) (codes "up") (codes "-d" ∷ [])) [
      | inl (_, nothing, _) ↦ absurd (cc (ran, nothing))
      | inr ((known, project, _, _, _), (env, _, one)) ↦
          preview-command_of runtime svc env (runtime_nonempty runtime known)
            (project_nonempty svc.compose_project project)
          ∙ ap (λ d. command_line d ++ env_note svc) (ap (λ l. get_or l 0 c) (sym one ∙ ran))
    ]
