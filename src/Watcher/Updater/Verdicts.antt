-- ===== src/Watcher/Updater/Verdicts.antt =====
-- When the verification of a deploy ends, and how.
use dockward.Prelude.{
  ℕ, ◌<◌, ◌≡◌, ◌≢◌, ◌⊎◌, refl, true, false, List, [], ◌∷◌, ◌++◌, none, some, arith, ltb, inl, inr,
  is_some, All, any_of, beq_refl, Option-cases,
}
use dockward.Prelude.Int.{add_seconds}
use dockward.Prelude.Text.{Text, text_eq, codes}
use dockward.Prelude.Map.{lookup-delete}
use dockward.Docker.{ContainerInspect, last_health_output, health_is}
use dockward.Config.{Service}
use dockward.Watcher.Effects.{ImageChange}
use dockward.Watcher.State.{Watcher, is_deploying, on_metrics}
use dockward.Watcher.Metrics.{set_healthy}
use dockward.Watcher.Updater.{clear_deploying}
use dockward.Watcher.Updater.Verify.{
  seen, Tick, Verdict, keep_polling, succeeded, failed, judge, first_verdict, RollbackAnswers,
  verify_after_deploy, judge_health, verify_health_after_compose,
}

-- A round after the deadline decides.
judge_late :
    (deadline : ℕ) (t : Tick) → ltb deadline t.now ≡ true → (judge deadline t ≡ keep_polling) → ⊥
unfolding judge
judge_late deadline t late k = ground arith

flag_cleared :
    (name : Text) (s : Watcher) → is_deploying name (clear_deploying name s).updater ≡ false
unfolding clear_deploying
flag_cleared name s = ground (arith, beq_refl name, lookup-delete name name s.updater.deploying)

first_verdict_late :
    (deadline : ℕ) (ts : List Tick)
    → any_of (λ t. ltb deadline t.now) ts ≡ true
    → is_some (first_verdict deadline ts) ≡ true
unfolding first_verdict
first_verdict_late deadline [] h = cc
first_verdict_late deadline (t ∷ ts) h =
    ground (arith, judge_late deadline t, first_verdict_late deadline ts)

judge_health_late :
    (deadline : ℕ) (t : Tick) → ltb deadline t.now ≡ true → is_some (judge_health deadline t) ≡ true
unfolding judge_health
judge_health_late deadline t late = ground arith

compose_verification_ends :
    (svc : Service) (started : ℕ) (ticks : List Tick) (s : Watcher)
    → any_of (λ t. ltb (add_seconds started svc.health_grace) t.now) ticks ≡ true
    → (t : Watcher) × (verify_health_after_compose svc started ticks s ≡ some t)
      × (is_deploying svc.name t.updater ≡ false)
unfolding verify_health_after_compose
compose_verification_ends svc started [] s h = cc
compose_verification_ends svc started (t ∷ ts) s h =
    let deadline = add_seconds started svc.health_grace in
    elim (Option-cases (judge_health deadline t)) [
      | inl more ↦
          rw (more, verify_health_after_compose)
            (compose_verification_ends svc started ts s
              (ground (arith, judge_health_late deadline t)))
      | inr (none, end) ↦
          rw (end, verify_health_after_compose)
            (clear_deploying svc.name s, refl, flag_cleared svc.name s)
      | inr (some healthy, end) ↦
          let s' = on_metrics (set_healthy svc.name healthy) s in
          rw (end, verify_health_after_compose)
            (clear_deploying svc.name s', refl, flag_cleared svc.name s')
    ]

-- The verification of a deploy and that of another compose command return if their clock passes the
-- grace period: with any ticks of which one is after the deadline, they have ended. The second has
-- then freed the deploy flag of the service.
pub verification_ends :
    (url : Text) (svc : Service) (changed : List ImageChange) (out : Text) (a : RollbackAnswers)
    (started : ℕ) (ticks : List Tick) (s : Watcher)
    → any_of (λ t. ltb (add_seconds started svc.health_grace) t.now) ticks ≡ true
    → (is_some (verify_after_deploy url svc changed out a started ticks s) ≡ true)
      × ((t : Watcher) × (verify_health_after_compose svc started ticks s ≡ some t)
          × (is_deploying svc.name t.updater ≡ false))
unfolding verify_after_deploy
verification_ends url svc changed out a started ticks s late = (
  ground (arith, first_verdict_late (add_seconds started svc.health_grace) ticks late),
  compose_verification_ends svc started ticks s late,
)

-- The rounds before the first that decides, that round, and those it leaves out.
abbrev pub Decides : ℕ → List Tick → Verdict → Type 0
Decides deadline ts v =
    (before after : List Tick) × (t : Tick) × (ts ≡ before ++ (t ∷ after))
    × All (λ u. judge deadline u ≡ keep_polling) before
    × (judge deadline t ≡ v)
    × (v ≢ keep_polling)

-- A deploy is judged a failure before its deadline only if the container reports `unhealthy`.
no_early_failure :
    (deadline : ℕ) (t : Tick) (reason : Text)
    → judge deadline t ≡ failed reason
    → (deadline < t.now)
      ⊎ ((info : ContainerInspect) × (t.inspection ≡ seen info)
          × (health_is info (codes "unhealthy") ≡ true)
          × (reason ≡ last_health_output info))
unfolding judge
no_early_failure deadline t reason h = ground arith

-- A success means that the container runs without a health check, or reports `healthy`.
success_is_healthy :
    (deadline : ℕ) (t : Tick) (info : ContainerInspect)
    → judge deadline t ≡ succeeded info
    → (t.cancelled ≡ false)
      × (t.inspection ≡ seen info)
      × (((info.state.running ≡ true) × (info.state.health ≡ none))
          ⊎ (health_is info (codes "healthy") ≡ true))
unfolding judge
success_is_healthy deadline t info h = ground arith
