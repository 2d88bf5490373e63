-- ===== src/Watcher/Healer/Tests.antt =====
-- Runs of the healer on one service.
use dockward.Prelude.{
  ℕ, ◌+◌, ◌*◌, ◌≡◌, ◌⊎◌, refl, true, false, List, [], ◌∷◌, none, some, inr, All, ◌++◌, arith,
}
use dockward.Prelude.Int.{second}
use dockward.Prelude.Text.{Text, codes, text_eq, text_beq, has_prefix}
use dockward.Prelude.Map.{lookup, insert}
use dockward.Docker.{Event}
use dockward.Config.{Service}
use dockward.Watcher.Samples.{web, db, sick}
use dockward.Watcher.State.{Watcher, new_watcher}
use dockward.Watcher.Healer.{
  is_degraded, is_exhausted, restart_count, in_cooldown, handle_unhealthy, handle_healthy,
  verify_after_restart, still_failing, report, audit, restart, set_degraded,
}
use dockward.Watcher.Healer.Events.{
  Answers, Stimulus, docker_event, restart_checked, step, run, handle_event, dispatch, concerns,
  find_service_by_event,
}
use dockward.Watcher.Healer.Invariant.{exhausted_is_degraded}
use dockward.Watcher.Healer.Restarts.{restarts_in, restarted, handle_unhealthy_restarts}
use dockward.Watcher.Healer.Cooldown.{cooldown_holds}
use dockward.Watcher.Healer.Recovery.{healthy_rearms, all_failing, gives_up}
use dockward.Watcher.Healer.Isolation.{Same, handle_event_isolated}

abbrev start : Watcher
start = new_watcher 0

abbrev container : Text
container = codes "web-1"

abbrev cid : Text
cid = codes "c1"

abbrev at : ℕ → Answers
at now = record { inspected = some sick; failure = none; now = now; later = now + 1 }

abbrev event_of : Text → Event
event_of action = record {
  action = action;
  id = cid;
  attributes = (codes "name", container) ∷ (codes "com.docker.compose.project", codes "web") ∷ [];
}

abbrev unhealthy_at : ℕ → Stimulus
unhealthy_at now = docker_event (event_of (codes "health_status: unhealthy")) (at now)

abbrev failed_check : Stimulus
failed_check = restart_checked web container [] false (some sick)

-- Two restarts that did not help, then a third unhealthy event.
abbrev worn_out : List Stimulus
worn_out =
    unhealthy_at 1
    ∷ failed_check
    ∷ unhealthy_at (400 * second)
    ∷ failed_check
    ∷ unhealthy_at (800 * second)
    ∷ []

two_restarts : restarts_in (run (db ∷ web ∷ []) worn_out start).log ≡ 2
unfolding run step handle_event dispatch concerns find_service_by_event lookup insert has_prefix
    text_beq handle_unhealthy verify_after_restart still_failing report audit restart set_degraded
    in_cooldown new_watcher
two_restarts = refl

handle_unhealthy_restarts_example :
    restarted (handle_unhealthy web container cid (some sick) none 5 6 start).log ≡ cid ∷ []
unfolding new_watcher lookup in_cooldown
handle_unhealthy_restarts_example =
    handle_unhealthy_restarts web container cid (some sick) none 5 6 start

cooldown_holds_example :
    let s =
      run
        (web ∷ [])
        (failed_check ∷ unhealthy_at second ∷ [])
        (handle_unhealthy web container cid (some sick) none 5 6 start) in
    restarts_in (handle_unhealthy web container cid none none (300 * second) (301 * second) s).log
    ≡ restarts_in s.log
unfolding new_watcher lookup in_cooldown has_prefix
cooldown_holds_example =
    cooldown_holds web web container cid cid (some sick) none none 5 6 (300 * second) (301 * second)
      (web ∷ []) (failed_check ∷ unhealthy_at second ∷ []) start refl
      (tt, (inr (refl, omega arith), tt)) (omega arith)

exhausted_is_degraded_example :
    is_degraded (codes "web") (run (web ∷ []) worn_out start).healer ≡ true
unfolding run step handle_event dispatch concerns find_service_by_event lookup insert has_prefix
    text_beq handle_unhealthy verify_after_restart still_failing report audit restart set_degraded
    in_cooldown new_watcher
exhausted_is_degraded_example = exhausted_is_degraded (web ∷ []) worn_out 0 (codes "web") refl

healthy_rearms_example :
    let h = (handle_healthy web container (run (web ∷ []) worn_out start)).healer in
    (is_exhausted (codes "web") h ≡ false)
    × (is_degraded (codes "web") h ≡ false)
    × (restart_count (codes "web") h ≡ 0)
unfolding run step handle_event dispatch concerns find_service_by_event lookup insert has_prefix
    text_beq handle_unhealthy verify_after_restart still_failing report audit restart set_degraded
    in_cooldown new_watcher
healthy_rearms_example = healthy_rearms (web ∷ []) worn_out 0 web container refl

gives_up_example :
    let s = all_failing web container [] (sick ∷ sick ∷ []) start in
    restarts_in (handle_unhealthy web container cid none none 5 6 s).log ≡ restarts_in s.log
unfolding text_beq
gives_up_example =
    gives_up web container [] cid (sick ∷ sick ∷ []) none none 5 6 start (refl, (refl, tt)) refl

handle_event_isolated_example :
    Same
      (codes "db")
      start.healer
      (handle_event (web ∷ db ∷ []) (event_of (codes "die")) (at (20 * second)) start).healer
    ⊎ ((svc : Service) × (before after : List Service) × (web ∷ db ∷ [] ≡ before ++ (svc ∷ after))
        × All (λ t. concerns (event_of (codes "die")) t ≡ false) before
        × (concerns (event_of (codes "die")) svc ≡ true)
        × (svc.name ≡ codes "db"))
handle_event_isolated_example =
    handle_event_isolated (web ∷ db ∷ []) (event_of (codes "die")) (at (20 * second)) start
      (codes "db")
