-- ===== src/Watcher/Healer/Isolation.antt =====
-- The handlers leave the other services alone, and events reach a configured service.
use dockward.Prelude.{
  ◌==◌, ℕ, ◌+◌, ◌≡◌, ◌≢◌, ◌⊎◌, ap, refl, Bool, true, false, List, [], ◌∷◌, ◌++◌, Option, some,
  arith, Option-cases, inl, inr, All, Bool-cases,
}
use dockward.Prelude.Text.{Text, text_eq, text_beq_iff}
use dockward.Prelude.Map.{lookup-insert, lookup-delete}
use dockward.Docker.{ContainerInspect, Event, event_container_name}
use dockward.Config.{Service}
use dockward.Watcher.State.{Healer, Watcher}
use dockward.Watcher.Healer.{
  is_degraded, is_exhausted, restart_count, handle_unhealthy, verify_after_restart, handle_healthy,
  handle_died, handle_started,
}
use dockward.Watcher.Healer.Events.{
  Answers, concerns, find_service_by_event, dispatch, handle_event,
}

-- What the healer knows of a service.
abbrev pub Same : Text → Healer → Healer → Type 0
Same name h k =
    (is_degraded name k ≡ is_degraded name h)
    × (is_exhausted name k ≡ is_exhausted name h)
    × (restart_count name k ≡ restart_count name h)

module _ (svc : Service) (name : Text) (s : Watcher) (other : svc.name ≢ name) where
  handle_unhealthy-Same :
      (container id : Text) (inspected : Option ContainerInspect) (failure : Option Text)
      (now later : ℕ)
      → Same name s.healer (handle_unhealthy svc container id inspected failure now later s).healer
  unfolding handle_unhealthy
  handle_unhealthy-Same container id inspected failure now later = ground (
    arith,
    text_beq_iff svc.name name,
    lookup-insert name svc.name true s.healer.degraded,
    lookup-insert name svc.name true s.healer.exhausted,
  )

  handle_healthy-Same :
      (container : Text) → Same name s.healer (handle_healthy svc container s).healer
  unfolding handle_healthy
  handle_healthy-Same container = ground (
    arith,
    text_beq_iff svc.name name,
    lookup-delete name svc.name s.healer.degraded,
    lookup-delete name svc.name s.healer.exhausted,
    lookup-delete name svc.name s.healer.restart_counts,
  )

  handle_died-Same :
      (container : Text) (now : ℕ) → Same name s.healer (handle_died svc container now s).healer
  unfolding handle_died
  handle_died-Same container now =
      ground (arith, text_beq_iff svc.name name, lookup-insert name svc.name true s.healer.degraded)

  handle_started-Same :
      (container : Text) (inspected : Option ContainerInspect)
      → Same name s.healer (handle_started svc container inspected s).healer
  unfolding handle_started
  handle_started-Same container inspected = ground (
    arith,
    text_beq_iff svc.name name,
    lookup-delete name svc.name s.healer.degraded,
    lookup-delete name svc.name s.healer.exhausted,
    lookup-delete name svc.name s.healer.restart_counts,
  )

  verify_after_restart-Same :
      (container reason : Text) (cancelled : Bool) (inspected : Option ContainerInspect)
      → Same name s.healer (verify_after_restart svc container reason cancelled inspected s).healer
  unfolding verify_after_restart
  verify_after_restart-Same container reason cancelled inspected = ground (
    arith,
    text_beq_iff svc.name name,
    lookup-delete name svc.name s.healer.degraded,
    lookup-delete name svc.name s.healer.exhausted,
    lookup-delete name svc.name s.healer.restart_counts,
    lookup-insert name svc.name (restart_count svc.name s.healer + 1) s.healer.restart_counts,
  )

  dispatch-Same : (e : Event) (a : Answers) → Same name s.healer (dispatch svc e a s).healer
  unfolding dispatch
  dispatch-Same e a =
      let c = event_container_name e in
      ground (
        arith,
        handle_unhealthy-Same c e.id a.inspected a.failure a.now a.later,
        handle_healthy-Same c,
        handle_died-Same c a.now,
        handle_started-Same c a.inspected,
      )

other_of_test : (svc : Service) (name : Text) → (svc.name == name) ≡ false → svc.name ≢ name
other_of_test svc name h e = cc (h, (text_beq_iff svc.name name).1 e)

-- The loop returns the first service that is not silent and matches by project or by name.
find_first :
    (services : List Service) (e : Event) {svc : Service}
    → find_service_by_event services e ≡ some svc
    → (before after : List Service) × (services ≡ before ++ (svc ∷ after))
      × All (λ t. concerns e t ≡ false) before
      × (concerns e svc ≡ true)
unfolding find_service_by_event
find_first [] e h = cc
find_first (t ∷ services) e {svc} h = elim (Bool-cases (concerns e t)) [
  | inl here ↦ ([], services, ground arith, tt, ground arith)
  | inr later ↦
      let (before, after, split, passed, hit) =
        find_first services e (rw (later, find_service_by_event) at h) in
      (t ∷ before, after, ap (◌∷◌ t) split, (later, passed), hit)
]

-- An event changes what the healer knows of a service only if that has the name of the first service
-- in the configuration that is not silent and has the event's compose project or container name.
pub handle_event_isolated :
    (services : List Service) (e : Event) (a : Answers) (s : Watcher) (name : Text)
    → Same name s.healer (handle_event services e a s).healer
      ⊎ ((svc : Service) × (before after : List Service) × (services ≡ before ++ (svc ∷ after))
          × All (λ t. concerns e t ≡ false) before
          × (concerns e svc ≡ true)
          × (svc.name ≡ name))
unfolding handle_event
handle_event_isolated services e a s name = elim (Option-cases (find_service_by_event services e)) [
  | inl miss ↦ inl (rw (miss, handle_event) (refl, refl, refl))
  | inr (svc, hit) ↦ elim (Bool-cases (svc.name == name)) [
    | inl same ↦
        let (before, after, split, passed, found) = find_first services e hit in
        inr (svc, before, after, split, passed, found, (text_beq_iff svc.name name).0 same)
    | inr other ↦
        inl (rw (hit, handle_event) (dispatch-Same svc name s (other_of_test svc name other) e a))
  ]
]
