-- ===== src/Watcher/Api/Triggers.antt =====
-- Which requests of internal/watcher/api.go start a check.
use dockward.Prelude.{
  ◌≡◌, ◌⊎◌, refl, sym, ap, ◌∙◌, Bool, true, false, List, [], ◌∷◌, ◌++◌, Option, none, some, arith,
  if◌then◌else◌, ◌==◌, nat_eq, inl, inr, Bool-cases, Option-cases, All,
}
use dockward.Prelude.Text.{Text, codes, text_eq, text_beq, text_beq_iff}
use dockward.Config.{Service}
use dockward.Config.Validation.{is_project_name}
use dockward.Watcher.Effects.{Effect, go_poll_all, go_trigger}
use dockward.Watcher.State.{Watcher, is_deploying}
use dockward.Watcher.Api.{
  Method, get, post, put, delete_method, other_method, validate_service_name, service_of_path,
  find_service, deploying_in, handle_trigger_all, handle_trigger_service,
}

if_picks :
    (b : Bool) (s svc : Service) (rest : Option Service)
    → (if b then some s else rest) ≡ some svc
    → ((b ≡ true) × (s ≡ svc)) ⊎ ((b ≡ false) × (rest ≡ some svc))
if_picks true s svc rest h = inl (refl, ground (arith, h))
if_picks false s svc rest h = inr (refl, h)

-- A service of the list, with the name.
abbrev pub IsListed : Text → List Service → Service → Type 0
IsListed name services svc =
    (svc.name ≡ name) × ((before after : List Service) × (services ≡ before ++ (svc ∷ after)))

find_service-IsListed :
    (name : Text) (services : List Service) (svc : Service)
    → find_service name services ≡ some svc
    → IsListed name services svc
unfolding find_service
find_service-IsListed name [] svc h = absurd (cc h)
find_service-IsListed name (s ∷ services) svc h =
    elim (if_picks (s.name == name) s svc (find_service name services) h) [
      | inl (same, it) ↦ (
        (ap (λ x. x.name) (sym it) ∙ (text_beq_iff s.name name).0 same),
        ([], services, ap (λ x. x ∷ services) it),
      )
      | inr (_, later) ↦
          let (same, (before, after, split)) = find_service-IsListed name services svc later in
          (same, (s ∷ before, after, ap (◌∷◌ s) split))
    ]

-- The checks that a log has started, newest first: of one service, or none for a poll of all.
abbrev pub checks_started : List Effect → List (Option Service)
checks_started [] = []
checks_started (go_trigger svc ∷ log) = some svc ∷ checks_started log
checks_started (go_poll_all ∷ log) = none ∷ checks_started log
checks_started (_ ∷ log) = checks_started log

deploying_in_zero :
    (services : List Service) (s : Watcher)
    → deploying_in services s ≡ 0
    → All (λ svc. is_deploying svc.name s.updater ≡ false) services
unfolding deploying_in
deploying_in_zero [] s h = tt
deploying_in_zero (svc ∷ services) s h = elim (Bool-cases (is_deploying svc.name s.updater)) [
  | inl busy ↦ absurd (ground (arith, h, busy))
  | inr idle ↦ (idle, deploying_in_zero services s (ground (arith, h, idle)))
]

-- A request to check all services changes nothing, or is a POST and starts one poll; then no service of
-- the configuration is being deployed.
poll_request_guarded :
    (method : Method) (services : List Service) (s : Watcher)
    → let t = (handle_trigger_all method services s).1 in
      (t ≡ s)
      ⊎ ((method ≡ post)
          × All (λ svc. is_deploying svc.name s.updater ≡ false) services
          × (checks_started t.log ≡ none ∷ checks_started s.log)
          × (t.updater ≡ s.updater)
          × (t.healer ≡ s.healer))
unfolding handle_trigger_all
poll_request_guarded get services s = inl refl
poll_request_guarded put services s = inl refl
poll_request_guarded delete_method services s = inl refl
poll_request_guarded other_method services s = inl refl
poll_request_guarded post services s = elim (Bool-cases (deploying_in services s == 0)) [
  | inl idle ↦
      rw (idle, handle_trigger_all)
        (inr (refl, deploying_in_zero services s (ground (arith, idle)), refl, refl, refl))
  | inr busy ↦ rw (busy, handle_trigger_all) (inl refl)
]

service_of_path-valid :
    (prefix path : Text)
    → (service_of_path prefix path == []) ≡ false
    → is_project_name (service_of_path prefix path) ≡ true
unfolding service_of_path validate_service_name text_beq
service_of_path-valid prefix path h = ground (arith, h)

-- A request to check one service changes nothing, or is a POST with a valid name and starts one check:
-- that of a service of that name in the configuration, which has `auto_update` and is not being deployed.
-- It starts no check of another service and no poll of all.
pub trigger_service_guarded :
    (method : Method) (path : Text) (redirect : Bool) (services : List Service) (s : Watcher)
    → let name = service_of_path (codes "/trigger/") path in
      let t = (handle_trigger_service method path redirect services s).1 in
      (t ≡ s)
      ⊎ ((svc : Service) × (method ≡ post)
          × (is_project_name name ≡ true)
          × IsListed name services svc
          × (svc.auto_update ≡ true)
          × (is_deploying name s.updater ≡ false)
          × (checks_started t.log ≡ some svc ∷ checks_started s.log)
          × (t.updater ≡ s.updater)
          × (t.healer ≡ s.healer))
unfolding handle_trigger_service
trigger_service_guarded get path redirect services s = inl refl
trigger_service_guarded put path redirect services s = inl refl
trigger_service_guarded delete_method path redirect services s = inl refl
trigger_service_guarded other_method path redirect services s = inl refl
trigger_service_guarded post path redirect services s =
    let name = service_of_path (codes "/trigger/") path in
    elim (Bool-cases (name == [])) [
      | inl invalid ↦ rw (invalid, handle_trigger_service) (inl refl)
      | inr valid ↦ elim (Option-cases (find_service name services)) [
        | inl unknown ↦ rw (valid, unknown, handle_trigger_service) (inl refl)
        | inr (svc, it) ↦ elim (Bool-cases svc.auto_update) [
          | inr off ↦ rw (valid, it, off, handle_trigger_service) (inl refl)
          | inl on ↦ elim (Bool-cases (is_deploying name s.updater)) [
            | inl busy ↦ rw (valid, it, on, busy, handle_trigger_service) (inl refl)
            | inr idle ↦ inr (
              svc,
              refl,
              service_of_path-valid (codes "/trigger/") path valid,
              find_service-IsListed name services svc it,
              on,
              idle,
              rw (valid, it, on, idle, handle_trigger_service) refl,
              rw (valid, it, on, idle, handle_trigger_service) refl,
              rw (valid, it, on, idle, handle_trigger_service) refl,
            )
          ]
        ]
      ]
    ]
