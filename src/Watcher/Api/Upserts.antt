-- ===== src/Watcher/Api/Upserts.antt =====
-- What the requests of internal/watcher/api_config.go do to the configuration.
use mathlib.Core.Option.{Option}
use dockward.Prelude.{
  ℕ, ◌≤◌, ◌<◌, ◌≡◌, ◌≢◌, refl, ap, ◌∙◌, Bool, true, false, not, ◌&&◌, List, [], ◌∷◌, none, some,
  arith, if◌then◌else◌, ◌==◌, map, Bool-cases, beq_refl, inl, inr,
}
use dockward.Prelude.Int.{pos}
use dockward.Prelude.Text.{Text, codes, text_eq, text_beq_iff}
use dockward.Config.{Service, Config}
use dockward.Config.Defaults.{set_defaults, service_defaults, positive_or}
use dockward.Config.Validation.{
  Checks, refused, ConfigError, bad_runtime, poll_too_short, validate, check_settings,
  sort_services,
}
use dockward.Config.Save.{SaveAnswers, save, save_atomic}
use dockward.Prelude.Files.{Files}
use dockward.Prelude.Map.{lookup}
use dockward.Watcher.Api.{put, delete_method, service_of_path, find_service}
use dockward.Watcher.Api.ConfigApi.{
  Disk, Running, registry_ok, persist, put_service, has_service, drop_service, handle_put_registry,
  handle_config_service, handle_upsert_service, handle_delete_service,
}

abbrev pub with_defaults : Option Service → Option Service
with_defaults none = none
with_defaults (some svc) = some (service_defaults svc)

find_service-map :
    (name : Text) (services : List Service)
    → find_service name (map service_defaults services) ≡ with_defaults (find_service name services)
unfolding find_service service_defaults
find_service-map name [] = refl
find_service-map name (s ∷ services) = elim (Bool-cases (s.name == name)) [
  | inl same ↦ rw same refl
  | inr other ↦ rw other (find_service-map name services)
]

find_service-put_service :
    (name : Text) (svc : Service) (services : List Service)
    → find_service name (put_service svc services)
      ≡ (if svc.name == name then some svc else find_service name services)
unfolding find_service put_service
find_service-put_service name svc [] = refl
find_service-put_service name svc (s ∷ services) = elim (Bool-cases (s.name == svc.name)) [
  | inl same ↦ rw same (
      ground (
        arith,
        same,
        text_beq_iff s.name svc.name,
        text_beq_iff svc.name name,
        text_beq_iff s.name name,
      ))
  | inr other ↦ elim (Bool-cases (s.name == name)) [
    | inl here ↦
        rw (other, here)
          (ground (
            arith,
            other,
            here,
            text_beq_iff s.name svc.name,
            text_beq_iff svc.name name,
            text_beq_iff s.name name,
          ))
    | inr there ↦ rw (other, there) (find_service-put_service name svc services)
  ]
]

find_service-drop_service :
    (name j : Text) (services : List Service)
    → find_service j (drop_service name services)
      ≡ (if name == j then none else find_service j services)
unfolding find_service drop_service
find_service-drop_service name j [] = ground arith
find_service-drop_service name j (s ∷ services) = elim (Bool-cases (s.name == name)) [
  | inl gone ↦ rw gone (
      ground (
        arith,
        gone,
        find_service-drop_service name j services,
        text_beq_iff s.name name,
        text_beq_iff name j,
        text_beq_iff s.name j,
      ))
  | inr kept ↦ elim (Bool-cases (s.name == j)) [
    | inl here ↦
        rw (kept, here)
          (ground (
            arith,
            kept,
            here,
            text_beq_iff s.name name,
            text_beq_iff name j,
            text_beq_iff s.name j,
          ))
    | inr there ↦ rw (kept, there) (find_service-drop_service name j services)
  ]
]

drop_service-put_service :
    (svc : Service) (services : List Service)
    → has_service svc.name services ≡ false
    → drop_service svc.name (put_service svc services) ≡ services
unfolding drop_service put_service
drop_service-put_service svc [] h = rw (beq_refl svc.name) refl
drop_service-put_service svc (s ∷ services) h = elim (Bool-cases (s.name == svc.name)) [
  | inl same ↦ absurd (ground (arith, h, same))
  | inr other ↦
      rw other
        (rw other (ap (◌∷◌ s) (drop_service-put_service svc services (ground (arith, h, other)))))
]

-- What a list of services has after a request, by name.
abbrev pub services_of : Running → List Service
services_of s = s.config.services

nonempty_test : (name : Text) → name ≢ [] → (name == []) ≡ false
nonempty_test name h = ground (arith, text_beq_iff name [])

services_of-upsert :
    (d : Disk) (path name : Text) (sent : Service) (s : Running)
    → service_of_path (codes "/config/services/") path ≡ name
    → name ≢ []
    → services_of (handle_config_service d put path (some sent) s).1
      ≡ map service_defaults (put_service (record sent { name = name }) (services_of s))
unfolding handle_config_service handle_upsert_service persist set_defaults
services_of-upsert d path name sent s same full = rw (same, nonempty_test name full) refl

services_of-delete :
    (d : Disk) (path name : Text) (body : Option Service) (s : Running)
    → service_of_path (codes "/config/services/") path ≡ name
    → name ≢ []
    → has_service name (services_of s) ≡ true
    → services_of (handle_config_service d delete_method path body s).1
      ≡ drop_service name (services_of s)
unfolding handle_config_service handle_delete_service persist
services_of-delete d path name body s same full present =
    rw (same, nonempty_test name full, present) refl

with_defaults_if :
    (b : Bool) (svc : Service) (o : Option Service)
    → with_defaults (if b then some svc else o)
      ≡ (if b then some (service_defaults svc) else with_defaults o)
with_defaults_if true svc o = refl
with_defaults_if false svc o = refl

-- After a PUT of a service with a valid name and a body, whether or not it could be persisted: the
-- configuration in memory has the service under the name of the path with the defaults filled in, and
-- the services of all other names as they were, with the defaults filled in.
pub upsert_lem :
    (d : Disk) (path name j : Text) (sent : Service) (s : Running)
    → service_of_path (codes "/config/services/") path ≡ name
    → name ≢ []
    → find_service j (services_of (handle_config_service d put path (some sent) s).1) ≡ (
        if name == j
        then some (service_defaults (record sent { name = name }))
        else with_defaults (find_service j (services_of s)))
upsert_lem d path name j sent s same full =
    ap (find_service j) (services_of-upsert d path name sent s same full)
    ∙ find_service-map j (put_service (record sent { name = name }) (services_of s))
    ∙ ap with_defaults (find_service-put_service j (record sent { name = name }) (services_of s))
    ∙ with_defaults_if (name == j) (record sent { name = name }) (find_service j (services_of s))

-- After an accepted DELETE of a service, whether or not it could be persisted: the configuration in
-- memory has no service of the name, and those of all other names as they were.
delete_lem :
    (d : Disk) (path name j : Text) (body : Option Service) (s : Running)
    → service_of_path (codes "/config/services/") path ≡ name
    → name ≢ []
    → has_service name (services_of s) ≡ true
    → find_service j (services_of (handle_config_service d delete_method path body s).1)
      ≡ (if name == j then none else find_service j (services_of s))
delete_lem d path name j body s same full present =
    ap (find_service j) (services_of-delete d path name body s same full present)
    ∙ find_service-drop_service name j (services_of s)

positive_or_positive : (n default : ℕ) → 1 ≤ n → positive_or (pos default) (pos n) ≡ pos n
unfolding positive_or
positive_or_positive n default h = ground arith

check_settings-short :
    (k : Checks) (c : Config) (n : ℕ)
    → c.poll_interval ≡ pos n
    → n < 10
    → check_settings k c ≡ some poll_too_short
unfolding check_settings
check_settings-short k c n poll short = ground (arith, poll)

validate-short :
    (k : Checks) (c : Config) (n : ℕ)
    → c.poll_interval ≡ pos n
    → n < 10
    → (e : ConfigError) × (validate k c ≡ refused e)
unfolding validate
validate-short k c n poll short =
    let (valid, invalid) = sort_services k 0 c.services in
    elim (Bool-cases (not (c.runtime == codes "docker") && not (c.runtime == codes "podman"))) [
      | inl unknown ↦ (bad_runtime, rw (unknown, validate) refl)
      | inr known ↦ (
        poll_too_short,
        rw
            (
              known,
              check_settings-short k (record c { services = valid; invalid_services = invalid }) n
                  poll short,
              validate,
            )
            refl,
      )
    ]

set_defaults_poll :
    (c : Config) (n : ℕ) → c.poll_interval ≡ pos n → 1 ≤ n → (set_defaults c).poll_interval ≡ pos n
unfolding set_defaults
set_defaults_poll c n poll lo = ap (positive_or (pos 300)) poll ∙ positive_or_positive n 300 lo

saved_text :
    (encode : Config → Option Text) (a : SaveAnswers) (path : Text) (c : Config) (files : Files)
    → a.temp ≢ path
    → (save encode a path c files).0 ≡ true
    → lookup path (save encode a path c files).1 ≡ encode c
saved_text encode a path c files other saved = elim (save_atomic encode a path c files other) [
  | inl (_, text) ↦ text
  | inr (failed, _) ↦ absurd (cc (saved, failed))
]

-- A PUT of the registry settings with a poll interval of 1 to 9 seconds whose save succeeds is accepted.
-- The file then has the text of the configuration in memory, and the checks of a start, which fill in
-- the defaults first, refuse that configuration. The temporary file has another name than the file.
pub put_registry_refused :
    (d : Disk) (k : Checks) (url : Text) (n : ℕ) (s : Running)
    → d.answers.temp ≢ d.path
    → 1 ≤ n
    → n < 10
    → (save d.encode d.answers d.path
        (set_defaults (record s.config { registry_url = url; poll_interval = pos n }))
        s.files).0
      ≡ true
    → let (reply, t) = handle_put_registry d put (some (url, pos n)) s in
      (reply ≡ registry_ok)
      × (lookup d.path t.files ≡ d.encode t.config)
      × (e : ConfigError) × (validate k (set_defaults t.config) ≡ refused e)
unfolding handle_put_registry persist
put_registry_refused d k url n s other lo hi saved =
    let sent = record s.config { registry_url = url; poll_interval = pos n } in
    let (e, bad) =
      validate-short k (set_defaults (set_defaults sent)) n
        (set_defaults_poll (set_defaults sent) n (set_defaults_poll sent n refl lo) lo) hi in
    (
      rw saved refl,
      saved_text d.encode d.answers d.path (set_defaults sent) s.files other saved,
      e,
      bad,
    )
