-- ===== src/Config/Validation.antt =====
-- `validate` of internal/config/config.go. `Checks` is what it asks of the file system and of package
-- net: the kind of the file at a cleaned path, and whether an address is a host and a port.
use dockward.Prelude.{
  ℕ, suc, Bool, true, false, not, ◌&&◌, ◌||◌, List, [], ◌∷◌, Option, none, some, ◌==◌,
  if◌then◌else◌, leb, nat_eq, length, any_of,
}
use dockward.Prelude.Int.{ℤ, pos, ltb_ℤ, leb_ℤ}
use dockward.Prelude.Text.{Text, text_eq, codes, has_prefix}
use dockward.Config.{
  Service, Config, ServiceValidationError, Reason, name_required, invalid_project,
  file_not_absolute, file_traversal, file_not_found, file_stat_error, file_not_regular,
  env_not_absolute, env_traversal, env_not_found, env_stat_error, env_not_regular, images_required,
  compose_files_required, project_required, project_or_container_required, bad_cpu_threshold,
  bad_memory_threshold, negative_grace, negative_cooldown, negative_max_restarts,
}

pub data FileKind : Type 0 where
  regular missing stat_error irregular : FileKind

-- `address` tells the port, none where the host or the port is not valid.
pub record Checks : Type 0 where
  pub stat : Text → FileKind
  pub port : Text → Option ℤ
  -- What 100 per cent are in the unit of the thresholds.
  pub hundred : ℤ

-- `^[a-zA-Z0-9_-]{1,64}$`
abbrev is_name_char : ℕ → Bool
is_name_char c =
    leb b'a' c && leb c b'z'
    || leb b'A' c && leb c b'Z'
    || leb b'0' c && leb c b'9'
    || c == b'_'
    || c == b'-'

unfoldable pub is_project_name : Text → Bool
is_project_name s = not (s == []) && leb (length s) 64 && not (any_of (λ c. not (is_name_char c)) s)

-- `strings.Contains(s, "..")`
unfoldable pub has_dots : Text → Bool
has_dots [] = false
has_dots (c ∷ s) = let rest = has_dots s in if has_prefix (c ∷ s) (codes "..") then true else rest

abbrev or_else : Option Reason → Option Reason → Option Reason
or_else none r = r
or_else (some e) r = some e

abbrev refuse_if : Bool → Reason → Option Reason
refuse_if true r = some r
refuse_if false r = none

-- The first reason that the loop over the compose files finds, from index `j`.
unfoldable pub check_files : Checks → ℕ → List Text → Option Reason
unfolding has_dots
check_files k j [] = none
check_files k j (f ∷ fs) =
    let rest = check_files k (suc j) fs in
    if not (has_prefix f (codes "/"))
    then some (file_not_absolute j)
    else if has_dots f
    then some (file_traversal j)
    else elim (k.stat f) [
      | missing ↦ some (file_not_found j)
      | stat_error ↦ some (file_stat_error j)
      | irregular ↦ some (file_not_regular j)
      | regular ↦ rest
    ]

unfoldable pub check_env_file : Checks → Text → Option Reason
unfolding has_dots
check_env_file k f =
    if f == []
    then none
    else if not (has_prefix f (codes "/"))
    then some env_not_absolute
    else if has_dots f
    then some env_traversal
    else elim (k.stat f) [
      | missing ↦ some env_not_found
      | stat_error ↦ some env_stat_error
      | irregular ↦ some env_not_regular
      | regular ↦ none
    ]

unfoldable pub check_features : Service → Option Reason
check_features svc =
    or_else
      (if svc.auto_update
        then or_else (refuse_if (length svc.images == 0) images_required) (
            or_else (refuse_if (length svc.compose_files == 0) compose_files_required)
              (refuse_if (svc.compose_project == []) project_required))
        else none)
      (refuse_if (svc.auto_heal && svc.compose_project == [] && svc.container_name == [])
        project_or_container_required)

unfoldable pub check_numbers : ℤ → Service → Option Reason
check_numbers hundred svc =
    or_else
      (refuse_if (ltb_ℤ svc.cpu_threshold (pos 0) || ltb_ℤ hundred svc.cpu_threshold)
        bad_cpu_threshold)
      (or_else
        (refuse_if (ltb_ℤ svc.memory_threshold (pos 0) || ltb_ℤ hundred svc.memory_threshold)
          bad_memory_threshold)
        (or_else (refuse_if (ltb_ℤ svc.health_grace (pos 0)) negative_grace) (
          or_else (refuse_if (ltb_ℤ svc.heal_cooldown (pos 0)) negative_cooldown)
            (refuse_if (ltb_ℤ svc.heal_max_restarts (pos 0)) negative_max_restarts))))

-- The body of the loop over the services: the reason of the first check that fails.
unfoldable pub check_service : Checks → Service → Option Reason
unfolding check_files check_env_file check_features check_numbers is_project_name
check_service k svc =
    if svc.silent
    then none
    else or_else (refuse_if (svc.name == []) name_required) (
        or_else
          (refuse_if (not (svc.compose_project == []) && not (is_project_name svc.compose_project))
            invalid_project)
          (or_else (check_files k 0 svc.compose_files) (
            or_else (check_env_file k svc.env_file)
              (or_else (check_features svc) (check_numbers k.hundred svc)))))

-- The services that pass, and the others, from index `i`.
unfoldable pub sort_services :
    Checks → ℕ → List Service → List Service × List ServiceValidationError
unfolding check_service
sort_services k i [] = ([], [])
sort_services k i (svc ∷ services) =
    let (valid, invalid) = sort_services k (suc i) services in
    elim (check_service k svc) [
      | none ↦ (svc ∷ valid, invalid)
      | some r ↦ (valid, record { index = i; reason = r; service = svc } ∷ invalid)
    ]

-- The fatal errors, in the order of the checks.
pub data ConfigError : Type 0 where
  bad_runtime poll_too_short poll_too_long stats_too_short : ConfigError
  check_too_short check_too_long timeout_too_short timeout_too_long : ConfigError
  timeout_not_below_check no_address : ConfigError
  bad_address duplicate_address : ℕ → ConfigError

-- The loop over the addresses, from index `i`, with those already seen. A host or a port that is
-- not valid is one error here and three messages in Go.
unfoldable pub check_addresses : Checks → ℕ → List Text → List Text → Option ConfigError
check_addresses k i seen [] = none
check_addresses k i seen (a ∷ address) =
    let rest = check_addresses k (suc i) (a ∷ seen) address in
    elim (k.port a) [
      | none ↦ some (bad_address i)
      | some p ↦
          if ltb_ℤ p (pos 1) || ltb_ℤ (pos 65535) p
          then some (bad_address i)
          else if any_of (λ b. b == a) seen
          then some (duplicate_address i)
          else rest
    ]

unfoldable pub check_settings : Checks → Config → Option ConfigError
unfolding check_addresses
check_settings k c =
    if ltb_ℤ c.poll_interval (pos 10)
    then some poll_too_short
    else if ltb_ℤ (pos 86400) c.poll_interval
    then some poll_too_long
    else if ltb_ℤ c.stats_interval (pos 5)
        && not (leb_ℤ c.stats_interval (pos 0) && leb_ℤ (pos 0) c.stats_interval)
    then some stats_too_short
    else if ltb_ℤ c.check_interval (pos 5)
    then some check_too_short
    else if ltb_ℤ (pos 3600) c.check_interval
    then some check_too_long
    else if ltb_ℤ c.timeout (pos 1)
    then some timeout_too_short
    else if ltb_ℤ (pos 30) c.timeout
    then some timeout_too_long
    else if leb_ℤ c.check_interval c.timeout
    then some timeout_not_below_check
    else if length c.address == 0
    then some no_address
    else check_addresses k 0 [] c.address

pub data Validated : Type 0 where
  refused : ConfigError → Validated
  loaded : Config → Validated

unfoldable pub validate : Checks → Config → Validated
unfolding sort_services check_settings
validate k c =
    if not (c.runtime == codes "docker") && not (c.runtime == codes "podman")
    then refused bad_runtime
    else let (valid, invalid) = sort_services k 0 c.services in
      let d = record c { services = valid; invalid_services = invalid } in
      elim (check_settings k d) [ none ↦ loaded d | some e ↦ refused e ]
