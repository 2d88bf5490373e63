-- ===== src/Config/Services.antt =====
-- Which services `validate` of internal/config/config.go keeps, and what a service that is kept has.
use dockward.Prelude.{
  ℕ, suc, ◌+◌, ◌≡◌, ◌≢◌, ◌⊎◌, refl, ap, true, false, List, [], ◌∷◌, ◌++◌, none, some, arith,
  if◌then◌else◌, inl, inr, is_some, All, length, Option-cases, Bool-cases,
}
use dockward.Prelude.Text.{Text, text_eq, text_beq_iff, codes, has_prefix}
use dockward.Config.{Service, ServiceValidationError}
use dockward.Config.Validation.{
  Checks, regular, check_files, check_service, sort_services, has_dots, is_project_name,
  check_features,
}

-- The services that pass their checks.
abbrev pub passing : Checks → List Service → List Service
passing k [] = []
passing k (svc ∷ services) =
    let rest = passing k services in if is_some (check_service k svc) then rest else svc ∷ rest

-- An error names the service at its index, counted from `i`, and the reason that its check gave.
abbrev pub Names : Checks → ℕ → List Service → ServiceValidationError → Type 0
Names k i services e =
    (before after : List Service) × (services ≡ before ++ (e.service ∷ after))
    × (e.index ≡ i + length before)
    × (check_service k e.service ≡ some e.reason)

All-map {ℓ κ} :
    {A : Type ℓ} {P Q : A → Type κ} (f : (a : A) → P a → Q a) (xs : List A) → All P xs → All Q xs
All-map f [] p = tt
All-map f (x ∷ xs) p = (f x p.0, All-map f xs p.1)

Names-cons :
    (k : Checks) (i : ℕ) (svc : Service) (services : List Service) (e : ServiceValidationError)
    → Names k (suc i) services e
    → Names k i (svc ∷ services) e
Names-cons k i svc services e (before, after, split, index, reason) =
    (svc ∷ before, after, ap (◌∷◌ svc) split, omega (arith, index), reason)

-- Validation keeps the services that pass, in order, and reports each other one once, with its index
-- and the reason: together they are as many as there were.
pub sort_services_lem :
    (k : Checks) (i : ℕ) (services : List Service)
    → let (valid, invalid) = sort_services k i services in
      (valid ≡ passing k services)
      × All (Names k i services) invalid
      × (length valid + length invalid ≡ length services)
unfolding sort_services
sort_services_lem k i [] = (refl, tt, omega arith)
sort_services_lem k i (svc ∷ services) =
    let (kept, named, all) = sort_services_lem k (suc i) services in
    let later = All-map (Names-cons k i svc services) (sort_services k (suc i) services).1 named in
    elim (Option-cases (check_service k svc)) [
      | inl ok ↦ rw (ok, sort_services, passing) (ap (◌∷◌ svc) kept, later, omega (arith, all))
      | inr (r, bad) ↦
          rw (bad, sort_services, passing)
            (kept, (([], services, refl, omega arith, bad), later), omega (arith, all))
    ]

check_files_lem :
    (k : Checks) (j : ℕ) (files : List Text)
    → check_files k j files ≡ none
    → All
        (λ f. (has_prefix f (codes "/") ≡ true) × (has_dots f ≡ false) × (k.stat f ≡ regular))
        files
unfolding check_files
check_files_lem k j [] h = tt
check_files_lem k j (f ∷ files) h = (ground arith, check_files_lem k (suc j) files (ground arith))

check_features_lem :
    (svc : Service)
    → check_features svc ≡ none
    → ((svc.auto_update ≡ false)
        ⊎ ((svc.images ≢ []) × (svc.compose_files ≢ []) × (svc.compose_project ≢ [])))
      × ((svc.auto_heal ≡ false) ⊎ (svc.compose_project ≢ []) ⊎ (svc.container_name ≢ []))
unfolding check_features
check_features_lem svc h = (
  elim (Bool-cases svc.auto_update) [
    | inl on ↦ inr (
      λ e. ground (arith, ap length e),
      λ e. ground (arith, ap length e),
      λ e. ground (arith, text_beq_iff svc.compose_project []),
    )
    | inr off ↦ inl off
  ],
  elim (Bool-cases svc.auto_heal) [
    | inl on ↦
        ground (arith, text_beq_iff svc.compose_project [], text_beq_iff svc.container_name [])
    | inr off ↦ inl off
  ],
)

-- A service that passes and is not silent has a name and, if it has one, a project of letters, digits,
-- dashes and underscores. Each of its compose files is an absolute path of a regular file with no two
-- dots in a row; it has what `auto_update` and `auto_heal` need.
pub check_service_lem :
    (k : Checks) (svc : Service)
    → svc.silent ≡ false
    → check_service k svc ≡ none
    → (svc.name ≢ [])
      × ((svc.compose_project ≡ []) ⊎ (is_project_name svc.compose_project ≡ true))
      × All
          (λ f. (has_prefix f (codes "/") ≡ true) × (has_dots f ≡ false) × (k.stat f ≡ regular))
          svc.compose_files
      × ((svc.auto_update ≡ false)
          ⊎ ((svc.images ≢ []) × (svc.compose_files ≢ []) × (svc.compose_project ≢ [])))
      × ((svc.auto_heal ≡ false) ⊎ (svc.compose_project ≢ []) ⊎ (svc.container_name ≢ []))
unfolding check_service
check_service_lem k svc loud h = (
  ground (arith, text_beq_iff svc.name []),
  ground (arith, text_beq_iff svc.compose_project []),
  check_files_lem k 0 svc.compose_files (ground arith),
  (check_features_lem svc (ground arith)).0,
  (check_features_lem svc (ground arith)).1,
)
