-- ===== src/Watcher/Updater/Cleanup.antt =====
-- `UnblockService` and `cleanupOldEntries`.
use dockward.Prelude.{
  ◌≡◌, ◌⊎◌, refl, ap, Bool, true, false, not, List, [], ◌∷◌, ◌++◌, none, ◌==◌, arith, if◌then◌else◌,
  beq_refl, any_of, map,
}
use mathlib.Core.List.{append_assoc}
use dockward.Prelude.Text.{Text, text_eq, text_beq_iff, codes, has_prefix, has_prefix-append}
use dockward.Prelude.Map.{Map, lookup, lookup-retain}
use dockward.Config.{Service}
use dockward.Watcher.State.{Watcher}
use dockward.Watcher.Updater.{
  image_key, unblock_service, current_keys, is_current, cleanup_old_entries,
}

any_of-false :
    (p : Text) (k : Text) (m : Map Text Text)
    → any_of (λ (e : Text × Text). has_prefix e.0 p) m ≡ false
    → has_prefix k p ≡ true
    → lookup k m ≡ none
unfolding lookup
any_of-false p k [] h q = refl
any_of-false p k ((j, v) ∷ m) h q =
    ground (arith, text_beq_iff j k, ap (λ (t : Text). has_prefix t p), any_of-false p k m)

image_key_prefix :
    (svc : Service) (image : Text) → has_prefix (image_key svc image) (svc.name ++ codes "/") ≡ true
unfolding image_key
image_key_prefix svc image =
    rw (← append_assoc svc.name (codes "/") image) (has_prefix-append (svc.name ++ codes "/") image)

-- Unblocking a service leaves none of its images blocked, whatever the image, and touches no key
-- that does not begin with the service's name and a slash. If it reports that nothing was blocked,
-- no image of the service was.
unblock_service_lem :
    (svc : Service) (image key : Text) (s : Watcher)
    → let (found, t) = unblock_service svc.name s in
      (lookup (image_key svc image) t.updater.blocked ≡ none)
      × (lookup key t.updater.blocked
          ≡ (if has_prefix key (svc.name ++ codes "/") then none else lookup key s.updater.blocked))
      × ((found ≡ true) ⊎ (lookup (image_key svc image) s.updater.blocked ≡ none))
unfolding unblock_service
unblock_service_lem svc image key s =
    let prefix = svc.name ++ codes "/" in
    let keep = λ (k : Text). not (has_prefix k prefix) in
    ground (
      arith,
      image_key_prefix svc image,
      lookup-retain (image_key svc image) keep s.updater.blocked,
      lookup-retain key keep s.updater.blocked,
      any_of-false prefix (image_key svc image) s.updater.blocked,
    )

any_of-append {ℓ} :
    {A : Type ℓ} (p : A → Bool) (xs ys : List A) → any_of p ys ≡ true → any_of p (xs ++ ys) ≡ true
any_of-append p [] ys h = h
any_of-append p (x ∷ xs) ys h = ground (arith, any_of-append p xs ys h)

-- A test that a service's name passes is passed by some key of a configuration with the service.
current_name :
    (p : Text → Bool) (before after : List Service) (svc : Service)
    → p svc.name ≡ true
    → any_of p (current_keys (before ++ (svc ∷ after))) ≡ true
unfolding current_keys
current_name p [] after svc h = ground arith
current_name p (other ∷ before) after svc h = ground (
  arith,
  any_of-append p (map (image_key other) other.images) (current_keys (before ++ (svc ∷ after)))
      (current_name p before after svc h),
)

-- The hourly cleanup keeps what is stored under the name of a configured service: its error, its last
-- check, its status, its start attempt and its compose hash.
cleanup_keeps_service :
    (before after : List Service) (svc : Service) (s : Watcher)
    → let t = (cleanup_old_entries (before ++ (svc ∷ after)) s).updater in
      (lookup svc.name t.errored ≡ lookup svc.name s.updater.errored)
      × (lookup svc.name t.last_checked ≡ lookup svc.name s.updater.last_checked)
      × (lookup svc.name t.check_status ≡ lookup svc.name s.updater.check_status)
      × (lookup svc.name t.start_attempted ≡ lookup svc.name s.updater.start_attempted)
      × (lookup svc.name t.compose_hashes ≡ lookup svc.name s.updater.compose_hashes)
unfolding cleanup_old_entries
cleanup_keeps_service before after svc s =
    let current = current_keys (before ++ (svc ∷ after)) in
    let keep = is_current current in
    ground (
      arith,
      current_name (λ c. c == svc.name) before after svc (beq_refl svc.name),
      lookup-retain svc.name keep s.updater.errored,
      lookup-retain svc.name keep s.updater.last_checked,
      lookup-retain svc.name keep s.updater.check_status,
      lookup-retain svc.name keep s.updater.start_attempted,
      lookup-retain svc.name keep s.updater.compose_hashes,
    )

longer_key :
    (svc gone : Service) (suffix image : Text)
    → gone.name ≡ svc.name ++ suffix
    → has_prefix (image_key gone image) svc.name ≡ true
unfolding image_key
longer_key svc gone suffix image longer =
    rw (longer, append_assoc svc.name suffix (b'/' ∷ image))
      (has_prefix-append svc.name (suffix ++ (b'/' ∷ image)))

-- The cleanup also keeps the deployed image of a service that is configured no more, if its name
-- continues the name of a configured service.
cleanup_keeps_longer_name :
    (before after : List Service) (svc gone : Service) (suffix image : Text) (s : Watcher)
    → gone.name ≡ svc.name ++ suffix
    → lookup
        (image_key gone image)
        (cleanup_old_entries (before ++ (svc ∷ after)) s).updater.deployed
      ≡ lookup (image_key gone image) s.updater.deployed
unfolding cleanup_old_entries
cleanup_keeps_longer_name before after svc gone suffix image s longer =
    let current = current_keys (before ++ (svc ∷ after)) in
    let key = image_key gone image in
    ground (
      arith,
      current_name (λ c. has_prefix key c) before after svc
          (longer_key svc gone suffix image longer),
      lookup-retain key (λ k. any_of (λ c. has_prefix k c) current) s.updater.deployed,
    )
