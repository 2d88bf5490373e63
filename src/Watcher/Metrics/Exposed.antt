-- ===== src/Watcher/Metrics/Exposed.antt =====
-- What a scrape of internal/watcher/metrics.go shows of the counters, and what seeding does to them.
use dockward.Prelude.{
  ◌≡◌, refl, ap, sym, subst, false, List, [], ◌∷◌, none, some, arith, if◌then◌else◌, ◌==◌, nat_eq,
  or_zero, any_of, Option-cases,
}
use dockward.Prelude.Text.{Text, text_eq, text_beq_iff}
use dockward.Prelude.Map.{Map, lookup, keys, has, any_of-keys, lookup-insert}
use dockward.Prelude.Sort.{sort_texts, any_of-sort_texts, IsSorted, sort_texts-IsSorted}
use dockward.Watcher.Metrics.{Metrics, seed, seed_service, seed_services}
use dockward.Watcher.Metrics.Prometheus.{sample, sorted_samples}

lookup-sample :
    {V : Type 0} (z : V) (m : Map Text V) (k : Text) (ks : List Text)
    → lookup k (sample z m ks)
      ≡ (if any_of (λ j. j == k) ks then some (or_zero z (lookup k m)) else none)
unfolding sample lookup
lookup-sample z m k [] = refl
lookup-sample z m k (j ∷ ks) = ground (arith, text_beq_iff j k, lookup-sample z m k ks)

keys-sample : {V : Type 0} (z : V) (m : Map Text V) (ks : List Text) → keys (sample z m ks) ≡ ks
unfolding sample
keys-sample z m [] = refl
keys-sample z m (k ∷ ks) = ap (◌∷◌ k) (keys-sample z m ks)

-- A scrape prints the samples of a map in the order of its keys, and for each service just the value
-- that the map has.
sorted_samples_lem :
    {V : Type 0} (z : V) (m : Map Text V) (k : Text)
    → (lookup k (sorted_samples z m) ≡ lookup k m) × IsSorted (keys (sorted_samples z m))
unfolding sorted_samples
sorted_samples_lem z m k = (
  ground (
    arith,
    lookup-sample z m k (sort_texts (keys m)),
    any_of-sort_texts (λ j. j == k) (keys m),
    any_of-keys k m,
  ),
  subst IsSorted (sym (keys-sample z m (sort_texts (keys m)))) (sort_texts-IsSorted (keys m)),
)

-- A map after seeding: what was there is there, and the other names have zero.
abbrev pub Seeded : {V : Type 0} → V → List Text → Map Text V → Map Text V → Type 0
Seeded z names m seeded =
    (k : Text)
    → lookup k seeded
      ≡ (if has k m then lookup k m else if any_of (λ j. j == k) names then some z else none)

Seeded-refl : {V : Type 0} (z : V) (m : Map Text V) → Seeded z [] m m
Seeded-refl z m k = ground (arith, Option-cases (lookup k m))

Seeded-cons :
    {V : Type 0} (z : V) (name : Text) (names : List Text) (m seeded : Map Text V)
    → Seeded z names (seed z name m) seeded
    → Seeded z (name ∷ names) m seeded
unfolding seed
Seeded-cons z name names m seeded h k =
    ground (arith, h k, lookup-insert k name z m, text_beq_iff name k)

-- Seeding changes no counter and no gauge that is there, and gives every name a zero in all maps but
-- that of the health gauges, which it leaves alone.
seed_services_lem :
    (names : List Text) (m : Metrics)
    → let s = seed_services names m in
      Seeded 0 names m.updates s.updates
      × Seeded 0 names m.rollbacks s.rollbacks
      × Seeded 0 names m.restarts s.restarts
      × Seeded 0 names m.failures s.failures
      × Seeded 0 names m.cpu_alerts s.cpu_alerts
      × Seeded 0 names m.memory_alerts s.memory_alerts
      × Seeded false names m.service_blocked s.service_blocked
      × (s.service_healthy ≡ m.service_healthy)
unfolding seed_services seed_service
seed_services_lem [] m = (
  Seeded-refl 0 m.updates,
  Seeded-refl 0 m.rollbacks,
  Seeded-refl 0 m.restarts,
  Seeded-refl 0 m.failures,
  Seeded-refl 0 m.cpu_alerts,
  Seeded-refl 0 m.memory_alerts,
  Seeded-refl false m.service_blocked,
  refl,
)
seed_services_lem (name ∷ names) m =
    let (u, b, r, f, c, y, g, h) = seed_services_lem names (seed_service name m) in
    (
      Seeded-cons 0 name names m.updates _ u,
      Seeded-cons 0 name names m.rollbacks _ b,
      Seeded-cons 0 name names m.restarts _ r,
      Seeded-cons 0 name names m.failures _ f,
      Seeded-cons 0 name names m.cpu_alerts _ c,
      Seeded-cons 0 name names m.memory_alerts _ y,
      Seeded-cons false name names m.service_blocked _ g,
      h,
    )
