-- ===== src/Watcher/Monitor/Induction.antt =====
-- What each turn over one container keeps, the polls of internal/watcher/monitor.go keep.
use dockward.Prelude.{ℕ, List, [], ◌∷◌, ◌++◌, All, Bool-cases, inl, inr}
use dockward.Prelude.Text.{Text}
use dockward.Prelude.Map.{Map}
use dockward.Config.{Service}
use dockward.Watcher.Monitor.{
  Monitor, ResourceStats, Totals, Reading, Turn, no_totals, check_container, check_containers,
  check_service, reading_ids, evict, poll_turns, poll_all,
}

abbrev pub polls : ℕ → List (List Turn) → Monitor → Monitor
polls hundred [] m = m
polls hundred (turns ∷ rest) m = polls hundred rest (poll_all hundred turns m)

-- `P` holds of the monitor as long as `C` holds of what a service reads.
module _ (P : Monitor → Type 0) (C : Service → Reading → Type 0) (hundred : ℕ)
    (container : (svc : Service) (r : Reading) (s : Totals × Monitor)
      → C svc r
      → P s.1
      → P (check_container hundred svc r s).1)
    (shown : (stats : Map Text ResourceStats) (m : Monitor) → P m → P (record m { latest = stats }))
    (evicted : (ids : List Text) (m : Monitor) → P m → P (evict ids m)) where
  abbrev pub IsFine : Turn → Type 0
  IsFine t = All (C t.svc) t.readings

  check_containers-keeps :
      (svc : Service) (readings : List Reading) (s : Totals × Monitor)
      → All (C svc) readings
      → P s.1
      → P (check_containers hundred svc readings s).1
  unfolding check_containers
  check_containers-keeps svc [] s c p = p
  check_containers-keeps svc (r ∷ readings) s (c, cs) p =
      check_containers-keeps svc readings (check_container hundred svc r s) cs
        (container svc r s c p)

  check_service-keeps :
      (svc : Service) (readings : List Reading) (m : Monitor)
      → All (C svc) readings
      → P m
      → P (check_service hundred svc readings m)
  unfolding check_service
  check_service-keeps svc [] m c p = p
  check_service-keeps svc (r ∷ readings) m c p =
      shown _ _ (check_containers-keeps svc (r ∷ readings) (no_totals, m) c p)

  poll_turns-keeps :
      (ids : List Text) (turns : List Turn) (m : Monitor)
      → All IsFine turns
      → P m
      → P (poll_turns hundred ids turns m)
  unfolding poll_turns
  poll_turns-keeps ids [] m c p = evicted ids m p
  poll_turns-keeps ids (t ∷ turns) m (c, cs) p = elim (Bool-cases t.done) [
    | inl done ↦ rw (done, poll_turns) p
    | inr going ↦
        rw (going, poll_turns)
          (poll_turns-keeps (ids ++ reading_ids t.readings) turns _ cs
            (check_service-keeps t.svc t.readings m c p))
  ]

  pub polls-keeps :
      (rest : List (List Turn)) (m : Monitor)
      → All (All IsFine) rest
      → P m
      → P (polls hundred rest m)
  unfolding poll_all
  polls-keeps [] m c p = p
  polls-keeps (turns ∷ rest) m (c, cs) p =
      polls-keeps rest (poll_all hundred turns m) cs (poll_turns-keeps [] turns m c p)

All-trivial {ℓ} : {A : Type ℓ} (P : A → Type 0) → ((a : A) → P a) → (xs : List A) → All P xs
All-trivial P f [] = tt
All-trivial P f (x ∷ xs) = (f x, All-trivial P f xs)

-- What every reading keeps.
pub polls-keeps_always :
    (P : Monitor → Type 0) (hundred : ℕ)
    → ((svc : Service) (r : Reading) (s : Totals × Monitor)
        → P s.1
        → P (check_container hundred svc r s).1)
    → ((stats : Map Text ResourceStats) (m : Monitor) → P m → P (record m { latest = stats }))
    → ((ids : List Text) (m : Monitor) → P m → P (evict ids m))
    → (rest : List (List Turn)) (m : Monitor) → P m
    → P (polls hundred rest m)
polls-keeps_always P hundred container shown evicted rest m =
    polls-keeps P (λ svc r. Unit {0}) hundred (λ svc r s _. container svc r s) shown evicted rest m
      (All-trivial _ (All-trivial _ (λ t. All-trivial _ (λ r. tt) t.readings)) rest)
