-- ===== src/Docker.antt =====
-- What the Docker API answers (internal/docker/containers.go, images.go, events.go), and the methods
-- of these records. Fields that no modelled code reads are left out.
pub mod Health
pub mod Stats
use dockward.Prelude.{
  ℕ, Bool, false, List, [], ◌∷◌, Option, none, some, ◌==◌, if◌then◌else◌, nat_eq,
}
use dockward.Prelude.Text.{Text, codes, text_eq}
use dockward.Prelude.Map.{Map, lookup}

-- `Container`, an entry of the container list.
pub record Container : Type 0 where
  pub id : Text
  pub image : Text
  pub state : Text

pub record HealthLog : Type 0 where
  pub output : Text

pub record HealthState : Type 0 where
  pub status : Text
  pub log : List HealthLog

-- `health` is none where the container has no health check (a nil pointer in Go).
pub record ContainerState : Type 0 where
  pub running : Bool
  pub health : Option HealthState

-- `image` is the id of the container's image, `config_image` the reference in its configuration.
pub record ContainerInspect : Type 0 where
  pub name : Text
  pub image : Text
  pub state : ContainerState
  pub config_image : Text

-- `EventActor` is folded in: `id` and `attributes` are `Actor.ID` and `Actor.Attributes`.
pub record Event : Type 0 where
  pub action : Text
  pub id : Text
  pub attributes : Map Text Text

-- `Actor.Attributes[k]`, the empty string where `k` is missing.
abbrev pub attribute : Event → Text → Text
attribute e k = elim (lookup k e.attributes) [ none ↦ [] | some v ↦ v ]

abbrev pub event_container_name : Event → Text
event_container_name e = attribute e (codes "name")

abbrev last_output : List HealthLog → Text
last_output [] = []
last_output (l ∷ []) = l.output
last_output (l ∷ k ∷ ls) = last_output (k ∷ ls)

unfoldable pub last_health_output : ContainerInspect → Text
last_health_output ci = elim ci.state.health [ none ↦ [] | some h ↦ last_output h.log ]

abbrev strip_slash : Text → Text
strip_slash [] = []
strip_slash (c ∷ name) = if c == b'/' then name else c ∷ name

unfoldable pub container_name : ContainerInspect → Text
container_name ci = strip_slash ci.name

-- `Health != nil && Health.Status == status`
abbrev pub health_is : ContainerInspect → Text → Bool
health_is ci status = elim ci.state.health [ none ↦ false | some h ↦ h.status == status ]

-- `ImageInspect`
pub record ImageInspect : Type 0 where
  pub repo_digests : List Text
  pub size : ℕ
