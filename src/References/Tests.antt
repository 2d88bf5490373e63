-- ===== src/References/Tests.antt =====
-- References of the kinds that a configuration and a container may hold.
use dockward.Prelude.{◌≡◌, refl, [], ◌∷◌}
use dockward.Prelude.Text.{codes, has_prefix}
use dockward.References.{registry_host, short_digest, local_digest, index, trim_right}

hosts :
    (registry_host (codes "http://localhost:5000/") ≡ codes "localhost:5000")
    × (registry_host (codes "https://hub.io") ≡ codes "hub.io")
unfolding registry_host trim_right has_prefix
hosts = (refl, refl)

digests :
    (short_digest (codes "sha256:0123456789abcdef") ≡ codes "sha256:0123456789ab")
    × (local_digest (codes "other/app@sha256:aa" ∷ codes "hub/app@sha256:bb" ∷ []) (codes "hub/app")
        ≡ codes "sha256:bb")
unfolding short_digest local_digest has_prefix index
digests = (refl, refl)
