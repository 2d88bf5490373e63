-- ===== src/Hub/Tests.antt =====
-- Two clients from one address, on a hub that allows two of three.
use dockward.Prelude.{◌≡◌, ◌≤◌, refl, List, [], ◌∷◌, nat_eq}
use dockward.Prelude.Int.{pos}
use dockward.Prelude.Text.{Text, codes, text_beq}
use dockward.Prelude.Map.{lookup, insert, delete}
use dockward.Hub.Limits.{
  Limiter, new_limiter, connections_of, can_connect, add_connection, remove_connection, stats,
}
use dockward.Hub.Clients.{clients_of}
use dockward.Hub.Invariant.{IsValid, hub_limits, run-IsValid}
use dockward.Hub.{
  Hub, new_hub_with_limits, subscribe, unsubscribe, broadcast, offer, offer_all, connection_count,
  Call, subscribes, unsubscribes, broadcasts, step, run,
}

abbrev ip : Text
ip = codes "10.0.0.1"

abbrev idle : Limiter
idle = record { per_ip = []; total = 0; max_per_ip = 2; max_total = 3 }

-- The third subscription finds the address full, and the fourth finds room after the removal.
abbrev calls : List Call
calls =
    subscribes idle ip
    ∷ subscribes idle ip
    ∷ subscribes idle ip
    ∷ broadcasts (codes "m")
    ∷ unsubscribes 0
    ∷ unsubscribes 0
    ∷ subscribes idle ip
    ∷ []

abbrev hub : Hub
hub = run calls (new_hub_with_limits (pos 2) (pos 3))

hub_runs : (connection_count hub ≡ 2) × (hub.next_channel ≡ 3) × (hub.closed ≡ 0 ∷ [])
unfolding run step new_hub_with_limits new_limiter subscribe unsubscribe broadcast offer offer_all
    connection_count can_connect add_connection remove_connection lookup insert delete text_beq
hub_runs = (refl, refl, refl)

hub_limits_example :
    ((stats hub.limiter).0 ≡ connection_count hub)
    × (connections_of ip hub.limiter ≡ clients_of ip hub.clients)
    × (connection_count hub ≤ 3)
    × (clients_of ip hub.clients ≤ 2)
unfolding new_limiter
hub_limits_example = hub_limits (pos 2) (pos 3) calls ip

abbrev small : Hub
small = run (subscribes idle ip ∷ []) (new_hub_with_limits (pos 2) (pos 3))

small-IsValid : IsValid small
small-IsValid = run-IsValid (pos 2) (pos 3) (subscribes idle ip ∷ [])
