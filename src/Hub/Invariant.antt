-- ===== src/Hub/Invariant.antt =====
-- internal/hub: the counts of the limiter against the clients of the hub.
use dockward.Prelude.{
  ℕ, ◌+◌, ◌-◌, ◌≤◌, ◌≡◌, refl, ◌∙◌, List, [], ◌∷◌, arith, inl, inr, beq_refl, or_zero, length,
  nat_eq, Option-cases,
}
use dockward.Prelude.Int.{ℤ}
use dockward.Prelude.Text.{Text, text_eq, text_beq_iff}
use dockward.Prelude.Map.{lookup, lookup-insert, lookup-delete}
use dockward.Hub.Limits.{Limiter, new_limiter, connections_of, stats}
use dockward.Hub.{
  Hub, ClientInfo, new_hub_with_limits, subscribe, unsubscribe, broadcast, connection_count, Call,
  subscribes, unsubscribes, broadcasts, step, run,
}
use dockward.Hub.Clients.{
  Channels, clients_of, insert-Channels, length-insert, clients_of-insert, delete-Channels,
  length-delete, clients_of-delete, length-offer_all, clients_of-offer_all, offer_all-Channels,
}

pub record IsValid (h : Hub) : Type 0 where
  pub channels : Channels h.next_channel h.clients
  pub counted : h.limiter.total ≡ length h.clients
  pub counted_by_ip : (ip : Text) → or_zero 0 (lookup ip h.limiter.per_ip) ≡ clients_of ip h.clients
  pub within_total : length h.clients ≤ h.limiter.max_total
  pub within_ip : (ip : Text) → clients_of ip h.clients ≤ h.limiter.max_per_ip

new_hub-IsValid : (a b : ℤ) → IsValid (new_hub_with_limits a b)
unfolding new_hub_with_limits lookup
new_hub-IsValid a b = record {
  channels = tt;
  counted = refl;
  counted_by_ip = λ ip. refl;
  within_total = omega arith;
  within_ip = λ ip. omega arith;
}

subscribe-IsValid :
    (observed : Limiter) (ip : Text) (h : Hub) → IsValid h → IsValid (subscribe observed ip h).1
unfolding subscribe
subscribe-IsValid observed ip h v = record {
  channels = ground (arith, insert-Channels h.next_channel c h.clients v.channels);
  counted = ground (arith, v.counted, length-insert h.next_channel c h.clients v.channels);
  counted_by_ip = λ other. ground (
    arith,
    v.counted_by_ip other,
    v.counted_by_ip ip,
    text_beq_iff ip other,
    clients_of-insert h.next_channel c other h.clients v.channels,
    lookup-insert other ip (connections_of ip h.limiter + 1) h.limiter.per_ip,
  );
  within_total =
      ground
        (arith, v.counted, v.within_total, length-insert h.next_channel c h.clients v.channels);
  within_ip = λ other. ground (
    arith,
    v.within_ip other,
    v.counted_by_ip ip,
    text_beq_iff ip other,
    clients_of-insert h.next_channel c other h.clients v.channels,
  );
}
  where
    c : ClientInfo
    c = record { ip = ip; waiting = [] }

broadcast-IsValid : (message : Text) (h : Hub) → IsValid h → IsValid (broadcast message h)
unfolding broadcast
broadcast-IsValid message h v = record {
  channels = offer_all-Channels message h.next_channel h.clients v.channels;
  counted = rw (length-offer_all message h.clients) v.counted;
  counted_by_ip = λ ip. rw (clients_of-offer_all message ip h.clients) (v.counted_by_ip ip);
  within_total = rw (length-offer_all message h.clients) v.within_total;
  within_ip = λ ip. rw (clients_of-offer_all message ip h.clients) (v.within_ip ip);
}

unsubscribe-IsValid : (ch : ℕ) (h : Hub) → IsValid h → IsValid (unsubscribe ch h)
unfolding unsubscribe
unsubscribe-IsValid ch h v = elim (Option-cases (lookup ch h.clients)) [
  | inl miss ↦ rw (miss, unsubscribe) v
  | inr (c, hit) ↦
      let shorter = length-delete h.next_channel ch h.clients {c = c} v.channels hit in
      let fewer =
        λ (ip : Text). clients_of-delete h.next_channel ch ip h.clients {c = c} v.channels hit in
      rw (hit, unsubscribe)
        (record {
          channels = delete-Channels h.next_channel ch h.clients v.channels;
          counted =
              ground (arith, v.counted, v.counted_by_ip c.ip, shorter, fewer c.ip, beq_refl c.ip);
          counted_by_ip = λ ip. ground (
            arith,
            v.counted_by_ip ip,
            v.counted_by_ip c.ip,
            fewer ip,
            fewer c.ip,
            text_beq_iff c.ip ip,
            beq_refl c.ip,
            lookup-delete ip c.ip h.limiter.per_ip,
            lookup-insert ip c.ip (connections_of c.ip h.limiter - 1) h.limiter.per_ip,
          );
          within_total = ground (arith, v.within_total, shorter);
          within_ip = λ ip. ground (arith, v.within_ip ip, fewer ip);
        })
]

run_from-IsValid : (cs : List Call) (h : Hub) → IsValid h → IsValid (run cs h)
unfolding run step
run_from-IsValid [] h v = v
run_from-IsValid (subscribes observed ip ∷ cs) h v =
    run_from-IsValid cs _ (subscribe-IsValid observed ip h v)
run_from-IsValid (unsubscribes ch ∷ cs) h v = run_from-IsValid cs _ (unsubscribe-IsValid ch h v)
run_from-IsValid (broadcasts message ∷ cs) h v =
    run_from-IsValid cs _ (broadcast-IsValid message h v)

pub run-IsValid : (a b : ℤ) (cs : List Call) → IsValid (run cs (new_hub_with_limits a b))
run-IsValid a b cs = run_from-IsValid cs (new_hub_with_limits a b) (new_hub-IsValid a b)

step-limits :
    (c : Call) (h : Hub)
    → ((step c h).limiter.max_total ≡ h.limiter.max_total)
      × ((step c h).limiter.max_per_ip ≡ h.limiter.max_per_ip)
unfolding step subscribe unsubscribe broadcast
step-limits (subscribes observed ip) h = ground arith
step-limits (unsubscribes ch) h = ground arith
step-limits (broadcasts message) h = ground arith

run-limits :
    (cs : List Call) (h : Hub)
    → ((run cs h).limiter.max_total ≡ h.limiter.max_total)
      × ((run cs h).limiter.max_per_ip ≡ h.limiter.max_per_ip)
unfolding run
run-limits [] h = (refl, refl)
run-limits (c ∷ cs) h =
    let (a, b) = run-limits cs (step c h) in let (p, q) = step-limits c h in (a ∙ p, b ∙ q)

within_limits :
    (cs : List Call) (h : Hub)
    → IsValid (run cs h)
    → (length (run cs h).clients ≤ h.limiter.max_total)
      × ((ip : Text) → clients_of ip (run cs h).clients ≤ h.limiter.max_per_ip)
within_limits cs h v =
    let (total, per_ip) = run-limits cs h in
    (ground (arith, total, v.within_total), λ ip. ground (arith, per_ip, v.within_ip ip))

-- After any calls of a new hub, with the limiter consulted at any earlier moments: the total that the
-- limiter reports is the number of clients, its count for each address is the number of clients from
-- there, and neither passes the limits that the hub was made with.
pub hub_limits :
    (a b : ℤ) (cs : List Call) (ip : Text)
    → let h = run cs (new_hub_with_limits a b) in
      ((stats h.limiter).0 ≡ connection_count h)
      × (connections_of ip h.limiter ≡ clients_of ip h.clients)
      × (connection_count h ≤ (new_limiter a b).max_total)
      × (clients_of ip h.clients ≤ (new_limiter a b).max_per_ip)
unfolding connection_count stats new_hub_with_limits
hub_limits a b cs ip =
    let v = run-IsValid a b cs in
    let (total, per_ip) = within_limits cs (new_hub_with_limits a b) v in
    (v.counted, v.counted_by_ip ip, total, per_ip ip)
