-- ===== src/Hub/Delivery.antt =====
-- Subscriptions one by one, and what a client gets to read.
use dockward.Prelude.{
  ℕ, zero, suc, ◌+◌, ◌-◌, ◌≤◌, ◌≡◌, ◌⊎◌, refl, ap, sym, ◌∙◌, List, [], ◌∷◌, ◌++◌, none, some, arith,
  if◌then◌else◌, ◌&&◌, beq_refl, length, nat_eq, ltb, take, length-append, is_some,
}
use mathlib.Core.List.{append_assoc, append-nil}
use dockward.Prelude.Text.{Text, text_eq}
use dockward.Prelude.Map.{Map, lookup, insert, delete, lookup-delete, lookup-insert}
use dockward.Hub.Limits.{Limiter, connections_of}
use dockward.Hub.{Hub, ClientInfo, default_buffer_size, subscribe, unsubscribe, offer, broadcast}
use dockward.Hub.Clients.{Channels-absent, clients_of, lookup-offer_all}
use dockward.Hub.Invariant.{IsValid}

-- A subscription that finds the limiter as it is succeeds just if the hub has fewer clients than
-- `max_total` and fewer from that address than `max_per_ip`. It then has a channel of its own, with
-- nothing to read, which no client had.
subscribe_accepts :
    (ip : Text) (h : Hub)
    → IsValid h
    → let (ch, t) = subscribe h.limiter ip h in
      (is_some ch ≡ (
        ltb (length h.clients) h.limiter.max_total
        && ltb (clients_of ip h.clients) h.limiter.max_per_ip))
      × (lookup h.next_channel h.clients ≡ none)
      × ((ch ≡ none)
          ⊎ ((ch ≡ some h.next_channel)
              × (lookup h.next_channel t.clients ≡ some (record { ip = ip; waiting = [] }))))
unfolding subscribe
subscribe_accepts ip h v = ground (
  arith,
  v.counted,
  v.counted_by_ip ip,
  Channels-absent h.next_channel h.clients v.channels,
  lookup-insert h.next_channel h.next_channel (record { ip = ip; waiting = [] }) h.clients,
)

delete-insert :
    (n : ℕ) (c : ClientInfo) (m : Map ℕ ClientInfo)
    → lookup n m ≡ none
    → delete n (insert n c m) ≡ m
unfolding delete insert lookup
delete-insert n c [] h = ground arith
delete-insert n c ((ch, d) ∷ m) h = ground (arith, delete-insert n c m)

-- A client that subscribes and then unsubscribes leaves the hub with the clients that it had, and
-- its address with the count that it had.
unsubscribe-subscribe :
    (observed : Limiter) (ip : Text) (ch : ℕ) (h : Hub)
    → IsValid h
    → (subscribe observed ip h).0 ≡ some ch
    → let t = unsubscribe ch (subscribe observed ip h).1 in
      (t.clients ≡ h.clients)
      × (t.limiter.total ≡ h.limiter.total)
      × (connections_of ip t.limiter ≡ connections_of ip h.limiter)
unfolding subscribe unsubscribe
unsubscribe-subscribe observed ip ch h v e =
    let c : ClientInfo = record { ip = ip; waiting = [] } in
    ground (
      arith,
      v.counted,
      v.counted_by_ip ip,
      beq_refl ip,
      Channels-absent h.next_channel h.clients v.channels,
      lookup-insert h.next_channel h.next_channel c h.clients,
      delete-insert h.next_channel c h.clients,
      lookup-insert ip ip (connections_of ip h.limiter + 1) h.limiter.per_ip,
      lookup-insert ip ip (connections_of ip h.limiter + 1 - 1)
          (insert ip (connections_of ip h.limiter + 1) h.limiter.per_ip),
      lookup-delete ip ip (insert ip (connections_of ip h.limiter + 1) h.limiter.per_ip),
    )

unfoldable pub broadcast_each : List Text → Hub → Hub
broadcast_each [] h = h
broadcast_each (m ∷ ms) h = broadcast_each ms (broadcast m h)

take_all : {A : Type 0} (n : ℕ) (xs : List A) → length xs ≤ n → take n xs ≡ xs
take_all zero [] h = refl
take_all zero (x ∷ xs) h = absurd (omega arith)
take_all (suc n) [] h = refl
take_all (suc n) (x ∷ xs) h = ap (◌∷◌ x) (take_all n xs (omega arith))

take-append_full :
    {A : Type 0} (n : ℕ) (xs ys : List A) → n ≤ length xs → take n (xs ++ ys) ≡ take n xs
take-append_full zero xs ys h = refl
take-append_full (suc n) [] ys h = absurd (omega arith)
take-append_full (suc n) (x ∷ xs) ys h = ap (◌∷◌ x) (take-append_full n xs ys (omega arith))

-- What a client that reads nothing has after the messages.
unfoldable pub offers : List Text → ClientInfo → ClientInfo
offers [] c = c
offers (m ∷ ms) c = offers ms (offer m c)

lookup-broadcast_each :
    (ms : List Text) (ch : ℕ) (h : Hub) {c : ClientInfo}
    → lookup ch h.clients ≡ some c
    → lookup ch (broadcast_each ms h).clients ≡ some (offers ms c)
unfolding broadcast_each offers broadcast
lookup-broadcast_each [] ch h e = e
lookup-broadcast_each (m ∷ ms) ch h {c} e =
    lookup-broadcast_each ms ch (broadcast m h) {c = offer m c}
      (ground (arith, lookup-offer_all m ch h.clients))

-- A queue of at most n messages takes a message if it has room.
abbrev queued : ℕ → Text → List Text → List Text
queued n m waiting = if ltb (length waiting) n then waiting ++ (m ∷ []) else waiting

take-queued :
    (n : ℕ) (ws : List Text) (m : Text) (ms : List Text)
    → take n (queued n m ws ++ ms) ≡ take n (ws ++ (m ∷ ms))
take-queued n ws m ms =
    ground
      (arith, append_assoc ws (m ∷ []) ms, take-append_full n ws ms, take-append_full n ws (m ∷ ms))

waiting-offer :
    (m : Text) (c : ClientInfo) → (offer m c).waiting ≡ queued default_buffer_size m c.waiting
unfolding offer
waiting-offer m c = ground arith

offer-bound :
    (m : Text) (c : ClientInfo)
    → length c.waiting ≤ default_buffer_size
    → length (offer m c).waiting ≤ default_buffer_size
unfolding offer
offer-bound m c h = ground (arith, length-append c.waiting (m ∷ []))

ip-offers : (ms : List Text) (c : ClientInfo) → (offers ms c).ip ≡ c.ip
unfolding offers offer
ip-offers [] c = refl
ip-offers (m ∷ ms) c = ground (arith, ip-offers ms (offer m c))

waiting-offers :
    (ms : List Text) (c : ClientInfo)
    → length c.waiting ≤ default_buffer_size
    → (offers ms c).waiting ≡ take default_buffer_size (c.waiting ++ ms)
unfolding offers offer
waiting-offers [] c h = rw (append-nil c.waiting) (sym (take_all default_buffer_size c.waiting h))
waiting-offers (m ∷ ms) c h =
    waiting-offers ms (offer m c) (offer-bound m c h)
    ∙ rw (waiting-offer m c) (take-queued default_buffer_size c.waiting m ms)

-- A client that reads nothing while the messages are broadcast has then the first
-- `default_buffer_size` of what waited for it and the messages: the newest ones are dropped.
broadcast_each-waiting :
    (ms : List Text) (ch : ℕ) (h : Hub) (c : ClientInfo)
    → lookup ch h.clients ≡ some c
    → length c.waiting ≤ default_buffer_size
    → lookup ch (broadcast_each ms h).clients
      ≡ some (record c { waiting = take default_buffer_size (c.waiting ++ ms) })
broadcast_each-waiting ms ch h c e bound =
    ground
      (arith, lookup-broadcast_each ms ch h {c = c} e, waiting-offers ms c bound, ip-offers ms c)
