-- ===== src/Hub.antt =====
-- internal/hub/hub.go: the publish-subscribe hub of the server-sent events. A channel is a number, new
-- for each `make`, with its queue of messages that the client has not read.
pub mod Limits
pub mod Clients
pub mod Invariant
pub mod Delivery
mod Tests
use dockward.Prelude.{
  not, ℕ, suc, ◌+◌, Bool, true, false, List, [], ◌∷◌, ◌++◌, Option, none, some, if◌then◌else◌,
  length, nat_eq, ltb,
}
use dockward.Prelude.Int.{ℤ, pos}
use dockward.Prelude.Text.{Text}
use dockward.Prelude.Map.{Map, lookup, insert, delete}
use Limits.{Limiter, new_limiter, can_connect, add_connection, remove_connection}

abbrev pub default_buffer_size : ℕ
default_buffer_size = 64

-- `ClientInfo`, with the messages waiting in its channel, oldest first.
pub record ClientInfo : Type 0 where
  pub ip : Text
  pub waiting : List Text

-- `closed` lists the channels that were closed, and `next_channel` is the number of the next one.
pub record Hub : Type 0 where
  pub clients : Map ℕ ClientInfo
  pub limiter : Limiter
  pub next_channel : ℕ
  pub closed : List ℕ

unfoldable pub new_hub_with_limits : ℤ → ℤ → Hub
unfolding new_limiter
new_hub_with_limits max_per_ip max_total = record {
  clients = [];
  limiter = new_limiter max_per_ip max_total;
  next_channel = 0;
  closed = [];
}

-- `CanConnect` runs before the hub is locked, so it sees `observed`, the limiter of some earlier
-- moment. None is the error ErrTooManyConnections.
unfoldable pub subscribe : Limiter → Text → Hub → Option ℕ × Hub
unfolding can_connect add_connection
subscribe observed client_ip h =
    let (added, limiter) = add_connection client_ip h.limiter in
    if not (can_connect client_ip observed) then (none, h) else if not added then (none, h) else (
      some h.next_channel,
      record h {
        clients = insert h.next_channel (record { ip = client_ip; waiting = [] }) h.clients;
        limiter = limiter;
        next_channel = suc h.next_channel;
      },
    )

unfoldable pub unsubscribe : ℕ → Hub → Hub
unfolding remove_connection
unsubscribe ch h = elim (lookup ch h.clients) [
  | none ↦ h
  | some info ↦ record h {
    limiter = remove_connection info.ip h.limiter;
    clients = delete ch h.clients;
    closed = ch ∷ h.closed;
  }
]

-- A send that does not block: a full channel drops the message.
unfoldable pub offer : Text → ClientInfo → ClientInfo
offer message c =
    if ltb (length c.waiting) default_buffer_size
    then record c { waiting = c.waiting ++ (message ∷ []) }
    else c

unfoldable pub offer_all : Text → Map ℕ ClientInfo → Map ℕ ClientInfo
unfolding offer
offer_all message [] = []
offer_all message ((ch, c) ∷ clients) = (ch, offer message c) ∷ offer_all message clients

unfoldable pub broadcast : Text → Hub → Hub
unfolding offer_all
broadcast message h = record h { clients = offer_all message h.clients }

unfoldable pub connection_count : Hub → ℕ
connection_count h = length h.clients

-- The calls that change the hub, in the order in which they take its lock.
pub data Call : Type 0 where
  subscribes : Limiter → Text → Call
  unsubscribes : ℕ → Call
  broadcasts : Text → Call

unfoldable pub step : Call → Hub → Hub
step (subscribes observed ip) h = (subscribe observed ip h).1
step (unsubscribes ch) h = unsubscribe ch h
step (broadcasts message) h = broadcast message h

unfoldable pub run : List Call → Hub → Hub
run [] h = h
run (c ∷ cs) h = run cs (step c h)
