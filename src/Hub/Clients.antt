-- ===== src/Hub/Clients.antt =====
-- The clients of the hub (`Hub.clients` of internal/hub/hub.go) as a map: what a write, a removal and
-- a broadcast do to their number and to the number from an address.
use dockward.Prelude.{
  ℕ, suc, ◌<◌, ◌≡◌, refl, ap, [], ◌∷◌, none, some, ◌==◌, arith, if◌then◌else◌, length, nat_eq,
}
use dockward.Prelude.Text.{Text, text_eq}
use dockward.Prelude.Map.{Map, lookup, insert, delete, lookup-insert, lookup-delete, delete_absent}
use dockward.Hub.{ClientInfo, offer, offer_all}

-- The clients that connected from an address.
abbrev pub clients_of : Text → Map ℕ ClientInfo → ℕ
clients_of ip [] = 0
clients_of ip ((ch, c) ∷ clients) =
    let rest = clients_of ip clients in if c.ip == ip then suc rest else rest

-- Each channel occurs once and is below the next number.
abbrev pub Channels : ℕ → Map ℕ ClientInfo → Type 0
Channels n [] = Unit {0}
Channels n ((ch, c) ∷ clients) = (ch < n) × (lookup ch clients ≡ none) × Channels n clients

pub Channels-absent : (n : ℕ) (m : Map ℕ ClientInfo) → Channels n m → lookup n m ≡ none
unfolding lookup
Channels-absent n [] h = refl
Channels-absent n ((ch, c) ∷ m) h = ground (arith, Channels-absent n m h.2)

pub Channels-suc : (n : ℕ) (m : Map ℕ ClientInfo) → Channels n m → Channels (suc n) m
Channels-suc n [] h = tt
Channels-suc n ((ch, c) ∷ m) h = (omega arith, h.1, Channels-suc n m h.2)

-- A write at a new channel comes last.
module _ (n : ℕ) (c : ClientInfo) where
  pub insert-Channels : (m : Map ℕ ClientInfo) → Channels n m → Channels (suc n) (insert n c m)
  unfolding insert lookup
  insert-Channels [] h = (omega arith, refl, tt)
  insert-Channels ((ch, d) ∷ m) h = ground (arith, lookup-insert ch n c m, insert-Channels m h.2)

  pub length-insert : (m : Map ℕ ClientInfo) → Channels n m → length (insert n c m) ≡ suc (length m)
  unfolding insert
  length-insert [] h = refl
  length-insert ((ch, d) ∷ m) h = ground (arith, length-insert m h.2)

  pub clients_of-insert :
      (ip : Text) (m : Map ℕ ClientInfo)
      → Channels n m
      → clients_of ip (insert n c m)
        ≡ (if c.ip == ip then suc (clients_of ip m) else clients_of ip m)
  unfolding insert
  clients_of-insert ip [] h = refl
  clients_of-insert ip ((ch, d) ∷ m) h = ground (arith, clients_of-insert ip m h.2)

module _ (n k : ℕ) where
  pub delete-Channels : (m : Map ℕ ClientInfo) → Channels n m → Channels n (delete k m)
  unfolding delete
  delete-Channels [] h = tt
  delete-Channels ((ch, d) ∷ m) h = ground (arith, lookup-delete ch k m, delete-Channels m h.2)

  pub length-delete :
      (m : Map ℕ ClientInfo) {c : ClientInfo}
      → Channels n m
      → lookup k m ≡ some c
      → suc (length (delete k m)) ≡ length m
  unfolding delete lookup
  length-delete [] h e = cc
  length-delete ((ch, d) ∷ m) {c} h e =
      ground (arith, delete_absent ch m h.1, length-delete m {c = c} h.2)

  pub clients_of-delete :
      (ip : Text) (m : Map ℕ ClientInfo) {c : ClientInfo}
      → Channels n m
      → lookup k m ≡ some c
      → (if c.ip == ip then suc (clients_of ip (delete k m)) else clients_of ip (delete k m))
        ≡ clients_of ip m
  unfolding delete lookup
  clients_of-delete ip [] h e = cc
  clients_of-delete ip ((ch, d) ∷ m) {c} h e =
      ground (arith, delete_absent ch m h.1, clients_of-delete ip m {c = c} h.2)

-- A broadcast changes the queues only.
pub lookup-offer_all :
    (message : Text) (ch : ℕ) (m : Map ℕ ClientInfo)
    → lookup ch (offer_all message m)
      ≡ (elim (lookup ch m) [ none ↦ none | some c ↦ some (offer message c) ])
unfolding lookup offer_all
lookup-offer_all message ch [] = refl
lookup-offer_all message ch ((j, c) ∷ m) = ground (arith, lookup-offer_all message ch m)

pub length-offer_all :
    (message : Text) (m : Map ℕ ClientInfo) → length (offer_all message m) ≡ length m
unfolding offer_all
length-offer_all message [] = refl
length-offer_all message ((ch, c) ∷ m) = ap suc (length-offer_all message m)

pub clients_of-offer_all :
    (message ip : Text) (m : Map ℕ ClientInfo)
    → clients_of ip (offer_all message m) ≡ clients_of ip m
unfolding offer_all
clients_of-offer_all message ip [] = refl
clients_of-offer_all message ip ((ch, c) ∷ m) = ground (arith, clients_of-offer_all message ip m)

pub offer_all-Channels :
    (message : Text) (n : ℕ) (m : Map ℕ ClientInfo)
    → Channels n m
    → Channels n (offer_all message m)
unfolding offer_all
offer_all-Channels message n [] h = tt
offer_all-Channels message n ((ch, c) ∷ m) h =
    ground (arith, lookup-offer_all message ch m, offer_all-Channels message n m h.2)
