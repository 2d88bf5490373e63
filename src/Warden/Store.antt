-- ===== src/Warden/Store.antt =====
-- internal/warden/store.go: a ring buffer of the newest 200 events, and what is known of the agents.
use Prim.Native.Nat.{min}
use dockward.Prelude.{
  ℕ, zero, suc, ◌+◌, ◌-◌, ◌%◌, Bool, false, List, [], ◌∷◌, Option, none, some, ◌==◌, if◌then◌else◌,
  ltb, nat_eq, reverse, set, get_or, replicate,
}
use dockward.Prelude.Int.{ℤ, pos, negsuc}
use dockward.Prelude.Text.{Text, text_eq}
use dockward.Prelude.Map.{Map, lookup, insert}

abbrev pub ring_size : ℕ
ring_size = 200

-- `audit.Entry` as an agent sends it; a timestamp of 0 is Go's zero time.
pub record AuditEntry : Type 0 where
  pub timestamp : ℕ
  pub machine : Text
  pub service : Text
  pub event : Text
  pub message : Text
  pub level : Text
  pub old_digest : Text
  pub new_digest : Text
  pub container : Text
  pub reason : Text
  pub output : Text

abbrev pub no_entry : AuditEntry
no_entry = record {
  timestamp = 0;
  machine = [];
  service = [];
  event = [];
  message = [];
  level = [];
  old_digest = [];
  new_digest = [];
  container = [];
  reason = [];
  output = [];
}

pub record AgentConfig : Type 0 where
  pub id : Text
  pub url : Text
  pub token : Text

pub record AgentState : Type 0 where
  pub id : Text
  pub url : Text
  pub last_seen : ℕ
  pub online : Bool

-- `head` is the next index to write, `count` the number of entries stored.
pub record Store : Type 0 where
  pub events : List AuditEntry
  pub head : ℕ
  pub count : ℕ
  pub agents : Map Text AgentState

unfoldable pub add_agents : List AgentConfig → Map Text AgentState → Map Text AgentState
add_agents [] m = m
add_agents (a ∷ agents) m =
    add_agents agents
      (insert a.id (record { id = a.id; url = a.url; last_seen = 0; online = false }) m)

unfoldable pub new_store : List AgentConfig → Store
unfolding add_agents
new_store agents = record {
  events = replicate ring_size no_entry;
  head = 0;
  count = 0;
  agents = add_agents agents [];
}

unfoldable pub append : AuditEntry → Store → Store
append e s = record s {
  events = set s.events s.head e;
  head = (s.head + 1) % ring_size;
  count = if ltb s.count ring_size then s.count + 1 else s.count;
}

-- The loop of `Recent` from `i`, with `k` rounds to go. The source computes the index as
-- `(head - 1 - i + ringSize) % ringSize`; here the sum is taken first, as `i` is below `ringSize`.
unfoldable pub walk : Store → ℕ → ℕ → List AuditEntry
walk s i zero = []
walk s i (suc k) =
    get_or s.events ((s.head + ring_size - 1 - i) % ring_size) no_entry ∷ walk s (suc i) k

unfoldable pub recent : ℤ → Store → List AuditEntry
unfolding walk
recent (negsuc n) s = []
recent (pos n) s = if n == 0 then [] else if s.count == 0 then [] else walk s 0 (min n s.count)

unfoldable pub set_agent_state : Text → Bool → ℕ → Store → Store
set_agent_state id online now s = elim (lookup id s.agents) [
  | none ↦ s
  | some a ↦ record s {
    agents = insert id (record a { online = online; last_seen = now }) s.agents;
  }
]

unfoldable pub append_all : List AuditEntry → Store → Store
append_all [] s = s
append_all (e ∷ es) s = append_all es (append e s)

-- A state file is the list of entries that it encodes; none is a file that is missing or does not
-- parse. The path is not empty.
unfoldable pub load_state : Option (List AuditEntry) → Store → Store
unfolding append_all
load_state none s = s
load_state (some entries) s = append_all entries s

unfoldable pub save_state : Store → List AuditEntry
unfolding recent
save_state s = reverse (recent (pos ring_size) s)
