-- ===== src/Warden/Server.antt =====
-- internal/warden/heartbeat.go and ingest.go: what changes the store of the warden, its memory of the
-- agents and its hub. `encode` is `json.Marshal` of an entry, none for its error; `now` and `seen` are
-- times.
use dockward.Prelude.{
  ℕ, Bool, true, false, not, List, [], ◌∷◌, Option, none, some, ◌==◌, if◌then◌else◌, or_zero,
  nat_eq,
}
use dockward.Prelude.Int.{ℤ}
use dockward.Prelude.Text.{Text, text_eq, codes, has_prefix}
use dockward.Prelude.Map.{Map, lookup, insert}
use dockward.References.{trim_prefix}
use dockward.Hub.{Hub, new_hub_with_limits, broadcast}
use dockward.Warden.Store.{
  AuditEntry, no_entry, AgentConfig, Store, new_store, append, set_agent_state,
}

-- The store, the map `online` of the heartbeat, and the hub that both write to.
pub record Warden : Type 0 where
  pub store : Store
  pub online : Map Text Bool
  pub hub : Hub

unfoldable pub assume_offline : List AgentConfig → Map Text Bool → Map Text Bool
assume_offline [] m = m
assume_offline (a ∷ agents) m = assume_offline agents (insert a.id false m)

unfoldable pub new_warden : List AgentConfig → ℤ → ℤ → Warden
unfolding assume_offline new_store
new_warden agents max_per_ip max_total = record {
  store = new_store agents;
  online = assume_offline agents [];
  hub = new_hub_with_limits max_per_ip max_total;
}

-- What an agent answers to GET /health.
pub data Reply : Type 0 where
  unreachable : Reply
  status : ℕ → Reply

-- What the body of a request holds.
pub data Body : Type 0 where
  unreadable : Body
  invalid_json : Body
  entry : AuditEntry → Body

pub record Request : Type 0 where
  pub method : Text
  pub authorization : Text
  pub body : Body

module _ (encode : AuditEntry → Option Text) where
  -- `store.Append`, then `hub.Broadcast` of the encoded entry.
  unfoldable pub publish : AuditEntry → Warden → Warden
  publish e w =
      let w' = record w { store = append e w.store } in
      elim (encode e) [ none ↦ w' | some payload ↦ record w' { hub = broadcast payload w'.hub } ]

  unfoldable pub transition : Text → Bool → ℕ → ℕ → Warden → Warden
  unfolding publish
  transition id now_online seen now w =
      let was_online = or_zero false (lookup id w.online) in
      let w' = record w {
        online = insert id now_online w.online;
        store = set_agent_state id now_online seen w.store;
      } in
      let announce = λ (event message level : Text).
        publish
          (record no_entry {
            timestamp = now;
            machine = id;
            service = codes "warden";
            event = event;
            message = message;
            level = level;
          })
          w' in
      if was_online
      then if now_online
        then w'
        else announce (codes "agent_offline") (codes "Agent went offline.") (codes "warning")
      else if now_online
      then announce (codes "agent_online") (codes "Agent came online.") (codes "info")
      else w'

  unfoldable pub poll : AgentConfig → Reply → ℕ → ℕ → Warden → Warden
  unfolding transition
  poll a unreachable seen now w = transition a.id false seen now w
  poll a (status code) seen now w = transition a.id (code == 200) seen now w

-- `strings.TrimPrefix(hdr, "Bearer ")`, if the header has the prefix.
unfoldable pub bearer_token : Text → Text
bearer_token hdr =
    if has_prefix hdr (codes "Bearer ") then trim_prefix hdr (codes "Bearer ") else []

unfoldable pub token_of_agent : List AgentConfig → Text → Bool
token_of_agent [] token = false
token_of_agent (a ∷ agents) token =
    let rest = token_of_agent agents token in if a.token == token then true else rest

unfoldable pub valid_agent_token : List AgentConfig → Text → Bool
unfolding token_of_agent
valid_agent_token agents token = if token == [] then false else token_of_agent agents token

-- The entry with the time of its arrival, if it has none.
unfoldable pub stamped : ℕ → AuditEntry → AuditEntry
stamped now e = if e.timestamp == 0 then record e { timestamp = now } else e

-- What reaches the warden: a heartbeat of an agent, or a request.
pub data Input : Type 0 where
  heartbeat : AgentConfig → Reply → ℕ → ℕ → Input
  ingestion : Request → ℕ → Input

module _ (encode : AuditEntry → Option Text) where
  -- The status of the answer, and the warden after.
  unfoldable pub handle_ingest : List AgentConfig → Request → ℕ → Warden → ℕ × Warden
  unfolding publish bearer_token valid_agent_token stamped
  handle_ingest agents r now w =
      if not (r.method == codes "POST")
      then (405, w)
      else if not (valid_agent_token agents (bearer_token r.authorization))
      then (401, w)
      else elim r.body [
        | unreadable ↦ (400, w)
        | invalid_json ↦ (400, w)
        | entry e ↦ (204, publish encode (stamped now e) w)
      ]

  unfoldable pub react : List AgentConfig → Input → Warden → Warden
  unfolding poll handle_ingest
  react agents (heartbeat a reply seen now) w = poll encode a reply seen now w
  react agents (ingestion r now) w = (handle_ingest agents r now w).1

  unfoldable pub react_all : List AgentConfig → List Input → Warden → Warden
  react_all agents [] w = w
  react_all agents (i ∷ is) w = react_all agents is (react agents i w)
