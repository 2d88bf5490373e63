-- ===== src/Warden/Tests.antt =====
-- Two agents, a few events, a heartbeat and two requests.
use dockward.Prelude.{ℕ, ◌≡◌, refl, List, [], ◌∷◌, Option, some, false}
use dockward.Prelude.Int.{pos}
use dockward.Prelude.Text.{Text, codes, text_eq, text_beq, has_prefix}
use dockward.Warden.Store.{
  AuditEntry, no_entry, AgentConfig, new_store, recent, append_all, load_state, save_state,
}
use dockward.Warden.Ring.{recent-append_all, load_state-save_state}
use dockward.Warden.Server.{
  Warden, new_warden, Request, entry, unreachable, status, Input, heartbeat, ingestion, poll,
  handle_ingest, bearer_token, react_all, valid_agent_token, token_of_agent,
}
use dockward.Warden.Agents.{shown_online, shown_is_last_heartbeat}

abbrev first : AgentConfig
first = record { id = codes "a1"; url = codes "http://a1"; token = codes "t1" }

abbrev second : AgentConfig
second = record { id = codes "a"; url = codes "http://a2"; token = codes "t2" }

abbrev agents : List AgentConfig
agents = first ∷ second ∷ []

abbrev event_at : ℕ → AuditEntry
event_at t = record no_entry { timestamp = t }

-- The encoding of an entry by its message alone.
abbrev encode : AuditEntry → Option Text
encode e = some e.message

abbrev history : List AuditEntry
history = event_at 1 ∷ event_at 2 ∷ event_at 3 ∷ []

recent-append_all_example :
    recent (pos 2) (append_all history (new_store agents)) ≡ event_at 3 ∷ event_at 2 ∷ []
recent-append_all_example = recent-append_all agents history 2

load_state-save_state_example :
    let s = append_all history (new_store agents) in
    recent (pos 2) (load_state (some (save_state s)) (new_store [])) ≡ recent (pos 2) s
load_state-save_state_example = load_state-save_state agents [] history 2

abbrev warden : Warden
warden = new_warden agents (pos 0) (pos 0)

abbrev posting : Text → Request
posting authorization = record {
  method = codes "POST";
  authorization = authorization;
  body = entry (event_at 0);
}

rejections :
    ((handle_ingest encode agents (posting (codes "Bearer t3")) 9 warden).0 ≡ 401)
    × ((handle_ingest encode agents (posting (codes "t2")) 9 warden).0 ≡ 401)
    × ((handle_ingest encode agents (record (posting []) { method = codes "GET" }) 9 warden).0
        ≡ 405)
unfolding handle_ingest bearer_token valid_agent_token token_of_agent text_beq has_prefix
rejections = (refl, refl, refl)

abbrev inputs : List Input
inputs =
    heartbeat second (status 200) 1 1
    ∷ heartbeat first unreachable 2 2
    ∷ ingestion (posting (codes "Bearer t2")) 3
    ∷ []

abbrev later : List Input
later = heartbeat second (status 500) 5 5 ∷ ingestion (posting (codes "Bearer t2")) 6 ∷ []

shown_is_last_heartbeat_example :
    let w = react_all encode agents inputs warden in
    let w' = poll encode first unreachable 4 4 w in
    shown_online (codes "a1") (react_all encode agents later w') ≡ false
unfolding text_beq
shown_is_last_heartbeat_example =
    shown_is_last_heartbeat encode agents first (pos 0) (pos 0) inputs later unreachable 4 4 refl
      ((λ e. cc), (tt, tt))
