-- ===== src/Warden/Agents.antt =====
-- The two places that know which agents are online: the store and the heartbeat.
use dockward.Prelude.{
  ℕ, ◌≡◌, refl, Bool, true, false, List, [], ◌∷◌, Option, none, some, ◌==◌, arith, or_zero,
  beq_refl, nat_eq, subst, sym, All, ◌≢◌, ap, ◌∙◌, Option-cases, inl, inr, is_some, any_of, ◌⊎◌,
}
use dockward.Prelude.Int.{ℤ}
use dockward.Prelude.Text.{Text, text_eq, text_beq_iff}
use dockward.Prelude.Map.{Map, lookup, insert, lookup-insert}
use dockward.Warden.Store.{
  AuditEntry, AgentConfig, AgentState, new_store, add_agents, append, set_agent_state,
}
use dockward.Warden.Access.{ingest_cases}
use dockward.Warden.Server.{
  Reply, stamped, Warden, new_warden, assume_offline, publish, transition, poll, handle_ingest,
  unreachable, status, Input, heartbeat, ingestion, react, react_all,
}

-- What the store says of an agent, false if it does not know the agent.
abbrev pub shown_online : Text → Warden → Bool
shown_online id w = elim (lookup id w.store.agents) [ none ↦ false | some a ↦ a.online ]

-- The store knows the agent, and agrees with the heartbeat.
abbrev InStep : Text → Warden → Type 0
InStep id w =
    (is_some (lookup id w.store.agents) ≡ true)
    × (shown_online id w ≡ or_zero false (lookup id w.online))

publish-agents :
    (encode : AuditEntry → Option Text) (e : AuditEntry) (w : Warden)
    → ((publish encode e w).store.agents ≡ w.store.agents)
      × ((publish encode e w).online ≡ w.online)
unfolding publish append
publish-agents encode e w = ground arith

-- What a transition stores, whatever it announces.
transition-agents :
    (encode : AuditEntry → Option Text) (id : Text) (b : Bool) (seen now : ℕ) (w : Warden)
    → ((transition encode id b seen now w).store.agents
        ≡ (set_agent_state id b seen w.store).agents)
      × ((transition encode id b seen now w).online ≡ insert id b w.online)
unfolding transition publish append
transition-agents encode id b seen now w = ground arith

transition-InStep :
    (encode : AuditEntry → Option Text) (id other : Text) (b : Bool) (seen now : ℕ) (w : Warden)
    → InStep id w
    → InStep id (transition encode other b seen now w)
unfolding set_agent_state
transition-InStep encode id other b seen now w h =
    elim (Option-cases (lookup other w.store.agents)) [
      | inl miss ↦ ground (
        arith,
        transition-agents encode other b seen now w,
        text_beq_iff other id,
        lookup-insert id other b w.online,
      )
      | inr (a, hit) ↦ ground (
        arith,
        transition-agents encode other b seen now w,
        text_beq_iff other id,
        lookup-insert id other b w.online,
        lookup-insert id other (record a { online = b; last_seen = seen }) w.store.agents,
      )
    ]

react-InStep :
    (encode : AuditEntry → Option Text) (agents : List AgentConfig) (id : Text) (i : Input)
    (w : Warden)
    → InStep id w
    → InStep id (react encode agents i w)
unfolding react poll handle_ingest
react-InStep encode agents id (heartbeat a unreachable seen now) w h =
    transition-InStep encode id a.id false seen now w h
react-InStep encode agents id (heartbeat a (status code) seen now) w h =
    transition-InStep encode id a.id (code == 200) seen now w h
react-InStep encode agents id (ingestion r now) w h = elim (ingest_cases encode agents r now w) [
  | inl (_, same) ↦ subst (InStep id) (sym same) h
  | inr (e, _, stored, _, _, _) ↦
      subst (InStep id) (sym stored) (ground (arith, publish-agents encode (stamped now e) w))
]

react_all-InStep :
    (encode : AuditEntry → Option Text) (agents : List AgentConfig) (id : Text) (is : List Input)
    (w : Warden)
    → InStep id w
    → InStep id (react_all encode agents is w)
unfolding react_all
react_all-InStep encode agents id [] w h = h
react_all-InStep encode agents id (i ∷ is) w h =
    react_all-InStep encode agents id is (react encode agents i w)
      (react-InStep encode agents id i w h)

-- Agents that were added and are not online.
lookup-add_agents :
    (agents : List AgentConfig) (id : Text) (m : Map Text AgentState) (k : Map Text Bool)
    → ((is_some (lookup id m) ≡ true) ⊎ (any_of (λ a. a.id == id) agents ≡ true))
    → elim (lookup id m) [ none ↦ false | some a ↦ a.online ] ≡ or_zero false (lookup id k)
    → (is_some (lookup id (add_agents agents m)) ≡ true)
      × (elim (lookup id (add_agents agents m)) [ none ↦ false | some a ↦ a.online ]
          ≡ or_zero false (lookup id (assume_offline agents k)))
unfolding add_agents assume_offline
lookup-add_agents [] id m k known agree = ground arith
lookup-add_agents (a ∷ agents) id m k known agree =
    let state : AgentState = record { id = a.id; url = a.url; last_seen = 0; online = false } in
    lookup-add_agents agents id (insert a.id state m) (insert a.id false k)
      (ground (arith, lookup-insert id a.id state m))
      (ground (arith, lookup-insert id a.id state m, lookup-insert id a.id false k))

new_warden-InStep :
    (agents : List AgentConfig) (id : Text) (a b : ℤ)
    → any_of (λ c. c.id == id) agents ≡ true
    → InStep id (new_warden agents a b)
unfolding new_warden new_store lookup
new_warden-InStep agents id a b h = lookup-add_agents agents id [] [] (inr h) refl

-- A heartbeat of the agent.
abbrev pub IsOther : Text → Input → Type 0
IsOther id (heartbeat a reply seen now) = a.id ≢ id
IsOther id (ingestion r now) = Unit {0}

transition_keeps :
    (encode : AuditEntry → Option Text) (id other : Text) (b : Bool) (seen now : ℕ) (w : Warden)
    → other ≢ id
    → lookup id (transition encode other b seen now w).online ≡ lookup id w.online
transition_keeps encode id other b seen now w apart = ground (
  arith,
  transition-agents encode other b seen now w,
  text_beq_iff other id,
  lookup-insert id other b w.online,
)

react_keeps :
    (encode : AuditEntry → Option Text) (agents : List AgentConfig) (id : Text) (i : Input)
    (w : Warden)
    → IsOther id i
    → lookup id (react encode agents i w).online ≡ lookup id w.online
unfolding react poll handle_ingest
react_keeps encode agents id (heartbeat a unreachable seen now) w apart =
    transition_keeps encode id a.id false seen now w apart
react_keeps encode agents id (heartbeat a (status code) seen now) w apart =
    transition_keeps encode id a.id (code == 200) seen now w apart
react_keeps encode agents id (ingestion r now) w apart = elim (ingest_cases encode agents r now w) [
  | inl (_, same) ↦ ap (λ (v : Warden). lookup id v.online) same
  | inr (e, _, stored, _, _, _) ↦
      ap (λ (v : Warden). lookup id v.online) stored
      ∙ ap (lookup id) (publish-agents encode (stamped now e) w).1
]

react_all_keeps :
    (encode : AuditEntry → Option Text) (agents : List AgentConfig) (id : Text) (is : List Input)
    (w : Warden)
    → All (IsOther id) is
    → lookup id (react_all encode agents is w).online ≡ lookup id w.online
unfolding react_all
react_all_keeps encode agents id [] w others = refl
react_all_keeps encode agents id (i ∷ is) w others =
    react_all_keeps encode agents id is (react encode agents i w) others.1
    ∙ react_keeps encode agents id i w others.0

-- An agent is up if it answers with status 200.
abbrev pub is_up : Reply → Bool
is_up unreachable = false
is_up (status code) = code == 200

poll-transition :
    (encode : AuditEntry → Option Text) (agent : AgentConfig) (reply : Reply) (seen now : ℕ)
    (w : Warden)
    → poll encode agent reply seen now w ≡ transition encode agent.id (is_up reply) seen now w
unfolding poll
poll-transition encode agent unreachable seen now w = refl
poll-transition encode agent (status code) seen now w = refl

last_transition :
    (encode : AuditEntry → Option Text) (agents : List AgentConfig) (agent : AgentConfig) (a b : ℤ)
    (before since : List Input) (up : Bool) (seen now : ℕ)
    → any_of (λ c. c.id == agent.id) agents ≡ true
    → All (IsOther agent.id) since
    → let w = react_all encode agents before (new_warden agents a b) in
      let w' = transition encode agent.id up seen now w in
      shown_online agent.id (react_all encode agents since w') ≡ up
last_transition encode agents agent a b before since up seen now h others =
    let w = react_all encode agents before (new_warden agents a b) in
    let w' = transition encode agent.id up seen now w in
    let known =
      react_all-InStep encode agents agent.id before (new_warden agents a b)
        (new_warden-InStep agents agent.id a b h) in
    let after =
      react_all-InStep encode agents agent.id since w'
        (transition-InStep encode agent.id agent.id up seen now w known) in
    ground (
      arith,
      after,
      react_all_keeps encode agents agent.id since w' others,
      transition-agents encode agent.id up seen now w,
      beq_refl agent.id,
      lookup-insert agent.id agent.id up w.online,
    )

-- What the store shows of a configured agent is what its last heartbeat found: online if the agent
-- answered with status 200, offline if it answered with another status or could not be reached, whatever
-- other agents and requests came before and since.
pub shown_is_last_heartbeat :
    (encode : AuditEntry → Option Text) (agents : List AgentConfig) (agent : AgentConfig) (a b : ℤ)
    (before since : List Input) (reply : Reply) (seen now : ℕ)
    → any_of (λ c. c.id == agent.id) agents ≡ true
    → All (IsOther agent.id) since
    → let w = react_all encode agents before (new_warden agents a b) in
      let w' = poll encode agent reply seen now w in
      shown_online agent.id (react_all encode agents since w') ≡ is_up reply
shown_is_last_heartbeat encode agents agent a b before since reply seen now h others =
    let w = react_all encode agents before (new_warden agents a b) in
    ap (λ v. shown_online agent.id (react_all encode agents since v))
      (poll-transition encode agent reply seen now w)
    ∙ last_transition encode agents agent a b before since (is_up reply) seen now h others
