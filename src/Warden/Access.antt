-- ===== src/Warden/Access.antt =====
-- Which requests reach the store, and what an accepted one leaves there.
use dockward.Prelude.{
  ℕ, suc, take, ◌≡◌, ◌≢◌, ◌⊎◌, refl, none, some, true, List, [], ◌∷◌, ◌++◌, Option, arith, beq_refl,
}
use dockward.Prelude.Int.{pos}
use dockward.Prelude.Text.{Text, text_eq, text_beq_iff, codes, has_prefix}
use dockward.Hub.{broadcast}
use dockward.Warden.Store.{AuditEntry, AgentConfig, append, recent}
use dockward.Warden.Ring.{Recalls, recent-append}
use dockward.Warden.Server.{
  Warden, Request, entry, bearer_token, token_of_agent, valid_agent_token, stamped, publish,
  handle_ingest,
}

-- A configured agent with the token.
abbrev pub Configured : List AgentConfig → Text → Type 0
Configured agents token =
    (before after : List AgentConfig) × (a : AgentConfig) × (agents ≡ before ++ (a ∷ after))
    × (a.token ≡ token)

pub ingest_cases :
    (encode : AuditEntry → Option Text) (agents : List AgentConfig) (r : Request) (now : ℕ)
    (w : Warden)
    → let (code, t) = handle_ingest encode agents r now w in
      (((code ≡ 405) ⊎ (code ≡ 401) ⊎ (code ≡ 400)) × (t ≡ w))
      ⊎ ((e : AuditEntry) × (code ≡ 204)
          × (t ≡ publish encode (stamped now e) w)
          × (r.method ≡ codes "POST")
          × (r.body ≡ entry e)
          × (valid_agent_token agents (bearer_token r.authorization) ≡ true))
unfolding handle_ingest
ingest_cases encode agents r now w = ground (arith, text_beq_iff r.method (codes "POST"))

-- What a publication does: the entry is stored, and its encoding, if it has one, is broadcast.
abbrev pub Published : (AuditEntry → Option Text) → AuditEntry → Warden → Warden → Type 0
Published encode e w t =
    (t.store ≡ append e w.store)
    × (t.online ≡ w.online)
    × (((encode e ≡ none) × (t.hub ≡ w.hub))
        ⊎ ((payload : Text) × (encode e ≡ some payload) × (t.hub ≡ broadcast payload w.hub)))

token_of_agent-append :
    (before after : List AgentConfig) (a : AgentConfig)
    → token_of_agent (before ++ (a ∷ after)) a.token ≡ true
unfolding token_of_agent
token_of_agent-append [] after a = ground (arith, beq_refl a.token)
token_of_agent-append (b ∷ before) after a = ground (arith, token_of_agent-append before after a)

bearer_token-append : (token : Text) → bearer_token (codes "Bearer " ++ token) ≡ token
unfolding bearer_token has_prefix
bearer_token-append token = refl

valid_agent_token_own :
    (before after : List AgentConfig) (a : AgentConfig)
    → a.token ≢ []
    → valid_agent_token (before ++ (a ∷ after)) a.token ≡ true
unfolding valid_agent_token
valid_agent_token_own before after a nonempty =
    ground (arith, text_beq_iff a.token [], token_of_agent-append before after a)

valid_agent_token-bearer_token :
    (before after : List AgentConfig) (a : AgentConfig) (hdr : Text)
    → a.token ≢ []
    → hdr ≡ codes "Bearer " ++ a.token
    → valid_agent_token (before ++ (a ∷ after)) (bearer_token hdr) ≡ true
valid_agent_token-bearer_token before after a hdr nonempty h =
    rw (h, bearer_token-append a.token) (valid_agent_token_own before after a nonempty)

publish-store :
    (encode : AuditEntry → Option Text) (e : AuditEntry) (w : Warden)
    → (publish encode e w).store ≡ append e w.store
unfolding publish
publish-store encode e w = ground arith

accepted :
    (encode : AuditEntry → Option Text) (agents : List AgentConfig) (r : Request) (e : AuditEntry)
    (now : ℕ) (w : Warden)
    → valid_agent_token agents (bearer_token r.authorization) ≡ true
    → r.method ≡ codes "POST"
    → r.body ≡ entry e
    → handle_ingest encode agents r now w ≡ (204, publish encode (stamped now e) w)
unfolding handle_ingest
accepted encode agents r e now w valid post body =
    ground (arith, text_beq_iff r.method (codes "POST"))

-- A POST with the token of a configured agent, which is not empty, and an entry is answered by 204.
-- The entry, with the time of its arrival if it has none, is then what `Recent` returns first, before
-- the newest entries of the history.
accepted_is_newest :
    (encode : AuditEntry → Option Text) (before after : List AgentConfig) (a : AgentConfig)
    (r : Request) (e : AuditEntry) (now n : ℕ) (history : List AuditEntry) (w : Warden)
    → Recalls history w.store
    → a.token ≢ []
    → r.method ≡ codes "POST"
    → r.authorization ≡ codes "Bearer " ++ a.token
    → r.body ≡ entry e
    → let (code, t) = handle_ingest encode (before ++ (a ∷ after)) r now w in
      (code ≡ 204) × (recent (pos (suc n)) t.store ≡ stamped now e ∷ take n (take 199 history))
accepted_is_newest encode before after a r e now n history w recalls nonempty post bearer body =
    let valid = valid_agent_token-bearer_token before after a r.authorization nonempty bearer in
    rw
      (
        accepted encode (before ++ (a ∷ after)) r e now w valid post body,
        publish-store encode (stamped now e) w,
      )
      (refl, recent-append (stamped now e) history w.store n recalls)
