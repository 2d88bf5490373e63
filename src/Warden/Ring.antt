-- ===== src/Warden/Ring.antt =====
-- The ring buffer of the warden against the history of all events, newest first.
use Prim.Native.Nat.{min}
use dockward.Prelude.{
  ℕ, zero, suc, ◌+◌, ◌-◌, ◌%◌, ◌≤◌, ◌<◌, ◌≡◌, ◌≢◌, refl, ap, sym, ◌∙◌, List, [], ◌∷◌, ◌++◌, arith,
  length, set, get_or, take, drop, reverse, length-set, get_or-set_self, get_or-set_ne,
  length-replicate, subst,
}
use mathlib.Core.Option.{some}
use dockward.Prelude.Int.{pos}
use mathlib.Core.List.{reverse-cons, append_assoc, reverse-reverse, append-nil}
use dockward.Warden.Store.{
  AuditEntry, no_entry, AgentConfig, Store, ring_size, new_store, append, walk, recent, append_all,
  load_state, save_state,
}

-- The store holds the newest events of the history.
pub record Recalls (history : List AuditEntry) (s : Store) : Type 0 where
  pub size : length s.events ≡ 200
  pub in_range : s.head < 200
  pub counted : s.count ≡ min (length history) 200
  pub kept :
      (i : ℕ)
      → i < s.count
      → get_or s.events ((s.head + 200 - 1 - i) % 200) no_entry ≡ get_or history i no_entry

new_store-Recalls : (agents : List AgentConfig) → Recalls [] (new_store agents)
unfolding new_store
new_store-Recalls agents = record {
  size = length-replicate 200 no_entry;
  in_range = omega arith;
  counted = omega arith;
  kept = λ i h. absurd (omega arith);
}

-- Where the entry of index `i` stands before and after an append.
newest_slot : (head : ℕ) → head < 200 → ((head + 1) % 200 + 200 - 1 - 0) % 200 ≡ head
newest_slot head h = omega arith

older_slot :
    (head i : ℕ)
    → head < 200
    → suc i < 200
    → ((head + 1) % 200 + 200 - 1 - suc i) % 200 ≡ (head + 200 - 1 - i) % 200
older_slot head i h k = omega arith

other_slot : (head i : ℕ) → head < 200 → suc i < 200 → head ≢ (head + 200 - 1 - i) % 200
other_slot head i h k = omega arith

kept_after :
    (e : AuditEntry) (history : List AuditEntry) (s : Store) (i : ℕ)
    → Recalls history s
    → i < (append e s).count
    → get_or (set s.events s.head e) (((s.head + 1) % 200 + 200 - 1 - i) % 200) no_entry
      ≡ get_or (e ∷ history) i no_entry
unfolding append
kept_after e history s zero r h =
    rw (newest_slot s.head r.in_range)
      (get_or-set_self s.events s.head e no_entry (omega (arith, r.size, r.in_range)))
kept_after e history s (suc i) r h =
    let stored : i < s.count = ground (arith, r.counted) in
    let small : suc i < 200 = ground (arith, r.counted) in
    rw (older_slot s.head i r.in_range small) (
      get_or-set_ne s.events s.head ((s.head + 200 - 1 - i) % 200) e no_entry
        (other_slot s.head i r.in_range small)
      ∙ r.kept i stored)

append-Recalls :
    (e : AuditEntry) (history : List AuditEntry) (s : Store)
    → Recalls history s
    → Recalls (e ∷ history) (append e s)
unfolding append
append-Recalls e history s r = record {
  size = length-set s.events s.head e ∙ r.size;
  in_range = omega (arith, r.in_range);
  counted = ground (arith, r.counted);
  kept = λ i h. kept_after e history s i r h;
}

append_all-Recalls :
    (es history : List AuditEntry) (s : Store)
    → Recalls history s
    → Recalls (reverse es ++ history) (append_all es s)
unfolding append_all
append_all-Recalls [] history s r = r
append_all-Recalls (e ∷ es) history s r =
    rw (reverse-cons e es, append_assoc (reverse es) (e ∷ []) history)
      (append_all-Recalls es (e ∷ history) (append e s) (append-Recalls e history s r))

pub stored-Recalls :
    (agents : List AgentConfig) (es : List AuditEntry)
    → Recalls (reverse es) (append_all es (new_store agents))
stored-Recalls agents es =
    subst (λ h. Recalls h (append_all es (new_store agents))) (append-nil (reverse es))
      (append_all-Recalls es [] (new_store agents) (new_store-Recalls agents))

take-drop-suc :
    (i k : ℕ) (xs : List AuditEntry)
    → i < length xs
    → take (suc k) (drop i xs) ≡ get_or xs i no_entry ∷ take k (drop (suc i) xs)
take-drop-suc i k [] h = absurd (omega arith)
take-drop-suc zero k (x ∷ xs) h = refl
take-drop-suc (suc i) k (x ∷ xs) h = take-drop-suc i k xs (omega arith)

walk_lem :
    (history : List AuditEntry) (s : Store) (i k : ℕ)
    → Recalls history s
    → i + k ≤ s.count
    → walk s i k ≡ take k (drop i history)
unfolding walk
walk_lem history s i zero r h = refl
walk_lem history s i (suc k) r h =
    let here = r.kept i (omega arith) in
    let rest = walk_lem history s (suc i) k r (omega arith) in
    let long : i < length history = ground (arith, r.counted) in
    rw (here, rest) (sym (take-drop-suc i k history long))

take-min :
    (n k j : ℕ) (xs : List AuditEntry)
    → j ≡ min n (min (length xs) k)
    → take j xs ≡ take n (take k xs)
take-min zero k zero xs h = refl
take-min zero k (suc j) xs h = absurd (omega arith)
take-min (suc n) zero zero xs h = refl
take-min (suc n) zero (suc j) xs h = absurd (omega arith)
take-min (suc n) (suc k) zero [] h = refl
take-min (suc n) (suc k) (suc j) [] h = refl
take-min (suc n) (suc k) zero (x ∷ xs) h = absurd (omega arith)
take-min (suc n) (suc k) (suc j) (x ∷ xs) h = ap (◌∷◌ x) (take-min n k j xs (omega arith))

-- Neither guard changes what the loop would return.
recent-walk : (n : ℕ) (s : Store) → recent (pos n) s ≡ walk s 0 (min n s.count)
unfolding recent walk
recent-walk n s = ground arith

recent_lem :
    (history : List AuditEntry) (s : Store) (n : ℕ)
    → Recalls history s
    → recent (pos n) s ≡ take n (take 200 history)
recent_lem history s n r =
    recent-walk n s
    ∙ walk_lem history s 0 (min n s.count) r (omega arith)
    ∙ take-min n 200 (min n s.count) history (omega (arith, r.counted))

-- `Recent` returns the newest entries that were ever appended, newest first: as many as asked for, but
-- at most `ring_size`.
pub recent-append_all :
    (agents : List AgentConfig) (es : List AuditEntry) (n : ℕ)
    → recent (pos n) (append_all es (new_store agents)) ≡ take n (take ring_size (reverse es))
recent-append_all agents es n =
    recent_lem (reverse es) (append_all es (new_store agents)) n (stored-Recalls agents es)

-- The next entry comes first.
pub recent-append :
    (e : AuditEntry) (history : List AuditEntry) (s : Store) (n : ℕ)
    → Recalls history s
    → recent (pos (suc n)) (append e s) ≡ e ∷ take n (take 199 history)
recent-append e history s n r =
    recent_lem (e ∷ history) (append e s) (suc n) (append-Recalls e history s r)

take_idem : (n : ℕ) (xs : List AuditEntry) → take n (take n xs) ≡ take n xs
take_idem zero xs = refl
take_idem (suc n) [] = refl
take_idem (suc n) (x ∷ xs) = ap (◌∷◌ x) (take_idem n xs)

save_state_lem :
    (agents : List AgentConfig) (es : List AuditEntry)
    → save_state (append_all es (new_store agents)) ≡ reverse (take 200 (reverse es))
unfolding save_state
save_state_lem agents es = ap reverse (recent-append_all agents es 200 ∙ take_idem 200 (reverse es))

-- A warden that restores the state that another one saved returns the same recent entries, however
-- many are asked for.
pub load_state-save_state :
    (agents agents' : List AgentConfig) (es : List AuditEntry) (n : ℕ)
    → let s = append_all es (new_store agents) in
      recent (pos n) (load_state (some (save_state s)) (new_store agents')) ≡ recent (pos n) s
unfolding load_state
load_state-save_state agents agents' es n =
    rw
      (
        save_state_lem agents es,
        recent-append_all agents' (reverse (take 200 (reverse es))) n,
        reverse-reverse (take 200 (reverse es)),
        take_idem 200 (reverse es),
      )
      (sym (recent-append_all agents es n))
