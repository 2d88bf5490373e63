-- ===== src/Watcher/Monitor/Eviction.antt =====
-- What `pollAll` of internal/watcher/monitor.go forgets.
use mathlib.Core.List.{append-nil, append_assoc}
use dockward.Prelude.{ℕ, ◌≡◌, sym, ap, ◌∙◌, false, none, List, [], ◌∷◌, ◌++◌, if◌then◌else◌, All}
use dockward.Prelude.Text.{Text, text_eq}
use dockward.Prelude.Map.{lookup, lookup-retain}
use dockward.Watcher.Monitor.{
  Monitor, Turn, check_service, reading_ids, seen_in, evict, poll_turns, poll_all,
}

-- The ids of the containers of all turns, and the monitor before the eviction.
abbrev pub all_ids : List Turn → List Text
all_ids [] = []
all_ids (t ∷ turns) = reading_ids t.readings ++ all_ids turns

abbrev pub check_all : ℕ → List Turn → Monitor → Monitor
check_all hundred [] m = m
check_all hundred (t ∷ turns) m = check_all hundred turns (check_service hundred t.svc t.readings m)

abbrev IsGoing : Turn → Type 0
IsGoing t = t.done ≡ false

poll_turns_of_going :
    (hundred : ℕ) (ids : List Text) (turns : List Turn) (m : Monitor)
    → All IsGoing turns
    → poll_turns hundred ids turns m ≡ evict (ids ++ all_ids turns) (check_all hundred turns m)
unfolding poll_turns
poll_turns_of_going hundred ids [] m h = ap (λ i. evict i m) (sym (append-nil ids))
poll_turns_of_going hundred ids (t ∷ turns) m (going, h) =
    rw (going, poll_turns)
      (poll_turns_of_going hundred (ids ++ reading_ids t.readings) turns _ h
        ∙ ap (λ i. evict i (check_all hundred turns (check_service hundred t.svc t.readings m)))
            (append_assoc ids (reading_ids t.readings) (all_ids turns)))

-- A poll that is not cut short knows of no container that it did not see running: neither its resource
-- usage nor its CPU counters. Of the containers that it saw, it keeps what it found.
pub poll_all_evicts :
    (hundred : ℕ) (turns : List Turn) (m : Monitor) (id : Text)
    → All IsGoing turns
    → let polled = poll_all hundred turns m in
      let checked = check_all hundred turns m in
      (lookup id polled.container_stats
        ≡ (if seen_in (all_ids turns) id then lookup id checked.container_stats else none))
      × (lookup id polled.prev_cpu
          ≡ (if seen_in (all_ids turns) id then lookup id checked.prev_cpu else none))
unfolding poll_all evict
poll_all_evicts hundred turns m id going =
    rw (poll_turns_of_going hundred [] turns m going)
      (lookup-retain id (seen_in (all_ids turns)) _, lookup-retain id (seen_in (all_ids turns)) _)
