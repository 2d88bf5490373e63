-- ===== src/Shutdown/Tests.antt =====
-- A shutdown of two managers with an operation that is active when it begins.
use dockward.Prelude.{
  ℕ, ◌++◌, ◌+◌, ◌*◌, ◌≡◌, ◌⊎◌, refl, false, true, none, some, Option, List, [], ◌∷◌,
}
use dockward.Prelude.Int.{second}
use dockward.Prelude.Text.{Text, codes}
use dockward.Shutdown.{
  Coordinator, finished, new_coordinator, operation_started, operation_completed, begin,
  operations_done, pick, manager_returned, finish, Action, start_operation, complete_operation,
  end_wait, finish_shutdown, register_manager, call_shutdown, expire, register, return_manager,
  step, run,
}
use dockward.Shutdown.Ends.{returns, errors_of, shutdown_ends}
use dockward.Shutdown.Runs.{occurrences}
use dockward.Shutdown.History.{registered, ends_wait, times_out, finished_lem}

abbrev actions : List Action
actions =
    register_manager (codes "api")
    ∷ register_manager (codes "audit")
    ∷ start_operation
    ∷ call_shutdown 100
    ∷ start_operation
    ∷ complete_operation
    ∷ end_wait
    ∷ return_manager 1 (some (codes "sync failed"))
    ∷ return_manager 0 none
    ∷ finish_shutdown
    ∷ []

abbrev stopped : Coordinator
stopped = record {
  managers = codes "api" ∷ codes "audit" ∷ [];
  shutdown_timeout = 30 * second;
  active_ops = 0;
  is_shutting_down = true;
  phase = finished (codes "api" ∷ codes "audit" ∷ []) (codes "sync failed" ∷ []);
  launched = codes "api" ∷ codes "audit" ∷ [];
  timed_out = false;
}

finished_lem_example :
    ((before after : List Action) × (a : Action) × (actions ≡ before ++ (a ∷ after))
      × (ends_wait a ≡ true)
      × ((m : Text)
          → occurrences m (codes "api" ∷ codes "audit" ∷ []) ≡ occurrences m (registered before))
      × ((times_out a ≡ true) ⊎ (stopped.active_ops ≡ 0)))
    × (operation_started stopped ≡ (false, stopped))
unfolding run step operation_started operation_completed begin operations_done manager_returned pick
    finish
finished_lem_example =
    finished_lem actions stopped (codes "api" ∷ codes "audit" ∷ []) (codes "sync failed" ∷ []) refl
      refl

-- An operation stays active and one manager fails.
abbrev busy : Coordinator
busy = (operation_started (register (codes "audit") (register (codes "api") new_coordinator))).1

-- The one that was registered last returns first.
abbrev outcomes : List (ℕ × Option Text)
outcomes = (1, some (codes "sync failed")) ∷ (0, none) ∷ []

shutdown_ends_example :
    (d : Coordinator) × (returned : List Text) × (run
        (call_shutdown 5 ∷ expire (5 + busy.shutdown_timeout) false ∷ returns outcomes)
        busy
      ≡ some d)
    × (d.phase ≡ finished returned (errors_of outcomes))
unfolding operation_started pick
shutdown_ends_example = shutdown_ends 5 busy outcomes refl refl
