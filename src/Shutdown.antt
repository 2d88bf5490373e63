-- ===== src/Shutdown.antt =====
-- internal/shutdown/coordinator.go, as the steps of its goroutines in any order. A manager is known by its
-- name; whether it fails when it is shut down is a part of its step.
pub mod Runs
pub mod History
pub mod Ends
mod Tests
use dockward.Prelude.{
  ℕ, zero, suc, ◌+◌, ◌-◌, ◌*◌, Bool, true, false, ◌||◌, List, [], ◌∷◌, ◌++◌, Option, none, some,
  if◌then◌else◌, ◌==◌, nat_eq, leb, is_some,
}
use dockward.Prelude.Int.{second}
use dockward.Prelude.Text.{Text}

-- How far the one call of `Shutdown` that does the work has come: it waits until a deadline; it has
-- managers that still run, those that have returned, and errors; or it has returned.
pub data Phase : Type 0 where
  idle : Phase
  waiting : ℕ → Phase
  stopping : List Text → List Text → List Text → Phase
  finished : List Text → List Text → Phase

-- `launched` are the managers over which the loop of `Shutdown` ranges, and `timed_out` tells which branch of
-- its `select` was taken; the source keeps neither in the struct.
pub record Coordinator : Type 0 where
  pub managers : List Text
  pub shutdown_timeout : ℕ
  pub active_ops : ℕ
  pub is_shutting_down : Bool
  pub phase : Phase
  pub launched : List Text
  pub timed_out : Bool

abbrev pub new_coordinator : Coordinator
new_coordinator = record {
  managers = [];
  shutdown_timeout = 30 * second;
  active_ops = 0;
  is_shutting_down = false;
  phase = idle;
  launched = [];
  timed_out = false;
}

unfoldable pub operation_started : Coordinator → Bool × Coordinator
operation_started c =
    if c.is_shutting_down then (false, c) else (true, record c { active_ops = c.active_ops + 1 })

-- None where `WaitGroup.Done` panics.
unfoldable pub operation_completed : Coordinator → Option Coordinator
operation_completed c =
    if c.active_ops == 0 then none else some (record c { active_ops = c.active_ops - 1 })

abbrev pub register : Text → Coordinator → Coordinator
register m c = record c { managers = c.managers ++ (m ∷ []) }

abbrev pub set_timeout : ℕ → Coordinator → Coordinator
set_timeout timeout c = record c { shutdown_timeout = timeout }

-- A call of `Shutdown`: the first one begins at time `now`, and another waits for it.
unfoldable pub begin : ℕ → Coordinator → Coordinator
begin now c = elim c.phase [
  | idle ↦ record c { is_shutting_down = true; phase = waiting (now + c.shutdown_timeout) }
  | waiting d ↦ c
  | stopping r d e ↦ c
  | finished d e ↦ c
]

abbrev pub launch : Bool → Coordinator → Coordinator
launch by_timeout c = record c {
  phase = stopping c.managers [] [];
  launched = c.managers;
  timed_out = by_timeout;
}

-- The wait ends as all operations have completed; none if they have not.
unfoldable pub operations_done : Coordinator → Option Coordinator
operations_done c = elim c.phase [
  | idle ↦ none
  | waiting d ↦ if c.active_ops == 0 then some (launch false c) else none
  | stopping r d e ↦ none
  | finished d e ↦ none
]

-- The wait ends as the context is done, by its deadline or with the caller's.
unfoldable pub context_done : ℕ → Bool → Coordinator → Option Coordinator
context_done now parent_done c = elim c.phase [
  | idle ↦ none
  | waiting d ↦ if leb d now || parent_done then some (launch true c) else none
  | stopping r d e ↦ none
  | finished d e ↦ none
]

-- The manager at an index, and the others.
unfoldable pub pick : List Text → ℕ → Option (Text × List Text)
pick [] n = none
pick (m ∷ ms) zero = some (m, ms)
pick (m ∷ ms) (suc n) = elim (pick ms n) [ none ↦ none | some found ↦ some (found.0, m ∷ found.1) ]

abbrev pub with_error : Option Text → List Text → List Text
with_error none errs = errs
with_error (some err) errs = errs ++ (err ∷ [])

unfoldable pub manager_returned : ℕ → Option Text → Coordinator → Option Coordinator
unfolding pick
manager_returned n err c = elim c.phase [
  | idle ↦ none
  | waiting d ↦ none
  | stopping r d e ↦ elim (pick r n) [
    | none ↦ none
    | some found ↦ some (record c { phase = stopping found.1 (found.0 ∷ d) (with_error err e) })
  ]
  | finished d e ↦ none
]

-- `wg.Wait` returns as no manager runs any more.
unfoldable pub finish : Coordinator → Option Coordinator
finish c = elim c.phase [
  | idle ↦ none
  | waiting d ↦ none
  | stopping r d e ↦ elim r [ [] ↦ some (record c { phase = finished d e }) | _ ∷ _ ↦ none ]
  | finished d e ↦ none
]

pub data Action : Type 0 where
  start_operation complete_operation end_wait finish_shutdown : Action
  register_manager : Text → Action
  change_timeout call_shutdown : ℕ → Action
  expire : ℕ → Bool → Action
  return_manager : ℕ → Option Text → Action

-- None for a step that cannot be taken.
unfoldable pub step : Action → Coordinator → Option Coordinator
unfolding operation_started operation_completed begin operations_done context_done manager_returned
    finish
step start_operation c = some (operation_started c).1
step complete_operation c = operation_completed c
step end_wait c = operations_done c
step finish_shutdown c = finish c
step (register_manager m) c = some (register m c)
step (change_timeout timeout) c = some (set_timeout timeout c)
step (call_shutdown now) c = some (begin now c)
step (expire now parent_done) c = context_done now parent_done c
step (return_manager n err) c = manager_returned n err c

unfoldable pub run : List Action → Coordinator → Option Coordinator
unfolding step
run [] c = some c
run (a ∷ actions) c = elim (step a c) [ none ↦ none | some d ↦ run actions d ]
