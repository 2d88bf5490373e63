-- ===== src/Shutdown/Ends.antt =====
-- A shutdown of internal/shutdown/coordinator.go ends, whatever operations are active.
use mathlib.Core.List.{append-nil, append_assoc}
use dockward.Prelude.{
  Option-cases, inl, inr, sym, ap, ◌∙◌, none, some, ◌++◌, Option, ℕ, ◌+◌, ◌≡◌, refl, ◌∙◌, ap, true,
  false, List, [], ◌∷◌, Option, some, leb, arith,
}
use dockward.Prelude.Text.{Text}
use dockward.Shutdown.{
  idle, waiting, stopping, finished, Coordinator, launch, with_error, begin, context_done, pick,
  manager_returned, finish, Action, finish_shutdown, call_shutdown, expire, return_manager, step,
  run,
}

-- The managers return in any order: each outcome has the place of its manager among those that still run.
abbrev pub returns : List (ℕ × Option Text) → List Action
returns [] = finish_shutdown ∷ []
returns ((n, err) ∷ outcomes) = return_manager n err ∷ returns outcomes

-- The managers that still run after the outcomes; none if an outcome has no manager.
abbrev pub running_after : List Text → List (ℕ × Option Text) → Option (List Text)
running_after ms [] = some ms
running_after ms ((n, err) ∷ outcomes) = elim (pick ms n) [
  | none ↦ none
  | some found ↦ running_after found.1 outcomes
]

-- The errors of the outcomes, in their order.
abbrev pub errors_of : List (ℕ × Option Text) → List Text
errors_of [] = []
errors_of ((n, none) ∷ outcomes) = errors_of outcomes
errors_of ((n, some err) ∷ outcomes) = err ∷ errors_of outcomes

errors_of-with_error :
    (n : ℕ) (err : Option Text) (outcomes : List (ℕ × Option Text)) (errs : List Text)
    → with_error err errs ++ errors_of outcomes ≡ errs ++ errors_of ((n, err) ∷ outcomes)
errors_of-with_error n none outcomes errs = refl
errors_of-with_error n (some err) outcomes errs = append_assoc errs (err ∷ []) (errors_of outcomes)

run-return :
    (n : ℕ) (err : Option Text) (actions : List Action) (r s e : List Text)
    (found : Text × List Text) (c : Coordinator)
    → pick r n ≡ some found
    → run (return_manager n err ∷ actions) (record c { phase = stopping r s e })
      ≡ run actions (record c { phase = stopping found.1 (found.0 ∷ s) (with_error err e) })
unfolding run step manager_returned
run-return n err actions r s e found c here = rw (here, run) refl

run-finish :
    (r s e : List Text) (c : Coordinator)
    → r ≡ []
    → run (finish_shutdown ∷ []) (record c { phase = stopping r s e })
      ≡ some (record c { phase = finished s e })
unfolding run step finish
run-finish r s e c none_left =
    ap (λ l. run (finish_shutdown ∷ []) (record c { phase = stopping l s e })) none_left

-- What the managers have returned, with an end of the shutdown.
abbrev Finishes : List Action → Coordinator → List Text → Type 0
Finishes actions c errs =
    (d : Coordinator) × (returned : List Text) × (run actions c ≡ some d)
    × (d.phase ≡ finished returned errs)

all_return :
    (outcomes : List (ℕ × Option Text)) (r s e : List Text) (c : Coordinator)
    → running_after r outcomes ≡ some []
    → Finishes (returns outcomes) (record c { phase = stopping r s e }) (e ++ errors_of outcomes)
all_return [] r s e c h = (
  record c { phase = finished s e },
  s,
  run-finish r s e c (cc h),
  ap (finished s) (sym (append-nil e)),
)
all_return ((n, err) ∷ outcomes) r s e c h = elim (Option-cases (pick r n)) [
  | inl lost ↦ absurd (ground (arith, h, lost))
  | inr (found, here) ↦
      let (d, returned, ran, over) =
        all_return outcomes found.1 (found.0 ∷ s) (with_error err e) c (ground (arith, h, here)) in
      (
        d,
        returned,
        run-return n err (returns outcomes) r s e found c here ∙ ran,
        over ∙ ap (finished returned) (errors_of-with_error n err outcomes e),
      )
]

begin-idle :
    (now : ℕ) (c : Coordinator)
    → c.phase ≡ idle
    → begin now c ≡ record c { is_shutting_down = true; phase = waiting (now + c.shutdown_timeout) }
unfolding begin
begin-idle now c h = cc h

leb_refl : (n : ℕ) → leb n n ≡ true
leb_refl n = ground arith

context_done-waiting :
    (t : ℕ) (c : Coordinator)
    → context_done t false (record c { is_shutting_down = true; phase = waiting t })
      ≡ some (launch true (record c { is_shutting_down = true; phase = waiting t }))
unfolding context_done
context_done-waiting t c = rw (leb_refl t) refl

run-begin :
    (now : ℕ) (c : Coordinator) (actions : List Action)
    → c.phase ≡ idle
    → run (call_shutdown now ∷ actions) c
      ≡ run actions
          (record c { is_shutting_down = true; phase = waiting (now + c.shutdown_timeout) })
unfolding run step
run-begin now c actions h = ap (run actions) (begin-idle now c h)

run-expire :
    (t : ℕ) (actions : List Action) (c : Coordinator)
    → run (expire t false ∷ actions) (record c { is_shutting_down = true; phase = waiting t })
      ≡ run actions (launch true (record c { is_shutting_down = true; phase = waiting t }))
unfolding run step
run-expire t actions c = rw (context_done-waiting t c, run) refl

-- If no shutdown has begun, a call of `Shutdown`, its timeout and the return of each manager, in any
-- order, finish it with the errors of the managers in the order of their return, whatever operations are
-- active.
pub shutdown_ends :
    (now : ℕ) (c : Coordinator) (outcomes : List (ℕ × Option Text))
    → c.phase ≡ idle
    → running_after c.managers outcomes ≡ some []
    → (d : Coordinator) × (returned : List Text) × (run
          (call_shutdown now ∷ expire (now + c.shutdown_timeout) false ∷ returns outcomes)
          c
        ≡ some d)
      × (d.phase ≡ finished returned (errors_of outcomes))
shutdown_ends now c outcomes h all =
    let t = now + c.shutdown_timeout in
    let after = launch true (record c { is_shutting_down = true; phase = waiting t }) in
    let (d, returned, ran, over) = all_return outcomes c.managers [] [] after all in
    (
      d,
      returned,
      run-begin now c (expire t false ∷ returns outcomes) h
          ∙ run-expire t (returns outcomes) c
          ∙ ran,
      over,
    )
