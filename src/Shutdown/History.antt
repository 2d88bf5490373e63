-- ===== src/Shutdown/History.antt =====
-- A shutdown of internal/shutdown/coordinator.go against the actions that led to it.
use mathlib.Core.List.{append-nil, append_assoc}
use dockward.Prelude.{
  ℕ, ◌≡◌, ◌⊎◌, inl, inr, refl, sym, ◌∙◌, ap, subst, Bool, true, false, List, [], ◌∷◌, ◌++◌, some,
  arith, Option-cases, Bool-cases,
}
use dockward.Prelude.Text.{Text}
use dockward.Shutdown.{
  Phase, idle, waiting, stopping, finished, Coordinator, new_coordinator, operation_started, begin,
  Action, start_operation, complete_operation, end_wait, finish_shutdown, register_manager,
  change_timeout, call_shutdown, expire, return_manager, step, run,
}
use dockward.Shutdown.Runs.{
  occurrences, PhaseFits, operations_done_lem, context_done_lem, manager_returned_lem, finish_lem,
  some_injective, operation_started_as, operation_completed_lem, run-IsConsistent,
}

-- The managers that a history has registered, in order.
abbrev pub registered : List Action → List Text
registered [] = []
registered (register_manager m ∷ actions) = m ∷ registered actions
registered (_ ∷ actions) = registered actions

-- The actions that end the wait for the operations, and the one of them that is the timeout.
abbrev pub ends_wait : Action → Bool
ends_wait end_wait = true
ends_wait (expire now parent_done) = true
ends_wait _ = false

abbrev pub times_out : Action → Bool
times_out (expire now parent_done) = true
times_out _ = false

abbrev is_over : Phase → Bool
is_over idle = false
is_over (waiting d) = false
is_over (stopping r d e) = true
is_over (finished d e) = true

-- What one step does to the managers and to what the end of the wait has left.
abbrev Records : Action → Coordinator → Coordinator → Type 0
Records a c d =
    (d.managers ≡ c.managers ++ registered (a ∷ []))
    × (((ends_wait a ≡ true) × (d.launched ≡ c.managers) × (d.timed_out ≡ times_out a))
        ⊎ ((d.launched ≡ c.launched)
            × (d.timed_out ≡ c.timed_out)
            × ((is_over c.phase ≡ true) ⊎ (is_over d.phase ≡ is_over c.phase))))

start-Records : (c : Coordinator) → Records start_operation c (operation_started c).1
start-Records c = elim (Bool-cases c.is_shutting_down) [
  | inl on ↦
      subst (Records start_operation c) (sym (ap (λ x. x.1) (operation_started_as c true on)))
        (sym (append-nil c.managers), inr (refl, refl, inr refl))
  | inr off ↦
      subst (Records start_operation c) (sym (ap (λ x. x.1) (operation_started_as c false off)))
        (sym (append-nil c.managers), inr (refl, refl, inr refl))
]

begin-Records :
    (now : ℕ) (c : Coordinator) (p : Phase)
    → c.phase ≡ p
    → Records (call_shutdown now) c (begin now c)
unfolding begin
begin-Records now c idle h = (
  ground (arith, h, append-nil c.managers),
  inr (ground (arith, h), ground (arith, h), inr (ground (arith, h))),
)
begin-Records now c (waiting t) h = (
  ground (arith, h, append-nil c.managers),
  inr (ground (arith, h), ground (arith, h), inr (ground (arith, h))),
)
begin-Records now c (stopping r s e) h = (
  ground (arith, h, append-nil c.managers),
  inr (ground (arith, h), ground (arith, h), inl (ap is_over h)),
)
begin-Records now c (finished s e) h = (
  ground (arith, h, append-nil c.managers),
  inr (ground (arith, h), ground (arith, h), inl (ap is_over h)),
)

step-Records : (a : Action) (c d : Coordinator) → step a c ≡ some d → Records a c d
unfolding step
step-Records start_operation c d ran =
    subst (Records start_operation c) (some_injective _ d ran) (start-Records c)
step-Records complete_operation c d ran =
    subst (Records complete_operation c) (sym (operation_completed_lem c d ran))
      (sym (append-nil c.managers), inr (refl, refl, inr refl))
step-Records end_wait c d ran =
    let (t, h, empty, after) = operations_done_lem c d c.phase refl ran in
    subst (Records end_wait c) (sym after) (sym (append-nil c.managers), inl (refl, refl, refl))
step-Records finish_shutdown c d ran =
    let (s, e, h, after) = finish_lem c d c.phase refl ran in
    subst (Records finish_shutdown c) (sym after)
      (sym (append-nil c.managers), inr (refl, refl, inl (ap is_over h)))
step-Records (register_manager m) c d ran =
    subst (Records (register_manager m) c) (some_injective _ d ran)
      (refl, inr (refl, refl, inr refl))
step-Records (change_timeout t) c d ran =
    subst (Records (change_timeout t) c) (some_injective _ d ran)
      (sym (append-nil c.managers), inr (refl, refl, inr refl))
step-Records (call_shutdown now) c d ran =
    subst (Records (call_shutdown now) c) (some_injective _ d ran)
      (begin-Records now c c.phase refl)
step-Records (expire now parent_done) c d ran =
    let (t, h, after) = context_done_lem now parent_done c d c.phase refl ran in
    subst (Records (expire now parent_done) c) (sym after)
      (sym (append-nil c.managers), inl (refl, refl, refl))
step-Records (return_manager n err) c d ran =
    let (r, s, e, found, h, here, after) = manager_returned_lem n err c d c.phase refl ran in
    subst (Records (return_manager n err) c) (sym after)
      (sym (append-nil c.managers), inr (refl, refl, inl (ap is_over h)))

registered-append :
    (before after : List Action)
    → registered (before ++ after) ≡ registered before ++ registered after
registered-append [] after = refl
registered-append (start_operation ∷ before) after = registered-append before after
registered-append (complete_operation ∷ before) after = registered-append before after
registered-append (end_wait ∷ before) after = registered-append before after
registered-append (finish_shutdown ∷ before) after = registered-append before after
registered-append (register_manager m ∷ before) after = ap (◌∷◌ m) (registered-append before after)
registered-append (change_timeout t ∷ before) after = registered-append before after
registered-append (call_shutdown now ∷ before) after = registered-append before after
registered-append (expire now parent_done ∷ before) after = registered-append before after
registered-append (return_manager n err ∷ before) after = registered-append before after

-- The history has an action that has ended the wait, for the managers registered before it.
abbrev HasEnded : List Action → Coordinator → Type 0
HasEnded history c =
    (before after : List Action) × (a : Action) × (history ≡ before ++ (a ∷ after))
    × (ends_wait a ≡ true)
    × (c.launched ≡ registered before)
    × (c.timed_out ≡ times_out a)

abbrev IsTraced : List Action → Coordinator → Type 0
IsTraced history c =
    (c.managers ≡ registered history) × ((is_over c.phase ≡ false) ⊎ HasEnded history c)

later :
    (history : List Action) (a : Action) (c d : Coordinator)
    → d.launched ≡ c.launched
    → d.timed_out ≡ c.timed_out
    → HasEnded history c
    → HasEnded (history ++ (a ∷ [])) d
later history a c d all late (before, after, e, split, ends, launched, timed) = (
  before,
  after ++ (a ∷ []),
  e,
  ap (λ l. l ++ (a ∷ [])) split ∙ append_assoc before (e ∷ after) (a ∷ []),
  ends,
  all ∙ launched,
  late ∙ timed,
)

Records-IsTraced :
    (history : List Action) (a : Action) (c d : Coordinator)
    → Records a c d
    → IsTraced history c
    → IsTraced (history ++ (a ∷ [])) d
Records-IsTraced history a c d (managers, what) (same, ended) = (
  managers ∙ ap (λ l. l ++ registered (a ∷ [])) same ∙ sym (registered-append history (a ∷ [])),
  elim what [
    | inl (ends, all, late) ↦ inr (history, [], a, refl, ends, all ∙ same, late)
    | inr (all, late, inl over) ↦ elim ended [
      | inl waits ↦ absurd (cc (over, waits))
      | inr old ↦ inr (later history a c d all late old)
    ]
    | inr (all, late, inr phase) ↦ elim ended [
      | inl waits ↦ inl (phase ∙ waits)
      | inr old ↦ inr (later history a c d all late old)
    ]
  ],
)

run-IsTraced :
    (actions history : List Action) (c d : Coordinator)
    → run actions c ≡ some d
    → IsTraced history c
    → IsTraced (history ++ actions) d
unfolding run
run-IsTraced [] history c d ran traced =
    subst (λ h. IsTraced h d) (sym (append-nil history))
      (subst (IsTraced history) (some_injective c d ran) traced)
run-IsTraced (a ∷ actions) history c d ran traced = elim (Option-cases (step a c)) [
  | inl stuck ↦ absurd (cc (stuck, ran))
  | inr (m, there) ↦
      subst (λ h. IsTraced h d) (append_assoc history (a ∷ []) actions)
        (run-IsTraced actions (history ++ (a ∷ [])) m d (cc (there, ran))
          (Records-IsTraced history a c m (step-Records a c m there) traced))
]

-- However the steps of a coordinator interleave: if its shutdown has finished, some action ended the wait,
-- as all operations had completed or by the timeout. Each manager has then returned as often as it was
-- registered before that action; an operation is refused and changes nothing; and no operation is
-- active, or it was the timeout that ended the wait.
pub finished_lem :
    (actions : List Action) (c : Coordinator) (returned errs : List Text)
    → run actions new_coordinator ≡ some c
    → c.phase ≡ finished returned errs
    → ((before after : List Action) × (a : Action) × (actions ≡ before ++ (a ∷ after))
        × (ends_wait a ≡ true)
        × ((m : Text) → occurrences m returned ≡ occurrences m (registered before))
        × ((times_out a ≡ true) ⊎ (c.active_ops ≡ 0)))
      × (operation_started c ≡ (false, c))
finished_lem actions c returned errs ran over =
    let ((on, drained), shares) =
      subst (PhaseFits c) over (run-IsConsistent actions new_coordinator c ran refl) in
    let (_, ended) = run-IsTraced actions [] new_coordinator c ran (refl, inl refl) in
    (
      elim ended [
        | inl waits ↦ absurd (cc (waits, ap is_over over))
        | inr (before, after, a, split, ends, launched, timed) ↦ (
          before,
          after,
          a,
          split,
          ends,
          λ m. omega (arith, shares m) ∙ ap (occurrences m) launched,
          elim drained [ inl late ↦ inl (sym timed ∙ late) | inr empty ↦ inr empty ],
        )
      ],
      operation_started_as c true on,
    )
