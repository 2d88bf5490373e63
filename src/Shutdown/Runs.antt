-- ===== src/Shutdown/Runs.antt =====
-- What the steps of internal/shutdown/coordinator.go lead to, in any order.
use dockward.Prelude.{
  ℕ, zero, suc, ◌+◌, ◌-◌, ◌≡◌, ◌⊎◌, inl, inr, refl, sym, ◌∙◌, ap, subst, Bool, true, false, List,
  [], ◌∷◌, Option, some, if◌then◌else◌, ◌==◌, nat_eq, arith, Option-cases, Bool-cases,
}
use dockward.Prelude.Text.{Text, text_eq}
use dockward.Shutdown.{
  Phase, idle, waiting, stopping, finished, Coordinator, operation_started, operation_completed,
  begin, operations_done, context_done, pick, manager_returned, finish, Action, start_operation,
  complete_operation, end_wait, finish_shutdown, launch, with_error, register, set_timeout,
  register_manager, change_timeout, call_shutdown, expire, return_manager, step, run,
}

abbrev pub occurrences : Text → List Text → ℕ
occurrences m [] = 0
occurrences m (x ∷ ms) = if x == m then occurrences m ms + 1 else occurrences m ms

-- The managers that run and those that have returned are those that were shut down.
abbrev pub Shares : List Text → List Text → List Text → Type 0
Shares running returned launched =
    (m : Text) → occurrences m running + occurrences m returned ≡ occurrences m launched

abbrev pub Drained : Coordinator → Type 0
Drained c = (c.is_shutting_down ≡ true) × ((c.timed_out ≡ true) ⊎ (c.active_ops ≡ 0))

abbrev pub PhaseFits : Coordinator → Phase → Type 0
PhaseFits c idle = c.is_shutting_down ≡ false
PhaseFits c (waiting d) = c.is_shutting_down ≡ true
PhaseFits c (stopping r d e) = Drained c × Shares r d c.launched
PhaseFits c (finished d e) = Drained c × Shares [] d c.launched

abbrev pub IsConsistent : Coordinator → Type 0
IsConsistent c = PhaseFits c c.phase

occurrences-pick :
    (ms : List Text) (n : ℕ) (found : Text × List Text) (m : Text)
    → pick ms n ≡ some found
    → occurrences m ms ≡ occurrences m (found.0 ∷ found.1)
unfolding pick
occurrences-pick [] n found m h = absurd (cc h)
occurrences-pick (x ∷ ms) zero found m h = ground (arith, h)
occurrences-pick (x ∷ ms) (suc n) found m h = elim (Option-cases (pick ms n)) [
  | inl nothing ↦ absurd (ground (arith, h, nothing))
  | inr (rest, here) ↦ ground (arith, h, here, occurrences-pick ms n rest m here)
]

Shares-pick :
    (r d launched : List Text) (n : ℕ) (found : Text × List Text)
    → pick r n ≡ some found
    → Shares r d launched
    → Shares found.1 (found.0 ∷ d) launched
Shares-pick r d launched n found h shares m =
    ground (arith, shares m, occurrences-pick r n found m h)

pub operations_done_lem :
    (c d : Coordinator) (p : Phase)
    → c.phase ≡ p
    → operations_done c ≡ some d
    → (t : ℕ) × (c.phase ≡ waiting t) × (c.active_ops ≡ 0) × (d ≡ launch false c)
unfolding operations_done
operations_done_lem c d idle h ran = absurd (cc (h, ran))
operations_done_lem c d (waiting t) h ran = (t, h, ground (arith, h, ran), ground (arith, h, ran))
operations_done_lem c d (stopping r s e) h ran = absurd (cc (h, ran))
operations_done_lem c d (finished s e) h ran = absurd (cc (h, ran))

pub context_done_lem :
    (now : ℕ) (parent_done : Bool) (c d : Coordinator) (p : Phase)
    → c.phase ≡ p
    → context_done now parent_done c ≡ some d
    → (t : ℕ) × (c.phase ≡ waiting t) × (d ≡ launch true c)
unfolding context_done
context_done_lem now parent_done c d idle h ran = absurd (cc (h, ran))
context_done_lem now parent_done c d (waiting t) h ran = (t, h, ground (arith, h, ran))
context_done_lem now parent_done c d (stopping r s e) h ran = absurd (cc (h, ran))
context_done_lem now parent_done c d (finished s e) h ran = absurd (cc (h, ran))

pub manager_returned_lem :
    (n : ℕ) (err : Option Text) (c d : Coordinator) (p : Phase)
    → c.phase ≡ p
    → manager_returned n err c ≡ some d
    → (r s e : List Text) × (found : Text × List Text) × (c.phase ≡ stopping r s e)
      × (pick r n ≡ some found)
      × (d ≡ record c { phase = stopping found.1 (found.0 ∷ s) (with_error err e) })
unfolding manager_returned
manager_returned_lem n err c d idle h ran = absurd (cc (h, ran))
manager_returned_lem n err c d (waiting t) h ran = absurd (cc (h, ran))
manager_returned_lem n err c d (stopping r s e) h ran = elim (Option-cases (pick r n)) [
  | inl nothing ↦ absurd (cc (h, nothing, ran))
  | inr (found, here) ↦ (r, s, e, found, h, here, cc (h, here, ran))
]
manager_returned_lem n err c d (finished s e) h ran = absurd (cc (h, ran))

pub finish_lem :
    (c d : Coordinator) (p : Phase)
    → c.phase ≡ p
    → finish c ≡ some d
    → (s e : List Text) × (c.phase ≡ stopping [] s e) × (d ≡ record c { phase = finished s e })
unfolding finish
finish_lem c d idle h ran = absurd (cc (h, ran))
finish_lem c d (waiting t) h ran = absurd (cc (h, ran))
finish_lem c d (stopping [] s e) h ran = (s, e, h, cc (h, ran))
finish_lem c d (stopping (m ∷ ms) s e) h ran = absurd (cc (h, ran))
finish_lem c d (finished s e) h ran = absurd (cc (h, ran))

pub begin-cases :
    (now : ℕ) (c : Coordinator) (p : Phase)
    → c.phase ≡ p
    → (begin now c ≡ c)
      ⊎ (begin now c
          ≡ record c { is_shutting_down = true; phase = waiting (now + c.shutdown_timeout) })
unfolding begin
begin-cases now c idle h = inr (cc h)
begin-cases now c (waiting t) h = inl (cc h)
begin-cases now c (stopping r s e) h = inl (cc h)
begin-cases now c (finished s e) h = inl (cc h)

PhaseFits-same :
    (c d : Coordinator)
    → d.is_shutting_down ≡ c.is_shutting_down
    → d.timed_out ≡ c.timed_out
    → d.launched ≡ c.launched
    → (c.active_ops ≡ 0 → d.active_ops ≡ 0)
    → (p : Phase) → PhaseFits c p
    → PhaseFits d p
PhaseFits-same c d flag late all still idle fits = flag ∙ fits
PhaseFits-same c d flag late all still (waiting t) fits = flag ∙ fits
PhaseFits-same c d flag late all still (stopping r s e) ((on, inl over), shares) =
    ((flag ∙ on, inl (late ∙ over)), λ m. shares m ∙ ap (occurrences m) (sym all))
PhaseFits-same c d flag late all still (stopping r s e) ((on, inr none_active), shares) =
    ((flag ∙ on, inr (still none_active)), λ m. shares m ∙ ap (occurrences m) (sym all))
PhaseFits-same c d flag late all still (finished s e) ((on, inl over), shares) =
    ((flag ∙ on, inl (late ∙ over)), λ m. shares m ∙ ap (occurrences m) (sym all))
PhaseFits-same c d flag late all still (finished s e) ((on, inr none_active), shares) =
    ((flag ∙ on, inr (still none_active)), λ m. shares m ∙ ap (occurrences m) (sym all))

idle_phase : (c : Coordinator) (p : Phase) → PhaseFits c p → c.is_shutting_down ≡ false → p ≡ idle
idle_phase c idle fits off = refl
idle_phase c (waiting t) fits off = absurd (cc (fits, off))
idle_phase c (stopping r s e) ((on, _), _) off = absurd (cc (on, off))
idle_phase c (finished s e) ((on, _), _) off = absurd (cc (on, off))

pub operation_started_as :
    (c : Coordinator) (b : Bool)
    → c.is_shutting_down ≡ b
    → operation_started c
      ≡ (if b then (false, c) else (true, record c { active_ops = c.active_ops + 1 }))
unfolding operation_started
operation_started_as c b h =
    ap (λ x. if x then (false, c) else (true, record c { active_ops = c.active_ops + 1 })) h

start-IsConsistent : (c : Coordinator) → IsConsistent c → IsConsistent (operation_started c).1
start-IsConsistent c ok = elim (Bool-cases c.is_shutting_down) [
  | inl on ↦ subst IsConsistent (sym (ap (λ x. x.1) (operation_started_as c true on))) ok
  | inr off ↦ subst IsConsistent (sym (ap (λ x. x.1) (operation_started_as c false off))) (
      subst (PhaseFits (record c { active_ops = c.active_ops + 1 }))
        (sym (idle_phase c c.phase ok off)) off)
]

pub operation_completed_lem :
    (c d : Coordinator)
    → operation_completed c ≡ some d
    → d ≡ record c { active_ops = c.active_ops - 1 }
unfolding operation_completed
operation_completed_lem c d ran = ground (arith, ran)

complete-IsConsistent :
    (c d : Coordinator) → operation_completed c ≡ some d → IsConsistent c → IsConsistent d
complete-IsConsistent c d ran ok = subst IsConsistent (sym (operation_completed_lem c d ran)) (
    PhaseFits-same c (record c { active_ops = c.active_ops - 1 }) refl refl refl
      (λ zero_ops. ground (arith, zero_ops)) c.phase ok)

begin-IsConsistent : (now : ℕ) (c : Coordinator) → IsConsistent c → IsConsistent (begin now c)
begin-IsConsistent now c ok = elim (begin-cases now c c.phase refl) [
  | inl same ↦ subst IsConsistent (sym same) ok
  | inr begun ↦ subst IsConsistent (sym begun) refl
]

waiting-on :
    (c : Coordinator) (t : ℕ) → c.phase ≡ waiting t → IsConsistent c → c.is_shutting_down ≡ true
waiting-on c t h ok = subst (PhaseFits c) h ok

launch-IsConsistent :
    (by_timeout : Bool) (c : Coordinator)
    → c.is_shutting_down ≡ true
    → (by_timeout ≡ true) ⊎ (c.active_ops ≡ 0)
    → IsConsistent (launch by_timeout c)
launch-IsConsistent by_timeout c on over = ((on, over), λ m. ground arith)

manager-IsConsistent :
    (n : ℕ) (err : Option Text) (c d : Coordinator)
    → manager_returned n err c ≡ some d
    → IsConsistent c
    → IsConsistent d
manager-IsConsistent n err c d ran ok =
    let (r, s, e, found, h, here, after) = manager_returned_lem n err c d c.phase refl ran in
    let (drained, shares) = subst (PhaseFits c) h ok in
    subst IsConsistent (sym after) (drained, Shares-pick r s c.launched n found here shares)

finish-IsConsistent : (c d : Coordinator) → finish c ≡ some d → IsConsistent c → IsConsistent d
finish-IsConsistent c d ran ok =
    let (s, e, h, after) = finish_lem c d c.phase refl ran in
    subst IsConsistent (sym after) (subst (PhaseFits c) h ok)

pub some_injective : (c d : Coordinator) → some c ≡ some d → c ≡ d
some_injective c d h = cc h

step-IsConsistent :
    (a : Action) (c d : Coordinator) → step a c ≡ some d → IsConsistent c → IsConsistent d
unfolding step
step-IsConsistent start_operation c d ran ok =
    subst IsConsistent (some_injective _ d ran) (start-IsConsistent c ok)
step-IsConsistent complete_operation c d ran ok = complete-IsConsistent c d ran ok
step-IsConsistent end_wait c d ran ok =
    let (t, h, empty, after) = operations_done_lem c d c.phase refl ran in
    subst IsConsistent (sym after) (launch-IsConsistent false c (waiting-on c t h ok) (inr empty))
step-IsConsistent finish_shutdown c d ran ok = finish-IsConsistent c d ran ok
step-IsConsistent (register_manager m) c d ran ok =
    subst IsConsistent (some_injective _ d ran)
      (PhaseFits-same c (register m c) refl refl refl (λ e. e) c.phase ok)
step-IsConsistent (change_timeout t) c d ran ok =
    subst IsConsistent (some_injective _ d ran)
      (PhaseFits-same c (set_timeout t c) refl refl refl (λ e. e) c.phase ok)
step-IsConsistent (call_shutdown now) c d ran ok =
    subst IsConsistent (some_injective _ d ran) (begin-IsConsistent now c ok)
step-IsConsistent (expire now parent_done) c d ran ok =
    let (t, h, after) = context_done_lem now parent_done c d c.phase refl ran in
    subst IsConsistent (sym after) (launch-IsConsistent true c (waiting-on c t h ok) (inl refl))
step-IsConsistent (return_manager n err) c d ran ok = manager-IsConsistent n err c d ran ok

pub run-IsConsistent :
    (actions : List Action) (c d : Coordinator)
    → run actions c ≡ some d
    → IsConsistent c
    → IsConsistent d
unfolding run
run-IsConsistent [] c d ran ok = subst IsConsistent (some_injective c d ran) ok
run-IsConsistent (a ∷ actions) c d ran ok = elim (Option-cases (step a c)) [
  | inl stuck ↦ absurd (cc (stuck, ran))
  | inr (m, there) ↦
      run-IsConsistent actions m d (cc (there, ran)) (step-IsConsistent a c m there ok)
]
