-- ===== src/Registration/Desk.antt =====
-- pkg/registration/saga.go: the saga, its store, and what happens when a step fails. The log is left
-- out.
use thittam.Base.{ℕ, Bool, false, not, ◌||◌, Option, some, List, [], ◌∷◌, ◌++◌, ◌==◌, if◌then◌else◌}
use thittam.Base.Time.{Time}
use thittam.Base.Action.{
  Result, ok, err, Action, ◌>>=◌, ◌>>◌, pure, raise, attempt, time_now, modify,
}
use thittam.Registration.Ports.{
  Fault, Step, create_tenant, create_user, bind_vertical, seed_chart_of_accounts,
  seed_budget_templates, seed_expense_categories, open_accounting_period, publish_event,
  send_welcome_email, failed, compensating, compensated, compensation_failed, RegistrationSaga,
  Port, Ports,
}

-- Step is an int in the code, counted from 1.
abbrev pub step_number : Step → ℕ
step_number create_tenant = 1
step_number create_user = 2
step_number bind_vertical = 3
step_number seed_chart_of_accounts = 4
step_number seed_budget_templates = 5
step_number seed_expense_categories = 6
step_number open_accounting_period = 7
step_number publish_event = 8
step_number send_welcome_email = 9

unfoldable pub has_step : Step → List Step → Bool
has_step step [] = false
has_step step (done ∷ rest) = (step_number done == step_number step) || has_step step rest

abbrev pub step_completed : Step → RegistrationSaga → Bool
step_completed step saga = has_step step saga.completed_steps

unfoldable pub mark_step_completed : Step → RegistrationSaga → RegistrationSaga
mark_step_completed step saga =
    if not (step_completed step saga)
    then record saga { completed_steps = saga.completed_steps ++ step ∷ [] }
    else saga

-- The saga that the code mutates, and the outside that the ports act on.
pub record Desk (S : Type 0) : Type 0 where
  pub saga : RegistrationSaga
  pub outside : S

abbrev pub Work : Type 0 → Type 0 → Type 0
Work S A = Action (Desk S) Fault A

module _ {S : Type 0} where
  unfoldable pub current : Work S RegistrationSaga
  current w = (ok w.tables.saga, w)

  unfoldable pub edit : (RegistrationSaga → RegistrationSaga) → Work S (Unit {0})
  edit f = modify (λ d. record d { saga = f d.saga })

  unfoldable pub call : {A : Type 0} → Port S A → Work S A
  call port w =
      let (r, after) = port w.tables.outside in
      (r, record w { tables = record w.tables { outside = after } })

  unfoldable pub unless_completed : Step → Work S (Unit {0}) → Work S (Unit {0})
  unless_completed step work = do saga ← current; if step_completed step saga then pure tt else work

abbrev pub failure : Option Step → Fault → Time → RegistrationSaga → RegistrationSaga
failure step e now saga = record saga {
  status = failed;
  failed_step = step;
  failure_reason = some e;
  updated_at = now;
}

abbrev pub verdict : List (Step × Fault) → Time → RegistrationSaga → RegistrationSaga
verdict [] now saga = record saga { status = compensated; updated_at = now }
verdict (e ∷ es) now saga = record saga {
  status = compensation_failed;
  compensation_errors = e ∷ es;
  updated_at = now;
}

abbrev pub errors_of : Step → Result Fault (Unit {0}) → List (Step × Fault)
errors_of step (ok u) = []
errors_of step (err e) = (step, e) ∷ []

module _ {S : Type 0} where
  unfoldable pub undo_call : Step → Port S (Unit {0}) → Work S (List (Step × Fault))
  undo_call step port = do r ← attempt (call port); pure (errors_of step r)

  unfoldable pub undo : Step → Port S (Unit {0}) → Work S (List (Step × Fault))
  undo step port = do
    saga ← current
    if step_completed step saga then undo_call step port else pure []

module _ {S : Type 0} (ports : Ports S) where
  unfoldable pub persist : Work S (Unit {0})
  persist = do
    now ← time_now
    edit (λ saga. record saga { updated_at = now })
    saga ← current
    written ← attempt (call (ports.update_saga saga))
    pure tt

  -- failSaga, before it returns its error.
  unfoldable pub fail_saga : Option Step → Fault → Work S (Unit {0})
  fail_saga step e = do now ← time_now; edit (failure step e now); persist

  -- The calls of failAndCompensate to the compensator, with the errors that they gave.
  unfoldable pub compensation : Work S (List (Step × Fault))
  compensation = do
    saga ← current
    unbound ← undo bind_vertical (ports.unbind_vertical saga.tenant_id saga.request.vertical_id)
    no_user ← undo create_user (ports.delete_user saga.tenant_id saga.user_id)
    no_tenant ← undo create_tenant (ports.delete_tenant saga.tenant_id)
    pure (unbound ++ (no_user ++ no_tenant))

  unfoldable pub fail_and_compensate : {A : Type 0} → Step → Fault → Work S A
  fail_and_compensate step e = do
    fail_saga (some step) e
    edit (λ saga. record saga { status = compensating })
    persist
    errors ← compensation
    now ← time_now
    edit (verdict errors now)
    persist
    raise e

  unfoldable pub or_fail : {A : Type 0} → Option Step → Result Fault A → Work S A
  or_fail step (ok a) = pure a
  or_fail step (err e) = fail_saga step e >> raise e

  unfoldable pub or_compensate : {A : Type 0} → Step → Result Fault A → Work S A
  or_compensate step (ok a) = pure a
  or_compensate step (err e) = fail_and_compensate step e

  -- A call whose failure rolls the registration back.
  unfoldable pub critical : {A : Type 0} → Step → Port S A → Work S A
  critical step port = do r ← attempt (call port); or_compensate step r

  unfoldable pub complete : Step → Work S (Unit {0})
  complete step = do edit (mark_step_completed step); persist
