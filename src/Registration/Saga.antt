-- ===== src/Registration/Saga.antt =====
-- pkg/registration/saga.go: the steps of a registration, Start, Resume and GetStatus.
pub mod Success
pub mod Resume
pub mod Start
pub mod Failure
pub mod Rollback
pub mod Rules
use thittam.Base.{
  ℕ, suc, ◌+◌, ◌%◌, Bool, true, false, not, ◌||◌, Option, none, some, List, [], ◌∷◌, ◌++◌, ◌==◌,
  take, if◌then◌else◌,
}
use thittam.Base.Text.{Text, text}
use thittam.Base.Time.{Time, year_of}
use thittam.Base.Action.{
  Result, ok, err, World, Action, ◌>>=◌, ◌>>◌, pure, raise, attempt, lift, new_uuid, time_now,
  modify,
}
use thittam.Registration.Ports.{
  Fault, vertical_inactive, tenant_name_taken, other, Step, create_tenant, create_user,
  bind_vertical, seed_chart_of_accounts, seed_budget_templates, seed_expense_categories,
  open_accounting_period, publish_event, send_welcome_email, SagaStatus, in_progress, completed,
  failed, compensating, compensated, compensation_failed, RegisterRequest, RegistrationSaga,
  VerticalDefinitionRow, VerticalConfig, TenantCreatedEvent, Port, Ports,
}
use thittam.Registration.Slug.{slugify}
use thittam.Registration.Request.{is_empty, validate}
use thittam.Registration.Desk.{
  step_number, has_step, step_completed, mark_step_completed, Work, current, edit, call,
  unless_completed, failure, verdict, errors_of, undo_call, undo, persist, fail_saga, compensation,
  fail_and_compensate, or_fail, or_compensate, critical, complete, Desk,
}

abbrev pub active_config :
    {S : Type 0}
    → Ports S
    → VerticalDefinitionRow
    → Result Fault (VerticalDefinitionRow × VerticalConfig)
active_config ports vd =
    if not vd.is_active then err vertical_inactive else parsed (ports.parse_config vd.config)
  where
    parsed : Option VerticalConfig → Result Fault (VerticalDefinitionRow × VerticalConfig)
    parsed none = err (other 0)
    parsed (some config) = ok (vd, config)

abbrev pub slug_or : Text → Text
slug_or slug = if is_empty slug then text "tenant" else slug

-- The error of the look-up is dropped, and then the slug counts as free.
abbrev pub free_slug : Text → Text → Result Fault Bool → Text
free_slug slug suffix (ok true) = slug ++ 45 ∷ suffix
free_slug slug suffix (ok false) = slug
free_slug slug suffix (err e) = slug

abbrev pub name_free : Result Fault Bool → Result Fault (Unit {0})
name_free (ok true) = err tenant_name_taken
name_free (ok false) = ok tt
name_free (err e) = err e

module _ {S : Type 0} (ports : Ports S) where
  unfoldable pub load_vertical_config : Text → Work S (VerticalDefinitionRow × VerticalConfig)
  load_vertical_config vertical_id = do
    vd ← call (ports.get_vertical_definition vertical_id)
    lift (active_config ports vd)

  unfoldable pub tenant_step : RegisterRequest → Work S (Unit {0})
  tenant_step req = do
    saga ← current
    let slug = slug_or (slugify req.company_name)
    taken ← attempt (call (ports.tenant_exists_by_slug slug))
    same_name ← attempt (call (ports.tenant_exists_by_normalized_name req.company_name))
    or_fail ports (some create_tenant) (name_free same_name)
    created ← attempt (
        call (
          ports.create_tenant req.company_name (free_slug slug (ports.short_id saga.id) taken)
            req.plan req.country req.primary_currency))
    tenant_id ← or_fail ports (some create_tenant) created
    edit (λ saga. record saga { tenant_id = tenant_id })
    complete ports create_tenant

  unfoldable pub user_step : RegisterRequest → Work S (Unit {0})
  user_step req = do
    password_hash ← critical ports create_user (ports.hash req.password)
    saga ← current
    user_id ← critical ports create_user (
        ports.create_user saga.tenant_id req.email (req.company_name ++ text " Admin")
          password_hash)
    edit (λ saga. record saga { user_id = user_id })
    complete ports create_user

  unfoldable pub bind_step : RegisterRequest → Work S (Unit {0})
  bind_step req = do
    saga ← current
    critical ports bind_vertical
        (ports.bind_tenant_vertical saga.tenant_id req.vertical_id saga.user_id)
    complete ports bind_vertical

  unfoldable pub chart_step : VerticalConfig → Work S (Unit {0})
  chart_step cfg = do
    saga ← current
    critical ports seed_chart_of_accounts
        (ports.seed_chart_of_accounts saga.tenant_id cfg.default_chart_of_accounts)
    complete ports seed_chart_of_accounts

  unfoldable pub budget_step : VerticalConfig → Work S (Unit {0})
  budget_step cfg = do
    saga ← current
    critical ports seed_budget_templates
        (ports.seed_budget_templates saga.tenant_id cfg.budget_templates)
    complete ports seed_budget_templates

  unfoldable pub category_step : VerticalConfig → Work S (Unit {0})
  category_step cfg = do
    saga ← current
    critical ports seed_expense_categories
        (ports.seed_expense_categories saga.tenant_id cfg.expense_categories)
    complete ports seed_expense_categories

  unfoldable pub period_step : Work S (Unit {0})
  period_step = do
    saga ← current
    now ← time_now
    critical ports open_accounting_period
        (ports.open_accounting_period saga.tenant_id (year_of now) (now.month % 12 + 1))
    complete ports open_accounting_period

  -- The two steps whose failure is only logged.
  unfoldable pub event_step : RegisterRequest → Work S (Unit {0})
  event_step req = do
    saga ← current
    now ← time_now
    published ← attempt (
        call (
          ports.publish_tenant_created (record {
            tenant_id = saga.tenant_id;
            name = req.company_name;
            slug = slugify req.company_name;
            plan = req.plan;
            vertical_id = req.vertical_id;
            admin_email = req.email;
            admin_user_id = saga.user_id;
            occurred_at = now;
          })))
    complete ports publish_event

  unfoldable pub email_step : RegisterRequest → VerticalDefinitionRow → Work S (Unit {0})
  email_step req vd = do
    saga ← current
    sent ←
        attempt (call (ports.send_welcome_email saga.tenant_id req.email req.company_name vd.name))
    complete ports send_welcome_email

  unfoldable pub finish : Work S (Unit {0})
  finish = do
    now ← time_now
    edit (λ saga. record saga { status = completed; updated_at = now })
    persist ports

  -- Steps 4 to 9, and the end of run.
  unfoldable pub seeding :
      RegisterRequest → VerticalDefinitionRow → VerticalConfig → Work S (Unit {0})
  seeding req vd cfg = do
    unless_completed seed_chart_of_accounts (chart_step cfg)
    unless_completed seed_budget_templates (budget_step cfg)
    unless_completed seed_expense_categories (category_step cfg)
    unless_completed open_accounting_period period_step
    unless_completed publish_event (event_step req)
    unless_completed send_welcome_email (email_step req vd)
    finish

  -- Steps 2 to 9.
  unfoldable pub later_steps :
      RegisterRequest → VerticalDefinitionRow → VerticalConfig → Work S (Unit {0})
  later_steps req vd cfg = do
    unless_completed create_user (user_step req)
    unless_completed bind_vertical (bind_step req)
    seeding req vd cfg

  unfoldable pub run : Work S (Unit {0})
  run = do
    saga ← current
    loaded ← attempt (load_vertical_config saga.request.vertical_id)
    (vd, cfg) ← or_fail ports none loaded
    unless_completed create_tenant (tenant_step saga.request)
    later_steps saga.request vd cfg

-- A saga, and the error returned beside it. An error of the action itself comes with no saga.
abbrev pub Outcome : Type 0
Outcome = RegistrationSaga × Option Fault

abbrev pub error_of : Result Fault (Unit {0}) → Option Fault
error_of (ok u) = none
error_of (err e) = some e

module _ {S : Type 0} where
  unfoldable pub ask : {A : Type 0} → Port S A → Action S Fault A
  ask port w = let (r, after) = port w.tables in (r, record w { tables = after })

  unfoldable pub at_desk : RegistrationSaga → Work S (Unit {0}) → Action S Fault Outcome
  at_desk saga work w =
      let (r, v) = work (record {
        env = w.env;
        tick = w.tick;
        tables = record { saga = saga; outside = w.tables };
      }) in
      (
        ok (v.tables.saga, error_of r),
        record { env = v.env; tick = v.tick; tables = v.tables.outside },
      )

abbrev pub new_saga : ℕ → RegisterRequest → Time → Time → RegistrationSaga
new_saga id req created updated = record {
  id = id;
  email = req.email;
  tenant_id = 0;
  user_id = 0;
  status = in_progress;
  completed_steps = [];
  failed_step = none;
  failure_reason = none;
  compensation_errors = [];
  request = req;
  created_at = created;
  updated_at = updated;
}

module _ {S : Type 0} (ports : Ports S) where
  unfoldable pub start_new : RegisterRequest → Action S Fault Outcome
  start_new req = do
    id ← new_uuid
    created ← time_now
    updated ← time_now
    let saga = new_saga id req created updated
    ask (ports.create_saga saga)
    at_desk saga (run ports)

  unfoldable pub start_beside :
      RegisterRequest → RegistrationSaga → SagaStatus → Action S Fault Outcome
  start_beside req existing completed = pure (existing, none)
  start_beside req existing in_progress = pure (existing, some (other 1))
  start_beside req existing failed = pure (existing, some (other 1))
  start_beside req existing compensating = start_new req
  start_beside req existing compensated = start_new req
  start_beside req existing compensation_failed = start_new req

  unfoldable pub start_checked :
      RegisterRequest → Result Fault RegistrationSaga → Action S Fault Outcome
  start_checked req (ok existing) = start_beside req existing existing.status
  start_checked req (err e) = start_new req

  unfoldable pub start : RegisterRequest → Action S Fault Outcome
  start request = do
    req ← lift (validate request)
    existing ← attempt (ask (ports.get_saga_by_email req.email))
    start_checked req existing

  unfoldable pub resume_failed : RegistrationSaga → Action S Fault Outcome
  resume_failed saga = do
    now ← time_now
    let reset = record saga {
      status = in_progress;
      failed_step = none;
      failure_reason = none;
      updated_at = now;
    }
    ask (ports.update_saga reset)
    at_desk reset (run ports)

  unfoldable pub resume_from : RegistrationSaga → SagaStatus → Action S Fault Outcome
  resume_from saga completed = pure (saga, none)
  resume_from saga failed = resume_failed saga
  resume_from saga in_progress = raise (other 2)
  resume_from saga compensating = raise (other 2)
  resume_from saga compensated = raise (other 2)
  resume_from saga compensation_failed = raise (other 2)

  unfoldable pub resume : ℕ → Action S Fault Outcome
  resume saga_id = do saga ← ask (ports.get_saga_by_id saga_id); resume_from saga saga.status

  unfoldable pub get_status : ℕ → Action S Fault RegistrationSaga
  get_status saga_id = ask (ports.get_saga_by_id saga_id)
