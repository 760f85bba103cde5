-- ===== src/Registration/Saga/Success.antt =====
-- A registration that completes has made what it says: what the stores promise, and the rules for
-- the parts of a step.
pub mod First
pub mod Later
use thittam.Base.{
  ℕ, ◌≡◌, refl, Bool, true, false, not, ◌||◌, List, [], ◌∷◌, ◌++◌, Option, none, some, arith, ◌==◌,
  subst, if◌then◌else◌,
}
use thittam.Base.Text.{Text}
use thittam.Base.Time.{Time}
use thittam.Base.Action.{Result, ok, err, World, Action, ◌>>=◌, ◌>>◌, pure, attempt, time_now}
use thittam.Base.Keeps.{Keeps, Keeps-bind, Keeps-lift, Keeps-attempt, Keeps-pure, Keeps-time_now}
use thittam.Base.Hoare.{
  After, Meets, Meets-pure, Meets-raise, Meets-attempt, Meets-if, Meets-map, Meets-bind,
  Meets-after, Meets-attempt-Keeps, Meets-given, Stops-any, Holds, Holds-Keeps, Holds-if,
  Holds-bind,
}
use thittam.Registration.Ports.{
  Fault, Step, create_tenant, create_user, bind_vertical, seed_chart_of_accounts,
  seed_budget_templates, seed_expense_categories, open_accounting_period, publish_event,
  send_welcome_email, SagaStatus, RegisterRequest, RegistrationSaga, VerticalDefinitionRow,
  VerticalConfig, BudgetTemplate, ExpenseCategory, TenantCreatedEvent, Port, Ports,
}
use thittam.Registration.Desk.{
  Desk, Work, step_number, has_step, step_completed, mark_step_completed, current, edit, call,
  unless_completed, persist, fail_saga, fail_and_compensate, or_fail, or_compensate, critical,
  complete,
}
use thittam.Registration.Saga.{
  load_vertical_config, tenant_step, user_step, bind_step, chart_step, budget_step, category_step,
  period_step, event_step, email_step, finish, seeding, later_steps, run, active_config,
}
use thittam.Registration.Saga.Rules.{
  KeptBy, Keeps-current, Keeps-edit, Keeps-call, Meets-current, Meets-edit, Meets-call,
}
use thittam.Registration.Saga.Rollback.{Registry}
use thittam.Registration.Saga.Failure.{persist-Meets}
use thittam.Ledger.Chart.{ChartOfAccountEntry}

-- The ports that the later steps call keep the property.
pub record Forward {S : Type 0} (Q : S → Type 0) (ports : Ports S) : Type 0 where
  pub create_user : (t : ℕ) (a b c : Text) → KeptBy Q (ports.create_user t a b c)
  pub bind_tenant_vertical :
      (t : ℕ) (v : Text) (u : ℕ) → KeptBy Q (ports.bind_tenant_vertical t v u)
  pub seed_chart_of_accounts :
      (t : ℕ) (es : List ChartOfAccountEntry) → KeptBy Q (ports.seed_chart_of_accounts t es)
  pub open_accounting_period : (t y m : ℕ) → KeptBy Q (ports.open_accounting_period t y m)
  pub seed_budget_templates :
      (t : ℕ) (bs : List BudgetTemplate) → KeptBy Q (ports.seed_budget_templates t bs)
  pub seed_expense_categories :
      (t : ℕ) (cs : List ExpenseCategory) → KeptBy Q (ports.seed_expense_categories t cs)
  pub publish_tenant_created : (e : TenantCreatedEvent) → KeptBy Q (ports.publish_tenant_created e)
  pub send_welcome_email : (t : ℕ) (a b c : Text) → KeptBy Q (ports.send_welcome_email t a b c)
  pub hash : (p : Text) → KeptBy Q (ports.hash p)
  pub update_saga : (saga : RegistrationSaga) → KeptBy Q (ports.update_saga saga)

-- The documented behaviour of the stores: what they create is there, and no later step removes it.
pub record Builds {S : Type 0} (registry : Registry S) (ports : Ports S) : Type 0 where
  pub create_tenant :
      (n sl p c cur : Text) (s : S) (t : ℕ)
      → (ports.create_tenant n sl p c cur s).0 ≡ ok t
      → registry.has_tenant t (ports.create_tenant n sl p c cur s).1 ≡ true
  pub create_user :
      (t : ℕ) (a b c : Text) (s : S) (u : ℕ)
      → (ports.create_user t a b c s).0 ≡ ok u
      → registry.has_user t u (ports.create_user t a b c s).1 ≡ true
  pub bind_tenant_vertical :
      (t : ℕ) (v : Text) (u : ℕ) (s : S)
      → (ports.bind_tenant_vertical t v u s).0 ≡ ok tt
      → registry.has_binding t v (ports.bind_tenant_vertical t v u s).1 ≡ true
  pub tenants : (t : ℕ) → Forward (λ s. registry.has_tenant t s ≡ true) ports
  pub users : (t u : ℕ) → Forward (λ s. registry.has_user t u s ≡ true) ports
  pub bindings : (t : ℕ) (v : Text) → Forward (λ s. registry.has_binding t v s ≡ true) ports

has_step-append_other :
    (step last : Step) (steps : List Step)
    → (step_number last == step_number step) ≡ false
    → has_step step (steps ++ last ∷ []) ≡ has_step step steps
unfolding has_step
has_step-append_other step last [] h = ground arith
has_step-append_other step last (s ∷ steps) h =
    ground (arith, has_step-append_other step last steps)

pub mark_other :
    (step last : Step) (saga : RegistrationSaga)
    → (step_number last == step_number step) ≡ false
    → step_completed step (mark_step_completed last saga) ≡ step_completed step saga
unfolding mark_step_completed
mark_other step last saga h = ground (arith, has_step-append_other step last saga.completed_steps)

-- Marking a step changes nothing but the completed steps.
pub mark_same :
    (last : Step) (saga : RegistrationSaga)
    → ((mark_step_completed last saga).tenant_id ≡ saga.tenant_id)
      × ((mark_step_completed last saga).user_id ≡ saga.user_id)
      × ((mark_step_completed last saga).request ≡ saga.request)
unfolding mark_step_completed
mark_same last saga = ground arith

pub After-port :
    {S A : Type 0} (Q : A → Desk S → Type 0) (r : Result Fault A) (d : Desk S)
    → ((a : A) → r ≡ ok a → Q a d)
    → After Q (λ _. Unit {0}) r d
After-port Q (ok a) d h = h a refl
After-port Q (err e) d h = tt

module _ {S : Type 0} (ports : Ports S) where
  fail_and_compensate-Meets :
      {A : Type 0} {P : Desk S → Type 0} {Q : A → Desk S → Type 0} (step : Step) (e : Fault)
      → Meets P Q (λ _. Unit {0}) (fail_and_compensate ports {A = A} step e)
  unfolding fail_and_compensate
  fail_and_compensate-Meets step e =
      Meets-map _ (λ d p. tt) (λ a d q. q) (λ d r. r)
        (Meets-after _ _ (Stops-any _) λ _. Meets-after _ _ (Stops-any _) λ _.
          Meets-after _ _ (Stops-any _) λ _. Meets-after _ _ (Stops-any _) λ _.
            Meets-after _ _ (Stops-any _) λ _.
              Meets-after _ _ (Stops-any _)
                λ _. Meets-after _ _ (Stops-any _) λ _. Meets-raise e (λ d p. tt))

  pub or_fail-Meets :
      {A : Type 0} {P : Desk S → Type 0} {Q : A → Desk S → Type 0} (step : Option Step)
      (r : Result Fault A)
      → ((a : A) (d : Desk S) → r ≡ ok a → P d → Q a d)
      → Meets P Q (λ _. Unit {0}) (or_fail ports step r)
  unfolding or_fail
  or_fail-Meets step (ok a) h = Meets-pure a (λ d p. h a d refl p)
  or_fail-Meets step (err e) h =
      Meets-map _ (λ d p. tt) (λ a d q. q) (λ d r. r)
        (Meets-after _ _ (Stops-any _) λ _. Meets-raise e (λ d p. tt))

  or_compensate-Meets :
      {A : Type 0} {Q : A → Desk S → Type 0} (step : Step) (r : Result Fault A)
      → Meets (After Q (λ _. Unit {0}) r) Q (λ _. Unit {0}) (or_compensate ports step r)
  unfolding or_compensate
  or_compensate-Meets step (ok a) = Meets-pure a (λ d p. p)
  or_compensate-Meets step (err e) = fail_and_compensate-Meets step e

  pub critical-Meets :
      {A : Type 0} {P : Desk S → Type 0} {Q : A → Desk S → Type 0} (step : Step) (port : Port S A)
      → ((d : Desk S) (a : A)
          → P d
          → (port d.outside).0 ≡ ok a
          → Q a (record d { outside = (port d.outside).1 }))
      → Meets P Q (λ _. Unit {0}) (critical ports step port)
  unfolding critical
  critical-Meets {Q} step port h =
      Meets-bind _ _ _
        (Meets-attempt _ (Meets-call port (λ d p. After-port Q _ _ (λ a e. h d a p e))))
        (λ r. or_compensate-Meets step r)

  pub complete-Meets :
      {P Q : Desk S → Type 0} (step : Step)
      → ((d : Desk S) → P d → Q (record d { saga = mark_step_completed step d.saga }))
      → ((d : Desk S) (now : Time)
          → Q d
          → Q (record {
            saga = record d.saga { updated_at = now };
            outside = (ports.update_saga (record d.saga { updated_at = now }) d.outside).1;
          }))
      → Meets P (λ _. Q) (λ _. Unit {0}) (complete ports step)
  unfolding complete
  complete-Meets step mark kept =
      Meets-bind _ _ _ (Meets-edit _ mark) (λ _. persist-Meets ports kept)

  pub open-Meets :
      {P R : Desk S → Type 0} {Q : Unit {0} → Desk S → Type 0} (step : Step)
      (work : Work S (Unit {0}))
      → ((d : Desk S) → P d → step_completed step d.saga ≡ false)
      → Meets P Q R work
      → Meets P Q R (unless_completed step work)
  unfolding unless_completed current ◌>>=◌
  open-Meets step work not_yet h = record { apply = λ w p. rw (not_yet w.tables p) (h.apply w p) }

-- How far the registration has come.
abbrev pub NothingYet : {S : Type 0} → Desk S → Type 0
NothingYet d =
    (step_completed create_tenant d.saga ≡ false)
    × (step_completed create_user d.saga ≡ false)
    × (step_completed bind_vertical d.saga ≡ false)

module _ {S : Type 0} (registry : Registry S) where
  open registry use {has_tenant, has_user, has_binding}

  abbrev pub TenantMade : Desk S → Type 0
  TenantMade d =
      (has_tenant d.saga.tenant_id d.outside ≡ true)
      × (step_completed create_user d.saga ≡ false)
      × (step_completed bind_vertical d.saga ≡ false)

  abbrev pub UserMade : Desk S → Type 0
  UserMade d =
      (has_tenant d.saga.tenant_id d.outside ≡ true)
      × (has_user d.saga.tenant_id d.saga.user_id d.outside ≡ true)
      × (step_completed bind_vertical d.saga ≡ false)

  -- After the call that creates the tenant, with its identifier.
  abbrev pub Created : ℕ → Desk S → Type 0
  Created t d =
      (has_tenant t d.outside ≡ true)
      × (step_completed create_user d.saga ≡ false)
      × (step_completed bind_vertical d.saga ≡ false)

  -- After the call that creates the user, with its identifier.
  abbrev pub UserCreated : ℕ → Desk S → Type 0
  UserCreated u d =
      (has_tenant d.saga.tenant_id d.outside ≡ true)
      × (has_user d.saga.tenant_id u d.outside ≡ true)
      × (step_completed bind_vertical d.saga ≡ false)

  abbrev pub InPlace : RegisterRequest → Desk S → Type 0
  InPlace req d =
      (has_tenant d.saga.tenant_id d.outside ≡ true)
      × (has_user d.saga.tenant_id d.saga.user_id d.outside ≡ true)
      × (has_binding d.saga.tenant_id req.vertical_id d.outside ≡ true)
