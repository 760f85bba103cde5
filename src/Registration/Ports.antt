-- ===== src/Registration/Ports.antt =====
-- pkg/registration/errors.go, events.go, ports.go, the records of request.go and saga.go, and the
-- interfaces SagaStore and Compensator: what the orchestrator is given.
use thittam.Base.{ℕ, Bool, Option, List}
use thittam.Base.Int.{ℤ}
use thittam.Base.Text.{Text}
use thittam.Base.Time.{Time}
use thittam.Base.Action.{Result}
use thittam.Ledger.Chart.{ChartOfAccountEntry}

-- The errors that a caller can tell apart; `other` has any other.
pub data Fault : Type 0 where
  vertical_not_found vertical_inactive email_taken tenant_name_taken : Fault
  country_required unknown_country slug_taken invalid_plan invalid_request saga_not_found : Fault
  other : ℕ → Fault

pub data Step : Type 0 where
  create_tenant create_user bind_vertical seed_chart_of_accounts seed_budget_templates : Step
  seed_expense_categories open_accounting_period publish_event send_welcome_email : Step

pub data SagaStatus : Type 0 where
  in_progress completed failed compensating compensated compensation_failed : SagaStatus

pub record RegisterRequest : Type 0 where
  pub company_name : Text
  pub email : Text
  pub password : Text
  pub vertical_id : Text
  pub plan : Text
  pub country : Text
  pub primary_currency : Text

-- `failed_step` is none for the zero value, and `failure_reason` for the empty text. The reason of a
-- failure and the errors of the compensation are kept as errors, not as their texts.
pub record RegistrationSaga : Type 0 where
  pub id : ℕ
  pub email : Text
  pub tenant_id : ℕ
  pub user_id : ℕ
  pub status : SagaStatus
  pub completed_steps : List Step
  pub failed_step : Option Step
  pub failure_reason : Option Fault
  pub compensation_errors : List (Step × Fault)
  pub request : RegisterRequest
  pub created_at : Time
  pub updated_at : Time

pub record VerticalDefinitionRow : Type 0 where
  pub id : Text
  pub name : Text
  pub version : Text
  pub description : Text
  pub config : Text
  pub is_active : Bool

pub record TemplateLineItem : Type 0 where
  pub category_id : Text
  pub description : Text
  pub account_code : Text
  pub default_amount : ℤ
  pub is_required : Bool

pub record BudgetTemplate : Type 0 where
  pub name : Text
  pub description : Text
  pub line_items : List TemplateLineItem

pub record ExpenseCategory : Type 0 where
  pub id : Text
  pub label : Text
  pub tax_treatment : Text
  pub default_account_code : Text
  pub requires_po : Bool

-- The part of vertical.Config that the registration reads.
pub record VerticalConfig : Type 0 where
  pub default_chart_of_accounts : List ChartOfAccountEntry
  pub budget_templates : List BudgetTemplate
  pub expense_categories : List ExpenseCategory

pub record TenantCreatedEvent : Type 0 where
  pub tenant_id : ℕ
  pub name : Text
  pub slug : Text
  pub plan : Text
  pub vertical_id : Text
  pub admin_email : Text
  pub admin_user_id : ℕ
  pub occurred_at : Time

-- A call of something outside the package: it gives a value or an error, and changes the outside
-- either way.
abbrev pub Port : Type 0 → Type 0 → Type 0
Port S A = S → Result Fault A × S

-- The interfaces that the orchestrator holds, over a state of the outside. `parse_config` is
-- json.Unmarshal into a vertical.Config and `short_id` the first eight characters of a UUID.
pub record Ports (S : Type 0) : Type 0 where
  pub tenant_exists_by_slug : Text → Port S Bool
  pub tenant_exists_by_normalized_name : Text → Port S Bool
  pub create_tenant : Text → Text → Text → Text → Text → Port S ℕ
  pub create_user : ℕ → Text → Text → Text → Port S ℕ
  pub get_vertical_definition : Text → Port S VerticalDefinitionRow
  pub bind_tenant_vertical : ℕ → Text → ℕ → Port S (Unit {0})
  pub seed_chart_of_accounts : ℕ → List ChartOfAccountEntry → Port S (Unit {0})
  pub open_accounting_period : ℕ → ℕ → ℕ → Port S (Unit {0})
  pub seed_budget_templates : ℕ → List BudgetTemplate → Port S (Unit {0})
  pub seed_expense_categories : ℕ → List ExpenseCategory → Port S (Unit {0})
  pub publish_tenant_created : TenantCreatedEvent → Port S (Unit {0})
  pub send_welcome_email : ℕ → Text → Text → Text → Port S (Unit {0})
  pub hash : Text → Port S Text
  pub create_saga : RegistrationSaga → Port S (Unit {0})
  pub update_saga : RegistrationSaga → Port S (Unit {0})
  pub get_saga_by_id : ℕ → Port S RegistrationSaga
  pub get_saga_by_email : Text → Port S RegistrationSaga
  pub delete_tenant : ℕ → Port S (Unit {0})
  pub delete_user : ℕ → ℕ → Port S (Unit {0})
  pub unbind_vertical : ℕ → Text → Port S (Unit {0})
  pub parse_config : Text → Option VerticalConfig
  pub short_id : ℕ → Text
