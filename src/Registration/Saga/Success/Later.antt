-- ===== src/Registration/Saga/Success/Later.antt =====
-- Steps 4 to 9 keep what the first three have made.
use thittam.Base.{ℕ, ◌≡◌, List, none}
use thittam.Base.Text.{Text}
use thittam.Base.Action.{attempt, time_now}
use thittam.Base.Keeps.{Keeps, Keeps-bind, Keeps-lift, Keeps-attempt, Keeps-pure, Keeps-time_now}
use thittam.Base.Hoare.{
  Meets, Meets-map, Meets-bind, Meets-attempt-Keeps, Meets-given, Holds, Holds-Keeps, Holds-if,
  Holds-bind,
}
use thittam.Registration.Ports.{
  Fault, Step, create_tenant, create_user, bind_vertical, RegisterRequest, VerticalDefinitionRow,
  VerticalConfig, BudgetTemplate, ExpenseCategory, TenantCreatedEvent, Port, Ports,
}
use thittam.Registration.Desk.{Desk, Work, current, call, unless_completed, critical, complete}
use thittam.Registration.Saga.{
  load_vertical_config, chart_step, budget_step, category_step, period_step, event_step, email_step,
  finish, seeding, later_steps, run, active_config,
}
use thittam.Registration.Saga.Rules.{Keeps-current, Keeps-edit, Keeps-call, Meets-current}
use thittam.Registration.Saga.Rollback.{Registry}
use thittam.Registration.Saga.Failure.{persist-Meets}
use thittam.Ledger.Chart.{ChartOfAccountEntry}
use thittam.Registration.Saga.Success.{
  Builds, or_fail-Meets, critical-Meets, complete-Meets, open-Meets, NothingYet, TenantMade,
  UserMade, InPlace,
}
use thittam.Registration.Saga.Success.First.{
  tenant_step-Meets, user_step-Meets, bind_step-Meets, binding_marked, kept-InPlace,
  persisted-InPlace,
}

module _ {S : Type 0} (registry : Registry S) (ports : Ports S) (builds : Builds registry ports)
    (req : RegisterRequest) where
  open registry use {has_tenant, has_user, has_binding}

  loaded-Meets :
      (vertical_id : Text)
      → Meets NothingYet
          (λ _. NothingYet)
          (λ _. Unit {0})
          (attempt {F = Fault} (load_vertical_config ports vertical_id))
  unfolding load_vertical_config
  loaded-Meets vertical_id =
      Meets-attempt-Keeps _
        (Keeps-bind _ _ (Keeps-call _ (λ d p. p)) (λ vd. Keeps-lift (active_config ports vd)))

  -- The later steps keep what is in place.
  critical-Holds :
      {A : Type 0} (step : Step) (port : Port S A)
      → ((d : Desk S)
          → (InPlace registry req) d
          → (InPlace registry req) (record d { outside = (port d.outside).1 }))
      → Holds (InPlace registry req) (critical ports step port)
  critical-Holds step port k = record { meets = critical-Meets ports step port (λ d a p e. k d p) }

  complete-Holds : (step : Step) → Holds (InPlace registry req) (complete ports step)
  complete-Holds step = record {
    meets =
        complete-Meets ports step ((binding_marked registry ports builds req) step)
          (persisted-InPlace registry ports builds req);
  }

  seed_chart_of_accounts-Holds :
      (step : Step) (x : ℕ) (es : List ChartOfAccountEntry)
      → Holds (InPlace registry req) (critical ports step (ports.seed_chart_of_accounts x es))
  seed_chart_of_accounts-Holds step x es = critical-Holds step _ (
      (kept-InPlace registry ports builds req) (ports.seed_chart_of_accounts x es)
        (λ t. (builds.tenants t).seed_chart_of_accounts x es)
        (λ t u. (builds.users t u).seed_chart_of_accounts x es)
        (λ t. (builds.bindings t _).seed_chart_of_accounts x es))

  seed_budget_templates-Holds :
      (step : Step) (x : ℕ) (bs : List BudgetTemplate)
      → Holds (InPlace registry req) (critical ports step (ports.seed_budget_templates x bs))
  seed_budget_templates-Holds step x bs = critical-Holds step _ (
      (kept-InPlace registry ports builds req) (ports.seed_budget_templates x bs)
        (λ t. (builds.tenants t).seed_budget_templates x bs)
        (λ t u. (builds.users t u).seed_budget_templates x bs)
        (λ t. (builds.bindings t _).seed_budget_templates x bs))

  seed_expense_categories-Holds :
      (step : Step) (x : ℕ) (cs : List ExpenseCategory)
      → Holds (InPlace registry req) (critical ports step (ports.seed_expense_categories x cs))
  seed_expense_categories-Holds step x cs = critical-Holds step _ (
      (kept-InPlace registry ports builds req) (ports.seed_expense_categories x cs)
        (λ t. (builds.tenants t).seed_expense_categories x cs)
        (λ t u. (builds.users t u).seed_expense_categories x cs)
        (λ t. (builds.bindings t _).seed_expense_categories x cs))

  open_accounting_period-Holds :
      (step : Step) (x y m : ℕ)
      → Holds (InPlace registry req) (critical ports step (ports.open_accounting_period x y m))
  open_accounting_period-Holds step x y m = critical-Holds step _ (
      (kept-InPlace registry ports builds req) (ports.open_accounting_period x y m)
        (λ t. (builds.tenants t).open_accounting_period x y m)
        (λ t u. (builds.users t u).open_accounting_period x y m)
        (λ t. (builds.bindings t _).open_accounting_period x y m))

  publish_tenant_created-Keeps :
      (e : TenantCreatedEvent)
      → Keeps (InPlace registry req) (call (ports.publish_tenant_created e))
  publish_tenant_created-Keeps e = Keeps-call _ (
      (kept-InPlace registry ports builds req) (ports.publish_tenant_created e)
        (λ t. (builds.tenants t).publish_tenant_created e)
        (λ t u. (builds.users t u).publish_tenant_created e)
        (λ t. (builds.bindings t _).publish_tenant_created e))

  send_welcome_email-Keeps :
      (x : ℕ) (a b c : Text)
      → Keeps (InPlace registry req) (call (ports.send_welcome_email x a b c))
  send_welcome_email-Keeps x a b c = Keeps-call _ (
      (kept-InPlace registry ports builds req) (ports.send_welcome_email x a b c)
        (λ t. (builds.tenants t).send_welcome_email x a b c)
        (λ t u. (builds.users t u).send_welcome_email x a b c)
        (λ t. (builds.bindings t _).send_welcome_email x a b c))

  current-Holds : Holds (InPlace registry req) current
  current-Holds = Holds-Keeps _ Keeps-current

  time_now-Holds : Holds (InPlace registry req) (time_now {E = Fault})
  time_now-Holds = Holds-Keeps _ Keeps-time_now

  attempt-Holds :
      {A : Type 0} (m : Work S A)
      → Keeps (InPlace registry req) m
      → Holds (InPlace registry req) (attempt {F = Fault} m)
  attempt-Holds m k = Holds-Keeps _ (Keeps-attempt m k)

  unless-Holds :
      (step : Step) (work : Work S (Unit {0}))
      → Holds (InPlace registry req) work
      → Holds (InPlace registry req) (unless_completed step work)
  unfolding unless_completed
  unless-Holds step work h =
      Holds-bind _ _ current-Holds
        (λ saga. Holds-if _ _ _ (λ _. Holds-Keeps _ (Keeps-pure tt)) (λ _. h))

  finish-Holds : Holds (InPlace registry req) (finish ports)
  unfolding finish
  finish-Holds = Holds-bind _ _ time_now-Holds (λ now.
      Holds-bind _ _ (Holds-Keeps _ (Keeps-edit _ (λ d p. p)))
        (λ _. record { meets = persist-Meets ports (persisted-InPlace registry ports builds req) }))

  ruleset later_rules = (
    Holds-bind, current-Holds, time_now-Holds, attempt-Holds, unless-Holds, finish-Holds,
    complete-Holds, seed_chart_of_accounts-Holds, seed_budget_templates-Holds,
    seed_expense_categories-Holds, open_accounting_period-Holds, publish_tenant_created-Keeps,
    send_welcome_email-Keeps,
  )

  seeding-Holds :
      (vd : VerticalDefinitionRow) (cfg : VerticalConfig)
      → Holds (InPlace registry req) (seeding ports req vd cfg)
  unfolding seeding chart_step budget_step category_step period_step event_step email_step
  seeding-Holds vd cfg = search later_rules depth 20

  later_steps-Meets :
      (vd : VerticalDefinitionRow) (cfg : VerticalConfig)
      → Meets
          (TenantMade registry)
          (λ _. (InPlace registry req))
          (λ _. Unit {0})
          (later_steps ports req vd cfg)
  unfolding later_steps
  later_steps-Meets vd cfg =
      Meets-bind (λ _. (UserMade registry)) _ _
        (open-Meets ports create_user _ (λ d p. p.1) (user_step-Meets registry ports builds req))
        λ _.
          Meets-bind (λ _. (InPlace registry req)) _ _
            (open-Meets ports bind_vertical _ (λ d p. p.2)
              (bind_step-Meets registry ports builds req))
            λ _. (seeding-Holds vd cfg).meets

  pub run-InPlace :
      Meets
        (λ d. (d.saga.request ≡ req) × NothingYet d)
        (λ _. (InPlace registry req))
        (λ _. Unit {0})
        (run ports)
  unfolding run
  run-InPlace =
      Meets-bind (λ saga d. (saga.request ≡ req) × NothingYet d) _ _ (Meets-current (λ d p. p))
        λ saga.
          Meets-given _ (λ d p. p.0)
            λ same.
              Meets-map _ (λ d p. p.1) (λ a d q. q) (λ d r. r)
                (rw same (
                  Meets-bind (λ _. NothingYet) _ _ (loaded-Meets _)
                    λ loaded.
                      Meets-bind (λ _. NothingYet) _ _
                        (or_fail-Meets ports none loaded (λ a d e p. p))
                        λ (vd, cfg).
                          Meets-bind (λ _. (TenantMade registry)) _ _
                            (open-Meets ports create_tenant _ (λ d p. p.0)
                              (tenant_step-Meets registry ports builds req))
                            λ _. later_steps-Meets vd cfg))
