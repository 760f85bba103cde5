-- ===== src/Registration/Saga/Resume.antt =====
-- A registration that goes on does not create its tenant a second time.
use thittam.Base.{ℕ, ◌≡◌, refl, true, List, [], ◌∷◌, ◌++◌, Option, arith}
use thittam.Base.Text.{Text}
use thittam.Base.Time.{Time}
use thittam.Base.Action.{Result, ok, err, World, Action, ◌>>=◌, and_then, time_now}
use thittam.Base.Keeps.{Keeps, keeps_rules}
use thittam.Registration.Ports.{
  Fault, Step, create_tenant, SagaStatus, completed, failed, in_progress, compensating, compensated,
  compensation_failed, RegisterRequest, RegistrationSaga, VerticalDefinitionRow, VerticalConfig,
  TenantCreatedEvent, Port, Ports,
}
use thittam.Registration.Desk.{
  Desk, Work, has_step, step_completed, mark_step_completed, current, edit, call, unless_completed,
  failure, verdict, undo_call, undo, persist, fail_saga, compensation, fail_and_compensate, or_fail,
  or_compensate, critical, complete,
}
use thittam.Registration.Saga.{
  Outcome, load_vertical_config, user_step, bind_step, chart_step, budget_step, category_step,
  period_step, event_step, email_step, finish, seeding, later_steps, run, ask, at_desk,
  resume_failed, resume_from, resume,
}
use thittam.Registration.Saga.Rules.{KeptBy, Keeps-current, Keeps-edit, Keeps-call}
use thittam.Ledger.Chart.{ChartOfAccountEntry}

-- Every port but CreateTenant keeps the property.
pub record Quiet {S : Type 0} (Q : S → Type 0) (ports : Ports S) : Type 0 where
  pub create_user : (t : ℕ) (a b c : Text) → KeptBy Q (ports.create_user t a b c)
  pub get_vertical_definition : (v : Text) → KeptBy Q (ports.get_vertical_definition v)
  pub bind_tenant_vertical :
      (t : ℕ) (v : Text) (u : ℕ) → KeptBy Q (ports.bind_tenant_vertical t v u)
  pub seed_chart_of_accounts :
      (t : ℕ) (es : List ChartOfAccountEntry) → KeptBy Q (ports.seed_chart_of_accounts t es)
  pub open_accounting_period : (t y m : ℕ) → KeptBy Q (ports.open_accounting_period t y m)
  pub seed_budget_templates : (t : ℕ) → (bs : _) → KeptBy Q (ports.seed_budget_templates t bs)
  pub seed_expense_categories : (t : ℕ) → (cs : _) → KeptBy Q (ports.seed_expense_categories t cs)
  pub publish_tenant_created : (e : TenantCreatedEvent) → KeptBy Q (ports.publish_tenant_created e)
  pub send_welcome_email : (t : ℕ) (a b c : Text) → KeptBy Q (ports.send_welcome_email t a b c)
  pub hash : (p : Text) → KeptBy Q (ports.hash p)
  pub update_saga : (saga : RegistrationSaga) → KeptBy Q (ports.update_saga saga)
  pub get_saga_by_id : (id : ℕ) → KeptBy Q (ports.get_saga_by_id id)
  pub delete_tenant : (t : ℕ) → KeptBy Q (ports.delete_tenant t)
  pub delete_user : (t u : ℕ) → KeptBy Q (ports.delete_user t u)
  pub unbind_vertical : (t : ℕ) (v : Text) → KeptBy Q (ports.unbind_vertical t v)

has_step-append :
    (step last : Step) (steps : List Step)
    → has_step step steps ≡ true
    → has_step step (steps ++ last ∷ []) ≡ true
unfolding has_step
has_step-append step last [] h = cc
has_step-append step last (s ∷ steps) h = ground (arith, has_step-append step last steps)

mark-has_step :
    (step last : Step) (saga : RegistrationSaga)
    → step_completed step saga ≡ true
    → step_completed step (mark_step_completed last saga) ≡ true
unfolding mark_step_completed
mark-has_step step last saga h = ground (arith, has_step-append step last saga.completed_steps)

mark-tenant_id :
    (last : Step) (saga : RegistrationSaga)
    → (mark_step_completed last saga).tenant_id ≡ saga.tenant_id
unfolding mark_step_completed
mark-tenant_id last saga = ground arith

module _ {S : Type 0} (Q : S → Type 0) (ports : Ports S) (quiet : Quiet Q ports) (t : ℕ) where
  -- The saga's tenant stays, marked as created, and the outside keeps the property.
  abbrev Going : Desk S → Type 0
  Going d = (step_completed create_tenant d.saga ≡ true) × (d.saga.tenant_id ≡ t) × Q d.outside

  quiet_call : {A : Type 0} (port : Port S A) → KeptBy Q port → Keeps Going (call port)
  quiet_call port k = Keeps-call port (λ d p. (p.0, p.1, k d.outside p.2))

  quiet_edit :
      (f : RegistrationSaga → RegistrationSaga)
      → ((s : RegistrationSaga)
          → ((f s).completed_steps ≡ s.completed_steps) × ((f s).tenant_id ≡ s.tenant_id))
      → Keeps Going (edit f)
  quiet_edit f k = Keeps-edit f (λ d p. let (a, b) = k d.saga in (rw a p.0, rw b p.1, p.2))

  edit_updated_at : (now : Time) → Keeps Going (edit (λ saga. record saga { updated_at = now }))
  edit_updated_at now = quiet_edit _ (λ s. (refl, refl))

  edit_user_id : (u : ℕ) → Keeps Going (edit (λ saga. record saga { user_id = u }))
  edit_user_id u = quiet_edit _ (λ s. (refl, refl))

  edit_status : (x : SagaStatus) → Keeps Going (edit (λ saga. record saga { status = x }))
  edit_status x = quiet_edit _ (λ s. (refl, refl))

  edit_end :
      (x : SagaStatus) (now : Time)
      → Keeps Going (edit (λ saga. record saga { status = x; updated_at = now }))
  edit_end x now = quiet_edit _ (λ s. (refl, refl))

  edit-failure :
      (step : Option Step) (e : Fault) (now : Time) → Keeps Going (edit (failure step e now))
  edit-failure step e now = quiet_edit _ (λ s. (refl, refl))

  edit-verdict :
      (errors : List (Step × Fault)) (now : Time) → Keeps Going (edit (verdict errors now))
  edit-verdict [] now = quiet_edit _ (λ s. (refl, refl))
  edit-verdict (e ∷ es) now = quiet_edit _ (λ s. (refl, refl))

  edit_mark : (step : Step) → Keeps Going (edit (mark_step_completed step))
  edit_mark step = Keeps-edit _ (λ d p.
      (mark-has_step create_tenant step d.saga p.0, rw (mark-tenant_id step d.saga) p.1, p.2))

  ruleset going_rules = (
    keeps_rules, Keeps-current, quiet_call, edit_updated_at, edit_user_id, edit_status, edit_end,
    edit-failure, edit-verdict, edit_mark,
  )

  persist-Going : Keeps Going (persist ports)
  unfolding persist
  persist-Going = search (going_rules, quiet.update_saga) depth 10

  undo-Going :
      (step : Step) (port : Port S (Unit {0})) → KeptBy Q port → Keeps Going (undo step port)
  unfolding undo undo_call
  undo-Going step port k = search going_rules depth 10

  compensation-Going : Keeps Going (compensation ports)
  unfolding compensation
  compensation-Going =
      search
        (going_rules, undo-Going, quiet.delete_tenant, quiet.delete_user, quiet.unbind_vertical)
        depth 10

  fail_saga-Going : (step : Option Step) (e : Fault) → Keeps Going (fail_saga ports step e)
  unfolding fail_saga
  fail_saga-Going step e = search (going_rules, persist-Going) depth 10

  fail_and_compensate-Going :
      {A : Type 0} (step : Step) (e : Fault)
      → Keeps Going (fail_and_compensate ports {A = A} step e)
  unfolding fail_and_compensate
  fail_and_compensate-Going step e =
      search (going_rules, persist-Going, fail_saga-Going, compensation-Going) depth 12

  or_fail-Going :
      {A : Type 0} (step : Option Step) (r : Result Fault A) → Keeps Going (or_fail ports step r)
  unfolding or_fail
  or_fail-Going step (ok a) = search going_rules
  or_fail-Going step (err e) = search (going_rules, fail_saga-Going)

  or_compensate-Going :
      {A : Type 0} (step : Step) (r : Result Fault A) → Keeps Going (or_compensate ports step r)
  unfolding or_compensate
  or_compensate-Going step (ok a) = search going_rules
  or_compensate-Going step (err e) = fail_and_compensate-Going step e

  critical-Going :
      {A : Type 0} (step : Step) (port : Port S A)
      → KeptBy Q port
      → Keeps Going (critical ports step port)
  unfolding critical
  critical-Going step port k = search (going_rules, or_compensate-Going)

  complete-Going : (step : Step) → Keeps Going (complete ports step)
  unfolding complete
  complete-Going step = search (going_rules, persist-Going)

  unless-Going :
      (step : Step) (work : Work S (Unit {0}))
      → Keeps Going work
      → Keeps Going (unless_completed step work)
  unfolding unless_completed
  unless-Going step work k = search going_rules

  -- The guard of step 1.
  skipped-Going : (work : Work S (Unit {0})) → Keeps Going (unless_completed create_tenant work)
  unfolding unless_completed current ◌>>=◌
  skipped-Going work = record { apply = λ w h. rw h.0 h }

  ruleset step_rules = (going_rules, critical-Going, complete-Going, unless-Going)

  later_steps-Going :
      (req : RegisterRequest) (vd : VerticalDefinitionRow) (cfg : VerticalConfig)
      → Keeps Going (later_steps ports req vd cfg)
  unfolding later_steps seeding user_step bind_step chart_step budget_step category_step period_step
      event_step email_step finish
  later_steps-Going req vd cfg =
      search
        (
          step_rules, persist-Going, quiet.create_user, quiet.bind_tenant_vertical,
          quiet.seed_chart_of_accounts, quiet.open_accounting_period, quiet.seed_budget_templates,
          quiet.seed_expense_categories, quiet.publish_tenant_created, quiet.send_welcome_email,
          quiet.hash,
        )
        depth 24

  run-Going : Keeps Going (run ports)
  unfolding run load_vertical_config
  run-Going =
      search
        (
          going_rules, or_fail-Going, skipped-Going, later_steps-Going,
          quiet.get_vertical_definition,
        )
        depth 12

  -- The saga returned, if any, has the tenant, and the outside has kept the property.
  unfoldable pub Went : Result Fault Outcome × World S → Type 0
  Went (ok (saga, e), v) = (saga.tenant_id ≡ t) × Q v.tables
  Went (err e, v) = Q v.tables

  at_desk-Went :
      (saga : RegistrationSaga) (w : World S)
      → step_completed create_tenant saga ≡ true
      → saga.tenant_id ≡ t
      → Q w.tables
      → Went (at_desk saga (run ports) w)
  unfolding at_desk Went
  at_desk-Went saga w marked same q =
      let (_, a, b) =
        run-Going.apply
          (record {
            env = w.env;
            tick = w.tick;
            tables = record { saga = saga; outside = w.tables };
          })
          (marked, same, q) in
      (a, b)

  and_then-Went :
      {A : Type 0} (r : Result Fault A) (f : A → Action S Fault Outcome) (w : World S)
      → Q w.tables
      → ((a : A) → r ≡ ok a → Went (f a w))
      → Went (and_then r f w)
  unfolding Went
  and_then-Went (ok a) f w q k = k a refl
  and_then-Went (err e) f w q k = q

  ask-Went :
      {A : Type 0} (port : Port S A) (f : A → Action S Fault Outcome) (w : World S)
      → KeptBy Q port
      → Q w.tables
      → ((a : A) (u : World S) → (port w.tables).0 ≡ ok a → Q u.tables → Went (f a u))
      → Went ((ask port >>= f) w)
  unfolding ask ◌>>=◌
  ask-Went port f w kept q k =
      and_then-Went (port w.tables).0 f _ (kept w.tables q) (λ a e. k a _ e (kept w.tables q))

  time_now-Went :
      (f : Time → Action S Fault Outcome) (w : World S)
      → ((now : Time) (u : World S) → Q u.tables → Went (f now u))
      → Q w.tables
      → Went ((time_now >>= f) w)
  unfolding ◌>>=◌
  time_now-Went f w k q = k _ _ q

  resume_failed-Went :
      (saga : RegistrationSaga) (w : World S)
      → step_completed create_tenant saga ≡ true
      → saga.tenant_id ≡ t
      → Q w.tables
      → Went (resume_failed ports saga w)
  unfolding resume_failed
  resume_failed-Went saga w marked same q =
      time_now-Went _ w
        (λ now u k.
          ask-Went _ _ u (quiet.update_saga _) k (λ _ v _ h. at_desk-Went _ v marked same h))
        q

  resume_from-Went :
      (saga : RegistrationSaga) (status : SagaStatus) (w : World S)
      → step_completed create_tenant saga ≡ true
      → saga.tenant_id ≡ t
      → Q w.tables
      → Went (resume_from ports saga status w)
  unfolding resume_from Went ◌>>=◌
  resume_from-Went saga completed w marked same q = (same, q)
  resume_from-Went saga failed w marked same q = resume_failed-Went saga w marked same q
  resume_from-Went saga in_progress w marked same q = q
  resume_from-Went saga compensating w marked same q = q
  resume_from-Went saga compensated w marked same q = q
  resume_from-Went saga compensation_failed w marked same q = q

  -- Resume of a stored saga whose tenant is marked as created never creates a tenant: every
  -- property of the outside that the ports other than CreateTenant keep holds after it if it
  -- held before, whatever fails, and the saga that it returns has the stored tenant.
  pub resume-Went :
      (id : ℕ) (w : World S) {stored : RegistrationSaga}
      → (ports.get_saga_by_id id w.tables).0 ≡ ok stored
      → step_completed create_tenant stored ≡ true
      → stored.tenant_id ≡ t
      → Q w.tables
      → Went (resume ports id w)
  unfolding resume
  resume-Went id w {stored} found marked same q =
      ask-Went _ _ w (quiet.get_saga_by_id id) q (λ saga u e k.
        let it : stored ≡ saga = ground (arith, found, e) in
        resume_from-Went saga saga.status u (rw (← it) marked) (rw (← it) same) k)
