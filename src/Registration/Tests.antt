-- ===== src/Registration/Tests.antt =====
-- A registration against a small outside, and the theorems on it.
use thittam.Base.{
  ℕ, ◌+◌, ◌≡◌, refl, Bool, true, false, Option, none, some, [], ◌∷◌, ◌==◌, if◌then◌else◌, arith,
}
use thittam.Base.Text.{text, eqb_text}
use thittam.Base.Strings.{trim_left, trim_right, byte_length, to_upper, every}
use thittam.Base.Action.{Result, ok, err, World, ◌>>=◌}
use thittam.Registration.Slug.{
  slugify, to_lower, dash_spaces, keep_slug_characters, collapse_dashes, drop_left_dashes,
  drop_right_dashes,
}
use thittam.Registration.Slug.Shape.{IsSlug, slugify-slugify}
use thittam.Registration.Locale.{country_currency, find_currency, currency_for_country}
use thittam.Registration.Ports.{
  Fault, other, saga_not_found, create_tenant, create_user, bind_vertical, SagaStatus, failed,
  completed, compensated, RegisterRequest, RegistrationSaga, Ports,
}
use thittam.Registration.Request.{
  squeeze, has_ending, is_email_from, matches_email, validate_place, validate,
}
use thittam.Registration.Desk.{
  has_step, mark_step_completed, current, edit, call, unless_completed, persist, fail_saga,
  undo_call, undo, compensation, fail_and_compensate, or_fail, or_compensate, critical, complete,
}
use thittam.Registration.Saga.{
  Outcome, load_vertical_config, tenant_step, user_step, bind_step, chart_step, budget_step,
  category_step, period_step, event_step, email_step, finish, seeding, later_steps, run, ask,
  new_saga, at_desk, start_new, start_beside, start_checked, start, resume_failed, resume_from,
  resume,
}
use thittam.Registration.Saga.Rollback.{Registry, Undoes}
use thittam.Registration.Saga.Success.{Forward, Builds, InPlace}
use thittam.Registration.Saga.Resume.{Quiet, Went, resume-Went}
use thittam.Registration.Saga.Start.{Returned, start-Returned, start_new-InPlace}

-- What exists outside, the saga stored last, and whether the seeding of budgets fails.
record Site : Type 0 where
  tenants : ℕ → Bool
  users : ℕ → Bool
  bindings : ℕ → Bool
  stored : Option RegistrationSaga
  budgets_fail : Bool

abbrev accept : Site → Result Fault (Unit {0}) × Site
accept s = (ok tt, s)

abbrev seed_budgets : Site → Result Fault (Unit {0}) × Site
seed_budgets s = (if s.budgets_fail then err (other 9) else ok tt, s)

abbrev stored_saga : Option RegistrationSaga → Result Fault RegistrationSaga
stored_saga none = err saga_not_found
stored_saga (some saga) = ok saga

abbrev with_id : ℕ → Bool → (ℕ → Bool) → ℕ → Bool
with_id t there old n = if n == t then there else old n

abbrev ports : Ports Site
ports = record {
  tenant_exists_by_slug = λ slug s. (ok false, s);
  tenant_exists_by_normalized_name = λ name s. (ok false, s);
  create_tenant =
      λ name slug plan country currency s. (ok 5, record s { tenants = with_id 5 true s.tenants });
  create_user = λ t email name hash s. (ok 6, record s { users = with_id t true s.users });
  get_vertical_definition = λ id s. (
    ok (record {
      id = id;
      name = text "Films";
      version = text "1";
      description = [];
      config = [];
      is_active = true;
    }),
    s,
  );
  bind_tenant_vertical = λ t v u s. (ok tt, record s { bindings = with_id t true s.bindings });
  seed_chart_of_accounts = λ t es. accept;
  open_accounting_period = λ t y m. accept;
  seed_budget_templates = λ t bs. seed_budgets;
  seed_expense_categories = λ t cs. accept;
  publish_tenant_created = λ e. accept;
  send_welcome_email = λ t a b c. accept;
  hash = λ password s. (ok (text "hash"), s);
  create_saga = λ saga s. (ok tt, record s { stored = some saga });
  update_saga = λ saga s. (ok tt, record s { stored = some saga });
  get_saga_by_id = λ id s. (stored_saga s.stored, s);
  get_saga_by_email = λ email s. (stored_saga s.stored, s);
  delete_tenant = λ t s. (ok tt, record s { tenants = with_id t false s.tenants });
  delete_user = λ t u s. (ok tt, record s { users = with_id t false s.users });
  unbind_vertical = λ t v s. (ok tt, record s { bindings = with_id t false s.bindings });
  parse_config = λ config.
      some
        (record { default_chart_of_accounts = []; budget_templates = []; expense_categories = [] });
  short_id = λ id. text "0000abcd";
}

abbrev registry : Registry Site
registry = record {
  has_tenant = λ t s. s.tenants t;
  has_user = λ t u s. s.users t;
  has_binding = λ t v s. s.bindings t;
}

undoes : Undoes registry ports
undoes = record {
  delete_tenant = λ t s e. ground arith;
  delete_user = λ t u s e. ground arith;
  unbind_vertical = λ t v s e. ground arith;
  delete_user_binding = λ t u t' v s h. h;
  delete_tenant_binding = λ t t' v s h. h;
  delete_tenant_user = λ t t' u s h. h;
  update_saga_tenant = λ saga t s h. h;
  update_saga_user = λ saga t u s h. h;
  update_saga_binding = λ saga t v s h. h;
}

-- A property that creations outside the tenants table keep.
forward :
    (Q : Site → Type 0)
    → ((t : ℕ) (s : Site) → Q s → Q (record s { users = with_id t true s.users }))
    → ((t : ℕ) (s : Site) → Q s → Q (record s { bindings = with_id t true s.bindings }))
    → ((saga : RegistrationSaga) (s : Site) → Q s → Q (record s { stored = some saga }))
    → Forward Q ports
forward Q user bound saved = record {
  create_user = λ t a b c s h. user t s h;
  bind_tenant_vertical = λ t v u s h. bound t s h;
  seed_chart_of_accounts = λ t es s h. h;
  open_accounting_period = λ t y m s h. h;
  seed_budget_templates = λ t bs s h. h;
  seed_expense_categories = λ t cs s h. h;
  publish_tenant_created = λ e s h. h;
  send_welcome_email = λ t a b c s h. h;
  hash = λ p s h. h;
  update_saga = λ saga s h. saved saga s h;
}

builds : Builds registry ports
builds = record {
  create_tenant = λ n sl p c cur s t e. ground arith;
  create_user = λ t a b c s u e. ground arith;
  bind_tenant_vertical = λ t v u s e. ground arith;
  tenants = λ t. forward _ (λ x s h. h) (λ x s h. h) (λ saga s h. h);
  users = λ t u. forward _ (λ x s h. ground arith) (λ x s h. h) (λ saga s h. h);
  bindings = λ t v. forward _ (λ x s h. h) (λ x s h. ground arith) (λ saga s h. h);
}

quiet : (t : ℕ) → Quiet (λ s. s.tenants t ≡ false) ports
quiet t = record {
  create_user = λ x a b c s h. h;
  get_vertical_definition = λ v s h. h;
  bind_tenant_vertical = λ x v u s h. h;
  seed_chart_of_accounts = λ x es s h. h;
  open_accounting_period = λ x y m s h. h;
  seed_budget_templates = λ x bs s h. h;
  seed_expense_categories = λ x cs s h. h;
  publish_tenant_created = λ e s h. h;
  send_welcome_email = λ x a b c s h. h;
  hash = λ p s h. h;
  update_saga = λ saga s h. h;
  get_saga_by_id = λ id s h. h;
  delete_tenant = λ x s h. ground arith;
  delete_user = λ x u s h. h;
  unbind_vertical = λ x v s h. h;
}

abbrev request : RegisterRequest
request = record {
  company_name = text " Acme  Films ";
  email = text "Anna@Acme.IN";
  password = text "longenough";
  vertical_id = text "film";
  plan = text "Starter";
  country = text "in";
  primary_currency = [];
}

abbrev site : Option RegistrationSaga → Bool → Site
site stored budgets_fail = record {
  tenants = λ t. false;
  users = λ t. false;
  bindings = λ t. false;
  stored = stored;
  budgets_fail = budgets_fail;
}

abbrev world : Site → World Site
world s = record {
  env = record {
    uuid = λ n. 40 + n;
    time = λ n. record { month = 24301; offset = n };
    fails = λ n. false;
  };
  tick = 0;
  tables = s;
}

abbrev Answer : Type 0
Answer = Result Fault Outcome × World Site

unfoldable answer : RegisterRequest → Site → Answer
unfolding start start_checked start_beside start_new at_desk ask run later_steps seeding finish
    email_step event_step period_step category_step budget_step chart_step bind_step user_step
    tenant_step load_vertical_config complete critical or_compensate or_fail fail_and_compensate
    compensation undo undo_call fail_saga persist unless_completed call edit current
    mark_step_completed has_step validate validate_place matches_email is_email_from has_ending
    squeeze currency_for_country find_currency country_currency slugify to_lower dash_spaces
    keep_slug_characters collapse_dashes drop_left_dashes drop_right_dashes trim_left trim_right
    byte_length to_upper every eqb_text ◌>>=◌
answer r s = start ports r (world s)

abbrev saga_of : Answer → Option RegistrationSaga
saga_of (ok (saga, e), w) = some saga
saga_of (err e, w) = none

abbrev status_is : SagaStatus → Option RegistrationSaga → Bool
status_is status none = false
status_is completed (some saga) = elim saga.status [ completed ↦ true | _ ↦ false ]
status_is compensated (some saga) = elim saga.status [ compensated ↦ true | _ ↦ false ]
status_is _ (some saga) = false

-- All goes well.
registers : status_is completed (saga_of (answer request (site none false))) ≡ true
unfolding answer
registers = refl

-- The budgets fail, and the registration is rolled back.
rolls_back :
    let a = answer request (site none true) in
    (status_is compensated (saga_of a) ≡ true) × (a.1.tables.tenants 5 ≡ false)
unfolding answer
rolls_back = (refl, refl)

abbrev is_ok : Answer → Bool
is_ok (ok o, w) = true
is_ok (err e, w) = false

abbrev blank : RegistrationSaga
blank =
    new_saga 0 request (record { month = 24301; offset = 0 }) (record { month = 24301; offset = 0 })

abbrev outcome_of : Answer → Outcome
outcome_of (ok o, w) = o
outcome_of (err e, w) = (blank, none)

returned : (a : Answer) → is_ok a ≡ true → a ≡ (ok (outcome_of a), a.1)
returned (ok o, w) h = refl
returned (err e, w) h = absurd (cc)

abbrev rolled_back : Answer
rolled_back = start ports request (world (site none true))

answered : is_ok (answer request (site none true)) ≡ true
unfolding answer
answered = refl

rolled_back-ok : is_ok rolled_back ≡ true
unfolding answer
rolled_back-ok = answered

start-Returned_example :
    (req : RegisterRequest) × (validate request ≡ ok req)
    × Returned registry
        (ports.get_saga_by_email req.email (site none true))
        (record { saga = (outcome_of rolled_back).0; outside = rolled_back.1.tables })
        (outcome_of rolled_back).1
start-Returned_example =
    start-Returned registry ports undoes request (world (site none true))
      (returned rolled_back rolled_back-ok)

abbrev canonical : RegisterRequest
canonical = record request {
  company_name = text "Acme Films";
  email = text "anna@acme.in";
  plan = text "starter";
  country = text "IN";
  primary_currency = text "INR";
}

validates : validate request ≡ ok canonical
unfolding validate validate_place matches_email is_email_from has_ending squeeze
    currency_for_country find_currency country_currency to_lower trim_left trim_right byte_length
    to_upper every eqb_text
validates = refl

abbrev registered : Answer
registered = start_new ports canonical (world (site none false))

abbrev no_error : Answer → Bool
no_error (ok (saga, none), w) = true
no_error (ok (saga, some e), w) = false
no_error (err e, w) = false

unfoldable begun : RegisterRequest → Site → Answer
unfolding start_new at_desk ask run later_steps seeding finish email_step event_step period_step
    category_step budget_step chart_step bind_step user_step tenant_step load_vertical_config
    complete critical or_compensate or_fail fail_and_compensate compensation undo undo_call
    fail_saga persist unless_completed call edit current mark_step_completed has_step slugify
    to_lower dash_spaces keep_slug_characters collapse_dashes drop_left_dashes drop_right_dashes
    trim_left trim_right every eqb_text ◌>>=◌
begun r s = start_new ports r (world s)

registered-no_error : no_error registered ≡ true
unfolding begun
registered-no_error = begun_well
  where
    begun_well : no_error (begun canonical (site none false)) ≡ true
    begun_well = refl

returned_alone : (a : Answer) → no_error a ≡ true → a ≡ (ok ((outcome_of a).0, none), a.1)
returned_alone (ok (saga, none), w) h = refl
returned_alone (ok (saga, some e), w) h = absurd (cc)
returned_alone (err e, w) h = absurd (cc)

start_new-InPlace_example :
    InPlace registry canonical
      (record { saga = (outcome_of registered).0; outside = registered.1.tables })
start_new-InPlace_example =
    start_new-InPlace registry ports builds canonical (world (site none false))
      (returned_alone registered registered-no_error)

-- The record of a saga that was rolled back, as failSaga has written it before the compensation,
-- when the writes after it were lost.
abbrev stale : RegistrationSaga
stale = record blank {
  id = 40;
  tenant_id = 9;
  user_id = 6;
  status = failed;
  completed_steps = create_tenant ∷ create_user ∷ bind_vertical ∷ [];
}

abbrev lost : Site
lost = site (some stale) false

unfoldable resumed : Site → Answer
unfolding resume resume_from resume_failed at_desk ask run later_steps seeding finish email_step
    event_step period_step category_step budget_step chart_step bind_step user_step tenant_step
    load_vertical_config complete critical or_compensate or_fail fail_and_compensate compensation
    undo undo_call fail_saga persist unless_completed call edit current mark_step_completed has_step
    slugify to_lower dash_spaces keep_slug_characters collapse_dashes drop_left_dashes
    drop_right_dashes trim_left trim_right every eqb_text ◌>>=◌
resumed s = resume ports 40 (world s)

-- Resume completes it, and there is no tenant.
completes_without_tenant :
    let a = resumed lost in
    (status_is completed (saga_of a) ≡ true) × (a.1.tables.tenants 9 ≡ false)
unfolding resumed
completes_without_tenant = (refl, refl)

resume-Went_example :
    Went (λ s. s.tenants 9 ≡ false) ports (quiet 9) 9 (resume ports 40 (world lost))
unfolding has_step
resume-Went_example =
    resume-Went (λ s. s.tenants 9 ≡ false) ports (quiet 9) 9 40 (world lost) {stored = stale} refl
      refl refl refl

slugify-slugify_example :
    IsSlug (slugify (text " Acme -- Films Ltd. "))
    × (slugify (slugify (text " Acme -- Films Ltd. ")) ≡ slugify (text " Acme -- Films Ltd. "))
slugify-slugify_example = slugify-slugify (text " Acme -- Films Ltd. ")

acme_slug : slugify (text " Acme -- Films Ltd. ") ≡ text "acme-films-ltd"
unfolding slugify to_lower dash_spaces keep_slug_characters collapse_dashes drop_left_dashes
    drop_right_dashes trim_left trim_right
acme_slug = refl
