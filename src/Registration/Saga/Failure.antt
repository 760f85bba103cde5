-- ===== src/Registration/Saga/Failure.antt =====
-- How a registration stops: what an error leaves behind.
use thittam.Base.{◌≡◌, refl, false, List, [], ◌∷◌, Option, none, ◌≢◌}
use thittam.Base.Text.{Text}
use thittam.Base.Time.{Time}
use thittam.Base.Action.{Result, ok, err, ◌>>=◌, attempt}
use thittam.Base.Keeps.{Keeps-bind, Keeps-lift}
use thittam.Base.Hoare.{
  Meets-attempt-Keeps, Meets, Meets-pure, Meets-raise, Meets-if, Meets-map, Meets-bind,
  Meets-time_now, Stops, Meets-after, stops_rules,
}
use thittam.Registration.Ports.{
  Fault, Step, create_tenant, completed, failed, compensated, compensation_failed, RegisterRequest,
  Port, Ports, VerticalConfig, VerticalDefinitionRow,
}
use thittam.Registration.Desk.{
  Desk, step_completed, current, edit, call, unless_completed, verdict, persist, fail_saga,
  fail_and_compensate, or_fail, or_compensate, critical, complete,
}
use thittam.Registration.Saga.{
  load_vertical_config, tenant_step, user_step, bind_step, chart_step, budget_step, category_step,
  period_step, event_step, email_step, finish, seeding, later_steps, run, name_free, active_config,
}
use thittam.Registration.Saga.Rules.{
  Keeps-call, Meets-current, Meets-edit, Stops-current, Stops-edit, Stops-unless_completed,
}
use thittam.Registration.Saga.Rollback.{Registry, Undoes, Clean, compensation-Clean}

module _ {S : Type 0} (ports : Ports S) {P R : Desk S → Type 0} where
  pub persist-Meets :
      ((d : Desk S) (now : Time)
        → P d
        → P (record {
          saga = record d.saga { updated_at = now };
          outside = (ports.update_saga (record d.saga { updated_at = now }) d.outside).1;
        }))
      → Meets P (λ _. P) R (persist ports)
  unfolding persist current edit call ◌>>=◌
  persist-Meets keep = record { apply = λ w p. keep w.tables (w.env.time w.tick) p }

module _ {S : Type 0} (registry : Registry S) where
  -- Before its tenant was created the saga has failed and nothing is there to undo; after that it
  -- is compensated and nothing is left, or the compensation has failed and says so.
  pub data Stopped (d : Desk S) : Type 0 where
    before_tenant : d.saga.status ≡ failed → step_completed create_tenant d.saga ≡ false → Stopped d
    rolled_back : d.saga.status ≡ compensated → Clean registry d.saga d.outside → Stopped d
    left_over : d.saga.status ≡ compensation_failed → d.saga.compensation_errors ≢ [] → Stopped d

abbrev pub NoTenantYet : {S : Type 0} → Desk S → Type 0
NoTenantYet d = step_completed create_tenant d.saga ≡ false

module _ {S : Type 0} (registry : Registry S) (ports : Ports S)
    (undoes : Undoes registry ports) where
  verdict-Stopped :
      (errors : List (Step × Fault)) (now : Time) (d : Desk S)
      → (errors ≡ [] → Clean registry d.saga d.outside)
      → Stopped registry (record d { saga = verdict errors now d.saga })
  verdict-Stopped [] now d h = rolled_back refl (h refl)
  verdict-Stopped (e ∷ es) now d h = left_over refl (λ x. cc)

  persisted-Stopped :
      (now : Time) (d : Desk S)
      → Stopped registry d
      → Stopped registry (record {
        saga = record d.saga { updated_at = now };
        outside = (ports.update_saga (record d.saga { updated_at = now }) d.outside).1;
      })
  persisted-Stopped now d (before_tenant s h) = before_tenant s h
  persisted-Stopped now d (rolled_back s (b, u, t)) = rolled_back s (
    λ m. undoes.update_saga_binding _ _ _ _ (b m),
    λ m. undoes.update_saga_user _ _ _ _ (u m),
    λ m. undoes.update_saga_tenant _ _ _ (t m),
  )
  persisted-Stopped now d (left_over s h) = left_over s h

  fail_and_compensate-Stops :
      {A : Type 0} (step : Step) (e : Fault)
      → Stops (Stopped registry) (fail_and_compensate ports {A = A} step e)
  unfolding fail_and_compensate fail_saga
  fail_and_compensate-Stops step e = record {
    meets =
        Meets-bind (λ _ _. Unit) _ _
          (Meets-bind (λ _ _. Unit) _ _ (Meets-time_now (λ now d p. tt))
            (λ now.
              Meets-bind (λ _ _. Unit) _ _ (Meets-edit _ (λ d p. tt))
                (λ _. persist-Meets ports {P = λ _. Unit} (λ d t p. tt))))
          (λ _.
            Meets-bind (λ _ _. Unit) _ _ (Meets-edit _ (λ d p. tt))
              (λ _.
                Meets-bind (λ _ _. Unit) _ _ (persist-Meets ports {P = λ _. Unit} (λ d t p. tt))
                  (λ _. Meets-bind _ _ _ (compensation-Clean registry ports undoes) (λ errors.
                    Meets-bind _ _ _ (Meets-time_now (λ now d p. p)) (λ now.
                      Meets-bind (λ _. Stopped registry) _ _
                        (Meets-edit _ (verdict-Stopped errors now))
                        (λ _.
                          Meets-bind (λ _. Stopped registry) _ _
                            (persist-Meets ports (λ d t p. persisted-Stopped t d p))
                            (λ _. Meets-raise e (λ d p. p))))))));
  }

  persist-Stops : Stops (Stopped registry) (persist ports)
  persist-Stops = record { meets = persist-Meets ports {P = λ _. Unit} (λ d t p. tt) }

  or_compensate-Stops :
      {A : Type 0} (step : Step) (r : Result Fault A)
      → Stops (Stopped registry) (or_compensate ports step r)
  unfolding or_compensate
  or_compensate-Stops step (ok a) = search (stops_rules)
  or_compensate-Stops step (err e) = fail_and_compensate-Stops step e

  critical-Stops :
      {A : Type 0} (step : Step) (port : Port S A)
      → Stops (Stopped registry) (critical ports step port)
  unfolding critical
  critical-Stops step port = search (stops_rules, or_compensate-Stops)

  complete-Stops : (step : Step) → Stops (Stopped registry) (complete ports step)
  unfolding complete
  complete-Stops step = search (stops_rules, Stops-edit, persist-Stops)

  ruleset step_rules = (
    stops_rules, Stops-current, Stops-edit, Stops-unless_completed, persist-Stops, critical-Stops,
    complete-Stops,
  )

  finish-Meets :
      Meets (λ _. Unit) (λ _ d. d.saga.status ≡ completed) (Stopped registry) (finish ports)
  unfolding finish
  finish-Meets =
      Meets-bind (λ _ _. Unit) _ _ (Meets-time_now (λ now d p. tt))
        (λ now.
          Meets-bind (λ _ d. d.saga.status ≡ completed) _ _ (Meets-edit _ (λ d p. refl))
            (λ _. persist-Meets ports (λ d t p. p)))

  later_steps-Meets :
      (req : RegisterRequest) (vd : VerticalDefinitionRow) (cfg : VerticalConfig)
      → Meets
          (λ _. Unit)
          (λ _ d. d.saga.status ≡ completed)
          (Stopped registry)
          (later_steps ports req vd cfg)
  unfolding later_steps seeding user_step bind_step chart_step budget_step category_step period_step
      event_step email_step
  later_steps-Meets req vd cfg = search (step_rules, Meets-after, finish-Meets) depth 20

  or_fail-Meets :
      {A : Type 0} (step : Option Step) (r : Result Fault A)
      → Meets NoTenantYet (λ _. NoTenantYet) (Stopped registry) (or_fail ports step r)
  unfolding or_fail fail_saga
  or_fail-Meets step (ok a) = Meets-pure a (λ d p. p)
  or_fail-Meets step (err e) =
      Meets-bind (λ _ d. (d.saga.status ≡ failed) × NoTenantYet d) _ _
        (Meets-bind _ _ _ (Meets-time_now (λ now d p. p)) (λ now.
          Meets-bind _ _ _ (Meets-edit _ (λ d p. (refl, p)))
            (λ _. persist-Meets ports (λ d t p. p))))
        (λ _. Meets-raise e (λ d p. before_tenant p.0 p.1))

  asked-Meets :
      {A : Type 0} (port : Port S A)
      → Meets NoTenantYet (λ _. NoTenantYet) (Stopped registry) (attempt {F = Fault} (call port))
  asked-Meets port = Meets-attempt-Keeps _ (Keeps-call port (λ d p. p))

  tenant_step-Meets :
      (req : RegisterRequest)
      → Meets NoTenantYet (λ _ _. Unit) (Stopped registry) (tenant_step ports req)
  unfolding tenant_step
  tenant_step-Meets req =
      Meets-bind (λ _. NoTenantYet) _ _ (Meets-current (λ d p. p))
        (λ saga.
          Meets-bind (λ _. NoTenantYet) _ _ (asked-Meets _)
            (λ taken.
              Meets-bind (λ _. NoTenantYet) _ _ (asked-Meets _)
                (λ same_name.
                  Meets-bind (λ _. NoTenantYet) _ _ (or_fail-Meets _ (name_free same_name))
                    (λ _.
                      Meets-bind (λ _. NoTenantYet) _ _ (asked-Meets _)
                        (λ created.
                          Meets-bind (λ _. NoTenantYet) _ _ (or_fail-Meets _ created)
                            (λ tenant_id.
                              Meets-map _ (λ d p. tt) (λ _ d q. q) (λ d r. r)
                                (Meets-after _ _ (Stops-edit _)
                                  (λ _. (complete-Stops create_tenant).meets))))))))

  unless-Meets :
      (req : RegisterRequest)
      → Meets NoTenantYet
          (λ _ _. Unit)
          (Stopped registry)
          (unless_completed create_tenant (tenant_step ports req))
  unfolding unless_completed
  unless-Meets req =
      Meets-bind (λ _. NoTenantYet) _ _ (Meets-current (λ d p. p))
        (λ saga. Meets-if _ _ _ (λ _. Meets-pure tt (λ d p. tt)) (λ _. tenant_step-Meets req))

  load-Meets :
      (vertical_id : Text)
      → Meets NoTenantYet
          (λ _. NoTenantYet)
          (Stopped registry)
          (attempt {F = Fault} (load_vertical_config ports vertical_id))
  unfolding load_vertical_config
  load-Meets vertical_id =
      Meets-attempt-Keeps _
        (Keeps-bind _ _ (Keeps-call _ (λ d p. p)) (λ vd. Keeps-lift (active_config ports vd)))

  pub run-Stopped :
      Meets NoTenantYet (λ _ d. d.saga.status ≡ completed) (Stopped registry) (run ports)
  unfolding run
  run-Stopped =
      Meets-bind (λ _. NoTenantYet) _ _ (Meets-current (λ d p. p))
        (λ saga.
          Meets-bind (λ _. NoTenantYet) _ _ (load-Meets _)
            (λ loaded.
              Meets-bind (λ _. NoTenantYet) _ _ (or_fail-Meets none loaded)
                (λ (vd, cfg).
                  Meets-bind (λ _ _. Unit) _ _ (unless-Meets _) (λ _. later_steps-Meets _ vd cfg))))
