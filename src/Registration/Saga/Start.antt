-- ===== src/Registration/Saga/Start.antt =====
-- What Start returns and leaves.
use thittam.Base.{◌≡◌, refl, false, ◌⊎◌, inl, inr, Option, none, some, subst}
use thittam.Base.Action.{Result, ok, err, World, pure, attempt, ◌>>=◌}
use thittam.Base.Inversion.{bind-elim, lift-elim}
use thittam.Base.Hoare.{After}
use thittam.Registration.Ports.{
  Fault, SagaStatus, completed, in_progress, failed, compensating, compensated, compensation_failed,
  create_tenant, RegisterRequest, RegistrationSaga, Port, Ports, other,
}
use thittam.Registration.Request.{validate}
use thittam.Registration.Desk.{Desk, step_completed, has_step}
use thittam.Registration.Saga.{
  Outcome, error_of, run, at_desk, new_saga, ask, start_new, start_beside, start_checked, start,
}
use thittam.Registration.Saga.Rollback.{Registry, Undoes}
use thittam.Registration.Saga.Success.{Builds, InPlace}
use thittam.Registration.Saga.Success.Later.{run-InPlace}
use thittam.Registration.Saga.Failure.{Stopped, run-Stopped}

module _ {S : Type 0} (registry : Registry S) where
  -- A saga returned alone is completed; one that is returned with an error has stopped, or it is
  -- what the look-up of the email address gave, in progress or failed, and nothing was done since.
  pub data Returned (found : Result Fault RegistrationSaga × S) (d : Desk S)
      : Option Fault → Type 0 where
    done : d.saga.status ≡ completed → Returned found d none
    stopped : {e : Fault} → Stopped registry d → Returned found d (some e)
    existing :
        found ≡ (ok d.saga, d.outside)
        → (d.saga.status ≡ in_progress) ⊎ (d.saga.status ≡ failed)
        → Returned found d (some (other 1))

  settled :
      {found : Result Fault RegistrationSaga × S} (r : Result Fault (Unit {0})) (d : Desk S)
      → After (λ _ x. x.saga.status ≡ completed) (Stopped registry) r d
      → Returned found d (error_of r)
  settled (ok u) d h = done h
  settled (err e) d h = stopped h

module _ {S : Type 0} (registry : Registry S) (ports : Ports S) (undoes : Undoes registry ports)
    (looked_up : Result Fault RegistrationSaga × S) where
  abbrev Answers : Option Fault → RegistrationSaga → World S → Type 0
  Answers e saga v = Returned registry looked_up (record { saga = saga; outside = v.tables }) e

  Good : Result Fault Outcome × World S → Type 0
  Good (ok (saga, e), v) = Answers e saga v
  Good (err e, v) = Unit

  at_desk-Returned :
      (saga : RegistrationSaga) (w : World S) {o : RegistrationSaga} {e : Option Fault}
      {v : World S}
      → step_completed create_tenant saga ≡ false
      → at_desk saga (run ports) w ≡ (ok (o, e), v)
      → Answers e o v
  unfolding at_desk Good
  at_desk-Returned saga w new h =
      let desk : World (Desk S) = record {
        env = w.env;
        tick = w.tick;
        tables = record { saga = saga; outside = w.tables };
      } in
      subst Good h (
        settled registry (run ports desk).0 (run ports desk).1.tables
          ((run-Stopped registry ports undoes).apply desk new))

  start_new-Returned :
      (req : RegisterRequest) (w : World S) {o : RegistrationSaga} {e : Option Fault} {v : World S}
      → start_new ports req w ≡ (ok (o, e), v)
      → Answers e o v
  unfolding start_new has_step
  start_new-Returned req w h = bind-elim _ w _ h λ id u1 _ h1.
      bind-elim _ u1 _ h1 λ created u2 _ h2. bind-elim _ u2 _ h2 λ updated u3 _ h3.
        bind-elim _ u3 _ h3
          λ _ u4 _ h4. at_desk-Returned (new_saga id req created updated) u4 refl h4

  there_already :
      {x e : Option Fault} {s o : RegistrationSaga} (w : World S) {v : World S}
      → Answers x s w
      → pure {E = Fault} {A = Outcome} (s, x) w ≡ (ok (o, e), v)
      → Answers e o v
  unfolding ◌>>=◌ Good
  there_already w h p = subst Good p h

  start_beside-Returned :
      (req : RegisterRequest) (s : RegistrationSaga) (status : SagaStatus) (w : World S)
      {o : RegistrationSaga} {e : Option Fault} {v : World S}
      → s.status ≡ status
      → looked_up ≡ (ok s, w.tables)
      → start_beside ports req s status w ≡ (ok (o, e), v)
      → Answers e o v
  unfolding start_beside
  start_beside-Returned req s completed w same here h = there_already w (done same) h
  start_beside-Returned req s in_progress w same here h =
      there_already w (existing here (inl same)) h
  start_beside-Returned req s failed w same here h = there_already w (existing here (inr same)) h
  start_beside-Returned req s compensating w same here h = start_new-Returned req w h
  start_beside-Returned req s compensated w same here h = start_new-Returned req w h
  start_beside-Returned req s compensation_failed w same here h = start_new-Returned req w h

  start_checked-Returned :
      (req : RegisterRequest) (r : Result Fault RegistrationSaga) (w : World S)
      {o : RegistrationSaga} {e : Option Fault} {v : World S}
      → looked_up ≡ (r, w.tables)
      → start_checked ports req r w ≡ (ok (o, e), v)
      → Answers e o v
  unfolding start_checked
  start_checked-Returned req (ok s) w here h = start_beside-Returned req s s.status w refl here h
  start_checked-Returned req (err x) w here h = start_new-Returned req w h

looked-up :
    {S A : Type 0} (port : Port S A) (w : World S) {r : Result Fault A} {v : World S}
    → attempt {F = Fault} (ask port) w ≡ (ok r, v)
    → port w.tables ≡ (r, v.tables)
unfolding ask ◌>>=◌
looked-up {S} {A} port w h = subst Seen h refl
  where
    Seen : Result Fault (Result Fault A) × World S → Type 0
    Seen (ok r, v) = port w.tables ≡ (r, v.tables)
    Seen (err e, v) = Unit

module _ {S : Type 0} (registry : Registry S) (ports : Ports S)
    (undoes : Undoes registry ports) where
  -- When the compensator does what its interface documents, the request that Start answers is
  -- valid, every saga that it returns without an error is completed, and every saga that it
  -- returns with an error is in one of four states: it failed before its tenant was marked as
  -- created; or it is compensated, and none of the tenant, the user and the binding of its
  -- completed steps exists; or its compensation has failed and its list of errors is not empty;
  -- or it is the saga that GetSagaByEmail has given for the email address of the validated
  -- request, which is in progress or failed, and nothing has been done outside since that call.
  pub start-Returned :
      (request : RegisterRequest) (w : World S) {saga : RegistrationSaga} {e : Option Fault}
      {v : World S}
      → start ports request w ≡ (ok (saga, e), v)
      → (req : RegisterRequest) × (validate request ≡ ok req)
        × Returned registry
            (ports.get_saga_by_email req.email w.tables)
            (record { saga = saga; outside = v.tables })
            e
  unfolding start
  start-Returned request w h = lift-elim _ w _ h λ req valid h1.
      bind-elim _ w _ h1 λ found u asked h2.
        let here = looked-up (ports.get_saga_by_email req.email) w asked in
        (
          req,
          valid,
          start_checked-Returned registry ports undoes (ports.get_saga_by_email req.email w.tables)
              req found u here h2,
        )

module _ {S : Type 0} (registry : Registry S) (ports : Ports S) (builds : Builds registry ports)
    (req : RegisterRequest) where
  -- The saga returned with no error has its tenant, its user and its binding.
  Built : Result Fault Outcome × World S → Type 0
  Built (ok (saga, none), v) = InPlace registry req (record { saga = saga; outside = v.tables })
  Built (ok (saga, some e), v) = Unit
  Built (err e, v) = Unit

  built :
      (r : Result Fault (Unit {0})) (u : World (Desk S))
      → After (λ _. InPlace registry req) (λ _. Unit {0}) r u.tables
      → Built (
        ok (u.tables.saga, error_of r),
        record { env = u.env; tick = u.tick; tables = u.tables.outside },
      )
  unfolding Built
  built (ok x) u h = h
  built (err e) u h = tt

  -- When the stores create what they are asked for and the ports of the later steps remove none
  -- of it, a registration that Start begins anew and that returns no error has its tenant, its
  -- user in that tenant and the binding of that tenant to the vertical of the request in place.
  pub start_new-InPlace :
      (w : World S) {saga : RegistrationSaga} {v : World S}
      → start_new ports req w ≡ (ok (saga, none), v)
      → InPlace registry req (record { saga = saga; outside = v.tables })
  unfolding start_new has_step at_desk Built
  start_new-InPlace w h = bind-elim _ w _ h λ id u1 _ h1. bind-elim _ u1 _ h1 λ created u2 _ h2.
      bind-elim _ u2 _ h2 λ updated u3 _ h3. bind-elim _ u3 _ h3 λ _ u4 _ h4.
        let desk : World (Desk S) = record {
          env = u4.env;
          tick = u4.tick;
          tables = record { saga = new_saga id req created updated; outside = u4.tables };
        } in
        subst Built h4 (
          built (run ports desk).0 (run ports desk).1
            ((run-InPlace registry ports builds req).apply desk (refl, (refl, refl, refl))))
