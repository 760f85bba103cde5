-- ===== src/Registration/Saga/Success/First.antt =====
-- Steps 1 to 3: the tenant, its user and its binding.
use thittam.Base.{ℕ, ◌≡◌, refl, true, subst}
use thittam.Base.Time.{Time}
use thittam.Base.Action.{Result, ok, ◌>>=◌, attempt}
use thittam.Base.Hoare.{After, Meets, Meets-attempt, Meets-bind}
use thittam.Registration.Ports.{
  Fault, Step, create_tenant, create_user, bind_vertical, RegisterRequest, Port, Ports,
}
use thittam.Registration.Desk.{Desk, mark_step_completed, call}
use thittam.Registration.Saga.{tenant_step, user_step, bind_step}
use thittam.Registration.Saga.Rules.{KeptBy, Meets-current, Meets-edit, Meets-call}
use thittam.Registration.Saga.Rollback.{Registry}
use thittam.Registration.Saga.Success.{
  Builds, mark_other, mark_same, After-port, or_fail-Meets, critical-Meets, complete-Meets,
  NothingYet, TenantMade, UserMade, Created, UserCreated, InPlace,
}

module _ {S : Type 0} (registry : Registry S) (ports : Ports S) (builds : Builds registry ports)
    (req : RegisterRequest) where
  open registry use {has_tenant, has_user, has_binding}

  pub asked-Meets :
      {A : Type 0} (port : Port S A)
      → Meets NothingYet (λ _. NothingYet) (λ _. Unit {0}) (attempt {F = Fault} (call port))
  unfolding call ◌>>=◌
  asked-Meets port = record { apply = λ w p. p }

  tenant_marked :
      (d : Desk S)
      → (TenantMade registry) d
      → (TenantMade registry) (record d { saga = mark_step_completed create_tenant d.saga })
  tenant_marked d (t, u, b) =
      let (same, _, _) = mark_same create_tenant d.saga in
      (
        rw same t,
        rw (mark_other create_user create_tenant d.saga refl) u,
        rw (mark_other bind_vertical create_tenant d.saga refl) b,
      )

  pub tenant_step-Meets :
      Meets NothingYet (λ _. (TenantMade registry)) (λ _. Unit {0}) (tenant_step ports req)
  unfolding tenant_step
  tenant_step-Meets =
      Meets-bind (λ _. NothingYet) _ _ (Meets-current (λ d p. p))
        λ saga.
          Meets-bind (λ _. NothingYet) _ _ (asked-Meets _)
            λ taken.
              Meets-bind (λ _. NothingYet) _ _ (asked-Meets _)
                λ same_name.
                  Meets-bind (λ _. NothingYet) _ _ (or_fail-Meets ports _ _ (λ a d e p. p))
                    λ _.
                      Meets-bind (After (Created registry) (λ _. Unit {0})) _ _
                        (Meets-attempt _ (
                          Meets-call _ (λ d p.
                            After-port (Created registry) _ _
                              (λ t e. (builds.create_tenant _ _ _ _ _ _ t e, p.1, p.2)))))
                        λ created.
                          Meets-bind (Created registry) _ _
                            (or_fail-Meets ports _ created (λ t d e p. created-ok created t d e p))
                            λ t.
                              Meets-bind (λ _. (TenantMade registry)) _ _ (Meets-edit _ (λ d p. p))
                                λ _.
                                  complete-Meets ports create_tenant tenant_marked
                                    (λ d now p. ((builds.tenants _).update_saga _ _ p.0, p.1, p.2))
    where
      created-ok :
          (r : Result Fault ℕ) (t : ℕ) (d : Desk S)
          → r ≡ ok t
          → After (Created registry) (λ _. Unit {0}) r d
          → (Created registry) t d
      created-ok r t d e p = subst (λ x. After (Created registry) (λ _. Unit {0}) x d) e p

  user_marked :
      (d : Desk S)
      → (UserMade registry) d
      → (UserMade registry) (record d { saga = mark_step_completed create_user d.saga })
  user_marked d (t, u, b) =
      let (same, user, _) = mark_same create_user d.saga in
      (rw same t, rw (same, user) u, rw (mark_other bind_vertical create_user d.saga refl) b)

  pub user_step-Meets :
      Meets (TenantMade registry) (λ _. (UserMade registry)) (λ _. Unit {0}) (user_step ports req)
  unfolding user_step
  user_step-Meets =
      Meets-bind (λ _. (TenantMade registry)) _ _
        (critical-Meets ports _ _ (λ d a p e. ((builds.tenants _).hash _ _ p.0, p.1, p.2)))
        λ password_hash.
          Meets-bind (λ saga d. (d.saga.tenant_id ≡ saga.tenant_id) × (TenantMade registry) d) _ _
            (Meets-current (λ d p. (refl, p)))
            λ saga.
              Meets-bind (UserCreated registry) _ _
                (critical-Meets ports _ _ (λ d u p e. (
                  (builds.tenants _).create_user _ _ _ _ _ p.1.0,
                  rw p.0 (builds.create_user saga.tenant_id _ _ _ _ u e),
                  p.1.2,
                )))
                λ u.
                  Meets-bind (λ _. (UserMade registry)) _ _ (Meets-edit _ (λ d p. p))
                    λ _. complete-Meets ports create_user user_marked (λ d now p. (
                      (builds.tenants _).update_saga _ _ p.0,
                      (builds.users _ _).update_saga _ _ p.1,
                      p.2,
                    ))

  pub binding_marked :
      (step : Step) (d : Desk S)
      → (InPlace registry req) d
      → (InPlace registry req) (record d { saga = mark_step_completed step d.saga })
  binding_marked step d (t, u, b) =
      let (same, user, _) = mark_same step d.saga in (rw same t, rw (same, user) u, rw same b)

  pub kept-InPlace :
      {A : Type 0} (port : Port S A)
      → ((t : ℕ) → KeptBy (λ s. has_tenant t s ≡ true) port)
      → ((t u : ℕ) → KeptBy (λ s. has_user t u s ≡ true) port)
      → ((t : ℕ) → KeptBy (λ s. has_binding t req.vertical_id s ≡ true) port)
      → (d : Desk S) → (InPlace registry req) d
      → (InPlace registry req) (record d { outside = (port d.outside).1 })
  kept-InPlace port t u b d p = (t _ _ p.0, u _ _ _ p.1, b _ _ p.2)

  pub persisted-InPlace :
      (d : Desk S) (now : Time)
      → (InPlace registry req) d
      → (InPlace registry req) (record {
        saga = record d.saga { updated_at = now };
        outside = (ports.update_saga (record d.saga { updated_at = now }) d.outside).1;
      })
  persisted-InPlace d now p = (
    (builds.tenants _).update_saga _ _ p.0,
    (builds.users _ _).update_saga _ _ p.1,
    (builds.bindings _ _).update_saga _ _ p.2,
  )

  pub bind_step-Meets :
      Meets (UserMade registry) (λ _. (InPlace registry req)) (λ _. Unit {0}) (bind_step ports req)
  unfolding bind_step
  bind_step-Meets =
      Meets-bind (λ saga d. (d.saga.tenant_id ≡ saga.tenant_id) × (UserMade registry) d) _ _
        (Meets-current (λ d p. (refl, p)))
        λ saga.
          Meets-bind (λ _. (InPlace registry req)) _ _
            (critical-Meets ports _ _ (λ d u p e. (
              (builds.tenants _).bind_tenant_vertical _ _ _ _ p.1.0,
              (builds.users _ _).bind_tenant_vertical _ _ _ _ p.1.1,
              rw p.0 (builds.bind_tenant_vertical saga.tenant_id _ _ _ e),
            )))
            λ _. complete-Meets ports bind_vertical (binding_marked bind_vertical) persisted-InPlace
