-- ===== src/Registration/Saga/Rollback.antt =====
-- A registration that fails is rolled back.
use thittam.Base.{ℕ, ◌≡◌, refl, Bool, true, false, List, [], ◌∷◌, ◌++◌}
use thittam.Base.Text.{Text}
use thittam.Base.Action.{Result, ok, err}
use thittam.Base.Hoare.{After, Meets, Meets-pure, Meets-attempt, Meets-if, Meets-map, Meets-bind}
use thittam.Registration.Ports.{
  Fault, Step, create_tenant, create_user, bind_vertical, RegistrationSaga, Port, Ports,
}
use thittam.Registration.Desk.{
  Desk, step_completed, current, errors_of, undo_call, undo, compensation,
}
use thittam.Registration.Saga.Rules.{KeptBy, Meets-current, Meets-call}

-- What can be seen of the outside.
pub record Registry (S : Type 0) : Type 0 where
  pub has_tenant : ℕ → S → Bool
  pub has_user : ℕ → ℕ → S → Bool
  pub has_binding : ℕ → Text → S → Bool

-- The documented behaviour of the compensator: what it deletes is gone. Neither it nor the store of
-- the sagas brings anything else back.
pub record Undoes {S : Type 0} (registry : Registry S) (ports : Ports S) : Type 0 where
  pub delete_tenant :
      (t : ℕ) (s : S)
      → (ports.delete_tenant t s).0 ≡ ok tt
      → registry.has_tenant t (ports.delete_tenant t s).1 ≡ false
  pub delete_user :
      (t u : ℕ) (s : S)
      → (ports.delete_user t u s).0 ≡ ok tt
      → registry.has_user t u (ports.delete_user t u s).1 ≡ false
  pub unbind_vertical :
      (t : ℕ) (v : Text) (s : S)
      → (ports.unbind_vertical t v s).0 ≡ ok tt
      → registry.has_binding t v (ports.unbind_vertical t v s).1 ≡ false
  pub delete_user_binding :
      (t u t' : ℕ) (v : Text)
      → KeptBy (λ s. registry.has_binding t' v s ≡ false) (ports.delete_user t u)
  pub delete_tenant_binding :
      (t t' : ℕ) (v : Text)
      → KeptBy (λ s. registry.has_binding t' v s ≡ false) (ports.delete_tenant t)
  pub delete_tenant_user :
      (t t' u : ℕ) → KeptBy (λ s. registry.has_user t' u s ≡ false) (ports.delete_tenant t)
  pub update_saga_tenant :
      (saga : RegistrationSaga) (t : ℕ)
      → KeptBy (λ s. registry.has_tenant t s ≡ false) (ports.update_saga saga)
  pub update_saga_user :
      (saga : RegistrationSaga) (t u : ℕ)
      → KeptBy (λ s. registry.has_user t u s ≡ false) (ports.update_saga saga)
  pub update_saga_binding :
      (saga : RegistrationSaga) (t : ℕ) (v : Text)
      → KeptBy (λ s. registry.has_binding t v s ≡ false) (ports.update_saga saga)

called :
    {S : Type 0} (P G : Desk S → Type 0) (step : Step) (r : Result Fault (Unit {0})) (d : Desk S)
    → P d
    → (r ≡ ok tt → G d)
    → After (λ u d'. P d' × (errors_of step (ok u) ≡ [] → G d')) P r d
called P G step (ok u) d p h = (p, λ e. h refl)
called P G step (err x) d p h = p

After-errors :
    {S : Type 0} (P G : Desk S → Type 0) (step : Step) (r : Result Fault (Unit {0})) (d : Desk S)
    → After (λ u d'. P d' × (errors_of step (ok u) ≡ [] → G d')) P r d
    → P d × (errors_of step r ≡ [] → G d)
After-errors P G step (ok u) d h = h
After-errors P G step (err x) d h = (h, λ e. cc)

module _ {S : Type 0} {P G R : Desk S → Type 0} where
  undo_call-Meets :
      (step : Step) (port : Port S (Unit {0}))
      → ((d : Desk S) → P d → P (record d { outside = (port d.outside).1 }))
      → ((d : Desk S)
          → P d
          → (port d.outside).0 ≡ ok tt
          → G (record d { outside = (port d.outside).1 }))
      → Meets P (λ es d. P d × (es ≡ [] → G d)) R (undo_call step port)
  unfolding undo_call
  undo_call-Meets step port keep done =
      Meets-bind _ _ _
        (Meets-attempt _
          (Meets-call port (λ d p. called P G step (port d.outside).0 _ (keep d p) (done d p))))
        (λ r. Meets-pure _ (After-errors P G step r))

  undo-Meets :
      (saga : RegistrationSaga) (step : Step) (port : Port S (Unit {0}))
      → ((d : Desk S) → P d → d.saga ≡ saga)
      → ((d : Desk S) → P d → P (record d { outside = (port d.outside).1 }))
      → ((d : Desk S)
          → P d
          → (port d.outside).0 ≡ ok tt
          → G (record d { outside = (port d.outside).1 }))
      → Meets P (λ es d. P d × (es ≡ [] → step_completed step saga ≡ true → G d)) R (undo step port)
  unfolding undo
  undo-Meets saga step port same keep done =
      Meets-bind (λ now d. P d × (now ≡ saga)) current _ (Meets-current (λ d p. (p, same d p)))
        (λ now.
          Meets-if _ _ _
            (λ marked.
              Meets-map _ (λ d p. p.0) (λ es d h. (h.0, λ e m. h.1 e)) (λ d r. r)
                (undo_call-Meets step port keep done))
            (λ unmarked. Meets-pure [] (λ d p. (p.0, λ e m. absurd (cc (unmarked, m, p.1))))))

nil-append : {A : Type 0} (xs ys : List A) → xs ++ ys ≡ [] → (xs ≡ []) × (ys ≡ [])
nil-append [] ys h = (refl, h)
nil-append (x ∷ xs) ys h = cc

module _ {S : Type 0} (registry : Registry S) where
  -- Nothing of the completed steps is left.
  abbrev pub Clean : RegistrationSaga → S → Type 0
  Clean saga s =
      (step_completed bind_vertical saga ≡ true
        → registry.has_binding saga.tenant_id saga.request.vertical_id s ≡ false)
      × (step_completed create_user saga ≡ true
          → registry.has_user saga.tenant_id saga.user_id s ≡ false)
      × (step_completed create_tenant saga ≡ true → registry.has_tenant saga.tenant_id s ≡ false)

module _ {S : Type 0} (registry : Registry S) (saga : RegistrationSaga) where
  -- What each call of the compensator has done, if it gave no error.
  abbrev Unbound : List (Step × Fault) → S → Type 0
  Unbound es s =
      es ≡ []
      → step_completed bind_vertical saga ≡ true
      → registry.has_binding saga.tenant_id saga.request.vertical_id s ≡ false

  abbrev NoUser : List (Step × Fault) → S → Type 0
  NoUser es s =
      es ≡ []
      → step_completed create_user saga ≡ true
      → registry.has_user saga.tenant_id saga.user_id s ≡ false

  abbrev NoTenant : List (Step × Fault) → S → Type 0
  NoTenant es s =
      es ≡ []
      → step_completed create_tenant saga ≡ true
      → registry.has_tenant saga.tenant_id s ≡ false

  all-Clean :
      (es3 es2 es1 : List (Step × Fault)) (d : Desk S)
      → d.saga ≡ saga
      → Unbound es3 d.outside
      → NoUser es2 d.outside
      → NoTenant es1 d.outside
      → es3 ++ (es2 ++ es1) ≡ []
      → Clean registry d.saga d.outside
  all-Clean es3 es2 es1 d same h3 h2 h1 e =
      let (e3, e') = nil-append es3 (es2 ++ es1) e in
      let (e2, e1) = nil-append es2 es1 e' in rw same (h3 e3, h2 e2, h1 e1)

module _ {S : Type 0} (registry : Registry S) (ports : Ports S)
    (undoes : Undoes registry ports) where
  pub compensation-Clean :
      {R : Desk S → Type 0}
      → Meets (λ _. Unit) (λ es d. es ≡ [] → Clean registry d.saga d.outside) R (compensation ports)
  unfolding compensation
  compensation-Clean =
      Meets-bind (λ saga d. d.saga ≡ saga) current _ (Meets-current (λ d p. refl))
        (λ saga.
          Meets-bind _ _ _
            (undo-Meets saga bind_vertical _ (λ d p. p) (λ d p. p)
              (λ d p e. undoes.unbind_vertical saga.tenant_id saga.request.vertical_id _ e))
            (λ es3.
              Meets-bind _ _ _
                (undo-Meets saga create_user _ (λ d p. p.0)
                  (λ d p. (p.0, λ e m. undoes.delete_user_binding _ _ _ _ _ (p.1 e m)))
                  (λ d p e. undoes.delete_user saga.tenant_id saga.user_id _ e))
                (λ es2.
                  Meets-bind _ _ _
                    (undo-Meets saga create_tenant _ (λ d p. p.0.0)
                      (λ d p. (
                        (p.0.0, λ e m. undoes.delete_tenant_binding _ _ _ _ (p.0.1 e m)),
                        λ e m. undoes.delete_tenant_user _ _ _ _ (p.1 e m),
                      ))
                      (λ d p e. undoes.delete_tenant saga.tenant_id _ e))
                    (λ es1.
                      Meets-pure _
                        (λ d p. all-Clean registry saga es3 es2 es1 d p.0.0.0 p.0.0.1 p.0.1 p.1)))))
