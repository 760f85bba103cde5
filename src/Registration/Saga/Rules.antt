-- ===== src/Registration/Saga/Rules.antt =====
-- The rules of Base/Keeps and Base/Hoare for the actions of the orchestrator.
use thittam.Base.Action.{◌>>=◌}
use thittam.Base.Keeps.{Keeps}
use thittam.Base.Hoare.{After, Meets, Stops, stops_rules}
use thittam.Registration.Ports.{Step, RegistrationSaga, Port}
use thittam.Registration.Desk.{Desk, Work, current, edit, call, unless_completed}

-- The port keeps the property, whether it fails or not.
abbrev pub KeptBy : {S A : Type 0} → (S → Type 0) → Port S A → Type 0
KeptBy {S} Q port = (s : S) → Q s → Q (port s).1

module _ {S : Type 0} {P : Desk S → Type 0} where
  pub Keeps-current : Keeps P (current {S = S})
  unfolding current
  Keeps-current = record { apply = λ w h. h }

  pub Keeps-edit :
      (f : RegistrationSaga → RegistrationSaga)
      → ((d : Desk S) → P d → P (record d { saga = f d.saga }))
      → Keeps P (edit f)
  unfolding edit ◌>>=◌
  Keeps-edit f k = record { apply = λ w h. k w.tables h }

  pub Keeps-call :
      {A : Type 0} (port : Port S A)
      → ((d : Desk S) → P d → P (record d { outside = (port d.outside).1 }))
      → Keeps P (call port)
  unfolding call
  Keeps-call port k = record { apply = λ w h. k w.tables h }

module _ {S : Type 0} {P R : Desk S → Type 0} where
  pub Meets-current :
      {Q : RegistrationSaga → Desk S → Type 0}
      → ((d : Desk S) → P d → Q d.saga d)
      → Meets P Q R (current {S = S})
  unfolding current
  Meets-current h = record { apply = λ w p. h w.tables p }

  pub Meets-edit :
      {Q : Unit {0} → Desk S → Type 0} (f : RegistrationSaga → RegistrationSaga)
      → ((d : Desk S) → P d → Q tt (record d { saga = f d.saga }))
      → Meets P Q R (edit f)
  unfolding edit ◌>>=◌
  Meets-edit f h = record { apply = λ w p. h w.tables p }

  pub Meets-call :
      {A : Type 0} {Q : A → Desk S → Type 0} (port : Port S A)
      → ((d : Desk S)
          → P d
          → After Q R (port d.outside).0 (record d { outside = (port d.outside).1 }))
      → Meets P Q R (call port)
  unfolding call
  Meets-call port h = record { apply = λ w p. h w.tables p }

module _ {S : Type 0} {R : Desk S → Type 0} where
  pub Stops-current : Stops R (current {S = S})
  Stops-current = record { meets = Meets-current (λ d p. tt) }

  pub Stops-edit : (f : RegistrationSaga → RegistrationSaga) → Stops R (edit {S = S} f)
  Stops-edit f = record { meets = Meets-edit f (λ d p. tt) }

  pub Stops-unless_completed :
      (step : Step) (work : Work S (Unit {0})) → Stops R work → Stops R (unless_completed step work)
  unfolding unless_completed
  Stops-unless_completed step work h = search (stops_rules, Stops-current)
