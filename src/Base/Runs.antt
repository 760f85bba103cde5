-- ===== src/Base/Runs.antt =====
-- How an action goes on when none of its calls fails: one equation for each step of a block.
use thittam.Base.Action.{
  Result, ok, World, Action, Statement, QueryError, ◌>>=◌, and_then, map_error, query, settle,
  after_call, pure, lift, raise_if, time_now, new_uuid, modify,
}
use mathlib.Core.Path.{◌≡◌, refl, ap}
use mathlib.Core.Bool.{Bool, false}
use Prim.Native.Nat.{ℕ}

-- No call fails.
abbrev pub Calm : {T : Type 0} → World T → Type 0
Calm w = (n : ℕ) → w.env.fails n ≡ false

module _ {T E A B : Type 0} (f : A → Action T E B) where
  pub bind-runs :
      (m : Action T E A) (w : World T) {a : A} {u : World T} → m w ≡ (ok a, u) → (m >>= f) w ≡ f a u
  unfolding ◌>>=◌
  bind-runs m w e = ap (λ r. and_then r.0 f r.1) e

module _ {T A : Type 0} where
  settle-runs :
      (w : World T) (r : Result QueryError (A × T)) {a : A} {t : T}
      → r ≡ ok (a, t)
      → settle w r ≡ (ok a, record w { tables = t })
  settle-runs w r h = rw h refl

  pub query-runs :
      {F : Type 0} (g : QueryError → F) (f : Statement T A) (w : World T) {a : A} {t : T}
      → Calm w
      → f (w.env.time w.tick) w.tables ≡ ok (a, t)
      → map_error g (query f) w ≡ (ok a, record (after_call w) { tables = t })
  unfolding ◌>>=◌
  query-runs g f w calm h = rw (calm w.tick, h) refl

module _ {T E A : Type 0} where
  pub pure-runs : (a : A) (w : World T) → pure {E = E} a w ≡ (ok a, w)
  unfolding ◌>>=◌
  pure-runs a w = refl

  pub lift-runs : (r : Result E A) (w : World T) {a : A} → r ≡ ok a → lift r w ≡ (ok a, w)
  unfolding ◌>>=◌
  lift-runs r w h = rw h refl

module _ {T E : Type 0} where
  pub raise_if-runs : (b : Bool) (x : E) (w : World T) → b ≡ false → raise_if b x w ≡ (ok tt, w)
  unfolding ◌>>=◌
  raise_if-runs b x w h = rw h refl

  pub time_now-runs : (w : World T) → time_now {E = E} w ≡ (ok (w.env.time w.tick), after_call w)
  unfolding ◌>>=◌
  time_now-runs w = refl

  pub modify-runs :
      (f : T → T) (w : World T) → modify {E = E} f w ≡ (ok tt, record w { tables = f w.tables })
  unfolding ◌>>=◌
  modify-runs f w = refl

  pub new_uuid-runs : (w : World T) → new_uuid {E = E} w ≡ (ok (w.env.uuid w.tick), after_call w)
  unfolding ◌>>=◌
  new_uuid-runs w = refl
