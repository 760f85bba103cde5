-- ===== src/Base/Inversion.antt =====
-- What a successful action has done, one lemma for each way to build one.
use thittam.Base.Tests.{Bool-cases}
use thittam.Base.Action.{
  Result, ok, err, World, Action, Statement, QueryError, ◌>>=◌, and_then, pure, lift, raise_if,
  time_now, modify, map_error, or_error, query, settle, after_call, transaction, commit,
}
use mathlib.Core.Path.{◌≡◌, refl}
use mathlib.Core.Bool.{Bool, true, false}
use thittam.Base.Time.{Time}
use mathlib.Core.Logic.{inl, inr}
use native.Mathlib.Omega.{arith}

module _ {T E A B : Type 0} where
  and_then-ok :
      (r : Result E A) (f : A → Action T E B) (w : World T) {b : B} {v : World T}
      → and_then r f w ≡ (ok b, v)
      → (a : A) × (r ≡ ok a) × (f a w ≡ (ok b, v))
  and_then-ok (ok a) f w e = (a, refl, e)
  and_then-ok (err x) f w e = ground arith

  pub bind-ok :
      (m : Action T E A) (f : A → Action T E B) (w : World T) {b : B} {v : World T}
      → (m >>= f) w ≡ (ok b, v)
      → (a : A) × (u : World T) × (m w ≡ (ok a, u)) × (f a u ≡ (ok b, v))
  unfolding ◌>>=◌
  bind-ok m f w e = let (a, p, q) = and_then-ok (m w).0 f (m w).1 e in (a, (m w).1, ground arith, q)

or_error-ok : {E F A : Type 0} (f : E → F) (r : Result E A) {a : A} → or_error f r ≡ ok a → r ≡ ok a
or_error-ok f (ok x) e = ground arith
or_error-ok f (err x) e = ground arith

pair-eq : {A B : Type 0} (p : A × B) {a : A} {b : B} → p.0 ≡ a → p.1 ≡ b → p ≡ (a, b)
pair-eq p h k = ground arith

-- The same for the steps of a block, handing on what each gives. The rest of the proof stands under
-- the λ, so no step's value is written out.
module _ {ℓ} {T E A B : Type 0} {C : Type ℓ} (f : A → Action T E B) (w : World T) {b : B}
    {v : World T} where
  pub bind-elim :
      (m : Action T E A)
      → (m >>= f) w ≡ (ok b, v)
      → ((a : A) (u : World T) → m w ≡ (ok a, u) → f a u ≡ (ok b, v) → C)
      → C
  bind-elim m e k = let (a, u, p, q) = bind-ok m f w e in k a u p q

  pub lift-elim :
      (r : Result E A)
      → (lift r >>= f) w ≡ (ok b, v)
      → ((a : A) → r ≡ ok a → f a w ≡ (ok b, v) → C)
      → C
  unfolding ◌>>=◌
  lift-elim (ok a) e k = k a refl e
  lift-elim (err x) e k = absurd (cc)

module _ {ℓ} {T E A B : Type 0} {C : Type ℓ} (f : A → Action T E B) (w : World T)
    {v : World T} where
  and_then-err :
      (r : Result E A) (u : World T) {x : E}
      → and_then r f u ≡ (err x, v)
      → ((r ≡ err x) × (u ≡ v) → C)
      → ((a : A) → r ≡ ok a → f a u ≡ (err x, v) → C)
      → C
  and_then-err (ok a) u e first rest = rest a refl e
  and_then-err (err y) u e first rest = first (ground arith)

  -- A block that fails has failed at its first step, or after it.
  pub bind-err_elim :
      (m : Action T E A) {x : E}
      → (m >>= f) w ≡ (err x, v)
      → (m w ≡ (err x, v) → C)
      → ((a : A) (u : World T) → m w ≡ (ok a, u) → f a u ≡ (err x, v) → C)
      → C
  unfolding ◌>>=◌
  bind-err_elim m e first rest =
      and_then-err (m w).0 (m w).1 e (λ h. first (pair-eq _ h.0 h.1))
        (λ a h. rest a (m w).1 (pair-eq _ h refl))

module _ {ℓ} {T E B : Type 0} {C : Type ℓ} (w : World T) {b : B} {v : World T} where
  pub raise_if-elim :
      (c : Bool) (x : E) (f : Unit {0} → Action T E B)
      → (raise_if c x >>= f) w ≡ (ok b, v)
      → (c ≡ false → f tt w ≡ (ok b, v) → C)
      → C
  unfolding ◌>>=◌
  raise_if-elim true x f e k = absurd (cc)
  raise_if-elim false x f e k = k refl e

  pub time_now-elim :
      (f : Time → Action T E B)
      → (time_now >>= f) w ≡ (ok b, v)
      → (f (w.env.time w.tick) (after_call w) ≡ (ok b, v) → C)
      → C
  unfolding ◌>>=◌
  time_now-elim f e k = k e

  pub modify-elim :
      (g : T → T) (f : Unit {0} → Action T E B)
      → (modify g >>= f) w ≡ (ok b, v)
      → (f tt (record w { tables = g w.tables }) ≡ (ok b, v) → C)
      → C
  unfolding ◌>>=◌
  modify-elim g f e k = k e

module _ {T E F A : Type 0} where
  pub map_error-ok :
      (f : E → F) (m : Action T E A) (w : World T) {a : A} {v : World T}
      → map_error f m w ≡ (ok a, v)
      → m w ≡ (ok a, v)
  unfolding ◌>>=◌
  map_error-ok f m w {a} e = ground (arith, or_error-ok f (m w).0 {a = a})

module _ {T E A : Type 0} where
  pub pure-ok :
      (a : A) (w : World T) {b : A} {v : World T} → pure {E = E} a w ≡ (ok b, v) → (b ≡ a) × (v ≡ w)
  unfolding ◌>>=◌
  pure-ok a w e = ground arith

  commit-ok :
      (x : E) (t : T) (r : Result E A × World T) {a : A} {v : World T}
      → commit x t r ≡ (ok a, v)
      → (r.0 ≡ ok a) × (v ≡ after_call r.1)
  commit-ok x t (ok a, u) e = ground arith
  commit-ok x t (err y, u) e = ground arith

  pub transaction-ok :
      (x : E) (m : Action T E A) (w : World T) {a : A} {v : World T}
      → transaction x m w ≡ (ok a, v)
      → (u : World T) × (m (after_call w) ≡ (ok a, u)) × (v ≡ after_call u)
  unfolding ◌>>=◌
  transaction-ok x m w e = elim (Bool-cases (w.env.fails w.tick)) [
    | inl fails ↦ ground arith
    | inr works ↦
        let (p, q) = commit-ok x w.tables (m (after_call w)) (rw works at e) in
        ((m (after_call w)).1, ground arith, q)
  ]

module _ {T A : Type 0} where
  settle-ok :
      (w : World T) (r : Result QueryError (A × T)) {a : A} {v : World T}
      → settle w r ≡ (ok a, v)
      → (t : T) × (r ≡ ok (a, t)) × (v ≡ record w { tables = t })
  settle-ok w (ok (a, t)) e = (t, ground arith, ground arith)
  settle-ok w (err x) e = ground arith

  pub query-ok :
      (f : Statement T A) (w : World T) {a : A} {v : World T}
      → query f w ≡ (ok a, v)
      → (t : T) × (f (w.env.time w.tick) w.tables ≡ ok (a, t))
        × (v ≡ record (after_call w) { tables = t })
  unfolding ◌>>=◌
  query-ok f w e = elim (Bool-cases (w.env.fails w.tick)) [
    | inl fails ↦ ground arith
    | inr works ↦ settle-ok (after_call w) _ (rw works at e)
  ]

  pub mapped_query-ok :
      {F : Type 0} (g : QueryError → F) (f : Statement T A) (w : World T) {a : A} {v : World T}
      → map_error g (query f) w ≡ (ok a, v)
      → (t : T) × (f (w.env.time w.tick) w.tables ≡ ok (a, t))
        × (v ≡ record (after_call w) { tables = t })
  mapped_query-ok g f w e = query-ok f w (map_error-ok g (query f) w e)
