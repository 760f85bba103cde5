-- ===== src/Base/Atomic.antt =====
-- Operations that leave a part of the tables, the value of `view`, as it was when they fail.
use thittam.Base.Action.{
  Result, ok, err, World, Action, QueryError, Statement, ◌>>=◌, and_then, or_error, map_error,
  query, settle, commit, transaction, pure, raise, modify, after_call,
}
use thittam.Base.Keeps.{Keeps}
use mathlib.Core.Path.{◌≡◌, refl, ◌∙◌}
use native.Mathlib.Omega.{arith}

pub record Atomic {T V E A : Type 0} (view : T → V) (m : Action T E A) : Type 0 where
  pub apply : (w : World T) (x : E) → (m w).0 ≡ err x → view (m w).1.tables ≡ view w.tables

-- An action that never fails.
pub record Succeeds {T E A : Type 0} (m : Action T E A) : Type 0 where
  pub apply : (w : World T) (x : E) → (m w).0 ≡ err x → ⊥

-- The action changes nothing of `view`.
abbrev pub Frames : {T V E A : Type 0} → (T → V) → Action T E A → Type 0
Frames {V} view m = (c : V) → Keeps (λ t. view t ≡ c) m

module _ {T V E A : Type 0} (view : T → V) where
  pub Atomic-of_Frames : (m : Action T E A) → Frames view m → Atomic view m
  Atomic-of_Frames m k = record { apply = λ w x e. (k (view w.tables)).apply w refl }

  pub Atomic-raise : (e : E) → Atomic view (raise {A = A} e)
  unfolding ◌>>=◌
  Atomic-raise e = record { apply = λ w x h. refl }

  or_error-err :
      {F : Type 0} (f : E → F) (r : Result E A) {x : F}
      → or_error f r ≡ err x
      → (y : E) × (r ≡ err y)
  or_error-err f (ok a) h = ground arith
  or_error-err f (err y) h = (y, refl)

  pub Atomic-map_error :
      {F : Type 0} (f : E → F) (m : Action T E A) → Atomic view m → Atomic view (map_error f m)
  unfolding ◌>>=◌
  Atomic-map_error f m k = record {
    apply = λ w x h. let (y, e) = or_error-err f (m w).0 h in k.apply w y e;
  }

  commit-err :
      (x : E) (t : T) (r : Result E A × World T) {y : E}
      → (commit x t r).0 ≡ err y
      → (commit x t r).1.tables ≡ t
  commit-err x t (ok a, w) h = ground arith
  commit-err x t (err e, w) h = refl

  -- Whatever a transaction does, its failure leaves nothing behind.
  pub Atomic-transaction : (e : E) (m : Action T E A) → Atomic view (transaction e m)
  unfolding ◌>>=◌
  Atomic-transaction e m = record {
    apply = λ w x h. ground (arith, commit-err e w.tables (m (after_call w)) {y = x});
  }

module _ {T V A : Type 0} (view : T → V) where
  settle-err :
      (w : World T) (r : Result QueryError (A × T)) {x : QueryError}
      → (settle w r).0 ≡ err x
      → (settle w r).1.tables ≡ w.tables
  settle-err w (ok (a, t)) h = ground arith
  settle-err w (err e) h = refl

  pub Atomic-query : (f : Statement T A) → Atomic view (query f)
  unfolding ◌>>=◌
  Atomic-query f = record {
    apply =
        λ w x h. ground (arith, settle-err (after_call w) (f (w.env.time w.tick) w.tables) {x = x});
  }

module _ {T V E A B : Type 0} (view : T → V) where
  and_then-Atomic :
      (r : Result E A) (f : A → Action T E B) (w : World T) {x : E}
      → ((a : A) → Atomic view (f a))
      → (and_then r f w).0 ≡ err x
      → view (and_then r f w).1.tables ≡ view w.tables
  and_then-Atomic (ok a) f w {x} k h = (k a).apply w x h
  and_then-Atomic (err e) f w k h = refl

  -- What comes before the atomic part changes nothing.
  pub Atomic-bind :
      (m : Action T E A) (f : A → Action T E B)
      → Frames view m
      → ((a : A) → Atomic view (f a))
      → Atomic view (m >>= f)
  unfolding ◌>>=◌
  Atomic-bind m f km kf = record {
    apply = λ w x h. and_then-Atomic (m w).0 f (m w).1 kf h ∙ (km (view w.tables)).apply w refl;
  }

  and_then-last :
      (r : Result E A) (f : A → Action T E B) (w : World T) {x : E}
      → ((a : A) → Succeeds (f a))
      → (and_then r f w).0 ≡ err x
      → (r ≡ err x) × ((and_then r f w).1 ≡ w)
  and_then-last (ok a) f w {x} k h = absurd ((k a).apply w x h)
  and_then-last (err e) f w k h = (ground arith, refl)

  -- What comes after the atomic part cannot fail.
  pub Atomic-last :
      (m : Action T E A) (f : A → Action T E B)
      → Atomic view m
      → ((a : A) → Succeeds (f a))
      → Atomic view (m >>= f)
  unfolding ◌>>=◌
  Atomic-last m f km kf = record {
    apply =
        λ w x h. let (e, same) = and_then-last (m w).0 f (m w).1 kf h in rw same (km.apply w x e);
  }

module _ {T E A : Type 0} where
  pub Succeeds-pure : (a : A) → Succeeds {T = T} {E = E} (pure a)
  unfolding ◌>>=◌
  Succeeds-pure a = record { apply = λ w x h. cc }

  pub Succeeds-modify :
      (g : T → T) (f : Unit {0} → Action T E A) → Succeeds (f tt) → Succeeds (modify g >>= f)
  unfolding ◌>>=◌
  Succeeds-modify g f k = record { apply = λ w x h. k.apply _ x h }

pub ruleset atomic_rules =
    (Atomic-raise, Atomic-map_error, Atomic-transaction, Atomic-query, Atomic-bind)
