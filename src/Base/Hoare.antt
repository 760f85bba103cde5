-- ===== src/Base/Hoare.antt =====
-- What holds of the tables after an action, by its result: one rule for each way to build one.
use thittam.Base.Time.{Time}
use thittam.Base.Tests.{if◌then◌else◌, Bool-cases}
use Prim.Native.Nat.{ℕ}
use mathlib.Core.Logic.{inl, inr}
use thittam.Base.Action.{
  Result, ok, err, World, Action, ◌>>=◌, and_then, pure, raise, modify, attempt, lift, time_now,
  new_uuid, raise_if, map_error, or_error, query, settle, after_call, Statement, QueryError,
}
use thittam.Base.Keeps.{Keeps}
use mathlib.Core.Path.{◌≡◌, refl}
use mathlib.Core.Bool.{Bool, true, false}

abbrev pub After : {T E A : Type 0} → (A → T → Type 0) → (T → Type 0) → Result E A → T → Type 0
After Q R (ok a) t = Q a t
After Q R (err e) t = R t

-- From `P` before, `Q` of the value and the tables after a success, and `R` after an error.
pub record Meets {T E A : Type 0} (P : T → Type 0) (Q : A → T → Type 0) (R : T → Type 0)
    (m : Action T E A) : Type 0 where
  pub apply : (w : World T) → P w.tables → After Q R (m w).0 (m w).1.tables

module _ {T E A : Type 0} where
  After-map :
      {Q Q' : A → T → Type 0} {R R' : T → Type 0} (r : Result E A) (t : T)
      → ((a : A) (u : T) → Q a u → Q' a u)
      → ((u : T) → R u → R' u)
      → After Q R r t
      → After Q' R' r t
  After-map (ok a) t f g h = f a t h
  After-map (err e) t f g h = g t h

module _ {T E A : Type 0} {P R : T → Type 0} {Q : A → T → Type 0} where
  pub Meets-pure : (a : A) → ((t : T) → P t → Q a t) → Meets P Q R (pure {E = E} a)
  unfolding ◌>>=◌
  Meets-pure a h = record { apply = λ w p. h w.tables p }

  pub Meets-raise : (e : E) → ((t : T) → P t → R t) → Meets P Q R (raise {A = A} e)
  unfolding ◌>>=◌
  Meets-raise e h = record { apply = λ w p. h w.tables p }

  pub Meets-lift : (r : Result E A) → ((t : T) → P t → After Q R r t) → Meets P Q R (lift r)
  unfolding ◌>>=◌
  Meets-lift r h = record { apply = λ w p. h w.tables p }

  pub Meets-attempt :
      {F : Type 0} {R' : T → Type 0} (m : Action T E A)
      → Meets P Q R m
      → Meets P (After Q R) R' (attempt {F = F} m)
  unfolding ◌>>=◌
  Meets-attempt m h = record { apply = λ w p. h.apply w p }

  pub Meets-if :
      (guard : Bool) (this other : Action T E A)
      → (guard ≡ true → Meets P Q R this)
      → (guard ≡ false → Meets P Q R other)
      → Meets P Q R (if guard then this else other)
  Meets-if true this other h k = h refl
  Meets-if false this other h k = k refl

  -- The rule of consequence.
  pub Meets-map :
      {P' : T → Type 0} {Q' : A → T → Type 0} {R' : T → Type 0} (m : Action T E A)
      → ((t : T) → P' t → P t)
      → ((a : A) (t : T) → Q a t → Q' a t)
      → ((t : T) → R t → R' t)
      → Meets P Q R m
      → Meets P' Q' R' m
  Meets-map m before f g h = record {
    apply = λ w p. After-map (m w).0 (m w).1.tables f g (h.apply w (before w.tables p));
  }

  -- A fact that does not depend on the tables may be taken out of the precondition.
  pub Meets-given :
      {C : Type 0} (m : Action T E A) → ((t : T) → P t → C) → (C → Meets P Q R m) → Meets P Q R m
  Meets-given m f h = record { apply = λ w p. (h (f w.tables p)).apply w p }

module _ {T E A B : Type 0} {R : T → Type 0} {Q : B → T → Type 0} where
  then-After :
      {M : A → T → Type 0} (r : Result E A) (f : A → Action T E B) (w : World T)
      → After M R r w.tables
      → ((a : A) → Meets (M a) Q R (f a))
      → After Q R (and_then r f w).0 (and_then r f w).1.tables
  then-After (ok a) f w h k = (k a).apply w h
  then-After (err e) f w h k = h

module _ {T E A B : Type 0} {P R : T → Type 0} {Q : B → T → Type 0} where
  pub Meets-bind :
      (M : A → T → Type 0) (m : Action T E A) (f : A → Action T E B)
      → Meets P M R m
      → ((a : A) → Meets (M a) Q R (f a))
      → Meets P Q R (m >>= f)
  unfolding ◌>>=◌
  Meets-bind M m f h k = record { apply = λ w p. then-After (m w).0 f (m w).1 (h.apply w p) k }

module _ {T E : Type 0} {P R : T → Type 0} where
  pub Meets-modify :
      {Q : Unit {0} → T → Type 0} (f : T → T)
      → ((t : T) → P t → Q tt (f t))
      → Meets P Q R (modify {E = E} f)
  unfolding ◌>>=◌
  Meets-modify f h = record { apply = λ w p. h w.tables p }

  pub Meets-time_now :
      {Q : Time → T → Type 0}
      → ((now : Time) (t : T) → P t → Q now t)
      → Meets P Q R (time_now {E = E})
  unfolding ◌>>=◌
  Meets-time_now h = record { apply = λ w p. h _ w.tables p }

-- After a statement: its value and its tables, or an error and the tables as they were.
abbrev pub AfterStatement :
    {T A : Type 0} → (A → T → Type 0) → (T → Type 0) → T → Result QueryError (A × T) → Type 0
AfterStatement Q R t (ok (a, u)) = Q a u
AfterStatement Q R t (err e) = R t

module _ {T A F : Type 0} where
  After-settle :
      (Q : A → T → Type 0) (R : T → Type 0) (g : QueryError → F) (w : World T)
      (r : Result QueryError (A × T))
      → AfterStatement Q R w.tables r
      → After Q R (or_error g (settle w r).0) (settle w r).1.tables
  After-settle Q R g w (ok (a, u)) h = h
  After-settle Q R g w (err e) h = h

  pub Meets-query :
      {P R : T → Type 0} {Q : A → T → Type 0} (g : QueryError → F) (f : Statement T A)
      → ((t : T) → P t → R t)
      → ((now : Time) (t : T) → P t → AfterStatement Q R t (f now t))
      → Meets P Q R (map_error g (query f))
  unfolding ◌>>=◌
  Meets-query {P} {R} {Q} g f lost done = record {
    apply = λ w p. elim (Bool-cases (w.env.fails w.tick)) [
      | inl fails ↦ rw fails (lost w.tables p)
      | inr works ↦ rw works (
          After-settle Q R g (after_call w) (f (w.env.time w.tick) w.tables)
            (done (w.env.time w.tick) w.tables p))
    ];
  }

module _ {T E : Type 0} {P R : T → Type 0} where
  pub Meets-raise_if :
      {Q : Unit {0} → T → Type 0} (b : Bool) (e : E)
      → ((t : T) → P t → R t)
      → ((t : T) → b ≡ false → P t → Q tt t)
      → Meets P Q R (raise_if b e)
  unfolding ◌>>=◌
  Meets-raise_if true e h k = record { apply = λ w p. h w.tables p }
  Meets-raise_if false e h k = record { apply = λ w p. k w.tables refl p }

  pub Meets-new_uuid :
      {Q : ℕ → T → Type 0} → ((id : ℕ) (t : T) → P t → Q id t) → Meets P Q R (new_uuid {E = E})
  unfolding ◌>>=◌
  Meets-new_uuid h = record { apply = λ w p. h _ w.tables p }

-- An error leaves `R`, whatever held before.
pub record Stops {T E A : Type 0} (R : T → Type 0) (m : Action T E A) : Type 0 where
  pub meets : Meets (λ _. Unit {0}) (λ _ _. Unit {0}) R m

module _ {T E A : Type 0} {R : T → Type 0} where
  pub Stops-pure : (a : A) → Stops R (pure {T = T} {E = E} a)
  Stops-pure a = record { meets = Meets-pure a (λ t p. tt) }

  pub Stops-attempt : {F : Type 0} (m : Action T E A) → Stops R (attempt {F = F} m)
  unfolding ◌>>=◌
  Stops-attempt m = record { meets = record { apply = λ w p. tt } }

  pub Stops-if :
      (guard : Bool) (this other : Action T E A)
      → (guard ≡ true → Stops R this)
      → (guard ≡ false → Stops R other)
      → Stops R (if guard then this else other)
  Stops-if true this other h k = h refl
  Stops-if false this other h k = k refl

module _ {T E : Type 0} {R : T → Type 0} where
  pub Stops-time_now : Stops R (time_now {T = T} {E = E})
  Stops-time_now = record { meets = Meets-time_now (λ now t p. tt) }

module _ {T E A B : Type 0} {R : T → Type 0} where
  pub Stops-bind :
      (m : Action T E A) (f : A → Action T E B)
      → Stops R m
      → ((a : A) → Stops R (f a))
      → Stops R (m >>= f)
  Stops-bind m f h k = record { meets = Meets-bind (λ _ _. Unit) m f h.meets (λ a. (k a).meets) }

module _ {T E A B : Type 0} {Q : B → T → Type 0} {R : T → Type 0} where
  -- What the last actions of a block lead to, whatever the first ones did.
  pub Meets-after :
      (m : Action T E A) (f : A → Action T E B)
      → Stops R m
      → ((a : A) → Meets (λ _. Unit) Q R (f a))
      → Meets (λ _. Unit) Q R (m >>= f)
  Meets-after m f h k = Meets-bind (λ _ _. Unit) m f h.meets k

module _ {T E A : Type 0} {P R : T → Type 0} where
  pub Meets-attempt-Keeps :
      {F : Type 0} (m : Action T E A) → Keeps P m → Meets P (λ _. P) R (attempt {F = F} m)
  unfolding ◌>>=◌
  Meets-attempt-Keeps m k = record { apply = λ w p. k.apply w p }

pub ruleset stops_rules = (Stops-pure, Stops-attempt, Stops-if, Stops-time_now, Stops-bind)

-- After a success the property still holds; of an error nothing is said.
pub record Holds {T E A : Type 0} (P : T → Type 0) (m : Action T E A) : Type 0 where
  pub meets : Meets P (λ _. P) (λ _. Unit {0}) m

After-holds :
    {T E A : Type 0} (P : T → Type 0) (r : Result E A) (t : T)
    → P t
    → After (λ _. P) (λ _. Unit {0}) r t
After-holds P (ok a) t h = h
After-holds P (err e) t h = tt

module _ {T E A : Type 0} {P : T → Type 0} where
  pub Holds-Keeps : (m : Action T E A) → Keeps P m → Holds P m
  Holds-Keeps m k = record {
    meets = record { apply = λ w p. After-holds P (m w).0 (m w).1.tables (k.apply w p) };
  }

  pub Holds-if :
      (guard : Bool) (this other : Action T E A)
      → (guard ≡ true → Holds P this)
      → (guard ≡ false → Holds P other)
      → Holds P (if guard then this else other)
  Holds-if true this other h k = h refl
  Holds-if false this other h k = k refl

module _ {T E A B : Type 0} {P : T → Type 0} where
  pub Holds-bind :
      (m : Action T E A) (f : A → Action T E B)
      → Holds P m
      → ((a : A) → Holds P (f a))
      → Holds P (m >>= f)
  Holds-bind m f h k = record { meets = Meets-bind (λ _. P) m f h.meets (λ a. (k a).meets) }

module _ {T E A : Type 0} where
  After-any : (r : Result E A) (t : T) → After (λ _ _. Unit {0}) (λ _. Unit {0}) r t
  After-any (ok a) t = tt
  After-any (err e) t = tt

  pub Stops-any : (m : Action T E A) → Stops (λ _. Unit {0}) m
  Stops-any m = record { meets = record { apply = λ w p. After-any (m w).0 (m w).1.tables } }
