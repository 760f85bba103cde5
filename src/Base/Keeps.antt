-- ===== src/Base/Keeps.antt =====
-- What holds of the tables through an operation: one rule for each way to build one, so that
-- `search` follows the code.
use thittam.Base.Time.{Time}
use thittam.Base.Tests.{if◌then◌else◌}
use thittam.Base.Action.{
  Result, ok, err, World, Action, Statement, ◌>>=◌, and_then, or_error, pure, raise, raise_if,
  modify, attempt, map_error, lift, new_uuid, time_now, query, transaction, commit, settle,
  after_call, QueryError,
}
use mathlib.Core.Path.{◌≡◌, refl, subst}
use mathlib.Core.Bool.{Bool, true, false}
use native.Mathlib.Omega.{arith}

-- The property holds of the tables afterwards if it did before, whatever the environment does.
pub record Keeps {T E A : Type 0} (P : T → Type 0) (m : Action T E A) : Type 0 where
  pub apply : (w : World T) → P w.tables → P (m w).1.tables

commit-keeps :
    {T E A : Type 0} (P : T → Type 0) (e : E) (t : T) (r : Result E A × World T)
    → P t
    → P r.1.tables
    → P (commit e t r).1.tables
commit-keeps P e t (ok a, w) h k = ground arith
commit-keeps P e t (err x, w) h k = h

-- What a statement does to the tables when it succeeds.
pub record OnSuccess {T A : Type 0} (P : T → Type 0) (r : Result QueryError (A × T)) : Type 0 where
  pub apply : (a : A) (t : T) → r ≡ ok (a, t) → P t

module _ {T A : Type 0} {P : T → Type 0} where
  pub OnSuccess-ok : (a : A) (t : T) → P t → OnSuccess {A = A} P (ok (a, t))
  OnSuccess-ok a t h = record { apply = λ b u e. subst P (ground arith) h }

  pub OnSuccess-err : (x : QueryError) → OnSuccess {A = A} P (err x)
  OnSuccess-err x = record { apply = λ a t e. absurd (cc) }

  pub OnSuccess-if :
      (b : Bool) (r s : Result QueryError (A × T))
      → (b ≡ true → OnSuccess P r)
      → (b ≡ false → OnSuccess P s)
      → OnSuccess P (if b then r else s)
  OnSuccess-if true r s h k = h refl
  OnSuccess-if false r s h k = k refl

  pub OnSuccess-map :
      {Q : T → Type 0} (r : Result QueryError (A × T))
      → ((t : T) → Q t → P t)
      → OnSuccess Q r
      → OnSuccess P r
  OnSuccess-map r f h = record { apply = λ a t e. f t (h.apply a t e) }

settle-keeps :
    {T A : Type 0} (P : T → Type 0) (w : World T) (r : Result QueryError (A × T))
    → P w.tables
    → OnSuccess P r
    → P (settle w r).1.tables
settle-keeps P w (ok (a, t)) h k = k.apply a t refl
settle-keeps P w (err e) h k = h

module _ {T E A : Type 0} {P : T → Type 0} where
  pub Keeps-pure : (a : A) → Keeps P (pure {E = E} a)
  unfolding ◌>>=◌
  Keeps-pure a = record { apply = λ w h. h }

  pub Keeps-raise : (e : E) → Keeps P (raise {A = A} e)
  unfolding ◌>>=◌
  Keeps-raise e = record { apply = λ w h. h }

  pub Keeps-lift : (r : Result E A) → Keeps P (lift r)
  unfolding ◌>>=◌
  Keeps-lift r = record { apply = λ w h. h }

  pub Keeps-attempt : {F : Type 0} (m : Action T E A) → Keeps P m → Keeps P (attempt {F = F} m)
  unfolding ◌>>=◌
  Keeps-attempt m k = record { apply = λ w h. k.apply w h }

  pub Keeps-map_error :
      {F : Type 0} (f : E → F) (m : Action T E A) → Keeps P m → Keeps P (map_error f m)
  unfolding ◌>>=◌
  Keeps-map_error f m k = record { apply = λ w h. k.apply w h }

  pub Keeps-if :
      (guard : Bool) (this other : Action T E A)
      → (guard ≡ true → Keeps P this)
      → (guard ≡ false → Keeps P other)
      → Keeps P (if guard then this else other)
  Keeps-if true this other h k = h refl
  Keeps-if false this other h k = k refl

  pub Keeps-transaction : (e : E) (m : Action T E A) → Keeps P m → Keeps P (transaction e m)
  unfolding ◌>>=◌
  Keeps-transaction e m k = record {
    apply = λ w h.
        ground (arith, commit-keeps P e w.tables (m (after_call w)) h (k.apply (after_call w) h));
  }

module _ {T E : Type 0} {P : T → Type 0} where
  pub Keeps-new_uuid : Keeps P (new_uuid {E = E})
  unfolding ◌>>=◌
  Keeps-new_uuid = record { apply = λ w h. h }

  pub Keeps-time_now : Keeps P (time_now {E = E})
  unfolding ◌>>=◌
  Keeps-time_now = record { apply = λ w h. h }

  pub Keeps-raise_if : (b : Bool) (e : E) → Keeps P (raise_if b e)
  unfolding ◌>>=◌
  Keeps-raise_if b e = record { apply = λ w h. h }

  pub Keeps-modify : (f : T → T) → ((t : T) → P t → P (f t)) → Keeps P (modify {E = E} f)
  unfolding ◌>>=◌
  Keeps-modify f k = record { apply = λ w h. k w.tables h }

module _ {T E A B : Type 0} {P : T → Type 0} where
  and_then-keeps :
      (r : Result E A) (f : A → Action T E B) (w : World T)
      → P w.tables
      → ((a : A) → Keeps P (f a))
      → P (and_then r f w).1.tables
  and_then-keeps (ok a) f w h k = (k a).apply w h
  and_then-keeps (err e) f w h k = h

  pub Keeps-bind :
      (m : Action T E A) (f : A → Action T E B)
      → Keeps P m
      → ((a : A) → Keeps P (f a))
      → Keeps P (m >>= f)
  unfolding ◌>>=◌
  Keeps-bind m f km kf = record {
    apply = λ w h. and_then-keeps (m w).0 f (m w).1 (km.apply w h) kf;
  }

module _ {T A : Type 0} {P : T → Type 0} where
  pub Keeps-query :
      (f : Statement T A) → ((now : Time) (t : T) → P t → OnSuccess P (f now t)) → Keeps P (query f)
  unfolding ◌>>=◌
  Keeps-query f k = record {
    apply = λ w h.
        let t = w.tables in
        let now = w.env.time w.tick in
        ground (arith, settle-keeps P (after_call w) (f now t) h (k now t h));
  }

pub ruleset keeps_rules = (
  Keeps-pure, Keeps-raise, Keeps-lift, Keeps-attempt, Keeps-map_error, Keeps-if, Keeps-transaction,
  Keeps-new_uuid, Keeps-time_now, Keeps-raise_if, Keeps-bind,
)

-- `Q` holds after the action succeeds, if `P` held before.
pub record Leads {T E A : Type 0} (P Q : T → Type 0) (m : Action T E A) : Type 0 where
  pub apply : (w : World T) (a : A) → P w.tables → (m w).0 ≡ ok a → Q (m w).1.tables

settle-leads :
    {T A : Type 0} (Q : T → Type 0) (w : World T) (r : Result QueryError (A × T)) {a : A}
    → OnSuccess Q r
    → (settle w r).0 ≡ ok a
    → Q (settle w r).1.tables
settle-leads Q w (ok (a, t)) h e = h.apply a t refl
settle-leads Q w (err x) h e = absurd (cc)

or_error-leads :
    {E F A : Type 0} (f : E → F) (r : Result E A) {a : A}
    → or_error f r ≡ ok a
    → (b : A) × (r ≡ ok b)
or_error-leads f (ok x) e = (x, refl)
or_error-leads f (err x) e = absurd (cc)

module _ {T A : Type 0} {P Q : T → Type 0} where
  pub Leads-query :
      (f : Statement T A)
      → ((now : Time) (t : T) → P t → OnSuccess Q (f now t))
      → Leads P Q (query f)
  unfolding ◌>>=◌
  Leads-query f k = record {
    apply = λ w a h e.
        let t = w.tables in
        let now = w.env.time w.tick in
        ground (arith, settle-leads Q (after_call w) (f now t) {a = a} (k now t h));
  }

  pub Leads-map_error :
      {E F : Type 0} (f : E → F) (m : Action T E A) → Leads P Q m → Leads P Q (map_error f m)
  unfolding ◌>>=◌
  Leads-map_error f m k = record {
    apply = λ w a h e. let (b, done) = or_error-leads f (m w).0 e in k.apply w b h done;
  }

module _ {T E A B : Type 0} {P Q : T → Type 0} where
  and_then-leads :
      (r : Result E A) (f : A → Action T E B) (w : World T)
      → P w.tables
      → ((a : A) → r ≡ ok a → Q w.tables)
      → ((t : T) → Q t → P t)
      → ((a : A) → Keeps Q (f a))
      → P (and_then r f w).1.tables
  and_then-leads (ok a) f w h q weaken k = weaken _ ((k a).apply w (q a refl))
  and_then-leads (err e) f w h q weaken k = h

  -- The rest of the block keeps the stronger property that its first part has led to.
  pub Keeps-then :
      (m : Action T E A) (f : A → Action T E B)
      → Keeps P m
      → Leads P Q m
      → ((t : T) → Q t → P t)
      → ((a : A) → Keeps Q (f a))
      → Keeps P (m >>= f)
  unfolding ◌>>=◌
  Keeps-then m f km lead weaken kf = record {
    apply = λ w h.
        and_then-leads (m w).0 f (m w).1 (km.apply w h) (λ a e. lead.apply w a h e) weaken kf;
  }

module _ {T E F A B : Type 0} {P Q : T → Type 0} where
  settled-then :
      (r : Result E A) (f : Result E A → Action T F B) (w : World T)
      → P w.tables
      → ((a : A) → r ≡ ok a → Q w.tables)
      → ((t : T) → Q t → P t)
      → ((e : E) → Keeps P (f (err e)))
      → ((a : A) → Keeps Q (f (ok a)))
      → P (f r w).1.tables
  settled-then (ok a) f w h q weaken failed done = weaken _ ((done a).apply w (q a refl))
  settled-then (err e) f w h q weaken failed done = (failed e).apply w h

  -- The same for code that goes on after an error.
  pub Keeps-attempt_then :
      (m : Action T E A) (f : Result E A → Action T F B)
      → Keeps P m
      → Leads P Q m
      → ((t : T) → Q t → P t)
      → ((e : E) → Keeps P (f (err e)))
      → ((a : A) → Keeps Q (f (ok a)))
      → Keeps P (attempt m >>= f)
  unfolding ◌>>=◌
  Keeps-attempt_then m f km lead weaken failed done = record {
    apply = λ w h.
        settled-then (m w).0 f (m w).1 (km.apply w h) (λ a e. lead.apply w a h e) weaken failed
          done;
  }

pub ruleset statement_rules = (OnSuccess-ok, OnSuccess-err, OnSuccess-if)
