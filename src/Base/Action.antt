-- ===== src/Base/Action.antt =====
-- Operations that may fail, over a world of tables.
use thittam.Base.Time.{Time}
use thittam.Base.Tests.{if◌then◌else◌}
use Prim.Native.Nat.{ℕ, suc}
use mathlib.Core.Bool.{Bool}

pub data Result (E A : Type 0) : Type 0 where
  ok : A → Result E A
  err : E → Result E A

-- What the program does not decide: the identifiers that uuid.New gives, the clock, and which
-- calls of the database fail (a lost connection, a time-out). Each is read by the number of the
-- call, so an arbitrary environment stands for every behaviour of these.
pub record Env : Type 0 where
  pub uuid : ℕ → ℕ
  pub time : ℕ → Time
  pub fails : ℕ → Bool

-- `tick` counts the calls made so far.
pub record World (T : Type 0) : Type 0 where
  pub env : Env
  pub tick : ℕ
  pub tables : T

abbrev pub Action : Type 0 → Type 0 → Type 0 → Type 0
Action T E A = World T → Result E A × World T

-- What pgx reports of a statement: pgx.ErrNoRows, SQLSTATE 23505, or another failure.
pub data QueryError : Type 0 where
  no_rows unique_violation query_failed : QueryError

abbrev pub after_call : {T : Type 0} → World T → World T
after_call w = record w { tick = suc w.tick }

abbrev pub and_then : {T E A B : Type 0} → Result E A → (A → Action T E B) → Action T E B
and_then (ok a) f w = f a w
and_then (err e) f w = (err e, w)

abbrev pub or_error : {E F A : Type 0} → (E → F) → Result E A → Result F A
or_error f (ok a) = ok a
or_error f (err e) = err (f e)

module _ {T E A : Type 0} where
  unfoldable pub pure : A → Action T E A
  pure a w = (ok a, w)

  unfoldable pub raise : E → Action T E A
  raise e w = (err e, w)

  -- The error as a value, for code that goes on after it.
  unfoldable pub attempt : {F : Type 0} → Action T E A → Action T F (Result E A)
  attempt m w = let (r, w') = m w in (ok r, w')

  unfoldable pub map_error : {F : Type 0} → (E → F) → Action T E A → Action T F A
  map_error f m w = let (r, w') = m w in (or_error f r, w')

  unfoldable pub lift : Result E A → Action T E A
  lift r w = (r, w)

module _ {T E : Type 0} where
  unfoldable pub new_uuid : Action T E ℕ
  new_uuid w = (ok (w.env.uuid w.tick), after_call w)

  unfoldable pub time_now : Action T E Time
  time_now w = (ok (w.env.time w.tick), after_call w)

  unfoldable pub raise_if : Bool → E → Action T E (Unit {0})
  raise_if b e w = (if b then err e else ok tt, w)

  -- An effect outside the database that cannot fail, or whose failure is ignored.
  unfoldable pub modify : (T → T) → Action T E (Unit {0})
  modify f w = (ok tt, record w { tables = f w.tables })

-- A statement reads the database's clock, now(), and the tables; it gives a value and the new
-- tables, or an error and no change.
abbrev pub Statement : Type 0 → Type 0 → Type 0
Statement T A = Time → T → Result QueryError (A × T)

abbrev pub settle :
    {T A : Type 0} → World T → Result QueryError (A × T) → Result QueryError A × World T
settle w (ok (a, t)) = (ok a, record w { tables = t })
settle w (err e) = (err e, w)

unfoldable pub query : {T A : Type 0} → Statement T A → Action T QueryError A
query f w =
    if w.env.fails w.tick
    then (err query_failed, after_call w)
    else settle (after_call w) (f (w.env.time w.tick) w.tables)

abbrev pub commit : {T E A : Type 0} → E → T → Result E A × World T → Result E A × World T
commit e before (ok a, w) =
    if w.env.fails w.tick
    then (err e, record (after_call w) { tables = before })
    else (ok a, after_call w)
commit e before (err x, w) = (err x, record w { tables = before })

-- Begin, the statements, and Commit; the deferred Rollback undoes all of it after any error. `e` is
-- the error when Begin or Commit fails.
unfoldable pub transaction : {T E A : Type 0} → E → Action T E A → Action T E A
transaction e m w =
    if w.env.fails w.tick then (err e, after_call w) else commit e w.tables (m (after_call w))

infixl 5 ◌>>=◌ ◌>>◌
-- Opening this opens the other ways to build an action.
unfoldable pub ◌>>=◌ : {T E A B : Type 0} → Action T E A → (A → Action T E B) → Action T E B
unfolding pure raise attempt map_error lift new_uuid time_now raise_if modify query transaction
◌>>=◌ m f w = let (r, w') = m w in and_then r f w'

abbrev pub ◌>>◌ : {T E A B : Type 0} → Action T E A → Action T E B → Action T E B
m >> k = m >>= λ _. k
