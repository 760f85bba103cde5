-- ===== src/Ledger/Trial/Totals.antt =====
-- Which lines the totals of the trial balance count.
use thittam.Base.{ℕ, ◌≡◌, refl, sym, ◌∙◌, List, [], ◌∷◌, map, ◌==◌, if◌then◌else◌, arith, All}
use thittam.Base.Int.{ℤ, pos, ◌+ℤ◌, ◌-ℤ◌, int_laws}
use thittam.Base.Time.{Time}
use thittam.Base.Action.{World, Result, ok, QueryError, ◌>>=◌}
use thittam.Base.Inversion.{mapped_query-ok}
use thittam.Ledger.Model.{TrialBalanceEntry}
use thittam.Ledger.Tables.{Tables, AccountRow, EntryRow, LineRow}
use thittam.Ledger.Journal.Balance.{sum_of}
use thittam.Ledger.Journal.Mirror.{debit_to, credit_to}
use thittam.Ledger.Trial.{
  left_join, sum_column, account_totals, get_trial_balance, trial_balance_rows,
}

zero_add : (a : ℤ) → pos 0 +ℤ a ≡ a
zero_add a = omega int_laws

sum_column-left_join :
    (f : LineRow → ℤ) (as_of : Time) (es : List EntryRow) (account : ℕ) (ls : List LineRow)
    → sum_column f (left_join as_of es account ls)
      ≡ sum_of (λ l. if l.account_id == account then f l else pos 0) ls
unfolding sum_column left_join
sum_column-left_join f as_of es account [] = refl
sum_column-left_join f as_of es account (l ∷ ls) =
    grind (int_laws, zero_add, sum_column-left_join f as_of es account ls)

-- The totals of an account over every line of the table.
abbrev pub CountsEveryLine : Tables → TrialBalanceEntry → Type 0
CountsEveryLine t e =
    (e.debit ≡ sum_of (debit_to e.account_id) t.lines)
    × (e.credit ≡ sum_of (credit_to e.account_id) t.lines)
    × (e.balance ≡ e.debit -ℤ e.credit)

All-map {ℓ κ} :
    {A : Type ℓ} {B : Type 0} (P : B → Type κ) (f : A → B) (xs : List A)
    → ((x : A) → P (f x))
    → All P (map f xs)
All-map P f [] h = tt
All-map P f (x ∷ xs) h = (h x, All-map P f xs h)

account_totals-every_line :
    (as_of : Time) (t : Tables) (a : AccountRow) → CountsEveryLine t (account_totals as_of t a)
unfolding account_totals
account_totals-every_line as_of t a = (
  sum_column-left_join (λ l. l.debit_amount) as_of t.entries a.id t.lines,
  sum_column-left_join (λ l. l.credit_amount) as_of t.entries a.id t.lines,
  refl,
)

ok_pair :
    {A : Type 0} {xs es : A} {t u : Tables}
    → let r : Result QueryError (A × Tables) = ok (xs, t) in r ≡ ok (es, u) → (es ≡ xs) × (u ≡ t)
ok_pair h = ground arith

-- When GetTrialBalance returns its entries, each has the sums of the debit and the credit column
-- over every line of its account, whatever the status of the line's entry, and their difference
-- as balance; and the tables are unchanged.
pub get_trial_balance-every_line :
    (tenant : ℕ) (as_of : Time) (w : World Tables) {es : List TrialBalanceEntry} {v : World Tables}
    → get_trial_balance tenant as_of w ≡ (ok es, v)
    → All (CountsEveryLine w.tables) es × (v.tables ≡ w.tables)
unfolding get_trial_balance trial_balance_rows
get_trial_balance-every_line tenant as_of w {es} {v} e =
    let (t, h, here) = mapped_query-ok _ _ w e in
    let (listed, same) = ok_pair h in
    (rw listed (All-map _ _ _ (account_totals-every_line as_of w.tables)), rw (here, same) refl)

map-cong : {A B : Type 0} (f g : A → B) (xs : List A) → ((x : A) → f x ≡ g x) → map f xs ≡ map g xs
map-cong f g [] h = refl
map-cong f g (x ∷ xs) h = rw (h x, map-cong f g xs h) refl

sum_column-any_date :
    (f : LineRow → ℤ) (d1 d2 : Time) (es : List EntryRow) (account : ℕ) (ls : List LineRow)
    → sum_column f (left_join d1 es account ls) ≡ sum_column f (left_join d2 es account ls)
sum_column-any_date f d1 d2 es account ls =
    sum_column-left_join f d1 es account ls ∙ sym (sum_column-left_join f d2 es account ls)

account_totals-any_date :
    (d1 d2 : Time) (t : Tables) (a : AccountRow) → account_totals d1 t a ≡ account_totals d2 t a
unfolding account_totals
account_totals-any_date d1 d2 t a =
    rw
      (
        sum_column-any_date (λ l. l.debit_amount) d1 d2 t.entries a.id t.lines,
        sum_column-any_date (λ l. l.credit_amount) d1 d2 t.entries a.id t.lines,
      )
      refl

statement-any_date :
    (tenant : ℕ) (d1 d2 now : Time) (t : Tables)
    → trial_balance_rows tenant d1 now t ≡ trial_balance_rows tenant d2 now t
unfolding trial_balance_rows
statement-any_date tenant d1 d2 now t = rw (map-cong _ _ _ (account_totals-any_date d1 d2 t)) refl

-- GetTrialBalance gives the same for any two dates.
pub get_trial_balance-any_date :
    (tenant : ℕ) (d1 d2 : Time) (w : World Tables)
    → get_trial_balance tenant d1 w ≡ get_trial_balance tenant d2 w
unfolding get_trial_balance ◌>>=◌
get_trial_balance-any_date tenant d1 d2 w =
    rw (statement-any_date tenant d1 d2 (w.env.time w.tick) w.tables) refl
