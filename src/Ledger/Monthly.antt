-- ===== src/Ledger/Monthly.antt =====
-- GetMonthlyCostBehavior of services/ledger/service.go and of db/postgres.go. A month is the number
-- of months since month 1 of year 0; years above 9999 are not modelled.
pub mod Months
pub mod Sums
pub mod Buckets
pub mod Spending
pub mod Report
use thittam.Base.{
  ℕ, zero, suc, Bool, true, false, not, ◌&&◌, ◌||◌, ◌+◌, ◌-◌, ◌*◌, ◌/◌, ◌%◌, Option, none, some,
  List, [], ◌∷◌, ltb, leb, ◌==◌, if◌then◌else◌,
}
use thittam.Base.Int.{ℤ, pos, ◌+ℤ◌, ◌-ℤ◌}
use thittam.Base.Rows.{find_row, order_by}
use thittam.Base.Text.{Text, eqb_text}
use thittam.Base.Strings.{is_digit}
use thittam.Base.Time.{Time}
use thittam.Base.Action.{Result, ok, err, Statement, ◌>>=◌, pure, lift, map_error, query}
use thittam.Ledger.Model.{
  AccountType, expense, CostBehavior, unclassified, fixed, variable, other_behavior, posted, Error,
  month_range_invalid, internal,
}
use thittam.Ledger.Tables.{Tables, AccountRow, EntryRow, LineRow}
use thittam.Ledger.Queries.{is_status}
use thittam.Ledger.Postgres.{Repo}
use thittam.Ledger.Trial.{leb_text}

pub record MonthlyCostBehaviorRow : Type 0 where
  pub month : Text
  pub fixed : ℤ
  pub variable : ℤ
  pub unclassified : ℤ
  pub total : ℤ

-- A row of the statement.
pub record CostGroup : Type 0 where
  pub month : Text
  pub behavior : CostBehavior
  pub net : ℤ

-- m.Format("2006-01"), and to_char(…, 'YYYY-MM').
unfoldable pub format_month : ℕ → Text
format_month m =
    let y = m / 12 in
    let n = m % 12 + 1 in
    (48 + y / 1000)
    ∷ (48 + y / 100 % 10)
    ∷ (48 + y / 10 % 10)
    ∷ (48 + y % 10)
    ∷ 45
    ∷ (48 + n / 10)
    ∷ (48 + n % 10)
    ∷ []

abbrev pub number4 : ℕ → ℕ → ℕ → ℕ → ℕ
number4 a b c d = 1000 * (a - 48) + 100 * (b - 48) + 10 * (c - 48) + (d - 48)

abbrev pub is_year : ℕ → ℕ → ℕ → ℕ → Bool
is_year a b c d = is_digit a && (is_digit b && (is_digit c && is_digit d))

-- Two digits from 01 to 12.
abbrev pub is_month : ℕ → ℕ → Bool
is_month e f =
    (is_digit e && is_digit f)
    && (leb 1 (10 * (e - 48) + (f - 48)) && leb (10 * (e - 48) + (f - 48)) 12)

-- time.Parse("2006-01", s).
unfoldable pub parse_month : Text → Option ℕ
parse_month (a ∷ b ∷ c ∷ d ∷ dash ∷ e ∷ f ∷ []) =
    if is_year a b c d && (dash == 45 && is_month e f)
    then some (12 * number4 a b c d + (10 * (e - 48) + (f - 48)) - 1)
    else none
parse_month _ = none

abbrev pub is_expense : AccountType → Bool
is_expense expense = true
is_expense _ = false

-- COALESCE(a.cost_behavior, 'unclassified').
abbrev pub behavior_or : Option CostBehavior → CostBehavior
behavior_or none = unclassified
behavior_or (some b) = b

abbrev pub eqb_behavior : CostBehavior → CostBehavior → Bool
eqb_behavior fixed fixed = true
eqb_behavior variable variable = true
eqb_behavior unclassified unclassified = true
eqb_behavior (other_behavior a) (other_behavior b) = eqb_text a b
eqb_behavior _ _ = false

abbrev pub between : Text → Text → Text → Bool
between from to month = leb_text from month && leb_text month to

abbrev pub group_at : AccountRow → LineRow → Option Time → Option CostGroup
group_at a l none = none
group_at a l (some t) = some (record {
  month = format_month t.month;
  behavior = behavior_or a.cost_behavior;
  net = l.debit_amount -ℤ l.credit_amount;
})

-- What a posted line of an expense account of the tenant adds, whatever its month.
abbrev pub group_of : ℕ → LineRow → Option EntryRow → Option AccountRow → Option CostGroup
group_of tenant l none a = none
group_of tenant l (some e) none = none
group_of tenant l (some e) (some a) =
    if (e.tenant_id == tenant && a.tenant_id == tenant)
      && (is_status e.status posted && is_expense a.account_type)
    then group_at a l e.posted_at
    else none

abbrev pub keep_between : Text → Text → Option CostGroup → List CostGroup → List CostGroup
keep_between from to none rest = rest
keep_between from to (some g) rest = if between from to g.month then g ∷ rest else rest

-- The joins and the WHERE clause; the identifiers of an entry and of an account are primary keys.
unfoldable pub cost_of_line : ℕ → Tables → LineRow → Option CostGroup
cost_of_line tenant t l =
    group_of tenant l (find_row (λ e. e.id == l.journal_id) t.entries)
      (find_row (λ a. a.id == l.account_id) t.accounts)

unfoldable pub line_costs : ℕ → Text → Text → Tables → List LineRow → List CostGroup
line_costs tenant from to t [] = []
line_costs tenant from to t (l ∷ ls) =
    keep_between from to (cost_of_line tenant t l) (line_costs tenant from to t ls)

abbrev pub same_group : CostGroup → CostGroup → Bool
same_group g h = eqb_text g.month h.month && eqb_behavior g.behavior h.behavior

-- GROUP BY 1, 2, with the sum of each group.
unfoldable pub add_group : CostGroup → List CostGroup → List CostGroup
add_group g [] = g ∷ []
add_group g (h ∷ hs) =
    let rest = add_group g hs in
    if same_group g h then record h { net = h.net +ℤ g.net } ∷ hs else h ∷ rest

unfoldable pub group_costs : List CostGroup → List CostGroup
group_costs [] = []
group_costs (g ∷ gs) = add_group g (group_costs gs)

unfoldable pub cost_rows : ℕ → Text → Text → Statement Tables (List CostGroup)
cost_rows tenant from to now t = ok (
  order_by (λ g h. leb_text g.month h.month) (group_costs (line_costs tenant from to t t.lines)),
  t,
)

abbrev pub no_costs : Text → MonthlyCostBehaviorRow
no_costs month = record {
  month = month;
  fixed = pos 0;
  variable = pos 0;
  unclassified = pos 0;
  total = pos 0;
}

-- The switch on the behavior, and the total.
abbrev pub add_amount : CostBehavior → ℤ → MonthlyCostBehaviorRow → MonthlyCostBehaviorRow
add_amount fixed amount r = record r { fixed = r.fixed +ℤ amount; total = r.total +ℤ amount }
add_amount variable amount r = record r {
  variable = r.variable +ℤ amount;
  total = r.total +ℤ amount;
}
add_amount unclassified amount r = record r {
  unclassified = r.unclassified +ℤ amount;
  total = r.total +ℤ amount;
}
add_amount (other_behavior s) amount r = record r {
  unclassified = r.unclassified +ℤ amount;
  total = r.total +ℤ amount;
}

-- One round of the loop over the rows of the statement: the row of the month, made at need.
unfoldable pub add_cost : CostGroup → List MonthlyCostBehaviorRow → List MonthlyCostBehaviorRow
add_cost g [] = add_amount g.behavior g.net (no_costs g.month) ∷ []
add_cost g (r ∷ rs) =
    let rest = add_cost g rs in
    if eqb_text r.month g.month then add_amount g.behavior g.net r ∷ rs else r ∷ rest

unfoldable pub collect_costs :
    List MonthlyCostBehaviorRow → List CostGroup → List MonthlyCostBehaviorRow
collect_costs rows [] = rows
collect_costs rows (g ∷ gs) = collect_costs (add_cost g rows) gs

unfoldable pub monthly_costs : ℕ → Text → Text → Repo (List MonthlyCostBehaviorRow)
monthly_costs tenant from to = do
  groups ← map_error (λ _. internal) (query (cost_rows tenant from to))
  pure (collect_costs [] groups)

-- The months of the two bounds, if they are a range of at most 36 months.
abbrev pub month_range : Option ℕ → Option ℕ → Result Error (ℕ × ℕ)
month_range none to = err month_range_invalid
month_range (some from) none = err month_range_invalid
month_range (some from) (some to) =
    if ltb to from
    then err month_range_invalid
    else if ltb 36 (to - from + 1)
    then err month_range_invalid
    else ok (from, to)

abbrev pub row_or : MonthlyCostBehaviorRow → Option MonthlyCostBehaviorRow → MonthlyCostBehaviorRow
row_or r none = r
row_or r (some s) = s

-- byMonth[key], where the last row of a month counts.
unfoldable pub row_of_month : Text → List MonthlyCostBehaviorRow → Option MonthlyCostBehaviorRow
row_of_month key [] = none
row_of_month key (r ∷ rs) =
    let rest = row_of_month key rs in if eqb_text r.month key then some (row_or r rest) else rest

-- The loop from `m` to `to`, on at most so many rounds.
unfoldable pub fill_months : ℕ → List MonthlyCostBehaviorRow → ℕ → ℕ → List MonthlyCostBehaviorRow
fill_months zero rows m to = []
fill_months (suc rounds) rows m to =
    let rest = fill_months rounds rows (suc m) to in
    if ltb to m
    then []
    else row_or (no_costs (format_month m)) (row_of_month (format_month m) rows) ∷ rest

unfoldable pub get_monthly_cost_behavior : ℕ → Text → Text → Repo (List MonthlyCostBehaviorRow)
get_monthly_cost_behavior tenant from_month to_month = do
  (from, to) ← lift (month_range (parse_month from_month) (parse_month to_month))
  rows ← monthly_costs tenant from_month to_month
  pure (fill_months 36 rows from to)
