-- ===== src/Ledger/Monthly/Report.antt =====
-- What the monthly report says.
use thittam.Base.{
  ℕ, zero, suc, ◌+◌, ◌-◌, ◌≤◌, ◌<◌, ◌≡◌, refl, sym, ◌∙◌, ap, Bool, true, false, Option, none, some,
  List, [], ◌∷◌, map, length, ltb, arith, Bool-cases, inl, inr,
}
use thittam.Base.Int.{ℤ, pos, ◌+ℤ◌, int_laws}
use thittam.Base.Rows.{order_by}
use thittam.Base.Text.{Text, eqb_text, eq_of_eqb_text}
use thittam.Base.Action.{World, Result, ok, QueryError, after_call}
use thittam.Base.Inversion.{bind-elim, lift-elim, mapped_query-ok, pure-ok}
use thittam.Base.Runs.{Calm, bind-runs, query-runs, lift-runs, pure-runs}
use thittam.Ledger.Model.{CostBehavior, fixed, variable, Error, internal}
use thittam.Ledger.Tables.{Tables, LineRow}
use thittam.Ledger.Journal.Balance.{sum_of}
use thittam.Ledger.Trial.{leb_text}
use thittam.Ledger.Monthly.{
  MonthlyCostBehaviorRow, CostGroup, format_month, parse_month, between, keep_between, cost_of_line,
  line_costs, group_costs, cost_rows, no_costs, collect_costs, monthly_costs, month_range, row_or,
  row_of_month, fill_months, get_monthly_cost_behavior,
}
use thittam.Ledger.Monthly.Months.{format_month-parse_month, format_month-leb_text}
use thittam.Ledger.Monthly.Sums.{sum_costs, sum_costs-sorted}
use thittam.Ledger.Monthly.Spending.{
  spent, is_fixed, is_variable, is_neither, cost_at, sum_of-spent, fixed_kind, variable_kind,
  neither_kind, every_kind,
}
use thittam.Ledger.Monthly.Buckets.{
  of_month, with_behavior, other_of_month, month_row-Totals, row_of_month-collect_costs,
}

-- The row of a month.
abbrev pub month_report : ℕ → Tables → ℕ → MonthlyCostBehaviorRow
month_report tenant t m = record {
  month = format_month m;
  fixed = spent is_fixed tenant t m;
  variable = spent is_variable tenant t m;
  unclassified = spent is_neither tenant t m;
  total = spent (λ o. true) tenant t m;
}

abbrev pub months_from : ℕ → ℕ → List ℕ
months_from m zero = []
months_from m (suc n) = m ∷ months_from (suc m) n

zero_add : (a : ℤ) → pos 0 +ℤ a ≡ a
zero_add a = omega int_laws

module _ (q : Text → CostBehavior → Bool) (tenant : ℕ) (from to : Text) (t : Tables)
    (inside : (m : Text) (b : CostBehavior) → q m b ≡ true → between from to m ≡ true) where
  sum_costs-keep_between :
      (o : Option CostGroup) (gs : List CostGroup)
      → sum_costs q (keep_between from to o gs) ≡ cost_at q o +ℤ sum_costs q gs
  unfolding sum_costs
  sum_costs-keep_between none gs = sym (zero_add _)
  sum_costs-keep_between (some g) gs = elim (Bool-cases (between from to g.month)) [
    | inl kept ↦ rw kept refl
    | inr dropped ↦ elim (Bool-cases (q g.month g.behavior)) [
      | inl picked ↦ absurd (cc (dropped, inside g.month g.behavior picked))
      | inr passed ↦ rw (dropped, passed) (sym (zero_add _))
    ]
  ]

  sum_costs-line_costs :
      (ls : List LineRow)
      → sum_costs q (line_costs tenant from to t ls)
        ≡ sum_of (λ l. cost_at q (cost_of_line tenant t l)) ls
  unfolding sum_costs line_costs
  sum_costs-line_costs [] = refl
  sum_costs-line_costs (l ∷ ls) =
      sum_costs-keep_between (cost_of_line tenant t l) (line_costs tenant from to t ls)
      ∙ ap (λ s. cost_at q (cost_of_line tenant t l) +ℤ s) (sum_costs-line_costs ls)

row_eq :
    (r s : MonthlyCostBehaviorRow)
    → r.month ≡ s.month
    → r.fixed ≡ s.fixed
    → r.variable ≡ s.variable
    → r.unclassified ≡ s.unclassified
    → r.total ≡ s.total
    → r ≡ s
row_eq r s a b c d e = ground arith

-- The bounds as texts, and the months that they stand for.
record Bounds (from_month to_month : Text) (from to : ℕ) : Type 0 where
  from_text : format_month from ≡ from_month
  to_text : format_month to ≡ to_month

module _ (tenant : ℕ) (from_month to_month : Text) (t : Tables) where
  abbrev groups_of : List CostGroup
  groups_of =
      order_by (λ g h. leb_text g.month h.month)
        (group_costs (line_costs tenant from_month to_month t t.lines))

  -- The row of a month within the bounds.
  row_or-month_report :
      (m from to : ℕ)
      → Bounds from_month to_month from to
      → from ≤ m
      → m ≤ to
      → row_or
          (no_costs (format_month m))
          (row_of_month (format_month m) (collect_costs [] groups_of))
        ≡ month_report tenant t m
  unfolding row_of_month
  row_or-month_report m from to bounds low high =
      let key = format_month m in
      let inside : between from_month to_month key ≡ true =
        rw
          (
            ← bounds.from_text,
            ← bounds.to_text,
            format_month-leb_text from m low,
            format_month-leb_text m to high,
          )
          refl in
      let totals = month_row-Totals key (no_costs key) groups_of in
      let sum =
        λ (q : Text → CostBehavior → Bool)
            (h : (x : Text) (b : CostBehavior) → q x b ≡ true → eqb_text x key ≡ true).
          zero_add (sum_costs q groups_of)
          ∙ sum_costs-sorted _ q (line_costs tenant from_month to_month t t.lines)
          ∙ sum_costs-line_costs q tenant from_month to_month t
              (λ x b p. rw (eq_of_eqb_text x key (h x b p)) inside) t.lines in
      row_of_month-collect_costs key [] groups_of tt
      ∙ row_eq _ _ totals.month
          (totals.fixed_total
            ∙ sum (with_behavior fixed key) (λ x b p. ground arith)
            ∙ sum_of-spent (with_behavior fixed key) is_fixed m (fixed_kind m) tenant t)
          (totals.variable_total
            ∙ sum (with_behavior variable key) (λ x b p. ground arith)
            ∙ sum_of-spent (with_behavior variable key) is_variable m (variable_kind m) tenant t)
          (totals.other_total
            ∙ sum (other_of_month key) (λ x b p. ground arith)
            ∙ sum_of-spent (other_of_month key) is_neither m (neither_kind m) tenant t)
          (totals.total
            ∙ sum (of_month key) (λ x b p. p)
            ∙ sum_of-spent (of_month key) (λ o. true) m (every_kind m) tenant t)

-- Rounds enough for every month of the range give one row for each.
fill_months-rows :
    (rounds count m to : ℕ) (rows : List MonthlyCostBehaviorRow) (f : ℕ → MonthlyCostBehaviorRow)
    → m + count ≡ suc to
    → count ≤ rounds
    → ((k : ℕ)
        → m ≤ k
        → k ≤ to
        → row_or (no_costs (format_month k)) (row_of_month (format_month k) rows) ≡ f k)
    → fill_months rounds rows m to ≡ map f (months_from m count)
unfolding fill_months
fill_months-rows zero zero m to rows f e h k = refl
fill_months-rows zero (suc count) m to rows f e h k = absurd (omega arith)
fill_months-rows (suc rounds) zero m to rows f e h k =
    let past : ltb to m ≡ true = ground arith in rw past refl
fill_months-rows (suc rounds) (suc count) m to rows f e h k =
    let here : ltb to m ≡ false = ground arith in
    rw (here, k m (omega arith) (omega arith))
      (ap (λ rest. f m ∷ rest)
        (fill_months-rows rounds count (suc m) to rows f (omega arith) (omega arith)
          (λ x low high. k x (omega arith) high)))

month_range-ok :
    (a b : Option ℕ) {from to : ℕ}
    → month_range a b ≡ ok (from, to)
    → (a ≡ some from) × (b ≡ some to) × (from ≤ to) × (to < from + 36)
month_range-ok none b h = absurd (cc)
month_range-ok (some f) none h = absurd (cc)
month_range-ok (some f) (some t) h = ground arith

-- What the report is.
abbrev pub IsReport : ℕ → Text → Text → Tables → List MonthlyCostBehaviorRow → Type 0
IsReport tenant from_month to_month t rs =
    (from : ℕ) × (to : ℕ) × (parse_month from_month ≡ some from)
    × (parse_month to_month ≡ some to)
    × (from ≤ to)
    × (to < from + 36)
    × (rs ≡ map (month_report tenant t) (months_from from (suc to - from)))

filled-rows :
    (tenant : ℕ) (from_month to_month : Text) (t : Tables) {from to : ℕ}
    → parse_month from_month ≡ some from
    → parse_month to_month ≡ some to
    → from ≤ to
    → to < from + 36
    → fill_months 36 (collect_costs [] (groups_of tenant from_month to_month t)) from to
      ≡ map (month_report tenant t) (months_from from (suc to - from))
filled-rows tenant from_month to_month t {from} {to} a b low high =
    let bounds : Bounds from_month to_month from to = record {
      from_text = (format_month-parse_month from_month a).1;
      to_text = (format_month-parse_month to_month b).1;
    } in
    fill_months-rows 36 (suc to - from) from to _ (month_report tenant t) (omega arith)
      (omega arith) (λ k l u. row_or-month_report tenant from_month to_month t k from to bounds l u)

filled-IsReport :
    (tenant : ℕ) (from_month to_month : Text) (t : Tables) {from to : ℕ}
    → month_range (parse_month from_month) (parse_month to_month) ≡ ok (from, to)
    → IsReport tenant from_month to_month t
        (fill_months 36 (collect_costs [] (groups_of tenant from_month to_month t)) from to)
filled-IsReport tenant from_month to_month t {from} {to} h =
    let (a, b, low, high) = month_range-ok (parse_month from_month) (parse_month to_month) h in
    (from, to, a, b, low, high, filled-rows tenant from_month to_month t a b low high)

ok_pair :
    {A : Type 0} {xs es : A} {t u : Tables}
    → let r : Result QueryError (A × Tables) = ok (xs, t) in r ≡ ok (es, u) → (es ≡ xs) × (u ≡ t)
ok_pair h = ground arith

-- Whatever calls fail, when GetMonthlyCostBehavior returns rows its two arguments are months of
-- a range of at most 36, the rows are those of the range, each with the sums of its month, and
-- the tables are unchanged.
pub get_monthly_cost_behavior-IsReport :
    (tenant : ℕ) (from_month to_month : Text) (w : World Tables) {rs : List MonthlyCostBehaviorRow}
    {v : World Tables}
    → get_monthly_cost_behavior tenant from_month to_month w ≡ (ok rs, v)
    → IsReport tenant from_month to_month w.tables rs × (v.tables ≡ w.tables)
unfolding get_monthly_cost_behavior monthly_costs cost_rows
get_monthly_cost_behavior-IsReport tenant from_month to_month w h =
    lift-elim _ w _ h λ (from, to) range h1. bind-elim _ w _ h1 λ rows u stored h2.
      bind-elim _ w _ stored λ groups u2 asked h3.
        let (t, found, after) = mapped_query-ok _ _ w asked in
        let (same_groups, same_tables) = ok_pair found in
        let (same_rows, same_u) = pure-ok _ u2 h3 in
        let (same_rs, same_v) = pure-ok _ u h2 in
        (
          rw (same_rs, same_rows, same_groups)
              (filled-IsReport tenant from_month to_month w.tables range),
          ap (λ (x : World Tables). x.tables) (same_v ∙ same_u ∙ after) ∙ same_tables,
        )

length-map_months :
    (f : ℕ → MonthlyCostBehaviorRow) (m n : ℕ) → length (map f (months_from m n)) ≡ n
length-map_months f m zero = refl
length-map_months f m (suc n) = ap suc (length-map_months f (suc m) n)

-- The loop over the months from m to at most one month past the last needs no more than one
-- round for each of them: given that many rounds or more it gives what it gives with exactly
-- that many, one row for each month.
pub fill_months-ends :
    (rounds m to : ℕ) (rows : List MonthlyCostBehaviorRow)
    → m ≤ suc to
    → suc to ≤ m + rounds
    → (fill_months rounds rows m to ≡ fill_months (suc to - m) rows m to)
      × (length (fill_months rounds rows m to) ≡ suc to - m)
fill_months-ends rounds m to rows low enough =
    let f = λ (k : ℕ). row_or (no_costs (format_month k)) (row_of_month (format_month k) rows) in
    let by_rounds = λ (n : ℕ) (h : suc to - m ≤ n).
      fill_months-rows n (suc to - m) m to rows f (omega arith) h (λ k l u. refl) in
    let here = by_rounds rounds (omega arith) in
    (
      here ∙ sym (by_rounds (suc to - m) (omega arith)),
      ap length here ∙ length-map_months f m (suc to - m),
    )

month_range-accepts :
    (from to : ℕ) → from ≤ to → to < from + 36 → month_range (some from) (some to) ≡ ok (from, to)
month_range-accepts from to low high = ground arith

-- When no call of the database fails, GetMonthlyCostBehavior returns, for two months written as
-- YYYY-MM of which the second is not before the first and less than 36 months after it, exactly
-- one row for each month from the first to the second in their order, and each row has the sum
-- of debit less credit over all lines that belong to a posted entry of the tenant posted in that
-- month and to an expense account of the tenant: over all of them, over those whose account is
-- fixed, over those whose account is variable, and over the others.
pub get_monthly_cost_behavior-returns :
    (tenant : ℕ) (from_month to_month : Text) (w : World Tables) {from to : ℕ}
    → Calm w
    → parse_month from_month ≡ some from
    → parse_month to_month ≡ some to
    → from ≤ to
    → to < from + 36
    → (v : World Tables) × (get_monthly_cost_behavior tenant from_month to_month w
        ≡ (ok (map (month_report tenant w.tables) (months_from from (suc to - from))), v))
unfolding get_monthly_cost_behavior monthly_costs cost_rows
get_monthly_cost_behavior-returns tenant from_month to_month w {from} {to} calm a b low high =
    let range : month_range (parse_month from_month) (parse_month to_month) ≡ ok (from, to) =
      rw (a, b) (month_range-accepts from to low high) in
    let asked =
      query-runs {F = Error} (λ _. internal) (cost_rows tenant from_month to_month) w calm refl in
    let stored = bind-runs _ _ w asked ∙ pure-runs _ _ in
    let rows = filled-rows tenant from_month to_month w.tables a b low high in
    (
      _,
      bind-runs _ _ w (lift-runs _ w range)
          ∙ bind-runs _ _ w stored
          ∙ pure-runs _ _
          ∙ ap (λ rs. (ok rs, record (after_call w) { tables = w.tables })) rows,
    )
