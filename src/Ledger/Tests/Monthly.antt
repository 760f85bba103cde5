-- ===== src/Ledger/Tests/Monthly.antt =====
-- The monthly report on the sample books, with the entry of April posted in April.
use thittam.Base.{ℕ, ◌≡◌, refl, ◌<◌, Bool, true, false, List, [], ◌∷◌, map, some, length, arith}
use thittam.Base.Int.{pos, ◌+ℤ◌, ◌-ℤ◌}
use thittam.Base.Rows.{find_row, insert_by, order_by}
use thittam.Base.Text.{Text, text, eqb_text}
use thittam.Base.Action.{World, Result, ok, err, ◌>>=◌}
use thittam.Ledger.Model.{Error}
use thittam.Ledger.Tables.{Tables}
use thittam.Ledger.Samples.{env, books, draft_entry, april_entry}
use thittam.Ledger.Trial.{leb_text}
use thittam.Ledger.Monthly.{
  MonthlyCostBehaviorRow, format_month, parse_month, no_costs, cost_of_line, line_costs, add_group,
  group_costs, cost_rows, add_cost, collect_costs, monthly_costs, row_of_month, fill_months,
  get_monthly_cost_behavior,
}
use thittam.Ledger.Monthly.Months.{parse_month-format_month, format_month-parse_month}
use thittam.Ledger.Monthly.Report.{
  IsReport, month_report, months_from, fill_months-ends, get_monthly_cost_behavior-IsReport,
  get_monthly_cost_behavior-returns,
}

abbrev posted_books : World Tables
posted_books = record {
  env = env;
  tick = 0;
  tables = record books {
    entries =
        draft_entry
        ∷ record april_entry { posted_at = some (record { month = 24303; offset = 9 }) }
        ∷ [];
  };
}

abbrev Reported : Type 0
Reported = Result Error (List MonthlyCostBehaviorRow) × World Tables

unfoldable report : Text → Text → Reported
unfolding get_monthly_cost_behavior monthly_costs collect_costs add_cost cost_rows group_costs
    add_group line_costs cost_of_line fill_months row_of_month parse_month format_month leb_text
    eqb_text find_row insert_by order_by ◌+ℤ◌ ◌-ℤ◌ ◌>>=◌
report from to = get_monthly_cost_behavior 7 from to posted_books

abbrev rows_of : Reported → List MonthlyCostBehaviorRow
rows_of (ok rs, w) = rs
rows_of (err e, w) = []

abbrev spent : ℕ → Text → MonthlyCostBehaviorRow
spent n month = record (no_costs month) { unclassified = pos n; total = pos n }

-- 900 in April, and nothing in the months beside it.
spring :
    rows_of (report (text "2025-03") (text "2025-05"))
    ≡ no_costs (text "2025-03") ∷ spent 900 (text "2025-04") ∷ no_costs (text "2025-05") ∷ []
unfolding report
spring = refl

abbrev asked : Reported
asked = get_monthly_cost_behavior 7 (text "2025-03") (text "2025-05") posted_books

abbrev is_ok : Reported → Bool
is_ok (ok rs, w) = true
is_ok (err e, w) = false

returned : (r : Reported) → is_ok r ≡ true → r ≡ (ok (rows_of r), r.1)
returned (ok rs, w) h = refl
returned (err e, w) h = absurd (cc)

reported-ok : is_ok (report (text "2025-03") (text "2025-05")) ≡ true
unfolding report
reported-ok = refl

asked-ok : is_ok asked ≡ true
unfolding report
asked-ok = reported-ok

get_monthly_cost_behavior-IsReport_example :
    IsReport 7 (text "2025-03") (text "2025-05") posted_books.tables (rows_of asked)
    × (asked.1.tables ≡ posted_books.tables)
get_monthly_cost_behavior-IsReport_example =
    get_monthly_cost_behavior-IsReport 7 (text "2025-03") (text "2025-05") posted_books
      (returned asked asked-ok)

march : parse_month (text "2025-03") ≡ some 24302
unfolding parse_month
march = refl

may : parse_month (text "2025-05") ≡ some 24304
unfolding parse_month
may = refl

get_monthly_cost_behavior-returns_example :
    (v : World Tables) × (get_monthly_cost_behavior 7 (text "2025-03") (text "2025-05") posted_books
      ≡ (ok (map (month_report 7 posted_books.tables) (months_from 24302 3)), v))
get_monthly_cost_behavior-returns_example =
    get_monthly_cost_behavior-returns 7 (text "2025-03") (text "2025-05") posted_books (λ n. refl)
      march may (omega arith) (omega arith)

fill_months-ends_example :
    (fill_months 36 [] 24302 24304 ≡ fill_months 3 [] 24302 24304)
    × (length (fill_months 36 [] 24302 24304) ≡ 3)
fill_months-ends_example = fill_months-ends 36 24302 24304 [] (omega arith) (omega arith)

parse_month-format_month_example : parse_month (format_month 24303) ≡ some 24303
parse_month-format_month_example = parse_month-format_month 24303 (omega arith)

format_month-parse_month_example : (24302 < 120000) × (format_month 24302 ≡ text "2025-03")
format_month-parse_month_example = format_month-parse_month (text "2025-03") march
