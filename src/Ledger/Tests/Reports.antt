-- ===== src/Ledger/Tests/Reports.antt =====
-- The theorems on the chart of accounts, the periods and the trial balance, applied to the sample
-- books.
use thittam.Base.{◌≡◌, refl, true, false, Bool, List, [], ◌∷◌, All, some, none}
use thittam.Base.Text.{text, eqb_text, decimal}
use thittam.Base.Time.{Time}
use thittam.Base.Action.{World, Result, ok, err, ◌>>=◌}
use thittam.Base.Rows.{find_row, has_row, update_rows}
use thittam.Ledger.Model.{AccountingPeriod, TrialBalanceEntry, asset, fixed, Error, internal}
use thittam.Ledger.Tables.{Tables}
use thittam.Ledger.Queries
use thittam.Ledger.Queries.{is_entry, is_period}
use thittam.Ledger.Queries.Accounts.{has_code, max_bank_code}
use thittam.Ledger.Postgres
use thittam.Ledger.Postgres.Convert.{period_from_db}
use thittam.Ledger.Samples.{world, books, draft_entry, may}
use thittam.Ledger.Journal.{post_journal_entry}
use thittam.Ledger.Chart.{
  ChartOfAccountEntry, BankAccountInput, seed_chart_of_accounts, close_accounting_period,
  next_bank_code,
}
use thittam.Ledger.Chart.Codes.{
  DistinctCodes, chart_history, chart_history-IsDistinct, ChartRequest, seed, create_bank,
  set_behavior,
}
use thittam.Ledger.Chart.BankCodes.{Free, next_bank_code-Free}
use thittam.Ledger.Chart.Seeding.{seed_chart_of_accounts-existing}
use thittam.Ledger.Chart.Periods.{close_accounting_period-unpostable}
use thittam.Ledger.Trial.{get_trial_balance, trial_balance_rows}
use thittam.Ledger.Trial.Totals.{
  CountsEveryLine, get_trial_balance-every_line, get_trial_balance-any_date,
}

abbrev cash : ChartOfAccountEntry
cash = record { code = text "1010"; name = text "Cash"; account_type = asset; parent_code = none }

abbrev savings : BankAccountInput
savings = record {
  bank_name = text "State Bank";
  account_number = text "1234-5678";
  currency = text "inr";
}

abbrev requests : List ChartRequest
requests = seed 7 (cash ∷ []) ∷ create_bank 7 savings ∷ set_behavior 7 2 fixed ∷ []

books-DistinctCodes : DistinctCodes books
unfolding eqb_text
books-DistinctCodes = ((refl, tt), (tt, tt))

chart_history-IsDistinct_example : DistinctCodes (chart_history requests world).tables
chart_history-IsDistinct_example = chart_history-IsDistinct requests world books-DistinctCodes

has_cash : has_row (has_code 7 (text "1010")) books.accounts ≡ true
unfolding has_row eqb_text
has_cash = refl

seed_chart_of_accounts-existing_example :
    (seed_chart_of_accounts 7 (cash ∷ []) world).0 ≡ err internal
seed_chart_of_accounts-existing_example =
    seed_chart_of_accounts-existing 7 cash [] world refl has_cash

next_of_1010 : next_bank_code (max_bank_code 7 books.accounts) ≡ ok (text "1020")
unfolding next_bank_code max_bank_code decimal
next_of_1010 = refl

next_bank_code-Free_example : Free 7 books.accounts (text "1020")
next_bank_code-Free_example = next_bank_code-Free 7 books.accounts (text "1020") next_of_1010

abbrev Closing : Type 0
Closing = Result Error AccountingPeriod × World Tables

abbrev closing : Closing
closing = close_accounting_period 7 5 9 world

abbrev period_or_may : Closing → AccountingPeriod
period_or_may (ok p, w) = p
period_or_may (err x, w) = record {
  id = 5;
  tenant_id = 7;
  year = 2025;
  month = 5;
  status = may.status;
  closed_by = none;
  closed_at = none;
}

abbrev is_ok : Closing → Bool
is_ok (ok p, w) = true
is_ok (err x, w) = false

returned : (r : Closing) → is_ok r ≡ true → r ≡ (ok (period_or_may r), r.1)
returned (ok p, w) h = refl
returned (err x, w) h = absurd (cc)

closing-ok : is_ok closing ≡ true
unfolding close_accounting_period Postgres.get_period_by_id Postgres.close_period
    Queries.get_accounting_period Queries.close_accounting_period find_row update_rows
    period_from_db ◌>>=◌
closing-ok = refl

draft_stays : find_row (is_entry 20 7) closing.1.tables.entries ≡ some draft_entry
unfolding close_accounting_period Postgres.get_period_by_id Postgres.close_period
    Queries.get_accounting_period Queries.close_accounting_period find_row update_rows
    period_from_db ◌>>=◌
draft_stays = refl

close_accounting_period-unpostable_example :
    (x : Error) × ((post_journal_entry 7 20 9 closing.1).0 ≡ err x)
close_accounting_period-unpostable_example =
    close_accounting_period-unpostable 7 5 9 world (period_or_may closing) closing.1 draft_entry 9
      (returned closing closing-ok) draft_stays refl

abbrev today : Time
today = record { month = 24301; offset = 0 }

abbrev long_ago : Time
long_ago = record { month = 12; offset = 0 }

abbrev entries_of : Result Error (List TrialBalanceEntry) × World Tables → List TrialBalanceEntry
entries_of (ok es, w) = es
entries_of (err x, w) = []

abbrev trial : Result Error (List TrialBalanceEntry) × World Tables
trial = get_trial_balance 7 today world

trial-ok : trial ≡ (ok (entries_of trial), trial.1)
unfolding get_trial_balance trial_balance_rows ◌>>=◌
trial-ok = refl

get_trial_balance-every_line_example :
    All (CountsEveryLine books) (entries_of trial) × (trial.1.tables ≡ books)
get_trial_balance-every_line_example = get_trial_balance-every_line 7 today world trial-ok

get_trial_balance-any_date_example :
    get_trial_balance 7 today world ≡ get_trial_balance 7 long_ago world
get_trial_balance-any_date_example = get_trial_balance-any_date 7 today long_ago world
