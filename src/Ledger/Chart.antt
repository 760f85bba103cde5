-- ===== src/Ledger/Chart.antt =====
-- services/ledger/service.go and bank_account.go: the chart of accounts and the periods of the
-- service.
pub mod BankCodes
pub mod Codes
pub mod Periods
pub mod Seeding
use thittam.Base.{
  ℕ, zero, suc, Bool, true, false, not, ◌&&◌, ◌+◌, Option, none, some, List, [], ◌∷◌, ◌++◌, length,
  ltb, leb, ◌==◌, if◌then◌else◌,
}
use thittam.Base.Text.{Text, text, decimal}
use thittam.Base.Strings.{
  trim_space, byte_length, to_upper, without, is_digit, is_upper, every, last_of,
}
use thittam.Base.Action.{
  Result, ok, err, ◌>>=◌, ◌>>◌, pure, raise, raise_if, attempt, lift, new_uuid, time_now,
}
use thittam.Ledger.Model.{
  Account, AccountType, asset, liability, equity, revenue, expense, other_type, CostBehavior,
  unclassified, fixed, variable, other_behavior, AccountingPeriod, PeriodStatus, open_period,
  closed_period, Error, account_code_exists, invalid_account_type, bank_name_invalid,
  account_number_invalid, bank_currency_invalid, no_bank_code_available, period_already_exists,
  cost_behavior_invalid, cost_behavior_not_expense,
}
use thittam.Ledger.Postgres.{
  Repo, get_account_by_code, get_account_by_id, next_bank_account_code, create_period,
  get_period_by_id, close_period,
}
use thittam.Ledger.Postgres
use thittam.Ledger.Journal.{id_or_new, is_closed}

abbrev pub is_valid_account_type : AccountType → Bool
is_valid_account_type (other_type s) = false
is_valid_account_type _ = true

unfoldable pub create_account : Account → Repo Account
create_account account = do
  raise_if (not (is_valid_account_type account.account_type)) invalid_account_type
  id ← id_or_new account.id
  Postgres.create_account (record account { id = id; is_active = true })

-- pkg/vertical/types.go: one account of a vertical's chart.
pub record ChartOfAccountEntry : Type 0 where
  pub code : Text
  pub name : Text
  pub account_type : AccountType
  pub parent_code : Option Text

unfoldable pub resolve_parent : ℕ → Option Text → Repo (Option ℕ)
resolve_parent tenant none = pure none
resolve_parent tenant (some code) = do
  parent ← get_account_by_code tenant code
  pure (some parent.id)

abbrev pub seeded_account : ℕ → ℕ → Option ℕ → ChartOfAccountEntry → Account
seeded_account tenant id parent e = record {
  id = id;
  tenant_id = tenant;
  code = e.code;
  name = e.name;
  account_type = e.account_type;
  parent_id = parent;
  is_active = true;
  bank_name = [];
  account_last4 = [];
  cost_behavior = unclassified;
  bank_currency = [];
}

-- `continue` after ErrAccountCodeExists.
abbrev pub skip_existing : Result Error Account → Result Error (Unit {0})
skip_existing (ok a) = ok tt
skip_existing (err account_code_exists) = ok tt
skip_existing (err x) = err x

unfoldable pub seed_chart_of_accounts : ℕ → List ChartOfAccountEntry → Repo (Unit {0})
seed_chart_of_accounts tenant [] = pure tt
seed_chart_of_accounts tenant (e ∷ es) = do
  parent ← resolve_parent tenant e.parent_code
  id ← new_uuid
  made ← attempt (Postgres.create_account (seeded_account tenant id parent e))
  lift (skip_existing made)
  seed_chart_of_accounts tenant es

pub record BankAccountInput : Type 0 where
  pub bank_name : Text
  pub account_number : Text
  pub currency : Text

abbrev pub bank_code_min : ℕ
bank_code_min = 1000

abbrev pub bank_code_max : ℕ
bank_code_max = 1999

abbrev pub bank_code_step : ℕ
bank_code_step = 10

abbrev pub next_bank_number : ℕ → ℕ
next_bank_number highest = if ltb 0 highest then highest + bank_code_step else bank_code_min

unfoldable pub next_bank_code : ℕ → Result Error Text
next_bank_code highest =
    if ltb bank_code_max (next_bank_number highest)
    then err no_bank_code_available
    else ok (decimal (next_bank_number highest))

abbrev pub bank_account : ℕ → ℕ → Text → Text → Text → Text → Account
bank_account tenant id code name last4 currency = record {
  id = id;
  tenant_id = tenant;
  code = code;
  name = name ++ (text " (ending " ++ (last4 ++ text ")"));
  account_type = asset;
  parent_id = none;
  is_active = true;
  bank_name = name;
  account_last4 = last4;
  cost_behavior = unclassified;
  bank_currency = currency;
}

-- Whether the loop goes on after an attempt, and with which error it ends.
abbrev pub retried : Result Error Account → Repo Account → Repo Account
retried (ok a) again = pure a
retried (err account_code_exists) again = again
retried (err x) again = raise x

-- The loop, with the attempts left and the last error.
unfoldable pub try_codes : ℕ → Error → ℕ → Text → Text → Text → Repo Account
try_codes zero last tenant name last4 currency = raise last
try_codes (suc left) last tenant name last4 currency = do
  highest ← next_bank_account_code tenant
  code ← lift (next_bank_code highest)
  id ← new_uuid
  made ← attempt (Postgres.create_account (bank_account tenant id code name last4 currency))
  retried made (try_codes left account_code_exists tenant name last4 currency)

abbrev pub bank_digits : BankAccountInput → Text
bank_digits input = without 32 45 input.account_number

abbrev pub bank_currency_code : BankAccountInput → Text
bank_currency_code input = to_upper (trim_space input.currency)

abbrev pub is_bank_name : Text → Bool
is_bank_name name = leb 1 (byte_length name) && leb (byte_length name) 100

unfoldable pub create_bank_account : ℕ → BankAccountInput → Repo Account
create_bank_account tenant input = do
  raise_if (not (is_bank_name (trim_space input.bank_name))) bank_name_invalid
  raise_if (not (leb 4 (length (bank_digits input)) && every is_digit (bank_digits input)))
      account_number_invalid
  raise_if
      (not (length (bank_currency_code input) == 3 && every is_upper (bank_currency_code input)))
      bank_currency_invalid
  try_codes 3 account_code_exists tenant (trim_space input.bank_name)
      (last_of 4 (bank_digits input)) (bank_currency_code input)

abbrev pub is_known_behavior : CostBehavior → Bool
is_known_behavior (other_behavior s) = false
is_known_behavior _ = true

abbrev pub is_expense : AccountType → Bool
is_expense expense = true
is_expense _ = false

unfoldable pub set_account_cost_behavior : ℕ → ℕ → CostBehavior → Repo Account
set_account_cost_behavior tenant id behavior = do
  raise_if (not (is_known_behavior behavior)) cost_behavior_invalid
  account ← get_account_by_id tenant id
  raise_if (not (is_expense account.account_type)) cost_behavior_not_expense
  Postgres.set_account_cost_behavior tenant id behavior

abbrev pub opened_period : ℕ → ℕ → ℕ → ℕ → AccountingPeriod
opened_period tenant id year month = record {
  id = id;
  tenant_id = tenant;
  year = year;
  month = month;
  status = open_period;
  closed_by = none;
  closed_at = none;
}

abbrev pub unless_open : Result Error (Unit {0}) → Result Error (Unit {0})
unless_open (ok u) = ok u
unless_open (err period_already_exists) = ok tt
unless_open (err x) = err x

unfoldable pub open_accounting_period : ℕ → ℕ → ℕ → Repo (Unit {0})
open_accounting_period tenant year month = do
  id ← new_uuid
  made ← attempt (create_period (opened_period tenant id year month))
  lift (unless_open made)

unfoldable pub close_accounting_period : ℕ → ℕ → ℕ → Repo AccountingPeriod
close_accounting_period tenant id by = do
  period ← get_period_by_id tenant id
  if is_closed period.status then pure period else (do
    now ← time_now
    close_period tenant id by
    pure (record period { status = closed_period; closed_by = some by; closed_at = some now }))
