-- ===== src/Ledger/Samples.antt =====
-- A small set of books: two accounts, an open and a closed month, and a draft of two lines.
use thittam.Base.{ℕ, true, false, [], ◌∷◌, none, ◌+◌}
use thittam.Base.Int.{pos}
use thittam.Base.Text.{Text, text, decimal}
use thittam.Base.Action.{Env, World}
use thittam.Ledger.Model.{
  JournalEntry, JournalLine, AccountType, asset, expense, open_period, closed_period, EntryStatus,
  draft, posted,
}
use thittam.Ledger.Tables.{Tables, AccountRow, PeriodRow, EntryRow, LineRow}

-- No call fails.
abbrev pub env : Env
env = record {
  uuid = λ n. 100 + n;
  time = λ n. record { month = 24301; offset = n };
  fails = λ n. false;
}

abbrev account : ℕ → Text → AccountType → AccountRow
account id code kind = record {
  id = id;
  tenant_id = 7;
  code = code;
  name = code;
  account_type = kind;
  parent_id = none;
  is_active = true;
  bank_name = none;
  account_last4 = none;
  bank_currency = none;
  cost_behavior = none;
}

abbrev pub may : PeriodRow
may = record {
  id = 5;
  tenant_id = 7;
  year = 2025;
  month = 5;
  status = open_period;
  closed_by = none;
  closed_at = none;
}

abbrev pub april : PeriodRow
april = record may { id = 4; month = 4; status = closed_period }

abbrev pub entry : ℕ → ℕ → EntryStatus → EntryRow
entry id period status = record {
  id = id;
  tenant_id = 7;
  production_id = none;
  period_id = period;
  entry_number = decimal id;
  reference = none;
  narration = text "rent";
  status = status;
  posted_by = none;
  posted_at = none;
  created_at = record { month = 24300; offset = 0 };
}

abbrev pub row : ℕ → ℕ → ℕ → ℕ → ℕ → LineRow
row id journal account debit credit = record {
  id = id;
  journal_id = journal;
  account_id = account;
  debit_amount = pos debit;
  credit_amount = pos credit;
  currency = text "INR";
  description = none;
  party_id = none;
}

abbrev pub draft_entry : EntryRow
draft_entry = entry 20 5 draft

abbrev pub april_entry : EntryRow
april_entry = entry 30 4 posted

-- Entry 20 is a draft of May, and entry 30 was posted in April, which is closed since.
abbrev pub books : Tables
books = record {
  accounts = account 1 (text "1010") asset ∷ account 2 (text "5010") expense ∷ [];
  periods = april ∷ may ∷ [];
  entries = draft_entry ∷ april_entry ∷ [];
  counters = [];
  lines = row 21 20 2 500 0 ∷ row 22 20 1 0 500 ∷ row 31 30 2 900 0 ∷ row 32 30 1 0 900 ∷ [];
  parties = [];
  contacts = [];
  publisher = true;
  published = [];
}

abbrev pub world : World Tables
world = record { env = env; tick = 0; tables = books }

abbrev line : ℕ → ℕ → ℕ → JournalLine
line account debit credit = record {
  id = 0;
  journal_id = 0;
  account_id = account;
  debit_amount = pos debit;
  credit_amount = pos credit;
  currency = [];
  description = [];
  party_id = none;
}

-- A request with the identifiers left to the service.
abbrev pub payment : JournalEntry
payment = record {
  id = 0;
  tenant_id = 7;
  production_id = none;
  period_id = 5;
  entry_number = [];
  reference = [];
  narration = text "paint";
  status = draft;
  lines = line 2 70 0 ∷ line 1 0 70 ∷ [];
  posted_by = none;
  posted_at = none;
  created_at = none;
}
