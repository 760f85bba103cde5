-- ===== src/Ledger/Postgres/Convert.antt =====
-- The conversions of services/ledger/db/postgres.go between the rows and the records of the model.
-- An empty text is NULL in a nullable column, and the other way round.
use thittam.Base.{ℕ, Option, none, some, List, [], ◌∷◌, map}
use thittam.Base.Text.{Text}
use thittam.Ledger.Model.{
  Account, AccountingPeriod, JournalEntry, JournalLine, PartyContact, Party, CostBehavior,
  unclassified,
}
use thittam.Ledger.Tables.{
  AccountRow, PeriodRow, EntryRow, LineRow, PartyRow, ContactRow, CreateJournalEntryParams,
  CreateJournalLineParams,
}

abbrev pub pg_text_from_string : Text → Option Text
pg_text_from_string [] = none
pg_text_from_string (c ∷ s) = some (c ∷ s)

abbrev pub string_from_pg_text : Option Text → Text
string_from_pg_text none = []
string_from_pg_text (some s) = s

-- The two text conversions at the column `cost_behavior`, where the empty text is `unclassified`.
abbrev pub pg_text_from_behavior : CostBehavior → Option CostBehavior
pg_text_from_behavior unclassified = none
pg_text_from_behavior b = some b

abbrev pub behavior_from_pg_text : Option CostBehavior → CostBehavior
behavior_from_pg_text none = unclassified
behavior_from_pg_text (some b) = b

unfoldable pub account_row : Account → AccountRow
account_row a = record {
  id = a.id;
  tenant_id = a.tenant_id;
  code = a.code;
  name = a.name;
  account_type = a.account_type;
  parent_id = a.parent_id;
  is_active = a.is_active;
  bank_name = pg_text_from_string a.bank_name;
  account_last4 = pg_text_from_string a.account_last4;
  bank_currency = pg_text_from_string a.bank_currency;
  cost_behavior = none;
}

unfoldable pub account_from_db : AccountRow → Account
account_from_db r = record {
  id = r.id;
  tenant_id = r.tenant_id;
  code = r.code;
  name = r.name;
  account_type = r.account_type;
  parent_id = r.parent_id;
  is_active = r.is_active;
  bank_name = string_from_pg_text r.bank_name;
  account_last4 = string_from_pg_text r.account_last4;
  bank_currency = string_from_pg_text r.bank_currency;
  cost_behavior = behavior_from_pg_text r.cost_behavior;
}

unfoldable pub period_row : AccountingPeriod → PeriodRow
period_row p = record {
  id = p.id;
  tenant_id = p.tenant_id;
  year = p.year;
  month = p.month;
  status = p.status;
  closed_by = none;
  closed_at = none;
}

unfoldable pub period_from_db : PeriodRow → AccountingPeriod
period_from_db r = record {
  id = r.id;
  tenant_id = r.tenant_id;
  year = r.year;
  month = r.month;
  status = r.status;
  closed_by = r.closed_by;
  closed_at = r.closed_at;
}

unfoldable pub entry_params : JournalEntry → CreateJournalEntryParams
entry_params e = record {
  id = e.id;
  tenant_id = e.tenant_id;
  production_id = e.production_id;
  period_id = e.period_id;
  entry_number = e.entry_number;
  reference = pg_text_from_string e.reference;
  narration = e.narration;
  status = e.status;
}

unfoldable pub line_params : ℕ → JournalLine → CreateJournalLineParams
line_params journal l = record {
  id = l.id;
  journal_id = journal;
  account_id = l.account_id;
  debit_amount = l.debit_amount;
  credit_amount = l.credit_amount;
  description = pg_text_from_string l.description;
  party_id = l.party_id;
}

unfoldable pub journal_line_from_db : LineRow → JournalLine
journal_line_from_db r = record {
  id = r.id;
  journal_id = r.journal_id;
  account_id = r.account_id;
  debit_amount = r.debit_amount;
  credit_amount = r.credit_amount;
  currency = r.currency;
  description = string_from_pg_text r.description;
  party_id = r.party_id;
}

unfoldable pub journal_entry_from_db : EntryRow → List JournalLine → JournalEntry
journal_entry_from_db r lines = record {
  id = r.id;
  tenant_id = r.tenant_id;
  production_id = r.production_id;
  period_id = r.period_id;
  entry_number = r.entry_number;
  reference = string_from_pg_text r.reference;
  narration = r.narration;
  status = r.status;
  lines = lines;
  posted_by = r.posted_by;
  posted_at = r.posted_at;
  created_at = some r.created_at;
}

unfoldable pub contact_from_db : ContactRow → PartyContact
contact_from_db r = record {
  id = r.id;
  party_id = r.party_id;
  name = r.name;
  designation = r.designation;
  email = r.email;
  phone = r.phone;
  is_primary = r.is_primary;
}

unfoldable pub party_from_db : PartyRow → List ContactRow → Party
unfolding contact_from_db
party_from_db r contacts = record {
  id = r.id;
  tenant_id = r.tenant_id;
  name = r.name;
  party_type = r.party_type;
  email = r.email;
  phone = r.phone;
  tax_id = r.tax_id;
  address = r.address;
  default_currency = string_from_pg_text r.default_currency;
  is_active = r.is_active;
  contacts = map contact_from_db contacts;
}
