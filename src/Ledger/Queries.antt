-- ===== src/Ledger/Queries.antt =====
-- services/ledger/db/queries.sql.go: the statements about the journal, and the constraints of
-- migrations/ledger that they meet. A statement that returns one row gives `no_rows` when there
-- is none, also after ON CONFLICT DO NOTHING.
pub mod Accounts
use thittam.Base.{
  ℕ, suc, ◌≡◌, Bool, true, false, ◌&&◌, ◌||◌, Option, none, some, List, [], ◌∷◌, ◌++◌, ltb, leb,
  ◌==◌, if◌then◌else◌,
}
use thittam.Base.Int.{ℤ, is_positive, is_zero, pos_part, neg_part}
use thittam.Base.Rows.{find_row, has_row, keep_rows, update_rows, order_by}
use thittam.Base.Text.{Text, text, eqb_text}
use thittam.Base.Time.{Time}
use thittam.Base.Action.{
  Statement, Result, ok, err, QueryError, no_rows, unique_violation, query_failed,
}
use thittam.Ledger.Model.{
  PeriodStatus, open_period, closed_period, EntryStatus, draft, posted, void,
}
use thittam.Ledger.Tables.{
  Tables, PeriodRow, EntryRow, CounterRow, LineRow, CreateJournalEntryParams,
  CreateJournalLineParams,
}

abbrev pub one_row : {A : Type 0} → Option A → Tables → Result QueryError (A × Tables)
one_row none t = err no_rows
one_row (some a) t = ok (a, t)

abbrev pub is_status : EntryStatus → EntryStatus → Bool
is_status draft draft = true
is_status posted posted = true
is_status void void = true
is_status _ _ = false

-- WHERE id = $1 AND tenant_id = $2
abbrev pub is_period : ℕ → ℕ → PeriodRow → Bool
is_period id tenant p = p.id == id && p.tenant_id == tenant

abbrev pub is_entry : ℕ → ℕ → EntryRow → Bool
is_entry id tenant e = e.id == id && e.tenant_id == tenant

unfoldable pub get_accounting_period : ℕ → ℕ → Statement Tables PeriodRow
get_accounting_period id tenant now t = one_row (find_row (is_period id tenant) t.periods) t

abbrev pub close_row : ℕ → Time → PeriodRow → PeriodRow
close_row by now p = record p { status = closed_period; closed_at = some now; closed_by = some by }

unfoldable pub close_accounting_period : ℕ → ℕ → ℕ → Statement Tables PeriodRow
close_accounting_period id tenant by now t = one_row (find_row (is_period id tenant) periods) closed
  where
    periods : List PeriodRow
    periods = update_rows (is_period id tenant) (close_row by now) t.periods

    closed : Tables
    closed = record t { periods = periods }

abbrev same_month : PeriodRow → PeriodRow → Bool
same_month p q = p.tenant_id == q.tenant_id && (p.year == q.year && p.month == q.month)

-- The CHECK constraints of the table.
abbrev is_calendar_month : PeriodRow → Bool
is_calendar_month p = leb 2000 p.year && (leb 1 p.month && leb p.month 12)

unfoldable pub create_accounting_period : PeriodRow → Statement Tables PeriodRow
create_accounting_period p now t =
    if not_month
    then err query_failed
    else if has_row (λ q. q.id == p.id) t.periods
    then err no_rows
    else if has_row (same_month p) t.periods
    then err unique_violation
    else ok (p, record t { periods = t.periods ++ p ∷ [] })
  where
    not_month : Bool
    not_month = if is_calendar_month p then false else true

abbrev newest_first : PeriodRow → PeriodRow → Bool
newest_first p q = ltb q.year p.year || (p.year == q.year && leb q.month p.month)

unfoldable pub list_accounting_periods : ℕ → Statement Tables (List PeriodRow)
list_accounting_periods tenant now t =
    ok (order_by newest_first (keep_rows (λ p. p.tenant_id == tenant) t.periods), t)

unfoldable pub get_journal_entry : ℕ → ℕ → Statement Tables EntryRow
get_journal_entry id tenant now t = one_row (find_row (is_entry id tenant) t.entries) t

abbrev pub new_entry : CreateJournalEntryParams → Time → EntryRow
new_entry a now = record {
  id = a.id;
  tenant_id = a.tenant_id;
  production_id = a.production_id;
  period_id = a.period_id;
  entry_number = a.entry_number;
  reference = a.reference;
  narration = a.narration;
  status = a.status;
  posted_by = none;
  posted_at = none;
  created_at = now;
}

unfoldable pub create_journal_entry : CreateJournalEntryParams → Statement Tables EntryRow
create_journal_entry a now t =
    if has_row (λ e. e.id == a.id) t.entries
    then err no_rows
    else if has_row (λ e. eqb_text e.entry_number a.entry_number) t.entries
    then err unique_violation
    else if has_row (λ p. p.id == a.period_id) t.periods
    then ok (new_entry a now, record t { entries = t.entries ++ new_entry a now ∷ [] })
    else err query_failed

-- The constraint dr_or_cr, and the range of NUMERIC(14,2).
abbrev pub debit_or_credit : ℤ → ℤ → Bool
debit_or_credit debit credit =
    (is_positive debit && is_zero credit) || (is_positive credit && is_zero debit)

abbrev pub numeric_fits : ℤ → Bool
numeric_fits a = ltb (pos_part a) 100000000000000 && ltb (neg_part a) 100000000000000

abbrev pub line_checks : CreateJournalLineParams → Bool
line_checks a =
    debit_or_credit a.debit_amount a.credit_amount
    && (numeric_fits a.debit_amount && numeric_fits a.credit_amount)

abbrev party_exists : Tables → Option ℕ → Bool
party_exists t none = true
party_exists t (some id) = has_row (λ p. p.id == id) t.parties

abbrev pub references_exist : CreateJournalLineParams → Tables → Bool
references_exist a t =
    has_row (λ e. e.id == a.journal_id) t.entries
    && (has_row (λ x. x.id == a.account_id) t.accounts && party_exists t a.party_id)

-- The currency is not among the columns of the insert, so the row gets the default of the table.
abbrev pub new_line : CreateJournalLineParams → LineRow
new_line a = record {
  id = a.id;
  journal_id = a.journal_id;
  account_id = a.account_id;
  debit_amount = a.debit_amount;
  credit_amount = a.credit_amount;
  currency = text "INR";
  description = a.description;
  party_id = a.party_id;
}

unfoldable pub create_journal_line : CreateJournalLineParams → Statement Tables LineRow
create_journal_line a now t =
    if line_checks a
    then if has_row (λ l. l.id == a.id) t.lines
      then err no_rows
      else if references_exist a t
      then ok (new_line a, record t { lines = t.lines ++ new_line a ∷ [] })
      else err query_failed
    else err query_failed

abbrev pub line_of : ℕ → ℕ → Tables → LineRow → Bool
line_of journal tenant t l =
    l.journal_id == journal && has_row (is_entry l.journal_id tenant) t.entries

unfoldable pub list_journal_lines : ℕ → ℕ → Statement Tables (List LineRow)
list_journal_lines journal tenant now t =
    ok (order_by (λ k l. leb k.id l.id) (keep_rows (line_of journal tenant t) t.lines), t)

abbrev pub is_entry_in : EntryStatus → ℕ → ℕ → EntryRow → Bool
is_entry_in s id tenant e = is_entry id tenant e && is_status e.status s

abbrev pub post_row : ℕ → Time → EntryRow → EntryRow
post_row by now e = record e { status = posted; posted_by = some by; posted_at = some now }

abbrev pub void_row : EntryRow → EntryRow
void_row e = record e { status = void }

-- UPDATE … RETURNING for the rows that the WHERE clause selects.
abbrev pub returning :
    (EntryRow → Bool)
    → (EntryRow → EntryRow)
    → Tables
    → Option EntryRow
    → Result QueryError (EntryRow × Tables)
returning p f t none = err no_rows
returning p f t (some e) = ok (f e, record t { entries = update_rows p f t.entries })

abbrev pub update_entries :
    (EntryRow → Bool) → (EntryRow → EntryRow) → Tables → Result QueryError (EntryRow × Tables)
update_entries p f t = returning p f t (find_row p t.entries)

unfoldable pub post_journal_entry : ℕ → ℕ → ℕ → Statement Tables EntryRow
post_journal_entry id tenant by now t =
    update_entries (is_entry_in draft id tenant) (post_row by now) t

unfoldable pub void_journal_entry : ℕ → ℕ → Statement Tables EntryRow
void_journal_entry id tenant now t = update_entries (is_entry_in posted id tenant) void_row t

abbrev pub is_counter : ℕ → ℕ → CounterRow → Bool
is_counter tenant year c = c.tenant_id == tenant && c.year == year

abbrev pub first_counter : ℕ → ℕ → CounterRow
first_counter tenant year = record { tenant_id = tenant; year = year; next_seq = 1 }

abbrev pub bumped : CounterRow → CounterRow
bumped c = record c { next_seq = suc c.next_seq }

abbrev pub take_seq : ℕ → ℕ → Tables → Option CounterRow → Result QueryError (ℕ × Tables)
take_seq tenant year t none =
    ok (1, record t { counters = t.counters ++ first_counter tenant year ∷ [] })
take_seq tenant year t (some c) =
    ok (
      suc c.next_seq,
      record t { counters = update_rows (is_counter tenant year) bumped t.counters },
    )

-- INSERT … ON CONFLICT DO UPDATE SET next_seq = next_seq + 1, RETURNING the new value.
unfoldable pub next_journal_entry_seq : ℕ → ℕ → Statement Tables ℕ
next_journal_entry_seq tenant year now t =
    take_seq tenant year t (find_row (is_counter tenant year) t.counters)
