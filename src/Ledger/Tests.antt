-- ===== src/Ledger/Tests.antt =====
-- Runs of the ledger on the sample books.
pub mod Witnesses
pub mod Reports
pub mod Monthly
use thittam.Base.{ℕ, ◌≡◌, refl, true, false, List, [], ◌∷◌, some, none, ◌≢◌}
use thittam.Base.Rows.{find_row, update_rows, keep_rows, has_row, order_by}
use thittam.Base.Text.{eqb_text, decimal, decimal5}
use thittam.Base.Int.{ℤ, pos, ◌+ℤ◌, int_laws, eqb_ℤ}
use thittam.Base.Action.{Action, World, Result, ok, err, ◌>>=◌, QueryError}
use thittam.Ledger.Model.{
  JournalEntry, EntryStatus, draft, posted, void, Error, period_closed, journal_too_few_lines,
  closed_period,
}
use thittam.Ledger.Tables.{Tables, EntryRow, PeriodRow}
use thittam.Ledger.Queries
use thittam.Ledger.Queries.Accounts
use thittam.Ledger.Postgres
use thittam.Ledger.Postgres.Convert.{
  journal_entry_from_db, journal_line_from_db, period_from_db, account_from_db, party_from_db,
  entry_params, line_params, pg_text_from_string, string_from_pg_text,
}
use thittam.Ledger.Samples.{world, books, payment, draft_entry, april_entry, april}
use thittam.Ledger.Journal.{
  create_journal_entry, post_journal_entry, void_journal_entry, validate_lines, check_party,
  id_or_new, validate_balance, reverse_lines,
}
use thittam.Ledger.Journal.Balance.{sum_where}

abbrev pub Outcome : Type 0
Outcome = Result Error JournalEntry × World Tables

-- The three calls, open for evaluation.
unfoldable pub posting : ℕ → World Tables → Outcome
unfolding post_journal_entry validate_balance ◌>>=◌ Postgres.get_journal_entry
    Postgres.get_period_by_id Postgres.update_journal_status Queries.get_journal_entry
    Queries.list_journal_lines Queries.get_accounting_period Queries.post_journal_entry find_row
    update_rows keep_rows has_row order_by ◌+ℤ◌ eqb_text journal_entry_from_db journal_line_from_db
    period_from_db sum_where
posting id w = post_journal_entry 7 id 9 w

unfoldable pub creating : JournalEntry → World Tables → Outcome
unfolding posting create_journal_entry validate_lines check_party id_or_new
    Postgres.get_account_by_id Postgres.allocate_entry_number Postgres.create_journal_entry
    Postgres.insert_lines Queries.create_journal_entry Queries.create_journal_line
    Queries.next_journal_entry_seq Accounts.get_account account_from_db entry_params line_params
    decimal decimal5
creating je w = create_journal_entry je w

unfoldable pub voiding : ℕ → World Tables → Outcome
unfolding creating void_journal_entry reverse_lines Queries.void_journal_entry
voiding id w = void_journal_entry 7 id 9 w

abbrev pub entry_of : Outcome → JournalEntry
entry_of (ok je, w) = je
entry_of (err x, w) = payment

abbrev statuses : List EntryRow → List EntryStatus
statuses [] = []
statuses (e ∷ es) = e.status ∷ statuses es

abbrev entries_of : Outcome → List EntryStatus
entries_of r = statuses r.1.tables.entries

post_draft : entries_of (posting 20 world) ≡ posted ∷ posted ∷ []
unfolding posting
post_draft = refl

create_two : entries_of (creating payment world) ≡ draft ∷ posted ∷ draft ∷ []
unfolding creating
create_two = refl

void_posted : entries_of (voiding 20 (posting 20 world).1) ≡ void ∷ posted ∷ posted ∷ []
unfolding voiding
void_posted = refl

-- The period of entry 30 is closed: the call fails, and a draft of the reversal stays.
void_closed :
    ((voiding 30 world).0 ≡ err period_closed)
    × (entries_of (voiding 30 world) ≡ draft ∷ posted ∷ draft ∷ [])
unfolding voiding
void_closed = (refl, refl)
