-- ===== src/Ledger/Postgres.antt =====
-- services/ledger/db/postgres.go: the repository, over the statements.
pub mod Convert
pub mod Reads
pub mod Frames
pub mod Writes
pub mod Inserts
use thittam.Base.{
  ℕ, Bool, true, false, Option, none, some, List, [], ◌∷◌, ◌++◌, map, if◌then◌else◌, ◌==◌,
}
use thittam.Base.Text.{Text, text, decimal, decimal5}
use thittam.Base.Action.{
  Action, ◌>>=◌, ◌>>◌, pure, raise, raise_if, map_error, query, transaction, QueryError, no_rows,
  unique_violation, query_failed,
}
use thittam.Ledger.Model.{
  Account, CostBehavior, AccountingPeriod, JournalEntry, JournalLine, PartyContact, Party,
  EntryStatus, draft, posted, void, Error, account_not_found, account_code_exists, period_not_found,
  period_already_exists, journal_not_found, party_not_found, unsupported_status, internal,
}
use thittam.Ledger.Tables.{Tables, PeriodRow, EntryRow}
use thittam.Ledger.Queries.{
  get_accounting_period, close_accounting_period, create_accounting_period, list_accounting_periods,
  get_journal_entry as select_journal_entry, create_journal_entry as insert_journal_entry,
  create_journal_line, list_journal_lines, post_journal_entry, void_journal_entry,
  next_journal_entry_seq,
}
use thittam.Ledger.Queries.Accounts.{
  create_account as insert_account, get_account, get_account_by_code as select_account_by_code,
  next_bank_account_code as select_next_code, set_account_cost_behavior as update_cost_behavior,
  get_party, list_party_contacts,
}
use Convert.{
  pg_text_from_behavior, account_row, account_from_db, period_row, period_from_db, entry_params,
  line_params, journal_entry_from_db, journal_line_from_db, party_from_db,
}

abbrev pub Repo : Type 0 → Type 0
Repo A = Action Tables Error A

-- What a failed statement is reported as: `missing` for pgx.ErrNoRows, `taken` for 23505.
abbrev pub reported : Error → Error → QueryError → Error
reported missing taken no_rows = missing
reported missing taken unique_violation = taken
reported missing taken query_failed = internal

-- Only 23505 becomes ErrAccountCodeExists; pgx.ErrNoRows, which the insert gives where ON CONFLICT
-- DO NOTHING drops the row, is wrapped like any other error.
unfoldable pub create_account : Account → Repo Account
unfolding account_row
create_account a = do
  row ← map_error (reported internal account_code_exists) (query (insert_account (account_row a)))
  raise_if (row.id == 0) account_code_exists
  pure (record a { id = row.id; is_active = row.is_active })

unfoldable pub next_bank_account_code : ℕ → Repo ℕ
next_bank_account_code tenant = map_error (λ _. internal) (query (select_next_code tenant))

-- An empty classification is stored as NULL.
unfoldable pub set_account_cost_behavior : ℕ → ℕ → CostBehavior → Repo Account
unfolding account_from_db
set_account_cost_behavior tenant id behavior = do
  row ←
      map_error (reported account_not_found internal)
        (query (update_cost_behavior id tenant (pg_text_from_behavior behavior)))
  pure (account_from_db row)

unfoldable pub get_account_by_id : ℕ → ℕ → Repo Account
unfolding account_from_db
get_account_by_id tenant id = do
  row ← map_error (reported account_not_found internal) (query (get_account id tenant))
  pure (account_from_db row)

unfoldable pub get_account_by_code : ℕ → Text → Repo Account
unfolding account_from_db
get_account_by_code tenant code = do
  row ← map_error (reported account_not_found internal) (query (select_account_by_code code tenant))
  pure (account_from_db row)

unfoldable pub get_party_by_id : ℕ → ℕ → Repo Party
unfolding party_from_db
get_party_by_id tenant id = do
  row ← map_error (reported party_not_found internal) (query (get_party id tenant))
  contacts ← map_error (λ _. internal) (query (list_party_contacts tenant id))
  pure (party_from_db row contacts)

unfoldable pub create_period : AccountingPeriod → Repo (Unit {0})
unfolding period_row
create_period p = do
  map_error (reported internal period_already_exists)
      (query (create_accounting_period (period_row p)))
  pure tt

unfoldable pub get_period_by_id : ℕ → ℕ → Repo AccountingPeriod
unfolding period_from_db
get_period_by_id tenant id = do
  row ← map_error (reported period_not_found internal) (query (get_accounting_period id tenant))
  pure (period_from_db row)

unfoldable pub list_periods : ℕ → Repo (List AccountingPeriod)
unfolding period_from_db
list_periods tenant = do
  rows ← map_error (λ _. internal) (query (list_accounting_periods tenant))
  pure (map period_from_db rows)

-- The time of closing that the service passes is not used: the statement takes now().
unfoldable pub close_period : ℕ → ℕ → ℕ → Repo (Unit {0})
close_period tenant id by = do
  map_error (reported period_not_found internal) (query (close_accounting_period id tenant by))
  pure tt

abbrev pub entry_number_format : ℕ → ℕ → Text
entry_number_format year seq = text "JE-" ++ (decimal year ++ (text "-" ++ decimal5 seq))

unfoldable pub allocate_entry_number : ℕ → ℕ → Repo Text
allocate_entry_number tenant year = do
  seq ← map_error (λ _. internal) (query (next_journal_entry_seq tenant year))
  pure (entry_number_format year seq)

unfoldable pub insert_lines : ℕ → List JournalLine → Repo (Unit {0})
unfolding line_params
insert_lines journal [] = pure tt
insert_lines journal (l ∷ ls) = do
  map_error (λ _. internal) (query (create_journal_line (line_params journal l)))
  insert_lines journal ls

-- The header and the lines, in one transaction.
unfoldable pub create_journal_entry : JournalEntry → Repo (Unit {0})
unfolding entry_params
create_journal_entry je = transaction internal (do
  map_error (λ _. internal) (query (insert_journal_entry (entry_params je)))
  insert_lines je.id je.lines)

unfoldable pub get_journal_entry : ℕ → ℕ → Repo JournalEntry
unfolding journal_entry_from_db journal_line_from_db
get_journal_entry tenant id = do
  row ← map_error (reported journal_not_found internal) (query (select_journal_entry id tenant))
  rows ← map_error (λ _. internal) (query (list_journal_lines row.id tenant))
  pure (journal_entry_from_db row (map journal_line_from_db rows))

-- The time that the service passes is not used: the statement takes now().
unfoldable pub update_journal_status : ℕ → ℕ → EntryStatus → ℕ → Repo (Unit {0})
update_journal_status tenant id posted actor = do
  map_error (reported journal_not_found internal) (query (post_journal_entry id tenant actor))
  pure tt
update_journal_status tenant id void actor = do
  map_error (reported journal_not_found internal) (query (void_journal_entry id tenant))
  pure tt
update_journal_status tenant id draft actor = raise unsupported_status
