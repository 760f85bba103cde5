-- ===== src/Ledger/Postgres/Reads.antt =====
-- What the repository's lookups return, and that they leave the tables alone.
use thittam.Base.{ℕ, ◌≡◌, ap, Option, none, some, List, map, leb, true, arith}
use thittam.Base.Rows.{find_row, find_row-holds, keep_rows, order_by}
use thittam.Base.Action.{World, ok}
use thittam.Base.Inversion.{bind-ok, pure-ok, mapped_query-ok}
use thittam.Ledger.Model.{AccountingPeriod, JournalEntry}
use thittam.Ledger.Tables.{Tables, EntryRow, LineRow, PeriodRow}
use thittam.Ledger.Queries.{
  one_row, is_entry, is_period, line_of, get_accounting_period,
  get_journal_entry as select_journal_entry, list_journal_lines,
}
use thittam.Ledger.Postgres.{get_journal_entry, get_period_by_id}
use thittam.Ledger.Postgres.Convert.{journal_entry_from_db, journal_line_from_db, period_from_db}

pub one_row-ok :
    {A : Type 0} (o : Option A) (t : Tables) {a : A} {u : Tables}
    → one_row o t ≡ ok (a, u)
    → (o ≡ some a) × (u ≡ t)
one_row-ok none t e = ground arith
one_row-ok (some x) t e = ground arith

-- The rows of an entry's lines, in the order of the query.
abbrev pub lines_of : ℕ → ℕ → Tables → List LineRow
lines_of journal tenant t =
    order_by (λ k l. leb k.id l.id) (keep_rows (line_of journal tenant t) t.lines)

pub is_entry-id : (id tenant : ℕ) (e : EntryRow) → is_entry id tenant e ≡ true → e.id ≡ id
is_entry-id id tenant e h = ground arith

pub get_journal_entry-ok :
    (tenant id : ℕ) (w : World Tables) {je : JournalEntry} {v : World Tables}
    → get_journal_entry tenant id w ≡ (ok je, v)
    → (row : EntryRow) × (find_row (is_entry id tenant) w.tables.entries ≡ some row)
      × (je ≡ journal_entry_from_db row (map journal_line_from_db (lines_of id tenant w.tables)))
      × (v.tables ≡ w.tables)
unfolding get_journal_entry select_journal_entry list_journal_lines
get_journal_entry-ok tenant id w e =
    let (row, u, p, q) = bind-ok _ _ w e in
    let (rows, v, r, s) = bind-ok _ _ u q in
    let (t, found, here) = mapped_query-ok _ _ w p in
    let (t', listed, there) = mapped_query-ok _ _ u r in
    let (row_found, same) = one_row-ok _ w.tables found in
    let (result, same_world) = pure-ok _ v s in
    let here = is_entry-id id tenant row (find_row-holds _ w.tables.entries row_found) in
    (row, row_found, ground (arith, ap (λ k. lines_of k tenant w.tables) here), ground arith)

pub get_period_by_id-ok :
    (tenant id : ℕ) (w : World Tables) {p : AccountingPeriod} {v : World Tables}
    → get_period_by_id tenant id w ≡ (ok p, v)
    → (row : PeriodRow) × (find_row (is_period id tenant) w.tables.periods ≡ some row)
      × (p ≡ period_from_db row)
      × (v.tables ≡ w.tables)
unfolding get_period_by_id get_accounting_period
get_period_by_id-ok tenant id w e =
    let (row, u, p, q) = bind-ok _ _ w e in
    let (t, found, here) = mapped_query-ok _ _ w p in
    let (row_found, same) = one_row-ok _ w.tables found in
    let (result, same_world) = pure-ok _ u q in (row, row_found, ground arith, ground arith)
