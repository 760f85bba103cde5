-- ===== src/Ledger/Journal/Completes.antt =====
-- PostJournalEntry returns an entry whenever its guards hold and the database answers.
use thittam.Base.{ℕ, ◌≡◌, refl, ap, ◌∙◌, some, List, [], ◌∷◌, map, arith}
use thittam.Base.Int.{eqb_ℤ_refl}
use thittam.Base.Rows.{find_row, find_row-holds}
use thittam.Base.Action.{World, ok, after_call}
use thittam.Base.Runs.{
  Calm, bind-runs, query-runs, pure-runs, lift-runs, raise_if-runs, time_now-runs, modify-runs,
}
use thittam.Ledger.Model.{JournalEntry, draft, posted, open_period}
use thittam.Ledger.Tables.{Tables, EntryRow, PeriodRow}
use thittam.Ledger.Queries.{
  is_entry, is_period, is_entry_in, post_row, one_row, get_journal_entry as select_journal_entry,
  list_journal_lines, get_accounting_period, post_journal_entry as post_entry, returning,
}
use thittam.Ledger.Postgres.{get_journal_entry, get_period_by_id, update_journal_status}
use thittam.Ledger.Postgres.Convert.{journal_entry_from_db, journal_line_from_db, period_from_db}
use thittam.Ledger.Postgres.Reads.{lines_of, is_entry-id}
use thittam.Ledger.Journal.{post_journal_entry, check_draft, is_closed, validate_balance}
use thittam.Ledger.Journal.Balance.{debits, credits, validate_balance-lines_of}

-- What the call finds.
pub record Postable (tenant id : ℕ) (t : Tables) : Type 0 where
  pub row : EntryRow
  pub found : find_row (is_entry id tenant) t.entries ≡ some row
  pub is_draft : row.status ≡ draft
  pub period : PeriodRow
  pub period_found : find_row (is_period row.period_id tenant) t.periods ≡ some period
  pub is_open : period.status ≡ open_period
  pub balanced : debits id t.lines ≡ credits id t.lines

-- A draft that a lookup finds is the one that the update finds.
find_row-in_draft :
    (id tenant : ℕ) (es : List EntryRow) (e : EntryRow)
    → find_row (is_entry id tenant) es ≡ some e
    → e.status ≡ draft
    → find_row (is_entry_in draft id tenant) es ≡ some e
unfolding find_row
find_row-in_draft id tenant [] e h d = absurd (ground arith)
find_row-in_draft id tenant (x ∷ es) e h d = ground (arith, find_row-in_draft id tenant es e)

get_journal_entry-runs :
    (tenant id : ℕ) (w : World Tables) {row : EntryRow}
    → Calm w
    → find_row (is_entry id tenant) w.tables.entries ≡ some row
    → get_journal_entry tenant id w ≡ (
      ok (journal_entry_from_db row (map journal_line_from_db (lines_of row.id tenant w.tables))),
      after_call (after_call w),
    )
unfolding get_journal_entry select_journal_entry list_journal_lines
get_journal_entry-runs tenant id w calm found =
    bind-runs _ _ w (query-runs _ _ w calm (ap (λ o. one_row o w.tables) found))
    ∙ bind-runs _ _ (after_call w) (query-runs _ _ (after_call w) calm refl)
    ∙ pure-runs _ _

get_period_by_id-runs :
    (tenant id : ℕ) (w : World Tables) {p : PeriodRow}
    → Calm w
    → find_row (is_period id tenant) w.tables.periods ≡ some p
    → get_period_by_id tenant id w ≡ (ok (period_from_db p), after_call w)
unfolding get_period_by_id get_accounting_period
get_period_by_id-runs tenant id w calm found =
    bind-runs _ _ w (query-runs _ _ w calm (ap (λ o. one_row o w.tables) found)) ∙ pure-runs _ _

update_journal_status-runs :
    (tenant id by : ℕ) (w : World Tables) {row : EntryRow}
    → Calm w
    → find_row (is_entry id tenant) w.tables.entries ≡ some row
    → row.status ≡ draft
    → (t : Tables) × (update_journal_status tenant id posted by w
        ≡ (ok tt, record (after_call w) { tables = t }))
unfolding update_journal_status post_entry
update_journal_status-runs tenant id by w {row} calm found is_draft =
    let found2 = find_row-in_draft id tenant w.tables.entries row found is_draft in
    (
      _,
      bind-runs _ _ w (
            query-runs _ _ w calm (
              ap
                (returning (is_entry_in draft id tenant) (post_row by (w.env.time w.tick)) w.tables)
                found2))
          ∙ pure-runs _ _,
    )

read_balanced :
    (id tenant : ℕ) (t : Tables) {row : EntryRow}
    → find_row (is_entry id tenant) t.entries ≡ some row
    → debits id t.lines ≡ credits id t.lines
    → validate_balance (map journal_line_from_db (lines_of id tenant t)) ≡ ok tt
read_balanced id tenant t found h =
    validate_balance-lines_of id tenant t found ∙ rw (h, eqb_ℤ_refl (credits id t.lines)) refl

-- When no call of the database fails, PostJournalEntry returns an entry for every stored draft
-- whose period is open and whose stored debits equal its credits.
pub post_journal_entry-completes :
    (tenant id by : ℕ) (w : World Tables)
    → Calm w
    → Postable tenant id w.tables
    → (je : JournalEntry) × (v : World Tables) × (post_journal_entry tenant id by w ≡ (ok je, v))
unfolding post_journal_entry journal_entry_from_db period_from_db
post_journal_entry-completes tenant id by w calm p =
    let here = is_entry-id id tenant p.row (find_row-holds _ w.tables.entries p.found) in
    let w2 = after_call (after_call w) in
    let (t, updated) =
      update_journal_status-runs tenant id by (after_call (after_call w2)) calm p.found
        p.is_draft in
    (
      _,
      _,
      bind-runs _ _ w (get_journal_entry-runs tenant id w calm p.found)
          ∙ bind-runs _ _ w2 (lift-runs _ w2 (ap check_draft p.is_draft))
          ∙ bind-runs _ _ w2 (get_period_by_id-runs tenant p.row.period_id w2 calm p.period_found)
          ∙ bind-runs _ _ (after_call w2)
              (raise_if-runs _ _ (after_call w2) (ap is_closed p.is_open))
          ∙ bind-runs _ _ (after_call w2) (
              lift-runs _ (after_call w2)
                (rw here (read_balanced id tenant w.tables p.found p.balanced)))
          ∙ bind-runs _ _ (after_call w2) (time_now-runs (after_call w2))
          ∙ bind-runs _ _ (after_call (after_call w2)) updated
          ∙ bind-runs _ _ _ (modify-runs _ _)
          ∙ pure-runs _ _,
    )
