-- ===== src/Ledger/Journal/Post.antt =====
-- What PostJournalEntry does when it returns an entry.
use thittam.Base.{ℕ, ◌≡◌, ap, ◌∙◌, Bool, false, some, map, arith, eq_of_==}
use thittam.Base.Rows.{find_row, find_row-holds, update_rows}
use thittam.Base.Time.{Time}
use thittam.Base.Action.{World, ok, after_call}
use thittam.Base.Inversion.{
  bind-elim, lift-elim, raise_if-elim, time_now-elim, modify-elim, pure-ok,
}
use thittam.Ledger.Model.{
  JournalEntry, AccountingPeriod, EntryStatus, draft, PeriodStatus, open_period,
}
use thittam.Ledger.Tables.{Tables, EntryRow, PeriodRow}
use thittam.Ledger.Queries.{is_entry, is_period, is_entry_in, post_row}
use thittam.Ledger.Postgres.Reads.{lines_of, get_journal_entry-ok, get_period_by_id-ok}
use thittam.Ledger.Postgres.Writes.{update_journal_status-posted}
use thittam.Ledger.Postgres.Convert.{journal_line_from_db, journal_entry_from_db, period_from_db}
use thittam.Ledger.Journal.{post_journal_entry, check_draft, is_closed, announce, validate_balance}
use thittam.Ledger.Journal.Balance.{debits, credits, validate_balance-ok}

check_draft-ok : (s : EntryStatus) {a : Unit {0}} → check_draft s ≡ ok a → s ≡ draft
check_draft-ok s h = ground arith

is_closed-false : (s : PeriodStatus) → is_closed s ≡ false → s ≡ open_period
is_closed-false s h = ground arith

-- What each guard of the function says of the rows that the repository read.
module _ (tenant id : ℕ) (t : Tables) {row : EntryRow} {je : JournalEntry}
    (found : find_row (is_entry id tenant) t.entries ≡ some row)
    (is_row : je
      ≡ journal_entry_from_db row (map journal_line_from_db (lines_of id tenant t))) where
  read_draft : {a : Unit {0}} → check_draft je.status ≡ ok a → row.status ≡ draft
  unfolding journal_entry_from_db
  read_draft h = check_draft-ok row.status (rw is_row at h)

  read_id : je.id ≡ id
  unfolding journal_entry_from_db
  read_id =
      let hit = find_row-holds (is_entry id tenant) t.entries found in
      ap (λ x. x.id) is_row ∙ eq_of_== row.id id (ground arith)

  read_balance :
      {a : Unit {0}} → validate_balance je.lines ≡ ok a → debits id t.lines ≡ credits id t.lines
  unfolding journal_entry_from_db
  read_balance h = validate_balance-ok id tenant t found (rw is_row at h)

  read_period :
      {t1 : Tables} {p : PeriodRow}
      → t1 ≡ t
      → find_row (is_period je.period_id tenant) t1.periods ≡ some p
      → find_row (is_period row.period_id tenant) t.periods ≡ some p
  unfolding journal_entry_from_db
  read_period same h = rw same at (rw is_row at h)

one_change :
    (p : EntryRow → Bool) (f : EntryRow → EntryRow) {je done : JournalEntry} {t t2 t3 v : Tables}
    → je ≡ done
    → v ≡ announce done t3
    → t3 ≡ record t2 { entries = update_rows p f t2.entries }
    → t2 ≡ t
    → v ≡ announce je (record t { entries = update_rows p f t.entries })
one_change p f e1 e2 e3 e4 = rw (e2, e3, e4, e1)

read_open :
    (p : PeriodRow) {period : AccountingPeriod}
    → period ≡ period_from_db p
    → is_closed period.status ≡ false
    → p.status ≡ open_period
unfolding period_from_db
read_open p is_p h = is_closed-false p.status (rw is_p at h)

-- The guards that held, and the one change that was made.
pub record Posting (tenant id by : ℕ) (t u : Tables) (je : JournalEntry) : Type 0 where
  pub row : EntryRow
  pub found : find_row (is_entry id tenant) t.entries ≡ some row
  pub same_id : je.id ≡ id
  pub was_draft : row.status ≡ draft
  pub period : PeriodRow
  pub period_found : find_row (is_period row.period_id tenant) t.periods ≡ some period
  pub period_open : period.status ≡ open_period
  pub balanced : debits id t.lines ≡ credits id t.lines
  pub at : Time
  pub changed :
      u
      ≡ announce je (record t {
        entries = update_rows (is_entry_in draft id tenant) (post_row by at) t.entries;
      })

-- When PostJournalEntry returns an entry, it is the one that was asked for, the stored entry was
-- a draft, its period was open, its stored debits equalled its credits, and the tables have
-- changed by nothing but its status, poster and time of posting and, where there is a publisher,
-- one published event.
pub post_journal_entry-Posting :
    (tenant id by : ℕ) (w : World Tables) {je : JournalEntry} {v : World Tables}
    → post_journal_entry tenant id by w ≡ (ok je, v)
    → Posting tenant id by w.tables v.tables je
unfolding post_journal_entry
post_journal_entry-Posting tenant id by w e = bind-elim _ w _ e λ je w1 got e1.
    lift-elim _ w1 _ e1 λ _ drafted e2. bind-elim _ w1 _ e2 λ period w2 got_period e3.
      raise_if-elim w2 _ _ _ e3 λ opened e4. lift-elim _ w2 _ e4 λ _ balanced e5.
        time_now-elim w2 _ e5 λ e6. bind-elim _ (after_call w2) _ e6 λ _ w3 updated e7.
          modify-elim w3 _ _ e7 λ e8.
            let (row, found, is_row, same) = get_journal_entry-ok tenant id w got in
            let (p, p_found, is_p, same2) = get_period_by_id-ok tenant je.period_id w1 got_period in
            let (at, u) = update_journal_status-posted tenant id by (after_call w2) updated in
            let (is_done, at_end) = pure-ok _ _ e8 in
            record {
              row = row;
              found = found;
              same_id = ap (λ x. x.id) is_done ∙ read_id tenant id w.tables found is_row;
              was_draft = read_draft tenant id w.tables found is_row drafted;
              period = p;
              period_found = read_period tenant id w.tables found is_row same p_found;
              period_open = read_open p is_p opened;
              balanced = read_balance tenant id w.tables found is_row balanced;
              at = at;
              changed = one_change _ _ is_done (ap (λ x. x.tables) at_end) u.changed (same2 ∙ same);
            }
