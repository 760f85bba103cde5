-- ===== src/Ledger/Chart/Periods.antt =====
-- What CloseAccountingPeriod does, and what it means for PostJournalEntry.
use thittam.Base.{
  ℕ, ◌≡◌, refl, ap, sym, ◌∙◌, Bool, true, false, some, List, [], ◌∷◌, arith, if◌then◌else◌,
}
use thittam.Base.Rows.{find_row, update_rows}
use thittam.Base.Time.{Time}
use thittam.Base.Action.{World, Result, ok, err, after_call, Action}
use thittam.Base.Inversion.{bind-elim, time_now-elim, pure-ok, mapped_query-ok}
use thittam.Ledger.Model.{
  AccountingPeriod, Error, JournalEntry, PeriodStatus, closed_period, open_period,
}
use thittam.Ledger.Tables.{Tables, PeriodRow, EntryRow}
use thittam.Ledger.Queries.{
  is_period, is_entry, close_row, close_accounting_period as close_period_row,
}
use thittam.Ledger.Postgres.{close_period}
use thittam.Ledger.Postgres.Convert.{period_from_db}
use thittam.Ledger.Postgres.Reads.{get_period_by_id-ok, one_row-ok}
use thittam.Ledger.Journal.{post_journal_entry, is_closed}
use thittam.Ledger.Journal.Post.{post_journal_entry-Posting}
use thittam.Ledger.Journal.Void.{some-inj}
use thittam.Ledger.Chart.{close_accounting_period}

-- The lookup of the period finds a closed one.
abbrev pub IsClosed : ℕ → ℕ → Tables → Type 0
IsClosed tenant id t =
    (row : PeriodRow) × (find_row (is_period id tenant) t.periods ≡ some row)
    × (row.status ≡ closed_period)

is_closed-true : (s : PeriodStatus) → is_closed s ≡ true → s ≡ closed_period
is_closed-true s h = ground arith

find_closed :
    (id tenant by : ℕ) (now : Time) (ps : List PeriodRow) {row : PeriodRow}
    → find_row (is_period id tenant) (update_rows (is_period id tenant) (close_row by now) ps)
      ≡ some row
    → row.status ≡ closed_period
unfolding find_row update_rows
find_closed id tenant by now [] h = absurd (cc)
find_closed id tenant by now (p ∷ ps) {row} h =
    ground (arith, find_closed id tenant by now ps {row = row})

close_period-IsClosed :
    (tenant id by : ℕ) (w : World Tables) {a : Unit {0}} {v : World Tables}
    → close_period tenant id by w ≡ (ok a, v)
    → IsClosed tenant id v.tables
unfolding close_period close_period_row
close_period-IsClosed tenant id by w e = bind-elim _ w _ e λ row u done rest.
    let (t, h, here) = mapped_query-ok _ _ w done in
    let (_, same) = pure-ok _ u rest in
    let (found, closed) = one_row-ok _ _ h in
    (
      row,
      rw (same, here, closed) found,
      find_closed id tenant by (w.env.time w.tick) w.tables.periods found,
    )

if-elim {ℓ} :
    {T A : Type 0} {C : Type ℓ} (b : Bool) (m n : Action T Error A) (w : World T)
    {r : Result Error A × World T}
    → (if b then m else n) w ≡ r
    → (b ≡ true → m w ≡ r → C)
    → (b ≡ false → n w ≡ r → C)
    → C
if-elim true m n w e yes_case no_case = yes_case refl e
if-elim false m n w e yes_case no_case = no_case refl e

IsClosed-already :
    (tenant id : ℕ) {t u v : Tables} {row : PeriodRow} {p : AccountingPeriod}
    → find_row (is_period id tenant) t.periods ≡ some row
    → p ≡ period_from_db row
    → u ≡ t
    → v ≡ u
    → is_closed p.status ≡ true
    → IsClosed tenant id v
unfolding period_from_db
IsClosed-already tenant id {row = row} found is_row same same2 closed =
    (row, rw (same2, same) found, is_closed-true row.status (rw is_row at closed))

pub close_accounting_period-IsClosed :
    (tenant id by : ℕ) (w : World Tables) {p : AccountingPeriod} {v : World Tables}
    → close_accounting_period tenant id by w ≡ (ok p, v)
    → IsClosed tenant id v.tables
unfolding close_accounting_period
close_accounting_period-IsClosed tenant id by w e = bind-elim _ w _ e λ period w1 got e1.
    let (row, found, is_row, same) = get_period_by_id-ok tenant id w got in
    if-elim _ _ _ w1 e1
      (λ closed e2.
        IsClosed-already tenant id found is_row same (ap (λ x. x.tables) ((pure-ok _ w1 e2).1))
          closed)
      (λ opened e2. time_now-elim w1 _ e2 λ e3. bind-elim _ (after_call w1) _ e3 λ _ w2 closing e4.
        rw (pure-ok _ w2 e4).1 (close_period-IsClosed tenant id by (after_call w1) closing))

closed-not_open : (s : PeriodStatus) → s ≡ closed_period → s ≡ open_period → ⊥
closed-not_open s h k = cc

failed_of_never :
    (r : Result Error JournalEntry × World Tables)
    → ((je : JournalEntry) → r ≡ (ok je, r.1) → ⊥)
    → (x : Error) × (r.0 ≡ err x)
failed_of_never (ok je, v) never = absurd (never je refl)
failed_of_never (err x, v) never = (x, refl)

-- After CloseAccountingPeriod has returned a period, PostJournalEntry returns an error for every
-- stored entry of that period.
pub close_accounting_period-unpostable :
    (tenant id by : ℕ) (w : World Tables) (p : AccountingPeriod) (v : World Tables) (row : EntryRow)
    (who : ℕ)
    → close_accounting_period tenant id by w ≡ (ok p, v)
    → find_row (is_entry row.id tenant) v.tables.entries ≡ some row
    → row.period_id ≡ id
    → (x : Error) × ((post_journal_entry tenant row.id who v).0 ≡ err x)
close_accounting_period-unpostable tenant id by w p v row who closing found within =
    failed_of_never _ λ je e.
      let (period, there, closed) = close_accounting_period-IsClosed tenant id by w closing in
      let q = post_journal_entry-Posting tenant row.id who v e in
      let same_row = some-inj (sym q.found ∙ found) in
      let same_period = some-inj (
        sym q.period_found
        ∙ ap (λ k. find_row (is_period k tenant) v.tables.periods)
            (ap (λ r. r.period_id) same_row ∙ within)
        ∙ there) in
      closed-not_open period.status closed (sym (ap (λ r. r.status) same_period) ∙ q.period_open)
