-- ===== src/Ledger/Journal/Void.antt =====
-- What VoidJournalEntry has done when it returns an entry.
use thittam.Base.{
  ℕ, ◌≡◌, refl, ap, sym, ◌∙◌, Bool, true, false, List, [], ◌∷◌, ◌++◌, map, some, arith,
  if◌then◌else◌, ◌==◌, ==_refl, ◌&&◌,
}
use thittam.Base.Int.{◌+ℤ◌}
use thittam.Base.Rows.{find_row, has_row, update_rows}
use thittam.Base.Time.{Time}
use thittam.Base.Action.{World, ok, after_call}
use thittam.Base.Inversion.{bind-elim, lift-elim, time_now-elim, pure-ok}
use thittam.Ledger.Model.{JournalEntry, JournalLine, EntryStatus, draft, posted, open_period}
use thittam.Ledger.Tables.{Tables, EntryRow, PeriodRow}
use thittam.Ledger.Queries.{is_entry, is_period, is_entry_in, void_row, post_row, new_entry}
use thittam.Ledger.Postgres.Convert.{journal_entry_from_db, journal_line_from_db, entry_params}
use thittam.Ledger.Postgres.Reads.{get_journal_entry-ok, lines_of}
use thittam.Ledger.Postgres.Writes.{Updated, update_journal_status-void}
use thittam.Ledger.Postgres.Inserts.{stored_lines}
use thittam.Ledger.Journal.{void_journal_entry, check_posted, reverse_lines, reversal_of, announce}
use thittam.Ledger.Journal.Balance.{sum_of, sum_where, of_entry}
use thittam.Ledger.Journal.Create.{Created, create_journal_entry-Created}
use thittam.Ledger.Journal.Post.{Posting, post_journal_entry-Posting}
use thittam.Ledger.Journal.Invariant.{reverse_lines-Keeps}
use thittam.Ledger.Journal.Mirror.{
  Mirrored, reverse_lines-ok, debit_to, credit_to, debits_after, credits_after,
}

pub check_posted-ok : (s : EntryStatus) {a : Unit {0}} → check_posted s ≡ ok a → s ≡ posted
check_posted-ok s h = ground arith

-- The original was posted; every account is debited what the original credited to it and credited
-- what it debited; and the books' entries are the old ones with the reversing entry added and
-- posted, and the original void.
pub record Voiding (tenant id by : ℕ) (t u : Tables) (rev : JournalEntry) : Type 0 where
  pub row : EntryRow
  pub found : find_row (is_entry id tenant) t.entries ≡ some row
  pub was_posted : row.status ≡ posted
  pub debited :
      (a : ℕ)
      → sum_of (debit_to a) u.lines
        ≡ sum_of (debit_to a) t.lines +ℤ sum_where (credit_to a) (of_entry id) t.lines
  pub credited :
      (a : ℕ)
      → sum_of (credit_to a) u.lines
        ≡ sum_of (credit_to a) t.lines +ℤ sum_where (debit_to a) (of_entry id) t.lines
  pub reversal : EntryRow
  pub fresh : has_row (λ e. e.id == reversal.id) t.entries ≡ false
  pub returned_id : rev.id ≡ reversal.id
  pub same_tenant : reversal.tenant_id ≡ tenant
  pub reversal_draft : reversal.status ≡ draft
  pub same_period : reversal.period_id ≡ row.period_id
  pub period : PeriodRow
  pub period_found : find_row (is_period row.period_id tenant) t.periods ≡ some period
  pub period_open : period.status ≡ open_period
  pub at : Time
  pub entries :
      u.entries
      ≡ update_rows (is_entry_in posted id tenant) void_row (
          update_rows
            (is_entry_in draft reversal.id tenant)
            (post_row by at)
            (t.entries ++ reversal ∷ []))

if-same : {A B : Type 0} (f : A → B) (b : Bool) (x y : A) → f x ≡ f y → f (if b then x else y) ≡ f y
if-same f true x y h = h
if-same f false x y h = refl

announce-lines : (je : JournalEntry) (t : Tables) → (announce je t).lines ≡ t.lines
announce-lines je t = if-same (λ x. x.lines) t.publisher _ t refl

pub announce-entries : (je : JournalEntry) (t : Tables) → (announce je t).entries ≡ t.entries
announce-entries je t = if-same (λ x. x.entries) t.publisher _ t refl

find_row-fresh :
    (id tenant : ℕ) (es : List EntryRow) (e : EntryRow)
    → has_row (λ x. x.id == id) es ≡ false
    → is_entry id tenant e ≡ true
    → find_row (is_entry id tenant) (es ++ e ∷ []) ≡ some e
unfolding find_row has_row
find_row-fresh id tenant [] e absent h = ground arith
find_row-fresh id tenant (x ∷ es) e absent h = ground (arith, find_row-fresh id tenant es e)

and_true : {a b : Bool} → a ≡ true → b ≡ true → (a && b) ≡ true
and_true h k = ground arith

eq_to_== : {m n : ℕ} → m ≡ n → (m == n) ≡ true
eq_to_== h = ground arith

pub some-inj : {A : Type 0} {a b : A} → some a ≡ some b → a ≡ b
some-inj h = cc

module _ (tenant id by : ℕ) {t t2 t3 v : Tables} {entry rev : JournalEntry} (je : JournalEntry)
    (lines : List JournalLine) (c : Created (reversal_of tenant je lines) t entry t2)
    (p : Posting tenant entry.id by t2 t3 rev)
    (u : Updated (is_entry_in posted id tenant) void_row t3 v) where
  lines_after : v.lines ≡ t.lines ++ stored_lines entry.id entry.lines
  lines_after =
      ap (λ x. x.lines) u.changed
      ∙ ap (λ x. x.lines) p.changed
      ∙ announce-lines rev _
      ∙ ap (λ x. x.lines) c.changed

  entries_after :
      v.entries
      ≡ update_rows (is_entry_in posted id tenant) void_row (
          update_rows
            (is_entry_in draft entry.id tenant)
            (post_row by p.at)
            (t.entries ++ new_entry (entry_params entry) c.now ∷ []))
  entries_after =
      ap (λ x. x.entries) u.changed
      ∙ ap (λ es. update_rows (is_entry_in posted id tenant) void_row es)
          (ap (λ x. x.entries) p.changed
            ∙ announce-entries rev _
            ∙ ap (λ x. update_rows (is_entry_in draft entry.id tenant) (post_row by p.at) x.entries)
                c.changed)

  new_found : is_entry entry.id tenant (new_entry (entry_params entry) c.now) ≡ true
  unfolding entry_params
  new_found = and_true (==_refl entry.id) (eq_to_== (ap (λ x. x.tenant_id) c.content))

  posted_new : p.row ≡ new_entry (entry_params entry) c.now
  posted_new = some-inj (
      sym p.found
      ∙ ap (λ x. find_row (is_entry entry.id tenant) x.entries) c.changed
      ∙ find_row-fresh entry.id tenant t.entries (new_entry (entry_params entry) c.now) c.fresh
          new_found)

  posted_period :
      (row : EntryRow)
      → je.period_id ≡ row.period_id
      → find_row (is_period row.period_id tenant) t.periods ≡ some p.period
  unfolding entry_params
  posted_period row same =
      ap (λ k. find_row (is_period k tenant) t.periods)
        (sym (ap (λ x. x.period_id) posted_new ∙ ap (λ x. x.period_id) c.content ∙ same))
      ∙ ap (λ x. find_row (is_period p.row.period_id tenant) x.periods) (sym c.changed)
      ∙ p.period_found

  assemble :
      (row : EntryRow)
      → find_row (is_entry id tenant) t.entries ≡ some row
      → row.status ≡ posted
      → je ≡ journal_entry_from_db row (map journal_line_from_db (lines_of id tenant t))
      → Mirrored je.lines lines
      → Voiding tenant id by t v rev
  unfolding journal_entry_from_db entry_params
  assemble row found was_posted is_row mirrored = record {
    row = row;
    found = found;
    was_posted = was_posted;
    debited = λ a. rw lines_after (
        debits_after id tenant t found a entry.id lines entry.lines (rw is_row at mirrored)
          c.lines);
    credited = λ a. rw lines_after (
        credits_after id tenant t found a entry.id lines entry.lines (rw is_row at mirrored)
          c.lines);
    reversal = new_entry (entry_params entry) c.now;
    fresh = c.fresh;
    returned_id = p.same_id;
    same_tenant = ap (λ x. x.tenant_id) c.content;
    reversal_draft = ap (λ x. x.status) c.content;
    same_period = ap (λ x. x.period_id) c.content ∙ ap (λ x. x.period_id) is_row;
    period = p.period;
    period_found = posted_period row (ap (λ x. x.period_id) is_row);
    period_open = p.period_open;
    at = p.at;
    entries = entries_after;
  }

at_end-Voiding :
    (tenant id by : ℕ) {t : Tables} {v w : World Tables} {rev done : JournalEntry}
    → done ≡ rev
    → v ≡ w
    → Voiding tenant id by t w.tables rev
    → Voiding tenant id by t v.tables done
at_end-Voiding tenant id by e1 e2 h = rw (e1, e2) h

unchanged :
    (ls : List JournalLine) (w : World Tables) {ms : List JournalLine} {v : World Tables}
    → reverse_lines ls w ≡ (ok ms, v)
    → v.tables ≡ w.tables
unchanged ls w e =
    rw (sym (ap (λ r. r.1.tables) e)) ((reverse_lines-Keeps (λ t. t ≡ w.tables) ls).apply w refl)

pub Created-from :
    {je entry : JournalEntry} {t t1 t2 u : Tables}
    → t2 ≡ t1
    → t1 ≡ t
    → Created je t2 entry u
    → Created je t entry u
Created-from e1 e2 c = rw (e1, e2) at c

-- When VoidJournalEntry returns an entry: the original was posted and its period open; each
-- account has been debited what the original credits to it and credited what the original debits
-- to it, over all its lines; one reversing entry of the tenant with a new identifier was added
-- to the entries, for the same period, and posted, it is the one returned, the original was made
-- void, and no other entry changed.
pub void_journal_entry-Voiding :
    (tenant id by : ℕ) (w : World Tables) {rev : JournalEntry} {v : World Tables}
    → void_journal_entry tenant id by w ≡ (ok rev, v)
    → Voiding tenant id by w.tables v.tables rev
unfolding void_journal_entry journal_entry_from_db
void_journal_entry-Voiding tenant id by w e = bind-elim _ w _ e λ je w1 got e1.
    lift-elim _ w1 _ e1 λ _ was_posted e2. bind-elim _ w1 _ e2 λ lines w2 mirrored e3.
      bind-elim _ w2 _ e3 λ entry w3 created e4. bind-elim _ w3 _ e4 λ reversed w4 posting e5.
        time_now-elim w4 _ e5 λ e6. bind-elim _ (after_call w4) _ e6 λ _ w5 voided e7.
          let (is_done, same) = pure-ok _ w5 e7 in
          let (row, found, is_row, unread) = get_journal_entry-ok tenant id w got in
          let reading = unchanged je.lines w1 mirrored in
          at_end-Voiding tenant id by is_done same (
            assemble tenant id by je lines
              (Created-from reading unread (create_journal_entry-Created _ w2 created))
              (post_journal_entry-Posting tenant entry.id by w3 posting)
              (update_journal_status-void tenant id by (after_call w4) voided) row found
              (check_posted-ok row.status (rw is_row at was_posted)) is_row
              (reverse_lines-ok je.lines w1 mirrored))
