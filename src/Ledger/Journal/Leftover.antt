-- ===== src/Ledger/Journal/Leftover.antt =====
-- What VoidJournalEntry leaves behind when it fails: its steps are not one transaction.
use thittam.Base.{
  ℕ, ◌≡◌, refl, ap, sym, ◌∙◌, Bool, false, ◌&&◌, List, [], ◌∷◌, ◌++◌, map, some, ◌==◌,
  if◌then◌else◌, arith,
}
use thittam.Base.Rows.{find_row, has_row, update_rows, touched, find_row-update_rows}
use thittam.Base.Time.{Time}
use thittam.Base.Action.{World, Result, ok, err, Action, ◌>>=◌, lift, time_now, pure}
use thittam.Base.Inversion.{bind-err_elim}
use thittam.Base.Keeps.{Keeps, Keeps-lift}
use thittam.Ledger.Model.{JournalEntry, JournalLine, Error, EntryStatus, draft, posted, void}
use thittam.Ledger.Tables.{Tables, EntryRow, LineRow, CounterRow}
use thittam.Ledger.Queries.{is_entry, is_entry_in, post_row, new_entry}
use thittam.Ledger.Postgres.Convert.{
  entry_params, line_params, journal_entry_from_db, journal_line_from_db,
}
use thittam.Ledger.Postgres.Frames.{get_journal_entry-Keeps}
use thittam.Ledger.Postgres.Reads.{get_journal_entry-ok, lines_of}
use thittam.Ledger.Postgres.Inserts.{stored_lines}
use thittam.Ledger.Postgres.{get_journal_entry}
use thittam.Ledger.Journal.{void_journal_entry, check_posted, reverse_lines, reversal_of, announce}
use thittam.Ledger.Journal.Atomicity.{but_counters, post_failed, create_failed, update_failed}
use thittam.Ledger.Journal.Balance.{sum_of, sum_where, of_entry}
use thittam.Ledger.Journal.Create.{Created, create_journal_entry-Created}
use thittam.Ledger.Journal.Post.{Posting, post_journal_entry-Posting}
use thittam.Ledger.Journal.Invariant.{reverse_lines-Keeps}
use thittam.Ledger.Journal.Mirror.{
  Mirrored, reverse_lines-ok, debit_to, credit_to, debits_stored, credits_stored,
}
use thittam.Ledger.Journal.Void.{announce-entries, check_posted-ok, Created-from}

-- Every line belongs to the entry.
abbrev pub Own : ℕ → List LineRow → Type 0
Own id [] = Unit
Own id (l ∷ ls) = (l.journal_id ≡ id) × Own id ls

-- A new draft of the tenant whose lines reverse those of the original: each account is debited what
-- the original credits to it, and the other way round. The original is still there, posted.
pub record Reversing (tenant id : ℕ) (t u : Tables) (e : EntryRow) (ls : List LineRow)
    : Type 0 where
  pub row : EntryRow
  pub found : find_row (is_entry id tenant) t.entries ≡ some row
  pub was_posted : row.status ≡ posted
  pub kept : find_row (is_entry id tenant) u.entries ≡ some row
  pub fresh : has_row (λ r. r.id == e.id) t.entries ≡ false
  pub is_draft : e.status ≡ draft
  pub same_tenant : e.tenant_id ≡ tenant
  pub same_period : e.period_id ≡ row.period_id
  pub own : Own e.id ls
  pub debited : (a : ℕ) → sum_of (debit_to a) ls ≡ sum_where (credit_to a) (of_entry id) t.lines
  pub credited : (a : ℕ) → sum_of (credit_to a) ls ≡ sum_where (debit_to a) (of_entry id) t.lines

-- Nothing but a number taken; or a reversing entry that is still a draft; or one that is posted and
-- announced, while its original is not void.
pub data Leftover (tenant id by : ℕ) (t u : Tables) : Type 0 where
  number_taken : but_counters u ≡ but_counters t → Leftover tenant id by t u
  stray_draft :
      (e : EntryRow) (ls : List LineRow) (counters : List CounterRow)
      → Reversing tenant id t u e ls
      → u ≡ record t { entries = t.entries ++ e ∷ []; lines = t.lines ++ ls; counters = counters }
      → Leftover tenant id by t u
  stray_posting :
      (e : EntryRow) (ls : List LineRow) (counters : List CounterRow) (at : Time)
      (event : JournalEntry)
      → event.id ≡ e.id
      → Reversing tenant id t u e ls
      → u
        ≡ announce event (record t {
          entries =
              update_rows (is_entry_in draft e.id tenant) (post_row by at) (t.entries ++ e ∷ []);
          lines = t.lines ++ ls;
          counters = counters;
        })
      → Leftover tenant id by t u

abbrev Unchanging : {A : Type 0} → Action Tables Error A → Type 0
Unchanging m = (t : Tables) → Keeps (λ u. u ≡ t) m

same_tables :
    {A : Type 0} (m : Action Tables Error A) (w : World Tables) {r : Result Error A}
    {v : World Tables}
    → Unchanging m
    → m w ≡ (r, v)
    → v.tables ≡ w.tables
same_tables m w k e = rw (sym (ap (λ r. r.1.tables) e)) ((k w.tables).apply w refl)

reads : (tenant id : ℕ) → Unchanging (get_journal_entry tenant id)
reads tenant id t = get_journal_entry-Keeps _ tenant id

checks : (s : EntryStatus) → Unchanging (lift (check_posted s))
checks s t = Keeps-lift _

mirrors : (ls : List JournalLine) → Unchanging (reverse_lines ls)
mirrors ls t = reverse_lines-Keeps _ ls

lifted :
    {A : Type 0} (r : Result Error A) (w : World Tables) {a : A} {v : World Tables}
    → lift r w ≡ (ok a, v)
    → r ≡ ok a
unfolding ◌>>=◌
lifted r w h = ap (λ p. p.0) h

find_row-append_found :
    (q : EntryRow → Bool) (es fs : List EntryRow) {e : EntryRow}
    → find_row q es ≡ some e
    → find_row q (es ++ fs) ≡ some e
unfolding find_row
find_row-append_found q [] fs h = absurd (cc)
find_row-append_found q (x ∷ es) fs {e} h = ground (arith, find_row-append_found q es fs {e = e})

-- A draft is posted, and not the original.
find_row-posted :
    (tenant id rid by : ℕ) (at : Time) (es : List EntryRow) (row : EntryRow)
    → find_row (is_entry id tenant) es ≡ some row
    → row.status ≡ posted
    → find_row (is_entry id tenant) (update_rows (is_entry_in draft rid tenant) (post_row by at) es)
      ≡ some row
find_row-posted tenant id rid by at es row found was_posted =
    let other : is_entry_in draft rid tenant row ≡ false =
      rw was_posted (and_false (is_entry rid tenant row)) in
    find_row-update_rows (is_entry_in draft rid tenant) (is_entry id tenant) (post_row by at) es
      (λ x. refl)
    ∙ ap (touched (is_entry_in draft rid tenant) (post_row by at)) found
    ∙ ap (λ b. some (if b then post_row by at row else row)) other
  where
    and_false : (b : Bool) → (b && false) ≡ false
    and_false b = ground arith

Own-stored_lines : (id : ℕ) (ls : List JournalLine) → Own id (stored_lines id ls)
unfolding line_params
Own-stored_lines id [] = tt
Own-stored_lines id (l ∷ ls) = (refl, Own-stored_lines id ls)

module _ (tenant id by : ℕ) {t t2 : Tables} {je entry : JournalEntry} {lines : List JournalLine}
    (row : EntryRow) (found : find_row (is_entry id tenant) t.entries ≡ some row)
    (was_posted : row.status ≡ posted)
    (is_row : je ≡ journal_entry_from_db row (map journal_line_from_db (lines_of id tenant t)))
    (mirrored : Mirrored je.lines lines)
    (c : Created (reversal_of tenant je lines) t entry t2) where
  abbrev added : EntryRow
  added = new_entry (entry_params entry) c.now

  stored-Reversing :
      (u : Tables)
      → find_row (is_entry id tenant) u.entries ≡ some row
      → Reversing tenant id t u added (stored_lines entry.id entry.lines)
  unfolding entry_params journal_entry_from_db
  stored-Reversing u kept = record {
    row = row;
    found = found;
    was_posted = was_posted;
    kept = kept;
    fresh = c.fresh;
    is_draft = ap (λ x. x.status) c.content;
    same_tenant = ap (λ x. x.tenant_id) c.content;
    same_period = ap (λ x. x.period_id) c.content ∙ ap (λ x. x.period_id) is_row;
    own = Own-stored_lines entry.id entry.lines;
    debited = λ a.
        debits_stored id tenant t found a entry.id lines entry.lines (rw is_row at mirrored)
          c.lines;
    credited = λ a.
        credits_stored id tenant t found a entry.id lines entry.lines (rw is_row at mirrored)
          c.lines;
  }

  still_there : find_row (is_entry id tenant) (t.entries ++ added ∷ []) ≡ some row
  still_there = find_row-append_found (is_entry id tenant) t.entries (added ∷ []) found

  left_draft : {u : Tables} → u ≡ t2 → Leftover tenant id by t u
  left_draft {u} same =
      let changed = same ∙ c.changed in
      stray_draft added (stored_lines entry.id entry.lines) c.counters
        (stored-Reversing u
          (ap (λ x. find_row (is_entry id tenant) x.entries) changed ∙ still_there))
        changed

  left-Posting :
      {t3 u : Tables} {rev : JournalEntry}
      → u ≡ t3
      → Posting tenant entry.id by t2 t3 rev
      → Leftover tenant id by t u
  unfolding entry_params
  left-Posting {t3} {u} {rev} same p =
      let changed =
        same
        ∙ p.changed
        ∙ ap
            (λ x. announce rev (record x {
              entries =
                  update_rows (is_entry_in draft entry.id tenant) (post_row by p.at) x.entries;
            }))
            c.changed in
      stray_posting added (stored_lines entry.id entry.lines) c.counters p.at rev p.same_id
        (stored-Reversing u (
          ap (λ x. find_row (is_entry id tenant) x.entries) changed
          ∙ ap (find_row (is_entry id tenant)) (announce-entries rev _)
          ∙ find_row-posted tenant id entry.id by p.at (t.entries ++ added ∷ []) row still_there
              was_posted))
        changed

time_now-never : (w : World Tables) {x : Error} {v : World Tables} → time_now w ≡ (err x, v) → ⊥
unfolding ◌>>=◌
time_now-never w e = cc

clock_tables :
    (w : World Tables) {now : Time} {v : World Tables}
    → time_now {E = Error} w ≡ (ok now, v)
    → v.tables ≡ w.tables
unfolding ◌>>=◌
clock_tables w e = ground arith

pure-never :
    {A : Type 0} (a : A) (w : World Tables) {x : Error} {v : World Tables}
    → pure a w ≡ (err x, v)
    → ⊥
unfolding ◌>>=◌
pure-never a w e = cc

no_change : {tenant id by : ℕ} {t u : Tables} → u ≡ t → Leftover tenant id by t u
no_change same = number_taken (ap but_counters same)

-- When VoidJournalEntry fails, at whatever step, it leaves one of three things. Either at most
-- the counters of entry numbers have changed. Or the original was posted and still is, and, but
-- for the counters, the only change is one new draft of the tenant for the period of the
-- original, with its own lines, which debit each account what the original credits to it and
-- credit what the original debits to it. Or the original was posted and still is, and the only
-- further change is that this new entry has been posted and, where there is a publisher, one
-- event with its identifier published.
pub void_journal_entry-Leftover :
    (tenant id by : ℕ) (w : World Tables) {x : Error} {v : World Tables}
    → void_journal_entry tenant id by w ≡ (err x, v)
    → Leftover tenant id by w.tables v.tables
unfolding void_journal_entry journal_entry_from_db
void_journal_entry-Leftover tenant id by w {x} {v} e =
    bind-err_elim _ w _ e (λ e1. no_change (same_tables _ w (reads tenant id) e1))
      λ je w1 got e1.
        let (row, found, is_row, same) = get_journal_entry-ok tenant id w got in
        bind-err_elim _ w1 _ e1 (λ e2. no_change (same_tables _ w1 (checks je.status) e2 ∙ same))
          λ _ w2 checked e2.
            let same2 = same_tables _ w1 (checks je.status) checked ∙ same in
            let was_posted : row.status ≡ posted =
              check_posted-ok row.status (rw is_row at (lifted _ w1 checked)) in
            bind-err_elim _ w2 _ e2
              (λ e3. no_change (same_tables _ w2 (mirrors je.lines) e3 ∙ same2))
              λ lines w3 mirrored e3.
                let same3 = same_tables _ w2 (mirrors je.lines) mirrored in
                bind-err_elim _ w3 _ e3
                  (λ e4. number_taken (create_failed _ w3 e4 ∙ ap but_counters (same3 ∙ same2)))
                  λ entry w4 created e4.
                    let m = reverse_lines-ok je.lines w2 mirrored in
                    let c = Created-from same3 same2 (create_journal_entry-Created _ w3 created) in
                    bind-err_elim _ w4 _ e4
                      (λ e5.
                        left_draft tenant id by row found was_posted is_row m c
                          (post_failed tenant entry.id by w4 e5))
                      λ rev w5 posting e5.
                        let p = post_journal_entry-Posting tenant entry.id by w4 posting in
                        bind-err_elim _ w5 _ e5 (λ e6. absurd (time_now-never w5 e6))
                          λ now w6 clock e6.
                            bind-err_elim _ w6 _ e6
                              (λ e7.
                                left-Posting tenant id by row found was_posted is_row m c
                                  (update_failed tenant id by void w6 e7 ∙ clock_tables w5 clock) p)
                              λ _ w7 voided e7. absurd (pure-never _ w7 e7)
