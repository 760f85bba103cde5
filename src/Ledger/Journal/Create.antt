-- ===== src/Ledger/Journal/Create.antt =====
-- What CreateJournalEntry has done when it returns an entry.
use thittam.Base.{ℕ, ◌≡◌, refl, ap, sym, false, List, [], ◌∷◌, ◌++◌, ltb, length, ◌==◌}
use thittam.Base.Rows.{has_row}
use thittam.Base.Time.{Time}
use thittam.Base.Action.{World, ok, after_call}
use thittam.Base.Inversion.{bind-elim, raise_if-elim, time_now-elim, pure-ok}
use thittam.Ledger.Model.{JournalEntry, JournalLine, draft}
use thittam.Ledger.Tables.{Tables, CounterRow}
use thittam.Ledger.Queries.{new_entry}
use thittam.Ledger.Postgres.Convert.{entry_params}
use thittam.Ledger.Postgres.Inserts.{
  stored_lines, SameBooks, allocate_entry_number-ok, create_journal_entry-ok as stored-ok,
}
use thittam.Ledger.Journal.{create_journal_entry, validate_lines, id_or_new}
use thittam.Ledger.Journal.Atomicity.{validate_lines-Keeps, id_or_new-Keeps}

-- The same lines in the same order, but for their identifiers.
abbrev pub Relabelled : List JournalLine → List JournalLine → Type 0
Relabelled [] [] = Unit
Relabelled [] (y ∷ ys) = ⊥
Relabelled (x ∷ xs) [] = ⊥
Relabelled (x ∷ xs) (y ∷ ys) = ((id : ℕ) × (y ≡ record x { id = id })) × Relabelled xs ys

pub validate_lines-ok :
    (tenant : ℕ) (ls : List JournalLine) (w : World Tables) {ms : List JournalLine}
    {v : World Tables}
    → validate_lines tenant ls w ≡ (ok ms, v)
    → Relabelled ls ms
unfolding validate_lines
validate_lines-ok tenant [] w e = let (none_left, _) = pure-ok _ w e in rw none_left tt
validate_lines-ok tenant (l ∷ ls) w e = bind-elim _ w _ e λ account w1 _ e1.
    raise_if-elim w1 _ _ _ e1 λ _ e2. bind-elim _ w1 _ e2 λ _ w2 _ e3.
      bind-elim _ w2 _ e3 λ id w3 _ e4. bind-elim _ w3 _ e4 λ rest w4 others e5.
        let (built, _) = pure-ok _ w4 e5 in
        rw built ((id, refl), validate_lines-ok tenant ls w3 others)

-- The entry that was stored: a draft with the lines of the request, appended to the books with
-- those lines.
pub record Created (je : JournalEntry) (t : Tables) (entry : JournalEntry) (u : Tables)
    : Type 0 where
  pub two_lines : ltb (length je.lines) 2 ≡ false
  pub lines : Relabelled je.lines entry.lines
  pub id : ℕ
  pub number : List ℕ
  pub content :
      entry ≡ record je { id = id; lines = entry.lines; status = draft; entry_number = number }
  pub fresh : has_row (λ e. e.id == entry.id) t.entries ≡ false
  pub now : Time
  pub counters : List CounterRow
  pub changed : u ≡ record t {
    entries = t.entries ++ new_entry (entry_params entry) now ∷ [];
    lines = t.lines ++ stored_lines entry.id entry.lines;
    counters = counters;
  }

unchanged_lines :
    (tenant : ℕ) (ls : List JournalLine) (w : World Tables) {ms : List JournalLine}
    {v : World Tables}
    → validate_lines tenant ls w ≡ (ok ms, v)
    → v.tables ≡ w.tables
unchanged_lines tenant ls w e =
    rw (sym (ap (λ r. r.1.tables) e))
      ((validate_lines-Keeps (λ t. t ≡ w.tables) tenant ls).apply w refl)

unchanged_id :
    (id : ℕ) (w : World Tables) {n : ℕ} {v : World Tables}
    → id_or_new id w ≡ (ok n, v)
    → v.tables ≡ w.tables
unchanged_id id w e =
    rw (sym (ap (λ r. r.1.tables) e)) ((id_or_new-Keeps (λ t. t ≡ w.tables) id).apply w refl)

same_but :
    {t t1 t2 t3 : Tables} (books : SameBooks t2 t3)
    → t2 ≡ t1
    → t1 ≡ t
    → t3 ≡ record t { counters = books.counters }
same_but books e1 e2 = rw (books.same, e1, e2) refl

module _ (je : JournalEntry) (t : Tables) (lines : List JournalLine) (id : ℕ) (number : List ℕ)
    (counters : List CounterRow) where
  abbrev built : JournalEntry
  built = record je { id = id; lines = lines; status = draft; entry_number = number }

  stored-Created :
      {t3 v : Tables} {entry : JournalEntry}
      → ltb (length je.lines) 2 ≡ false
      → Relabelled je.lines lines
      → entry ≡ built
      → t3 ≡ record t { counters = counters }
      → (now : Time) × (has_row (λ e. e.id == id) t3.entries ≡ false)
        × (v ≡ record t3 {
          entries = t3.entries ++ new_entry (entry_params built) now ∷ [];
          lines = t3.lines ++ stored_lines id lines;
        })
      → Created je t entry v
  stored-Created two ls is_built same (now, fresh, changed) = rw is_built (record {
    two_lines = two;
    lines = ls;
    id = id;
    number = number;
    content = refl;
    fresh = rw same at fresh;
    now = now;
    counters = counters;
    changed = rw same at changed;
  })

pub create_journal_entry-Created :
    (je : JournalEntry) (w : World Tables) {entry : JournalEntry} {v : World Tables}
    → create_journal_entry je w ≡ (ok entry, v)
    → Created je w.tables entry v.tables
unfolding create_journal_entry
create_journal_entry-Created je w e = raise_if-elim w _ _ _ e λ two e1.
    bind-elim _ w _ e1 λ lines w1 read e2. bind-elim _ w1 _ e2 λ id w2 named e3.
      time_now-elim w2 _ e3 λ e4. bind-elim _ (after_call w2) _ e4 λ number w3 numbered e5.
        bind-elim _ w3 _ e5 λ _ w4 stored e6.
          let (is_entry, at_end) = pure-ok _ _ e6 in
          let books = allocate_entry_number-ok _ _ (after_call w2) numbered in
          rw at_end (
            stored-Created je w.tables lines id number books.counters two
              (validate_lines-ok _ _ w read) is_entry
              (same_but books (unchanged_id _ w1 named) (unchanged_lines _ _ w read))
              (stored-ok _ w3 stored))
