-- ===== src/Ledger/Postgres/Inserts.antt =====
-- What the repository's inserts of a journal entry have done when they succeed.
use thittam.Base.{
  ℕ, ◌≡◌, refl, ap, sym, ◌∙◌, Bool, true, false, Option, none, some, List, [], ◌∷◌, ◌++◌, map,
  if◌then◌else◌, ◌==◌,
}
use thittam.Base.Rows.{has_row, update_rows}
use thittam.Base.Time.{Time}
use thittam.Base.Action.{World, Result, ok, err, after_call}
use thittam.Base.Inversion.{bind-elim, pure-ok, mapped_query-ok, transaction-ok}
use thittam.Ledger.Model.{JournalEntry, JournalLine}
use thittam.Ledger.Tables.{
  Tables, EntryRow, LineRow, CounterRow, CreateJournalEntryParams, CreateJournalLineParams,
}
use thittam.Ledger.Queries.{
  create_journal_entry as insert_journal_entry, create_journal_line, new_entry, new_line,
  next_journal_entry_seq, take_seq, is_counter, first_counter, bumped,
}
use thittam.Ledger.Postgres.{insert_lines, create_journal_entry, allocate_entry_number}
use thittam.Ledger.Postgres.Convert.{entry_params, line_params}

-- The branch that a result which is not an error came from.
if-ok :
    {E A : Type 0} (b : Bool) (r s : Result E A) {a : A}
    → ((x : A) → r ≡ ok x → ⊥)
    → (if b then r else s) ≡ ok a
    → (b ≡ false) × (s ≡ ok a)
if-ok true r s {a} never h = absurd (never a h)
if-ok false r s never h = (refl, h)

if-ok_else :
    {E A : Type 0} (b : Bool) (r s : Result E A) {a : A}
    → ((x : A) → s ≡ ok x → ⊥)
    → (if b then r else s) ≡ ok a
    → (b ≡ true) × (r ≡ ok a)
if-ok_else true r s never h = (refl, h)
if-ok_else false r s {a} never h = absurd (never a h)

err-never : {E A : Type 0} (x : E) (a : A) → let r : Result E A = err x in r ≡ ok a → ⊥
err-never x a h = cc

ok-inj : {E A : Type 0} {a b : A} → let r : Result E A = ok a in r ≡ ok b → a ≡ b
ok-inj h = cc

insert_journal_entry-ok :
    (a : CreateJournalEntryParams) (now : Time) (t : Tables) {row : EntryRow} {u : Tables}
    → insert_journal_entry a now t ≡ ok (row, u)
    → (has_row (λ e. e.id == a.id) t.entries ≡ false)
      × (u ≡ record t { entries = t.entries ++ new_entry a now ∷ [] })
unfolding insert_journal_entry
insert_journal_entry-ok a now t h =
    let (absent, h2) = if-ok _ _ _ (err-never _) h in
    let (_, h3) = if-ok _ _ _ (err-never _) h2 in
    let (_, h4) = if-ok_else _ _ _ (err-never _) h3 in (absent, ap (λ p. p.1) (sym (ok-inj h4)))

create_journal_line-ok :
    (a : CreateJournalLineParams) (now : Time) (t : Tables) {row : LineRow} {u : Tables}
    → create_journal_line a now t ≡ ok (row, u)
    → u ≡ record t { lines = t.lines ++ new_line a ∷ [] }
unfolding create_journal_line
create_journal_line-ok a now t h =
    let (_, h2) = if-ok_else _ _ _ (err-never _) h in
    let (_, h3) = if-ok _ _ _ (err-never _) h2 in
    let (_, h4) = if-ok_else _ _ _ (err-never _) h3 in ap (λ p. p.1) (sym (ok-inj h4))

-- The rows of an entry's lines.
abbrev pub stored_lines : ℕ → List JournalLine → List LineRow
stored_lines id = map (λ l. new_line (line_params id l))

append_one : {A : Type 0} (xs : List A) (x : A) (ys : List A) → (xs ++ x ∷ []) ++ ys ≡ xs ++ x ∷ ys
append_one [] x ys = refl
append_one (z ∷ xs) x ys = ap (λ r. z ∷ r) (append_one xs x ys)

append_nil : {A : Type 0} (xs : List A) → xs ++ [] ≡ xs
append_nil [] = refl
append_nil (z ∷ xs) = ap (λ r. z ∷ r) (append_nil xs)

pub insert_lines-ok :
    (id : ℕ) (ls : List JournalLine) (w : World Tables) {a : Unit {0}} {v : World Tables}
    → insert_lines id ls w ≡ (ok a, v)
    → v.tables ≡ record w.tables { lines = w.tables.lines ++ stored_lines id ls }
unfolding insert_lines
insert_lines-ok id [] w e =
    let (_, same) = pure-ok _ w e in rw (same, append_nil w.tables.lines) refl
insert_lines-ok id (l ∷ ls) w e = bind-elim _ w _ e λ row u done rest.
    let (t, h, here) = mapped_query-ok _ _ w done in
    let stored = create_journal_line-ok _ _ w.tables h in
    let others = insert_lines-ok id ls u rest in
    others ∙ rw (here, stored, append_one w.tables.lines _ (stored_lines id ls)) refl

pub create_journal_entry-ok :
    (je : JournalEntry) (w : World Tables) {a : Unit {0}} {v : World Tables}
    → create_journal_entry je w ≡ (ok a, v)
    → (now : Time) × (has_row (λ e. e.id == je.id) w.tables.entries ≡ false)
      × (v.tables ≡ record w.tables {
        entries = w.tables.entries ++ new_entry (entry_params je) now ∷ [];
        lines = w.tables.lines ++ stored_lines je.id je.lines;
      })
unfolding create_journal_entry entry_params
create_journal_entry-ok je w e =
    let (u, done, after) = transaction-ok _ _ w e in
    bind-elim _ (after_call w) _ done λ row x inserted rest.
      let (t, h, here) = mapped_query-ok _ _ (after_call w) inserted in
      let (absent, stored) = insert_journal_entry-ok _ _ w.tables h in
      let others = insert_lines-ok je.id je.lines x rest in
      (
        w.env.time (after_call w).tick,
        absent,
        ap (λ y. y.tables) after ∙ others ∙ rw (here, stored) refl,
      )

-- All tables but the counters of entry numbers are the same.
pub record SameBooks (t u : Tables) : Type 0 where
  pub counters : List CounterRow
  pub same : u ≡ record t { counters = counters }

take_seq-ok :
    (tenant year : ℕ) (t : Tables) (o : Option CounterRow) {n : ℕ} {u : Tables}
    → take_seq tenant year t o ≡ ok (n, u)
    → SameBooks t u
take_seq-ok tenant year t none h = record {
  counters = t.counters ++ first_counter tenant year ∷ [];
  same = ap (λ p. p.1) (sym (ok-inj h));
}
take_seq-ok tenant year t (some c) h = record {
  counters = update_rows (is_counter tenant year) bumped t.counters;
  same = ap (λ p. p.1) (sym (ok-inj h));
}

pub allocate_entry_number-ok :
    (tenant year : ℕ) (w : World Tables) {number : List ℕ} {v : World Tables}
    → allocate_entry_number tenant year w ≡ (ok number, v)
    → SameBooks w.tables v.tables
unfolding allocate_entry_number next_journal_entry_seq
allocate_entry_number-ok tenant year w e = bind-elim _ w _ e λ n u done rest.
    let (t, h, here) = mapped_query-ok _ _ w done in
    let (_, same) = pure-ok _ u rest in rw (same, here) (take_seq-ok tenant year w.tables _ h)
