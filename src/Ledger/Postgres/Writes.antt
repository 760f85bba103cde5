-- ===== src/Ledger/Postgres/Writes.antt =====
-- What the repository's updates of a journal entry have done when they succeed.
use thittam.Base.{ℕ, ◌≡◌, Bool, some, arith, Option-cases, inl, inr}
use thittam.Base.Rows.{find_row, update_rows}
use thittam.Base.Time.{Time}
use thittam.Base.Action.{World, ok}
use thittam.Base.Inversion.{bind-elim, pure-ok, mapped_query-ok}
use thittam.Ledger.Model.{draft, posted, void}
use thittam.Ledger.Tables.{Tables, EntryRow}
use thittam.Ledger.Queries.{
  is_entry_in, post_row, void_row, update_entries, post_journal_entry, void_journal_entry,
}
use thittam.Ledger.Postgres.{update_journal_status}

-- The rows that `p` selects, of which there is one, are changed by `f`; nothing else is.
pub record Updated (p : EntryRow → Bool) (f : EntryRow → EntryRow) (t u : Tables) : Type 0 where
  pub row : EntryRow
  pub found : find_row p t.entries ≡ some row
  pub changed : u ≡ record t { entries = update_rows p f t.entries }

update_entries-ok :
    (p : EntryRow → Bool) (f : EntryRow → EntryRow) (t : Tables) {e : EntryRow} {u : Tables}
    → update_entries p f t ≡ ok (e, u)
    → Updated p f t u
update_entries-ok p f t h = elim (Option-cases (find_row p t.entries)) [
  | inl missing ↦ absurd (ground arith)
  | inr (e, found) ↦ record { row = e; found = found; changed = ground arith }
]

pub update_journal_status-posted :
    (tenant id by : ℕ) (w : World Tables) {a : Unit {0}} {v : World Tables}
    → update_journal_status tenant id posted by w ≡ (ok a, v)
    → (at : Time) × Updated (is_entry_in draft id tenant) (post_row by at) w.tables v.tables
unfolding update_journal_status post_journal_entry
update_journal_status-posted tenant id by w e = bind-elim _ w _ e λ row u done rest.
    let (t, h, here) = mapped_query-ok _ _ w done in
    let (_, same) = pure-ok _ u rest in
    (w.env.time w.tick, rw (same, here) (update_entries-ok _ _ w.tables h))

pub update_journal_status-void :
    (tenant id by : ℕ) (w : World Tables) {a : Unit {0}} {v : World Tables}
    → update_journal_status tenant id void by w ≡ (ok a, v)
    → Updated (is_entry_in posted id tenant) void_row w.tables v.tables
unfolding update_journal_status void_journal_entry
update_journal_status-void tenant id by w e = bind-elim _ w _ e λ row u done rest.
    let (t, h, here) = mapped_query-ok _ _ w done in
    let (_, same) = pure-ok _ u rest in rw (same, here) (update_entries-ok _ _ w.tables h)
