-- ===== src/Ledger/Tests/Witnesses.antt =====
-- The theorems on the journal, applied to the sample books.
use thittam.Base.{◌≡◌, refl, Bool, true, false, [], ◌∷◌, some, map, if◌then◌else◌}
use thittam.Base.Int.{◌+ℤ◌, eqb_ℤ}
use thittam.Base.Action.{World, ok, err}
use thittam.Base.Rows.{find_row}
use thittam.Ledger.Model.{
  JournalEntry, journal_already_posted, period_closed, journal_not_balanced, journal_too_few_lines,
}
use thittam.Ledger.Tables.{Tables}
use thittam.Ledger.Queries.{is_entry, is_period}
use thittam.Ledger.Samples.{world, books, payment, draft_entry, april_entry, april, may}
use thittam.Ledger.Postgres.Convert.{journal_line_from_db}
use thittam.Ledger.Postgres.Reads.{lines_of}
use thittam.Ledger.Journal.{
  create_journal_entry, post_journal_entry, void_journal_entry, validate_balance,
}
use thittam.Ledger.Journal.Atomicity.{but_counters, post_failed, create_failed}
use thittam.Ledger.Journal.Balance.{sum_where, debits, credits, validate_balance-lines_of}
use thittam.Ledger.Journal.Sound.{IsSound}
use thittam.Ledger.Journal.History.{history, create, post, void, history-IsSound}
use thittam.Ledger.Journal.Post.{Posting, post_journal_entry-Posting}
use thittam.Ledger.Journal.Void.{Voiding, void_journal_entry-Voiding}
use thittam.Ledger.Journal.Completes.{Postable, post_journal_entry-completes}
use thittam.Ledger.Journal.Leftover.{Leftover, void_journal_entry-Leftover}
use thittam.Ledger.Tests.{Outcome, posting, creating, voiding, entry_of}

abbrev is_ok : Outcome → Bool
is_ok (ok je, w) = true
is_ok (err x, w) = false

returned : (r : Outcome) → is_ok r ≡ true → r ≡ (ok (entry_of r), r.1)
returned (ok je, w) h = refl
returned (err x, w) h = absurd (cc)

books-IsSound : IsSound books
unfolding sum_where ◌+ℤ◌
books-IsSound = record {
  settled = (tt, (refl, tt));
  one_sided = (refl, (refl, (refl, (refl, tt))));
}

history-IsSound_example :
    IsSound (history (create payment ∷ post 7 20 9 ∷ void 7 30 9 ∷ []) world).tables
history-IsSound_example =
    history-IsSound (create payment ∷ post 7 20 9 ∷ void 7 30 9 ∷ []) world books-IsSound

abbrev posted : Outcome
posted = post_journal_entry 7 20 9 world

posted-ok : is_ok posted ≡ true
unfolding posting
posted-ok = refl

post_journal_entry-Posting_example : Posting 7 20 9 books posted.1.tables (entry_of posted)
post_journal_entry-Posting_example =
    post_journal_entry-Posting 7 20 9 world (returned posted posted-ok)

draft_found : Postable 7 20 books
unfolding sum_where ◌+ℤ◌ find_row
draft_found = record {
  row = draft_entry;
  found = refl;
  is_draft = refl;
  period = may;
  period_found = refl;
  is_open = refl;
  balanced = refl;
}

post_journal_entry-completes_example :
    (je : JournalEntry) × (v : World Tables) × (post_journal_entry 7 20 9 world ≡ (ok je, v))
post_journal_entry-completes_example =
    post_journal_entry-completes 7 20 9 world (λ n. refl) draft_found

posted_before :
    post_journal_entry 7 30 9 world
    ≡ (err journal_already_posted, (post_journal_entry 7 30 9 world).1)
unfolding posting
posted_before = refl

post_failed_example : (post_journal_entry 7 30 9 world).1.tables ≡ books
post_failed_example = post_failed 7 30 9 world posted_before

abbrev no_lines : JournalEntry
no_lines = record payment { lines = [] }

too_few :
    create_journal_entry no_lines world
    ≡ (err journal_too_few_lines, (create_journal_entry no_lines world).1)
unfolding creating
too_few = refl

create_failed_example :
    but_counters (create_journal_entry no_lines world).1.tables ≡ but_counters books
create_failed_example = create_failed no_lines world too_few

-- Entry 20 after it is posted, and then void.
abbrev voided : Outcome
voided = void_journal_entry 7 20 9 posted.1

voided-ok : is_ok voided ≡ true
unfolding voiding
voided-ok = refl

void_journal_entry-Voiding_example :
    Voiding 7 20 9 posted.1.tables voided.1.tables (entry_of voided)
void_journal_entry-Voiding_example =
    void_journal_entry-Voiding 7 20 9 posted.1 (returned voided voided-ok)

april_closed :
    void_journal_entry 7 30 9 world ≡ (err period_closed, (void_journal_entry 7 30 9 world).1)
unfolding voiding
april_closed = refl

void_journal_entry-Leftover_example :
    Leftover 7 30 9 books (void_journal_entry 7 30 9 world).1.tables
void_journal_entry-Leftover_example = void_journal_entry-Leftover 7 30 9 world april_closed

april_entry_found : find_row (λ e. is_entry 30 7 e) books.entries ≡ some april_entry
unfolding find_row
april_entry_found = refl

april_found : find_row (λ p. is_period 4 7 p) books.periods ≡ some april
unfolding find_row
april_found = refl

draft_entry_found : find_row (λ e. is_entry 20 7 e) books.entries ≡ some draft_entry
unfolding find_row
draft_entry_found = refl

validate_balance-lines_of_example :
    validate_balance (map journal_line_from_db (lines_of 20 7 books)) ≡ (
      if eqb_ℤ (debits 20 books.lines) (credits 20 books.lines)
      then ok tt
      else err journal_not_balanced)
validate_balance-lines_of_example = validate_balance-lines_of 20 7 books draft_entry_found
