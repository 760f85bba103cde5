-- ===== src/Ledger/Journal/History.antt =====
-- Any sequence of calls of the service on journal entries, each as it ends, with a result or with an
-- error.
use thittam.Base.{ℕ, List, [], ◌∷◌}
use thittam.Base.Action.{World, Result}
use thittam.Base.Keeps.{Keeps}
use thittam.Ledger.Model.{JournalEntry, Error}
use thittam.Ledger.Tables.{Tables}
use thittam.Ledger.Journal.{create_journal_entry, post_journal_entry, void_journal_entry}
use thittam.Ledger.Journal.Sound.{IsSound}
use thittam.Ledger.Journal.Invariant.{
  create_journal_entry-IsSound, post_journal_entry-IsSound, void_journal_entry-IsSound,
}

pub data Request : Type 0 where
  create : JournalEntry → Request
  post : (tenant id by : ℕ) → Request
  void : (tenant id by : ℕ) → Request

abbrev pub answer : Request → World Tables → Result Error JournalEntry × World Tables
answer (create je) = create_journal_entry je
answer (post tenant id by) = post_journal_entry tenant id by
answer (void tenant id by) = void_journal_entry tenant id by

unfoldable pub history : List Request → World Tables → World Tables
history [] w = w
history (r ∷ rs) w = history rs (answer r w).1

answer-IsSound : (r : Request) → Keeps IsSound (answer r)
answer-IsSound (create je) = create_journal_entry-IsSound je
answer-IsSound (post tenant id by) = post_journal_entry-IsSound tenant id by
answer-IsSound (void tenant id by) = void_journal_entry-IsSound tenant id by

-- After any sequence of calls of CreateJournalEntry, PostJournalEntry and VoidJournalEntry, each
-- of which may fail at any of its calls of the database, started on sound books, the books are
-- sound: the debits of every entry that is not a draft equal its credits, and every stored line
-- has exactly one positive side and the other zero.
pub history-IsSound :
    (rs : List Request) (w : World Tables) → IsSound w.tables → IsSound (history rs w).tables
unfolding history
history-IsSound [] w h = h
history-IsSound (r ∷ rs) w h = history-IsSound rs _ ((answer-IsSound r).apply w h)
