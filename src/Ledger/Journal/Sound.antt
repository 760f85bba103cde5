-- ===== src/Ledger/Journal/Sound.antt =====
-- The invariant of the books: an entry that has left the draft state is balanced, and every stored
-- line has exactly one side.
use thittam.Base.{
  ℕ, ◌≡◌, Bool, true, false, List, [], ◌∷◌, ◌++◌, All, arith, ◌==◌, Bool-cases, inl, inr, sym,
  eq_of_==,
}
use thittam.Base.Int.{ℤ}
use thittam.Base.Rows.{has_row, update_rows}
use thittam.Base.Time.{Time}
use thittam.Ledger.Model.{EntryStatus, draft, posted, void}
use thittam.Ledger.Tables.{Tables, EntryRow, LineRow}
use thittam.Ledger.Queries.{debit_or_credit, is_entry_in, post_row, void_row}
use thittam.Ledger.Journal.Balance.{debits, credits, sum_where, of_entry}

-- The entry's debits equal its credits, unless it is a draft.
abbrev pub IsSettled : List LineRow → EntryStatus → ℕ → Type 0
IsSettled ls draft id = Unit
IsSettled ls posted id = debits id ls ≡ credits id ls
IsSettled ls void id = debits id ls ≡ credits id ls

abbrev pub IsOneSided : LineRow → Type 0
IsOneSided l = debit_or_credit l.debit_amount l.credit_amount ≡ true

pub record IsSound (t : Tables) : Type 0 where
  pub settled : All (λ e. IsSettled t.lines e.status e.id) t.entries
  pub one_sided : All IsOneSided t.lines

-- Posting.
pub IsSettled-post :
    (id tenant by : ℕ) (at : Time) (ls : List LineRow) (es : List EntryRow)
    → debits id ls ≡ credits id ls
    → All (λ e. IsSettled ls e.status e.id) es
    → All
        (λ e. IsSettled ls e.status e.id)
        (update_rows (is_entry_in draft id tenant) (post_row by at) es)
unfolding update_rows
IsSettled-post id tenant by at ls [] b h = tt
IsSettled-post id tenant by at ls (e ∷ es) b h =
    (ground arith, IsSettled-post id tenant by at ls es b h.1)

pub IsSettled-void :
    (id tenant : ℕ) (ls : List LineRow) (es : List EntryRow)
    → All (λ e. IsSettled ls e.status e.id) es
    → All (λ e. IsSettled ls e.status e.id) (update_rows (is_entry_in posted id tenant) void_row es)
unfolding update_rows
IsSettled-void id tenant ls [] h = tt
IsSettled-void id tenant ls (e ∷ es) h = (ground arith, IsSettled-void id tenant ls es h.1)

-- Every entry of this identifier is a draft.
abbrev pub DraftOnly : ℕ → List EntryRow → Type 0
DraftOnly id = All (λ e. e.id ≡ id → e.status ≡ draft)

pub DraftOnly-of_absent :
    (id : ℕ) (es : List EntryRow) → has_row (λ e. e.id == id) es ≡ false → DraftOnly id es
unfolding has_row
DraftOnly-of_absent id [] h = tt
DraftOnly-of_absent id (e ∷ es) h =
    ((λ same. absurd (ground arith)), DraftOnly-of_absent id es (ground arith))

sum_where-append_other :
    (f : LineRow → ℤ) (p : LineRow → Bool) (ls : List LineRow) (l : LineRow)
    → p l ≡ false
    → sum_where f p (ls ++ l ∷ []) ≡ sum_where f p ls
unfolding sum_where
sum_where-append_other f p [] l h = ground arith
sum_where-append_other f p (x ∷ ls) l h = ground (arith, sum_where-append_other f p ls l h)

pub IsSettled-of_draft :
    (ls : List LineRow) (s : EntryStatus) (id : ℕ) → s ≡ draft → IsSettled ls s id
IsSettled-of_draft ls s id e = rw e tt

IsSettled-other :
    (ls : List LineRow) (l : LineRow) (s : EntryStatus) (id : ℕ)
    → of_entry id l ≡ false
    → IsSettled ls s id
    → IsSettled (ls ++ l ∷ []) s id
IsSettled-other ls l draft id other h = tt
IsSettled-other ls l _ id other h =
    rw (sum_where-append_other _ _ ls l other, sum_where-append_other _ _ ls l other) h

IsSettled-line_one :
    (ls : List LineRow) (l : LineRow) (s : EntryStatus) (id : ℕ)
    → (id ≡ l.journal_id → s ≡ draft)
    → IsSettled ls s id
    → IsSettled (ls ++ l ∷ []) s id
IsSettled-line_one ls l s id d h = elim (Bool-cases (of_entry id l)) [
  | inl same ↦ IsSettled-of_draft _ s id (d (sym (eq_of_== l.journal_id id same)))
  | inr other ↦ IsSettled-other ls l s id other h
]

-- A new line leaves the other entries settled.
pub IsSettled-line :
    (ls : List LineRow) (l : LineRow) (es : List EntryRow)
    → DraftOnly l.journal_id es
    → All (λ e. IsSettled ls e.status e.id) es
    → All (λ e. IsSettled (ls ++ l ∷ []) e.status e.id) es
IsSettled-line ls l [] d h = tt
IsSettled-line ls l (e ∷ es) d h =
    (IsSettled-line_one ls l e.status e.id d.0 h.0, IsSettled-line ls l es d.1 h.1)
