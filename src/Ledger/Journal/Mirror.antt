-- ===== src/Ledger/Journal/Mirror.antt =====
-- The lines of a reversing entry, and what they add to the totals of an account.
use thittam.Base.{ℕ, ◌≡◌, refl, ◌∙◌, List, [], ◌∷◌, ◌++◌, map, ◌==◌, if◌then◌else◌, some}
use thittam.Base.Int.{ℤ, pos, ◌+ℤ◌, int_laws}
use thittam.Base.Action.{World, ok}
use thittam.Base.Rows.{find_row}
use thittam.Base.Inversion.{bind-elim, pure-ok}
use thittam.Ledger.Model.{JournalLine}
use thittam.Ledger.Tables.{Tables, LineRow, EntryRow}
use thittam.Ledger.Queries.{is_entry, new_line}
use thittam.Ledger.Postgres.Convert.{journal_line_from_db, line_params}
use thittam.Ledger.Postgres.Reads.{lines_of}
use thittam.Ledger.Postgres.Inserts.{stored_lines}
use thittam.Ledger.Journal.{reverse_lines, reverse_line}
use thittam.Ledger.Journal.Create.{Relabelled}
use thittam.Ledger.Journal.Balance.{sum_of, sum_where, of_entry, sum_of-lines_of}

-- Each line is the reverse of its original.
abbrev pub Mirrored : List JournalLine → List JournalLine → Type 0
Mirrored [] [] = Unit
Mirrored [] (y ∷ ys) = ⊥
Mirrored (x ∷ xs) [] = ⊥
Mirrored (x ∷ xs) (y ∷ ys) = ((id : ℕ) × (y ≡ reverse_line id x)) × Mirrored xs ys

pub reverse_lines-ok :
    (ls : List JournalLine) (w : World Tables) {ms : List JournalLine} {v : World Tables}
    → reverse_lines ls w ≡ (ok ms, v)
    → Mirrored ls ms
unfolding reverse_lines
reverse_lines-ok [] w e = let (none_left, _) = pure-ok _ w e in rw none_left tt
reverse_lines-ok (l ∷ ls) w e = bind-elim _ w _ e λ id w1 _ e1.
    bind-elim _ w1 _ e1 λ rest w2 others e2.
      let (built, _) = pure-ok _ w2 e2 in rw built ((id, refl), reverse_lines-ok ls w1 others)

-- What a line debits and credits to an account.
abbrev pub debit_to : ℕ → LineRow → ℤ
debit_to a l = if l.account_id == a then l.debit_amount else pos 0

abbrev pub credit_to : ℕ → LineRow → ℤ
credit_to a l = if l.account_id == a then l.credit_amount else pos 0

pub sum_of-append :
    (f : LineRow → ℤ) (ks ls : List LineRow) → sum_of f (ks ++ ls) ≡ sum_of f ks +ℤ sum_of f ls
sum_of-append f [] ls = omega int_laws
sum_of-append f (k ∷ ks) ls = grind (int_laws, sum_of-append f ks ls)

add_cong : {a b c d : ℤ} → a ≡ b → c ≡ d → a +ℤ c ≡ b +ℤ d
add_cong p q = cc

-- The row that the reverse of a row's line is stored as, with the identifiers it went through.
abbrev reverse_row : ℕ → ℕ → ℕ → LineRow → LineRow
reverse_row rid i j r =
    new_line (line_params rid (record (reverse_line i (journal_line_from_db r)) { id = j }))

sum_of-stored_lines :
    (f g : LineRow → ℤ) (rid : ℕ) (rows : List LineRow) (ms ns : List JournalLine)
    → ((i j : ℕ) (r : LineRow) → g (reverse_row rid i j r) ≡ f r)
    → Mirrored (map journal_line_from_db rows) ms
    → Relabelled ms ns
    → sum_of g (stored_lines rid ns) ≡ sum_of f rows
sum_of-stored_lines f g rid [] [] [] swap h k = refl
sum_of-stored_lines f g rid [] [] (n ∷ ns) swap h k = elim k [ ]
sum_of-stored_lines f g rid [] (m ∷ ms) ns swap h k = elim h [ ]
sum_of-stored_lines f g rid (r ∷ rows) [] ns swap h k = elim h [ ]
sum_of-stored_lines f g rid (r ∷ rows) (m ∷ ms) [] swap h k = elim k [ ]
sum_of-stored_lines f g rid (r ∷ rows) (m ∷ ms) (n ∷ ns) swap ((i, h), hs) ((j, k), ks) =
    add_cong (rw (k, h) (swap i j r)) (sum_of-stored_lines f g rid rows ms ns swap hs ks)

debit_to-reverse_row :
    (a rid i j : ℕ) (r : LineRow) → debit_to a (reverse_row rid i j r) ≡ credit_to a r
unfolding journal_line_from_db line_params
debit_to-reverse_row a rid i j r = refl

credit_to-reverse_row :
    (a rid i j : ℕ) (r : LineRow) → credit_to a (reverse_row rid i j r) ≡ debit_to a r
unfolding journal_line_from_db line_params
credit_to-reverse_row a rid i j r = refl

module _ (id tenant : ℕ) (t : Tables) {row : EntryRow}
    (found : find_row (is_entry id tenant) t.entries ≡ some row) (a rid : ℕ)
    (ms ns : List JournalLine)
    (mirrored : Mirrored (map journal_line_from_db (lines_of id tenant t)) ms)
    (stored : Relabelled ms ns) where
  -- The stored lines debit what the original credits, and the other way round.
  pub debits_stored :
      sum_of (debit_to a) (stored_lines rid ns) ≡ sum_where (credit_to a) (of_entry id) t.lines
  debits_stored =
      sum_of-stored_lines _ _ rid _ ms ns (debit_to-reverse_row a rid) mirrored stored
      ∙ sum_of-lines_of id tenant t found (credit_to a)

  pub credits_stored :
      sum_of (credit_to a) (stored_lines rid ns) ≡ sum_where (debit_to a) (of_entry id) t.lines
  credits_stored =
      sum_of-stored_lines _ _ rid _ ms ns (credit_to-reverse_row a rid) mirrored stored
      ∙ sum_of-lines_of id tenant t found (debit_to a)

  pub debits_after :
      sum_of (debit_to a) (t.lines ++ stored_lines rid ns)
      ≡ sum_of (debit_to a) t.lines +ℤ sum_where (credit_to a) (of_entry id) t.lines
  debits_after = sum_of-append _ t.lines _ ∙ add_cong refl debits_stored

  pub credits_after :
      sum_of (credit_to a) (t.lines ++ stored_lines rid ns)
      ≡ sum_of (credit_to a) t.lines +ℤ sum_where (debit_to a) (of_entry id) t.lines
  credits_after = sum_of-append _ t.lines _ ∙ add_cong refl credits_stored
