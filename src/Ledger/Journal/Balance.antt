-- ===== src/Ledger/Journal/Balance.antt =====
-- The sums that validateBalance takes of an entry's lines, as sums over the table of lines.
use thittam.Base.{
  ℕ, ◌≡◌, refl, sym, ◌∙◌, ap, Bool, true, List, [], ◌∷◌, map, arith, ◌==◌, if◌then◌else◌, some,
  eq_of_==, Bool-cases, inl, inr,
}
use thittam.Base.Int.{ℤ, pos, ◌+ℤ◌, int_laws, eqb_ℤ, eq_of_eqb_ℤ}
use thittam.Base.Rows.{find_row, has_row, keep_rows, insert_by, order_by}
use thittam.Base.Action.{Result, ok, err}
use thittam.Ledger.Model.{Error, journal_not_balanced}
use thittam.Ledger.Tables.{Tables, LineRow, EntryRow}
use thittam.Ledger.Queries.{line_of, is_entry}
use thittam.Ledger.Postgres.Convert.{journal_line_from_db}
use thittam.Ledger.Postgres.Reads.{lines_of}
use thittam.Ledger.Journal.{total_debit, total_credit, validate_balance}

-- The sum of a column over some rows.
unfoldable pub sum_where : (LineRow → ℤ) → (LineRow → Bool) → List LineRow → ℤ
sum_where f p [] = pos 0
sum_where f p (l ∷ ls) = if p l then f l +ℤ sum_where f p ls else sum_where f p ls

abbrev pub sum_of : (LineRow → ℤ) → List LineRow → ℤ
sum_of f [] = pos 0
sum_of f (l ∷ ls) = f l +ℤ sum_of f ls

abbrev pub of_entry : ℕ → LineRow → Bool
of_entry id l = l.journal_id == id

abbrev pub debits : ℕ → List LineRow → ℤ
debits id = sum_where (λ l. l.debit_amount) (of_entry id)

abbrev pub credits : ℕ → List LineRow → ℤ
credits id = sum_where (λ l. l.credit_amount) (of_entry id)

sum_of-keep_rows :
    (f : LineRow → ℤ) (p : LineRow → Bool) (ls : List LineRow)
    → sum_of f (keep_rows p ls) ≡ sum_where f p ls
unfolding keep_rows sum_where
sum_of-keep_rows f p [] = refl
sum_of-keep_rows f p (l ∷ ls) = ground (arith, sum_of-keep_rows f p ls)

sum_of-insert_by :
    (f : LineRow → ℤ) (le : LineRow → LineRow → Bool) (x : LineRow) (ls : List LineRow)
    → sum_of f (insert_by le x ls) ≡ f x +ℤ sum_of f ls
unfolding insert_by
sum_of-insert_by f le x [] = refl
sum_of-insert_by f le x (l ∷ ls) = grind (int_laws, sum_of-insert_by f le x ls)

sum_of-order_by :
    (f : LineRow → ℤ) (le : LineRow → LineRow → Bool) (ls : List LineRow)
    → sum_of f (order_by le ls) ≡ sum_of f ls
unfolding order_by
sum_of-order_by f le [] = refl
sum_of-order_by f le (l ∷ ls) =
    sum_of-insert_by f le l (order_by le ls) ∙ ap (λ s. f l +ℤ s) (sum_of-order_by f le ls)

total_debit-from_db :
    (acc : ℤ) (ls : List LineRow)
    → total_debit acc (map journal_line_from_db ls) ≡ acc +ℤ sum_of (λ l. l.debit_amount) ls
unfolding journal_line_from_db
total_debit-from_db acc [] = omega int_laws
total_debit-from_db acc (l ∷ ls) =
    rw (total_debit-from_db (acc +ℤ l.debit_amount) ls) (omega int_laws)

total_credit-from_db :
    (acc : ℤ) (ls : List LineRow)
    → total_credit acc (map journal_line_from_db ls) ≡ acc +ℤ sum_of (λ l. l.credit_amount) ls
unfolding journal_line_from_db
total_credit-from_db acc [] = omega int_laws
total_credit-from_db acc (l ∷ ls) =
    rw (total_credit-from_db (acc +ℤ l.credit_amount) ls) (omega int_laws)

sum_where-cong :
    (f : LineRow → ℤ) (p q : LineRow → Bool) (ls : List LineRow)
    → ((l : LineRow) → p l ≡ q l)
    → sum_where f p ls ≡ sum_where f q ls
unfolding sum_where
sum_where-cong f p q [] h = refl
sum_where-cong f p q (l ∷ ls) h = ground (arith, h l, sum_where-cong f p q ls h)

has_row_of_find_row :
    {A : Type 0} (p : A → Bool) (xs : List A) {x : A} → find_row p xs ≡ some x → has_row p xs ≡ true
unfolding find_row has_row
has_row_of_find_row p [] e = ground arith
has_row_of_find_row p (y ∷ xs) {x} e = ground (arith, has_row_of_find_row p xs {x = x})

-- The join of the lines with their entry drops none of an entry that is there.
line_of-of_entry :
    (id tenant : ℕ) (t : Tables) (l : LineRow)
    → has_row (is_entry id tenant) t.entries ≡ true
    → line_of id tenant t l ≡ of_entry id l
line_of-of_entry id tenant t l h = elim (Bool-cases (l.journal_id == id)) [
  | inl same ↦ rw (eq_of_== l.journal_id id same) (ground arith)
  | inr other ↦ rw other
]

zero_add : (a : ℤ) → pos 0 +ℤ a ≡ a
zero_add a = omega int_laws

ok-ne-err : {x : Error} → let r : Result Error (Unit {0}) = err x in r ≡ ok tt → ⊥
ok-ne-err e = cc

module _ (id tenant : ℕ) (t : Tables) {row : EntryRow}
    (found : find_row (is_entry id tenant) t.entries ≡ some row) where
  pub sum_of-lines_of :
      (f : LineRow → ℤ) → sum_of f (lines_of id tenant t) ≡ sum_where f (of_entry id) t.lines
  sum_of-lines_of f =
      sum_of-order_by f _ _
      ∙ sum_of-keep_rows f _ t.lines
      ∙ sum_where-cong f _ _ t.lines
          (λ l. line_of-of_entry id tenant t l (has_row_of_find_row _ t.entries found))

  total_debit-lines_of :
      total_debit (pos 0) (map journal_line_from_db (lines_of id tenant t)) ≡ debits id t.lines
  total_debit-lines_of =
      total_debit-from_db (pos 0) _ ∙ zero_add _ ∙ sum_of-lines_of (λ l. l.debit_amount)

  total_credit-lines_of :
      total_credit (pos 0) (map journal_line_from_db (lines_of id tenant t)) ≡ credits id t.lines
  total_credit-lines_of =
      total_credit-from_db (pos 0) _ ∙ zero_add _ ∙ sum_of-lines_of (λ l. l.credit_amount)

  -- For an entry that the tenant has, validateBalance on the lines that the repository reads
  -- back, in their order, gives the same answer as comparing the sums of the debit and credit
  -- columns over the whole table of lines.
  pub validate_balance-lines_of :
      validate_balance (map journal_line_from_db (lines_of id tenant t))
      ≡ (if eqb_ℤ (debits id t.lines) (credits id t.lines) then ok tt else err journal_not_balanced)
  unfolding validate_balance
  validate_balance-lines_of = rw (total_debit-lines_of, total_credit-lines_of)

  pub validate_balance-ok :
      validate_balance (map journal_line_from_db (lines_of id tenant t)) ≡ ok tt
      → debits id t.lines ≡ credits id t.lines
  validate_balance-ok e =
      let h = sym validate_balance-lines_of ∙ e in
      elim (Bool-cases (eqb_ℤ (debits id t.lines) (credits id t.lines))) [
        | inl equal ↦ eq_of_eqb_ℤ _ _ equal
        | inr differ ↦ absurd (ok-ne-err (rw differ at h))
      ]
