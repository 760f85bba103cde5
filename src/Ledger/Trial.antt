-- ===== src/Ledger/Trial.antt =====
-- GetTrialBalance of services/ledger/db/postgres.go, and of service.go over it.
pub mod Totals
use thittam.Base.{
  ℕ, Bool, true, false, not, ◌&&◌, Option, none, some, List, [], ◌∷◌, map, ltb, ◌==◌, if◌then◌else◌,
}
use thittam.Base.Int.{ℤ, pos, ◌+ℤ◌, ◌-ℤ◌}
use thittam.Base.Rows.{find_row, keep_rows, order_by}
use thittam.Base.Text.{Text}
use thittam.Base.Time.{Time, after}
use thittam.Base.Action.{Statement, Result, ok, err, map_error, query}
use thittam.Ledger.Model.{TrialBalanceEntry, AccountType, posted, internal}
use thittam.Ledger.Tables.{Tables, AccountRow, EntryRow, LineRow}
use thittam.Ledger.Queries.{is_status}
use thittam.Ledger.Postgres.{Repo}

-- A line with the entry that the join finds for it, if any.
abbrev pub JoinedLine : Type 0
JoinedLine = LineRow × Option EntryRow

-- The condition of the second LEFT JOIN.
abbrev pub joins : Time → LineRow → EntryRow → Bool
joins as_of l e =
    e.id == l.journal_id && (is_status e.status posted && not (after e.created_at as_of))

-- The two joins. The identifier of an entry is a primary key, so a line meets one entry at most; a
-- line that meets none stays, with NULL in the columns of the entry.
unfoldable pub left_join : Time → List EntryRow → ℕ → List LineRow → List JoinedLine
left_join as_of es account [] = []
left_join as_of es account (l ∷ ls) =
    let rest = left_join as_of es account ls in
    if l.account_id == account then (l, find_row (joins as_of l) es) ∷ rest else rest

-- COALESCE(SUM(…), 0) over a column of the lines.
unfoldable pub sum_column : (LineRow → ℤ) → List JoinedLine → ℤ
sum_column f [] = pos 0
sum_column f ((l, e) ∷ js) = f l +ℤ sum_column f js

unfoldable pub account_totals : Time → Tables → AccountRow → TrialBalanceEntry
account_totals as_of t a = record {
  account_id = a.id;
  code = a.code;
  name = a.name;
  account_type = a.account_type;
  debit = sum_column (λ l. l.debit_amount) (left_join as_of t.entries a.id t.lines);
  credit = sum_column (λ l. l.credit_amount) (left_join as_of t.entries a.id t.lines);
  balance =
      sum_column (λ l. l.debit_amount) (left_join as_of t.entries a.id t.lines)
      -ℤ sum_column (λ l. l.credit_amount) (left_join as_of t.entries a.id t.lines);
}

-- The order of the codes, character by character.
unfoldable pub leb_text : Text → Text → Bool
leb_text [] b = true
leb_text (x ∷ a) [] = false
leb_text (x ∷ a) (y ∷ b) =
    let rest = leb_text a b in if ltb x y then true else if ltb y x then false else rest

unfoldable pub trial_balance_rows : ℕ → Time → Statement Tables (List TrialBalanceEntry)
trial_balance_rows tenant as_of now t = ok (
  map (account_totals as_of t) (
      order_by (λ a b. leb_text a.code b.code)
        (keep_rows (λ a. a.tenant_id == tenant && a.is_active) t.accounts)),
  t,
)

unfoldable pub get_trial_balance : ℕ → Time → Repo (List TrialBalanceEntry)
get_trial_balance tenant as_of = map_error (λ _. internal) (query (trial_balance_rows tenant as_of))
