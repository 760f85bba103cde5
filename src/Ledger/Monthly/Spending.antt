-- ===== src/Ledger/Monthly/Spending.antt =====
-- The expenses of a month on the tables, apart from the statement of the report: months are numbers
-- here, and statuses, account types and behaviors are written out.
use thittam.Base.{
  ℕ, ◌≡◌, refl, ap, Bool, true, false, not, ◌&&◌, ◌||◌, Option, none, some, List, [], ◌∷◌, ◌==◌,
  eq_of_==, ==_refl, if◌then◌else◌, arith, Bool-cases, inl, inr,
}
use thittam.Base.Int.{ℤ, pos, ◌-ℤ◌}
use thittam.Base.Rows.{find_row}
use thittam.Base.Text.{Text, eqb_text, eq_of_eqb_text, eqb_text_refl}
use thittam.Base.Time.{Time}
use thittam.Ledger.Model.{
  AccountType, expense, CostBehavior, fixed, variable, unclassified, other_behavior, EntryStatus,
  draft, posted, void,
}
use thittam.Ledger.Tables.{Tables, AccountRow, EntryRow, LineRow}
use thittam.Ledger.Queries.{is_status}
use thittam.Ledger.Journal.Balance.{sum_of}
use thittam.Ledger.Monthly.{
  CostGroup, is_expense, format_month, behavior_or, group_at, group_of, cost_of_line,
}
use thittam.Ledger.Monthly.Buckets.{of_month, with_behavior, other_of_month}

abbrev pub posted_status : EntryStatus → Bool
posted_status draft = false
posted_status posted = true
posted_status void = false

abbrev pub expense_type : AccountType → Bool
expense_type expense = true
expense_type _ = false

abbrev pub posted_in : ℕ → Option Time → Bool
posted_in m none = false
posted_in m (some t) = t.month == m

abbrev pub is_fixed : Option CostBehavior → Bool
is_fixed (some fixed) = true
is_fixed _ = false

abbrev pub is_variable : Option CostBehavior → Bool
is_variable (some variable) = true
is_variable _ = false

-- No behavior at all counts as unclassified, and so does any other text.
abbrev pub is_neither : Option CostBehavior → Bool
is_neither b = not (is_fixed b || is_variable b)

-- A line of a posted entry of the tenant in that month, on an expense account of the tenant of that
-- kind.
abbrev pub counts :
    (Option CostBehavior → Bool) → ℕ → ℕ → Option EntryRow → Option AccountRow → Bool
counts kind tenant m none a = false
counts kind tenant m (some e) none = false
counts kind tenant m (some e) (some a) =
    (posted_status e.status && (e.tenant_id == tenant && posted_in m e.posted_at))
    && (expense_type a.account_type && (a.tenant_id == tenant && kind a.cost_behavior))

-- The net debit of such lines among all lines.
abbrev pub spent : (Option CostBehavior → Bool) → ℕ → Tables → ℕ → ℤ
spent kind tenant t m =
    sum_of
      (λ l.
        if counts kind tenant m (find_row (λ e. e.id == l.journal_id) t.entries)
          (find_row (λ a. a.id == l.account_id) t.accounts)
        then l.debit_amount -ℤ l.credit_amount
        else pos 0)
      t.lines

-- What a line adds to the groups that a test picks.
abbrev pub cost_at : (Text → CostBehavior → Bool) → Option CostGroup → ℤ
cost_at q none = pos 0
cost_at q (some g) = if q g.month g.behavior then g.net else pos 0

format_month-inj : (a b : ℕ) → format_month a ≡ format_month b → a ≡ b
unfolding format_month
format_month-inj a b h = ground arith

eqb_text-format_month : (a b : ℕ) → eqb_text (format_month a) (format_month b) ≡ (a == b)
eqb_text-format_month a b = elim (Bool-cases (a == b)) [
  | inl same ↦ rw (same, eq_of_== a b same) (eqb_text_refl (format_month b))
  | inr differ ↦ elim (Bool-cases (eqb_text (format_month a) (format_month b))) [
    | inl same ↦
        let one : a ≡ b = format_month-inj a b (eq_of_eqb_text _ _ same) in
        absurd (ground (arith, ==_refl b))
    | inr apart ↦ rw (differ, apart) refl
  ]
]

is_status-posted : (s : EntryStatus) → is_status s posted ≡ posted_status s
is_status-posted draft = refl
is_status-posted posted = refl
is_status-posted void = refl

is_expense-expense_type : (t : AccountType) → is_expense t ≡ expense_type t
is_expense-expense_type t = ground arith

module _ (q : Text → CostBehavior → Bool) (kind : Option CostBehavior → Bool) (m : ℕ)
    (agree : (k : ℕ) (o : Option CostBehavior)
      → q (format_month k) (behavior_or o) ≡ ((k == m) && kind o)) where
  cost_at-joined :
      (x y s e : Bool) (a : AccountRow) (l : LineRow) (p : Option Time)
      → cost_at q (if (x && y) && (s && e) then group_at a l p else none) ≡ (
          if (s && (x && posted_in m p)) && (e && (y && kind a.cost_behavior))
          then l.debit_amount -ℤ l.credit_amount
          else pos 0)
  cost_at-joined true true true true a l none = refl
  cost_at-joined true true true true a l (some t) =
      ap (λ b. if b then l.debit_amount -ℤ l.credit_amount else pos 0)
        (agree t.month a.cost_behavior)
  cost_at-joined true true true false a l none = refl
  cost_at-joined true true true false a l (some t) = ground arith
  cost_at-joined true true false e a l p = refl
  cost_at-joined true false s e a l p = ground arith
  cost_at-joined false y s e a l p = ground arith

  cost_at-group_of :
      (tenant : ℕ) (l : LineRow) (e : Option EntryRow) (a : Option AccountRow)
      → cost_at q (group_of tenant l e a)
        ≡ (if counts kind tenant m e a then l.debit_amount -ℤ l.credit_amount else pos 0)
  cost_at-group_of tenant l none a = refl
  cost_at-group_of tenant l (some e) none = refl
  cost_at-group_of tenant l (some e) (some a) =
      rw (is_status-posted e.status, is_expense-expense_type a.account_type)
        (cost_at-joined (e.tenant_id == tenant) (a.tenant_id == tenant) (posted_status e.status)
          (expense_type a.account_type) a l e.posted_at)

  pub cost_of_line-counts :
      (tenant : ℕ) (t : Tables) (l : LineRow)
      → cost_at q (cost_of_line tenant t l) ≡ (
          if counts kind tenant m
            (find_row (λ e. e.id == l.journal_id) t.entries)
            (find_row (λ a. a.id == l.account_id) t.accounts)
          then l.debit_amount -ℤ l.credit_amount
          else pos 0)
  unfolding cost_of_line
  cost_of_line-counts tenant t l = cost_at-group_of tenant l _ _

  -- The sum that the report makes over all lines is what was spent.
  pub sum_of-spent :
      (tenant : ℕ) (t : Tables)
      → sum_of (λ l. cost_at q (cost_of_line tenant t l)) t.lines ≡ spent kind tenant t m
  sum_of-spent tenant t = over t.lines
    where
      over :
          (ls : List LineRow)
          → sum_of (λ l. cost_at q (cost_of_line tenant t l)) ls
            ≡ sum_of
                (λ l.
                  if counts kind tenant m
                    (find_row (λ e. e.id == l.journal_id) t.entries)
                    (find_row (λ a. a.id == l.account_id) t.accounts)
                  then l.debit_amount -ℤ l.credit_amount
                  else pos 0)
                ls
      over [] = refl
      over (l ∷ ls) = rw (cost_of_line-counts tenant t l, over ls) refl

-- The tests of the four columns are these kinds.
pub fixed_kind :
    (m k : ℕ) (o : Option CostBehavior)
    → with_behavior fixed (format_month m) (format_month k) (behavior_or o)
      ≡ ((k == m) && is_fixed o)
fixed_kind m k none = rw (eqb_text-format_month k m) refl
fixed_kind m k (some fixed) = rw (eqb_text-format_month k m) refl
fixed_kind m k (some variable) = rw (eqb_text-format_month k m) refl
fixed_kind m k (some unclassified) = rw (eqb_text-format_month k m) refl
fixed_kind m k (some (other_behavior s)) = rw (eqb_text-format_month k m) refl

pub variable_kind :
    (m k : ℕ) (o : Option CostBehavior)
    → with_behavior variable (format_month m) (format_month k) (behavior_or o)
      ≡ ((k == m) && is_variable o)
variable_kind m k none = rw (eqb_text-format_month k m) refl
variable_kind m k (some fixed) = rw (eqb_text-format_month k m) refl
variable_kind m k (some variable) = rw (eqb_text-format_month k m) refl
variable_kind m k (some unclassified) = rw (eqb_text-format_month k m) refl
variable_kind m k (some (other_behavior s)) = rw (eqb_text-format_month k m) refl

pub neither_kind :
    (m k : ℕ) (o : Option CostBehavior)
    → other_of_month (format_month m) (format_month k) (behavior_or o) ≡ ((k == m) && is_neither o)
neither_kind m k none = rw (eqb_text-format_month k m) refl
neither_kind m k (some fixed) = rw (eqb_text-format_month k m) refl
neither_kind m k (some variable) = rw (eqb_text-format_month k m) refl
neither_kind m k (some unclassified) = rw (eqb_text-format_month k m) refl
neither_kind m k (some (other_behavior s)) = rw (eqb_text-format_month k m) refl

and_true : (b : Bool) → b ≡ (b && true)
and_true b = ground arith

pub every_kind :
    (m k : ℕ) (o : Option CostBehavior)
    → of_month (format_month m) (format_month k) (behavior_or o) ≡ ((k == m) && true)
every_kind m k o = rw (eqb_text-format_month k m) (and_true (k == m))
