-- ===== src/Expense/Stuck.antt =====
-- What the workflow gives for expenses that begin as drafts, and the checks of an approval and of a
-- settlement.
use thittam.Base.{
  [], ◌∷◌, ℕ, ◌≡◌, refl, ◌∙◌, ap, Bool, true, false, Option, none, some, List, eq_of_==, ==_refl,
  arith, if◌then◌else◌,
}
use thittam.Base.Int.{ℤ}
use thittam.Base.Rows.{find_row, update_rows, touched, find_row-update_rows}
use thittam.Base.Time.{Time}
use thittam.Base.Action.{World, ok, after_call}
use thittam.Base.Inversion.{bind-elim, raise_if-elim, time_now-elim, mapped_query-ok}
use thittam.Expense.{
  ExpenseStatus, submitted, approved, Claims, ApprovalWorkflow, ExpenseConfig, PettyCashAdvance,
  is_advance, is_settled, greater_than, advance_or_none, select_advance, get_petty_cash_advance,
  settle_petty_cash, settled, settlement, settle_advance, update_petty_cash_advance,
}
use thittam.Expense.Workflow.{
  Claim, claim, Moves, stay, enter, approve, reject, Follows, here, next, ExpenseCall,
  expense_history, expense_history-Follows,
}

-- Neither submitted nor approved.
abbrev is_idle : ExpenseStatus → Bool
is_idle submitted = false
is_idle approved = false
is_idle _ = true

abbrev pub idle_claim : Option Claim → Bool
idle_claim none = true
idle_claim (some (status, amount)) = is_idle status

Moves-idle :
    (w : ApprovalWorkflow) (tenant id : ℕ) (x : ExpenseCall) (a b : Option Claim)
    → Moves w tenant id x a b
    → idle_claim a ≡ true
    → idle_claim b ≡ true
Moves-idle w tenant id x a b stay h = h
Moves-idle w tenant id x a b (enter called own) h = refl
Moves-idle w tenant id x a b (approve called allowed) h = cc
Moves-idle w tenant id x a b (reject called open_claim) h = refl

Follows-idle :
    (w : ApprovalWorkflow) (tenant id : ℕ) (xs : List ExpenseCall) (a b : Option Claim)
    → Follows w tenant id xs a b
    → idle_claim a ≡ true
    → idle_claim b ≡ true
Follows-idle w tenant id [] a b here h = h
Follows-idle w tenant id (x ∷ xs) a b (next {b = m} step rest) h =
    Follows-idle w tenant id xs m b rest (Moves-idle w tenant id x a m step h)

-- An expense that is not stored yet, or is neither submitted nor approved, is neither submitted
-- nor approved after any sequence of calls of SubmitExpense, ApproveExpense and RejectExpense.
pub expense_history-idle :
    (cfg : ExpenseConfig) (xs : List ExpenseCall) (w : World Claims) (tenant id : ℕ)
    → idle_claim (claim tenant id w.tables) ≡ true
    → idle_claim (claim tenant id (expense_history cfg xs w).tables) ≡ true
expense_history-idle cfg xs w tenant id h =
    Follows-idle cfg.approval_workflow tenant id xs _ _ (expense_history-Follows cfg xs w tenant id)
      h

-- What a settlement has checked.
abbrev Settleable : ℕ → ℕ → ℕ → ℤ → Claims → Type 0
Settleable tenant id caller unspent t =
    (a : PettyCashAdvance) × (find_row (is_advance tenant id) t.advances ≡ some a)
    × (a.issued_to ≡ caller)
    × (is_settled a.status ≡ false)
    × (greater_than unspent a.amount ≡ false)

abbrev pub Settled : ℕ → ℕ → ℕ → ℤ → Claims → Claims → Type 0
Settled tenant id caller unspent t u =
    (a : PettyCashAdvance) × (find_row (is_advance tenant id) t.advances ≡ some a)
    × (a.issued_to ≡ caller)
    × (is_settled a.status ≡ false)
    × (greater_than unspent a.amount ≡ false)
    × (b : PettyCashAdvance) × (find_row (is_advance tenant id) u.advances ≡ some b)
    × (b.status ≡ settled)
    × (b.unspent_amount ≡ unspent)
    × (b.amount ≡ a.amount)

found-advance :
    (t : Claims) (o : Option PettyCashAdvance) {a : PettyCashAdvance} {u : Claims}
    → advance_or_none t o ≡ ok (a, u)
    → (o ≡ some a) × (u ≡ t)
found-advance t none h = absurd (cc)
found-advance t (some x) h = ground arith

settle_petty_cash-Settleable :
    (tenant id caller : ℕ) (unspent : ℤ) (w : World Claims) {v : World Claims}
    → settle_petty_cash tenant id caller unspent w ≡ (ok tt, v)
    → Settleable tenant id caller unspent w.tables
unfolding settle_petty_cash get_petty_cash_advance select_advance
settle_petty_cash-Settleable tenant id caller unspent w h = bind-elim _ w _ h λ a u asked h1.
    raise_if-elim u _ _ _ h1 λ holder h2. raise_if-elim u _ _ _ h2 λ open_advance h3.
      raise_if-elim u _ _ _ h3 λ enough h4.
        let (t, found, after) = mapped_query-ok _ _ w asked in
        let (there, _) = found-advance w.tables _ found in
        (a, there, eq_of_== a.issued_to caller (ground arith), open_advance, enough)

settled-advances :
    (a : PettyCashAdvance) (now : Time) (t u : Claims)
    → settle_advance a now t ≡ ok (tt, u)
    → u.advances ≡ update_rows (is_advance a.tenant_id a.id) (settlement a now) t.advances
unfolding settle_advance
settled-advances a now t u h = ground arith

-- An update by the advance's own identifier leaves it where it was found.
settled-row :
    (tenant id : ℕ) (a : PettyCashAdvance) (f : PettyCashAdvance → PettyCashAdvance)
    (before after : List PettyCashAdvance)
    → ((x : PettyCashAdvance) → is_advance tenant id (f x) ≡ is_advance tenant id x)
    → find_row (is_advance tenant id) before ≡ some a
    → after ≡ update_rows (is_advance a.tenant_id a.id) f before
    → find_row (is_advance tenant id) after ≡ some (f a)
settled-row tenant id a f before after same found moved =
    let kept : is_advance a.tenant_id a.id a ≡ true =
      ground (arith, ==_refl a.id, ==_refl a.tenant_id) in
    let looked =
      find_row-update_rows (is_advance a.tenant_id a.id) (is_advance tenant id) f before same in
    ap (find_row (is_advance tenant id)) moved
    ∙ looked
    ∙ ap (touched (is_advance a.tenant_id a.id) f) found
    ∙ ap (λ b. some (if b then f a else a)) kept

-- When SettlePettyCash returns no error, the stored advance was issued to the caller, was not
-- settled, and was at least the unspent amount, and the advance now stored is settled with this
-- unspent amount, its own amount unchanged.
pub settle_petty_cash-Settled :
    (tenant id caller : ℕ) (unspent : ℤ) (w : World Claims) {v : World Claims}
    → settle_petty_cash tenant id caller unspent w ≡ (ok tt, v)
    → Settled tenant id caller unspent w.tables v.tables
unfolding settle_petty_cash get_petty_cash_advance select_advance update_petty_cash_advance
settle_petty_cash-Settled tenant id caller unspent w {v} h = bind-elim _ w _ h λ a u asked h1.
    raise_if-elim u _ _ _ h1 λ holder h2. raise_if-elim u _ _ _ h2 λ open_advance h3.
      raise_if-elim u _ _ _ h3 λ enough h4. time_now-elim u _ h4 λ h5.
        let (t, found, after) = mapped_query-ok _ _ w asked in
        let (there, same) = found-advance w.tables _ found in
        let (t', done, after') = mapped_query-ok _ _ (after_call u) h5 in
        let back : u.tables ≡ w.tables = ap (λ v. v.tables) after ∙ same in
        let closed = record a {
          status = settled;
          unspent_amount = unspent;
          settled_at = some (u.env.time u.tick);
        } in
        let f = settlement closed ((after_call u).env.time (after_call u).tick) in
        let moved = settled-advances closed _ _ _ done in
        let left : v.tables ≡ t' = ap (λ v. v.tables) after' in
        (
          a,
          there,
          eq_of_== a.issued_to caller (ground arith),
          open_advance,
          enough,
          f a,
          settled-row tenant id a f w.tables.advances v.tables.advances (λ x. refl) there
              (ap (λ t. t.advances) left
                ∙ moved
                ∙ ap (λ t. update_rows (is_advance a.tenant_id a.id) f t.advances) back),
          refl,
          refl,
          refl,
        )
