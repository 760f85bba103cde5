-- ===== src/Expense/Workflow.antt =====
-- The abstract workflow of an expense, and that every operation follows it.
use thittam.Base.{
  ℕ, ◌≡◌, refl, Bool, true, false, ◌&&◌, ◌||◌, Option, none, some, List, [], ◌∷◌, ◌++◌, ◌==◌,
  eq_of_==, if◌then◌else◌, arith, Bool-cases, inl, inr,
}
use thittam.Base.Int.{ℤ}
use thittam.Base.Rows.{find_row, find_row-holds, has_row, touched, find_row-update_rows}
use thittam.Base.Text.{Text}
use thittam.Base.Time.{Time}
use thittam.Base.Action.{Result, ok, err, World, pure, new_uuid}
use thittam.Base.Hoare.{
  After, AfterStatement, Meets, Meets-pure, Meets-lift, Meets-if, Meets-map, Meets-bind,
  Meets-query, Meets-raise_if, Meets-given, Meets-new_uuid, Meets-modify, Meets-time_now,
}
use thittam.Ledger.Queries.{numeric_fits}
use thittam.Expense.{
  ExpenseStatus, draft, submitted, approved, rejected, paid, Expense, Claims, ExpenseError, Book,
  order_exists, ApprovalWorkflow, ExpenseConfig, max_limit_for_roles, has_super_admin, within_limit,
  check_authority, is_expense, expense_or_none, select_expense, get_expense, inserted,
  insert_expense, create_expense, set_expenses, update_expense_status, update_expense, reject_row,
  handed, publish, id_or_new, submit_expense, check_approvable, approve_expense, check_rejectable,
  reject_expense,
}
use thittam.Expense.Limits.{AtMost, Authority, greater_than-AtMost, limits-Authority}

-- What the workflow knows of an expense: its status and its amount.
abbrev pub Claim : Type 0
Claim = ExpenseStatus × ℤ

abbrev claim_of : Option Expense → Option Claim
claim_of none = none
claim_of (some e) = some (e.status, e.amount)

unfoldable pub claim : ℕ → ℕ → Claims → Option Claim
claim tenant id t = claim_of (find_row (is_expense tenant id) t.expenses)

-- The calls of the service on expenses.
pub data ExpenseCall : Type 0 where
  submission : Expense → ExpenseCall
  approval : ℕ → ℕ → ℕ → List Text → ExpenseCall
  rejection : ℕ → ℕ → ℕ → Text → ExpenseCall

abbrev pub expense_call : ExpenseConfig → ExpenseCall → Book (Unit {0})
expense_call cfg (submission e) = submit_expense cfg e
expense_call cfg (approval tenant id approver roles) = approve_expense cfg tenant id approver roles
expense_call cfg (rejection tenant id rejecter reason) = reject_expense tenant id rejecter reason

-- These roles may approve the amount, and it is not above the threshold of a second approval.
pub record MayApprove (w : ApprovalWorkflow) (roles : List Text) (amount : ℤ) : Type 0 where
  pub allowed : Authority w roles amount
  pub single : AtMost amount w.dual_approval_above

-- The statuses in which an expense can be rejected.
pub data IsOpen : ExpenseStatus → Type 0 where
  open_draft : IsOpen draft
  open_submitted : IsOpen submitted
  open_paid : IsOpen paid

-- The abstract workflow: what one call may do to the claim of one expense.
pub data Moves (w : ApprovalWorkflow) (tenant id : ℕ) (call : ExpenseCall)
    : Option Claim → Option Claim → Type 0 where
  stay : {c : Option Claim} → Moves w tenant id call c c
  enter :
      {e : Expense}
      → call ≡ submission e
      → e.tenant_id ≡ tenant
      → Moves w tenant id call none (some (draft, e.amount))
  approve :
      {approver : ℕ} {roles : List Text} {amount : ℤ}
      → call ≡ approval tenant id approver roles
      → MayApprove w roles amount
      → Moves w tenant id call (some (submitted, amount)) (some (approved, amount))
  reject :
      {rejecter : ℕ} {reason : Text} {status : ExpenseStatus} {amount : ℤ}
      → call ≡ rejection tenant id rejecter reason
      → IsOpen status
      → Moves w tenant id call (some (status, amount)) (some (rejected, amount))

abbrev later : Option Expense → Option Expense → Option Expense
later none o = o
later (some e) o = some e

handed-expenses : (e : Expense) (t : Claims) → (handed e t).expenses ≡ t.expenses
handed-expenses e t = ground arith

approvable :
    (s : ExpenseStatus) (P R : Claims → Type 0) (t : Claims)
    → P t
    → R t
    → After (λ _ u. (s ≡ submitted) × P u) R (check_approvable s) t
approvable approved P R t p r = r
approvable rejected P R t p r = r
approvable submitted P R t p r = (refl, p)
approvable draft P R t p r = r
approvable paid P R t p r = r

rejectable :
    (s : ExpenseStatus) (P R : Claims → Type 0) (t : Claims)
    → P t
    → R t
    → After (λ _ u. IsOpen s × P u) R (check_rejectable s) t
rejectable approved P R t p r = r
rejectable rejected P R t p r = r
rejectable submitted P R t p r = (open_submitted, p)
rejectable draft P R t p r = (open_draft, p)
rejectable paid P R t p r = (open_paid, p)

find_row-append_one :
    (q : Expense → Bool) (es : List Expense) (x : Expense)
    → find_row q (es ++ x ∷ []) ≡ later (find_row q es) (if q x then some x else none)
unfolding find_row
find_row-append_one q [] x = refl
find_row-append_one q (e ∷ es) x = ground (arith, find_row-append_one q es x)

module _ (w : ApprovalWorkflow) (step : ExpenseCall) where
  -- An update of the row that was found moves its claim, and no other.
  touched-Moves :
      (tenant id tenant' id' : ℕ) (f : Expense → Expense) (es : List Expense) (e : Expense)
      → find_row (is_expense tenant id) es ≡ some e
      → Moves w tenant id step (some (e.status, e.amount)) (some ((f e).status, (f e).amount))
      → (o : Option Expense) → find_row (is_expense tenant' id') es ≡ o
      → Moves w tenant' id' step (claim_of o) (claim_of (touched (is_expense tenant id) f o))
  touched-Moves tenant id tenant' id' f es e found move none missing = stay
  touched-Moves tenant id tenant' id' f es e found move (some x) there =
      elim (Bool-cases (is_expense tenant id x)) [
        | inr other ↦ rw other stay
        | inl hit ↦
            let here = find_row-holds (is_expense tenant' id') es there in
            let same_id : id ≡ id' = ground (arith, eq_of_== x.id id, eq_of_== x.id id') in
            let same_tenant : tenant ≡ tenant' =
              ground (arith, eq_of_== x.tenant_id tenant, eq_of_== x.tenant_id tenant') in
            let back : find_row (is_expense tenant id) es ≡ some x =
              rw (same_id, same_tenant) there in
            let same : e ≡ x = ground (arith, found, back) in
            rw hit (rw (← same, ← same_id, ← same_tenant) move)
      ]

  module _ (tenant' id' : ℕ) (c : Option Claim) where
    -- The claim that is looked at is as it was, or has moved.
    abbrev Before : Claims → Type 0
    Before t = claim tenant' id' t ≡ c

    abbrev Moved : Claims → Type 0
    Moved t = Moves w tenant' id' step c (claim tenant' id' t)

    Before-Moved : (t : Claims) → Before t → Moved t
    Before-Moved t h = rw h stay

    set_expenses-Moved :
        (tenant id : ℕ) (f : Expense → Expense) (e : Expense) (t : Claims)
        → ((x : Expense) → is_expense tenant' id' (f x) ≡ is_expense tenant' id' x)
        → find_row (is_expense tenant id) t.expenses ≡ some e
        → Moves w tenant id step (some (e.status, e.amount)) (some ((f e).status, (f e).amount))
        → Before t
        → AfterStatement (λ _. Moved) Moved t (set_expenses (is_expense tenant id) f t)
    unfolding claim
    set_expenses-Moved tenant id f e t same found move before =
        elim (Bool-cases (has_row (is_expense tenant id) t.expenses)) [
          | inr absent ↦ rw absent (rw before stay)
          | inl present ↦
              rw
                (
                  present,
                  find_row-update_rows (is_expense tenant id) (is_expense tenant' id') f t.expenses
                      same,
                  ← before,
                )
                (touched-Moves tenant id tenant' id' f t.expenses e found move _ refl)
        ]

    abbrev Found : ℕ → ℕ → Expense → Claims → Type 0
    Found tenant id e t = (find_row (is_expense tenant id) t.expenses ≡ some e) × Before t

    expense_or_none-Found :
        (tenant id : ℕ) (t : Claims) (o : Option Expense)
        → find_row (is_expense tenant id) t.expenses ≡ o
        → Before t
        → AfterStatement (λ e u. Found tenant id e u) Moved t (expense_or_none t o)
    expense_or_none-Found tenant id t none missing before = Before-Moved t before
    expense_or_none-Found tenant id t (some e) here before = (here, before)

    get_expense-Found :
        (tenant id : ℕ) → Meets Before (Found tenant id) Moved (get_expense tenant id)
    unfolding get_expense select_expense
    get_expense-Found tenant id =
        Meets-query _ _ Before-Moved
          (λ now t before. expense_or_none-Found tenant id t _ refl before)

    publish-Moved : (e : Expense) → Meets Moved (λ _. Moved) Moved (publish e)
    unfolding publish claim
    publish-Moved e = Meets-modify _ (λ t p. rw (handed-expenses e t) p)

    check_authority-MayApprove :
        {P : Claims → Type 0} (roles : List Text) (amount : ℤ)
        → ((t : Claims) → P t → Moved t)
        → Meets P (λ _ t. MayApprove w roles amount × P t) Moved (check_authority w roles amount)
    unfolding check_authority
    check_authority-MayApprove roles amount lost =
        Meets-bind
          (λ _ t.
            ((has_super_admin roles || within_limit amount (max_limit_for_roles w roles)) ≡ true)
            × _)
          _ _ (Meets-raise_if _ _ lost (λ t e p. (ground arith, p)))
          (λ _.
            Meets-raise_if _ _ (λ t p. lost t p.1)
              (λ t e p. (
                record {
                  allowed = limits-Authority w roles amount p.0;
                  single = greater_than-AtMost amount w.dual_approval_above e;
                },
                p.1,
              )))

    update_approved-Moved :
        (tenant id approver : ℕ) (roles : List Text) (time : Time) (e : Expense)
        → step ≡ approval tenant id approver roles
        → e.status ≡ submitted
        → MayApprove w roles e.amount
        → Meets
            (Found tenant id e)
            (λ _. Moved)
            Moved
            (update_expense (record e {
              status = approved;
              approved_by = some approver;
              approved_at = some time;
            }))
    unfolding update_expense update_expense_status
    update_approved-Moved tenant id approver roles time e called status allowed =
        Meets-query _ _ (λ t p. Before-Moved t p.1)
          (λ now t p.
            let hit = find_row-holds (is_expense tenant id) t.expenses p.0 in
            let same_id : e.id ≡ id = ground (arith, eq_of_== e.id id) in
            let same_tenant : e.tenant_id ≡ tenant = ground (arith, eq_of_== e.tenant_id tenant) in
            rw (same_id, same_tenant)
              (set_expenses-Moved tenant id _ e t (λ x. refl) p.0
                (rw status (approve called allowed)) p.1))

    approve_expense-Moved :
        (cfg : ExpenseConfig) (tenant id approver : ℕ) (roles : List Text)
        → cfg.approval_workflow ≡ w
        → step ≡ approval tenant id approver roles
        → Meets Before (λ _. Moved) Moved (approve_expense cfg tenant id approver roles)
    unfolding approve_expense
    approve_expense-Moved cfg tenant id approver roles same called =
        Meets-bind (Found tenant id) _ _ (get_expense-Found tenant id) λ e.
          Meets-bind (λ _ t. (e.status ≡ submitted) × Found tenant id e t) _ _
            (Meets-lift _ (λ t p. approvable e.status _ Moved t p (Before-Moved t p.1)))
            λ _.
              Meets-bind
                (λ _ t.
                  MayApprove w roles e.amount × ((e.status ≡ submitted) × Found tenant id e t))
                _ _
                (rw same (check_authority-MayApprove roles e.amount (λ t p. Before-Moved t p.1.1)))
                λ _.
                  Meets-bind
                    (λ _ t.
                      MayApprove w roles e.amount × ((e.status ≡ submitted) × Found tenant id e t))
                    _ _ (Meets-time_now (λ now t p. p))
                    λ now.
                      Meets-bind (λ _. Moved) _ _
                        (Meets-given {C = (e.status ≡ submitted) × MayApprove w roles e.amount} _
                          (λ t p. (p.1.0, p.0))
                          (λ known.
                            Meets-map _ (λ t p. p.1.1) (λ _ t q. q) (λ t q. q)
                              (update_approved-Moved tenant id approver roles now e called known.0
                                known.1)))
                        λ _. publish-Moved _

    reject_expense-Moved :
        (tenant id rejecter : ℕ) (reason : Text)
        → step ≡ rejection tenant id rejecter reason
        → Meets Before (λ _. Moved) Moved (reject_expense tenant id rejecter reason)
    unfolding reject_expense reject_row
    reject_expense-Moved tenant id rejecter reason called =
        Meets-bind (Found tenant id) _ _ (get_expense-Found tenant id) λ e.
          Meets-bind (λ _ t. IsOpen e.status × Found tenant id e t) _ _
            (Meets-lift _ (λ t p. rejectable e.status _ Moved t p (Before-Moved t p.1)))
            λ _.
              Meets-query _ _ (λ t p. Before-Moved t p.1.1)
                (λ now t p.
                  set_expenses-Moved tenant id _ e t (λ x. refl) p.1.0 (reject called p.0) p.1.1)

    entered-Moves :
        (o : Option Expense) (b : Bool) (x e : Expense)
        → step ≡ submission e
        → x.status ≡ draft
        → x.amount ≡ e.amount
        → (b ≡ true → e.tenant_id ≡ tenant')
        → Moves w tenant' id' step (claim_of o) (claim_of (later o (if b then some x else none)))
    entered-Moves none true x e called status amount own =
        rw (status, amount) (enter called (own refl))
    entered-Moves none false x e called status amount own = stay
    entered-Moves (some y) b x e called status amount own = stay

    insert_expense-Moved :
        (source : Expense) (id : ℕ) (now : Time) (t : Claims)
        → step ≡ submission source
        → Before t
        → AfterStatement
            (λ _. Moved)
            Moved
            t
            (insert_expense (record source { id = id; status = submitted }) now t)
    unfolding insert_expense claim
    insert_expense-Moved source id now t called before =
        let e = record source { id = id; status = submitted } in
        elim (Bool-cases (has_row (λ r. r.id == e.id) t.expenses)) [
          | inl there ↦ rw there (rw before stay)
          | inr free ↦
              elim (Bool-cases (
                order_exists t.orders e.purchase_order_id
                && (numeric_fits e.amount && numeric_fits e.tax_amount))) [
                  | inr bad ↦ rw (free, bad) (rw before stay)
                  | inl good ↦
                      rw
                        (
                          free,
                          good,
                          find_row-append_one (is_expense tenant' id') t.expenses (inserted now e),
                          ← before,
                        )
                        (entered-Moves _ (is_expense tenant' id' (inserted now e)) (inserted now e)
                          source called refl refl
                          (λ hit. ground (arith, eq_of_== source.tenant_id tenant')))
                ]
        ]

    submit_expense-Moved :
        (cfg : ExpenseConfig) (e : Expense)
        → step ≡ submission e
        → Meets Before (λ _. Moved) Moved (submit_expense cfg e)
    unfolding submit_expense create_expense id_or_new
    submit_expense-Moved cfg e called =
        Meets-bind (λ _. Before) _ _ (Meets-lift _ (λ t p. after-Either _ t p))
          λ _.
            Meets-bind (λ _. Before) _ _
              (Meets-if (e.id == 0) new_uuid (pure e.id) (λ _. Meets-new_uuid (λ id t p. p))
                (λ _. Meets-pure e.id (λ t p. p)))
              λ id.
                Meets-bind (λ _. Moved) _ _
                  (Meets-query _ _ Before-Moved
                    (λ now t p. insert_expense-Moved e id now t called p))
                  λ _. publish-Moved _
      where
        after-Either :
            (r : Result ExpenseError (Unit {0})) (t : Claims)
            → Before t
            → After (λ _. Before) Moved r t
        after-Either (ok u) t p = p
        after-Either (err x) t p = Before-Moved t p

call-Meets :
    (cfg : ExpenseConfig) (tenant id : ℕ) (c : Option Claim) (x : ExpenseCall)
    → Meets
        (Before cfg.approval_workflow x tenant id c)
        (λ _. Moved cfg.approval_workflow x tenant id c)
        (Moved cfg.approval_workflow x tenant id c)
        (expense_call cfg x)
call-Meets cfg tenant id c (submission e) =
    submit_expense-Moved cfg.approval_workflow (submission e) tenant id c cfg e refl
call-Meets cfg tenant id c (approval t i a roles) =
    approve_expense-Moved cfg.approval_workflow (approval t i a roles) tenant id c cfg t i a roles
      refl refl
call-Meets cfg tenant id c (rejection t i r reason) =
    reject_expense-Moved cfg.approval_workflow (rejection t i r reason) tenant id c t i r reason
      refl

after_either :
    (P : Claims → Type 0) (r : Result ExpenseError (Unit {0})) (t : Claims)
    → After (λ _. P) P r t
    → P t
after_either P (ok u) t h = h
after_either P (err x) t h = h

-- A run of several calls, each whatever the ones before have returned.
abbrev pub expense_history : ExpenseConfig → List ExpenseCall → World Claims → World Claims
expense_history cfg [] w = w
expense_history cfg (x ∷ xs) w = expense_history cfg xs (expense_call cfg x w).1

-- Steps of the abstract workflow, one for each call in their order.
pub data Follows (w : ApprovalWorkflow) (tenant id : ℕ)
    : List ExpenseCall → Option Claim → Option Claim → Type 0 where
  here : {c : Option Claim} → Follows w tenant id [] c c
  next :
      {x : ExpenseCall} {xs : List ExpenseCall} {a b c : Option Claim}
      → Moves w tenant id x a b
      → Follows w tenant id xs b c
      → Follows w tenant id (x ∷ xs) a c

-- Over any sequence of calls of SubmitExpense, ApproveExpense and RejectExpense, each of which
-- may fail at any of its calls of the database, the status and the amount of every single
-- expense follow the abstract workflow, one step for each call: it stays as it is; or the call
-- submits an expense of its tenant and it enters as a draft with the submitted amount; or the
-- call approves this expense, it goes from submitted to approved with its amount, the roles of
-- this call contain super_admin or a role whose first limit is at least the amount, and the
-- amount is not above the threshold of a second approval; or the call rejects this expense,
-- which goes from draft, submitted or paid to rejected with its amount.
pub expense_history-Follows :
    (cfg : ExpenseConfig) (xs : List ExpenseCall) (w : World Claims) (tenant id : ℕ)
    → Follows cfg.approval_workflow tenant id xs
        (claim tenant id w.tables)
        (claim tenant id (expense_history cfg xs w).tables)
expense_history-Follows cfg [] w tenant id = here
expense_history-Follows cfg (x ∷ xs) w tenant id =
    let step = (call-Meets cfg tenant id (claim tenant id w.tables) x).apply w refl in
    next (after_either _ (expense_call cfg x w).0 _ step)
      (expense_history-Follows cfg xs (expense_call cfg x w).1 tenant id)
