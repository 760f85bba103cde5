-- ===== src/Expense.antt =====
-- services/expense: models.go, errors.go, the operations of service.go and db/postgres.go on the
-- claims, the purchase orders' approval and petty cash, and the limits of pkg/vertical/helpers.go.
pub mod Workflow
pub mod Stuck
pub mod Orders
pub mod Limits
pub mod Tests
use thittam.Base.{
  ℕ, Bool, true, false, not, ◌&&◌, ◌||◌, Option, none, some, List, [], ◌∷◌, ◌++◌, ◌==◌,
  if◌then◌else◌,
}
use thittam.Base.Int.{ℤ, pos, ◌-ℤ◌, is_positive}
use thittam.Base.Rows.{find_row, has_row, update_rows}
use thittam.Base.Text.{Text, text, eqb_text}
use thittam.Base.Time.{Time}
use thittam.Base.Action.{
  Action, Statement, Result, ok, err, ◌>>=◌, ◌>>◌, pure, raise, raise_if, map_error, lift, new_uuid,
  time_now, modify, query, QueryError, no_rows, unique_violation, query_failed,
}
use thittam.Ledger.Queries.{numeric_fits}
use thittam.Registration.Ports.{ExpenseCategory}

pub data ExpenseStatus : Type 0 where
  draft submitted approved rejected paid : ExpenseStatus

pub data OrderStatus : Type 0 where
  order_draft order_approved partially_invoiced closed cancelled : OrderStatus

pub data AdvanceStatus : Type 0 where
  issued partially_settled settled : AdvanceStatus

-- The nullable column of the description reads NULL as the empty text.
pub record Expense : Type 0 where
  pub id : ℕ
  pub production_id : ℕ
  pub tenant_id : ℕ
  pub budget_line_id : Option ℕ
  pub purchase_order_id : Option ℕ
  pub category_id : Text
  pub description : Text
  pub amount : ℤ
  pub currency : Text
  pub tax_amount : ℤ
  pub status : ExpenseStatus
  pub party_id : Option ℕ
  pub submitted_by : ℕ
  pub approved_by : Option ℕ
  pub rejected_by : Option ℕ
  pub submitted_at : Option Time
  pub approved_at : Option Time
  pub created_at : Time
  pub rejection_reason : Option Text
  pub rejected_at : Option Time

-- The nullable columns of a vendor's registration and of the description read NULL as the empty text.
pub record PurchaseOrder : Type 0 where
  pub id : ℕ
  pub production_id : ℕ
  pub tenant_id : ℕ
  pub budget_line_id : Option ℕ
  pub po_number : Text
  pub vendor_name : Text
  pub vendor_gstin : Text
  pub description : Text
  pub amount : ℤ
  pub currency : Text
  pub status : OrderStatus
  pub party_id : Option ℕ
  pub raised_by : ℕ
  pub approved_by : Option ℕ
  pub raised_at : Time
  pub approved_at : Option Time
  pub created_at : Time

pub record PettyCashAdvance : Type 0 where
  pub id : ℕ
  pub production_id : ℕ
  pub tenant_id : ℕ
  pub issued_to : ℕ
  pub amount : ℤ
  pub purpose : Text
  pub status : AdvanceStatus
  pub issued_at : Time
  pub settled_at : Option Time
  pub unspent_amount : ℤ

-- The tables, and what was handed to the publisher, if there is one.
pub record Claims : Type 0 where
  pub expenses : List Expense
  pub orders : List PurchaseOrder
  pub advances : List PettyCashAdvance
  pub publisher : Bool
  pub published : List Expense

pub data ExpenseError : Type 0 where
  expense_not_found po_not_found already_approved already_rejected already_settled : ExpenseError
  unspent_exceeds_advance approval_limit_exceeded dual_approval_required : ExpenseError
  po_required invalid_category insufficient_budget not_advance_holder not_approvable internal :
      ExpenseError

abbrev pub Book : Type 0 → Type 0
Book A = Action Claims ExpenseError A

pub record ApprovalLimit : Type 0 where
  pub role : Text
  pub max_amount : ℤ

pub record ApprovalWorkflow : Type 0 where
  pub limits : List ApprovalLimit
  pub dual_approval_above : ℤ

-- The part of vertical.Config that the service reads.
pub record ExpenseConfig : Type 0 where
  pub expense_categories : List ExpenseCategory
  pub approval_workflow : ApprovalWorkflow

-- a.GreaterThan(b).
abbrev pub greater_than : ℤ → ℤ → Bool
greater_than a b = is_positive (a -ℤ b)

unfoldable pub limit_for_role : Text → List ApprovalLimit → Option ℤ
limit_for_role role [] = none
limit_for_role role (l ∷ ls) =
    let rest = limit_for_role role ls in if eqb_text l.role role then some l.max_amount else rest

-- The larger of the highest limit so far and that of one more role.
abbrev pub max_limit : Option ℤ → Option ℤ → Option ℤ
max_limit max none = max
max_limit none (some limit) = some limit
max_limit (some max) (some limit) = if greater_than limit max then some limit else some max

unfoldable pub max_limit_from : Option ℤ → List ApprovalLimit → List Text → Option ℤ
max_limit_from max limits [] = max
max_limit_from max limits (r ∷ rs) =
    max_limit_from (max_limit max (limit_for_role r limits)) limits rs

abbrev pub max_limit_for_roles : ApprovalWorkflow → List Text → Option ℤ
max_limit_for_roles w roles = max_limit_from none w.limits roles

unfoldable pub has_super_admin : List Text → Bool
has_super_admin roles = has_row (λ r. eqb_text r (text "super_admin")) roles

abbrev pub within_limit : ℤ → Option ℤ → Bool
within_limit amount none = false
within_limit amount (some limit) = not (greater_than amount limit)

-- The two checks that the approvals share: the limit of the roles, and the threshold.
unfoldable pub check_authority : ApprovalWorkflow → List Text → ℤ → Book (Unit {0})
check_authority w roles amount = do
  raise_if (not (has_super_admin roles || within_limit amount (max_limit_for_roles w roles)))
      approval_limit_exceeded
  raise_if (greater_than amount w.dual_approval_above) dual_approval_required

abbrev pub is_expense : ℕ → ℕ → Expense → Bool
is_expense tenant id e = e.id == id && e.tenant_id == tenant

abbrev pub expense_or_none : Claims → Option Expense → Result QueryError (Expense × Claims)
expense_or_none t none = err no_rows
expense_or_none t (some e) = ok (e, t)

unfoldable pub select_expense : ℕ → ℕ → Statement Claims Expense
select_expense tenant id now t = expense_or_none t (find_row (is_expense tenant id) t.expenses)

abbrev pub not_found : ExpenseError → QueryError → ExpenseError
not_found missing no_rows = missing
not_found missing unique_violation = internal
not_found missing query_failed = internal

unfoldable pub get_expense : ℕ → ℕ → Book Expense
get_expense tenant id = map_error (not_found expense_not_found) (query (select_expense tenant id))

-- The insert names neither the status, which is 'draft' by default, nor the times of submission and
-- approval. An identifier that is there already gives no row back; a purchase order must exist,
-- and the amounts must fit their columns.
abbrev pub inserted : Time → Expense → Expense
inserted now e = record e {
  status = draft;
  approved_by = none;
  rejected_by = none;
  submitted_at = none;
  approved_at = none;
  created_at = now;
  rejection_reason = none;
  rejected_at = none;
}

abbrev pub order_exists : List PurchaseOrder → Option ℕ → Bool
order_exists os none = true
order_exists os (some id) = has_row (λ o. o.id == id) os

unfoldable pub insert_expense : Expense → Statement Claims (Unit {0})
insert_expense e now t =
    if has_row (λ r. r.id == e.id) t.expenses
    then err no_rows
    else if order_exists t.orders e.purchase_order_id
        && (numeric_fits e.amount && numeric_fits e.tax_amount)
    then ok (tt, record t { expenses = t.expenses ++ inserted now e ∷ [] })
    else err query_failed

unfoldable pub create_expense : Expense → Book (Unit {0})
create_expense e = map_error (λ _. internal) (query (insert_expense e))

-- UpdateExpenseStatus with its CASE expressions.
abbrev pub with_status : ExpenseStatus → Option ℕ → Time → Expense → Expense
with_status approved by now e = record e {
  status = approved;
  approved_by = by;
  approved_at = some now;
}
with_status submitted by now e = record e { status = submitted; submitted_at = some now }
with_status draft by now e = record e { status = draft }
with_status rejected by now e = record e { status = rejected }
with_status paid by now e = record e { status = paid }

abbrev pub set_expenses :
    (Expense → Bool) → (Expense → Expense) → Claims → Result QueryError (Unit {0} × Claims)
set_expenses p f t =
    if has_row p t.expenses
    then ok (tt, record t { expenses = update_rows p f t.expenses })
    else err no_rows

unfoldable pub update_expense_status : Expense → Statement Claims (Unit {0})
update_expense_status e now t =
    set_expenses (is_expense e.tenant_id e.id) (with_status e.status e.approved_by now) t

unfoldable pub update_expense : Expense → Book (Unit {0})
update_expense e = map_error (not_found expense_not_found) (query (update_expense_status e))

abbrev pub with_rejection : ℕ → Text → Time → Expense → Expense
with_rejection by reason now e = record e {
  status = rejected;
  rejection_reason = some reason;
  rejected_at = some now;
  rejected_by = some by;
}

unfoldable pub reject_row : ℕ → ℕ → ℕ → Text → Statement Claims (Unit {0})
reject_row tenant id by reason now t =
    set_expenses (is_expense tenant id) (with_rejection by reason now) t

-- Service.publish: the outcome of the publisher is dropped.
abbrev pub handed : Expense → Claims → Claims
handed e t = if t.publisher then record t { published = t.published ++ e ∷ [] } else t

unfoldable pub publish : Expense → Book (Unit {0})
publish e = modify (handed e)

unfoldable pub id_or_new : ℕ → Book ℕ
id_or_new id = if id == 0 then new_uuid else pure id

abbrev pub check_category : Expense → Option ExpenseCategory → Result ExpenseError (Unit {0})
check_category e none = err invalid_category
check_category e (some c) = elim e.purchase_order_id [
  | none ↦ if c.requires_po then err po_required else ok tt
  | some id ↦ ok tt
]

unfoldable pub submit_expense : ExpenseConfig → Expense → Book (Unit {0})
submit_expense cfg e = do
  lift (check_category e (find_row (λ c. eqb_text c.id e.category_id) cfg.expense_categories))
  id ← id_or_new e.id
  create_expense (record e { id = id; status = submitted })
  publish (record e { id = id; status = submitted })

abbrev pub check_approvable : ExpenseStatus → Result ExpenseError (Unit {0})
check_approvable approved = err already_approved
check_approvable rejected = err already_rejected
check_approvable submitted = ok tt
check_approvable draft = err not_approvable
check_approvable paid = err not_approvable

unfoldable pub approve_expense : ExpenseConfig → ℕ → ℕ → ℕ → List Text → Book (Unit {0})
approve_expense cfg tenant id approver roles = do
  e ← get_expense tenant id
  lift (check_approvable e.status)
  check_authority cfg.approval_workflow roles e.amount
  now ← time_now
  update_expense
      (record e { status = approved; approved_by = some approver; approved_at = some now })
  publish (record e { status = approved; approved_by = some approver; approved_at = some now })

abbrev pub check_rejectable : ExpenseStatus → Result ExpenseError (Unit {0})
check_rejectable approved = err already_approved
check_rejectable rejected = err already_rejected
check_rejectable _ = ok tt

unfoldable pub reject_expense : ℕ → ℕ → ℕ → Text → Book (Unit {0})
reject_expense tenant id rejecter reason = do
  e ← get_expense tenant id
  lift (check_rejectable e.status)
  map_error (not_found expense_not_found) (query (reject_row tenant id rejecter reason))

abbrev pub is_advance : ℕ → ℕ → PettyCashAdvance → Bool
is_advance tenant id a = a.id == id && a.tenant_id == tenant

abbrev pub advance_or_none :
    Claims → Option PettyCashAdvance → Result QueryError (PettyCashAdvance × Claims)
advance_or_none t none = err no_rows
advance_or_none t (some a) = ok (a, t)

unfoldable pub select_advance : ℕ → ℕ → Statement Claims PettyCashAdvance
select_advance tenant id now t = advance_or_none t (find_row (is_advance tenant id) t.advances)

unfoldable pub get_petty_cash_advance : ℕ → ℕ → Book PettyCashAdvance
get_petty_cash_advance tenant id =
    map_error (not_found expense_not_found) (query (select_advance tenant id))

abbrev pub is_settled : AdvanceStatus → Bool
is_settled settled = true
is_settled _ = false

abbrev pub settlement : PettyCashAdvance → Time → PettyCashAdvance → PettyCashAdvance
settlement a now r = record r {
  status = a.status;
  unspent_amount = a.unspent_amount;
  settled_at = if is_settled a.status then some now else r.settled_at;
}

unfoldable pub settle_advance : PettyCashAdvance → Statement Claims (Unit {0})
settle_advance a now t =
    if not (has_row (is_advance a.tenant_id a.id) t.advances)
    then err no_rows
    else if numeric_fits a.unspent_amount
    then ok (
      tt,
      record t {
        advances = update_rows (is_advance a.tenant_id a.id) (settlement a now) t.advances;
      },
    )
    else err query_failed

unfoldable pub update_petty_cash_advance : PettyCashAdvance → Book (Unit {0})
update_petty_cash_advance a = map_error (not_found expense_not_found) (query (settle_advance a))

unfoldable pub settle_petty_cash : ℕ → ℕ → ℕ → ℤ → Book (Unit {0})
settle_petty_cash tenant id caller unspent = do
  a ← get_petty_cash_advance tenant id
  raise_if (not (a.issued_to == caller)) not_advance_holder
  raise_if (is_settled a.status) already_settled
  raise_if (greater_than unspent a.amount) unspent_exceeds_advance
  now ← time_now
  update_petty_cash_advance
      (record a { status = settled; unspent_amount = unspent; settled_at = some now })

abbrev pub is_order : ℕ → ℕ → PurchaseOrder → Bool
is_order tenant id o = o.id == id && o.tenant_id == tenant

abbrev pub order_or_none :
    Claims → Option PurchaseOrder → Result QueryError (PurchaseOrder × Claims)
order_or_none t none = err no_rows
order_or_none t (some o) = ok (o, t)

unfoldable pub select_order : ℕ → ℕ → Statement Claims PurchaseOrder
select_order tenant id now t = order_or_none t (find_row (is_order tenant id) t.orders)

unfoldable pub get_purchase_order : ℕ → ℕ → Book PurchaseOrder
get_purchase_order tenant id = map_error (not_found po_not_found) (query (select_order tenant id))

abbrev pub is_approved_order : OrderStatus → Bool
is_approved_order order_approved = true
is_approved_order _ = false

abbrev pub order_update : PurchaseOrder → Time → PurchaseOrder → PurchaseOrder
order_update o now r = record r {
  status = o.status;
  approved_by = if is_approved_order o.status then o.approved_by else r.approved_by;
  approved_at = if is_approved_order o.status then some now else r.approved_at;
}

unfoldable pub update_order_status : PurchaseOrder → Statement Claims (Unit {0})
update_order_status o now t =
    if has_row (is_order o.tenant_id o.id) t.orders
    then ok (
      tt,
      record t { orders = update_rows (is_order o.tenant_id o.id) (order_update o now) t.orders },
    )
    else err no_rows

unfoldable pub update_purchase_order : PurchaseOrder → Book (Unit {0})
update_purchase_order o = map_error (not_found po_not_found) (query (update_order_status o))

abbrev pub check_order_approvable : OrderStatus → Result ExpenseError (Unit {0})
check_order_approvable order_approved = err already_approved
check_order_approvable order_draft = ok tt
check_order_approvable _ = err not_approvable

unfoldable pub approve_purchase_order : ExpenseConfig → ℕ → ℕ → ℕ → List Text → Book (Unit {0})
approve_purchase_order cfg tenant id approver roles = do
  o ← get_purchase_order tenant id
  lift (check_order_approvable o.status)
  check_authority cfg.approval_workflow roles o.amount
  now ← time_now
  update_purchase_order
      (record o { status = order_approved; approved_by = some approver; approved_at = some now })
