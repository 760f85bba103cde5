-- ===== src/Expense/Tests.antt =====
-- A category, a limit, two expenses, an order and an advance, and runs of the operations on them.
use thittam.Base.{◌≡◌, refl, true, false, none, some, List, [], ◌∷◌, ◌+◌}
use thittam.Base.Int.{pos, ◌-ℤ◌}
use thittam.Base.Rows.{find_row, has_row, update_rows}
use thittam.Base.Text.{text, eqb_text}
use thittam.Base.Action.{Env, World, ok, err, ◌>>=◌}
use thittam.Expense.{
  Expense, PurchaseOrder, PettyCashAdvance, Claims, not_approvable, ExpenseConfig, draft, submitted,
  approved, order_draft, issued, limit_for_role, max_limit_from, has_super_admin, check_authority,
  select_expense, get_expense, insert_expense, create_expense, update_expense_status,
  update_expense, publish, id_or_new, submit_expense, approve_expense, ApprovalWorkflow,
  within_limit, max_limit_for_roles, select_advance, get_petty_cash_advance, settle_advance,
  update_petty_cash_advance, settle_petty_cash, select_order, get_purchase_order,
  update_order_status, update_purchase_order, approve_purchase_order,
}
use thittam.Expense.Workflow.{
  claim, Follows, ExpenseCall, submission, approval, expense_history, expense_history-Follows,
}
use thittam.Expense.Stuck.{idle_claim, expense_history-idle, Settled, settle_petty_cash-Settled}
use thittam.Expense.Limits.{max_limit_for_roles-within}
use thittam.Expense.Orders.{OrderApproved, approve_purchase_order-OrderApproved}

abbrev env : Env
env = record {
  uuid = λ n. 100 + n;
  time = λ n. record { month = 24301; offset = n };
  fails = λ n. false;
}

abbrev config : ExpenseConfig
config = record {
  expense_categories =
      record {
        id = text "travel";
        label = text "Travel";
        tax_treatment = text "gst";
        default_account_code = text "5100";
        requires_po = false;
      }
      ∷ [];
  approval_workflow = record {
    limits = record { role = text "producer"; max_amount = pos 60000 } ∷ [];
    dual_approval_above = pos 100000;
  };
}

abbrev expense : Expense
expense = record {
  id = 5;
  production_id = 2;
  tenant_id = 1;
  budget_line_id = none;
  purchase_order_id = none;
  category_id = text "travel";
  description = text "";
  amount = pos 50000;
  currency = text "INR";
  tax_amount = pos 0;
  status = draft;
  party_id = none;
  submitted_by = 30;
  approved_by = none;
  rejected_by = none;
  submitted_at = none;
  approved_at = none;
  created_at = record { month = 24300; offset = 1 };
  rejection_reason = none;
  rejected_at = none;
}

abbrev advance : PettyCashAdvance
advance = record {
  id = 7;
  production_id = 2;
  tenant_id = 1;
  issued_to = 30;
  amount = pos 20000;
  purpose = text "props";
  status = issued;
  issued_at = record { month = 24300; offset = 2 };
  settled_at = none;
  unspent_amount = pos 0;
}

abbrev order : PurchaseOrder
order = record {
  id = 8;
  production_id = 2;
  tenant_id = 1;
  budget_line_id = none;
  po_number = text "PO-1";
  vendor_name = text "Lights";
  vendor_gstin = text "";
  description = text "";
  amount = pos 60000;
  currency = text "INR";
  status = order_draft;
  party_id = none;
  raised_by = 30;
  approved_by = none;
  raised_at = record { month = 24300; offset = 3 };
  approved_at = none;
  created_at = record { month = 24300; offset = 3 };
}

abbrev world : World Claims
world = record {
  env = env;
  tick = 0;
  tables = record {
    expenses = record expense { id = 4; status = submitted } ∷ [];
    orders = order ∷ [];
    advances = advance ∷ [];
    publisher = true;
    published = [];
  };
}

abbrev calls : List ExpenseCall
calls =
    submission expense
    ∷ approval 1 5 31 (text "producer" ∷ [])
    ∷ approval 1 4 31 (text "producer" ∷ [])
    ∷ []

abbrev ended : World Claims
ended = expense_history config calls world

-- The expense that is stored as submitted is approved, the one that was submitted is not.
approved-submitted : claim 1 4 ended.tables ≡ some (approved, pos 50000)
unfolding claim find_row has_row update_rows submit_expense approve_expense id_or_new create_expense
    insert_expense publish get_expense select_expense check_authority has_super_admin max_limit_from
    limit_for_role update_expense update_expense_status eqb_text ◌-ℤ◌ ◌>>=◌
approved-submitted = refl

abbrev submitted_world : World Claims
submitted_world = (submit_expense config expense world).1

refused :
    (approve_expense config 1 5 31 (text "producer" ∷ []) submitted_world).0 ≡ err not_approvable
unfolding find_row has_row submit_expense approve_expense id_or_new create_expense insert_expense
    publish get_expense select_expense eqb_text ◌>>=◌
refused = refl

expense_history-Follows_example :
    Follows config.approval_workflow 1 4 calls (claim 1 4 world.tables) (claim 1 4 ended.tables)
expense_history-Follows_example = expense_history-Follows config calls world 1 4

unknown : idle_claim (claim 1 5 world.tables) ≡ true
unfolding claim find_row
unknown = refl

expense_history-idle_example : idle_claim (claim 1 5 ended.tables) ≡ true
expense_history-idle_example = expense_history-idle config calls world 1 5 unknown

abbrev settled_world : World Claims
settled_world = (settle_petty_cash 1 7 30 (pos 1500) world).1

settled-run : settle_petty_cash 1 7 30 (pos 1500) world ≡ (ok tt, settled_world)
unfolding settle_petty_cash get_petty_cash_advance select_advance update_petty_cash_advance
    settle_advance find_row has_row update_rows ◌-ℤ◌ ◌>>=◌
settled-run = refl

settle_petty_cash-Settled_example : Settled 1 7 30 (pos 1500) world.tables settled_world.tables
settle_petty_cash-Settled_example = settle_petty_cash-Settled 1 7 30 (pos 1500) world settled-run

abbrev ordered_world : World Claims
ordered_world = (approve_purchase_order config 1 8 31 (text "producer" ∷ []) world).1

ordered-run :
    approve_purchase_order config 1 8 31 (text "producer" ∷ []) world ≡ (ok tt, ordered_world)
unfolding approve_purchase_order get_purchase_order select_order check_authority has_super_admin
    max_limit_from limit_for_role update_purchase_order update_order_status find_row has_row
    update_rows eqb_text ◌-ℤ◌ ◌>>=◌
ordered-run = refl

approve_purchase_order-OrderApproved_example :
    OrderApproved config.approval_workflow 1 8 31
      (text "producer" ∷ [])
      world.tables
      ordered_world.tables
approve_purchase_order-OrderApproved_example =
    approve_purchase_order-OrderApproved config 1 8 31 (text "producer" ∷ []) world ordered-run

abbrev two_roles : ApprovalWorkflow
two_roles = record {
  limits =
      record { role = text "producer"; max_amount = pos 60000 }
      ∷ record { role = text "head"; max_amount = pos 90000 }
      ∷ [];
  dual_approval_above = pos 100000;
}

max_limit_for_roles-within_example :
    within_limit (pos 70000) (max_limit_for_roles two_roles (text "head" ∷ text "producer" ∷ []))
    ≡ has_row
        (λ r. within_limit (pos 70000) (limit_for_role r two_roles.limits))
        (text "head" ∷ text "producer" ∷ [])
max_limit_for_roles-within_example =
    max_limit_for_roles-within two_roles (text "head" ∷ text "producer" ∷ []) (pos 70000)
