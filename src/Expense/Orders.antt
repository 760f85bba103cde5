-- ===== src/Expense/Orders.antt =====
-- What the approval of a purchase order has checked, and what it leaves.
use thittam.Base.{
  ℕ, ◌≡◌, refl, sym, ◌∙◌, ap, Bool, true, false, ◌||◌, Option, none, some, List, ==_refl, arith,
  if◌then◌else◌,
}
use thittam.Base.Rows.{find_row, update_rows, touched, find_row-update_rows}
use thittam.Base.Int.{ℤ}
use thittam.Base.Text.{Text}
use thittam.Base.Time.{Time}
use thittam.Base.Action.{World, ok, raise_if, after_call}
use thittam.Base.Inversion.{bind-elim, lift-elim, raise_if-elim, time_now-elim, mapped_query-ok}
use thittam.Expense.{
  OrderStatus, order_draft, order_approved, partially_invoiced, closed, cancelled, PurchaseOrder,
  Claims, ExpenseError, ExpenseConfig, ApprovalWorkflow, greater_than, has_super_admin,
  within_limit, max_limit_for_roles, check_authority, is_order, order_or_none, select_order,
  get_purchase_order, order_update, update_order_status, update_purchase_order,
  check_order_approvable, approve_purchase_order,
}

-- The order was a draft that these roles may approve alone, and is now approved by this user, with
-- what else it had.
abbrev pub OrderApproved : ApprovalWorkflow → ℕ → ℕ → ℕ → List Text → Claims → Claims → Type 0
OrderApproved w tenant id approver roles t u =
    (o : PurchaseOrder) × (find_row (is_order tenant id) t.orders ≡ some o)
    × (o.status ≡ order_draft)
    × ((has_super_admin roles || within_limit o.amount (max_limit_for_roles w roles)) ≡ true)
    × (greater_than o.amount w.dual_approval_above ≡ false)
    × (now : Time) × (find_row (is_order tenant id) u.orders
        ≡ some (record o {
          status = order_approved;
          approved_by = some approver;
          approved_at = some now;
        }))

draft_lem : (s : OrderStatus) → check_order_approvable s ≡ ok tt → s ≡ order_draft
draft_lem order_draft h = refl
draft_lem order_approved h = absurd (cc)
draft_lem partially_invoiced h = absurd (cc)
draft_lem closed h = absurd (cc)
draft_lem cancelled h = absurd (cc)

found-order :
    (t : Claims) (o : Option PurchaseOrder) {a : PurchaseOrder} {u : Claims}
    → order_or_none t o ≡ ok (a, u)
    → (o ≡ some a) × (u ≡ t)
found-order t none h = absurd (cc)
found-order t (some x) h = ground arith

updated-orders :
    (o : PurchaseOrder) (now : Time) (t u : Claims)
    → update_order_status o now t ≡ ok (tt, u)
    → u.orders ≡ update_rows (is_order o.tenant_id o.id) (order_update o now) t.orders
unfolding update_order_status
updated-orders o now t u h = ground arith

-- An update by the order's own identifier leaves it where it was found.
updated-row :
    (tenant id : ℕ) (o : PurchaseOrder) (f : PurchaseOrder → PurchaseOrder)
    (before after : List PurchaseOrder)
    → ((x : PurchaseOrder) → is_order tenant id (f x) ≡ is_order tenant id x)
    → find_row (is_order tenant id) before ≡ some o
    → after ≡ update_rows (is_order o.tenant_id o.id) f before
    → find_row (is_order tenant id) after ≡ some (f o)
updated-row tenant id o f before after same found moved =
    let kept : is_order o.tenant_id o.id o ≡ true =
      ground (arith, ==_refl o.id, ==_refl o.tenant_id) in
    let looked =
      find_row-update_rows (is_order o.tenant_id o.id) (is_order tenant id) f before same in
    ap (find_row (is_order tenant id)) moved
    ∙ looked
    ∙ ap (touched (is_order o.tenant_id o.id) f) found
    ∙ ap (λ b. some (if b then f o else o)) kept

raised_lem :
    (b : Bool) (x : ExpenseError) (w : World Claims) {v : World Claims}
    → raise_if b x w ≡ (ok tt, v)
    → (b ≡ false) × (v ≡ w)
unfolding raise_if
raised_lem true x w h = absurd (cc)
raised_lem false x w h = (refl, ap (λ r. r.1) (sym h))

authority_lem :
    (f : ApprovalWorkflow) (roles : List Text) (amount : ℤ) (w : World Claims) {v : World Claims}
    → check_authority f roles amount w ≡ (ok tt, v)
    → ((has_super_admin roles || within_limit amount (max_limit_for_roles f roles)) ≡ true)
      × (greater_than amount f.dual_approval_above ≡ false)
      × (v ≡ w)
unfolding check_authority
authority_lem f roles amount w h =
    raise_if-elim w _ _ _ h
      λ allowed h1. let (single, same) = raised_lem _ _ w h1 in (ground arith, single, same)

-- When ApprovePurchaseOrder returns no error, the order that was stored was a draft, its amount
-- was within the highest limit of the roles of the caller or the caller is a super admin, it was
-- not above the threshold of a dual approval, and the order now stored is the same but for its
-- approval by the caller.
pub approve_purchase_order-OrderApproved :
    (cfg : ExpenseConfig) (tenant id approver : ℕ) (roles : List Text) (w : World Claims)
    {v : World Claims}
    → approve_purchase_order cfg tenant id approver roles w ≡ (ok tt, v)
    → OrderApproved cfg.approval_workflow tenant id approver roles w.tables v.tables
unfolding approve_purchase_order get_purchase_order select_order update_purchase_order
approve_purchase_order-OrderApproved cfg tenant id approver roles w {v} h =
    bind-elim _ w _ h λ o u asked h1. lift-elim _ u _ h1 λ _ state h2.
      bind-elim _ u _ h2 λ _ u' checked h3. time_now-elim u' _ h3 λ h4.
        let (t, found, after) = mapped_query-ok _ _ w asked in
        let (there, same) = found-order w.tables _ found in
        let (allowed, single, kept) =
          authority_lem cfg.approval_workflow roles o.amount u checked in
        let back : u'.tables ≡ w.tables =
          ap (λ v. v.tables) kept ∙ ap (λ v. v.tables) after ∙ same in
        let (t', done, after') = mapped_query-ok _ _ (after_call u') h4 in
        let approved = record o {
          status = order_approved;
          approved_by = some approver;
          approved_at = some (u'.env.time u'.tick);
        } in
        let now = (after_call u').env.time (after_call u').tick in
        let moved = updated-orders approved _ _ _ done in
        let left : v.tables ≡ t' = ap (λ v. v.tables) after' in
        (
          o,
          there,
          draft_lem o.status state,
          allowed,
          single,
          now,
          updated-row tenant id o (order_update approved now) w.tables.orders v.tables.orders
              (λ x. refl) there
              (ap (λ t. t.orders) left
                ∙ moved
                ∙ ap
                    (λ t.
                      update_rows (is_order o.tenant_id o.id) (order_update approved now) t.orders)
                    back),
        )
