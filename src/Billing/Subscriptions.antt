-- ===== src/Billing/Subscriptions.antt =====
-- services/billing/service.go: the plan and the status of a subscription.
pub mod Moves
pub mod Limits
use thittam.Base.{
  ℕ, Bool, true, false, not, ◌&&◌, ◌||◌, Option, none, some, List, [], ◌∷◌, leb, ◌==◌,
  if◌then◌else◌,
}
use thittam.Base.Rows.{find_row, update_rows}
use thittam.Base.Text.{Text}
use thittam.Base.Time.{Time}
use thittam.Base.Action.{
  Action, Statement, Result, ok, err, ◌>>=◌, ◌>>◌, pure, raise, raise_if, lift, map_error, time_now,
  query, QueryError, no_rows, query_failed, unique_violation,
}

pub data Plan : Type 0 where
  starter professional enterprise : Plan
  other_plan : Text → Plan

pub data SubscriptionStatus : Type 0 where
  trialing active past_due cancelled suspended : SubscriptionStatus

pub data BillingCycle : Type 0 where
  monthly annual : BillingCycle
  other_cycle : Text → BillingCycle

-- The columns of the two gateways read NULL as the empty text.
pub record Subscription : Type 0 where
  pub id : ℕ
  pub tenant_id : ℕ
  pub plan : Plan
  pub status : SubscriptionStatus
  pub billing_cycle : BillingCycle
  pub current_period_start : Time
  pub current_period_end : Time
  pub trial_ends_at : Option Time
  pub cancelled_at : Option Time
  pub suspended_at : Option Time
  pub razorpay_sub_id : Text
  pub stripe_sub_id : Text
  pub created_at : Time
  pub updated_at : Time

pub record Subscriptions : Type 0 where
  pub rows : List Subscription

pub data BillingError : Type 0 where
  subscription_not_found invalid_plan subscription_cancelled subscription_suspended : BillingError
  unknown_resource internal : BillingError

abbrev pub Billing : Type 0 → Type 0
Billing A = Action Subscriptions BillingError A

abbrev pub of_tenant : ℕ → Subscription → Bool
of_tenant tenant s = s.tenant_id == tenant

abbrev pub one_subscription :
    Subscriptions → Option Subscription → Result QueryError (Subscription × Subscriptions)
one_subscription t none = err no_rows
one_subscription t (some s) = ok (s, t)

unfoldable pub select_subscription : ℕ → Statement Subscriptions Subscription
select_subscription tenant now t = one_subscription t (find_row (of_tenant tenant) t.rows)

abbrev pub missing_subscription : QueryError → BillingError
missing_subscription no_rows = subscription_not_found
missing_subscription _ = internal

unfoldable pub get_subscription_by_tenant : ℕ → Billing Subscription
get_subscription_by_tenant tenant =
    map_error missing_subscription (query (select_subscription tenant))

abbrev pub is_known_plan : Plan → Bool
is_known_plan (other_plan s) = false
is_known_plan _ = true

abbrev pub is_known_cycle : BillingCycle → Bool
is_known_cycle (other_cycle s) = false
is_known_cycle _ = true

-- The columns that the update sets.
abbrev pub overwrite : Subscription → Subscription → Subscription
overwrite s row = record s { id = row.id; tenant_id = row.tenant_id; created_at = row.created_at }

-- The CHECK constraints of the table, and the update of the rows of the tenant.
unfoldable pub update_subscription_rows : Subscription → Statement Subscriptions (Unit {0})
update_subscription_rows s now t =
    if is_known_plan s.plan && is_known_cycle s.billing_cycle
    then ok (tt, record t { rows = update_rows (of_tenant s.tenant_id) (overwrite s) t.rows })
    else err query_failed

unfoldable pub update_subscription : Subscription → Billing (Unit {0})
update_subscription s = map_error (λ _. internal) (query (update_subscription_rows s))

abbrev pub check_upgradable : SubscriptionStatus → Result BillingError (Unit {0})
check_upgradable cancelled = err subscription_cancelled
check_upgradable suspended = err subscription_suspended
check_upgradable _ = ok tt

abbrev pub status_after_upgrade : SubscriptionStatus → SubscriptionStatus
status_after_upgrade trialing = active
status_after_upgrade s = s

abbrev pub upgraded : Plan → Time → Subscription → Subscription
upgraded plan now s = record s {
  plan = plan;
  status = status_after_upgrade s.status;
  updated_at = now;
}

unfoldable pub upgrade_subscription : ℕ → Plan → Billing Subscription
upgrade_subscription tenant plan = do
  raise_if (not (is_known_plan plan)) invalid_plan
  sub ← get_subscription_by_tenant tenant
  lift (check_upgradable sub.status)
  now ← time_now
  update_subscription (upgraded plan now sub)
  pure (upgraded plan now sub)

abbrev pub check_cancellable : SubscriptionStatus → Result BillingError (Unit {0})
check_cancellable cancelled = err subscription_cancelled
check_cancellable _ = ok tt

abbrev pub cancelled_at_time : Time → Subscription → Subscription
cancelled_at_time now s = record s { status = cancelled; cancelled_at = some now; updated_at = now }

unfoldable pub cancel_subscription : ℕ → Billing Subscription
cancel_subscription tenant = do
  sub ← get_subscription_by_tenant tenant
  lift (check_cancellable sub.status)
  now ← time_now
  update_subscription (cancelled_at_time now sub)
  pure (cancelled_at_time now sub)

-- models.go: PlanLimitsByName; `none` is -1, without a limit.
pub record PlanLimits : Type 0 where
  pub max_active_productions : Option ℕ
  pub max_users : Option ℕ
  pub max_storage_gb : Option ℕ

abbrev pub plan_limits : Plan → Option PlanLimits
plan_limits starter =
    some (record { max_active_productions = some 2; max_users = some 10; max_storage_gb = some 5 })
plan_limits professional =
    some
      (record { max_active_productions = some 10; max_users = some 50; max_storage_gb = some 50 })
plan_limits enterprise =
    some (record { max_active_productions = none; max_users = none; max_storage_gb = none })
plan_limits (other_plan s) = none

pub data Resource : Type 0 where
  production user : Resource
  other_resource : Text → Resource

abbrev pub is_suspended : SubscriptionStatus → Bool
is_suspended suspended = true
is_suspended _ = false

abbrev pub below_limit : Option ℕ → ℕ → Bool
below_limit none current = true
below_limit (some limit) current = not (leb limit current)

-- The switch of CheckPlanLimit; the answer is whether the creation is allowed.
abbrev pub within_limits :
    PlanLimits → Resource → (productions users : ℕ) → Result BillingError Bool
within_limits l production productions users = ok (below_limit l.max_active_productions productions)
within_limits l user productions users = ok (below_limit l.max_users users)
within_limits l (other_resource s) productions users = err unknown_resource

abbrev pub within_plan :
    Option PlanLimits → Resource → (productions users : ℕ) → Result BillingError Bool
within_plan none r productions users = err invalid_plan
within_plan (some l) r productions users = within_limits l r productions users

unfoldable pub check_plan_limit : ℕ → Resource → (productions users : ℕ) → Billing Bool
check_plan_limit tenant r productions users = do
  sub ← get_subscription_by_tenant tenant
  lift (
      if is_suspended sub.status
      then ok false
      else within_plan (plan_limits sub.plan) r productions users)
