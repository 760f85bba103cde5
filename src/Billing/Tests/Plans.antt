-- ===== src/Billing/Tests/Plans.antt =====
-- The theorems on subscriptions, applied to two of them.
use thittam.Base.{◌≡◌, refl, true, false, [], ◌∷◌, some, none}
use thittam.Base.Rows.{find_row, update_rows}
use thittam.Base.Time.{Time}
use thittam.Base.Action.{World, ok, ◌>>=◌}
use thittam.Billing.Subscriptions.{
  Subscription, Subscriptions, trialing, cancelled, starter, professional, monthly, production,
  of_tenant, select_subscription, get_subscription_by_tenant, update_subscription_rows,
  update_subscription, upgrade_subscription, upgraded, check_plan_limit, is_suspended, plan_limits,
}
use thittam.Billing.Subscriptions.Moves.{Moved, upgrade, plan_call, plan_call-Moved}
use thittam.Billing.Subscriptions.Limits.{Fits, check_plan_limit-Fits}

abbrev start : Time
start = record { month = 24301; offset = 0 }

abbrev trial : Subscription
trial = record {
  id = 1;
  tenant_id = 7;
  plan = starter;
  status = trialing;
  billing_cycle = monthly;
  current_period_start = start;
  current_period_end = record { month = 24302; offset = 0 };
  trial_ends_at = none;
  cancelled_at = none;
  suspended_at = none;
  razorpay_sub_id = [];
  stripe_sub_id = [];
  created_at = start;
  updated_at = start;
}

abbrev ended : Subscription
ended = record trial { id = 2; tenant_id = 8; status = cancelled }

abbrev world : World Subscriptions
world = record {
  env = record { uuid = λ n. n; time = λ n. start; fails = λ n. false };
  tick = 0;
  tables = record { rows = trial ∷ ended ∷ [] };
}

abbrev after : World Subscriptions
after = (plan_call 7 (upgrade professional) world).1

upgrade_of_trial :
    plan_call 7 (upgrade professional) world ≡ (ok (upgraded professional start trial), after)
unfolding upgrade_subscription get_subscription_by_tenant select_subscription update_subscription
    update_subscription_rows find_row update_rows ◌>>=◌
upgrade_of_trial = refl

plan_call-Moved_example : Moved 7 world.tables after.tables (upgraded professional start trial)
plan_call-Moved_example = plan_call-Moved 7 (upgrade professional) world upgrade_of_trial

found_ended : find_row (of_tenant 8) world.tables.rows ≡ some ended
unfolding find_row
found_ended = refl

one_more :
    check_plan_limit 7 production 1 4 world ≡ (ok true, (check_plan_limit 7 production 1 4 world).1)
unfolding check_plan_limit get_subscription_by_tenant select_subscription find_row ◌>>=◌
one_more = refl

check_plan_limit-Fits_example :
    (s : Subscription) × (find_row (of_tenant 7) world.tables.rows ≡ some s)
    × (is_suspended s.status ≡ false)
    × Fits (plan_limits s.plan) production 1 4
check_plan_limit-Fits_example = check_plan_limit-Fits 7 production 1 4 world one_more
