-- ===== src/Billing/Subscriptions/Moves.antt =====
-- How the status of a subscription moves.
use thittam.Base.{ℕ, ◌≡◌, refl, Bool, true, false, Option, none, some, if◌then◌else◌, arith}
use thittam.Base.Rows.{find_row, update_rows}
use thittam.Base.Action.{World, Result, ok, err, after_call, QueryError}
use thittam.Base.Inversion.{
  bind-elim, lift-elim, raise_if-elim, time_now-elim, pure-ok, mapped_query-ok,
}
use thittam.Billing.Subscriptions.{
  Subscription, Subscriptions, SubscriptionStatus, trialing, active, past_due, cancelled, suspended,
  BillingError, Plan, of_tenant, one_subscription, select_subscription, get_subscription_by_tenant,
  overwrite, update_subscription_rows, update_subscription, check_upgradable, upgraded,
  upgrade_subscription, check_cancellable, cancelled_at_time, cancel_subscription,
  status_after_upgrade,
}

-- One call moves the status along one of these.
pub data Move : SubscriptionStatus → SubscriptionStatus → Type 0 where
  start_paying : Move trialing active
  upgrade_active : Move active active
  upgrade_late : Move past_due past_due
  cancel_trial : Move trialing cancelled
  cancel_active : Move active cancelled
  cancel_late : Move past_due cancelled
  cancel_suspended : Move suspended cancelled

upgraded-Move :
    (s : SubscriptionStatus) {a : Unit {0}}
    → check_upgradable s ≡ ok a
    → Move s (status_after_upgrade s)
upgraded-Move trialing h = start_paying
upgraded-Move active h = upgrade_active
upgraded-Move past_due h = upgrade_late
upgraded-Move cancelled h = absurd (cc)
upgraded-Move suspended h = absurd (cc)

cancelled-Move :
    (s : SubscriptionStatus) {a : Unit {0}} → check_cancellable s ≡ ok a → Move s cancelled
cancelled-Move trialing h = cancel_trial
cancelled-Move active h = cancel_active
cancelled-Move past_due h = cancel_late
cancelled-Move cancelled h = absurd (cc)
cancelled-Move suspended h = cancel_suspended

-- What the call did: the row that it read, and that row with the new status in its place.
pub record Moved (tenant : ℕ) (t u : Subscriptions) (s : Subscription) : Type 0 where
  pub row : Subscription
  pub found : find_row (of_tenant tenant) t.rows ≡ some row
  pub move : Move row.status s.status
  pub same_row : (s.id ≡ row.id) × (s.tenant_id ≡ row.tenant_id) × (s.created_at ≡ row.created_at)
  pub changed : u ≡ record t { rows = update_rows (of_tenant s.tenant_id) (overwrite s) t.rows }

one_subscription-ok :
    (t : Subscriptions) (o : Option Subscription) {s : Subscription} {u : Subscriptions}
    → one_subscription t o ≡ ok (s, u)
    → (o ≡ some s) × (u ≡ t)
one_subscription-ok t none h = absurd (cc)
one_subscription-ok t (some s) h = ground arith

pub get-ok :
    (tenant : ℕ) (w : World Subscriptions) {s : Subscription} {v : World Subscriptions}
    → get_subscription_by_tenant tenant w ≡ (ok s, v)
    → (find_row (of_tenant tenant) w.tables.rows ≡ some s) × (v.tables ≡ w.tables)
unfolding get_subscription_by_tenant select_subscription
get-ok tenant w e =
    let (t, h, here) = mapped_query-ok _ _ w e in
    let (found, same) = one_subscription-ok w.tables _ h in (found, rw (here, same) refl)

checked-ok :
    {A : Type 0} (b : Bool) (x : QueryError) (p : A × Subscriptions) {a : A} {u : Subscriptions}
    → (if b then ok p else err x) ≡ ok (a, u)
    → u ≡ p.1
checked-ok true x p h = ground arith
checked-ok false x p h = absurd (cc)

update-ok :
    (s : Subscription) (w : World Subscriptions) {a : Unit {0}} {v : World Subscriptions}
    → update_subscription s w ≡ (ok a, v)
    → v.tables
      ≡ record w.tables { rows = update_rows (of_tenant s.tenant_id) (overwrite s) w.tables.rows }
unfolding update_subscription update_subscription_rows
update-ok s w e = let (t, h, here) = mapped_query-ok _ _ w e in rw here (checked-ok _ _ _ h)

-- The tables that the update starts from are the ones that the lookup read.
changed_from :
    {t t1 u : Subscriptions} (s : Subscription)
    → t1 ≡ t
    → u ≡ record t1 { rows = update_rows (of_tenant s.tenant_id) (overwrite s) t1.rows }
    → u ≡ record t { rows = update_rows (of_tenant s.tenant_id) (overwrite s) t.rows }
changed_from s same e = rw same at e

pub upgrade_subscription-Moved :
    (tenant : ℕ) (plan : Plan) (w : World Subscriptions) {s : Subscription}
    {v : World Subscriptions}
    → upgrade_subscription tenant plan w ≡ (ok s, v)
    → Moved tenant w.tables v.tables s
unfolding upgrade_subscription
upgrade_subscription-Moved tenant plan w e = raise_if-elim w _ _ _ e λ known e1.
    bind-elim _ w _ e1 λ sub w1 got e2. lift-elim _ w1 _ e2 λ _ allowed e3.
      time_now-elim w1 _ e3 λ e4. bind-elim _ (after_call w1) _ e4 λ _ w2 updated e5.
        let (is_s, at_end) = pure-ok _ w2 e5 in
        let (found, same) = get-ok tenant w got in
        rw (is_s, at_end)
          (record {
            row = sub;
            found = found;
            move = upgraded-Move sub.status allowed;
            same_row = (refl, refl, refl);
            changed =
                changed_from (upgraded plan (w1.env.time w1.tick) sub) same
                  (update-ok _ (after_call w1) updated);
          })

pub cancel_subscription-Moved :
    (tenant : ℕ) (w : World Subscriptions) {s : Subscription} {v : World Subscriptions}
    → cancel_subscription tenant w ≡ (ok s, v)
    → Moved tenant w.tables v.tables s
unfolding cancel_subscription
cancel_subscription-Moved tenant w e = bind-elim _ w _ e λ sub w1 got e1.
    lift-elim _ w1 _ e1 λ _ allowed e2. time_now-elim w1 _ e2 λ e3.
      bind-elim _ (after_call w1) _ e3 λ _ w2 updated e4.
        let (is_s, at_end) = pure-ok _ w2 e4 in
        let (found, same) = get-ok tenant w got in
        rw (is_s, at_end)
          (record {
            row = sub;
            found = found;
            move = cancelled-Move sub.status allowed;
            same_row = (refl, refl, refl);
            changed =
                changed_from (cancelled_at_time (w1.env.time w1.tick) sub) same
                  (update-ok _ (after_call w1) updated);
          })

-- No move starts at `cancelled`.
cancelled-final : {s u : SubscriptionStatus} → Move s u → s ≡ cancelled → ⊥
cancelled-final start_paying h = cc
cancelled-final upgrade_active h = cc
cancelled-final upgrade_late h = cc
cancelled-final cancel_trial h = cc
cancelled-final cancel_active h = cc
cancelled-final cancel_late h = cc
cancelled-final cancel_suspended h = cc

pub data PlanCall : Type 0 where
  upgrade : Plan → PlanCall
  cancel : PlanCall

abbrev pub plan_call :
    ℕ → PlanCall → World Subscriptions → Result BillingError Subscription × World Subscriptions
plan_call tenant (upgrade plan) = upgrade_subscription tenant plan
plan_call tenant cancel = cancel_subscription tenant

-- When UpgradeSubscription or CancelSubscription returns a subscription, its status has moved
-- from that of the stored one along one of seven moves, none of which starts at cancelled and
-- none of which leads from suspended to active, and the only change is that the rows of its
-- tenant have its fields.
pub plan_call-Moved :
    (tenant : ℕ) (c : PlanCall) (w : World Subscriptions) {s : Subscription}
    {v : World Subscriptions}
    → plan_call tenant c w ≡ (ok s, v)
    → Moved tenant w.tables v.tables s
plan_call-Moved tenant (upgrade plan) w e = upgrade_subscription-Moved tenant plan w e
plan_call-Moved tenant cancel w e = cancel_subscription-Moved tenant w e
