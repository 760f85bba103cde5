-- ===== src/Billing/Subscriptions/Limits.antt =====
-- What CheckPlanLimit allows.
use thittam.Base.{
  ℕ, ◌≡◌, refl, ap, Bool, true, false, Option, none, some, ◌<◌, if◌then◌else◌, arith,
}
use thittam.Base.Rows.{find_row}
use thittam.Base.Action.{World, Result, ok, ◌>>=◌, lift}
use thittam.Base.Inversion.{bind-elim}
use thittam.Billing.Subscriptions.{
  Subscription, Subscriptions, is_suspended, BillingError, PlanLimits, plan_limits, Resource,
  production, user, other_resource, of_tenant, below_limit, within_plan, check_plan_limit,
}
use thittam.Billing.Subscriptions.Moves.{get-ok}

-- There is room under the limit, if there is one.
abbrev pub Room : Option ℕ → ℕ → Type 0
Room none current = Unit
Room (some limit) current = current < limit

abbrev pub Fits : Option PlanLimits → Resource → (productions users : ℕ) → Type 0
Fits none r productions users = ⊥
Fits (some l) production productions users = Room l.max_active_productions productions
Fits (some l) user productions users = Room l.max_users users
Fits (some l) (other_resource s) productions users = ⊥

below_limit-Room : (o : Option ℕ) (current : ℕ) → below_limit o current ≡ true → Room o current
below_limit-Room none current h = tt
below_limit-Room (some limit) current h = ground arith

ok-bool : {a b : Bool} → let r : Result BillingError Bool = ok a in r ≡ ok b → a ≡ b
ok-bool h = cc

within_plan-Fits :
    (o : Option PlanLimits) (r : Resource) (productions users : ℕ)
    → within_plan o r productions users ≡ ok true
    → Fits o r productions users
within_plan-Fits none r productions users h = absurd (cc)
within_plan-Fits (some l) production productions users h = below_limit-Room _ _ (ok-bool h)
within_plan-Fits (some l) user productions users h = below_limit-Room _ _ (ok-bool h)
within_plan-Fits (some l) (other_resource s) productions users h = absurd (cc)

false-ne : let b = false in b ≡ true → ⊥
false-ne h = cc

unsuspended :
    (b : Bool) (r : Result BillingError Bool)
    → (if b then ok false else r) ≡ ok true
    → (b ≡ false) × (r ≡ ok true)
unsuspended true r h = absurd (false-ne (ok-bool h))
unsuspended false r h = (refl, h)

lift-ok :
    {A : Type 0} (r : Result BillingError A) (w : World Subscriptions) {a : A}
    {v : World Subscriptions}
    → lift r w ≡ (ok a, v)
    → r ≡ ok a
unfolding ◌>>=◌
lift-ok r w e = ap (λ p. p.0) e

-- When CheckPlanLimit allows a creation, the tenant has a subscription that is not suspended,
-- its plan has limits, the resource is a production or a user, and the number in use is below
-- the limit of the plan, if it has one.
pub check_plan_limit-Fits :
    (tenant : ℕ) (r : Resource) (productions users : ℕ) (w : World Subscriptions)
    {v : World Subscriptions}
    → check_plan_limit tenant r productions users w ≡ (ok true, v)
    → (s : Subscription) × (find_row (of_tenant tenant) w.tables.rows ≡ some s)
      × (is_suspended s.status ≡ false)
      × Fits (plan_limits s.plan) r productions users
unfolding check_plan_limit
check_plan_limit-Fits tenant r productions users w e = bind-elim _ w _ e λ sub w1 got e1.
    let (found, same) = get-ok tenant w got in
    let (running, fits) = unsuspended _ _ (lift-ok _ w1 e1) in
    (sub, found, running, within_plan-Fits (plan_limits sub.plan) r productions users fits)
