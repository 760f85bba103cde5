-- ===== src/Ledger/Monthly/Sums.antt =====
-- What the rows of the report add up.
use thittam.Base.{
  ◌≡◌, refl, ◌∙◌, Bool, true, false, List, [], ◌∷◌, if◌then◌else◌, arith, Bool-cases, inl, inr,
}
use thittam.Base.Int.{ℤ, pos, ◌+ℤ◌, int_laws}
use thittam.Base.Rows.{insert_by, order_by}
use thittam.Base.Text.{Text, eq_of_eqb_text}
use thittam.Ledger.Model.{CostBehavior, fixed, variable, unclassified, other_behavior}
use thittam.Ledger.Monthly.{CostGroup, eqb_behavior, same_group, add_group, group_costs}

-- The sum of the groups that a test on the month and the behavior picks.
unfoldable pub sum_costs : (Text → CostBehavior → Bool) → List CostGroup → ℤ
sum_costs q [] = pos 0
sum_costs q (g ∷ gs) = (if q g.month g.behavior then g.net else pos 0) +ℤ sum_costs q gs

eq_of_eqb_behavior : (a b : CostBehavior) → eqb_behavior a b ≡ true → a ≡ b
eq_of_eqb_behavior fixed fixed h = refl
eq_of_eqb_behavior variable variable h = refl
eq_of_eqb_behavior unclassified unclassified h = refl
eq_of_eqb_behavior (other_behavior a) (other_behavior b) h = rw (eq_of_eqb_text a b h) refl
eq_of_eqb_behavior fixed variable h = cc
eq_of_eqb_behavior fixed unclassified h = cc
eq_of_eqb_behavior fixed (other_behavior b) h = cc
eq_of_eqb_behavior variable fixed h = cc
eq_of_eqb_behavior variable unclassified h = cc
eq_of_eqb_behavior variable (other_behavior b) h = cc
eq_of_eqb_behavior unclassified fixed h = cc
eq_of_eqb_behavior unclassified variable h = cc
eq_of_eqb_behavior unclassified (other_behavior b) h = cc
eq_of_eqb_behavior (other_behavior a) fixed h = cc
eq_of_eqb_behavior (other_behavior a) variable h = cc
eq_of_eqb_behavior (other_behavior a) unclassified h = cc

same_picked :
    (q : Text → CostBehavior → Bool) (g h : CostGroup)
    → same_group g h ≡ true
    → q g.month g.behavior ≡ q h.month h.behavior
same_picked q g h e =
    let month : g.month ≡ h.month = eq_of_eqb_text g.month h.month (ground arith) in
    let behavior : g.behavior ≡ h.behavior =
      eq_of_eqb_behavior g.behavior h.behavior (ground arith) in
    rw (month, behavior) refl

swap : (a b c : ℤ) → a +ℤ (b +ℤ c) ≡ b +ℤ (a +ℤ c)
swap a b c = omega int_laws

merge :
    (b : Bool) (x y s : ℤ)
    → (if b then y +ℤ x else pos 0) +ℤ s
      ≡ (if b then x else pos 0) +ℤ ((if b then y else pos 0) +ℤ s)
merge true x y s = omega int_laws
merge false x y s = omega int_laws

sum_costs-add_group :
    (q : Text → CostBehavior → Bool) (g : CostGroup) (hs : List CostGroup)
    → sum_costs q (add_group g hs) ≡ sum_costs q (g ∷ hs)
unfolding sum_costs add_group
sum_costs-add_group q g [] = refl
sum_costs-add_group q g (h ∷ hs) = elim (Bool-cases (same_group g h)) [
  | inl same ↦
      rw (same, same_picked q g h same) (merge (q h.month h.behavior) g.net h.net (sum_costs q hs))
  | inr other ↦ rw (other, sum_costs-add_group q g hs) (swap _ _ _)
]

sum_costs-group_costs :
    (q : Text → CostBehavior → Bool) (gs : List CostGroup)
    → sum_costs q (group_costs gs) ≡ sum_costs q gs
unfolding group_costs sum_costs
sum_costs-group_costs q [] = refl
sum_costs-group_costs q (g ∷ gs) =
    rw (sum_costs-add_group q g (group_costs gs), sum_costs-group_costs q gs) refl

module _ (le : CostGroup → CostGroup → Bool) (q : Text → CostBehavior → Bool) where
  sum_costs-insert_by :
      (g : CostGroup) (hs : List CostGroup) → sum_costs q (insert_by le g hs) ≡ sum_costs q (g ∷ hs)
  unfolding sum_costs insert_by
  sum_costs-insert_by g [] = refl
  sum_costs-insert_by g (h ∷ hs) = elim (Bool-cases (le g h)) [
    | inl first ↦ rw first refl
    | inr later ↦ rw (later, sum_costs-insert_by g hs) (swap _ _ _)
  ]

  sum_costs-order_by : (gs : List CostGroup) → sum_costs q (order_by le gs) ≡ sum_costs q gs
  unfolding sum_costs order_by
  sum_costs-order_by [] = refl
  sum_costs-order_by (g ∷ gs) =
      rw (sum_costs-insert_by g (order_by le gs), sum_costs-order_by gs) refl

  -- Grouping and sorting change no sum.
  pub sum_costs-sorted :
      (gs : List CostGroup) → sum_costs q (order_by le (group_costs gs)) ≡ sum_costs q gs
  sum_costs-sorted gs = sum_costs-order_by (group_costs gs) ∙ sum_costs-group_costs q gs
