-- ===== src/Ledger/Monthly/Buckets.antt =====
-- The row of a month, after the loop over the groups.
use thittam.Base.{
  ◌≡◌, refl, sym, ◌∙◌, ap, Bool, true, false, ◌&&◌, not, none, some, List, [], ◌∷◌, if◌then◌else◌,
  Bool-cases, inl, inr,
}
use thittam.Base.Int.{ℤ, pos, ◌+ℤ◌, int_laws}
use thittam.Base.Text.{Text, eqb_text, eq_of_eqb_text, eqb_text_refl}
use thittam.Ledger.Model.{CostBehavior, fixed, variable, unclassified, other_behavior}
use thittam.Ledger.Monthly.{
  MonthlyCostBehaviorRow, CostGroup, eqb_behavior, no_costs, add_amount, add_cost, collect_costs,
  row_or, row_of_month,
}
use thittam.Ledger.Monthly.Sums.{sum_costs}

-- No two rows have the same month.
abbrev pub Once : List MonthlyCostBehaviorRow → Type 0
Once [] = Unit
Once (r ∷ rs) = (row_of_month r.month rs ≡ none) × Once rs

add_amount-month :
    (b : CostBehavior) (n : ℤ) (r : MonthlyCostBehaviorRow) → (add_amount b n r).month ≡ r.month
add_amount-month fixed n r = refl
add_amount-month variable n r = refl
add_amount-month unclassified n r = refl
add_amount-month (other_behavior s) n r = refl

row_of_month-nil : (key : Text) → row_of_month key [] ≡ none
unfolding row_of_month
row_of_month-nil key = refl

differ_sym : (a b : Text) → eqb_text a b ≡ false → eqb_text b a ≡ false
differ_sym a b h = elim (Bool-cases (eqb_text b a)) [
  | inl same ↦
      let equal : b ≡ a = eq_of_eqb_text b a same in absurd (cc (h, equal, eqb_text_refl a))
  | inr differ ↦ differ
]

row_of_month-head :
    (key : Text) (r : MonthlyCostBehaviorRow) (rs : List MonthlyCostBehaviorRow)
    → eqb_text r.month key ≡ true
    → row_of_month key (r ∷ rs) ≡ some (row_or r (row_of_month key rs))
unfolding row_of_month
row_of_month-head key r rs h = rw h refl

row_of_month-tail :
    (key : Text) (r : MonthlyCostBehaviorRow) (rs : List MonthlyCostBehaviorRow)
    → eqb_text r.month key ≡ false
    → row_of_month key (r ∷ rs) ≡ row_of_month key rs
unfolding row_of_month
row_of_month-tail key r rs h = rw h refl

other_month :
    (a b key : Text) → eqb_text a b ≡ true → eqb_text b key ≡ false → eqb_text a key ≡ false
other_month a b key h k = rw (eq_of_eqb_text a b h) k

row_of_month-add_cost_other :
    (key : Text) (g : CostGroup) (rs : List MonthlyCostBehaviorRow)
    → eqb_text g.month key ≡ false
    → row_of_month key (add_cost g rs) ≡ row_of_month key rs
unfolding add_cost
row_of_month-add_cost_other key g [] h =
    row_of_month-tail key _ [] (rw (add_amount-month g.behavior g.net (no_costs g.month)) h)
row_of_month-add_cost_other key g (r ∷ rs) h = elim (Bool-cases (eqb_text r.month g.month)) [
  | inl here ↦
      let away = other_month r.month g.month key here h in
      rw here (
        row_of_month-tail key _ rs (rw (add_amount-month g.behavior g.net r) away)
        ∙ sym (row_of_month-tail key r rs away))
  | inr there ↦ elim (Bool-cases (eqb_text r.month key)) [
    | inl found ↦ rw there (
        row_of_month-head key r (add_cost g rs) found
        ∙ ap (λ o. some (row_or r o)) (row_of_month-add_cost_other key g rs h)
        ∙ sym (row_of_month-head key r rs found))
    | inr away ↦ rw there (
        row_of_month-tail key r (add_cost g rs) away
        ∙ row_of_month-add_cost_other key g rs h
        ∙ sym (row_of_month-tail key r rs away))
  ]
]

row_of_month-add_cost :
    (g : CostGroup) (rs : List MonthlyCostBehaviorRow)
    → Once rs
    → row_of_month g.month (add_cost g rs)
      ≡ some (add_amount g.behavior g.net (row_or (no_costs g.month) (row_of_month g.month rs)))
unfolding add_cost
row_of_month-add_cost g [] once = rw (row_of_month-nil g.month) (
    row_of_month-head g.month _ []
      (rw (add_amount-month g.behavior g.net (no_costs g.month)) (eqb_text_refl g.month))
    ∙ ap (λ o. some (row_or (add_amount g.behavior g.net (no_costs g.month)) o))
        (row_of_month-nil g.month))
row_of_month-add_cost g (r ∷ rs) (alone, once) = elim (Bool-cases (eqb_text r.month g.month)) [
  | inl here ↦
      let none_left : row_of_month g.month rs ≡ none =
        rw (← eq_of_eqb_text r.month g.month here) alone in
      rw (here, row_of_month-head g.month r rs here, none_left)
        (row_of_month-head g.month _ rs (rw (add_amount-month g.behavior g.net r) here)
          ∙ ap (λ o. some (row_or (add_amount g.behavior g.net r) o)) none_left)
  | inr there ↦
      rw (there, row_of_month-tail g.month r rs there)
        (row_of_month-tail g.month r (add_cost g rs) there ∙ row_of_month-add_cost g rs once)
]

add_cost-Once : (g : CostGroup) (rs : List MonthlyCostBehaviorRow) → Once rs → Once (add_cost g rs)
unfolding add_cost
add_cost-Once g [] once = (row_of_month-nil _, tt)
add_cost-Once g (r ∷ rs) (alone, once) = elim (Bool-cases (eqb_text r.month g.month)) [
  | inl here ↦ rw here (rw (add_amount-month g.behavior g.net r) alone, once)
  | inr there ↦ rw there (
    row_of_month-add_cost_other r.month g rs (differ_sym r.month g.month there) ∙ alone,
    add_cost-Once g rs once,
  )
]

-- The groups of one month, added to its row one by one.
unfoldable pub month_row : Text → MonthlyCostBehaviorRow → List CostGroup → MonthlyCostBehaviorRow
month_row key r [] = r
month_row key r (g ∷ gs) =
    month_row key (if eqb_text g.month key then add_amount g.behavior g.net r else r) gs

pub row_of_month-collect_costs :
    (key : Text) (rs : List MonthlyCostBehaviorRow) (gs : List CostGroup)
    → Once rs
    → row_or (no_costs key) (row_of_month key (collect_costs rs gs))
      ≡ month_row key (row_or (no_costs key) (row_of_month key rs)) gs
unfolding collect_costs month_row
row_of_month-collect_costs key rs [] once = refl
row_of_month-collect_costs key rs (g ∷ gs) once =
    row_of_month-collect_costs key (add_cost g rs) gs (add_cost-Once g rs once)
    ∙ ap (λ r. month_row key r gs) (one_more key g rs once)
  where
    one_more :
        (key : Text) (g : CostGroup) (rs : List MonthlyCostBehaviorRow)
        → Once rs
        → row_or (no_costs key) (row_of_month key (add_cost g rs)) ≡ (
            if eqb_text g.month key
            then add_amount g.behavior g.net (row_or (no_costs key) (row_of_month key rs))
            else row_or (no_costs key) (row_of_month key rs))
    one_more key g rs once = elim (Bool-cases (eqb_text g.month key)) [
      | inl here ↦
          let same : g.month ≡ key = eq_of_eqb_text g.month key here in
          rw (here, ← same) (ap (row_or (no_costs g.month)) (row_of_month-add_cost g rs once))
      | inr there ↦
          rw there (ap (row_or (no_costs key)) (row_of_month-add_cost_other key g rs there))
    ]

-- The groups of the month, and those of them with a test on the behavior.
abbrev pub of_month : Text → Text → CostBehavior → Bool
of_month key month b = eqb_text month key

abbrev pub with_behavior : CostBehavior → Text → Text → CostBehavior → Bool
with_behavior behavior key month b = eqb_text month key && eqb_behavior b behavior

abbrev pub other_of_month : Text → Text → CostBehavior → Bool
other_of_month key month b =
    eqb_text month key && (not (eqb_behavior b fixed) && not (eqb_behavior b variable))

pub record Totals (key : Text) (start r : MonthlyCostBehaviorRow) (gs : List CostGroup)
    : Type 0 where
  pub month : r.month ≡ start.month
  pub fixed_total : r.fixed ≡ start.fixed +ℤ sum_costs (with_behavior fixed key) gs
  pub variable_total : r.variable ≡ start.variable +ℤ sum_costs (with_behavior variable key) gs
  pub other_total : r.unclassified ≡ start.unclassified +ℤ sum_costs (other_of_month key) gs
  pub total : r.total ≡ start.total +ℤ sum_costs (of_month key) gs

add_nothing : (a : ℤ) → a ≡ a +ℤ pos 0
add_nothing a = omega int_laws

add_step : (a x s : ℤ) → (a +ℤ x) +ℤ s ≡ a +ℤ (x +ℤ s)
add_step a x s = omega int_laws

abbrev if_picked : Bool → ℤ → ℤ
if_picked picked n = if picked then n else pos 0

-- One group, whether it is of the month or not.
record GroupStep (b : Bool) (c : CostBehavior) (n : ℤ) (r s : MonthlyCostBehaviorRow) : Type 0 where
  month : s.month ≡ r.month
  fixed_step : s.fixed ≡ r.fixed +ℤ if_picked (b && eqb_behavior c fixed) n
  variable_step : s.variable ≡ r.variable +ℤ if_picked (b && eqb_behavior c variable) n
  other_step :
      s.unclassified
      ≡ r.unclassified
        +ℤ if_picked (b && (not (eqb_behavior c fixed) && not (eqb_behavior c variable))) n
  total_step : s.total ≡ r.total +ℤ if_picked b n

GroupStep-if :
    (b : Bool) (c : CostBehavior) (n : ℤ) (r : MonthlyCostBehaviorRow)
    → GroupStep b c n r (if b then add_amount c n r else r)
GroupStep-if false c n r = record {
  month = refl;
  fixed_step = add_nothing r.fixed;
  variable_step = add_nothing r.variable;
  other_step = add_nothing r.unclassified;
  total_step = add_nothing r.total;
}
GroupStep-if true fixed n r = record {
  month = refl;
  fixed_step = refl;
  variable_step = add_nothing r.variable;
  other_step = add_nothing r.unclassified;
  total_step = refl;
}
GroupStep-if true variable n r = record {
  month = refl;
  fixed_step = add_nothing r.fixed;
  variable_step = refl;
  other_step = add_nothing r.unclassified;
  total_step = refl;
}
GroupStep-if true unclassified n r = record {
  month = refl;
  fixed_step = add_nothing r.fixed;
  variable_step = add_nothing r.variable;
  other_step = refl;
  total_step = refl;
}
GroupStep-if true (other_behavior x) n r = record {
  month = refl;
  fixed_step = add_nothing r.fixed;
  variable_step = add_nothing r.variable;
  other_step = refl;
  total_step = refl;
}

-- t = s + rest and s = r + x give t = r + (x + rest).
then_rest : (r s t x rest : ℤ) → s ≡ r +ℤ x → t ≡ s +ℤ rest → t ≡ r +ℤ (x +ℤ rest)
then_rest r s t x rest h k = k ∙ ap (λ y. y +ℤ rest) h ∙ add_step r x rest

pub month_row-Totals :
    (key : Text) (r : MonthlyCostBehaviorRow) (gs : List CostGroup)
    → Totals key r (month_row key r gs) gs
unfolding month_row sum_costs
month_row-Totals key r [] = record {
  month = refl;
  fixed_total = add_nothing r.fixed;
  variable_total = add_nothing r.variable;
  other_total = add_nothing r.unclassified;
  total = add_nothing r.total;
}
month_row-Totals key r (g ∷ gs) =
    let b = eqb_text g.month key in
    let s : MonthlyCostBehaviorRow = if b then add_amount g.behavior g.net r else r in
    let one = GroupStep-if b g.behavior g.net r in
    let rest = month_row-Totals key s gs in
    record {
      month = rest.month ∙ one.month;
      fixed_total = then_rest _ _ _ _ _ one.fixed_step rest.fixed_total;
      variable_total = then_rest _ _ _ _ _ one.variable_step rest.variable_total;
      other_total = then_rest _ _ _ _ _ one.other_step rest.other_total;
      total = then_rest _ _ _ _ _ one.total_step rest.total;
    }
