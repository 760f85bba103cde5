-- ===== src/Expense/Limits.antt =====
-- The highest limit of several roles, against the limits of the single ones.
use thittam.Base.{
  ◌+◌, ◌≤◌, ◌≡◌, refl, sym, ◌∙◌, ap, Bool, true, false, ◌||◌, Option, none, some, List, [], ◌∷◌,
  ltb, Bool-cases, inl, inr, arith,
}
use thittam.Base.Int.{ℤ, ◌-ℤ◌, pos_part, neg_part}
use thittam.Base.Rows.{find_row, has_row}
use thittam.Base.Text.{Text, text, eqb_text, eqb_text_refl}
use thittam.Expense.{
  has_super_admin, ApprovalLimit, ApprovalWorkflow, greater_than, within_limit, limit_for_role,
  max_limit, max_limit_from, max_limit_for_roles,
}

-- a > b, without the difference.
greater_than_lem :
    (a b : ℤ) → greater_than a b ≡ ltb (pos_part b + neg_part a) (pos_part a + neg_part b)
unfolding ◌-ℤ◌
greater_than_lem a b = ground arith

within-max :
    (amount : ℤ) (max limit : Option ℤ)
    → within_limit amount (max_limit max limit)
      ≡ (within_limit amount max || within_limit amount limit)
within-max amount none none = refl
within-max amount none (some l) = refl
within-max amount (some m) none = ground arith
within-max amount (some m) (some l) =
    ground (arith, greater_than_lem l m, greater_than_lem amount l, greater_than_lem amount m)

or_assoc : (a b c : Bool) → ((a || b) || c) ≡ (a || (b || c))
or_assoc a b c = ground arith

max_limit_from-within :
    (amount : ℤ) (max : Option ℤ) (limits : List ApprovalLimit) (roles : List Text)
    → within_limit amount (max_limit_from max limits roles) ≡ (
        within_limit amount max
        || has_row (λ r. within_limit amount (limit_for_role r limits)) roles)
unfolding max_limit_from has_row
max_limit_from-within amount max limits [] = ground arith
max_limit_from-within amount max limits (r ∷ roles) =
    max_limit_from-within amount (max_limit max (limit_for_role r limits)) limits roles
    ∙ ap (λ b. b || has_row (λ r. within_limit amount (limit_for_role r limits)) roles)
        (within-max amount max (limit_for_role r limits))
    ∙ or_assoc (within_limit amount max) (within_limit amount (limit_for_role r limits))
        (has_row (λ r. within_limit amount (limit_for_role r limits)) roles)

-- An amount is within the limit that MaxLimitForRoles gives for several roles exactly when the
-- limit that LimitForRole gives for at least one of them is there and is at least the amount.
pub max_limit_for_roles-within :
    (w : ApprovalWorkflow) (roles : List Text) (amount : ℤ)
    → within_limit amount (max_limit_for_roles w roles)
      ≡ has_row (λ r. within_limit amount (limit_for_role r w.limits)) roles
max_limit_for_roles-within w roles amount = max_limit_from-within amount none w.limits roles

-- a ≤ b, without the difference.
abbrev pub AtMost : ℤ → ℤ → Type 0
AtMost a b = pos_part a + neg_part b ≤ pos_part b + neg_part a

pub greater_than-AtMost : (a b : ℤ) → greater_than a b ≡ false → AtMost a b
greater_than-AtMost a b h = ground (arith, greater_than_lem a b)

-- Who may approve an amount: a super_admin, and a role whose limit is at least the amount.
pub data Authority (w : ApprovalWorkflow) (roles : List Text) (amount : ℤ) : Type 0 where
  admin : has_row (λ r. eqb_text r (text "super_admin")) roles ≡ true → Authority w roles amount
  by_limit :
      (role : Text) (limit : ApprovalLimit)
      → has_row (λ r. eqb_text r role) roles ≡ true
      → find_row (λ l. eqb_text l.role role) w.limits ≡ some limit
      → AtMost amount limit.max_amount
      → Authority w roles amount

-- The first limit of a role.
limit_for_role-found :
    (role : Text) (ls : List ApprovalLimit) {max : ℤ}
    → limit_for_role role ls ≡ some max
    → (l : ApprovalLimit) × (find_row (λ l. eqb_text l.role role) ls ≡ some l)
      × (l.max_amount ≡ max)
unfolding limit_for_role find_row
limit_for_role-found role [] h = absurd (cc)
limit_for_role-found role (l ∷ ls) {max} h = elim (Bool-cases (eqb_text l.role role)) [
  | inl hit ↦ (l, rw hit refl, ground arith)
  | inr miss ↦
      let (m, found, same) = limit_for_role-found role ls {max = max} (ground arith) in
      (m, rw miss found, same)
]

within_limit-some :
    (amount : ℤ) (o : Option ℤ)
    → within_limit amount o ≡ true
    → (max : ℤ) × (o ≡ some max) × AtMost amount max
within_limit-some amount none h = absurd (cc)
within_limit-some amount (some max) h = (max, refl, greater_than-AtMost amount max (ground arith))

-- One of the roles, whose limit is at least the amount.
has_row-role :
    (w : ApprovalWorkflow) (amount : ℤ) (roles : List Text)
    → has_row (λ r. within_limit amount (limit_for_role r w.limits)) roles ≡ true
    → (role : Text) × (has_row (λ r. eqb_text r role) roles ≡ true)
      × (within_limit amount (limit_for_role role w.limits) ≡ true)
unfolding has_row
has_row-role w amount [] h = absurd (cc)
has_row-role w amount (r ∷ roles) h =
    elim (Bool-cases (within_limit amount (limit_for_role r w.limits))) [
      | inl here ↦ (r, rw (eqb_text_refl r) refl, here)
      | inr there ↦
          let (role, member, enough) = has_row-role w amount roles (ground arith) in
          (role, ground arith, enough)
    ]

pub limits-Authority :
    (w : ApprovalWorkflow) (roles : List Text) (amount : ℤ)
    → (has_super_admin roles || within_limit amount (max_limit_for_roles w roles)) ≡ true
    → Authority w roles amount
unfolding has_super_admin
limits-Authority w roles amount h = elim (Bool-cases (has_super_admin roles)) [
  | inl super ↦ admin super
  | inr plain ↦
      let within : within_limit amount (max_limit_for_roles w roles) ≡ true = ground arith in
      let (role, member, enough) =
        has_row-role w amount roles (sym (max_limit_for_roles-within w roles amount) ∙ within) in
      let (max, known, low) = within_limit-some amount (limit_for_role role w.limits) enough in
      let (limit, found, same) = limit_for_role-found role w.limits known in
      by_limit role limit member found (rw same low)
]
