-- ===== src/Ledger/Monthly/Months.antt =====
-- Months as texts: what is printed parses back, and the order of the texts is that of the months.
use thittam.Base.{
  ℕ, ◌≡◌, refl, true, ◌&&◌, some, [], ◌∷◌, ◌==◌, ◌≤◌, ◌<◌, ◌*◌, ◌+◌, ◌-◌, ◌/◌, ◌%◌, arith,
  Bool-cases, inl, inr,
}
use thittam.Base.Text.{Text}
use thittam.Base.Strings.{is_digit}
use thittam.Ledger.Trial.{leb_text}
use thittam.Ledger.Monthly.{format_month, number4, is_year, is_month, parse_month}

-- A month up to December of year 9999 that is printed as YYYY-MM parses back to the same month.
pub parse_month-format_month : (m : ℕ) → m < 120000 → parse_month (format_month m) ≡ some m
unfolding parse_month format_month
parse_month-format_month m h = ground arith

is_digit-bounds : (c : ℕ) → is_digit c ≡ true → (48 ≤ c) × (c ≤ 57)
is_digit-bounds c h = ground arith

number4_digits :
    (a b c d : ℕ)
    → is_year a b c d ≡ true
    → (48 + number4 a b c d / 1000 ≡ a)
      × (48 + number4 a b c d / 100 % 10 ≡ b)
      × (48 + number4 a b c d / 10 % 10 ≡ c)
      × (48 + number4 a b c d % 10 ≡ d)
      × (number4 a b c d < 10000)
number4_digits a b c d h =
    let pa = is_digit-bounds a (ground arith) in
    let pb = is_digit-bounds b (ground arith) in
    let pc = is_digit-bounds c (ground arith) in
    let pd = is_digit-bounds d (ground arith) in
    (omega arith, omega arith, omega arith, omega arith, omega arith)

number2_digits :
    (e f : ℕ)
    → is_month e f ≡ true
    → (48 + (10 * (e - 48) + (f - 48)) / 10 ≡ e)
      × (48 + (10 * (e - 48) + (f - 48)) % 10 ≡ f)
      × (1 ≤ 10 * (e - 48) + (f - 48))
      × (10 * (e - 48) + (f - 48) ≤ 12)
number2_digits e f h =
    let pe = is_digit-bounds e (ground arith) in
    let pf = is_digit-bounds f (ground arith) in
    (omega arith, omega arith, ground arith, ground arith)

month_parts : (y n m : ℕ) → 1 ≤ n → n ≤ 12 → m ≡ 12 * y + n - 1 → (m / 12 ≡ y) × (m % 12 + 1 ≡ n)
month_parts y n m h k e = (omega arith, omega arith)

digits-month :
    (a b c d dash e f m : ℕ)
    → (is_year a b c d && (dash == 45 && is_month e f)) ≡ true
    → m ≡ 12 * number4 a b c d + (10 * (e - 48) + (f - 48)) - 1
    → (m < 120000) × (format_month m ≡ a ∷ b ∷ c ∷ d ∷ dash ∷ e ∷ f ∷ [])
unfolding format_month
digits-month a b c d dash e f m h k =
    let year : is_year a b c d ≡ true = ground arith in
    let month : is_month e f ≡ true = ground arith in
    let here : dash ≡ 45 = ground arith in
    let (ea, eb, ec, ed, small) = number4_digits a b c d year in
    let (ee, ef, low, high) = number2_digits e f month in
    let (ey, en) = month_parts (number4 a b c d) (10 * (e - 48) + (f - 48)) m low high k in
    (omega arith, rw (ey, en, ea, eb, ec, ed, ee, ef, here) refl)

-- A text that parses as a month is exactly what that month prints, and the month is at most
-- December of year 9999.
pub format_month-parse_month :
    (s : Text) {m : ℕ} → parse_month s ≡ some m → (m < 120000) × (format_month m ≡ s)
unfolding parse_month
format_month-parse_month [] h = cc
format_month-parse_month (a ∷ []) h = cc
format_month-parse_month (a ∷ b ∷ []) h = cc
format_month-parse_month (a ∷ b ∷ c ∷ []) h = cc
format_month-parse_month (a ∷ b ∷ c ∷ d ∷ []) h = cc
format_month-parse_month (a ∷ b ∷ c ∷ d ∷ x ∷ []) h = cc
format_month-parse_month (a ∷ b ∷ c ∷ d ∷ x ∷ e ∷ []) h = cc
format_month-parse_month (a ∷ b ∷ c ∷ d ∷ x ∷ e ∷ f ∷ []) {m} h =
    elim (Bool-cases (is_year a b c d && (x == 45 && is_month e f))) [
      | inl good ↦ digits-month a b c d x e f m good (ground arith)
      | inr bad ↦ ground arith
    ]
format_month-parse_month (a ∷ b ∷ c ∷ d ∷ x ∷ e ∷ f ∷ g ∷ s) h = cc

leb_text-cons :
    (x y : ℕ) (a b : Text) → x ≤ y → (x ≡ y → leb_text a b ≡ true) → leb_text (x ∷ a) (y ∷ b) ≡ true
unfolding leb_text
leb_text-cons x y a b h k = ground arith

leb_text_nil : leb_text [] [] ≡ true
unfolding leb_text
leb_text_nil = refl

pub format_month-leb_text : (m n : ℕ) → m ≤ n → leb_text (format_month m) (format_month n) ≡ true
unfolding format_month
format_month-leb_text m n h = leb_text-cons _ _ _ _ (omega arith) λ e1.
    leb_text-cons _ _ _ _ (omega arith) λ e2. leb_text-cons _ _ _ _ (omega arith) λ e3.
      leb_text-cons _ _ _ _ (omega arith) λ e4. leb_text-cons _ _ _ _ (omega arith) λ e5.
        leb_text-cons _ _ _ _ (omega arith)
          λ e6. leb_text-cons _ _ _ _ (omega arith) λ e7. leb_text_nil
