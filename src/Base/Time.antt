-- ===== src/Base/Time.antt =====
-- An instant: the number of its month, counted from month 0 of year 0, and the nanoseconds passed
-- of that month. The program compares instants and reads their year and month.
use thittam.Base.Tests.{ltb, leb, ◌==◌, if◌then◌else◌}
use Prim.Native.Nat.{ℕ, zero, suc, ◌+◌, ◌-◌, ◌*◌, ◌/◌, ◌%◌}
use mathlib.Core.List.{List, [], ◌∷◌}
use mathlib.Core.Path.{◌≡◌, refl}
use mathlib.Core.Bool.{Bool, true, ◌&&◌, ◌||◌}

pub record Time : Type 0 where
  pub month : ℕ
  pub offset : ℕ

abbrev pub year_of : Time → ℕ
year_of t = t.month / 12

-- time.Time.After with its arguments in the order of the call.
abbrev pub after : Time → Time → Bool
after a b = ltb b.month a.month || (b.month == a.month && ltb b.offset a.offset)

abbrev leap_years_before : ℕ → ℕ
leap_years_before y = (y + 3) / 4 - (y + 99) / 100 + (y + 399) / 400

abbrev sum_first : ℕ → List ℕ → ℕ
sum_first zero ds = 0
sum_first (suc n) [] = 0
sum_first (suc n) (d ∷ ds) = d + sum_first n ds

-- The days of a common year before each of its months.
abbrev days_before : ℕ → ℕ
days_before m = sum_first m (31 ∷ 28 ∷ 31 ∷ 30 ∷ 31 ∷ 30 ∷ 31 ∷ 31 ∷ 30 ∷ 31 ∷ 30 ∷ [])

abbrev leap_day : ℕ → ℕ → ℕ
leap_day y m = if leb 2 m then leap_years_before (suc y) - leap_years_before y else 0

-- The nanoseconds since the start of year 0.
unfoldable pub nanoseconds : Time → ℕ
nanoseconds t =
    let y = t.month / 12 in
    let m = t.month % 12 in
    (365 * y + leap_years_before y + days_before m + leap_day y m) * 86400000000000 + t.offset

-- a.Sub(b) < d for a positive duration d in nanoseconds.
abbrev pub within : ℕ → Time → Time → Bool
within d a b = ltb (nanoseconds a) (nanoseconds b + d)

-- From the first of March 2024 back to the last second of February 29th.
within_leap :
    within 2000000000
      (record { month = 24290; offset = 0 })
      (record { month = 24289; offset = 2505599000000000 })
    ≡ true
unfolding nanoseconds
within_leap = refl
