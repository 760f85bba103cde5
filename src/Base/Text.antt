-- ===== src/Base/Text.antt =====
-- Text as the list of its code points, and the formats that the program prints with.
use thittam.Base.Tests.{ltb, ◌==◌, if◌then◌else◌}
use Prim.Native.Nat.{ℕ, zero, suc, ◌+◌, ◌-◌, ◌/◌, ◌%◌}
use Prim.Native.Char.{code}
use Prim.Native.String.{String}
use mathlib.Core.Path.{◌≡◌, refl}
use mathlib.Core.Bool.{Bool, true, false, ◌&&◌}
use mathlib.Core.List.{List, [], ◌∷◌}
use native.Mathlib.Omega.{arith}

abbrev pub Text : Type 0
Text = List ℕ

abbrev pub text : String → Text
text String.[] = []
text (String.◌∷◌ c s) = code c ∷ text s

unfoldable pub eqb_text : Text → Text → Bool
eqb_text [] [] = true
eqb_text [] (y ∷ ys) = false
eqb_text (x ∷ xs) [] = false
eqb_text (x ∷ xs) (y ∷ ys) = x == y && eqb_text xs ys

pub eq_of_eqb_text : (a b : Text) → eqb_text a b ≡ true → a ≡ b
unfolding eqb_text
eq_of_eqb_text [] [] h = refl
eq_of_eqb_text [] (y ∷ ys) h = cc
eq_of_eqb_text (x ∷ xs) [] h = cc
eq_of_eqb_text (x ∷ xs) (y ∷ ys) h = ground (arith, eq_of_eqb_text xs ys)

pub eqb_text_refl : (a : Text) → eqb_text a a ≡ true
unfolding eqb_text
eqb_text_refl [] = refl
eqb_text_refl (x ∷ xs) = ground (arith, eqb_text_refl xs)

-- The decimal digits of a number, as the verb %d prints them, before `rest`.
unfoldable pub digits_before : ℕ → ℕ → Text → Text
digits_before zero n rest = rest
digits_before (suc fuel) n rest =
    let more = digits_before fuel (n / 10) ((48 + n % 10) ∷ rest) in
    if ltb n 10 then (48 + n) ∷ rest else more

unfoldable pub decimal : ℕ → Text
unfolding digits_before
decimal n = digits_before (suc n) n []

unfoldable pub zeros_before : ℕ → Text → Text
zeros_before zero s = s
zeros_before (suc n) s = 48 ∷ zeros_before n s

abbrev text_length : Text → ℕ
text_length [] = 0
text_length (x ∷ xs) = suc (text_length xs)

-- The verb %05d.
unfoldable pub decimal5 : ℕ → Text
unfolding decimal zeros_before
decimal5 n = zeros_before (5 - text_length (decimal n)) (decimal n)

decimal5_short : decimal5 42 ≡ text "00042"
unfolding decimal5
decimal5_short = refl

decimal5_long : decimal5 1234567 ≡ text "1234567"
unfolding decimal5
decimal5_long = refl
