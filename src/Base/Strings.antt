-- ===== src/Base/Strings.antt =====
-- What the program takes from the packages strings and regexp, on lists of code points.
use thittam.Base.Tests.{ltb, leb, ◌==◌, if◌then◌else◌}
use thittam.Base.Lists.{length}
use thittam.Base.Text.{Text}
use Prim.Native.Nat.{ℕ, ◌+◌, ◌-◌}
use mathlib.Core.Bool.{Bool, true, ◌&&◌, ◌||◌}
use mathlib.Core.List.{[], ◌∷◌}

-- unicode.IsSpace.
abbrev pub is_space : ℕ → Bool
is_space c =
    (leb 9 c && leb c 13)
    || (c == 32
        || (c == 133
            || (c == 160
                || (c == 5760
                    || ((leb 8192 c && leb c 8202)
                        || (c == 8232
                            || (c == 8233 || (c == 8239 || (c == 8287 || c == 12288)))))))))

unfoldable pub trim_left : Text → Text
trim_left [] = []
trim_left (c ∷ s) = let rest = trim_left s in if is_space c then rest else c ∷ s

unfoldable pub trim_right : Text → Text
trim_right [] = []
trim_right (c ∷ s) = close c (trim_right s)
  where
    close : ℕ → Text → Text
    close c [] = if is_space c then [] else c ∷ []
    close c (d ∷ s) = c ∷ d ∷ s

-- strings.TrimSpace.
abbrev pub trim_space : Text → Text
trim_space s = trim_right (trim_left s)

-- The bytes that UTF-8 takes for a code point.
abbrev utf8_width : ℕ → ℕ
utf8_width c = if ltb c 128 then 1 else if ltb c 2048 then 2 else if ltb c 65536 then 3 else 4

-- len of a string: its bytes.
unfoldable pub byte_length : Text → ℕ
byte_length [] = 0
byte_length (c ∷ s) = utf8_width c + byte_length s

-- strings.ToUpper on the characters whose upper case is a letter of ASCII, among them the dotless i
-- and the long s. The others stay outside ASCII, so a pattern on A-Z refuses them as it does their
-- upper case; this stands for ToUpper only under such a pattern.
abbrev pub ascii_upper : ℕ → ℕ
ascii_upper c =
    if leb 97 c && leb c 122 then c - 32 else if c == 305 then 73 else if c == 383 then 83 else c

unfoldable pub to_upper : Text → Text
to_upper [] = []
to_upper (c ∷ s) = ascii_upper c ∷ to_upper s

-- A replacer of two characters by nothing.
unfoldable pub without : ℕ → ℕ → Text → Text
without a b [] = []
without a b (c ∷ s) = let rest = without a b s in if c == a || c == b then rest else c ∷ rest

abbrev pub is_digit : ℕ → Bool
is_digit c = leb 48 c && leb c 57

abbrev pub is_upper : ℕ → Bool
is_upper c = leb 65 c && leb c 90

unfoldable pub every : (ℕ → Bool) → Text → Bool
every p [] = true
every p (c ∷ s) = p c && every p s

-- The last `n` characters.
unfoldable pub last_of : ℕ → Text → Text
last_of n [] = []
last_of n (c ∷ s) = let rest = last_of n s in if ltb (length s) n then c ∷ s else rest
