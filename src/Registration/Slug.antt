-- ===== src/Registration/Slug.antt =====
-- pkg/registration/slug.go.
pub mod Shape
use thittam.Base.{ℕ, ◌+◌, Bool, true, false, not, ◌&&◌, ◌||◌, [], ◌∷◌, leb, ◌==◌, if◌then◌else◌}
use thittam.Base.Text.{Text}
use thittam.Base.Strings.{trim_space, is_digit}

-- strings.ToLower on the characters whose lower case is a letter of ASCII, among them the Kelvin
-- sign and the dotted capital I. The others stay outside ASCII, as their lower case does, and
-- Slugify drops both.
abbrev pub ascii_lower : ℕ → ℕ
ascii_lower c =
    if leb 65 c && leb c 90 then c + 32 else if c == 8490 then 107 else if c == 304 then 105 else c

unfoldable pub to_lower : Text → Text
to_lower [] = []
to_lower (c ∷ s) = ascii_lower c ∷ to_lower s

abbrev pub is_alphanumeric : ℕ → Bool
is_alphanumeric c = (leb 97 c && leb c 122) || is_digit c

abbrev pub is_dash : ℕ → Bool
is_dash c = c == 45

-- strings.ReplaceAll(s, " ", "-").
unfoldable pub dash_spaces : Text → Text
dash_spaces [] = []
dash_spaces (c ∷ s) = (if c == 32 then 45 else c) ∷ dash_spaces s

-- nonAlphanumeric.ReplaceAllString(s, "").
unfoldable pub keep_slug_characters : Text → Text
keep_slug_characters [] = []
keep_slug_characters (c ∷ s) =
    let rest = keep_slug_characters s in if is_alphanumeric c || is_dash c then c ∷ rest else rest

abbrev pub starts_dash : Text → Bool
starts_dash [] = false
starts_dash (c ∷ s) = is_dash c

-- multiDash.ReplaceAllString(s, "-").
unfoldable pub collapse_dashes : Text → Text
collapse_dashes [] = []
collapse_dashes (c ∷ s) =
    let rest = collapse_dashes s in if is_dash c && starts_dash rest then rest else c ∷ rest

unfoldable pub drop_left_dashes : Text → Text
drop_left_dashes [] = []
drop_left_dashes (c ∷ s) = let rest = drop_left_dashes s in if is_dash c then rest else c ∷ s

abbrev pub before_rest : ℕ → Text → Text
before_rest c [] = if is_dash c then [] else c ∷ []
before_rest c (d ∷ s) = c ∷ d ∷ s

unfoldable pub drop_right_dashes : Text → Text
drop_right_dashes [] = []
drop_right_dashes (c ∷ s) = before_rest c (drop_right_dashes s)

-- strings.Trim(s, "-").
abbrev pub trim_dashes : Text → Text
trim_dashes s = drop_right_dashes (drop_left_dashes s)

unfoldable pub slugify : Text → Text
slugify name =
    trim_dashes (collapse_dashes (keep_slug_characters (dash_spaces (to_lower (trim_space name)))))
