-- ===== src/Registration/Slug/Shape.antt =====
-- What a slug looks like: words of a-z and 0-9 with one dash between two of them.
use thittam.Base.{
  ℕ, ◌≡◌, refl, ap, Bool, true, false, not, ◌&&◌, ◌||◌, [], ◌∷◌, if◌then◌else◌, ◌⊎◌, inl, inr,
  arith, Bool-cases,
}
use thittam.Base.Text.{Text}
use thittam.Base.Strings.{is_space, trim_left, trim_right}
use thittam.Registration.Slug.{
  ascii_lower, to_lower, is_alphanumeric, is_dash, dash_spaces, keep_slug_characters, starts_dash,
  collapse_dashes, drop_left_dashes, before_rest, drop_right_dashes, trim_dashes, slugify,
}

-- The rest of a slug; the flag says that a word must begin here.
abbrev pub words : Bool → Text → Bool
words begin [] = not begin
words begin (c ∷ s) =
    if is_dash c then not begin && words true s else is_alphanumeric c && words false s

abbrev pub IsSlug : Text → Type 0
IsSlug s = (s ≡ []) ⊎ (words true s ≡ true)

-- Slug characters, no two dashes in a row.
abbrev single : Text → Bool
single [] = true
single (c ∷ s) = (is_alphanumeric c || is_dash c) && (not (is_dash c && starts_dash s) && single s)

abbrev slug_text : Text → Bool
slug_text [] = true
slug_text (c ∷ s) = (is_alphanumeric c || is_dash c) && slug_text s

keep_slug_characters-slug_text : (s : Text) → slug_text (keep_slug_characters s) ≡ true
unfolding keep_slug_characters
keep_slug_characters-slug_text [] = refl
keep_slug_characters-slug_text (c ∷ s) = ground (arith, keep_slug_characters-slug_text s)

collapse_dashes-single : (s : Text) → slug_text s ≡ true → single (collapse_dashes s) ≡ true
unfolding collapse_dashes
collapse_dashes-single [] h = refl
collapse_dashes-single (c ∷ s) h = ground (arith, collapse_dashes-single s)

drop_left_dashes-single :
    (s : Text)
    → single s ≡ true
    → (single (drop_left_dashes s) ≡ true) × (starts_dash (drop_left_dashes s) ≡ false)
unfolding drop_left_dashes
drop_left_dashes-single [] h = (refl, refl)
drop_left_dashes-single (c ∷ s) h = ground (arith, drop_left_dashes-single s)

-- What is left begins as the text did.
before_rest-words :
    (c : ℕ) (s rest : Text)
    → single (c ∷ s) ≡ true
    → ((starts_dash s ≡ false) → starts_dash rest ≡ false)
    → words false rest ≡ true
    → (words false (before_rest c rest) ≡ true)
      × ((is_dash c ≡ false) → starts_dash (before_rest c rest) ≡ false)
before_rest-words c s [] h same k = ground arith
before_rest-words c s (d ∷ rest) h same k = ground arith

drop_right_dashes-words :
    (s : Text)
    → single s ≡ true
    → (words false (drop_right_dashes s) ≡ true)
      × ((starts_dash s ≡ false) → starts_dash (drop_right_dashes s) ≡ false)
unfolding drop_right_dashes
drop_right_dashes-words [] h = (refl, λ _. refl)
drop_right_dashes-words (c ∷ s) h =
    let (ih, same) = drop_right_dashes-words s (ground arith) in
    before_rest-words c s (drop_right_dashes s) h same ih

words-IsSlug : (s : Text) → words false s ≡ true → starts_dash s ≡ false → IsSlug s
words-IsSlug [] h k = inl refl
words-IsSlug (c ∷ s) h k = inr (ground arith)

trim_dashes-IsSlug : (s : Text) → single s ≡ true → IsSlug (trim_dashes s)
trim_dashes-IsSlug s h =
    let (one, plain) = drop_left_dashes-single s h in
    let (ws, same) = drop_right_dashes-words (drop_left_dashes s) one in
    words-IsSlug _ ws (same plain)

slugify-IsSlug : (name : Text) → IsSlug (slugify name)
unfolding slugify
slugify-IsSlug name =
    trim_dashes-IsSlug _ (collapse_dashes-single _ (keep_slug_characters-slug_text _))

-- Each pass leaves a slug as it is.
abbrev plain : ℕ → Bool
plain c = is_alphanumeric c || is_dash c

plain_lower : (c : ℕ) → plain c ≡ true → ascii_lower c ≡ c
plain_lower c h = ground arith

plain-is_space : (c : ℕ) → plain c ≡ true → is_space c ≡ false
plain-is_space c h = ground arith

to_lower-slug_text : (s : Text) → slug_text s ≡ true → to_lower s ≡ s
unfolding to_lower
to_lower-slug_text [] h = refl
to_lower-slug_text (c ∷ s) h =
    rw (plain_lower c (ground arith), to_lower-slug_text s (ground arith)) refl

dash_spaces-slug_text : (s : Text) → slug_text s ≡ true → dash_spaces s ≡ s
unfolding dash_spaces
dash_spaces-slug_text [] h = refl
dash_spaces-slug_text (c ∷ s) h = ground (arith, dash_spaces-slug_text s)

keep_slug_characters-slug_text_id : (s : Text) → slug_text s ≡ true → keep_slug_characters s ≡ s
unfolding keep_slug_characters
keep_slug_characters-slug_text_id [] h = refl
keep_slug_characters-slug_text_id (c ∷ s) h = ground (arith, keep_slug_characters-slug_text_id s)

trim_left-slug_text : (s : Text) → slug_text s ≡ true → trim_left s ≡ s
unfolding trim_left
trim_left-slug_text [] h = refl
trim_left-slug_text (c ∷ s) h = rw (plain-is_space c (ground arith)) refl

collapse_dashes-words : (b : Bool) (s : Text) → words b s ≡ true → collapse_dashes s ≡ s
unfolding collapse_dashes
collapse_dashes-words b [] h = refl
collapse_dashes-words b (c ∷ []) h = ground arith
collapse_dashes-words b (c ∷ d ∷ s) h =
    ground (arith, collapse_dashes-words true (d ∷ s), collapse_dashes-words false (d ∷ s))

words-slug_text : (b : Bool) (s : Text) → words b s ≡ true → slug_text s ≡ true
words-slug_text b [] h = refl
words-slug_text b (c ∷ s) h = ground (arith, words-slug_text true s, words-slug_text false s)

drop_left_dashes-words : (s : Text) → words true s ≡ true → drop_left_dashes s ≡ s
unfolding drop_left_dashes
drop_left_dashes-words [] h = refl
drop_left_dashes-words (c ∷ s) h = ground arith

drop_right_dashes-words_id : (b : Bool) (s : Text) → words b s ≡ true → drop_right_dashes s ≡ s
unfolding drop_right_dashes
drop_right_dashes-words_id b [] h = refl
drop_right_dashes-words_id b (c ∷ []) h = ground arith
drop_right_dashes-words_id b (c ∷ d ∷ s) h =
    let rest : drop_right_dashes (d ∷ s) ≡ d ∷ s = elim (Bool-cases (is_dash c)) [
      | inl dash ↦ drop_right_dashes-words_id true (d ∷ s) (ground arith)
      | inr letter ↦ drop_right_dashes-words_id false (d ∷ s) (ground arith)
    ] in
    ap (before_rest c) rest

trim_right-slug_text : (s : Text) → slug_text s ≡ true → trim_right s ≡ s
unfolding trim_right
trim_right-slug_text [] h = refl
trim_right-slug_text (c ∷ []) h = rw (plain-is_space c (ground arith)) refl
trim_right-slug_text (c ∷ d ∷ s) h = rw (trim_right-slug_text (d ∷ s) (ground arith)) refl

slugify-words : (s : Text) → words true s ≡ true → slugify s ≡ s
unfolding slugify
slugify-words s h =
    let plain = words-slug_text true s h in
    rw
      (
        trim_left-slug_text s plain,
        trim_right-slug_text s plain,
        to_lower-slug_text s plain,
        dash_spaces-slug_text s plain,
        keep_slug_characters-slug_text_id s plain,
        collapse_dashes-words true s h,
        drop_left_dashes-words s h,
        drop_right_dashes-words_id true s h,
      )
      refl

slugify_nil : slugify [] ≡ []
unfolding slugify trim_left trim_right to_lower dash_spaces keep_slug_characters collapse_dashes
    drop_left_dashes drop_right_dashes
slugify_nil = refl

-- A slug is its own slug.
slugify-IsSlug_id : (s : Text) → IsSlug s → slugify s ≡ s
slugify-IsSlug_id s (inl h) = rw h slugify_nil
slugify-IsSlug_id s (inr h) = slugify-words s h

-- The slug of any name is empty, or words of the characters a-z and 0-9 with exactly one dash
-- between each two of them, and it is its own slug.
pub slugify-slugify :
    (name : Text) → IsSlug (slugify name) × (slugify (slugify name) ≡ slugify name)
slugify-slugify name = let h = slugify-IsSlug name in (h, slugify-IsSlug_id (slugify name) h)
