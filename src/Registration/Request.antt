-- ===== src/Registration/Request.antt =====
-- pkg/registration/request.go: the validation of a request.
use thittam.Base.{
  ℕ, Bool, true, false, not, ◌&&◌, ◌||◌, Option, none, some, [], ◌∷◌, ltb, leb, ◌==◌, if◌then◌else◌,
}
use thittam.Base.Text.{Text, text, eqb_text}
use thittam.Base.Strings.{trim_space, to_upper, byte_length, is_space, is_digit, every}
use thittam.Base.Action.{Result, ok, err}
use thittam.Registration.Ports.{
  Fault, country_required, unknown_country, invalid_plan, invalid_request, RegisterRequest,
}
use thittam.Registration.Slug.{to_lower}
use thittam.Registration.Locale.{currency_for_country, is_known_country}

abbrev pub space_before : ℕ → Text → Text
space_before c [] = []
space_before c (d ∷ rest) = if d == 32 then d ∷ rest else 32 ∷ d ∷ rest

-- One space for each run of space, and none at the end.
unfoldable pub squeeze : Text → Text
squeeze [] = []
squeeze (c ∷ s) = let rest = squeeze s in if is_space c then space_before c rest else c ∷ rest

abbrev pub drop_space : Text → Text
drop_space [] = []
drop_space (c ∷ s) = if c == 32 then s else c ∷ s

-- strings.Join(strings.Fields(s), " ").
abbrev pub join_fields : Text → Text
join_fields s = drop_space (squeeze s)

abbrev pub is_letter : ℕ → Bool
is_letter c = (leb 97 c && leb c 122) || (leb 65 c && leb c 90)

-- [a-zA-Z0-9._%+\-]
abbrev pub is_local_character : ℕ → Bool
is_local_character c =
    is_letter c || (is_digit c || (c == 46 || (c == 95 || (c == 37 || (c == 43 || c == 45)))))

-- [a-zA-Z0-9.\-]
abbrev pub is_domain_character : ℕ → Bool
is_domain_character c = is_letter c || (is_digit c || (c == 46 || c == 45))

-- A dot with two or more letters after it and nothing else, somewhere after the first character.
unfoldable pub has_ending : Text → Bool
unfolding every
has_ending [] = false
has_ending (c ∷ []) = false
has_ending (c ∷ d ∷ s) =
    (d == 46 && (leb 2 (byte_length s) && every is_letter s)) || has_ending (d ∷ s)

-- What follows the local part, which has begun if the flag says so.
unfoldable pub is_email_from : Bool → Text → Bool
unfolding has_ending every
is_email_from begun [] = false
is_email_from begun (c ∷ s) =
    let more = is_email_from true s in
    if c == 64
    then begun && (every is_domain_character s && has_ending s)
    else is_local_character c && more

-- emailRegex.MatchString.
unfoldable pub matches_email : Text → Bool
unfolding is_email_from
matches_email s = is_email_from false s

abbrev pub is_empty : Text → Bool
is_empty [] = true
is_empty (c ∷ s) = false

abbrev pub is_valid_plan : Text → Bool
is_valid_plan plan =
    eqb_text (text "starter") plan
    || (eqb_text (text "professional") plan || eqb_text (text "enterprise") plan)

abbrev pub with_currency : RegisterRequest → Option Text → Result Fault RegisterRequest
with_currency r none = err unknown_country
with_currency r (some currency) = ok (record r { primary_currency = currency })

-- The second half of Validate: the country and the currency.
unfoldable pub validate_place : RegisterRequest → Result Fault RegisterRequest
validate_place r =
    let country = to_upper (trim_space r.country) in
    let currency = to_upper (trim_space r.primary_currency) in
    let placed = record r { country = country; primary_currency = currency } in
    if is_empty country
    then err country_required
    else if not (is_known_country country)
    then err unknown_country
    else if is_empty currency
    then with_currency placed (currency_for_country country)
    else ok placed

-- RegisterRequest.Validate, which rewrites the request. A currency code outside ASCII is left as it
-- is, where strings.ToUpper might change it.
unfoldable pub validate : RegisterRequest → Result Fault RegisterRequest
unfolding validate_place
validate r =
    let company_name = join_fields r.company_name in
    let email = trim_space (to_lower r.email) in
    let plan = trim_space (to_lower r.plan) in
    let vertical_id = trim_space r.vertical_id in
    let canonical = record r {
      company_name = company_name;
      email = email;
      plan = plan;
      vertical_id = vertical_id;
    } in
    let length = byte_length company_name in
    if is_empty company_name
    then err invalid_request
    else if ltb length 2 || ltb 200 length
    then err invalid_request
    else if is_empty email
    then err invalid_request
    else if not (matches_email email)
    then err invalid_request
    else if is_empty r.password
    then err invalid_request
    else if ltb (byte_length r.password) 8
    then err invalid_request
    else if is_empty vertical_id
    then err invalid_request
    else if not (is_valid_plan plan)
    then err invalid_plan
    else validate_place canonical
