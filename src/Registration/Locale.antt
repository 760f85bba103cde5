-- ===== src/Registration/Locale.antt =====
-- pkg/locale/currency.go: the currency of a country.
use thittam.Base.{Bool, true, false, not, Option, none, some, List, [], ◌∷◌, ◌==◌, if◌then◌else◌}
use thittam.Base.Text.{Text, text, eqb_text}
use thittam.Base.Strings.{trim_space, to_upper, byte_length}
use Prim.Native.String.{String}

unfoldable pub country_currency : List (String × String)
country_currency =
    ("AE", "AED")
    ∷ ("AR", "ARS")
    ∷ ("AT", "EUR")
    ∷ ("AU", "AUD")
    ∷ ("BD", "BDT")
    ∷ ("BE", "EUR")
    ∷ ("BG", "BGN")
    ∷ ("BH", "BHD")
    ∷ ("BR", "BRL")
    ∷ ("CA", "CAD")
    ∷ ("CH", "CHF")
    ∷ ("CL", "CLP")
    ∷ ("CN", "CNY")
    ∷ ("CO", "COP")
    ∷ ("CY", "EUR")
    ∷ ("CZ", "CZK")
    ∷ ("DE", "EUR")
    ∷ ("DK", "DKK")
    ∷ ("EE", "EUR")
    ∷ ("EG", "EGP")
    ∷ ("ES", "EUR")
    ∷ ("FI", "EUR")
    ∷ ("FR", "EUR")
    ∷ ("GB", "GBP")
    ∷ ("GR", "EUR")
    ∷ ("HK", "HKD")
    ∷ ("HR", "EUR")
    ∷ ("HU", "HUF")
    ∷ ("ID", "IDR")
    ∷ ("IE", "EUR")
    ∷ ("IL", "ILS")
    ∷ ("IN", "INR")
    ∷ ("IS", "ISK")
    ∷ ("IT", "EUR")
    ∷ ("JP", "JPY")
    ∷ ("KE", "KES")
    ∷ ("KR", "KRW")
    ∷ ("KW", "KWD")
    ∷ ("LK", "LKR")
    ∷ ("LT", "EUR")
    ∷ ("LU", "EUR")
    ∷ ("LV", "EUR")
    ∷ ("MA", "MAD")
    ∷ ("MT", "EUR")
    ∷ ("MX", "MXN")
    ∷ ("MY", "MYR")
    ∷ ("NG", "NGN")
    ∷ ("NL", "EUR")
    ∷ ("NO", "NOK")
    ∷ ("NZ", "NZD")
    ∷ ("OM", "OMR")
    ∷ ("PE", "PEN")
    ∷ ("PH", "PHP")
    ∷ ("PK", "PKR")
    ∷ ("PL", "PLN")
    ∷ ("PT", "EUR")
    ∷ ("QA", "QAR")
    ∷ ("RO", "RON")
    ∷ ("RU", "RUB")
    ∷ ("SA", "SAR")
    ∷ ("SE", "SEK")
    ∷ ("SG", "SGD")
    ∷ ("SI", "EUR")
    ∷ ("SK", "EUR")
    ∷ ("TH", "THB")
    ∷ ("TR", "TRY")
    ∷ ("TW", "TWD")
    ∷ ("UA", "UAH")
    ∷ ("US", "USD")
    ∷ ("VN", "VND")
    ∷ ("ZA", "ZAR")
    ∷ []

unfoldable pub find_currency : Text → List (String × String) → Option Text
find_currency code [] = none
find_currency code ((country, currency) ∷ rest) =
    let other = find_currency code rest in
    if eqb_text (text country) code then some (text currency) else other

unfoldable pub currency_for_country : Text → Option Text
currency_for_country country_code =
    let code = to_upper (trim_space country_code) in
    if not (byte_length code == 2) then none else find_currency code country_currency

abbrev pub is_some : Option Text → Bool
is_some none = false
is_some (some currency) = true

abbrev pub is_known_country : Text → Bool
is_known_country country_code = is_some (currency_for_country country_code)
