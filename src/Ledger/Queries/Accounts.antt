-- ===== src/Ledger/Queries/Accounts.antt =====
-- services/ledger/db/queries.sql.go: the statements about accounts and the parties of a line.
use thittam.Base.{
  ℕ, Bool, true, false, ◌&&◌, Option, none, some, List, [], ◌∷◌, ◌++◌, leb, ltb, ◌==◌, ◌+◌, ◌*◌,
  ◌-◌, if◌then◌else◌,
}
use thittam.Base.Rows.{find_row, has_row, update_rows, keep_rows, order_by}
use thittam.Base.Text.{Text, eqb_text}
use thittam.Base.Action.{
  Statement, Result, ok, err, QueryError, no_rows, unique_violation, query_failed,
}
use thittam.Ledger.Model.{AccountType, CostBehavior, other_type}
use thittam.Ledger.Tables.{Tables, AccountRow, PartyRow, ContactRow}

abbrev one_row : {A : Type 0} → Option A → Tables → Result QueryError (A × Tables)
one_row none t = err no_rows
one_row (some a) t = ok (a, t)

abbrev pub is_account : ℕ → ℕ → AccountRow → Bool
is_account id tenant a = a.id == id && a.tenant_id == tenant

abbrev pub has_code : ℕ → Text → AccountRow → Bool
has_code tenant code a = a.tenant_id == tenant && eqb_text a.code code

abbrev is_known_type : AccountType → Bool
is_known_type (other_type s) = false
is_known_type _ = true

unfoldable pub parent_exists : Tables → Option ℕ → Bool
parent_exists t none = true
parent_exists t (some id) = has_row (λ a. a.id == id) t.accounts

abbrev is_digit : ℕ → Bool
is_digit c = leb 48 c && leb c 57

abbrev is_upper : ℕ → Bool
is_upper c = leb 65 c && leb c 90

-- The patterns ^[0-9]{4}$ and ^[A-Z]{3}$; NULL passes a CHECK.
abbrev is_last4 : Option Text → Bool
is_last4 none = true
is_last4 (some (a ∷ b ∷ c ∷ d ∷ [])) = is_digit a && (is_digit b && (is_digit c && is_digit d))
is_last4 (some _) = false

abbrev is_currency : Option Text → Bool
is_currency none = true
is_currency (some (a ∷ b ∷ c ∷ [])) = is_upper a && (is_upper b && is_upper c)
is_currency (some _) = false

abbrev all_or_none : Option Text → Option Text → Option Text → Bool
all_or_none none none none = true
all_or_none (some a) (some b) (some c) = true
all_or_none _ _ _ = false

-- The CHECK constraints of the table.
unfoldable pub account_checks : AccountRow → Bool
account_checks a =
    is_known_type a.account_type
    && (is_last4 a.account_last4
        && (is_currency a.bank_currency && all_or_none a.bank_name a.account_last4 a.bank_currency))

unfoldable pub create_account : AccountRow → Statement Tables AccountRow
create_account a now t =
    if account_checks a
    then if has_row (has_code a.tenant_id a.code) t.accounts
      then err no_rows
      else if has_row (λ x. x.id == a.id) t.accounts
      then err unique_violation
      else if parent_exists t a.parent_id
      then ok (a, record t { accounts = t.accounts ++ a ∷ [] })
      else err query_failed
    else err query_failed

unfoldable pub get_account : ℕ → ℕ → Statement Tables AccountRow
get_account id tenant now t = one_row (find_row (is_account id tenant) t.accounts) t

unfoldable pub get_account_by_code : Text → ℕ → Statement Tables AccountRow
get_account_by_code code tenant now t = one_row (find_row (has_code tenant code) t.accounts) t

-- The value of a code that matches ^1[0-9]{3}$, as code::int.
abbrev pub bank_code : Text → Option ℕ
bank_code (a ∷ b ∷ c ∷ d ∷ []) =
    if a == 49 && (is_digit b && (is_digit c && is_digit d))
    then some (1000 + (100 * (b - 48) + (10 * (c - 48) + (d - 48))))
    else none
bank_code _ = none

abbrev pub larger_code : Option ℕ → ℕ → ℕ
larger_code none n = n
larger_code (some m) n = if ltb n m then m else n

-- MAX over the codes of the tenant, or 0.
unfoldable pub max_bank_code : ℕ → List AccountRow → ℕ
max_bank_code tenant [] = 0
max_bank_code tenant (a ∷ rest_rows) =
    let rest = max_bank_code tenant rest_rows in
    if a.tenant_id == tenant then larger_code (bank_code a.code) rest else rest

unfoldable pub next_bank_account_code : ℕ → Statement Tables ℕ
next_bank_account_code tenant now t = ok (max_bank_code tenant t.accounts, t)

abbrev pub classify : Option CostBehavior → AccountRow → AccountRow
classify b a = record a { cost_behavior = b }

abbrev pub classified :
    (AccountRow → Bool)
    → Option CostBehavior
    → Tables
    → Option AccountRow
    → Result QueryError (AccountRow × Tables)
classified p b t none = err no_rows
classified p b t (some a) =
    ok (classify b a, record t { accounts = update_rows p (classify b) t.accounts })

unfoldable pub set_account_cost_behavior : ℕ → ℕ → Option CostBehavior → Statement Tables AccountRow
set_account_cost_behavior id tenant b now t =
    classified (is_account id tenant) b t (find_row (is_account id tenant) t.accounts)

abbrev is_party : ℕ → ℕ → PartyRow → Bool
is_party id tenant p = p.id == id && p.tenant_id == tenant

unfoldable pub get_party : ℕ → ℕ → Statement Tables PartyRow
get_party id tenant now t = one_row (find_row (is_party id tenant) t.parties) t

unfoldable pub list_party_contacts : ℕ → ℕ → Statement Tables (List ContactRow)
list_party_contacts tenant party now t = ok (
  order_by (λ c d. leb c.position d.position)
      (keep_rows (λ c. c.tenant_id == tenant && c.party_id == party) t.contacts),
  t,
)
