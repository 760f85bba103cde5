-- ===== src/Ledger/Postgres/Frames.antt =====
-- The lookups of the repository change no table, so they keep every property of the tables.
use thittam.Base.{ℕ, Option, none, some}
use thittam.Base.Text.{Text}
use thittam.Base.Action.{query}
use thittam.Base.Keeps.{Keeps, Keeps-query, OnSuccess, OnSuccess-ok, OnSuccess-err, keeps_rules}
use thittam.Ledger.Tables.{Tables}
use thittam.Ledger.Queries.{
  one_row, get_journal_entry as select_journal_entry, list_journal_lines, get_accounting_period,
}
use thittam.Ledger.Queries.Accounts.{
  get_account, get_account_by_code as select_account_by_code, get_party, list_party_contacts,
}
use thittam.Ledger.Postgres.{
  get_account_by_id, get_account_by_code, get_party_by_id, get_period_by_id, get_journal_entry,
}

module _ (P : Tables → Type 0) where
  one_row-OnSuccess : {A : Type 0} (o : Option A) (t : Tables) → P t → OnSuccess P (one_row o t)
  one_row-OnSuccess none t h = OnSuccess-err _
  one_row-OnSuccess (some a) t h = OnSuccess-ok a t h

  select_journal_entry-Keeps : (id tenant : ℕ) → Keeps P (query (select_journal_entry id tenant))
  unfolding select_journal_entry
  select_journal_entry-Keeps id tenant = Keeps-query _ (λ now t h. one_row-OnSuccess _ t h)

  list_journal_lines-Keeps : (id tenant : ℕ) → Keeps P (query (list_journal_lines id tenant))
  unfolding list_journal_lines
  list_journal_lines-Keeps id tenant = Keeps-query _ (λ now t h. OnSuccess-ok _ t h)

  pub get_journal_entry-Keeps : (tenant id : ℕ) → Keeps P (get_journal_entry tenant id)
  unfolding get_journal_entry
  get_journal_entry-Keeps tenant id =
      search (keeps_rules, select_journal_entry-Keeps, list_journal_lines-Keeps)

  get_accounting_period-Keeps : (id tenant : ℕ) → Keeps P (query (get_accounting_period id tenant))
  unfolding get_accounting_period
  get_accounting_period-Keeps id tenant = Keeps-query _ (λ now t h. one_row-OnSuccess _ t h)

  pub get_period_by_id-Keeps : (tenant id : ℕ) → Keeps P (get_period_by_id tenant id)
  unfolding get_period_by_id
  get_period_by_id-Keeps tenant id = search (keeps_rules, get_accounting_period-Keeps)

  get_account-Keeps : (id tenant : ℕ) → Keeps P (query (get_account id tenant))
  unfolding get_account
  get_account-Keeps id tenant = Keeps-query _ (λ now t h. one_row-OnSuccess _ t h)

  pub get_account_by_id-Keeps : (tenant id : ℕ) → Keeps P (get_account_by_id tenant id)
  unfolding get_account_by_id
  get_account_by_id-Keeps tenant id = search (keeps_rules, get_account-Keeps)

  select_account_by_code-Keeps :
      (code : Text) (tenant : ℕ) → Keeps P (query (select_account_by_code code tenant))
  unfolding select_account_by_code
  select_account_by_code-Keeps code tenant = Keeps-query _ (λ now t h. one_row-OnSuccess _ t h)

  pub get_account_by_code-Keeps :
      (tenant : ℕ) (code : Text) → Keeps P (get_account_by_code tenant code)
  unfolding get_account_by_code
  get_account_by_code-Keeps tenant code = search (keeps_rules, select_account_by_code-Keeps)

  get_party-Keeps : (id tenant : ℕ) → Keeps P (query (get_party id tenant))
  unfolding get_party
  get_party-Keeps id tenant = Keeps-query _ (λ now t h. one_row-OnSuccess _ t h)

  list_party_contacts-Keeps :
      (tenant party : ℕ) → Keeps P (query (list_party_contacts tenant party))
  unfolding list_party_contacts
  list_party_contacts-Keeps tenant party = Keeps-query _ (λ now t h. OnSuccess-ok _ t h)

  pub get_party_by_id-Keeps : (tenant id : ℕ) → Keeps P (get_party_by_id tenant id)
  unfolding get_party_by_id
  get_party_by_id-Keeps tenant id = search (keeps_rules, get_party-Keeps, list_party_contacts-Keeps)

pub ruleset lookup_rules = (
  get_journal_entry-Keeps, get_period_by_id-Keeps, get_account_by_id-Keeps,
  get_account_by_code-Keeps, get_party_by_id-Keeps,
)
