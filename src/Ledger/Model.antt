-- ===== src/Ledger/Model.antt =====
-- services/ledger/models.go and errors.go: the records of the general ledger. Identifiers are
-- numbers, with 0 for uuid.Nil; an optional pointer is an `Option`; amounts are in hundredths.
use thittam.Base.{ℕ, Bool, Option, List}
use thittam.Base.Int.{ℤ}
use thittam.Base.Text.{Text}
use thittam.Base.Time.{Time}

pub data AccountType : Type 0 where
  asset liability equity revenue expense : AccountType
  -- any other text that a request brings
  other_type : Text → AccountType

pub data CostBehavior : Type 0 where
  unclassified fixed variable : CostBehavior
  other_behavior : Text → CostBehavior

pub data PeriodStatus : Type 0 where
  open_period closed_period : PeriodStatus

pub data EntryStatus : Type 0 where
  draft posted void : EntryStatus

pub data PartyType : Type 0 where
  customer supplier both : PartyType
  other_party : Text → PartyType

pub record Account : Type 0 where
  pub id : ℕ
  pub tenant_id : ℕ
  pub code : Text
  pub name : Text
  pub account_type : AccountType
  pub parent_id : Option ℕ
  pub is_active : Bool
  pub bank_name : Text
  pub account_last4 : Text
  pub cost_behavior : CostBehavior
  pub bank_currency : Text

pub record AccountingPeriod : Type 0 where
  pub id : ℕ
  pub tenant_id : ℕ
  pub year : ℕ
  pub month : ℕ
  pub status : PeriodStatus
  pub closed_by : Option ℕ
  pub closed_at : Option Time

pub record JournalLine : Type 0 where
  pub id : ℕ
  pub journal_id : ℕ
  pub account_id : ℕ
  pub debit_amount : ℤ
  pub credit_amount : ℤ
  pub currency : Text
  pub description : Text
  pub party_id : Option ℕ

pub record JournalEntry : Type 0 where
  pub id : ℕ
  pub tenant_id : ℕ
  pub production_id : Option ℕ
  pub period_id : ℕ
  pub entry_number : Text
  pub reference : Text
  pub narration : Text
  pub status : EntryStatus
  pub lines : List JournalLine
  pub posted_by : Option ℕ
  pub posted_at : Option Time
  pub created_at : Option Time

pub record TrialBalanceEntry : Type 0 where
  pub account_id : ℕ
  pub code : Text
  pub name : Text
  pub account_type : AccountType
  pub debit : ℤ
  pub credit : ℤ
  pub balance : ℤ

pub record PartyContact : Type 0 where
  pub id : ℕ
  pub party_id : ℕ
  pub name : Text
  pub designation : Text
  pub email : Text
  pub phone : Text
  pub is_primary : Bool

pub record Party : Type 0 where
  pub id : ℕ
  pub tenant_id : ℕ
  pub name : Text
  pub party_type : PartyType
  pub email : Text
  pub phone : Text
  pub tax_id : Text
  pub address : Text
  pub default_currency : Text
  pub is_active : Bool
  pub contacts : List PartyContact

-- The sentinel errors; `internal` is an error that wraps none of them.
pub data Error : Type 0 where
  account_not_found account_inactive account_code_exists invalid_account_type : Error
  bank_name_invalid account_number_invalid bank_currency_invalid no_bank_code_available : Error
  party_not_found party_name_exists party_name_invalid party_type_invalid : Error
  party_email_invalid party_field_too_long party_currency_invalid contact_invalid : Error
  period_not_found period_closed period_already_exists : Error
  journal_not_found journal_already_posted journal_void journal_not_balanced : Error
  journal_too_few_lines cost_behavior_invalid cost_behavior_not_expense : Error
  month_range_invalid : Error
  only_posted_voided unsupported_status internal : Error
