-- ===== src/Ledger/Tables.antt =====
-- services/ledger/db/models.go: the rows of the tables, where a nullable column is an `Option`, and
-- the tables themselves. `publisher` and `published` stand for the optional event publisher of
-- the service and the entries that it was called with.
use thittam.Base.{ℕ, Bool, Option, List}
use thittam.Base.Int.{ℤ}
use thittam.Base.Text.{Text}
use thittam.Base.Time.{Time}
use thittam.Ledger.Model.{
  AccountType, PartyType, PeriodStatus, EntryStatus, CostBehavior, JournalEntry,
}

pub record AccountRow : Type 0 where
  pub id : ℕ
  pub tenant_id : ℕ
  pub code : Text
  pub name : Text
  pub account_type : AccountType
  pub parent_id : Option ℕ
  pub is_active : Bool
  pub bank_name : Option Text
  pub account_last4 : Option Text
  pub bank_currency : Option Text
  pub cost_behavior : Option CostBehavior

pub record PeriodRow : Type 0 where
  pub id : ℕ
  pub tenant_id : ℕ
  pub year : ℕ
  pub month : ℕ
  pub status : PeriodStatus
  pub closed_by : Option ℕ
  pub closed_at : Option Time

pub record EntryRow : Type 0 where
  pub id : ℕ
  pub tenant_id : ℕ
  pub production_id : Option ℕ
  pub period_id : ℕ
  pub entry_number : Text
  pub reference : Option Text
  pub narration : Text
  pub status : EntryStatus
  pub posted_by : Option ℕ
  pub posted_at : Option Time
  pub created_at : Time

pub record CounterRow : Type 0 where
  pub tenant_id : ℕ
  pub year : ℕ
  pub next_seq : ℕ

pub record LineRow : Type 0 where
  pub id : ℕ
  pub journal_id : ℕ
  pub account_id : ℕ
  pub debit_amount : ℤ
  pub credit_amount : ℤ
  pub currency : Text
  pub description : Option Text
  pub party_id : Option ℕ

pub record CreateJournalEntryParams : Type 0 where
  pub id : ℕ
  pub tenant_id : ℕ
  pub production_id : Option ℕ
  pub period_id : ℕ
  pub entry_number : Text
  pub reference : Option Text
  pub narration : Text
  pub status : EntryStatus

pub record CreateJournalLineParams : Type 0 where
  pub id : ℕ
  pub journal_id : ℕ
  pub account_id : ℕ
  pub debit_amount : ℤ
  pub credit_amount : ℤ
  pub description : Option Text
  pub party_id : Option ℕ

pub record PartyRow : Type 0 where
  pub id : ℕ
  pub tenant_id : ℕ
  pub name : Text
  pub party_type : PartyType
  pub email : Text
  pub phone : Text
  pub tax_id : Text
  pub address : Text
  pub default_currency : Option Text
  pub is_active : Bool

pub record ContactRow : Type 0 where
  pub id : ℕ
  pub tenant_id : ℕ
  pub party_id : ℕ
  pub name : Text
  pub designation : Text
  pub email : Text
  pub phone : Text
  pub is_primary : Bool
  pub position : ℕ

pub record Tables : Type 0 where
  pub accounts : List AccountRow
  pub periods : List PeriodRow
  pub entries : List EntryRow
  pub counters : List CounterRow
  pub lines : List LineRow
  pub parties : List PartyRow
  pub contacts : List ContactRow
  pub publisher : Bool
  pub published : List JournalEntry
