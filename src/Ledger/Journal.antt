-- ===== src/Ledger/Journal.antt =====
-- services/ledger/service.go: the journal entries of the service.
pub mod Balance
pub mod Create
pub mod Mirror
pub mod Post
pub mod Void
pub mod Completes
pub mod Leftover
pub mod Sound
pub mod Invariant
pub mod Atomicity
pub mod History
use thittam.Base.{
  ℕ, Bool, true, false, not, Option, none, some, List, [], ◌∷◌, ◌++◌, map, length, ltb, ◌==◌,
  if◌then◌else◌,
}
use thittam.Base.Int.{ℤ, pos, ◌+ℤ◌, eqb_ℤ}
use thittam.Base.Text.{Text, text}
use thittam.Base.Time.{Time, year_of}
use thittam.Base.Action.{
  Result, ok, err, Action, ◌>>=◌, ◌>>◌, pure, raise, raise_if, map_error, modify, lift, new_uuid,
  time_now,
}
use thittam.Ledger.Model.{
  JournalEntry, JournalLine, AccountingPeriod, PeriodStatus, closed_period, open_period,
  EntryStatus, draft, posted, void, Error, account_not_found, account_inactive, party_not_found,
  period_closed, journal_already_posted, journal_void, journal_not_balanced, journal_too_few_lines,
  only_posted_voided,
}
use thittam.Ledger.Tables.{Tables}
use thittam.Ledger.Postgres.{
  Repo, get_account_by_id, get_party_by_id, get_period_by_id, allocate_entry_number,
  get_journal_entry, update_journal_status,
}
use thittam.Ledger.Postgres

-- validateBalance; `total_debit` and `total_credit` are its two sums, from the first line on.
abbrev pub total_debit : ℤ → List JournalLine → ℤ
total_debit acc [] = acc
total_debit acc (l ∷ ls) = total_debit (acc +ℤ l.debit_amount) ls

abbrev pub total_credit : ℤ → List JournalLine → ℤ
total_credit acc [] = acc
total_credit acc (l ∷ ls) = total_credit (acc +ℤ l.credit_amount) ls

unfoldable pub validate_balance : List JournalLine → Result Error (Unit {0})
validate_balance lines =
    if eqb_ℤ (total_debit (pos 0) lines) (total_credit (pos 0) lines)
    then ok tt
    else err journal_not_balanced

unfoldable pub check_party : ℕ → Option ℕ → Repo (Unit {0})
check_party tenant none = pure tt
check_party tenant (some party) = do
  map_error (λ _. party_not_found) (get_party_by_id tenant party)
  pure tt

-- An identifier that the caller left at uuid.Nil is drawn.
unfoldable pub id_or_new : ℕ → Repo ℕ
id_or_new id = if id == 0 then new_uuid else pure id

-- The loop of CreateJournalEntry over the lines.
unfoldable pub validate_lines : ℕ → List JournalLine → Repo (List JournalLine)
validate_lines tenant [] = pure []
validate_lines tenant (l ∷ ls) = do
  account ← map_error (λ _. account_not_found) (get_account_by_id tenant l.account_id)
  raise_if (not account.is_active) account_inactive
  check_party tenant l.party_id
  id ← id_or_new l.id
  rest ← validate_lines tenant ls
  pure (record l { id = id } ∷ rest)

unfoldable pub create_journal_entry : JournalEntry → Repo JournalEntry
create_journal_entry je = do
  raise_if (ltb (length je.lines) 2) journal_too_few_lines
  lines ← validate_lines je.tenant_id je.lines
  id ← id_or_new je.id
  now ← time_now
  number ← allocate_entry_number je.tenant_id (year_of now)
  let entry = record je { id = id; lines = lines; status = draft; entry_number = number }
  Postgres.create_journal_entry entry
  pure entry

abbrev pub is_closed : PeriodStatus → Bool
is_closed closed_period = true
is_closed open_period = false

-- The two early returns of PostJournalEntry on the status.
abbrev pub check_draft : EntryStatus → Result Error (Unit {0})
check_draft draft = ok tt
check_draft posted = err journal_already_posted
check_draft void = err journal_void

abbrev pub check_posted : EntryStatus → Result Error (Unit {0})
check_posted void = err journal_void
check_posted posted = ok tt
check_posted draft = err only_posted_voided

-- The publisher is called when there is one, and what it returns is dropped.
abbrev pub announce : JournalEntry → Tables → Tables
announce je t = if t.publisher then record t { published = t.published ++ je ∷ [] } else t

unfoldable pub post_journal_entry : ℕ → ℕ → ℕ → Repo JournalEntry
post_journal_entry tenant id by = do
  je ← get_journal_entry tenant id
  lift (check_draft je.status)
  period ← get_period_by_id tenant je.period_id
  raise_if (is_closed period.status) period_closed
  lift (validate_balance je.lines)
  now ← time_now
  update_journal_status tenant id posted by
  let done = record je { status = posted; posted_by = some by; posted_at = some now }
  modify (announce done)
  pure done

-- One line of the reversing entry: debit and credit change places; the party is not carried over.
abbrev pub reverse_line : ℕ → JournalLine → JournalLine
reverse_line id l = record {
  id = id;
  journal_id = 0;
  account_id = l.account_id;
  debit_amount = l.credit_amount;
  credit_amount = l.debit_amount;
  currency = l.currency;
  description = text "REVERSAL: " ++ l.description;
  party_id = none;
}

unfoldable pub reverse_lines : List JournalLine → Repo (List JournalLine)
reverse_lines [] = pure []
reverse_lines (l ∷ ls) = do id ← new_uuid; rest ← reverse_lines ls; pure (reverse_line id l ∷ rest)

abbrev pub reversal_of : ℕ → JournalEntry → List JournalLine → JournalEntry
reversal_of tenant original lines = record {
  id = 0;
  tenant_id = tenant;
  production_id = original.production_id;
  period_id = original.period_id;
  entry_number = [];
  reference = original.entry_number;
  narration = text "REVERSAL OF " ++ (original.entry_number ++ (text ": " ++ original.narration));
  status = draft;
  lines = lines;
  posted_by = none;
  posted_at = none;
  created_at = none;
}

unfoldable pub void_journal_entry : ℕ → ℕ → ℕ → Repo JournalEntry
void_journal_entry tenant id by = do
  original ← get_journal_entry tenant id
  lift (check_posted original.status)
  lines ← reverse_lines original.lines
  reversing ← create_journal_entry (reversal_of tenant original lines)
  reversed ← post_journal_entry tenant reversing.id by
  now ← time_now
  update_journal_status tenant id void by
  pure reversed
