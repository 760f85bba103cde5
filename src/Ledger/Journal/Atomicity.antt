-- ===== src/Ledger/Journal/Atomicity.antt =====
-- What a failed call of the service leaves behind.
use thittam.Base.{ℕ, ◌≡◌, ap, List, [], ◌∷◌, Option, none, some}
use thittam.Base.Action.{World, err, ◌>>◌, modify, pure, query}
use thittam.Base.Keeps.{
  Keeps, Keeps-query, Keeps-bind, Keeps-pure, OnSuccess, OnSuccess-ok, keeps_rules,
}
use thittam.Base.Atomic.{Atomic, Atomic-last, Succeeds-pure, Succeeds-modify, atomic_rules}
use thittam.Ledger.Model.{JournalEntry, JournalLine, Error, EntryStatus, draft, posted}
use thittam.Ledger.Tables.{Tables, CounterRow}
use thittam.Ledger.Queries.{next_journal_entry_seq, take_seq}
use thittam.Ledger.Postgres.{update_journal_status, allocate_entry_number}
use thittam.Ledger.Postgres
use thittam.Ledger.Postgres.Frames.{lookup_rules}
use thittam.Ledger.Journal.{
  announce, post_journal_entry, create_journal_entry, validate_lines, check_party, id_or_new,
}

abbrev pub all_tables : Tables → Tables
all_tables t = t

-- All but the counters of entry numbers.
abbrev pub but_counters : Tables → Tables
but_counters t = record t { counters = [] }

pub update_journal_status-Atomic :
    (tenant id by : ℕ) (s : EntryStatus) → Atomic all_tables (update_journal_status tenant id s by)
unfolding update_journal_status
update_journal_status-Atomic tenant id by draft = search atomic_rules
update_journal_status-Atomic tenant id by _ =
    Atomic-last _ _ _ (search atomic_rules) (λ _. Succeeds-pure tt)

posting_part :
    (tenant id by : ℕ) (je : JournalEntry)
    → Atomic all_tables
        (update_journal_status tenant id posted by >> (modify (announce je) >> pure je))
posting_part tenant id by je =
    Atomic-last _ _ _ (update_journal_status-Atomic tenant id by posted)
      (λ _. Succeeds-modify _ _ (Succeeds-pure je))

pub post_journal_entry-Atomic :
    (tenant id by : ℕ) → Atomic all_tables (post_journal_entry tenant id by)
unfolding post_journal_entry
post_journal_entry-Atomic tenant id by =
    search (atomic_rules, keeps_rules, lookup_rules, posting_part) depth 9

-- A call of PostJournalEntry that fails, at whatever step, leaves every table as it was and
-- publishes nothing.
pub post_failed :
    (tenant id by : ℕ) (w : World Tables) {x : Error} {v : World Tables}
    → post_journal_entry tenant id by w ≡ (err x, v)
    → v.tables ≡ w.tables
post_failed tenant id by w {x} {v} e =
    let same = (post_journal_entry-Atomic tenant id by).apply w x (ap (λ r. r.0) e) in rw e at same

check_party-Keeps :
    (P : Tables → Type 0) (tenant : ℕ) (party : Option ℕ) → Keeps P (check_party tenant party)
unfolding check_party
check_party-Keeps P tenant none = search keeps_rules
check_party-Keeps P tenant (some id) = search (keeps_rules, lookup_rules)

pub id_or_new-Keeps : (P : Tables → Type 0) (id : ℕ) → Keeps P (id_or_new id)
unfolding id_or_new
id_or_new-Keeps P id = search keeps_rules

pub validate_lines-Keeps :
    (P : Tables → Type 0) (tenant : ℕ) (ls : List JournalLine) → Keeps P (validate_lines tenant ls)
unfolding validate_lines
validate_lines-Keeps P tenant [] = search keeps_rules
validate_lines-Keeps P tenant (l ∷ ls) =
    Keeps-bind _ _ (search (keeps_rules, lookup_rules)) λ account.
      Keeps-bind _ _ (search keeps_rules) λ _.
        Keeps-bind _ _ (check_party-Keeps P tenant l.party_id) λ _.
          Keeps-bind _ _ (id_or_new-Keeps P l.id)
            λ id. Keeps-bind _ _ (validate_lines-Keeps P tenant ls) λ rest. Keeps-pure _

take_seq-Frames :
    (tenant year : ℕ) (c t : Tables) (o : Option CounterRow)
    → but_counters t ≡ c
    → OnSuccess (λ u. but_counters u ≡ c) (take_seq tenant year t o)
take_seq-Frames tenant year c t none h = OnSuccess-ok _ _ h
take_seq-Frames tenant year c t (some n) h = OnSuccess-ok _ _ h

next_seq-Frames :
    (tenant year : ℕ) (c : Tables)
    → Keeps (λ t. but_counters t ≡ c) (query (next_journal_entry_seq tenant year))
unfolding next_journal_entry_seq
next_seq-Frames tenant year c = Keeps-query _ (λ now t h. take_seq-Frames tenant year c t _ h)

allocate_entry_number-Frames :
    (tenant year : ℕ) (c : Tables)
    → Keeps (λ t. but_counters t ≡ c) (allocate_entry_number tenant year)
unfolding allocate_entry_number
allocate_entry_number-Frames tenant year c = search (keeps_rules, next_seq-Frames)

creating_part :
    (je : JournalEntry) → Atomic but_counters (Postgres.create_journal_entry je >> pure je)
unfolding Postgres.create_journal_entry
creating_part je = Atomic-last _ _ _ (search atomic_rules) (λ _. Succeeds-pure je)

create_journal_entry-Atomic : (je : JournalEntry) → Atomic but_counters (create_journal_entry je)
unfolding create_journal_entry
create_journal_entry-Atomic je =
    search
      (
        atomic_rules, keeps_rules, validate_lines-Keeps, id_or_new-Keeps,
        allocate_entry_number-Frames, creating_part,
      )
      depth 9

-- A call of CreateJournalEntry that fails, at whatever step, changes nothing but the counters of
-- entry numbers: no header and no line of the entry is left.
pub create_failed :
    (je : JournalEntry) (w : World Tables) {x : Error} {v : World Tables}
    → create_journal_entry je w ≡ (err x, v)
    → but_counters v.tables ≡ but_counters w.tables
create_failed je w {x} {v} e =
    let same = (create_journal_entry-Atomic je).apply w x (ap (λ r. r.0) e) in rw e at same

pub update_failed :
    (tenant id by : ℕ) (s : EntryStatus) (w : World Tables) {x : Error} {v : World Tables}
    → update_journal_status tenant id s by w ≡ (err x, v)
    → v.tables ≡ w.tables
update_failed tenant id by s w {x} {v} e =
    let same = (update_journal_status-Atomic tenant id by s).apply w x (ap (λ r. r.0) e) in
    rw e at same
