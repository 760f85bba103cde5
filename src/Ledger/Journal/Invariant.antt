-- ===== src/Ledger/Journal/Invariant.antt =====
-- Every operation of the service on journal entries keeps the books sound.
use thittam.Base.{
  ℕ, ◌≡◌, refl, sym, subst, Bool, true, false, ◌&&◌, List, [], ◌∷◌, ◌++◌, All-append, arith, Option,
  none, some, ◌==◌, if◌then◌else◌,
}
use thittam.Base.Rows.{has_row, update_rows}
use thittam.Base.Time.{Time}
use thittam.Base.Action.{World, Result, ok, err}
use thittam.Base.Keeps.{
  Keeps, Keeps-query, Keeps-bind, Keeps-pure, Keeps-new_uuid, Keeps-then, Keeps-map_error,
  Keeps-transaction, Leads-query, Leads-map_error, OnSuccess, OnSuccess-if, OnSuccess-ok,
  OnSuccess-err, OnSuccess-map, statement_rules, keeps_rules,
}
use thittam.Ledger.Model.{JournalEntry, JournalLine, Error, draft, posted, void}
use thittam.Ledger.Tables.{
  Tables, EntryRow, CounterRow, CreateJournalEntryParams, CreateJournalLineParams,
}
use thittam.Ledger.Queries.{
  create_journal_entry as insert_journal_entry, create_journal_line, new_entry, new_line,
  debit_or_credit, line_checks, take_seq, next_journal_entry_seq, void_journal_entry as void_entry,
  is_entry_in, post_row, void_row, returning,
}
use thittam.Ledger.Postgres.{update_journal_status, allocate_entry_number, insert_lines}
use thittam.Ledger.Postgres
use thittam.Ledger.Postgres.Convert.{entry_params, line_params}
use thittam.Ledger.Postgres.Frames.{lookup_rules}
use thittam.Ledger.Journal.{
  announce, post_journal_entry, create_journal_entry, void_journal_entry, reverse_lines,
}
use thittam.Ledger.Journal.Post.{Posting, post_journal_entry-Posting}
use thittam.Ledger.Journal.Atomicity.{post_failed, validate_lines-Keeps, id_or_new-Keeps}
use thittam.Ledger.Journal.Sound.{
  IsSound, DraftOnly, DraftOnly-of_absent, IsSettled-post, IsSettled-void, IsSettled-line,
  IsSettled-of_draft,
}

and_left : (a b : Bool) → (a && b) ≡ true → a ≡ true
and_left a b h = ground arith

-- Sound books in which the entry `id` is a draft.
abbrev IsOpen : ℕ → Tables → Type 0
IsOpen id t = IsSound t × DraftOnly id t.entries

new_entry-IsOpen :
    (a : CreateJournalEntryParams) (now : Time) (t : Tables)
    → a.status ≡ draft
    → has_row (λ e. e.id == a.id) t.entries ≡ false
    → IsSound t
    → IsOpen a.id (record t { entries = t.entries ++ new_entry a now ∷ [] })
new_entry-IsOpen a now t d absent h = (
  record {
    settled = All-append _ t.entries _ h.settled (IsSettled-of_draft _ a.status a.id d, tt);
    one_sided = h.one_sided;
  },
  All-append _ t.entries _ (DraftOnly-of_absent a.id t.entries absent) ((λ _. d), tt),
)

insert_journal_entry-IsOpen :
    (a : CreateJournalEntryParams) (now : Time) (t : Tables)
    → a.status ≡ draft
    → IsSound t
    → OnSuccess (IsOpen a.id) (insert_journal_entry a now t)
unfolding insert_journal_entry
insert_journal_entry-IsOpen a now t d h =
    OnSuccess-if _ _ _ (λ there. OnSuccess-err _)
      λ absent. let opened = new_entry-IsOpen a now t d absent h in search (statement_rules, opened)

line_checks-one_sided :
    (a : CreateJournalLineParams)
    → line_checks a ≡ true
    → debit_or_credit a.debit_amount a.credit_amount ≡ true
line_checks-one_sided a h = and_left _ _ h

new_line-IsOpen :
    (a : CreateJournalLineParams) (t : Tables)
    → line_checks a ≡ true
    → IsSound t
    → DraftOnly a.journal_id t.entries
    → IsOpen a.journal_id (record t { lines = t.lines ++ new_line a ∷ [] })
new_line-IsOpen a t checked h d = (
  record {
    settled = IsSettled-line t.lines (new_line a) t.entries d h.settled;
    one_sided = All-append _ t.lines _ h.one_sided (line_checks-one_sided a checked, tt);
  },
  d,
)

create_journal_line-IsOpen :
    (a : CreateJournalLineParams) (now : Time) (t : Tables)
    → IsOpen a.journal_id t
    → OnSuccess (IsOpen a.journal_id) (create_journal_line a now t)
unfolding create_journal_line
create_journal_line-IsOpen a now t (h, d) =
    OnSuccess-if _ _ _ (λ checked. search (statement_rules, new_line-IsOpen a t checked h d))
      (λ refused. OnSuccess-err _)

insert_lines-IsOpen : (id : ℕ) (ls : List JournalLine) → Keeps (IsOpen id) (insert_lines id ls)
unfolding insert_lines line_params
insert_lines-IsOpen id [] = Keeps-pure tt
insert_lines-IsOpen id (l ∷ ls) =
    Keeps-bind _ _
      (Keeps-map_error _ _ (Keeps-query _ (create_journal_line-IsOpen (line_params id l))))
      (λ _. insert_lines-IsOpen id ls)

insert_entry-IsSound :
    (je : JournalEntry) → je.status ≡ draft → Keeps IsSound (Postgres.create_journal_entry je)
unfolding Postgres.create_journal_entry entry_params
insert_entry-IsSound je d = Keeps-transaction _ _ (
    Keeps-then {Q = IsOpen je.id} _ _
      (Keeps-map_error _ _ (
        Keeps-query _ λ now t h.
          OnSuccess-map _ (λ _ o. o.0) (insert_journal_entry-IsOpen (entry_params je) now t d h)))
      (Leads-map_error _ _
        (Leads-query _ λ now t h. insert_journal_entry-IsOpen (entry_params je) now t d h))
      (λ t o. o.0) (λ _. insert_lines-IsOpen je.id je.lines))

take_seq-IsSound :
    (tenant year : ℕ) (t : Tables) (o : Option CounterRow)
    → IsSound t
    → OnSuccess IsSound (take_seq tenant year t o)
take_seq-IsSound tenant year t none h =
    OnSuccess-ok _ _ (record { settled = h.settled; one_sided = h.one_sided })
take_seq-IsSound tenant year t (some c) h =
    OnSuccess-ok _ _ (record { settled = h.settled; one_sided = h.one_sided })

allocate-IsSound : (tenant year : ℕ) → Keeps IsSound (allocate_entry_number tenant year)
unfolding allocate_entry_number next_journal_entry_seq
allocate-IsSound tenant year =
    Keeps-bind _ _
      (Keeps-map_error _ _ (Keeps-query _ λ now t h. take_seq-IsSound tenant year t _ h))
      (λ n. Keeps-pure _)

pub create_journal_entry-IsSound : (je : JournalEntry) → Keeps IsSound (create_journal_entry je)
unfolding create_journal_entry
create_journal_entry-IsSound je =
    search
      (keeps_rules, validate_lines-Keeps, id_or_new-Keeps, allocate-IsSound, insert_entry-IsSound)
      depth 9

if-IsSound : (b : Bool) (t u : Tables) → IsSound t → IsSound u → IsSound (if b then t else u)
if-IsSound true t u g h = g
if-IsSound false t u g h = h

announce-IsSound : (je : JournalEntry) (t : Tables) → IsSound t → IsSound (announce je t)
announce-IsSound je t h =
    if-IsSound t.publisher _ t (record { settled = h.settled; one_sided = h.one_sided }) h

Posting-IsSound :
    {tenant id by : ℕ} {t u : Tables} {je : JournalEntry}
    → Posting tenant id by t u je
    → IsSound t
    → IsSound u
Posting-IsSound {tenant} {id} {by} {t} {u} {je} p h = rw p.changed (
    announce-IsSound je
      (record t {
        entries = update_rows (is_entry_in draft id tenant) (post_row by p.at) t.entries;
      })
      (record {
        settled = IsSettled-post id tenant by p.at t.lines t.entries p.balanced h.settled;
        one_sided = h.one_sided;
      }))

post-cases :
    (tenant id by : ℕ) (w : World Tables) (r : Result Error JournalEntry × World Tables)
    → post_journal_entry tenant id by w ≡ r
    → IsSound w.tables
    → IsSound r.1.tables
post-cases tenant id by w (ok je, v) e h =
    Posting-IsSound (post_journal_entry-Posting tenant id by w e) h
post-cases tenant id by w (err x, v) e h = subst IsSound (sym (post_failed tenant id by w e)) h

pub post_journal_entry-IsSound :
    (tenant id by : ℕ) → Keeps IsSound (post_journal_entry tenant id by)
post_journal_entry-IsSound tenant id by = record {
  apply = λ w h. post-cases tenant id by w (post_journal_entry tenant id by w) refl h;
}

voided-IsSound :
    (id tenant : ℕ) (t : Tables)
    → IsSound t
    → IsSound (record t { entries = update_rows (is_entry_in posted id tenant) void_row t.entries })
voided-IsSound id tenant t h = record {
  settled = IsSettled-void id tenant t.lines t.entries h.settled;
  one_sided = h.one_sided;
}

returning-IsSound :
    (id tenant : ℕ) (t : Tables) (o : Option EntryRow)
    → IsSound t
    → OnSuccess IsSound (returning (is_entry_in posted id tenant) void_row t o)
returning-IsSound id tenant t none h = OnSuccess-err _
returning-IsSound id tenant t (some e) h = OnSuccess-ok _ _ (voided-IsSound id tenant t h)

void_entry-IsSound :
    (id tenant : ℕ) (now : Time) (t : Tables)
    → IsSound t
    → OnSuccess IsSound (void_entry id tenant now t)
unfolding void_entry
void_entry-IsSound id tenant now t h = returning-IsSound id tenant t _ h

update_journal_status-IsSound :
    (tenant id by : ℕ) → Keeps IsSound (update_journal_status tenant id void by)
unfolding update_journal_status
update_journal_status-IsSound tenant id by =
    Keeps-bind _ _
      (Keeps-map_error _ _ (Keeps-query _ λ now t h. void_entry-IsSound id tenant now t h))
      (λ _. Keeps-pure tt)

pub reverse_lines-Keeps : (P : Tables → Type 0) (ls : List JournalLine) → Keeps P (reverse_lines ls)
unfolding reverse_lines
reverse_lines-Keeps P [] = Keeps-pure _
reverse_lines-Keeps P (l ∷ ls) =
    Keeps-bind _ _ Keeps-new_uuid
      λ id. Keeps-bind _ _ (reverse_lines-Keeps P ls) λ rest. Keeps-pure _

pub void_journal_entry-IsSound :
    (tenant id by : ℕ) → Keeps IsSound (void_journal_entry tenant id by)
unfolding void_journal_entry
void_journal_entry-IsSound tenant id by =
    search
      (
        keeps_rules, lookup_rules, reverse_lines-Keeps, create_journal_entry-IsSound,
        post_journal_entry-IsSound, update_journal_status-IsSound,
      )
      depth 9
