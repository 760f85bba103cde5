-- ===== src/Ledger/Chart/Seeding.antt =====
-- What the seeding of a chart of accounts does where a code is there already.
use thittam.Base.{ℕ, ◌≡◌, refl, ap, ◌∙◌, true, none, List, ◌∷◌, ◌⊎◌, inl, inr, Bool-cases}
use thittam.Base.Rows.{has_row}
use thittam.Base.Time.{Time}
use thittam.Base.Action.{
  World, Action, Result, err, ◌>>=◌, query, settle, map_error, or_error, attempt, lift, after_call,
  QueryError, no_rows, query_failed,
}
use thittam.Base.Runs.{bind-runs, pure-runs, new_uuid-runs}
use thittam.Ledger.Model.{Account, Error, internal}
use thittam.Ledger.Tables.{Tables, AccountRow}
use thittam.Ledger.Queries.Accounts.{account_checks, has_code, create_account as insert_account}
use thittam.Ledger.Postgres
use thittam.Ledger.Postgres.{reported}
use thittam.Ledger.Postgres.Convert.{account_row}
use thittam.Ledger.Chart.{
  seed_chart_of_accounts, ChartOfAccountEntry, resolve_parent, skip_existing,
}

-- The two errors that the repository does not tell apart.
abbrev IsUntold : {A : Type 0} → Result QueryError A → Type 0
IsUntold r = (r ≡ err no_rows) ⊎ (r ≡ err query_failed)

insert_account-existing :
    (a : AccountRow) (now : Time) (t : Tables)
    → has_row (has_code a.tenant_id a.code) t.accounts ≡ true
    → IsUntold (insert_account a now t)
unfolding insert_account
insert_account-existing a now t there = elim (Bool-cases (account_checks a)) [
  | inl checked ↦ rw (checked, there) (inl refl)
  | inr refused ↦ rw refused (inr refl)
]

settle-IsUntold :
    {A : Type 0} (w : World Tables) (r : Result QueryError (A × Tables))
    → IsUntold r
    → IsUntold (settle w r).0
settle-IsUntold w r (inl h) = rw h (inl refl)
settle-IsUntold w r (inr h) = rw h (inr refl)

query-IsUntold :
    (a : AccountRow) (w : World Tables)
    → has_row (has_code a.tenant_id a.code) w.tables.accounts ≡ true
    → IsUntold (query (insert_account a) w).0
unfolding ◌>>=◌
query-IsUntold a w there = elim (Bool-cases (w.env.fails w.tick)) [
  | inl fails ↦ rw fails (inr refl)
  | inr works ↦
      rw works (settle-IsUntold (after_call w) _ (insert_account-existing a _ w.tables there))
]

untold-internal :
    {A : Type 0} (taken : Error) (r : Result QueryError A)
    → IsUntold r
    → or_error (reported internal taken) r ≡ err internal
untold-internal taken r (inl h) = rw h refl
untold-internal taken r (inr h) = rw h refl

first_fails :
    {A B : Type 0} (m : Action Tables Error A) (f : A → Action Tables Error B) (w : World Tables)
    → (m w).0 ≡ err internal
    → ((m >>= f) w).0 ≡ err internal
unfolding ◌>>=◌
first_fails m f w h = rw h refl

mapped-existing :
    (a : AccountRow) (taken : Error) (w : World Tables)
    → has_row (has_code a.tenant_id a.code) w.tables.accounts ≡ true
    → (map_error (reported internal taken) (query (insert_account a)) w).0 ≡ err internal
unfolding ◌>>=◌
mapped-existing a taken w there = untold-internal taken _ (query-IsUntold a w there)

store-existing :
    (a : Account) (w : World Tables)
    → has_row (has_code a.tenant_id a.code) w.tables.accounts ≡ true
    → (Postgres.create_account a w).0 ≡ err internal
unfolding Postgres.create_account account_row
store-existing a w there = first_fails _ _ w (mapped-existing (account_row a) _ w there)

attempt-fails :
    {B : Type 0} (m : Action Tables Error Account) (k : Action Tables Error B) (w : World Tables)
    → (m w).0 ≡ err internal
    → ((attempt m >>= λ made. lift (skip_existing made) >>= λ _. k) w).0 ≡ err internal
unfolding ◌>>=◌
attempt-fails m k w h = rw h refl

-- SeedChartOfAccounts fails, with an error that wraps no sentinel, when the code of its first
-- entry, which names no parent, exists for the tenant already.
pub seed_chart_of_accounts-existing :
    (tenant : ℕ) (e : ChartOfAccountEntry) (es : List ChartOfAccountEntry) (w : World Tables)
    → e.parent_code ≡ none
    → has_row (has_code tenant e.code) w.tables.accounts ≡ true
    → (seed_chart_of_accounts tenant (e ∷ es) w).0 ≡ err internal
unfolding seed_chart_of_accounts resolve_parent
seed_chart_of_accounts-existing tenant e es w top there = rw top (
    ap (λ r. r.0) (bind-runs _ _ w (pure-runs none w))
    ∙ ap (λ r. r.0) (bind-runs _ _ w (new_uuid-runs w))
    ∙ attempt-fails _ _ (after_call w) (store-existing _ (after_call w) there))
